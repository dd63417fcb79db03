-- ===== src/Allocation/Checked.antt =====
-- A sequence that `allocate_sequence` makes passes `assert_collection_type` of its type.
use memoir_cs397_atc.Prelude.{
  ℕ, suc, ◌+◌, ◌^◌, ◌<◌, ◌≤◌, length, nat_eq, ◌≡◌, refl, ap, sym, ◌∙◌, true, some, List, arith,
  ==-true, ==-false,
}
use memoir_cs397_atc.Result.{ok}
use memoir_cs397_atc.Types.{Registry, sequence_type, get_sequence_type, update}
use memoir_cs397_atc.Types.WellFormed.{Exists, IsRegistry}
use memoir_cs397_atc.Types.Kept.{get_sequence_type-IsRegistry}
use memoir_cs397_atc.Types.Calls.{here, get_sequence_type-again}
use memoir_cs397_atc.Types.Unique.{found-get_sequence_type}
use memoir_cs397_atc.Types.Equals.{equals, equals_info}
use memoir_cs397_atc.Objects.{Runtime, sequence_alloc, load, get_type, types}
use memoir_cs397_atc.Init.{new_sequence}
use memoir_cs397_atc.Init.Builds.{Grows, Grows-trans}
use memoir_cs397_atc.Init.Length.{init_elements-length}
use memoir_cs397_atc.Init.Total.{ElementsOf, Made, init_elements-total}
use memoir_cs397_atc.Allocation.{allocate_sequence, assert_type}

-- The runtime in which the type of sequences of `e` is made.
abbrev pub with_type : Runtime → ℕ → Runtime
with_type r e = record r { registry = (get_sequence_type e r.registry).1 }

described :
    (r : Runtime) (e : ℕ)
    → IsRegistry r.registry
    → Exists r.registry.info e
    → let (t, g) = get_sequence_type e r.registry in g.info t ≡ some (sequence_type e)
described r e v there =
    (get_sequence_type-IsRegistry v e there).sequences e (get_sequence_type e r.registry).0
      (found-get_sequence_type e r.registry)

equals_self :
    (g : Registry) (t e : ℕ) → g.info t ≡ some (sequence_type e) → equals 1 g t t ≡ ok true
unfolding equals equals_info
equals_self g t e typed = rw (equals, typed, typed) (ap ok (==-true e e refl))

-- The runtime in which the next object is that sequence.
abbrev new_at : Runtime → ℕ → List ℕ → Runtime
new_at s t xs = record s {
  objects = update s.objects s.next_object (sequence_alloc t xs);
  next_object = suc s.next_object;
}

new_at-Grows : (s : Runtime) (t : ℕ) (xs : List ℕ) → Grows s (new_at s t xs)
new_at-Grows s t xs = record {
  registry = refl;
  next_object = omega arith;
  keeps = λ p h. ground arith;
}

-- An object of a known sequence type passes the assertion of that type.
assert_type-ok :
    (r : Runtime) (p t e : ℕ) (xs : List ℕ)
    → 0 < p
    → r.objects p ≡ some (sequence_alloc t xs)
    → r.registry.info t ≡ some (sequence_type e)
    → assert_type 1 t p r ≡ ok (true, r)
unfolding assert_type load get_type
assert_type-ok r p t e xs positive holds typed =
    let ne = ==-false p 0 (λ z. omega arith) in rw (ne, ne, holds, equals_self r.registry t e typed)

module _ (r : Runtime) (e n fuel num : ℕ) (v : IsRegistry r.registry)
    (there : Exists r.registry.info e) (positive : 0 < r.next_object) (enough : n + n < fuel)
    (small : num < 2 ^ 31) where
  -- With well-formed types, an existing element type, and fewer than 2^31 elements that can be
  -- made within n levels of types, `allocate_sequence` ends with fuel above 2 n + 1. It returns
  -- the address, not null and not used before, of a sequence with as many elements as asked for,
  -- whose type is the one that naming the type of such sequences gives before and after; the
  -- assertion of that type passes, and apart from that type and new objects nothing changes.
  pub allocate_sequence-checked :
      let g = (get_sequence_type e r.registry).1 in
      let t = (get_sequence_type e r.registry).0 in
      ElementsOf g (Made g n) (g.info e) e num
      → (p : ℕ) × (xs : List ℕ) × (r' : Runtime) × (allocate_sequence (suc fuel) e num r
          ≡ ok (p, r'))
        × (0 < p)
        × (r.next_object ≤ p)
        × (r'.objects p ≡ some (sequence_alloc t xs))
        × (length xs ≡ num)
        × (r'.registry.info t ≡ some (sequence_type e))
        × Grows (with_type r e) r'
        × (types (get_sequence_type e) r' ≡ ok (t, r'))
        × (assert_type 1 t p r' ≡ ok (true, r'))
  unfolding allocate_sequence new_sequence
  allocate_sequence-checked made =
      let t = (get_sequence_type e r.registry).0 in
      let (xs, s, done, grows) =
        init_elements-total (with_type r e) n fuel e enough num small made in
      let again : get_sequence_type e s.registry ≡ (t, s.registry) =
        ap (get_sequence_type e) grows.registry
        ∙ get_sequence_type-again e r.registry here
        ∙ ap (λ (h : Registry). (t, h)) (sym grows.registry) in
      let r' = new_at s t xs in
      let holds : r'.objects s.next_object ≡ some (sequence_alloc t xs) = ground arith in
      let typed : r'.registry.info t ≡ some (sequence_type e) =
        ap (λ (h : Registry). h.info t) grows.registry ∙ described r e v there in
      let not_null : 0 < s.next_object = omega (arith, grows.next_object) in
      (
        s.next_object,
        xs,
        r',
        rw (described r e v there, done) refl,
        not_null,
        grows.next_object,
        holds,
        init_elements-length fuel e num (with_type r e) xs s done,
        typed,
        Grows-trans grows (new_at-Grows s t xs),
        ap (λ (q : ℕ × Registry). ok (q.0, record r' { registry = q.1 })) again,
        assert_type-ok r' s.next_object t e xs not_null holds typed,
      )
