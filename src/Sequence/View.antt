-- ===== src/Sequence/View.antt =====
-- `MEMOIR_FUNC(sequence_view)` of runtime/src/allocation.cpp.
use memoir_cs397_atc.Prelude.{
  ℕ, suc, ◌+◌, ◌-◌, ◌≤◌, ◌<◌, ◌≡◌, refl, List, arith, ==-false, nat_eq, if◌then◌else◌, ◌==◌, some,
  ◌≢◌, set,
}
use native.Mathlib.Nat.{add_comm, add_assoc, zero-add}
use memoir_cs397_atc.Words.{max_u64, add64-small}
use memoir_cs397_atc.Result.{ok}
use memoir_cs397_atc.Types.{update}
use memoir_cs397_atc.Objects.{Runtime, sequence_view, load, get_type}
use memoir_cs397_atc.Sequence.Methods.{make_view}
use memoir_cs397_atc.Sequence.Valid.{alloc, view, IsSequence, Owns-load, alloc_size-ok}
use memoir_cs397_atc.Sequence.Methods.{get_sequence_element, set_sequence_element}
use memoir_cs397_atc.Sequence.Elements.{with_vector, set-get, set-ok}
use memoir_cs397_atc.Allocation.{allocate_view, view_of}

module _ {r : Runtime} {p t s i j : ℕ} {xs : List ℕ} (v : IsSequence r p t s i j xs) where
  abbrev pub with_view : ℕ → ℕ → Runtime
  with_view a b = record r {
    objects = update r.objects r.next_object (sequence_view t s (i + a) (i + b));
    next_object = suc r.next_object;
  }

  with_view-IsSequence :
      (a b : ℕ)
      → a ≤ b
      → b ≤ j - i
      → s < r.next_object
      → IsSequence (with_view a b) r.next_object t s (i + a) (i + b) xs
  with_view-IsSequence a b h k below = record {
    shape = view (λ e. omega arith) (ground arith);
    owns = record { not_null = v.owns.not_null; holds = ground (arith, v.owns.holds) };
    type_not_null = v.type_not_null;
    element_type = v.element_type;
    typed = v.typed;
    ordered = omega arith;
    within = omega (arith, v.within, v.ordered);
    fits = v.fits;
  }

  view-load :
      p ≢ 0 → r.objects p ≡ some (sequence_view t s i j) → load p r ≡ ok (sequence_view t s i j, r)
  unfolding load
  view-load n holds = rw (==-false p 0 n, holds)

  allocate_view-ok :
      (a b : ℕ) → a ≤ b → b ≤ j - i → allocate_view p a b r ≡ ok (r.next_object, with_view a b)
  unfolding allocate_view view_of make_view get_type
  allocate_view-ok a b h k =
      let small = ==-false b max_u64 (λ e. omega (arith, v.within, v.fits, v.ordered)) in
      elim v.shape [
        | alloc same first all ↦
            rw
              (
                same,
                ==-false s 0 v.owns.not_null,
                Owns-load v.owns,
                Owns-load v.owns,
                alloc_size-ok v.owns,
                small,
                first,
                zero-add a,
                zero-add b,
              )
              refl
        | view n holds ↦
            rw
              (
                ==-false p 0 n,
                view-load n holds,
                view-load n holds,
                alloc_size-ok v.owns,
                Owns-load v.owns,
                small,
                add64-small i b (omega (arith, v.within, v.fits, v.ordered)),
                add64-small a i (omega (arith, v.within, v.fits, v.ordered)),
                ==-false (i + b) max_u64 (λ e. omega (arith, v.within, v.fits, v.ordered)),
                add_comm i a,
              )
              refl
      ]

  older-IsSequence :
      (a b : ℕ) → s < r.next_object → p < r.next_object → IsSequence (with_view a b) p t s i j xs
  older-IsSequence a b below older = record {
    shape = elim v.shape [
      | alloc same first all ↦ alloc same first all
      | view n holds ↦ view n (ground arith)
    ];
    owns = record { not_null = v.owns.not_null; holds = ground (arith, v.owns.holds) };
    type_not_null = v.type_not_null;
    element_type = v.element_type;
    typed = v.typed;
    ordered = v.ordered;
    within = v.within;
    fits = v.fits;
  }

  -- A view of a range of a sequence, itself a view or not, is made at a new address and shares its
  -- elements: what is written through the view is read at the shifted index of the sequence, and
  -- every other element is read as before.
  pub view-shares :
      (a b value k l : ℕ)
      → s < r.next_object
      → p < r.next_object
      → a ≤ b
      → b ≤ j - i
      → k < b - a
      → l < j - i
      → let r1 = with_view a b in
        let r2 = with_vector r1 s t (set xs (i + (a + k)) value) in
        (x : ℕ) × (allocate_view p a b r ≡ ok (r.next_object, r1))
        × (get_sequence_element p l r1 ≡ ok (x, r1))
        × (set_sequence_element r.next_object value k r1 ≡ ok (tt, r2))
        × (get_sequence_element p l r2 ≡ ok (if a + k == l then value else x, r2))
  view-shares a b value k l below older h within hk hl =
      let (x, first, _, later) =
        set-get (older-IsSequence a b below older) value (a + k) l (omega arith) hl in
      let written = set-ok (with_view-IsSequence a b h within below) value k (omega arith) in
      (x, allocate_view-ok a b h within, first, rw (add_assoc i a k) at written, later)
