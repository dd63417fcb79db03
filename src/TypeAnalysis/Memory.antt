-- ===== src/TypeAnalysis/Memory.antt =====
-- What a query finds is entered in the table, so that the next query finds it there.
use memoir_cs397_atc.Prelude.{
  ℕ, Bool, true, false, Option, none, some, List, [], ◌∷◌, ◌≡◌, refl, sym, ap, ◌∙◌, inl, inr,
  nat_eq, Option-cases, Bool-cases, if◌then◌else◌, ==-true,
}
use memoir_cs397_atc.Std.Map.{assign, find-assign}
use memoir_cs397_atc.Result.{Result, ok, assert_failed, thrown, undefined, out_of_fuel, deref}
use memoir_cs397_atc.Result as Result
use memoir_cs397_atc.TypeAnalysis.{
  Program, Analysis, Query, pure, ◌>>=◌, find_existing, been_visited, check_memoized, memoize,
  memoize_and_return,
}
use memoir_cs397_atc.TypeAnalysis.Visits.{
  visit_define_struct_type_inst, visit_static_tensor_type_inst, visit_tensor_type_inst,
  visit_assoc_array_type_inst, visit_sequence_type_inst, visit_checked, visit_tensor_alloc_inst,
  visit_assoc_array_alloc_inst, visit_sequence_alloc_inst, visit_read_inst, visit_get_inst,
  visit_forwarding_inst, forward_type, visit_swap_inst, visit_assoc_keys_inst,
}
use memoir_cs397_atc.TypeAnalysis.Calls.{
  first_definition, visit_struct_type_inst, visit_direct_call, visit_indirect_call, load_from,
  visit_load_inst, single_type, visit_phi_node,
}

-- A query that enters the type it finds.
abbrev pub Remembers : ℕ → Query (Option ℕ) → Type 0
Remembers v query =
    (s s' : Analysis) (t : ℕ) → query s ≡ ok (some t, s') → find_existing v s' ≡ some t

pub bind-eq-ok :
    {A B : Type 0} (m : Result (A × Analysis)) (f : A → Query B) {b : B} {s' : Analysis}
    → Result.◌>>=◌ m (λ (a, s). f a s) ≡ ok (b, s')
    → (a : A) × (s : Analysis) × (m ≡ ok (a, s)) × (f a s ≡ ok (b, s'))
bind-eq-ok (ok (a, s)) f h = (a, s, refl, h)
bind-eq-ok assert_failed f h = cc
bind-eq-ok thrown f h = cc
bind-eq-ok undefined f h = cc
bind-eq-ok out_of_fuel f h = cc

pub bind-Remembers :
    {A : Type 0} (v : ℕ) (m : Query A) (f : A → Query (Option ℕ))
    → ((a : A) → Remembers v (f a))
    → Remembers v (m >>= f)
unfolding ◌>>=◌
bind-Remembers v m f remembers s s' t h =
    let (a, s1, _, rest) = bind-eq-ok (m s) f h in remembers a s1 s' t rest

pub check_memoized-Remembers :
    (v : ℕ) (query : Query (Option ℕ)) → Remembers v query → Remembers v (check_memoized v query)
unfolding check_memoized
check_memoized-Remembers v query remembers s s' t h = elim (Option-cases (find_existing v s)) [
  | inl new ↦ elim (Bool-cases (been_visited v s)) [
    | inl again ↦ let h' = rw (new, check_memoized) at h in let h'' = rw again at h' in cc
    | inr first ↦ let h' = rw (new, check_memoized) at h in remembers _ s' t (rw first at h')
  ]
  | inr (u, old) ↦ let h' = rw (old, check_memoized) at h in cc
]

existing_after : ℕ → Result (Option ℕ × Analysis) → Option ℕ
existing_after v (ok (t, s)) = find_existing v s
existing_after v _ = none

find_existing-assign :
    (v : ℕ) (t : Option ℕ) (s : Analysis)
    → find_existing v (record s { value_to_type = assign v t s.value_to_type }) ≡ t
unfolding find_existing
find_existing-assign v t s =
    rw (find-assign v v t s.value_to_type, find_existing) (rw (==-true v v refl) refl)

pub memoize_and_return-Remembers : (v : ℕ) (t : Option ℕ) → Remembers v (memoize_and_return v t)
unfolding memoize_and_return memoize existing_after ◌>>=◌
memoize_and_return-Remembers v t s s' u h =
    let found : t ≡ some u = cc in
    sym (ap (existing_after v) h) ∙ find_existing-assign v t s ∙ found

pub none-Remembers : (v : ℕ) → Remembers v (pure none)
none-Remembers v s s' t h = cc

fail-Remembers : (v : ℕ) → Remembers v (λ s. assert_failed)
fail-Remembers v s s' t h = cc

module _ (type_of analyze : ℕ → Query (Option ℕ)) (v : ℕ) where
  pub visit_checked-Remembers : (o : ℕ) → Remembers v (visit_checked type_of analyze v o)
  unfolding visit_checked
  visit_checked-Remembers o =
      check_memoized-Remembers v _ (
        bind-Remembers v _ _ λ a. bind-Remembers v _ _ λ t. memoize_and_return-Remembers v (some t))

  pub visit_forwarding_inst-Remembers :
      (o : ℕ) → Remembers v (visit_forwarding_inst type_of analyze v o)
  unfolding visit_forwarding_inst
  visit_forwarding_inst-Remembers o =
      check_memoized-Remembers v _ (bind-Remembers v _ _ λ t. memoize_and_return-Remembers v t)

  pub visit_define_struct_type_inst-Remembers :
      (n : ℕ) (fs : List ℕ) → Remembers v (visit_define_struct_type_inst type_of analyze v n fs)
  unfolding visit_define_struct_type_inst
  visit_define_struct_type_inst-Remembers n fs =
      check_memoized-Remembers v _
        (bind-Remembers v _ _ λ _. (bind-Remembers v _ _ λ _. memoize_and_return-Remembers v _))

  pub visit_static_tensor_type_inst-Remembers :
      (e : ℕ) (ls : List ℕ) → Remembers v (visit_static_tensor_type_inst type_of analyze v e ls)
  unfolding visit_static_tensor_type_inst
  visit_static_tensor_type_inst-Remembers e ls =
      check_memoized-Remembers v _
        (bind-Remembers v _ _ λ _. (bind-Remembers v _ _ λ _. memoize_and_return-Remembers v _))

  pub visit_tensor_type_inst-Remembers :
      (e n : ℕ) → Remembers v (visit_tensor_type_inst type_of analyze v e n)
  unfolding visit_tensor_type_inst
  visit_tensor_type_inst-Remembers e n =
      check_memoized-Remembers v _
        (bind-Remembers v _ _ λ _. (bind-Remembers v _ _ λ _. memoize_and_return-Remembers v _))

  pub visit_assoc_array_type_inst-Remembers :
      (k x : ℕ) → Remembers v (visit_assoc_array_type_inst type_of analyze v k x)
  unfolding visit_assoc_array_type_inst
  visit_assoc_array_type_inst-Remembers k x = check_memoized-Remembers v _ (
      bind-Remembers v _ _ λ _.
        (bind-Remembers v _ _ λ _. (bind-Remembers v _ _ λ _. memoize_and_return-Remembers v _)))

  pub visit_sequence_type_inst-Remembers :
      (e : ℕ) → Remembers v (visit_sequence_type_inst type_of analyze v e)
  unfolding visit_sequence_type_inst
  visit_sequence_type_inst-Remembers e =
      check_memoized-Remembers v _
        (bind-Remembers v _ _ λ _. (bind-Remembers v _ _ λ _. memoize_and_return-Remembers v _))

  pub visit_tensor_alloc_inst-Remembers :
      (e n : ℕ) → Remembers v (visit_tensor_alloc_inst type_of analyze v e n)
  unfolding visit_tensor_alloc_inst
  visit_tensor_alloc_inst-Remembers e n = check_memoized-Remembers v _ (
      bind-Remembers v _ _ λ _.
        (bind-Remembers v _ _ λ _. (bind-Remembers v _ _ λ _. memoize_and_return-Remembers v _)))

  pub visit_assoc_array_alloc_inst-Remembers :
      (k x : ℕ) → Remembers v (visit_assoc_array_alloc_inst type_of analyze v k x)
  unfolding visit_assoc_array_alloc_inst
  visit_assoc_array_alloc_inst-Remembers k x = check_memoized-Remembers v _ (
      bind-Remembers v _ _ λ _.
        (bind-Remembers v _ _ λ _.
          (bind-Remembers v _ _ λ _.
            (bind-Remembers v _ _
              λ _. (bind-Remembers v _ _ λ _. memoize_and_return-Remembers v _)))))

  pub visit_sequence_alloc_inst-Remembers :
      (e : ℕ) → Remembers v (visit_sequence_alloc_inst type_of analyze v e)
  unfolding visit_sequence_alloc_inst
  visit_sequence_alloc_inst-Remembers e = check_memoized-Remembers v _ (
      bind-Remembers v _ _ λ _.
        (bind-Remembers v _ _ λ _. (bind-Remembers v _ _ λ _. memoize_and_return-Remembers v _)))

  pub visit_read_inst-Remembers : (c : Query ℕ) → Remembers v (visit_read_inst type_of analyze v c)
  unfolding visit_read_inst
  visit_read_inst-Remembers c = check_memoized-Remembers v _ (
      bind-Remembers v _ _ λ _.
        (bind-Remembers v _ _ λ _. (bind-Remembers v _ _ λ _. memoize_and_return-Remembers v _)))

  pub visit_get_inst-Remembers : (c : Query ℕ) → Remembers v (visit_get_inst type_of analyze v c)
  unfolding visit_get_inst
  visit_get_inst-Remembers c =
      check_memoized-Remembers v _
        (bind-Remembers v _ _ λ _. (bind-Remembers v _ _ λ _. memoize_and_return-Remembers v _))

  pub visit_assoc_keys_inst-Remembers :
      (c : ℕ) → Remembers v (visit_assoc_keys_inst type_of analyze v c)
  unfolding visit_assoc_keys_inst
  visit_assoc_keys_inst-Remembers c = check_memoized-Remembers v _ (
      bind-Remembers v _ _ λ _.
        (bind-Remembers v _ _ λ _.
          (bind-Remembers v _ _ λ _. (bind-Remembers v _ _ λ _. memoize_and_return-Remembers v _))))

  forward_type-Remembers :
      (a b : ℕ) (t : Option ℕ) → Remembers v (forward_type type_of analyze v a b t)
  unfolding forward_type
  forward_type-Remembers a b (some t) = bind-Remembers v _ _ λ _. memoize_and_return-Remembers v _
  forward_type-Remembers a b none =
      bind-Remembers v _ _ λ _. bind-Remembers v _ _ λ _. memoize_and_return-Remembers v _

  pub visit_swap_inst-Remembers : (a b : ℕ) → Remembers v (visit_swap_inst type_of analyze v a b)
  unfolding visit_swap_inst
  visit_swap_inst-Remembers a b =
      check_memoized-Remembers v _ (bind-Remembers v _ _ λ t. forward_type-Remembers a b t)

if-Remembers :
    (v : ℕ) (b : Bool) {x y : Query (Option ℕ)}
    → Remembers v x
    → Remembers v y
    → Remembers v (if b then x else y)
if-Remembers v true p q = p
if-Remembers v false p q = q

module _ (program : Program) (type_of : ℕ → Query (Option ℕ)) (v : ℕ) where
  first_definition-Remembers :
      (calls : List ℕ) → Remembers v (first_definition program type_of v calls)
  unfolding first_definition
  first_definition-Remembers [] = fail-Remembers v
  first_definition-Remembers (call ∷ calls) =
      bind-Remembers v _ _ λ _. bind-Remembers v _ _ λ _. memoize_and_return-Remembers v _

  pub visit_struct_type_inst-Remembers :
      (n : ℕ) → Remembers v (visit_struct_type_inst program type_of v n)
  unfolding visit_struct_type_inst
  visit_struct_type_inst-Remembers n = check_memoized-Remembers v _ (first_definition-Remembers _)

  pub visit_direct_call-Remembers :
      (b : Bool) (f : ℕ) → Remembers v (visit_direct_call program type_of v b f)
  unfolding visit_direct_call
  visit_direct_call-Remembers b f = check_memoized-Remembers v _ (
      if-Remembers v b
        (bind-Remembers v _ _ λ _. bind-Remembers v _ _ λ _. memoize_and_return-Remembers v _)
        (none-Remembers v))

  pub visit_indirect_call-Remembers :
      (b : Bool) (f : ℕ) → Remembers v (visit_indirect_call program type_of v b f)
  unfolding visit_indirect_call
  visit_indirect_call-Remembers b f = check_memoized-Remembers v _ (
      if-Remembers v b
        (bind-Remembers v _ _ λ _. bind-Remembers v _ _ λ _. memoize_and_return-Remembers v _)
        (none-Remembers v))

  load_from-Remembers : (value : Option ℕ) → Remembers v (load_from program type_of v value)
  unfolding load_from
  load_from-Remembers none = none-Remembers v
  load_from-Remembers (some value) =
      bind-Remembers v _ _ λ _. bind-Remembers v _ _ λ _. memoize_and_return-Remembers v _

  pub visit_load_inst-Remembers : (g : Option ℕ) → Remembers v (visit_load_inst program type_of v g)
  unfolding visit_load_inst
  visit_load_inst-Remembers none = check_memoized-Remembers v _ (none-Remembers v)
  visit_load_inst-Remembers (some g) = check_memoized-Remembers v _ (load_from-Remembers _)

  single_type-Remembers : (ts : List ℕ) → Remembers v (single_type program type_of v ts)
  unfolding single_type
  single_type-Remembers [] = none-Remembers v
  single_type-Remembers (t ∷ []) = memoize_and_return-Remembers v (some t)
  single_type-Remembers (t ∷ u ∷ ts) = none-Remembers v

  pub visit_phi_node-Remembers : (vs : List ℕ) → Remembers v (visit_phi_node program type_of v vs)
  unfolding visit_phi_node
  visit_phi_node-Remembers vs =
      check_memoized-Remembers v _
        (bind-Remembers v _ _ λ _ s s' t h. single_type-Remembers _ s s' t h)
