-- ===== src/Tensor/Elements.antt =====
-- Writes and reads of the elements of a tensor.
use memoir_cs397_atc.Prelude.{
  ℕ, suc, ◌+◌, ◌^◌, ◌<◌, ◌≡◌, ◌≢◌, refl, ap, sym, ◌∙◌, some, List, [], ◌∷◌, arith, length,
  get_elem?, set, ltb-true, ==-false, get_elem?-in_bounds, get_elem?-set_self, get_elem?-set_ne,
  length-set, ◌⊎◌, inl, inr,
}
use native.Mathlib.Decide.{ℕ_discrete}
use memoir_cs397_atc.Result.{ok, assert_failed}
use memoir_cs397_atc.Types.{update}
use memoir_cs397_atc.Objects.{tensor_object, Runtime, load}
use memoir_cs397_atc.Tensor.Index.{exact_index, exact_length}
use memoir_cs397_atc.Tensor.Bounds.{Within, Positive, flattened_index-exact, flat_index-lt-length}
use memoir_cs397_atc.Tensor.Alias.{
  NonIncreasing, NonIncreasing-dec, flat_index-injective, flattened_index-outside,
}
use memoir_cs397_atc.Tensor.Methods.{
  load_tensor, get_tensor_element, set_tensor_element, has_tensor_element,
}

-- A tensor with its vector of the length that the constructor gave it.
pub record IsTensor (r : Runtime) (p t : ℕ) (xs ls : List ℕ) : Type 0 where
  pub not_null : p ≢ 0
  pub holds : r.objects p ≡ some (tensor_object t xs ls)
  pub dimensions : 0 < length ls
  pub sized : length xs ≡ exact_length ls 0 1
  pub small : exact_length ls 0 1 < 2 ^ 31

abbrev pub with_elements : Runtime → ℕ → ℕ → List ℕ → List ℕ → Runtime
with_elements r p t xs ls = record r { objects = update r.objects p (tensor_object t xs ls) }

module _ {r : Runtime} {p t : ℕ} {xs ls : List ℕ} (v : IsTensor r p t xs ls) where
  load_tensor-ok : load_tensor p r ≡ ok ((t, xs, ls), r)
  unfolding load_tensor load
  load_tensor-ok = rw (==-false p 0 v.not_null, v.holds)

  abbrev pub place : List ℕ → ℕ
  place is = exact_index ls is 0 1

  place-lt : (is : List ℕ) → Within ls is → place is < length xs
  place-lt is w = omega (arith, flat_index-lt-length ls is w v.dimensions, v.sized)

  get-at :
      (is : List ℕ) (x : ℕ)
      → Within ls is
      → get_elem? xs (place is) ≡ some x
      → get_tensor_element p is r ≡ ok (x, r)
  unfolding get_tensor_element
  get-at is x w found = rw (load_tensor-ok, flattened_index-exact ls v.small is w, found)

  set-at :
      (is : List ℕ) (value : ℕ)
      → Within ls is
      → set_tensor_element p value is r ≡ ok (tt, with_elements r p t (set xs (place is) value) ls)
  unfolding set_tensor_element
  set-at is value w = rw (
    load_tensor-ok,
    flattened_index-exact ls v.small is w,
    ltb-true (place is) (length xs) (place-lt is w),
  )

  with_elements-IsTensor :
      (ys : List ℕ) → length ys ≡ length xs → IsTensor (with_elements r p t ys ls) p t ys ls
  with_elements-IsTensor ys same = record {
    not_null = v.not_null;
    holds = ground arith;
    dimensions = v.dimensions;
    sized = same ∙ v.sized;
    small = v.small;
  }

  -- An access of a tensor of positive dimensions with as many indices as dimensions, one of them
  -- out of range, fails its assertion, also `has_tensor_element`.
  pub element-outside :
      (is : List ℕ) (value : ℕ)
      → Positive ls
      → length is ≡ length ls
      → ¬ Within ls is
      → (get_tensor_element p is r ≡ assert_failed)
        × (set_tensor_element p value is r ≡ assert_failed)
        × (has_tensor_element p is r ≡ assert_failed)
  unfolding get_tensor_element set_tensor_element has_tensor_element
  element-outside is value positive same out =
      let failed = flattened_index-outside ls is same positive v.small out in
      (rw (load_tensor-ok, failed), rw (load_tensor-ok, failed), rw (load_tensor-ok, failed))

module _ {r : Runtime} {p t : ℕ} {xs ls : List ℕ} (v : IsTensor r p t xs ls) where
  -- After a write, a read at the same place returns the value.
  get-after :
      (is js : List ℕ) (value : ℕ)
      → Within ls is
      → Within ls js
      → place v is ≡ place v js
      → let r' = with_elements r p t (set xs (place v is) value) ls in
        get_tensor_element p js r' ≡ ok (value, r')
  get-after is js value w w' same =
      get-at
        (with_elements-IsTensor v (set xs (place v is) value) (length-set xs (place v is) value)) js
        value w'
        (ap (get_elem? (set xs (place v is) value)) (sym same)
          ∙ get_elem?-set_self xs (place v is) value (place-lt v is w))

-- After a write of a tensor element within the dimensions, a read of it returns the value, and a
-- read at any indices within the dimensions returns what it returned before, unless it returns the
-- value written, and then the indices are the ones written or some dimension is longer than the
-- one before it.
pub set_tensor_element-get :
    {r : Runtime} {p t d : ℕ} {xs ds : List ℕ} (v : IsTensor r p t xs (d ∷ ds)) (is js : List ℕ)
    (value : ℕ)
    → Within (d ∷ ds) is
    → Within (d ∷ ds) js
    → let r' = with_elements r p t (set xs (place v is) value) (d ∷ ds) in
      (x : ℕ) × (set_tensor_element p value is r ≡ ok (tt, r'))
      × (get_tensor_element p is r' ≡ ok (value, r'))
      × (get_tensor_element p js r ≡ ok (x, r))
      × ((get_tensor_element p js r' ≡ ok (x, r'))
          ⊎ (get_tensor_element p js r' ≡ ok (value, r')) × ((is ≡ js) ⊎ ¬ NonIncreasing d ds))
set_tensor_element-get {d} {xs} {ds} v is js value w w' =
    let (x, found) = get_elem?-in_bounds xs (place v js) (place-lt v js w') in
    let written =
      with_elements-IsTensor v (set xs (place v is) value) (length-set xs (place v is) value) in
    (
      x,
      set-at v is value w,
      get-after v is is value w w refl,
      get-at v js x w' found,
      elim (ℕ_discrete (place v is) (place v js)) [
        | yes same ↦ inr (
          get-after v is js value w w' same,
          elim (NonIncreasing-dec d ds) [
            | yes order ↦ inl (flat_index-injective d ds is js order w w' same)
            | no longer ↦ inr longer
          ],
        )
        | no ne ↦ inl (get-at written js x w' (get_elem?-set_ne xs value ne ∙ found))
      ],
    )

-- In a tensor of two dimensions d and e, a write at the indices i and d + j, with i + 1 below d
-- and d + j below e, makes a read at the indices i + 1 and j return the value written.
pub set_tensor_element-alias :
    {r : Runtime} {p t d e : ℕ} {xs : List ℕ} (v : IsTensor r p t xs (d ∷ e ∷ [])) (i j value : ℕ)
    → suc i < d
    → d + j < e
    → let is = i ∷ (d + j) ∷ [] in
      let js = suc i ∷ j ∷ [] in
      let r' = with_elements r p t (set xs (place v is) value) (d ∷ e ∷ []) in
      (set_tensor_element p value is r ≡ ok (tt, r'))
      × (get_tensor_element p js r' ≡ ok (value, r'))
unfolding exact_index
set_tensor_element-alias {d} {e} v i j value hi hj = (
  set-at v (i ∷ (d + j) ∷ []) value (omega arith),
  get-after v (i ∷ (d + j) ∷ []) (suc i ∷ j ∷ []) value (omega arith) (omega arith) (grind arith),
)
