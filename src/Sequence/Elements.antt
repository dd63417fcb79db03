-- ===== src/Sequence/Elements.antt =====
-- Reads and writes of one element of a valid sequence.
use native.Mathlib.Nat.{zero-add}
use memoir_cs397_atc.Prelude.{
  ℕ, ◌+◌, ◌-◌, ◌≤◌, ◌<◌, ◌≡◌, ◌≢◌, ap, ◌∙◌, some, List, arith, ltb, ltb-true, ltb-false, length,
  get_elem?, set, length-set, get_elem?-set_self, get_elem?-set_ne, get_elem?-in_bounds,
  if◌then◌else◌, ◌==◌, Bool-cases, inl, inr, false,
}
use memoir_cs397_atc.Words.{sub64, sub64-small}
use memoir_cs397_atc.Result.{ok, assert_failed}
use memoir_cs397_atc.Types.{update}
use memoir_cs397_atc.Objects.{sequence_alloc, Runtime, store}
use memoir_cs397_atc.Sequence.Methods.{
  alloc_get, alloc_set, alloc_has, get_sequence_element, set_sequence_element, has_sequence_element,
}
use memoir_cs397_atc.Sequence.Valid.{Owns, alloc, view, IsSequence, alloc_size-ok}
use memoir_cs397_atc.Sequence.Mutate.{alloc_get-ok, alloc_set-ok, virtual-ok, shifted}

-- The runtime in which the vector of the owner is another one.
abbrev pub with_vector : Runtime → ℕ → ℕ → List ℕ → Runtime
with_vector r s t ys = record r { objects = update r.objects s (sequence_alloc t ys) }

module _ {r : Runtime} {s t : ℕ} {xs : List ℕ} (o : Owns r s t xs) (k : ℕ) (h : length xs ≤ k) where
  alloc_get-outside : alloc_get s k r ≡ assert_failed
  unfolding alloc_get
  alloc_get-outside = rw (alloc_size-ok o, ltb-false k (length xs) h)

  alloc_set-outside : (value : ℕ) → alloc_set s value k r ≡ assert_failed
  unfolding alloc_set
  alloc_set-outside value = rw (alloc_size-ok o, ltb-false k (length xs) h)

module _ {r : Runtime} {p t s i j : ℕ} {xs : List ℕ} (v : IsSequence r p t s i j xs) where
  pub view_size : sub64 j i ≡ j - i
  view_size = sub64-small j i v.ordered (omega (arith, v.within, v.fits))

  pub get-ok :
      (k x : ℕ) → k < j - i → get_elem? xs (i + k) ≡ some x → get_sequence_element p k r ≡ ok (x, r)
  unfolding get_sequence_element
  get-ok k x h e =
      virtual-ok v _ _
        (λ same first all.
          rw (same) (alloc_get-ok v.owns v.fits k x (omega arith) (rw (first, zero-add k) at e)))
        (rw (view_size, ltb-true k (j - i) h, shifted v k (omega arith))
          (alloc_get-ok v.owns v.fits (i + k) x (omega (arith, v.within)) e))

module _ {r : Runtime} {p t s i j : ℕ} {xs : List ℕ} (v : IsSequence r p t s i j xs) where
  pub set-ok :
      (value k : ℕ)
      → k < j - i
      → set_sequence_element p value k r ≡ store s (sequence_alloc t (set xs (i + k) value)) r
  unfolding set_sequence_element
  set-ok value k h =
      virtual-ok v _ _
        (λ same first all.
          rw (same, first, zero-add k) (alloc_set-ok v.owns v.fits value k (omega arith)))
        (rw (view_size v, ltb-true k (j - i) h, shifted v k (omega arith))
          (alloc_set-ok v.owns v.fits value (i + k) (omega (arith, v.within))))

  get-outside : (k : ℕ) → j - i ≤ k → get_sequence_element p k r ≡ assert_failed
  unfolding get_sequence_element
  get-outside k h =
      virtual-ok v _ _ (λ same first all. rw same (alloc_get-outside v.owns k (omega arith)))
        (rw (view_size v, ltb-false k (j - i) h))

  set-outside : (value k : ℕ) → j - i ≤ k → set_sequence_element p value k r ≡ assert_failed
  unfolding set_sequence_element
  set-outside value k h =
      virtual-ok v _ _ (λ same first all. rw same (alloc_set-outside v.owns k (omega arith) value))
        (rw (view_size v, ltb-false k (j - i) h))

  -- `has_sequence_element` says exactly whether a read or a write of the element passes its
  -- assertion.
  pub has-ok : (k : ℕ) → has_sequence_element p k r ≡ ok (ltb k (j - i), r)
  unfolding has_sequence_element alloc_has
  has-ok k =
      virtual-ok v _ _
        (λ same first all.
          rw (same, alloc_size-ok v.owns)
            (ap (λ n. ok (ltb k n, r)) (let e : length xs ≡ j - i = omega arith in e)))
        (rw (view_size v))

  -- A write of the vector keeps the sequence valid.
  pub with_vector-IsSequence :
      (ys : List ℕ) → length ys ≡ length xs → IsSequence (with_vector r s t ys) p t s i j ys
  with_vector-IsSequence ys same = record {
    shape = elim v.shape [
      | alloc here first all ↦ alloc here first (omega arith)
      | view n holds ↦ view n (ground (arith, v.owns.holds))
    ];
    owns = record { not_null = v.owns.not_null; holds = ground arith };
    type_not_null = v.type_not_null;
    element_type = v.element_type;
    typed = v.typed;
    ordered = v.ordered;
    within = omega (arith, v.within);
    fits = omega (arith, v.fits);
  }

  get_elem?-set :
      (value k l x : ℕ)
      → i + k < length xs
      → get_elem? xs (i + l) ≡ some x
      → get_elem? (set xs (i + k) value) (i + l) ≡ some (if k == l then value else x)
  get_elem?-set value k l x h e = elim (Bool-cases (k == l)) [
    | inl same ↦
        let eq : k ≡ l = ground arith in rw (same, ← eq) (get_elem?-set_self xs (i + k) value h)
    | inr other ↦
        let ne : i + k ≢ i + l = ground arith in rw other (get_elem?-set_ne xs value ne ∙ e)
  ]

  -- A write in range of a sequence succeeds, a read of that index then returns the value, and a
  -- read of any other index what it returned before, for collections and views.
  pub set-get :
      (value k l : ℕ)
      → k < j - i
      → l < j - i
      → (x : ℕ) × (get_sequence_element p l r ≡ ok (x, r))
        × (set_sequence_element p value k r ≡ ok (tt, with_vector r s t (set xs (i + k) value)))
        × (get_sequence_element p l (with_vector r s t (set xs (i + k) value))
            ≡ ok (if k == l then value else x, with_vector r s t (set xs (i + k) value)))
  set-get value k l hk hl =
      let (x, found) = get_elem?-in_bounds xs (i + l) (omega (arith, v.within)) in
      (
        x,
        get-ok v l x hl found,
        set-ok value k hk,
        get-ok (with_vector-IsSequence (set xs (i + k) value) (length-set xs (i + k) value)) l
            (if k == l then value else x) hl
            (get_elem?-set value k l x (omega (arith, v.within)) found),
      )

  -- Out of range of a sequence, the read and the write fail their assertions, and
  -- `has_sequence_element` returns false.
  pub access_outside :
      (value k : ℕ)
      → j - i ≤ k
      → (has_sequence_element p k r ≡ ok (false, r))
        × (get_sequence_element p k r ≡ assert_failed)
        × (set_sequence_element p value k r ≡ assert_failed)
  access_outside value k h = (
    has-ok k ∙ ap (λ b. ok (b, r)) (ltb-false k (j - i) h),
    get-outside k h,
    set-outside value k h,
  )
