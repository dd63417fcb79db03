-- ===== src/Std/Sets.antt =====
-- std::set as the list of its elements: `count`, `insert` and `erase`.
use memoir_cs397_atc.Prelude.{
  ◌≤◌, Bool, true, false, List, [], ◌∷◌, ◌++◌, ◌≡◌, refl, sym, ap, ◌↔◌, inl, inr, arith,
  if◌then◌else◌, ◌||◌, Eq, length, Bool-cases, subst, length-append,
}
use mathlib.Core.List.{Memᴰ}
use mathlib.Core.List.Memᴰ

module _ {ℓ} {A : Type ℓ} where
  -- No element stands twice.
  abbrev pub IsDistinct : List A → Type ℓ
  IsDistinct [] = Unit
  IsDistinct (x ∷ xs) = (¬ Memᴰ x xs) × IsDistinct xs

  -- An element of a list stands between two parts of it.
  Memᴰ-split :
      {x : A} (xs : List A)
      → Memᴰ x xs
      → (before : List A) × (after : List A) × (xs ≡ before ++ x ∷ after)
  Memᴰ-split [] m = elim m [ ]
  Memᴰ-split (y ∷ xs) (Memᴰ.head e) = ([], xs, ap (λ z. z ∷ xs) (sym e))
  Memᴰ-split (y ∷ xs) (Memᴰ.tail m) =
      let (before, after, e) = Memᴰ-split xs m in (y ∷ before, after, ap (◌∷◌ y) e)

  -- Distinct elements of a list are no more than the list has.
  pub IsDistinct-length-le :
      (xs ys : List A) → IsDistinct xs → ((x : A) → Memᴰ x xs → Memᴰ x ys) → length xs ≤ length ys
  IsDistinct-length-le [] ys distinct within = omega arith
  IsDistinct-length-le (x ∷ xs) ys distinct within =
      let (before, after, e) = Memᴰ-split ys (within x (Memᴰ.head refl)) in
      let rest = IsDistinct-length-le xs (before ++ after) distinct.1 λ y m.
        elim (Memᴰ.append_cases before (subst (Memᴰ y) e (within y (Memᴰ.tail m)))) [
          | inl left ↦ Memᴰ.append_left after left
          | inr (Memᴰ.head same) ↦ absurd (distinct.0 (Memᴰ.cast (sym same) m))
          | inr (Memᴰ.tail right) ↦ Memᴰ.append_right before right
        ] in
      omega (arith, ap length e, length-append before after, length-append before (x ∷ after))

module _ {ℓ} {A : Type ℓ} ⦃e : Eq A⦄ where
  -- `s.count(a) != 0`
  unfoldable pub contains : List A → A → Bool
  contains [] a = false
  contains (x ∷ xs) a = e.beq x a || contains xs a

  unfoldable pub insert : A → List A → List A
  unfolding contains
  insert a xs = if contains xs a then xs else a ∷ xs

  unfoldable pub erase : A → List A → List A
  erase a [] = []
  erase a (x ∷ xs) = if e.beq x a then xs else x ∷ erase a xs

  pub contains_iff : (xs : List A) (a : A) → (contains xs a ≡ true) ↔ Memᴰ a xs
  unfolding contains
  contains_iff [] a = (λ h. cc, λ m. absurd (Memᴰ.not-nil m))
  contains_iff (x ∷ xs) a = elim (Bool-cases (e.beq x a)) [
    | inl same ↦ (λ h. Memᴰ.head (sym ((e.beq_iff x a).0 same)), λ m. rw same refl)
    | inr other ↦ rw other (
      λ h. Memᴰ.tail ((contains_iff xs a).0 h),
      λ m. elim (Memᴰ.cases_cons m) [
        | inl is ↦ absurd (let t = (e.beq_iff x a).1 (sym is) in cc)
        | inr further ↦ (contains_iff xs a).1 further
      ],
    )
  ]

  pub contains-not : (xs : List A) (a : A) → contains xs a ≡ false → ¬ Memᴰ a xs
  contains-not xs a absent m = let t = (contains_iff xs a).1 m in cc

  pub contains-false : (xs : List A) (a : A) → (¬ Memᴰ a xs) → contains xs a ≡ false
  contains-false xs a absent = elim (Bool-cases (contains xs a)) [
    | inl there ↦ absurd (absent ((contains_iff xs a).0 there))
    | inr gone ↦ gone
  ]

  pub insert-new : (a : A) (xs : List A) → contains xs a ≡ false → insert a xs ≡ a ∷ xs
  unfolding insert
  insert-new a xs absent = rw absent

  pub insert-old : (a : A) (xs : List A) → contains xs a ≡ true → insert a xs ≡ xs
  unfolding insert
  insert-old a xs there = rw there

  -- The element inserted last is the one erased.
  pub erase-insert : (a : A) (xs : List A) → contains xs a ≡ false → erase a (insert a xs) ≡ xs
  unfolding erase
  erase-insert a xs absent = rw (insert-new a xs absent) (rw ((e.beq_iff a a).1 refl) refl)
