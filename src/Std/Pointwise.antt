-- ===== src/Std/Pointwise.antt =====
-- The elements of parts of lists and of copies, by their indices.
use memoir_cs397_atc.Prelude.{
  ℕ, zero, suc, ◌+◌, ◌-◌, ◌≤◌, ◌<◌, ◌≡◌, refl, ap, ◌∙◌, ◌&&◌, none, some, List, [], ◌∷◌, ◌++◌,
  arith, ltb, leb, leb-true, if◌then◌else◌, length, take, drop, get_elem?, length-append,
  length-take, length-drop, set, ◌==◌, Bool-cases, inl, inr, ◌≢◌, get_elem?-set_self,
  get_elem?-set_ne,
}
use memoir_cs397_atc.Std.Vector.{slice, copy_to, insert_range, erase_range}

module _ {A : Type 0} where
  pub get_elem?-append :
      (xs ys : List A) (i : ℕ)
      → get_elem? (xs ++ ys) i
        ≡ (if ltb i (length xs) then get_elem? xs i else get_elem? ys (i - length xs))
  get_elem?-append [] ys i = ground arith
  get_elem?-append (x ∷ xs) ys zero = ground arith
  get_elem?-append (x ∷ xs) ys (suc i) = ground (arith, get_elem?-append xs ys i)

  pub get_elem?-take :
      (n : ℕ) (xs : List A) (i : ℕ)
      → get_elem? (take n xs) i ≡ (if ltb i n then get_elem? xs i else none)
  get_elem?-take zero xs i = ground arith
  get_elem?-take (suc n) [] i = ground arith
  get_elem?-take (suc n) (x ∷ xs) zero = ground arith
  get_elem?-take (suc n) (x ∷ xs) (suc i) = ground (arith, get_elem?-take n xs i)

  pub get_elem?-drop :
      (n : ℕ) (xs : List A) (i : ℕ) → get_elem? (drop n xs) i ≡ get_elem? xs (n + i)
  get_elem?-drop zero xs i = ap (get_elem? xs) (omega arith)
  get_elem?-drop (suc n) [] i = ground arith
  get_elem?-drop (suc n) (x ∷ xs) i =
      get_elem?-drop n xs i
      ∙ ap (get_elem? (x ∷ xs)) (let e : suc (n + i) ≡ suc n + i = omega arith in e)

  pub get_elem?-slice :
      (i j : ℕ) (xs : List A) (k : ℕ)
      → get_elem? (slice i j xs) k ≡ (if ltb k (j - i) then get_elem? xs (i + k) else none)
  get_elem?-slice i j xs k =
      ground (arith, get_elem?-take (j - i) (drop i xs) k, get_elem?-drop i xs k)

  -- A copy that fits keeps the length and changes only the range it is copied to.
  pub get_elem?-copy_to :
      (target : List A) (k : ℕ) (src : List A)
      → k + length src ≤ length target
      → (ys : List A) × (copy_to target k src ≡ some ys)
        × (length ys ≡ length target)
        × ((i : ℕ)
            → get_elem? ys i ≡ (
                if leb k i && ltb i (k + length src)
                then get_elem? src (i - k)
                else get_elem? target i))
  unfolding copy_to
  get_elem?-copy_to target k src h =
      let rest = drop (k + length src) target in
      (
        take k target ++ (src ++ rest),
        rw (leb-true (k + length src) (length target) h) refl,
        rw (length-append (take k target) (src ++ rest), length-append src rest)
            (omega (arith, length-take k target, length-drop (k + length src) target)),
        λ i. ground (
          arith,
          get_elem?-append (take k target) (src ++ rest) i,
          get_elem?-append src rest (i - length (take k target)),
          length-take k target,
          get_elem?-take k target i,
          get_elem?-drop (k + length src) target (i - length (take k target) - length src),
        ),
      )

  pub get_elem?-insert_range :
      (k : ℕ) (src xs : List A) (i : ℕ)
      → k ≤ length xs
      → get_elem? (insert_range k src xs) i ≡ (
          if ltb i k
          then get_elem? xs i
          else if ltb i (k + length src)
          then get_elem? src (i - k)
          else get_elem? xs (i - length src))
  get_elem?-insert_range k src xs i h = ground (
    arith,
    get_elem?-append (take k xs) (src ++ drop k xs) i,
    get_elem?-append src (drop k xs) (i - length (take k xs)),
    length-take k xs,
    get_elem?-take k xs i,
    get_elem?-drop k xs (i - length (take k xs) - length src),
  )

  pub get_elem?-erase_range :
      (a b : ℕ) (xs : List A) (i : ℕ)
      → a ≤ length xs
      → get_elem? (erase_range a b xs) i
        ≡ (if ltb i a then get_elem? xs i else get_elem? xs (i - a + b))
  get_elem?-erase_range a b xs i h = ground (
    arith,
    get_elem?-append (take a xs) (drop b xs) i,
    length-take a xs,
    get_elem?-take a xs i,
    get_elem?-drop b xs (i - length (take a xs)),
  )

  pub get_elem?-set :
      (xs : List A) (k i : ℕ) (v : A)
      → k < length xs
      → get_elem? (set xs k v) i ≡ (if k == i then some v else get_elem? xs i)
  get_elem?-set xs k i v h = elim (Bool-cases (k == i)) [
    | inl same ↦ let e : k ≡ i = ground arith in rw (same, ← e) (get_elem?-set_self xs k v h)
    | inr other ↦ let ne : k ≢ i = ground arith in rw other (get_elem?-set_ne xs v ne)
  ]
