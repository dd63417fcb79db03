-- ===== src/Std/Vector.antt =====
-- `std::vector<uint64_t>`: ranges, `std::copy` into a vector, `insert` and `erase`.
use memoir_cs397_atc.Prelude.{
  refl, [], ◌∷◌, set, take-take, ℕ, zero, suc, take-append-take, ◌+◌, ◌-◌, ◌≤◌, ◌≡◌, ap, sym, ◌∙◌,
  Option, none, some, List, ◌++◌, arith, leb, if◌then◌else◌, length, take, drop, length-append,
  length-take, length-drop, leb-true, take-append-drop, take-append, drop-append, drop-drop,
  take-all, replicate, length-replicate,
}

module _ {ℓ} {A : Type ℓ} where
  -- The elements of `[i, j)`.
  abbrev pub slice : ℕ → ℕ → List A → List A
  slice i j xs = take (j - i) (drop i xs)

  -- `std::copy` of `src` to `target.begin() + k`: writing past the end is undefined, `none`.
  unfoldable pub copy_to : List A → ℕ → List A → Option (List A)
  copy_to target k src =
      if leb (k + length src) (length target)
      then some (take k target ++ (src ++ drop (k + length src) target))
      else none

  -- `insert(begin() + i, first, last)`.
  abbrev pub insert_range : ℕ → List A → List A → List A
  insert_range i src xs = take i xs ++ (src ++ drop i xs)

  -- `erase(begin() + i, begin() + j)`.
  abbrev pub erase_range : ℕ → ℕ → List A → List A
  erase_range i j xs = take i xs ++ drop j xs

  pub length-slice : (i j : ℕ) (xs : List A) → i ≤ j → j ≤ length xs → length (slice i j xs) ≡ j - i
  length-slice i j xs h k = omega (arith, length-take (j - i) (drop i xs), length-drop i xs)

  pub slice-all : (xs : List A) → slice 0 (length xs) xs ≡ xs
  slice-all xs =
      rw (let e : length xs - 0 ≡ length xs = omega arith in e)
        (take-all (length xs) xs (omega arith))

  pub slice_split :
      (i j k : ℕ) (xs : List A)
      → i ≤ j
      → j ≤ k
      → k ≤ length xs
      → slice i j xs ++ slice j k xs ≡ slice i k xs
  slice_split i j k xs h1 h2 h3 =
      rw
        (let e : drop j xs ≡ drop (j - i) (drop i xs) =
            sym (drop-drop (j - i) i xs ∙ ap (λ n. drop n xs) (omega arith)) in
          e)
        (take-append-take (j - i) (k - j) (drop i xs) ∙ ap (λ n. take n (drop i xs)) (omega arith))

  -- The whole list, cut in three.
  pub slice_three : (i j : ℕ) (xs : List A) → i ≤ j → take i xs ++ (slice i j xs ++ drop j xs) ≡ xs
  slice_three i j xs h = rw (
    let e : drop j xs ≡ drop (j - i) (drop i xs) =
          sym (drop-drop (j - i) i xs ∙ ap (λ n. drop n xs) (omega arith)) in
        e,
    take-append-drop (j - i) (drop i xs),
    take-append-drop i xs,
  )

  pub length-insert_range :
      (i : ℕ) (src xs : List A)
      → i ≤ length xs
      → length (insert_range i src xs) ≡ length xs + length src
  length-insert_range i src xs h =
      rw (length-append (take i xs) (src ++ drop i xs), length-append src (drop i xs))
        (omega (arith, length-take i xs, length-drop i xs))

  pub length-erase_range :
      (i j : ℕ) (xs : List A)
      → i ≤ j
      → j ≤ length xs
      → length (erase_range i j xs) + (j - i) ≡ length xs
  length-erase_range i j xs h k =
      rw (length-append (take i xs) (drop j xs)) (omega (arith, length-take i xs, length-drop j xs))

  drop-replicate : (i n : ℕ) (a : A) → drop i (replicate n a) ≡ replicate (n - i) a
  drop-replicate zero n a = ap (λ k. replicate k a) (omega arith)
  drop-replicate (suc i) zero a = ap (λ k. replicate k a) (let e : 0 ≡ 0 - suc i = omega arith in e)
  drop-replicate (suc i) (suc n) a = drop-replicate i n a ∙ ap (λ k. replicate k a) (omega arith)

  -- Copying into a fresh vector behind what is already filled.
  pub copy_to-fill :
      (k n : ℕ) (done src : List A) (a : A)
      → length done ≡ k
      → length src ≤ n
      → copy_to (done ++ replicate n a) k src ≡ some (done ++ (src ++ replicate (n - length src) a))
  unfolding copy_to
  copy_to-fill k n done src a h1 h2 = rw (
    leb-true (k + length src) (length (done ++ replicate n a))
        (omega (arith, length-append done (replicate n a), length-replicate n a)),
    take-append k done (replicate n a) h1,
    ← drop-drop (length src) k (done ++ replicate n a),
    drop-append k done (replicate n a) h1,
    drop-replicate (length src) n a,
  )

  drop-take : (k n : ℕ) (xs : List A) → drop k (take n xs) ≡ take (n - k) (drop k xs)
  drop-take zero n xs = ap (λ m. take m xs) (omega arith)
  drop-take (suc k) zero xs =
      ap (λ m. take m (drop (suc k) xs)) (let e : 0 ≡ 0 - suc k = omega arith in e)
  drop-take (suc k) (suc n) [] = sym (take-all (suc n - suc k) [] (omega arith))
  drop-take (suc k) (suc n) (x ∷ xs) = drop-take k n xs ∙ ap (λ m. take m (drop k xs)) (omega arith)

  pub take-slice :
      (i j k : ℕ) (xs : List A) → k ≤ j - i → take k (slice i j xs) ≡ slice i (i + k) xs
  take-slice i j k xs h =
      take-take k (j - i) (drop i xs) h ∙ ap (λ m. take m (drop i xs)) (omega arith)

  pub drop-slice : (i j k : ℕ) (xs : List A) → drop k (slice i j xs) ≡ slice (i + k) j xs
  drop-slice i j k xs =
      drop-take k (j - i) (drop i xs)
      ∙ ap (take (j - i - k)) (drop-drop k i xs)
      ∙ ap (λ m. take m (drop (i + k) xs)) (let e : j - i - k ≡ j - (i + k) = omega arith in e)

  -- A write of one element behind what is already filled.
  pub set-append :
      (done ys : List A) (k : ℕ) (x v : A)
      → length done ≡ k
      → set (done ++ (x ∷ ys)) k v ≡ done ++ (v ∷ ys)
  set-append [] ys zero x v h = refl
  set-append [] ys (suc k) x v h = absurd (omega arith)
  set-append (d ∷ done) ys zero x v h = absurd (omega arith)
  set-append (d ∷ done) ys (suc k) x v h = ap (◌∷◌ d) (set-append done ys k x v (omega arith))
