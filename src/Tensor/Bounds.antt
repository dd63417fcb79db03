-- ===== src/Tensor/Bounds.antt =====
-- An index within the dimensions leads to an element of the vector.
use memoir_cs397_atc.Prelude.{
  ℕ, ◌+◌, ◌*◌, ◌^◌, ◌≤◌, ◌<◌, ◌≡◌, List, [], ◌∷◌, arith, ltb-true, length, ap, ◌∙◌, refl,
}
use memoir_cs397_atc.Words.{add64, to_int, widen_int, add64-small, mul_int-small, widen_int-small}
use memoir_cs397_atc.Result.{ok}
use memoir_cs397_atc.Tensor.Index.{
  index_loop, length_loop, flattened_index, flattened_length, exact_index, exact_length,
}

-- As many indices as dimensions, each within its dimension.
abbrev pub Within : List ℕ → List ℕ → Type 0
Within [] [] = Unit {0}
Within [] (i ∷ is) = ⊥
Within (d ∷ ds) [] = ⊥
Within (d ∷ ds) (i ∷ is) = (i < d) × Within ds is

abbrev pub Positive : List ℕ → Type 0
Positive [] = Unit {0}
Positive (d ∷ ds) = (0 < d) × Positive ds

Within-Positive : (ds is : List ℕ) → Within ds is → Positive ds
Within-Positive [] is w = tt
Within-Positive (d ∷ ds) [] w = absurd w
Within-Positive (d ∷ ds) (i ∷ is) w = (omega arith, Within-Positive ds is w.1)

-- The length only grows along the dimensions.
pub exact_length-ge :
    (ds : List ℕ) (f last : ℕ) → Positive ds → 0 < last → f ≤ exact_length ds f last
unfolding exact_length
exact_length-ge [] f last w h = omega arith
exact_length-ge (d ∷ ds) f last w h = grind (arith, exact_length-ge ds (f * last + d) d w.1 w.0)

pub index-lt-length :
    (ds is : List ℕ) (f g last : ℕ)
    → Within ds is
    → f < g
    → exact_index ds is f last < exact_length ds g last
unfolding exact_index exact_length
index-lt-length [] [] f g last w h = h
index-lt-length [] (i ∷ is) f g last w h = absurd w
index-lt-length (d ∷ ds) [] f g last w h = absurd w
index-lt-length (d ∷ ds) (i ∷ is) f g last w h =
    index-lt-length ds is (f * last + i) (g * last + d) d w.1 (grind arith)

index-le-length :
    (ds is : List ℕ) (f g last : ℕ)
    → Within ds is
    → f ≤ g
    → exact_index ds is f last ≤ exact_length ds g last
unfolding exact_index exact_length
index-le-length [] [] f g last w h = h
index-le-length [] (i ∷ is) f g last w h = absurd w
index-le-length (d ∷ ds) [] f g last w h = absurd w
index-le-length (d ∷ ds) (i ∷ is) f g last w h =
    index-le-length ds is (f * last + i) (g * last + d) d w.1 (grind arith)

-- The first index comes without a length before it.
pub flat_index-lt-length :
    (ds is : List ℕ) → Within ds is → 0 < length ds → exact_index ds is 0 1 < exact_length ds 0 1
unfolding exact_index exact_length
flat_index-lt-length [] is w h = absurd (omega arith)
flat_index-lt-length (d ∷ ds) [] w h = absurd w
flat_index-lt-length (d ∷ ds) (i ∷ is) w h =
    index-lt-length ds is (0 * 1 + i) (0 * 1 + d) d w.1 (omega arith)

-- One round in machine words, where nothing overflows.
to_int-step : (p i : ℕ) → p + i < 2 ^ 31 → to_int (add64 (widen_int p) i) ≡ p + i
unfolding to_int
to_int-step p i h =
    rw (widen_int-small p (omega arith), add64-small p i (omega arith)) (omega arith)

product-small : (f last i : ℕ) → 0 < last → f * last + i < 2 ^ 31 → f < 2 ^ 31
product-small f last i h k = grind arith

module _ (f last : ℕ) (small : last < 2 ^ 31) (pos : 0 < last) where
  pub index_loop-cons :
      (d i : ℕ) (ds is : List ℕ)
      → d < 2 ^ 31
      → i < d
      → f * last + i < 2 ^ 31
      → index_loop (d ∷ ds) (i ∷ is) f last ≡ index_loop ds is (f * last + i) d
  unfolding index_loop to_int
  index_loop-cons d i ds is hd lt h =
      rw
        (
          ltb-true i d lt,
          mul_int-small f last (product-small f last i pos h) small (omega arith),
          to_int-step (f * last) i h,
        )
        (ap (λ n. index_loop ds is (f * last + i) n) (omega arith))

  length_loop-cons :
      (d : ℕ) (ds : List ℕ)
      → f * last + d < 2 ^ 31
      → length_loop (d ∷ ds) f last ≡ length_loop ds (f * last + d) d
  unfolding length_loop to_int
  length_loop-cons d ds h =
      rw
        (
          mul_int-small f last (product-small f last d pos h) small (omega arith),
          to_int-step (f * last) d h,
        )
        (ap (λ n. length_loop ds (f * last + d) n) (omega arith))

length_loop-exact :
    (ds : List ℕ) (f last : ℕ)
    → Positive ds
    → 0 < last
    → last < 2 ^ 31
    → exact_length ds f last < 2 ^ 31
    → length_loop ds f last ≡ ok (exact_length ds f last)
unfolding length_loop exact_length
length_loop-exact [] f last w pos small h = refl
length_loop-exact (d ∷ ds) f last w pos small h =
    let above = exact_length-ge ds (f * last + d) d w.1 w.0 in
    length_loop-cons f last small pos d ds (omega arith)
    ∙ length_loop-exact ds (f * last + d) d w.1 w.0 (omega arith) h

index_loop-exact :
    (ds is : List ℕ) (f g last : ℕ)
    → Within ds is
    → f ≤ g
    → 0 < last
    → last < 2 ^ 31
    → exact_length ds g last < 2 ^ 31
    → index_loop ds is f last ≡ ok (exact_index ds is f last)
unfolding index_loop exact_index exact_length
index_loop-exact [] [] f g last w le pos small h = refl
index_loop-exact [] (i ∷ is) f g last w le pos small h = absurd w
index_loop-exact (d ∷ ds) [] f g last w le pos small h = absurd w
index_loop-exact (d ∷ ds) (i ∷ is) f g last w le pos small h =
    let positive = Within-Positive ds is w.1 in
    let above = exact_length-ge ds (g * last + d) d positive (omega arith) in
    let below : f * last + i < g * last + d = grind arith in
    index_loop-cons f last small pos d i ds is (omega arith) w.0 (omega arith)
    ∙ index_loop-exact ds is (f * last + i) (g * last + d) d w.1 (omega arith) (omega arith)
        (omega arith) h

module _ (ds : List ℕ) (small : exact_length ds 0 1 < 2 ^ 31) where
  pub flattened_length-exact : Positive ds → flattened_length ds ≡ ok (exact_length ds 0 1)
  unfolding flattened_length
  flattened_length-exact w = rw (
    length_loop-exact ds 0 1 w (omega arith) (omega arith) small,
    widen_int-small (exact_length ds 0 1) small,
  )

  pub flattened_index-exact :
      (is : List ℕ) → Within ds is → flattened_index ds is ≡ ok (exact_index ds is 0 1)
  unfolding flattened_index
  flattened_index-exact is w = rw (
    index_loop-exact ds is 0 0 1 w (omega arith) (omega arith) (omega arith) small,
    widen_int-small (exact_index ds is 0 1) (omega (arith, index-le-length ds is 0 0 1 w)),
  )

  -- For indices within positive dimensions and a length that an `int` holds, the vector that the
  -- constructor makes is longer than the position that an access computes.
  pub flattened_index-Within :
      (is : List ℕ)
      → Positive ds
      → Within ds is
      → 0 < length ds
      → (k n : ℕ) × (flattened_index ds is ≡ ok k) × (flattened_length ds ≡ ok n) × (k < n)
  flattened_index-Within is positive w some_dimension = (
    exact_index ds is 0 1,
    exact_length ds 0 1,
    flattened_index-exact is w,
    flattened_length-exact positive,
    flat_index-lt-length ds is w some_dimension,
  )
