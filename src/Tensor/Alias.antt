-- ===== src/Tensor/Alias.antt =====
-- When different indices lead to different elements of the flat vector of a tensor.
use memoir_cs397_atc.Prelude.{
  ℕ, suc, ◌+◌, ◌*◌, ◌^◌, ◌≤◌, ◌<◌, ◌≡◌, inl, inr, List, [], ◌∷◌, arith, ltb, sym, length, ap, refl,
  ◌∙◌, Bool-cases,
}
use native.Mathlib.Decide.{dec_le}
use memoir_cs397_atc.Result.{ok, assert_failed}
use memoir_cs397_atc.Tensor.Index.{index_loop, flattened_index, exact_index, exact_length}
use memoir_cs397_atc.Tensor.Bounds.{
  Within, Positive, exact_length-ge, index_loop-cons, flattened_index-exact,
}

-- No dimension is longer than the one before it.
abbrev pub NonIncreasing : ℕ → List ℕ → Type 0
NonIncreasing last [] = Unit {0}
NonIncreasing last (d ∷ ds) = (d ≤ last) × NonIncreasing d ds

pub NonIncreasing-dec : (last : ℕ) (ds : List ℕ) → Dec (NonIncreasing last ds)
NonIncreasing-dec last [] = yes tt
NonIncreasing-dec last (d ∷ ds) = elim (dec_le d last) [
  | no longer ↦ no (λ h. longer h.0)
  | yes first ↦ elim (NonIncreasing-dec d ds) [
    | no longer ↦ no (λ h. longer h.1)
    | yes rest ↦ yes (first, rest)
  ]
]

digits_unique :
    (last f g i j : ℕ) → i < last → j < last → f * last + i ≡ g * last + j → (f ≡ g) × (i ≡ j)
digits_unique last f g i j hi hj e = (quotient, omega (arith, ap (λ (t : ℕ). t * last) quotient))
  where
    quotient : f ≡ g
    quotient = grind arith

exact_index-injective :
    (ds is js : List ℕ) (f g last : ℕ)
    → NonIncreasing last ds
    → Within ds is
    → Within ds js
    → exact_index ds is f last ≡ exact_index ds js g last
    → (f ≡ g) × (is ≡ js)
unfolding exact_index
exact_index-injective [] [] [] f g last n w v e = (e, refl)
exact_index-injective [] (i ∷ is) js f g last n w v e = absurd w
exact_index-injective [] [] (j ∷ js) f g last n w v e = absurd v
exact_index-injective (d ∷ ds) [] js f g last n w v e = absurd w
exact_index-injective (d ∷ ds) (i ∷ is) [] f g last n w v e = absurd v
exact_index-injective (d ∷ ds) (i ∷ is) (j ∷ js) f g last n w v e =
    let (heads, tails) =
      exact_index-injective ds is js (f * last + i) (g * last + j) d n.1 w.1 v.1 e in
    let (fs, digits) = digits_unique last f g i j (omega arith) (omega arith) heads in (fs, cc)

pub flat_index-injective :
    (d : ℕ) (ds is js : List ℕ)
    → NonIncreasing d ds
    → Within (d ∷ ds) is
    → Within (d ∷ ds) js
    → exact_index (d ∷ ds) is 0 1 ≡ exact_index (d ∷ ds) js 0 1
    → is ≡ js
unfolding exact_index
flat_index-injective d ds [] js n w v e = absurd w
flat_index-injective d ds (i ∷ is) [] n w v e = absurd v
flat_index-injective d ds (i ∷ is) (j ∷ js) n w v e =
    let (heads, tails) = exact_index-injective ds is js (0 * 1 + i) (0 * 1 + j) d n w.1 v.1 e in
    let same : i ≡ j = omega arith in cc

-- In a tensor of which no dimension is longer than the one before it, different indices within the
-- dimensions lead to different elements.
pub flattened_index-injective :
    (d : ℕ) (ds is js : List ℕ) {k : ℕ}
    → NonIncreasing d ds
    → exact_length (d ∷ ds) 0 1 < 2 ^ 31
    → Within (d ∷ ds) is
    → Within (d ∷ ds) js
    → flattened_index (d ∷ ds) is ≡ ok k
    → flattened_index (d ∷ ds) js ≡ ok k
    → is ≡ js
flattened_index-injective d ds is js n small w v p q =
    flat_index-injective d ds is js n w v
      (cc (flattened_index-exact (d ∷ ds) small is w, flattened_index-exact (d ∷ ds) small js v))

-- But where the second of two dimensions is the longer one, neighbours in two rows share an
-- element.
pub flattened_index-alias :
    (d e i j : ℕ)
    → suc i < d
    → d + j < e
    → d * d + e < 2 ^ 31
    → flattened_index (d ∷ e ∷ []) (i ∷ (d + j) ∷ [])
      ≡ flattened_index (d ∷ e ∷ []) (suc i ∷ j ∷ [])
unfolding exact_index exact_length
flattened_index-alias d e i j hi hj small =
    flattened_index-exact (d ∷ e ∷ []) (omega arith) (i ∷ (d + j) ∷ []) (omega arith)
    ∙ ap ok (grind arith)
    ∙ sym (flattened_index-exact (d ∷ e ∷ []) (omega arith) (suc i ∷ j ∷ []) (omega arith))

-- An index outside its dimension fails the assertion.
index_loop-outside :
    (ds is : List ℕ) (f g last : ℕ)
    → length is ≡ length ds
    → ¬ Within ds is
    → f ≤ g
    → 0 < last
    → last < 2 ^ 31
    → Positive ds
    → exact_length ds g last < 2 ^ 31
    → index_loop ds is f last ≡ assert_failed
unfolding index_loop exact_length
index_loop-outside [] [] f g last same out le pos small p h = absurd (out tt)
index_loop-outside [] (i ∷ is) f g last same out le pos small p h = absurd (omega arith)
index_loop-outside (d ∷ ds) [] f g last same out le pos small p h = absurd (omega arith)
index_loop-outside (d ∷ ds) (i ∷ is) f g last same out le pos small p h =
    elim (Bool-cases (ltb i d)) [
      | inr no_good ↦ rw no_good
      | inl good ↦
          let lt : i < d = ground arith in
          let above = exact_length-ge ds (g * last + d) d p.1 p.0 in
          let below : f * last + i < g * last + d = grind arith in
          index_loop-cons f last small pos d i ds is (omega arith) lt (omega arith)
          ∙ index_loop-outside ds is (f * last + i) (g * last + d) d (omega arith)
              (λ w. out (lt, w)) (omega arith) p.0 (omega arith) p.1 h
    ]

-- With as many indices as dimensions, one of them out of range, the access fails its assertion.
pub flattened_index-outside :
    (ds is : List ℕ)
    → length is ≡ length ds
    → Positive ds
    → exact_length ds 0 1 < 2 ^ 31
    → ¬ Within ds is
    → flattened_index ds is ≡ assert_failed
unfolding flattened_index
flattened_index-outside ds is same p small out =
    rw (index_loop-outside ds is 0 0 1 same out (omega arith) (omega arith) (omega arith) p small)
