-- ===== src/Backend/Vector/Allocate.antt =====
-- `T##_vector__allocate`
use native.Mathlib.Nat.{div-le_self}
use memoir_cs397_atc.Prelude.{
  ℕ, ◌+◌, ◌-◌, ◌/◌, ◌^◌, ◌≤◌, ◌<◌, ◌≡◌, ap, ◌∙◌, Option, none, arith, length-replicate,
}
use memoir_cs397_atc.Words.{add64-small, sub64-small, add64, sub64}
use memoir_cs397_atc.Std.Bits.{bit_or-ge, bit_or-lt}
use memoir_cs397_atc.Backend.Vector.{smear, next_pow_2, allocate, size}
use memoir_cs397_atc.Backend.Vector.Valid.{IsVector, size-ok}

-- Between `n` and the powers of two above it.
abbrev Keeps : ℕ → ℕ → Type 0
Keeps n m = (n ≤ m) × (m < 2 ^ 59)

smear-Keeps : (k n m : ℕ) → Keeps n m → Keeps n (smear k m)
unfolding smear
smear-Keeps k n m (above, below) = (
  omega (arith, bit_or-ge m (m / 2 ^ k)),
  bit_or-lt 59 m (m / 2 ^ k) below (omega (arith, div-le_self m (2 ^ k))),
)

next_pow_2-Within : (n : ℕ) → n < 2 ^ 59 → (n < next_pow_2 n) × (next_pow_2 n ≤ 2 ^ 59)
unfolding next_pow_2
next_pow_2-Within n h =
    let m = smear 32 (smear 16 (smear 8 (smear 4 (smear 2 (smear 1 n))))) in
    let (above, below) = smear-Keeps 32 n (smear 16 (smear 8 (smear 4 (smear 2 (smear 1 n))))) (
      smear-Keeps 16 n (smear 8 (smear 4 (smear 2 (smear 1 n)))) (
        smear-Keeps 8 n (smear 4 (smear 2 (smear 1 n))) (
          smear-Keeps 4 n (smear 2 (smear 1 n))
            (smear-Keeps 2 n (smear 1 n) (smear-Keeps 1 n n (omega arith, h)))))) in
    let e : next_pow_2 n ≡ m + 1 = add64-small m 1 (omega arith) in
    (omega (arith, e), omega (arith, e))

module _ {A : Type 0} (n : ℕ) (some_left : 0 < n) (small : n ≤ 2 ^ 59) where
  -- A new vector of at least one element is valid and has the size asked for.
  pub allocate-IsVector : IsVector (allocate {A = A} n) × (size (allocate {A = A} n) ≡ n)
  unfolding allocate
  allocate-IsVector =
      let pre : sub64 n 1 ≡ n - 1 = sub64-small n 1 (omega arith) (omega arith) in
      let cap = next_pow_2 (sub64 n 1) in
      let same : cap ≡ next_pow_2 (n - 1) = ap next_pow_2 pre in
      let (above, below) = next_pow_2-Within (n - 1) (omega arith) in
      let half : sub64 cap n ≡ cap - n =
        sub64-small cap n (omega (arith, same)) (omega (arith, same)) in
      let end : add64 (sub64 cap n / 2) n ≡ (cap - n) / 2 + n =
        ap (λ m. add64 (m / 2) n) half ∙ add64-small ((cap - n) / 2) n (omega (arith, same)) in
      let valid : IsVector (allocate {A = A} n) = record {
        ordered = omega (arith, half, end, same);
        within = omega (arith, half, end, same);
        sized = length-replicate {A = Option A} cap none;
        small = omega (arith, same);
      } in
      (valid, size-ok valid ∙ omega (arith, half, end, same))
