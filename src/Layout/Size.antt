-- ===== src/Layout/Size.antt =====
-- How wide the integers are that hold bit fields.
use memoir_cs397_atc.Prelude.{
  ℕ, zero, suc, ◌+◌, ◌-◌, ◌*◌, ◌/◌, ◌^◌, ◌%◌, ◌≤◌, ◌<◌, ◌≡◌, refl, Bool, true, false, inl, inr,
  Bool-cases, ◌&&◌, ◌||◌, ltb, leb, ◌==◌, if◌then◌else◌, arith,
}
use memoir_cs397_atc.Words.{int_mod}
use memoir_cs397_atc.Layout.{smear, get_next_size}

-- A test that each of the first numbers passes, from the greatest to 0.
passes : (ℕ → Bool) → ℕ → Bool
passes test zero = true
passes test (suc m) = if test m then passes test m else false

passes-at : (test : ℕ → Bool) (m : ℕ) → passes test m ≡ true → {k : ℕ} → k < m → test k ≡ true
unfolding passes
passes-at test zero all below = absurd (omega arith)
passes-at test (suc m) all {k} below = elim (Bool-cases (k == m)) [
  | inl last ↦ ground arith
  | inr earlier ↦ passes-at test m (ground arith) (ground arith)
]

-- The number of bytes that is tried for `m` bytes, and the least power of two that is enough.
bytes : ℕ → ℕ
unfolding smear
bytes m = smear 4 (smear 2 (smear 1 (m - 1))) + 1

exponent : ℕ → ℕ
exponent m =
    if leb m 1
    then 0
    else if leb m 2
    then 1
    else if leb m 4
    then 2
    else if leb m 8
    then 3
    else if leb m 16
    then 4
    else if leb m 32
    then 5
    else if leb m 64
    then 6
    else if leb m 128
    then 7
    else 8

-- Whether the rounding of `m` bytes is right.
is_rounded : ℕ → Bool
unfolding bytes exponent
is_rounded m =
    (m == 0)
    || ((bytes m == 2 ^ exponent m)
        && leb m (2 ^ exponent m)
        && ltb (2 ^ exponent m) (2 * m)
        && ltb (bytes m) 257)

rounded_table : passes is_rounded 257 ≡ true
unfolding passes is_rounded
rounded_table = refl

bytes-exponent :
    (m : ℕ)
    → 0 < m
    → m < 257
    → (bytes m ≡ 2 ^ exponent m) × (m ≤ 2 ^ exponent m) × (2 ^ exponent m < 2 * m) × (bytes m < 257)
unfolding is_rounded
bytes-exponent m positive below =
    let checked = passes-at is_rounded 257 rounded_table below in ground arith

get_next_size-bytes : (n : ℕ) → 8 ≤ n → get_next_size n ≡ (bytes (n / 8) * 8) % int_mod
unfolding get_next_size bytes
get_next_size-bytes n large = ground arith

-- For a width from 8 to 2055, `get_next_size` is eight times the least power of two that is no
-- less than the number of whole bytes of the width.
pub get_next_size_lem :
    (n : ℕ)
    → 8 ≤ n
    → n < 2056
    → (k : ℕ) × (get_next_size n ≡ 8 * 2 ^ k) × (n / 8 ≤ 2 ^ k) × (2 ^ k < 2 * (n / 8))
get_next_size_lem n large below =
    let (power, enough, least, small) = bytes-exponent (n / 8) (omega arith) (omega arith) in
    (exponent (n / 8), omega (arith, get_next_size-bytes n large), enough, least)

powers_table : passes (λ k. (bytes (2 ^ k) == 2 ^ k) && ltb 0 (2 ^ k) && ltb (2 ^ k) 257) 9 ≡ true
unfolding passes bytes smear
powers_table = refl

get_next_size-exact :
    (m r : ℕ)
    → ((bytes m == m) && ltb 0 m && ltb m 257) ≡ true
    → r < 8
    → get_next_size (8 * m + r) ≡ 8 * m
get_next_size-exact m r checked below =
    let whole : (8 * m + r) / 8 ≡ m = omega arith in
    let fixed : bytes m ≡ m = ground arith in
    let positive : 0 < m = ground arith in
    let small : m < 257 = ground arith in
    let size = rw whole at (get_next_size-bytes (8 * m + r) (omega arith)) in omega arith

-- For a width of up to seven bits more than eight times one of the first nine powers of two,
-- `get_next_size` is less than the width.
pub get_next_size-short :
    (k r : ℕ) → k < 9 → 0 < r → r < 8 → get_next_size (8 * 2 ^ k + r) < 8 * 2 ^ k + r
get_next_size-short k r small positive below =
    let checked =
      passes-at (λ k. (bytes (2 ^ k) == 2 ^ k) && ltb 0 (2 ^ k) && ltb (2 ^ k) 257) 9 powers_table
        small in
    omega (arith, get_next_size-exact (2 ^ k) r checked below)
