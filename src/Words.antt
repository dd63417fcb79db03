-- ===== src/Words.antt =====
-- Machine words of the runtime: `uint64_t`/`size_t` as numbers below 2^64, `int64_t` as their bit
-- patterns, and the 32-bit `int` of `auto flattened_index = 0` as a bit pattern below 2^32.
use memoir_cs397_atc.Prelude.{
  ℕ, ◌+◌, ◌-◌, ◌*◌, ◌%◌, ◌^◌, ◌<◌, ◌≤◌, ◌≡◌, Bool, Option, none, some, arith, ltb, leb,
  if◌then◌else◌, ltb-true,
}

abbrev pub u64_mod : ℕ
u64_mod = 2 ^ 64

abbrev pub int_mod : ℕ
int_mod = 2 ^ 32

-- `(size_t)(-1)`, the value of `MEMOIR_FUNC(end)()`.
abbrev pub max_u64 : ℕ
max_u64 = 2 ^ 64 - 1

-- The most elements that a `std::vector<uint64_t>` holds: PTRDIFF_MAX / sizeof(uint64_t).
abbrev pub max_size : ℕ
max_size = 2 ^ 60 - 1

unfoldable pub add64 : ℕ → ℕ → ℕ
add64 a b = (a + b) % u64_mod

unfoldable pub sub64 : ℕ → ℕ → ℕ
sub64 a b = (a + u64_mod - b) % u64_mod

-- The sign of an `int64_t` pattern.
unfoldable pub is_negative64 : ℕ → Bool
is_negative64 a = leb (2 ^ 63) a

-- `a < b` on `int64_t` patterns: flipping the sign bit makes the order that of the patterns.
unfoldable pub signed_ltb : ℕ → ℕ → Bool
signed_ltb a b = ltb ((a + 2 ^ 63) % u64_mod) ((b + 2 ^ 63) % u64_mod)

-- A `uint64_t` converted to `int`, and an `int` widened to `uint64_t`.
unfoldable pub to_int : ℕ → ℕ
to_int a = a % int_mod

unfoldable pub widen_int : ℕ → ℕ
widen_int p = if ltb p (2 ^ 31) then p else p + (u64_mod - int_mod)

magnitude : ℕ → ℕ
magnitude p = if ltb p (2 ^ 31) then p else int_mod - p

same_sign : ℕ → ℕ → Bool
same_sign p q = if ltb p (2 ^ 31) then ltb q (2 ^ 31) else leb (2 ^ 31) q

-- `int * int`; overflow is undefined behaviour, `none`.
unfoldable pub mul_int : ℕ → ℕ → Option ℕ
unfolding magnitude same_sign
mul_int p q =
    let m : ℕ = magnitude p * magnitude q in
    if same_sign p q
    then (if ltb m (2 ^ 31) then some m else none)
    else (if leb m (2 ^ 31) then some ((int_mod - m) % int_mod) else none)

pub add64-small : (a b : ℕ) → a + b < u64_mod → add64 a b ≡ a + b
unfolding add64
add64-small a b h = omega arith

pub sub64-small : (a b : ℕ) → b ≤ a → a < u64_mod → sub64 a b ≡ a - b
unfolding sub64
sub64-small a b h k = omega arith

pub mul_int-small :
    (p q : ℕ) → p < 2 ^ 31 → q < 2 ^ 31 → p * q < 2 ^ 31 → mul_int p q ≡ some (p * q)
unfolding mul_int
mul_int-small p q hp hq h =
    rw (ltb-true p (2 ^ 31) hp, ltb-true q (2 ^ 31) hq, ltb-true (p * q) (2 ^ 31) h)

pub widen_int-small : (p : ℕ) → p < 2 ^ 31 → widen_int p ≡ p
unfolding widen_int
widen_int-small p h = rw (ltb-true p (2 ^ 31) h)

pub signed_ltb-small : (a b : ℕ) → a < 2 ^ 63 → b < 2 ^ 63 → signed_ltb a b ≡ ltb a b
unfolding signed_ltb
signed_ltb-small a b h k = ground arith
