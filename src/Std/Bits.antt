-- ===== src/Std/Bits.antt =====
-- Bounds of `|` and `&` on words. The native operations count down the digits of the first number.
use Prim.Native.Nat.{min, max, bit_and, bit_or, digits, bit_and-bitwise, bit_or-bitwise}
use memoir_cs397_atc.Prelude.{ℕ, zero, suc, ◌*◌, ◌/◌, ◌^◌, ◌≤◌, ◌<◌, ◌≡◌, arith}

abbrev conjunction : ℕ → ℕ → ℕ → ℕ
conjunction count = digits (λ y. 0) min count

abbrev disjunction : ℕ → ℕ → ℕ → ℕ
disjunction count = digits (λ y. y) max count

conjunction-le : (count x y : ℕ) → conjunction count x y ≤ y
conjunction-le zero x y = omega arith
conjunction-le (suc count) zero y = omega arith
conjunction-le (suc count) (suc x) y = omega (arith, conjunction-le count (suc x / 2) (y / 2))

disjunction-ge : (count x y : ℕ) → x ≤ count → x ≤ disjunction count x y
disjunction-ge zero x y all = omega arith
disjunction-ge (suc count) zero y all = omega arith
disjunction-ge (suc count) (suc x) y all =
    omega (arith, disjunction-ge count (suc x / 2) (y / 2) (omega arith))

disjunction-lt : (count k x y : ℕ) → x < 2 ^ k → y < 2 ^ k → disjunction count x y < 2 ^ k
disjunction-lt zero k x y below below' = below'
disjunction-lt (suc count) k zero y below below' = below'
disjunction-lt (suc count) zero (suc x) y below below' = absurd (omega arith)
disjunction-lt (suc count) (suc k) (suc x) y below below' =
    let twice : 2 ^ suc k ≡ 2 ^ k * 2 = omega arith in
    omega (arith, disjunction-lt count k (suc x / 2) (y / 2) (omega arith) (omega arith))

pub bit_and-le : (x y : ℕ) → bit_and x y ≤ y
bit_and-le x y = omega (arith, bit_and-bitwise x y, conjunction-le x x y)

pub bit_or-ge : (x y : ℕ) → x ≤ bit_or x y
bit_or-ge x y = omega (arith, bit_or-bitwise x y, disjunction-ge x x y (omega arith))

pub bit_or-lt : (k x y : ℕ) → x < 2 ^ k → y < 2 ^ k → bit_or x y < 2 ^ k
bit_or-lt k x y below below' =
    omega (arith, bit_or-bitwise x y, disjunction-lt x k x y below below')
