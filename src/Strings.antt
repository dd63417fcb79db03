-- ===== src/Strings.antt =====
-- runtime/api/c/src/mstring.cpp: strings as sequences of characters that end with 0. The strings behind
-- `const char *` are lists of their characters with the last 0. A loop runs on fuel; the counters are
-- `size_t`, those of `memoir_strcmp__start` `int` (below 2^31).
pub mod Read
use memoir_cs397_atc.Prelude.{
  ℕ, zero, suc, ◌+◌, Bool, true, false, ◌&&◌, not, List, [], ◌∷◌, if◌then◌else◌, ◌==◌,
}
use memoir_cs397_atc.Words.{add64, sub64, to_int}
use memoir_cs397_atc.Types.{get_integer_type, get_sequence_type}
use memoir_cs397_atc.Objects.{Cmd, pure, lift, types, ◌>>=◌, ◌>>◌}
use memoir_cs397_atc.Result.{Result, out_of_fuel}
use memoir_cs397_atc.Allocation.{assert_type}
use memoir_cs397_atc.Assoc.{word64, Floats}
use memoir_cs397_atc.Access.Cast.{u8}
use memoir_cs397_atc.Access.Ssa.{index_read_integer}

-- The type of strings, and the assertion of it, with fuel for the equality of types.
unfoldable pub assert_string : ℕ → ℕ → Cmd (Unit {0})
assert_string fuel str = do
  u8_type ← types (get_integer_type 8 false)
  string_type ← types (get_sequence_type u8_type)
  same ← assert_type fuel string_type str
  pure tt

module _ (floats : Floats) (fuel : ℕ) where
  -- `memoir_index_read(u8, str, index)`
  unfoldable pub read_char : ℕ → ℕ → Cmd ℕ
  read_char str index = index_read_integer u8 floats fuel str (word64 index ∷ [])

  -- The loop of the three comparisons.
  unfoldable pub compare_from : ℕ → ℕ → ℕ → ℕ → ℕ → Cmd (ℕ × ℕ)
  compare_from zero str a str2 b = lift out_of_fuel
  compare_from (suc n) str a str2 b =
      let rest = compare_from n str (add64 a 1) str2 (add64 b 1) in
      do
        ac ← read_char str a
        bc ← read_char str2 b
        if not (ac == 0) && ac == bc then rest else pure (a, b)

  unfoldable pub strcmp_start : ℕ → ℕ → ℕ → Cmd ℕ
  strcmp_start n str str2 = do
    assert_string fuel str
    assert_string fuel str2
    ab ← compare_from n str 0 str2 0
    pure (to_int (sub64 ab.0 ab.1))

  unfoldable pub strcmp_same : ℕ → ℕ → ℕ → ℕ → Cmd ℕ
  strcmp_same n str a b = do
    assert_string fuel str
    ab ← compare_from n str a str b
    pure (to_int (sub64 (sub64 ab.0 a) (sub64 ab.1 b)))

  unfoldable pub strcmp_diff : ℕ → ℕ → ℕ → ℕ → ℕ → Cmd ℕ
  strcmp_diff n str a str2 b = do
    assert_string fuel str
    assert_string fuel str2
    ab ← compare_from n str a str2 b
    pure (to_int (sub64 (sub64 ab.0 a) (sub64 ab.1 b)))

  unfoldable pub length_from : ℕ → ℕ → ℕ → Cmd ℕ
  length_from zero str cur = lift out_of_fuel
  length_from (suc n) str cur =
      let rest = length_from n str (add64 cur 1) in
      do v ← read_char str cur; if v == 0 then pure cur else rest

  unfoldable pub strlen : ℕ → ℕ → ℕ → Cmd ℕ
  strlen n str start = do
    assert_string fuel str
    cur ← length_from n str start
    pure (sub64 cur start)

  -- The loop over `accept`: whether a character is among the ones before the 0.
  unfoldable pub accepted : ℕ → List ℕ → Bool
  accepted c [] = false
  accepted c (a ∷ accept) = if c == a then true else if a == 0 then false else accepted c accept

  unfoldable pub strspn_from : ℕ → ℕ → List ℕ → ℕ → ℕ → Cmd ℕ
  strspn_from zero str accept p count = lift out_of_fuel
  strspn_from (suc n) str accept p count =
      let rest = strspn_from n str accept (add64 p 1) (add64 count 1) in
      do
        pc ← read_char str p
        if pc == 0 then pure count else if accepted pc accept then rest else pure count

  unfoldable pub strspn : ℕ → ℕ → List ℕ → ℕ → Cmd ℕ
  strspn n str accept start = strspn_from n str accept start 0

  -- The loop over `accept` here ends at the 0 before it compares.
  unfoldable pub among : ℕ → List ℕ → Bool
  among c [] = false
  among c (a ∷ accept) = if a == 0 then false else if a == c then true else among c accept

  unfoldable pub strpbrk : ℕ → ℕ → List ℕ → ℕ → Cmd ℕ
  strpbrk zero str accept p = lift out_of_fuel
  strpbrk (suc n) str accept p =
      let rest = strpbrk n str accept (add64 p 1) in
      do pc ← read_char str p; if pc == 0 then pure 0 else if among pc accept then pure p else rest
