-- ===== src/Strings/Read.antt =====
-- The lengths and the comparisons of strings.
use memoir_cs397_atc.Prelude.{
  ℕ, zero, suc, ◌+◌, ◌-◌, ◌%◌, ◌^◌, ◌≤◌, ◌<◌, ◌≡◌, ◌≢◌, refl, ap, sym, ◌∙◌, subst, inl, inr, some,
  List, ◌==◌, ==-false, arith, get_elem?, get_elem?-in_bounds, Bool-cases,
}
use memoir_cs397_atc.Words.{add64, sub64, to_int, add64-small, sub64-small}
use memoir_cs397_atc.Result.{ok}
use memoir_cs397_atc.Objects.{Runtime}
use memoir_cs397_atc.Assoc.{Floats}
use memoir_cs397_atc.Sequence.Valid.{IsSequence, access_check-ok}
use memoir_cs397_atc.Sequence.Elements.{get-ok}
use memoir_cs397_atc.Collection.{collection_get, sequence_get, index_argument, first_argument}
use memoir_cs397_atc.Access.{read_element}
use memoir_cs397_atc.Access.Cast.{from_u64, bits}
use memoir_cs397_atc.Access.Ssa.{index_read_integer}
use memoir_cs397_atc.Access.Trip.{by_class-sequence}
use memoir_cs397_atc.Strings.{
  assert_string, read_char, compare_from, strcmp_diff, length_from, strlen,
}

module _ (floats : Floats) (fuel : ℕ) where
  -- The characters of a sequence.
  abbrev pub CharAt : List ℕ → ℕ → ℕ → Type 0
  CharAt xs k c = (x : ℕ) × (get_elem? xs k ≡ some x) × (x % 2 ^ 8 ≡ c)

  read_char-ok :
      {r : Runtime} {p t s i j : ℕ} {xs : List ℕ}
      → IsSequence r p t s i j xs
      → (k c : ℕ) → k < j - i
      → CharAt xs (i + k) c
      → read_char floats fuel p k r ≡ ok (c, r)
  unfolding read_char index_read_integer read_element collection_get sequence_get index_argument
      first_argument from_u64 bits
  read_char-ok {r} v k c h (x, at, low) =
      rw (access_check-ok v, by_class-sequence v ℕ _ _ _, get-ok v k x h at)
        (ap (λ c. ok (c, r)) low)

  module _ {r : Runtime} {p t s i j : ℕ} {xs : List ℕ} (v : IsSequence r p t s i j xs) where
    -- The string from an index on ends after so many characters.
    abbrev pub Ends : ℕ → ℕ → Type 0
    Ends cur n =
        (cur + n < j - i)
        × CharAt xs (i + (cur + n)) 0
        × ((k : ℕ) → k < n → (c : ℕ) × CharAt xs (i + (cur + k)) c × (c ≢ 0))

    Ends-next : (cur n : ℕ) → Ends cur (suc n) → Ends (cur + 1) n
    Ends-next cur n (within, last, before) =
        let e : cur + suc n ≡ cur + 1 + n = omega arith in
        (
          omega arith,
          subst (λ k. CharAt xs (i + k) 0) e last,
          λ k lt.
              let (c, there, alive) = before (suc k) (omega arith) in
              let e' : cur + suc k ≡ cur + 1 + k = omega arith in
              (c, subst (λ k. CharAt xs (i + k) c) e' there, alive),
        )

    length_from-ok :
        (m n cur : ℕ) → n < m → Ends cur n → length_from floats fuel m p cur r ≡ ok (cur + n, r)
    unfolding length_from
    length_from-ok zero n cur lt ends = absurd (omega arith)
    length_from-ok (suc m) zero cur lt (within, last, before) =
        let e : cur + 0 ≡ cur = omega arith in
        rw (read_char-ok v cur 0 (omega arith) (subst (λ k. CharAt xs (i + k) 0) e last))
          (ap (λ k. ok (k, r)) (sym e))
    length_from-ok (suc m) (suc n) cur lt ends =
        let (within, last, before) = ends in
        let (c, there, alive) = before 0 (omega arith) in
        let e : cur + 0 ≡ cur = omega arith in
        let here = read_char-ok v cur c (omega arith) (subst (λ k. CharAt xs (i + k) c) e there) in
        let step : add64 cur 1 ≡ cur + 1 = add64-small cur 1 (omega (arith, v.within, v.fits)) in
        rw (here, ==-false c 0 alive, step)
          (length_from-ok m n (cur + 1) (omega arith) (Ends-next cur n ends)
            ∙ ap (λ k. ok (k, r)) (omega arith))

    -- Where the assertion of the string passes and the first 0 in a sequence, from the start on,
    -- lies n places behind it, more than n steps are enough for `memoir_strlen` to end, with n.
    pub strlen-Ends :
        (m n start : ℕ) (before : Runtime)
        → assert_string fuel p before ≡ ok (tt, r)
        → n < m
        → Ends start n
        → strlen floats fuel m p start before ≡ ok (n, r)
    unfolding strlen
    strlen-Ends m n start before passes lt ends =
        rw (passes, length_from-ok m n start lt ends)
          (ap (λ k. ok (k, r))
            (sub64-small (start + n) start (omega arith) (omega (arith, ends.0, v.within, v.fits))
              ∙ omega arith))

  module _ {r : Runtime} {p t s i j p' t' s' i' j' : ℕ} {xs ys : List ℕ}
      (v : IsSequence r p t s i j xs) (v' : IsSequence r p' t' s' i' j' ys) where
    -- A character within the second sequence.
    char_within : (b : ℕ) → b < j' - i' → (c : ℕ) × (read_char floats fuel p' b r ≡ ok (c, r))
    char_within b h =
        let (y, at) = get_elem?-in_bounds ys (i' + b) (omega (arith, v'.within)) in
        (y % 2 ^ 8, read_char-ok v' b (y % 2 ^ 8) h (y, at, refl))

    compare_from-ok :
        (m n a b : ℕ)
        → n < m
        → Ends v a n
        → b + n < j' - i'
        → (k : ℕ) × (k ≤ n) × (compare_from floats fuel m p a p' b r ≡ ok ((a + k, b + k), r))
    unfolding compare_from
    compare_from-ok zero n a b lt ends h = absurd (omega arith)
    compare_from-ok (suc m) zero a b lt (within, last, before) h =
        let e : a + 0 ≡ a = omega arith in
        let e' : b + 0 ≡ b = omega arith in
        let (c, here') = char_within b (omega arith) in
        let here = read_char-ok v a 0 (omega arith) (subst (λ k. CharAt xs (i + k) 0) e last) in
        (0, omega arith, rw (here, here', e, e') refl)
    compare_from-ok (suc m) (suc n) a b lt ends h =
        let (within, last, before) = ends in
        let (c, there, alive) = before 0 (omega arith) in
        let e : a + 0 ≡ a = omega arith in
        let e' : b + 0 ≡ b = omega arith in
        let here = read_char-ok v a c (omega arith) (subst (λ k. CharAt xs (i + k) c) e there) in
        let (c', here') = char_within b (omega arith) in
        elim (Bool-cases (c == c')) [
          | inr other ↦ (0, omega arith, rw (here, here', ==-false c 0 alive, other, e, e') refl)
          | inl same ↦
              let (k, le, rest) =
                compare_from-ok m n (a + 1) (b + 1) (omega arith) (Ends-next v a n ends)
                  (omega arith) in
              let step : add64 a 1 ≡ a + 1 = add64-small a 1 (omega (arith, v.within, v.fits)) in
              let step' : add64 b 1 ≡ b + 1 = add64-small b 1 (omega (arith, v'.within, v'.fits)) in
              let f : a + 1 + k ≡ a + suc k = omega arith in
              let f' : b + 1 + k ≡ b + suc k = omega arith in
              (
                suc k,
                omega arith,
                rw (here, here', ==-false c 0 alive, same, step, step', rest, f, f') refl,
              )
        ]

    -- Where both assertions pass, the first string has a 0 n places behind its beginning, and the
    -- second sequence is no shorter, more than n steps are enough for `memoir_strcmp__diff` to
    -- end, and its result is 0 whatever the characters are.
    pub strcmp_diff-Ends :
        (m n a b : ℕ) (first second : Runtime)
        → assert_string fuel p first ≡ ok (tt, second)
        → assert_string fuel p' second ≡ ok (tt, r)
        → n < m
        → Ends v a n
        → b + n < j' - i'
        → strcmp_diff floats fuel m p a p' b first ≡ ok (0, r)
    unfolding strcmp_diff to_int
    strcmp_diff-Ends m n a b first second passes passes' lt ends h =
        let (k, le, done) = compare_from-ok m n a b lt ends h in
        let one : sub64 (a + k) a ≡ k =
          sub64-small (a + k) a (omega arith) (omega (arith, ends.0, v.within, v.fits))
          ∙ omega arith in
        let other : sub64 (b + k) b ≡ k =
          sub64-small (b + k) b (omega arith) (omega (arith, v'.within, v'.fits)) ∙ omega arith in
        let none_left : sub64 k k ≡ 0 =
          sub64-small k k (omega arith) (omega (arith, ends.0, v.within, v.fits)) ∙ omega arith in
        rw (passes, passes', done, one, other, none_left) refl
