-- ===== src/Ssa/Insert.antt =====
-- What `sequence_insert_*`, `sequence_insert` and `sequence_remove` of
-- runtime/src/ssa_operations.cpp return for valid sequences.
use mathlib.Core.List.{append-nil, append_assoc}
use memoir_cs397_atc.Prelude.{
  ℕ, zero, suc, leb-false, ◌+◌, ◌-◌, ◌≤◌, ◌<◌, ◌≡◌, refl, ap, sym, ◌∙◌, List, [], ◌∷◌, ◌++◌, arith,
  ltb-true, leb-true, length, if◌then◌else◌, ◌==◌, set, replicate, length-append, length-replicate,
}
use memoir_cs397_atc.Words.{max_size, max_u64, add64-small}
use memoir_cs397_atc.Std.Vector.{
  slice, insert_range, set-append, take-slice, drop-slice, copy_to-fill, length-slice,
}
use memoir_cs397_atc.Result.{ok}
use memoir_cs397_atc.Objects.{sequence_alloc, Runtime, new_object}
use memoir_cs397_atc.Sequence.Iterators.{resize, write_at, advance}
use memoir_cs397_atc.Sequence.Valid.{
  IsSequence, access_check-ok, type_check-ok, begin-ok, end-ok, size-ok, plus-ok, between-ok,
  typed_object,
}
use memoir_cs397_atc.Ssa.{resolve, type_of, sequence_insert_value}

-- `MEMOIR_FUNC(end)()` as an index is the size.
abbrev pub position : ℕ → ℕ → ℕ
position n index = if index == max_u64 then n else index

module _ {r : Runtime} {p t s i j : ℕ} {xs : List ℕ} (v : IsSequence r p t s i j xs) where
  pub type_of-ok : type_of p r ≡ ok (t, r)
  unfolding type_of
  type_of-ok = let (o, loaded, type) = typed_object v in rw (loaded, type)

  pub resolve-ok : (index : ℕ) → resolve p index r ≡ ok (position (j - i) index, r)
  unfolding resolve
  resolve-ok index = ground (arith, size-ok v)

pub resize-new : (n : ℕ) → n ≤ max_size → resize n [] ≡ ok (replicate n 0)
unfolding resize
resize-new zero h = refl
resize-new (suc n) h =
    rw (leb-true (suc n) max_size h, leb-false (suc n) 0 (omega arith))
      (ap (λ k. ok (replicate k 0)) (let e : suc n - 0 ≡ suc n = omega arith in e))

pub write_at-fill :
    (k n : ℕ) (done src : List ℕ)
    → length done ≡ k
    → length src ≤ n
    → write_at (done ++ replicate n 0) k src ≡ ok (done ++ (src ++ replicate (n - length src) 0))
unfolding write_at
write_at-fill k n done src h1 h2 = rw (copy_to-fill k n done src 0 h1 h2)

pub advance-ok :
    (xs : List ℕ) (k n : ℕ) → k + n ≤ length xs → length xs ≤ max_size → advance xs k n ≡ ok (k + n)
unfolding advance
advance-ok xs k n h fits = rw (add64-small k n (omega arith), leb-true (k + n) (length xs) h)

pub advance-start :
    (xs : List ℕ) (n : ℕ) → n ≤ length xs → length xs ≤ max_size → advance xs 0 n ≡ ok n
advance-start xs n h fits = advance-ok xs 0 n (omega arith) fits ∙ ap ok (omega arith)

pub write_at-last :
    (k n : ℕ) (done src : List ℕ)
    → length done ≡ k
    → length src ≡ n
    → write_at (done ++ replicate n 0) k src ≡ ok (done ++ src)
write_at-last k n done src h1 h2 =
    write_at-fill k n done src h1 (omega arith)
    ∙ ap (λ ys. ok (done ++ ys))
        (ap (λ m. src ++ replicate m 0) (let e : n - length src ≡ 0 = omega arith in e)
          ∙ append-nil src)

-- The vector is filled from the front.
pub write_at-next :
    (k n m : ℕ) (done src : List ℕ)
    → length done ≡ k
    → length src + m ≡ n
    → write_at (done ++ replicate n 0) k src ≡ ok ((done ++ src) ++ replicate m 0)
write_at-next k n m done src h1 h2 =
    write_at-fill k n done src h1 (omega arith)
    ∙ ap (λ l. ok (done ++ (src ++ replicate l 0))) (let e : n - length src ≡ m = omega arith in e)
    ∙ ap ok (sym (append_assoc done src (replicate m 0)))

module _ {r : Runtime} {p t s i j : ℕ} {xs : List ℕ} (v : IsSequence r p t s i j xs) where
  -- The elements before and behind a position.
  pub length-before : (k : ℕ) → k ≤ j - i → length (slice i (i + k) xs) ≡ k
  length-before k h =
      length-slice i (i + k) xs (omega arith) (omega (arith, v.within, v.ordered)) ∙ omega arith

  pub length-behind : (k : ℕ) → k ≤ j - i → length (slice (i + k) j xs) ≡ j - i - k
  length-behind k h = length-slice (i + k) j xs (omega (arith, v.ordered)) v.within ∙ omega arith

  write_value :
      (value k : ℕ)
      → k ≤ j - i
      → set (slice i (i + k) xs ++ replicate (j - i + 1 - k) 0) k value
        ≡ (slice i (i + k) xs ++ (value ∷ [])) ++ replicate (j - i - k) 0
  write_value value k h =
      ap (λ n. set (slice i (i + k) xs ++ replicate n 0) k value)
        (let e : j - i + 1 - k ≡ suc (j - i - k) = omega arith in e)
      ∙ set-append (slice i (i + k) xs) (replicate (j - i - k) 0) k 0 value (length-before k h)
      ∙ sym (append_assoc (slice i (i + k) xs) (value ∷ []) (replicate (j - i - k) 0))

  room_left : (k n : ℕ) → k ≤ j - i → k < n → k < length (slice i (i + k) xs ++ replicate (n - k) 0)
  room_left k n h lt = omega (
    arith,
    length-append (slice i (i + k) xs) (replicate (n - k) 0),
    length-replicate {A = ℕ} (n - k) 0,
    length-before k h,
  )

  length-filled :
      (value k : ℕ)
      → k ≤ j - i
      → length ((slice i (i + k) xs ++ (value ∷ [])) ++ replicate (j - i - k) 0) ≡ j - i + 1
  length-filled value k h = omega (
    arith,
    length-append (slice i (i + k) xs ++ (value ∷ [])) (replicate (j - i - k) 0),
    length-append (slice i (i + k) xs) (value ∷ []),
    length-replicate {A = ℕ} (j - i - k) 0,
    length-before k h,
  )

  length-one_more : (value k : ℕ) → k ≤ j - i → length (slice i (i + k) xs ++ (value ∷ [])) ≡ k + 1
  length-one_more value k h =
      omega (arith, length-append (slice i (i + k) xs) (value ∷ []), length-before k h)

  insert_at :
      (value index k : ℕ)
      → resolve p index r ≡ ok (k, r)
      → k ≤ j - i
      → j - i < max_size
      → sequence_insert_value value p index r
        ≡ new_object
            (sequence_alloc t ((slice i (i + k) xs ++ (value ∷ [])) ++ slice (i + k) j xs))
            r
  unfolding sequence_insert_value
  insert_at value index k resolved h room =
      let inside : i + k ≤ length xs = omega (arith, v.within, v.ordered) in
      rw (
        access_check-ok v,
        type_check-ok v,
        type_of-ok v,
        resolved,
        size-ok v,
        add64-small (j - i) 1 (omega arith),
        resize-new (j - i + 1) (omega arith),
        begin-ok v,
        plus-ok v.owns i k inside v.fits,
        between-ok v.owns i (i + k) (omega arith),
        write_at-fill 0 (j - i + 1) [] (slice i (i + k) xs) refl (omega (arith, length-before k h)),
        length-before k h,
        ltb-true k (length (slice i (i + k) xs ++ replicate (j - i + 1 - k) 0))
            (room_left k (j - i + 1) h (omega arith)),
        write_value value k h,
        end-ok v,
        between-ok v.owns (i + k) j (omega (arith, v.ordered)),
        add64-small k 1 (omega arith),
        advance-start ((slice i (i + k) xs ++ (value ∷ [])) ++ replicate (j - i - k) 0) (k + 1)
            (omega (arith, length-filled value k h)) (omega (arith, length-filled value k h)),
        write_at-last (k + 1) (j - i - k) (slice i (i + k) xs ++ (value ∷ [])) (slice (i + k) j xs)
            (length-one_more value k h) (length-behind k h),
      )

  pub parts :
      (k : ℕ) (src : List ℕ)
      → k ≤ j - i
      → (slice i (i + k) xs ++ src) ++ slice (i + k) j xs ≡ insert_range k src (slice i j xs)
  parts k src h =
      rw (take-slice i j k xs h, drop-slice i j k xs)
        (append_assoc (slice i (i + k) xs) src (slice (i + k) j xs))

  -- The SSA insertion of a value into a sequence, itself a view or not, returns a new collection
  -- with the value at the index, where the end stands for the size; no other object changes.
  pub sequence_insert_value_lem :
      (value index : ℕ)
      → position (j - i) index ≤ j - i
      → j - i < max_size
      → sequence_insert_value value p index r
        ≡ new_object
            (sequence_alloc t (insert_range (position (j - i) index) (value ∷ []) (slice i j xs)))
            r
  sequence_insert_value_lem value index h room =
      insert_at value index (position (j - i) index) (resolve-ok v index) h room
      ∙ ap (λ ys. new_object (sequence_alloc t ys) r)
          (parts (position (j - i) index) (value ∷ []) h)
