-- ===== src/Mut/Append.antt =====
-- `sequence_append` of runtime/src/mut_operations.cpp.
use memoir_cs397_atc.Prelude.{
  ℕ, ◌+◌, ◌-◌, ◌≤◌, ◌≡◌, ◌≢◌, refl, ap, sym, if◌then◌else◌, ◌==◌, ◌∙◌, none, some, List, ◌++◌,
  arith, length, length-append, length-replicate, replicate, ==-false,
}
use memoir_cs397_atc.Words.{max_size}
use memoir_cs397_atc.Std.Vector.{slice, length-slice}
use memoir_cs397_atc.Result.{ok}
use memoir_cs397_atc.Objects.{sequence_alloc, Object, Runtime, load, delete_object}
use memoir_cs397_atc.Sequence.Valid.{
  alloc, view, IsSequence, access_check-ok, type_check-ok, begin-ok, end-ok, plus-ok, size-ok,
  between-ok, vector-ok, not_null, typed_object,
}
use memoir_cs397_atc.Sequence.Mutate.{grow-ok, set_vector-ok}
use memoir_cs397_atc.Sequence.Elements.{with_vector}
use memoir_cs397_atc.Sequence.Frame.{IsSequence-frame}
use memoir_cs397_atc.Ssa.Insert.{write_at-last}
use memoir_cs397_atc.Mut.{copy_range, sequence_append}
use memoir_cs397_atc.Mut.Agree.{IsAllocation}

module _ {r : Runtime} {p t : ℕ} {xs : List ℕ} (v : IsAllocation r p t xs) where
  -- The collection with room for `m` more elements.
  grown-IsAllocation :
      (m : ℕ)
      → length xs + m ≤ max_size
      → IsAllocation (with_vector r p t (xs ++ replicate m 0)) p t (xs ++ replicate m 0)
  grown-IsAllocation m room = record {
    shape = alloc refl refl refl;
    owns = record { not_null = v.owns.not_null; holds = ground arith };
    type_not_null = v.type_not_null;
    element_type = v.element_type;
    typed = v.typed;
    ordered = omega arith;
    within = omega arith;
    fits = omega (arith, length-append xs (replicate m 0), length-replicate {A = ℕ} m 0);
  }

  module _ {q u o a b : ℕ} {ys : List ℕ} (w : IsSequence r q u o a b ys) (apart : o ≢ p)
      (room : length xs + (b - a) ≤ max_size) where
    abbrev grown : Runtime
    grown = with_vector r p t (xs ++ replicate (b - a) 0)

    abbrev appended : Runtime
    appended = with_vector grown p t (xs ++ slice a b ys)

    copied : copy_range (o, a) (o, b) (p, length xs) grown ≡ ok (tt, appended)
    unfolding copy_range
    copied =
        let g = grown-IsAllocation (b - a) room in
        rw (
          between-ok (IsSequence-frame v.owns (xs ++ replicate (b - a) 0) w apart).owns a b
              w.ordered,
          ==-false o p apart,
          vector-ok g.owns,
          write_at-last (length xs) (b - a) xs (slice a b ys) refl
              (length-slice a b ys w.ordered w.within),
          set_vector-ok g.owns g.fits (xs ++ slice a b ys),
        )

    behind : 0 + (length xs - 0) ≡ length xs
    behind = omega arith

    append-ok : sequence_append p q r ≡ delete_object q appended
    unfolding sequence_append
    append-ok =
        let g = grown-IsAllocation (b - a) room in
        let w' = IsSequence-frame v.owns (xs ++ replicate (b - a) 0) w apart in
        rw (
          access_check-ok v,
          type_check-ok v,
          type_check-ok w,
          size-ok v,
          size-ok w,
          grow-ok v (b - a) room,
          begin-ok w',
          end-ok w',
          begin-ok g,
          plus-ok g.owns 0 (length xs - 0) (omega (arith, length-append xs (replicate (b - a) 0)))
              g.fits,
          behind,
          copied,
        )

    apart_too : q ≢ p
    apart_too = elim w.shape [
      | alloc same first all ↦ λ e. apart (sym same ∙ e)
      | view n holds ↦ λ e. cc (v.owns.holds, ap r.objects e)
    ]

    still_there : (x : Object) × (load q appended ≡ ok (x, appended))
    still_there =
        let g = grown-IsAllocation (b - a) room in
        let w' = IsSequence-frame v.owns (xs ++ replicate (b - a) 0) w apart in
        let (x, loaded, type) =
          typed_object (IsSequence-frame g.owns (xs ++ slice a b ys) w' apart) in
        (x, loaded)

    -- Appending a sequence whose elements lie in another vector, if the result fits, puts them
    -- behind those of the collection and deletes the appended sequence; no other object changes.
    pub sequence_append_lem :
        (r' : Runtime) × (sequence_append p q r ≡ ok (tt, r'))
        × (r'.objects p ≡ some (sequence_alloc t (xs ++ slice a b ys)))
        × (r'.objects q ≡ none)
        × ((c : ℕ) → c ≢ p → c ≢ q → r'.objects c ≡ r.objects c)
    unfolding delete_object
    sequence_append_lem =
        let (x, loaded) = still_there in
        let ne = apart_too in
        (
          record appended { objects = λ c. if c == q then none else appended.objects c },
          append-ok ∙ rw (==-false q 0 (not_null w), loaded, delete_object),
          ground arith,
          ground arith,
          λ c h k. ground arith,
        )
