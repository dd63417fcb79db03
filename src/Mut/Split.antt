-- ===== src/Mut/Split.antt =====
-- `sequence_split` of runtime/src/mut_operations.cpp and `sequence_copy` of
-- runtime/src/ssa_operations.cpp.
use memoir_cs397_atc.Prelude.{ℕ, ◌+◌, ◌-◌, ◌≤◌, ◌≡◌, refl, ◌∙◌, List, [], arith, length, leb-true}
use memoir_cs397_atc.Words.{max_size, sub64-small}
use memoir_cs397_atc.Std.Vector.{slice, erase_range, length-slice}
use memoir_cs397_atc.Objects.{sequence_alloc, Runtime, Cmd, ◌>>◌, new_object, store}
use memoir_cs397_atc.Sequence.Valid.{
  IsSequence, access_check-ok, type_check-ok, begin-ok, plus-ok, between-ok,
}
use memoir_cs397_atc.Sequence.Mutate.{erase-ok, inside}
use memoir_cs397_atc.Ssa.{sequence_copy}
use memoir_cs397_atc.Ssa.Insert.{type_of-ok, resolve-ok, resize-new, write_at-last}
use memoir_cs397_atc.Mut.{sequence_split}
use memoir_cs397_atc.Mut.Agree.{position-small}

module _ {r : Runtime} {p t s i j : ℕ} {xs : List ℕ} (v : IsSequence r p t s i j xs) where
  -- The elements `[a, b)` of the sequence go from its vector to a new collection.
  abbrev pub moved : ℕ → ℕ → Cmd ℕ
  moved a b =
      store s (sequence_alloc t (erase_range (i + a) (i + b) xs))
      >> new_object (sequence_alloc t (slice (i + a) (i + b) xs))

  length-part : (a b : ℕ) → a ≤ b → b ≤ j - i → length (slice (i + a) (i + b) xs) ≡ b - a
  length-part a b h k = length-slice (i + a) (i + b) xs (omega arith) (inside v b k) ∙ omega arith

  split-ok : (a b : ℕ) → a ≤ b → b ≤ j - i → sequence_split p a b r ≡ moved a b r
  unfolding sequence_split
  split-ok a b h k =
      let small : b ≤ max_size = omega (arith, v.within, v.fits) in
      rw (
        access_check-ok v,
        type_check-ok v,
        type_of-ok v,
        leb-true a b h,
        sub64-small b a h (omega arith),
        resize-new (b - a) (omega arith),
        begin-ok v,
        plus-ok v.owns i a (inside v a (omega arith)) v.fits,
        plus-ok v.owns i b (inside v b k) v.fits,
        between-ok v.owns (i + a) (i + b) (omega arith),
        write_at-last 0 (b - a) [] (slice (i + a) (i + b) xs) refl (length-part a b h k),
        erase-ok v a b h k,
      )

  copy-ok : (a b : ℕ) → a ≤ b → b ≤ j - i → sequence_copy p a b r ≡ moved a b r
  unfolding sequence_copy
  copy-ok a b h k =
      let small : b ≤ max_size = omega (arith, v.within, v.fits) in
      rw (
        access_check-ok v,
        type_check-ok v,
        type_of-ok v,
        resolve-ok v a,
        resolve-ok v b,
        position-small (j - i) a (omega arith),
        position-small (j - i) b small,
        leb-true a b h,
        sub64-small b a h (omega arith),
        resize-new (b - a) (omega arith),
        begin-ok v,
        plus-ok v.owns i a (inside v a (omega arith)) v.fits,
        plus-ok v.owns i b (inside v b k) v.fits,
        between-ok v.owns (i + a) (i + b) (omega arith),
        write_at-last 0 (b - a) [] (slice (i + a) (i + b) xs) refl (length-part a b h k),
        erase-ok v a b h k,
      )

  -- For indices in range, `sequence_split` cuts a range out of a sequence and returns it as a new
  -- collection, and `sequence_copy` of the SSA form does the same to the collection it copies
  -- from.
  pub sequence_split-copy :
      (a b : ℕ)
      → a ≤ b
      → b ≤ j - i
      → (sequence_split p a b r ≡ moved a b r) × (sequence_copy p a b r ≡ moved a b r)
  sequence_split-copy a b h k = (split-ok a b h k, copy-ok a b h k)
