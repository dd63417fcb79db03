-- ===== src/Layout/Placed.antt =====
-- One field of a struct at a time: what it adds to the struct, and what it leaves.
use memoir_cs397_atc.Prelude.{
  ℕ, suc, ◌+◌, ◌%◌, ◌≤◌, ◌<◌, ◌≡◌, ◌≢◌, refl, sym, ap, ◌∙◌, inl, inr, false, Option, none, some,
  List, [], ◌∷◌, ◌++◌, arith, ◌==◌, length, get_elem?, set, length-set, get_elem?-set_ne,
  Option-cases, Bool-cases, ==-false, nat_eq, get_elem?-inside,
}
use mathlib.Core.List.{append-nil, append_assoc}
use memoir_cs397_atc.Std.Map.{find, assign, find-assign}
use memoir_cs397_atc.Std.Pointwise.{get_elem?-append}
use memoir_cs397_atc.Words.{int_mod}
use memoir_cs397_atc.Layout.{
  LlvmType, int, TypeLayout, Packing, is_size, get_next_size, bit_field_width, commit,
  record_offset, append_field, widen, close_bit_field, place_field, finish_packing,
}

-- The loop, once each field's type has its layout.
unfoldable pub place_fields : ℕ → List TypeLayout → Packing → Packing
place_fields i [] p = p
place_fields i (l ∷ ls) p = place_fields (suc i) ls (place_field i l p)

-- No bit fields fill up a size, and the last ones fit the integer that is made for them.
abbrev pub IsLoose : ℕ → List (Option ℕ) → Type 0
IsLoose w [] = w ≤ get_next_size w
IsLoose w (none ∷ widths) = IsLoose 0 widths
IsLoose w (some b ∷ widths) =
    (0 < b) × (w + b < int_mod) × (is_size (w + b) ≡ false) × IsLoose (w + b) widths

-- The field `i` of layout `l` is found in a struct of the given parts: a bit field in its range of an
-- integer that is wide enough, any other as an element of its own type.
pub data IsFound (offsets : List ℕ) (ranges : List (ℕ × (ℕ × ℕ))) (types : List LlvmType) (i : ℕ)
    (l : TypeLayout) : Type 0 where
  element :
      (offset : ℕ)
      → bit_field_width l ≡ none
      → get_elem? offsets i ≡ some offset
      → get_elem? types offset ≡ some l.llvm_type
      → find i ranges ≡ none
      → IsFound offsets ranges types i l
  bits :
      (offset from width total : ℕ)
      → bit_field_width l ≡ some width
      → get_elem? offsets i ≡ some offset
      → get_elem? types offset ≡ some (int total)
      → find i ranges ≡ some (from, from + width)
      → from + width ≤ total
      → IsFound offsets ranges types i l

abbrev pub IsPlaced : Packing → List LlvmType → ℕ → TypeLayout → Type 0
IsPlaced p = IsFound p.field_offsets p.bit_field_ranges

-- Before the field `i` is placed, with `rest` fields to come.
pub record Inv (i rest : ℕ) (p : Packing) : Type 0 where
  pub synced : p.current_field_offset ≡ length p.llvm_field_types
  pub fresh : (j : ℕ) → i ≤ j → find j p.bit_field_ranges ≡ none
  pub room : i + rest ≤ length p.field_offsets

pub get_elem?-append_left :
    {A : Type 0} (xs ys : List A) (i : ℕ) → i < length xs → get_elem? (xs ++ ys) i ≡ get_elem? xs i
get_elem?-append_left xs ys i h = ground (arith, get_elem?-append xs ys i)

pub get_elem?-concat :
    {A : Type 0} (xs : List A) (a : A) → get_elem? (xs ++ a ∷ []) (length xs) ≡ some a
get_elem?-concat xs a = ground (arith, get_elem?-append xs (a ∷ []) (length xs))

-- A place of a field that is no bit field.
pub place_field-element :
    (i : ℕ) (l : TypeLayout) (p : Packing)
    → bit_field_width l ≡ none
    → place_field i l p ≡ append_field l.llvm_type (record_offset i (commit p))
unfolding place_field
place_field-element i l p none_at = rw (none_at, place_field) refl

-- And of a bit field that leaves its integer open.
pub place_field-bits :
    (i b : ℕ) (l : TypeLayout) (p : Packing)
    → bit_field_width l ≡ some b
    → p.current_field_width + b < int_mod
    → is_size (p.current_field_width + b) ≡ false
    → place_field i l p ≡ record p {
      current_field_width = p.current_field_width + b;
      field_offsets = set p.field_offsets i p.current_field_offset;
      bit_field_ranges =
          assign i (p.current_field_width, p.current_field_width + b) p.bit_field_ranges;
    }
unfolding place_field close_bit_field record_offset widen
place_field-bits i b l p at small loose =
    let same : (p.current_field_width + b) % int_mod ≡ p.current_field_width + b = omega arith in
    rw (at, place_field) (rw same (rw loose refl))

-- What is appended stays.
abbrev pub Extends : List LlvmType → List LlvmType → Type 0
Extends types types' = (more : List LlvmType) × (types' ≡ types ++ more)

commit-Extends : (p : Packing) → Extends p.llvm_field_types (commit p).llvm_field_types
unfolding commit
commit-Extends p = elim (Bool-cases (p.current_field_width == 0)) [
  | inl zero_width ↦ ([], rw zero_width (sym (append-nil p.llvm_field_types)))
  | inr open_width ↦ (int p.current_field_width ∷ [], rw open_width refl)
]

pub Extends-trans : (a b c : List LlvmType) → Extends a b → Extends b c → Extends a c
Extends-trans a b c (m, e) (m', e') = (m ++ m', e' ∙ ap (λ t. t ++ m') e ∙ append_assoc a m m')

close_bit_field-Extends :
    (t : LlvmType) (p : Packing) → Extends p.llvm_field_types (close_bit_field t p).llvm_field_types
unfolding close_bit_field append_field
close_bit_field-Extends t p = elim (Bool-cases (is_size p.current_field_width)) [
  | inl full ↦ rw full (Extends-trans _ _ _ (int p.current_field_width ∷ [], refl) (t ∷ [], refl))
  | inr loose ↦ rw loose ([], sym (append-nil p.llvm_field_types))
]

pub place_field-Extends :
    (i : ℕ) (l : TypeLayout) (p : Packing)
    → Extends p.llvm_field_types (place_field i l p).llvm_field_types
unfolding place_field append_field record_offset commit widen
place_field-Extends i l p = elim (Option-cases (bit_field_width l)) [
  | inl none_at ↦
      rw (none_at, place_field) (Extends-trans _ _ _ (commit-Extends p) (l.llvm_type ∷ [], refl))
  | inr (b, at) ↦
      rw (at, place_field) (close_bit_field-Extends l.llvm_type (record_offset i (widen i b p)))
]

finish_packing-Extends : (p : Packing) → Extends p.llvm_field_types (finish_packing p)
unfolding finish_packing
finish_packing-Extends p = elim (Bool-cases (p.current_field_width == 0)) [
  | inl zero_width ↦ rw zero_width ([], sym (append-nil p.llvm_field_types))
  | inr open_width ↦ rw open_width (int (get_next_size p.current_field_width) ∷ [], refl)
]

pub place_fields-Extends :
    (i : ℕ) (ls : List TypeLayout) (p : Packing)
    → Extends p.llvm_field_types (finish_packing (place_fields i ls p))
unfolding place_fields
place_fields-Extends i [] p = finish_packing-Extends p
place_fields-Extends i (l ∷ ls) p =
    Extends-trans _ _ _ (place_field-Extends i l p)
      (place_fields-Extends (suc i) ls (place_field i l p))

pub Extends-at :
    (types types' : List LlvmType) (j : ℕ) (t : LlvmType)
    → Extends types types'
    → get_elem? types j ≡ some t
    → get_elem? types' j ≡ some t
Extends-at types types' j t (more, e) at =
    rw e (get_elem?-append_left types more j (get_elem?-inside types j t at) ∙ at)

pub commit-same :
    (p : Packing)
    → ((commit p).field_offsets ≡ p.field_offsets)
      × ((commit p).bit_field_ranges ≡ p.bit_field_ranges)
unfolding commit
commit-same p = elim (Bool-cases (p.current_field_width == 0)) [
  | inl zero_width ↦ rw zero_width (refl, refl)
  | inr open_width ↦ rw open_width (refl, refl)
]

close_bit_field-same :
    (t : LlvmType) (p : Packing)
    → ((close_bit_field t p).field_offsets ≡ p.field_offsets)
      × ((close_bit_field t p).bit_field_ranges ≡ p.bit_field_ranges)
unfolding close_bit_field append_field
close_bit_field-same t p = elim (Bool-cases (is_size p.current_field_width)) [
  | inl full ↦ rw full (refl, refl)
  | inr loose ↦ rw loose (refl, refl)
]

-- What a field leaves of the entries of another one.
pub place_field-keeps :
    (i j : ℕ) (l : TypeLayout) (p : Packing)
    → i ≢ j
    → (get_elem? (place_field i l p).field_offsets j ≡ get_elem? p.field_offsets j)
      × (find j (place_field i l p).bit_field_ranges ≡ find j p.bit_field_ranges)
      × (length (place_field i l p).field_offsets ≡ length p.field_offsets)
unfolding place_field append_field record_offset widen
place_field-keeps i j l p other = elim (Option-cases (bit_field_width l)) [
  | inl none_at ↦
      let (offsets, ranges) = commit-same p in
      rw (none_at, place_field)
        (
          rw offsets (get_elem?-set_ne p.field_offsets _ other),
          ap (find j) ranges,
          rw offsets (length-set p.field_offsets i _),
        )
  | inr (b, at) ↦
      let (offsets, ranges) = close_bit_field-same l.llvm_type (record_offset i (widen i b p)) in
      rw (at, place_field)
        (
          rw offsets (get_elem?-set_ne p.field_offsets _ other),
          rw ranges (find-assign i j _ p.bit_field_ranges ∙ rw (==-false i j other) refl),
          rw offsets (length-set p.field_offsets i _),
        )
]

pub place_fields-keeps :
    (i j : ℕ) (ls : List TypeLayout) (p : Packing)
    → j < i
    → (get_elem? (place_fields i ls p).field_offsets j ≡ get_elem? p.field_offsets j)
      × (find j (place_fields i ls p).bit_field_ranges ≡ find j p.bit_field_ranges)
unfolding place_fields
place_fields-keeps i j [] p before = (refl, refl)
place_fields-keeps i j (l ∷ ls) p before =
    let (offset, range, _) = place_field-keeps i j l p (omega arith) in
    let (offset', range') = place_fields-keeps (suc i) j ls (place_field i l p) (omega arith) in
    (offset' ∙ offset, range' ∙ range)
