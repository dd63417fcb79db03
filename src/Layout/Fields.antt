-- ===== src/Layout/Fields.antt =====
-- Where the fields of a struct are found again.
use memoir_cs397_atc.Prelude.{
  ℕ, zero, suc, ◌+◌, ◌≤◌, ◌<◌, ◌≡◌, refl, sym, ap, ◌∙◌, subst, inl, inr, false, none, some, List,
  [], ◌∷◌, map, arith, ◌==◌, length, get_elem?, set, length-append, length-replicate,
  get_elem?-set_self, Option-cases, Bool-cases, ==-true, ==-false, nat_eq,
}
use memoir_cs397_atc.Std.Map.{find, assign, find-assign}
use memoir_cs397_atc.Words.{int_mod}
use memoir_cs397_atc.Layout.{
  int, TypeLayout, Packing, is_size, get_next_size, bit_field_width, commit, record_offset,
  append_field, place_field, start_packing, finish_packing,
}
use memoir_cs397_atc.Layout.Placed.{
  place_fields, IsLoose, IsPlaced, Inv, get_elem?-concat, place_field-element, place_field-bits,
  commit-same, place_field-keeps, place_fields-keeps, Extends-at, place_fields-Extends, element,
  bits,
}

committed :
    (i : ℕ) (l : TypeLayout) (p : Packing)
    → bit_field_width l ≡ none
    → 0 < p.current_field_width
    → get_elem? (place_field i l p).llvm_field_types (length p.llvm_field_types)
      ≡ some (int p.current_field_width)
unfolding append_field record_offset commit
committed i l p none_at opened = rw (place_field-element i l p none_at) (
    rw (==-false p.current_field_width 0 (omega arith)) (
      Extends-at _ _ (length p.llvm_field_types) (int p.current_field_width)
        (l.llvm_type ∷ [], refl) (get_elem?-concat p.llvm_field_types (int p.current_field_width))))

-- The open bit field gets an integer that holds all of it.
open-Fits :
    (i : ℕ) (ls : List TypeLayout) (p : Packing)
    → 0 < p.current_field_width
    → IsLoose p.current_field_width (map bit_field_width ls)
    → (total : ℕ) × (get_elem? (finish_packing (place_fields i ls p)) (length p.llvm_field_types)
        ≡ some (int total))
      × (p.current_field_width ≤ total)
unfolding place_fields
open-Fits i [] p opened loose = (
  get_next_size p.current_field_width,
  unfold finish_packing in
      rw (==-false p.current_field_width 0 (omega arith))
        (get_elem?-concat p.llvm_field_types (int (get_next_size p.current_field_width))),
  loose,
)
open-Fits i (l ∷ ls) p opened loose = elim (Option-cases (bit_field_width l)) [
  | inl none_at ↦ (
    p.current_field_width,
    Extends-at _ _ (length p.llvm_field_types) (int p.current_field_width)
        (place_fields-Extends (suc i) ls (place_field i l p)) (committed i l p none_at opened),
    omega arith,
  )
  | inr (b, at) ↦
      let (positive, small, loose', rest) = rw at at loose in
      let same = place_field-bits i b l p at small loose' in
      let (total, there, fits) =
        open-Fits (suc i) ls
          (record p {
            current_field_width = p.current_field_width + b;
            field_offsets = set p.field_offsets i p.current_field_offset;
            bit_field_ranges =
                assign i (p.current_field_width, p.current_field_width + b) p.bit_field_ranges;
          })
          (omega arith) rest in
      (total, rw same there, omega arith)
]

commit-synced :
    (p : Packing)
    → p.current_field_offset ≡ length p.llvm_field_types
    → (commit p).current_field_offset ≡ length (commit p).llvm_field_types
unfolding commit
commit-synced p synced = elim (Bool-cases (p.current_field_width == 0)) [
  | inl zero_width ↦ rw zero_width synced
  | inr open_width ↦
      rw open_width
        (omega (arith, synced, length-append p.llvm_field_types (int p.current_field_width ∷ [])))
]

-- What is known of a field once it is placed, with the width that is open after it.
module _ (i : ℕ) (l : TypeLayout) (ls : List TypeLayout) (p : Packing)
    (v : Inv i (suc (length ls)) p) where
  place_field-Inv :
      (place_field i l p).current_field_offset ≡ length (place_field i l p).llvm_field_types
      → Inv (suc i) (length ls) (place_field i l p)
  place_field-Inv synced = record {
    synced = synced;
    fresh = λ j h. (place_field-keeps i j l p (λ e. omega arith)).1 ∙ v.fresh j (omega arith);
    room = omega (arith, (place_field-keeps i (suc i) l p (λ e. omega arith)).2, v.room);
  }

  element-Inv : bit_field_width l ≡ none → Inv (suc i) (length ls) (place_field i l p)
  unfolding append_field record_offset
  element-Inv none_at = place_field-Inv (
      rw (place_field-element i l p none_at) (
        omega (
          arith,
          commit-synced p v.synced,
          length-append (commit p).llvm_field_types (l.llvm_type ∷ []),
        )))

  element-IsPlaced :
      bit_field_width l ≡ none
      → IsPlaced
          (place_fields (suc i) ls (place_field i l p))
          (finish_packing (place_fields (suc i) ls (place_field i l p)))
          i
          l
  unfolding append_field record_offset
  element-IsPlaced none_at =
      let (offset, range) = place_fields-keeps (suc i) i ls (place_field i l p) (omega arith) in
      let (offsets, ranges) = commit-same p in
      let placed = place_field-element i l p none_at in
      element (commit p).current_field_offset none_at
        (offset
          ∙ rw (placed, offsets)
              (get_elem?-set_self p.field_offsets i (commit p).current_field_offset
                (omega (arith, v.room))))
        (Extends-at _ _ (commit p).current_field_offset l.llvm_type
          (place_fields-Extends (suc i) ls (place_field i l p))
          (rw (placed, commit-synced p v.synced)
            (get_elem?-concat (commit p).llvm_field_types l.llvm_type)))
        (range ∙ rw (placed, ranges) (v.fresh i (omega arith)))

  module _ (b : ℕ) (at : bit_field_width l ≡ some b) (positive : 0 < b)
      (small : p.current_field_width + b < int_mod)
      (loose : is_size (p.current_field_width + b) ≡ false) where
    bits-Inv : Inv (suc i) (length ls) (place_field i l p)
    bits-Inv = place_field-Inv (rw (place_field-bits i b l p at small loose) v.synced)

    bits-IsPlaced :
        IsLoose (p.current_field_width + b) (map bit_field_width ls)
        → IsPlaced
            (place_fields (suc i) ls (place_field i l p))
            (finish_packing (place_fields (suc i) ls (place_field i l p)))
            i
            l
    bits-IsPlaced rest = rw (place_field-bits i b l p at small loose) (
        found
          (record p {
            current_field_width = p.current_field_width + b;
            field_offsets = set p.field_offsets i p.current_field_offset;
            bit_field_ranges =
                assign i (p.current_field_width, p.current_field_width + b) p.bit_field_ranges;
          })
          refl refl refl refl rest)
      where
        found :
            (q : Packing)
            → q.current_field_width ≡ p.current_field_width + b
            → q.field_offsets ≡ set p.field_offsets i p.current_field_offset
            → q.bit_field_ranges
              ≡ assign i (p.current_field_width, p.current_field_width + b) p.bit_field_ranges
            → q.llvm_field_types ≡ p.llvm_field_types
            → IsLoose (p.current_field_width + b) (map bit_field_width ls)
            → IsPlaced (place_fields (suc i) ls q) (finish_packing (place_fields (suc i) ls q)) i l
        found q width offsets ranges types rest =
            let (offset, range) = place_fields-keeps (suc i) i ls q (omega arith) in
            let (total, there, fits) =
              open-Fits (suc i) ls q (omega arith)
                (subst (λ w. IsLoose w (map bit_field_width ls)) (sym width) rest) in
            bits p.current_field_offset p.current_field_width b total at
              (offset
                ∙ ap (λ o. get_elem? o i) offsets
                ∙ get_elem?-set_self p.field_offsets i p.current_field_offset
                    (omega (arith, v.room)))
              (ap (get_elem? (finish_packing (place_fields (suc i) ls q)))
                  (v.synced ∙ sym (ap length types))
                ∙ there)
              (range
                ∙ ap (find i) ranges
                ∙ find-assign i i (p.current_field_width, p.current_field_width + b)
                    p.bit_field_ranges
                ∙ rw (==-true i i refl) refl)
              (omega arith)

-- The first field is found, and the rest can go on.
pub place_field-IsPlaced :
    (i : ℕ) (l : TypeLayout) (ls : List TypeLayout) (p : Packing)
    → Inv i (suc (length ls)) p
    → IsLoose p.current_field_width (map bit_field_width (l ∷ ls))
    → Inv (suc i) (length ls) (place_field i l p)
      × IsLoose (place_field i l p).current_field_width (map bit_field_width ls)
      × IsPlaced
          (place_fields (suc i) ls (place_field i l p))
          (finish_packing (place_fields (suc i) ls (place_field i l p)))
          i
          l
place_field-IsPlaced i l ls p v loose = elim (Option-cases (bit_field_width l)) [
  | inl none_at ↦ (
    element-Inv i l ls p v none_at,
    unfold append_field in
        subst (λ q. IsLoose q.current_field_width (map bit_field_width ls))
          (sym (place_field-element i l p none_at)) (rw none_at at loose),
    element-IsPlaced i l ls p v none_at,
  )
  | inr (b, at) ↦
      let (positive, small, loose', rest) = rw at at loose in
      (
        bits-Inv i l ls p v b at positive small loose',
        subst (λ q. IsLoose q.current_field_width (map bit_field_width ls))
            (sym (place_field-bits i b l p at small loose')) rest,
        bits-IsPlaced i l ls p v b at positive small loose' rest,
      )
]

-- Each field of the rest is found.
place_fields-IsPlaced :
    (ls : List TypeLayout) (i : ℕ) (p : Packing)
    → Inv i (length ls) p
    → IsLoose p.current_field_width (map bit_field_width ls)
    → (j : ℕ) (l : TypeLayout) → get_elem? ls j ≡ some l
    → IsPlaced (place_fields i ls p) (finish_packing (place_fields i ls p)) (i + j) l
unfolding place_fields
place_fields-IsPlaced [] i p v loose j l at = cc
place_fields-IsPlaced (k ∷ ls) i p v loose zero l at =
    let (_, _, found) = place_field-IsPlaced i k ls p v loose in
    let same : k ≡ l = cc in let here : i + 0 ≡ i = omega arith in rw here (rw (← same) found)
place_fields-IsPlaced (k ∷ ls) i p v loose (suc j) l at =
    let (v', loose', _) = place_field-IsPlaced i k ls p v loose in
    let further : i + suc j ≡ suc i + j = omega arith in
    rw further (place_fields-IsPlaced ls (suc i) (place_field i k p) v' loose' j l at)

pub all-IsPlaced :
    (ls : List TypeLayout)
    → IsLoose 0 (map bit_field_width ls)
    → (i : ℕ) (l : TypeLayout) → get_elem? ls i ≡ some l
    → IsPlaced
        (place_fields 0 ls (start_packing (length ls)))
        (finish_packing (place_fields 0 ls (start_packing (length ls))))
        i
        l
unfolding start_packing
all-IsPlaced ls loose i l at =
    let packed = place_fields 0 ls (start_packing (length ls)) in
    let same : 0 + i ≡ i = omega arith in
    subst (λ (j : ℕ). IsPlaced packed (finish_packing packed) j l) same
      (place_fields-IsPlaced ls 0 (start_packing (length ls))
        (record {
          synced = refl;
          fresh = λ j h. refl;
          room = omega (arith, length-replicate {A = ℕ} (length ls) 0);
        })
        loose i l at)
