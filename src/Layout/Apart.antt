-- ===== src/Layout/Apart.antt =====
-- Bit fields of one integer do not overlap.
use memoir_cs397_atc.Prelude.{
  ℕ, suc, ◌+◌, ◌≤◌, ◌<◌, ◌≡◌, refl, sym, ap, false, ◌∙◌, subst, ◌⊎◌, inl, inr, Option, none, some,
  List, [], ◌∷◌, map, arith, length, get_elem?, get_elem?-set_self, Option-cases, Bool-cases,
  ==-true, nat_eq, ◌==◌, length-replicate,
}
use memoir_cs397_atc.Std.Map.{find, find-assign}
use memoir_cs397_atc.Words.{int_mod}
use memoir_cs397_atc.Layout.{
  TypeLayout, Packing, is_size, bit_field_width, commit, record_offset, append_field, place_field,
  start_packing,
}
use memoir_cs397_atc.Layout.Placed.{
  place_fields, IsLoose, Inv, place_field-element, place_field-bits, place_field-keeps,
  place_fields-keeps, commit-same,
}
use memoir_cs397_atc.Layout.Fields.{place_field-IsPlaced}

-- Of two bit fields with one offset, the later one begins where the earlier one has ended.
abbrev pub IsApart : List ℕ → List (ℕ × (ℕ × ℕ)) → Type 0
IsApart offsets ranges =
    (i j offset from to from' to' : ℕ)
    → i < j
    → get_elem? offsets i ≡ some offset
    → get_elem? offsets j ≡ some offset
    → find i ranges ≡ some (from, to)
    → find j ranges ≡ some (from', to')
    → to ≤ from'

-- Before the field `i` is placed, the bit fields before it end in an earlier element or in what is open.
abbrev IsBehind : ℕ → Packing → Type 0
IsBehind i p =
    (k offset from to : ℕ)
    → k < i
    → get_elem? p.field_offsets k ≡ some offset
    → find k p.bit_field_ranges ≡ some (from, to)
    → (offset < p.current_field_offset)
      ⊎ ((offset ≡ p.current_field_offset) × (to ≤ p.current_field_width))

commit-offset : (p : Packing) → p.current_field_offset ≤ (commit p).current_field_offset
unfolding commit
commit-offset p = elim (Bool-cases (p.current_field_width == 0)) [
  | inl closed ↦ rw closed (omega arith)
  | inr opened ↦ rw opened (omega arith)
]

-- What was known of an earlier field is known of it after another one.
earlier :
    (i k offset from to : ℕ) (l : TypeLayout) (p : Packing)
    → IsBehind i p
    → k < i
    → get_elem? (place_field i l p).field_offsets k ≡ some offset
    → find k (place_field i l p).bit_field_ranges ≡ some (from, to)
    → (offset < p.current_field_offset)
      ⊎ ((offset ≡ p.current_field_offset) × (to ≤ p.current_field_width))
earlier i k offset from to l p behind before at range =
    let (same, same_range, _) = place_field-keeps i k l p (λ e. omega arith) in
    behind k offset from to before (sym same ∙ at) (sym same_range ∙ range)

element-IsBehind :
    (i : ℕ) (l : TypeLayout) (p : Packing)
    → IsBehind i p
    → find i (place_field i l p).bit_field_ranges ≡ none
    → bit_field_width l ≡ none
    → IsBehind (suc i) (place_field i l p)
unfolding append_field record_offset
element-IsBehind i l p behind fresh element k offset from to before at range =
    elim (Bool-cases (k == i)) [
      | inl same ↦
          let is : k ≡ i = ground arith in
          let none_there : ◌≡◌ {A = Option (ℕ × ℕ)} none (some (from, to)) =
            sym fresh
            ∙ subst (λ (n : ℕ). find n (place_field i l p).bit_field_ranges ≡ some (from, to)) is
                range in
          cc
      | inr other ↦
          let grows : p.current_field_offset < (place_field i l p).current_field_offset =
            rw (place_field-element i l p element) (omega (arith, commit-offset p)) in
          elim (earlier i k offset from to l p behind (ground arith) at range) [
            | inl less ↦ inl (omega arith)
            | inr (same, _) ↦ inl (omega arith)
          ]
    ]

-- The bit field that was placed last ends where the open bits end.
last-IsBehind :
    (i b rest offset from to : ℕ) (l : TypeLayout) (p : Packing)
    → Inv i (suc rest) p
    → bit_field_width l ≡ some b
    → p.current_field_width + b < int_mod
    → is_size (p.current_field_width + b) ≡ false
    → get_elem? (place_field i l p).field_offsets i ≡ some offset
    → find i (place_field i l p).bit_field_ranges ≡ some (from, to)
    → (offset ≡ p.current_field_offset)
      × (from ≡ p.current_field_width)
      × (to ≡ p.current_field_width + b)
last-IsBehind i b rest offset from to l p v at_l small loose at range =
    let placed = place_field-bits i b l p at_l small loose in
    let self =
      get_elem?-set_self p.field_offsets i p.current_field_offset (omega (arith, v.room)) in
    let range_here : find i (place_field i l p).bit_field_ranges
        ≡ some (p.current_field_width, p.current_field_width + b) =
      rw placed (
        find-assign i i (p.current_field_width, p.current_field_width + b) p.bit_field_ranges
        ∙ rw (==-true i i refl) refl) in
    let offset_here : get_elem? (place_field i l p).field_offsets i ≡ some p.current_field_offset =
      rw placed self in
    (cc, cc, cc)

bits-IsBehind :
    (i b rest : ℕ) (l : TypeLayout) (p : Packing)
    → Inv i (suc rest) p
    → IsBehind i p
    → bit_field_width l ≡ some b
    → p.current_field_width + b < int_mod
    → is_size (p.current_field_width + b) ≡ false
    → IsBehind (suc i) (place_field i l p)
bits-IsBehind i b rest l p v behind at_l small loose k offset from to before at range =
    let placed = place_field-bits i b l p at_l small loose in
    elim (Bool-cases (k == i)) [
      | inl same ↦
          let is : k ≡ i = ground arith in
          let at_i =
            subst (λ n. get_elem? (place_field i l p).field_offsets n ≡ some offset) is at in
          let range_i =
            subst (λ n. find n (place_field i l p).bit_field_ranges ≡ some (from, to)) is range in
          let (here, _, ends) =
            last-IsBehind i b rest offset from to l p v at_l small loose at_i range_i in
          rw placed (inr (here, omega arith))
      | inr other ↦
          rw placed (elim (earlier i k offset from to l p behind (ground arith) at range) [
            | inl less ↦ inl less
            | inr (here, below) ↦ inr (here, omega arith)
          ])
    ]

element-range :
    (i : ℕ) (l : TypeLayout) (p : Packing)
    → bit_field_width l ≡ none
    → find i (place_field i l p).bit_field_ranges ≡ find i p.bit_field_ranges
unfolding append_field record_offset
element-range i l p element = rw (place_field-element i l p element) (ap (find i) (commit-same p).1)

place_field-IsBehind :
    (i : ℕ) (l : TypeLayout) (ls : List TypeLayout) (p : Packing)
    → Inv i (suc (length ls)) p
    → IsLoose p.current_field_width (map bit_field_width (l ∷ ls))
    → IsBehind i p
    → IsBehind (suc i) (place_field i l p)
place_field-IsBehind i l ls p v loose behind = elim (Option-cases (bit_field_width l)) [
  | inl element ↦
      element-IsBehind i l p behind (element-range i l p element ∙ v.fresh i (omega arith)) element
  | inr (b, at) ↦
      let (positive, small, loose', rest) = rw at at loose in
      bits-IsBehind i b (length ls) l p v behind at small loose'
]

-- A bit field begins behind the earlier ones of its integer.
begins-behind :
    (i j offset from to from' to' : ℕ) (l : TypeLayout) (ls : List TypeLayout) (p : Packing)
    → Inv j (suc (length ls)) p
    → IsLoose p.current_field_width (map bit_field_width (l ∷ ls))
    → IsBehind j p
    → i < j
    → get_elem? (place_field j l p).field_offsets i ≡ some offset
    → get_elem? (place_field j l p).field_offsets j ≡ some offset
    → find i (place_field j l p).bit_field_ranges ≡ some (from, to)
    → find j (place_field j l p).bit_field_ranges ≡ some (from', to')
    → to ≤ from'
begins-behind i j offset from to from' to' l ls p v loose behind before at_i at_j range_i range_j =
    elim (Option-cases (bit_field_width l)) [
      | inl element ↦
          let fresh : find j (place_field j l p).bit_field_ranges ≡ none =
            element-range j l p element ∙ v.fresh j (omega arith) in
          cc
      | inr (b, at) ↦
          let (positive, small, loose', rest) = rw at at loose in
          let (here, begins, _) =
            last-IsBehind j b (length ls) offset from' to' l p v at small loose' at_j range_j in
          elim (earlier j i offset from to l p behind before at_i range_i) [
            | inl less ↦ absurd (omega arith)
            | inr (_, below) ↦ omega arith
          ]
    ]

place_fields-IsApart :
    (ls : List TypeLayout) (i : ℕ) (p : Packing)
    → Inv i (length ls) p
    → IsLoose p.current_field_width (map bit_field_width ls)
    → IsBehind i p
    → (x y offset from to from' to' : ℕ) → x < y
    → i ≤ y
    → get_elem? (place_fields i ls p).field_offsets x ≡ some offset
    → get_elem? (place_fields i ls p).field_offsets y ≡ some offset
    → find x (place_fields i ls p).bit_field_ranges ≡ some (from, to)
    → find y (place_fields i ls p).bit_field_ranges ≡ some (from', to')
    → to ≤ from'
unfolding place_fields
place_fields-IsApart [] i p v loose behind x y offset from to from' to' before open_from at_x at_y
      range_x range_y =
    let fresh = v.fresh y open_from in cc
place_fields-IsApart (l ∷ ls) i p v loose behind x y offset from to from' to' before open_from at_x
      at_y range_x range_y =
    let (v', loose', _) = place_field-IsPlaced i l ls p v loose in
    elim (Bool-cases (y == i)) [
      | inl same ↦
          let is : y ≡ i = ground arith in
          let (kept_x, range_kept_x) =
            place_fields-keeps (suc i) x ls (place_field i l p) (omega arith) in
          let (kept_y, range_kept_y) =
            place_fields-keeps (suc i) i ls (place_field i l p) (omega arith) in
          let at_i =
            subst
              (λ n.
                get_elem? (place_fields (suc i) ls (place_field i l p)).field_offsets n
                ≡ some offset)
              is at_y in
          let range_i =
            subst
              (λ n.
                find n (place_fields (suc i) ls (place_field i l p)).bit_field_ranges
                ≡ some (from', to'))
              is range_y in
          begins-behind x i offset from to from' to' l ls p v loose behind (omega arith)
            (sym kept_x ∙ at_x) (sym kept_y ∙ at_i) (sym range_kept_x ∙ range_x)
            (sym range_kept_y ∙ range_i)
      | inr other ↦
          place_fields-IsApart ls (suc i) (place_field i l p) v' loose'
            (place_field-IsBehind i l ls p v loose behind) x y offset from to from' to' before
            (ground arith) at_x at_y range_x range_y
    ]

pub all-IsApart :
    (ls : List TypeLayout)
    → IsLoose 0 (map bit_field_width ls)
    → IsApart
        (place_fields 0 ls (start_packing (length ls))).field_offsets
        (place_fields 0 ls (start_packing (length ls))).bit_field_ranges
unfolding start_packing
all-IsApart ls loose x y offset from to from' to' before at_x at_y range_x range_y =
    place_fields-IsApart ls 0 (start_packing (length ls))
      (record {
        synced = refl;
        fresh = λ j h. refl;
        room = omega (arith, length-replicate {A = ℕ} (length ls) 0);
      })
      loose (λ k o a b h at range. absurd (omega arith)) x y offset from to from' to' before
      (omega arith) at_x at_y range_x range_y
