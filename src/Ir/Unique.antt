-- ===== src/Ir/Unique.antt =====
-- The tables of the compiler's types: what they hold stays, and one key has one type.
use memoir_cs397_atc.Prelude.{
  ℕ, ◌≡◌, refl, ◌∙◌, subst, inl, inr, true, none, some, List, [], ◌∷◌, ◌++◌, if◌then◌else◌, arith,
  length, get_elem?, get_elem?-inside, Option-cases, Bool-cases,
}
use memoir_cs397_atc.Std.Map.{find, assign, find-assign}
use memoir_cs397_atc.Std.Pointwise.{get_elem?-append}
use memoir_cs397_atc.Ir.{TypeInfo, Registry, key_of, intern, list_eq, static_tensor_type}

-- Every entry of the tables leads to a type with its key.
pub record IsInterned (r : Registry) : Type 0 where
  pub held :
      (key : List ℕ) (t : ℕ)
      → find key r.table ≡ some t
      → (d : TypeInfo) × (get_elem? r.types t ≡ some d) × (key_of d ≡ key)
  pub statics :
      (i e t : ℕ)
      → get_elem? r.static_tensor_types i ≡ some (e, t)
      → (n : ℕ) × (ls : List ℕ) × (get_elem? r.types t ≡ some (static_tensor_type e n ls))
        × (length ls ≡ n)

-- What is there stays.
pub record Grows (r s : Registry) : Type 0 where
  pub entries : (key : List ℕ) (t : ℕ) → find key r.table ≡ some t → find key s.table ≡ some t
  pub defined : r.has_defined_types ≡ true → s.has_defined_types ≡ true
  pub infos : (t : ℕ) (d : TypeInfo) → get_elem? r.types t ≡ some d → get_elem? s.types t ≡ some d

pub get_elem?-extended :
    (types : List TypeInfo) (d x : TypeInfo) (t : ℕ)
    → get_elem? types t ≡ some x
    → get_elem? (types ++ (d ∷ [])) t ≡ some x
get_elem?-extended types d x t at =
    ground (arith, at, get_elem?-append types (d ∷ []) t, get_elem?-inside types t x at)

pub get_elem?-new :
    (types : List TypeInfo) (d : TypeInfo) → get_elem? (types ++ (d ∷ [])) (length types) ≡ some d
get_elem?-new types d = ground (arith, get_elem?-append types (d ∷ []) (length types))

abbrev added : TypeInfo → Registry → Registry
added d r = record r {
  types = r.types ++ (d ∷ []);
  table = assign (key_of d) (length r.types) r.table;
}

pub intern-found :
    (d : TypeInfo) (r : Registry) (t : ℕ) → find (key_of d) r.table ≡ some t → intern d r ≡ (t, r)
unfolding intern
intern-found d r t hit = rw (intern, hit) refl

intern-added :
    (d : TypeInfo) (r : Registry)
    → find (key_of d) r.table ≡ none
    → intern d r ≡ (length r.types, added d r)
unfolding intern
intern-added d r gone = rw (intern, gone) refl

find-added :
    (d : TypeInfo) (r : Registry) (key : List ℕ)
    → find key (added d r).table
      ≡ (if list_eq.beq (key_of d) key then some (length r.types) else find key r.table)
find-added d r key = find-assign (key_of d) key (length r.types) r.table

pub intern-find :
    (d : TypeInfo) (r : Registry) → find (key_of d) (intern d r).1.table ≡ some (intern d r).0
intern-find d r = elim (Option-cases (find (key_of d) r.table)) [
  | inr (t, hit) ↦ rw (intern-found d r t hit, hit) refl
  | inl none_yet ↦
      rw (intern-added d r none_yet)
        (ground (arith, find-added d r (key_of d), list_eq.beq_iff (key_of d) (key_of d)))
]

pub intern-Grows : (d : TypeInfo) (r : Registry) → Grows r (intern d r).1
intern-Grows d r = elim (Option-cases (find (key_of d) r.table)) [
  | inr (t, hit) ↦
      rw (intern-found d r t hit)
        (record { entries = λ key t at. at; defined = λ h. h; infos = λ t d at. at })
  | inl none_yet ↦ rw (intern-added d r none_yet) (record {
    entries = λ key t at.
        ground (arith, at, none_yet, find-added d r key, list_eq.beq_iff (key_of d) key);
    defined = λ h. h;
    infos = λ t x at. get_elem?-extended r.types d x t at;
  })
]

pub intern-IsInterned : (d : TypeInfo) {r : Registry} → IsInterned r → IsInterned (intern d r).1
intern-IsInterned d {r} valid = elim (Option-cases (find (key_of d) r.table)) [
  | inr (t, hit) ↦ rw (intern-found d r t hit) valid
  | inl none_yet ↦ rw (intern-added d r none_yet) (record {
    held = λ key t at. elim (Bool-cases (list_eq.beq (key_of d) key)) [
      | inl same ↦
          let new : find key (added d r).table ≡ some (length r.types) =
            find-added d r key ∙ rw same refl in
          let here : length r.types ≡ t = cc in
          (
            d,
            subst (λ a. get_elem? (r.types ++ (d ∷ [])) a ≡ some d) here (get_elem?-new r.types d),
            ground (arith, same, list_eq.beq_iff (key_of d) key),
          )
      | inr other ↦
          let (x, there, keyed) =
            valid.held key t (ground (arith, at, other, find-added d r key)) in
          (x, get_elem?-extended r.types d x t there, keyed)
    ];
    statics = λ i e t at.
        let (n, ls, there, sized) = valid.statics i e t at in
        (n, ls, get_elem?-extended r.types d (static_tensor_type e n ls) t there, sized);
  })
]
