-- ===== src/Ir/Statics.antt =====
-- `StaticTensorType::get`: the types of static tensors are told apart by their number of dimensions.
use memoir_cs397_atc.Prelude.{
  ℕ, suc, ◌≡◌, refl, ap, sym, ◌∙◌, inl, inr, Option, none, some, List, [], ◌∷◌, ◌++◌, ◌+◌, ◌≤◌,
  if◌then◌else◌, ◌==◌, ==-true, ltb-true, get_elem?-in_bounds, arith, length, get_elem?, Bool-cases,
  Option-cases, subst, ltb,
}
use memoir_cs397_atc.Std.Pointwise.{get_elem?-append}
use memoir_cs397_atc.Result.{Result, ok, deref, ◌>>=◌}
use memoir_cs397_atc.Ir.{
  TypeInfo, Registry, static_tensor_type, find_static_tensor, static_dimensions, compare_lengths,
  get_length_of_dimension, get_static_tensor_type,
}
use memoir_cs397_atc.Ir.Unique.{IsInterned, Grows, get_elem?-extended, get_elem?-new}

-- The entries of the multimap lead to types of static tensors.
abbrev Statics : List TypeInfo → List (ℕ × ℕ) → Type 0
Statics types es =
    (i e t : ℕ)
    → get_elem? es i ≡ some (e, t)
    → (n : ℕ) × (ls : List ℕ) × (get_elem? types t ≡ some (static_tensor_type e n ls))
      × (length ls ≡ n)

-- The search with the number of dimensions only.
unfoldable find_by_count : ℕ → ℕ → List TypeInfo → List (ℕ × ℕ) → Result (Option ℕ)
find_by_count e n types [] = ok none
find_by_count e n types ((e', t) ∷ es) =
    let rest = find_by_count e n types es in
    if e' == e
    then (do
      existing_type ← deref (get_elem? types t)
      n' ← static_dimensions existing_type
      if n' == n then ok (some t) else rest)
    else rest

compare_lengths-ends :
    (e n : ℕ) (ls sizes : List ℕ) (i : ℕ)
    → length ls ≡ n
    → i + length sizes ≤ n
    → compare_lengths (static_tensor_type e n ls) sizes i ≡ ok tt
unfolding compare_lengths get_length_of_dimension
compare_lengths-ends e n ls [] i sized fits = refl
compare_lengths-ends e n ls (size ∷ sizes) i sized fits =
    let (l, at) = get_elem?-in_bounds ls i (omega arith) in
    let rest = compare_lengths-ends e n ls sizes (i + 1) sized (omega arith) in
    rw (ltb-true i n (omega arith), at, rest) (ground arith)

find_static_tensor-by_count :
    (e : ℕ) (sizes : List ℕ) (types : List TypeInfo) (es : List (ℕ × ℕ))
    → Statics types es
    → find_static_tensor e sizes types es ≡ find_by_count e (length sizes) types es
unfolding find_static_tensor find_by_count static_dimensions
find_static_tensor-by_count e sizes types [] all = refl
find_static_tensor-by_count e sizes types ((e', t) ∷ es) all =
    let (n', ls', there, sized) = all 0 e' t refl in
    let rest = find_static_tensor-by_count e sizes types es (λ i. all (suc i)) in
    elim (Bool-cases (n' == length sizes)) [
      | inr miss ↦ rw (there, miss, rest) refl
      | inl hit ↦
          rw (there, hit, rest, compare_lengths-ends e' n' ls' sizes 0 sized (ground arith)) refl
    ]

module _ (e n : ℕ) (types : List TypeInfo) where
  find_by_count-ends :
      (es : List (ℕ × ℕ))
      → Statics types es
      → (found : Option ℕ) × (find_by_count e n types es ≡ ok found)
  unfolding find_by_count static_dimensions
  find_by_count-ends [] all = (none, refl)
  find_by_count-ends ((e', t) ∷ es) all =
      let (n', ls', there, sized) = all 0 e' t refl in
      let (found, rest) = find_by_count-ends es (λ i. all (suc i)) in
      elim (Bool-cases (e' == e)) [
        | inr other ↦ (found, rw other rest)
        | inl same ↦ elim (Bool-cases (n' == n)) [
          | inl hit ↦ (some t, rw (same, there, hit) refl)
          | inr miss ↦ (found, rw (same, there, miss) rest)
        ]
      ]

  -- One more type changes nothing.
  find_by_count-kept :
      (d : TypeInfo) (es : List (ℕ × ℕ))
      → Statics types es
      → find_by_count e n (types ++ (d ∷ [])) es ≡ find_by_count e n types es
  unfolding find_by_count static_dimensions
  find_by_count-kept d [] all = refl
  find_by_count-kept d ((e', t) ∷ es) all =
      let (n', ls', there, sized) = all 0 e' t refl in
      let there' = get_elem?-extended types d (static_tensor_type e' n' ls') t there in
      let rest = find_by_count-kept d es (λ i. all (suc i)) in rw (there, there', rest) refl

  find_by_count-append :
      (ls : List ℕ) (es : List (ℕ × ℕ)) (t : ℕ)
      → Statics types es
      → get_elem? types t ≡ some (static_tensor_type e n ls)
      → find_by_count e n types es ≡ ok none
      → find_by_count e n types (es ++ ((e, t) ∷ [])) ≡ ok (some t)
  unfolding find_by_count static_dimensions
  find_by_count-append ls [] t all at h = rw (==-true e e refl, at, ==-true n n refl) refl
  find_by_count-append ls ((e', t') ∷ es) t all at h =
      let (n', ls', there, sized) = all 0 e' t' refl in
      elim (Bool-cases (e' == e)) [
        | inr other ↦ rw other (find_by_count-append ls es t (λ i. all (suc i)) at (rw other at h))
        | inl same ↦ elim (Bool-cases (n' == n)) [
          | inl hit ↦
              let wrong : ok (some t') ≡ ok none = sym (rw (same, there, hit) refl) ∙ h in
              ground (arith, wrong)
          | inr miss ↦
              rw (same, there, miss)
                (find_by_count-append ls es t (λ i. all (suc i)) at (rw (same, there, miss) at h))
        ]
      ]

static_found :
    (r : Registry) (e : ℕ) (ls : List ℕ) (t : ℕ)
    → Statics r.types r.static_tensor_types
    → find_by_count e (length ls) r.types r.static_tensor_types ≡ ok (some t)
    → get_static_tensor_type e ls r ≡ ok (t, r)
unfolding get_static_tensor_type
static_found r e ls t all hit =
    rw (find_static_tensor-by_count e ls r.types r.static_tensor_types all, hit) refl

module _ {r : Registry} (valid : IsInterned r) (e : ℕ) (ls : List ℕ) where
  -- The registry with a new type of static tensors.
  abbrev added_static : Registry
  added_static = record r {
    types = r.types ++ (static_tensor_type e (length ls) ls ∷ []);
    static_tensor_types = r.static_tensor_types ++ ((e, length r.types) ∷ []);
  }

  static_added :
      find_by_count e (length ls) r.types r.static_tensor_types ≡ ok none
      → get_static_tensor_type e ls r ≡ ok (length r.types, added_static)
  unfolding get_static_tensor_type
  static_added gone =
      rw (find_static_tensor-by_count e ls r.types r.static_tensor_types valid.statics, gone) refl

  added_static-IsInterned : IsInterned added_static
  added_static-IsInterned = record {
    held = λ key t at.
        let (d, there, keyed) = valid.held key t at in
        (d, get_elem?-extended r.types (static_tensor_type e (length ls) ls) d t there, keyed);
    statics = λ i e' t at. elim (Bool-cases (ltb i (length r.static_tensor_types))) [
      | inl old ↦
          let (n, ls', there, sized) = valid.statics i e' t (
            ground (
              arith,
              at,
              old,
              get_elem?-append r.static_tensor_types ((e, length r.types) ∷ []) i,
            )) in
          (
            n,
            ls',
            get_elem?-extended r.types (static_tensor_type e (length ls) ls)
                (static_tensor_type e' n ls') t there,
            sized,
          )
      | inr new ↦ elim (Bool-cases (i == length r.static_tensor_types)) [
        | inr beyond ↦ ground (
          arith,
          at,
          new,
          beyond,
          get_elem?-append r.static_tensor_types ((e, length r.types) ∷ []) i,
        )
        | inl last ↦
            let one : ◌≡◌ {A = ℕ × ℕ} (e, length r.types) (e', t) = ground (
              arith,
              at,
              new,
              last,
              get_elem?-append r.static_tensor_types ((e, length r.types) ∷ []) i,
            ) in
            (
              length ls,
              ls,
              subst
                  (λ p.
                    get_elem? (r.types ++ (static_tensor_type e (length ls) ls ∷ [])) p.1
                    ≡ some (static_tensor_type p.0 (length ls) ls))
                  one (get_elem?-new r.types (static_tensor_type e (length ls) ls)),
              refl,
            )
      ]
    ];
  }

  added_static-Grows : Grows r added_static
  added_static-Grows = record {
    entries = λ key t at. at;
    defined = λ h. h;
    infos = λ t d at. get_elem?-extended r.types (static_tensor_type e (length ls) ls) d t at;
  }

  pub get_static_tensor_type-IsInterned :
      (t : ℕ) × (s : Registry) × (get_static_tensor_type e ls r ≡ ok (t, s))
      × IsInterned s
      × Grows r s
  get_static_tensor_type-IsInterned =
      let (found, ends) =
        find_by_count-ends e (length ls) r.types r.static_tensor_types valid.statics in
      elim (Option-cases found) [
        | inr (t, hit) ↦ (
          t,
          r,
          static_found r e ls t valid.statics (ends ∙ ap ok hit),
          valid,
          record { entries = λ key t at. at; defined = λ h. h; infos = λ t d at. at },
        )
        | inl gone ↦ (
          length r.types,
          added_static,
          static_added (ends ∙ ap ok gone),
          added_static-IsInterned,
          added_static-Grows,
        )
      ]

  -- In a registry of the types of the compiler whose tables are right, a static tensor type is
  -- made or found for any lengths, and a request for other lengths of as many dimensions returns
  -- the same pointer.
  pub get_static_tensor_type-other_lengths :
      (ls' : List ℕ)
      → length ls' ≡ length ls
      → (t : ℕ) × (s : Registry) × (get_static_tensor_type e ls r ≡ ok (t, s))
        × (get_static_tensor_type e ls' s ≡ ok (t, s))
  get_static_tensor_type-other_lengths ls' same =
      let with_count = λ (s : Registry) (p : length ls' ≡ length ls).
        ap (λ n. find_by_count e n s.types s.static_tensor_types) p in
      let (found, ends) =
        find_by_count-ends e (length ls) r.types r.static_tensor_types valid.statics in
      elim (Option-cases found) [
        | inr (t, hit) ↦ (
          t,
          r,
          static_found r e ls t valid.statics (ends ∙ ap ok hit),
          static_found r e ls' t valid.statics (with_count r same ∙ ends ∙ ap ok hit),
        )
        | inl gone ↦ (
          length r.types,
          added_static,
          static_added (ends ∙ ap ok gone),
          static_found added_static e ls' (length r.types) added_static-IsInterned.statics (
              with_count added_static same
              ∙ find_by_count-append e (length ls) added_static.types ls r.static_tensor_types
                  (length r.types)
                  (λ i e' t at.
                    let (n, ls'', there, sized) = valid.statics i e' t at in
                    (
                      n,
                      ls'',
                      get_elem?-extended r.types (static_tensor_type e (length ls) ls)
                          (static_tensor_type e' n ls'') t there,
                      sized,
                    ))
                  (get_elem?-new r.types (static_tensor_type e (length ls) ls))
                  (find_by_count-kept e (length ls) r.types (static_tensor_type e (length ls) ls)
                      r.static_tensor_types valid.statics
                    ∙ ends
                    ∙ ap ok gone)),
        )
      ]
