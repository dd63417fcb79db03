-- ===== src/Backend/Hashtable/Move.antt =====
-- `allocate` and the loop of `expand`, which puts the entries of a list into a table.
use memoir_cs397_atc.Prelude.{
  ℕ, zero, suc, ◌+◌, ◌<◌, ◌^◌, ◌≡◌, inl, inr, refl, ap, sym, ◌∙◌, true, some, none, List, [], ◌∷◌,
  if◌then◌else◌, ◌==◌, arith, get_elem?, length-replicate, replicate, Bool-cases,
}
use memoir_cs397_atc.Result.{ok}
use memoir_cs397_atc.Backend.Entries.{Entries, IsEntries}
use memoir_cs397_atc.Backend.Hashtable.{Table, allocate, move_entries}
use memoir_cs397_atc.Backend.Hashtable.Lookup.{
  count, lookup_in, count-replicate, lookup_in-replicate,
}
use memoir_cs397_atc.Backend.Hashtable.Valid.{IsTable, IsProbed, lookup}
use memoir_cs397_atc.Backend.Hashtable.Write.{set_value-writes}

module _ {E V : Type 0} (m : Entries E V) (hash_key : ℕ → ℕ) {Storable : ℕ → Type 0}
    (laws : IsEntries m Storable) where
  get_elem?-replicate : (n i : ℕ) (e x : E) → get_elem? (replicate n e) i ≡ some x → x ≡ e
  get_elem?-replicate zero i e x at = ground (arith, at)
  get_elem?-replicate (suc n) zero e x at = cc
  get_elem?-replicate (suc n) (suc i) e x at = get_elem?-replicate n i e x at

  -- A new table is valid and empty.
  pub allocate-IsTable :
      (initial_capacity : ℕ)
      → 0 < initial_capacity
      → initial_capacity < 2 ^ 62
      → IsTable m hash_key (allocate m initial_capacity)
        × ((k : ℕ) → lookup m (allocate m initial_capacity) k ≡ none)
  unfolding allocate
  allocate-IsTable n positive small =
      let none_used = count-replicate m n m.blank laws.occupied-blank in
      (
        record {
          probed = record {
            positive = positive;
            small = small;
            sized = length-replicate n m.blank;
            reached = λ k j (e, at, in_use, same).
                let one = get_elem?-replicate n j m.blank e at in
                ground (arith, ap m.occupied one, in_use, laws.occupied-blank);
          };
          counted = sym none_used;
          spare = positive;
        },
        λ k. lookup_in-replicate m n k m.blank laws.occupied-blank,
      )

  pub allocate-count : (n : ℕ) → count m (allocate m n).entries ≡ 0
  unfolding allocate
  allocate-count n = count-replicate m n m.blank laws.occupied-blank

  pub allocate-capacity : (n : ℕ) → (allocate m n).capacity ≡ n
  unfolding allocate
  allocate-capacity n = refl

  -- No two of the entries are in use for one key.
  abbrev pub Distinct : List E → Type 0
  Distinct es =
      (i j : ℕ) (e e' : E)
      → get_elem? es i ≡ some e
      → get_elem? es j ≡ some e'
      → m.occupied e ≡ true
      → m.occupied e' ≡ true
      → m.key e ≡ m.key e'
      → i ≡ j

  -- The table has none of their keys.
  abbrev pub Fresh : List E → Table E → Type 0
  Fresh es t =
      (j : ℕ) (e : E) → get_elem? es j ≡ some e → m.occupied e ≡ true → lookup m t (m.key e) ≡ none

  -- What the new table is after the loop.
  pub record Moved (es : List E) (t u : Table E) : Type 0 where
    pub probed : IsProbed m hash_key u
    pub same_capacity : u.capacity ≡ t.capacity
    pub looked_up : (k : ℕ) → lookup m u k ≡ lookup_in m es k (lookup m t k)
    pub added : count m u.entries ≡ count m t.entries + count m es

  Fresh-next :
      (e : E) (es : List E) (t w : Table E)
      → Distinct (e ∷ es)
      → Fresh (e ∷ es) t
      → m.occupied e ≡ true
      → (v : V) → ((k : ℕ) → lookup m w k ≡ (if k == m.key e then some v else lookup m t k))
      → Fresh es w
  Fresh-next e es t w distinct fresh in_use v looked_up j x at h =
      elim (Bool-cases (m.key x == m.key e)) [
        | inl hit ↦
            let same : 0 ≡ suc j = distinct 0 (suc j) e x refl at in_use h (ground arith) in
            absurd (omega arith)
        | inr other ↦ looked_up (m.key x) ∙ rw other (fresh (suc j) x at h)
      ]

  pub move_entries-moves :
      (es : List E) (t : Table E)
      → IsProbed m hash_key t
      → count m t.entries + count m es < t.capacity
      → Distinct es
      → Fresh es t
      → (u : Table E) × (move_entries m hash_key es t ≡ ok u) × Moved es t u
  unfolding move_entries count lookup_in
  move_entries-moves [] t probed left distinct fresh = (
    t,
    refl,
    record { probed = probed; same_capacity = refl; looked_up = λ k. refl; added = omega arith },
  )
  move_entries-moves (e ∷ es) t probed left distinct fresh = elim (Bool-cases (m.occupied e)) [
    | inr free ↦
        let (u, done, moved) =
          move_entries-moves es t probed (ground (arith, left, free))
            (λ i j x y at at' h h' same.
              omega (arith, distinct (suc i) (suc j) x y at at' h h' same))
            (λ j x at h. fresh (suc j) x at h) in
        (
          u,
          rw free done,
          record {
            probed = moved.probed;
            same_capacity = moved.same_capacity;
            looked_up = λ k. rw (lookup_in, free) (moved.looked_up k);
            added = rw free moved.added;
          },
        )
    | inl in_use ↦
        let (w, done, wrote) =
          set_value-writes m hash_key laws probed (ground (arith, left, in_use)) (m.key e)
            (m.value e) (laws.Storable-key e in_use) in
        let more = wrote.new_key (fresh 0 e refl in_use) in
        let (u, done', moved) =
          move_entries-moves es w wrote.probed
            (ground (arith, left, in_use, more, wrote.same_capacity))
            (λ i j x y at at' h h' same.
              omega (arith, distinct (suc i) (suc j) x y at at' h h' same))
            (Fresh-next e es t w distinct fresh in_use (m.value e) wrote.looked_up) in
        (
          u,
          rw (in_use, done) done',
          record {
            probed = moved.probed;
            same_capacity = moved.same_capacity ∙ wrote.same_capacity;
            looked_up = λ k.
                rw (lookup_in, in_use)
                  (moved.looked_up k ∙ ap (lookup_in m es k) (wrote.looked_up k));
            added = rw in_use (moved.added ∙ omega (arith, more));
          },
        )
  ]
