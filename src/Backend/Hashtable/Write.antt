-- ===== src/Backend/Hashtable/Write.antt =====
-- `set`: the table stays valid and changes at the key only.
use memoir_cs397_atc.Prelude.{
  ℕ, zero, suc, ◌+◌, ◌≤◌, ◌<◌, ◌≡◌, ◌≢◌, inl, inr, refl, ap, sym, ◌∙◌, subst, true, false, some,
  none, if◌then◌else◌, ◌==◌, arith, get_elem?, get_elem?-inside, set, length-set, Bool-cases,
}
use memoir_cs397_atc.Words.{add64, add64-small}
use memoir_cs397_atc.Std.Pointwise.{get_elem?-set}
use memoir_cs397_atc.Result.{ok}
use memoir_cs397_atc.Backend.Entries.{Entries, IsEntries}
use memoir_cs397_atc.Backend.Hashtable.{Table, home, set_value}
use memoir_cs397_atc.Backend.Hashtable.Walk.{Passed, Walk, next}
use memoir_cs397_atc.Backend.Hashtable.Lookup.{count, count-set, lookup_in-set_other, holds}
use memoir_cs397_atc.Backend.Hashtable.Valid.{IsProbed, lookup, probe-ends, lookup-Stored}

module _ {E V : Type 0} (m : Entries E V) (hash_key : ℕ → ℕ) (t : Table E) (j : ℕ) (e e' : E)
    (at : get_elem? t.entries j ≡ some e) (size : ℕ) where
  -- The table after a write to an entry.
  abbrev written : Table E
  written = record t { entries = set t.entries j e'; length = size }

  written-at :
      (i : ℕ) → get_elem? written.entries i ≡ (if j == i then some e' else get_elem? t.entries i)
  written-at i = get_elem?-set t.entries j i e' (get_elem?-inside t.entries j e at)

  -- The written entry holds the key `k` now, and held no other one.
  written-lookup :
      (probed : IsProbed m hash_key written) (k : ℕ) (v : V)
      → m.occupied e' ≡ true
      → m.key e' ≡ k
      → m.value e' ≡ v
      → ((k' : ℕ) → k' ≢ k → holds m e k' ≡ false)
      → (k' : ℕ) → lookup m written k' ≡ (if k' == k then some v else lookup m t k')
  written-lookup probed k v in_use same valued apart k' = elim (Bool-cases (k' == k)) [
    | inl hit ↦
        let is_k' : m.key e' ≡ k' = ground arith in
        rw hit (
          lookup-Stored m hash_key probed k' j (e', ground (arith, written-at j), in_use, is_k')
          ∙ ap some valued)
    | inr other ↦ rw other (
        lookup_in-set_other m t.entries k' j e e' none at (apart k' (ground arith))
          (ground (arith, same)))
  ]

  module _ (keeps : m.occupied e ≡ true → (m.occupied e' ≡ true) × (m.key e' ≡ m.key e)) where
    Passed-kept : (k i : ℕ) → Passed m t k i → Passed m written k i
    Passed-kept k i (x, there, in_use, other) = elim (Bool-cases (j == i)) [
      | inr apart ↦ (x, ground (arith, written-at i, there, apart), in_use, other)
      | inl same ↦
          let here : j ≡ i = ground arith in
          let one : x ≡ e =
            let q : get_elem? t.entries i ≡ some e = ap (get_elem? t.entries) (sym here) ∙ at in
            cc in
          let (in_use', key') = keeps (sym (ap m.occupied one) ∙ in_use) in
          (
            e',
            ground (arith, written-at i, same),
            in_use',
            λ is_k. other (ap m.key one ∙ sym key' ∙ is_k),
          )
    ]

    Walk-kept : (k n i i' : ℕ) → Walk m n t k i i' → Walk m n written k i i'
    Walk-kept k zero i i' path = path
    Walk-kept k (suc n) i i' (pass, path) =
        (Passed-kept k i pass, Walk-kept k n (next m t i) i' path)

    written-IsProbed :
        IsProbed m hash_key t
        → ((k : ℕ)
            → m.occupied e' ≡ true
            → m.key e' ≡ k
            → (n : ℕ) × Walk m n t k (home m hash_key t k) j)
        → IsProbed m hash_key written
    unfolding home
    written-IsProbed probed reached = record {
      positive = probed.positive;
      small = probed.small;
      sized = length-set t.entries j e' ∙ probed.sized;
      reached = λ k i (x, there, in_use, same). elim (Bool-cases (j == i)) [
        | inr apart ↦
            let (n, path) =
              probed.reached k i (x, ground (arith, written-at i, there, apart), in_use, same) in
            (n, Walk-kept k n (home m hash_key t k) i path)
        | inl hit ↦
            let here : j ≡ i = ground arith in
            let one : x ≡ e' =
              let q : get_elem? written.entries i ≡ some e' = ground (arith, written-at i, hit) in
              cc in
            let (n, path) =
              reached k (sym (ap m.occupied one) ∙ in_use) (sym (ap m.key one) ∙ same) in
            (
              n,
              subst (Walk m n written k (home m hash_key t k)) here
                  (Walk-kept k n (home m hash_key t k) j path),
            )
      ];
    }

module _ {E V : Type 0} (m : Entries E V) (hash_key : ℕ → ℕ) where
  -- What a table is after a write, if an entry was left before it.
  pub record Wrote (t : Table E) (k : ℕ) (v : V) (u : Table E) : Type 0 where
    pub probed : IsProbed m hash_key u
    pub same_capacity : u.capacity ≡ t.capacity
    pub looked_up : (k' : ℕ) → lookup m u k' ≡ (if k' == k then some v else lookup m t k')
    pub one_more : count m u.entries ≤ count m t.entries + 1
    pub new_key : lookup m t k ≡ none → count m u.entries ≡ count m t.entries + 1
    pub counted : t.length ≡ count m t.entries → u.length ≡ count m u.entries

  module _ {Storable : ℕ → Type 0} (laws : IsEntries m Storable) {t : Table E}
      (probed : IsProbed m hash_key t) (left : count m t.entries < t.capacity) (k : ℕ) (v : V) where
    put_Wrote :
        (j : ℕ) (e : E)
        → get_elem? t.entries j ≡ some e
        → m.occupied e ≡ true
        → m.key e ≡ k
        → Wrote t k v (record t { entries = set t.entries j (m.put_value v e) })
    put_Wrote j e at in_use same =
        let e' = m.put_value v e in
        let in_use' : m.occupied e' ≡ true = laws.occupied-put_value v e ∙ in_use in
        let same' : m.key e' ≡ k = laws.key-put_value v e ∙ same in
        let u-IsProbed =
          written-IsProbed m hash_key t j e e' at t.length (λ h. (in_use', laws.key-put_value v e))
            probed
            (λ k' h is_k'.
              probed.reached k' j (e, at, in_use, sym (laws.key-put_value v e) ∙ is_k')) in
        record {
          probed = u-IsProbed;
          same_capacity = refl;
          looked_up = λ k'.
              written-lookup m hash_key t j e e' at t.length u-IsProbed k v in_use' same'
                (laws.value-put_value v e) (λ k'' ne. ground (arith, same)) k';
          one_more = ground (arith, count-set m t.entries j e e' at);
          new_key = λ fresh.
              ground (arith, fresh, lookup-Stored m hash_key probed k j (e, at, in_use, same));
          counted = λ c. ground (arith, count-set m t.entries j e e' at);
        }

    fill_Wrote :
        Storable k
        → (j n : ℕ) (e : E) → get_elem? t.entries j ≡ some e
        → m.occupied e ≡ false
        → Walk m n t k (home m hash_key t k) j
        → Wrote t k v
            (record t { entries = set t.entries j (m.fill k v e); length = add64 t.length 1 })
    fill_Wrote storable j n e at free path =
        let e' = m.fill k v e in
        let in_use' : m.occupied e' ≡ true = laws.occupied-fill k v e storable in
        let same' : m.key e' ≡ k = laws.key-fill k v e in
        let u-IsProbed =
          written-IsProbed m hash_key t j e e' at (add64 t.length 1) (λ h. ground (arith, h, free))
            probed
            (λ k' h is_k'.
              (n, subst (λ x. Walk m n t x (home m hash_key t x) j) (sym same' ∙ is_k') path)) in
        record {
          probed = u-IsProbed;
          same_capacity = refl;
          looked_up = λ k'.
              written-lookup m hash_key t j e e' at (add64 t.length 1) u-IsProbed k v in_use' same'
                (laws.value-fill k v e) (λ k'' ne. ground (arith, free)) k';
          one_more = ground (arith, count-set m t.entries j e e' at);
          new_key = λ fresh. ground (arith, count-set m t.entries j e e' at);
          counted = λ c. ground (
            arith,
            add64-small t.length 1 (omega (arith, c, left, probed.small)),
            count-set m t.entries j e e' at,
          );
        }

    -- With an entry left, `set` ends, and the table changes at the key only.
    pub set_value-writes :
        Storable k → (u : Table E) × (set_value m hash_key t k v ≡ ok u) × Wrote t k v u
    unfolding set_value
    set_value-writes storable = elim (probe-ends m hash_key probed k false left) [
      | inl (j, ends, stored) ↦
          let (e, at, in_use, same) = stored in
          (
            record t { entries = set t.entries j (m.put_value v e) },
            rw (ends, at) refl,
            put_Wrote j e at in_use same,
          )
      | inr (j, n, ends, free, path, missing) ↦
          let (e, at, none_in) = free in
          (
            record t { entries = set t.entries j (m.fill k v e); length = add64 t.length 1 },
            rw (ends, at) refl,
            fill_Wrote storable j n e at none_in path,
          )
    ]
