-- ===== src/Backend/Hashtable/Expand.antt =====
-- `expand` and `write`: a larger table holds what the old one held.
use memoir_cs397_atc.Prelude.{
  ℕ, zero, suc, ◌+◌, ◌*◌, ◌/◌, ◌%◌, ◌<◌, ◌^◌, ◌≡◌, inl, inr, refl, ap, sym, ◌∙◌, some, none,
  if◌then◌else◌, leb, ltb-false, ◌==◌, arith, Bool-cases,
}
use memoir_cs397_atc.Words.{u64_mod}
use memoir_cs397_atc.Result.{ok}
use memoir_cs397_atc.Backend.Entries.{Entries, IsEntries}
use memoir_cs397_atc.Backend.Hashtable.{Table, home, allocate, move_entries, expand, write}
use memoir_cs397_atc.Backend.Hashtable.Walk.{Walk, next}
use memoir_cs397_atc.Backend.Hashtable.Lookup.{count, lookup_in}
use memoir_cs397_atc.Backend.Hashtable.Valid.{IsTable, IsProbed, lookup, Stored-unique}
use memoir_cs397_atc.Backend.Hashtable.Write.{Wrote, set_value-writes}
use memoir_cs397_atc.Backend.Hashtable.Move.{
  allocate-IsTable, allocate-count, allocate-capacity, Moved, move_entries-moves,
}

module _ {E V : Type 0} (m : Entries E V) (hash_key : ℕ → ℕ) {Storable : ℕ → Type 0}
    (laws : IsEntries m Storable) where
  wrote-IsTable :
      {t u : Table E} {k : ℕ} {v : V}
      → IsTable m hash_key t
      → Wrote m hash_key t k v u
      → t.length + 1 < t.capacity
      → IsTable m hash_key u
  wrote-IsTable valid wrote room = record {
    probed = wrote.probed;
    counted = wrote.counted valid.counted;
    spare =
        omega
          (arith, wrote.counted valid.counted, wrote.one_more, wrote.same_capacity, valid.counted);
  }

  same-Walk :
      (u : Table E) (n k steps i j : ℕ)
      → Walk m steps u k i j
      → Walk m steps (record u { length = n }) k i j
  same-Walk u n k zero i j path = path
  same-Walk u n k (suc steps) i j (pass, path) = (pass, same-Walk u n k steps (next m u i) j path)

  -- `_length` plays no part in a probe.
  with_length :
      (u : Table E) (n : ℕ) → IsProbed m hash_key u → IsProbed m hash_key (record u { length = n })
  unfolding home
  with_length u n probed = record {
    positive = probed.positive;
    small = probed.small;
    sized = probed.sized;
    reached = λ k j stored.
        let (steps, path) = probed.reached k j stored in
        (steps, same-Walk u n k steps (home m hash_key u k) j path);
  }

  module _ {t : Table E} (valid : IsTable m hash_key t) (small : t.capacity < 2 ^ 61) where
    -- A table of twice the size that holds the same.
    pub record Expanded (u : Table E) : Type 0 where
      pub still_valid : IsTable m hash_key u
      pub twice : u.capacity ≡ t.capacity * 2
      pub same_length : u.length ≡ t.length
      pub looked_up : (k : ℕ) → lookup m u k ≡ lookup m t k

    with_length-Expanded :
        (new u : Table E)
        → ((k : ℕ) → lookup m new k ≡ none)
        → count m new.entries ≡ 0
        → new.capacity ≡ t.capacity * 2
        → Moved m hash_key laws t.entries new u
        → Expanded (record u { length = t.length })
    with_length-Expanded new u none_held none_used twice moved = record {
      still_valid = record {
        probed = with_length u t.length moved.probed;
        counted = omega (arith, moved.added, none_used, valid.counted);
        spare = omega (arith, moved.same_capacity, valid.spare);
      };
      twice = moved.same_capacity ∙ twice;
      same_length = refl;
      looked_up = λ k. moved.looked_up k ∙ ap (lookup_in m t.entries k) (none_held k);
    }

    expand_done :
        (u : Table E)
        → move_entries m hash_key t.entries (allocate m (t.capacity * 2)) ≡ ok u
        → expand m hash_key t ≡ ok (record u { length = t.length })
    unfolding expand
    expand_done u done =
        let same : t.capacity * 2 % u64_mod ≡ t.capacity * 2 = omega arith in
        rw (same, ltb-false (t.capacity * 2) t.capacity (omega arith), done) refl

    -- For a valid hash table below 2^61 entries, `expand` ends with a valid one of twice the
    -- capacity, the same length and the same map.
    pub expand-keeps : (u : Table E) × (expand m hash_key t ≡ ok u) × Expanded u
    expand-keeps =
        let size = t.capacity * 2 in
        let (empty, none_held) =
          allocate-IsTable m hash_key laws size (omega (arith, valid.probed.positive))
            (omega arith) in
        let none_used = allocate-count m hash_key laws size in
        let (u, done, moved) =
          move_entries-moves m hash_key laws t.entries (allocate m size) empty.probed
            (omega (
              arith,
              none_used,
              valid.counted,
              valid.spare,
              allocate-capacity m hash_key laws size,
            ))
            (λ i j e e' at at' h h' one.
              Stored-unique m hash_key valid.probed (m.key e) i j (e, at, h, refl)
                (e', at', h', sym one))
            (λ j e at h. none_held (m.key e)) in
        (
          record u { length = t.length },
          expand_done u done,
          with_length-Expanded (allocate m size) u none_held none_used
              (allocate-capacity m hash_key laws size) moved,
        )

    -- For a valid hash table below 2^61 entries and a key that an entry can hold, `write` ends,
    -- whether it expands the table or not, with a valid table whose map is the old one with the
    -- value under the key.
    pub write-writes :
        (k : ℕ) (v : V)
        → Storable k
        → (u : Table E) × (write m hash_key t k v ≡ ok u)
          × IsTable m hash_key u
          × ((k' : ℕ) → lookup m u k' ≡ (if k' == k then some v else lookup m t k'))
    unfolding write
    write-writes k v storable = elim (Bool-cases (leb (t.capacity / 2) t.length)) [
      | inl half_full ↦
          let (w, expanded, is) = expand-keeps in
          let (u, done, wrote) =
            set_value-writes m hash_key laws is.still_valid.probed
              (omega (arith, is.still_valid.counted, is.still_valid.spare)) k v storable in
          (
            u,
            rw (half_full, expanded) done,
            wrote-IsTable is.still_valid wrote
                (omega (arith, is.twice, is.same_length, valid.spare, valid.probed.positive)),
            λ k'. wrote.looked_up k' ∙ ap (λ o. if k' == k then some v else o) (is.looked_up k'),
          )
      | inr room ↦
          let (u, done, wrote) =
            set_value-writes m hash_key laws valid.probed
              (omega (arith, valid.counted, valid.spare)) k v storable in
          (
            u,
            rw room done,
            wrote-IsTable valid wrote (ground (arith, valid.probed.positive)),
            wrote.looked_up,
          )
    ]
