-- ===== src/Backend/Hashtable/Remove.antt =====
-- `remove`: the entry of the key is freed, and with it the probes that pass it end there.
use memoir_cs397_atc.Prelude.{
  ℕ, zero, suc, ◌+◌, ◌<◌, ◌≡◌, ◌≢◌, inl, inr, refl, ap, ◌∙◌, subst, true, false, some, none,
  if◌then◌else◌, ◌==◌, arith, get_elem?, get_elem?-inside, set, length-set, Bool-cases, ==-false,
}
use memoir_cs397_atc.Words.{sub64, sub64-small}
use memoir_cs397_atc.Std.Pointwise.{get_elem?-set}
use memoir_cs397_atc.Result.{ok}
use memoir_cs397_atc.Backend.Entries.{Entries, IsEntries}
use memoir_cs397_atc.Backend.Hashtable.{Table, home, probe, has, remove}
use memoir_cs397_atc.Backend.Hashtable.Walk.{
  Stored, Vacant, Walk, Walk-unique, Passed-Stored, Passed-Vacant, Stored-Vacant, next,
  probe_from-Ends, z_inside,
}
use memoir_cs397_atc.Backend.Hashtable.Lookup.{
  count-set, holds, lookup_in-set_other, lookup_in-none,
}
use memoir_cs397_atc.Backend.Hashtable.Valid.{
  IsTable, count-left, lookup, probe-ends, lookup-Stored, Stored-unique, home_inside,
}

module _ {E V : Type 0} (m : Entries E V) (hash_key : ℕ → ℕ) {Storable : ℕ → Type 0}
    (laws : IsEntries m Storable) {t : Table E} (valid : IsTable m hash_key t) (k : ℕ) where
  -- A removal of a missing key changes nothing.
  pub remove-missing : lookup m t k ≡ none → remove m hash_key t k ≡ ok t
  unfolding remove
  remove-missing gone =
      elim (probe-ends m hash_key valid.probed k true (count-left m hash_key valid)) [
        | inl (j, ends, stored) ↦
            ground (arith, gone, lookup-Stored m hash_key valid.probed k j stored)
        | inr (j, n, ends, free, path, missing) ↦ rw ends
      ]

  module _ (j : ℕ) (e : E) (at : get_elem? t.entries j ≡ some e) (in_use : m.occupied e ≡ true)
      (held : m.key e ≡ k) where
    -- The table without the entry.
    abbrev removed : Table E
    removed = record t { entries = set t.entries j (m.clear e); length = sub64 t.length 1 }

    remove_done : remove m hash_key t k ≡ ok removed
    unfolding remove
    remove_done = elim (probe-ends m hash_key valid.probed k true (count-left m hash_key valid)) [
      | inl (j', ends, stored) ↦
          let here : j' ≡ j =
            Stored-unique m hash_key valid.probed k j' j stored (e, at, in_use, held) in
          rw (ends, here, at)
      | inr (j', n, ends, free, path, missing) ↦ absurd (missing j (e, at, in_use, held))
    ]

    removed-at :
        (i : ℕ)
        → get_elem? removed.entries i ≡ (if j == i then some (m.clear e) else get_elem? t.entries i)
    removed-at i = get_elem?-set t.entries j i (m.clear e) (get_elem?-inside t.entries j e at)

    removed-Vacant : Vacant m removed j
    removed-Vacant = (m.clear e, ground (arith, removed-at j), laws.occupied-clear e)

    removed-lookup : (k' : ℕ) → lookup m removed k' ≡ (if k' == k then none else lookup m t k')
    removed-lookup k' = elim (Bool-cases (k' == k)) [
      | inr other ↦ rw other (
          lookup_in-set_other m t.entries k' j e (m.clear e) none at (ground (arith, held))
            (ground (arith, laws.occupied-clear e)))
      | inl hit ↦ rw hit (
          lookup_in-none m removed.entries k' none λ i x there. elim (Bool-cases (j == i)) [
            | inl here ↦
                let one : x ≡ m.clear e =
                  let q : get_elem? removed.entries i ≡ some (m.clear e) =
                    ground (arith, removed-at i, here) in
                  cc in
                ground (arith, ap m.occupied one, laws.occupied-clear e)
            | inr apart ↦ elim (Bool-cases (holds m x k')) [
              | inr other ↦ other
              | inl hit' ↦
                  let same : i ≡ j =
                    Stored-unique m hash_key valid.probed k i j
                      (
                        x,
                        ground (arith, there, removed-at i, apart),
                        ground (arith, hit'),
                        ground (arith, hit', hit),
                      )
                      (e, at, in_use, held) in
                  ground (arith, apart)
            ]
          ])
    ]

    used : 0 < t.length
    used = ground (
      arith,
      count-set m t.entries j e (m.clear e) at,
      laws.occupied-clear e,
      in_use,
      valid.counted,
    )

    -- For a valid hash table and the entry of a key, `remove` ends with one entry less, and the
    -- entries left in use are those of the other keys.
    pub remove-forgets :
        (u : Table E) × (remove m hash_key t k ≡ ok u)
        × (u.length + 1 ≡ t.length)
        × ((k' : ℕ) → lookup m u k' ≡ (if k' == k then none else lookup m t k'))
    remove-forgets = (
      removed,
      remove_done,
      omega (
        arith,
        sub64-small t.length 1 used (omega (arith, valid.spare, valid.probed.small)),
        used,
      ),
      removed-lookup,
    )

    module _ (k' n : ℕ) (path : Walk m n t k' (home m hash_key t k') j) where
      -- Up to the freed entry, the probe passes what it passed before.
      Walk-to : (n i : ℕ) → Walk m n t k' i j → (n' : ℕ) × Walk m n' removed k' i j
      Walk-to zero i path = (0, path)
      Walk-to (suc n) i (pass, path) = elim (Bool-cases (j == i)) [
        | inl here ↦ (0, ground (arith, here))
        | inr apart ↦
            let (n', path') = Walk-to n (next m t i) path in
            let (x, there, in_use', other) = pass in
            (suc n', ((x, ground (arith, there, removed-at i, apart), in_use', other), path'))
      ]

      hidden : has m hash_key removed k' ≡ ok false
      unfolding has probe home
      hidden =
          let i = home m hash_key t k' in
          let inside = home_inside m hash_key valid.probed k' in
          let sized = length-set t.entries j (m.clear e) ∙ valid.probed.sized in
          let (n', path') = Walk-to n i path in
          elim (probe_from-Ends m true removed k' i j sized removed-Vacant inside t.capacity i
            inside
            (ground (arith, z_inside m true removed k' i j sized removed-Vacant inside, inside))
            (omega arith)) [
              | inr (j', n'', ends, free, path'') ↦ rw ends
              | inl (j', n'', ends, stored, path'') ↦
                  let same : j' ≡ j =
                    Walk-unique m removed k' n'' n' i j' j path'' path'
                      (λ pass. Passed-Stored m removed k' j' pass stored)
                      (λ pass. Passed-Vacant m removed k' j pass removed-Vacant) in
                  absurd (
                    Stored-Vacant m removed k' j (subst (Stored m removed k') same stored)
                      removed-Vacant)
            ]

      -- For a valid hash table, the entry of a key, and another key whose probe meets that entry,
      -- `remove` leaves the entry of the other key in use if there is one, but `has` of the other
      -- key is false.
      pub remove-hides :
          k' ≢ k
          → (u : Table E) × (remove m hash_key t k ≡ ok u)
            × (lookup m u k' ≡ lookup m t k')
            × (has m hash_key u k' ≡ ok false)
      remove-hides ne =
          (removed, remove_done, removed-lookup k' ∙ rw (==-false k' k ne) refl, hidden)
