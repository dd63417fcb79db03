-- ===== src/Backend/Hashtable/Valid.antt =====
-- Valid tables, and what they stand for.
use memoir_cs397_atc.Prelude.{
  ℕ, ◌<◌, ◌^◌, ◌≡◌, ◌⊎◌, inl, inr, Bool, true, Option, some, none, arith, length, get_elem?,
  Bool-cases, subst,
}
use memoir_cs397_atc.Words.{sub64, sub64-small}
use memoir_cs397_atc.Result.{ok}
use memoir_cs397_atc.Std.Bits.{bit_and-le}
use memoir_cs397_atc.Backend.Entries.{Entries}
use memoir_cs397_atc.Backend.Hashtable.{Table, found, empty, home, probe}
use memoir_cs397_atc.Backend.Hashtable.Walk.{
  Stored, Vacant, Passed, Walk, Walk-unique, Passed-Stored, Passed-Vacant, Stored-Vacant,
  probe_from-Ends, z_inside,
}
use memoir_cs397_atc.Backend.Hashtable.Lookup.{
  holds, lookup_in, count, count-vacant, lookup_in-only, lookup_in-none,
}

module _ {E V : Type 0} (m : Entries E V) where
  abbrev pub lookup : Table E → ℕ → Option V
  lookup t k = lookup_in m t.entries k none

  module _ (hash_key : ℕ → ℕ) where
    -- Every entry in use is reached from the home of its key, over entries for other keys.
    pub record IsProbed (t : Table E) : Type 0 where
      pub positive : 0 < t.capacity
      pub small : t.capacity < 2 ^ 62
      pub sized : length t.entries ≡ t.capacity
      pub reached : (k j : ℕ) → Stored m t k j → (n : ℕ) × Walk m n t k (home m hash_key t k) j

    -- The entries in use are counted too, and one is left.
    pub record IsTable (t : Table E) : Type 0 where
      pub probed : IsProbed t
      pub counted : t.length ≡ count m t.entries
      pub spare : t.length < t.capacity

    pub count-left : {t : Table E} → IsTable t → count m t.entries < t.capacity
    count-left valid = omega (arith, valid.counted, valid.spare)

    module _ {t : Table E} (probed : IsProbed t) (k : ℕ) where
      pub home_inside : home m hash_key t k < t.capacity
      unfolding home
      home_inside = omega (
        arith,
        bit_and-le (hash_key k) (sub64 t.capacity 1),
        sub64-small t.capacity 1 (omega (arith, probed.positive)) (omega (arith, probed.small)),
        probed.positive,
      )

      -- An entry for the key is where a probe for it ends.
      pub Stored-at :
          (n j i : ℕ)
          → Walk m n t k (home m hash_key t k) j
          → (Passed m t k j → ⊥)
          → Stored m t k i
          → i ≡ j
      Stored-at n j i path stop stored =
          let (n', path') = probed.reached k i stored in
          Walk-unique m t k n' n (home m hash_key t k) i j path' path
            (λ pass. Passed-Stored m t k i pass stored) stop

      pub Stored-unique : (i j : ℕ) → Stored m t k i → Stored m t k j → i ≡ j
      Stored-unique i j stored stored' =
          let (n, path) = probed.reached k j stored' in
          Stored-at n j i path (λ pass. Passed-Stored m t k j pass stored') stored

      -- A probe with an entry left ends at the entry for the key, or shows that there is none.
      abbrev pub Finds : Bool → Type 0
      Finds bounded =
          ((j : ℕ) × (probe m hash_key bounded t k ≡ ok (found j)) × Stored m t k j)
          ⊎ ((j : ℕ) × (n : ℕ) × (probe m hash_key bounded t k ≡ ok (empty j))
              × Vacant m t j
              × Walk m n t k (home m hash_key t k) j
              × ((i : ℕ) → Stored m t k i → ⊥))

      pub probe-ends : (bounded : Bool) → count m t.entries < t.capacity → Finds bounded
      unfolding probe
      probe-ends bounded left =
          let (z, vacant, at, free) = count-vacant m t.entries (omega (arith, probed.sized)) in
          let i = home m hash_key t k in
          elim (probe_from-Ends m bounded t k i z probed.sized (vacant, at, free) home_inside
            t.capacity i home_inside
            (ground (
              arith,
              z_inside m bounded t k i z probed.sized (vacant, at, free) home_inside,
              home_inside,
            ))
            (omega arith)) [
              | inl (j, n, ends, stored, path) ↦ inl (j, ends, stored)
              | inr (j, n, ends, free, path) ↦ inr (
                j,
                n,
                ends,
                free,
                path,
                λ i stored.
                    let same =
                      Stored-at n j i path (λ pass. Passed-Vacant m t k j pass free) stored in
                    Stored-Vacant m t k j (subst (Stored m t k) same stored) free,
              )
            ]

      Stored-holds :
          (i : ℕ) (e : E) → get_elem? t.entries i ≡ some e → holds m e k ≡ true → Stored m t k i
      Stored-holds i e at hit = (e, at, ground (arith, hit), ground (arith, hit))

      pub lookup-Stored : (j : ℕ) (stored : Stored m t k j) → lookup t k ≡ some (m.value stored.0)
      lookup-Stored j (e, at, in_use, same) =
          lookup_in-only m t.entries k j e none at (ground (arith, in_use, same)) λ i e' ne at'.
            elim (Bool-cases (holds m e' k)) [
              | inr other ↦ other
              | inl hit ↦
                  absurd (ne (Stored-unique i j (Stored-holds i e' at' hit) (e, at, in_use, same)))
            ]

      pub lookup-missing : ((i : ℕ) → Stored m t k i → ⊥) → lookup t k ≡ none
      lookup-missing missing = lookup_in-none m t.entries k none λ i e at.
          elim (Bool-cases (holds m e k)) [
            | inr other ↦ other
            | inl hit ↦ absurd (missing i (Stored-holds i e at hit))
          ]
