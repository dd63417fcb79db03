-- ===== src/Backend/Pointers.antt =====
-- runtime/backend/hashtable/hashtable.h: INSTANTIATE_PTR_HASHTABLE, whose operations are those of the
-- tables for primitive values, with the null pointer for the key of an empty entry.
use memoir_cs397_atc.Prelude.{
  ℕ, ◌+◌, ◌<◌, ◌^◌, ◌≡◌, ◌≢◌, inl, inr, refl, sym, ◌∙◌, Bool, false, Option, none, if◌then◌else◌,
  ◌==◌, Bool-cases, arith, set,
}
use memoir_cs397_atc.Words.{add64, add64-small}
use memoir_cs397_atc.Result.{Result, ok}
use memoir_cs397_atc.Backend.Entries.{PtrEntry, ptr_entries, ptr_entries-IsEntries}
use memoir_cs397_atc.Backend.Hashtable.{
  Table, ptr_hash_key, allocate, has, read, remove, set_value, expand, write,
}
use memoir_cs397_atc.Backend.Hashtable.Lookup.{lookup_in-set_other}
use memoir_cs397_atc.Backend.Hashtable.Valid.{IsTable, lookup, probe-ends, count-left}
use memoir_cs397_atc.Backend.Hashtable.Read.{read-lookup}
use memoir_cs397_atc.Backend.Hashtable.Expand.{write-writes}

-- `ptr_##V##_hashtable_t`
abbrev pub PtrTable : Type 0 → Type 0
PtrTable V = Table (PtrEntry V)

module _ {V : Type 0} (zero_value : V) where
  unfoldable pub ptr_allocate : ℕ → PtrTable V
  ptr_allocate = allocate (ptr_entries zero_value)

  unfoldable pub ptr_has : PtrTable V → ℕ → Result Bool
  ptr_has = has (ptr_entries zero_value) ptr_hash_key

  unfoldable pub ptr_set : PtrTable V → ℕ → V → Result (PtrTable V)
  ptr_set = set_value (ptr_entries zero_value) ptr_hash_key

  unfoldable pub ptr_write : PtrTable V → ℕ → V → Result (PtrTable V)
  ptr_write = write (ptr_entries zero_value) ptr_hash_key

  unfoldable pub ptr_read : PtrTable V → ℕ → Result V
  ptr_read = read (ptr_entries zero_value) ptr_hash_key zero_value

  unfoldable pub ptr_remove : PtrTable V → ℕ → Result (PtrTable V)
  ptr_remove = remove (ptr_entries zero_value) ptr_hash_key

  unfoldable pub ptr_expand : PtrTable V → Result (PtrTable V)
  ptr_expand = expand (ptr_entries zero_value) ptr_hash_key

  -- A table that the operations on pointers made.
  abbrev pub IsPtrTable : PtrTable V → Type 0
  IsPtrTable = IsTable (ptr_entries zero_value) ptr_hash_key

  abbrev pub ptr_lookup : PtrTable V → ℕ → Option V
  ptr_lookup = lookup (ptr_entries zero_value)

  module _ {t : PtrTable V} (valid : IsPtrTable t) where
    -- For a valid table for pointers below 2^61 entries and a pointer that is not null, `write`
    -- ends with a valid table, in which `read` of the pointer gives the value, and of any other
    -- what it gave before.
    pub ptr_write-read :
        (k : ℕ) (v : V)
        → k ≢ 0
        → t.capacity < 2 ^ 61
        → (u : PtrTable V) × (ptr_write t k v ≡ ok u)
          × IsPtrTable u
          × ((k' : ℕ) → ptr_read u k' ≡ (if k' == k then ok v else ptr_read t k'))
    unfolding ptr_write ptr_read
    ptr_write-read k v live small =
        let (u, done, still_valid, looked_up) =
          write-writes (ptr_entries zero_value) ptr_hash_key (ptr_entries-IsEntries zero_value)
            valid small k v live in
        (
          u,
          done,
          still_valid,
          λ k'.
              read-lookup (ptr_entries zero_value) ptr_hash_key still_valid k' zero_value
              ∙ elim (Bool-cases (k' == k)) [
                | inl hit ↦ rw (looked_up k', hit) refl
                | inr other ↦
                    rw (looked_up k', other)
                      (sym (read-lookup (ptr_entries zero_value) ptr_hash_key valid k' zero_value))
              ],
        )

    -- In a valid table for pointers, `set` of the null pointer ends and counts one entry more, but
    -- the map is as before.
    pub ptr_set-null :
        (v : V)
        → (u : PtrTable V) × (ptr_set t 0 v ≡ ok u)
          × (u.length ≡ t.length + 1)
          × ((k : ℕ) → ptr_lookup u k ≡ ptr_lookup t k)
    unfolding ptr_set set_value
    ptr_set-null v =
        elim (probe-ends (ptr_entries zero_value) ptr_hash_key valid.probed 0 false
          (count-left (ptr_entries zero_value) ptr_hash_key valid)) [
            | inl (j, ends, stored) ↦
                let (e, at, in_use, null) = stored in ground (arith, in_use, null)
            | inr (j, n, ends, free, path, missing) ↦
                let (e, at, is_free) = free in
                (
                  record t {
                    entries = set t.entries j (record { key = 0; value = v });
                    length = add64 t.length 1;
                  },
                  rw (ends, at) refl,
                  add64-small t.length 1 (omega (arith, valid.spare, valid.probed.small)),
                  λ k.
                      lookup_in-set_other (ptr_entries zero_value) t.entries k j e
                        (record { key = 0; value = v }) none at (rw is_free refl) refl,
                )
          ]
