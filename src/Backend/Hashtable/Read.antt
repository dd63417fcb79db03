-- ===== src/Backend/Hashtable/Read.antt =====
-- `has` and `read`.
use memoir_cs397_atc.Prelude.{ℕ, ◌≡◌, inl, inr, true, Option, some, none, is_some}
use memoir_cs397_atc.Result.{ok}
use memoir_cs397_atc.Backend.Entries.{Entries}
use memoir_cs397_atc.Backend.Hashtable.{Table, has, read}
use memoir_cs397_atc.Backend.Hashtable.Valid.{
  IsTable, count-left, lookup, probe-ends, lookup-Stored, lookup-missing,
}

abbrev pub value_or : {V : Type 0} → V → Option V → V
value_or zero_value none = zero_value
value_or zero_value (some v) = v

module _ {E V : Type 0} (m : Entries E V) (hash_key : ℕ → ℕ) {t : Table E}
    (valid : IsTable m hash_key t) (k : ℕ) where
  -- `has` ends and tells whether the map has the key.
  pub has-lookup : has m hash_key t k ≡ ok (is_some (lookup m t k))
  unfolding has
  has-lookup = elim (probe-ends m hash_key valid.probed k true (count-left m hash_key valid)) [
    | inl (j, ends, stored) ↦ rw (ends, lookup-Stored m hash_key valid.probed k j stored)
    | inr (j, n, ends, free, path, missing) ↦
        rw (ends, lookup-missing m hash_key valid.probed k missing)
  ]

  -- For a valid hash table, `read` ends with the value that its map has under the key, or zero
  -- where it has none.
  pub read-lookup :
      (zero_value : V) → read m hash_key zero_value t k ≡ ok (value_or zero_value (lookup m t k))
  unfolding read
  read-lookup zero_value =
      elim (probe-ends m hash_key valid.probed k true (count-left m hash_key valid)) [
        | inl (j, ends, stored) ↦
            let (e, at, in_use, same) = stored in
            rw (ends, at, lookup-Stored m hash_key valid.probed k j stored)
        | inr (j, n, ends, free, path, missing) ↦
            rw (ends, lookup-missing m hash_key valid.probed k missing)
      ]
