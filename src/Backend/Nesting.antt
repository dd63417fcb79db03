-- ===== src/Backend/Nesting.antt =====
-- runtime/backend/hashtable/hashtable.h: INSTANTIATE_PRIMITIVE_NESTING_HASHTABLE. `get` returns the
-- index of the entry in whose value the caller writes.
use memoir_cs397_atc.Prelude.{
  ℕ, zero, suc, ◌+◌, ◌/◌, ◌%◌, ◌^◌, Bool, true, false, List, [], ◌∷◌, if◌then◌else◌, ◌==◌, ltb,
  get_elem?, set, replicate,
}
use memoir_cs397_atc.Words.{add64, sub64}
use memoir_cs397_atc.Result.{Result, ok, assert_failed, undefined, out_of_fuel, deref, ◌>>=◌}
use memoir_cs397_atc.Backend.Entries.{Entry, entries}
use memoir_cs397_atc.Backend.Hashtable.{Table, Slot, found, empty, gave_up, probe_from}

module _ {V : Type 0} (zero_value : V) (hash_key : ℕ → ℕ) where
  -- `hash % (uint32_t)capacity`, of a 32-bit hash.
  unfoldable pub nesting_home : ℕ → ℕ → Result ℕ
  nesting_home capacity key =
      if capacity % 2 ^ 32 == 0 then undefined else ok (hash_key key % 2 ^ 32 % (capacity % 2 ^ 32))

  unfoldable pub nesting_probe : Bool → Table (Entry V) → ℕ → Result Slot
  nesting_probe bounded table key = do
    index ← nesting_home table.capacity key
    probe_from (entries zero_value) bounded table key index table.capacity index

  unfoldable pub nesting_has : Table (Entry V) → ℕ → Result Bool
  nesting_has table key = do
    slot ← nesting_probe true table key
    elim slot [ found index ↦ ok true | empty index ↦ ok false | gave_up ↦ ok false ]

  unfoldable pub nesting_remove : Table (Entry V) → ℕ → Result (Table (Entry V))
  nesting_remove table key = do
    slot ← nesting_probe true table key
    elim slot [
      | found index ↦ (do
        entry ← deref (get_elem? table.entries index)
        ok (record table {
          entries = set table.entries index (record entry { exists = false });
          length = sub64 table.length 1;
        }))
      | empty index ↦ ok table
      | gave_up ↦ ok table
    ]

  -- The loop that looks for an empty entry in the new storage; it does not begin again at 0.
  unfoldable pub probe_on : ℕ → List (Entry V) → ℕ → Result ℕ
  probe_on zero new_entries new_i = out_of_fuel
  probe_on (suc fuel) new_entries new_i =
      let rest = probe_on fuel new_entries (new_i + 1) in
      do entry ← deref (get_elem? new_entries new_i); if entry.exists then rest else ok new_i

  -- The loop over the old entries.
  unfoldable pub nesting_move : ℕ → List (Entry V) → List (Entry V) → Result (List (Entry V))
  nesting_move new_capacity [] new_entries = ok new_entries
  nesting_move new_capacity (entry ∷ rest) new_entries =
      if entry.exists
      then (do
        new_i ← nesting_home new_capacity entry.key
        new_i ← probe_on (suc new_capacity) new_entries new_i
        nesting_move new_capacity rest (set new_entries new_i entry))
      else nesting_move new_capacity rest new_entries

  unfoldable pub nesting_expand : Table (Entry V) → Result (Table (Entry V))
  nesting_expand table =
      let new_capacity = add64 table.capacity (table.capacity / 2) in
      let blank : Entry V = record { exists = false; key = 0; value = zero_value } in
      if ltb new_capacity table.capacity then assert_failed else (do
        new_entries ← nesting_move new_capacity table.entries (replicate new_capacity blank)
        ok (record table { capacity = new_capacity; entries = new_entries }))

  unfoldable pub nesting_get : Table (Entry V) → ℕ → Result (Table (Entry V) × ℕ)
  nesting_get table key = do
    table ←
        if ltb (table.capacity / 2) (add64 table.length 1) then nesting_expand table else ok table
    slot ← nesting_probe false table key
    elim slot [
      | found index ↦ ok (table, index)
      | empty index ↦ (do
        entry ← deref (get_elem? table.entries index)
        ok (
          record table {
            entries = set table.entries index (record entry { exists = true; key = key });
            length = add64 table.length 1;
          },
          index,
        ))
      | gave_up ↦ ok (table, 0)
    ]
