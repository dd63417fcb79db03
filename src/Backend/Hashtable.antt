-- ===== src/Backend/Hashtable.antt =====
-- runtime/backend/hashtable/hashtable.h: the tables of the macros for primitive values and for
-- pointer keys, by linear probing. The hash function of the keys is a parameter, as in the macros;
-- the two that the file defines are below. A loop runs on fuel, as many steps as there are entries:
-- a loop that is not over then does not end. That `malloc` finds no memory is not modelled.
pub mod Walk
pub mod Lookup
pub mod Valid
pub mod Read
pub mod Write
pub mod Move
pub mod Expand
pub mod Remove
use Prim.Native.Nat.{bit_and, bit_xor}
use memoir_cs397_atc.Prelude.{
  ℕ, zero, suc, ◌+◌, ◌-◌, ◌*◌, ◌/◌, ◌%◌, ◌^◌, Bool, true, false, ◌&&◌, List, [], ◌∷◌, if◌then◌else◌,
  ◌==◌, ltb, leb, get_elem?, set, replicate,
}
use memoir_cs397_atc.Words.{u64_mod, add64, sub64}
use memoir_cs397_atc.Result.{Result, ok, assert_failed, undefined, out_of_fuel, deref, ◌>>=◌}
use memoir_cs397_atc.Backend.Entries.{Entries}

pub record Table (E : Type 0) : Type 0 where
  pub capacity : ℕ
  pub length : ℕ
  pub entries : List E

-- One of its three steps, without the multiplication.
abbrev mix : ℕ → ℕ
mix key = bit_xor (key / 2 ^ 16) key

unfoldable pub u32_hash_key : ℕ → ℕ
u32_hash_key key = mix (mix (mix key * 0x45d9f3b % 2 ^ 32) * 0x45d9f3b % 2 ^ 32)

unfoldable pub ptr_hash_key : ℕ → ℕ
ptr_hash_key key = bit_xor (14695981039346656037 * key % u64_mod) (key / 2 ^ 15)

-- Where a probe ends.
pub data Slot : Type 0 where
  found empty : ℕ → Slot
  gave_up : Slot

module _ {E V : Type 0} (m : Entries E V) where
  -- `table->_capacity` empty entries.
  unfoldable pub allocate : ℕ → Table E
  allocate initial_capacity = record {
    capacity = initial_capacity;
    length = 0;
    entries = replicate initial_capacity m.blank;
  }

  -- The loop of `has`, `read` and `remove`, which is `bounded`, and that of `set`.
  unfoldable pub probe_from : Bool → Table E → ℕ → ℕ → ℕ → ℕ → Result Slot
  probe_from bounded table key begin_index zero index = out_of_fuel
  probe_from bounded table key begin_index (suc fuel) index =
      let next = index + 1 in
      let rest =
        probe_from bounded table key begin_index fuel
          (if leb table.capacity next then 0 else next) in
      do
        entry ← deref (get_elem? table.entries index)
        if m.occupied entry
            then (if key == m.key entry
                then ok (found index)
                else if bounded && next == begin_index
                then ok gave_up
                else rest)
            else ok (empty index)

  module _ (hash_key : ℕ → ℕ) where
    unfoldable pub home : Table E → ℕ → ℕ
    home table key = bit_and (hash_key key) (sub64 table.capacity 1)

    unfoldable pub probe : Bool → Table E → ℕ → Result Slot
    probe bounded table key =
        let index = home table key in probe_from bounded table key index table.capacity index

    unfoldable pub has : Table E → ℕ → Result Bool
    has table key = do
      slot ← probe true table key
      elim slot [ found index ↦ ok true | empty index ↦ ok false | gave_up ↦ ok false ]

    unfoldable pub read : V → Table E → ℕ → Result V
    read zero_value table key = do
      slot ← probe true table key
      elim slot [
        | found index ↦ (do entry ← deref (get_elem? table.entries index); ok (m.value entry))
        | empty index ↦ ok zero_value
        | gave_up ↦ ok zero_value
      ]

    unfoldable pub remove : Table E → ℕ → Result (Table E)
    remove table key = do
      slot ← probe true table key
      elim slot [
        | found index ↦ (do
          entry ← deref (get_elem? table.entries index)
          ok (record table {
            entries = set table.entries index (m.clear entry);
            length = sub64 table.length 1;
          }))
        | empty index ↦ ok table
        | gave_up ↦ ok table
      ]

    -- Its loop never gives up.
    unfoldable pub set_value : Table E → ℕ → V → Result (Table E)
    set_value table key value = do
      slot ← probe false table key
      elim slot [
        | found index ↦ (do
          entry ← deref (get_elem? table.entries index)
          ok (record table { entries = set table.entries index (m.put_value value entry) }))
        | empty index ↦ (do
          entry ← deref (get_elem? table.entries index)
          ok (record table {
            entries = set table.entries index (m.fill key value entry);
            length = add64 table.length 1;
          }))
        | gave_up ↦ ok table
      ]

    -- The loop of `expand` over the old entries.
    unfoldable pub move_entries : List E → Table E → Result (Table E)
    move_entries [] new_table = ok new_table
    move_entries (entry ∷ entries) new_table =
        if m.occupied entry
        then (do
          new_table ← set_value new_table (m.key entry) (m.value entry)
          move_entries entries new_table)
        else move_entries entries new_table

    -- `exit(2)` ends the program as a failed assertion does. `_length` of the new table is not set
    -- before the loop, and is overwritten after it.
    unfoldable pub expand : Table E → Result (Table E)
    unfolding allocate
    expand table =
        let new_capacity = table.capacity * 2 % u64_mod in
        if ltb new_capacity table.capacity then assert_failed else (do
          new_table ← move_entries table.entries (allocate new_capacity)
          ok (record new_table { length = table.length }))

    unfoldable pub write : Table E → ℕ → V → Result (Table E)
    write table key value =
        if leb (table.capacity / 2) table.length
        then (do table ← expand table; set_value table key value)
        else set_value table key value
