-- ===== src/Examples/Tables.antt =====
-- The theorems on the hash tables of runtime/backend at small ones.
use memoir_cs397_atc.Prelude.{
  replicate, ℕ, zero, suc, ◌≡◌, refl, ap, sym, ◌∙◌, subst, arith, true, false, some, [], ◌∷◌,
  if◌then◌else◌, ◌==◌,
}
use memoir_cs397_atc.Words.{add64, sub64}
use memoir_cs397_atc.Result.{undefined, ok}
use memoir_cs397_atc.Backend.Entries.{Entries, Entry, entries, ptr_entries, entries-IsEntries}
use memoir_cs397_atc.Backend.Hashtable.{
  probe_from, Table, home, has, read, remove, write, expand, ptr_hash_key,
}
use memoir_cs397_atc.Backend.Hashtable.Walk.{Stored, Walk}
use memoir_cs397_atc.Backend.Hashtable.Lookup.{count, lookup_in}
use memoir_cs397_atc.Backend.Hashtable.Valid.{IsTable, lookup}
use memoir_cs397_atc.Backend.Hashtable.Read.{read-lookup}
use memoir_cs397_atc.Backend.Hashtable.Expand.{expand-keeps, write-writes, Expanded}
use memoir_cs397_atc.Backend.Hashtable.Remove.{remove-hides}
use memoir_cs397_atc.Backend.Nesting.{
  nesting_expand, nesting_move, nesting_home, nesting_get, nesting_probe, probe_on,
}
use memoir_cs397_atc.Backend.Pointers.{PtrTable, IsPtrTable, ptr_write, ptr_read, ptr_write-read}

-- A hash function for the examples.
abbrev own : ℕ → ℕ
own k = k

abbrev numbers : Entries (Entry ℕ) ℕ
numbers = entries 0

-- The keys 1 and 5 have one home in a table of four entries.
abbrev colliding : Table (Entry ℕ)
colliding = record {
  capacity = 4;
  length = 2;
  entries =
      numbers.blank
      ∷ record { exists = true; key = 1; value = 10 }
      ∷ record { exists = true; key = 5; value = 50 }
      ∷ numbers.blank
      ∷ [];
}

five-Walk : Walk numbers 1 colliding 5 (home numbers own colliding 5) 2
unfolding home sub64
five-Walk = ((record { exists = true; key = 1; value = 10 }, refl, refl, λ e. omega arith), refl)

one-Walk : Walk numbers 0 colliding 1 (home numbers own colliding 1) 1
unfolding home sub64
one-Walk = refl

five_meets : Walk numbers 0 colliding 5 (home numbers own colliding 5) 1
unfolding home sub64
five_meets = refl

colliding_reached :
    (k j : ℕ)
    → Stored numbers colliding k j
    → (n : ℕ) × Walk numbers n colliding k (home numbers own colliding k) j
colliding_reached k zero (e, at, in_use, same) =
    let one : e ≡ numbers.blank = cc in ground (arith, ap numbers.occupied one, in_use)
colliding_reached k (suc zero) (e, at, in_use, same) =
    let one : e ≡ record { exists = true; key = 1; value = 10 } = cc in
    (
      0,
      subst (λ k. Walk numbers 0 colliding k (home numbers own colliding k) 1)
          (sym (ap numbers.key one) ∙ same) one-Walk,
    )
colliding_reached k (suc (suc zero)) (e, at, in_use, same) =
    let one : e ≡ record { exists = true; key = 5; value = 50 } = cc in
    (
      1,
      subst (λ k. Walk numbers 1 colliding k (home numbers own colliding k) 2)
          (sym (ap numbers.key one) ∙ same) five-Walk,
    )
colliding_reached k (suc (suc (suc zero))) (e, at, in_use, same) =
    let one : e ≡ numbers.blank = cc in ground (arith, ap numbers.occupied one, in_use)
colliding_reached k (suc (suc (suc (suc j)))) (e, at, in_use, same) = ground (arith, at)

colliding-IsTable : IsTable numbers own colliding
unfolding count
colliding-IsTable = record {
  probed = record {
    positive = omega arith;
    small = omega arith;
    sized = refl;
    reached = colliding_reached;
  };
  counted = refl;
  spare = omega arith;
}

read-lookup_example : read numbers own 0 colliding 5 ≡ ok 50
unfolding lookup_in
read-lookup_example = read-lookup numbers own colliding-IsTable 5 0

write-writes_example :
    (u : Table (Entry ℕ)) × (write numbers own colliding 9 90 ≡ ok u)
    × IsTable numbers own u
    × ((k : ℕ) → lookup numbers u k ≡ (if k == 9 then some 90 else lookup numbers colliding k))
write-writes_example =
    write-writes numbers own (entries-IsEntries 0) colliding-IsTable (omega arith) 9 90 tt

expand-keeps_example :
    (u : Table (Entry ℕ)) × (expand numbers own colliding ≡ ok u)
    × Expanded numbers own (entries-IsEntries 0) colliding-IsTable (omega arith) u
expand-keeps_example =
    expand-keeps numbers own (entries-IsEntries 0) colliding-IsTable (omega arith)

remove-hides_example :
    (u : Table (Entry ℕ)) × (remove numbers own colliding 1 ≡ ok u)
    × (lookup numbers u 5 ≡ lookup numbers colliding 5)
    × (has numbers own u 5 ≡ ok false)
remove-hides_example =
    remove-hides numbers own (entries-IsEntries 0) colliding-IsTable 1 1
      (record { exists = true; key = 1; value = 10 }) refl refl refl 5 0 five_meets
      (λ e. omega arith)

-- A table for pointers that holds the address 8.
abbrev addresses : PtrTable ℕ
addresses = record {
  capacity = 2;
  length = 1;
  entries = record { key = 8; value = 80 } ∷ record { key = 0; value = 0 } ∷ [];
}

eight-Walk : Walk (ptr_entries 0) 0 addresses 8 (home (ptr_entries 0) ptr_hash_key addresses 8) 0
unfolding home sub64 ptr_hash_key
eight-Walk = refl

addresses_reached :
    (k j : ℕ)
    → Stored (ptr_entries 0) addresses k j
    → (n : ℕ) × Walk (ptr_entries 0) n addresses k (home (ptr_entries 0) ptr_hash_key addresses k) j
addresses_reached k zero (e, at, in_use, same) =
    let one : e ≡ record { key = 8; value = 80 } = cc in
    (
      0,
      subst
          (λ k.
            Walk (ptr_entries 0) 0 addresses k (home (ptr_entries 0) ptr_hash_key addresses k) 0)
          (sym (ap (λ e. e.key) one) ∙ same) eight-Walk,
    )
addresses_reached k (suc zero) (e, at, in_use, same) =
    let one : e ≡ record { key = 0; value = 0 } = cc in ground (arith, ap (λ e. e.key) one, in_use)
addresses_reached k (suc (suc j)) (e, at, in_use, same) = ground (arith, at)

addresses-IsPtrTable : IsPtrTable 0 addresses
unfolding count
addresses-IsPtrTable = record {
  probed = record {
    positive = omega arith;
    small = omega arith;
    sized = refl;
    reached = addresses_reached;
  };
  counted = refl;
  spare = omega arith;
}

ptr_write-read_example :
    (u : PtrTable ℕ) × (ptr_write 0 addresses 16 160 ≡ ok u)
    × IsPtrTable 0 u
    × ((k : ℕ) → ptr_read 0 u k ≡ (if k == 16 then ok 160 else ptr_read 0 addresses k))
ptr_write-read_example =
    ptr_write-read 0 addresses-IsPtrTable 16 160 (λ e. omega arith) (omega arith)

-- With the keys 5 and 11, a get of a third key expands the table to six entries, of which both have
-- the last one for their home.
abbrev clustered : Table (Entry ℕ)
clustered = record {
  capacity = 4;
  length = 2;
  entries =
      numbers.blank
      ∷ record { exists = true; key = 5; value = 50 }
      ∷ numbers.blank
      ∷ record { exists = true; key = 11; value = 110 }
      ∷ [];
}

nesting_get_overruns : nesting_get 0 own clustered 2 ≡ undefined
unfolding nesting_get nesting_expand nesting_move nesting_home probe_on add64
nesting_get_overruns = refl

-- Where there is room, a get of a new key counts it.
one_entry :
    nesting_get 0 own (record { capacity = 4; length = 0; entries = replicate 4 numbers.blank }) 6
    ≡ ok (
      record {
        capacity = 4;
        length = 1;
        entries =
            numbers.blank
            ∷ numbers.blank
            ∷ record { exists = true; key = 6; value = 0 }
            ∷ numbers.blank
            ∷ [];
      },
      2,
    )
unfolding nesting_get nesting_probe nesting_home probe_from add64
one_entry = refl
