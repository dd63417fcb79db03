-- ===== src/Backend/Entries.antt =====
-- runtime/backend/hashtable/hashtable.h: the entries of the two kinds of hash tables. Keys are the
-- numbers that the code hashes and compares; a key of the tables for pointers is an address.
use memoir_cs397_atc.Prelude.{ℕ, ◌≡◌, ◌≢◌, refl, Bool, true, false, not, ◌==◌, ==-false, arith}

-- What the operations of a table do to an entry.
pub record Entries (E V : Type 0) : Type 0 where
  pub occupied : E → Bool
  pub key : E → ℕ
  pub value : E → V
  -- The writes that take an empty entry, and the one that changes its value.
  pub fill : ℕ → V → E → E
  pub put_value : V → E → E
  pub clear : E → E
  -- The entry of zero bytes.
  pub blank : E

-- What the tables rely on, for the keys that an entry can hold.
pub record IsEntries {E V : Type 0} (m : Entries E V) (Storable : ℕ → Type 0) : Type 0 where
  pub occupied-fill : (k : ℕ) (v : V) (e : E) → Storable k → m.occupied (m.fill k v e) ≡ true
  pub key-fill : (k : ℕ) (v : V) (e : E) → m.key (m.fill k v e) ≡ k
  pub value-fill : (k : ℕ) (v : V) (e : E) → m.value (m.fill k v e) ≡ v
  pub occupied-put_value : (v : V) (e : E) → m.occupied (m.put_value v e) ≡ m.occupied e
  pub key-put_value : (v : V) (e : E) → m.key (m.put_value v e) ≡ m.key e
  pub value-put_value : (v : V) (e : E) → m.value (m.put_value v e) ≡ v
  pub occupied-clear : (e : E) → m.occupied (m.clear e) ≡ false
  pub occupied-blank : m.occupied m.blank ≡ false
  pub Storable-key : (e : E) → m.occupied e ≡ true → Storable (m.key e)

-- `K##_##V##_hashtable_entry_t`
pub record Entry (V : Type 0) : Type 0 where
  pub exists : Bool
  pub key : ℕ
  pub value : V

-- `ptr_##V##_hashtable_entry_t`
pub record PtrEntry (V : Type 0) : Type 0 where
  pub key : ℕ
  pub value : V

module _ {V : Type 0} (zero_value : V) where
  abbrev pub entries : Entries (Entry V) V
  entries = record {
    occupied = λ e. e.exists;
    key = λ e. e.key;
    value = λ e. e.value;
    fill = λ k v e. record { exists = true; key = k; value = v };
    put_value = λ v e. record e { value = v };
    clear = λ e. record e { exists = false };
    blank = record { exists = false; key = 0; value = zero_value };
  }

  abbrev pub ptr_entries : Entries (PtrEntry V) V
  ptr_entries = record {
    occupied = λ e. not (e.key == 0);
    key = λ e. e.key;
    value = λ e. e.value;
    fill = λ k v e. record { key = k; value = v };
    put_value = λ v e. record e { value = v };
    clear = λ e. record e { key = 0 };
    blank = record { key = 0; value = zero_value };
  }

  pub entries-IsEntries : IsEntries entries (λ k. Unit {0})
  entries-IsEntries = record {
    occupied-fill = λ k v e h. refl;
    key-fill = λ k v e. refl;
    value-fill = λ k v e. refl;
    occupied-put_value = λ v e. refl;
    key-put_value = λ v e. refl;
    value-put_value = λ v e. refl;
    occupied-clear = λ e. refl;
    occupied-blank = refl;
    Storable-key = λ e h. tt;
  }

  pub ptr_entries-IsEntries : IsEntries ptr_entries (λ k. k ≢ 0)
  ptr_entries-IsEntries = record {
    occupied-fill = λ k v e h. rw (==-false k 0 h) refl;
    key-fill = λ k v e. refl;
    value-fill = λ k v e. refl;
    occupied-put_value = λ v e. refl;
    key-put_value = λ v e. refl;
    value-put_value = λ v e. refl;
    occupied-clear = λ e. refl;
    occupied-blank = refl;
    Storable-key = λ e h. ground arith;
  }
