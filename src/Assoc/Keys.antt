-- ===== src/Assoc/Keys.antt =====
-- `AssocArray::keys`.
use memoir_cs397_atc.Prelude.{
  ℕ, ◌≡◌, refl, ap, sym, Bool, false, ◌||◌, none, List, [], ◌∷◌, ◌==◌, arith, length, is_some,
  nat_eq,
}
use memoir_cs397_atc.Std.Map.{find, assign, erase}
use memoir_cs397_atc.Result.{ok}
use memoir_cs397_atc.Types.{TypeInfo, get_sequence_type}
use memoir_cs397_atc.Objects.{sequence_alloc, Runtime, ◌>>=◌, new_object, types}
use memoir_cs397_atc.Assoc.{key_list, keys, assoc_size}
use memoir_cs397_atc.Assoc.Laws.{IsAssoc, load_assoc-ok, get_key_type-ok}

abbrev pub occurs : ℕ → List ℕ → Bool
occurs k [] = false
occurs k (j ∷ js) = (j == k) || occurs k js

-- No key comes twice.
abbrev pub IsUnique : List (ℕ × ℕ) → Type 0
IsUnique [] = Unit {0}
IsUnique ((k, v) ∷ m) = (find k m ≡ none) × IsUnique m

find-assign_other :
    (k j v : ℕ) (m : List (ℕ × ℕ))
    → (k == j) ≡ false
    → find j m ≡ none
    → find j (assign k v m) ≡ none
find-assign_other k j v [] ne h = ground arith
find-assign_other k j v ((i, w) ∷ m) ne h = ground (arith, find-assign_other k j v m)

find-erase-none : (k j : ℕ) (m : List (ℕ × ℕ)) → find j m ≡ none → find j (erase k m) ≡ none
find-erase-none k j [] h = refl
find-erase-none k j ((i, w) ∷ m) h = ground (arith, find-erase-none k j m)

-- A write and a removal leave the keys without repetition.
pub assign-IsUnique : (k v : ℕ) (m : List (ℕ × ℕ)) → IsUnique m → IsUnique (assign k v m)
assign-IsUnique k v [] u = (refl, tt)
assign-IsUnique k v ((i, w) ∷ m) u =
    ground (arith, find-assign_other k i v m, assign-IsUnique k v m u.1)

pub erase-IsUnique : (k : ℕ) (m : List (ℕ × ℕ)) → IsUnique m → IsUnique (erase k m)
erase-IsUnique k [] u = tt
erase-IsUnique k ((i, w) ∷ m) u = ground (arith, find-erase-none k i m, erase-IsUnique k m u.1)

occurs-key_list : (k : ℕ) (m : List (ℕ × ℕ)) → occurs k (key_list m) ≡ is_some (find k m)
unfolding key_list
occurs-key_list k [] = refl
occurs-key_list k ((i, w) ∷ m) = ground (arith, occurs-key_list k m)

length-key_list : (m : List (ℕ × ℕ)) → length (key_list m) ≡ length m
unfolding key_list
length-key_list [] = refl
length-key_list ((i, w) ∷ m) = omega (arith, length-key_list m)

module _ {r : Runtime} {p t : ℕ} {m : List (ℕ × ℕ)} {u : TypeInfo} (v : IsAssoc r p t m u) where
  -- `keys` makes a sequence of the type of sequences of keys that holds a key exactly if the array
  -- has it, and as many as `size` says.
  pub keys_lem :
      (ks : List ℕ) × (keys p r
        ≡ (types (get_sequence_type v.key_type) >>= λ type. new_object (sequence_alloc type ks)) r)
      × ((k : ℕ) → occurs k ks ≡ is_some (find k m))
      × (assoc_size p r ≡ ok (length ks, r))
  unfolding keys assoc_size
  keys_lem = (
    key_list m,
    rw (load_assoc-ok v, get_key_type-ok v),
    λ k. occurs-key_list k m,
    rw (load_assoc-ok v) (ap (λ n. ok (n, r)) (sym (length-key_list m))),
  )
