-- ===== src/Types/WellFormed.antt =====
-- The invariant of the registry of types: each table's entry leads to a type of that description.
use memoir_cs397_atc.Prelude.{
  is_some, true, ◌∷◌, ◌==◌, ◌&&◌, if◌then◌else◌, [], ℕ, ◌≤◌, ◌<◌, ◌≡◌, refl, Bool, Option, none,
  some, List, arith, length, replicate, nat_eq, bool_eq,
}
use memoir_cs397_atc.Std.Map.{find, assign, find-assign}
use memoir_cs397_atc.Types.{
  set_fields, TypeInfo, struct_type, tensor_type, assoc_array_type, sequence_type, integer_type,
  reference_type, Registry, update, new_type, find_tensor, find_static_tensor, find_integer,
  make_tensor_type, unknown_length, widths, lengths_beq,
}

abbrev pub Exists : (ℕ → Option TypeInfo) → ℕ → Type 0
Exists info a = is_some (info a) ≡ true

abbrev pub AllExist : (ℕ → Option TypeInfo) → List ℕ → Type 0
AllExist info [] = Unit {0}
AllExist info (t ∷ ts) = Exists info t × AllExist info ts

-- What a type object refers to exists. It is older than the type object, but for the fields of a
-- struct, which are set later; and a tensor type has as many lengths as dimensions.
abbrev pub Refers : (ℕ → Option TypeInfo) → ℕ → TypeInfo → Type 0
Refers info a (struct_type name fields) = AllExist info fields
Refers info a (assoc_array_type k v) = (k < a) × (v < a) × Exists info k × Exists info v
Refers info a (sequence_type e) = (e < a) × Exists info e
Refers info a (tensor_type e n s ls) = (e < a) × (length ls ≡ n) × Exists info e
Refers info a (reference_type t) = (t < a) × Exists info t
Refers info a other = Unit {0}

pub AllExist-mono :
    (f g : ℕ → Option TypeInfo)
    → ((a : ℕ) → Exists f a → Exists g a)
    → (ts : List ℕ) → AllExist f ts
    → AllExist g ts
AllExist-mono f g keep [] h = tt
AllExist-mono f g keep (t ∷ ts) h = (keep t h.0, AllExist-mono f g keep ts h.1)

pub Refers-mono :
    (f g : ℕ → Option TypeInfo)
    → ((a : ℕ) → Exists f a → Exists g a)
    → (a : ℕ) (t : TypeInfo) → Refers f a t
    → Refers g a t
Refers-mono f g keep a (struct_type name fields) h = AllExist-mono f g keep fields h
Refers-mono f g keep a (assoc_array_type k v) h = (h.0, h.1, keep k h.2, keep v h.3)
Refers-mono f g keep a (sequence_type e) h = (h.0, keep e h.1)
Refers-mono f g keep a (tensor_type e n s ls) h = (h.0, h.1, keep e h.2)
Refers-mono f g keep a (reference_type t) h = (h.0, keep t h.1)
Refers-mono f g keep a (integer_type w s) h = tt
Refers-mono f g keep a other h = tt

-- The name of a struct type.
abbrev pub struct_name : Option TypeInfo → Option ℕ
struct_name (some (struct_type name fields)) = some name
struct_name other = none

pub record IsRegistry (r : Registry) : Type 0 where
  pub null : r.info 0 ≡ none
  pub positive : 0 < r.next
  pub fresh : (a : ℕ) → r.next ≤ a → r.info a ≡ none
  pub older : (a : ℕ) (t : TypeInfo) → r.info a ≡ some t → Refers r.info a t
  pub structs :
      (name t : ℕ) → find name r.struct_types ≡ some t → struct_name (r.info t) ≡ some name
  pub tensors :
      (e n t : ℕ)
      → find_tensor e n r.tensor_types ≡ some t
      → r.info t ≡ some (make_tensor_type e n (replicate n unknown_length))
  pub static_tensors :
      (e n : ℕ) (ls : List ℕ) (t : ℕ)
      → find_static_tensor e n ls r.static_tensor_types ≡ some t
      → r.info t ≡ some (make_tensor_type e n ls)
  pub sequences : (e t : ℕ) → find e r.sequence_types ≡ some t → r.info t ≡ some (sequence_type e)
  pub integers :
      (w : ℕ) (s : Bool) (t : ℕ)
      → find_integer w s r.integer_types ≡ some t
      → r.info t ≡ some (integer_type w s)

pub lengths_beq-eq : (xs ys : List ℕ) → lengths_beq xs ys ≡ true → xs ≡ ys
unfolding lengths_beq
lengths_beq-eq [] [] h = refl
lengths_beq-eq [] (y ∷ ys) h = cc
lengths_beq-eq (x ∷ xs) [] h = cc
lengths_beq-eq (x ∷ xs) (y ∷ ys) h = ground (arith, lengths_beq-eq xs ys)

pub find_integer-assign :
    (w w' : ℕ) (s s' : Bool) (t : ℕ) (m : List (ℕ × List (Bool × ℕ)))
    → find_integer w' s' (assign w (assign s t (widths w m)) m)
      ≡ (if (w == w') && bool_eq.beq s s' then some t else find_integer w' s' m)
unfolding find_integer
find_integer-assign w w' s s' t m =
    ground (arith, find-assign w w' (assign s t (widths w m)) m, find-assign s s' t (widths w m))

pub Exists-below : {r : Registry} → IsRegistry r → (a : ℕ) → Exists r.info a → a < r.next
Exists-below v a h = ground (arith, v.fresh a)

module _ {r : Registry} (v : IsRegistry r) (t : TypeInfo) where
  pub update-keeps : (a : ℕ) (u : TypeInfo) → r.info a ≡ some u → update r.info r.next t a ≡ some u
  update-keeps a u h = ground (arith, v.fresh a)

  pub update-Exists : (a : ℕ) → Exists r.info a → Exists (update r.info r.next t) a
  update-Exists a h = ground (arith, v.fresh a)

  -- A new type object leaves every table as good as it was.
  pub new_type-IsRegistry : Refers r.info r.next t → IsRegistry (new_type t r).1
  new_type-IsRegistry h = record {
    null = ground (arith, v.null, v.positive);
    positive = omega arith;
    fresh = λ a k. ground (arith, v.fresh a);
    older = λ a u k.
        ground (arith, v.older a u, Refers-mono r.info (update r.info r.next t) update-Exists a u);
    structs = λ name a k. ground (arith, v.structs name a k, v.fresh a);
    tensors = λ e n a k. update-keeps a _ (v.tensors e n a k);
    static_tensors = λ e n ls a k. update-keeps a _ (v.static_tensors e n ls a k);
    sequences = λ e a k. update-keeps a _ (v.sequences e a k);
    integers = λ w s a k. update-keeps a _ (v.integers w s a k);
  }

module _ {r : Registry} (v : IsRegistry r) where
  set_fields-Exists :
      (t name : ℕ) (fields : List ℕ) (a : ℕ)
      → Exists r.info a
      → Exists (set_fields t name fields r).info a
  unfolding set_fields
  set_fields-Exists t name fields a h = ground arith

  pub set_fields-IsRegistry :
      (t name : ℕ) (fields : List ℕ)
      → struct_name (r.info t) ≡ some name
      → AllExist r.info fields
      → IsRegistry (set_fields t name fields r)
  unfolding set_fields make_tensor_type
  set_fields-IsRegistry t name fields h there = record {
    null = ground (arith, v.null);
    positive = v.positive;
    fresh = λ a k. ground (arith, v.fresh a);
    older = λ a u k. ground (
      arith,
      v.older a u,
      Refers-mono r.info (update r.info t (struct_type name fields))
          (set_fields-Exists t name fields) a u,
    );
    structs = λ name' a k. ground (arith, v.structs name' a k, v.structs name' t);
    tensors = λ e n a k. ground (arith, v.tensors e n a k);
    static_tensors = λ e n ls a k. ground (arith, v.static_tensors e n ls a k);
    sequences = λ e a k. ground (arith, v.sequences e a k);
    integers = λ w s a k. ground (arith, v.integers w s a k);
  }
