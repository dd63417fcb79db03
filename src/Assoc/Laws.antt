-- ===== src/Assoc/Laws.antt =====
-- What the methods of an associative array do to its map.
use memoir_cs397_atc.Prelude.{
  ℕ, ◌≡◌, ◌≢◌, refl, ap, ◌∙◌, true, false, some, List, if◌then◌else◌, ◌==◌, arith, is_some, nat_eq,
  ==-false, ==-true, Bool-cases, inl, inr, ◌&&◌,
}
use memoir_cs397_atc.Std.Map.{find, assign, erase, find-assign, find-erase}
use memoir_cs397_atc.Result.{ok}
use memoir_cs397_atc.Types.{TypeInfo, assoc_array_type, update}
use memoir_cs397_atc.Objects.{assoc_array_object, Runtime, load}
use memoir_cs397_atc.Assoc.{
  Argument, Floats, key_of, load_assoc, get_key_type, get_value_type, read_key, get_element,
  found_or_new, set_element, has_element, remove_element, is_integer,
}

-- The object at `p` is an associative array with that map, and `a` is an argument that is read as
-- the key `key`.
pub record IsAssoc (r : Runtime) (p t : ℕ) (m : List (ℕ × ℕ)) (u : TypeInfo) : Type 0 where
  pub not_null : p ≢ 0
  pub holds : r.objects p ≡ some (assoc_array_object t m)
  pub key_type : ℕ
  pub value_type : ℕ
  pub typed : r.registry.info t ≡ some (assoc_array_type key_type value_type)
  pub key_typed : r.registry.info key_type ≡ some u

-- The runtime in which the map is another one.
abbrev pub with_map : Runtime → ℕ → ℕ → List (ℕ × ℕ) → Runtime
with_map r p t m = record r { objects = update r.objects p (assoc_array_object t m) }

module _ {r : Runtime} {p t : ℕ} {m : List (ℕ × ℕ)} {u : TypeInfo} (v : IsAssoc r p t m u) where
  pub load_assoc-ok : load_assoc p r ≡ ok ((t, m), r)
  unfolding load_assoc load
  load_assoc-ok = rw (==-false p 0 v.not_null, v.holds)

  pub get_key_type-ok : get_key_type p r ≡ ok (v.key_type, r)
  unfolding get_key_type
  get_key_type-ok = rw (load_assoc-ok, v.typed)

  pub get_value_type-ok : get_value_type p r ≡ ok (v.value_type, r)
  unfolding get_value_type
  get_value_type-ok = rw (load_assoc-ok, v.typed)

  pub with_map-IsAssoc : (n : List (ℕ × ℕ)) → IsAssoc (with_map r p t n) p t n u
  with_map-IsAssoc n = record {
    not_null = v.not_null;
    holds = ground arith;
    key_type = v.key_type;
    value_type = v.value_type;
    typed = v.typed;
    key_typed = v.key_typed;
  }

  module _ (floats : Floats) (a : Argument) {key : ℕ} (reads : key_of floats u a ≡ ok key) where
    pub read_key-ok : read_key floats p a r ≡ ok (key, r)
    unfolding read_key
    read_key-ok = rw (get_key_type-ok, v.key_typed, reads)

    pub has_element-ok : has_element floats p a r ≡ ok (is_some (find key m), r)
    unfolding has_element
    has_element-ok = rw (read_key-ok, load_assoc-ok)

    pub set_element-ok :
        (value : ℕ) → set_element floats value p a r ≡ ok (tt, with_map r p t (assign key value m))
    unfolding set_element
    set_element-ok value = rw (read_key-ok, load_assoc-ok)

    pub get_element-present :
        (fuel x : ℕ) → find key m ≡ some x → get_element floats fuel p a r ≡ ok (x, r)
    unfolding get_element found_or_new
    get_element-present fuel x found = rw (read_key-ok, load_assoc-ok, found)

    pub remove_element-integer :
        is_integer u ≡ true → remove_element floats p a r ≡ ok (tt, with_map r p t (erase key m))
    unfolding remove_element
    remove_element-integer integer =
        rw (get_key_type-ok, v.key_typed, reads, load_assoc-ok, integer)

    remove_element-other : is_integer u ≡ false → remove_element floats p a r ≡ ok (tt, r)
    unfolding remove_element
    remove_element-other other = rw (get_key_type-ok, v.key_typed, reads, load_assoc-ok, other)

module _ {r : Runtime} {p t : ℕ} {m : List (ℕ × ℕ)} {u : TypeInfo} (v : IsAssoc r p t m u)
    (floats : Floats) (a b : Argument) {key other : ℕ} (reads : key_of floats u a ≡ ok key)
    (reads_other : key_of floats u b ≡ ok other) where
  -- After a write under a key of an associative array, a read of the key returns the value and
  -- makes nothing new, and a key is there exactly if it was or is the key written.
  pub set_element-get :
      (value fuel : ℕ)
      → let r' = with_map r p t (assign key value m) in
        (set_element floats value p a r ≡ ok (tt, r'))
        × (get_element floats fuel p a r' ≡ ok (value, r'))
        × (has_element floats p b r'
            ≡ ok (if key == other then true else is_some (find other m), r'))
  set_element-get value fuel =
      let w = with_map-IsAssoc v (assign key value m) in
      (
        set_element-ok v floats a reads value,
        get_element-present w floats a reads fuel value
            (find-assign key key value m ∙ rw (==-true key key refl)),
        has_element-ok w floats b reads_other
            ∙ ap (λ o. ok (o, with_map r p t (assign key value m)))
                (ap is_some (find-assign key other value m) ∙ ground arith),
      )

  -- A removal of a key from an associative array erases the key from its map where the keys are
  -- integers, and changes nothing where they are of another type; a key, the same one or another,
  -- is there afterwards exactly if it was, but for the removed key where the keys are integers.
  pub remove_element-has :
      let r' = if is_integer u then with_map r p t (erase key m) else r in
      (remove_element floats p a r ≡ ok (tt, r'))
      × (has_element floats p b r'
          ≡ ok (if is_integer u && (key == other) then false else is_some (find other m), r'))
  remove_element-has = elim (Bool-cases (is_integer u)) [
    | inl integer ↦ rw integer (
      remove_element-integer v floats a reads integer,
      has_element-ok (with_map-IsAssoc v (erase key m)) floats b reads_other
          ∙ ap (λ o. ok (o, with_map r p t (erase key m)))
              (ap is_some (find-erase key other m) ∙ ground arith),
    )
    | inr kept ↦
        rw kept (remove_element-other v floats a reads kept, has_element-ok v floats b reads_other)
  ]
