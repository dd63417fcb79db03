-- ===== src/Ssa/Keyed/Agree.antt =====
-- The operations on associative arrays that change one leave in it what the SSA operations return.
use memoir_cs397_atc.Prelude.{
  ℕ, suc, ◌<◌, ◌+◌, ◌≡◌, ap, true, none, List, [], ◌∷◌, arith, ==-false, nat_eq, Option,
}
use mathlib.Core.Path.{fun_ext}
use memoir_cs397_atc.Std.Map.{find, assign, erase}
use memoir_cs397_atc.Result.{ok}
use memoir_cs397_atc.Types.{TypeInfo, update}
use memoir_cs397_atc.Objects.{assoc_array_object, Runtime, new_object, store, load, access_check}
use memoir_cs397_atc.Init.{new_assoc_array}
use memoir_cs397_atc.Init.Builds.{Grows}
use memoir_cs397_atc.Init.Total.{FieldOf, Made}
use memoir_cs397_atc.Assoc.{Argument, Floats, key_of, is_integer}
use memoir_cs397_atc.Assoc.Laws.{IsAssoc, with_map, load_assoc-ok, remove_element-integer}
use memoir_cs397_atc.Assoc.Insert.{get_element-missing}
use memoir_cs397_atc.Collection.{first_argument, collection_remove}
use memoir_cs397_atc.Ssa.Keyed
use memoir_cs397_atc.Ssa.Keyed.{copy_assoc}
use memoir_cs397_atc.Mut.Keyed as Lowered

-- The last of two writes to an address is the one that counts.
update_again :
    {A : Type 0} (f : ℕ → Option A) (p : ℕ) (x y : A) → update (update f p x) p y ≡ update f p y
update_again f p x y = fun_ext λ q. ground arith

module _ {r : Runtime} {p t : ℕ} {m : List (ℕ × ℕ)} {u : TypeInfo} (v : IsAssoc r p t m u) where
  access_check_assoc : access_check p r ≡ ok (tt, r)
  unfolding access_check
  access_check_assoc = rw (==-false p 0 v.not_null)

  -- The runtime with a new array of that map.
  abbrev pub with_new : List (ℕ × ℕ) → Runtime
  with_new n = record r {
    objects = update r.objects r.next_object (assoc_array_object t n);
    next_object = suc r.next_object;
  }

  with_new-IsAssoc :
      (n : List (ℕ × ℕ)) → p < r.next_object → IsAssoc (with_new n) r.next_object t n u
  with_new-IsAssoc n below = record {
    not_null = λ e. omega arith;
    holds = ground arith;
    key_type = v.key_type;
    value_type = v.value_type;
    typed = v.typed;
    key_typed = v.key_typed;
  }

  with_new-again : (n o : List (ℕ × ℕ)) → with_map (with_new n) r.next_object t o ≡ with_new o
  with_new-again n o =
      ap (λ f. record r { objects = f; next_object = suc r.next_object })
        (update_again r.objects r.next_object (assoc_array_object t n) (assoc_array_object t o))

  copy_assoc-ok : copy_assoc p r ≡ ok (r.next_object, with_new m)
  unfolding copy_assoc new_assoc_array
  copy_assoc-ok =
      rw (load_assoc-ok v, v.typed) (ap (λ s. ok (r.next_object, s)) (with_new-again [] m))

  -- For an integer key, the SSA removal returns a new array with the pairs that the lowered
  -- removal leaves in the given one.
  pub assoc_remove-agrees :
      (floats : Floats) (a : Argument) {key : ℕ}
      → key_of floats u a ≡ ok key
      → is_integer u ≡ true
      → p < r.next_object
      → (Keyed.assoc_remove floats p a r ≡ new_object (assoc_array_object t (erase key m)) r)
        × (Lowered.assoc_remove floats p (a ∷ []) r
            ≡ store p (assoc_array_object t (erase key m)) r)
  unfolding Keyed.assoc_remove Lowered.assoc_remove collection_remove first_argument load
  assoc_remove-agrees floats a {key} reads integer below = (
    rw
        (
          access_check_assoc,
          copy_assoc-ok,
          remove_element-integer (with_new-IsAssoc m below) floats a reads integer,
        )
        (ap (λ s. ok (r.next_object, s)) (with_new-again m (erase key m))),
    rw (
      access_check_assoc,
      ==-false p 0 v.not_null,
      v.holds,
      remove_element-integer v floats a reads integer,
    ),
  )

  -- An SSA insertion of a missing key ends, if a value of the value type can be made and the fuel
  -- is more than twice the depth of types; it returns a new array with the pairs of the given one
  -- and the key added with the initial value, and leaves every older object as it was.
  pub assoc_insert-missing :
      (floats : Floats) (a : Argument) (n fuel : ℕ) {key : ℕ}
      → key_of floats u a ≡ ok key
      → find key m ≡ none
      → p < r.next_object
      → n + n < fuel
      → FieldOf r.registry (Made r.registry n) (r.registry.info v.value_type) v.value_type
      → (x : ℕ) × (s : Runtime) × Grows (with_new m) s
        × (Keyed.assoc_insert floats fuel p a r
            ≡ ok (r.next_object, with_map s r.next_object t (assign key x m)))
  unfolding Keyed.assoc_insert with_new-IsAssoc
  assoc_insert-missing floats a n fuel reads missing below enough made =
      let (x, s, grows, done) =
        get_element-missing (with_new-IsAssoc m below) floats a n fuel reads missing (omega arith)
          enough made in
      (x, s, grows, rw (access_check_assoc, copy_assoc-ok, done))
