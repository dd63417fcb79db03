-- ===== src/Init/Length.antt =====
-- How many elements `init_elements` of runtime/src/detail/elements.cpp returns.
use memoir_cs397_atc.Prelude.{
  ℕ, zero, suc, ◌^◌, ◌≡◌, refl, sym, ◌∙◌, Option, none, some, List, ◌∷◌, arith, length, ltb,
}
use memoir_cs397_atc.Result.{
  Result, ok, assert_failed, thrown, undefined, out_of_fuel, assert, require,
}
use memoir_cs397_atc.Types.{TypeInfo, struct_type, tensor_type, assoc_array_type, sequence_type}
use memoir_cs397_atc.Objects.{Runtime, Cmd, and_then, pure, ◌>>=◌, lift}
use memoir_cs397_atc.Sequence.Iterators.{check_size}
use memoir_cs397_atc.Init.{repeat, init_list, init_elements, new_struct, new_tensor, new_sequence}

-- What code that ends returns a list of that length.
abbrev pub Returns : ℕ → Cmd (List ℕ) → Type 0
Returns n m = (r : Runtime) (xs : List ℕ) (r' : Runtime) → m r ≡ ok (xs, r') → length xs ≡ n

-- Code that ends has ended in each of its parts.
and_then-ok :
    {A B : Type 0} (q : Result (A × Runtime)) (k : A → Cmd B) (b : B) (r' : Runtime)
    → and_then q k ≡ ok (b, r')
    → (a : A) × (s : Runtime) × (k a s ≡ ok (b, r'))
and_then-ok (ok (a, s)) k b r' h = (a, s, h)
and_then-ok assert_failed k b r' h = cc
and_then-ok thrown k b r' h = cc
and_then-ok undefined k b r' h = cc
and_then-ok out_of_fuel k b r' h = cc

Returns-bind :
    {A : Type 0} (n : ℕ) (m : Cmd A) (k : A → Cmd (List ℕ))
    → ((a : A) → Returns n (k a))
    → Returns n (m >>= k)
Returns-bind n m k each r xs r' h =
    let (a, s, h') = and_then-ok (m r) k xs r' h in each a s xs r' h'

repeat-Returns : (n : ℕ) (m : Cmd ℕ) → Returns n (repeat n m)
unfolding repeat
repeat-Returns zero m r xs r' h = ground arith
repeat-Returns (suc n) m r xs r' h =
    let (x, s, h') = and_then-ok (m r) (λ x. repeat n m >>= λ xs. pure (x ∷ xs)) xs r' h in
    after s x (repeat n m s) (λ ys s'. repeat-Returns n m s ys s') h'
  where
    after :
        (s : Runtime) (x : ℕ) (q : Result (List ℕ × Runtime))
        → ((ys : List ℕ) (s' : Runtime) → q ≡ ok (ys, s') → length ys ≡ n)
        → and_then q (λ ys. pure (x ∷ ys)) ≡ ok (xs, r')
        → length xs ≡ suc n
    after s x (ok (ys, s')) ih h = ground (arith, ih ys s' refl)
    after s x assert_failed ih h = cc
    after s x thrown ih h = cc
    after s x undefined ih h = cc
    after s x out_of_fuel ih h = cc

init_list-Returns : (n : ℕ) (m : Cmd ℕ) → Returns n (init_list n m)
unfolding init_list
init_list-Returns n m =
    Returns-bind n (lift (check_size n)) _
      λ _. Returns-bind n (lift (require (ltb n (2 ^ 31)))) _ λ _. repeat-Returns n m

-- What runs is code that returns a list of that length, or that does not return.
same-Returns :
    (n : ℕ) (m : Cmd (List ℕ)) (r : Runtime) (q : Result (List ℕ × Runtime)) (xs : List ℕ)
    (r' : Runtime)
    → Returns n m
    → q ≡ m r
    → q ≡ ok (xs, r')
    → length xs ≡ n
same-Returns n m r q xs r' each same h = each r xs r' (sym same ∙ h)

module _ (fuel t num : ℕ) (r : Runtime) (xs : List ℕ) (r' : Runtime)
    (h : init_elements (suc fuel) t num r ≡ ok (xs, r')) where
  by_class : (u : Option TypeInfo) → r.registry.info t ≡ u → length xs ≡ num
  unfolding init_elements
  by_class none known = let e : init_elements (suc fuel) t num r ≡ undefined = rw known in cc
  by_class (some (struct_type name fields)) known =
      same-Returns num (init_list num (new_struct fuel t)) r _ xs r' (init_list-Returns num _)
        (rw known) h
  by_class (some (tensor_type e d is_static ls)) known =
      same-Returns num (lift (assert is_static) >>= λ _. init_list num (new_tensor fuel t ls)) r _
        xs r' (Returns-bind num (lift (assert is_static)) _ (λ _. init_list-Returns num _))
        (rw known) h
  by_class (some (sequence_type e)) known =
      same-Returns num (init_list num (new_sequence fuel t 0)) r _ xs r' (init_list-Returns num _)
        (rw known) h
  by_class (some (assoc_array_type k v)) known =
      same-Returns num (lift assert_failed) r _ xs r' (λ s ys s' e. cc) (rw known) h
  by_class (some u) known =
      same-Returns num (init_list num (pure 0)) r _ xs r' (init_list-Returns num _) (rw known) h

-- Where `init_elements` returns, it returns as many elements as were asked for.
pub init_elements-length : (fuel t num : ℕ) → Returns num (init_elements fuel t num)
unfolding init_elements
init_elements-length zero t num r xs r' h = cc
init_elements-length (suc fuel) t num r xs r' h =
    by_class fuel t num r xs r' h (r.registry.info t) refl
