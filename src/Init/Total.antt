-- ===== src/Init/Total.antt =====
-- Types of which an object can be made, and how much fuel that takes.
use memoir_cs397_atc.Prelude.{
  ℕ, zero, suc, ◌+◌, ◌-◌, ◌^◌, ◌<◌, ◌≡◌, ◌⊎◌, inl, inr, refl, ap, sym, subst, ltb, true, Option,
  none, some, List, [], arith, ltb-true,
}
use memoir_cs397_atc.Result.{ok, assert}
use memoir_cs397_atc.Types.{
  TypeInfo, struct_type, tensor_type, assoc_array_type, sequence_type, Registry,
}
use memoir_cs397_atc.Objects.{
  Runtime, Cmd, pure, struct_object, tensor_object, assoc_array_object, sequence_alloc,
}
use memoir_cs397_atc.Tensor.Index.{flattened_length}
use memoir_cs397_atc.Init.{
  init_fields, new_assoc_array, new_struct, new_tensor, new_sequence, init_elements, init_element,
}
use memoir_cs397_atc.Init.Builds.{
  All, Grows, Builds, Builds-pure, Builds-bind, Builds-new, Builds-info, Builds-lift, Builds-list,
  Builds-fields,
}

module _ (g : Registry) where
  -- What a type that contains types of depth below `n` needs: `made` says of which types an object
  -- is made within that depth.
  module _ (made : ℕ → Type 0) where
    -- As a field of a struct, by `init_element`.
    abbrev pub FieldOf : Option TypeInfo → ℕ → Type 0
    FieldOf none t = ⊥
    FieldOf (some (struct_type name fields)) t = made t
    FieldOf (some (tensor_type e d is_static ls)) t = (is_static ≡ true) × made t
    FieldOf (some (sequence_type e)) t = made t
    FieldOf (some u) t = Unit {0}

    -- As `num` elements, by `init_elements`: an associative array cannot be one.
    abbrev pub ElementsOf : Option TypeInfo → ℕ → ℕ → Type 0
    ElementsOf none t num = ⊥
    ElementsOf (some (struct_type name fields)) t num = (num ≡ 0) ⊎ made t
    ElementsOf (some (tensor_type e d is_static ls)) t num =
        (is_static ≡ true) × ((num ≡ 0) ⊎ made t)
    ElementsOf (some (assoc_array_type k v)) t num = ⊥
    ElementsOf (some (sequence_type e)) t num = (num ≡ 0) ⊎ made t
    ElementsOf (some u) t num = Unit {0}

    -- As an object by itself; a tensor of the lengths of its type, a sequence of no elements.
    abbrev pub ObjectOf : Option TypeInfo → Type 0
    ObjectOf (some (struct_type name fields)) = All (λ t. FieldOf (g.info t) t) fields
    ObjectOf (some (tensor_type e d is_static ls)) =
        (0 < d) × (n : ℕ) × (flattened_length ls ≡ ok n) × (n < 2 ^ 31) × ElementsOf (g.info e) e n
    ObjectOf (some (sequence_type e)) = ElementsOf (g.info e) e 0
    ObjectOf u = ⊥

  -- An object of type `t` is made within `n` levels of types.
  abbrev pub Made : ℕ → ℕ → Type 0
  Made zero t = ⊥
  Made (suc n) t = ObjectOf (Made n) (g.info t)

  -- `new` of the class of a type.
  abbrev object_of : ℕ → Option TypeInfo → ℕ → Cmd ℕ
  object_of fuel (some (struct_type name fields)) t = new_struct fuel t
  object_of fuel (some (tensor_type e d is_static ls)) t = new_tensor fuel t ls
  object_of fuel (some (sequence_type e)) t = new_sequence fuel t 0
  object_of fuel u t = pure 0

  module _ (made : ℕ → Type 0) (fuel : ℕ)
      (nested : (t : ℕ) → made t → Builds g (object_of fuel (g.info t) t)) where
    -- The same at a type whose description is known.
    nested_at :
        (t : ℕ) (i : Option TypeInfo) → g.info t ≡ i → made t → Builds g (object_of fuel i t)
    nested_at t i known h = subst (λ i. Builds g (object_of fuel i t)) known (nested t h)

    Builds-field :
        (t : ℕ) (i : Option TypeInfo)
        → g.info t ≡ i
        → FieldOf made i t
        → Builds g (init_element (suc fuel) t)
    unfolding init_element new_assoc_array
    Builds-field t none known h = absurd h
    Builds-field t (some (struct_type name fields)) known h =
        Builds-info g t _ _ known (nested_at t _ known h)
    Builds-field t (some (tensor_type e d is_static ls)) known h =
        Builds-info g t _ _ known
          (Builds-lift g (assert is_static) tt _ (ap assert h.0) (nested_at t _ known h.1))
    Builds-field t (some (sequence_type e)) known h =
        Builds-info g t _ _ known (nested_at t _ known h)
    Builds-field t (some (assoc_array_type k v)) known h =
        Builds-info g t _ _ known
          (Builds-info g t _ _ known (Builds-new g (assoc_array_object t [])))
    Builds-field t (some u) known h = Builds-info g t _ _ known (Builds-pure g 0)

    Builds-either :
        (t num : ℕ) (i : Option TypeInfo)
        → g.info t ≡ i
        → (num ≡ 0) ⊎ made t
        → (num ≡ 0) ⊎ Builds g (object_of fuel i t)
    Builds-either t num i known (inl e) = inl e
    Builds-either t num i known (inr h) = inr (nested_at t i known h)

    Builds-elements :
        (t num : ℕ) (i : Option TypeInfo)
        → g.info t ≡ i
        → num < 2 ^ 31
        → ElementsOf made i t num
        → Builds g (init_elements (suc fuel) t num)
    unfolding init_elements
    Builds-elements t num none known small h = absurd h
    Builds-elements t num (some (struct_type name fields)) known small h =
        Builds-info g t _ _ known (Builds-list g num _ small (Builds-either t num _ known h))
    Builds-elements t num (some (tensor_type e d is_static ls)) known small h =
        Builds-info g t _ _ known (
          Builds-lift g (assert is_static) tt _ (ap assert h.0)
            (Builds-list g num _ small (Builds-either t num _ known h.1)))
    Builds-elements t num (some (sequence_type e)) known small h =
        Builds-info g t _ _ known (Builds-list g num _ small (Builds-either t num _ known h))
    Builds-elements t num (some (assoc_array_type k v)) known small h = absurd h
    Builds-elements t num (some u) known small h =
        Builds-info g t _ _ known (Builds-list g num _ small (inr (Builds-pure g 0)))

    Builds-object :
        (t : ℕ) (i : Option TypeInfo)
        → g.info t ≡ i
        → ObjectOf made i
        → Builds g (object_of (suc (suc fuel)) i t)
    unfolding new_struct new_tensor new_sequence
    Builds-object t none known h = absurd h
    Builds-object t (some (struct_type name fields)) known h = Builds-info g t _ _ known (
        Builds-bind g (init_fields (init_element (suc fuel)) fields) _
          (Builds-fields g (init_element (suc fuel)) (λ u. FieldOf made (g.info u) u)
            (λ u k. Builds-field u (g.info u) refl k) fields h)
          λ xs. Builds-new g (struct_object t xs))
    Builds-object t (some (tensor_type e d is_static ls)) known (positive, n, flat, small, h) =
        Builds-info g t _ _ known (
          Builds-lift g (assert (ltb 0 d)) tt _ (ap assert (ltb-true 0 d positive)) (
            Builds-lift g (flattened_length ls) n _ flat (
              Builds-bind g (init_elements (suc fuel) e n) _
                (Builds-elements e n (g.info e) refl small h)
                λ xs. Builds-new g (tensor_object t xs ls))))
    Builds-object t (some (sequence_type e)) known h = Builds-info g t _ _ known (
        Builds-bind g (init_elements (suc fuel) e 0) _
          (Builds-elements e 0 (g.info e) refl (omega arith) h)
          λ xs. Builds-new g (sequence_alloc t xs))
    Builds-object t (some u) known h = absurd h

  -- Two more calls for each level of types.
  abbrev deepen : ℕ → ℕ → ℕ
  deepen zero k = k
  deepen (suc n) k = suc (suc (deepen n k))

  Builds-Made : (n k t : ℕ) → Made n t → Builds g (object_of (deepen n k) (g.info t) t)
  Builds-Made zero k t h = absurd h
  Builds-Made (suc n) k t h =
      Builds-object (Made n) (deepen n k) (Builds-Made n k) t (g.info t) refl h

  deepen-add : (n k : ℕ) → deepen n k ≡ n + n + k
  deepen-add zero k = omega arith
  deepen-add (suc n) k = omega (arith, deepen-add n k)

  fuel-deepen : (n fuel : ℕ) → n + n < fuel → fuel ≡ suc (deepen n (fuel - 1 - n - n))
  fuel-deepen n fuel h = omega (arith, deepen-add n (fuel - 1 - n - n))

module _ (r : Runtime) (n fuel t : ℕ) (enough : n + n < fuel) where
  -- For a type that needs objects within n levels of types, with every tensor of known lengths and
  -- no associative array as an element, fuel above 2 n is enough for `init_element` to return a
  -- value, and it only adds objects.
  pub init_element-total :
      FieldOf r.registry (Made r.registry n) (r.registry.info t) t
      → (p : ℕ) × (r' : Runtime) × (init_element fuel t r ≡ ok (p, r')) × Grows r r'
  init_element-total h =
      let g = r.registry in
      subst (λ f. (p : ℕ) × (r' : Runtime) × (init_element f t r ≡ ok (p, r')) × Grows r r')
        (sym (fuel-deepen g n fuel enough))
        (Builds-field g (Made g n) (deepen g n (fuel - 1 - n - n))
          (Builds-Made g n (fuel - 1 - n - n)) t (g.info t) refl h r refl)

  -- For less than 2^31 elements of a type that needs objects within n levels of types, with every
  -- tensor of known lengths and no associative array as an element, fuel above 2 n is enough for
  -- `init_elements` to return them, and it only adds objects.
  pub init_elements-total :
      (num : ℕ)
      → num < 2 ^ 31
      → ElementsOf r.registry (Made r.registry n) (r.registry.info t) t num
      → (xs : List ℕ) × (r' : Runtime) × (init_elements fuel t num r ≡ ok (xs, r')) × Grows r r'
  init_elements-total num small h =
      let g = r.registry in
      subst
        (λ f. (xs : List ℕ) × (r' : Runtime) × (init_elements f t num r ≡ ok (xs, r')) × Grows r r')
        (sym (fuel-deepen g n fuel enough))
        (Builds-elements g (Made g n) (deepen g n (fuel - 1 - n - n))
          (Builds-Made g n (fuel - 1 - n - n)) t num (g.info t) refl small h r refl)
