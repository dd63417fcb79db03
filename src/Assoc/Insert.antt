-- ===== src/Assoc/Insert.antt =====
-- `AssocArray::get_element` of a key that is not there.
use memoir_cs397_atc.Prelude.{ℕ, ◌+◌, ◌<◌, ◌≡◌, ap, ◌∙◌, none, List, nat_eq}
use memoir_cs397_atc.Std.Map.{find, assign}
use memoir_cs397_atc.Result.{ok}
use memoir_cs397_atc.Types.{TypeInfo, Registry}
use memoir_cs397_atc.Objects.{Runtime}
use memoir_cs397_atc.Init.Builds.{Grows}
use memoir_cs397_atc.Init.Total.{FieldOf, Made, init_element-total}
use memoir_cs397_atc.Assoc.{Argument, Floats, key_of, get_element, found_or_new}
use memoir_cs397_atc.Assoc.Laws.{IsAssoc, with_map, load_assoc-ok, get_value_type-ok, read_key-ok}

module _ {r : Runtime} {p t : ℕ} {m : List (ℕ × ℕ)} {u : TypeInfo} (v : IsAssoc r p t m u) where
  -- The map is as it was when only new objects are made.
  Grows-IsAssoc : {s : Runtime} → Grows r s → p < r.next_object → IsAssoc s p t m u
  Grows-IsAssoc g below = record {
    not_null = v.not_null;
    holds = g.keeps p below ∙ v.holds;
    key_type = v.key_type;
    value_type = v.value_type;
    typed = ap (λ (h : Registry). h.info t) g.registry ∙ v.typed;
    key_typed = ap (λ (h : Registry). h.info v.key_type) g.registry ∙ v.key_typed;
  }

  -- A read of a missing key, if a value of the value type can be made and the fuel is more than
  -- twice the depth of types, ends, adds the key with the initial value and returns that value.
  pub get_element-missing :
      (floats : Floats) (a : Argument) (n fuel : ℕ) {key : ℕ}
      → key_of floats u a ≡ ok key
      → find key m ≡ none
      → p < r.next_object
      → n + n < fuel
      → FieldOf r.registry (Made r.registry n) (r.registry.info v.value_type) v.value_type
      → (x : ℕ) × (s : Runtime) × Grows r s
        × (get_element floats fuel p a r ≡ ok (x, with_map s p t (assign key x m)))
  unfolding get_element found_or_new
  get_element-missing floats a n fuel reads missing below enough made =
      let (x, s, done, grows) = init_element-total r n fuel v.value_type enough made in
      (
        x,
        s,
        grows,
        rw (
          read_key-ok v floats a reads,
          load_assoc-ok v,
          missing,
          get_value_type-ok v,
          done,
          load_assoc-ok (Grows-IsAssoc grows below),
        ),
      )
