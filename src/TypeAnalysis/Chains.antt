-- ===== src/TypeAnalysis/Chains.antt =====
-- A value gets the type of the value from which it comes through instructions that forward a type.
use memoir_cs397_atc.Prelude.{
  ℕ, suc, true, false, Option, none, some, List, [], ◌≡◌, refl, ap, nat_eq,
}
use memoir_cs397_atc.Std.Map.{find, assign}
use memoir_cs397_atc.Std.Sets.{contains, insert}
use memoir_cs397_atc.Result.{ok}
use memoir_cs397_atc.TypeAnalysis.{
  forwarding_inst, Program, Analysis, Query, ◌>>=◌, find_existing, been_visited, mark_visited,
  check_memoized, memoize, memoize_and_return, forget_visits,
}
use memoir_cs397_atc.TypeAnalysis.Visits.{visit_forwarding_inst}
use memoir_cs397_atc.TypeAnalysis.Queries.{visit, or_else, type_of_value, get_type_helper, get_type}
use memoir_cs397_atc.TypeAnalysis.Again.{is_remembered, type_of_value-existing}

-- The value comes from one with type `t` in the table, by forwarding instructions that were not
-- visited and are no more than the last number.
pub data Comes (program : Program) (table : List (ℕ × Option ℕ)) (t : ℕ)
    : List ℕ → ℕ → ℕ → Type 0 where
  known :
      {visited : List ℕ} {v d : ℕ}
      → is_remembered (program.inst v) ≡ true
      → find v table ≡ some (some t)
      → Comes program table t visited v (suc d)
  forwarded :
      {visited : List ℕ} {v o d : ℕ}
      → program.inst v ≡ forwarding_inst o
      → find v table ≡ none
      → contains visited v ≡ false
      → Comes program table t (insert v visited) o d
      → Comes program table t visited v (suc d)

found-existing :
    (v t : ℕ) (s : Analysis) → find v s.value_to_type ≡ some (some t) → find_existing v s ≡ some t
unfolding find_existing
found-existing v t s at = rw (at, find_existing) refl

-- A visit of a forwarding instruction whose operand has a type.
forwarding-Returns :
    (type_of analyze : ℕ → Query (Option ℕ)) (v o t : ℕ) (s s' : Analysis)
    → find v s.value_to_type ≡ none
    → contains s.visited v ≡ false
    → type_of o (mark_visited v s) ≡ ok (some t, s')
    → (s'' : Analysis) × (visit_forwarding_inst type_of analyze v o s ≡ ok (some t, s''))
unfolding visit_forwarding_inst check_memoized find_existing been_visited memoize_and_return memoize
    ◌>>=◌
forwarding-Returns type_of analyze v o t s s' new first found = (
  record s' { value_to_type = assign v (some t) s'.value_to_type },
  rw (new, check_memoized) (rw (first, check_memoized) (rw found refl)),
)

-- The value of a forwarding instruction.
forwarded-Returns :
    (program : Program) (type_of analyze : ℕ → Query (Option ℕ)) (v o t : ℕ) (s s' : Analysis)
    → program.inst v ≡ forwarding_inst o
    → find v s.value_to_type ≡ none
    → contains s.visited v ≡ false
    → type_of o (mark_visited v s) ≡ ok (some t, s')
    → (s'' : Analysis) × (type_of_value program type_of analyze v s ≡ ok (some t, s''))
unfolding type_of_value visit or_else ◌>>=◌
forwarded-Returns program type_of analyze v o t s s' at new first found =
    let (s'', ends) = forwarding-Returns type_of analyze v o t s s' new first found in
    (s'', rw at (rw ends refl))

Comes-Returns :
    {program : Program} {table : List (ℕ × Option ℕ)} {t v d : ℕ} {visited : List ℕ}
    → Comes program table t visited v d
    → (s : Analysis) → s.value_to_type ≡ table
    → s.visited ≡ visited
    → (s' : Analysis) × (get_type_helper program d v s ≡ ok (some t, s'))
unfolding get_type_helper mark_visited
Comes-Returns {program} {t = t} (known {v = v} {d = d} h at) s same seen = (
  s,
  type_of_value-existing program (get_type_helper program d)
      (λ u s1. get_type_helper program d u (forget_visits s1)) v t s h
      (found-existing v t s (rw same at)),
)
Comes-Returns {program} {t = t} (forwarded {v = v} {o = o} {d = d} at new first rest) s same seen =
    let (s', ends) = Comes-Returns rest (mark_visited v s) same (ap (insert v) seen) in
    forwarded-Returns program (get_type_helper program d)
      (λ u s1. get_type_helper program d u (forget_visits s1)) v o t s s' at (rw same new)
      (rw seen first) ends

-- A value that comes by instructions which forward the type of an operand, none of them met twice
-- or entered in the table, from a value whose visit looks at the table and finds a type there,
-- gets that type: a query ends with it on fuel for one step more than there are such instructions.
pub get_type-Returns :
    (program : Program) (t v d : ℕ) (s : Analysis)
    → Comes program s.value_to_type t [] v d
    → (s' : Analysis) × (get_type program d v s ≡ ok (some t, s'))
unfolding get_type forget_visits
get_type-Returns program t v d s comes = Comes-Returns comes (forget_visits s) refl refl
