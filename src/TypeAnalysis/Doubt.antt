-- ===== src/TypeAnalysis/Doubt.antt =====
-- Where the analysis finds no type though there is one: calls of function pointers, and PHI nodes once
-- the table was cleared.
use memoir_cs397_atc.Prelude.{
  ℕ, Bool, true, false, Option, none, some, List, [], ◌∷◌, ◌≡◌, ◌≢◌, refl, sym, ap, inl, inr,
  nat_eq, Bool-cases, if◌then◌else◌, ==-true, ◌==◌, subst,
}
use mathlib.Core.List.{Memᴰ}
use mathlib.Core.List.Memᴰ
use memoir_cs397_atc.Std.Sets.{contains, insert, contains_iff, insert-new}
use memoir_cs397_atc.Result.{ok}
use memoir_cs397_atc.TypeAnalysis.{
  Program, Analysis, Query, pure, ◌>>=◌, find_existing, been_visited, mark_visited, check_memoized,
  memoize, memoize_and_return, forget_visits, invalidate,
}
use memoir_cs397_atc.TypeAnalysis.Calls.{
  edge_eq, visit_indirect_call, types_of_edges, visit_incoming, add_edge_type, single_type,
  visit_phi_node,
}
use memoir_cs397_atc.TypeAnalysis.Memory.{bind-eq-ok}

-- A query that never finds a type.
abbrev FindsNothing : Query (Option ℕ) → Type 0
FindsNothing query = (s s' : Analysis) (t : Option ℕ) → query s ≡ ok (t, s') → t ≡ none

bind-FindsNothing :
    {A : Type 0} (m : Query A) (f : A → Query (Option ℕ))
    → ((a : A) → FindsNothing (f a))
    → FindsNothing (m >>= f)
unfolding ◌>>=◌
bind-FindsNothing m f nothing s s' t h =
    let (a, s1, _, rest) = bind-eq-ok (m s) f h in nothing a s1 s' t rest

memoize-FindsNothing : (v : ℕ) → FindsNothing (memoize_and_return v none)
unfolding memoize_and_return memoize ◌>>=◌
memoize-FindsNothing v s s' t h = cc

pure-FindsNothing : FindsNothing (pure none)
pure-FindsNothing s s' t h = cc

if-FindsNothing :
    (b : Bool) {x y : Query (Option ℕ)}
    → FindsNothing x
    → FindsNothing y
    → FindsNothing (if b then x else y)
if-FindsNothing true p q = p
if-FindsNothing false p q = q

check_memoized-FindsNothing :
    (v : ℕ) (query : Query (Option ℕ)) (s s' : Analysis) (t : Option ℕ)
    → find_existing v s ≡ none
    → FindsNothing query
    → check_memoized v query s ≡ ok (t, s')
    → t ≡ none
unfolding check_memoized
check_memoized-FindsNothing v query s s' t new nothing h =
    let h' = rw (new, check_memoized) at h in
    elim (Bool-cases (been_visited v s)) [
      | inl again ↦ let h'' = rw again at h' in cc
      | inr first ↦ nothing (mark_visited v s) s' t (rw first at h')
    ]

-- The visit of a call of a function pointer that has no type in the table never finds a type,
-- whatever the functions that may be called return.
pub visit_indirect_call-none :
    (program : Program) (type_of : ℕ → Query (Option ℕ)) (v function_type : ℕ) (b : Bool)
    (s s' : Analysis) (t : ℕ)
    → find_existing v s ≡ none
    → visit_indirect_call program type_of v b function_type s ≢ ok (some t, s')
unfolding visit_indirect_call
visit_indirect_call-none program type_of v function_type b s s' t new h =
    let nothing =
      check_memoized-FindsNothing v _ s s' (some t) new
        (if-FindsNothing b
          (bind-FindsNothing _ _ λ _. bind-FindsNothing _ _ λ _. memoize-FindsNothing v)
          pure-FindsNothing)
        h in
    cc

module _ (program : Program) (type_of : ℕ → Query (Option ℕ)) (v : ℕ) where
  types_of_edges-Memᴰ :
      (t : ℕ) (edges : List (ℕ × ℕ))
      → Memᴰ (v, t) edges
      → Memᴰ t (types_of_edges program type_of v edges)
  unfolding types_of_edges
  types_of_edges-Memᴰ t [] m = absurd (Memᴰ.not-nil m)
  types_of_edges-Memᴰ t ((u, x) ∷ edges) (Memᴰ.head e) =
      rw (==-true u v (ap (λ p. p.0) (sym e))) (Memᴰ.head (ap (λ p. p.1) e))
  types_of_edges-Memᴰ t ((u, x) ∷ edges) (Memᴰ.tail m) = elim (Bool-cases (u == v)) [
    | inl same ↦ rw same (Memᴰ.tail (types_of_edges-Memᴰ t edges m))
    | inr other ↦ rw other (types_of_edges-Memᴰ t edges m)
  ]

  -- Another type joins the only one.
  second-edge :
      (t t' : ℕ) (s : Analysis)
      → types_of_edges program type_of v s.edge_types ≡ t ∷ []
      → t ≢ t'
      → types_of_edges program type_of v (insert (v, t') s.edge_types) ≡ t' ∷ t ∷ []
  unfolding types_of_edges
  second-edge t t' s only other = elim (Bool-cases (contains s.edge_types (v, t'))) [
    | inl old ↦ absurd (
        other (
          sym (
            Memᴰ.eq_of_singleton (
              subst (Memᴰ t') only (
                types_of_edges-Memᴰ t' s.edge_types ((contains_iff s.edge_types (v, t')).0 old))))))
    | inr new ↦
        rw (insert-new (v, t') s.edge_types new) (rw (==-true v v refl) (ap (λ ts. t' ∷ ts) only))
  ]

  -- The only incoming value is asked for.
  visit_incoming-one :
      (u t' : ℕ) (s s' : Analysis)
      → type_of u (record s { visited_edges = (v, u) ∷ [] }) ≡ ok (some t', s')
      → s.visited_edges ≡ []
      → visit_incoming program type_of v (u ∷ []) s
        ≡ ok (tt, record s' { edge_types = insert (v, t') s'.edge_types })
  unfolding visit_incoming contains insert add_edge_type ◌>>=◌
  visit_incoming-one u t' s s' found none_seen = rw none_seen (rw found refl)

  -- Where one type was entered for a PHI node with one incoming value and the tables were
  -- invalidated since, a query that now finds another type for that value, and enters no more
  -- types for PHI nodes, makes the visit of the PHI node find none.
  pub visit_phi_node-stale :
      (u t t' : ℕ) (s s' : Analysis)
      → types_of_edges program type_of v s.edge_types ≡ t ∷ []
      → s'.edge_types ≡ s.edge_types
      → t ≢ t'
      → type_of u (record s { value_to_type = []; visited = v ∷ []; visited_edges = (v, u) ∷ [] })
        ≡ ok (some t', s')
      → visit_phi_node program type_of v (u ∷ []) (forget_visits (invalidate s))
        ≡ ok (none, record s' { edge_types = insert (v, t') s'.edge_types })
  unfolding visit_phi_node single_type forget_visits invalidate check_memoized mark_visited
      been_visited find_existing contains insert ◌>>=◌
  visit_phi_node-stale u t t' s s' only kept other found =
      let all : types_of_edges program type_of v (insert (v, t') s'.edge_types) ≡ t' ∷ t ∷ [] =
        second-edge t t' s' (rw kept only) other in
      rw
        (visit_incoming-one u t'
          (record s { value_to_type = []; visited = v ∷ []; visited_edges = [] }) s' found refl)
        (rw all refl)
