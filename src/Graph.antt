-- ===== src/Graph.antt =====
-- compiler/memoir/support/Graph.hpp: the orders of a directed graph and its strongly connected
-- components. The containers of graph_lite are a parameter: the order in which the nodes are visited
-- and, for each node, its outgoing edges.
pub mod Walks
pub mod Reached
pub mod DepthFirst
pub mod BreadthFirst
pub mod Topological
use memoir_cs397_atc.Prelude.{
  ℕ, zero, suc, ◌+◌, ◌<◌, Bool, true, false, Option, none, some, List, [], ◌∷◌, ◌++◌, map, Eq,
  if◌then◌else◌, length, not,
}
use mathlib.Core.List.{reverse, foldl}
use memoir_cs397_atc.Std.Sets.{contains, insert, erase}

-- How a search ends: with a value, at a cycle, or without fuel.
pub data Attempt {ℓ} (A : Type ℓ) : Type ℓ where
  returned : A → Attempt A
  cyclic out_of_fuel : Attempt A

infixl 5 ◌>>=◌
abbrev pub ◌>>=◌ {ℓ κ} : {A : Type ℓ} {B : Type κ} → Attempt A → (A → Attempt B) → Attempt B
returned a >>= f = f a
cyclic >>= f = cyclic
out_of_fuel >>= f = out_of_fuel

pub record DirectedGraph {ℓ} (Node Edge : Type ℓ) : Type ℓ where
  pub nodes : List Node
  pub edges : Node → List (Node × Edge)

-- The state of a search: what was found, in order, the set of it, and what waits.
pub record Search {ℓ} (Node : Type ℓ) : Type ℓ where
  pub out : List Node
  pub found : List Node
  pub pending : List Node

-- The state of the topological sort.
pub record Marks {ℓ} (Node : Type ℓ) : Type ℓ where
  pub order : List Node
  pub permanent : List Node
  pub temporary : List Node

module _ {ℓ} {Node Edge : Type ℓ} ⦃e : Eq Node⦄ (g : DirectedGraph Node Edge) where
  abbrev pub outgoing : Node → List Node
  outgoing n = map (λ edge. edge.0) (g.edges n)

  unfoldable pub find_edge : Node → List (Node × Edge) → Option Edge
  find_edge b [] = none
  find_edge b ((n, edge) ∷ rest) = if e.beq b n then some edge else find_edge b rest

  -- `none` is the MEMOIR_UNREACHABLE.
  unfoldable pub get_edge : Node → Node → Option Edge
  unfolding find_edge
  get_edge a b = find_edge b (g.edges a)

  -- `s.push(w)` for each neighbour; the top of the stack is the head of the list.
  unfoldable pub push_all : List Node → List Node → List Node
  push_all [] stack = stack
  push_all (w ∷ ws) stack = push_all ws (w ∷ stack)

  -- One round of the loop, after `v` left the stack.
  unfoldable pub depth_first_step : Node → List Node → Search Node → Search Node
  unfolding push_all
  depth_first_step v rest s = if contains s.found v then record s { pending = rest } else record {
    out = s.out ++ v ∷ [];
    found = insert v s.found;
    pending = push_all (outgoing v) rest;
  }

  unfoldable pub depth_first_loop : ℕ → Search Node → Attempt (List Node)
  depth_first_loop zero s = elim s.pending [ [] ↦ returned s.out | _ ∷ _ ↦ out_of_fuel ]
  depth_first_loop (suc fuel) s = elim s.pending [
    | [] ↦ returned s.out
    | v ∷ rest ↦ depth_first_loop fuel (depth_first_step v rest s)
  ]

  unfoldable pub depth_first_order : ℕ → Node → Attempt (List Node)
  unfolding depth_first_loop depth_first_step
  depth_first_order fuel start =
      depth_first_loop fuel (record { out = []; found = []; pending = start ∷ [] })

  -- The body of the loop over the neighbours.
  unfoldable pub enqueue : Search Node → Node → Search Node
  enqueue s w =
      if contains s.found w
      then s
      else record s { found = insert w s.found; pending = s.pending ++ w ∷ [] }

  unfoldable pub breadth_first_step : Node → List Node → Search Node → Search Node
  unfolding enqueue
  breadth_first_step v rest s =
      foldl enqueue (record s { out = s.out ++ v ∷ []; pending = rest }) (outgoing v)

  unfoldable pub breadth_first_loop : ℕ → Search Node → Attempt (List Node)
  breadth_first_loop zero s = elim s.pending [ [] ↦ returned s.out | _ ∷ _ ↦ out_of_fuel ]
  breadth_first_loop (suc fuel) s = elim s.pending [
    | [] ↦ returned s.out
    | v ∷ rest ↦ breadth_first_loop fuel (breadth_first_step v rest s)
  ]

  unfoldable pub breadth_first_order : ℕ → Node → Attempt (List Node)
  unfolding breadth_first_loop breadth_first_step insert contains
  breadth_first_order fuel start =
      breadth_first_loop fuel (record { out = []; found = insert start []; pending = start ∷ [] })

  -- The loop over the outgoing edges: `visit` is the recursive call.
  unfoldable pub visit_all :
      (Node → Marks Node → Attempt (Marks Node)) → List Node → Marks Node → Attempt (Marks Node)
  visit_all visit [] m = returned m
  visit_all visit (n ∷ ns) m = do m' ← visit n m; visit_all visit ns m'

  -- What is done once all that `node` leads to is in the order.
  unfoldable pub finish : Node → Marks Node → Marks Node
  finish node m = record {
    order = m.order ++ node ∷ [];
    permanent = insert node m.permanent;
    temporary = erase node m.temporary;
  }

  unfoldable pub topological_order_helper : ℕ → Node → Marks Node → Attempt (Marks Node)
  topological_order_helper zero node m = out_of_fuel
  topological_order_helper (suc fuel) node m =
      if contains m.permanent node
      then returned m
      else if contains m.temporary node
      then cyclic
      else do
        m' ←
            visit_all (topological_order_helper fuel) (outgoing node)
              (record m { temporary = insert node m.temporary })
        returned (finish node m')

  -- The loop over the nodes of the graph.
  unfoldable pub sort_nodes : ℕ → List Node → Marks Node → Attempt (Marks Node)
  unfolding topological_order_helper
  sort_nodes fuel [] m = returned m
  sort_nodes fuel (node ∷ rest) m = do
    m' ← if contains m.permanent node then returned m else topological_order_helper fuel node m
    sort_nodes fuel rest m'

  -- The recursion is no deeper than the nodes are many.
  unfoldable pub topological_order : Attempt (List Node)
  unfolding sort_nodes
  topological_order = do
    m ←
        sort_nodes (suc (length g.nodes)) g.nodes
          (record { order = []; permanent = []; temporary = [] })
    returned (reverse m.order)
