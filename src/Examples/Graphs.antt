-- ===== src/Examples/Graphs.antt =====
-- The orders of two small graphs.
use memoir_cs397_atc.Prelude.{
  ℕ, List, [], ◌∷◌, nat_eq, ◌≡◌, refl, ◌↔◌, subst, arith, if◌then◌else◌, ◌==◌,
}
use mathlib.Core.List.{Memᴰ}
use mathlib.Core.List.Memᴰ
use memoir_cs397_atc.Graph.{
  DirectedGraph, returned, cyclic, outgoing, visit_all, finish, topological_order,
  depth_first_order, breadth_first_order,
}
use memoir_cs397_atc.Graph.Walks.{IsClosed, Walk, IsSorted}
use memoir_cs397_atc.Std.Sets.{contains, insert, erase}
use memoir_cs397_atc.Graph.Reached.{IsTraversal, remaining}
use memoir_cs397_atc.Graph.Topological.{Ends, topological_order-Ends, topological_order-cyclic}
use memoir_cs397_atc.Graph.BreadthFirst.{breadth_first_order-IsTraversal}
use memoir_cs397_atc.Graph.DepthFirst.{depth_first_order-IsTraversal}

-- An edge from 0 to 1.
abbrev line : DirectedGraph ℕ ℕ
line = record { nodes = 1 ∷ 0 ∷ []; edges = λ n. if n == 0 then (1, 7) ∷ [] else [] }

-- Edges both ways.
abbrev ring : DirectedGraph ℕ ℕ
ring = record {
  nodes = 1 ∷ 0 ∷ [];
  edges = λ n. if n == 0 then (1, 7) ∷ [] else if n == 1 then (0, 8) ∷ [] else [];
}

line-IsClosed : IsClosed line
line-IsClosed n w (Memᴰ.head e) m =
    absurd (Memᴰ.not-nil (subst (λ (y : ℕ). Memᴰ w (outgoing line y)) e m))
line-IsClosed n w (Memᴰ.tail (Memᴰ.head e)) m =
    Memᴰ.head (Memᴰ.eq_of_singleton (subst (λ (y : ℕ). Memᴰ w (outgoing line y)) e m))
line-IsClosed n w (Memᴰ.tail (Memᴰ.tail none)) m = absurd (Memᴰ.not-nil none)

ring-IsClosed : IsClosed ring
ring-IsClosed n w (Memᴰ.head e) m =
    Memᴰ.tail (Memᴰ.head (Memᴰ.eq_of_singleton (subst (λ (y : ℕ). Memᴰ w (outgoing ring y)) e m)))
ring-IsClosed n w (Memᴰ.tail (Memᴰ.head e)) m =
    Memᴰ.head (Memᴰ.eq_of_singleton (subst (λ (y : ℕ). Memᴰ w (outgoing ring y)) e m))
ring-IsClosed n w (Memᴰ.tail (Memᴰ.tail none)) m = absurd (Memᴰ.not-nil none)

topological_order-Ends_example :
    Ends
      (λ order. IsSorted line order × ((n : ℕ) → Memᴰ n order ↔ Memᴰ n (1 ∷ 0 ∷ [])))
      ((n : ℕ) × Memᴰ n (1 ∷ 0 ∷ []) × Walk line n n)
      (topological_order line)
topological_order-Ends_example = topological_order-Ends line line-IsClosed

topological_order-cyclic_example :
    (topological_order ring ≡ cyclic) ↔ ((n : ℕ) × Memᴰ n (1 ∷ 0 ∷ []) × Walk ring n n)
topological_order-cyclic_example = topological_order-cyclic ring ring-IsClosed

breadth_first_order-IsTraversal_example :
    (out : List ℕ) × (breadth_first_order ring 3 1 ≡ returned out) × IsTraversal ring 1 out
breadth_first_order-IsTraversal_example =
    breadth_first_order-IsTraversal ring ring-IsClosed 1 3 (Memᴰ.head refl) (omega arith)

depth_first_order-IsTraversal_example :
    (out : List ℕ) × (depth_first_order ring 3 1 ≡ returned out) × IsTraversal ring 1 out
unfolding remaining contains
depth_first_order-IsTraversal_example =
    depth_first_order-IsTraversal ring ring-IsClosed 1 3 (Memᴰ.head refl) (omega arith)

line-sorted : topological_order line ≡ returned (0 ∷ 1 ∷ [])
unfolding topological_order visit_all finish contains insert erase
line-sorted = refl

ring-breadth : breadth_first_order ring 3 1 ≡ returned (1 ∷ 0 ∷ [])
unfolding breadth_first_order contains insert
ring-breadth = refl
