-- ===== src/Graph/Walks.antt =====
-- What the orders of a graph promise: walks, and lists in which every edge leads forward.
use memoir_cs397_atc.Prelude.{List, [], ◌∷◌, Eq}
use mathlib.Core.List.{Memᴰ}
use memoir_cs397_atc.Graph.{DirectedGraph, outgoing}

module _ {ℓ} {Node Edge : Type ℓ} ⦃e : Eq Node⦄ (g : DirectedGraph Node Edge) where
  -- The neighbours of a node are nodes, which graph_lite keeps.
  abbrev pub IsClosed : Type ℓ
  IsClosed = (n w : Node) → Memᴰ n g.nodes → Memᴰ w (outgoing g n) → Memᴰ w g.nodes

  -- `b` is reached from `a` along at least one edge.
  pub data Walk (a : Node) : Node → Type ℓ where
    along : {b : Node} → Memᴰ b (outgoing g a) → Walk a b
    further : {b c : Node} → Walk a b → Memᴰ c (outgoing g b) → Walk a c

  -- `b` is reached from `a` along any number of edges.
  pub data Reach (a : Node) : Node → Type ℓ where
    here : Reach a a
    step : {b c : Node} → Reach a b → Memᴰ c (outgoing g b) → Reach a c

  -- Each node stands once, and what it leads to stands after it.
  abbrev pub IsSorted : List Node → Type ℓ
  IsSorted [] = Unit
  IsSorted (n ∷ rest) =
      (¬ Memᴰ n rest) × ((w : Node) → Memᴰ w (outgoing g n) → Memᴰ w rest) × IsSorted rest
