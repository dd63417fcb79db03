-- ===== src/Graph/Topological.antt =====
-- The topological sort: it ends, and with a sorted order of the nodes or at a cycle.
use memoir_cs397_atc.Prelude.{
  ℕ, zero, suc, ◌+◌, ◌<◌, false, List, [], ◌∷◌, ◌++◌, Eq, ◌≡◌, refl, sym, subst, ◌↔◌, inl, inr,
  arith, length, Bool-cases, if◌then◌else◌,
}
use mathlib.Core.List.{Memᴰ, reverse, reverse-append}
use mathlib.Core.List.Memᴰ
use memoir_cs397_atc.Std.Sets.{
  contains, insert, erase, contains_iff, contains-not, contains-false, insert-new, erase-insert,
  IsDistinct, IsDistinct-length-le,
}
use memoir_cs397_atc.Graph.{
  DirectedGraph, Marks, Attempt, returned, cyclic, ◌>>=◌, outgoing, visit_all, finish,
  topological_order_helper, sort_nodes, topological_order,
}
use memoir_cs397_atc.Graph.Walks.{IsClosed, Walk, along, further, IsSorted}

-- An attempt that returns a good value, or meets a cycle for a reason; it does not run out of fuel.
pub data Ends {ℓ κ} {A : Type ℓ} (Good : A → Type κ) (Cycle : Type κ)
    : Attempt A → Type (ℓ ⊔ κ) where
  good : {a : A} → Good a → Ends Good Cycle (returned a)
  looped : Cycle → Ends Good Cycle cyclic

Ends-bind {ℓ κ} :
    {A B : Type ℓ} {P : A → Type κ} {Q : B → Type κ} {Cycle : Type κ} {m : Attempt A}
    {f : A → Attempt B}
    → Ends P Cycle m
    → ((a : A) → P a → Ends Q Cycle (f a))
    → Ends Q Cycle (m >>= f)
Ends-bind (good p) k = k _ p
Ends-bind (looped c) k = looped c

Ends-map {ℓ κ} :
    {A : Type ℓ} {P Q : A → Type κ} {Cycle : Type κ} {m : Attempt A}
    → Ends P Cycle m
    → ((a : A) → P a → Q a)
    → Ends Q Cycle m
Ends-map (good p) k = good (k _ p)
Ends-map (looped c) k = looped c

module _ {ℓ} {Node Edge : Type ℓ} ⦃e : Eq Node⦄ (g : DirectedGraph Node Edge) where
  abbrev Cycle : Type ℓ
  Cycle = (n : Node) × Memᴰ n g.nodes × Walk g n n

  record Inv (m : Marks Node) : Type ℓ where
    sorted : IsSorted g (reverse m.order)
    ordered : (n : Node) → Memᴰ n m.permanent ↔ Memᴰ n (reverse m.order)
    apart : (n : Node) → Memᴰ n m.temporary → ¬ Memᴰ n m.permanent
    distinct : IsDistinct m.temporary
    temporary_nodes : (n : Node) → Memᴰ n m.temporary → Memᴰ n g.nodes
    permanent_nodes : (n : Node) → Memᴰ n m.permanent → Memᴰ n g.nodes

  -- What a visit leaves: the temporary marks as they were, and no permanent mark lost.
  record Grows (m m' : Marks Node) : Type ℓ where
    valid : Inv m'
    same : m'.temporary ≡ m.temporary
    keeps : (n : Node) → Memᴰ n m.permanent → Memᴰ n m'.permanent

  -- The nodes of a list are found from each node that is marked temporarily.
  abbrev Follows : List Node → List Node → Type ℓ
  Follows marked ns = (t n : Node) → Memᴰ t marked → Memᴰ n ns → Walk g t n

  abbrev VisitsAll : List Node → Marks Node → Marks Node → Type ℓ
  VisitsAll ns m m' = Grows m m' × ((n : Node) → Memᴰ n ns → Memᴰ n m'.permanent)

  Grows-trans : {a b c : Marks Node} → Grows a b → Grows b c → Grows a c
  Grows-trans p q = record {
    valid = q.valid;
    same = rw q.same p.same;
    keeps = λ n m. q.keeps n (p.keeps n m);
  }

  VisitsAll-cons :
      (n : Node) (ns : List Node) (m m1 m2 : Marks Node)
      → VisitsAll (n ∷ []) m m1
      → VisitsAll ns m1 m2
      → VisitsAll (n ∷ ns) m m2
  VisitsAll-cons n ns m m1 m2 first rest = (
    Grows-trans first.0 rest.0,
    λ x q. elim (Memᴰ.cases_cons q) [
      | inl is ↦ rest.0.keeps x (first.1 x (Memᴰ.head is))
      | inr other ↦ rest.1 x other
    ],
  )

  visit_all-Ends :
      (visit : Node → Marks Node → Attempt (Marks Node)) (marked : List Node)
      → ((n : Node) (m : Marks Node)
          → Inv m
          → m.temporary ≡ marked
          → Memᴰ n g.nodes
          → Follows marked (n ∷ [])
          → Ends (VisitsAll (n ∷ []) m) Cycle (visit n m))
      → (ns : List Node) (m : Marks Node) → Inv m
      → m.temporary ≡ marked
      → ((n : Node) → Memᴰ n ns → Memᴰ n g.nodes)
      → Follows marked ns
      → Ends (VisitsAll ns m) Cycle (visit_all g visit ns m)
  unfolding visit_all
  visit_all-Ends visit marked spec [] m v at within walks =
      good
        (record { valid = v; same = refl; keeps = λ n p. p }, λ n none. absurd (Memᴰ.not-nil none))
  visit_all-Ends visit marked spec (n ∷ ns) m v at within walks =
      Ends-bind
        (spec n m v at (within n (Memᴰ.head refl))
          (λ t x s q. walks t x s (Memᴰ.head (Memᴰ.eq_of_singleton q))))
        λ m1 first.
          Ends-map
            (visit_all-Ends visit marked spec ns m1 first.0.valid (rw first.0.same at)
              (λ x q. within x (Memᴰ.tail q)) (λ t x s q. walks t x s (Memᴰ.tail q)))
            λ m2 rest. VisitsAll-cons n ns m m1 m2 first rest

  -- The marks while the edges out of a node are followed.
  Inv-mark :
      (n : Node) (m : Marks Node)
      → Inv m
      → Memᴰ n g.nodes
      → contains m.permanent n ≡ false
      → contains m.temporary n ≡ false
      → Inv (record m { temporary = insert n m.temporary })
  Inv-mark n m v at open_node fresh = rw (insert-new n m.temporary fresh) record {
    sorted = v.sorted;
    ordered = v.ordered;
    apart = λ x q. elim (Memᴰ.cases_cons q) [
      | inl is ↦ rw is (contains-not m.permanent n open_node)
      | inr old ↦ v.apart x old
    ];
    distinct = (contains-not m.temporary n fresh, v.distinct);
    temporary_nodes =
        λ x q. elim (Memᴰ.cases_cons q) [ inl is ↦ rw is at | inr old ↦ v.temporary_nodes x old ];
    permanent_nodes = v.permanent_nodes;
  }

  -- A node is finished once all that it leads to is marked permanently.
  finish-Grows :
      (n : Node) (m m' : Marks Node)
      → Memᴰ n g.nodes
      → Inv m
      → contains m.temporary n ≡ false
      → VisitsAll (outgoing g n) (record m { temporary = insert n m.temporary }) m'
      → VisitsAll (n ∷ []) m (finish g n m')
  unfolding finish
  finish-Grows n m m' at v fresh (grown, targets) =
      let marked : m'.temporary ≡ n ∷ m.temporary =
        rw (← (insert-new n m.temporary fresh)) grown.same in
      let open_node : ¬ Memᴰ n m'.permanent = grown.valid.apart n (rw marked (Memᴰ.head refl)) in
      let permanent = insert-new n m'.permanent (contains-false m'.permanent n open_node) in
      let temporary : erase n m'.temporary ≡ m.temporary =
        rw grown.same (erase-insert n m.temporary fresh) in
      let order : reverse (m'.order ++ n ∷ []) ≡ n ∷ reverse m'.order =
        reverse-append m'.order (n ∷ []) in
      let to : (x : Node) → Memᴰ x m'.permanent ↔ Memᴰ x (reverse m'.order) = grown.valid.ordered in
      (
        record {
          valid = record {
            sorted =
                rw order
                  (λ q. open_node ((to n).1 q), λ w q. (to w).0 (targets w q), grown.valid.sorted);
            ordered = λ x.
                rw (permanent, order)
                  (
                    λ q. elim (Memᴰ.cases_cons q) [
                      | inl is ↦ Memᴰ.head is
                      | inr old ↦ Memᴰ.tail ((to x).0 old)
                    ],
                    λ q. elim (Memᴰ.cases_cons q) [
                      | inl is ↦ Memᴰ.head is
                      | inr old ↦ Memᴰ.tail ((to x).1 old)
                    ],
                  );
            apart = λ x q. rw permanent (λ p. elim (Memᴰ.cases_cons p) [
              | inl is ↦ absurd (
                  contains-not m.temporary n fresh
                    (Memᴰ.cast (sym is) (subst (Memᴰ x) temporary q)))
              | inr old ↦
                  grown.valid.apart x (rw marked (Memᴰ.tail (subst (Memᴰ x) temporary q))) old
            ]);
            distinct = rw temporary v.distinct;
            temporary_nodes = λ x q. v.temporary_nodes x (subst (Memᴰ x) temporary q);
            permanent_nodes = λ x q. elim (Memᴰ.cases_cons (subst (Memᴰ x) permanent q)) [
              | inl is ↦ rw is at
              | inr old ↦ grown.valid.permanent_nodes x old
            ];
          };
          same = temporary;
          keeps = λ x q. rw permanent (Memᴰ.tail (grown.keeps x q));
        },
        λ x q. rw permanent (Memᴰ.head (Memᴰ.eq_of_singleton q)),
      )

  -- With a mark to give for each level of the recursion, the fuel is enough.
  helper-Ends :
      IsClosed g
      → (fuel : ℕ) (n : Node) (m : Marks Node) → Inv m
      → Memᴰ n g.nodes
      → Follows m.temporary (n ∷ [])
      → length g.nodes < fuel + length m.temporary
      → Ends (VisitsAll (n ∷ []) m) Cycle (topological_order_helper g fuel n m)
  unfolding topological_order_helper
  helper-Ends closed zero n m v at walks enough =
      absurd (omega (arith, IsDistinct-length-le m.temporary g.nodes v.distinct v.temporary_nodes))
  helper-Ends closed (suc fuel) n m v at walks enough = elim (Bool-cases (contains m.permanent n)) [
    | inl old ↦ rw old (
        good (
          record { valid = v; same = refl; keeps = λ x q. q },
          λ x q. rw (Memᴰ.eq_of_singleton q) ((contains_iff m.permanent n).0 old),
        ))
    | inr open_node ↦ elim (Bool-cases (contains m.temporary n)) [
      | inl back ↦
          rw (open_node, back)
            (looped (n, at, walks n n ((contains_iff m.temporary n).0 back) (Memᴰ.head refl)))
      | inr fresh ↦
          rw (open_node, fresh)
            (Ends-bind
              (visit_all-Ends (topological_order_helper g fuel) (insert n m.temporary)
                (λ n' m' v' same at' walks'.
                  helper-Ends closed fuel n' m' v' at' (rw same walks')
                    (rw (same, insert-new n m.temporary fresh) (omega arith)))
                (outgoing g n) (record m { temporary = insert n m.temporary })
                (Inv-mark n m v at open_node fresh) refl (λ w q. closed n w at q)
                λ t w s q.
                  elim (Memᴰ.cases_cons (subst (Memᴰ t) (insert-new n m.temporary fresh) s)) [
                    | inl is ↦ rw is (along q)
                    | inr earlier ↦ further (walks t n earlier (Memᴰ.head refl)) q
                  ])
              λ m' all. good (finish-Grows n m m' at v fresh all))
    ]
  ]

  -- One node of the loop over all nodes: no node is marked temporarily.
  sort_node-Ends :
      IsClosed g
      → (fuel : ℕ) (n : Node) (m : Marks Node) → Inv m
      → m.temporary ≡ []
      → Memᴰ n g.nodes
      → length g.nodes < fuel
      → Ends
          (VisitsAll (n ∷ []) m)
          Cycle
          (if contains m.permanent n then returned m else topological_order_helper g fuel n m)
  sort_node-Ends closed fuel n m v none at enough = elim (Bool-cases (contains m.permanent n)) [
    | inl old ↦ rw old (
        good (
          record { valid = v; same = refl; keeps = λ x q. q },
          λ x q. rw (Memᴰ.eq_of_singleton q) ((contains_iff m.permanent n).0 old),
        ))
    | inr open_node ↦ rw open_node (
        helper-Ends closed fuel n m v at (λ t x s q. absurd (Memᴰ.not-nil (subst (Memᴰ t) none s)))
          (omega arith))
  ]

  sort_nodes-Ends :
      IsClosed g
      → (fuel : ℕ) (ns : List Node) (m : Marks Node) → Inv m
      → m.temporary ≡ []
      → ((n : Node) → Memᴰ n ns → Memᴰ n g.nodes)
      → length g.nodes < fuel
      → Ends (VisitsAll ns m) Cycle (sort_nodes g fuel ns m)
  unfolding sort_nodes
  sort_nodes-Ends closed fuel [] m v none within enough =
      good (record { valid = v; same = refl; keeps = λ n p. p }, λ n q. absurd (Memᴰ.not-nil q))
  sort_nodes-Ends closed fuel (n ∷ ns) m v none within enough =
      Ends-bind (sort_node-Ends closed fuel n m v none (within n (Memᴰ.head refl)) enough)
        λ m1 first.
          Ends-map
            (sort_nodes-Ends closed fuel ns m1 first.0.valid (rw first.0.same none)
              (λ x q. within x (Memᴰ.tail q)) enough)
            λ m2 rest. VisitsAll-cons n ns m m1 m2 first rest

  -- The order before the first node.
  Inv-start : Inv (record { order = []; permanent = []; temporary = [] })
  Inv-start = record {
    sorted = tt;
    ordered = λ n. (λ q. q, λ q. q);
    apart = λ n q. absurd (Memᴰ.not-nil q);
    distinct = tt;
    temporary_nodes = λ n q. absurd (Memᴰ.not-nil q);
    permanent_nodes = λ n q. absurd (Memᴰ.not-nil q);
  }

  -- Where every neighbour of a node of a graph is a node of it, `topological_order` ends: either
  -- with an order that holds exactly the nodes, each once and before every node that an edge leads
  -- to from it, or it stops because some node is reached from itself.
  pub topological_order-Ends :
      IsClosed g
      → Ends
          (λ order. IsSorted g order × ((n : Node) → Memᴰ n order ↔ Memᴰ n g.nodes))
          Cycle
          (topological_order g)
  unfolding topological_order
  topological_order-Ends closed =
      Ends-bind
        (sort_nodes-Ends closed (suc (length g.nodes)) g.nodes _ Inv-start refl (λ n q. q)
          (omega arith))
        λ m (grown, all). good (
          grown.valid.sorted,
          λ n. (
            λ q. grown.valid.permanent_nodes n ((grown.valid.ordered n).1 q),
            λ q. (grown.valid.ordered n).0 (all n q),
          ),
        )

  targets-after :
      (order : List Node)
      → IsSorted g order
      → {n w : Node} → Memᴰ n order
      → Memᴰ w (outgoing g n)
      → Memᴰ w order
  targets-after [] sorted at q = absurd (Memᴰ.not-nil at)
  targets-after (x ∷ rest) sorted {n} {w} (Memᴰ.head is) q =
      Memᴰ.tail (sorted.1 w (subst (λ (y : Node). Memᴰ w (outgoing g y)) is q))
  targets-after (x ∷ rest) sorted (Memᴰ.tail at) q = Memᴰ.tail (targets-after rest sorted.2 at q)

  Walk-after :
      (x : Node) (rest : List Node) → IsSorted g (x ∷ rest) → {w : Node} → Walk g x w → Memᴰ w rest
  Walk-after x rest sorted (along q) = sorted.1 _ q
  Walk-after x rest sorted (further p q) =
      targets-after rest sorted.2 (Walk-after x rest sorted p) q

  -- A sorted order leaves no cycle through its nodes.
  IsSorted-acyclic :
      (order : List Node) → IsSorted g order → (n : Node) → Memᴰ n order → ¬ Walk g n n
  IsSorted-acyclic [] sorted n at p = absurd (Memᴰ.not-nil at)
  IsSorted-acyclic (x ∷ rest) sorted n (Memᴰ.head is) p =
      sorted.0 (Walk-after x rest sorted (subst (λ (y : Node). Walk g y y) is p))
  IsSorted-acyclic (x ∷ rest) sorted n (Memᴰ.tail at) p = IsSorted-acyclic rest sorted.2 n at p

  Ends-cyclic :
      {a : Attempt (List Node)}
      → Ends (λ order. IsSorted g order × ((n : Node) → Memᴰ n order ↔ Memᴰ n g.nodes)) Cycle a
      → (a ≡ cyclic) ↔ Cycle
  Ends-cyclic (good (sorted, all)) =
      (λ h. cc, λ (n, at, p). absurd (IsSorted-acyclic _ sorted n ((all n).1 at) p))
  Ends-cyclic (looped c) = (λ _. c, λ _. refl)

  -- Where every neighbour of a node of a graph is a node of it, `topological_order` returns no
  -- order exactly if some node of the graph is reached from itself.
  pub topological_order-cyclic :
      IsClosed g → (topological_order g ≡ cyclic) ↔ ((n : Node) × Memᴰ n g.nodes × Walk g n n)
  topological_order-cyclic closed = Ends-cyclic (topological_order-Ends closed)
