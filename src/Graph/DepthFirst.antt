-- ===== src/Graph/DepthFirst.antt =====
-- The depth-first order ends, and holds what is reached from its start.
use memoir_cs397_atc.Prelude.{
  ℕ, zero, suc, ◌+◌, ◌≤◌, ◌<◌, List, [], ◌∷◌, ◌++◌, Eq, ◌≡◌, refl, sym, ap, subst, ◌↔◌, ◌⊎◌, inl,
  inr, arith, length, Bool-cases,
}
use mathlib.Core.List.{Memᴰ}
use mathlib.Core.List.Memᴰ
use memoir_cs397_atc.Std.Sets.{contains, contains_iff, contains-not, insert-new, IsDistinct}
use memoir_cs397_atc.Graph.{
  DirectedGraph, Search, returned, outgoing, push_all, depth_first_step, depth_first_loop,
  depth_first_order,
}
use memoir_cs397_atc.Graph.Walks.{IsClosed, Reach, here, step}
use memoir_cs397_atc.Graph.Reached.{
  remaining, remaining-insert, IsTraversal, IsDistinct-concat, List-cases,
}

module _ {ℓ} {Node Edge : Type ℓ} ⦃e : Eq Node⦄ (g : DirectedGraph Node Edge) where
  length-push_all : (ws stack : List Node) → length (push_all g ws stack) ≡ length ws + length stack
  unfolding push_all
  length-push_all [] stack = omega arith
  length-push_all (w ∷ ws) stack = omega (arith, length-push_all ws (w ∷ stack))

  push_all-Memᴰ :
      (n : Node) (ws stack : List Node) → Memᴰ n (push_all g ws stack) ↔ (Memᴰ n ws ⊎ Memᴰ n stack)
  unfolding push_all
  push_all-Memᴰ n [] stack =
      (inr, λ m. elim m [ inl none ↦ absurd (Memᴰ.not-nil none) | inr m' ↦ m' ])
  push_all-Memᴰ n (w ∷ ws) stack = (
    λ m. elim ((push_all-Memᴰ n ws (w ∷ stack)).0 m) [
      | inl later ↦ inl (Memᴰ.tail later)
      | inr (Memᴰ.head is) ↦ inl (Memᴰ.head is)
      | inr (Memᴰ.tail below) ↦ inr below
    ],
    λ m. (push_all-Memᴰ n ws (w ∷ stack)).1 (elim m [
      | inl (Memᴰ.head is) ↦ inr (Memᴰ.head is)
      | inl (Memᴰ.tail later) ↦ inl later
      | inr below ↦ inr (Memᴰ.tail below)
    ]),
  )

  module _ (start : Node) where
    record Inv (s : Search Node) : Type ℓ where
      same : (n : Node) → Memᴰ n s.out ↔ Memᴰ n s.found
      once : IsDistinct s.out
      sound : (n : Node) → Memᴰ n s.found ⊎ Memᴰ n s.pending → Reach g start n
      complete :
          (n w : Node) → Memᴰ n s.found → Memᴰ w (outgoing g n) → Memᴰ w s.found ⊎ Memᴰ w s.pending
      source : Memᴰ start s.found ⊎ Memᴰ start s.pending
      nodes : (n : Node) → Memᴰ n s.pending → Memᴰ n g.nodes

    abbrev work : Search Node → ℕ
    work s = length s.pending + remaining (λ n. length (outgoing g n)) s.found g.nodes

    -- A node that was found before is dropped.
    Inv-old :
        (s : Search Node) (v : Node) (rest : List Node)
        → Inv s
        → s.pending ≡ v ∷ rest
        → Memᴰ v s.found
        → Inv (record s { pending = rest })
    Inv-old s v rest i at old = record {
      same = i.same;
      once = i.once;
      sound = λ n m. i.sound n (elim m [ inl q ↦ inl q | inr q ↦ inr (rw at (Memᴰ.tail q)) ]);
      complete = λ n w m q. drop w (i.complete n w m q);
      source = drop start i.source;
      nodes = λ n m. i.nodes n (rw at (Memᴰ.tail m));
    }
      where
        drop : (n : Node) → Memᴰ n s.found ⊎ Memᴰ n s.pending → Memᴰ n s.found ⊎ Memᴰ n rest
        drop n (inl q) = inl q
        drop n (inr q) = elim (Memᴰ.cases_cons (subst (Memᴰ n) at q)) [
          | inl is ↦ inl (Memᴰ.cast is old)
          | inr q' ↦ inr q'
        ]

    -- A new node is found, and its neighbours wait.
    Inv-new :
        IsClosed g
        → (s : Search Node) (v : Node) (rest : List Node) → Inv s
        → s.pending ≡ v ∷ rest
        → (¬ Memᴰ v s.found)
        → Inv (record {
          out = s.out ++ v ∷ [];
          found = v ∷ s.found;
          pending = push_all g (outgoing g v) rest;
        })
    Inv-new closed s v rest i at new = record {
      same = λ n. (
        λ m. elim (Memᴰ.append_cases s.out m) [
          | inl old ↦ Memᴰ.tail ((i.same n).0 old)
          | inr last ↦ Memᴰ.head (Memᴰ.eq_of_singleton last)
        ],
        λ m. elim (Memᴰ.cases_cons m) [
          | inl is ↦ Memᴰ.append_right s.out (Memᴰ.head is)
          | inr old ↦ Memᴰ.append_left (v ∷ []) ((i.same n).1 old)
        ],
      );
      once = IsDistinct-concat s.out v i.once (λ m. new ((i.same v).0 m));
      sound = λ n m. elim m [
        | inl (Memᴰ.head is) ↦ rw is to_v
        | inl (Memᴰ.tail old) ↦ i.sound n (inl old)
        | inr q ↦ elim ((push_all-Memᴰ n (outgoing g v) rest).0 q) [
          | inl edge ↦ step to_v edge
          | inr below ↦ i.sound n (inr (rw at (Memᴰ.tail below)))
        ]
      ];
      complete = λ n w m q. elim (Memᴰ.cases_cons m) [
        | inl is ↦ inr (
            (push_all-Memᴰ w (outgoing g v) rest).1
              (inl (subst (λ (y : Node). Memᴰ w (outgoing g y)) is q)))
        | inr old ↦ moved w (i.complete n w old q)
      ];
      source = moved start i.source;
      nodes = λ n m. elim ((push_all-Memᴰ n (outgoing g v) rest).0 m) [
        | inl edge ↦ closed v n (i.nodes v (rw at (Memᴰ.head refl))) edge
        | inr below ↦ i.nodes n (rw at (Memᴰ.tail below))
      ];
    }
      where
        to_v : Reach g start v
        to_v = i.sound v (inr (rw at (Memᴰ.head refl)))

        moved :
            (n : Node)
            → Memᴰ n s.found ⊎ Memᴰ n s.pending
            → Memᴰ n (v ∷ s.found) ⊎ Memᴰ n (push_all g (outgoing g v) rest)
        moved n (inl q) = inl (Memᴰ.tail q)
        moved n (inr q) = elim (Memᴰ.cases_cons (subst (Memᴰ n) at q)) [
          | inl is ↦ inl (Memᴰ.head is)
          | inr q' ↦ inr ((push_all-Memᴰ n (outgoing g v) rest).1 (inr q'))
        ]

    -- A round keeps the invariant, and there is less to do.
    step-Inv :
        IsClosed g
        → (s : Search Node) (v : Node) (rest : List Node) → Inv s
        → s.pending ≡ v ∷ rest
        → Inv (depth_first_step g v rest s) × (work (depth_first_step g v rest s) < work s)
    unfolding depth_first_step
    step-Inv closed s v rest i at = elim (Bool-cases (contains s.found v)) [
      | inl old ↦
          rw old
            (Inv-old s v rest i at ((contains_iff s.found v).0 old), omega (arith, ap length at))
      | inr new ↦ rw new (
        rw (insert-new v s.found new) (Inv-new closed s v rest i at (contains-not s.found v new)),
        omega (
          arith,
          ap length at,
          length-push_all (outgoing g v) rest,
          remaining-insert (λ n. length (outgoing g n)) v s.found g.nodes new
              (i.nodes v (rw at (Memᴰ.head refl))),
        ),
      )
    ]

    -- With nothing waiting, what is found is closed under edges.
    found-all :
        (s : Search Node) → Inv s → s.pending ≡ [] → {n : Node} → Reach g start n → Memᴰ n s.found
    found-all s i empty here = elim i.source [
      | inl q ↦ q
      | inr q ↦ absurd (Memᴰ.not-nil (subst (Memᴰ start) empty q))
    ]
    found-all s i empty (step {b} {c} p edge) = elim (i.complete b c (found-all s i empty p) edge) [
      | inl q ↦ q
      | inr q ↦ absurd (Memᴰ.not-nil (subst (Memᴰ c) empty q))
    ]

    done : (s : Search Node) → Inv s → s.pending ≡ [] → IsTraversal g start s.out
    done s i empty = record {
      once = i.once;
      reached =
          λ n. (λ m. i.sound n (inl ((i.same n).0 m)), λ p. (i.same n).1 (found-all s i empty p));
    }

    loop-IsTraversal :
        IsClosed g
        → (fuel : ℕ) (s : Search Node) → Inv s
        → work s ≤ fuel
        → (out : List Node) × (depth_first_loop g fuel s ≡ returned out) × IsTraversal g start out
    unfolding depth_first_loop
    loop-IsTraversal closed zero s i enough = elim (List-cases s.pending) [
      | inl empty ↦ (s.out, rw (empty, depth_first_loop) refl, done s i empty)
      | inr (v, rest, at) ↦ absurd (omega (arith, ap length at))
    ]
    loop-IsTraversal closed (suc fuel) s i enough = elim (List-cases s.pending) [
      | inl empty ↦ (s.out, rw (empty, depth_first_loop) refl, done s i empty)
      | inr (v, rest, at) ↦
          let (kept, less) = step-Inv closed s v rest i at in
          let (out, ends, traversal) =
            loop-IsTraversal closed fuel (depth_first_step g v rest s) kept (omega arith) in
          (out, rw (at, depth_first_loop) ends, traversal)
    ]

  abbrev pub edge_count : ℕ
  edge_count = remaining (λ n. length (outgoing g n)) [] g.nodes

  -- Where every neighbour of a node of a graph is a node of it, more rounds than the nodes have
  -- outgoing edges are enough for `depth_first_order` from a node to return, and what it returns
  -- holds exactly the nodes reached from there, each once.
  pub depth_first_order-IsTraversal :
      IsClosed g
      → (start : Node) (fuel : ℕ) → Memᴰ start g.nodes
      → edge_count < fuel
      → (out : List Node) × (depth_first_order g fuel start ≡ returned out)
        × IsTraversal g start out
  unfolding depth_first_order
  depth_first_order-IsTraversal closed start fuel at enough =
      loop-IsTraversal start closed fuel _
        (record {
          same = λ n. (λ m. m, λ m. m);
          once = tt;
          sound = λ n m. elim m [
            | inl none ↦ absurd (Memᴰ.not-nil none)
            | inr q ↦ subst (Reach g start) (sym (Memᴰ.eq_of_singleton q)) here
          ];
          complete = λ n w m q. absurd (Memᴰ.not-nil m);
          source = inr (Memᴰ.head refl);
          nodes = λ n m. subst (λ (y : Node). Memᴰ y g.nodes) (sym (Memᴰ.eq_of_singleton m)) at;
        })
        (omega arith)
