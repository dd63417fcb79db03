-- ===== src/Graph/BreadthFirst.antt =====
-- The breadth-first order ends, and holds what is reached from its start.
use memoir_cs397_atc.Prelude.{
  ℕ, zero, suc, ◌+◌, ◌≤◌, ◌<◌, List, [], ◌∷◌, ◌++◌, Eq, ◌≡◌, refl, sym, ap, subst, ◌↔◌, ◌⊎◌, inl,
  inr, arith, length, Bool-cases, ◌∙◌, length-append,
}
use mathlib.Core.List.{Memᴰ, foldl, append_assoc, append-nil}
use mathlib.Core.List.Memᴰ
use memoir_cs397_atc.Std.Sets.{contains, insert, contains_iff, contains-not, insert-new, IsDistinct}
use memoir_cs397_atc.Graph.{
  DirectedGraph, Search, returned, outgoing, enqueue, breadth_first_step, breadth_first_loop,
  breadth_first_order,
}
use memoir_cs397_atc.Graph.Walks.{IsClosed, Reach, here, step}
use memoir_cs397_atc.Graph.Reached.{
  remaining, remaining-insert, remaining-le-length, IsTraversal, IsDistinct-concat, List-cases,
}

module _ {ℓ} {Node Edge : Type ℓ} ⦃e : Eq Node⦄ (g : DirectedGraph Node Edge) where
  -- The nodes found are those in the order and in the queue, each once.
  record Shape (s : Search Node) : Type ℓ where
    same : (n : Node) → Memᴰ n s.found ↔ Memᴰ n (s.out ++ s.pending)
    once : IsDistinct (s.out ++ s.pending)
    nodes : (n : Node) → Memᴰ n s.found → Memᴰ n g.nodes

  abbrev work : Search Node → ℕ
  work s = length s.pending + remaining (λ n. 1) s.found g.nodes

  -- What the loop over the neighbours `ws` adds.
  record Enqueues (ws : List Node) (s t : Search Node) : Type ℓ where
    shape : Shape t
    same_out : t.out ≡ s.out
    found : (n : Node) → Memᴰ n t.found ↔ (Memᴰ n s.found ⊎ Memᴰ n ws)
    work_le : work t ≤ work s

  enqueue-Enqueues :
      (w : Node) (s : Search Node) → Shape s → Memᴰ w g.nodes → Enqueues (w ∷ []) s (enqueue g s w)
  unfolding enqueue
  enqueue-Enqueues w s h at = elim (Bool-cases (contains s.found w)) [
    | inl old ↦ rw old (record {
      shape = h;
      same_out = refl;
      found = λ n. (
        inl,
        λ m. elim m [
          | inl q ↦ q
          | inr q ↦ Memᴰ.cast (Memᴰ.eq_of_singleton q) ((contains_iff s.found w).0 old)
        ],
      );
      work_le = omega arith;
    })
    | inr new ↦
        let absent = contains-not s.found w new in
        let assoc = append_assoc s.out s.pending (w ∷ []) in
        rw (new, insert-new w s.found new)
          (record {
            shape = record {
              same = λ n. (
                λ m. subst (Memᴰ n) assoc (elim (Memᴰ.cases_cons m) [
                  | inl is ↦ Memᴰ.append_right (s.out ++ s.pending) (Memᴰ.head is)
                  | inr q ↦ Memᴰ.append_left (w ∷ []) ((h.same n).0 q)
                ]),
                λ m. elim (Memᴰ.append_cases (s.out ++ s.pending) (subst (Memᴰ n) (sym assoc) m)) [
                  | inl q ↦ Memᴰ.tail ((h.same n).1 q)
                  | inr q ↦ Memᴰ.head (Memᴰ.eq_of_singleton q)
                ],
              );
              once =
                  subst IsDistinct assoc (
                    IsDistinct-concat (s.out ++ s.pending) w h.once (λ m. absent ((h.same w).1 m)));
              nodes = λ n m. elim (Memᴰ.cases_cons m) [
                | inl is ↦ subst (λ (y : Node). Memᴰ y g.nodes) (sym is) at
                | inr q ↦ h.nodes n q
              ];
            };
            same_out = refl;
            found = λ n. (
              λ m. elim (Memᴰ.cases_cons m) [ inl is ↦ inr (Memᴰ.head is) | inr q ↦ inl q ],
              λ m. elim m [ inl q ↦ Memᴰ.tail q | inr q ↦ Memᴰ.head (Memᴰ.eq_of_singleton q) ],
            );
            work_le =
                let less =
                  rw (insert-new w s.found new) at
                    (remaining-insert (λ n. 1) w s.found g.nodes new at) in
                omega (arith, length-append s.pending (w ∷ []));
          })
  ]

  enqueue_all-Enqueues :
      (ws : List Node) (s : Search Node)
      → Shape s
      → ((w : Node) → Memᴰ w ws → Memᴰ w g.nodes)
      → Enqueues ws s (foldl (enqueue g) s ws)
  enqueue_all-Enqueues [] s h within = record {
    shape = h;
    same_out = refl;
    found = λ n. (inl, λ m. elim m [ inl q ↦ q | inr q ↦ absurd (Memᴰ.not-nil q) ]);
    work_le = omega arith;
  }
  enqueue_all-Enqueues (w ∷ ws) s h within =
      let first = enqueue-Enqueues w s h (within w (Memᴰ.head refl)) in
      let rest =
        enqueue_all-Enqueues ws (enqueue g s w) first.shape (λ x q. within x (Memᴰ.tail q)) in
      record {
        shape = rest.shape;
        same_out = rest.same_out ∙ first.same_out;
        found = λ n. (
          λ m. elim ((rest.found n).0 m) [
            | inl q ↦ elim ((first.found n).0 q) [
              | inl old ↦ inl old
              | inr new ↦ inr (Memᴰ.head (Memᴰ.eq_of_singleton new))
            ]
            | inr q ↦ inr (Memᴰ.tail q)
          ],
          λ m. (rest.found n).1 (elim m [
            | inl old ↦ inl ((first.found n).1 (inl old))
            | inr (Memᴰ.head is) ↦ inl ((first.found n).1 (inr (Memᴰ.head is)))
            | inr (Memᴰ.tail q) ↦ inr q
          ]),
        );
        work_le = omega (arith, first.work_le, rest.work_le);
      }

  module _ (start : Node) where
    record Inv (s : Search Node) : Type ℓ where
      shape : Shape s
      sound : (n : Node) → Memᴰ n s.found → Reach g start n
      complete : (n w : Node) → Memᴰ n s.out → Memᴰ w (outgoing g n) → Memᴰ w s.found
      source : Memᴰ start s.found

    -- A round keeps the invariant, and there is less to do.
    step-Inv :
        IsClosed g
        → (s : Search Node) (v : Node) (rest : List Node) → Inv s
        → s.pending ≡ v ∷ rest
        → Inv (breadth_first_step g v rest s) × (work (breadth_first_step g v rest s) < work s)
    unfolding breadth_first_step
    step-Inv closed s v rest i at =
        let moved : s.out ++ s.pending ≡ (s.out ++ v ∷ []) ++ rest =
          rw at (sym (append_assoc s.out (v ∷ []) rest)) in
        let v_found : Memᴰ v s.found =
          (i.shape.same v).1 (Memᴰ.append_right s.out (rw at (Memᴰ.head refl))) in
        let popped = record s { out = s.out ++ v ∷ []; pending = rest } in
        let all =
          enqueue_all-Enqueues (outgoing g v) popped
            (record {
              same = λ n. rw (← moved) (i.shape.same n);
              once = rw (← moved) i.shape.once;
              nodes = i.shape.nodes;
            })
            (λ w q. closed v w (i.shape.nodes v v_found) q) in
        (
          record {
            shape = all.shape;
            sound = λ n m. elim ((all.found n).0 m) [
              | inl old ↦ i.sound n old
              | inr edge ↦ step (i.sound v v_found) edge
            ];
            complete = λ n w m q.
                (all.found w).1 (elim (Memᴰ.append_cases s.out (subst (Memᴰ n) all.same_out m)) [
                  | inl old ↦ inl (i.complete n w old q)
                  | inr last ↦
                      inr
                        (subst (λ (y : Node). Memᴰ w (outgoing g y)) (Memᴰ.eq_of_singleton last) q)
                ]);
            source = (all.found start).1 (inl i.source);
          },
          omega (arith, all.work_le, ap length at),
        )

    -- With the queue empty, what is found is closed under edges.
    found-all :
        (s : Search Node) → Inv s → s.pending ≡ [] → {n : Node} → Reach g start n → Memᴰ n s.found
    found-all s i empty here = i.source
    found-all s i empty (step {b} {c} p edge) =
        let all : s.out ++ s.pending ≡ s.out = rw empty (append-nil s.out) in
        i.complete b c (subst (Memᴰ b) all ((i.shape.same b).0 (found-all s i empty p))) edge

    done : (s : Search Node) → Inv s → s.pending ≡ [] → IsTraversal g start s.out
    done s i empty =
        let all : s.out ++ s.pending ≡ s.out = rw empty (append-nil s.out) in
        record {
          once = subst IsDistinct all i.shape.once;
          reached = λ n. (
            λ m. i.sound n ((i.shape.same n).1 (Memᴰ.append_left s.pending m)),
            λ p. subst (Memᴰ n) all ((i.shape.same n).0 (found-all s i empty p)),
          );
        }

    loop-IsTraversal :
        IsClosed g
        → (fuel : ℕ) (s : Search Node) → Inv s
        → work s ≤ fuel
        → (out : List Node) × (breadth_first_loop g fuel s ≡ returned out) × IsTraversal g start out
    unfolding breadth_first_loop
    loop-IsTraversal closed zero s i enough = elim (List-cases s.pending) [
      | inl empty ↦ (s.out, rw (empty, breadth_first_loop) refl, done s i empty)
      | inr (v, rest, at) ↦ absurd (omega (arith, ap length at))
    ]
    loop-IsTraversal closed (suc fuel) s i enough = elim (List-cases s.pending) [
      | inl empty ↦ (s.out, rw (empty, breadth_first_loop) refl, done s i empty)
      | inr (v, rest, at) ↦
          let (kept, less) = step-Inv closed s v rest i at in
          let (out, ends, traversal) =
            loop-IsTraversal closed fuel (breadth_first_step g v rest s) kept (omega arith) in
          (out, rw (at, breadth_first_loop) ends, traversal)
    ]

  -- Where every neighbour of a node of a graph is a node of it, more rounds than the graph has
  -- nodes are enough for `breadth_first_order` from a node to return, and what it returns holds
  -- exactly the nodes reached from there, each once.
  pub breadth_first_order-IsTraversal :
      IsClosed g
      → (start : Node) (fuel : ℕ) → Memᴰ start g.nodes
      → length g.nodes < fuel
      → (out : List Node) × (breadth_first_order g fuel start ≡ returned out)
        × IsTraversal g start out
  unfolding breadth_first_order contains
  breadth_first_order-IsTraversal closed start fuel at enough =
      loop-IsTraversal start closed fuel _
        (record {
          shape = record {
            same = λ n. rw (insert-new start [] refl) (λ m. m, λ m. m);
            once = (Memᴰ.not-nil, tt);
            nodes = λ n m.
                subst (λ (y : Node). Memᴰ y g.nodes)
                  (sym (Memᴰ.eq_of_singleton (rw (insert-new start [] refl) at m))) at;
          };
          sound = λ n m.
              subst (Reach g start)
                (sym (Memᴰ.eq_of_singleton (rw (insert-new start [] refl) at m))) here;
          complete = λ n w m q. absurd (Memᴰ.not-nil m);
          source = rw (insert-new start [] refl) (Memᴰ.head refl);
        })
        (omega (arith, remaining-le-length (insert start []) g.nodes))
