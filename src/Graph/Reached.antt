-- ===== src/Graph/Reached.antt =====
-- What the traversals share: the nodes that a search has not found, by weight, and what a traversal is.
use memoir_cs397_atc.Prelude.{
  ℕ, ◌+◌, ◌≤◌, false, List, [], ◌∷◌, ◌++◌, Eq, ◌≡◌, refl, ◌↔◌, ◌⊎◌, inl, inr, sym, arith,
  if◌then◌else◌, length,
}
use mathlib.Core.List.{Memᴰ}
use mathlib.Core.List.Memᴰ
use memoir_cs397_atc.Std.Sets.{contains, insert, insert-new, IsDistinct}
use memoir_cs397_atc.Graph.{DirectedGraph}
use memoir_cs397_atc.Graph.Walks.{Reach}

pub List-cases {ℓ} :
    {A : Type ℓ} (xs : List A) → (xs ≡ []) ⊎ ((x : A) × (rest : List A) × (xs ≡ x ∷ rest))
List-cases [] = inl refl
List-cases (x ∷ xs) = inr (x, xs, refl)

pub IsDistinct-concat {ℓ} :
    {A : Type ℓ} (xs : List A) (a : A) → IsDistinct xs → (¬ Memᴰ a xs) → IsDistinct (xs ++ a ∷ [])
IsDistinct-concat [] a distinct new = (Memᴰ.not-nil, tt)
IsDistinct-concat (x ∷ xs) a distinct new = (
  λ m. elim (Memᴰ.append_cases xs m) [
    | inl old ↦ distinct.0 old
    | inr last ↦ new (Memᴰ.head (sym (Memᴰ.eq_of_singleton last)))
  ],
  IsDistinct-concat xs a distinct.1 (λ m. new (Memᴰ.tail m)),
)

module _ {ℓ} {Node : Type ℓ} ⦃e : Eq Node⦄ (weight : Node → ℕ) where
  -- The weight of the nodes that are not found yet.
  unfoldable pub remaining : List Node → List Node → ℕ
  remaining found [] = 0
  remaining found (n ∷ ns) = (if contains found n then 0 else weight n) + remaining found ns

  remaining-le : (n : Node) (found ns : List Node) → remaining (n ∷ found) ns ≤ remaining found ns
  unfolding remaining contains
  remaining-le n found [] = omega arith
  remaining-le n found (x ∷ ns) = ground (arith, remaining-le n found ns)

  remaining-cons :
      (n : Node) (found ns : List Node)
      → contains found n ≡ false
      → Memᴰ n ns
      → remaining (n ∷ found) ns + weight n ≤ remaining found ns
  unfolding remaining contains
  remaining-cons n found [] new m = absurd (Memᴰ.not-nil m)
  remaining-cons n found (x ∷ ns) new (Memᴰ.head is) =
      rw (← is) (rw (new, (e.beq_iff n n).1 refl) (omega (arith, remaining-le n found ns)))
  remaining-cons n found (x ∷ ns) new (Memᴰ.tail m) =
      ground (arith, remaining-cons n found ns new m)

  -- A node found takes its weight away.
  pub remaining-insert :
      (n : Node) (found ns : List Node)
      → contains found n ≡ false
      → Memᴰ n ns
      → remaining (insert n found) ns + weight n ≤ remaining found ns
  remaining-insert n found ns new m = rw (insert-new n found new) (remaining-cons n found ns new m)

module _ {ℓ} {Node : Type ℓ} ⦃e : Eq Node⦄ where
  pub remaining-le-length : (found ns : List Node) → remaining (λ n. 1) found ns ≤ length ns
  unfolding remaining
  remaining-le-length found [] = omega arith
  remaining-le-length found (n ∷ ns) = ground (arith, remaining-le-length found ns)

module _ {ℓ} {Node Edge : Type ℓ} ⦃e : Eq Node⦄ (g : DirectedGraph Node Edge) where
  -- Each node that is reached stands once, and nothing else.
  pub record IsTraversal (start : Node) (out : List Node) : Type ℓ where
    pub once : IsDistinct out
    pub reached : (n : Node) → Memᴰ n out ↔ Reach g start n
