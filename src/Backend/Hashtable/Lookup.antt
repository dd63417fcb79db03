-- ===== src/Backend/Hashtable/Lookup.antt =====
-- The map that the entries of a table stand for, whatever their order.
use memoir_cs397_atc.Prelude.{
  ℕ, zero, suc, ◌+◌, ◌<◌, ◌≡◌, ◌≢◌, inl, inr, refl, ap, Bool, true, false, ◌&&◌, Option, some, none,
  List, [], ◌∷◌, if◌then◌else◌, ◌==◌, arith, length, get_elem?, set, replicate, Bool-cases,
}
use memoir_cs397_atc.Backend.Entries.{Entries}

module _ {E V : Type 0} (m : Entries E V) where
  -- Whether an entry is in use for a key.
  abbrev pub holds : E → ℕ → Bool
  holds e k = m.occupied e && k == m.key e

  -- The value of the last entry in use for the key, if there is one.
  unfoldable pub lookup_in : List E → ℕ → Option V → Option V
  lookup_in [] k before = before
  lookup_in (e ∷ es) k before = lookup_in es k (if holds e k then some (m.value e) else before)

  unfoldable pub count : List E → ℕ
  count [] = 0
  count (e ∷ es) = if m.occupied e then suc (count es) else count es

  pub lookup_in-none :
      (es : List E) (k : ℕ) (before : Option V)
      → ((j : ℕ) (e : E) → get_elem? es j ≡ some e → holds e k ≡ false)
      → lookup_in es k before ≡ before
  unfolding lookup_in
  lookup_in-none [] k before other = refl
  lookup_in-none (e ∷ es) k before other =
      rw (other 0 e refl) (lookup_in-none es k before (λ j e' at. other (suc j) e' at))

  pub lookup_in-only :
      (es : List E) (k j : ℕ) (e : E) (before : Option V)
      → get_elem? es j ≡ some e
      → holds e k ≡ true
      → ((i : ℕ) (e' : E) → i ≢ j → get_elem? es i ≡ some e' → holds e' k ≡ false)
      → lookup_in es k before ≡ some (m.value e)
  unfolding lookup_in
  lookup_in-only [] k j e before at hit other = ground (arith, at)
  lookup_in-only (e' ∷ es) k zero e before at hit other =
      let one : e' ≡ e = cc in
      rw (one, hit)
        (lookup_in-none es k (some (m.value e)) (λ i e'' at'. other (suc i) e'' (omega arith) at'))
  lookup_in-only (e' ∷ es) k (suc j) e before at hit other =
      lookup_in-only es k j e (if holds e' k then some (m.value e') else before) at hit
        (λ i e'' ne at'. other (suc i) e'' (λ same. ne (omega arith)) at')

  -- A write to an entry that is not and will not be in use for the key.
  pub lookup_in-set_other :
      (es : List E) (k j : ℕ) (e e' : E) (before : Option V)
      → get_elem? es j ≡ some e
      → holds e k ≡ false
      → holds e' k ≡ false
      → lookup_in (set es j e') k before ≡ lookup_in es k before
  unfolding lookup_in
  lookup_in-set_other [] k j e e' before at other other' = refl
  lookup_in-set_other (x ∷ es) k zero e e' before at other other' =
      let one : x ≡ e = cc in rw (lookup_in, other', one, other)
  lookup_in-set_other (x ∷ es) k (suc j) e e' before at other other' =
      lookup_in-set_other es k j e e' (if holds x k then some (m.value x) else before) at other
        other'

  pub lookup_in-replicate :
      (n k : ℕ) (e : E) → m.occupied e ≡ false → lookup_in (replicate n e) k none ≡ none
  unfolding lookup_in
  lookup_in-replicate zero k e free = refl
  lookup_in-replicate (suc n) k e free = rw (lookup_in, free) (lookup_in-replicate n k e free)

  pub count-replicate : (n : ℕ) (e : E) → m.occupied e ≡ false → count (replicate n e) ≡ 0
  unfolding count
  count-replicate zero e free = refl
  count-replicate (suc n) e free = rw free (count-replicate n e free)

  -- Where an entry is left.
  pub count-vacant :
      (es : List E)
      → count es < length es
      → (j : ℕ) × (e : E) × (get_elem? es j ≡ some e) × (m.occupied e ≡ false)
  unfolding count
  count-vacant [] h = absurd (omega arith)
  count-vacant (e ∷ es) h = elim (Bool-cases (m.occupied e)) [
    | inr free ↦ (0, e, refl, free)
    | inl in_use ↦
        let (j, e', at, free) = count-vacant es (ground (arith, h, in_use)) in (suc j, e', at, free)
  ]

  pub count-set :
      (es : List E) (j : ℕ) (e e' : E)
      → get_elem? es j ≡ some e
      → (if m.occupied e then 1 else 0) + count (set es j e')
        ≡ (if m.occupied e' then 1 else 0) + count es
  unfolding count
  count-set [] j e e' at = ground (arith, at)
  count-set (x ∷ es) zero e e' at = let one : x ≡ e = cc in ground (arith, ap m.occupied one)
  count-set (x ∷ es) (suc j) e e' at = ground (arith, count-set es j e e' at)
