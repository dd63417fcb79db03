-- ===== src/Backend/Hashtable/Walk.antt =====
-- The entries that a probe of a table passes, and where it ends.
use memoir_cs397_atc.Prelude.{
  ℕ, zero, suc, ◌+◌, ◌-◌, ◌≤◌, ◌<◌, ◌≡◌, ◌≢◌, ◌⊎◌, inl, inr, refl, ap, sym, ◌∙◌, subst, Bool, true,
  false, ◌&&◌, some, none, if◌then◌else◌, ◌==◌, ltb, leb, arith, length, get_elem?,
  get_elem?-in_bounds, get_elem?-outside, Bool-cases,
}
use memoir_cs397_atc.Result.{ok}
use memoir_cs397_atc.Backend.Entries.{Entries}
use memoir_cs397_atc.Backend.Hashtable.{Table, found, empty, probe_from}

module _ {E V : Type 0} (m : Entries E V) where
  -- An entry of the table that is in use for a key, and one that is not in use.
  abbrev pub Stored : Table E → ℕ → ℕ → Type 0
  Stored t k j = (e : E) × (get_elem? t.entries j ≡ some e) × (m.occupied e ≡ true) × (m.key e ≡ k)

  abbrev pub Vacant : Table E → ℕ → Type 0
  Vacant t j = (e : E) × (get_elem? t.entries j ≡ some e) × (m.occupied e ≡ false)

  abbrev pub Passed : Table E → ℕ → ℕ → Type 0
  Passed t k j = (e : E) × (get_elem? t.entries j ≡ some e) × (m.occupied e ≡ true) × (m.key e ≢ k)

  abbrev pub next : Table E → ℕ → ℕ
  next t i = if leb t.capacity (i + 1) then 0 else i + 1

  -- In so many steps from one index to another, over entries in use for other keys.
  abbrev pub Walk : ℕ → Table E → ℕ → ℕ → ℕ → Type 0
  Walk zero t k i j = i ≡ j
  Walk (suc n) t k i j = Passed t k i × Walk n t k (next t i) j

  pub Passed-Stored : (t : Table E) (k : ℕ) (j : ℕ) → Passed t k j → Stored t k j → ⊥
  Passed-Stored t k j (e, at, in_use, other) (e', at', in_use', same) =
      other (let one : e ≡ e' = cc in ap m.key one ∙ same)

  pub Passed-Vacant : (t : Table E) (k : ℕ) (j : ℕ) → Passed t k j → Vacant t j → ⊥
  Passed-Vacant t k j (e, at, in_use, other) (e', at', free) =
      let one : e ≡ e' = cc in ground (arith, ap m.occupied one)

  pub Stored-Vacant : (t : Table E) (k j : ℕ) → Stored t k j → Vacant t j → ⊥
  Stored-Vacant t k j (e, at, in_use, same) (e', at', free) =
      let one : e ≡ e' = cc in ground (arith, ap m.occupied one)

  -- Two probes for a key that cannot go on end at the same index.
  pub Walk-unique :
      (t : Table E) (k : ℕ) (n n' i j j' : ℕ)
      → Walk n t k i j
      → Walk n' t k i j'
      → (Passed t k j → ⊥)
      → (Passed t k j' → ⊥)
      → j ≡ j'
  Walk-unique t k zero zero i j j' p p' stop stop' = sym p ∙ p'
  Walk-unique t k zero (suc n') i j j' p (pass, p') stop stop' =
      absurd (stop (subst (λ i. Passed t k i) p pass))
  Walk-unique t k (suc n) zero i j j' (pass, p) p' stop stop' =
      absurd (stop' (subst (λ i. Passed t k i) p' pass))
  Walk-unique t k (suc n) (suc n') i j j' (pass, p) (pass', p') stop stop' =
      Walk-unique t k n n' (next t i) j j' p p' stop stop'

  -- The steps of a probe from one index to another.
  abbrev pub steps : Table E → ℕ → ℕ → ℕ
  steps t i j = if leb i j then j - i else j + t.capacity - i

  module _ (bounded : Bool) (t : Table E) (k begin z : ℕ) (sized : length t.entries ≡ t.capacity)
      (vacant : Vacant t z) (inside : begin < t.capacity) where
    -- How a probe ends, by its fuel and where it begins.
    abbrev pub Ends : ℕ → ℕ → Type 0
    Ends fuel i =
        ((j : ℕ) × (n : ℕ) × (probe_from m bounded t k begin fuel i ≡ ok (found j))
          × Stored t k j
          × Walk n t k i j)
        ⊎ ((j : ℕ) × (n : ℕ) × (probe_from m bounded t k begin fuel i ≡ ok (empty j))
            × Vacant t j
            × Walk n t k i j)

    pub z_inside : z < t.capacity
    z_inside = elim (Bool-cases (ltb z t.capacity)) [
      | inl within ↦ ground arith
      | inr beyond ↦
          let (e, at, free) = vacant in
          let out : get_elem? t.entries z ≡ none = get_elem?-outside t.entries z (ground arith) in
          ground (arith, at, out)
    ]

    pub probe_from-Ends :
        (fuel i : ℕ)
        → i < t.capacity
        → steps t i z < fuel
        → steps t i z ≤ steps t begin z
        → Ends fuel i
    unfolding probe_from
    probe_from-Ends zero i lt enough near = absurd (omega arith)
    probe_from-Ends (suc fuel) i lt enough near =
        let (e, at) = get_elem?-in_bounds t.entries i (omega arith) in
        elim (Bool-cases (m.occupied e)) [
          | inr free ↦ inr (i, 0, rw (at, free) refl, (e, at, free), refl)
          | inl in_use ↦ elim (Bool-cases (k == m.key e)) [
            | inl same ↦ inl (i, 0, rw (at, in_use, same) refl, (e, at, in_use, ground arith), refl)
            | inr other ↦
                let pass : Passed t k i = (e, at, in_use, ground arith) in
                let ne : i ≢ z =
                  λ same. Passed-Vacant t k z (subst (Passed t k) same pass) vacant in
                let on : (bounded && (i + 1 == begin)) ≡ false = ground (arith, z_inside) in
                elim (probe_from-Ends fuel (next t i) (ground arith) (ground (arith, z_inside))
                  (ground (arith, z_inside))) [
                    | inl (j, n, ends, stored, path) ↦
                        inl (j, suc n, rw (at, in_use, other, on) ends, stored, (pass, path))
                    | inr (j, n, ends, free, path) ↦
                        inr (j, suc n, rw (at, in_use, other, on) ends, free, (pass, path))
                  ]
          ]
        ]
