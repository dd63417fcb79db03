-- ===== src/Ssa/Swap/Exchange.antt =====
-- The loop of `sequence_swap_within` exchanges two ranges that do not overlap.
use memoir_cs397_atc.Prelude.{
  ℕ, zero, suc, ◌+◌, ◌-◌, ◌≤◌, ◌<◌, ◌≡◌, ◌≢◌, ◌⊎◌, inl, inr, refl, ap, sym, ◌∙◌, ◌&&◌, Option, some,
  List, arith, length, get_elem?, set, if◌then◌else◌, ◌==◌, leb, ltb, length-set,
  get_elem?-set_self, get_elem?-set_ne, get_elem?-in_bounds, get_elem?-ext, Bool-cases, ==-true,
  ==-false,
}
use memoir_cs397_atc.Result.{ok}
use memoir_cs397_atc.Ssa.Swap.{swap_vectors, swap_in_vector}

abbrev pub Apart : ℕ → ℕ → ℕ → Type 0
Apart m k1 k2 = (k1 + m ≤ k2) ⊎ (k2 + m ≤ k1)

-- The index whose element comes to `i`.
abbrev pub origin : ℕ → ℕ → ℕ → ℕ → ℕ
origin m k1 k2 i =
    if leb k1 i && ltb i (k1 + m)
    then i - k1 + k2
    else if leb k2 i && ltb i (k2 + m)
    then i - k2 + k1
    else i

get_elem?-set :
    {A : Type 0} (xs : List A) (k i : ℕ) (v : A)
    → k < length xs
    → get_elem? (set xs k v) i ≡ (if k == i then some v else get_elem? xs i)
get_elem?-set xs k i v h = elim (Bool-cases (k == i)) [
  | inl same ↦ let e : k ≡ i = ground arith in rw (same, ← e) (get_elem?-set_self xs k v h)
  | inr other ↦ let ne : k ≢ i = ground arith in rw other (get_elem?-set_ne xs v ne)
]

-- Which index each comes from, before and after one round.
origin-cases :
    (m k1 k2 i : ℕ)
    → Apart (suc m) k1 k2
    → let j = origin m (suc k1) (suc k2) i in
      let j' = origin (suc m) k1 k2 i in
      ((j ≡ k2) × (j' ≡ k1)) ⊎ ((j ≡ k1) × (j' ≡ k2)) ⊎ ((j ≢ k2) × (j ≢ k1) × (j ≡ j'))
origin-cases m k1 k2 i (inl below) = ground arith
origin-cases m k1 k2 i (inr above) = ground arith

-- One round.
origin-step :
    {A : Type 0} (m k1 k2 : ℕ) (x y : A) (i : ℕ) (xs : List A)
    → k1 < length xs
    → k2 < length xs
    → Apart (suc m) k1 k2
    → get_elem? xs k1 ≡ some x
    → get_elem? xs k2 ≡ some y
    → get_elem? (set (set xs k1 y) k2 x) (origin m (suc k1) (suc k2) i)
      ≡ get_elem? xs (origin (suc m) k1 k2 i)
origin-step m k1 k2 x y i xs h1 h2 apart e1 e2 =
    let j = origin m (suc k1) (suc k2) i in
    let written = get_elem?-set (set xs k1 y) k2 j x (rw (length-set xs k1 y) h2) in
    let before = get_elem?-set xs k1 j y h1 in
    let ne : k2 ≢ k1 = ground arith in
    elim (origin-cases m k1 k2 i apart) [
      | inl (at2, from1) ↦
          written ∙ rw (at2, ==-true k2 k2 refl) (sym e1 ∙ ap (get_elem? xs) (sym from1))
      | inr (inl (at1, from2)) ↦
          written
          ∙ rw (==-false k2 j (λ e. ne (e ∙ at1)))
              (before ∙ rw (==-true k1 j (sym at1)) (sym e2 ∙ ap (get_elem? xs) (sym from2)))
      | inr (inr (ne2, ne1, same)) ↦
          written
          ∙ rw (==-false k2 j (λ e. ne2 (sym e)))
              (before ∙ rw (==-false k1 j (λ e. ne1 (sym e))) (ap (get_elem? xs) same))
    ]

-- The loop on ranges that do not overlap.
swap_in_vector-origin :
    {A : Type 0} (m k1 k2 : ℕ) (xs : List A)
    → k1 + m ≤ length xs
    → k2 + m ≤ length xs
    → Apart m k1 k2
    → (ys : List A) × (swap_in_vector m k1 k2 xs ≡ ok ys)
      × (length ys ≡ length xs)
      × ((i : ℕ) → get_elem? ys i ≡ get_elem? xs (origin m k1 k2 i))
unfolding swap_in_vector
swap_in_vector-origin zero k1 k2 xs h1 h2 apart =
    (xs, refl, refl, λ i. ap (get_elem? xs) (ground arith))
swap_in_vector-origin (suc m) k1 k2 xs h1 h2 apart =
    let (x, e1) = get_elem?-in_bounds xs k1 (omega arith) in
    let (y, e2) = get_elem?-in_bounds xs k2 (omega arith) in
    let next = set (set xs k1 y) k2 x in
    let same : length next ≡ length xs = length-set (set xs k1 y) k2 x ∙ length-set xs k1 y in
    let (ys, done, size, at) =
      swap_in_vector-origin m (suc k1) (suc k2) next (omega arith) (omega arith) (omega arith) in
    (
      ys,
      rw (e1, e2) done,
      size ∙ same,
      λ i. at i ∙ origin-step m k1 k2 x y i xs (omega arith) (omega arith) apart e1 e2,
    )

origin-origin : (m k1 k2 i : ℕ) → Apart m k1 k2 → origin m k1 k2 (origin m k1 k2 i) ≡ i
origin-origin m k1 k2 i (inl below) = ground arith
origin-origin m k1 k2 i (inr above) = ground arith

-- The exchanging loop on two ranges of a vector that do not overlap ends, keeps the length, moves
-- every element to the place that the exchange asks for, and restores the vector when run again.
pub swap_in_vector-exchanges :
    {A : Type 0} (m k1 k2 : ℕ) (xs : List A)
    → k1 + m ≤ length xs
    → k2 + m ≤ length xs
    → Apart m k1 k2
    → (ys : List A) × (swap_in_vector m k1 k2 xs ≡ ok ys)
      × (length ys ≡ length xs)
      × ((i : ℕ) → get_elem? ys i ≡ get_elem? xs (origin m k1 k2 i))
      × (swap_in_vector m k1 k2 ys ≡ ok xs)
swap_in_vector-exchanges m k1 k2 xs h1 h2 apart =
    let (ys, done, size, at) = swap_in_vector-origin m k1 k2 xs h1 h2 apart in
    let (zs, again, size', at') =
      swap_in_vector-origin m k1 k2 ys (omega arith) (omega arith) apart in
    let back =
      get_elem?-ext zs xs
        (λ i. at' i ∙ at (origin m k1 k2 i) ∙ ap (get_elem? xs) (origin-origin m k1 k2 i apart)) in
    (ys, done, size, at, again ∙ ap ok back)

-- The index in the other vector whose element comes to `i`, if there is one.
abbrev pub mixed : {A : Type 0} → ℕ → ℕ → ℕ → List A → List A → ℕ → Option A
mixed m k1 k2 xs ys i =
    if leb k1 i && ltb i (k1 + m) then get_elem? ys (i - k1 + k2) else get_elem? xs i

mixed-step :
    {A : Type 0} (m k1 k2 : ℕ) (x y : A) (i : ℕ) (xs ys : List A)
    → k1 < length xs
    → k2 < length ys
    → get_elem? ys k2 ≡ some y
    → mixed m (suc k1) (suc k2) (set xs k1 y) (set ys k2 x) i ≡ mixed (suc m) k1 k2 xs ys i
mixed-step m k1 k2 x y i xs ys h1 h2 e =
    ground (arith, get_elem?-set xs k1 i y h1, get_elem?-set ys k2 (i - suc k1 + suc k2) x h2)

-- The exchanging loop on ranges of two vectors ends, keeps both lengths and moves every element to
-- the place that the exchange asks for.
pub swap_vectors-exchanges :
    {A : Type 0} (m k1 k2 : ℕ) (xs ys : List A)
    → k1 + m ≤ length xs
    → k2 + m ≤ length ys
    → (xs' ys' : List A) × (swap_vectors m k1 xs k2 ys ≡ ok (xs', ys'))
      × (length xs' ≡ length xs)
      × (length ys' ≡ length ys)
      × ((i : ℕ) → get_elem? xs' i ≡ mixed m k1 k2 xs ys i)
      × ((i : ℕ) → get_elem? ys' i ≡ mixed m k2 k1 ys xs i)
unfolding swap_vectors
swap_vectors-exchanges zero k1 k2 xs ys h1 h2 =
    (xs, ys, refl, refl, refl, λ i. ground arith, λ i. ground arith)
swap_vectors-exchanges (suc m) k1 k2 xs ys h1 h2 =
    let (x, e1) = get_elem?-in_bounds xs k1 (omega arith) in
    let (y, e2) = get_elem?-in_bounds ys k2 (omega arith) in
    let size1 = length-set xs k1 y in
    let size2 = length-set ys k2 x in
    let (xs', ys', done, length1, length2, at1, at2) =
      swap_vectors-exchanges m (suc k1) (suc k2) (set xs k1 y) (set ys k2 x) (omega arith)
        (omega arith) in
    (
      xs',
      ys',
      rw (e1, e2) done,
      length1 ∙ size1,
      length2 ∙ size2,
      λ i. at1 i ∙ mixed-step m k1 k2 x y i xs ys (omega arith) (omega arith) e2,
      λ i. at2 i ∙ mixed-step m k2 k1 y x i ys xs (omega arith) (omega arith) e1,
    )
