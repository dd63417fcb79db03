-- ===== src/Backend/Vector/Valid.antt =====
-- Valid vectors, what they hold, and copies between their storages.
use memoir_cs397_atc.Prelude.{
  ℕ, ◌+◌, ◌-◌, ◌^◌, ◌≤◌, ◌<◌, ◌≡◌, refl, ◌∙◌, ◌&&◌, Option, none, List, arith, ltb, leb, leb-true,
  leb-false, if◌then◌else◌, length, get_elem?,
}
use memoir_cs397_atc.Words.{sub64-small}
use memoir_cs397_atc.Std.Vector.{slice, length-slice, copy_to}
use memoir_cs397_atc.Std.Pointwise.{get_elem?-slice, get_elem?-copy_to}
use memoir_cs397_atc.Result.{ok, undefined}
use memoir_cs397_atc.Backend.Vector.{Vector, size, copy_cells}

-- `_front`, `_back` and the storage fit together.
pub record IsVector {A : Type 0} (v : Vector A) : Type 0 where
  pub ordered : v.front ≤ v.back
  pub within : v.back ≤ v.max_size
  pub sized : length v.storage ≡ v.max_size
  pub small : v.max_size < 2 ^ 60

module _ {A : Type 0} where
  -- The elements of a vector.
  abbrev pub contents : Vector A → List (Option A)
  contents v = slice v.front v.back v.storage

  pub size-ok : {v : Vector A} → IsVector v → size v ≡ v.back - v.front
  unfolding size
  size-ok {v} h = sub64-small v.back v.front h.ordered (omega (arith, h.within, h.small))

  pub length-contents : {v : Vector A} → IsVector v → length (contents v) ≡ v.back - v.front
  length-contents {v} h =
      length-slice v.front v.back v.storage h.ordered (omega (arith, h.within, h.sized))

  pub contents_at :
      (v : Vector A) (k : ℕ)
      → get_elem? (contents v) k
        ≡ (if ltb k (v.back - v.front) then get_elem? v.storage (v.front + k) else none)
  contents_at v k = get_elem?-slice v.front v.back v.storage k

  -- A copy within both storages.
  pub copy_cells-at :
      (target : List (Option A)) (k : ℕ) (source : List (Option A)) (i n : ℕ)
      → k + n ≤ length target
      → i + n ≤ length source
      → (ys : List (Option A)) × (copy_cells target k source i n ≡ ok ys)
        × (length ys ≡ length target)
        × ((x : ℕ)
            → get_elem? ys x ≡ (
                if leb k x && ltb x (k + n)
                then get_elem? source (i + (x - k))
                else get_elem? target x))
  unfolding copy_cells
  copy_cells-at target k source i n h h' =
      let same : length (slice i (i + n) source) ≡ n =
        length-slice i (i + n) source (omega arith) h' ∙ omega arith in
      let (ys, done, size, at) =
        get_elem?-copy_to target k (slice i (i + n) source) (omega arith) in
      (
        ys,
        rw (leb-true (i + n) (length source) h', done) refl,
        size,
        λ x. ground (arith, at x, get_elem?-slice i (i + n) source (x - k)),
      )

  -- A copy past the end of the storage.
  pub copy_cells-overruns :
      (target : List (Option A)) (k : ℕ) (source : List (Option A)) (i n : ℕ)
      → length target < k + n
      → i + n ≤ length source
      → copy_cells target k source i n ≡ undefined
  unfolding copy_cells copy_to
  copy_cells-overruns target k source i n h h' =
      let same : length (slice i (i + n) source) ≡ n =
        length-slice i (i + n) source (omega arith) h' ∙ omega arith in
      rw (
        leb-true (i + n) (length source) h',
        leb-false (k + length (slice i (i + n) source)) (length target) (omega arith),
      )
