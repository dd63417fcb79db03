-- ===== src/Examples/Vectors.antt =====
-- The theorems on the vectors of runtime/backend at small ones.
use memoir_cs397_atc.Prelude.{ℕ, ◌≡◌, refl, arith, none, some, [], ◌∷◌, inr}
use memoir_cs397_atc.Words.{add64, sub64}
use memoir_cs397_atc.Result.{ok, undefined}
use memoir_cs397_atc.Backend.Vector.{
  Layout, Vector, remove, insert_element, allocate, next_pow_2, smear,
}
use memoir_cs397_atc.Backend.Vector.Valid.{IsVector, contents}
use memoir_cs397_atc.Backend.Vector.Remove.{remove-refines, remove-overruns}
use memoir_cs397_atc.Backend.Vector.Grow.{insert_element-refines}

abbrev words : Layout ℕ
words = record { element_size = 8; overlay = λ part x y. y }

-- Four elements in eight cells, and four in four.
abbrev four : Vector ℕ
four = record {
  front = 2;
  back = 6;
  max_size = 8;
  storage = none ∷ none ∷ some 10 ∷ some 20 ∷ some 30 ∷ some 40 ∷ none ∷ none ∷ [];
}

four-IsVector : IsVector four
four-IsVector = record {
  ordered = omega arith;
  within = omega arith;
  sized = refl;
  small = omega arith;
}

abbrev full : Vector ℕ
full = record {
  front = 0;
  back = 4;
  max_size = 4;
  storage = some 10 ∷ some 20 ∷ some 30 ∷ some 40 ∷ [];
}

full-IsVector : IsVector full
full-IsVector = record {
  ordered = omega arith;
  within = omega arith;
  sized = refl;
  small = omega arith;
}

remove-refines_example :
    (w : Vector ℕ) × (remove words four 1 2 ≡ ok w)
    × IsVector w
    × (contents w ≡ some 10 ∷ some 30 ∷ some 40 ∷ [])
remove-refines_example =
    remove-refines words four-IsVector 1 2 (omega arith) (omega arith) (inr (omega arith))

remove-overruns_example : remove words full 2 3 ≡ undefined
remove-overruns_example =
    remove-overruns words full-IsVector 2 3 (omega arith) (omega arith) (λ e. omega arith)
      (omega arith) (omega arith) (omega arith) (omega arith)

insert_element-refines_example :
    (w : Vector ℕ) × (insert_element full 2 25 ≡ ok w)
    × IsVector w
    × (contents w ≡ some 10 ∷ some 20 ∷ some 25 ∷ some 30 ∷ some 40 ∷ [])
insert_element-refines_example =
    insert_element-refines full-IsVector 25 2 (omega arith) (inr (refl, omega arith, omega arith))

-- An insertion into a vector that was made with no elements.
allocate_zero : insert_element (allocate {A = ℕ} 0) 0 7 ≡ undefined
unfolding insert_element allocate next_pow_2 smear add64 sub64
allocate_zero = refl
