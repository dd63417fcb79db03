-- ===== src/Backend/Vector/Insert.antt =====
-- `T##_vector__insert_element`
use memoir_cs397_atc.Prelude.{
  ℕ, ◌+◌, ◌-◌, ◌*◌, ◌^◌, ◌≤◌, ◌<◌, ◌≡◌, inl, inr, refl, ap, sym, ◌∙◌, ◌&&◌, true, Option, none,
  some, List, [], ◌∷◌, arith, ltb, leb, ltb-true, ltb-false, if◌then◌else◌, ◌==◌, length, get_elem?,
  set, take, replicate, get_elem?-ext, length-set, length-append, length-take, length-replicate,
  Bool-cases,
}
use memoir_cs397_atc.Words.{add64-small, sub64-small, add64, sub64}
use memoir_cs397_atc.Std.Vector.{insert_range}
use memoir_cs397_atc.Std.Pointwise.{
  get_elem?-insert_range, get_elem?-set, get_elem?-append, get_elem?-take,
}
use memoir_cs397_atc.Result.{Result, ok, undefined}
use memoir_cs397_atc.Backend.Vector.{
  Vector, size, write_cell, copy_cells, reallocate, element_in_place, insert_element,
}
use memoir_cs397_atc.Backend.Vector.Valid.{
  IsVector, contents, contents_at, length-contents, copy_cells-at, copy_cells-overruns, size-ok,
}

module _ {A : Type 0} where
  pub write_cell-ok :
      (xs : List (Option A)) (i : ℕ) (x : A)
      → i < length xs
      → write_cell xs i x ≡ ok (set xs i (some x))
  unfolding write_cell
  write_cell-ok xs i x h = rw (ltb-true i (length xs) h)

  -- What a vector holds after an insertion, by indices.
  pub inserted_at :
      {v : Vector A}
      → IsVector v
      → (start : ℕ) (src : List (Option A)) (w : Vector A) → start ≤ v.back - v.front
      → ((k : ℕ)
          → get_elem? (contents w) k ≡ (
              if ltb k start
              then get_elem? (contents v) k
              else if ltb k (start + length src)
              then get_elem? src (k - start)
              else get_elem? (contents v) (k - length src)))
      → contents w ≡ insert_range start src (contents v)
  inserted_at {v} valid start src w h at =
      get_elem?-ext (contents w) (insert_range start src (contents v)) λ k.
        at k
        ∙ sym
            (get_elem?-insert_range start src (contents v) k (omega (arith, length-contents valid)))

  module _ {w : Vector A} (valid : IsVector w) (start : ℕ) (x : A) (h : start ≤ w.back - w.front)
      (room : w.back < w.max_size) (ys : List (Option A)) (len : length ys ≡ w.max_size)
      (low : (k : ℕ) → k < start → get_elem? ys (w.front + k) ≡ get_elem? w.storage (w.front + k))
      (high : (k : ℕ)
        → start ≤ k
        → k < w.back - w.front
        → get_elem? ys (w.front + (k + 1)) ≡ get_elem? w.storage (w.front + k)) where
    -- The element written into the gap of the storage `ys`.
    abbrev grown : Vector A
    grown = record w { storage = set ys (w.front + start) (some x); back = w.back + 1 }

    grown-IsVector : IsVector grown
    grown-IsVector = record {
      ordered = omega (arith, valid.ordered);
      within = omega arith;
      sized = length-set ys (w.front + start) (some x) ∙ len;
      small = valid.small;
    }

    grown_at :
        (k : ℕ)
        → get_elem? (contents grown) k ≡ (
            if ltb k start
            then get_elem? (contents w) k
            else if ltb k (start + 1)
            then get_elem? (some x ∷ []) (k - start)
            else get_elem? (contents w) (k - 1))
    grown_at k = elim (Bool-cases (ltb k start)) [
      | inl before ↦ ground (
        arith,
        contents_at grown k,
        contents_at w k,
        get_elem?-set ys (w.front + start) (w.front + k) (some x),
        low k,
        valid.ordered,
      )
      | inr behind ↦ elim (Bool-cases (k == start)) [
        | inl here ↦ ground (
          arith,
          contents_at grown k,
          get_elem?-set ys (w.front + start) (w.front + k) (some x),
          valid.ordered,
        )
        | inr later ↦
            let next : w.front + k ≡ w.front + (k - 1 + 1) = ground arith in
            ground (
              arith,
              contents_at grown k,
              contents_at w (k - 1),
              get_elem?-set ys (w.front + start) (w.front + k) (some x),
              high (k - 1),
              ap (get_elem? ys) next,
              valid.ordered,
            )
      ]
    ]

    grown-contents : contents grown ≡ insert_range start (some x ∷ []) (contents w)
    grown-contents = inserted_at valid start (some x ∷ []) grown h grown_at

  module _ (v : Vector A) {w : Vector A} (valid : IsVector w) (start : ℕ) (x : A)
      (h : start ≤ w.back - w.front) where
    -- An insertion ends with a valid vector that holds the value too.
    abbrev pub Inserted : Result (Vector A) → Type 0
    Inserted m =
        (u : Vector A) × (m ≡ ok u)
        × IsVector u
        × (contents u ≡ insert_range start (some x ∷ []) (contents w))

    idx-ok : add64 w.front start ≡ w.front + start
    idx-ok = add64-small w.front start (omega (arith, valid.ordered, valid.within, valid.small))

    rest-ok : sub64 (w.back - w.front) start ≡ w.back - w.front - start
    rest-ok = sub64-small (w.back - w.front) start h (omega (arith, valid.within, valid.small))

    module _ (room : w.back < w.max_size) where
      -- The storage after the elements from the index on moved up.
      with_gap :
          (ys : List (Option A)) (len : length ys ≡ w.max_size)
          (at : (i : ℕ)
            → get_elem? ys i ≡ (
                if leb (w.front + start + 1) i
                  && ltb i (w.front + start + 1 + (w.back - w.front - start))
                then get_elem? w.storage (w.front + start + (i - (w.front + start + 1)))
                else get_elem? w.storage i))
          → copy_cells w.storage
              (w.front + start + 1)
              w.storage
              (w.front + start)
              (w.back - w.front - start)
            ≡ ok ys
          → ltb (w.front + start) w.back ≡ true
          → Inserted (element_in_place v start x w)
      unfolding element_in_place
      with_gap ys len at done inner =
          let fits : w.front + start < length ys = omega (arith, valid.ordered) in
          let low : (k : ℕ)
              → k < start
              → get_elem? ys (w.front + k) ≡ get_elem? w.storage (w.front + k) =
            λ k lt. ground (arith, at (w.front + k)) in
          let high : (k : ℕ)
              → start ≤ k
              → k < w.back - w.front
              → get_elem? ys (w.front + (k + 1)) ≡ get_elem? w.storage (w.front + k) =
            λ k ge lt. ground (arith, at (w.front + (k + 1))) in
          (
            grown valid start x h room ys len low high,
            rw
                (
                  idx-ok,
                  inner,
                  add64-small (w.front + start) 1 (omega (arith, valid.ordered, valid.small)),
                  size-ok valid,
                  rest-ok,
                  done,
                  write_cell-ok ys (w.front + start) x fits,
                  add64-small w.back 1 (omega (arith, valid.small)),
                )
                refl,
            grown-IsVector valid start x h room ys len low high,
            grown-contents valid start x h room ys len low high,
          )

      pub in_place-ok : Inserted (element_in_place v start x w)
      unfolding element_in_place
      in_place-ok = elim (Bool-cases (ltb (w.front + start) w.back)) [
        | inl inner ↦
            let (ys, done, len, at) =
              copy_cells-at w.storage (w.front + start + 1) w.storage (w.front + start)
                (w.back - w.front - start) (omega (arith, valid.ordered, valid.sized))
                (omega (arith, valid.ordered, valid.within, valid.sized)) in
            with_gap ys (len ∙ valid.sized) at done inner
        | inr last ↦
            let fits : w.front + start < length w.storage =
              omega (arith, valid.sized, valid.ordered) in
            let low : (k : ℕ)
                → k < start
                → get_elem? w.storage (w.front + k) ≡ get_elem? w.storage (w.front + k) =
              λ k lt. refl in
            let high : (k : ℕ)
                → start ≤ k
                → k < w.back - w.front
                → get_elem? w.storage (w.front + (k + 1)) ≡ get_elem? w.storage (w.front + k) =
              λ k ge lt. absurd (ground (arith, valid.ordered)) in
            (
              grown valid start x h room w.storage valid.sized low high,
              rw
                  (
                    idx-ok,
                    last,
                    write_cell-ok w.storage (w.front + start) x fits,
                    add64-small w.back 1 (omega (arith, valid.small)),
                  )
                  refl,
              grown-IsVector valid start x h room w.storage valid.sized low high,
              grown-contents valid start x h room w.storage valid.sized low high,
            )
      ]

    -- Without one, the move or the write leaves the storage.
    in_place-overruns : w.back ≡ w.max_size → element_in_place v start x w ≡ undefined
    unfolding element_in_place write_cell
    in_place-overruns full = elim (Bool-cases (ltb (w.front + start) w.back)) [
      | inl inner ↦ rw (
        idx-ok,
        inner,
        add64-small (w.front + start) 1 (omega (arith, valid.ordered, valid.within, valid.small)),
        size-ok valid,
        rest-ok,
        copy_cells-overruns w.storage (w.front + start + 1) w.storage (w.front + start)
            (w.back - w.front - start) (ground (arith, valid.sized, valid.ordered))
            (omega (arith, valid.sized, valid.ordered)),
      )
      | inr last ↦ rw (
        idx-ok,
        last,
        ltb-false (w.front + start) (length w.storage) (ground (arith, valid.sized)),
      )
    ]

  module _ {v : Vector A} (valid : IsVector v) (start : ℕ) (x : A)
      (h : start ≤ v.back - v.front) where
    pub next_size : add64 (size v) 1 ≡ v.back - v.front + 1
    next_size =
        ap (λ n. add64 n 1) (size-ok valid)
        ∙ add64-small (v.back - v.front) 1 (omega (arith, valid.within, valid.small))

    -- With free cells in front and none behind, the insertion leaves the storage.
    pub insert_element-overruns :
        0 < v.front → v.back ≡ v.max_size → insert_element v start x ≡ undefined
    unfolding insert_element
    insert_element-overruns slack full = rw (
      next_size,
      ltb-false v.max_size (v.back - v.front + 1) (omega (arith, valid.ordered)),
      in_place-overruns v valid start x h full,
    )

    -- The storage of twice the size.
    abbrev pub doubled : Vector A
    doubled = reallocate v (v.max_size * 2)

    doubled-at : (i : ℕ) → i < v.max_size → get_elem? doubled.storage i ≡ get_elem? v.storage i
    unfolding reallocate
    doubled-at i lt =
        get_elem?-append (take (v.max_size * 2) v.storage)
          (replicate (v.max_size * 2 - v.max_size) none) i
        ∙ ground (
          arith,
          length-take (v.max_size * 2) v.storage,
          get_elem?-take (v.max_size * 2) v.storage i,
          valid.sized,
        )

    pub doubled-IsVector : v.max_size < 2 ^ 59 → IsVector doubled
    unfolding reallocate
    doubled-IsVector small = record {
      ordered = valid.ordered;
      within = omega (arith, valid.within);
      sized =
          length-append (take (v.max_size * 2) v.storage)
            (replicate (v.max_size * 2 - v.max_size) none)
          ∙ omega (
            arith,
            length-take (v.max_size * 2) v.storage,
            length-replicate {A = Option A} (v.max_size * 2 - v.max_size) none,
            valid.sized,
          );
      small = omega arith;
    }

    pub doubled-contents : contents doubled ≡ contents v
    unfolding reallocate
    doubled-contents = get_elem?-ext (contents doubled) (contents v) λ k. ground (
      arith,
      contents_at doubled k,
      contents_at v k,
      doubled-at (v.front + k),
      valid.within,
      valid.ordered,
    )
