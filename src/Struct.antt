-- ===== src/Struct.antt =====
-- The methods of `Struct` in runtime/src/detail/objects.cpp.
use memoir_cs397_atc.Prelude.{
  ℕ, ◌≡◌, ◌≢◌, ◌<◌, ◌≤◌, ◌∙◌, Option, none, some, List, ltb, length, get_elem?, set, arith,
  ltb-true, ltb-false, ==-false, get_elem?-in_bounds, get_elem?-set_self, get_elem?-set_ne,
  length-set, if◌then◌else◌, ◌==◌, Bool-cases, inl, inr,
}
use memoir_cs397_atc.Result.{ok, thrown, assert_failed, assert, deref}
use memoir_cs397_atc.Types.{update}
use memoir_cs397_atc.Objects.{
  Object, struct_object, Runtime, Cmd, ◌>>=◌, ◌>>◌, lift, load, store, new_object,
}

abbrev pub as_struct : Object → Option (ℕ × List ℕ)
as_struct (struct_object t fs) = some (t, fs)
as_struct o = none

unfoldable pub load_struct : ℕ → Cmd (ℕ × List ℕ)
load_struct p = do o ← load p; lift (deref (as_struct o))

unfoldable pub get_field : ℕ → ℕ → Cmd ℕ
get_field p field_index = do
  this ← load_struct p
  lift (assert (ltb field_index (length this.1)))
  lift (elim (get_elem? this.1 field_index) [ none ↦ thrown | some v ↦ ok v ])

unfoldable pub set_field : ℕ → ℕ → ℕ → Cmd (Unit {0})
set_field p value field_index = do
  this ← load_struct p
  lift (assert (ltb field_index (length this.1)))
  store p (struct_object this.0 (set this.1 field_index value))

-- `new Struct(other)`: the fields are not copied deeply.
unfoldable pub clone_struct : ℕ → Cmd ℕ
clone_struct other = do this ← load_struct other; new_object (struct_object this.0 this.1)

pub record IsStruct (r : Runtime) (p t : ℕ) (fs : List ℕ) : Type 0 where
  pub not_null : p ≢ 0
  pub holds : r.objects p ≡ some (struct_object t fs)

-- The runtime in which the fields are others.
abbrev pub with_fields : Runtime → ℕ → ℕ → List ℕ → Runtime
with_fields r p t fs = record r { objects = update r.objects p (struct_object t fs) }

module _ {r : Runtime} {p t : ℕ} {fs : List ℕ} (v : IsStruct r p t fs) where
  load_struct-ok : load_struct p r ≡ ok ((t, fs), r)
  unfolding load_struct load
  load_struct-ok = rw (==-false p 0 v.not_null, v.holds)

  pub get_field-ok :
      (k x : ℕ) → k < length fs → get_elem? fs k ≡ some x → get_field p k r ≡ ok (x, r)
  unfolding get_field
  get_field-ok k x h e = rw (load_struct-ok, ltb-true k (length fs) h, e)

  pub set_field-ok :
      (value k : ℕ)
      → k < length fs
      → set_field p value k r ≡ ok (tt, with_fields r p t (set fs k value))
  unfolding set_field
  set_field-ok value k h = rw (load_struct-ok, ltb-true k (length fs) h)

  pub with_fields-IsStruct : (gs : List ℕ) → IsStruct (with_fields r p t gs) p t gs
  with_fields-IsStruct gs = record { not_null = v.not_null; holds = ground arith }

  -- Outside the fields of a struct, the read and the write fail their assertions.
  pub field-outside :
      (value k : ℕ)
      → length fs ≤ k
      → (get_field p k r ≡ assert_failed) × (set_field p value k r ≡ assert_failed)
  unfolding get_field set_field
  field-outside value k h = (
    rw (load_struct-ok, ltb-false k (length fs) h),
    rw (load_struct-ok, ltb-false k (length fs) h),
  )

module _ {r : Runtime} {p t : ℕ} {fs : List ℕ} (v : IsStruct r p t fs) where
  field-set :
      (value k l x : ℕ)
      → k < length fs
      → get_elem? fs l ≡ some x
      → get_elem? (set fs k value) l ≡ some (if k == l then value else x)
  field-set value k l x h e = elim (Bool-cases (k == l)) [
    | inl same ↦ let eq : k ≡ l = ground arith in rw (same, ← eq) (get_elem?-set_self fs k value h)
    | inr other ↦ let ne : k ≢ l = ground arith in rw other (get_elem?-set_ne fs value ne ∙ e)
  ]

  -- After a write of a field in range, a read of it returns the value, and a read of any other
  -- field what it returned before.
  pub set_field-get :
      (value k l : ℕ)
      → k < length fs
      → l < length fs
      → let r' = with_fields r p t (set fs k value) in
        (x : ℕ) × (get_field p l r ≡ ok (x, r))
        × (set_field p value k r ≡ ok (tt, r'))
        × (get_field p l r' ≡ ok (if k == l then value else x, r'))
  set_field-get value k l hk hl =
      let (x, found) = get_elem?-in_bounds fs l hl in
      let w = with_fields-IsStruct v (set fs k value) in
      (
        x,
        get_field-ok v l x hl found,
        set_field-ok v value k hk,
        get_field-ok w l (if k == l then value else x) (omega (arith, length-set fs k value))
            (field-set value k l x hk found),
      )
