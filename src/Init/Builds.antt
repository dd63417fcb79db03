-- ===== src/Init/Builds.antt =====
-- Code that ends with a result and only makes new objects, and how it is composed.
use memoir_cs397_atc.Prelude.{
  ℕ, zero, suc, ◌^◌, ◌≤◌, ◌<◌, ◌≡◌, ◌⊎◌, inl, inr, refl, ap, ◌∙◌, some, List, [], ◌∷◌, arith,
  ltb-true, leb-true,
}
use memoir_cs397_atc.Words.{max_size}
use memoir_cs397_atc.Result.{Result, ok, deref}
use memoir_cs397_atc.Types.{TypeInfo, Registry}
use memoir_cs397_atc.Objects.{
  Object, Runtime, Cmd, and_then, pure, ◌>>=◌, lift, new_object, type_info,
}
use memoir_cs397_atc.Sequence.Iterators.{check_size}
use memoir_cs397_atc.Init.{init_fields, repeat, init_list}

abbrev pub All : (ℕ → Type 0) → List ℕ → Type 0
All P [] = Unit {0}
All P (t ∷ ts) = P t × All P ts

-- New objects only: the types and the objects made before stay as they were.
pub record Grows (r r' : Runtime) : Type 0 where
  pub registry : r'.registry ≡ r.registry
  pub next_object : r.next_object ≤ r'.next_object
  pub keeps : (p : ℕ) → p < r.next_object → r'.objects p ≡ r.objects p

-- The code ends and returns a result.
abbrev pub Builds : Registry → {A : Type 0} → Cmd A → Type 0
Builds g {A} m =
    (r : Runtime) → r.registry ≡ g → (a : A) × (r' : Runtime) × (m r ≡ ok (a, r')) × Grows r r'

pub Grows-refl : (r : Runtime) → Grows r r
Grows-refl r = record { registry = refl; next_object = omega arith; keeps = λ p h. refl }

pub Grows-trans : {r s t : Runtime} → Grows r s → Grows s t → Grows r t
Grows-trans g h = record {
  registry = h.registry ∙ g.registry;
  next_object = omega (arith, g.next_object, h.next_object);
  keeps = λ p k. h.keeps p (omega (arith, g.next_object)) ∙ g.keeps p k;
}

module _ (g : Registry) where
  pub Builds-pure : {A : Type 0} (a : A) → Builds g (pure a)
  Builds-pure a r e = (a, r, refl, Grows-refl r)

  pub Builds-bind :
      {A B : Type 0} (m : Cmd A) (k : A → Cmd B)
      → Builds g m
      → ((a : A) → Builds g (k a))
      → Builds g (m >>= k)
  Builds-bind m k first next r e =
      let (a, s, done, grows) = first r e in
      let (b, t, done', grows') = next a s (grows.registry ∙ e) in
      (b, t, rw done done', Grows-trans grows grows')

  pub Builds-new : (o : Object) → Builds g (new_object o)
  Builds-new o r e = (
    r.next_object,
    _,
    refl,
    record { registry = refl; next_object = omega arith; keeps = λ p h. ground arith },
  )

  pub Builds-info :
      {B : Type 0} (t : ℕ) (u : TypeInfo) (k : TypeInfo → Cmd B)
      → g.info t ≡ some u
      → Builds g (k u)
      → Builds g (type_info t >>= k)
  Builds-info t u k known next r e =
      let (b, s, done, grows) = next r e in
      let found = ap (λ (h : Registry). h.info t) e ∙ known in
      (b, s, ap (λ o. and_then (lift (deref o) r) k) found ∙ done, grows)

  pub Builds-lift :
      {A B : Type 0} (m : Result A) (a : A) (k : A → Cmd B)
      → m ≡ ok a
      → Builds g (k a)
      → Builds g (lift m >>= k)
  Builds-lift m a k known next r e =
      let (b, s, done, grows) = next r e in (b, s, rw known done, grows)

  pub Builds-repeat : (n : ℕ) (m : Cmd ℕ) → ((n ≡ 0) ⊎ Builds g m) → Builds g (repeat n m)
  unfolding repeat
  Builds-repeat zero m b = Builds-pure []
  Builds-repeat (suc n) m (inl none_left) = absurd (omega arith)
  Builds-repeat (suc n) m (inr b) =
      Builds-bind m _ b
        λ x. Builds-bind (repeat n m) _ (Builds-repeat n m (inr b)) λ xs. Builds-pure (x ∷ xs)

  pub Builds-list :
      (n : ℕ) (m : Cmd ℕ) → n < 2 ^ 31 → ((n ≡ 0) ⊎ Builds g m) → Builds g (init_list n m)
  unfolding init_list check_size
  Builds-list n m small b =
      rw (leb-true n max_size (omega arith), ltb-true n (2 ^ 31) small) (Builds-repeat n m b)

  pub Builds-fields :
      (init : ℕ → Cmd ℕ) (P : ℕ → Type 0)
      → ((t : ℕ) → P t → Builds g (init t))
      → (ts : List ℕ) → All P ts
      → Builds g (init_fields init ts)
  unfolding init_fields
  Builds-fields init P each [] h = Builds-pure []
  Builds-fields init P each (t ∷ ts) h = Builds-bind (init t) _ (each t h.0) λ x.
      Builds-bind (init_fields init ts) _ (Builds-fields init P each ts h.1)
        λ xs. Builds-pure (x ∷ xs)
