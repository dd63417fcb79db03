-- ===== src/Sequence/Frame.antt =====
-- A change of one vector leaves the sequences over other vectors valid.
use memoir_cs397_atc.Prelude.{ℕ, ◌≢◌, List, arith}
use memoir_cs397_atc.Objects.{Runtime}
use memoir_cs397_atc.Sequence.Valid.{Owns, alloc, view, IsSequence}
use memoir_cs397_atc.Sequence.Elements.{with_vector}

module _ {r : Runtime} {p t : ℕ} {xs : List ℕ} (o : Owns r p t xs) (zs : List ℕ) where
  pub Owns-frame :
      {s u : ℕ} {ys : List ℕ} → Owns r s u ys → s ≢ p → Owns (with_vector r p t zs) s u ys
  Owns-frame w apart = record { not_null = w.not_null; holds = ground (arith, w.holds) }

  pub IsSequence-frame :
      {q u s i j : ℕ} {ys : List ℕ}
      → IsSequence r q u s i j ys
      → s ≢ p
      → IsSequence (with_vector r p t zs) q u s i j ys
  IsSequence-frame w apart = record {
    shape = elim w.shape [
      | alloc same first all ↦ alloc same first all
      | view n holds ↦ view n (ground (arith, o.holds))
    ];
    owns = Owns-frame w.owns apart;
    type_not_null = w.type_not_null;
    element_type = w.element_type;
    typed = w.typed;
    ordered = w.ordered;
    within = w.within;
    fits = w.fits;
  }
