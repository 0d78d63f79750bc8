-- ===== src/SvLog/Unique.antt =====
-- Records in increasing order are determined by the record at each index.
use risc_v_pipeline_sim.Common.{
  ℕ, ◌<◌, ◌≡◌, refl, sym, ap, ◌∙◌, subst, arith, ◌==◌, none, some, inl, inr, List, [], ◌∷◌, All,
  Bool-cases,
}
use risc_v_pipeline_sim.Trace.{SvRecord}
use risc_v_pipeline_sim.SvLog.Keys.{Increasing}
use risc_v_pipeline_sim.SvLog.Records.{record_at, indices}

record_at-below :
    (idx : ℕ) (rs : List SvRecord) → All (λ y. idx < y) (indices rs) → record_at idx rs ≡ none
record_at-below idx [] h = refl
record_at-below idx (r ∷ rs) h = ground (arith, record_at-below idx rs h.1)

record_at-first : (r : SvRecord) (rs : List SvRecord) → record_at r.idx (r ∷ rs) ≡ some r
record_at-first r rs = ground arith

All-lower : (n k : ℕ) (xs : List ℕ) → n < k → All (λ y. k < y) xs → All (λ y. n < y) xs
All-lower n k [] h a = tt
All-lower n k (x ∷ xs) h a = (omega arith, All-lower n k xs h a.1)

-- A first index that is too small is missing in the other list.
not_smaller :
    (r q : SvRecord) (rs qs : List SvRecord)
    → Increasing (indices (q ∷ qs))
    → record_at r.idx (r ∷ rs) ≡ record_at r.idx (q ∷ qs)
    → r.idx < q.idx
    → ⊥
not_smaller r q rs qs h e lt =
    let absent = record_at-below r.idx (q ∷ qs) (lt, All-lower r.idx q.idx (indices qs) lt h.0) in
    let clash : some r ≡ none = sym (record_at-first r rs) ∙ e ∙ absent in absurd (cc)

-- Behind equal first indices the lists agree at every index.
tails :
    (r q : SvRecord) (rs qs : List SvRecord) (idx : ℕ)
    → Increasing (indices (r ∷ rs))
    → Increasing (indices (q ∷ qs))
    → r.idx ≡ q.idx
    → record_at idx (r ∷ rs) ≡ record_at idx (q ∷ qs)
    → record_at idx rs ≡ record_at idx qs
tails r q rs qs idx h h' same e = elim (Bool-cases (r.idx == idx)) [
  | inl first ↦
      let at_r : r.idx ≡ idx = ground arith in
      let at_q : q.idx ≡ idx = omega arith in
      record_at-below idx rs (subst (λ t. All (λ y. t < y) (indices rs)) at_r h.0)
      ∙ sym (record_at-below idx qs (subst (λ t. All (λ y. t < y) (indices qs)) at_q h'.0))
  | inr other ↦ ground arith
]

pub records_unique :
    (rs qs : List SvRecord)
    → Increasing (indices rs)
    → Increasing (indices qs)
    → ((idx : ℕ) → record_at idx rs ≡ record_at idx qs)
    → rs ≡ qs
records_unique [] [] h h' e = refl
records_unique [] (q ∷ qs) h h' e =
    let clash : none ≡ some q = e q.idx ∙ record_at-first q qs in absurd (cc)
records_unique (r ∷ rs) [] h h' e =
    let clash : some r ≡ none = sym (record_at-first r rs) ∙ e r.idx in absurd (cc)
records_unique (r ∷ rs) (q ∷ qs) h h' e =
    let lower = not_smaller r q rs qs h' (e r.idx) in
    let upper = not_smaller q r qs rs h (sym (e q.idx)) in
    let same_idx : r.idx ≡ q.idx = ground (arith, lower, upper) in
    let found : some r ≡ some q =
      sym (record_at-first r rs)
      ∙ e r.idx
      ∙ ap (λ t. record_at t (q ∷ qs)) same_idx
      ∙ record_at-first q qs in
    let same : r ≡ q = cc in
    let rest = records_unique rs qs h.1 h'.1 (λ idx. tails r q rs qs idx h h' same_idx (e idx)) in
    rw (same, rest) refl
