-- ===== src/Trace/Whole.antt =====
-- `compare` on whole traces.
use risc_v_pipeline_sim.Common.{
  ℕ, ◌-◌, ◌≤◌, ◌<◌, ◌≡◌, refl, ◌∙◌, subst, inl, inr, arith, min, some, List, [], ◌∷◌, ◌++◌, length,
  All, Bool-cases,
}
use risc_v_pipeline_sim.Trace.{
  SpikeRecord, SvRecord, spike_pc, sv_pc, trunc_spike, trunc_sv, trim_boot_stub,
}
use risc_v_pipeline_sim.Trace.Truncate.{starts_run, cut, truncate_at_self_loop-cut}
use risc_v_pipeline_sim.Trace.SelfLoop.{trim_boot_stub-cases}
use risc_v_pipeline_sim.Trace.Compare.{Report, compare_loop, compare_cut, compare_records}
use risc_v_pipeline_sim.Trace.Accuracy.{
  SpikeWords, SvWords, Agreeing, IsMismatch, compare_loop-Agreeing,
}

module _ {A : Type 0} (pc_of : A → ℕ) where
  -- The pc of the first record.
  abbrev pub first_pc : List A → ℕ
  first_pc [] = 0
  first_pc (r ∷ rest) = pc_of r

  All-cut : (P : A → Type 0) (k : ℕ) (xs : List A) → All P xs → All P (cut pc_of k xs)
  All-cut P k [] h = tt
  All-cut P k (x ∷ xs) h = elim (Bool-cases (starts_run pc_of k (x ∷ xs))) [
    | inl run ↦ rw run (h.0, tt)
    | inr other ↦ rw other (h.0, All-cut P k xs h.1)
  ]

  -- A first record stays the first.
  pub cut-first :
      (k : ℕ) (x : A) (xs : List A) → (rest : List A) × (cut pc_of k (x ∷ xs) ≡ x ∷ rest)
  cut-first k x xs = elim (Bool-cases (starts_run pc_of k (x ∷ xs))) [
    | inl run ↦ rw run ([], refl)
    | inr other ↦ rw other (cut pc_of k xs, refl)
  ]

pub trunc_spike-cut : (records : List SpikeRecord) → trunc_spike records ≡ cut spike_pc 3 records
unfolding trunc_spike
trunc_spike-cut records = truncate_at_self_loop-cut spike_pc 3 records (omega arith)

pub trunc_sv-cut : (records : List SvRecord) → trunc_sv records ≡ cut sv_pc 3 records
unfolding trunc_sv
trunc_sv-cut records = truncate_at_self_loop-cut sv_pc 3 records (omega arith)

-- What the report says of two traces cut to size.
abbrev pub Reports : List SpikeRecord → List SvRecord → Report → Type 0
Reports sps svs report =
    (k : ℕ) × Agreeing (first_pc spike_pc sps) (first_pc sv_pc svs) sps svs k
    × (report.total ≡ min (length sps) (length svs))
    × (report.passed ≡ k)
    × (k ≤ report.total)
    × (length report.mismatches ≡ min 15 (report.total - k))
    × All (IsMismatch (first_pc spike_pc sps) (first_pc sv_pc svs)) report.mismatches

pub compare_cut-Reports :
    (sp : SpikeRecord) (sps : List SpikeRecord) (sv : SvRecord) (svs : List SvRecord)
    → All SpikeWords (sp ∷ sps)
    → All SvWords (sv ∷ svs)
    → (report : Report) × (compare_cut (sp ∷ sps) (sv ∷ svs) ≡ some report)
      × Reports (sp ∷ sps) (sv ∷ svs) report
unfolding compare_cut
compare_cut-Reports sp sps sv svs h h' =
    let start : Report = record { total = 0; passed = 0; mismatches = [] } in
    let (k, a, (t, p, s, l, all)) =
      compare_loop-Agreeing sp.pc sv.pc 0 (sp ∷ sps) (sv ∷ svs) start h.0.0 h'.0.0 h h'
        (omega arith, tt) in
    (
      compare_loop sp.pc sv.pc 0 (sp ∷ sps) (sv ∷ svs) start,
      refl,
      (k, a, omega arith, omega arith, omega arith, omega arith, all),
    )

All-suffix : {A : Type 0} (P : A → Type 0) (xs ys : List A) → All P (xs ++ ys) → All P ys
All-suffix P [] ys h = h
All-suffix P (x ∷ xs) ys h = All-suffix P xs ys h.1

-- The boot stub is taken off a trace of words, and a first record is left.
trim_boot_stub-words :
    (sp : SpikeRecord) (sps : List SpikeRecord) (entry : ℕ)
    → All SpikeWords (sp ∷ sps)
    → (r : SpikeRecord) × (rest : List SpikeRecord) × (trim_boot_stub (sp ∷ sps) entry ≡ r ∷ rest)
      × All SpikeWords (r ∷ rest)
trim_boot_stub-words sp sps entry h = elim (trim_boot_stub-cases (sp ∷ sps) entry) [
  | inl (before, r, rest, e, away, at, et) ↦
      (r, rest, et, All-suffix SpikeWords before (r ∷ rest) (subst (All SpikeWords) e h))
  | inr (away, et) ↦ (sp, sps, et, h)
]

-- For two traces of words, neither of them empty, there is a report: its total is the length of the
-- shorter of the cut traces, `passed` the number of positions at which the records agree, and it
-- lists the first fifteen of the others, each a pair that does not agree.
pub compare_records-Reports :
    (sp : SpikeRecord) (sps : List SpikeRecord) (sv : SvRecord) (svs : List SvRecord)
    → All SpikeWords (sp ∷ sps)
    → All SvWords (sv ∷ svs)
    → (report : Report) × (compare_records (sp ∷ sps) (sv ∷ svs) ≡ some report)
      × (0 < report.total)
      × Reports (trunc_spike (trim_boot_stub (sp ∷ sps) 0x80000000)) (trunc_sv (sv ∷ svs)) report
unfolding compare_records
compare_records-Reports sp sps sv svs h h' =
    let (r, rest, et, w) = trim_boot_stub-words sp sps 0x80000000 h in
    let (cut_sps, e) = cut-first spike_pc 3 r rest in
    let (cut_svs, e') = cut-first sv_pc 3 sv svs in
    let ws = subst (All SpikeWords) e (All-cut spike_pc SpikeWords 3 (r ∷ rest) w) in
    let ws' = subst (All SvWords) e' (All-cut sv_pc SvWords 3 (sv ∷ svs) h') in
    let (report, er, more) = compare_cut-Reports r cut_sps sv cut_svs ws ws' in
    rw (et, trunc_spike-cut (r ∷ rest) ∙ e, trunc_sv-cut (sv ∷ svs) ∙ e')
      (report, er, omega (arith, more.2), more)
