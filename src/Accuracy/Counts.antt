-- ===== src/Accuracy/Counts.antt =====
-- What compare_accuracy.py counts, for any two logs.
use risc_v_pipeline_sim.Common.{
  ℕ, ◌+◌, ◌≤◌, ◌<◌, ◌≡◌, refl, ◌⊎◌, inl, inr, arith, Option, none, some, List, [], ◌∷◌, length,
  length-append, ltb, min, Text, Bool-cases, ◌==◌,
}
use risc_v_pipeline_sim.Trace.{SpikeRecord, SvRecord, spike_pc, sv_pc, trim_loop, trim_boot_stub}
use risc_v_pipeline_sim.Trace.Truncate.{cut, starts_run}
use risc_v_pipeline_sim.Trace.Whole.{trunc_spike-cut, trunc_sv-cut}
use risc_v_pipeline_sim.Trace.Compare.{
  Verdict, Report, count_round, check_record, compare_loop, compare_cut, compare_records,
}
use risc_v_pipeline_sim.SpikeLog.Scan.{parse_spike_log}
use risc_v_pipeline_sim.SvLog.{parse_sv_log}
use risc_v_pipeline_sim.Accuracy.{compare_logs}

-- After n rounds: every round is counted as passed or listed, until fifteen are listed.
abbrev pub Counted : ℕ → Report → Type 0
Counted n report =
    (report.total ≡ n)
    × (report.passed + length report.mismatches ≤ n)
    × ((report.passed + length report.mismatches ≡ n) ⊎ (length report.mismatches ≡ 15))
    × (length report.mismatches ≤ 15)

count_round-Counted :
    (n i : ℕ) (sp : SpikeRecord) (sv : SvRecord) (v : Verdict) (report : Report)
    → Counted n report
    → Counted (n + 1) (count_round i sp sv v report)
unfolding count_round
count_round-Counted n i sp sv v report (t, le, all, few) = elim (Bool-cases v.ok) [
  | inl ok ↦
      rw ok (omega arith, omega arith, elim all [ inl e ↦ inl (omega arith) | inr e ↦ inr e ], few)
  | inr bad ↦ elim (Bool-cases (ltb (length report.mismatches) 15)) [
    | inl room ↦
        let one_more =
          length-append report.mismatches
            (record { idx = i; spike = sp; sv = sv; reasons = v.reasons } ∷ []) in
        rw (bad, room)
          (
            omega arith,
            omega (arith, one_more),
            elim all [ inl e ↦ inl (omega (arith, one_more)) | inr e ↦ absurd (ground arith) ],
            ground (arith, one_more),
          )
    | inr full ↦ rw (bad, full) (omega arith, omega arith, inr (ground arith), few)
  ]
]

compare_loop-Counted :
    (p q i n : ℕ) (sps : List SpikeRecord) (svs : List SvRecord) (report : Report)
    → Counted n report
    → Counted (n + min (length sps) (length svs)) (compare_loop p q i sps svs report)
unfolding compare_loop
compare_loop-Counted p q i n [] svs report c =
    let same : n + min (length {A = SpikeRecord} []) (length svs) ≡ n = omega arith in rw same c
compare_loop-Counted p q i n (sp ∷ sps) [] report c =
    let same : n + min (length (sp ∷ sps)) (length {A = SvRecord} []) ≡ n = omega arith in rw same c
compare_loop-Counted p q i n (sp ∷ sps) (sv ∷ svs) report c =
    let same : n + min (length (sp ∷ sps)) (length (sv ∷ svs))
        ≡ n + 1 + min (length sps) (length svs) =
      omega arith in
    rw same (
      compare_loop-Counted p q (i + 1) (n + 1) sps svs
        (count_round i sp sv (check_record p q sp sv) report)
        (count_round-Counted n i sp sv (check_record p q sp sv) report c))

-- The report of two traces with the sizes of both.
abbrev pub Accounts : (raw raw' kept kept' : ℕ) → Option Report → Type 0
Accounts raw raw' kept kept' none = (raw ≡ 0) ⊎ (raw' ≡ 0)
Accounts raw raw' kept kept' (some report) =
    (0 < raw) × (0 < raw') × (0 < report.total) × Counted (min kept kept') report

-- A cut leaves at most as many records, and some where there are any.
abbrev Shorter : {A : Type 0} → List A → List A → Type 0
Shorter xs ys =
    (length ys ≤ length xs)
    × ((length ys ≡ 0) ⊎ (0 < length xs))
    × ((length xs ≡ 0) ⊎ (0 < length ys))

cut-Shorter : {A : Type 0} (pc_of : A → ℕ) (k : ℕ) (xs : List A) → Shorter xs (cut pc_of k xs)
cut-Shorter pc_of k [] = (omega arith, inl refl, inl refl)
cut-Shorter pc_of k (x ∷ xs) = elim (Bool-cases (starts_run pc_of k (x ∷ xs))) [
  | inl run ↦ rw run (omega arith, inr (omega arith), inr (omega arith))
  | inr other ↦
      let ih = (cut-Shorter pc_of k xs).0 in
      rw other (omega arith, inr (omega arith), inr (omega arith))
]

trim_loop-Shorter :
    (records : List SpikeRecord) (entry : ℕ) (later : List SpikeRecord)
    → length later ≤ length records
    → Shorter records (trim_loop records entry later)
unfolding trim_loop
trim_loop-Shorter [] entry [] h = (omega arith, inl refl, inl refl)
trim_loop-Shorter (r ∷ records) entry [] h = (omega arith, inr (omega arith), inr (omega arith))
trim_loop-Shorter records entry (r ∷ later) h = elim (Bool-cases (r.pc == entry)) [
  | inl here ↦ rw here (h, inr (omega arith), inr (omega arith))
  | inr other ↦ rw other (trim_loop-Shorter records entry later (omega arith))
]

compare_cut-Accounts :
    (raw raw' : ℕ) (sps : List SpikeRecord) (svs : List SvRecord)
    → ((raw ≡ 0) ⊎ (0 < length sps))
    → ((length sps ≡ 0) ⊎ (0 < raw))
    → ((raw' ≡ 0) ⊎ (0 < length svs))
    → ((length svs ≡ 0) ⊎ (0 < raw'))
    → Accounts raw raw' (length sps) (length svs) (compare_cut sps svs)
unfolding compare_cut
compare_cut-Accounts raw raw' [] svs h h' k k' = inl (ground arith)
compare_cut-Accounts raw raw' (sp ∷ sps) [] h h' k k' = inr (ground arith)
compare_cut-Accounts raw raw' (sp ∷ sps) (sv ∷ svs) h h' k k' =
    let counted =
      compare_loop-Counted sp.pc sv.pc 0 0 (sp ∷ sps) (sv ∷ svs)
        (record { total = 0; passed = 0; mismatches = [] })
        (refl, omega arith, inl (omega arith), omega arith) in
    let same : 0 + min (length (sp ∷ sps)) (length (sv ∷ svs))
        ≡ min (length (sp ∷ sps)) (length (sv ∷ svs)) =
      omega arith in
    let c = rw same at counted in (ground arith, ground arith, omega (arith, c.0), c)

-- For any texts of the two logs: no report is given exactly when one of them has no record at all.
-- Otherwise some records are compared, as many as the shorter of the cut traces has; the records
-- passed and the mismatches listed are together at most these, and all of these unless fifteen
-- mismatches are listed, which is the most. What is taken off Spike's trace in front and what is
-- kept are together at most all of it, and of the core's trace no more is kept than there is.
pub compare_logs-Accounts :
    (spike_log sv_log : Text)
    → let output = compare_logs spike_log sv_log in
      Accounts output.spike_raw output.sv_raw output.spike_kept output.sv_kept output.report
      × (output.boot_stub + output.spike_kept ≤ output.spike_raw)
      × (output.sv_kept ≤ output.sv_raw)
unfolding compare_logs compare_records trim_boot_stub
compare_logs-Accounts spike_log sv_log =
    let raw = (parse_spike_log spike_log).0 in
    let raw' = (parse_sv_log sv_log).0 in
    let trimmed = trim_loop raw 0x80000000 raw in
    let (t, t', t'') = trim_loop-Shorter raw 0x80000000 raw (omega arith) in
    let (c, c', c'') = cut-Shorter spike_pc 3 trimmed in
    let (d, d', d'') = cut-Shorter sv_pc 3 raw' in
    rw (trunc_spike-cut trimmed, trunc_sv-cut raw')
      (
        compare_cut-Accounts (length raw) (length raw') (cut spike_pc 3 trimmed) (cut sv_pc 3 raw')
            (ground arith) (ground arith) d'' d',
        omega arith,
        d,
      )
