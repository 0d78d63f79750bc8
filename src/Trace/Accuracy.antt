-- ===== src/Trace/Accuracy.antt =====
-- What `compare` counts.
use risc_v_pipeline_sim.Common.{
  ℕ, suc, ◌+◌, ◌-◌, ◌%◌, ◌^◌, ◌≤◌, ◌≡◌, refl, ◌⊎◌, inl, inr, arith, min, true, false, List, [], ◌∷◌,
  length, length-append, All, All-append, Bool-cases, ltb,
}
use risc_v_pipeline_sim.Trace.{SpikeRecord, SvRecord}
use risc_v_pipeline_sim.Trace.Compare.{
  Verdict, check_pc, check_reg, check_mem, check_record, Report, Mismatch, count_round,
  compare_loop,
}
use risc_v_pipeline_sim.Trace.Agreement.{
  IsWord, AreWords, SameWrite, SameStore, effect, Judged, accepted, rejected, check_pc-Judged,
  check_reg-Judged, check_mem-Judged,
}

abbrev pub SpikeWords : SpikeRecord → Type 0
SpikeWords r = IsWord r.pc × AreWords r.reg × AreWords r.mem

abbrev pub SvWords : SvRecord → Type 0
SvWords r = IsWord r.pc × AreWords r.reg × AreWords r.mem

-- The two records are as far from the start of their trace, write the same and store the same.
abbrev pub Agrees : (spike_base sv_base : ℕ) → SpikeRecord → SvRecord → Type 0
Agrees spike_base sv_base sp sv =
    ((sp.pc + sv_base) % 2 ^ 32 ≡ (sv.pc + spike_base) % 2 ^ 32)
    × SameWrite (effect sp.reg) (effect sv.reg)
    × SameStore sp.mem sv.mem

-- The verdict says whether P, and a refusal has its reason.
abbrev pub Decides : Type 0 → Verdict → Type 0
Decides P v =
    (P × (v.ok ≡ true) × (v.reasons ≡ []))
    ⊎ (¬ P × (v.ok ≡ false) × (1 ≤ length v.reasons) × (length v.reasons ≤ 3))

-- As `Decides`, behind at most k checks.
abbrev Decided : ℕ → Type 0 → Verdict → Type 0
Decided k P v =
    (P × (v.ok ≡ true) × (v.reasons ≡ []))
    ⊎ (¬ P × (v.ok ≡ false) × (1 ≤ length v.reasons) × (length v.reasons ≤ k))

Decided-Judged :
    (P Q : Type 0) (k : ℕ) (v v' : Verdict)
    → Decided k P v
    → Judged Q v v'
    → Decided (suc k) (P × Q) v'
Decided-Judged P Q k v v' (inl (p, e, er)) (accepted q eq) = rw eq (inl ((p, q), e, er))
Decided-Judged P Q k v v' (inl (p, e, er)) (rejected nq why eq) =
    rw (eq, er) (inr (λ h. nq h.1, refl, omega arith, omega arith))
Decided-Judged P Q k v v' (inr (np, e, lo, hi)) (accepted q eq) =
    rw eq (inr (λ h. np h.0, e, lo, omega arith))
Decided-Judged P Q k v v' (inr (np, e, lo, hi)) (rejected nq why eq) =
    let more = length-append v.reasons (why ∷ []) in
    rw eq (inr (λ h. np h.0, refl, omega (arith, more), omega (arith, more)))

pub check_record-Agrees :
    (spike_base sv_base : ℕ) (sp : SpikeRecord) (sv : SvRecord)
    → IsWord spike_base
    → IsWord sv_base
    → SpikeWords sp
    → SvWords sv
    → Decides (Agrees spike_base sv_base sp sv) (check_record spike_base sv_base sp sv)
unfolding check_record
check_record-Agrees spike_base sv_base sp sv h h' (p, r, m) (p', r', m') =
    let start : Verdict = record { ok = true; reasons = [] } in
    let after_pc = check_pc sp.pc spike_base sv.pc sv_base start in
    let after_reg = check_reg sp.reg sv.reg after_pc in
    let place =
      Decided-Judged (Unit {0}) _ 0 start after_pc (inl (tt, refl, refl))
        (check_pc-Judged sp.pc spike_base sv.pc sv_base start p h p' h') in
    let write =
      Decided-Judged _ _ 1 after_pc after_reg place
        (check_reg-Judged sp.reg sv.reg after_pc r r') in
    elim (Decided-Judged _ _ 2 after_reg (check_mem sp.mem sv.mem after_reg) write
      (check_mem-Judged sp.mem sv.mem after_reg m m')) [
        | inl (((place_ok, a), b), c, e) ↦ inl ((place_ok.1, a, b), c, e)
        | inr (apart, c, lo, hi) ↦ inr (λ a. apart (((tt, a.0), a.1), a.2), c, lo, hi)
      ]

-- The number of positions, up to the shorter length, at which the records agree.
pub data Agreeing (spike_base sv_base : ℕ) : List SpikeRecord → List SvRecord → ℕ → Type 0 where
  spike_ends : (svs : List SvRecord) → Agreeing spike_base sv_base [] svs 0
  sv_ends :
      (sp : SpikeRecord) (sps : List SpikeRecord) → Agreeing spike_base sv_base (sp ∷ sps) [] 0
  one_more :
      (sp : SpikeRecord) (sps : List SpikeRecord) (sv : SvRecord) (svs : List SvRecord) (k : ℕ)
      → Agrees spike_base sv_base sp sv
      → Agreeing spike_base sv_base sps svs k
      → Agreeing spike_base sv_base (sp ∷ sps) (sv ∷ svs) (suc k)
  differs :
      (sp : SpikeRecord) (sps : List SpikeRecord) (sv : SvRecord) (svs : List SvRecord) (k : ℕ)
      → ¬ Agrees spike_base sv_base sp sv
      → Agreeing spike_base sv_base sps svs k
      → Agreeing spike_base sv_base (sp ∷ sps) (sv ∷ svs) k

module _ (spike_base sv_base : ℕ) where
  -- Every mismatch of the report is a pair of records that do not agree, with a reason.
  abbrev pub IsMismatch : Mismatch → Type 0
  IsMismatch m = ¬ Agrees spike_base sv_base m.spike m.sv × (1 ≤ length m.reasons)

  -- What a report says of n rounds of which k agree, behind an earlier one.
  abbrev pub Counted : ℕ → ℕ → Report → Report → Type 0
  Counted n k before after =
      (after.total ≡ before.total + n)
      × (after.passed ≡ before.passed + k)
      × (k ≤ n)
      × (length after.mismatches ≡ min 15 (length before.mismatches + (n - k)))
      × All IsMismatch after.mismatches

  abbrev IsReport : Report → Type 0
  IsReport report = (length report.mismatches ≤ 15) × All IsMismatch report.mismatches

  count_round-Counted :
      (i : ℕ) (sp : SpikeRecord) (sv : SvRecord) (report : Report)
      → IsWord spike_base
      → IsWord sv_base
      → SpikeWords sp
      → SvWords sv
      → IsReport report
      → let verdict = check_record spike_base sv_base sp sv in
        (Agrees spike_base sv_base sp sv × Counted 1 1 report (count_round i sp sv verdict report))
        ⊎ ((¬ Agrees spike_base sv_base sp sv)
            × Counted 1 0 report (count_round i sp sv verdict report))
  unfolding count_round
  count_round-Counted i sp sv report h h' w w' (short, all) =
      elim (check_record-Agrees spike_base sv_base sp sv h h' w w') [
        | inl (agree, e, er) ↦ rw e (inl (agree, (refl, refl, omega arith, omega arith, all)))
        | inr (apart, e, lo, hi) ↦
            let verdict = check_record spike_base sv_base sp sv in
            let m : Mismatch = record { idx = i; spike = sp; sv = sv; reasons = verdict.reasons } in
            let longer = length-append report.mismatches (m ∷ []) in
            let more = All-append IsMismatch report.mismatches (m ∷ []) all ((apart, lo), tt) in
            rw e (elim (Bool-cases (ltb (length report.mismatches) 15)) [
              | inl room ↦
                  rw room
                    (inr (apart, (refl, omega arith, omega arith, ground (arith, longer), more)))
              | inr full ↦
                  rw full (inr (apart, (refl, omega arith, omega arith, ground arith, all)))
            ])
      ]

  count_rounds :
      (n k n' k' m l : ℕ) (a b c : Report)
      → Counted n k a b
      → Counted n' k' b c
      → m ≡ n + n'
      → l ≡ k + k'
      → Counted m l a c
  count_rounds n k n' k' m l a b c (t, p, h, s, _) (t', p', h', s', all) em el =
      (omega arith, omega arith, omega arith, omega arith, all)

  pub compare_loop-Agreeing :
      (i : ℕ) (sps : List SpikeRecord) (svs : List SvRecord) (report : Report)
      → IsWord spike_base
      → IsWord sv_base
      → All SpikeWords sps
      → All SvWords svs
      → IsReport report
      → (k : ℕ) × Agreeing spike_base sv_base sps svs k
        × Counted
            (min (length sps) (length svs))
            k
            report
            (compare_loop spike_base sv_base i sps svs report)
  unfolding compare_loop
  compare_loop-Agreeing i [] svs report h h' w w' r =
      (0, spike_ends svs, (omega arith, omega arith, omega arith, omega arith, r.1))
  compare_loop-Agreeing i (sp ∷ sps) [] report h h' w w' r =
      (0, sv_ends sp sps, (omega arith, omega arith, omega arith, omega arith, r.1))
  compare_loop-Agreeing i (sp ∷ sps) (sv ∷ svs) report h h' w w' r =
      let next = count_round i sp sv (check_record spike_base sv_base sp sv) report in
      let later = λ (short : length next.mismatches ≤ 15) (all : All IsMismatch next.mismatches).
        compare_loop-Agreeing (i + 1) sps svs next h h' w.1 w'.1 (short, all) in
      elim (count_round-Counted i sp sv report h h' w.0 w'.0 r) [
        | inl (agree, c) ↦
            let (k, a, d) = later (omega (arith, c.3)) c.4 in
            (
              suc k,
              one_more sp sps sv svs k agree a,
              count_rounds 1 1 _ k _ _ report next _ c d (omega arith) (omega arith),
            )
        | inr (apart, c) ↦
            let (k, a, d) = later (omega (arith, c.3)) c.4 in
            (
              k,
              differs sp sps sv svs k apart a,
              count_rounds 1 0 _ k _ _ report next _ c d (omega arith) (omega arith),
            )
      ]
