-- ===== src/Trace/Faithful.antt =====
-- Two traces of the same run, one shifted by the reset vector.
use risc_v_pipeline_sim.Common.{
  ℕ, zero, suc, ◌+◌, ◌%◌, ◌^◌, ◌<◌, ◌≡◌, ◌≢◌, refl, ap, subst, inl, inr, arith, some, List, [], ◌∷◌,
  ◌++◌, length, All, Bool-cases, ◌==◌,
}
use risc_v_pipeline_sim.Trace.{SpikeRecord, SvRecord, spike_pc, sv_pc, trunc_sv}
use risc_v_pipeline_sim.Trace.Truncate.{stays, starts_run, cut}
use risc_v_pipeline_sim.Trace.SelfLoop.{trim_boot_stub-found}
use risc_v_pipeline_sim.Trace.Compare.{Report, compare_cut, compare_records}
use risc_v_pipeline_sim.Trace.Agreement.{SameWrite, SameStore, effect}
use risc_v_pipeline_sim.Trace.Accuracy.{
  SpikeWords, SvWords, Agrees, Agreeing, spike_ends, sv_ends, one_more, differs,
}
use risc_v_pipeline_sim.Trace.Whole.{trunc_spike-cut, trunc_sv-cut, cut-first, compare_cut-Reports}

-- The records of one instruction: Spike's pc is the core's, 2 ^ 31 up, and the effects are equal up
-- to that shift of an address.
abbrev pub Mirrors : SpikeRecord → SvRecord → Type 0
Mirrors sp sv =
    SpikeWords sp
    × SvWords sv
    × (sp.pc ≡ (sv.pc + 2 ^ 31) % 2 ^ 32)
    × SameWrite (effect sp.reg) (effect sv.reg)
    × SameStore sp.mem sv.mem

abbrev pub AllMirror : List SpikeRecord → List SvRecord → Type 0
AllMirror [] [] = Unit
AllMirror [] (sv ∷ svs) = ⊥
AllMirror (sp ∷ sps) [] = ⊥
AllMirror (sp ∷ sps) (sv ∷ svs) = Mirrors sp sv × AllMirror sps svs

same_place :
    (p q p' q' : ℕ)
    → p < 2 ^ 32
    → q < 2 ^ 32
    → p' ≡ (p + 2 ^ 31) % 2 ^ 32
    → q' ≡ (q + 2 ^ 31) % 2 ^ 32
    → (p' == q') ≡ (p == q)
same_place p q p' q' h h' e e' = ground arith

-- Runs of equal pcs are in the same places, so both traces are cut at the same one.
stays-mirror :
    (p p' k : ℕ) (sps : List SpikeRecord) (svs : List SvRecord)
    → p < 2 ^ 32
    → p' ≡ (p + 2 ^ 31) % 2 ^ 32
    → AllMirror sps svs
    → stays spike_pc p' k sps ≡ stays sv_pc p k svs
stays-mirror p p' zero sps svs h e m = refl
stays-mirror p p' (suc k) [] [] h e m = refl
stays-mirror p p' (suc k) [] (sv ∷ svs) h e m = absurd m
stays-mirror p p' (suc k) (sp ∷ sps) [] h e m = absurd m
stays-mirror p p' (suc k) (sp ∷ sps) (sv ∷ svs) h e (m, ms) =
    rw (same_place sv.pc p sp.pc p' m.1.0 h m.2 e, stays-mirror p p' k sps svs h e ms) refl

cut-mirror :
    (k : ℕ) (sps : List SpikeRecord) (svs : List SvRecord)
    → AllMirror sps svs
    → AllMirror (cut spike_pc k sps) (cut sv_pc k svs)
cut-mirror k [] [] m = tt
cut-mirror k [] (sv ∷ svs) m = absurd m
cut-mirror k (sp ∷ sps) [] m = absurd m
cut-mirror k (sp ∷ sps) (sv ∷ svs) m =
    rw (stays-mirror sv.pc sp.pc k (sp ∷ sps) (sv ∷ svs) m.0.1.0 m.0.2 m)
      (elim (Bool-cases (starts_run sv_pc k (sv ∷ svs))) [
        | inl run ↦ rw run (m.0, tt)
        | inr other ↦ rw other (m.0, cut-mirror k sps svs m.1)
      ])

AllMirror-words :
    (sps : List SpikeRecord) (svs : List SvRecord)
    → AllMirror sps svs
    → All SpikeWords sps × All SvWords svs × (length sps ≡ length svs)
AllMirror-words [] [] m = (tt, tt, refl)
AllMirror-words [] (sv ∷ svs) m = absurd m
AllMirror-words (sp ∷ sps) [] m = absurd m
AllMirror-words (sp ∷ sps) (sv ∷ svs) (m, ms) =
    let (w, w', e) = AllMirror-words sps svs ms in ((m.0, w), (m.1, w'), ap suc e)

module _ (spike_base sv_base : ℕ) where
  Mirrors-Agrees :
      (sp : SpikeRecord) (sv : SvRecord)
      → sv_base < 2 ^ 32
      → spike_base ≡ (sv_base + 2 ^ 31) % 2 ^ 32
      → Mirrors sp sv
      → Agrees spike_base sv_base sp sv
  Mirrors-Agrees sp sv h e (w, w', p, r, m) = (omega arith, r, m)

  Agreeing-mirror :
      (sps : List SpikeRecord) (svs : List SvRecord) (k : ℕ)
      → sv_base < 2 ^ 32
      → spike_base ≡ (sv_base + 2 ^ 31) % 2 ^ 32
      → AllMirror sps svs
      → Agreeing spike_base sv_base sps svs k
      → k ≡ length sps
  Agreeing-mirror _ _ _ h e m (spike_ends svs) = refl
  Agreeing-mirror _ _ _ h e m (sv_ends sp sps) = absurd m
  Agreeing-mirror _ _ _ h e m (one_more sp sps sv svs k a rest) =
      ap suc (Agreeing-mirror sps svs k h e m.1 rest)
  Agreeing-mirror _ _ _ h e m (differs sp sps sv svs k apart rest) =
      absurd (apart (Mirrors-Agrees sp sv h e m.0))

length-zero : {A : Type 0} (xs : List A) → length xs ≡ 0 → xs ≡ []
length-zero [] e = refl
length-zero (x ∷ xs) e = absurd (omega arith)

compare_cut-mirror :
    (sp : SpikeRecord) (sps : List SpikeRecord) (sv : SvRecord) (svs : List SvRecord)
    → AllMirror (sp ∷ sps) (sv ∷ svs)
    → (report : Report) × (compare_cut (sp ∷ sps) (sv ∷ svs) ≡ some report)
      × (report.total ≡ length (sv ∷ svs))
      × (report.passed ≡ report.total)
      × (report.mismatches ≡ [])
compare_cut-mirror sp sps sv svs m =
    let (w, w', e) = AllMirror-words (sp ∷ sps) (sv ∷ svs) m in
    let (report, er, (k, a, t, p, h, l, all)) = compare_cut-Reports sp sps sv svs w w' in
    let full : k ≡ length (sp ∷ sps) =
      Agreeing-mirror sp.pc sv.pc (sp ∷ sps) (sv ∷ svs) k m.0.1.0 m.0.2 m a in
    (report, er, omega arith, omega arith, length-zero report.mismatches (omega arith))

-- If the core's trace starts with any record and the Spike trace is a boot stub that stays away
-- from the entry address, followed by the same run at the entry address, then every record of the
-- core's trace, up to its self-loop, is counted as passed.
pub compare_records-mirror :
    (boot : List SpikeRecord) (sp : SpikeRecord) (sps : List SpikeRecord) (sv : SvRecord)
    (svs : List SvRecord)
    → All (λ x. x.pc ≢ 0x80000000) boot
    → sv.pc ≡ 0
    → AllMirror (sp ∷ sps) (sv ∷ svs)
    → (report : Report) × (compare_records (boot ++ sp ∷ sps) (sv ∷ svs) ≡ some report)
      × (report.total ≡ length (trunc_sv (sv ∷ svs)))
      × (report.passed ≡ report.total)
      × (report.mismatches ≡ [])
unfolding compare_records
compare_records-mirror boot sp sps sv svs away start m =
    let at : sp.pc ≡ 0x80000000 = omega arith in
    let (cut_sps, e) = cut-first spike_pc 3 sp sps in
    let (cut_svs, e') = cut-first sv_pc 3 sv svs in
    rw
      (
        trim_boot_stub-found boot 0x80000000 sp sps away at,
        trunc_spike-cut (sp ∷ sps),
        trunc_sv-cut (sv ∷ svs),
        e,
        e',
      )
      (compare_cut-mirror sp cut_sps sv cut_svs (
        subst (AllMirror (sp ∷ cut_sps)) e' (
          subst (λ t. AllMirror t (cut sv_pc 3 (sv ∷ svs))) e
            (cut-mirror 3 (sp ∷ sps) (sv ∷ svs) m))))
