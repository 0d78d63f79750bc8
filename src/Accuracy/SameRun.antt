-- ===== src/Accuracy/SameRun.antt =====
-- The logs of one run, one from Spike and one from the testbench, compared from their texts.
use mathlib.Core.Path.{subst}
use risc_v_pipeline_sim.Common.{
  ℕ, ◌+◌, ◌≡◌, ◌≢◌, refl, sym, ap, ◌∙◌, arith, Bool, Option, none, some, List, [], ◌∷◌, ◌++◌,
  length, map, All,
}
use risc_v_pipeline_sim.Common.Lines.{OneLine}
use risc_v_pipeline_sim.Trace.{SvRecord}
use risc_v_pipeline_sim.Trace.Compare.{Report}
use risc_v_pipeline_sim.Trace.Faithful.{AllMirror, compare_records-mirror}
use risc_v_pipeline_sim.SpikeLog.Printed.{Form, form_text, form_line}
use risc_v_pipeline_sim.SpikeLog.Whole.{traps, spike_text, parse_spike_log-printed}
use risc_v_pipeline_sim.SpikeLog.Ordered.{
  Retired, Commitment, writes, stores, reads, nothing, commit_line, Determined, trace_lines,
  trace_records,
}
use risc_v_pipeline_sim.SpikeLog.Attributed.{parse_lines-trace_lines}
use risc_v_pipeline_sim.SpikeLog.Scan.{parse_spike_log}
use risc_v_pipeline_sim.SvLog.{parse_sv_log}
use risc_v_pipeline_sim.CommitLog.{Cycle, commit_log}
use risc_v_pipeline_sim.CommitLog.Cycles.{CycleFits, retired}
use risc_v_pipeline_sim.CommitLog.Cycles
use risc_v_pipeline_sim.CommitLog.Recovered.{rows, parse_sv_log-commit_log}
use risc_v_pipeline_sim.Accuracy.{warn_lines, warn_exceptions, compare_logs}

trace_records-append :
    (idx : ℕ) (rs ss : List Retired)
    → trace_records idx (rs ++ ss) ≡ trace_records idx rs ++ trace_records (idx + length rs) ss
trace_records-append idx [] ss =
    let same : idx + 0 ≡ idx = omega arith in ap (λ n. trace_records n ss) (sym same)
trace_records-append idx (r ∷ rs) ss =
    let same : (idx + 1) + length rs ≡ idx + length (r ∷ rs) = omega arith in
    rw (trace_records-append (idx + 1) rs ss, same) refl

trace_records-away :
    (idx : ℕ) (rs : List Retired)
    → All (λ r. r.pc ≢ 0x80000000) rs
    → All (λ x. x.pc ≢ 0x80000000) (trace_records idx rs)
trace_records-away idx [] h = tt
trace_records-away idx (r ∷ rs) h = (h.0, trace_records-away (idx + 1) rs h.1)

-- Neither a disassembly nor a commit is an exception.
traps-trace_lines : (n : ℕ) (rs : List Retired) → traps n (trace_lines rs) ≡ []
traps-trace_lines n [] = refl
traps-trace_lines n (r ∷ rs) = behind r.commits (traps-trace_lines (n + 1 + 1) rs)
  where
    behind :
        (c : Commitment)
        → traps (n + 1 + 1) (trace_lines rs) ≡ []
        → traps (n + 1) (commit_line r.pc r.instr c ∷ trace_lines rs) ≡ []
    behind (writes rd val) e = e
    behind (stores addr val) e = e
    behind reads e = e
    behind nothing e = e

rows-cons :
    (reg : Option (ℕ × ℕ)) (ws : List (ℕ × Option (ℕ × ℕ))) (ms : List (Option (ℕ × ℕ)))
    → (sv : SvRecord) × (svs : List SvRecord) × (rows 0 ((0, reg) ∷ ws) ms ≡ sv ∷ svs) × (sv.pc ≡ 0)
rows-cons reg ws [] = (_, _, refl, refl)
rows-cons reg ws (m ∷ ms) = (_, _, refl, refl)

-- Let the forms of Spike's log be those of a boot stub that stays away from the entry address and then
-- of a program, each instruction with its own commit, where pcs and words have 32 bits and the word
-- decides whether a register is written and whether memory is. Let the core retire its run from pc 0,
-- with values of 32 bits, and let both runs agree instruction by instruction: the pcs and the
-- addresses up to 2^31, register writes and stored values equal up to that shift. Then comparing the
-- texts of the two logs prints no warning about a line or an exception, counts every record of the
-- core's run, up to its self-loop, as passed, and lists no mismatch.
pub compare_logs-mirror :
    (forms : List Form) (boot : List Retired) (first : Retired) (program : List Retired)
    (cycles : List Cycle) (reg : Option (ℕ × ℕ)) (later : List (ℕ × Option (ℕ × ℕ)))
    (writes_reg stores_mem : ℕ → Bool)
    → All OneLine (map form_text forms)
    → map form_line forms ≡ trace_lines (boot ++ first ∷ program)
    → All (Determined writes_reg stores_mem) (boot ++ first ∷ program)
    → All (λ r. r.pc ≢ 0x80000000) boot
    → All CycleFits cycles
    → retired cycles ≡ (0, reg) ∷ later
    → AllMirror
        (trace_records (length boot) (first ∷ program))
        (rows 0 ((0, reg) ∷ later) (Cycles.stores cycles))
    → let output = compare_logs (spike_text forms) (commit_log cycles) in
      (output.spike_warning ≡ none)
      × (output.exception_warning ≡ none)
      × (output.sv_warning ≡ none)
      × ((report : Report) × (output.report ≡ some report)
          × (report.total ≡ output.sv_kept)
          × (report.passed ≡ report.total)
          × (report.mismatches ≡ []))
unfolding compare_logs
compare_logs-mirror forms boot first program cycles reg later writes_reg stores_mem one_line printed
      determined away fits retires mirror =
    let from_zero : 0 + length boot ≡ length boot = omega arith in
    let steps = boot ++ first ∷ program in
    let read = parse_spike_log-printed forms one_line in
    let spike : (parse_spike_log (spike_text forms)).0
        ≡ trace_records 0 boot ++ trace_records (length boot) (first ∷ program) =
      ap (λ t. t.0) read
      ∙ (rw printed (parse_lines-trace_lines writes_reg stores_mem steps determined))
      ∙ trace_records-append 0 boot (first ∷ program)
      ∙ ap (λ n. trace_records 0 boot ++ trace_records n (first ∷ program)) from_zero in
    let trapped : (parse_spike_log (spike_text forms)).2 ≡ [] =
      ap (λ t. t.2) read ∙ ap (traps 1) printed ∙ traps-trace_lines 1 steps in
    let logged = parse_sv_log-commit_log cycles fits in
    let sv : (parse_sv_log (commit_log cycles)).0
        ≡ rows 0 ((0, reg) ∷ later) (Cycles.stores cycles) =
      ap (λ t. t.0) logged ∙ ap (λ t. rows 0 t (Cycles.stores cycles)) retires in
    let (sv0, svs, e, at_zero) = rows-cons reg later (Cycles.stores cycles) in
    (
      ap (λ t. warn_lines t.1) read,
      ap warn_exceptions trapped,
      ap (λ t. warn_lines t.1) logged,
      (rw (spike, sv, e)
          (compare_records-mirror (trace_records 0 boot) _ _ sv0 svs
            (trace_records-away 0 boot away) at_zero
            (subst (AllMirror (trace_records (length boot) (first ∷ program))) e mirror))),
    )
