-- ===== src/Tests/Logs.antt =====
-- The two logs, from their texts: shared/spike/spike_log_parser.py, shared/spike/sv_log_parser.py,
-- shared/spike/run_spike.py and shared/spike/compare_accuracy.py.
use risc_v_pipeline_sim.Common.{
  ℕ, ◌+◌, ◌≤◌, ◌≡◌, refl, arith, Bool, true, false, ◌==◌, not, none, some, List, [], ◌∷◌, map,
  codes,
}
use risc_v_pipeline_sim.Common.Lines.{lines_of, text_of, strip, lstrip, rstrip}
use risc_v_pipeline_sim.Trace.Compare.{Report}
use risc_v_pipeline_sim.Regex.{match_here, match_start, search_in}
use risc_v_pipeline_sim.SpikeLog.{exception_line, reg_line, plain_line, other_line, parse_lines}
use risc_v_pipeline_sim.SpikeLog.Scan.{classify, scan, parse_spike_log}
use risc_v_pipeline_sim.SpikeLog.Printed.{plain_form, form_line}
use risc_v_pipeline_sim.SpikeLog.Classified.{classify-form}
use risc_v_pipeline_sim.SpikeLog.Whole.{traps, spike_text, parse_spike_log-printed}
use risc_v_pipeline_sim.SpikeLog.Ordered.{Retired, writes, stores, trace_lines, trace_records}
use risc_v_pipeline_sim.SpikeLog.Attributed.{parse_lines-trace_lines}
use risc_v_pipeline_sim.SvLog.{parse_sv_log}
use risc_v_pipeline_sim.SvLog.Keys.{Increasing}
use risc_v_pipeline_sim.SvLog.Records.{classified, logged, record_at, indices, parse_sv_log-logged}
use risc_v_pipeline_sim.CommitLog.{
  Cycle, commit_log, log_lines, mem_lines, wb_lines, print_pc, print_reg, print_mem,
}
use risc_v_pipeline_sim.Common.Digits.{decimal, digits_of, format_08x}
use risc_v_pipeline_sim.CommitLog.Recovered.{parse_sv_log-commit_log}
use risc_v_pipeline_sim.RunSpike.{run_spike_and_parse, export_for_sv}
use risc_v_pipeline_sim.RunSpike.Words.{read_word, instr_of, export_for_sv-parse_spike_log}
use risc_v_pipeline_sim.Accuracy.{compare_logs}
use risc_v_pipeline_sim.Accuracy.Counts.{Accounts, compare_logs-Accounts}
use risc_v_pipeline_sim.Accuracy.SameRun.{compare_logs-mirror}
use risc_v_pipeline_sim.Tests.SpikeForms.{csr_write, forms, all_forms}

-- The two lines that the parser's docstring quotes.
docstring_plain :
    classify (codes "core   0: 0x0000000080000000 (0x00000013) nop") ≡ plain_line 0x80000000 0x13
unfolding classify scan strip lstrip rstrip search_in match_start match_here
docstring_plain = refl

docstring_reg :
    classify (codes "core   0: 3 0x0000000080000016 (0xfff00f1b) x30 0xffffffffffffffff")
    ≡ reg_line 0x80000016 0xfff00f1b 30 0xffffffffffffffff
unfolding classify scan strip lstrip rstrip search_in match_start match_here
docstring_reg = refl

-- A load names its register and its address.
load_line :
    classify (codes "core   0: 3 0x80000010 (0x0007a283) x5  0x00000001 mem 0x800002fc")
    ≡ reg_line 0x80000010 0x7a283 5 1
unfolding classify scan strip lstrip rstrip search_in match_start match_here
load_line = refl

no_pattern : classify (codes "bbl loader") ≡ other_line (codes "bbl loader")
unfolding classify scan strip lstrip rstrip search_in match_start match_here
no_pattern = refl

-- Behind a second `core`, text of a disassembly is taken for an exception.
second_core :
    let line = codes "core   0: 0x80000000 (0x00000013) core   0: exception x" in
    classify line ≡ exception_line (codes "x") line
unfolding classify scan strip lstrip rstrip search_in match_start match_here
second_core = refl

classify-form_example :
    classify (codes "core   0: 0x80000004 (0x30679073) csrw mcounteren, a5")
    ≡ plain_line 0x80000004 0x30679073
classify-form_example = classify-form (plain_form csr_write)

parse_spike_log-printed_example :
    parse_spike_log (spike_text all_forms)
    ≡ (parse_lines (map form_line all_forms), [], traps 1 (map form_line all_forms))
parse_spike_log-printed_example = parse_spike_log-printed all_forms (ground arith)

abbrev auipc_step : Retired
auipc_step = record { pc = 0x1000; instr = 0x297; commits = writes 5 0x1000 }

abbrev addi_step : Retired
addi_step = record { pc = 0x80000000; instr = 0xffff0f13; commits = writes 30 0xffffffff }

abbrev sw_step : Retired
sw_step = record { pc = 0x80000004; instr = 0x23; commits = stores 0x80002000 7 }

-- All words but that of the store write a register.
abbrev is_sw : ℕ → Bool
is_sw word = word == 0x23

abbrev loop_steps : List Retired
loop_steps = addi_step ∷ sw_step ∷ addi_step ∷ []

parse_lines-trace_lines_example : parse_lines (trace_lines loop_steps) ≡ trace_records 0 loop_steps
parse_lines-trace_lines_example =
    parse_lines-trace_lines (λ word. not (is_sw word)) is_sw loop_steps (ground arith)

-- A bubble in WB behind the first instruction.
abbrev cycles : List Cycle
cycles =
    record { ex_mem = some none; mem_wb = none }
    ∷ record { ex_mem = none; mem_wb = some (0, some (30, 0xffffffff)) }
    ∷ record { ex_mem = some (some (0x2000, 7)); mem_wb = none }
    ∷ record { ex_mem = none; mem_wb = some (4, none) }
    ∷ []

log_text :
    commit_log cycles
    ≡ text_of (
        codes "PC 0 00000000"
        ∷ codes "REG 0 30 ffffffff"
        ∷ codes "MEM 1 00002000 00000007"
        ∷ codes "PC 1 00000004"
        ∷ [])
unfolding commit_log log_lines mem_lines wb_lines print_pc print_reg print_mem decimal digits_of
    format_08x
log_text = refl

parse_sv_log-logged_example :
    Increasing (indices (parse_sv_log (commit_log cycles)).0)
    × ((idx : ℕ)
        → record_at idx (parse_sv_log (commit_log cycles)).0
          ≡ logged idx (classified (lines_of (commit_log cycles))))
parse_sv_log-logged_example = parse_sv_log-logged (commit_log cycles)

parse_sv_log-commit_log_example : parse_sv_log (commit_log cycles) ≡ (
  record { idx = 0; pc = 0; reg = some (30, 0xffffffff); mem = none }
      ∷ record { idx = 1; pc = 4; reg = none; mem = some (0x2000, 7) }
      ∷ [],
  [],
)
parse_sv_log-commit_log_example = parse_sv_log-commit_log cycles (ground arith)

export_for_sv-parse_spike_log_example :
    map read_word (lines_of (export_for_sv (run_spike_and_parse (spike_text all_forms))))
    ≡ map instr_of (parse_spike_log (spike_text all_forms)).0
export_for_sv-parse_spike_log_example =
    export_for_sv-parse_spike_log all_forms (ground arith) (ground arith)

abbrev one_cycle : List Cycle
one_cycle =
    record { ex_mem = some none; mem_wb = none }
    ∷ record { ex_mem = none; mem_wb = some (0, some (30, 0xffffffff)) }
    ∷ []

compare_logs-mirror_example :
    let output = compare_logs (spike_text forms) (commit_log one_cycle) in
    (output.spike_warning ≡ none)
    × (output.exception_warning ≡ none)
    × (output.sv_warning ≡ none)
    × ((report : Report) × (output.report ≡ some report)
        × (report.total ≡ output.sv_kept)
        × (report.passed ≡ report.total)
        × (report.mismatches ≡ []))
compare_logs-mirror_example =
    compare_logs-mirror forms (auipc_step ∷ []) addi_step [] one_cycle (some (30, 0xffffffff)) []
      (λ word. true) (λ word. false) (ground arith) refl (ground arith) (ground arith)
      (ground arith) refl (ground arith)

-- A log with a line that no pattern takes, against one without a PC line.
compare_logs-Accounts_example :
    let output = compare_logs (codes "bbl loader") (codes "REG 0 5 00000001") in
    Accounts output.spike_raw output.sv_raw output.spike_kept output.sv_kept output.report
    × (output.boot_stub + output.spike_kept ≤ output.spike_raw)
    × (output.sv_kept ≤ output.sv_raw)
compare_logs-Accounts_example =
    compare_logs-Accounts (codes "bbl loader") (codes "REG 0 5 00000001")
