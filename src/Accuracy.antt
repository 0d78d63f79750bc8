-- ===== src/Accuracy.antt =====
-- shared/spike/compare_accuracy.py on the two log files: the parsers and the comparison together,
-- with the numbers and the lines that the function compare prints about the logs.
pub mod SameRun
pub mod Counts
use risc_v_pipeline_sim.Common.{
  ℕ, ◌-◌, Option, none, some, List, [], ◌∷◌, ◌==◌, if◌then◌else◌, Text, length, take,
}
use risc_v_pipeline_sim.Trace.{trim_boot_stub, trunc_spike, trunc_sv}
use risc_v_pipeline_sim.Trace.Compare.{Report, compare_records}
use risc_v_pipeline_sim.SpikeLog.Scan.{parse_spike_log}
use risc_v_pipeline_sim.SvLog.{parse_sv_log}

-- A warning about a log: how many lines there are and the first three.
abbrev pub warn_lines : List (ℕ × Text) → Option (ℕ × List (ℕ × Text))
warn_lines [] = none
warn_lines (line ∷ lines) = some (length (line ∷ lines), take 3 (line ∷ lines))

-- How many exceptions there are, and the first.
abbrev pub warn_exceptions : List (ℕ × Text × Text) → Option (ℕ × (ℕ × Text × Text))
warn_exceptions [] = none
warn_exceptions (e ∷ es) = some (length (e ∷ es), e)

-- What compare prints: the sizes of the traces, the warnings, the note on different lengths, and the
-- report, if there are records to compare.
pub record Output : Type 0 where
  pub spike_raw : ℕ
  pub boot_stub : ℕ
  pub spike_kept : ℕ
  pub sv_raw : ℕ
  pub sv_kept : ℕ
  pub spike_warning : Option (ℕ × List (ℕ × Text))
  pub exception_warning : Option (ℕ × (ℕ × Text × Text))
  pub sv_warning : Option (ℕ × List (ℕ × Text))
  pub lengths_note : Option (ℕ × ℕ)
  pub report : Option Report

-- `compare`, from the texts of the two files.
unfoldable pub compare_logs : (spike_log sv_log : Text) → Output
compare_logs spike_log sv_log =
    let (spike_records_raw, spike_unrec, spike_exc) = parse_spike_log spike_log in
    let (sv_records_raw, sv_unrec) = parse_sv_log sv_log in
    let spike_records_trimmed = trim_boot_stub spike_records_raw 0x80000000 in
    let spike_records = trunc_spike spike_records_trimmed in
    let sv_records = trunc_sv sv_records_raw in
    record {
      spike_raw = length spike_records_raw;
      boot_stub = length spike_records_raw - length spike_records_trimmed;
      spike_kept = length spike_records;
      sv_raw = length sv_records_raw;
      sv_kept = length sv_records;
      spike_warning = warn_lines spike_unrec;
      exception_warning = warn_exceptions spike_exc;
      sv_warning = warn_lines sv_unrec;
      lengths_note =
          if length spike_records == length sv_records
          then none
          else some (length spike_records, length sv_records);
      report = compare_records spike_records_raw sv_records_raw;
    }
