-- ===== src/Tests/Trace.antt =====
-- shared/spike/compare_accuracy.py and the two functions truncate_at_self_loop.
use risc_v_pipeline_sim.Common.{
  ℕ, ◌<◌, ◌≡◌, refl, ◌↔◌, arith, true, none, some, List, [], ◌∷◌, length,
}
use risc_v_pipeline_sim.Trace.{
  SpikeRecord, SvRecord, sv_pc, truncate_loop, truncate_at_self_loop, trunc_spike, trunc_sv,
  trim_boot_stub,
}
use risc_v_pipeline_sim.Trace.SelfLoop.{NoRun, EndsAtRun, truncate_at_self_loop-NoRun}
use risc_v_pipeline_sim.Trace.Compare.{
  Report, values_match_allowing_pc_base, check_record, compare_records,
}
use risc_v_pipeline_sim.Trace.Agreement.{Rebased, values_match-Rebased}
use risc_v_pipeline_sim.Trace.Accuracy.{Agrees, Decides, check_record-Agrees}
use risc_v_pipeline_sim.Trace.Whole.{Reports, compare_records-Reports}
use risc_v_pipeline_sim.Trace.Faithful.{compare_records-mirror}

abbrev spike : ℕ → ℕ → SpikeRecord
spike i place = record { idx = i; pc = place; instr = 0x13; reg = none; mem = none }

abbrev sv_at : ℕ → ℕ → SvRecord
sv_at i place = record { idx = i; pc = place; reg = none; mem = none }

-- Spike's first own instruction.
abbrev boot : SpikeRecord
boot = spike 0 0x1000

-- auipc x31: the value is a pc, and Spike's is shifted.
abbrev spike_auipc : SpikeRecord
spike_auipc = record {
  idx = 1;
  pc = 0x80000000;
  instr = 0xf97;
  reg = some (31, 0x80000000);
  mem = none;
}

abbrev sv_auipc : SvRecord
sv_auipc = record { idx = 0; pc = 0; reg = some (31, 0); mem = none }

-- A store, whose write to x0 is logged by the core only.
abbrev spike_store : SpikeRecord
spike_store = record {
  idx = 2;
  pc = 0x80000004;
  instr = 0x23;
  reg = none;
  mem = some (0x80000f00, 5);
}

abbrev sv_store : SvRecord
sv_store = record { idx = 1; pc = 4; reg = some (0, 77); mem = some (0xf00, 5) }

abbrev spike_rest : List SpikeRecord
spike_rest = spike_store ∷ spike 3 0x80000008 ∷ spike 4 0x80000008 ∷ spike 5 0x80000008 ∷ []

abbrev sv_rest : List SvRecord
sv_rest = sv_store ∷ sv_at 2 8 ∷ sv_at 3 8 ∷ sv_at 4 8 ∷ []

-- The trace keeps one round of its self-loop.
trunc_sv_run : trunc_sv (sv_auipc ∷ sv_rest) ≡ sv_auipc ∷ sv_store ∷ sv_at 2 8 ∷ []
unfolding trunc_sv truncate_at_self_loop truncate_loop
trunc_sv_run = refl

-- With a threshold of one the first record that repeats another is kept.
truncate_one :
    truncate_at_self_loop sv_pc 1 (sv_at 2 8 ∷ sv_at 3 8 ∷ sv_at 4 8 ∷ [])
    ≡ sv_at 2 8 ∷ sv_at 3 8 ∷ []
unfolding truncate_at_self_loop truncate_loop
truncate_one = refl

truncate_at_self_loop-NoRun_example :
    let result = truncate_at_self_loop sv_pc 3 (sv_auipc ∷ sv_rest) in
    NoRun sv_pc 3 result
    × EndsAtRun sv_pc 3 (sv_auipc ∷ sv_rest) result
    × (truncate_at_self_loop sv_pc 3 result ≡ result)
truncate_at_self_loop-NoRun_example =
    truncate_at_self_loop-NoRun sv_pc 3 (sv_auipc ∷ sv_rest) (omega arith)

values_match-Rebased_example :
    (values_match_allowing_pc_base 0x10 0x80000010 ≡ true) ↔ Rebased 0x10 0x80000010
values_match-Rebased_example = values_match-Rebased 0x10 0x80000010 (omega arith) (omega arith)

check_record-Agrees_example :
    Decides
      (Agrees 0x80000000 0 spike_store sv_store)
      (check_record 0x80000000 0 spike_store sv_store)
check_record-Agrees_example =
    check_record-Agrees 0x80000000 0 spike_store sv_store (omega arith) (omega arith)
      (omega arith, tt, (omega arith, omega arith))
      (omega arith, (omega arith, omega arith), (omega arith, omega arith))

abbrev spike_start : List SpikeRecord
spike_start = boot ∷ spike_auipc ∷ spike_store ∷ []

-- The core's trace goes elsewhere behind its first record.
abbrev sv_astray : List SvRecord
sv_astray = sv_auipc ∷ sv_at 1 8 ∷ sv_at 2 12 ∷ []

compare_records-Reports_example :
    (report : Report) × (compare_records spike_start sv_astray ≡ some report)
    × (0 < report.total)
    × Reports (trunc_spike (trim_boot_stub spike_start 0x80000000)) (trunc_sv sv_astray) report
compare_records-Reports_example =
    compare_records-Reports boot (spike_auipc ∷ spike_store ∷ []) sv_auipc
      (sv_at 1 8 ∷ sv_at 2 12 ∷ []) (ground arith) (ground arith)

compare_records-mirror_example :
    (report : Report) × (compare_records (boot ∷ spike_auipc ∷ spike_rest) (sv_auipc ∷ sv_rest)
      ≡ some report)
    × (report.total ≡ length (trunc_sv (sv_auipc ∷ sv_rest)))
    × (report.passed ≡ report.total)
    × (report.mismatches ≡ [])
compare_records-mirror_example =
    compare_records-mirror (boot ∷ []) spike_auipc spike_rest sv_auipc sv_rest (ground arith) refl
      (ground arith)
