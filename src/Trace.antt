-- ===== src/Trace.antt =====
-- The traces that shared/spike/compare_accuracy.py aligns: the records of the two parsers, and the
-- functions that cut a trace at its trailing self-loop and at Spike's boot stub.
pub mod Truncate
pub mod SelfLoop
pub mod Compare
pub mod Agreement
pub mod Accuracy
pub mod Whole
pub mod Faithful
use risc_v_pipeline_sim.Common.{
  ℕ, zero, suc, ◌+◌, ◌-◌, Bool, true, false, Option, List, [], ◌∷◌, leb, ◌==◌, if◌then◌else◌, take,
}

-- A record of `parse_spike_log`: `reg` is a register with its value, `mem` an address with the
-- value stored there.
pub record SpikeRecord : Type 0 where
  pub idx : ℕ
  pub pc : ℕ
  pub instr : ℕ
  pub reg : Option (ℕ × ℕ)
  pub mem : Option (ℕ × ℕ)

-- A record of `parse_sv_log`.
pub record SvRecord : Type 0 where
  pub idx : ℕ
  pub pc : ℕ
  pub reg : Option (ℕ × ℕ)
  pub mem : Option (ℕ × ℕ)

-- `truncate_at_self_loop`, which stands in both parsers with the same text. Python reads `r["pc"]`
-- of whatever record it is given: `pc_of` is that access.
module _ {A : Type 0} (pc_of : A → ℕ) (repeat_threshold : ℕ) where
  -- The loop from position i on, with its variables `run_pc` and `run_len`, and the records from
  -- i on last.
  unfoldable pub truncate_loop : (records : List A) (run_pc run_len i : ℕ) → List A → List A
  truncate_loop records run_pc run_len i [] = records
  truncate_loop records run_pc run_len i (r ∷ rest) =
      let same = pc_of r == run_pc in
      let next =
        truncate_loop records (if same then run_pc else pc_of r) (if same then run_len + 1 else 1)
          (i + 1) rest in
      if same
      then (if leb repeat_threshold (run_len + 1)
          then take (i + 2 - repeat_threshold) records
          else next)
      else next

  unfoldable pub truncate_at_self_loop : List A → List A
  truncate_at_self_loop [] = []
  truncate_at_self_loop (r ∷ rest) = truncate_loop (r ∷ rest) (pc_of r) 1 1 rest

abbrev pub spike_pc : SpikeRecord → ℕ
spike_pc r = r.pc

abbrev pub sv_pc : SvRecord → ℕ
sv_pc r = r.pc

-- The two functions as compare_accuracy.py imports and calls them.
unfoldable pub trunc_spike : List SpikeRecord → List SpikeRecord
trunc_spike = truncate_at_self_loop spike_pc 3

unfoldable pub trunc_sv : List SvRecord → List SvRecord
trunc_sv = truncate_at_self_loop sv_pc 3

-- The loop of `trim_boot_stub`: `records[i:]` from the first record at `entry_addr`.
unfoldable pub trim_loop : List SpikeRecord → ℕ → List SpikeRecord → List SpikeRecord
trim_loop records entry_addr [] = records
trim_loop records entry_addr (r ∷ rest) =
    if r.pc == entry_addr then r ∷ rest else trim_loop records entry_addr rest

unfoldable pub trim_boot_stub : List SpikeRecord → ℕ → List SpikeRecord
trim_boot_stub records entry_addr = trim_loop records entry_addr records
