-- ===== src/Trace/Compare.antt =====
-- `compare` of shared/spike/compare_accuracy.py on the records of the two parsers, with its report
-- as a value.
use risc_v_pipeline_sim.Common.{
  ℕ, ◌+◌, bit_and, Bool, true, false, not, ◌&&◌, Option, none, some, List, [], ◌∷◌, ◌++◌, land,
  sub_ℕ, ltb, ◌==◌, if◌then◌else◌, length,
}
use risc_v_pipeline_sim.Trace.{SpikeRecord, SvRecord, trunc_spike, trunc_sv, trim_boot_stub}

abbrev pub base_offset : ℕ
base_offset = 0x80000000

abbrev pub mask32 : ℕ
mask32 = 0xFFFFFFFF

unfoldable pub values_match_allowing_pc_base : ℕ → ℕ → Bool
values_match_allowing_pc_base sv_val spike_val =
    if sv_val == spike_val
    then true
    else if bit_and (sv_val + base_offset) mask32 == spike_val
    then true
    else if sv_val == bit_and (spike_val + base_offset) mask32
    then true
    else false

-- The strings appended to `reasons`, by the values they print.
pub data Reason : Type 0 where
  pc_delta_mismatch : (spike sv : ℕ) → Reason
  reg_presence_mismatch : (spike sv : Option (ℕ × ℕ)) → Reason
  reg_rd_mismatch : (spike sv : ℕ) → Reason
  reg_value_mismatch : (spike sv : ℕ) → Reason
  mem_presence_mismatch : (spike sv : Option (ℕ × ℕ)) → Reason
  mem_mismatch : (spike_addr spike_val sv_addr sv_val : ℕ) → Reason

-- The variables `ok` and `reasons` of one round.
pub record Verdict : Type 0 where
  pub ok : Bool
  pub reasons : List Reason

abbrev pub reject : Verdict → Reason → Verdict
reject v why = record { ok = false; reasons = v.reasons ++ why ∷ [] }

abbrev pub pc_delta : ℕ → ℕ → ℕ
pc_delta pc base_pc = land (sub_ℕ pc base_pc) mask32

unfoldable pub check_pc : (sp_pc spike_base_pc sv_pc sv_base_pc : ℕ) → Verdict → Verdict
check_pc sp_pc spike_base_pc sv_pc sv_base_pc v =
    let sp_delta = pc_delta sp_pc spike_base_pc in
    let sv_delta = pc_delta sv_pc sv_base_pc in
    if not (sp_delta == sv_delta) then reject v (pc_delta_mismatch sp_delta sv_delta) else v

-- `if other is None and own is not None and own[0] == 0: own = None`
abbrev pub drop_x0 : (other own : Option (ℕ × ℕ)) → Option (ℕ × ℕ)
drop_x0 none (some (rd, val)) = if rd == 0 then none else some (rd, val)
drop_x0 none none = none
drop_x0 (some r) own = own

-- The value of a register with 0 for x0.
abbrev pub zero_x0 : ℕ → ℕ → ℕ
zero_x0 rd val = if rd == 0 then 0 else val

-- The comparison of `sp_reg` and `sv_reg` once both have been normalised.
unfoldable pub check_regs : (sp_reg sv_reg : Option (ℕ × ℕ)) → Verdict → Verdict
check_regs none none v = v
check_regs none (some r) v = reject v (reg_presence_mismatch none (some r))
check_regs (some r) none v = reject v (reg_presence_mismatch (some r) none)
check_regs (some (sp_rd, sp_val)) (some (sv_rd, sv_val)) v =
    if not (sp_rd == sv_rd)
    then reject v (reg_rd_mismatch sp_rd sv_rd)
    else if not (values_match_allowing_pc_base (zero_x0 sv_rd sv_val) (zero_x0 sp_rd sp_val))
    then reject v (reg_value_mismatch (zero_x0 sp_rd sp_val) (zero_x0 sv_rd sv_val))
    else v

unfoldable pub check_reg : (sp_reg sv_reg : Option (ℕ × ℕ)) → Verdict → Verdict
check_reg sp_reg sv_reg v =
    let sv_reg' = drop_x0 sp_reg sv_reg in
    let sp_reg' = drop_x0 sv_reg' sp_reg in check_regs sp_reg' sv_reg' v

unfoldable pub check_mem : (sp_mem sv_mem : Option (ℕ × ℕ)) → Verdict → Verdict
check_mem none none v = v
check_mem none (some m) v = reject v (mem_presence_mismatch none (some m))
check_mem (some m) none v = reject v (mem_presence_mismatch (some m) none)
check_mem (some (sp_addr, sp_val)) (some (sv_addr, sv_val)) v =
    let addr_ok = values_match_allowing_pc_base sv_addr sp_addr in
    let val_ok = sv_val == sp_val in
    if not (addr_ok && val_ok) then reject v (mem_mismatch sp_addr sp_val sv_addr sv_val) else v

-- One round of the loop up to `if ok`.
unfoldable pub check_record : (spike_base_pc sv_base_pc : ℕ) → SpikeRecord → SvRecord → Verdict
check_record spike_base_pc sv_base_pc sp sv =
    let start : Verdict = record { ok = true; reasons = [] } in
    let after_pc = check_pc sp.pc spike_base_pc sv.pc sv_base_pc start in
    let after_reg = check_reg sp.reg sv.reg after_pc in check_mem sp.mem sv.mem after_reg

pub record Mismatch : Type 0 where
  pub idx : ℕ
  pub spike : SpikeRecord
  pub sv : SvRecord
  pub reasons : List Reason

-- The variables `total`, `passed` and `mismatches`.
pub record Report : Type 0 where
  pub total : ℕ
  pub passed : ℕ
  pub mismatches : List Mismatch

unfoldable pub count_round : ℕ → SpikeRecord → SvRecord → Verdict → Report → Report
count_round i sp sv verdict report =
    if verdict.ok
    then record report { total = report.total + 1; passed = report.passed + 1 }
    else if ltb (length report.mismatches) 15
    then record report {
      total = report.total + 1;
      mismatches =
          report.mismatches
          ++ record { idx = i; spike = sp; sv = sv; reasons = verdict.reasons } ∷ [];
    }
    else record report { total = report.total + 1 }

-- `for i in range(n)`, where n is the smaller length: the rounds from i on, with the records from
-- there on.
unfoldable pub compare_loop :
    (spike_base_pc sv_base_pc i : ℕ) → List SpikeRecord → List SvRecord → Report → Report
compare_loop spike_base_pc sv_base_pc i [] svs report = report
compare_loop spike_base_pc sv_base_pc i (sp ∷ sps) [] report = report
compare_loop spike_base_pc sv_base_pc i (sp ∷ sps) (sv ∷ svs) report =
    compare_loop spike_base_pc sv_base_pc (i + 1) sps svs
      (count_round i sp sv (check_record spike_base_pc sv_base_pc sp sv) report)

-- The accuracy of two traces cut to size; none where there is nothing to compare.
unfoldable pub compare_cut : List SpikeRecord → List SvRecord → Option Report
compare_cut [] svs = none
compare_cut (sp ∷ sps) [] = none
compare_cut (sp ∷ sps) (sv ∷ svs) = some (
    compare_loop sp.pc sv.pc 0 (sp ∷ sps) (sv ∷ svs)
      (record { total = 0; passed = 0; mismatches = [] }))

-- `compare` behind the two parsers.
unfoldable pub compare_records : List SpikeRecord → List SvRecord → Option Report
compare_records spike_records_raw sv_records_raw =
    compare_cut (trunc_spike (trim_boot_stub spike_records_raw 0x80000000))
      (trunc_sv sv_records_raw)
