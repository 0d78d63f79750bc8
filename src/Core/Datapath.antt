-- ===== src/Core/Datapath.antt =====
-- What rtl/riscv_core.sv computes for one instruction, from the values of its source registers: the
-- operands, the branch condition and the target of the stage EX, and the value that WB writes.
pub mod SameAlu
pub mod SameStep
pub mod Round
pub mod Writes
pub mod Jumps
pub mod SameRound
use risc_v_pipeline_sim.Common.{
  ℕ, ◌+◌, ◌-◌, ◌*◌, ◌/◌, ◌%◌, ◌^◌, Bool, true, false, not, ◌&&◌, ◌||◌, ◌==◌, if◌then◌else◌,
}
use risc_v_pipeline_sim.Encoding.Decode.{opcode_of, rd_of, funct3_of, funct7_of, imm_gen}
use risc_v_pipeline_sim.Isa.Machine.{set_at}
use risc_v_pipeline_sim.Core.Alu.{differs, alu_result, zero_flag, negative_flag, overflow_flag}
use risc_v_pipeline_sim.Core.Control.{Control, control_unit}

abbrev pub control_of : ℕ → Control
control_of w = control_unit (opcode_of w) (funct3_of w) (funct7_of w)

-- `branch_taken_ex`
unfoldable pub branch_taken :
    (branch : Bool) → (funct3 : ℕ) → (zero negative overflow : Bool) → Bool
branch_taken branch funct3 zero negative overflow =
    if branch
    then (if funct3 == 0
        then zero
        else if funct3 == 1
        then not zero
        else if funct3 == 4
        then differs negative overflow
        else if funct3 == 5
        then not (differs negative overflow)
        else false)
    else false

-- The instruction in EX, with the forwarded values of its source registers.
unfoldable pub alu_result_ex : Control → (pc imm fwd_rs1 fwd_rs2 : ℕ) → ℕ
alu_result_ex c pc imm fwd_rs1 fwd_rs2 =
    alu_result c.alu_control (if c.auipc then pc else fwd_rs1) (if c.alu_src then imm else fwd_rs2)

unfoldable pub actual_taken_ex : Control → (funct3 pc imm fwd_rs1 fwd_rs2 : ℕ) → Bool
actual_taken_ex c funct3 pc imm fwd_rs1 fwd_rs2 =
    let a = if c.auipc then pc else fwd_rs1 in
    let b = if c.alu_src then imm else fwd_rs2 in
    let result = alu_result_ex c pc imm fwd_rs1 fwd_rs2 in
    c.jump
    || branch_taken c.branch funct3 (zero_flag result) (negative_flag result)
        (overflow_flag c.alu_control a b result)

unfoldable pub actual_target_ex : Control → (pc imm result : ℕ) → ℕ
actual_target_ex c pc imm result = if c.jalr then result / 2 * 2 else (pc + imm) % 2 ^ 32

-- `wb_write_data`
unfoldable pub wb_write_data :
    (lui jump mem_to_reg : Bool) → (imm pc_plus4 mem_read_data result : ℕ) → ℕ
wb_write_data lui jump mem_to_reg imm pc_plus4 mem_read_data result =
    if lui then imm else if jump then pc_plus4 else if mem_to_reg then mem_read_data else result

-- What leaves the pipeline for one instruction.
pub record Retired : Type 0 where
  pub reg_write : Bool
  pub rd_addr : ℕ
  pub write_data : ℕ
  pub next_pc : ℕ
  pub mem_write : Bool
  pub address : ℕ
  pub store_data : ℕ

-- The word `w` at `pc`, with the values of its source registers and what data_mem reads at an
-- address.
unfoldable pub execute : (w pc fwd_rs1 fwd_rs2 : ℕ) → (read_data : ℕ → ℕ) → Retired
execute w pc fwd_rs1 fwd_rs2 read_data =
    let c = control_of w in
    let imm = imm_gen w in
    let result = alu_result_ex c pc imm fwd_rs1 fwd_rs2 in
    let pc_plus4 = (pc + 4) % 2 ^ 32 in
    record {
      reg_write = c.reg_write;
      rd_addr = rd_of w;
      write_data =
          wb_write_data c.lui c.jump c.mem_to_reg imm pc_plus4
            (if c.mem_read then read_data result else 0) result;
      next_pc =
          if actual_taken_ex c (funct3_of w) pc imm fwd_rs1 fwd_rs2
          then actual_target_ex c pc imm result
          else pc_plus4;
      mem_write = c.mem_write;
      address = result;
      store_data = fwd_rs2;
    }

-- The write port of rtl/reg_file.sv.
unfoldable pub reg_file_write : Bool → (rd write_data : ℕ) → (ℕ → ℕ) → ℕ → ℕ
reg_file_write reg_write rd write_data rf =
    if reg_write && not (rd == 0) then set_at rf rd write_data else rf
