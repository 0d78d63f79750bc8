-- ===== src/Core/Pipeline.antt =====
-- The pipeline registers of rtl/riscv_core.sv, as rtl/riscv_pkg.sv declares them, and what goes into
-- each at a clock edge; rtl/reg_file.sv, rtl/forward_unit.sv and rtl/hazard_unit.sv.
pub mod Forwarded
use risc_v_pipeline_sim.Common.{
  ℕ, ◌+◌, ◌%◌, ◌^◌, Bool, true, false, not, ◌&&◌, ◌||◌, ◌==◌, if◌then◌else◌,
}
use risc_v_pipeline_sim.Encoding.Decode.{rd_of, funct3_of, rs1_of, rs2_of, imm_gen}
use risc_v_pipeline_sim.Core.Control.{Control}
use risc_v_pipeline_sim.Core.Datapath.{control_of, alu_result_ex, wb_write_data}

-- `if_id_t`
pub record IfId : Type 0 where
  pub valid : Bool
  pub pc : ℕ
  pub pc_plus4 : ℕ
  pub instr : ℕ
  pub pred_taken : Bool
  pub pred_target : ℕ

-- `id_ex_t`, with its control signals as they come from the control unit and those that `valid`
-- gates apart.
pub record IdEx : Type 0 where
  pub valid : Bool
  pub pc : ℕ
  pub pc_plus4 : ℕ
  pub rs1_data : ℕ
  pub rs2_data : ℕ
  pub imm_ext : ℕ
  pub rs1_addr : ℕ
  pub rs2_addr : ℕ
  pub rd_addr : ℕ
  pub funct3 : ℕ
  pub pred_taken : Bool
  pub pred_target : ℕ
  pub control : Control

-- `ex_mem_t`
pub record ExMem : Type 0 where
  pub valid : Bool
  pub pc : ℕ
  pub pc_plus4 : ℕ
  pub alu_result : ℕ
  pub store_data : ℕ
  pub imm_ext : ℕ
  pub rd_addr : ℕ
  pub reg_write : Bool
  pub mem_to_reg : Bool
  pub mem_read : Bool
  pub mem_write : Bool
  pub jump : Bool
  pub lui : Bool

-- `mem_wb_t`
pub record MemWb : Type 0 where
  pub valid : Bool
  pub pc : ℕ
  pub pc_plus4 : ℕ
  pub alu_result : ℕ
  pub mem_read_data : ℕ
  pub imm_ext : ℕ
  pub rd_addr : ℕ
  pub reg_write : Bool
  pub mem_to_reg : Bool
  pub jump : Bool
  pub lui : Bool

-- The read ports of the register file, with the bypass from WB.
unfoldable pub read_data : (rf : ℕ → ℕ) → (reg_write : Bool) → (rd write_data rs : ℕ) → ℕ
read_data rf reg_write rd write_data rs =
    if rs == 0 then 0 else if reg_write && (rd == rs) then write_data else rf rs

unfoldable pub hazard_unit : (id_rs1 id_rs2 : ℕ) → (ex_mem_read : Bool) → (ex_rd : ℕ) → Bool
hazard_unit id_rs1 id_rs2 ex_mem_read ex_rd =
    ex_mem_read && not (ex_rd == 0) && (ex_rd == id_rs1 || ex_rd == id_rs2)

-- Where the value of an operand in EX comes from.
pub data Source : Type 0 where
  from_id_ex from_ex_mem from_mem_wb : Source

-- `forward_a` and `forward_b`, which are one function of a source register.
unfoldable pub forward_unit :
    (id_ex_rs : ℕ) (ex_mem_reg_write : Bool) (ex_mem_rd : ℕ) (mem_wb_reg_write : Bool)
    (mem_wb_rd : ℕ)
    → Source
forward_unit id_ex_rs ex_mem_reg_write ex_mem_rd mem_wb_reg_write mem_wb_rd =
    if ex_mem_reg_write && not (ex_mem_rd == 0) && (ex_mem_rd == id_ex_rs)
    then from_ex_mem
    else if mem_wb_reg_write && not (mem_wb_rd == 0) && (mem_wb_rd == id_ex_rs)
    then from_mem_wb
    else from_id_ex

unfoldable pub ex_mem_fwd_value : ExMem → ℕ
ex_mem_fwd_value r = if r.lui then r.imm_ext else if r.jump then r.pc_plus4 else r.alu_result

abbrev pub wb_value : MemWb → ℕ
wb_value r =
    wb_write_data r.lui r.jump r.mem_to_reg r.imm_ext r.pc_plus4 r.mem_read_data r.alu_result

-- The multiplexer of `fwd_rs1` and `fwd_rs2`.
abbrev pub choose : Source → (ex_mem_value wb_value id_ex_value : ℕ) → ℕ
choose from_ex_mem a b c = a
choose from_mem_wb a b c = b
choose from_id_ex a b c = c

unfoldable pub fwd_rs : ExMem → MemWb → (rs_addr rs_data : ℕ) → ℕ
fwd_rs ex_mem_r mem_wb_r rs_addr rs_data =
    choose
      (forward_unit rs_addr (ex_mem_r.valid && ex_mem_r.reg_write) ex_mem_r.rd_addr
        (mem_wb_r.valid && mem_wb_r.reg_write) mem_wb_r.rd_addr)
      (ex_mem_fwd_value ex_mem_r) (wb_value mem_wb_r) rs_data

-- What ID puts into ID/EX when there is neither a flush nor a stall.
unfoldable pub id_ex_next : IfId → (rs1_data rs2_data : ℕ) → IdEx
id_ex_next r rs1_data rs2_data =
    let c = control_of r.instr in
    record {
      valid = r.valid;
      pc = r.pc;
      pc_plus4 = r.pc_plus4;
      rs1_data = rs1_data;
      rs2_data = rs2_data;
      imm_ext = imm_gen r.instr;
      rs1_addr = rs1_of r.instr;
      rs2_addr = rs2_of r.instr;
      rd_addr = rd_of r.instr;
      funct3 = funct3_of r.instr;
      pred_taken = r.pred_taken;
      pred_target = r.pred_target;
      control = record c {
        reg_write = c.reg_write && r.valid;
        mem_read = c.mem_read && r.valid;
        mem_write = c.mem_write && r.valid;
        branch = c.branch && r.valid;
        jump = c.jump && r.valid;
      };
    }

-- EX/MEM, with the forwarded operands.
unfoldable pub ex_mem_next : IdEx → (fwd_rs1 fwd_rs2 : ℕ) → ExMem
ex_mem_next r fwd_rs1 fwd_rs2 =
    let c = r.control in
    record {
      valid = r.valid;
      pc = r.pc;
      pc_plus4 = r.pc_plus4;
      alu_result = alu_result_ex c r.pc r.imm_ext fwd_rs1 fwd_rs2;
      store_data = fwd_rs2;
      imm_ext = r.imm_ext;
      rd_addr = r.rd_addr;
      reg_write = c.reg_write;
      mem_to_reg = c.mem_to_reg;
      mem_read = c.mem_read;
      mem_write = c.mem_write;
      jump = c.jump;
      lui = c.lui;
    }

-- MEM/WB, with what data_mem reads.
unfoldable pub mem_wb_next : ExMem → (mem_read_data : ℕ) → MemWb
mem_wb_next r mem_read_data = record {
  valid = r.valid;
  pc = r.pc;
  pc_plus4 = r.pc_plus4;
  alu_result = r.alu_result;
  mem_read_data = mem_read_data;
  imm_ext = r.imm_ext;
  rd_addr = r.rd_addr;
  reg_write = r.reg_write;
  mem_to_reg = r.mem_to_reg;
  jump = r.jump;
  lui = r.lui;
}
