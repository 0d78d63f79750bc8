-- ===== src/Core/Cycle/Registers.antt =====
-- The registers and memories of rtl/riscv_core.sv, with rtl/instruction_mem.sv and rtl/data_mem.sv.
-- A data address outside ram reads 0 here, where the simulator of the hardware gives unknown bits,
-- and is not written.
use risc_v_pipeline_sim.Common.{ℕ, ◌/◌, Bool, false, ◌&&◌, ltb, if◌then◌else◌}
use risc_v_pipeline_sim.Encoding.Decode.{slice}
use risc_v_pipeline_sim.Isa.Machine.{set_at}
use risc_v_pipeline_sim.Core.Control.{defaults}
use risc_v_pipeline_sim.Core.Predictor.{Predictor, predictor_reset}
use risc_v_pipeline_sim.Core.LoopBuffer.{LoopBuffer, loop_buffer_reset}
use risc_v_pipeline_sim.Core.Pipeline.{IfId, IdEx, ExMem, MemWb}

pub record Core : Type 0 where
  pub pc_if : ℕ
  pub icache_frozen_addr_q : ℕ
  pub predictor : Predictor
  pub loop : LoopBuffer
  pub if_id_r : IfId
  pub id_ex_r : IdEx
  pub ex_mem_r : ExMem
  pub mem_wb_r : MemWb
  pub rf : ℕ → ℕ
  pub ram : ℕ → ℕ

-- rtl/instruction_mem.sv.
abbrev pub instr_at : (imem : ℕ → ℕ) → (addr : ℕ) → ℕ
instr_at imem addr = imem (slice 2 10 addr)

-- rtl/data_mem.sv.
unfoldable pub ram_read : (ram : ℕ → ℕ) → (mem_read : Bool) → (addr : ℕ) → ℕ
ram_read ram mem_read addr =
    if mem_read then (if ltb (addr / 4) 1024 then ram (addr / 4) else 0) else 0

unfoldable pub ram_write : (mem_write : Bool) → (addr write_data : ℕ) → (ram : ℕ → ℕ) → ℕ → ℕ
ram_write mem_write addr write_data ram =
    if mem_write && ltb (addr / 4) 1024 then set_at ram (addr / 4) write_data else ram

-- `'0`
abbrev pub if_id_zero : IfId
if_id_zero = record {
  valid = false;
  pc = 0;
  pc_plus4 = 0;
  instr = 0;
  pred_taken = false;
  pred_target = 0;
}

abbrev pub id_ex_zero : IdEx
id_ex_zero = record {
  valid = false;
  pc = 0;
  pc_plus4 = 0;
  rs1_data = 0;
  rs2_data = 0;
  imm_ext = 0;
  rs1_addr = 0;
  rs2_addr = 0;
  rd_addr = 0;
  funct3 = 0;
  pred_taken = false;
  pred_target = 0;
  control = defaults;
}

abbrev pub ex_mem_zero : ExMem
ex_mem_zero = record {
  valid = false;
  pc = 0;
  pc_plus4 = 0;
  alu_result = 0;
  store_data = 0;
  imm_ext = 0;
  rd_addr = 0;
  reg_write = false;
  mem_to_reg = false;
  mem_read = false;
  mem_write = false;
  jump = false;
  lui = false;
}

abbrev pub mem_wb_zero : MemWb
mem_wb_zero = record {
  valid = false;
  pc = 0;
  pc_plus4 = 0;
  alu_result = 0;
  mem_read_data = 0;
  imm_ext = 0;
  rd_addr = 0;
  reg_write = false;
  mem_to_reg = false;
  jump = false;
  lui = false;
}

-- The state after the reset; the memories keep what they hold.
abbrev pub core_reset : (buffer ram : ℕ → ℕ) → Core
core_reset buffer ram = record {
  pc_if = 0;
  icache_frozen_addr_q = 0;
  predictor = predictor_reset;
  loop = loop_buffer_reset buffer;
  if_id_r = if_id_zero;
  id_ex_r = id_ex_zero;
  ex_mem_r = ex_mem_zero;
  mem_wb_r = mem_wb_zero;
  rf = λ r. 0;
  ram = ram;
}
