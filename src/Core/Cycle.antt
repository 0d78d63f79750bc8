-- ===== src/Core/Cycle.antt =====
-- rtl/riscv_core.sv as a whole: its signals and a clock edge. `imem` holds the words of the
-- instruction memory.
pub mod Registers
pub mod Sequential
pub mod Ex
pub mod Round
pub mod Invariant
pub mod Signals
pub mod Preserved
pub mod Timing
pub mod Fetching
pub mod Refines
pub mod Typed
pub mod SameData
pub mod SameStep
pub mod Simulated
use risc_v_pipeline_sim.Common.{
  ℕ, zero, suc, ◌+◌, ◌/◌, ◌%◌, ◌^◌, Bool, true, false, not, ◌&&◌, ◌||◌, ltb, ◌==◌, if◌then◌else◌,
}
use risc_v_pipeline_sim.Encoding.Decode.{slice, rs1_of, rs2_of}
use risc_v_pipeline_sim.Isa.Machine.{set_at}
use risc_v_pipeline_sim.Core.Alu.{differs}
use risc_v_pipeline_sim.Core.Control.{defaults}
use risc_v_pipeline_sim.Core.Datapath.{
  alu_result_ex, actual_taken_ex, actual_target_ex, reg_file_write,
}
use risc_v_pipeline_sim.Core.Predictor.{
  Predictor, predict_taken, predict_target, predictor_reset, train,
}
use risc_v_pipeline_sim.Core.LoopBuffer.{
  LoopBuffer, Inputs, loop_buffer_reset, loop_active, instruction_out, clock,
}
use risc_v_pipeline_sim.Core.Cycle.Registers.{
  Core, instr_at, ram_read, ram_write, if_id_zero, id_ex_zero, ex_mem_zero, mem_wb_zero, core_reset,
}
use risc_v_pipeline_sim.Core.Pipeline.{
  IfId, IdEx, ExMem, MemWb, read_data, hazard_unit, wb_value, fwd_rs, id_ex_next, ex_mem_next,
  mem_wb_next,
}

-- The signals of the stage EX.
abbrev pub fwd_rs1 : Core → ℕ
fwd_rs1 c = fwd_rs c.ex_mem_r c.mem_wb_r c.id_ex_r.rs1_addr c.id_ex_r.rs1_data

abbrev pub fwd_rs2 : Core → ℕ
fwd_rs2 c = fwd_rs c.ex_mem_r c.mem_wb_r c.id_ex_r.rs2_addr c.id_ex_r.rs2_data

abbrev pub taken_ex : IdEx → (fwd_rs1 fwd_rs2 : ℕ) → Bool
taken_ex r a b = r.valid && actual_taken_ex r.control r.funct3 r.pc r.imm_ext a b

abbrev pub target_ex : IdEx → (fwd_rs1 fwd_rs2 : ℕ) → ℕ
target_ex r a b =
    actual_target_ex r.control r.pc r.imm_ext (alu_result_ex r.control r.pc r.imm_ext a b)

abbrev pub is_control_flow_ex : IdEx → Bool
is_control_flow_ex r = r.valid && (r.control.branch || r.control.jump)

-- `mispredict_ex`, which is `flush`.
unfoldable pub flush_ex : IdEx → (fwd_rs1 fwd_rs2 : ℕ) → Bool
flush_ex r a b =
    is_control_flow_ex r
    && (differs (taken_ex r a b) r.pred_taken
        || taken_ex r a b && not (target_ex r a b == r.pred_target))

unfoldable pub flush_target : IdEx → (fwd_rs1 fwd_rs2 : ℕ) → ℕ
flush_target r a b = if taken_ex r a b then target_ex r a b else r.pc_plus4

abbrev pub flush : Core → Bool
flush c = flush_ex c.id_ex_r (fwd_rs1 c) (fwd_rs2 c)

abbrev pub stall : Core → Bool
stall c =
    hazard_unit (rs1_of c.if_id_r.instr) (rs2_of c.if_id_r.instr) c.id_ex_r.control.mem_read
      c.id_ex_r.rd_addr

-- The ports of the loop buffer, with the address that is frozen while it loops.
unfoldable pub loop_inputs : (imem : ℕ → ℕ) → Core → Inputs
loop_inputs imem c = record {
  if_pc = c.pc_if;
  instruction_in =
      instr_at imem (if loop_active c.loop.state then c.icache_frozen_addr_q else c.pc_if);
  predict_taken = predict_taken c.predictor c.pc_if;
  predict_target = predict_target c.predictor c.pc_if;
  flush = flush c;
  stall = stall c;
}

abbrev pub instr_if_final : (imem : ℕ → ℕ) → Core → ℕ
instr_if_final imem c = instruction_out (loop_inputs imem c) c.loop

-- `pc_next_if` behind `pc_write`.
unfoldable pub pc_next : (flush stall : Bool) → Core → ℕ
pc_next flush stall c =
    if flush
    then flush_target c.id_ex_r (fwd_rs1 c) (fwd_rs2 c)
    else if stall
    then c.pc_if
    else if predict_taken c.predictor c.pc_if
    then predict_target c.predictor c.pc_if
    else (c.pc_if + 4) % 2 ^ 32

unfoldable pub if_id_next : (imem : ℕ → ℕ) → (flush stall : Bool) → Core → IfId
if_id_next imem flush stall c = if flush then if_id_zero else if stall then c.if_id_r else record {
  valid = true;
  pc = c.pc_if;
  pc_plus4 = (c.pc_if + 4) % 2 ^ 32;
  instr = instr_if_final imem c;
  pred_taken = predict_taken c.predictor c.pc_if;
  pred_target = predict_target c.predictor c.pc_if;
}

-- The read port of the register file in ID.
abbrev pub rs_data_id : Core → (rs : ℕ) → ℕ
rs_data_id c rs =
    read_data c.rf (c.mem_wb_r.valid && c.mem_wb_r.reg_write) c.mem_wb_r.rd_addr
      (wb_value c.mem_wb_r) rs

unfoldable pub id_ex_step : (flush stall : Bool) → Core → IdEx
id_ex_step flush stall c =
    if flush || stall
    then id_ex_zero
    else id_ex_next c.if_id_r (rs_data_id c (rs1_of c.if_id_r.instr))
        (rs_data_id c (rs2_of c.if_id_r.instr))

-- The training port of the predictor.
unfoldable pub predictor_next : Core → Predictor
predictor_next c =
    let r = c.id_ex_r in
    if is_control_flow_ex r
    then train
        (record {
          train_pc = r.pc;
          train_taken = taken_ex r (fwd_rs1 c) (fwd_rs2 c);
          train_target = target_ex r (fwd_rs1 c) (fwd_rs2 c);
        })
        c.predictor
    else c.predictor

-- A clock edge.
abbrev pub cycle : (imem : ℕ → ℕ) → Core → Core
cycle imem c = record {
  pc_if = pc_next (flush c) (stall c) c;
  icache_frozen_addr_q = if loop_active c.loop.state then c.icache_frozen_addr_q else c.pc_if;
  predictor = predictor_next c;
  loop = clock (loop_inputs imem c) c.loop;
  if_id_r = if_id_next imem (flush c) (stall c) c;
  id_ex_r = id_ex_step (flush c) (stall c) c;
  ex_mem_r = ex_mem_next c.id_ex_r (fwd_rs1 c) (fwd_rs2 c);
  mem_wb_r = mem_wb_next c.ex_mem_r (ram_read c.ram c.ex_mem_r.mem_read c.ex_mem_r.alu_result);
  rf =
      reg_file_write (c.mem_wb_r.valid && c.mem_wb_r.reg_write) c.mem_wb_r.rd_addr
        (wb_value c.mem_wb_r) c.rf;
  ram = ram_write c.ex_mem_r.mem_write c.ex_mem_r.alu_result c.ex_mem_r.store_data c.ram;
}

unfoldable pub cycles : (imem : ℕ → ℕ) → (count : ℕ) → Core → Core
cycles imem zero c = c
cycles imem (suc count) c = cycles imem count (cycle imem c)
