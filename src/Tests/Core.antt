-- ===== src/Tests/Core.antt =====
-- rtl/riscv_core.sv and its modules, runs.
use risc_v_pipeline_sim.Common.{
  ℕ, ◌+◌, ◌-◌, ◌*◌, ◌%◌, ◌^◌, ◌≡◌, refl, inl, arith, Bool, true, false, some, List, [], ◌∷◌,
}
use risc_v_pipeline_sim.Encoding.Decode.{opcode_of, funct7_of, rs1_of, rs2_of}
use risc_v_pipeline_sim.Isa.Machine.{Machine}
use risc_v_pipeline_sim.Isa.Execute.{decode_and_execute}
use risc_v_pipeline_sim.Isa.Run.{running, advance, power_on}
use risc_v_pipeline_sim.Core.Alu.{alu_result, overflow_flag}
use risc_v_pipeline_sim.Core.Datapath.Round.{core_round, Sized}
use risc_v_pipeline_sim.Core.Datapath.SameRound.{Supported, r_type, same_round}
use risc_v_pipeline_sim.Core.Control.{control_unit}
use risc_v_pipeline_sim.Core.Pipeline.{
  IfId, ExMem, MemWb, hazard_unit, id_ex_next, ex_mem_next, mem_wb_next, read_data, wb_value,
  fwd_rs,
}
use risc_v_pipeline_sim.Core.Pipeline.Forwarded.{written_back, fwd_rs-written_back}
use risc_v_pipeline_sim.Core.Predictor.{Training, train, trained, predict_taken, predict_target}
use risc_v_pipeline_sim.Core.Predictor.Trained.{last_taken, predict_taken-last_taken}
use risc_v_pipeline_sim.Core.LoopBuffer.{
  LoopBuffer, Inputs, loop_buffer_reset, clock_in, clock, instruction_out, is_backward_prediction,
}
use risc_v_pipeline_sim.Core.LoopBuffer.Cycles.{Reaches, first, next}
use risc_v_pipeline_sim.Core.LoopBuffer.Transparent.{Reaches-instruction_out}
use risc_v_pipeline_sim.Core.LoopBuffer.Stalled.{stalled-instruction_out}

alu_runs :
    (alu_result 1 3 5 ≡ 2 ^ 32 - 2)
    × (alu_result 7 0x80000000 4 ≡ 0xF8000000)
    × (alu_result 8 0xFFFFFFFF 0 ≡ 1)
    × (overflow_flag 1 0x80000000 1 (alu_result 1 0x80000000 1) ≡ true)
unfolding alu_result
alu_runs = (refl, refl, refl, refl)

-- add x6, x5, x7 with different values in x5 and x7.
abbrev some_values : Machine
some_values = record power_on { registers = λ r. r * 0x24924925 % 2 ^ 32 }

some_values-Sized : Sized some_values
some_values-Sized = record { registers_sized = λ r. omega arith; pc_sized = omega arith }

add_Supported : Supported 0x00728333 some_values
unfolding opcode_of funct7_of
add_Supported = r_type refl (inl refl)

same_round_example :
    advance (decode_and_execute 0x00728333 some_values)
    ≡ running (core_round 0x00728333 some_values)
same_round_example = same_round 0x00728333 some_values (omega arith) some_values-Sized add_Supported

-- A branch at 8 that goes back to 0, taken twice, with a branch at 264, which shares its entry, not
-- taken in between.
abbrev trainings : List Training
trainings =
    record { train_pc = 8; train_taken = true; train_target = 0 }
    ∷ record { train_pc = 264; train_taken = false; train_target = 0 }
    ∷ record { train_pc = 8; train_taken = true; train_target = 0 }
    ∷ record { train_pc = 8; train_taken = true; train_target = 4 }
    ∷ []

predicts :
    (predict_taken (trained trainings) 8 ≡ true) × (predict_taken (trained trainings) 264 ≡ false)
unfolding predict_taken trained train
predicts = (refl, refl)

predict_taken-last_taken_example :
    last_taken 8 trainings ≡ some (predict_target (trained trainings) 8)
predict_taken-last_taken_example =
    predict_taken-last_taken trainings 8 (ground arith) (ground arith) predicts.0

-- A loop of two words at 0 and 4.
abbrev cycle_at : (pc word : ℕ) → (taken : Bool) → Inputs
cycle_at pc word taken = record {
  if_pc = pc;
  instruction_in = word;
  predict_taken = taken;
  predict_target = 0;
  flush = false;
  stall = false;
}

abbrev instr_at : ℕ → ℕ
instr_at a = a + 100

abbrev start : LoopBuffer
start = loop_buffer_reset (λ k. 0)

abbrev lb1 : LoopBuffer
lb1 = clock (cycle_at 4 104 true) start

abbrev lb2 : LoopBuffer
lb2 = clock (cycle_at 0 100 false) lb1

abbrev lb3 : LoopBuffer
lb3 = clock (cycle_at 4 104 true) lb2

reaches_1 : Reaches instr_at lb1 (cycle_at 0 100 false)
unfolding clock_in is_backward_prediction
reaches_1 =
    next start (cycle_at 4 104 true) (cycle_at 0 100 false)
      (first (λ k. 0) (cycle_at 4 104 true)
        (record {
          pc_small = omega arith;
          pc_aligned = refl;
          target_aligned = refl;
          fetched = λ z. refl;
        })
        (λ q b. refl))
      (λ q. refl)
      (record {
        pc_small = omega arith;
        pc_aligned = refl;
        target_aligned = refl;
        fetched = λ z. refl;
      })
      (λ q r e. refl)

reaches_2 : Reaches instr_at lb2 (cycle_at 4 104 true)
unfolding clock_in is_backward_prediction
reaches_2 =
    next lb1 (cycle_at 0 100 false) (cycle_at 4 104 true) reaches_1 (λ q. refl)
      (record {
        pc_small = omega arith;
        pc_aligned = refl;
        target_aligned = refl;
        fetched = λ z. refl;
      })
      (λ q r e. absurd (e refl))

-- The address is frozen, and instruction_in is not the word at 0.
reaches_3 : Reaches instr_at lb3 (cycle_at 0 104 false)
unfolding clock_in is_backward_prediction
reaches_3 =
    next lb2 (cycle_at 4 104 true) (cycle_at 0 104 false) reaches_2 (λ q. refl)
      (record {
        pc_small = omega arith;
        pc_aligned = refl;
        target_aligned = refl;
        fetched = λ z. absurd (z refl);
      })
      (λ q. (omega arith, omega arith))

Reaches-instruction_out_example : instruction_out (cycle_at 0 104 false) lb3 ≡ 100
Reaches-instruction_out_example =
    Reaches-instruction_out instr_at lb3 (cycle_at 0 104 false) reaches_3 refl

abbrev held : Inputs
held = record (cycle_at 4 104 true) { stall = true }

stalled-instruction_out_example :
    instruction_out (cycle_at 0 100 false) (clock (cycle_at 4 104 true) (clock held start)) ≡ 104
stalled-instruction_out_example =
    stalled-instruction_out start held (cycle_at 4 104 true) (cycle_at 0 100 false) refl
      (omega arith) (omega arith) refl refl refl (λ q. refl) refl refl refl refl (λ q. refl)

-- add x6, x5, x7 in EX, with older writes of x6 in MEM and WB, and add x5, x6, x6 in ID.
abbrev in_ex : IfId
in_ex = record {
  valid = true;
  pc = 8;
  pc_plus4 = 12;
  instr = 0x00728333;
  pred_taken = false;
  pred_target = 0;
}

abbrev in_mem : ExMem
in_mem = record {
  valid = true;
  pc = 4;
  pc_plus4 = 8;
  alu_result = 2;
  store_data = 0;
  imm_ext = 0;
  rd_addr = 6;
  reg_write = true;
  mem_to_reg = false;
  mem_read = false;
  mem_write = false;
  jump = false;
  lui = false;
}

abbrev in_wb : MemWb
in_wb = record {
  valid = true;
  pc = 0;
  pc_plus4 = 4;
  alu_result = 1;
  mem_read_data = 0;
  imm_ext = 0;
  rd_addr = 6;
  reg_write = true;
  mem_to_reg = false;
  jump = false;
  lui = false;
}

runs_on :
    hazard_unit
      (rs1_of 0x006302B3)
      (rs2_of 0x006302B3)
      (id_ex_next in_ex 0 0).control.mem_read
      (id_ex_next in_ex 0 0).rd_addr
    ≡ false
unfolding hazard_unit id_ex_next control_unit opcode_of
runs_on = refl

fwd_rs-written_back_example :
    let e = ex_mem_next (id_ex_next in_ex 0 0) 3 4 in
    let m = mem_wb_next in_mem 0 in
    let rs_data = read_data (λ r. 0) true 6 (wb_value in_wb) in
    let in_order = written_back (mem_wb_next e 0) (written_back m (written_back in_wb (λ r. 0))) in
    (fwd_rs e m (rs1_of 0x006302B3) (rs_data (rs1_of 0x006302B3)) ≡ in_order (rs1_of 0x006302B3))
    × (fwd_rs e m (rs2_of 0x006302B3) (rs_data (rs2_of 0x006302B3)) ≡ in_order (rs2_of 0x006302B3))
fwd_rs-written_back_example =
    fwd_rs-written_back (λ r. 0) in_wb in_mem in_ex 0 0 3 4 0 0 0x006302B3 refl runs_on
