-- ===== src/Tests/Cycle.antt =====
-- A run of the whole core.
use risc_v_pipeline_sim.Common.{
  ℕ, zero, suc, ◌+◌, ◌*◌, ◌%◌, ◌^◌, ◌≤◌, ◌<◌, ◌≡◌, ◌≢◌, refl, sym, ap, ◌∙◌, arith, Bool, true,
  false, not, ◌&&◌, ◌==◌, ltb, if◌then◌else◌,
}
use risc_v_pipeline_sim.Encoding.Decode.{
  opcode_of, rd_of, funct3_of, funct7_of, rs1_of, rs2_of, imm_gen,
}
use risc_v_pipeline_sim.Core.Alu.{alu_result}
use risc_v_pipeline_sim.Core.Control.{control_unit, r_control, i_control}
use risc_v_pipeline_sim.Core.Datapath.{
  branch_taken, alu_result_ex, actual_taken_ex, actual_target_ex, wb_write_data, execute,
  reg_file_write,
}
use risc_v_pipeline_sim.Core.Predictor.Trained.{IsPc}
use risc_v_pipeline_sim.Core.Predictor.{predict_taken, predict_target, train}
use risc_v_pipeline_sim.Core.LoopBuffer.Cycles.{Steady}
use risc_v_pipeline_sim.Core.LoopBuffer.{
  State, idle, recording, looping, invalid, is_backward_prediction, instruction_out, clock_in,
}
use risc_v_pipeline_sim.Core.Pipeline.{
  read_data, hazard_unit, forward_unit, ex_mem_fwd_value, fwd_rs, id_ex_next, ex_mem_next,
  mem_wb_next,
}
use risc_v_pipeline_sim.Core.Cycle.{
  stall, flush_ex, flush_target, loop_inputs, pc_next, if_id_next, id_ex_step, predictor_next,
  cycle, cycles,
}
use risc_v_pipeline_sim.Core.Cycle.Registers.{Core, core_reset, ram_read, ram_write}
use risc_v_pipeline_sim.Core.Cycle.Sequential.{Arch, round, rounds, arch_of}
use risc_v_pipeline_sim.Core.Cycle.Timing.{wait, bubbles}
use risc_v_pipeline_sim.Core.Cycle.Fetching.{Steadily}
use risc_v_pipeline_sim.Core.Cycle.Refines.{retired, lost, at_reset, core_reset-rounds}

-- addi x5, x0, 1; sw x5, 32(x0); lw x6, 32(x0); add x7, x6, x6; beq x0, x0, -16.
abbrev pub program : ℕ → ℕ
program k =
    if k == 0
    then 0x00100293
    else if k == 1
    then 0x02502023
    else if k == 2
    then 0x02002303
    else if k == 3
    then 0x006303B3
    else if k == 4
    then 0xFE0008E3
    else 0x13

abbrev pub powered : Core
powered = core_reset (λ k. 0) (λ k. 0)

abbrev is_idle : State → Bool
is_idle idle = true
is_idle recording = false
is_idle looping = false
is_idle invalid = false

-- The loop buffer is idle, and nothing is predicted to be taken.
unfoldable calm : Core → Bool
calm c =
    ltb (c.pc_if + 4) (2 ^ 32) && is_idle c.loop.state && not (predict_taken c.predictor c.pc_if)

not_found :
    (imem : ℕ → ℕ) (c : Core)
    → predict_taken c.predictor c.pc_if ≡ false
    → is_backward_prediction (loop_inputs imem c) ≡ true
    → stall c ≡ false
unfolding is_backward_prediction loop_inputs
not_found imem c e b =
    absurd (untrue (sym b ∙ ap (λ k. k && ltb (predict_target c.predictor c.pc_if) c.pc_if) e))
  where
    untrue : true ≢ false
    untrue q = cc

Steady-idle :
    (st : State) (imem : ℕ → ℕ) (c : Core)
    → is_idle st ≡ true
    → predict_taken c.predictor c.pc_if ≡ false
    → Steady st c.loop (loop_inputs imem c)
unfolding loop_inputs
Steady-idle idle imem c h e = not_found imem c e
Steady-idle recording imem c h e = absurd (cc)
Steady-idle looping imem c h e = absurd (cc)
Steady-idle invalid imem c h e = absurd (cc)

calm-Steadily : (imem : ℕ → ℕ) (c : Core) → calm c ≡ true → Steadily imem c
unfolding calm
calm-Steadily imem c h =
    let low : ltb (c.pc_if + 4) (2 ^ 32) ≡ true = ground (arith, h) in
    let rests : is_idle c.loop.state ≡ true = ground (arith, h) in
    let next : predict_taken c.predictor c.pc_if ≡ false = ground (arith, h) in
    record { below = ground (arith, low); steady = λ q. Steady-idle c.loop.state imem c rests next }

unfoldable all_calm : (count : ℕ) → Core → Bool
all_calm zero c = true
all_calm (suc count) c = let rest = all_calm count (cycle program c) in calm c && rest

all_calm-Steadily :
    (count : ℕ) (c : Core)
    → all_calm count c ≡ true
    → (i : ℕ) → i < count
    → Steadily program (cycles program i c)
unfolding all_calm cycles
all_calm-Steadily zero c h i l = absurd (omega arith)
all_calm-Steadily (suc count) c h zero l = calm-Steadily program c (ground (arith, h))
all_calm-Steadily (suc count) c h (suc i) l =
    all_calm-Steadily count (cycle program c) (ground (arith, h)) i (omega arith)

unfoldable all_pcs : (count : ℕ) → Arch → Bool
all_pcs zero a = true
all_pcs (suc count) a =
    let rest = all_pcs count (round program a) in ltb a.pc (2 ^ 32) && (a.pc % 4 == 0) && rest

all_pcs-IsPc :
    (count : ℕ) (a : Arch)
    → all_pcs count a ≡ true
    → (i : ℕ) → i < count
    → IsPc (rounds program i a).pc
unfolding all_pcs rounds
all_pcs-IsPc zero a h i l = absurd (omega arith)
all_pcs-IsPc (suc count) a h zero l = ground (arith, h)
all_pcs-IsPc (suc count) a h (suc i) l =
    all_pcs-IsPc count (round program a) (ground (arith, h)) i (omega arith)

-- Eleven cycles: two to fill, five instructions, a stall behind the load, two cycles for the flush of
-- the branch, and the first instruction again.
run_of_11 :
    (all_calm 11 powered ≡ true)
    × (all_pcs 7 (at_reset (λ k. 0)) ≡ true)
    × (retired program 11 powered ≡ 6)
    × (lost program 11 powered ≡ 3)
    × (wait (cycles program 11 powered) ≡ 0)
unfolding all_calm calm all_pcs retired lost wait bubbles cycles rounds round execute predict_taken
    flush_ex flush_target loop_inputs pc_next if_id_next id_ex_step predictor_next opcode_of rd_of
    funct3_of funct7_of rs1_of rs2_of imm_gen alu_result control_unit branch_taken alu_result_ex
    actual_taken_ex actual_target_ex wb_write_data reg_file_write predict_target train
    is_backward_prediction instruction_out clock_in read_data hazard_unit forward_unit
    ex_mem_fwd_value fwd_rs id_ex_next ex_mem_next mem_wb_next ram_read ram_write
run_of_11 = (refl, refl, refl, refl, refl)

run_of_4 : (all_calm 4 powered ≡ true) × (retired program 4 powered ≡ 2)
unfolding all_calm calm all_pcs retired lost wait bubbles cycles rounds round execute predict_taken
    flush_ex flush_target loop_inputs pc_next if_id_next id_ex_step predictor_next opcode_of rd_of
    funct3_of funct7_of rs1_of rs2_of imm_gen alu_result control_unit branch_taken alu_result_ex
    actual_taken_ex actual_target_ex wb_write_data reg_file_write predict_target train
    is_backward_prediction instruction_out clock_in read_data hazard_unit forward_unit
    ex_mem_fwd_value fwd_rs id_ex_next ex_mem_next mem_wb_next ram_read ram_write
run_of_4 = (refl, refl)

pub retired_4 : retired program 4 powered ≡ 2
retired_4 = run_of_4.1

pub cycles-Steadily : (i : ℕ) → i < 4 → Steadily program (cycles program i powered)
cycles-Steadily i h = all_calm-Steadily 4 powered run_of_4.0 i h

core_reset-rounds_example :
    let c = powered in
    let n = retired program 11 c in
    (arch_of (cycles program 11 c) ≡ rounds program n (at_reset (λ k. 0)))
    × (11 + wait (cycles program 11 c) ≡ n + lost program 11 c + 2)
    × (lost program 11 c ≤ 2 * n)
core_reset-rounds_example =
    core_reset-rounds program (λ k. 0) (λ k. 0) 11 (all_calm-Steadily 11 powered run_of_11.0)
      (λ i h. all_pcs-IsPc 7 (at_reset (λ k. 0)) run_of_11.1 i (omega (arith, h, run_of_11.2)))

-- The value that the load brings.
x7_is_2 : (rounds program 6 (at_reset (λ k. 0))).registers 7 ≡ 2
unfolding retired lost wait bubbles cycles rounds round execute predict_taken flush_ex flush_target
    loop_inputs pc_next if_id_next id_ex_step predictor_next opcode_of rd_of funct3_of funct7_of
    rs1_of rs2_of imm_gen alu_result control_unit branch_taken alu_result_ex actual_taken_ex
    actual_target_ex wb_write_data reg_file_write predict_target train is_backward_prediction
    instruction_out clock_in read_data hazard_unit forward_unit ex_mem_fwd_value fwd_rs id_ex_next
    ex_mem_next mem_wb_next ram_read ram_write r_control i_control
x7_is_2 = refl
