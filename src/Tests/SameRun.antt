-- ===== src/Tests/SameRun.antt =====
-- The core and the simulator src/main.cpp on the program of Tests/Cycle.
use risc_v_pipeline_sim.Common.{
  ℕ, zero, suc, ◌+◌, ◌*◌, ◌/◌, ◌%◌, ◌^◌, ◌≤◌, ◌<◌, ◌≡◌, refl, Bool, sym, ◌∙◌, subst, arith, false,
  ltb, if◌then◌else◌,
}
use risc_v_pipeline_sim.Encoding.Decode.{opcode_of, funct3_of, rs1_of, imm_gen}
use risc_v_pipeline_sim.Isa.Machine.{
  Machine, set_at, fetch_instruction, read_byte, write_word, write_byte, and_then, execute_alu,
  write_reg,
}
use risc_v_pipeline_sim.Isa.{fields, sign_extend_12, decode_s_imm}
use risc_v_pipeline_sim.Isa.Execute.{decode_and_execute, op_imm, store, write_result}
use risc_v_pipeline_sim.Encoding.{◌|||◌}
use risc_v_pipeline_sim.Core.Alu.{alu_result}
use risc_v_pipeline_sim.Core.Control.{control_unit, i_control}
use risc_v_pipeline_sim.Core.Datapath.{alu_result_ex}
use risc_v_pipeline_sim.Isa.Access.{word_at, with_word}
use risc_v_pipeline_sim.Isa.Run.{running, step, run_sim}
use risc_v_pipeline_sim.Core.Datapath.SameRound.{i_type, lw, sw}
use risc_v_pipeline_sim.Core.Cycle.{cycles}
use risc_v_pipeline_sim.Core.Cycle.Sequential.{arch_of}
use risc_v_pipeline_sim.Core.Cycle.Refines.{retired, at_reset}
use risc_v_pipeline_sim.Core.Cycle.Typed.{Typed}
use risc_v_pipeline_sim.Core.Cycle.SameStep.{Same, Runs}
use risc_v_pipeline_sim.Core.Cycle.Simulated.{core_reset-run_sim}
use risc_v_pipeline_sim.Tests.Cycle.{program, powered, retired_4, cycles-Steadily}

-- The program's five words, lowest byte first, and zeros.
abbrev loaded : Machine
loaded = record {
  registers = λ r. 0;
  pc = 0;
  memory = λ a. if ltb a 20 then program (a / 4) / 2 ^ (8 * (a % 4)) % 2 ^ 8 else 0;
}

abbrev behind_addi : Machine
behind_addi = record loaded { registers = set_at (λ r. 0) 5 1; pc = 4 }

abbrev behind_sw : Machine
behind_sw = record behind_addi { memory = with_word loaded.memory 32 1; pc = 8 }

above_program : (a : ℕ) → 20 ≤ a → loaded.memory a ≡ 0
above_program a h = let test : ltb a 20 ≡ false = ground arith in rw test refl

code : (k : ℕ) → 4 * k + 4 ≤ 20 → program k ≡ word_at loaded.memory (4 * k)
code zero h = refl
code (suc zero) h = refl
code (suc (suc zero)) h = refl
code (suc (suc (suc zero))) h = refl
code (suc (suc (suc (suc zero)))) h = refl
code (suc (suc (suc (suc (suc k))))) h = absurd (omega arith)

loaded-Typed : Typed loaded
loaded-Typed = record {
  sized = record { registers_sized = λ r. omega arith; pc_sized = omega arith };
  bytes = λ j. byte (ltb j 20) (program (j / 4) / 2 ^ (8 * (j % 4)));
}
  where
    byte : (b : Bool) (v : ℕ) → (if b then v % 2 ^ 8 else 0) < 2 ^ 8
    byte b v = ground arith

loaded-Same : Same program 20 (at_reset (λ k. 0)) loaded
loaded-Same = record {
  registers_same = refl;
  pc_same = refl;
  data_same = λ k above top.
      let h0 = above_program (4 * k) above in
      let h1 = above_program (4 * k + 1) (omega arith) in
      let h2 = above_program (4 * k + 2) (omega arith) in
      let h3 = above_program (4 * k + 3) (omega arith) in
      sym (λ i. h0 i ||| h1 i * 2 ^ 8 ||| h2 i * 2 ^ 16 ||| h3 i * 2 ^ 24);
  code_same = code;
}

addi_Runs : Runs 20 loaded
unfolding opcode_of control_unit i_control
addi_Runs = record {
  pc_inside = omega arith;
  pc_aligned = refl;
  nonzero = omega arith;
  supported = i_type refl;
  in_data = λ e. absurd (cc);
}

sw_Runs : Runs 20 behind_addi
unfolding opcode_of funct3_of rs1_of control_unit imm_gen alu_result alu_result_ex
sw_Runs = record {
  pc_inside = omega arith;
  pc_aligned = refl;
  nonzero = omega arith;
  supported = sw refl refl refl (omega arith);
  in_data = λ e. (omega arith, omega arith);
}

lw_Runs : Runs 20 behind_sw
unfolding opcode_of funct3_of rs1_of control_unit imm_gen alu_result alu_result_ex
lw_Runs = record {
  pc_inside = omega arith;
  pc_aligned = refl;
  nonzero = omega arith;
  supported = lw refl refl refl (omega arith);
  in_data = λ e. (omega arith, omega arith);
}

rounds_run : (run_sim 1 loaded ≡ running behind_addi) × (run_sim 2 loaded ≡ running behind_sw)
unfolding run_sim step fetch_instruction read_byte decode_and_execute op_imm store write_word
    write_byte and_then fields execute_alu write_reg write_result sign_extend_12 decode_s_imm
rounds_run = (refl, refl)

machine_of : (m m' : Machine) → running m ≡ running m' → m ≡ m'
machine_of m m' e = cc

all_run : (i : ℕ) (m : Machine) → i ≤ 2 → run_sim i loaded ≡ running m → Runs 20 m
all_run zero m h e = subst (Runs 20) (machine_of loaded m (unfold run_sim in e)) addi_Runs
all_run (suc zero) m h e = subst (Runs 20) (machine_of behind_addi m (sym rounds_run.0 ∙ e)) sw_Runs
all_run (suc (suc zero)) m h e =
    subst (Runs 20) (machine_of behind_sw m (sym rounds_run.1 ∙ e)) lw_Runs
all_run (suc (suc (suc i))) m h e = absurd (omega arith)

core_reset-run_sim_example :
    (m : Machine) × (run_sim (retired program 4 powered) loaded ≡ running m)
    × Same program 20 (arch_of (cycles program 4 powered)) m
core_reset-run_sim_example =
    core_reset-run_sim program 20 refl (omega arith) (λ k. 0) (λ k. 0) 4 loaded loaded-Typed
      loaded-Same cycles-Steadily (λ i m h e. all_run i m (omega (arith, h, retired_4)) e)
