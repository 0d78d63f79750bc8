-- ===== src/Tests/Simulation.antt =====
-- src/main.cpp, runs.
use risc_v_pipeline_sim.Common.{ℕ, ◌+◌, ◌≡◌, refl, arith, codes, Option, none, some, List, [], ◌∷◌}
use risc_v_pipeline_sim.Effect.{Ensures}
use risc_v_pipeline_sim.Output.{main}
use risc_v_pipeline_sim.Output.Hex.{hex_text}
use risc_v_pipeline_sim.Isa.Machine.{Machine}
use risc_v_pipeline_sim.Isa.{fields, sign_extend_12, decode_s_imm}
use risc_v_pipeline_sim.Isa.Machine.{
  fetch_instruction, read_byte, write_byte, write_word, write_reg, execute_alu, and_then,
}
use risc_v_pipeline_sim.Isa.Execute.{
  decode_and_execute, op_imm, write_result, store, load, load_word,
}
use risc_v_pipeline_sim.Isa.Access.{with_word}
use risc_v_pipeline_sim.Isa.Run.{
  step, Status, running, finished, undefined, run_sim, load_from_file, power_on, stoul,
}
use risc_v_pipeline_sim.Simulation.{Code}
use risc_v_pipeline_sim.Simulation.Loading.{load_from_file-Code}
use risc_v_pipeline_sim.Simulation.Settled.{Settles, main-Settles}
use risc_v_pipeline_sim.Tests.Generator.{counter, seed}

numbers :
    (stoul (codes "0000001a") ≡ some 26)
    × (stoul (codes "  0x1G") ≡ some 1)
    × (stoul (codes "xyz") ≡ none)
unfolding stoul
numbers = (refl, refl, refl)

-- addi x5, x0, 7; addi x6, x5, -3; sw x6, 64(x0); lw x7, 64(x0); a word of zeros.
abbrev program : List ℕ
program = 0x00700293 ∷ 0xFFD28313 ∷ 0x04602023 ∷ 0x04002383 ∷ []

abbrev register_of : ℕ → Status → Option ℕ
register_of r (running m) = none
register_of r (finished m) = some (m.registers r)
register_of r undefined = none

abbrev place : (ℕ → ℕ) → ℕ → List ℕ → ℕ → ℕ
place mem a [] = mem
place mem a (w ∷ ws) = place (with_word mem a w) (a + 4) ws

loaded_7 :
    register_of 7 (run_sim 9 (record power_on { memory = place power_on.memory 0 program }))
    ≡ some 4
unfolding run_sim step fetch_instruction read_byte write_byte write_word write_reg
    decode_and_execute op_imm write_result store load load_word execute_alu fields sign_extend_12
    decode_s_imm and_then
loaded_7 = refl

load_from_file-Code_example :
    (m' : Machine) × (load_from_file (hex_text (0x00700293 ∷ 0xFFD28313 ∷ [])) power_on ≡ some m')
    × (m'.pc ≡ power_on.pc)
    × (m'.registers ≡ power_on.registers)
    × Code (0x00700293 ∷ 0xFFD28313 ∷ []) m'
load_from_file-Code_example =
    load_from_file-Code (0x00700293 ∷ 0xFFD28313 ∷ []) power_on (omega arith) (ground arith)

main-Settles_example : Ensures (λ files t. Settles 12 files) (main counter 12) seed
main-Settles_example = main-Settles counter 12 seed (omega arith) (omega arith)
