-- ===== src/Core/Datapath/SameRound.antt =====
-- A round of the simulator src/main.cpp is what the core does for the instruction.
use risc_v_pipeline_sim.Common.{
  ℕ, ◌+◌, ◌*◌, ◌/◌, ◌%◌, ◌^◌, ◌≤◌, ◌<◌, ◌≡◌, refl, sym, ap, ◌∙◌, ◌⊎◌, arith, some,
}
use risc_v_pipeline_sim.Encoding.Decode.{
  opcode_of, funct3_of, rs1_of, rs2_of, funct7_of, imm_gen, imm_i, imm_s,
}
use risc_v_pipeline_sim.Isa.SameFields.{fields_masks, fields-core_fields}
use risc_v_pipeline_sim.Isa.Machine.{Machine, add_32}
use risc_v_pipeline_sim.Isa.Execute.{store, decode_and_execute}
use risc_v_pipeline_sim.Isa.Run.{running, advance}
use risc_v_pipeline_sim.Isa.Access.{with_word, write_word_inside}
use risc_v_pipeline_sim.Generator.Safe.{IsBranchCode}
use risc_v_pipeline_sim.Core.Alu.{alu_result}
use risc_v_pipeline_sim.Core.Control.{control_unit}
use risc_v_pipeline_sim.Core.Datapath.{
  execute, reg_file_write, alu_result_ex, actual_taken_ex, branch_taken, wb_write_data,
}
use risc_v_pipeline_sim.Core.Datapath.Round.{core_round, Sized}
use risc_v_pipeline_sim.Core.Datapath.Writes.{round_r, round_i, round_lui, round_auipc, round_lw}
use risc_v_pipeline_sim.Core.Datapath.Jumps.{round_jal, round_jalr, round_b}

-- The instructions of RV32I that the core has: register and immediate arithmetic, LUI, AUIPC, JAL,
-- JALR, the four branches on equality and signed order, and LW and SW at a multiple of four inside
-- the memory.
pub data Supported (w : ℕ) (m : Machine) : Type 0 where
  r_type : opcode_of w ≡ 0x33 → (funct7_of w ≡ 0) ⊎ (funct7_of w ≡ 0x20) → Supported w m
  i_type : opcode_of w ≡ 0x13 → Supported w m
  lui : opcode_of w ≡ 0x37 → Supported w m
  auipc : opcode_of w ≡ 0x17 → Supported w m
  jal : opcode_of w ≡ 0x6F → Supported w m
  jalr : opcode_of w ≡ 0x67 → Supported w m
  b_type : opcode_of w ≡ 0x63 → IsBranchCode (funct3_of w) → Supported w m
  lw :
      opcode_of w ≡ 0x03
      → funct3_of w ≡ 2
      → add_32 (m.registers (rs1_of w)) (imm_i w) % 4 ≡ 0
      → add_32 (m.registers (rs1_of w)) (imm_i w) + 4 ≤ 4096
      → Supported w m
  sw :
      opcode_of w ≡ 0x23
      → funct3_of w ≡ 2
      → add_32 (m.registers (rs1_of w)) (imm_s w) % 4 ≡ 0
      → add_32 (m.registers (rs1_of w)) (imm_s w) + 4 ≤ 4096
      → Supported w m

module _ (w : ℕ) (m : Machine) (hw : w < 2 ^ 32) (s : Sized m) where
  round_sw :
      opcode_of w ≡ 0x23
      → funct3_of w ≡ 2
      → add_32 (m.registers (rs1_of w)) (imm_s w) % 4 ≡ 0
      → add_32 (m.registers (rs1_of w)) (imm_s w) + 4 ≤ 4096
      → advance (decode_and_execute w m) ≡ running (core_round w m)
  unfolding decode_and_execute store execute control_unit alu_result_ex alu_result actual_taken_ex
      branch_taken wb_write_data imm_gen reg_file_write
  round_sw op f3 aligned room =
      let address = add_32 (m.registers (rs1_of w)) (imm_s w) in
      let value = m.registers (rs2_of w) in
      let ran : decode_and_execute w m
          ≡ some (record m { memory = with_word m.memory address value }) =
        rw (fields_masks w, op, (fields-core_fields w hw).2, f3)
          (write_word_inside address value m room) in
      let same : address / 4 * 4 ≡ address = omega arith in
      let core : core_round w m
          ≡ record m { pc = add_32 m.pc 4; memory = with_word m.memory address value } =
        rw (op, same) refl in
      ap advance ran ∙ ap running (sym core)

-- For every word of 32 bits that is an instruction of the core, and every state whose registers and
-- pc have 32 bits, what the simulator does with the word, its step of the pc included, gives the
-- registers, the pc and the memory that the core's decoder, immediate generator, ALU, branch
-- condition, jump target and write-back give for it, with all operands forwarded.
pub same_round :
    (w : ℕ) (m : Machine)
    → w < 2 ^ 32
    → Sized m
    → Supported w m
    → advance (decode_and_execute w m) ≡ running (core_round w m)
same_round w m hw s (r_type op f7) = round_r w m hw s op f7
same_round w m hw s (i_type op) = round_i w m hw s op
same_round w m hw s (lui op) = round_lui w m hw s op
same_round w m hw s (auipc op) = round_auipc w m hw s op
same_round w m hw s (jal op) = round_jal w m hw s op
same_round w m hw s (jalr op) = round_jalr w m hw s op
same_round w m hw s (b_type op code) = round_b w m hw s op code
same_round w m hw s (lw op f3 aligned room) = round_lw w m hw s op f3 aligned room
same_round w m hw s (sw op f3 aligned room) = round_sw w m hw s op f3 aligned room
