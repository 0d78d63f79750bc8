-- ===== src/Core/Datapath/Jumps.antt =====
-- Jumps and branches, on the core and on the simulator src/main.cpp.
use risc_v_pipeline_sim.Common.{
  ℕ, ◌+◌, ◌-◌, ◌*◌, ◌/◌, ◌%◌, ◌^◌, ◌<◌, ◌≡◌, refl, sym, ap, ◌∙◌, inl, inr, arith, Bool, true, false,
  some, if◌then◌else◌,
}
use risc_v_pipeline_sim.Encoding.Decode.{
  opcode_of, rd_of, funct3_of, rs1_of, rs2_of, imm_gen, imm_i, imm_b, imm_j,
}
use risc_v_pipeline_sim.Isa.SameFields.{core_fields, fields_masks, fields-core_fields}
use risc_v_pipeline_sim.Isa.Machine.{Machine, add_32, write_reg}
use risc_v_pipeline_sim.Isa.Execute.{take_branch, branch, jump_to, decode_and_execute}
use risc_v_pipeline_sim.Isa.Run.{running, advance}
use risc_v_pipeline_sim.Generator.Safe.{IsBranchCode}
use risc_v_pipeline_sim.Core.Alu.{alu_result, zero_flag, negative_flag, overflow_flag}
use risc_v_pipeline_sim.Core.Control.{control_unit}
use risc_v_pipeline_sim.Core.Datapath.{
  execute, reg_file_write, alu_result_ex, actual_taken_ex, actual_target_ex, branch_taken,
  wb_write_data,
}
use risc_v_pipeline_sim.Core.Datapath.SameAlu.{zero_flag-difference, flags-difference}
use risc_v_pipeline_sim.Core.Datapath.Round.{core_round, Sized, write_reg_lem, rd_small}

module _ (w : ℕ) (m : Machine) (hw : w < 2 ^ 32) (s : Sized m) where
  -- JAL and JALR.
  jumped_round :
      (target : ℕ)
      → decode_and_execute w m ≡ some (jump_to target (write_reg (rd_of w) (add_32 m.pc 4) m))
      → core_round w m ≡ record m {
        registers = reg_file_write true (rd_of w) (add_32 m.pc 4) m.registers;
        pc = target % 2 ^ 32;
      }
      → advance (decode_and_execute w m) ≡ running (core_round w m)
  jumped_round target ran core =
      let there : add_32 (add_32 target (2 ^ 32 - 4)) 4 ≡ target % 2 ^ 32 = omega arith in
      let written = write_reg_lem (rd_of w) (add_32 m.pc 4) m (rd_small w) in
      ap advance ran ∙ (λ k. running (record (written k) { pc = there k })) ∙ ap running (sym core)

  pub round_jal : opcode_of w ≡ 0x6F → advance (decode_and_execute w m) ≡ running (core_round w m)
  unfolding decode_and_execute execute control_unit alu_result_ex actual_taken_ex actual_target_ex
      branch_taken wb_write_data imm_gen
  round_jal op =
      jumped_round (m.pc + imm_j w) (rw (fields_masks w, op, (fields-core_fields w hw).4) refl)
        (rw op refl)

  pub round_jalr : opcode_of w ≡ 0x67 → advance (decode_and_execute w m) ≡ running (core_round w m)
  unfolding decode_and_execute execute control_unit alu_result_ex alu_result actual_taken_ex
      actual_target_ex branch_taken wb_write_data imm_gen
  round_jalr op =
      let t = add_32 (m.registers (rs1_of w)) (imm_i w) in
      let even : t - t % 2 ≡ t / 2 * 2 = omega arith in
      let small : t / 2 * 2 % 2 ^ 32 ≡ t / 2 * 2 = omega arith in
      jumped_round (t / 2 * 2) (rw (fields_masks w, op, (fields-core_fields w hw).1, even) refl)
        (rw (op, small) refl)

  -- The condition of a branch, from the flags of the subtraction.
  take_branch-branch_taken :
      IsBranchCode (funct3_of w)
      → let a = m.registers (rs1_of w) in
        let b = m.registers (rs2_of w) in
        let d = alu_result 1 a b in
        take_branch (core_fields w) m
        ≡ some (
            branch_taken true (funct3_of w) (zero_flag d) (negative_flag d) (overflow_flag 1 a b d))
  unfolding take_branch branch_taken alu_result
  take_branch-branch_taken code =
      let ha = s.registers_sized (rs1_of w) in
      let hb = s.registers_sized (rs2_of w) in
      let same = zero_flag-difference (m.registers (rs1_of w)) (m.registers (rs2_of w)) ha hb in
      let less = flags-difference (m.registers (rs1_of w)) (m.registers (rs2_of w)) ha hb in
      elim code [
        | inl e ↦ rw (e, same) refl
        | inr (inl e) ↦ rw (e, same) refl
        | inr (inr (inl e)) ↦ rw (e, less) refl
        | inr (inr (inr e)) ↦ rw (e, less) (ground arith)
      ]

  branched :
      (c : Bool)
      → advance (some (branch w (some c) m))
        ≡ running (record m { pc = if c then (m.pc + imm_b w) % 2 ^ 32 else add_32 m.pc 4 })
  unfolding branch
  branched true =
      let imm = (fields-core_fields w hw).3 in
      let there : add_32 (add_32 (m.pc + imm_b w) (2 ^ 32 - 4)) 4 ≡ (m.pc + imm_b w) % 2 ^ 32 =
        omega arith in
      rw (imm, there) refl
  branched false = refl

  pub round_b :
      opcode_of w ≡ 0x63
      → IsBranchCode (funct3_of w)
      → advance (decode_and_execute w m) ≡ running (core_round w m)
  unfolding decode_and_execute execute control_unit alu_result_ex actual_taken_ex actual_target_ex
      wb_write_data imm_gen reg_file_write
  round_b op code =
      let a = m.registers (rs1_of w) in
      let b = m.registers (rs2_of w) in
      let d = alu_result 1 a b in
      let c =
        branch_taken true (funct3_of w) (zero_flag d) (negative_flag d) (overflow_flag 1 a b d) in
      let ran : decode_and_execute w m ≡ some (branch w (take_branch (core_fields w) m) m) =
        rw (fields_masks w, op) refl in
      let core : core_round w m
          ≡ record m { pc = if c then (m.pc + imm_b w) % 2 ^ 32 else add_32 m.pc 4 } =
        rw op refl in
      ap advance (ran ∙ ap (λ o. some (branch w o m)) (take_branch-branch_taken code))
      ∙ branched c
      ∙ ap running (sym core)
