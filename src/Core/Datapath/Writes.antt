-- ===== src/Core/Datapath/Writes.antt =====
-- Instructions that write a register and fall through, on the core and on the simulator src/main.cpp.
use risc_v_pipeline_sim.Common.{
  ℕ, ◌+◌, ◌*◌, ◌/◌, ◌%◌, ◌^◌, ◌≤◌, ◌<◌, ◌≡◌, refl, ap, ◌∙◌, ◌⊎◌, inl, inr, arith, false, leb, some,
}
use risc_v_pipeline_sim.Encoding.Decode.{
  opcode_of, rd_of, funct3_of, rs1_of, rs2_of, funct7_of, imm_gen, imm_i, imm_u,
}
use risc_v_pipeline_sim.Isa.SameFields.{core_fields, fields_masks, fields-core_fields, mask_upper}
use risc_v_pipeline_sim.Isa.Machine.{Machine, add_32}
use risc_v_pipeline_sim.Isa.Execute.{
  op_imm, op_reg, write_result, load, load_word, decode_and_execute,
}
use risc_v_pipeline_sim.Isa.Run.{running, advance}
use risc_v_pipeline_sim.Isa.Access.{word_at, fetch_inside}
use risc_v_pipeline_sim.Core.Alu.{alu_result}
use risc_v_pipeline_sim.Core.Control.{control_unit, r_control, i_control}
use risc_v_pipeline_sim.Core.Datapath.{
  execute, alu_result_ex, actual_taken_ex, branch_taken, wb_write_data,
}
use risc_v_pipeline_sim.Core.Datapath.SameStep.{op_reg-alu_result, op_imm-alu_result}
use risc_v_pipeline_sim.Core.Datapath.Round.{core_round, Sized, written_round}

module _ (w : ℕ) (m : Machine) (hw : w < 2 ^ 32) (s : Sized m) where
  -- R-type.
  pub round_r :
      opcode_of w ≡ 0x33
      → (funct7_of w ≡ 0) ⊎ (funct7_of w ≡ 0x20)
      → advance (decode_and_execute w m) ≡ running (core_round w m)
  unfolding decode_and_execute write_result execute control_unit alu_result_ex actual_taken_ex
      branch_taken wb_write_data
  round_r op f7 =
      let v =
        alu_result (r_control (funct3_of w) (funct7_of w)) (m.registers (rs1_of w))
          (m.registers (rs2_of w)) in
      let result =
        op_reg-alu_result w m (s.registers_sized (rs1_of w)) (s.registers_sized (rs2_of w)) f7 in
      let ran : decode_and_execute w m
          ≡ some (write_result (rd_of w) (op_reg (core_fields w) m) m) =
        rw (fields_masks w, op) refl in
      written_round w v m (ran ∙ ap (λ o. some (write_result (rd_of w) o m)) result) (rw op refl)

  imm_gen_i :
      (opcode_of w ≡ 0x13) ⊎ (opcode_of w ≡ 0x03) ⊎ (opcode_of w ≡ 0x67) → imm_gen w ≡ imm_i w
  unfolding imm_gen
  imm_gen_i (inl e) = rw e refl
  imm_gen_i (inr (inl e)) = rw e refl
  imm_gen_i (inr (inr e)) = rw e refl

  -- I-type arithmetic.
  pub round_i : opcode_of w ≡ 0x13 → advance (decode_and_execute w m) ≡ running (core_round w m)
  unfolding decode_and_execute write_result execute control_unit alu_result_ex actual_taken_ex
      branch_taken wb_write_data
  round_i op =
      let v =
        alu_result (i_control (funct3_of w) (funct7_of w)) (m.registers (rs1_of w)) (imm_i w) in
      let result = op_imm-alu_result w m hw (s.registers_sized (rs1_of w)) in
      let ran : decode_and_execute w m
          ≡ some (write_result (rd_of w) (op_imm w (core_fields w) m) m) =
        rw (fields_masks w, op) refl in
      written_round w v m (ran ∙ ap (λ o. some (write_result (rd_of w) o m)) result)
        (rw (op, imm_gen_i (inl op)) refl)

  -- LUI and AUIPC.
  pub round_lui : opcode_of w ≡ 0x37 → advance (decode_and_execute w m) ≡ running (core_round w m)
  unfolding decode_and_execute execute control_unit alu_result_ex actual_taken_ex branch_taken
      wb_write_data imm_gen
  round_lui op =
      written_round w (imm_u w) m (rw (fields_masks w, op, mask_upper w hw) refl) (rw op refl)

  pub round_auipc : opcode_of w ≡ 0x17 → advance (decode_and_execute w m) ≡ running (core_round w m)
  unfolding decode_and_execute execute control_unit alu_result_ex alu_result actual_taken_ex
      branch_taken wb_write_data imm_gen
  round_auipc op =
      written_round w (add_32 m.pc (imm_u w)) m (rw (fields_masks w, op, mask_upper w hw) refl)
        (rw op refl)

  -- LW at a multiple of four inside the memory.
  pub round_lw :
      opcode_of w ≡ 0x03
      → funct3_of w ≡ 2
      → add_32 (m.registers (rs1_of w)) (imm_i w) % 4 ≡ 0
      → add_32 (m.registers (rs1_of w)) (imm_i w) + 4 ≤ 4096
      → advance (decode_and_execute w m) ≡ running (core_round w m)
  unfolding decode_and_execute load load_word execute control_unit alu_result_ex alu_result
      actual_taken_ex branch_taken wb_write_data imm_gen
  round_lw op f3 aligned room =
      let address = add_32 (m.registers (rs1_of w)) (imm_i w) in
      let test : leb 4096 (add_32 address 3) ≡ false = ground arith in
      let same : address / 4 * 4 ≡ address = omega arith in
      written_round w (word_at m.memory address) m
        (rw (fields_masks w, op, (fields-core_fields w hw).1, test, f3, fetch_inside m address room)
          refl)
        (rw (op, same) refl)
