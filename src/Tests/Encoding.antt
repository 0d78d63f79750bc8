-- ===== src/Tests/Encoding.antt =====
-- shared/spike/gen_program.py, the encoders.
use risc_v_pipeline_sim.Common.{
  ◌%◌, ◌*◌, ◌^◌, ◌<◌, ◌≡◌, refl, inl, inr, arith, pos, negsuc, to_word,
}
use risc_v_pipeline_sim.Encoding.{u32, enc_r, enc_i, enc_s, enc_b, enc_u, enc_j}
use risc_v_pipeline_sim.Encoding.Decode.{
  opcode_of, rd_of, funct3_of, rs1_of, rs2_of, funct7_of, imm_gen,
}
use risc_v_pipeline_sim.Encoding.RoundTrip.{
  fields-enc_r, imm_gen-enc_i, imm_gen-enc_s, imm_gen-enc_b, imm_gen-enc_u, imm_gen-enc_j,
}

-- sub x5, x6, x7
sub_word : enc_r 0x33 0 0x20 5 6 7 ≡ 0x407302b3
unfolding enc_r u32
sub_word = refl

-- addi x30, x30, -1
decrement_word : enc_i 0x13 0 30 30 (negsuc 0) ≡ 0xffff0f13
unfolding enc_i u32
decrement_word = refl

-- bne x30, x0, -8
branch_back_word : enc_b 0x63 1 30 0 (negsuc 7) ≡ 0xfe0f1ce3
unfolding enc_b u32
branch_back_word = refl

-- jal x0, 2048
jump_word : enc_j 0x6F 0 (pos 2048) ≡ 0x0010006f
unfolding enc_j u32
jump_word = refl

-- sw x17, -20(x31)
store_word : enc_s 0x23 2 31 17 (negsuc 19) ≡ 0xff1fa623
unfolding enc_s u32
store_word = refl

fields-enc_r_example :
    let w = enc_r 0x33 0 0x20 5 6 7 in
    (w < 2 ^ 32)
    × (opcode_of w ≡ 0x33)
    × (rd_of w ≡ 5)
    × (funct3_of w ≡ 0)
    × (rs1_of w ≡ 6)
    × (rs2_of w ≡ 7)
    × (funct7_of w ≡ 0x20)
fields-enc_r_example =
    fields-enc_r 0x33 0 0x20 5 6 7 (omega arith) (omega arith) (omega arith) (omega arith)
      (omega arith) (omega arith)

imm_gen-enc_i_example :
    let w = enc_i 0x13 0 30 30 (negsuc 0) in
    (w < 2 ^ 32)
    × (opcode_of w ≡ 0x13)
    × (rd_of w ≡ 30)
    × (funct3_of w ≡ 0)
    × (rs1_of w ≡ 30)
    × (imm_gen w ≡ to_word (negsuc 0))
imm_gen-enc_i_example =
    imm_gen-enc_i 0x13 0 30 30 (negsuc 0) (inl refl) (omega arith) (omega arith) (omega arith)
      (omega arith)

imm_gen-enc_s_example :
    let w = enc_s 0x23 2 31 17 (negsuc 19) in
    (w < 2 ^ 32)
    × (opcode_of w ≡ 0x23)
    × (funct3_of w ≡ 2)
    × (rs1_of w ≡ 31)
    × (rs2_of w ≡ 17)
    × (imm_gen w ≡ to_word (negsuc 19))
imm_gen-enc_s_example =
    imm_gen-enc_s 2 31 17 (negsuc 19) (omega arith) (omega arith) (omega arith) (omega arith)

imm_gen-enc_b_example :
    let w = enc_b 0x63 1 30 0 (negsuc 7) in
    (w < 2 ^ 32)
    × (opcode_of w ≡ 0x63)
    × (funct3_of w ≡ 1)
    × (rs1_of w ≡ 30)
    × (rs2_of w ≡ 0)
    × (imm_gen w ≡ to_word (negsuc 7))
imm_gen-enc_b_example =
    imm_gen-enc_b 1 30 0 (negsuc 7) (omega arith) (omega arith) (omega arith) (omega arith)
      (omega arith)

imm_gen-enc_j_example :
    let w = enc_j 0x6F 0 (pos 2048) in
    (w < 2 ^ 32) × (opcode_of w ≡ 0x6F) × (rd_of w ≡ 0) × (imm_gen w ≡ to_word (pos 2048))
imm_gen-enc_j_example = imm_gen-enc_j 0 (pos 2048) (omega arith) (omega arith) (omega arith)

imm_gen-enc_u_example :
    let w = enc_u 0x17 31 2 in
    (w < 2 ^ 32) × (opcode_of w ≡ 0x17) × (rd_of w ≡ 31) × (imm_gen w ≡ 2 % 2 ^ 20 * 2 ^ 12)
imm_gen-enc_u_example = imm_gen-enc_u 0x17 31 2 (inr refl) (omega arith)
