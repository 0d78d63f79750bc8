-- ===== src/Encoding/RoundTrip.antt =====
-- What the decoder of the core reads from the words that the encoders of gen_program.py write.
use risc_v_pipeline_sim.Common.{
  ℕ, ◌+◌, ◌*◌, ◌/◌, ◌%◌, ◌^◌, ◌<◌, ◌≡◌, ◌∙◌, arith, ℤ, residue, to_word, Fits, IsEven,
}
use risc_v_pipeline_sim.Encoding.{enc_r, enc_i, enc_shift, enc_s, enc_b, enc_u, enc_j}
use risc_v_pipeline_sim.Encoding.Decode.{
  opcode_of, rd_of, funct3_of, rs1_of, rs2_of, funct7_of, imm_gen,
}
use risc_v_pipeline_sim.Encoding.Fields.{
  enc_r-packed, enc_i-packed, enc_shift-packed, enc_s-packed, enc_b-packed, enc_u-packed,
  enc_j-packed, residue-lt,
}
use risc_v_pipeline_sim.Encoding.Slices.{
  IsIType, IsUType, imm_gen-i, imm_gen-s, imm_gen-b, imm_gen-j, imm_gen-u, fields-packed,
  imm_i-packed, imm_s-packed, imm_b-packed, fields-upper, imm_j-sum,
}

-- For fields in range, an R-type word is below 2 ^ 32 and the slices of the core give back its
-- opcode, both function codes and its three registers.
pub fields-enc_r :
    (opcode funct3 funct7 rd rs1 rs2 : ℕ)
    → opcode < 128
    → funct3 < 8
    → funct7 < 128
    → rd < 32
    → rs1 < 32
    → rs2 < 32
    → let w = enc_r opcode funct3 funct7 rd rs1 rs2 in
      (w < 2 ^ 32)
      × (opcode_of w ≡ opcode)
      × (rd_of w ≡ rd)
      × (funct3_of w ≡ funct3)
      × (rs1_of w ≡ rs1)
      × (rs2_of w ≡ rs2)
      × (funct7_of w ≡ funct7)
fields-enc_r opcode funct3 funct7 rd rs1 rs2 ho h3 h7 hd h1 h2 =
    rw (enc_r-packed opcode funct3 ho h3 funct7 rd rs1 rs2 h7 hd h1 h2)
      (omega (arith, fields-packed rs1 funct3 rd opcode h1 h3 hd ho (funct7 * 32 + rs2)))

-- For fields in range, a shift by a constant is below 2 ^ 32 and the slices of the core give back
-- its fields, the shift amount in the place of rs2.
pub fields-enc_shift :
    (opcode funct3 funct7 rd rs1 shamt : ℕ)
    → opcode < 128
    → funct3 < 8
    → funct7 < 128
    → rd < 32
    → rs1 < 32
    → shamt < 32
    → let w = enc_shift opcode funct3 funct7 rd rs1 shamt in
      (w < 2 ^ 32)
      × (opcode_of w ≡ opcode)
      × (rd_of w ≡ rd)
      × (funct3_of w ≡ funct3)
      × (rs1_of w ≡ rs1)
      × (rs2_of w ≡ shamt)
      × (funct7_of w ≡ funct7)
fields-enc_shift opcode funct3 funct7 rd rs1 shamt ho h3 h7 hd h1 hs =
    rw (enc_shift-packed opcode funct3 ho h3 funct7 rd rs1 shamt h7 hd h1)
      (omega (arith, fields-packed rs1 funct3 rd opcode h1 h3 hd ho (funct7 * 32 + shamt % 32)))

-- For an I-type opcode, fields in range and an immediate from -2048 to 2047, the core reads back
-- the opcode, rd, funct3 and rs1, and its immediate generator gives the immediate as a 32-bit
-- two's complement word.
pub imm_gen-enc_i :
    (opcode funct3 rd rs1 : ℕ) (imm : ℤ)
    → IsIType opcode
    → funct3 < 8
    → rd < 32
    → rs1 < 32
    → Fits 11 imm
    → let w = enc_i opcode funct3 rd rs1 imm in
      (w < 2 ^ 32)
      × (opcode_of w ≡ opcode)
      × (rd_of w ≡ rd)
      × (funct3_of w ≡ funct3)
      × (rs1_of w ≡ rs1)
      × (imm_gen w ≡ to_word imm)
imm_gen-enc_i opcode funct3 rd rs1 imm hop h3 hd h1 fits =
    let ho : opcode < 128 = omega arith in
    let f = fields-packed rs1 funct3 rd opcode h1 h3 hd ho (residue 12 imm) (residue-lt 12 imm) in
    rw (enc_i-packed opcode funct3 ho h3 rd rs1 imm hd h1) (
      f.0,
      f.1,
      f.2,
      f.3,
      f.4,
      imm_gen-i _ (rw f.1 hop) ∙ imm_i-packed rs1 funct3 rd opcode h1 h3 hd ho imm fits,
    )

-- For fields in range and an offset from -2048 to 2047, the core reads back the opcode, funct3 and
-- both source registers of a store, and the offset as a 32-bit two's complement word.
pub imm_gen-enc_s :
    (funct3 rs1 rs2 : ℕ) (imm : ℤ)
    → funct3 < 8
    → rs1 < 32
    → rs2 < 32
    → Fits 11 imm
    → let w = enc_s 0x23 funct3 rs1 rs2 imm in
      (w < 2 ^ 32)
      × (opcode_of w ≡ 0x23)
      × (funct3_of w ≡ funct3)
      × (rs1_of w ≡ rs1)
      × (rs2_of w ≡ rs2)
      × (imm_gen w ≡ to_word imm)
imm_gen-enc_s funct3 rs1 rs2 imm h3 h1 h2 fits =
    let m = residue 12 imm in
    let ho : 0x23 < 128 = omega arith in
    let f =
      fields-packed rs1 funct3 (m % 32) 0x23 h1 h3 (omega arith) ho (m / 32 * 32 + rs2)
        (omega (arith, residue-lt 12 imm)) in
    rw (enc_s-packed 0x23 funct3 ho h3 rs1 rs2 imm h1 h2) (
      f.0,
      f.1,
      f.3,
      f.4,
      f.5 ∙ omega arith,
      imm_gen-s _ f.1 ∙ imm_s-packed rs1 rs2 funct3 0x23 h1 h2 h3 ho imm fits,
    )

-- For fields in range and an even offset from -4096 to 4094, the core reads back the opcode,
-- funct3 and both source registers of a branch, and the offset as a 32-bit two's complement word.
pub imm_gen-enc_b :
    (funct3 rs1 rs2 : ℕ) (imm : ℤ)
    → funct3 < 8
    → rs1 < 32
    → rs2 < 32
    → Fits 12 imm
    → IsEven imm
    → let w = enc_b 0x63 funct3 rs1 rs2 imm in
      (w < 2 ^ 32)
      × (opcode_of w ≡ 0x63)
      × (funct3_of w ≡ funct3)
      × (rs1_of w ≡ rs1)
      × (rs2_of w ≡ rs2)
      × (imm_gen w ≡ to_word imm)
imm_gen-enc_b funct3 rs1 rs2 imm h3 h1 h2 fits even =
    let m = residue 13 imm in
    let ho : 0x63 < 128 = omega arith in
    let f =
      fields-packed rs1 funct3 (m / 2 % 16 * 2 + m / 2048 % 2) 0x63 h1 h3 (omega arith) ho
        ((m / 4096 % 2 * 64 + m / 32 % 64) * 32 + rs2) (omega arith) in
    rw (enc_b-packed 0x63 funct3 ho h3 rs1 rs2 imm h1 h2) (
      f.0,
      f.1,
      f.3,
      f.4,
      f.5 ∙ omega arith,
      imm_gen-b _ f.1 ∙ imm_b-packed rs1 rs2 funct3 0x63 h1 h2 h3 ho imm fits even,
    )

-- For a U-type opcode and rd in range, the core reads back both, and the immediate is the low 20
-- bits of the given number, twelve places up.
pub imm_gen-enc_u :
    (opcode rd imm20 : ℕ)
    → IsUType opcode
    → rd < 32
    → let w = enc_u opcode rd imm20 in
      (w < 2 ^ 32) × (opcode_of w ≡ opcode) × (rd_of w ≡ rd) × (imm_gen w ≡ imm20 % 2 ^ 20 * 2 ^ 12)
imm_gen-enc_u opcode rd imm20 hop hd =
    let ho : opcode < 128 = omega arith in
    let f = fields-upper rd opcode hd ho (imm20 % 2 ^ 20) (omega arith) in
    rw (enc_u-packed opcode rd ho hd imm20) (f.0, f.1, f.2, imm_gen-u _ (rw f.1 hop) ∙ f.3)

-- For rd in range and an even offset from -2 ^ 20 to 2 ^ 20 - 2, the core reads back the opcode and
-- rd of a jump, and the offset as a 32-bit two's complement word.
pub imm_gen-enc_j :
    (rd : ℕ) (imm : ℤ)
    → rd < 32
    → Fits 20 imm
    → IsEven imm
    → let w = enc_j 0x6F rd imm in
      (w < 2 ^ 32) × (opcode_of w ≡ 0x6F) × (rd_of w ≡ rd) × (imm_gen w ≡ to_word imm)
imm_gen-enc_j rd imm hd fits even =
    let m = residue 21 imm in
    let ho : 0x6F < 128 = omega arith in
    let hi = ((m / 2 ^ 20 % 2 * 1024 + m / 2 % 1024) * 2 + m / 2048 % 2) * 256 + m / 4096 % 256 in
    let f = fields-upper rd 0x6F hd ho hi (omega arith) in
    rw (enc_j-packed 0x6F rd ho hd imm)
      (f.0, f.1, f.2, imm_gen-j _ f.1 ∙ imm_j-sum rd 0x6F hd ho imm fits even)
