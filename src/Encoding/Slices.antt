-- ===== src/Encoding/Slices.antt =====
-- The bit slices of rtl/riscv_core.sv and the cases of rtl/imm_gen.sv on a sum of fields.
use risc_v_pipeline_sim.Common.{
  ℕ, ◌+◌, ◌*◌, ◌/◌, ◌%◌, ◌^◌, ◌<◌, ◌≡◌, ◌⊎◌, arith, ℤ, pos, negsuc, residue, to_word, Fits, IsEven,
}
use risc_v_pipeline_sim.Encoding.Decode.{
  opcode_of, rd_of, funct3_of, rs1_of, rs2_of, funct7_of, imm_gen, imm_i, imm_s, imm_b, imm_j,
  imm_u,
}
use risc_v_pipeline_sim.Encoding.Fields.{packed}

-- The opcodes for which the core takes the immediate of an I-type word.
abbrev pub IsIType : ℕ → Type 0
IsIType opcode = (opcode ≡ 0x13) ⊎ (opcode ≡ 0x03) ⊎ (opcode ≡ 0x67)

abbrev pub IsUType : ℕ → Type 0
IsUType opcode = (opcode ≡ 0x37) ⊎ (opcode ≡ 0x17)

module _ (w : ℕ) where
  pub imm_gen-i : IsIType (opcode_of w) → imm_gen w ≡ imm_i w
  unfolding imm_gen
  imm_gen-i h = ground arith

  pub imm_gen-s : opcode_of w ≡ 0x23 → imm_gen w ≡ imm_s w
  unfolding imm_gen
  imm_gen-s h = ground arith

  pub imm_gen-b : opcode_of w ≡ 0x63 → imm_gen w ≡ imm_b w
  unfolding imm_gen
  imm_gen-b h = ground arith

  pub imm_gen-j : opcode_of w ≡ 0x6F → imm_gen w ≡ imm_j w
  unfolding imm_gen
  imm_gen-j h = ground arith

  pub imm_gen-u : IsUType (opcode_of w) → imm_gen w ≡ imm_u w
  unfolding imm_gen
  imm_gen-u h = ground arith

module _ (rs1 funct3 rd opcode : ℕ) (h1 : rs1 < 32) (h3 : funct3 < 8) (hd : rd < 32)
    (ho : opcode < 128) where
  pub fields-packed :
      (top : ℕ)
      → top < 4096
      → let w = packed top rs1 funct3 rd opcode in
        (w < 2 ^ 32)
        × (opcode_of w ≡ opcode)
        × (rd_of w ≡ rd)
        × (funct3_of w ≡ funct3)
        × (rs1_of w ≡ rs1)
        × (rs2_of w ≡ top % 32)
        × (funct7_of w ≡ top / 32)
  unfolding packed opcode_of rd_of funct3_of rs1_of rs2_of funct7_of
  fields-packed top ht = omega arith

  -- The sign is filled in from bit 31, so the word is the integer's 32-bit pattern.
  pub imm_i-packed :
      (imm : ℤ) → Fits 11 imm → imm_i (packed (residue 12 imm) rs1 funct3 rd opcode) ≡ to_word imm
  unfolding packed
  imm_i-packed (pos n) h = omega arith
  imm_i-packed (negsuc n) h = omega arith

module _ (rs1 rs2 funct3 opcode : ℕ) (h1 : rs1 < 32) (h2 : rs2 < 32) (h3 : funct3 < 8)
    (ho : opcode < 128) where
  pub imm_s-packed :
      (imm : ℤ)
      → Fits 11 imm
      → let m = residue 12 imm in
        imm_s (packed (m / 32 * 32 + rs2) rs1 funct3 (m % 32) opcode) ≡ to_word imm
  unfolding packed
  imm_s-packed (pos n) h = omega arith
  imm_s-packed (negsuc n) h = omega arith

  pub imm_b-packed :
      (imm : ℤ)
      → Fits 12 imm
      → IsEven imm
      → let m = residue 13 imm in
        imm_b (
          packed
            ((m / 4096 % 2 * 64 + m / 32 % 64) * 32 + rs2)
            rs1
            funct3
            (m / 2 % 16 * 2 + m / 2048 % 2)
            opcode)
        ≡ to_word imm
  unfolding packed
  imm_b-packed (pos n) h e = omega arith
  imm_b-packed (negsuc n) h e = omega arith

module _ (rd opcode : ℕ) (hd : rd < 32) (ho : opcode < 128) where
  pub fields-upper :
      (hi : ℕ)
      → hi < 2 ^ 20
      → let w = hi * 2 ^ 12 + rd * 2 ^ 7 + opcode in
        (w < 2 ^ 32) × (opcode_of w ≡ opcode) × (rd_of w ≡ rd) × (imm_u w ≡ hi * 2 ^ 12)
  unfolding opcode_of rd_of
  fields-upper hi h = omega arith

  pub imm_j-sum :
      (imm : ℤ)
      → Fits 20 imm
      → IsEven imm
      → let m = residue 21 imm in
        imm_j (
          (((m / 2 ^ 20 % 2 * 1024 + m / 2 % 1024) * 2 + m / 2048 % 2) * 256 + m / 4096 % 256)
            * 2 ^ 12
          + rd * 2 ^ 7
          + opcode)
        ≡ to_word imm
  imm_j-sum (pos n) h e = omega arith
  imm_j-sum (negsuc n) h e = omega arith
