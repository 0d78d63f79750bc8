-- ===== src/Isa.antt =====
-- How the simulator src/main.cpp takes an instruction word apart. A value of type int32_t is given by
-- its 32 bits; `imm & m` as a condition is a test against zero.
pub mod SameFields
pub mod Machine
pub mod Execute
pub mod Run
pub mod Access
pub mod Effects
use risc_v_pipeline_sim.Common.{ℕ, ◌*◌, ◌/◌, ◌^◌, bit_and, not, ◌==◌, if◌then◌else◌}
use risc_v_pipeline_sim.Encoding.{◌|||◌}

-- The first lines of `decode_and_execute`.
pub record Fields : Type 0 where
  pub opcode : ℕ
  pub rd : ℕ
  pub funct3 : ℕ
  pub rs1 : ℕ
  pub rs2 : ℕ
  pub funct7 : ℕ

unfoldable pub fields : ℕ → Fields
fields instr = record {
  opcode = bit_and instr 0x7F;
  rd = bit_and (instr / 2 ^ 7) 0x1F;
  funct3 = bit_and (instr / 2 ^ 12) 0x7;
  rs1 = bit_and (instr / 2 ^ 15) 0x1F;
  rs2 = bit_and (instr / 2 ^ 20) 0x1F;
  funct7 = bit_and (instr / 2 ^ 25) 0x7F;
}

unfoldable pub sign_extend_12 : ℕ → ℕ
sign_extend_12 imm = if not (bit_and imm 0x800 == 0) then imm ||| 0xFFFFF000 else imm

-- `decode_B_imm`
unfoldable pub decode_b_imm : ℕ → ℕ
decode_b_imm instr =
    let imm =
      instr / 2 ^ 31 * 2 ^ 12
      ||| bit_and (instr / 2 ^ 7) 0x1 * 2 ^ 11
      ||| bit_and (instr / 2 ^ 25) 0x3F * 2 ^ 5
      ||| bit_and (instr / 2 ^ 8) 0xF * 2 ^ 1 in
    if not (bit_and imm 0x1000 == 0) then imm ||| 0xFFFFE000 else imm

-- `decode_J_imm`
unfoldable pub decode_j_imm : ℕ → ℕ
decode_j_imm instr =
    let imm =
      instr / 2 ^ 31 * 2 ^ 20
      ||| bit_and (instr / 2 ^ 21) 0x3FF * 2 ^ 1
      ||| bit_and (instr / 2 ^ 20) 0x1 * 2 ^ 11
      ||| bit_and (instr / 2 ^ 12) 0xFF * 2 ^ 12 in
    if not (bit_and imm 0x100000 == 0) then imm ||| 0xFFE00000 else imm

-- `decode_S_imm`
unfoldable pub decode_s_imm : ℕ → ℕ
decode_s_imm instr =
    let imm = bit_and (instr / 2 ^ 25) 0x7F * 2 ^ 5 ||| bit_and (instr / 2 ^ 7) 0x1F * 2 ^ 0 in
    if not (bit_and imm 0x800 == 0) then imm ||| 0xFFFFF000 else imm
