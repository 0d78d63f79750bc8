-- ===== src/Encoding.antt =====
-- The instruction encoders of shared/spike/gen_program.py. Opcodes, function codes and register
-- numbers are natural numbers; an immediate is a Python integer of either sign. `|` is `bit_or`,
-- `x << k` is `x * 2 ^ k`, `x >> k` is `x / 2 ^ k`, and `z & m` on an integer is `land z m`.
pub mod Decode
pub mod Fields
pub mod Slices
pub mod RoundTrip
use risc_v_pipeline_sim.Common.{ℕ, ◌*◌, ◌/◌, ◌^◌, bit_and, bit_or, ℤ, land}

unfoldable pub u32 : ℕ → ℕ
u32 v = bit_and v 0xFFFFFFFF

infixl 45 ◌|||◌
abbrev pub ◌|||◌ : ℕ → ℕ → ℕ
a ||| b = bit_or a b

unfoldable pub enc_r : ℕ → ℕ → ℕ → ℕ → ℕ → ℕ → ℕ
enc_r opcode funct3 funct7 rd rs1 rs2 = u32 (
    funct7 * 2 ^ 25 ||| rs2 * 2 ^ 20 ||| rs1 * 2 ^ 15 ||| funct3 * 2 ^ 12 ||| rd * 2 ^ 7 ||| opcode)

unfoldable pub enc_i : ℕ → ℕ → ℕ → ℕ → ℤ → ℕ
enc_i opcode funct3 rd rs1 imm =
    u32 (land imm 0xFFF * 2 ^ 20 ||| rs1 * 2 ^ 15 ||| funct3 * 2 ^ 12 ||| rd * 2 ^ 7 ||| opcode)

unfoldable pub enc_shift : ℕ → ℕ → ℕ → ℕ → ℕ → ℕ → ℕ
enc_shift opcode funct3 funct7 rd rs1 shamt = u32 (
    funct7 * 2 ^ 25
    ||| bit_and shamt 0x1F * 2 ^ 20
    ||| rs1 * 2 ^ 15
    ||| funct3 * 2 ^ 12
    ||| rd * 2 ^ 7
    ||| opcode)

unfoldable pub enc_s : ℕ → ℕ → ℕ → ℕ → ℤ → ℕ
enc_s opcode funct3 rs1 rs2 imm =
    let m = land imm 0xFFF in
    u32 (
      m / 2 ^ 5 * 2 ^ 25
      ||| rs2 * 2 ^ 20
      ||| rs1 * 2 ^ 15
      ||| funct3 * 2 ^ 12
      ||| bit_and m 0x1F * 2 ^ 7
      ||| opcode)

unfoldable pub enc_b : ℕ → ℕ → ℕ → ℕ → ℤ → ℕ
enc_b opcode funct3 rs1 rs2 imm =
    let m = land imm 0x1FFF in
    let b12 = bit_and (m / 2 ^ 12) 1 in
    let b11 = bit_and (m / 2 ^ 11) 1 in
    let b105 = bit_and (m / 2 ^ 5) 0x3F in
    let b41 = bit_and (m / 2 ^ 1) 0xF in
    u32 (
      b12 * 2 ^ 31
      ||| b105 * 2 ^ 25
      ||| rs2 * 2 ^ 20
      ||| rs1 * 2 ^ 15
      ||| funct3 * 2 ^ 12
      ||| b41 * 2 ^ 8
      ||| b11 * 2 ^ 7
      ||| opcode)

unfoldable pub enc_u : ℕ → ℕ → ℕ → ℕ
enc_u opcode rd imm20 = u32 (bit_and imm20 0xFFFFF * 2 ^ 12 ||| rd * 2 ^ 7 ||| opcode)

unfoldable pub enc_j : ℕ → ℕ → ℤ → ℕ
enc_j opcode rd imm =
    let m = land imm 0x1FFFFF in
    let b20 = bit_and (m / 2 ^ 20) 1 in
    let b19_12 = bit_and (m / 2 ^ 12) 0xFF in
    let b11 = bit_and (m / 2 ^ 11) 1 in
    let b10_1 = bit_and (m / 2 ^ 1) 0x3FF in
    u32 (
      b20 * 2 ^ 31
      ||| b19_12 * 2 ^ 12
      ||| b11 * 2 ^ 20
      ||| b10_1 * 2 ^ 21
      ||| rd * 2 ^ 7
      ||| opcode)
