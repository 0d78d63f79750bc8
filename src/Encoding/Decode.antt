-- ===== src/Encoding/Decode.antt =====
-- How the hardware takes an instruction word apart: the bit slices of rtl/riscv_core.sv and the
-- immediate generator rtl/imm_gen.sv. `w[hi:lo]` is `slice lo width w`, and a concatenation is
-- written out with its weights.
use risc_v_pipeline_sim.Common.{ℕ, ◌+◌, ◌-◌, ◌*◌, ◌/◌, ◌%◌, ◌^◌, ◌==◌, ◌||◌, if◌then◌else◌}

abbrev pub slice : ℕ → ℕ → ℕ → ℕ
slice lo width w = w / 2 ^ lo % 2 ^ width

unfoldable pub opcode_of : ℕ → ℕ
opcode_of w = slice 0 7 w

unfoldable pub rd_of : ℕ → ℕ
rd_of w = slice 7 5 w

unfoldable pub funct3_of : ℕ → ℕ
funct3_of w = slice 12 3 w

unfoldable pub rs1_of : ℕ → ℕ
rs1_of w = slice 15 5 w

unfoldable pub rs2_of : ℕ → ℕ
rs2_of w = slice 20 5 w

unfoldable pub funct7_of : ℕ → ℕ
funct7_of w = slice 25 7 w

-- `{20{w[31]}}` and `{12{w[31]}}`, as the upper bits of the result.
abbrev sign_fill : ℕ → ℕ → ℕ
sign_fill low w = slice 31 1 w * (2 ^ 32 - 2 ^ low)

abbrev pub imm_i : ℕ → ℕ
imm_i w = sign_fill 12 w + slice 20 12 w

abbrev pub imm_s : ℕ → ℕ
imm_s w = sign_fill 12 w + slice 25 7 w * 2 ^ 5 + slice 7 5 w

abbrev pub imm_b : ℕ → ℕ
imm_b w = sign_fill 12 w + slice 7 1 w * 2 ^ 11 + slice 25 6 w * 2 ^ 5 + slice 8 4 w * 2 ^ 1

abbrev pub imm_j : ℕ → ℕ
imm_j w = sign_fill 20 w + slice 12 8 w * 2 ^ 12 + slice 20 1 w * 2 ^ 11 + slice 21 10 w * 2 ^ 1

abbrev pub imm_u : ℕ → ℕ
imm_u w = slice 12 20 w * 2 ^ 12

unfoldable pub imm_gen : ℕ → ℕ
unfolding opcode_of
imm_gen w =
    let opcode = opcode_of w in
    if opcode == 0x13 || opcode == 0x03 || opcode == 0x67
    then imm_i w
    else if opcode == 0x23
    then imm_s w
    else if opcode == 0x63
    then imm_b w
    else if opcode == 0x6F
    then imm_j w
    else if opcode == 0x37 || opcode == 0x17
    then imm_u w
    else 0
