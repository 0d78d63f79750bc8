-- ===== src/Isa/Execute.antt =====
-- decode_and_execute of src/main.cpp. Where it prints that it does not know a code, it returns and
-- leaves the state as it is.
use risc_v_pipeline_sim.Common.{
  ℕ, ◌+◌, ◌-◌, ◌*◌, ◌/◌, ◌%◌, ◌^◌, bit_and, Bool, not, true, false, Option, none, some, ltb, leb,
  ◌==◌, if◌then◌else◌,
}
use risc_v_pipeline_sim.Encoding.{◌|||◌}
use risc_v_pipeline_sim.Isa.{
  Fields, fields, sign_extend_12, decode_b_imm, decode_j_imm, decode_s_imm,
}
use risc_v_pipeline_sim.Isa.Machine.{
  Machine, add_32, biased, write_reg, read_byte, write_byte, write_word, and_then,
  fetch_instruction, execute_alu, add, sub, and, or, xor, slt, sltu, sll, srl, sra,
}

-- The result in the case 0x13.
unfoldable pub op_imm : ℕ → Fields → Machine → Option ℕ
op_imm instr f m =
    let imm = sign_extend_12 (instr / 2 ^ 20) in
    let a = m.registers f.rs1 in
    if f.funct3 == 0
    then some (execute_alu a imm add)
    else if f.funct3 == 1
    then some (execute_alu a f.rs2 sll)
    else if f.funct3 == 2
    then some (execute_alu a imm slt)
    else if f.funct3 == 3
    then some (execute_alu a imm sltu)
    else if f.funct3 == 4
    then some (execute_alu a imm xor)
    else if f.funct3 == 5
    then some (execute_alu a f.rs2 (if bit_and (instr / 2 ^ 30) 1 == 0 then srl else sra))
    else if f.funct3 == 6
    then some (execute_alu a imm or)
    else if f.funct3 == 7
    then some (execute_alu a imm and)
    else none

-- The result in the case 0x33.
unfoldable pub op_reg : Fields → Machine → Option ℕ
op_reg f m =
    let a = m.registers f.rs1 in
    let b = m.registers f.rs2 in
    let shamt = bit_and b 0x1F in
    if f.funct3 == 0
    then some (execute_alu a b (if f.funct7 == 0x20 then sub else add))
    else if f.funct3 == 1
    then some (execute_alu a shamt sll)
    else if f.funct3 == 2
    then some (execute_alu a b slt)
    else if f.funct3 == 3
    then some (execute_alu a b sltu)
    else if f.funct3 == 4
    then some (execute_alu a b xor)
    else if f.funct3 == 5
    then some (execute_alu a shamt (if f.funct7 == 0x20 then sra else srl))
    else if f.funct3 == 6
    then some (execute_alu a b or)
    else if f.funct3 == 7
    then some (execute_alu a b and)
    else none

-- `write_reg(rd, result)`, if there is a result.
unfoldable pub write_result : ℕ → Option ℕ → Machine → Machine
write_result rd none m = m
write_result rd (some v) m = write_reg rd v m

-- The case 0x23, with no test of the address.
unfoldable pub store : Fields → (address value : ℕ) → Machine → Option Machine
store f address value m =
    if f.funct3 == 0
    then write_byte address (bit_and value 0xFF) m
    else if f.funct3 == 1
    then and_then (write_byte address (bit_and value 0xFF) m)
        (write_byte (add_32 address 1) (bit_and (value / 2 ^ 8) 0xFF))
    else if f.funct3 == 2
    then write_word address value m
    else some m

-- The condition in the case 0x63.
unfoldable pub take_branch : Fields → Machine → Option Bool
take_branch f m =
    let a = m.registers f.rs1 in
    let b = m.registers f.rs2 in
    if f.funct3 == 0
    then some (a == b)
    else if f.funct3 == 1
    then some (not (a == b))
    else if f.funct3 == 4
    then some (ltb (biased a) (biased b))
    else if f.funct3 == 5
    then some (leb (biased b) (biased a))
    else if f.funct3 == 6
    then some (ltb a b)
    else if f.funct3 == 7
    then some (leb b a)
    else none

-- `pc = target - 4`
abbrev pub jump_to : ℕ → Machine → Machine
jump_to target m = record m { pc = add_32 target (2 ^ 32 - 4) }

unfoldable pub branch : ℕ → Option Bool → Machine → Machine
branch instr (some true) m = jump_to (m.pc + decode_b_imm instr) m
branch instr (some false) m = m
branch instr none m = m

-- `int8_t` and `int16_t`, widened to 32 bits.
abbrev sign_extend : ℕ → ℕ → ℕ
sign_extend k v = if ltb v (2 ^ (k - 1)) then v else v + (2 ^ 32 - 2 ^ k)

unfoldable pub load_byte : (rd : ℕ) → (ℕ → ℕ) → (address : ℕ) → Machine → Option Machine
load_byte rd widen address m = read_byte m address λ b. some (write_reg rd (widen b) m)

unfoldable pub load_half : (rd : ℕ) → (ℕ → ℕ) → (address : ℕ) → Machine → Option Machine
load_half rd widen address m =
    read_byte m address
      λ b0. read_byte m (add_32 address 1) λ b1. some (write_reg rd (widen (b0 ||| b1 * 2 ^ 8)) m)

-- The four bytes of LW, put together as fetch_instruction does.
unfoldable pub load_word : (rd : ℕ) → Option ℕ → Machine → Option Machine
load_word rd none m = none
load_word rd (some value) m = some (write_reg rd value m)

-- The case 0x03 behind the test of the address.
unfoldable pub load : Fields → (address : ℕ) → Machine → Option Machine
load f address m =
    if f.funct3 == 0
    then load_byte f.rd (sign_extend 8) address m
    else if f.funct3 == 1
    then load_half f.rd (sign_extend 16) address m
    else if f.funct3 == 2
    then load_word f.rd (fetch_instruction m address) m
    else if f.funct3 == 4
    then load_byte f.rd (λ v. v) address m
    else if f.funct3 == 5
    then load_half f.rd (λ v. v) address m
    else some m

unfoldable pub decode_and_execute : ℕ → Machine → Option Machine
decode_and_execute instr m =
    let f = fields instr in
    if f.opcode == 0x13
    then some (write_result f.rd (op_imm instr f m) m)
    else if f.opcode == 0x33
    then some (write_result f.rd (op_reg f m) m)
    else if f.opcode == 0x23
    then store f (add_32 (m.registers f.rs1) (decode_s_imm instr)) (m.registers f.rs2) m
    else if f.opcode == 0x63
    then some (branch instr (take_branch f m) m)
    else if f.opcode == 0x03
    then (let address = add_32 (m.registers f.rs1) (sign_extend_12 (instr / 2 ^ 20)) in
        if leb 4096 (add_32 address 3) then some m else load f address m)
    else if f.opcode == 0x67
    then (let target = add_32 (m.registers f.rs1) (sign_extend_12 (instr / 2 ^ 20)) in
        some (jump_to (target - target % 2) (write_reg f.rd (add_32 m.pc 4) m)))
    else if f.opcode == 0x37
    then some (write_reg f.rd (bit_and instr 0xFFFFF000) m)
    else if f.opcode == 0x17
    then some (write_reg f.rd (add_32 m.pc (bit_and instr 0xFFFFF000)) m)
    else if f.opcode == 0x6F
    then some (jump_to (m.pc + decode_j_imm instr) (write_reg f.rd (add_32 m.pc 4) m))
    else if f.opcode == 0x73
    then (if m.registers 17 == 10 then some (record m { pc = 4096 }) else some m)
    else some m
