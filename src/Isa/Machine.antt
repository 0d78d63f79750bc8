-- ===== src/Isa/Machine.antt =====
-- The state of the simulator src/main.cpp and its ports: the registers, the memory of 4096 bytes and
-- the arithmetic unit. An access outside the array `memory` is undefined in C++; here it gives none.
use risc_v_pipeline_sim.Common.{
  ℕ, ◌+◌, ◌-◌, ◌*◌, ◌/◌, ◌%◌, ◌^◌, bit_and, bit_or, bit_xor, Option, none, some, ltb, leb, ◌==◌,
  if◌then◌else◌,
}
use risc_v_pipeline_sim.Encoding.{◌|||◌}

-- The global variables.
pub record Machine : Type 0 where
  pub registers : ℕ → ℕ
  pub pc : ℕ
  pub memory : ℕ → ℕ

-- The sum of two values of type uint32_t.
abbrev pub add_32 : ℕ → ℕ → ℕ
add_32 a b = (a + b) % 2 ^ 32

-- `a[i] = v`
abbrev pub set_at : (ℕ → ℕ) → ℕ → ℕ → ℕ → ℕ
set_at a i v j = if j == i then v else a j

unfoldable pub write_reg : (reg_num value : ℕ) → Machine → Machine
write_reg reg_num value m =
    if reg_num == 0
    then m
    else if ltb reg_num 32
    then record m { registers = set_at m.registers reg_num value }
    else m

-- `memory[address]`, read for the rest of an expression.
unfoldable pub read_byte : {A : Type 0} → Machine → ℕ → (ℕ → Option A) → Option A
read_byte m address f = if ltb address 4096 then f (m.memory address) else none

-- `memory[address] = value`, for a value of type uint8_t.
unfoldable pub write_byte : (address value : ℕ) → Machine → Option Machine
write_byte address value m =
    if ltb address 4096 then some (record m { memory = set_at m.memory address value }) else none

unfoldable pub and_then : Option Machine → (Machine → Option Machine) → Option Machine
and_then none f = none
and_then (some m) f = f m

unfoldable pub fetch_instruction : Machine → ℕ → Option ℕ
fetch_instruction m address = read_byte m address λ b0. read_byte m (add_32 address 1) λ b1.
    read_byte m (add_32 address 2) λ b2.
      read_byte m (add_32 address 3) λ b3. some (b0 ||| b1 * 2 ^ 8 ||| b2 * 2 ^ 16 ||| b3 * 2 ^ 24)

-- The four assignments that store_word and the case SW have.
unfoldable pub write_word : (address value : ℕ) → Machine → Option Machine
write_word address value m = and_then (write_byte address (bit_and value 0xFF) m) λ m0.
    and_then (write_byte (add_32 address 1) (bit_and (value / 2 ^ 8) 0xFF) m0) λ m1.
      and_then (write_byte (add_32 address 2) (bit_and (value / 2 ^ 16) 0xFF) m1)
        λ m2. write_byte (add_32 address 3) (bit_and (value / 2 ^ 24) 0xFF) m2

unfoldable pub store_word : (address value : ℕ) → Machine → Option Machine
store_word address value m =
    if leb 4096 (add_32 address 3) then some m else write_word address value m

-- The strings that name an operation.
pub data Operation : Type 0 where
  add sub and or xor slt sltu sll srl sra : Operation

-- A value of type int32_t, 2^31 up: the order of these is that of the signed numbers.
abbrev pub biased : ℕ → ℕ
biased v = add_32 v (2 ^ 31)

abbrev flag : ℕ → ℕ → ℕ
flag a b = if ltb a b then 1 else 0

unfoldable pub execute_alu : (op1 op2 : ℕ) → Operation → ℕ
execute_alu op1 op2 add = add_32 op1 op2
execute_alu op1 op2 sub = (op1 + (2 ^ 32 - op2)) % 2 ^ 32
execute_alu op1 op2 and = bit_and op1 op2
execute_alu op1 op2 or = bit_or op1 op2
execute_alu op1 op2 xor = bit_xor op1 op2
execute_alu op1 op2 slt = flag (biased op1) (biased op2)
execute_alu op1 op2 sltu = flag op1 op2
execute_alu op1 op2 sll = op1 * 2 ^ op2 % 2 ^ 32
execute_alu op1 op2 srl = op1 / 2 ^ op2
execute_alu op1 op2 sra =
    if ltb op1 (2 ^ 31) then op1 / 2 ^ op2 else op1 / 2 ^ op2 + (2 ^ 32 - 2 ^ (32 - op2))
