-- ===== src/Core/Alu.antt =====
-- rtl/alu.sv.
pub mod Bounds
use risc_v_pipeline_sim.Common.{
  ℕ, ◌+◌, ◌-◌, ◌*◌, ◌/◌, ◌%◌, ◌^◌, bit_and, bit_or, bit_xor, Bool, true, false, not, ◌&&◌, ltb,
  ◌==◌, if◌then◌else◌, ℤ, pos, negsuc,
}
use risc_v_pipeline_sim.Encoding.Decode.{slice}
use risc_v_pipeline_sim.Generator.Random.{ltb_ℤ}

-- `$signed` of 32 bits.
abbrev pub signed : ℕ → ℤ
signed a = if ltb a (2 ^ 31) then pos a else negsuc (2 ^ 32 - 1 - a)

-- A bit of a word.
abbrev pub bit : ℕ → ℕ → Bool
bit k a = slice k 1 a == 1

-- `a != b` and `a ^ b` of single bits.
abbrev pub differs : Bool → Bool → Bool
differs true b = not b
differs false b = b

unfoldable pub alu_result : (alu_control a b : ℕ) → ℕ
alu_result alu_control a b =
    let shamt = slice 0 5 b in
    if alu_control == 0
    then (a + b) % 2 ^ 32
    else if alu_control == 1
    then (a + (2 ^ 32 - b)) % 2 ^ 32
    else if alu_control == 2
    then bit_and a b
    else if alu_control == 3
    then bit_or a b
    else if alu_control == 4
    then bit_xor a b
    else if alu_control == 5
    then a * 2 ^ shamt % 2 ^ 32
    else if alu_control == 6
    then a / 2 ^ shamt
    else if alu_control == 7
    then (if bit 31 a then a / 2 ^ shamt + (2 ^ 32 - 2 ^ (32 - shamt)) else a / 2 ^ shamt)
    else if alu_control == 8
    then (if ltb_ℤ (signed a) (signed b) then 1 else 0)
    else if alu_control == 9
    then (if ltb a b then 1 else 0)
    else 0

abbrev pub zero_flag : ℕ → Bool
zero_flag result = result == 0

abbrev pub negative_flag : ℕ → Bool
negative_flag result = bit 31 result

abbrev pub overflow_flag : (alu_control a b result : ℕ) → Bool
overflow_flag alu_control a b result =
    if alu_control == 1
    then differs (bit 31 a) (bit 31 b) && differs (bit 31 result) (bit 31 a)
    else false
