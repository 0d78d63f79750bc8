-- ===== src/Core/Datapath/SameAlu.antt =====
-- The ALU and the branch condition of the core, and those of the simulator src/main.cpp.
use risc_v_pipeline_sim.Common.{
  ℕ, ◌+◌, ◌-◌, ◌%◌, ◌^◌, ◌<◌, ◌≡◌, refl, arith, inl, inr, Bool-cases, true, false, not, ltb, ◌==◌,
}
use risc_v_pipeline_sim.Encoding.Decode.{slice}
use risc_v_pipeline_sim.Generator.Random.{ltb_ℤ}
use risc_v_pipeline_sim.Isa.Machine.{biased, execute_alu, slt, sra}
use risc_v_pipeline_sim.Core.Alu.{
  signed, bit, differs, alu_result, zero_flag, negative_flag, overflow_flag,
}

-- The order of the signed numbers is that of the biased ones.
signed-biased :
    (a b : ℕ) → a < 2 ^ 32 → b < 2 ^ 32 → ltb_ℤ (signed a) (signed b) ≡ ltb (biased a) (biased b)
signed-biased a b ha hb = elim (Bool-cases (ltb a (2 ^ 31))) [
  | inl low ↦ elim (Bool-cases (ltb b (2 ^ 31))) [
    | inl low' ↦ rw (low, low') (ground arith)
    | inr high' ↦ rw (low, high') (ground arith)
  ]
  | inr high ↦ elim (Bool-cases (ltb b (2 ^ 31))) [
    | inl low' ↦ rw (high, low') (ground arith)
    | inr high' ↦ rw (high, high') (ground arith)
  ]
]

pub alu_result-slt : (a b : ℕ) → a < 2 ^ 32 → b < 2 ^ 32 → alu_result 8 a b ≡ execute_alu a b slt
unfolding alu_result execute_alu
alu_result-slt a b ha hb = rw (signed-biased a b ha hb) refl

pub alu_result-sra : (a b : ℕ) → a < 2 ^ 32 → alu_result 7 a b ≡ execute_alu a (slice 0 5 b) sra
unfolding alu_result execute_alu
alu_result-sra a b ha = elim (Bool-cases (ltb a (2 ^ 31))) [
  | inl low ↦ let top : bit 31 a ≡ false = ground arith in rw (low, top) refl
  | inr high ↦ let top : bit 31 a ≡ true = ground arith in rw (high, top) refl
]

abbrev difference : ℕ → ℕ → ℕ
difference a b = (a + (2 ^ 32 - b)) % 2 ^ 32

pub zero_flag-difference :
    (a b : ℕ) → a < 2 ^ 32 → b < 2 ^ 32 → zero_flag (difference a b) ≡ (a == b)
zero_flag-difference a b ha hb = ground arith

bit_high : (a : ℕ) → a < 2 ^ 32 → bit 31 a ≡ not (ltb a (2 ^ 31))
bit_high a h = ground arith

-- The flags of a subtraction say how the signed numbers compare.
pub flags-difference :
    (a b : ℕ)
    → a < 2 ^ 32
    → b < 2 ^ 32
    → differs (negative_flag (difference a b)) (overflow_flag 1 a b (difference a b))
      ≡ ltb (biased a) (biased b)
flags-difference a b ha hb =
    rw (bit_high a ha, bit_high b hb, bit_high (difference a b) (omega arith)) (ground arith)
