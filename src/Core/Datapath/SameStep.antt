-- ===== src/Core/Datapath/SameStep.antt =====
-- One instruction on the core and on the simulator src/main.cpp.
use risc_v_pipeline_sim.Common.{
  ℕ, ◌/◌, ◌^◌, ◌<◌, ◌≡◌, refl, sym, ap, ◌∙◌, ◌⊎◌, inl, inr, arith, bit_and, Bool, true, false, ◌==◌,
  some, if◌then◌else◌,
}
use risc_v_pipeline_sim.Common.Bits.{and_mask}
use risc_v_pipeline_sim.Encoding.Decode.{slice, funct3_of, rs1_of, rs2_of, funct7_of, imm_i}
use risc_v_pipeline_sim.Isa.SameFields.{core_fields, fields-core_fields}
use risc_v_pipeline_sim.Isa.Machine.{Machine, execute_alu, sra, srl}
use risc_v_pipeline_sim.Isa.Execute.{op_imm, op_reg}
use risc_v_pipeline_sim.Core.Alu.{bit, alu_result}
use risc_v_pipeline_sim.Core.Control.{r_control, i_control}
use risc_v_pipeline_sim.Core.Datapath.SameAlu.{alu_result-slt, alu_result-sra}

abbrev pub IsBelow8 : ℕ → Type 0
IsBelow8 n = (n ≡ 0) ⊎ (n ≡ 1) ⊎ (n ≡ 2) ⊎ (n ≡ 3) ⊎ (n ≡ 4) ⊎ (n ≡ 5) ⊎ (n ≡ 6) ⊎ (n ≡ 7)

below_8 : (n : ℕ) → n < 8 → IsBelow8 n
below_8 n h = ground arith

funct3_cases : (w : ℕ) → IsBelow8 (funct3_of w)
unfolding funct3_of
funct3_cases w = below_8 (slice 12 3 w) (omega arith)

low_bits : (b : ℕ) → bit_and b 0x1F ≡ slice 0 5 b
low_bits b = and_mask 5 b ∙ omega arith

-- A bit that tells the two right shifts apart.
shift_right :
    (a b : ℕ) (top : Bool)
    → a < 2 ^ 32
    → execute_alu a (slice 0 5 b) (if top then sra else srl) ≡ alu_result (if top then 7 else 6) a b
shift_right a b true h = sym (alu_result-sra a b h)
shift_right a b false h = unfold execute_alu alu_result in refl

-- R-type.
pub op_reg-alu_result :
    (w : ℕ) (m : Machine)
    → m.registers (rs1_of w) < 2 ^ 32
    → m.registers (rs2_of w) < 2 ^ 32
    → (funct7_of w ≡ 0) ⊎ (funct7_of w ≡ 0x20)
    → op_reg (core_fields w) m
      ≡ some (
          alu_result
            (r_control (funct3_of w) (funct7_of w))
            (m.registers (rs1_of w))
            (m.registers (rs2_of w)))
unfolding op_reg r_control
op_reg-alu_result w m ha hb f7 = go (funct3_cases w) f7
  where
    go :
        IsBelow8 (funct3_of w)
        → (funct7_of w ≡ 0) ⊎ (funct7_of w ≡ 0x20)
        → op_reg (core_fields w) m
          ≡ some (
              alu_result
                (r_control (funct3_of w) (funct7_of w))
                (m.registers (rs1_of w))
                (m.registers (rs2_of w)))
    go (inl e) (inl z) = rw (e, z) (unfold execute_alu alu_result in refl)
    go (inl e) (inr z) = rw (e, z) (unfold execute_alu alu_result in refl)
    go (inr (inl e)) z =
        rw (e, low_bits (m.registers (rs2_of w))) (unfold execute_alu alu_result in refl)
    go (inr (inr (inl e))) z =
        rw e
          (ap some (sym (alu_result-slt (m.registers (rs1_of w)) (m.registers (rs2_of w)) ha hb)))
    go (inr (inr (inr (inl e)))) z = rw e (unfold execute_alu alu_result in refl)
    go (inr (inr (inr (inr (inl e))))) z = rw e (unfold execute_alu alu_result in refl)
    go (inr (inr (inr (inr (inr (inl e)))))) (inl z) =
        rw (e, z, low_bits (m.registers (rs2_of w)))
          (ap some (shift_right (m.registers (rs1_of w)) (m.registers (rs2_of w)) false ha))
    go (inr (inr (inr (inr (inr (inl e)))))) (inr z) =
        rw (e, z, low_bits (m.registers (rs2_of w)))
          (ap some (shift_right (m.registers (rs1_of w)) (m.registers (rs2_of w)) true ha))
    go (inr (inr (inr (inr (inr (inr (inl e))))))) z = rw e (unfold execute_alu alu_result in refl)
    go (inr (inr (inr (inr (inr (inr (inr e))))))) z = rw e (unfold execute_alu alu_result in refl)

low_imm : (w : ℕ) → slice 0 5 (imm_i w) ≡ rs2_of w
unfolding rs2_of
low_imm w = omega arith

imm_i_bound : (w : ℕ) → imm_i w < 2 ^ 32
imm_i_bound w = omega arith

bit_30 :
    (w : ℕ)
    → (if bit_and (w / 2 ^ 30) 1 == 0 then srl else sra)
      ≡ (if bit 5 (funct7_of w) then sra else srl)
unfolding funct7_of
bit_30 w = rw (and_mask 1 (w / 2 ^ 30)) (ground arith)

-- I-type arithmetic.
pub op_imm-alu_result :
    (w : ℕ) (m : Machine)
    → w < 2 ^ 32
    → m.registers (rs1_of w) < 2 ^ 32
    → op_imm w (core_fields w) m
      ≡ some (alu_result (i_control (funct3_of w) (funct7_of w)) (m.registers (rs1_of w)) (imm_i w))
unfolding op_imm i_control
op_imm-alu_result w m hw ha = go (funct3_cases w)
  where
    go :
        IsBelow8 (funct3_of w)
        → op_imm w (core_fields w) m
          ≡ some (
              alu_result (i_control (funct3_of w) (funct7_of w)) (m.registers (rs1_of w)) (imm_i w))
    go (inl e) = rw (e, (fields-core_fields w hw).1) (unfold execute_alu alu_result in refl)
    go (inr (inl e)) = rw (e, ← low_imm w) (unfold execute_alu alu_result in refl)
    go (inr (inr (inl e))) =
        rw (e, (fields-core_fields w hw).1)
          (ap some (sym (alu_result-slt (m.registers (rs1_of w)) (imm_i w) ha (imm_i_bound w))))
    go (inr (inr (inr (inl e)))) =
        rw (e, (fields-core_fields w hw).1) (unfold execute_alu alu_result in refl)
    go (inr (inr (inr (inr (inl e))))) =
        rw (e, (fields-core_fields w hw).1) (unfold execute_alu alu_result in refl)
    go (inr (inr (inr (inr (inr (inl e)))))) =
        rw (e, bit_30 w, ← low_imm w)
          (ap some (shift_right (m.registers (rs1_of w)) (imm_i w) (bit 5 (funct7_of w)) ha))
    go (inr (inr (inr (inr (inr (inr (inl e))))))) =
        rw (e, (fields-core_fields w hw).1) (unfold execute_alu alu_result in refl)
    go (inr (inr (inr (inr (inr (inr (inr e))))))) =
        rw (e, (fields-core_fields w hw).1) (unfold execute_alu alu_result in refl)
