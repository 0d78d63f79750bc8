-- ===== src/Core/Alu/Bounds.antt =====
-- The results of the ALU have 32 bits.
use risc_v_pipeline_sim.Common.{ℕ, ◌+◌, ◌-◌, ◌/◌, ◌^◌, ◌≤◌, ◌<◌, arith, if_either, ◌==◌}
use risc_v_pipeline_sim.Common.BitBounds.{and_below, or_below, xor_below, shift_below}
use native.Mathlib.Nat.{div-le_self, pow-le-pow_right}
use risc_v_pipeline_sim.Encoding.Decode.{slice}
use risc_v_pipeline_sim.Core.Alu.{bit, alu_result}

shifted : (a s : ℕ) → a < 2 ^ 32 → a / 2 ^ s < 2 ^ 32
shifted a s h = omega (arith, div-le_self a (2 ^ s))

arithmetic : (a s : ℕ) → s < 32 → a < 2 ^ 32 → a / 2 ^ s + (2 ^ 32 - 2 ^ (32 - s)) < 2 ^ 32
arithmetic a s hs ha =
    let small = shift_below a 32 s (omega arith) ha in
    let less : 32 - s ≤ 32 = omega arith in
    let top : 2 ^ (32 - s) ≤ 2 ^ 32 = pow-le-pow_right {n = 2} (omega arith) less in
    omega (arith, small, top)

pub alu_result_bound : (k a b : ℕ) → a < 2 ^ 32 → b < 2 ^ 32 → alu_result k a b < 2 ^ 32
unfolding alu_result
alu_result_bound k a b ha hb =
    let Small : ℕ → Type 0 = λ v. v < 2 ^ 32 in
    let s = slice 0 5 b in
    if_either Small (k == 0) _ _ (λ y. omega arith)
      λ n.
        if_either Small (k == 1) _ _ (λ y. omega arith)
          λ n.
            if_either Small (k == 2) _ _ (λ y. and_below 32 a b ha hb)
              λ n.
                if_either Small (k == 3) _ _ (λ y. or_below 32 a b ha hb)
                  λ n.
                    if_either Small (k == 4) _ _ (λ y. xor_below 32 a b ha hb)
                      λ n.
                        if_either Small (k == 5) _ _ (λ y. omega arith)
                          λ n.
                            if_either Small (k == 6) _ _ (λ y. shifted a s ha)
                              λ n.
                                if_either Small (k == 7) _ _
                                  (λ y.
                                    if_either Small (bit 31 a) _ _
                                      (λ top. arithmetic a s (omega arith) ha)
                                      (λ low. shifted a s ha))
                                  λ n. ground arith
