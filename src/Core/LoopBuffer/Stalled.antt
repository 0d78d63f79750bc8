-- ===== src/Core/LoopBuffer/Stalled.antt =====
-- A stall in the cycle in which the loop buffer finds a loop.
use risc_v_pipeline_sim.Common.{
  ◌+◌, ◌-◌, ◌%◌, ◌^◌, ◌<◌, ◌≡◌, refl, ◌∙◌, arith, true, false, ltb, leb, ◌==◌,
}
use risc_v_pipeline_sim.Core.LoopBuffer.{
  idle, LoopBuffer, Inputs, is_backward_prediction, instruction_out, clock_in, clock,
}
use risc_v_pipeline_sim.Core.LoopBuffer.Cycles.{Follows}

-- If an idle loop buffer finds a loop in a cycle that is stalled, the next cycle has the same pc; if
-- that one goes on, with no flush and no stall, then in the cycle behind it, at the first word of
-- the loop, the buffer gives the loop's last word, the branch, instead.
pub stalled-instruction_out :
    (lb : LoopBuffer) (i i1 i2 : Inputs)
    → lb.state ≡ idle
    → i.if_pc + 4 < 2 ^ 32
    → i.predict_target < i.if_pc
    → i.predict_taken ≡ true
    → i.flush ≡ false
    → i.stall ≡ true
    → Follows i i1
    → i1.flush ≡ false
    → i1.stall ≡ false
    → i1.predict_taken ≡ true
    → i1.predict_target ≡ i.predict_target
    → Follows i1 i2
    → instruction_out i2 (clock i1 (clock i lb)) ≡ i1.instruction_in
unfolding instruction_out clock_in is_backward_prediction
stalled-instruction_out lb i i1 i2 e small below taken quiet stalled follows quiet1 runs1 taken1
      same_target follows1 =
    let back : ltb i.predict_target i.if_pc ≡ true = ground arith in
    let held : i1.if_pc ≡ i.if_pc = follows quiet ∙ (rw stalled refl) in
    let there : i2.if_pc ≡ i.predict_target = follows1 quiet1 ∙ (rw (runs1, taken1) same_target) in
    let end : (i.if_pc == ((i.if_pc + 4) % 2 ^ 32 + (2 ^ 32 - 4)) % 2 ^ 32) ≡ true = ground arith in
    let zero_offset : (i.predict_target + (2 ^ 32 - i.predict_target)) % 2 ^ 32 ≡ 0 = omega arith in
    let t1 : leb i.predict_target i.predict_target ≡ true = ground arith in
    let t2 : ltb i.predict_target ((i.if_pc + 4) % 2 ^ 32) ≡ true = ground arith in
    rw (e, quiet, taken, back, quiet1, runs1, held, end, there, zero_offset, t1, t2) refl
