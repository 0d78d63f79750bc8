-- ===== src/Core/LoopBuffer/Cycles.antt =====
-- The cycles that the loop buffer sees in the core.
use risc_v_pipeline_sim.Common.{ℕ, ◌+◌, ◌%◌, ◌^◌, ◌≤◌, ◌<◌, ◌≡◌, ◌≢◌, true, false, if◌then◌else◌}
use risc_v_pipeline_sim.Core.LoopBuffer.{
  State, idle, recording, looping, invalid, LoopBuffer, Inputs, loop_buffer_reset,
  is_backward_prediction, clock,
}

-- How rtl/riscv_core.sv goes on with the pc behind a cycle.
abbrev pub Follows : Inputs → Inputs → Type 0
Follows i i' =
    i.flush ≡ false
    → i'.if_pc ≡ (
        if i.stall
        then i.if_pc
        else if i.predict_taken
        then i.predict_target
        else (i.if_pc + 4) % 2 ^ 32)

-- `instr` is the instruction memory, by addresses. Addresses are multiples of four, below the last
-- word; instruction_in is the memory's word unless the address is frozen.
pub record Fetches (instr : ℕ → ℕ) (lb : LoopBuffer) (i : Inputs) : Type 0 where
  pub pc_small : i.if_pc + 4 < 2 ^ 32
  pub pc_aligned : i.if_pc % 4 ≡ 0
  pub target_aligned : i.predict_target % 4 ≡ 0
  pub fetched : lb.state ≢ looping → i.instruction_in ≡ instr i.if_pc

-- What the loop buffer needs of a cycle that is not flushed: there is no stall when a loop is found,
-- the recorded words follow one another, and the loop is left by a flush only.
abbrev pub Steady : State → LoopBuffer → Inputs → Type 0
Steady idle lb i = is_backward_prediction i ≡ true → i.stall ≡ false
Steady recording lb i = i.stall ≡ false → i.if_pc + 4 ≢ lb.loop_end → i.predict_taken ≡ false
Steady looping lb i = (lb.loop_start ≤ i.if_pc) × (i.if_pc < lb.loop_end)
Steady invalid lb i = Unit

-- The states that the loop buffer comes to, each with the inputs of its cycle.
pub data Reaches (instr : ℕ → ℕ) : LoopBuffer → Inputs → Type 0 where
  first :
      (buffer : ℕ → ℕ) (i : Inputs)
      → Fetches instr (loop_buffer_reset buffer) i
      → (i.flush ≡ false → Steady idle (loop_buffer_reset buffer) i)
      → Reaches instr (loop_buffer_reset buffer) i
  next :
      (lb : LoopBuffer) (i i' : Inputs)
      → Reaches instr lb i
      → Follows i i'
      → Fetches instr (clock i lb) i'
      → (i'.flush ≡ false → Steady (clock i lb).state (clock i lb) i')
      → Reaches instr (clock i lb) i'
