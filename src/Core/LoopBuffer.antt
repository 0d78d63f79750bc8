-- ===== src/Core/LoopBuffer.antt =====
-- rtl/loop_buffer.sv, with 16 entries.
pub mod Cycles
pub mod Transparent
pub mod Stalled
use risc_v_pipeline_sim.Common.{
  ℕ, ◌+◌, ◌-◌, ◌%◌, ◌^◌, Bool, true, false, not, ◌&&◌, ◌||◌, ltb, leb, ◌==◌, if◌then◌else◌,
}
use risc_v_pipeline_sim.Encoding.Decode.{slice}
use risc_v_pipeline_sim.Isa.Machine.{set_at}

pub data State : Type 0 where
  idle recording looping invalid : State

-- The registers.
pub record LoopBuffer : Type 0 where
  pub state : State
  pub loop_start : ℕ
  pub loop_end : ℕ
  pub buffer : ℕ → ℕ
  pub write_ptr : ℕ

-- The input ports in a cycle.
pub record Inputs : Type 0 where
  pub if_pc : ℕ
  pub instruction_in : ℕ
  pub predict_taken : Bool
  pub predict_target : ℕ
  pub flush : Bool
  pub stall : Bool

abbrev pub loop_buffer_reset : (ℕ → ℕ) → LoopBuffer
loop_buffer_reset buffer = record {
  state = idle;
  loop_start = 0;
  loop_end = 0;
  buffer = buffer;
  write_ptr = 0;
}

unfoldable pub is_backward_prediction : Inputs → Bool
is_backward_prediction i = i.predict_taken && ltb i.predict_target i.if_pc

abbrev pub loop_active : State → Bool
loop_active looping = true
loop_active idle = false
loop_active recording = false
loop_active invalid = false

-- The instruction of a word of the loop, recorded or from instruction_in.
unfoldable pub instruction_out : Inputs → LoopBuffer → ℕ
instruction_out i lb =
    let loop_offset_pc = (i.if_pc + (2 ^ 32 - lb.loop_start)) % 2 ^ 32 in
    let read_idx = slice 2 4 loop_offset_pc in
    if loop_active lb.state
      && leb lb.loop_start i.if_pc
      && ltb i.if_pc lb.loop_end
      && ltb read_idx lb.write_ptr
    then lb.buffer read_idx
    else i.instruction_in

-- A clock edge, in each state.
unfoldable pub clock_in : State → Inputs → LoopBuffer → LoopBuffer
clock_in idle i lb =
    if not i.flush && is_backward_prediction i
    then record lb {
      state = recording;
      loop_start = i.predict_target;
      loop_end = (i.if_pc + 4) % 2 ^ 32;
      write_ptr = 0;
    }
    else lb
clock_in recording i lb =
    if i.flush
    then record lb { state = invalid }
    else if i.stall
    then lb
    else if leb 16 lb.write_ptr
    then record lb { state = invalid }
    else record lb {
      state = if i.if_pc == (lb.loop_end + (2 ^ 32 - 4)) % 2 ^ 32 then looping else recording;
      write_ptr = (lb.write_ptr + 1) % 2 ^ 5;
      buffer = set_at lb.buffer (slice 0 4 lb.write_ptr) i.instruction_in;
    }
clock_in looping i lb =
    if i.flush
    then record lb { state = invalid }
    else if ltb i.if_pc lb.loop_start || leb lb.loop_end i.if_pc
    then record lb { state = invalid }
    else lb
clock_in invalid i lb = record lb { state = idle; loop_start = 0; loop_end = 0; write_ptr = 0 }

abbrev pub clock : Inputs → LoopBuffer → LoopBuffer
clock i lb = clock_in lb.state i lb
