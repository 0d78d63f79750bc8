-- ===== src/Core/LoopBuffer/Transparent.antt =====
-- The loop buffer gives the instruction that the memory holds.
use risc_v_pipeline_sim.Common.{
  ℕ, ◌+◌, ◌-◌, ◌*◌, ◌%◌, ◌^◌, ◌≤◌, ◌<◌, ◌≡◌, ◌≢◌, refl, sym, ap, ◌∙◌, subst, inl, inr, ◌⊎◌, arith,
  if_either, Bool-cases, true, false, not, ◌&&◌, ◌||◌, ltb, leb, ◌==◌, if◌then◌else◌,
}
use risc_v_pipeline_sim.Encoding.Decode.{slice}
use risc_v_pipeline_sim.Isa.Machine.{set_at}
use risc_v_pipeline_sim.Core.LoopBuffer.{
  State, idle, recording, looping, invalid, LoopBuffer, Inputs, is_backward_prediction,
  instruction_out, clock_in,
}
use risc_v_pipeline_sim.Core.LoopBuffer.Cycles.{Follows, Fetches, Steady, Reaches, first, next}

idle_recording : recording ≢ looping
idle_recording e = cc

idle_looping : idle ≢ looping
idle_looping e = cc

invalid_looping : invalid ≢ looping
invalid_looping e = cc

ne_end : (a b : ℕ) → (a == b) ≡ false → a ≢ b
ne_end a b h e = ground arith

module _ (instr : ℕ → ℕ) where
  -- The words that are recorded are those of the memory.
  pub record Recorded (lb : LoopBuffer) : Type 0 where
    pub start_aligned : lb.loop_start % 4 ≡ 0
    pub end_aligned : lb.loop_end % 4 ≡ 0
    pub end_small : lb.loop_end < 2 ^ 32
    pub room : lb.write_ptr ≤ 16
    pub filled : (k : ℕ) → k < lb.write_ptr → lb.buffer k ≡ instr (lb.loop_start + 4 * k)

  -- While it records, the next word to record is at the pc; when it loops, all the words are there.
  abbrev pub Invariant : State → LoopBuffer → Inputs → Type 0
  Invariant idle lb i = Unit
  Invariant invalid lb i = Unit
  Invariant recording lb i =
      Recorded lb × (i.if_pc ≡ lb.loop_start + 4 * lb.write_ptr) × (i.if_pc + 4 ≤ lb.loop_end)
  Invariant looping lb i = Recorded lb × (lb.loop_end ≡ lb.loop_start + 4 * lb.write_ptr)

  abbrev Keeps : LoopBuffer → Inputs → Type 0
  Keeps lb i = Invariant lb.state lb i

  -- A loop is found.
  clock-idle :
      (lb : LoopBuffer) (i i' : Inputs)
      → lb.state ≡ idle
      → Fetches instr lb i
      → (i.flush ≡ false → Steady idle lb i)
      → Follows i i'
      → Keeps (clock_in idle i lb) i'
  unfolding clock_in is_backward_prediction
  clock-idle lb i i' e f st fl =
      if_either (λ t. Keeps t i') (not i.flush && is_backward_prediction i) _ _
        (λ found.
          let quiet : i.flush ≡ false = ground (arith, found) in
          let back : is_backward_prediction i ≡ true = ground (arith, found) in
          let taken : i.predict_taken ≡ true = ground (arith, back) in
          let below : i.predict_target < i.if_pc = ground (arith, back) in
          let runs : i.stall ≡ false = st quiet back in
          let there : i'.if_pc ≡ i.predict_target = fl quiet ∙ (rw (runs, taken) refl) in
          let small = f.pc_small in
          (
            record {
              start_aligned = f.target_aligned;
              end_aligned = omega (arith, f.pc_aligned);
              end_small = omega arith;
              room = omega arith;
              filled = λ k h. absurd (omega arith);
            },
            omega (arith, there),
            omega (arith, there, below, f.target_aligned, f.pc_aligned),
          ))
        (λ no. rw e tt)

  -- A word is recorded.
  Recorded-next :
      (lb : LoopBuffer) (i : Inputs) (st' : State)
      → Recorded lb
      → i.if_pc ≡ lb.loop_start + 4 * lb.write_ptr
      → lb.write_ptr < 16
      → i.instruction_in ≡ instr i.if_pc
      → Recorded (record lb {
        state = st';
        write_ptr = (lb.write_ptr + 1) % 2 ^ 5;
        buffer = set_at lb.buffer (slice 0 4 lb.write_ptr) i.instruction_in;
      })
  Recorded-next lb i st' r at small fetched = record {
    start_aligned = r.start_aligned;
    end_aligned = r.end_aligned;
    end_small = r.end_small;
    room = omega arith;
    filled = λ k h. elim (Bool-cases (k == lb.write_ptr)) [
      | inl here ↦
          let index : (k == slice 0 4 lb.write_ptr) ≡ true = ground arith in
          let same : i.if_pc ≡ lb.loop_start + 4 * k = ground arith in
          rw index (fetched ∙ ap instr same)
      | inr other ↦
          let index : (k == slice 0 4 lb.write_ptr) ≡ false = ground arith in
          rw index (r.filled k (ground arith))
    ];
  }

  clock-recording :
      (lb : LoopBuffer) (i i' : Inputs)
      → lb.state ≡ recording
      → Invariant recording lb i
      → Fetches instr lb i
      → (i.flush ≡ false → Steady recording lb i)
      → Follows i i'
      → Keeps (clock_in recording i lb) i'
  unfolding clock_in
  clock-recording lb i i' e (r, at, before) f st fl =
      if_either (λ t. Keeps t i') i.flush _ _ (λ flushed. tt)
        λ quiet.
          if_either (λ t. Keeps t i') i.stall _ _
            (λ stalled.
              let there : i'.if_pc ≡ i.if_pc = fl quiet ∙ (rw stalled refl) in
              subst (λ t. Invariant t lb i') (sym e) (r, there ∙ at, omega (arith, there)))
            λ runs.
              if_either (λ t. Keeps t i') (leb 16 lb.write_ptr) _ _ (λ full. tt)
                λ free.
                  let small : lb.write_ptr < 16 = ground (arith, free) in
                  let in_memory = f.fetched (λ z. idle_recording (sym e ∙ z)) in
                  let end_small = r.end_small in
                  let wraps : (lb.loop_end + (2 ^ 32 - 4)) % 2 ^ 32 + 4 ≡ lb.loop_end =
                    omega (arith, before, end_small) in
                  last (Bool-cases (i.if_pc == (lb.loop_end + (2 ^ 32 - 4)) % 2 ^ 32)) quiet runs
                    small (λ st'. Recorded-next lb i st' r at small in_memory) wraps
    where
      last :
          (((i.if_pc == (lb.loop_end + (2 ^ 32 - 4)) % 2 ^ 32) ≡ true)
            ⊎ ((i.if_pc == (lb.loop_end + (2 ^ 32 - 4)) % 2 ^ 32) ≡ false))
          → i.flush ≡ false
          → i.stall ≡ false
          → lb.write_ptr < 16
          → ((st' : State)
              → Recorded (record lb {
                state = st';
                write_ptr = (lb.write_ptr + 1) % 2 ^ 5;
                buffer = set_at lb.buffer (slice 0 4 lb.write_ptr) i.instruction_in;
              }))
          → (lb.loop_end + (2 ^ 32 - 4)) % 2 ^ 32 + 4 ≡ lb.loop_end
          → Keeps
              (record lb {
                state =
                    if i.if_pc == (lb.loop_end + (2 ^ 32 - 4)) % 2 ^ 32 then looping else recording;
                write_ptr = (lb.write_ptr + 1) % 2 ^ 5;
                buffer = set_at lb.buffer (slice 0 4 lb.write_ptr) i.instruction_in;
              })
              i'
      last (inl end) quiet runs small again wraps =
          let e1 : i.if_pc ≡ (lb.loop_end + (2 ^ 32 - 4)) % 2 ^ 32 = ground (arith, end) in
          rw end (again looping, omega (arith, e1, wraps, at))
      last (inr more) quiet runs small again wraps =
          let inside : i.if_pc + 4 ≢ lb.loop_end = λ z.
            ne_end i.if_pc ((lb.loop_end + (2 ^ 32 - 4)) % 2 ^ 32) more (omega (arith, z, wraps)) in
          let taken = st quiet runs inside in
          let there : i'.if_pc ≡ (i.if_pc + 4) % 2 ^ 32 = fl quiet ∙ (rw (runs, taken) refl) in
          let bound = f.pc_small in
          let r1 = r.end_aligned in
          let r2 = f.pc_aligned in
          rw more (again recording, omega (arith, there, at), omega (arith, there, inside))

  clock_lem :
      (st : State) (lb : LoopBuffer) (i i' : Inputs)
      → lb.state ≡ st
      → Invariant st lb i
      → Fetches instr lb i
      → (i.flush ≡ false → Steady st lb i)
      → Follows i i'
      → Keeps (clock_in st i lb) i'
  clock_lem idle lb i i' e inv f st fl = clock-idle lb i i' e f st fl
  clock_lem recording lb i i' e inv f st fl = clock-recording lb i i' e inv f st fl
  clock_lem looping lb i i' e inv f st fl =
      unfold clock_in in
      if_either (λ t. Keeps t i') i.flush _ _ (λ flushed. tt)
        λ quiet.
          if_either (λ t. Keeps t i') (ltb i.if_pc lb.loop_start || leb lb.loop_end i.if_pc) _ _
            (λ left. tt) (λ stays. subst (λ t. Invariant t lb i') (sym e) inv)
  clock_lem invalid lb i i' e inv f st fl = unfold clock_in in tt

  -- In every state.
  out_lem :
      (st : State) (lb : LoopBuffer) (i : Inputs)
      → lb.state ≡ st
      → Invariant st lb i
      → Fetches instr lb i
      → Steady st lb i
      → instruction_out i lb ≡ instr i.if_pc
  unfolding instruction_out
  out_lem idle lb i e inv f st = rw e (f.fetched (λ z. idle_looping (sym e ∙ z)))
  out_lem invalid lb i e inv f st = rw e (f.fetched (λ z. invalid_looping (sym e ∙ z)))
  out_lem recording lb i e inv f st = rw e (f.fetched (λ z. idle_recording (sym e ∙ z)))
  out_lem looping lb i e (r, end) f (above, below) =
      let pc_aligned = f.pc_aligned in
      let start_aligned = r.start_aligned in
      let room = r.room in
      let index = slice 2 4 ((i.if_pc + (2 ^ 32 - lb.loop_start)) % 2 ^ 32) in
      let offset : (i.if_pc + (2 ^ 32 - lb.loop_start)) % 2 ^ 32 ≡ i.if_pc - lb.loop_start =
        omega (arith, r.end_small) in
      let word : lb.loop_start + 4 * index ≡ i.if_pc = omega (arith, offset) in
      let inside : index < lb.write_ptr = omega (arith, word) in
      let t1 : leb lb.loop_start i.if_pc ≡ true = ground arith in
      let t2 : ltb i.if_pc lb.loop_end ≡ true = ground arith in
      let t3 : ltb index lb.write_ptr ≡ true = ground (arith, inside) in
      rw (e, t1, t2, t3) (r.filled index inside ∙ ap instr word)

  Reaches-Invariant :
      (lb : LoopBuffer) (i : Inputs)
      → Reaches instr lb i
      → Keeps lb i × Fetches instr lb i × (i.flush ≡ false → Steady lb.state lb i)
  Reaches-Invariant _ _ (first buffer i f st) = (tt, f, st)
  Reaches-Invariant _ _ (next lb0 i i' r follows f st) =
      let (inv, f0, st0) = Reaches-Invariant lb0 i r in
      (clock_lem lb0.state lb0 i i' refl inv f0 st0 follows, f, st)

  -- In every cycle that is not flushed the instruction is the one that the memory holds at the pc,
  -- whether it was recorded or fetched: after a reset, for any flushes and stalls, as long as no
  -- cycle that finds a loop is stalled, no branch or jump but the last word of the loop is
  -- predicted taken while the loop is recorded, and the pc leaves a loop by a flush only.
  pub Reaches-instruction_out :
      (lb : LoopBuffer) (i : Inputs)
      → Reaches instr lb i
      → i.flush ≡ false
      → instruction_out i lb ≡ instr i.if_pc
  Reaches-instruction_out lb i r quiet =
      let (inv, f, st) = Reaches-Invariant lb i r in out_lem lb.state lb i refl inv f (st quiet)
