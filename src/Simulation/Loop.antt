-- ===== src/Simulation/Loop.antt =====
-- A loop block on the simulator: it comes to its end.
use risc_v_pipeline_sim.Common.{
  ℕ, zero, suc, ◌+◌, ◌-◌, ◌*◌, ◌^◌, ◌≤◌, ◌<◌, ◌≡◌, refl, ap, ◌∙◌, arith, not, false, ◌==◌, some,
  List, [], ◌∷◌, ◌++◌, get_elem?, length, length-append, All, ℤ, to_word, if◌then◌else◌,
}
use risc_v_pipeline_sim.Encoding.Decode.{opcode_of, rd_of, funct3_of, rs1_of, rs2_of, imm_gen}
use risc_v_pipeline_sim.Isa.SameFields.{core_fields}
use risc_v_pipeline_sim.Isa.Machine.{Machine, add_32, write_reg}
use risc_v_pipeline_sim.Isa.Execute.{take_branch}
use risc_v_pipeline_sim.Isa.Run.{running, step, advance}
use risc_v_pipeline_sim.Isa.Effects.{execute_addi}
use risc_v_pipeline_sim.Generator.Safe.{InWindow}
use risc_v_pipeline_sim.Generator.LoopBlock.{BodyWord, LoopBlock}
use risc_v_pipeline_sim.Simulation.{
  Leads, Leads-here, Leads-weaken, Leads-step, Leads-then, Placed, Placed-append, At,
}
use risc_v_pipeline_sim.Simulation.Steps.{
  get_elem?_inside, Lands, step_word, straight_step, branch_step,
}

module _ (program : List ℕ) (fits : length program * 4 ≤ 4096) (base : ℕ)
    (window : (o : ℤ)
      → InWindow o
      → (length program * 4 ≤ add_32 base (to_word o)) × (add_32 base (to_word o) + 4 ≤ 4096)) where
  -- At a slot with a value in the counter.
  abbrev pub Counts : ℕ → ℕ → Machine → Type 0
  Counts i c m = At program base i m × (m.registers 30 ≡ c)

  body_run :
      (written : List ℤ) (i c : ℕ) (body : List ℕ) (m : Machine)
      → All (BodyWord written) body
      → Placed program i body
      → Counts i c m
      → Leads (Counts (i + length body) c) (length body) m
  body_run written i c [] m h p at = let e : i + 0 ≡ i = omega arith in rw e (Leads-here m at)
  body_run written i c (w ∷ body) m h p (at, count) =
      let (m', s, at', kept) =
        straight_step program fits base window written i w m at p.0 h.0.0 h.0.1 in
      let e : i + length (w ∷ body) ≡ (i + 1) + length body = omega arith in
      rw e (
        Leads-weaken (1 + length body) (suc (length body)) m (omega arith) (
          Leads-step (length body) m m' s
            (body_run written (i + 1) c body m' h.1 p.1 (at', kept ∙ count))))

  -- addi on the counter.
  counter_step :
      (i w : ℕ) (m : Machine)
      → At program base i m
      → get_elem? program i ≡ some w
      → w < 2 ^ 32
      → opcode_of w ≡ 0x13
      → rd_of w ≡ 30
      → funct3_of w ≡ 0
      → (m' : Machine) × (step m ≡ running m')
        × Counts (i + 1) (add_32 (m.registers (rs1_of w)) (imm_gen w)) m'
  unfolding write_reg
  counter_step i w m (at, ready) e h op rd f3 =
      let v = add_32 (m.registers (rs1_of w)) (imm_gen w) in
      let d : step m ≡ advance (some (write_reg 30 v m)) =
        step_word program fits i w m at ready.code e (λ z. absurd (omega arith))
        ∙ ap advance (execute_addi w m h op f3 ∙ ap (λ t. some (write_reg t v m)) rd) in
      let next : add_32 m.pc 4 ≡ (i + 1) * 4 =
        omega (arith, at, fits, get_elem?_inside program i w e) in
      (
        record (write_reg 30 v m) { pc = add_32 m.pc 4 },
        d,
        (
          (
            next,
            record { zero_set = ready.zero_set; base_set = ready.base_set; code = ready.code },
          ),
          refl,
        ),
      )

  -- bne of the counter and x0.
  take_bne :
      (w c : ℕ) (m : Machine)
      → funct3_of w ≡ 1
      → rs1_of w ≡ 30
      → rs2_of w ≡ 0
      → m.registers 30 ≡ c
      → m.registers 0 ≡ 0
      → take_branch (core_fields w) m ≡ some (not (c == 0))
  unfolding take_branch
  take_bne w c m f3 r1 r2 count zero_set = rw (f3, r1, r2, count, zero_set) refl

  module _ (written : List ℤ) (budget retire : ℕ) (words : List ℕ)
      (l : LoopBlock written budget words retire) (i : ℕ)
      (body_placed : Placed program (i + 1) l.body)
      (decrement_placed : get_elem? program (i + 1 + length l.body) ≡ some l.decrement)
      (branch_placed : get_elem? program (i + 1 + length l.body + 1) ≡ some l.branch_back) where
    -- The words behind the body, with a counter that is not zero: it is taken down.
    close_turn :
        (c : ℕ) (m : Machine)
        → c < 8
        → Counts (i + 1 + length l.body) (suc c) m
        → Leads (Counts (if not (c == 0) then i + 1 else i + 1 + length l.body + 1 + 1) c) 2 m
    close_turn c m h (at, count) =
        let (w32, op, rd, f3, r1, imm) = l.counts_down in
        let down : add_32 (m.registers (rs1_of l.decrement)) (imm_gen l.decrement) ≡ c =
          rw (r1, count, imm) (omega arith) in
        let (m1, s1, (at1, count1)) =
          counter_step (i + 1 + length l.body) l.decrement m at decrement_placed w32 op rd f3 in
        let (w32', op', f3', r1', r2', imm') = l.jumps_back in
        let lands : Lands (i + 1 + length l.body + 1) (imm_gen l.branch_back) (i + 1) =
          omega (arith, get_elem?_inside program _ l.branch_back branch_placed) in
        let (m2, s2, at2, count2) =
          branch_step program fits base (i + 1 + length l.body + 1) (i + 1) l.branch_back m1
            (not (c == 0)) at1 branch_placed w32' op'
            (take_bne l.branch_back c m1 f3' r1' r2' (count1 ∙ down) at1.1.zero_set) lands in
        Leads-weaken (1 + (1 + 0)) 2 m (omega arith) (
          Leads-step (1 + 0) m m1 s1
            (Leads-step 0 m1 m2 s2 (Leads-here m2 (at2, count2 ∙ count1 ∙ down))))

    -- One turn of the loop.
    turn :
        (c : ℕ) (m : Machine)
        → c < 8
        → Counts (i + 1) (suc c) m
        → Leads
            (Counts (if not (c == 0) then i + 1 else i + 1 + length l.body + 1 + 1) c)
            (length l.body + 2)
            m
    turn c m h at =
        Leads-then (length l.body) 2 m
          (body_run written (i + 1) (suc c) l.body m l.straight_body body_placed at)
          (λ t q. close_turn c t h q)

    -- As many turns as the counter says.
    turns :
        (c : ℕ) (m : Machine)
        → c < 8
        → Counts (i + 1) (suc c) m
        → Leads (At program base (i + 1 + length l.body + 1 + 1)) (suc c * (length l.body + 2)) m
    turns zero m h at = let (k, t, le, e, p) = turn zero m h at in (k, t, omega arith, e, p.0)
    turns (suc c) m h at =
        let more : (suc c == 0) ≡ false = ground arith in
        Leads-weaken ((length l.body + 2) + suc c * (length l.body + 2))
          (suc (suc c) * (length l.body + 2)) m (omega arith)
          (Leads-then (length l.body + 2) (suc c * (length l.body + 2)) m (turn (suc c) m h at)
            (λ t q. turns c t (omega arith) (rw more at q)))

  -- A loop block leads to the slot behind it, in as many rounds as the generator counts.
  pub LoopBlock-Leads :
      (written : List ℤ) (budget retire : ℕ) (words : List ℕ) (i : ℕ) (m : Machine)
      → LoopBlock written budget words retire
      → Placed program i words
      → At program base i m
      → Leads (At program base (i + length words)) retire m
  LoopBlock-Leads written budget retire words i m l placed at =
      let p : Placed program i (l.init ∷ l.body ++ l.decrement ∷ l.branch_back ∷ []) =
        rw l.layout at placed in
      let (body_placed, rest) =
        Placed-append program (i + 1) l.body (l.decrement ∷ l.branch_back ∷ []) p.1 in
      let (w32, op, rd, f3, r1, imm) = l.sets_counter in
      let (m1, s1, (at1, count1)) = counter_step i l.init m at p.0 w32 op rd f3 in
      let trips : l.trip_count ≡ suc (l.trip_count - 1) = omega (arith, l.trips) in
      let set : m1.registers 30 ≡ suc (l.trip_count - 1) =
        count1 ∙ (rw (r1, at.1.zero_set, imm) (omega (arith, l.trips))) in
      let end : i + 1 + length l.body + 1 + 1 ≡ i + length words =
        rw (l.layout, length-append) (omega arith) in
      let bound : 1 + suc (l.trip_count - 1) * (length l.body + 2) ≤ retire =
        rw (l.retirements, ← trips) (omega arith) in
      rw (← end) (
        Leads-weaken (1 + suc (l.trip_count - 1) * (length l.body + 2)) retire m bound (
          Leads-step (suc (l.trip_count - 1) * (length l.body + 2)) m m1 s1 (
            turns written budget retire words l i body_placed rest.0 rest.1.0 (l.trip_count - 1) m1
              (omega (arith, l.trips)) (at1, set))))
