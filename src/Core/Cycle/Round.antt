-- ===== src/Core/Cycle/Round.antt =====
-- A clock edge with an instruction in EX, or with a bubble there, and the program that it runs.
use risc_v_pipeline_sim.Common.{
  ℕ, ◌≡◌, refl, sym, ap, ◌∙◌, inl, inr, Bool, Bool-cases, true, false, if◌then◌else◌,
}
use risc_v_pipeline_sim.Encoding.Decode.{rs1_of, rs2_of}
use risc_v_pipeline_sim.Core.Datapath.{execute}
use risc_v_pipeline_sim.Core.Pipeline.{IfId, id_ex_next, fwd_rs}
use risc_v_pipeline_sim.Core.Cycle.{
  fwd_rs1, fwd_rs2, flush_target, flush, stall, pc_next, if_id_next, id_ex_step, cycle,
}
use risc_v_pipeline_sim.Core.Cycle.Registers.{Core, instr_at, ram_read}
use risc_v_pipeline_sim.Core.Cycle.Sequential.{Arch, retire, round, front, arch_of}
use risc_v_pipeline_sim.Core.Cycle.Ex.{
  Fetched, predicted, flush_target-execute, predicted-execute, written-execute, stored-execute,
  bubble_quiet, bubble_writes, bubble_stores,
}

-- Where the pipeline goes on behind the instruction in EX.
seen_pc :
    (imem : ℕ → ℕ) (fl st : Bool) (c : Core)
    → let x = id_ex_step fl st c in
      let f = if_id_next imem fl st c in
      (if x.valid then x.pc else if f.valid then f.pc else pc_next fl st c)
      ≡ (if fl then flush_target c.id_ex_r (fwd_rs1 c) (fwd_rs2 c) else front c)
unfolding id_ex_step if_id_next pc_next id_ex_next
seen_pc imem true st c = refl
seen_pc imem false true c = refl
seen_pc imem false false c = refl

module _ (imem : ℕ → ℕ) (c : Core) (older : IfId) (d1 d2 : ℕ) where
  abbrev pub now : Core
  now = record c { id_ex_r = id_ex_next older d1 d2 }

  abbrev regs : ℕ → ℕ
  regs = (arch_of now).registers

  abbrev read : ℕ → ℕ
  read = ram_read (arch_of now).ram true

  seen_next :
      (arch_of (cycle imem now)).pc
      ≡ (if flush now then flush_target now.id_ex_r (fwd_rs1 now) (fwd_rs2 now) else front c)
  seen_next = seen_pc imem (flush now) (stall now) now

  round_older :
      older.valid ≡ true
      → Fetched imem older
      → round imem (arch_of now)
        ≡ retire
            (execute older.instr older.pc
              (regs (rs1_of older.instr))
              (regs (rs2_of older.instr))
              read)
            (arch_of now)
  unfolding round id_ex_next
  round_older v g =
      let run =
        λ (w p : ℕ). retire (execute w p (regs (rs1_of w)) (regs (rs2_of w)) read) (arch_of now) in
      let here : (if older.valid then older.pc else front c) ≡ older.pc = rw v refl in
      ap (λ (p : ℕ). run (instr_at imem p) p) here ∙ ap (λ (w : ℕ). run w older.pc) (sym g.word)

  -- Where the instruction in EX goes on.
  pub flush_target-round :
      older.valid ≡ true
      → Fetched imem older
      → fwd_rs c.ex_mem_r c.mem_wb_r (rs1_of older.instr) d1 ≡ regs (rs1_of older.instr)
      → fwd_rs c.ex_mem_r c.mem_wb_r (rs2_of older.instr) d2 ≡ regs (rs2_of older.instr)
      → flush_target now.id_ex_r (fwd_rs1 now) (fwd_rs2 now) ≡ (round imem (arch_of now)).pc
  unfolding id_ex_next
  flush_target-round v g op1 op2 =
      flush_target-execute imem older d1 d2 (fwd_rs1 now) (fwd_rs2 now) v g read
      ∙ (λ i. (execute older.instr older.pc (op1 i) (op2 i) read).next_pc)
      ∙ ap (λ (a : Arch). a.pc) (sym (round_older v g))

  -- A cycle with an instruction in EX.
  pub cycle-round :
      older.valid ≡ true
      → Fetched imem older
      → front c ≡ predicted older
      → fwd_rs c.ex_mem_r c.mem_wb_r (rs1_of older.instr) d1 ≡ regs (rs1_of older.instr)
      → fwd_rs c.ex_mem_r c.mem_wb_r (rs2_of older.instr) d2 ≡ regs (rs2_of older.instr)
      → arch_of (cycle imem now) ≡ round imem (arch_of now)
  unfolding id_ex_next
  cycle-round v g follows op1 op2 =
      executed
      ∙ (λ i. retire (execute older.instr older.pc (op1 i) (op2 i) read) (arch_of now))
      ∙ sym (round_older v g)
    where
      next :
          (arch_of (cycle imem now)).pc
          ≡ (execute older.instr older.pc (fwd_rs1 now) (fwd_rs2 now) read).next_pc
      next = seen_next ∙ elim (Bool-cases (flush now)) [
        | inl q ↦
            ap (λ k. if k then flush_target now.id_ex_r (fwd_rs1 now) (fwd_rs2 now) else front c) q
            ∙ flush_target-execute imem older d1 d2 (fwd_rs1 now) (fwd_rs2 now) v g read
        | inr q ↦
            ap (λ k. if k then flush_target now.id_ex_r (fwd_rs1 now) (fwd_rs2 now) else front c) q
            ∙ follows
            ∙ predicted-execute imem older d1 d2 (fwd_rs1 now) (fwd_rs2 now) v g read q
      ]

      executed :
          arch_of (cycle imem now)
          ≡ retire (execute older.instr older.pc (fwd_rs1 now) (fwd_rs2 now) read) (arch_of now)
      executed = λ i. record {
        registers =
            written-execute imem older d1 d2 (fwd_rs1 now) (fwd_rs2 now) v g (arch_of now).ram regs
              i;
        pc = next i;
        ram =
            stored-execute imem older d1 d2 (fwd_rs1 now) (fwd_rs2 now) v g (arch_of now).ram read
              i;
      }

  -- A cycle with a bubble in EX.
  pub cycle-bubble : older.valid ≡ false → arch_of (cycle imem now) ≡ arch_of now
  unfolding id_ex_next
  cycle-bubble v = λ i. record {
    registers =
        bubble_writes older d1 d2 (fwd_rs1 now) (fwd_rs2 now) v
          (ram_read (arch_of now).ram (cycle imem now).ex_mem_r.mem_read
            (cycle imem now).ex_mem_r.alu_result)
          regs i;
    pc = next i;
    ram = bubble_stores older d1 d2 (fwd_rs1 now) (fwd_rs2 now) v (arch_of now).ram i;
  }
    where
      next : (arch_of (cycle imem now)).pc ≡ (arch_of now).pc
      next =
          seen_next
          ∙ ap (λ k. if k then flush_target now.id_ex_r (fwd_rs1 now) (fwd_rs2 now) else front c)
              (bubble_quiet older d1 d2 (fwd_rs1 now) (fwd_rs2 now) v)
          ∙ rw v refl
