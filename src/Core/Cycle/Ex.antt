-- ===== src/Core/Cycle/Ex.antt =====
-- The stage EX of the core does what `execute` says for the instruction in it.
use risc_v_pipeline_sim.Common.{
  ℕ, ◌+◌, ◌%◌, ◌^◌, ◌≡◌, ◌≢◌, refl, sym, ap, ◌∙◌, arith, Bool, true, false, not, ◌&&◌, ◌||◌, ◌==◌,
  if◌then◌else◌,
}
use risc_v_pipeline_sim.Encoding.Decode.{funct3_of, imm_gen}
use risc_v_pipeline_sim.Core.Alu.{differs}
use risc_v_pipeline_sim.Core.Control.{Control}
use risc_v_pipeline_sim.Core.Datapath.{
  control_of, execute, alu_result_ex, actual_taken_ex, actual_target_ex, branch_taken,
  reg_file_write,
}
use risc_v_pipeline_sim.Core.Pipeline.{IfId, id_ex_next, ex_mem_next, mem_wb_next}
use risc_v_pipeline_sim.Core.Pipeline.Forwarded.{written_back}
use risc_v_pipeline_sim.Core.Predictor.Trained.{IsPc}
use risc_v_pipeline_sim.Core.Cycle.{flush_ex, flush_target}
use risc_v_pipeline_sim.Core.Cycle.Registers.{instr_at, ram_read, ram_write}

-- A branch or a jump.
abbrev pub Transfers : ℕ → Type 0
Transfers w = ((control_of w).branch || (control_of w).jump) ≡ true

-- A fetched instruction: the word at its pc, predicted to be taken only if it is a branch or a jump.
pub record Fetched (imem : ℕ → ℕ) (f : IfId) : Type 0 where
  pub word : f.instr ≡ instr_at imem f.pc
  pub plus4 : f.pc_plus4 ≡ (f.pc + 4) % 2 ^ 32
  pub is_pc : IsPc f.pc
  pub taken_transfers : f.pred_taken ≡ true → Transfers f.instr

-- Where the fetch stage went on.
abbrev pub predicted : IfId → ℕ
predicted f = if f.pred_taken then f.pred_target else f.pc_plus4

distinct : true ≢ false
distinct e = cc

kept_and : (b : Bool) → (b && true) ≡ b
kept_and true = refl
kept_and false = refl

lost_and : (b : Bool) → (b && false) ≡ false
lost_and true = refl
lost_and false = refl

pub control_valid :
    (f : IfId) (d1 d2 : ℕ) → f.valid ≡ true → (id_ex_next f d1 d2).control ≡ control_of f.instr
unfolding id_ex_next
control_valid f d1 d2 v =
    let c = control_of f.instr in
    rw v (λ i. record c {
      reg_write = kept_and c.reg_write i;
      mem_read = kept_and c.mem_read i;
      mem_write = kept_and c.mem_write i;
      branch = kept_and c.branch i;
      jump = kept_and c.jump i;
    })

pub neither : (x y : Bool) → (x || y) ≡ false → (x ≡ false) × (y ≡ false)
neither true y h = absurd (distinct h)
neither false y h = (refl, h)

-- An instruction that is not a branch or a jump goes on with the next word.
goes_on :
    (c : Control) (f3 pc imm a b : ℕ)
    → (c.branch || c.jump) ≡ false
    → actual_taken_ex c f3 pc imm a b ≡ false
unfolding actual_taken_ex branch_taken
goes_on c f3 pc imm a b h = let (e1, e2) = neither c.branch c.jump h in rw (e1, e2) refl

-- Of a prediction that is not flushed.
right :
    (transfers taken predicted_taken : Bool) (target predicted_target plus4 : ℕ)
    → (transfers && (differs taken predicted_taken || taken && not (target == predicted_target)))
      ≡ false
    → (transfers ≡ false → taken ≡ false)
    → (predicted_taken ≡ true → transfers ≡ true)
    → (if predicted_taken then predicted_target else plus4) ≡ (if taken then target else plus4)
right true true true n t k q h1 h2 = ground arith
right true true false n t k q h1 h2 = absurd (cc)
right true false true n t k q h1 h2 = absurd (cc)
right true false false n t k q h1 h2 = refl
right false true pt n t k q h1 h2 = absurd (distinct (h1 refl))
right false false true n t k q h1 h2 = absurd (distinct (sym (h2 refl)))
right false false false n t k q h1 h2 = refl

module _ (imem : ℕ → ℕ) (f : IfId) (d1 d2 a b : ℕ) (v : f.valid ≡ true) (g : Fetched imem f) where
  pub flush_target-execute :
      (read : ℕ → ℕ)
      → flush_target (id_ex_next f d1 d2) a b ≡ (execute f.instr f.pc a b read).next_pc
  unfolding flush_target execute
  flush_target-execute read =
      rw (control_valid f d1 d2 v) (unfold id_ex_next in (rw (v, g.plus4) refl))

  -- A prediction that is not flushed is right.
  pub predicted-execute :
      (read : ℕ → ℕ)
      → flush_ex (id_ex_next f d1 d2) a b ≡ false
      → predicted f ≡ (execute f.instr f.pc a b read).next_pc
  unfolding flush_ex execute
  predicted-execute read q =
      let c = control_of f.instr in
      let t = actual_taken_ex c (funct3_of f.instr) f.pc (imm_gen f.instr) a b in
      let n =
        actual_target_ex c f.pc (imm_gen f.instr) (alu_result_ex c f.pc (imm_gen f.instr) a b) in
      let quiet : ((c.branch || c.jump)
            && (differs t f.pred_taken || t && not (n == f.pred_target)))
          ≡ false =
        exposed q in
      ap (λ k. if f.pred_taken then f.pred_target else k) g.plus4
      ∙ right (c.branch || c.jump) t f.pred_taken n f.pred_target ((f.pc + 4) % 2 ^ 32) quiet
          (goes_on c (funct3_of f.instr) f.pc (imm_gen f.instr) a b) g.taken_transfers
    where
      exposed :
          flush_ex (id_ex_next f d1 d2) a b ≡ false
          → let c = control_of f.instr in
            let t = actual_taken_ex c (funct3_of f.instr) f.pc (imm_gen f.instr) a b in
            let n =
              actual_target_ex c f.pc
                (imm_gen f.instr)
                (alu_result_ex c f.pc (imm_gen f.instr) a b) in
            ((c.branch || c.jump) && (differs t f.pred_taken || t && not (n == f.pred_target)))
            ≡ false
      exposed q =
          let e : flush_ex (id_ex_next f d1 d2) a b ≡ false = q in
          let e1 = rw (control_valid f d1 d2 v) at e in unfold id_ex_next in (rw v at e1)

  -- What the instruction writes to the registers and to the memory.
  pub written-execute :
      (ram regs : ℕ → ℕ)
      → let e = ex_mem_next (id_ex_next f d1 d2) a b in
        let x = execute f.instr f.pc a b (ram_read ram true) in
        written_back (mem_wb_next e (ram_read ram e.mem_read e.alu_result)) regs
        ≡ reg_file_write x.reg_write x.rd_addr x.write_data regs
  unfolding ex_mem_next mem_wb_next execute ram_read
  written-execute ram regs =
      rw (control_valid f d1 d2 v) (unfold id_ex_next in (rw (v, g.plus4) refl))

  pub stored-execute :
      (ram : ℕ → ℕ) (read : ℕ → ℕ)
      → let e = ex_mem_next (id_ex_next f d1 d2) a b in
        let x = execute f.instr f.pc a b read in
        ram_write e.mem_write e.alu_result e.store_data ram
        ≡ ram_write x.mem_write x.address x.store_data ram
  unfolding ex_mem_next execute
  stored-execute ram read = rw (control_valid f d1 d2 v) (unfold id_ex_next in refl)

-- A bubble, or a word that was squashed before, does nothing.
module _ (f : IfId) (d1 d2 a b : ℕ) (v : f.valid ≡ false) where
  pub bubble_quiet : flush_ex (id_ex_next f d1 d2) a b ≡ false
  unfolding flush_ex id_ex_next
  bubble_quiet = rw v refl

  pub bubble_reads : (id_ex_next f d1 d2).control.mem_read ≡ false
  unfolding id_ex_next
  bubble_reads = rw v (lost_and (control_of f.instr).mem_read)

  pub bubble_writes :
      (read : ℕ) (regs : ℕ → ℕ)
      → written_back (mem_wb_next (ex_mem_next (id_ex_next f d1 d2) a b) read) regs ≡ regs
  unfolding ex_mem_next mem_wb_next id_ex_next reg_file_write
  bubble_writes read regs = rw v refl

  pub bubble_stores :
      (ram : ℕ → ℕ)
      → let e = ex_mem_next (id_ex_next f d1 d2) a b in
        ram_write e.mem_write e.alu_result e.store_data ram ≡ ram
  unfolding ex_mem_next id_ex_next ram_write
  bubble_stores ram = rw (v, lost_and (control_of f.instr).mem_write) refl
