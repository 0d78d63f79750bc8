-- ===== src/Core/Cycle/SameStep.antt =====
-- An instruction of the program order and a round of the simulator src/main.cpp. The simulator has
-- the program and the data in one memory of bytes, the core in two memories of words.
use risc_v_pipeline_sim.Common.{
  ℕ, ◌+◌, ◌*◌, ◌/◌, ◌%◌, ◌^◌, ◌≤◌, ◌<◌, ◌≡◌, ◌≢◌, refl, sym, ap, ◌∙◌, subst, inl, inr, arith, Bool,
  Bool-cases, true, false, ◌||◌, ltb, ◌==◌, if◌then◌else◌,
}
use risc_v_pipeline_sim.Encoding.Decode.{slice, rs1_of, rs2_of, imm_gen}
use risc_v_pipeline_sim.Isa.Machine.{Machine, fetch_instruction}
use risc_v_pipeline_sim.Isa.Execute.{decode_and_execute}
use risc_v_pipeline_sim.Isa.Run.{running, finished, advance, perform, step}
use risc_v_pipeline_sim.Isa.Access.{word_at, fetch_inside}
use risc_v_pipeline_sim.Core.Datapath.{Retired, control_of, alu_result_ex, execute, reg_file_write}
use risc_v_pipeline_sim.Core.Datapath.Round.{commit, core_round}
use risc_v_pipeline_sim.Core.Datapath.SameRound.{Supported, same_round}
use risc_v_pipeline_sim.Core.Cycle.Registers.{instr_at, ram_read, ram_write}
use risc_v_pipeline_sim.Core.Cycle.Typed.{Typed, word_at_bound}
use risc_v_pipeline_sim.Core.Cycle.SameData.{apart, stored, execute-read}
use risc_v_pipeline_sim.Core.Cycle.Sequential.{Arch, retire, round}

-- The program is below `code_end`, the data above it.
pub record Same (imem : ℕ → ℕ) (code_end : ℕ) (a : Arch) (m : Machine) : Type 0 where
  pub registers_same : a.registers ≡ m.registers
  pub pc_same : a.pc ≡ m.pc
  pub data_same : (k : ℕ) → code_end ≤ 4 * k → 4 * k + 4 ≤ 4096 → a.ram k ≡ word_at m.memory (4 * k)
  pub code_same : (k : ℕ) → 4 * k + 4 ≤ code_end → imem k ≡ word_at m.memory (4 * k)

-- The address that an instruction computes.
abbrev pub touched : ℕ → Machine → ℕ
touched w m =
    alu_result_ex (control_of w) m.pc (imm_gen w) (m.registers (rs1_of w)) (m.registers (rs2_of w))

-- The instruction at the pc is one of the core's, in the program, and loads and stores data only.
pub record Runs (code_end : ℕ) (m : Machine) : Type 0 where
  pub pc_inside : m.pc + 4 ≤ code_end
  pub pc_aligned : m.pc % 4 ≡ 0
  pub nonzero : word_at m.memory m.pc ≢ 0
  pub supported : Supported (word_at m.memory m.pc) m
  pub in_data :
      let c = control_of (word_at m.memory m.pc) in
      (c.mem_read || c.mem_write) ≡ true
      → (code_end ≤ touched (word_at m.memory m.pc) m)
        × (touched (word_at m.memory m.pc) m + 4 ≤ 4096)

not_zero : (w : ℕ) → w ≢ 0 → (w == 0) ≡ false
not_zero w h = ground arith

module _ (imem : ℕ → ℕ) (code_end : ℕ) (whole : code_end % 4 ≡ 0) (room : code_end ≤ 4096) where
  -- What leaves the pipeline does the same to both states.
  retire-Same :
      (x : Retired) (a : Arch) (m : Machine)
      → Same imem code_end a m
      → x.store_data < 2 ^ 32
      → (x.mem_write ≡ true → (code_end ≤ x.address) × (x.address + 4 ≤ 4096))
      → Same imem code_end (retire x a) (commit x m)
  retire-Same x a m s small inside = record {
    registers_same = ap (reg_file_write x.reg_write x.rd_addr x.write_data) s.registers_same;
    pc_same = refl;
    data_same = λ k above top. elim (Bool-cases x.mem_write) [
      | inl e ↦
          let (low, high) = inside e in
          rw e (stored a.ram m.memory x.address x.store_data k small high (s.data_same k above top))
      | inr e ↦ rw e (not_stored a.ram x.address x.store_data k ∙ s.data_same k above top)
    ];
    code_same = λ k below. elim (Bool-cases x.mem_write) [
      | inl e ↦
          let (low, high) = inside e in
          rw e (
            s.code_same k below
            ∙ sym (
                apart m.memory (x.address / 4 * 4) x.store_data (4 * k)
                  (inl (omega (arith, below, low, whole)))))
      | inr e ↦ rw e (s.code_same k below)
    ];
  }
    where
      not_stored : (ram : ℕ → ℕ) (addr v k : ℕ) → ram_write false addr v ram k ≡ ram k
      not_stored ram addr v k = unfold ram_write in refl

  -- The word at the pc.
  fetched_word :
      (a : Arch) (m : Machine)
      → Same imem code_end a m
      → Runs code_end m
      → instr_at imem a.pc ≡ word_at m.memory m.pc
  fetched_word a m s r =
      let inside = r.pc_inside in
      let aligned = r.pc_aligned in
      let e = s.pc_same in
      let k : slice 2 10 a.pc ≡ m.pc / 4 = omega arith in
      let at : 4 * (m.pc / 4) ≡ m.pc = omega arith in
      ap imem k ∙ s.code_same (m.pc / 4) (omega (arith, at, inside)) ∙ ap (word_at m.memory) at

  executed :
      (a : Arch) (m : Machine)
      → Same imem code_end a m
      → Runs code_end m
      → let w = word_at m.memory m.pc in
        round imem a
        ≡ retire
            (execute w m.pc
              (m.registers (rs1_of w))
              (m.registers (rs2_of w))
              (λ addr. word_at m.memory (addr / 4 * 4)))
            a
  unfolding round
  executed a m s r =
      let w = word_at m.memory m.pc in
      let word = fetched_word a m s r in
      let regs = s.registers_same in
      let pcs = s.pc_same in
      (λ i.
        retire
          (execute (word i) (pcs i) (regs i (rs1_of (word i))) (regs i (rs2_of (word i)))
            (ram_read a.ram true))
          a)
      ∙ ap (λ x. retire x a)
          (execute-read w m.pc (m.registers (rs1_of w)) (m.registers (rs2_of w))
            (ram_read a.ram true) (λ addr. word_at m.memory (addr / 4 * 4))
            (λ loads.
              let (low, high) = r.in_data (ap (λ k. k || (control_of w).mem_write) loads) in
              loaded (touched w m) low high))
    where
      loaded :
          (addr : ℕ)
          → code_end ≤ addr
          → addr + 4 ≤ 4096
          → ram_read a.ram true addr ≡ word_at m.memory (addr / 4 * 4)
      loaded addr low high =
          unfold ram_read in
          let test : ltb (addr / 4) 1024 ≡ true = ground (arith, high) in
          let at : 4 * (addr / 4) ≡ addr / 4 * 4 = omega arith in
          rw test (
            s.data_same (addr / 4) (omega (arith, low, whole)) (omega (arith, high))
            ∙ ap (word_at m.memory) at)

  -- A round of both.
  pub step-round :
      (a : Arch) (m : Machine)
      → Typed m
      → Same imem code_end a m
      → Runs code_end m
      → (step m ≡ running (core_round (word_at m.memory m.pc) m))
        × Same imem code_end (round imem a) (core_round (word_at m.memory m.pc) m)
  step-round a m t s r =
      let w = word_at m.memory m.pc in
      let x =
        execute w m.pc (m.registers (rs1_of w)) (m.registers (rs2_of w))
          (λ addr. word_at m.memory (addr / 4 * 4)) in
      (
        ran,
        subst (λ t. Same imem code_end t (core_round w m)) (sym (executed a m s r))
            (retire-Same x a m s (unfold execute in t.sized.registers_sized (rs2_of w)) (
              unfold execute in
              λ stores.
                r.in_data (either (control_of w).mem_read (control_of w).mem_write stores))),
      )
    where
      either : (b c : Bool) → c ≡ true → (b || c) ≡ true
      either true c e = refl
      either false c e = e

      ran : step m ≡ running (core_round (word_at m.memory m.pc) m)
      ran =
          unfold step in
          let w = word_at m.memory m.pc in
          let inside = r.pc_inside in
          let test : ltb m.pc 4096 ≡ true = ground (arith, inside, room) in
          let goes_on : (w == 0) ≡ false = not_zero w r.nonzero in
          ap (λ t. if t then perform m (fetch_instruction m m.pc) else finished m) test
          ∙ ap (perform m) (fetch_inside m m.pc (omega (arith, inside, room)))
          ∙ ap (λ t. if t then finished m else advance (decode_and_execute w m)) goes_on
          ∙ same_round w m (word_at_bound m.memory m.pc t.bytes) t.sized r.supported
