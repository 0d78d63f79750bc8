-- ===== src/Core/Cycle/Simulated.antt =====
-- The core in SystemVerilog and the simulator in C++ on the same program.
use risc_v_pipeline_sim.Common.{ℕ, zero, suc, ◌%◌, ◌≤◌, ◌<◌, ◌≡◌, refl, sym, ap, ◌∙◌, subst, arith}
use risc_v_pipeline_sim.Isa.Machine.{Machine}
use risc_v_pipeline_sim.Isa.Run.{running, continue, run_sim}
use risc_v_pipeline_sim.Isa.Access.{word_at}
use risc_v_pipeline_sim.Core.Datapath.Round.{core_round}
use risc_v_pipeline_sim.Core.Predictor.Trained.{IsPc}
use risc_v_pipeline_sim.Core.Cycle.{cycles}
use risc_v_pipeline_sim.Core.Cycle.Registers.{core_reset}
use risc_v_pipeline_sim.Core.Cycle.Sequential.{Arch, round, rounds, arch_of}
use risc_v_pipeline_sim.Core.Cycle.Fetching.{Steadily}
use risc_v_pipeline_sim.Core.Cycle.Refines.{retired, at_reset, core_reset-rounds}
use risc_v_pipeline_sim.Core.Cycle.Typed.{Typed, core_round-Typed}
use risc_v_pipeline_sim.Core.Cycle.SameStep.{Same, Runs, step-round}

module _ (imem : ℕ → ℕ) (code_end : ℕ) (whole : code_end % 4 ≡ 0) (room : code_end ≤ 4096) where
  -- Some rounds of both.
  run_sim-rounds :
      (n : ℕ) (a : Arch) (m : Machine)
      → Typed m
      → Same imem code_end a m
      → ((i : ℕ) (m' : Machine) → i < n → run_sim i m ≡ running m' → Runs code_end m')
      → (m' : Machine) × (run_sim n m ≡ running m') × Same imem code_end (rounds imem n a) m'
  unfolding run_sim rounds
  run_sim-rounds zero a m t s ok = (m, refl, s)
  run_sim-rounds (suc n) a m t s ok =
      let (ran, next) = step-round imem code_end whole room a m t s (ok 0 m (omega arith) refl) in
      let m1 = core_round (word_at m.memory m.pc) m in
      let (m', e, s') =
        run_sim-rounds n (round imem a) m1 (core_round-Typed (word_at m.memory m.pc) m t) next
          (λ i m2 h q. ok (suc i) m2 (omega arith) (ap (λ t. continue t (run_sim i)) ran ∙ q)) in
      (m', ap (λ t. continue t (run_sim n)) ran ∙ e, s')

  -- The pcs of the program order.
  rounds-IsPc :
      (n : ℕ) (a : Arch) (m : Machine)
      → Typed m
      → Same imem code_end a m
      → ((i : ℕ) (m' : Machine) → i ≤ n → run_sim i m ≡ running m' → Runs code_end m')
      → (i : ℕ) → i ≤ n
      → IsPc (rounds imem i a).pc
  rounds-IsPc n a m t s ok i h =
      let (m', e, s') = run_sim-rounds i a m t s (λ j m2 l q. ok j m2 (omega (arith, l, h)) q) in
      let r = ok i m' h e in
      let inside = r.pc_inside in
      subst IsPc (sym s'.pc_same) (omega (arith, inside, room), r.pc_aligned)

  -- If the simulator's memory holds the program of the instruction memory below an address that
  -- is a multiple of four and at most 4096, and the words of the data memory above it, all as
  -- bytes, its registers and pc being zero, and if in the simulator, up to the number of
  -- instructions that the core has retired, the instruction at the pc is a word of the program
  -- that is not zero, of one of the kinds in Supported, and loads and stores data only, then
  -- after any number of cycles from the reset of the core, in each of which its pc is below the
  -- last word of the address space and, unless there is a flush, the loop buffer is used as
  -- Steady says, the simulator in C++ has run that many rounds with no access outside its
  -- memory, and has the registers, the pc, the program and the data that the core has, with the
  -- writes of MEM and WB done.
  pub core_reset-run_sim :
      (buffer ram : ℕ → ℕ) (count : ℕ) (m : Machine)
      → let n = retired imem count (core_reset buffer ram) in
        Typed m
        → Same imem code_end (at_reset ram) m
        → ((i : ℕ) → i < count → Steadily imem (cycles imem i (core_reset buffer ram)))
        → ((i : ℕ) (m' : Machine) → i ≤ n → run_sim i m ≡ running m' → Runs code_end m')
        → (m' : Machine) × (run_sim n m ≡ running m')
          × Same imem code_end (arch_of (cycles imem count (core_reset buffer ram))) m'
  core_reset-run_sim buffer ram count m t s st ok =
      let n = retired imem count (core_reset buffer ram) in
      let run =
        core_reset-rounds imem buffer ram count st (rounds-IsPc n (at_reset ram) m t s ok) in
      let (m', ran, s') =
        run_sim-rounds n (at_reset ram) m t s (λ i m2 l q. ok i m2 (omega (arith, l)) q) in
      (m', ran, subst (λ a. Same imem code_end a m') (sym run.0) s')
