-- ===== src/Simulation/Settled.antt =====
-- What main writes, on the simulator.
use risc_v_pipeline_sim.Common.{ℕ, ◌+◌, ◌*◌, ◌≤◌, ◌<◌, ◌≡◌, ap, ◌∙◌, arith, some}
use risc_v_pipeline_sim.Effect.{Ensures, Ensures-weaken}
use risc_v_pipeline_sim.Generator.Random.{Rng, Store}
use risc_v_pipeline_sim.Generator.Outcome.{longest}
use risc_v_pipeline_sim.Generator.Image.{image}
use risc_v_pipeline_sim.Output.{Files, main}
use risc_v_pipeline_sim.Output.Load.{Emitted, main-Emitted}
use risc_v_pipeline_sim.Isa.Machine.{Machine}
use risc_v_pipeline_sim.Isa.Run.{running, run_sim, load_from_file, power_on}
use risc_v_pipeline_sim.Simulation.{Leads}
use risc_v_pipeline_sim.Simulation.Loading.{load_from_file-Code}
use risc_v_pipeline_sim.Simulation.Whole.{image_lead}

-- From its first state the simulator loads the file, comes to the epilogue and stays there.
abbrev pub Settles : ℕ → Files → Type 0
Settles n files =
    (m : Machine) × (load_from_file files.program_hex power_on ≡ some m)
    × Leads (λ t. (t.pc ≡ (31 + n) * 4) × ((rounds : ℕ) → run_sim rounds t ≡ running t))
        (files.expected_retire + 1) m

Emitted-Settles : (n : ℕ) (files : Files) → 0 < n → n ≤ longest → Emitted n files → Settles n files
Emitted-Settles n files h0 h f =
    let p = f.imaged in
    let ws = image n p.pieces in
    let (m, loaded, pc_kept, registers_kept, code) =
      load_from_file-Code ws power_on (omega (arith, p.size)) p.are_words in
    let (k, t, le, e, there) =
      image_lead n p.ranges f.written p.pieces h0 h p.size (omega (arith, p.size)) p.ends p.safe
        p.covers m pc_kept (ap (λ r. r 0) registers_kept) (ap (λ r. r 31) registers_kept) code in
    (
      m,
      ap (λ s. load_from_file s power_on) f.hex ∙ loaded,
      (k, t, omega (arith, f.retire, p.retire), e, there),
    )

-- For every generator of random bits and 1 to 975 slots, main raises nothing, and the simulator
-- loads program.hex and runs it, with no access outside its memory, to the epilogue at word 31 + n
-- in at most one round more than the count that main prints; there every further round leaves it as
-- it is.
pub main-Settles :
    (rng : Rng) (n : ℕ) (g : Store rng.State)
    → 0 < n
    → n ≤ longest
    → Ensures (λ files t. Settles n files) (main rng n) g
main-Settles rng n g h0 h =
    Ensures-weaken (λ files t f. Emitted-Settles n files h0 h f) (main-Emitted rng n g h0 h)
