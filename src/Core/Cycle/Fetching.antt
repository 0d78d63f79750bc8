-- ===== src/Core/Cycle/Fetching.antt =====
-- The loop buffer in the core.
use risc_v_pipeline_sim.Common.{
  ℕ, ◌+◌, ◌%◌, ◌^◌, ◌<◌, ◌≡◌, ◌≢◌, refl, sym, ap, subst, inl, inr, arith, Bool, Bool-cases, true,
  false, List, [], ◌∷◌, All, if◌then◌else◌,
}
use risc_v_pipeline_sim.Core.Predictor.{
  idx_of, Training, predict_taken, predict_target, train, trained,
}
use risc_v_pipeline_sim.Core.LoopBuffer.{State, idle, recording, looping, invalid, loop_active}
use risc_v_pipeline_sim.Core.LoopBuffer.Cycles.{Follows, Fetches, Steady, Reaches, first, next}
use risc_v_pipeline_sim.Core.LoopBuffer.Transparent.{Reaches-instruction_out}
use risc_v_pipeline_sim.Core.Cycle.{flush, stall, loop_inputs, pc_next, cycle}
use risc_v_pipeline_sim.Core.Cycle.Registers.{Core, instr_at, core_reset}
use risc_v_pipeline_sim.Core.Cycle.Invariant.{OfProgram, FetchStage, lowered}
use risc_v_pipeline_sim.Core.Cycle.Preserved.{Transparent}

-- What the loop buffer needs of a cycle of the core: the pc is below the last word of the address
-- space, and the cycle is flushed or Steady.
pub record Steadily (imem : ℕ → ℕ) (c : Core) : Type 0 where
  pub below : c.pc_if + 4 < 2 ^ 32
  pub steady : flush c ≡ false → Steady c.loop.state c.loop (loop_inputs imem c)

-- Every target that the predictor keeps is a multiple of four.
trained-aligned :
    (imem : ℕ → ℕ) (ts : List Training) (i : ℕ)
    → All (OfProgram imem) ts
    → (trained ts).btb i % 4 ≡ 0
unfolding trained train
trained-aligned imem [] i h = refl
trained-aligned imem (t ∷ ts) i h =
    let rest = trained-aligned imem ts i h.1 in
    elim (Bool-cases t.train_taken) [
      | inl e ↦ let target = (h.0.2 e).1 in rw e (ground arith)
      | inr e ↦ rw e rest
    ]

frozen :
    (st : State) (frozen_addr pc : ℕ)
    → st ≢ looping
    → (if loop_active st then frozen_addr else pc) ≡ pc
frozen idle a pc h = refl
frozen recording a pc h = refl
frozen looping a pc h = absurd (h refl)
frozen invalid a pc h = refl

loop_inputs-Fetches :
    (imem : ℕ → ℕ) (c : Core)
    → FetchStage imem c
    → c.pc_if + 4 < 2 ^ 32
    → Fetches (instr_at imem) c.loop (loop_inputs imem c)
unfolding loop_inputs predict_target
loop_inputs-Fetches imem c f small = record {
  pc_small = small;
  pc_aligned = f.pc_ok.1;
  target_aligned =
      subst (λ p. p.btb (idx_of c.pc_if) % 4 ≡ 0) (sym f.trained_by)
        (trained-aligned imem f.trainings (idx_of c.pc_if) f.of_program);
  fetched = λ z. ap (instr_at imem) (frozen c.loop.state c.icache_frozen_addr_q c.pc_if z);
}

goes :
    (fl st : Bool) (c : Core)
    → fl ≡ false
    → pc_next fl st c ≡ (
        if st
        then c.pc_if
        else if predict_taken c.predictor c.pc_if
        then predict_target c.predictor c.pc_if
        else (c.pc_if + 4) % 2 ^ 32)
unfolding pc_next
goes true st c q = lowered _ (sym q)
goes false st c q = refl

loop_inputs-Follows :
    (imem : ℕ → ℕ) (c : Core) → Follows (loop_inputs imem c) (loop_inputs imem (cycle imem c))
unfolding loop_inputs
loop_inputs-Follows imem c q = goes (flush c) (stall c) c q

-- The loop buffer of the core is in a state that it reaches, if the cycle is steady.
abbrev pub Buffers : (imem : ℕ → ℕ) → Core → Type 0
Buffers imem c = Steadily imem c → Reaches (instr_at imem) c.loop (loop_inputs imem c)

pub reset-Buffers :
    (imem buffer ram : ℕ → ℕ)
    → FetchStage imem (core_reset buffer ram)
    → Buffers imem (core_reset buffer ram)
reset-Buffers imem buffer ram f s =
    let c = core_reset buffer ram in
    first buffer (loop_inputs imem c) (loop_inputs-Fetches imem c f s.below)
      (unfold loop_inputs in s.steady)

pub cycle-Buffers :
    (imem : ℕ → ℕ) (c : Core)
    → Buffers imem c
    → Steadily imem c
    → FetchStage imem (cycle imem c)
    → Buffers imem (cycle imem c)
cycle-Buffers imem c b s f s' =
    next c.loop (loop_inputs imem c) (loop_inputs imem (cycle imem c)) (b s)
      (loop_inputs-Follows imem c) (loop_inputs-Fetches imem (cycle imem c) f s'.below)
      (unfold loop_inputs in s'.steady)

-- So it passes on what the memory holds.
pub Buffers-Transparent :
    (imem : ℕ → ℕ) (c : Core) → Buffers imem c → Steadily imem c → Transparent imem c
Buffers-Transparent imem c b s quiet free =
    unfold loop_inputs in
    Reaches-instruction_out (instr_at imem) c.loop (loop_inputs imem c) (b s) quiet
