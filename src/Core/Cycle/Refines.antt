-- ===== src/Core/Cycle/Refines.antt =====
-- The core in SystemVerilog runs the program as `rounds` does, one instruction after the other.
use risc_v_pipeline_sim.Common.{
  ℕ, zero, suc, ◌+◌, ◌*◌, ◌≤◌, ◌<◌, ◌≡◌, refl, sym, ap, ◌∙◌, subst, inl, inr, arith, Bool,
  Bool-cases, true, if◌then◌else◌,
}
use risc_v_pipeline_sim.Core.Datapath.{reg_file_write}
use risc_v_pipeline_sim.Core.Pipeline.{IfId, id_ex_next, mem_wb_next}
use risc_v_pipeline_sim.Core.Predictor.Trained.{IsPc}
use risc_v_pipeline_sim.Core.Cycle.{flush, stall, cycle, cycles}
use risc_v_pipeline_sim.Core.Cycle.Registers.{Core, ram_write, core_reset}
use risc_v_pipeline_sim.Core.Cycle.Sequential.{Arch, round, rounds, arch_of}
use risc_v_pipeline_sim.Core.Cycle.Round.{now, cycle-round, cycle-bubble}
use risc_v_pipeline_sim.Core.Cycle.Invariant.{FetchStage, Decoded, Invariant, reset-Invariant}
use risc_v_pipeline_sim.Core.Cycle.Preserved.{Transparent, Invariant-next}
use risc_v_pipeline_sim.Core.Cycle.Timing.{wait, bubbles, retires, cycle-wait, bubbles-retires}
use risc_v_pipeline_sim.Core.Cycle.Fetching.{
  Steadily, Buffers, reset-Buffers, cycle-Buffers, Buffers-Transparent,
}

-- The instructions that leave EX in a run, and the bubbles that they make.
unfoldable pub retired : (imem : ℕ → ℕ) → (count : ℕ) → Core → ℕ
retired imem zero c = 0
retired imem (suc count) c = retires c + retired imem count (cycle imem c)

unfoldable pub lost : (imem : ℕ → ℕ) → (count : ℕ) → Core → ℕ
lost imem zero c = 0
lost imem (suc count) c = bubbles (flush c) (stall c) + lost imem count (cycle imem c)

-- What a cycle does.
record Step (imem : ℕ → ℕ) (c : Core) : Type 0 where
  invariant : Invariant imem (cycle imem c)
  arch : arch_of (cycle imem c) ≡ rounds imem (retires c) (arch_of c)
  time : 1 + wait (cycle imem c) ≡ retires c + bubbles (flush c) (stall c) + wait c
  few : bubbles (flush c) (stall c) ≤ 2 * retires c

abbrev NextOk : (imem : ℕ → ℕ) → Core → Type 0
NextOk imem c = c.id_ex_r.valid ≡ true → IsPc (round imem (arch_of c)).pc

module _ (imem : ℕ → ℕ) (c : Core) (older : IfId) (d1 d2 : ℕ) where
  abbrev here : Core
  here = now imem c older d1 d2

  decoded-Step :
      FetchStage imem here
      → Decoded imem here older d1 d2
      → Transparent imem here
      → NextOk imem here
      → Step imem here
  unfolding id_ex_next rounds
  decoded-Step f d same ok = record {
    invariant = Invariant-next imem c older d1 d2 f d ok same;
    arch = elim (Bool-cases older.valid) [
      | inl v ↦
          cycle-round imem c older d1 d2 v (d.fetched v) (d.follows v) (d.operand1 v) (d.operand2 v)
          ∙ ap (λ k. rounds imem (if k then 1 else 0) (arch_of here)) (sym v)
      | inr v ↦
          cycle-bubble imem c older d1 d2 v
          ∙ ap (λ k. rounds imem (if k then 1 else 0) (arch_of here)) (sym v)
    ];
    time = cycle-wait imem c older d1 d2 d.behind;
    few = bubbles-retires imem c older d1 d2;
  }

Invariant-Step :
    (imem : ℕ → ℕ) (c : Core) → Invariant imem c → Transparent imem c → NextOk imem c → Step imem c
Invariant-Step imem c inv =
    subst
      (λ r.
        let c1 = record c { id_ex_r = r } in
        FetchStage imem c1
        → Decoded imem c1 inv.older inv.d1 inv.d2
        → Transparent imem c1
        → NextOk imem c1
        → Step imem c1)
      (sym inv.id_ex) (decoded-Step imem c inv.older inv.d1 inv.d2) inv.fetches inv.decoded

-- What a run does.
abbrev pub Refines : (imem : ℕ → ℕ) → (count : ℕ) → Core → Type 0
Refines imem count c =
    (arch_of (cycles imem count c) ≡ rounds imem (retired imem count c) (arch_of c))
    × (count + wait (cycles imem count c) ≡ retired imem count c + lost imem count c + wait c)
    × (lost imem count c ≤ 2 * retired imem count c)

rounds-add :
    (imem : ℕ → ℕ) (m n : ℕ) (a : Arch) → rounds imem n (rounds imem m a) ≡ rounds imem (m + n) a
unfolding rounds
rounds-add imem zero n a = let e : n ≡ 0 + n = omega arith in ap (λ k. rounds imem k a) e
rounds-add imem (suc m) n a =
    let e : suc (m + n) ≡ suc m + n = omega arith in
    rounds-add imem m n (round imem a) ∙ ap (λ k. rounds imem k a) e

retires_here : (v : Bool) (n : ℕ) → v ≡ true → 1 ≤ (if v then 1 else 0) + n
retires_here v n e = ground arith

cycles-Refines :
    (imem : ℕ → ℕ) (count : ℕ) (c : Core)
    → Invariant imem c
    → Buffers imem c
    → ((i : ℕ) → i < count → Steadily imem (cycles imem i c))
    → ((i : ℕ) → i ≤ retired imem count c → IsPc (rounds imem i (arch_of c)).pc)
    → Refines imem count c
unfolding cycles rounds retired lost
cycles-Refines imem zero c inv b s ok = (refl, omega arith, omega arith)
cycles-Refines imem (suc count) c inv b s ok =
    let steadily = s 0 (omega arith) in
    let step =
      Invariant-Step imem c inv (Buffers-Transparent imem c b steadily)
        (λ v. ok 1 (retires_here c.id_ex_r.valid _ v)) in
    let after : (i : ℕ)
        → rounds imem i (arch_of (cycle imem c)) ≡ rounds imem (retires c + i) (arch_of c) =
      λ i. ap (rounds imem i) step.arch ∙ rounds-add imem (retires c) i (arch_of c) in
    let rest =
      cycles-Refines imem count (cycle imem c) step.invariant
        (cycle-Buffers imem c b steadily step.invariant.fetches) (λ i h. s (suc i) (omega arith))
        (λ i h.
          subst (λ (a : Arch). IsPc a.pc) (sym (after i))
            (ok (retires c + i) (omega (arith, h)))) in
    let time = step.time in
    let few = step.few in
    let rest_time : count + wait (cycles imem count (cycle imem c))
        ≡ retired imem count (cycle imem c) + lost imem count (cycle imem c) + wait (cycle imem c) =
      rest.1 in
    let rest_few : lost imem count (cycle imem c) ≤ 2 * retired imem count (cycle imem c) =
      rest.2 in
    (
      rest.0 ∙ after (retired imem count (cycle imem c)),
      omega (arith, time, rest_time),
      omega (arith, few, rest_few),
    )

-- The state of a program at the reset.
abbrev pub at_reset : (ram : ℕ → ℕ) → Arch
at_reset ram = record { registers = λ r. 0; pc = 0; ram = ram }

reset-at_reset : (buffer ram : ℕ → ℕ) → arch_of (core_reset buffer ram) ≡ at_reset ram
unfolding reg_file_write ram_write mem_wb_next
reset-at_reset buffer ram = refl

-- From the reset, after any number of cycles, in each of which the pc is below the last word of
-- the address space and, unless there is a flush, the loop buffer is used as Steady says, and as
-- long as the pcs of the program order are multiples of four of 32 bits: the registers, the pc and
-- the data memory, with the writes of MEM and WB done, are those of a whole number of instructions
-- executed one after the other, whatever was forwarded, held, predicted, squashed or replayed from
-- the loop buffer; the cycles, and those until the next instruction is in EX, are one for each of
-- these instructions, two for each flush, one for each load-use stall without a flush, and two to
-- fill; and the flushes and stalls cost at most two cycles for each instruction.
pub core_reset-rounds :
    (imem buffer ram : ℕ → ℕ) (count : ℕ)
    → ((i : ℕ) → i < count → Steadily imem (cycles imem i (core_reset buffer ram)))
    → ((i : ℕ)
        → i ≤ retired imem count (core_reset buffer ram)
        → IsPc (rounds imem i (at_reset ram)).pc)
    → let c = core_reset buffer ram in
      let n = retired imem count c in
      (arch_of (cycles imem count c) ≡ rounds imem n (at_reset ram))
      × (count + wait (cycles imem count c) ≡ n + lost imem count c + 2)
      × (lost imem count c ≤ 2 * n)
unfolding wait
core_reset-rounds imem buffer ram count s ok =
    let inv = reset-Invariant imem buffer ram in
    let e = reset-at_reset buffer ram in
    let run =
      cycles-Refines imem count (core_reset buffer ram) inv
        (reset-Buffers imem buffer ram inv.fetches) s
        (subst
          (λ (a : Arch).
            (i : ℕ) → i ≤ retired imem count (core_reset buffer ram) → IsPc (rounds imem i a).pc)
          (sym e) ok) in
    (run.0 ∙ ap (rounds imem (retired imem count (core_reset buffer ram))) e, run.1, run.2)
