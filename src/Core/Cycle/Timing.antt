-- ===== src/Core/Cycle/Timing.antt =====
-- How many cycles an instruction takes.
use risc_v_pipeline_sim.Common.{
  ℕ, ◌+◌, ◌*◌, ◌≤◌, ◌≡◌, refl, arith, Bool, true, false, if◌then◌else◌,
}
use risc_v_pipeline_sim.Encoding.Decode.{rs1_of, rs2_of}
use risc_v_pipeline_sim.Core.Pipeline.{IfId, id_ex_next, hazard_unit}
use risc_v_pipeline_sim.Core.Cycle.{fwd_rs1, fwd_rs2, flush, stall, if_id_next, id_ex_step, cycle}
use risc_v_pipeline_sim.Core.Cycle.Registers.{Core}
use risc_v_pipeline_sim.Core.Cycle.Ex.{bubble_quiet, bubble_reads}
use risc_v_pipeline_sim.Core.Cycle.Round.{now}

-- The cycles until there is an instruction in EX.
unfoldable pub wait : Core → ℕ
wait c = if c.id_ex_r.valid then 0 else if c.if_id_r.valid then 1 else 2

-- The bubbles that a cycle makes: two for a flush, one for a stall.
unfoldable pub bubbles : (flush stall : Bool) → ℕ
bubbles flush stall = if flush then 2 else if stall then 1 else 0

abbrev pub retires : Core → ℕ
retires c = if c.id_ex_r.valid then 1 else 0

next_wait :
    (imem : ℕ → ℕ) (fl st : Bool) (c : Core)
    → let x = id_ex_step fl st c in
      let f = if_id_next imem fl st c in
      (if x.valid then 0 else if f.valid then 1 else 2)
      ≡ (if fl then 2 else if c.if_id_r.valid then bubbles fl st else if st then 2 else 1)
unfolding id_ex_step if_id_next id_ex_next bubbles
next_wait imem true st c = refl
next_wait imem false true c = ground arith
next_wait imem false false c = ground arith

ticks :
    (fl st v1 v2 : Bool) (w : ℕ)
    → w ≡ (if fl then 2 else if v2 then bubbles fl st else if st then 2 else 1)
    → (v1 ≡ true → v2 ≡ true)
    → (v1 ≡ false → fl ≡ false)
    → (v1 ≡ false → st ≡ false)
    → 1 + w ≡ (if v1 then 1 else 0) + bubbles fl st + (if v1 then 0 else if v2 then 1 else 2)
unfolding bubbles
ticks fl st true v2 w e h1 h2 h3 = let h = h1 refl in ground arith
ticks fl st false v2 w e h1 h2 h3 = let q = h2 refl in let r = h3 refl in ground arith

no_hazard :
    (rs1 rs2 : ℕ) (reads : Bool) (rd : ℕ) → reads ≡ false → hazard_unit rs1 rs2 reads rd ≡ false
unfolding hazard_unit
no_hazard rs1 rs2 reads rd e = rw e refl

few :
    (fl st v : Bool)
    → (v ≡ false → fl ≡ false)
    → (v ≡ false → st ≡ false)
    → bubbles fl st ≤ 2 * (if v then 1 else 0)
unfolding bubbles
few fl st true q r = ground arith
few fl st false q r = let e1 = q refl in let e2 = r refl in ground arith

module _ (imem : ℕ → ℕ) (c : Core) (older : IfId) (d1 d2 : ℕ) where
  abbrev here : Core
  here = now imem c older d1 d2

  quiet : older.valid ≡ false → flush here ≡ false
  quiet v = bubble_quiet older d1 d2 (fwd_rs1 here) (fwd_rs2 here) v

  free : older.valid ≡ false → stall here ≡ false
  free v =
      no_hazard (rs1_of c.if_id_r.instr) (rs2_of c.if_id_r.instr) here.id_ex_r.control.mem_read
        here.id_ex_r.rd_addr (bubble_reads older d1 d2 (fwd_rs1 here) (fwd_rs2 here) v)

  -- A cycle takes as long as its instruction, if there is one, and the bubbles behind it.
  pub cycle-wait :
      (older.valid ≡ true → c.if_id_r.valid ≡ true)
      → 1 + wait (cycle imem here) ≡ retires here + bubbles (flush here) (stall here) + wait here
  unfolding wait id_ex_next
  cycle-wait behind =
      ticks (flush here) (stall here) older.valid c.if_id_r.valid (wait (cycle imem here))
        (next_wait imem (flush here) (stall here) here) behind quiet free

  -- There are bubbles behind an instruction only.
  pub bubbles-retires : bubbles (flush here) (stall here) ≤ 2 * retires here
  unfolding id_ex_next
  bubbles-retires = few (flush here) (stall here) older.valid quiet free
