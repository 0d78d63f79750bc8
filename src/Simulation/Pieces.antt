-- ===== src/Simulation/Pieces.antt =====
-- The random part of a program on the simulator: from piece to piece, past what a branch or a jump
-- leaves out, to the epilogue.
use risc_v_pipeline_sim.Common.{
  ℕ, ◌+◌, ◌-◌, ◌*◌, ◌^◌, ◌≤◌, ◌<◌, ◌≡◌, refl, ◌⊎◌, inl, inr, arith, Bool, true, false, some, List,
  [], ◌∷◌, get_elem?, length, ℤ, to_word, if◌then◌else◌, ltb, Bool-cases,
}
use risc_v_pipeline_sim.Encoding.Decode.{imm_gen}
use risc_v_pipeline_sim.Isa.Machine.{Machine, add_32}
use risc_v_pipeline_sim.Isa.Run.{running, step}
use risc_v_pipeline_sim.Generator.Instr.{in_any_range}
use risc_v_pipeline_sim.Generator.Safe.{InWindow, branch_forward, jump_forward}
use risc_v_pipeline_sim.Generator.Transfers.{TopLevel}
use risc_v_pipeline_sim.Generator.Pieces.{
  Piece, single, loop, total, words_of, ranges_from, retire_of,
}
use risc_v_pipeline_sim.Generator.PassTwo.{SafeFrom}
use risc_v_pipeline_sim.Generator.Image.{Covers}
use risc_v_pipeline_sim.Simulation.{
  Leads, Leads-here, Leads-weaken, Leads-step, Leads-then, Placed, Placed-append, At,
}
use risc_v_pipeline_sim.Simulation.Steps.{
  get_elem?_inside, Lands, straight_step, branch_step, jal_step, known_branch,
}
use risc_v_pipeline_sim.Simulation.Loop.{LoopBlock-Leads}

-- Slots of the random part where the machine may be, in front of pieces that begin at `i` and end
-- at `n`: the first, and those behind it that are in no loop.
abbrev Entry : (n i j : ℕ) → List Piece → Type 0
Entry n i j ps = (j ≡ i) ⊎ ((i < j) × (j ≤ n) × (in_any_range j (ranges_from i ps) ≡ false))

Entry-from :
    (n i j : ℕ) (ps : List Piece)
    → i ≤ j
    → j ≤ n
    → in_any_range j (ranges_from i ps) ≡ false
    → Entry n i j ps
Entry-from n i j ps h h' out = elim (Bool-cases (ltb i j)) [
  | inl behind ↦ inr (ground arith, h', out)
  | inr first ↦ inl (ground arith)
]

in_range_tail :
    (j lo hi : ℕ) (ranges : List (ℕ × ℕ))
    → in_any_range j ((lo, hi) ∷ ranges) ≡ false
    → lo ≤ j
    → (hi ≤ j) × (in_any_range j ranges ≡ false)
unfolding in_any_range
in_range_tail j lo hi ranges h le = (ground arith, ground arith)

in_range_weaken :
    (j lo hi : ℕ) (ranges : List (ℕ × ℕ))
    → in_any_range j ((lo, hi) ∷ ranges) ≡ false
    → in_any_range j ranges ≡ false
unfolding in_any_range
in_range_weaken j lo hi ranges h = ground arith

module _ (program : List ℕ) (fits : length program * 4 ≤ 4096) (base : ℕ)
    (window : (o : ℤ)
      → InWindow o
      → (length program * 4 ≤ add_32 base (to_word o)) × (add_32 base (to_word o) + 4 ≤ 4096))
    (n : ℕ) (ranges : List (ℕ × ℕ)) (written : List ℤ) where
  -- The single slot at `i`: the next round finds the machine at an entry of the rest.
  single_step :
      (i w : ℕ) (ps : List Piece) (m : Machine)
      → i + 1 ≤ n
      → w < 2 ^ 32
      → TopLevel n i ranges written w
      → get_elem? program (31 + i) ≡ some w
      → Covers ranges (i + 1) ps
      → At program base (31 + i) m
      → (m' : Machine) × (step m ≡ running m')
        × ((j : ℕ) × Entry n (i + 1) j ps × At program base (31 + j) m')
  single_step i w ps m room h (inl straight) e covers at =
      let (m', s, at', kept) =
        straight_step program fits base window written (31 + i) w m at e h straight in
      let same : 31 + i + 1 ≡ 31 + (i + 1) = omega arith in
      (m', s, (i + 1, inl refl, rw same at at'))
  single_step i w ps m room h (inr (branch_forward d target op code r1 r2 imm)) e covers at =
      let (c, taken) = known_branch program fits w m code in
      let lands : Lands (31 + i) (imm_gen w) (31 + (i + d)) =
        omega (arith, imm, get_elem?_inside program (31 + i) w e, target.near) in
      let (m', s, at', kept) =
        branch_step program fits base (31 + i) (31 + (i + d)) w m c at e h op taken lands in
      let there =
        Entry-from n (i + 1) (i + d) ps (omega (arith, target.forward)) target.inside
          (covers (i + d) target.no_loop) in
      (m', s, arrived c m' there at')
    where
      arrived :
          (c : Bool) (m' : Machine)
          → Entry n (i + 1) (i + d) ps
          → At program base (if c then 31 + (i + d) else 31 + i + 1) m'
          → (j : ℕ) × Entry n (i + 1) j ps × At program base (31 + j) m'
      arrived true m' there at' = (i + d, there, at')
      arrived false m' there at' =
          let same : 31 + i + 1 ≡ 31 + (i + 1) = omega arith in (i + 1, inl refl, rw same at at')
  single_step i w ps m room h (inr (jump_forward d target op rd imm)) e covers at =
      let lands : Lands (31 + i) (imm_gen w) (31 + (i + d)) =
        omega (arith, imm, get_elem?_inside program (31 + i) w e, target.near) in
      let (m', s, at', kept) =
        jal_step program fits base (31 + i) (31 + (i + d)) w m at e h op rd lands in
      let there =
        Entry-from n (i + 1) (i + d) ps (omega (arith, target.forward)) target.inside
          (covers (i + d) target.no_loop) in
      (m', s, (i + d, there, at'))

  -- From every entry the pieces lead to the slot behind them, in no more rounds than the generator
  -- counts.
  pub pieces_lead :
      (i : ℕ) (ps : List Piece)
      → i + total ps ≡ n
      → SafeFrom n ranges written i ps
      → Placed program (31 + i) (words_of ps)
      → Covers ranges i ps
      → (j : ℕ) (m : Machine) → Entry n i j ps
      → At program base (31 + j) m
      → Leads (At program base (31 + n)) (retire_of ps) m
  pieces_lead i [] e safe placed covers j m (inl first) at =
      let same : j ≡ n = omega arith in Leads-here m (rw same at at)
  pieces_lead i [] e safe placed covers j m (inr (behind, inside, out)) at = absurd (omega arith)
  pieces_lead i (single o ∷ ps) e ((w, filled, w32, top), safe) placed covers j m (inl first) at =
      let p : Placed program (31 + i) (w ∷ words_of ps) = rw filled at placed in
      let next : 31 + i + 1 ≡ 31 + (i + 1) = omega arith in
      let here : At program base (31 + i) m = rw first at at in
      let (m', s, (k, entry, at')) = single_step i w ps m (omega arith) w32 top p.0 covers here in
      Leads-step (retire_of ps) m m' s
        (pieces_lead (i + 1) ps (omega arith) safe (rw next at p.1) covers k m' entry at')
  pieces_lead i (single o ∷ ps) e ((w, filled, w32, top), safe) placed covers j m
        (inr (behind, inside, out)) at =
      let p : Placed program (31 + i) (w ∷ words_of ps) = rw filled at placed in
      let next : 31 + i + 1 ≡ 31 + (i + 1) = omega arith in
      Leads-weaken (retire_of ps) (1 + retire_of ps) m (omega arith) (
        pieces_lead (i + 1) ps (omega arith) safe (rw next at p.1) covers j m
          (Entry-from n (i + 1) j ps (omega arith) inside out) at)
  pieces_lead i (loop ws retire ∷ ps) e (l, safe) placed covers j m entry at =
      let (ws_placed, rest) = Placed-append program (31 + i) ws (words_of ps) placed in
      let next : 31 + i + length ws ≡ 31 + (i + length ws) = omega arith in
      let ih = pieces_lead (i + length ws) ps (omega arith) safe (rw next at rest) (λ k out.
        in_range_weaken k i (i + length ws) (ranges_from (i + length ws) ps) (covers k out)) in
      pass entry ws_placed next ih
    where
      pass :
          Entry n i j (loop ws retire ∷ ps)
          → Placed program (31 + i) ws
          → 31 + i + length ws ≡ 31 + (i + length ws)
          → ((k : ℕ) (t : Machine)
              → Entry n (i + length ws) k ps
              → At program base (31 + k) t
              → Leads (At program base (31 + n)) (retire_of ps) t)
          → Leads (At program base (31 + n)) (retire + retire_of ps) m
      pass (inl first) ws_placed next ih =
          Leads-then retire (retire_of ps) m
            (LoopBlock-Leads program fits base window written (n - i) retire ws (31 + i) m l
              ws_placed (rw first at at))
            (λ t q. ih (i + length ws) t (inl refl) (rw next at q))
      pass (inr (behind, inside, out)) ws_placed next ih =
          let (above, out') =
            in_range_tail j i (i + length ws) (ranges_from (i + length ws) ps) out (omega arith) in
          Leads-weaken (retire_of ps) (retire + retire_of ps) m (omega arith)
            (ih j m (Entry-from n (i + length ws) j ps above inside out') at)
