-- ===== src/Generator/PassOne.antt =====
-- The first pass of `random_program`: where the loop blocks stand.
use risc_v_pipeline_sim.Common.{
  ℕ, zero, suc, ◌+◌, ◌-◌, ◌≤◌, ◌<◌, ◌≡◌, refl, ◌∙◌, ap, arith, Bool, true, false, inl, inr,
  Bool-cases, append-nil, if◌then◌else◌, List, [], ◌∷◌, ◌++◌, Option, none, some, ℤ, All, length,
  length-append, replicate, append_assoc, ltb,
}
use risc_v_pipeline_sim.Effect.{Ensures, Ensures-bind, Ensures-pure, Ensures-weaken, pure}
use risc_v_pipeline_sim.Generator.Random.{Rng, Store}
use risc_v_pipeline_sim.Generator.Draws.{draw_lem}
use risc_v_pipeline_sim.Generator.Program.{
  Slots, Plan, loop_block_prob, place_block, plan_step, pass_one, random_loop_block,
}
use risc_v_pipeline_sim.Generator.Safe.{Among, InWindow}
use risc_v_pipeline_sim.Generator.LoopBlock.{
  LoopBlock, LoopResult, LoopBlock-mono, Grown, random_loop_block-LoopResult,
}
use risc_v_pipeline_sim.Generator.Pieces.{
  Piece, single, loop, slots_of, total, ranges_from, singles_from, retire_of, slots_of-append,
  total-append, ranges_from-append, singles_from-append, retire_of-append, set_slice-end,
  length-slots_of, drop-replicate,
}

-- Single slots are empty, and each loop block fits what is left of the `n` slots.
abbrev pub PlannedFrom : List ℤ → ℕ → ℕ → List Piece → Type 0
PlannedFrom written n i [] = Unit
PlannedFrom written n i (single o ∷ ps) = (o ≡ none) × PlannedFrom written n (i + 1) ps
PlannedFrom written n i (loop ws retire ∷ ps) =
    LoopBlock written (n - i) ws retire × PlannedFrom written n (i + length ws) ps

pub PlannedFrom-mono :
    (before after : List ℤ) (n i : ℕ) (ps : List Piece)
    → ((o : ℤ) → Among o before → Among o after)
    → PlannedFrom before n i ps
    → PlannedFrom after n i ps
PlannedFrom-mono before after n i [] f h = tt
PlannedFrom-mono before after n i (single o ∷ ps) f h =
    (h.0, PlannedFrom-mono before after n (i + 1) ps f h.1)
PlannedFrom-mono before after n i (loop ws retire ∷ ps) f h = (
  LoopBlock-mono before after (n - i) ws retire f h.0,
  PlannedFrom-mono before after n (i + length ws) ps f h.1,
)

PlannedFrom-append :
    (written : List ℤ) (n i j : ℕ) (ps : List Piece) (q : Piece)
    → i + total ps ≡ j
    → PlannedFrom written n i ps
    → PlannedFrom written n j (q ∷ [])
    → PlannedFrom written n i (ps ++ q ∷ [])
PlannedFrom-append written n i j [] q e h k = let e' : i ≡ j = omega arith in rw e' k
PlannedFrom-append written n i j (single o ∷ ps) q e h k =
    (h.0, PlannedFrom-append written n (i + 1) j ps q (omega arith) h.1 k)
PlannedFrom-append written n i j (loop ws retire ∷ ps) q e h k =
    (h.0, PlannedFrom-append written n (i + length ws) j ps q (omega arith) h.1 k)

-- The plan is what its pieces say, from the slot `s` behind the `base` up to the slot `i`.
pub record Planned (n s : ℕ) (base : Slots) (written : List ℤ) (i : ℕ) (plan : Plan) : Type 0 where
  pub pieces : List Piece
  pub reached : s + total pieces ≡ i
  pub inside : i ≤ n
  pub instrs : plan.instrs ≡ (base ++ slots_of pieces) ++ replicate (n - i) none
  pub ranges : plan.loop_ranges ≡ ranges_from s pieces
  pub singles : plan.single_slots ≡ singles_from s pieces
  pub retire : plan.expected_retire ≡ retire_of pieces
  pub planned : PlannedFrom written n s pieces

-- A block that was drawn for the slots from `i` on, if there is one.
abbrev BlockFits : ℕ → List ℤ → Option (List ℕ × ℕ) → Type 0
BlockFits budget written none = Unit
BlockFits budget written (some (ws, retire)) = LoopBlock written budget ws retire

module _ (n s : ℕ) (base : Slots) (hs : length base ≡ s) (written : List ℤ) (i : ℕ)
    (plan : Plan) where
  place_block-Planned :
      (block : Option (List ℕ × ℕ))
      → i < n
      → BlockFits (n - i) written block
      → Planned n s base written i plan
      → Planned n s base written (place_block i plan block).0 (place_block i plan block).1
        × (i < (place_block i plan block).0)
  unfolding place_block
  place_block-Planned none h b p =
      let q = single none in
      let e : s + total p.pieces ≡ i = p.reached in
      let next : n - i ≡ suc (n - (i + 1)) = omega arith in
      (
        record {
          pieces = p.pieces ++ q ∷ [];
          reached = omega (arith, total-append q p.pieces);
          inside = omega arith;
          instrs = p.instrs ∙ rw next (simp (slots_of-append, append_assoc));
          ranges = p.ranges ∙ rw (ranges_from-append q s i p.pieces e) (simp append-nil);
          singles = rw (p.singles, singles_from-append q s i p.pieces e);
          retire = omega (arith, p.retire, retire_of-append q p.pieces);
          planned = PlannedFrom-append written n s i p.pieces q e p.planned (refl, tt);
        },
        omega arith,
      )
  place_block-Planned (some (ws, retire)) h b p =
      let q = loop ws retire in
      let e : s + total p.pieces ≡ i = p.reached in
      let room : length ws ≤ n - i = b.fits in
      let left : n - i - length ws ≡ n - (i + length ws) = omega arith in
      let front : length (base ++ slots_of p.pieces) ≡ i =
        length-append base (slots_of p.pieces) ∙ omega (arith, length-slots_of p.pieces) in
      (
        record {
          pieces = p.pieces ++ q ∷ [];
          reached = omega (arith, total-append q p.pieces);
          inside = omega arith;
          instrs =
              rw
                (
                  p.instrs,
                  set_slice-end i ws (base ++ slots_of p.pieces) (replicate (n - i) none) front,
                  drop-replicate {A = Option ℕ} (length ws) (n - i) none room,
                  left,
                )
                (simp (slots_of-append, append_assoc, append-nil));
          ranges = rw (p.ranges, ranges_from-append q s i p.pieces e);
          singles = p.singles ∙ rw (singles_from-append q s i p.pieces e) (simp append-nil);
          retire = omega (arith, p.retire, retire_of-append q p.pieces);
          planned = PlannedFrom-append written n s i p.pieces q e p.planned (b, tt);
        },
        omega (arith, ap length b.layout),
      )

Planned-mono :
    (n s : ℕ) (base : Slots) (before after : List ℤ) (i : ℕ) (plan : Plan)
    → ((o : ℤ) → Among o before → Among o after)
    → Planned n s base before i plan
    → Planned n s base after i plan
Planned-mono n s base before after i plan f p = record {
  pieces = p.pieces;
  reached = p.reached;
  inside = p.inside;
  instrs = p.instrs;
  ranges = p.ranges;
  singles = p.singles;
  retire = p.retire;
  planned = PlannedFrom-mono before after n s p.pieces f p.planned;
}

LoopResult-BlockFits :
    (budget : ℕ) (written : List ℤ) (block : Option (List ℕ × ℕ))
    → LoopResult budget written block
    → BlockFits budget written block
LoopResult-BlockFits budget written none h = tt
LoopResult-BlockFits budget written (some b) h = h

module _ (rng : Rng) (n s : ℕ) (base : Slots) (hs : length base ≡ s) where
  plan_step-Planned :
      (g : Store rng.State) (i : ℕ) (plan : Plan)
      → All InWindow g.written
      → i < n
      → Planned n s base g.written i plan
      → Ensures
          (λ next t.
            Planned n s base t.written next.0 next.1 × (i < next.0) × Grown g.written t.written)
          (plan_step rng n i plan)
          g
  unfolding plan_step
  plan_step-Planned g i plan win h p =
      Ensures-bind (draw_lem rng g (rng.chance loop_block_prob)) λ is_loop t q.
        Ensures-bind (block is_loop t q) λ b t₁ q₁.
          let (p', further) =
            place_block-Planned n s base hs t₁.written i plan b h q₁.0
              (Planned-mono n s base g.written t₁.written i plan q₁.1.grown p) in
          Ensures-pure _ t₁ (p', further, q₁.1)
    where
      block :
          (is_loop : Bool) (t : Store rng.State)
          → t.written ≡ g.written
          → Ensures
              (λ b u. BlockFits (n - i) u.written b × Grown g.written u.written)
              (if is_loop then random_loop_block rng (n - i) else pure none)
              t
      block true t e =
          Ensures-weaken (λ b u q. (LoopResult-BlockFits (n - i) u.written b q.0, rw e at q.1))
            (random_loop_block-LoopResult rng t (rw e win) (n - i))
      block false t e =
          Ensures-pure none t (tt, rw e (record { grown = λ o m. m; in_window = win }))

  -- With as many rounds as there are slots left the pass ends, at the slot `n`.
  pub pass_one-Planned :
      (fuel : ℕ) (g : Store rng.State) (i : ℕ) (plan : Plan)
      → n ≤ i + fuel
      → All InWindow g.written
      → Planned n s base g.written i plan
      → Ensures
          (λ plan' t. Planned n s base t.written n plan' × Grown g.written t.written)
          (pass_one rng fuel n i plan)
          g
  unfolding pass_one
  pass_one-Planned zero g i plan hf win p =
      let e : i ≡ n = omega (arith, p.inside) in
      let ended : ltb i n ≡ false = ground arith in
      rw ended (Ensures-pure plan g (rw e at p, record { grown = λ o m. m; in_window = win }))
  pass_one-Planned (suc fuel) g i plan hf win p = elim (Bool-cases (ltb i n)) [
    | inl more ↦ rw more (
        Ensures-bind (plan_step-Planned g i plan win (ground arith) p) λ (i', plan') t q.
          Ensures-weaken
            (λ final u r. (
              r.0,
              record { grown = λ o m. r.1.grown o (q.2.grown o m); in_window = r.1.in_window },
            ))
            (pass_one-Planned fuel t i' plan' (omega (arith, q.1)) q.2.in_window q.0))
    | inr ended ↦
        let e : i ≡ n = ground (arith, p.inside) in
        rw ended (Ensures-pure plan g (rw e at p, record { grown = λ o m. m; in_window = win }))
  ]
