-- ===== src/Generator/PassTwo.antt =====
-- The second pass of `random_program`: the single slots are filled, the loop blocks are left alone.
use risc_v_pipeline_sim.Common.{
  ℕ, ◌+◌, ◌-◌, ◌^◌, ◌<◌, ◌≡◌, refl, sym, ◌∙◌, ap, inl, inr, arith, List, [], ◌∷◌, ◌++◌, map, Option,
  some, ℤ, All, length, length-append, append_assoc,
}
use risc_v_pipeline_sim.Effect.{Ensures, Ensures-bind, Ensures-pure, Ensures-lift, Ensures-weaken}
use risc_v_pipeline_sim.Generator.Random.{Rng, Store}
use risc_v_pipeline_sim.Generator.Program.{Slots, pass_two}
use risc_v_pipeline_sim.Generator.Safe.{Among, InWindow, Straight-mono}
use risc_v_pipeline_sim.Generator.InstrSafe.{Emitted}
use risc_v_pipeline_sim.Generator.Transfers.{TopLevel}
use risc_v_pipeline_sim.Generator.Dispatch.{gen_one_instr-TopLevel}
use risc_v_pipeline_sim.Generator.LoopBlock.{LoopBlock, LoopBlock-mono, Grown}
use risc_v_pipeline_sim.Generator.Pieces.{
  Piece, single, loop, slots_of, total, ranges_from, singles_from, retire_of, set_slot-next,
  length-map-some,
}
use risc_v_pipeline_sim.Generator.PassOne.{PlannedFrom, PlannedFrom-mono}

-- The finished pieces, from the slot `i` on: every single slot holds a word that is safe there, and
-- every loop is a `LoopBlock`.
abbrev pub SafeFrom : ℕ → List (ℕ × ℕ) → List ℤ → ℕ → List Piece → Type 0
SafeFrom n ranges written i [] = Unit
SafeFrom n ranges written i (single o ∷ ps) =
    ((w : ℕ) × (o ≡ some w) × (w < 2 ^ 32) × TopLevel n i ranges written w)
    × SafeFrom n ranges written (i + 1) ps
SafeFrom n ranges written i (loop ws retire ∷ ps) =
    LoopBlock written (n - i) ws retire × SafeFrom n ranges written (i + length ws) ps

TopLevel-mono :
    (n place : ℕ) (ranges : List (ℕ × ℕ)) (before after : List ℤ) (w : ℕ)
    → ((o : ℤ) → Among o before → Among o after)
    → TopLevel n place ranges before w
    → TopLevel n place ranges after w
TopLevel-mono n place ranges before after w f (inl s) = inl (Straight-mono before after w f s)
TopLevel-mono n place ranges before after w f (inr t) = inr t

-- What the second pass makes of the pieces from the slot `i` on.
pub record Filled (n : ℕ) (ranges : List (ℕ × ℕ)) (before : List ℤ) (i : ℕ) (front : Slots)
    (ps : List Piece) (ys : Slots) (after : List ℤ) : Type 0 where
  pub pieces : List Piece
  pub instrs : ys ≡ front ++ slots_of pieces
  pub safe : SafeFrom n ranges after i pieces
  pub same_total : total pieces ≡ total ps
  pub same_ranges : ranges_from i pieces ≡ ranges_from i ps
  pub same_retire : retire_of pieces ≡ retire_of ps
  pub grown : Grown before after

module _ (n : ℕ) (ranges : List (ℕ × ℕ)) (before : List ℤ) (i : ℕ) (front : Slots)
    (ps : List Piece) where
  Filled-single :
      {State : Type 0} (o : Option ℕ) (w : ℕ) (t : Store State) (after : List ℤ) (ys : Slots)
      → Emitted State before (TopLevel n i ranges) w t
      → Filled n ranges t.written (i + 1) (front ++ some w ∷ []) ps ys after
      → Filled n ranges before i front (single o ∷ ps) ys after
  Filled-single o w t after ys q f = record {
    pieces = single (some w) ∷ f.pieces;
    instrs = f.instrs ∙ append_assoc front (some w ∷ []) (slots_of f.pieces);
    safe = (
      (w, refl, q.is_word, TopLevel-mono n i ranges t.written after w f.grown.grown q.instr),
      f.safe,
    );
    same_total = ap (λ k. 1 + k) f.same_total;
    same_ranges = f.same_ranges;
    same_retire = ap (λ k. 1 + k) f.same_retire;
    grown = record { grown = λ p m. f.grown.grown p (q.grown p m); in_window = f.grown.in_window };
  }

  Filled-loop :
      (ws : List ℕ) (retire : ℕ) (after : List ℤ) (ys : Slots)
      → LoopBlock before (n - i) ws retire
      → Filled n ranges before (i + length ws) (front ++ map some ws) ps ys after
      → Filled n ranges before i front (loop ws retire ∷ ps) ys after
  Filled-loop ws retire after ys l f = record {
    pieces = loop ws retire ∷ f.pieces;
    instrs = f.instrs ∙ append_assoc front (map some ws) (slots_of f.pieces);
    safe = (LoopBlock-mono before after (n - i) ws retire f.grown.grown l, f.safe);
    same_total = ap (λ k. length ws + k) f.same_total;
    same_ranges = ap (λ r. (i, i + length ws) ∷ r) f.same_ranges;
    same_retire = ap (λ k. retire + k) f.same_retire;
    grown = f.grown;
  }

module _ (rng : Rng) (n : ℕ) (ranges : List (ℕ × ℕ)) where
  pub pass_two-Filled :
      (ps : List Piece) (g : Store rng.State) (i : ℕ) (front : Slots)
      → length front ≡ i
      → i + total ps ≡ n
      → All InWindow g.written
      → PlannedFrom g.written n i ps
      → Ensures
          (λ ys t. Filled n ranges g.written i front ps ys t.written)
          (pass_two rng n ranges (singles_from i ps) (front ++ slots_of ps))
          g
  unfolding pass_two
  pass_two-Filled [] g i front hf ht win p = Ensures-pure _ g (record {
    pieces = [];
    instrs = refl;
    safe = tt;
    same_total = refl;
    same_ranges = refl;
    same_retire = refl;
    grown = record { grown = λ o m. m; in_window = win };
  })
  pass_two-Filled (single o ∷ ps) g i front hf ht win p =
      Ensures-bind (gen_one_instr-TopLevel rng g win n i ranges (omega arith)) λ w t q.
        rw (set_slot-next i w front (slots_of ps) o hf) (
          Ensures-bind {Q = λ xs u. (xs ≡ (front ++ some w ∷ []) ++ slots_of ps) × (u ≡ t)}
            (Ensures-lift _ t (sym (append_assoc front (some w ∷ []) (slots_of ps)), refl))
            λ xs u r.
              rw (r.0, r.1)
                (Ensures-weaken
                  (λ ys v. Filled-single n ranges g.written i front ps o w t v.written ys q)
                  (pass_two-Filled ps t (i + 1) (front ++ some w ∷ [])
                    (length-append front (some w ∷ []) ∙ omega arith) (omega arith) q.in_window
                    (PlannedFrom-mono g.written t.written n (i + 1) ps q.grown p.1))))
  pass_two-Filled (loop ws retire ∷ ps) g i front hf ht win p =
      rw (← append_assoc front (map some ws) (slots_of ps)) (
        Ensures-weaken
          (λ ys v. Filled-loop n ranges g.written i front ps ws retire v.written ys p.0)
          (pass_two-Filled ps g (i + length ws) (front ++ map some ws)
            (length-append front (map some ws) ∙ omega (arith, length-map-some ws)) (omega arith)
            win p.1))
