-- ===== src/Generator/Transfers.antt =====
-- The branches and the jumps of the top-level stream.
use risc_v_pipeline_sim.Common.{
  ℕ, ◌*◌, ◌<◌, ◌≡◌, ◌∙◌, ◌⊎◌, inl, inr, arith, List, [], ◌∷◌, ℤ, pos, All,
}
use risc_v_pipeline_sim.Effect.{Ensures, Ensures-bind, Ensures-pure, Ensures-weaken}
use risc_v_pipeline_sim.Encoding.RoundTrip.{imm_gen-enc_b, imm_gen-enc_j}
use risc_v_pipeline_sim.Generator.Random.{Rng, Store}
use risc_v_pipeline_sim.Generator.Draws.{choice-All}
use risc_v_pipeline_sim.Generator.Instr.{branches, candidates, branch_to, jump_to, gen_branch}
use risc_v_pipeline_sim.Generator.Safe.{
  InWindow, Straight, Transfer, branch_forward, jump_forward, SafeTarget, IsBranchCode,
}
use risc_v_pipeline_sim.Generator.Targets.{candidates-SafeTarget}
use risc_v_pipeline_sim.Generator.InstrSafe.{Emitted, unwritten, reg_lem, gen_r-Straight}

-- What stands in a slot of the top-level stream.
abbrev pub TopLevel : ℕ → ℕ → List (ℕ × ℕ) → List ℤ → ℕ → Type 0
TopLevel total place ranges written w = Straight written w ⊎ Transfer total place ranges w

pub Emitted-weaken :
    {State : Type 0} {before : List ℤ} {P Q : List ℤ → ℕ → Type 0} {w : ℕ} {t : Store State}
    → ((os : List ℤ) → P os w → Q os w)
    → Emitted State before P w t
    → Emitted State before Q w t
Emitted-weaken {t = t} f h = record {
  is_word = h.is_word;
  instr = f t.written h.instr;
  grown = h.grown;
  in_window = h.in_window;
}

module _ (rng : Rng) (before : List ℤ) (win : All InWindow before) (total place : ℕ)
    (ranges : List (ℕ × ℕ)) where
  branch_to-TopLevel :
      (g : Store rng.State) (op f3 : ℕ) (ds : List ℕ)
      → g.written ≡ before
      → op ≡ 0x63
      → IsBranchCode f3
      → All (SafeTarget total place ranges) ds
      → Ensures (Emitted rng.State before (TopLevel total place ranges)) (branch_to rng op f3 ds) g
  unfolding branch_to
  branch_to-TopLevel g op f3 [] e ho hf safe =
      Ensures-weaken (λ w t h. Emitted-weaken (λ os. inl) h) (gen_r-Straight rng before win g e)
  branch_to-TopLevel g op f3 (d ∷ ds) e ho hf safe =
      Ensures-bind (choice-All rng g (SafeTarget total place ranges) (d ∷ ds) (omega arith) safe)
        λ delta t q. Ensures-bind (reg_lem rng before t (q.1 ∙ e)) λ rs1 t₁ q₁.
          Ensures-bind (reg_lem rng before t₁ q₁.1) λ rs2 t₂ q₂.
            let safe_delta = q.0 in
            let f =
              imm_gen-enc_b f3 rs1 rs2 (pos (delta * 4)) (omega arith) (omega arith) (omega arith)
                (omega (arith, safe_delta.near)) (omega arith) in
            rw ho (
              Ensures-pure _ t₂ (
                unwritten q₂.1 win f.0 (
                  inr (
                    branch_forward delta safe_delta f.1 (rw f.2 hf) (rw f.3 q₁.0) (rw f.4 q₂.0)
                      (f.5 ∙ omega (arith, safe_delta.near))))))

  pub jump_to-TopLevel :
      (g : Store rng.State) (ds : List ℕ)
      → g.written ≡ before
      → All (SafeTarget total place ranges) ds
      → Ensures (Emitted rng.State before (TopLevel total place ranges)) (jump_to rng ds) g
  unfolding jump_to
  jump_to-TopLevel g [] e safe =
      Ensures-weaken (λ w t h. Emitted-weaken (λ os. inl) h) (gen_r-Straight rng before win g e)
  jump_to-TopLevel g (d ∷ ds) e safe =
      Ensures-bind (choice-All rng g (SafeTarget total place ranges) (d ∷ ds) (omega arith) safe)
        λ delta t q.
          let safe_delta = q.0 in
          let f =
            imm_gen-enc_j 0 (pos (delta * 4)) (omega arith) (omega (arith, safe_delta.near))
              (omega arith) in
          Ensures-pure _ t (
            unwritten (q.1 ∙ e) win f.0
              (inr (jump_forward delta safe_delta f.1 f.2 (f.3 ∙ omega (arith, safe_delta.near)))))

  pub gen_branch-TopLevel :
      (g : Store rng.State)
      → g.written ≡ before
      → place < total
      → Ensures
          (Emitted rng.State before (TopLevel total place ranges))
          (gen_branch rng total place ranges)
          g
  unfolding gen_branch
  gen_branch-TopLevel g e h =
      Ensures-bind
        (choice-All rng g (λ (c : ℕ × ℕ). (c.0 ≡ 0x63) × IsBranchCode c.1) branches (omega arith)
          (omega arith))
        λ (op, f3) t q.
          branch_to-TopLevel t op f3 (candidates total place ranges) (q.1 ∙ e) q.0.0 q.0.1
            (candidates-SafeTarget total place ranges h)
