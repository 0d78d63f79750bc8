-- ===== src/Generator/Dispatch.antt =====
-- `_gen_one_instr` as a whole.
use risc_v_pipeline_sim.Common.{
  ℕ, ◌<◌, ◌≡◌, refl, ◌∙◌, inl, arith, Bool, true, false, List, [], ◌∷◌, Option, none, some, ℤ, All,
  length, map,
}
use risc_v_pipeline_sim.Effect.{Ensures, Ensures-bind, Ensures-weaken}
use risc_v_pipeline_sim.Generator.Random.{Rng, Store, sum}
use risc_v_pipeline_sim.Generator.Draws.{choices-All, get_written_lem}
use risc_v_pipeline_sim.Generator.Instr.{
  candidates, Category, r, i_arith, i_shift, store, branch, jal, load, categories, gen_jal, emit,
  gen_one_instr,
}
use risc_v_pipeline_sim.Generator.Safe.{InWindow, Straight}
use risc_v_pipeline_sim.Generator.Targets.{candidates-SafeTarget}
use risc_v_pipeline_sim.Generator.Transfers.{
  TopLevel, Emitted-weaken, gen_branch-TopLevel, jump_to-TopLevel,
}
use risc_v_pipeline_sim.Generator.InstrSafe.{
  Emitted, gen_r-Straight, gen_i_arith-Straight, gen_i_shift-Straight, gen_load-Straight,
  gen_store-Straight,
}

-- The categories between which the draw is made.
abbrev Allowed : Bool → List ℤ → Category → Type 0
Allowed allow written branch = allow ≡ true
Allowed allow written jal = allow ≡ true
Allowed allow written load = 0 < length written
Allowed allow written category = Unit

record Draws (allow : Bool) (written : List ℤ) : Type 0 where
  positive : 0 < sum (map (λ (c : Category × ℕ). c.1) (categories allow written))
  same_length :
      length (map (λ (c : Category × ℕ). c.0) (categories allow written))
      ≡ length (map (λ (c : Category × ℕ). c.1) (categories allow written))
  allowed : All (Allowed allow written) (map (λ (c : Category × ℕ). c.0) (categories allow written))

categories-Draws : (allow : Bool) (written : List ℤ) → Draws allow written
categories-Draws true [] = record {
  positive = omega arith;
  same_length = refl;
  allowed = (tt, (tt, (tt, (tt, (refl, (refl, tt))))));
}
categories-Draws true (o ∷ os) = record {
  positive = omega arith;
  same_length = refl;
  allowed = (tt, (tt, (tt, (tt, (refl, (refl, (omega arith, tt)))))));
}
categories-Draws false [] = record {
  positive = omega arith;
  same_length = refl;
  allowed = (tt, (tt, (tt, (tt, tt))));
}
categories-Draws false (o ∷ os) = record {
  positive = omega arith;
  same_length = refl;
  allowed = (tt, (tt, (tt, (tt, (omega arith, tt)))));
}

module _ (rng : Rng) (before : List ℤ) (win : All InWindow before) (g : Store rng.State)
    (e : g.written ≡ before) where
  -- The categories that need no place.
  straight :
      (category : Category) (place total : Option ℕ) (ranges : List (ℕ × ℕ))
      → Allowed false before category
      → Ensures (Emitted rng.State before Straight) (emit rng category place total ranges) g
  unfolding emit
  straight r place total ranges h = gen_r-Straight rng before win g e
  straight i_arith place total ranges h = gen_i_arith-Straight rng before win g e
  straight i_shift place total ranges h = gen_i_shift-Straight rng before win g e
  straight store place total ranges h = gen_store-Straight rng before win g e
  straight load place total ranges h = gen_load-Straight rng before win g e h
  straight branch place total ranges h = cc
  straight jal place total ranges h = cc

module _ (rng : Rng) (before : List ℤ) (win : All InWindow before) (total place : ℕ)
    (ranges : List (ℕ × ℕ)) where
  emit-TopLevel :
      (g : Store rng.State)
      → g.written ≡ before
      → place < total
      → (category : Category) → Allowed true before category
      → Ensures
          (Emitted rng.State before (TopLevel total place ranges))
          (emit rng category (some place) (some total) ranges)
          g
  emit-TopLevel g e h branch a =
      unfold emit in gen_branch-TopLevel rng before win total place ranges g e h
  emit-TopLevel g e h jal a =
      unfold emit gen_jal in
      jump_to-TopLevel rng before win total place ranges g (candidates total place ranges) e
        (candidates-SafeTarget total place ranges h)
  emit-TopLevel g e h category a =
      Ensures-weaken (λ w t k. Emitted-weaken (λ os. inl) k)
        (straight rng before win g e category (some place) (some total) ranges a)

module _ (rng : Rng) (g : Store rng.State) (win : All InWindow g.written) where
  -- In a loop body no exception is raised, although no place is given, and the instruction falls
  -- through.
  pub gen_one_instr-Straight :
      (ranges : List (ℕ × ℕ))
      → Ensures (Emitted rng.State g.written Straight) (gen_one_instr rng false none none ranges) g
  unfolding gen_one_instr
  gen_one_instr-Straight ranges =
      let d = categories-Draws false g.written in
      Ensures-bind (get_written_lem rng g) λ os t q. rw q.0 (
        Ensures-bind
          (choices-All rng t (Allowed false g.written) _ _ d.positive d.same_length d.allowed)
          λ c t₁ q₁. straight rng g.written win t₁ (q₁.1 ∙ q.1) c none none ranges q₁.0)

  -- From a set of offsets in the window and for a slot in the stream, no exception is raised. The
  -- word is a 32-bit word; it falls through as `Straight` says, or it is a branch or a jump
  -- forward to a safe target. The offsets of memory accesses stay in the window.
  pub gen_one_instr-TopLevel :
      (total place : ℕ) (ranges : List (ℕ × ℕ))
      → place < total
      → Ensures
          (Emitted rng.State g.written (TopLevel total place ranges))
          (gen_one_instr rng true (some place) (some total) ranges)
          g
  unfolding gen_one_instr
  gen_one_instr-TopLevel total place ranges h =
      let d = categories-Draws true g.written in
      Ensures-bind (get_written_lem rng g) λ os t q. rw q.0 (
        Ensures-bind
          (choices-All rng t (Allowed true g.written) _ _ d.positive d.same_length d.allowed)
          λ c t₁ q₁. emit-TopLevel rng g.written win total place ranges t₁ (q₁.1 ∙ q.1) h c q₁.0)
