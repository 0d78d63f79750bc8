-- ===== src/Generator/LoopBlock.antt =====
-- The bounded loops of `random_loop_block`.
use risc_v_pipeline_sim.Common.{
  ℕ, zero, suc, ◌+◌, ◌-◌, ◌*◌, ◌^◌, ◌≤◌, ◌<◌, ◌≡◌, refl, ◌∙◌, ap, inl, arith, false, List, [], ◌∷◌,
  ◌++◌, Option, none, some, ℤ, pos, negsuc, neg_ℕ, Fits, IsEven, to_word, All, length,
  length-append, if_either, ltb, min,
}
use risc_v_pipeline_sim.Effect.{Ensures, Ensures-bind, Ensures-pure}
use risc_v_pipeline_sim.Encoding.{enc_i, enc_b}
use risc_v_pipeline_sim.Encoding.Decode.{opcode_of, rd_of, funct3_of, rs1_of, rs2_of, imm_gen}
use risc_v_pipeline_sim.Encoding.RoundTrip.{imm_gen-enc_i, imm_gen-enc_b}
use risc_v_pipeline_sim.Generator.Random.{Rng, Store}
use risc_v_pipeline_sim.Generator.Draws.{randint_range}
use risc_v_pipeline_sim.Generator.Instr.{gen_one_instr}
use risc_v_pipeline_sim.Generator.Program.{repeat, random_loop_block, loop_block}
use risc_v_pipeline_sim.Generator.Safe.{Among, InWindow, Straight, Straight-mono}
use risc_v_pipeline_sim.Generator.Dispatch.{gen_one_instr-Straight}

abbrev pub BodyWord : List ℤ → ℕ → Type 0
BodyWord written w = (w < 2 ^ 32) × Straight written w

-- The offsets only grow, and stay in the window.
pub record Grown (before after : List ℤ) : Type 0 where
  pub grown : (o : ℤ) → Among o before → Among o after
  pub in_window : All InWindow after

-- A loop: the counter x30 is set to the trip count, the body falls through and leaves x30 and x31
-- alone, the counter is taken down by one, and bne jumps back to the first word of the body.
pub record LoopBlock (written : List ℤ) (budget : ℕ) (words : List ℕ) (retire : ℕ) : Type 0 where
  pub init : ℕ
  pub body : List ℕ
  pub decrement : ℕ
  pub branch_back : ℕ
  pub trip_count : ℕ
  pub layout : words ≡ init ∷ body ++ decrement ∷ branch_back ∷ []
  pub fits : length words ≤ budget
  pub body_length : (1 ≤ length body) × (length body ≤ 5)
  pub trips : (2 ≤ trip_count) × (trip_count ≤ 8)
  pub retirements : retire ≡ 1 + trip_count * (length body + 2)
  pub straight_body : All (BodyWord written) body
  pub sets_counter :
      (init < 2 ^ 32)
      × (opcode_of init ≡ 0x13)
      × (rd_of init ≡ 30)
      × (funct3_of init ≡ 0)
      × (rs1_of init ≡ 0)
      × (imm_gen init ≡ trip_count)
  pub counts_down :
      (decrement < 2 ^ 32)
      × (opcode_of decrement ≡ 0x13)
      × (rd_of decrement ≡ 30)
      × (funct3_of decrement ≡ 0)
      × (rs1_of decrement ≡ 30)
      × (imm_gen decrement ≡ 2 ^ 32 - 1)
  pub jumps_back :
      (branch_back < 2 ^ 32)
      × (opcode_of branch_back ≡ 0x63)
      × (funct3_of branch_back ≡ 1)
      × (rs1_of branch_back ≡ 30)
      × (rs2_of branch_back ≡ 0)
      × (imm_gen branch_back + (length body + 1) * 4 ≡ 2 ^ 32)

-- What `random_loop_block` returns for a budget.
abbrev pub LoopResult : ℕ → List ℤ → Option (List ℕ × ℕ) → Type 0
LoopResult budget written none = budget < 4
LoopResult budget written (some (words, retire)) = LoopBlock written budget words retire

All-BodyWord-mono :
    (before after : List ℤ) (ws : List ℕ)
    → ((o : ℤ) → Among o before → Among o after)
    → All (BodyWord before) ws
    → All (BodyWord after) ws
All-BodyWord-mono before after [] f all = tt
All-BodyWord-mono before after (w ∷ ws) f ((h, s), all) =
    ((h, Straight-mono before after w f s), All-BodyWord-mono before after ws f all)

pub LoopBlock-mono :
    (before after : List ℤ) (budget : ℕ) (words : List ℕ) (retire : ℕ)
    → ((o : ℤ) → Among o before → Among o after)
    → LoopBlock before budget words retire
    → LoopBlock after budget words retire
LoopBlock-mono before after budget words retire f l = record {
  init = l.init;
  body = l.body;
  decrement = l.decrement;
  branch_back = l.branch_back;
  trip_count = l.trip_count;
  layout = l.layout;
  fits = l.fits;
  body_length = l.body_length;
  trips = l.trips;
  retirements = l.retirements;
  straight_body = All-BodyWord-mono before after l.body f l.straight_body;
  sets_counter = l.sets_counter;
  counts_down = l.counts_down;
  jumps_back = l.jumps_back;
}

abbrev Body : ℕ → List ℤ → List ℕ → List ℤ → Type 0
Body count before ws after = (length ws ≡ count) × All (BodyWord after) ws × Grown before after

module _ (rng : Rng) where
  repeat-Body :
      (count : ℕ) (g : Store rng.State)
      → All InWindow g.written
      → Ensures
          (λ ws t. Body count g.written ws t.written)
          (repeat rng count (gen_one_instr rng false none none []))
          g
  unfolding repeat
  repeat-Body zero g win =
      Ensures-pure [] g (refl, tt, record { grown = λ o m. m; in_window = win })
  repeat-Body (suc count) g win = Ensures-bind (gen_one_instr-Straight rng g win []) λ w t q.
      Ensures-bind (repeat-Body count t q.in_window) λ ws t₁ q₁. Ensures-pure (w ∷ ws) t₁ (
        ap suc q₁.0,
        ((q.is_word, Straight-mono t.written t₁.written w q₁.2.grown q.instr), q₁.1),
        record { grown = λ o m. q₁.2.grown o (q.grown o m); in_window = q₁.2.in_window },
      )

branch_offset : (b : ℕ) → b ≤ 5 → Fits 12 (neg_ℕ ((b + 1) * 4)) × IsEven (neg_ℕ ((b + 1) * 4))
branch_offset b h = ground arith

branch_offset-to_word : (b : ℕ) → b ≤ 5 → to_word (neg_ℕ ((b + 1) * 4)) + (b + 1) * 4 ≡ 2 ^ 32
branch_offset-to_word b h = ground arith

module _ (budget count trip : ℕ) (before after : List ℤ) (body : List ℕ) where
  -- The words that the function puts around a body.
  assemble :
      1 ≤ count
      → count ≤ 5
      → count + 3 ≤ budget
      → 2 ≤ trip
      → trip ≤ 8
      → Body count before body after
      → LoopBlock after budget
          (enc_i 0x13 0x0 30 0 (pos trip) ∷ body
            ++ enc_i 0x13 0x0 30 30 (negsuc 0) ∷ enc_b 0x63 0x1 30 0 (neg_ℕ ((count + 1) * 4)) ∷ [])
          (1 + trip * (count + 2))
  assemble hc hc' hb ht ht' b =
      let off = branch_offset count hc' in
      let i =
        imm_gen-enc_i 0x13 0 30 0 (pos trip) (inl refl) (omega arith) (omega arith) (omega arith)
          (omega arith) in
      let d =
        imm_gen-enc_i 0x13 0 30 30 (negsuc 0) (inl refl) (omega arith) (omega arith) (omega arith)
          (omega arith) in
      let j =
        imm_gen-enc_b 1 30 0 (neg_ℕ ((count + 1) * 4)) (omega arith) (omega arith) (omega arith)
          off.0 off.1 in
      record {
        init = enc_i 0x13 0x0 30 0 (pos trip);
        body = body;
        decrement = enc_i 0x13 0x0 30 30 (negsuc 0);
        branch_back = enc_b 0x63 0x1 30 0 (neg_ℕ ((count + 1) * 4));
        trip_count = trip;
        layout = refl;
        fits = rw length-append (omega (arith, b.0));
        body_length = rw b.0 (hc, hc');
        trips = (ht, ht');
        retirements = rw b.0;
        straight_body = b.1;
        sets_counter = (i.0, i.1, i.2, i.3, i.4, i.5 ∙ omega arith);
        counts_down = d;
        jumps_back = (j.0, j.1, j.2, j.3, j.4, rw (j.5, b.0) (branch_offset-to_word count hc'));
      }

module _ (rng : Rng) (g : Store rng.State) (win : All InWindow g.written) where
  loop_block-LoopBlock :
      (budget max_body : ℕ)
      → 1 ≤ max_body
      → max_body ≤ 5
      → max_body + 3 ≤ budget
      → Ensures
          (λ b t. LoopBlock t.written budget b.0 b.1 × Grown g.written t.written)
          (loop_block rng max_body)
          g
  unfolding loop_block
  loop_block-LoopBlock budget max_body h1 h5 hb =
      Ensures-bind (randint_range rng g 1 max_body h1) λ count t q.
        Ensures-bind (randint_range rng t 2 8 (omega arith)) λ trip t₁ q₁.
          Ensures-bind (repeat-Body rng count t₁ (rw (q₁.2 ∙ q.2) win)) λ body t₂ q₂.
            let b : Body count g.written body t₂.written = rw (q₁.2 ∙ q.2) at q₂ in
            Ensures-pure _ t₂ (
              assemble budget count trip g.written t₂.written body q.0 (omega arith) (omega arith)
                  q₁.0 q₁.1 b,
              b.2,
            )

  -- From a set of offsets in the window no exception is raised. With a budget below four words
  -- the result is `None`, with any other it is a loop that fits the budget; the set of offsets
  -- only grows, and stays in the window.
  pub random_loop_block-LoopResult :
      (budget : ℕ)
      → Ensures
          (λ r t. LoopResult budget t.written r × Grown g.written t.written)
          (random_loop_block rng budget)
          g
  unfolding random_loop_block
  random_loop_block-LoopResult budget =
      if_either
        (λ m. Ensures (λ r t. LoopResult budget t.written r × Grown g.written t.written) m g)
        (ltb (min 5 (budget - 3)) 1) _ _
        (λ short. Ensures-pure none g (ground arith, record { grown = λ o m. m; in_window = win }))
        λ long.
          Ensures-bind
            (loop_block-LoopBlock budget (min 5 (budget - 3)) (ground arith) (omega arith)
              (ground arith))
            λ b t q. Ensures-pure (some b) t q
