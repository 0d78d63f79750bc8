-- ===== src/Generator/InstrSafe.antt =====
-- What `_gen_one_instr` returns in each of its categories, and that it does not raise.
use risc_v_pipeline_sim.Common.{
  ℕ, ◌^◌, ◌≤◌, ◌<◌, ◌≡◌, refl, ◌∙◌, inl, inr, arith, List, ℤ, pos, negsuc, sub_ℕ, All, Fits, length,
}
use risc_v_pipeline_sim.Effect.{Ensures, Ensures-bind, Ensures-pure, Ensures-weaken}
use risc_v_pipeline_sim.Encoding.RoundTrip.{
  fields-enc_r, fields-enc_shift, imm_gen-enc_i, imm_gen-enc_s,
}
use risc_v_pipeline_sim.Generator.Random.{Rng, Store, add_offset}
use risc_v_pipeline_sim.Generator.Draws.{
  randint_range, randint_signed_range, randrange_range, choice-All, get_written_lem,
  add_written_lem,
}
use risc_v_pipeline_sim.Generator.Instr.{
  r_type, i_arith_table, i_shift_table, reg, gen_r, gen_i_arith, gen_i_shift, gen_load, gen_store,
}
use risc_v_pipeline_sim.Generator.Safe.{
  Among, InWindow, Straight, reg_reg, reg_imm, load, store, Among-add_self, Among-add, All-add,
  InWindow-Fits, Among-All, All-Among,
}

-- A new word of the stream, in the state that the draws have left: `P` is what the instruction is,
-- and the offsets of `before` are still there, all of them in the window.
pub record Emitted (State : Type 0) (before : List ℤ) (P : List ℤ → ℕ → Type 0) (w : ℕ)
    (t : Store State) : Type 0 where
  pub is_word : w < 2 ^ 32
  pub instr : P t.written w
  pub grown : (o : ℤ) → Among o before → Among o t.written
  pub in_window : All InWindow t.written

signed-Fits : (z : ℤ) → (k : ℕ) × (k ≤ 4095) × (z ≡ sub_ℕ k 2048) → Fits 11 z
signed-Fits (pos n) h = ground arith
signed-Fits (negsuc n) h = ground arith

-- Draws that have not written: what held of the old set holds of the new one.
pub unwritten :
    {State : Type 0} {before : List ℤ} {P : List ℤ → ℕ → Type 0} {w : ℕ} {t : Store State}
    → t.written ≡ before
    → All InWindow before
    → w < 2 ^ 32
    → P before w
    → Emitted State before P w t
unwritten e win h p = record {
  is_word = h;
  instr = rw e p;
  grown = λ o m. rw e m;
  in_window = rw e win;
}

module _ (rng : Rng) (before : List ℤ) where
  pub reg_lem :
      (g : Store rng.State)
      → g.written ≡ before
      → Ensures (λ k t. (k < 30) × (t.written ≡ before)) (reg rng) g
  unfolding reg
  reg_lem g e =
      Ensures-weaken (λ k t q. (omega arith, q.2 ∙ e)) (randint_range rng g 0 29 (omega arith))

module _ (rng : Rng) (before : List ℤ) (win : All InWindow before) where
  pub gen_r-Straight :
      (g : Store rng.State)
      → g.written ≡ before
      → Ensures (Emitted rng.State before Straight) (gen_r rng) g
  unfolding gen_r
  gen_r-Straight g e =
      Ensures-bind
        (choice-All rng g (λ (e : ℕ × ℕ × ℕ). (e.0 ≡ 0x33) × (e.1 < 8) × (e.2 < 128)) r_type
          (omega arith) (omega arith))
        λ (op, f3, f7) t q. Ensures-bind (reg_lem rng before t (q.1 ∙ e)) λ rd t₁ q₁.
          Ensures-bind (reg_lem rng before t₁ q₁.1) λ rs1 t₂ q₂.
            Ensures-bind (reg_lem rng before t₂ q₂.1) λ rs2 t₃ q₃.
              let f =
                fields-enc_r op f3 f7 rd rs1 rs2 (omega arith) q.0.1 q.0.2 (omega arith)
                  (omega arith) (omega arith) in
              Ensures-pure _ t₃ (
                unwritten q₃.1 win f.0
                  (reg_reg (f.1 ∙ q.0.0) (rw f.2 q₁.0) (rw f.4 q₂.0) (rw f.5 q₃.0)))

  pub gen_i_arith-Straight :
      (g : Store rng.State)
      → g.written ≡ before
      → Ensures (Emitted rng.State before Straight) (gen_i_arith rng) g
  unfolding gen_i_arith
  gen_i_arith-Straight g e =
      Ensures-bind
        (choice-All rng g (λ (e : ℕ × ℕ). (e.0 ≡ 0x13) × (e.1 < 8)) i_arith_table (omega arith)
          (omega arith))
        λ (op, f3) t q. Ensures-bind (reg_lem rng before t (q.1 ∙ e)) λ rd t₁ q₁.
          Ensures-bind (reg_lem rng before t₁ q₁.1) λ rs1 t₂ q₂.
            Ensures-bind (randint_signed_range rng t₂ 2048 2047) λ imm t₃ q₃.
              let f =
                imm_gen-enc_i op f3 rd rs1 imm (inl q.0.0) q.0.1 (omega arith) (omega arith)
                  (signed-Fits imm q₃.0) in
              Ensures-pure _ t₃ (
                unwritten (q₃.1 ∙ q₂.1) win f.0 (reg_imm (f.1 ∙ q.0.0) (rw f.2 q₁.0) (rw f.4 q₂.0)))

  pub gen_i_shift-Straight :
      (g : Store rng.State)
      → g.written ≡ before
      → Ensures (Emitted rng.State before Straight) (gen_i_shift rng) g
  unfolding gen_i_shift
  gen_i_shift-Straight g e =
      Ensures-bind
        (choice-All rng g (λ (e : ℕ × ℕ × ℕ). (e.0 ≡ 0x13) × (e.1 < 8) × (e.2 < 128)) i_shift_table
          (omega arith) (omega arith))
        λ (op, f3, f7) t q. Ensures-bind (reg_lem rng before t (q.1 ∙ e)) λ rd t₁ q₁.
          Ensures-bind (reg_lem rng before t₁ q₁.1) λ rs1 t₂ q₂.
            Ensures-bind (randint_range rng t₂ 0 31 (omega arith)) λ shamt t₃ q₃.
              let f =
                fields-enc_shift op f3 f7 rd rs1 shamt (omega arith) q.0.1 q.0.2 (omega arith)
                  (omega arith) (omega arith) in
              Ensures-pure _ t₃ (
                unwritten (q₃.2 ∙ q₂.1) win f.0 (reg_imm (f.1 ∙ q.0.0) (rw f.2 q₁.0) (rw f.4 q₂.0)))

  pub gen_load-Straight :
      (g : Store rng.State)
      → g.written ≡ before
      → 0 < length before
      → Ensures (Emitted rng.State before Straight) (gen_load rng) g
  unfolding gen_load
  gen_load-Straight g e some_written = Ensures-bind (get_written_lem rng g) λ os t q.
      Ensures-bind
        (choice-All rng t (λ o. Among o before) os (rw (q.0 ∙ e) some_written)
          (rw (q.0 ∙ e) (All-Among _ before (λ o h. h))))
        λ o t₁ q₁. Ensures-bind (reg_lem rng before t₁ (q₁.1 ∙ q.1 ∙ e)) λ rd t₂ q₂.
          let here = Among-All InWindow before o win q₁.0 in
          let f =
            imm_gen-enc_i 0x03 2 rd 31 o (inr (inl refl)) (omega arith) (omega arith) (omega arith)
              (InWindow-Fits o here) in
          Ensures-pure _ t₂
            (unwritten q₂.1 win f.0 (load o q₁.0 here f.1 f.3 (rw f.2 q₂.0) f.4 f.5))

  pub gen_store-Straight :
      (g : Store rng.State)
      → g.written ≡ before
      → Ensures (Emitted rng.State before Straight) (gen_store rng) g
  unfolding gen_store
  gen_store-Straight g e = Ensures-bind (randrange_range rng g 32 4) λ o t q.
      Ensures-bind (add_written_lem rng t o) λ _ t₁ q₁.
        Ensures-bind (reg_lem rng (add_offset o before) t₁ (q₁ ∙ rw (q.1 ∙ e))) λ rs2 t₂ q₂.
          let here : InWindow o = (q.0.0, omega (arith, q.0.1), q.0.2) in
          let f =
            imm_gen-enc_s 2 31 rs2 o (omega arith) (omega arith) (omega arith)
              (InWindow-Fits o here) in
          let new : Among o t₂.written = rw q₂.1 (Among-add_self o before) in
          Ensures-pure _ t₂ (record {
            is_word = f.0;
            instr = store o new here f.1 f.2 f.3 (rw f.4 q₂.0) f.5;
            grown = λ p m. rw q₂.1 (Among-add o p before m);
            in_window = rw q₂.1 (All-add o before here win);
          })
