-- ===== src/Simulation/Preamble.antt =====
-- The fixed parts of a program on the simulator: the preamble that clears the registers, the words
-- that set x31, and the epilogue.
use risc_v_pipeline_sim.Common.{
  ℕ, zero, suc, ◌+◌, ◌-◌, ◌*◌, ◌^◌, ◌≤◌, ◌<◌, ◌≡◌, refl, sym, ap, ◌∙◌, inl, inr, arith, bit_and,
  true, false, some, List, [], ◌∷◌, get_elem?, length, pos, ltb, ◌==◌,
}
use risc_v_pipeline_sim.Encoding.{enc_i, enc_u, enc_b}
use risc_v_pipeline_sim.Encoding.RoundTrip.{imm_gen-enc_i, imm_gen-enc_u, imm_gen-enc_b}
use risc_v_pipeline_sim.Encoding.Decode.{opcode_of, rd_of, funct3_of, rs1_of, imm_gen, imm_u}
use risc_v_pipeline_sim.Isa.SameFields.{core_fields, mask_upper}
use risc_v_pipeline_sim.Isa.Machine.{Machine, add_32, set_at, write_reg}
use risc_v_pipeline_sim.Isa.Execute.{take_branch, jump_to}
use risc_v_pipeline_sim.Isa.Run.{running, step, advance, run_sim}
use risc_v_pipeline_sim.Isa.Effects.{execute_addi, execute_auipc}
use risc_v_pipeline_sim.Generator.Program.{hi_lo, data_offset, clear_from, epilogue}
use risc_v_pipeline_sim.Generator.Base.{base_register, hi_lo-IsSplit}
use risc_v_pipeline_sim.Generator.Whole.{base_words}
use risc_v_pipeline_sim.Simulation.{Leads, Leads-here, Leads-weaken, Leads-step, Placed, At}
use risc_v_pipeline_sim.Simulation.Steps.{get_elem?_inside, step_word, taken_branch}

imm_gen_upper : (w : ℕ) → opcode_of w ≡ 0x17 → imm_gen w ≡ imm_u w
unfolding imm_gen
imm_gen_upper w e = rw e refl

-- x31 behind the auipc.
abbrev pub upper_base : ℕ → ℕ
upper_base n = add_32 (31 * 4) (imm_gen (enc_u 0x17 31 (hi_lo (data_offset n)).0))

module _ (program : List ℕ) (fits : length program * 4 ≤ 4096) where
  -- A word that writes one register, not x0, and falls through; x31 has a known value then.
  written_step :
      (base base' i rd v w : ℕ) (m : Machine)
      → At program base i m
      → get_elem? program i ≡ some w
      → step m ≡ advance (some (write_reg rd v m))
      → 0 < rd
      → rd < 32
      → set_at m.registers rd v 31 ≡ base'
      → (m' : Machine) × (step m ≡ running m') × At program base' (i + 1) m'
  unfolding write_reg
  written_step base base' i rd v w m (at, ready) e s pos_rd small h =
      let t0 : (rd == 0) ≡ false = ground arith in
      let t1 : ltb rd 32 ≡ true = ground arith in
      let ran : write_reg rd v m ≡ record m { registers = set_at m.registers rd v } =
        rw (t0, t1) refl in
      let next : add_32 m.pc 4 ≡ (i + 1) * 4 =
        omega (arith, at, fits, get_elem?_inside program i w e) in
      let still : set_at m.registers rd v 0 ≡ 0 = ground (arith, ready.zero_set) in
      (
        record m { registers = set_at m.registers rd v; pc = add_32 m.pc 4 },
        s ∙ ap (λ t. advance (some t)) ran,
        (next, record { zero_set = still; base_set = h; code = ready.code }),
      )

  addi_step :
      (base base' i w : ℕ) (m : Machine)
      → At program base i m
      → get_elem? program i ≡ some w
      → w < 2 ^ 32
      → opcode_of w ≡ 0x13
      → funct3_of w ≡ 0
      → 0 < rd_of w
      → rd_of w < 32
      → set_at m.registers (rd_of w) (add_32 (m.registers (rs1_of w)) (imm_gen w)) 31 ≡ base'
      → (m' : Machine) × (step m ≡ running m') × At program base' (i + 1) m'
  addi_step base base' i w m at e h op f3 pos_rd small v =
      written_step base base' i (rd_of w) (add_32 (m.registers (rs1_of w)) (imm_gen w)) w m at e
        (step_word program fits i w m at.0 at.1.code e (λ z. absurd (omega arith))
          ∙ ap advance (execute_addi w m h op f3))
        pos_rd small v

  -- The words that clear the registers.
  pub clear_lead :
      (first count i : ℕ) (m : Machine)
      → 0 < first
      → first + count ≤ 32
      → Placed program i (clear_from first count)
      → At program 0 i m
      → Leads (At program 0 (i + count)) count m
  unfolding clear_from
  clear_lead first zero i m h h' p at = let e : i + 0 ≡ i = omega arith in rw e (Leads-here m at)
  clear_lead first (suc count) i m h h' p at =
      let w = enc_i 0x13 0x0 first 0 (pos 0) in
      let (w32, op, rd, f3, r1, imm) =
        imm_gen-enc_i 0x13 0 first 0 (pos 0) (inl refl) (omega arith) (omega arith) (omega arith)
          (omega arith) in
      let cleared : set_at m.registers (rd_of w) (add_32 (m.registers (rs1_of w)) (imm_gen w)) 31
          ≡ 0 =
        rw (rd, r1, imm, at.1.zero_set) (ground (arith, at.1.base_set)) in
      let (m', s, at') = addi_step 0 0 i w m at p.0 w32 op f3 (omega arith) (omega arith) cleared in
      let e : i + suc count ≡ (i + 1) + count = omega arith in
      rw e (
        Leads-weaken (1 + count) (suc count) m (omega arith) (
          Leads-step count m m' s
            (clear_lead (first + 1) count (i + 1) m' (omega arith) (omega arith) p.1 at')))

  pub auipc_step :
      (n : ℕ) (m : Machine)
      → n ≤ 975
      → get_elem? program 31 ≡ some (enc_u 0x17 31 (hi_lo (data_offset n)).0)
      → At program 0 31 m
      → (m' : Machine) × (step m ≡ running m') × At program (upper_base n) 32 m'
  auipc_step n m h e at =
      let w = enc_u 0x17 31 (hi_lo (data_offset n)).0 in
      let split = hi_lo-IsSplit (data_offset n) (unfold data_offset in omega arith) in
      let (w32, op, rd, imm) =
        imm_gen-enc_u 0x17 31 (hi_lo (data_offset n)).0 (inr refl) (omega arith) in
      let upper : bit_and w 0xFFFFF000 ≡ imm_gen w = mask_upper w w32 ∙ sym (imm_gen_upper w op) in
      let v : add_32 m.pc (bit_and w 0xFFFFF000) ≡ add_32 (31 * 4) (imm_gen w) =
        (λ k. add_32 (at.0 k) (upper k)) in
      written_step 0 (add_32 (31 * 4) (imm_gen w)) 31 31 (add_32 (31 * 4) (imm_gen w)) w m at e
        (step_word program fits 31 w m at.0 at.1.code e (λ z. absurd (omega arith))
          ∙ ap advance (execute_auipc w m op ∙ (λ k. some (write_reg (rd k) (v k) m))))
        (omega arith) (omega arith) refl

  -- With room for the addi, x31 holds the base of the data behind the two words.
  pub base_lead :
      (n : ℕ) (m : Machine)
      → n ≤ 975
      → ltb 1 n ≡ true
      → Placed program 31 (base_words n)
      → At program 0 31 m
      → Leads (At program (base_register n) 33) 2 m
  base_lead n m h long p at =
      let u = enc_u 0x17 31 (hi_lo (data_offset n)).0 in
      let w = enc_i 0x13 0x0 31 31 (hi_lo (data_offset n)).1 in
      let split = hi_lo-IsSplit (data_offset n) (unfold data_offset in omega arith) in
      let placed : Placed program 31 (u ∷ w ∷ []) = rw long at p in
      let (m1, s1, at1) = auipc_step n m h placed.0 at in
      let (w32, op, rd, f3, r1, imm) =
        imm_gen-enc_i 0x13 0 31 31 (hi_lo (data_offset n)).1 (inl refl) (omega arith) (omega arith)
          (omega arith) split.0 in
      let sum : set_at m1.registers (rd_of w) (add_32 (m1.registers (rs1_of w)) (imm_gen w)) 31
          ≡ base_register n =
        rw (rd, r1, at1.1.base_set) (omega arith) in
      let (m2, s2, at2) =
        addi_step (add_32 (31 * 4) (imm_gen u)) (base_register n) 32 w m1 at1 placed.1.0 w32 op f3
          (omega arith) (omega arith) sum in
      Leads-weaken (1 + (1 + 0)) 2 m (omega arith)
        (Leads-step (1 + 0) m m1 s1 (Leads-step 0 m1 m2 s2 (Leads-here m2 at2)))

  -- The epilogue branches to itself, and changes nothing.
  pub step-epilogue :
      (base i : ℕ) (m : Machine)
      → get_elem? program i ≡ some epilogue
      → At program base i m
      → step m ≡ running m
  unfolding epilogue take_branch
  step-epilogue base i m e at =
      let w = enc_b 0x63 0x0 0 0 (pos 0) in
      let (w32, op, f3, r1, r2, imm) =
        imm_gen-enc_b 0 0 0 (pos 0) (omega arith) (omega arith) (omega arith) (omega arith)
          (omega arith) in
      let taken : take_branch (core_fields w) m ≡ some true = rw (f3, r1, r2) (ground arith) in
      let same : add_32 (add_32 (m.pc + imm_gen w) (2 ^ 32 - 4)) 4 ≡ m.pc =
        omega (arith, imm, at.0, get_elem?_inside program i w e) in
      let moved : advance (some (jump_to (m.pc + imm_gen w) m)) ≡ running m =
        (λ k. running (record m { pc = same k })) in
      step_word program fits i w m at.0 at.1.code e (λ z. absurd (omega arith))
      ∙ ap advance (taken_branch w m w32 op taken)
      ∙ moved

  pub run_sim-epilogue :
      (base i : ℕ) (m : Machine)
      → get_elem? program i ≡ some epilogue
      → At program base i m
      → (rounds : ℕ) → run_sim rounds m ≡ running m
  unfolding run_sim
  run_sim-epilogue base i m e at zero = refl
  run_sim-epilogue base i m e at (suc rounds) =
      rw (step-epilogue base i m e at) (run_sim-epilogue base i m e at rounds)
