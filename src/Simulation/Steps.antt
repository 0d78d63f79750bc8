-- ===== src/Simulation/Steps.antt =====
-- One round of run_sim on the words of a program.
use risc_v_pipeline_sim.Common.{
  ℕ, zero, suc, ◌+◌, ◌-◌, ◌*◌, ◌^◌, ◌≤◌, ◌<◌, ◌≡◌, ◌≢◌, refl, sym, ap, ◌∙◌, inl, inr, arith, Bool,
  not, true, false, some, ltb, leb, ◌==◌, List, [], ◌∷◌, get_elem?, length, ℤ, to_word,
  if◌then◌else◌,
}
use risc_v_pipeline_sim.Encoding.Decode.{
  opcode_of, rd_of, funct3_of, rs1_of, rs2_of, imm_gen, imm_i, imm_s, imm_b, imm_j,
}
use risc_v_pipeline_sim.Isa.{decode_b_imm, decode_j_imm}
use risc_v_pipeline_sim.Isa.SameFields.{core_fields, fields-core_fields}
use risc_v_pipeline_sim.Isa.Machine.{Machine, add_32, biased, fetch_instruction}
use risc_v_pipeline_sim.Isa.Execute.{decode_and_execute, branch, take_branch, jump_to}
use risc_v_pipeline_sim.Isa.Run.{running, step, advance}
use risc_v_pipeline_sim.Isa.Access.{word_at_same, fetch_inside}
use risc_v_pipeline_sim.Isa.Effects.{
  Kept, FallsThrough, reg_reg-FallsThrough, reg_imm-FallsThrough, load-FallsThrough,
  store-FallsThrough, execute_branch, execute_jal,
}
use risc_v_pipeline_sim.Generator.Safe.{
  InWindow, Straight, reg_reg, reg_imm, load, store, IsBranchCode,
}
use risc_v_pipeline_sim.Simulation.{Ready, At, Code}

pub get_elem?_inside : (ws : List ℕ) (i w : ℕ) → get_elem? ws i ≡ some w → i < length ws
get_elem?_inside [] i w e = absurd (cc)
get_elem?_inside (x ∷ ws) zero w e = omega arith
get_elem?_inside (x ∷ ws) (suc i) w e = omega (arith, get_elem?_inside ws i w e)

-- A word of zeros has no opcode.
opcode_nonzero : (w : ℕ) → opcode_of w ≢ 0 → w ≢ 0
unfolding opcode_of
opcode_nonzero w h e = h (rw e refl)

imm_gen_load : (w : ℕ) → opcode_of w ≡ 0x03 → imm_gen w ≡ imm_i w
unfolding imm_gen
imm_gen_load w e = rw e refl

imm_gen_store : (w : ℕ) → opcode_of w ≡ 0x23 → imm_gen w ≡ imm_s w
unfolding imm_gen
imm_gen_store w e = rw e refl

imm_gen_branch : (w : ℕ) → opcode_of w ≡ 0x63 → imm_gen w ≡ imm_b w
unfolding imm_gen
imm_gen_branch w e = rw e refl

imm_gen_jal : (w : ℕ) → opcode_of w ≡ 0x6F → imm_gen w ≡ imm_j w
unfolding imm_gen
imm_gen_jal w e = rw e refl

pub taken_branch :
    (w : ℕ) (m : Machine)
    → w < 2 ^ 32
    → opcode_of w ≡ 0x63
    → take_branch (core_fields w) m ≡ some true
    → decode_and_execute w m ≡ some (jump_to (m.pc + imm_gen w) m)
unfolding branch
taken_branch w m h op taken =
    let imm : decode_b_imm w ≡ imm_gen w = (fields-core_fields w h).3 ∙ sym (imm_gen_branch w op) in
    execute_branch w m op ∙ (rw (taken, imm) refl)

-- A transfer to a slot: what is added to the pc behind it is taken off before.
abbrev pub Lands : ℕ → ℕ → ℕ → Type 0
Lands i imm j = add_32 (add_32 (i * 4 + imm) (2 ^ 32 - 4)) 4 ≡ j * 4

-- The program lies inside the memory.
module _ (program : List ℕ) (fits : length program * 4 ≤ 4096) where
  pub step_word :
      (i w : ℕ) (m : Machine)
      → m.pc ≡ i * 4
      → Code program m
      → get_elem? program i ≡ some w
      → opcode_of w ≢ 0
      → step m ≡ advance (decode_and_execute w m)
  unfolding step
  step_word i w m at code e op =
      let small : i < length program = get_elem?_inside program i w e in
      let test : ltb m.pc 4096 ≡ true = ground arith in
      let fetched : fetch_instruction m m.pc ≡ some w =
        ap (fetch_instruction m) at ∙ fetch_inside m (i * 4) (omega arith) ∙ ap some (code i w e) in
      let other : (w == 0) ≡ false = ground (arith, opcode_nonzero w op) in
      rw (test, fetched, other) refl

  Code-Kept : (m m' : Machine) → Kept (length program * 4) m m' → Code program m → Code program m'
  Code-Kept m m' k code i w e =
      let small : i < length program = get_elem?_inside program i w e in
      word_at_same m.memory m'.memory (i * 4) (k.code_kept (i * 4) (omega arith))
        (k.code_kept (i * 4 + 1) (omega arith)) (k.code_kept (i * 4 + 2) (omega arith))
        (k.code_kept (i * 4 + 3) (omega arith))
      ∙ code i w e

  pub Ready-Kept :
      (base : ℕ) (m m' : Machine)
      → Kept (length program * 4) m m'
      → Ready program base m
      → Ready program base m'
  Ready-Kept base m m' k r = record {
    zero_set = k.zero_kept ∙ r.zero_set;
    base_set = k.base_kept ∙ r.base_set;
    code = Code-Kept m m' k r.code;
  }

  -- What the next round finds.
  abbrev pub Next : ℕ → ℕ → Machine → Type 0
  Next base i m =
      (m' : Machine) × (step m ≡ running m')
      × At program base i m'
      × (m'.registers 30 ≡ m.registers 30)

  falls_through :
      (base i w : ℕ) (m : Machine)
      → At program base i m
      → get_elem? program i ≡ some w
      → opcode_of w ≢ 0
      → FallsThrough (length program * 4) w m
      → Next base (i + 1) m
  falls_through base i w m (at, ready) e op (m', d, pc_same, kept) =
      let small : i < length program = get_elem?_inside program i w e in
      let next : add_32 m'.pc 4 ≡ (i + 1) * 4 = omega arith in
      let moved : Machine = record m' { pc = add_32 m'.pc 4 } in
      let r = Ready-Kept base m m' kept ready in
      (
        moved,
        step_word i w m at ready.code e op ∙ ap advance d,
        (next, record { zero_set = r.zero_set; base_set = r.base_set; code = r.code }),
        kept.counter_kept,
      )

  jump_Next :
      (base i j imm w : ℕ) (m : Machine)
      → At program base i m
      → step m ≡ advance (some (jump_to (m.pc + imm) m))
      → Lands i imm j
      → Next base j m
  jump_Next base i j imm w m (at, ready) d lands =
      let moved : Machine = record (jump_to (m.pc + imm) m) {
        pc = add_32 (jump_to (m.pc + imm) m).pc 4;
      } in
      let there : add_32 (add_32 (m.pc + imm) (2 ^ 32 - 4)) 4 ≡ j * 4 =
        ap (λ t. add_32 (add_32 (t + imm) (2 ^ 32 - 4)) 4) at ∙ lands in
      (
        moved,
        d,
        (there, record { zero_set = ready.zero_set; base_set = ready.base_set; code = ready.code }),
        refl,
      )

  -- A branch goes to its target or on to the next word.
  pub branch_step :
      (base i j w : ℕ) (m : Machine) (c : Bool)
      → At program base i m
      → get_elem? program i ≡ some w
      → w < 2 ^ 32
      → opcode_of w ≡ 0x63
      → take_branch (core_fields w) m ≡ some c
      → Lands i (imm_gen w) j
      → Next base (if c then j else i + 1) m
  unfolding branch
  branch_step base i j w m true at e h op taken lands =
      let d =
        step_word i w m at.0 at.1.code e (λ z. absurd (omega arith))
        ∙ ap advance (taken_branch w m h op taken) in
      jump_Next base i j (imm_gen w) w m at d lands
  branch_step base i j w m false at e h op taken lands =
      let small : i < length program = get_elem?_inside program i w e in
      let ran : decode_and_execute w m ≡ some m = execute_branch w m op ∙ (rw taken refl) in
      let d = step_word i w m at.0 at.1.code e (λ z. absurd (omega arith)) ∙ ap advance ran in
      let next : add_32 m.pc 4 ≡ (i + 1) * 4 = omega (arith, at.0) in
      let ready = at.1 in
      (
        record m { pc = add_32 m.pc 4 },
        d,
        (next, record { zero_set = ready.zero_set; base_set = ready.base_set; code = ready.code }),
        refl,
      )

  pub jal_step :
      (base i j w : ℕ) (m : Machine)
      → At program base i m
      → get_elem? program i ≡ some w
      → w < 2 ^ 32
      → opcode_of w ≡ 0x6F
      → rd_of w ≡ 0
      → Lands i (imm_gen w) j
      → Next base j m
  jal_step base i j w m at e h op rd lands =
      let imm : decode_j_imm w ≡ imm_gen w = (fields-core_fields w h).4 ∙ sym (imm_gen_jal w op) in
      let ran : decode_and_execute w m ≡ some (jump_to (m.pc + imm_gen w) m) =
        execute_jal w m op rd ∙ (rw imm refl) in
      let d = step_word i w m at.0 at.1.code e (λ z. absurd (omega arith)) ∙ ap advance ran in
      jump_Next base i j (imm_gen w) w m at d lands

  pub known_branch :
      (w : ℕ) (m : Machine)
      → IsBranchCode (funct3_of w)
      → (c : Bool) × (take_branch (core_fields w) m ≡ some c)
  unfolding take_branch
  known_branch w m (inl e) = (m.registers (rs1_of w) == m.registers (rs2_of w), (rw e refl))
  known_branch w m (inr (inl e)) =
      (not (m.registers (rs1_of w) == m.registers (rs2_of w)), (rw e refl))
  known_branch w m (inr (inr (inl e))) =
      (ltb (biased (m.registers (rs1_of w))) (biased (m.registers (rs2_of w))), (rw e refl))
  known_branch w m (inr (inr (inr e))) =
      (leb (biased (m.registers (rs2_of w))) (biased (m.registers (rs1_of w))), (rw e refl))

  module _ (base : ℕ)
      (window : (o : ℤ)
        → InWindow o
        → (length program * 4 ≤ add_32 base (to_word o))
          × (add_32 base (to_word o) + 4 ≤ 4096)) where
    pub straight_step :
        (written : List ℤ) (i w : ℕ) (m : Machine)
        → At program base i m
        → get_elem? program i ≡ some w
        → w < 2 ^ 32
        → Straight written w
        → Next base (i + 1) m
    straight_step written i w m at e h (reg_reg op rd r1 r2) =
        falls_through base i w m at e (λ z. absurd (omega arith))
          (reg_reg-FallsThrough (length program * 4) w m op rd)
    straight_step written i w m at e h (reg_imm op rd r1) =
        falls_through base i w m at e (λ z. absurd (omega arith))
          (reg_imm-FallsThrough (length program * 4) w m op rd)
    straight_step written i w m at e h (load o among win op f3 rd r1 imm) =
        let (above, room) = window o win in
        let address : add_32 (m.registers (rs1_of w)) (imm_i w) ≡ add_32 base (to_word o) =
          rw (r1, at.1.base_set, ← imm_gen_load w op, imm) refl in
        falls_through base i w m at e (λ z. absurd (omega arith))
          (load-FallsThrough (length program * 4) w m h op f3 rd (omega arith))
    straight_step written i w m at e h (store o among win op f3 r1 r2 imm) =
        let (above, room) = window o win in
        let address : add_32 (m.registers (rs1_of w)) (imm_s w) ≡ add_32 base (to_word o) =
          rw (r1, at.1.base_set, ← imm_gen_store w op, imm) refl in
        falls_through base i w m at e (λ z. absurd (omega arith))
          (store-FallsThrough (length program * 4) w m h op f3 (omega arith) (omega arith))
