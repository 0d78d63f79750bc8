-- ===== src/Isa/Effects.antt =====
-- What decode_and_execute does with the instructions that fall through in a generated program.
use risc_v_pipeline_sim.Common.{
  ℕ, ◌+◌, ◌^◌, ◌≤◌, ◌<◌, ◌≡◌, refl, inl, inr, Bool-cases, arith, bit_and, true, false, Option, none,
  some, ltb, leb, ◌==◌,
}
use risc_v_pipeline_sim.Encoding.Decode.{
  opcode_of, rd_of, funct3_of, rs1_of, rs2_of, imm_gen, imm_i, imm_s,
}
use risc_v_pipeline_sim.Isa.{decode_j_imm}
use risc_v_pipeline_sim.Isa.SameFields.{core_fields, fields_masks, fields-core_fields}
use risc_v_pipeline_sim.Isa.Machine.{Machine, add_32, write_reg, execute_alu}
use risc_v_pipeline_sim.Isa.Execute.{
  op_imm, op_reg, write_result, store, load, load_word, take_branch, branch, jump_to,
  decode_and_execute,
}
use risc_v_pipeline_sim.Isa.Access.{
  word_at, fetch_inside, with_word, write_word_inside, with_word_below,
}

-- What generated instructions leave alone: x0, the counter x30, the base register x31, and the memory
-- below a bound.
pub record Kept (bound : ℕ) (m m' : Machine) : Type 0 where
  pub zero_kept : m'.registers 0 ≡ m.registers 0
  pub counter_kept : m'.registers 30 ≡ m.registers 30
  pub base_kept : m'.registers 31 ≡ m.registers 31
  pub code_kept : (a : ℕ) → a < bound → m'.memory a ≡ m.memory a

module _ (bound : ℕ) where
  write_reg-Kept :
      (rd v : ℕ) (m : Machine)
      → rd < 30
      → ((write_reg rd v m).pc ≡ m.pc) × Kept bound m (write_reg rd v m)
  unfolding write_reg
  write_reg-Kept rd v m h = elim (Bool-cases (rd == 0)) [
    | inl zero ↦ rw zero (
      refl,
      record { zero_kept = refl; counter_kept = refl; base_kept = refl; code_kept = λ a h. refl },
    )
    | inr other ↦
        let small : ltb rd 32 ≡ true = ground arith in
        rw (other, small)
          (
            refl,
            record {
              zero_kept = ground arith;
              counter_kept = ground arith;
              base_kept = ground arith;
              code_kept = λ a h. refl;
            },
          )
  ]

  write_result-Kept :
      (rd : ℕ) (o : Option ℕ) (m : Machine)
      → rd < 30
      → ((write_result rd o m).pc ≡ m.pc) × Kept bound m (write_result rd o m)
  unfolding write_result
  write_result-Kept rd none m h = (
    refl,
    record { zero_kept = refl; counter_kept = refl; base_kept = refl; code_kept = λ a h. refl },
  )
  write_result-Kept rd (some v) m h = write_reg-Kept rd v m h

  -- An instruction that falls through.
  abbrev pub FallsThrough : ℕ → Machine → Type 0
  FallsThrough w m =
      (m' : Machine) × (decode_and_execute w m ≡ some m') × (m'.pc ≡ m.pc) × Kept bound m m'

  pub reg_reg-FallsThrough :
      (w : ℕ) (m : Machine) → opcode_of w ≡ 0x33 → rd_of w < 30 → FallsThrough w m
  unfolding decode_and_execute
  reg_reg-FallsThrough w m op h =
      let e : decode_and_execute w m ≡ some (write_result (rd_of w) (op_reg (core_fields w) m) m) =
        rw (fields_masks w, op) refl in
      let (pc_kept, kept) = write_result-Kept (rd_of w) (op_reg (core_fields w) m) m h in
      (_, e, pc_kept, kept)

  pub reg_imm-FallsThrough :
      (w : ℕ) (m : Machine) → opcode_of w ≡ 0x13 → rd_of w < 30 → FallsThrough w m
  unfolding decode_and_execute
  reg_imm-FallsThrough w m op h =
      let e : decode_and_execute w m
          ≡ some (write_result (rd_of w) (op_imm w (core_fields w) m) m) =
        rw (fields_masks w, op) refl in
      let (pc_kept, kept) = write_result-Kept (rd_of w) (op_imm w (core_fields w) m) m h in
      (_, e, pc_kept, kept)

  pub load-FallsThrough :
      (w : ℕ) (m : Machine)
      → w < 2 ^ 32
      → opcode_of w ≡ 0x03
      → funct3_of w ≡ 2
      → rd_of w < 30
      → add_32 (m.registers (rs1_of w)) (imm_i w) + 4 ≤ 4096
      → FallsThrough w m
  unfolding decode_and_execute load load_word
  load-FallsThrough w m hw op f3 h room =
      let address = add_32 (m.registers (rs1_of w)) (imm_i w) in
      let imm = (fields-core_fields w hw).1 in
      let test : leb 4096 (add_32 address 3) ≡ false = ground arith in
      let e : decode_and_execute w m ≡ some (write_reg (rd_of w) (word_at m.memory address) m) =
        rw (fields_masks w, op, imm, test, f3, fetch_inside m address room) refl in
      let (pc_kept, kept) = write_reg-Kept (rd_of w) (word_at m.memory address) m h in
      (_, e, pc_kept, kept)

  pub store-FallsThrough :
      (w : ℕ) (m : Machine)
      → w < 2 ^ 32
      → opcode_of w ≡ 0x23
      → funct3_of w ≡ 2
      → add_32 (m.registers (rs1_of w)) (imm_s w) + 4 ≤ 4096
      → bound ≤ add_32 (m.registers (rs1_of w)) (imm_s w)
      → FallsThrough w m
  unfolding decode_and_execute store
  store-FallsThrough w m hw op f3 room above =
      let address = add_32 (m.registers (rs1_of w)) (imm_s w) in
      let value = m.registers (rs2_of w) in
      let imm = (fields-core_fields w hw).2 in
      let e : decode_and_execute w m
          ≡ some (record m { memory = with_word m.memory address value }) =
        rw (fields_masks w, op, imm, f3) (write_word_inside address value m room) in
      (
        _,
        e,
        refl,
        record {
          zero_kept = refl;
          counter_kept = refl;
          base_kept = refl;
          code_kept = λ a h. with_word_below m.memory address value a (omega arith);
        },
      )

imm_gen_i : (w : ℕ) → opcode_of w ≡ 0x13 → imm_gen w ≡ imm_i w
unfolding imm_gen
imm_gen_i w e = rw e refl

-- addi
pub execute_addi :
    (w : ℕ) (m : Machine)
    → w < 2 ^ 32
    → opcode_of w ≡ 0x13
    → funct3_of w ≡ 0
    → decode_and_execute w m
      ≡ some (write_reg (rd_of w) (add_32 (m.registers (rs1_of w)) (imm_gen w)) m)
unfolding decode_and_execute op_imm write_result execute_alu
execute_addi w m h op f3 =
    rw (fields_masks w, op, f3, (fields-core_fields w h).1, imm_gen_i w op) refl

-- A branch, with its condition.
pub execute_branch :
    (w : ℕ) (m : Machine)
    → opcode_of w ≡ 0x63
    → decode_and_execute w m ≡ some (branch w (take_branch (core_fields w) m) m)
unfolding decode_and_execute
execute_branch w m op = rw (fields_masks w, op) refl

pub execute_jal :
    (w : ℕ) (m : Machine)
    → opcode_of w ≡ 0x6F
    → rd_of w ≡ 0
    → decode_and_execute w m ≡ some (jump_to (m.pc + decode_j_imm w) m)
unfolding decode_and_execute write_reg
execute_jal w m op rd = rw (fields_masks w, op, rd) refl

pub execute_auipc :
    (w : ℕ) (m : Machine)
    → opcode_of w ≡ 0x17
    → decode_and_execute w m ≡ some (write_reg (rd_of w) (add_32 m.pc (bit_and w 0xFFFFF000)) m)
unfolding decode_and_execute
execute_auipc w m op = rw (fields_masks w, op) refl
