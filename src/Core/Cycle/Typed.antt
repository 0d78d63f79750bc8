-- ===== src/Core/Cycle/Typed.antt =====
-- The values in a state of src/main.cpp have the range of their types, and keep it.
use risc_v_pipeline_sim.Common.{
  ℕ, ◌+◌, ◌*◌, ◌/◌, ◌%◌, ◌^◌, ◌<◌, arith, if_either, Bool, true, false, ◌==◌, ◌||◌, if◌then◌else◌,
}
use risc_v_pipeline_sim.Common.BitBounds.{or_below}
use risc_v_pipeline_sim.Encoding.Decode.{opcode_of, imm_gen, rs1_of, rs2_of}
use risc_v_pipeline_sim.Isa.Machine.{Machine}
use risc_v_pipeline_sim.Isa.Access.{word_at, with_word}
use risc_v_pipeline_sim.Core.Alu.Bounds.{alu_result_bound}
use risc_v_pipeline_sim.Core.Datapath.{
  control_of, alu_result_ex, actual_target_ex, wb_write_data, execute, reg_file_write,
}
use risc_v_pipeline_sim.Core.Datapath.Round.{Sized, core_round}

-- Registers and pc of 32 bits, a memory of bytes.
pub record Typed (m : Machine) : Type 0 where
  pub sized : Sized m
  pub bytes : (j : ℕ) → m.memory j < 2 ^ 8

pub word_at_bound : (mem : ℕ → ℕ) (a : ℕ) → ((j : ℕ) → mem j < 2 ^ 8) → word_at mem a < 2 ^ 32
word_at_bound mem a h =
    let h0 = h a in
    let h1 = h (a + 1) in
    let h2 = h (a + 2) in
    let h3 = h (a + 3) in
    or_below 32 _ _
      (or_below 32 _ _ (or_below 32 (mem a) (mem (a + 1) * 2 ^ 8) (omega arith) (omega arith))
        (omega arith))
      (omega arith)

with_word_bytes_bound :
    (mem : ℕ → ℕ) (a v : ℕ) → ((j : ℕ) → mem j < 2 ^ 8) → (j : ℕ) → with_word mem a v j < 2 ^ 8
with_word_bytes_bound mem a v h j = let old = h j in ground arith

stored_bytes :
    (b : Bool) (mem : ℕ → ℕ) (a v : ℕ)
    → ((j : ℕ) → mem j < 2 ^ 8)
    → (j : ℕ) → (if b then with_word mem a v else mem) j < 2 ^ 8
stored_bytes true mem a v h j = with_word_bytes_bound mem a v h j
stored_bytes false mem a v h j = h j

imm_gen_bound : (w : ℕ) → imm_gen w < 2 ^ 32
unfolding imm_gen
imm_gen_bound w =
    let Small : ℕ → Type 0 = λ v. v < 2 ^ 32 in
    let o = opcode_of w in
    if_either Small (o == 0x13 || o == 0x03 || o == 0x67) _ _ (λ y. omega arith)
      λ n.
        if_either Small (o == 0x23) _ _ (λ y. omega arith)
          λ n.
            if_either Small (o == 0x63) _ _ (λ y. omega arith)
              λ n.
                if_either Small (o == 0x6F) _ _ (λ y. omega arith)
                  λ n.
                    if_either Small (o == 0x37 || o == 0x17) _ _ (λ y. omega arith)
                      (λ n. omega arith)

reg_file_write_bound :
    (w : Bool) (rd v : ℕ) (rf : ℕ → ℕ)
    → v < 2 ^ 32
    → ((r : ℕ) → rf r < 2 ^ 32)
    → (r : ℕ) → reg_file_write w rd v rf r < 2 ^ 32
unfolding reg_file_write
reg_file_write_bound w rd v rf hv h r = let old = h r in ground arith

picked : (b : Bool) (x y : ℕ) → x < 2 ^ 32 → y < 2 ^ 32 → (if b then x else y) < 2 ^ 32
picked true x y hx hy = hx
picked false x y hx hy = hy

execute_bound :
    (w pc x y : ℕ) (read : ℕ → ℕ)
    → pc < 2 ^ 32
    → x < 2 ^ 32
    → y < 2 ^ 32
    → ((a : ℕ) → read a < 2 ^ 32)
    → let r = execute w pc x y read in (r.write_data < 2 ^ 32) × (r.next_pc < 2 ^ 32)
unfolding execute wb_write_data actual_target_ex alu_result_ex
execute_bound w pc x y read hp hx hy hr =
    let c = control_of w in
    let imm = imm_gen_bound w in
    let a = picked c.auipc pc x hp hx in
    let b = picked c.alu_src (imm_gen w) y imm hy in
    let result =
      alu_result_bound c.alu_control (if c.auipc then pc else x)
        (if c.alu_src then imm_gen w else y) a b in
    let next : (pc + 4) % 2 ^ 32 < 2 ^ 32 = omega arith in
    (
      picked c.lui _ _ imm (
          picked c.jump _ _ next
            (picked c.mem_to_reg _ _ (picked c.mem_read _ _ (hr _) (omega arith)) result)),
      picked _ _ _ (picked c.jalr _ _ (omega (arith, result)) (omega arith)) next,
    )

pub core_round-Typed : (w : ℕ) (m : Machine) → Typed m → Typed (core_round w m)
core_round-Typed w m t =
    let x =
      execute w m.pc (m.registers (rs1_of w)) (m.registers (rs2_of w))
        (λ a. word_at m.memory (a / 4 * 4)) in
    let regs = t.sized.registers_sized in
    let (value, next) =
      execute_bound w m.pc (m.registers (rs1_of w)) (m.registers (rs2_of w))
        (λ a. word_at m.memory (a / 4 * 4)) t.sized.pc_sized (regs (rs1_of w)) (regs (rs2_of w))
        (λ a. word_at_bound m.memory (a / 4 * 4) t.bytes) in
    record {
      sized = record {
        registers_sized = reg_file_write_bound _ _ _ m.registers value regs;
        pc_sized = next;
      };
      bytes = stored_bytes x.mem_write m.memory (x.address / 4 * 4) x.store_data t.bytes;
    }
