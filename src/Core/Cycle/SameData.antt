-- ===== src/Core/Cycle/SameData.antt =====
-- Loads and stores in the data memory of the core and in the memory of src/main.cpp.
use risc_v_pipeline_sim.Common.{
  ℕ, ◌+◌, ◌*◌, ◌/◌, ◌%◌, ◌^◌, ◌≤◌, ◌<◌, ◌≡◌, refl, sym, ap, ◌∙◌, inl, inr, ◌⊎◌, arith, Bool,
  Bool-cases, true, false, ltb, ◌==◌, if◌then◌else◌,
}
use risc_v_pipeline_sim.Encoding.Decode.{imm_gen}
use risc_v_pipeline_sim.Isa.Access.{
  word_at, with_word, with_word_below, with_word_above, word_at-with_word, word_at_same,
}
use risc_v_pipeline_sim.Core.Datapath.{control_of, alu_result_ex, wb_write_data, execute}
use risc_v_pipeline_sim.Core.Cycle.Registers.{ram_write}

-- A store leaves the words beside its own.
pub apart :
    (mem : ℕ → ℕ) (b v a : ℕ)
    → (a + 4 ≤ b) ⊎ (b + 4 ≤ a)
    → word_at (with_word mem b v) a ≡ word_at mem a
apart mem b v a (inl below) =
    word_at_same mem (with_word mem b v) a (with_word_below mem b v a (omega arith))
      (with_word_below mem b v (a + 1) (omega arith))
      (with_word_below mem b v (a + 2) (omega arith))
      (with_word_below mem b v (a + 3) (omega arith))
apart mem b v a (inr above) =
    word_at_same mem (with_word mem b v) a (with_word_above mem b v a (omega arith))
      (with_word_above mem b v (a + 1) (omega arith))
      (with_word_above mem b v (a + 2) (omega arith))
      (with_word_above mem b v (a + 3) (omega arith))

sides : (k b : ℕ) → (k == b) ≡ false → (4 * k + 4 ≤ b * 4) ⊎ (b * 4 + 4 ≤ 4 * k)
sides k b h = elim (Bool-cases (ltb k b)) [
  | inl e ↦ inl (ground (arith, e))
  | inr e ↦ inr (ground (arith, e, h))
]

-- The word of a store in both memories.
pub stored :
    (ram mem : ℕ → ℕ) (addr v k : ℕ)
    → v < 2 ^ 32
    → addr + 4 ≤ 4096
    → ram k ≡ word_at mem (4 * k)
    → ram_write true addr v ram k ≡ word_at (with_word mem (addr / 4 * 4) v) (4 * k)
unfolding ram_write
stored ram mem addr v k small inside same =
    let room : ltb (addr / 4) 1024 ≡ true = ground arith in
    elim (Bool-cases (k == addr / 4)) [
      | inl here ↦
          let at : addr / 4 * 4 ≡ 4 * k = ground (arith, here) in
          rw (room, here)
            (sym (
              ap (word_at (with_word mem (addr / 4 * 4) v)) (sym at)
              ∙ word_at-with_word mem (addr / 4 * 4) v small))
      | inr other ↦
          rw (room, other)
            (same ∙ sym (apart mem (addr / 4 * 4) v (4 * k) (sides k (addr / 4) other)))
    ]

-- Only a load looks at what is read.
pub execute-read :
    (w pc x y : ℕ) (read read' : ℕ → ℕ)
    → let result = alu_result_ex (control_of w) pc (imm_gen w) x y in
      ((control_of w).mem_read ≡ true → read result ≡ read' result)
      → execute w pc x y read ≡ execute w pc x y read'
unfolding execute
execute-read w pc x y read read' h =
    let c = control_of w in
    let result = alu_result_ex c pc (imm_gen w) x y in
    let same : (if c.mem_read then read result else 0) ≡ (if c.mem_read then read' result else 0) =
      loaded c.mem_read (read result) (read' result) h in
    λ i. record (execute w pc x y read) {
      write_data =
          wb_write_data c.lui c.jump c.mem_to_reg (imm_gen w) ((pc + 4) % 2 ^ 32) (same i) result;
    }
  where
    loaded :
        (b : Bool) (v v' : ℕ) → (b ≡ true → v ≡ v') → (if b then v else 0) ≡ (if b then v' else 0)
    loaded true v v' h = h refl
    loaded false v v' h = refl
