-- ===== src/Generator/Full.antt =====
-- `build_full_program`: the preamble that clears the registers, the random program, the epilogue.
use risc_v_pipeline_sim.Common.{
  ℕ, zero, suc, ◌+◌, ◌≤◌, ◌<◌, ◌≡◌, refl, ◌∙◌, inl, arith, List, map, some, pos, All, length,
  get_elem?,
}
use risc_v_pipeline_sim.Effect.{Ensures, Ensures-weaken}
use risc_v_pipeline_sim.Encoding.Decode.{opcode_of, rd_of, funct3_of, rs1_of, imm_gen}
use risc_v_pipeline_sim.Encoding.{enc_i}
use risc_v_pipeline_sim.Encoding.RoundTrip.{imm_gen-enc_i}
use risc_v_pipeline_sim.Generator.Random.{Rng, Store}
use risc_v_pipeline_sim.Generator.Program.{
  Slots, build_full_program, clear_from, clear_all_regs_preamble,
}
use risc_v_pipeline_sim.Generator.Pieces.{length-map-some}
use risc_v_pipeline_sim.Generator.Outcome.{longest}
use risc_v_pipeline_sim.Generator.Image.{IsWord, image, build_full_program-Imaged}

-- Slots that are all filled, with 32-bit words.
pub record Words (slots : Slots) : Type 0 where
  pub words : List ℕ
  pub filled : slots ≡ map some words
  pub are_words : All IsWord words

clear_from-get :
    (first count r : ℕ)
    → r < count
    → get_elem? (clear_from first count) r ≡ some (enc_i 0x13 0x0 (first + r) 0 (pos 0))
unfolding clear_from
clear_from-get first zero r h = absurd (omega arith)
clear_from-get first (suc count) zero h = let e : first + 0 ≡ first = omega arith in rw e
clear_from-get first (suc count) (suc r) h =
    let e : first + 1 + r ≡ first + suc r = omega arith in
    clear_from-get (first + 1) count r (omega arith) ∙ rw e

-- The preamble has 31 words, and the word at r, below 31, adds zero to x0 and writes the result to
-- the register r + 1.
pub preamble_clears :
    (r : ℕ)
    → r < 31
    → (length clear_all_regs_preamble ≡ 31)
      × ((w : ℕ) × (get_elem? clear_all_regs_preamble r ≡ some w)
          × (opcode_of w ≡ 0x13)
          × (funct3_of w ≡ 0)
          × (rd_of w ≡ r + 1)
          × (rs1_of w ≡ 0)
          × (imm_gen w ≡ 0))
unfolding clear_all_regs_preamble
preamble_clears r h =
    let f =
      imm_gen-enc_i 0x13 0 (1 + r) 0 (pos 0) (inl refl) (omega arith) (omega arith) (omega arith)
        (omega arith) in
    (
      refl,
      (
        enc_i 0x13 0x0 (1 + r) 0 (pos 0),
        clear_from-get 1 31 r h,
        f.1,
        f.3,
        f.2 ∙ omega arith,
        f.4,
        f.5,
      ),
    )

module _ (rng : Rng) (n : ℕ) (g : Store rng.State) where
  -- For 1 to 975 slots, `build_full_program` raises nothing and returns n + 32 slots: every one is
  -- filled, with a 32-bit word.
  pub build_full_program-Words :
      0 < n
      → n ≤ longest
      → Ensures (λ out t. Words out.0 × (length out.0 ≡ n + 32)) (build_full_program rng n) g
  build_full_program-Words h0 h =
      Ensures-weaken
        (λ out t q. (
          record { words = image n q.pieces; filled = q.filled; are_words = q.are_words },
          rw q.filled (length-map-some (image n q.pieces) ∙ q.size),
        ))
        (build_full_program-Imaged rng n g h0 h)
