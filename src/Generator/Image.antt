-- ===== src/Generator/Image.antt =====
-- What `build_full_program` returns, as the list of its words.
use risc_v_pipeline_sim.Common.{
  ℕ, zero, suc, ◌+◌, ◌-◌, ◌^◌, ◌≤◌, ◌<◌, ◌≡◌, refl, ap, inl, inr, arith, List, [], ◌∷◌, ◌++◌, map,
  some, ℤ, pos, All, All-append, length, length-append, ltb, if_either, false,
}
use mathlib.Core.List.{map-append}
use risc_v_pipeline_sim.Effect.{Ensures, Ensures-bind, Ensures-pure}
use risc_v_pipeline_sim.Encoding.{enc_i}
use risc_v_pipeline_sim.Encoding.RoundTrip.{imm_gen-enc_u, imm_gen-enc_i, imm_gen-enc_b}
use risc_v_pipeline_sim.Generator.Random.{Rng, Store}
use risc_v_pipeline_sim.Generator.Instr.{in_any_range}
use risc_v_pipeline_sim.Generator.Program.{
  Slots, Plan, hi_lo, data_offset, start, random_program, build_full_program, clear_from,
  clear_all_regs_preamble, epilogue,
}
use risc_v_pipeline_sim.Generator.Base.{hi_lo-IsSplit}
use risc_v_pipeline_sim.Generator.LoopBlock.{LoopBlock, BodyWord}
use risc_v_pipeline_sim.Generator.Pieces.{
  Piece, single, loop, slots_of, words_of, total, ranges_from, retire_of, length-slots_of,
  length-map-some,
}
use risc_v_pipeline_sim.Generator.PassTwo.{SafeFrom}
use risc_v_pipeline_sim.Generator.Whole.{base_words, SafeProgram, program_plan-SafeProgram}
use risc_v_pipeline_sim.Generator.Outcome.{longest, short_enough}

abbrev pub IsWord : ℕ → Type 0
IsWord w = w < 2 ^ 32

body-IsWord : (written : List ℤ) (ws : List ℕ) → All (BodyWord written) ws → All IsWord ws
body-IsWord written [] h = tt
body-IsWord written (w ∷ ws) h = (h.0.0, body-IsWord written ws h.1)

LoopBlock-IsWord :
    (written : List ℤ) (budget retire : ℕ) (ws : List ℕ)
    → LoopBlock written budget ws retire
    → All IsWord ws
LoopBlock-IsWord written budget retire ws l = rw l.layout (
  l.sets_counter.0,
  All-append IsWord l.body (l.decrement ∷ l.branch_back ∷ [])
      (body-IsWord written l.body l.straight_body) (l.counts_down.0, (l.jumps_back.0, tt)),
)

pub words_of-filled :
    (n : ℕ) (ranges : List (ℕ × ℕ)) (written : List ℤ) (i : ℕ) (ps : List Piece)
    → SafeFrom n ranges written i ps
    → slots_of ps ≡ map some (words_of ps)
words_of-filled n ranges written i [] h = refl
words_of-filled n ranges written i (single o ∷ ps) h =
    rw (h.0.1, words_of-filled n ranges written (i + 1) ps h.1) refl
words_of-filled n ranges written i (loop ws retire ∷ ps) h =
    rw (map-append, words_of-filled n ranges written (i + length ws) ps h.1) refl

pub words_of-IsWord :
    (n : ℕ) (ranges : List (ℕ × ℕ)) (written : List ℤ) (i : ℕ) (ps : List Piece)
    → SafeFrom n ranges written i ps
    → All IsWord (words_of ps)
words_of-IsWord n ranges written i [] h = tt
words_of-IsWord n ranges written i (single o ∷ ps) h =
    rw h.0.1 (h.0.2, words_of-IsWord n ranges written (i + 1) ps h.1)
words_of-IsWord n ranges written i (loop ws retire ∷ ps) h =
    All-append IsWord ws (words_of ps) (LoopBlock-IsWord written (n - i) retire ws h.0)
      (words_of-IsWord n ranges written (i + length ws) ps h.1)

clear_word : (x : ℕ) → x < 32 → enc_i 0x13 0x0 x 0 (pos 0) < 2 ^ 32
clear_word x h =
    (imm_gen-enc_i 0x13 0 x 0 (pos 0) (inl refl) (omega arith) h (omega arith) (omega arith)).0

clear_from-IsWord : (first count : ℕ) → first + count ≤ 32 → All IsWord (clear_from first count)
unfolding clear_from
clear_from-IsWord first zero h = tt
clear_from-IsWord first (suc count) h =
    (clear_word first (omega arith), clear_from-IsWord (first + 1) count (omega arith))

clear_IsWord : All IsWord clear_all_regs_preamble
unfolding clear_all_regs_preamble
clear_IsWord = clear_from-IsWord 1 31 (omega arith)

base_words-IsWord : (n : ℕ) → n ≤ longest → All IsWord (base_words n)
base_words-IsWord n h =
    let split = hi_lo-IsSplit (data_offset n) (unfold data_offset in omega arith) in
    let p = hi_lo (data_offset n) in
    (
      (imm_gen-enc_u 0x17 31 p.0 (inr refl) (omega arith)).0,
      if_either (All IsWord) (ltb 1 n) _ _
          (λ _. (
            (imm_gen-enc_i 0x13 0 31 31 p.1 (inl refl) (omega arith) (omega arith) (omega arith)
                split.0).0,
            tt,
          ))
          (λ _. tt),
    )

epilogue_IsWord : epilogue < 2 ^ 32
unfolding epilogue
epilogue_IsWord =
    (imm_gen-enc_b 0 0 0 (pos 0) (omega arith) (omega arith) (omega arith) (omega arith)
      (omega arith)).0

-- The words for the pieces of a random program.
abbrev pub image : ℕ → List Piece → List ℕ
image n ps = clear_all_regs_preamble ++ (base_words n ++ words_of ps) ++ epilogue ∷ []

-- A slot that no range of a list has, those of the pieces do not have either.
abbrev pub Covers : List (ℕ × ℕ) → ℕ → List Piece → Type 0
Covers ranges i ps =
    (j : ℕ) → in_any_range j ranges ≡ false → in_any_range j (ranges_from i ps) ≡ false

pub length_clear : length clear_all_regs_preamble ≡ 31
unfolding clear_all_regs_preamble clear_from
length_clear = refl

pub length-base_words : (n : ℕ) → length (base_words n) ≡ start n
unfolding start
length-base_words n = ground arith

-- The slots and the count of retirements are those of pieces that are safe in their places.
pub record Imaged (n : ℕ) (written : List ℤ) (out : Slots × ℕ) : Type 0 where
  pub pieces : List Piece
  pub ranges : List (ℕ × ℕ)
  pub filled : out.0 ≡ map some (image n pieces)
  pub retire : out.1 ≡ 32 + retire_of pieces
  pub are_words : All IsWord (image n pieces)
  pub size : length (image n pieces) ≡ n + 32
  pub ends : start n + total pieces ≡ n
  pub safe : SafeFrom n ranges written (start n) pieces
  pub covers : Covers ranges (start n) pieces

SafeProgram-Imaged :
    (n : ℕ) (written : List ℤ) (plan : Plan)
    → n ≤ longest
    → SafeProgram n written plan
    → Imaged n written (
      map some clear_all_regs_preamble ++ plan.instrs ++ some epilogue ∷ [],
      31 + plan.expected_retire + 1,
    )
SafeProgram-Imaged n written plan h p =
    let ps = p.pieces in
    let whole : start n + total ps ≡ n = omega (
      arith,
      ap length p.instrs,
      p.length_instrs,
      length-append (map some (base_words n)) (slots_of ps),
      length-map-some (base_words n),
      length-base_words n,
      length-slots_of ps,
    ) in
    let filled = words_of-filled n plan.loop_ranges written (start n) ps p.safe in
    let words = length-map-some (words_of ps) in
    let front = clear_all_regs_preamble ++ (base_words n ++ words_of ps) in
    record {
      pieces = ps;
      ranges = plan.loop_ranges;
      filled = rw (p.instrs, filled, map-append, map-append, map-append) refl;
      retire = omega (arith, p.retire);
      are_words =
          All-append IsWord front (epilogue ∷ [])
            (All-append IsWord clear_all_regs_preamble (base_words n ++ words_of ps) clear_IsWord (
              All-append IsWord (base_words n) (words_of ps) (base_words-IsWord n h)
                (words_of-IsWord n plan.loop_ranges written (start n) ps p.safe)))
            (epilogue_IsWord, tt);
      size = omega (
        arith,
        length-append front (epilogue ∷ []),
        length-append clear_all_regs_preamble (base_words n ++ words_of ps),
        length-append (base_words n) (words_of ps),
        length_clear,
        length-base_words n,
        whole,
        words,
        ap length filled,
        length-slots_of ps,
      );
      ends = whole;
      safe = p.safe;
      covers = λ j e. rw (← p.ranges) e;
    }

pub build_full_program-Imaged :
    (rng : Rng) (n : ℕ) (g : Store rng.State)
    → 0 < n
    → n ≤ longest
    → Ensures (λ out t. Imaged n t.written out) (build_full_program rng n) g
unfolding build_full_program random_program
build_full_program-Imaged rng n g h0 h =
    Ensures-bind
      {Q = λ out t.
        Imaged n t.written
          (map some clear_all_regs_preamble ++ out.0 ++ some epilogue ∷ [], 31 + out.1 + 1)}
      (Ensures-bind (program_plan-SafeProgram rng n g h0 (short_enough n h))
        λ plan t p. Ensures-pure _ t (SafeProgram-Imaged n t.written plan h p))
      λ out t q. Ensures-pure _ t q
