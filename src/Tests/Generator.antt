-- ===== src/Tests/Generator.antt =====
-- shared/spike/gen_program.py, the generator, with a small generator of numbers in place of
-- Python's.
use risc_v_pipeline_sim.Common.{
  ℕ, ◌+◌, ◌*◌, ◌%◌, ◌/◌, ◌^◌, ◌<◌, ◌≤◌, ◌≡◌, refl, arith, inr, true, false, List, [], ◌∷◌, length,
  ltb, ◌==◌, if◌then◌else◌, negsuc, some, none, to_word,
}
use risc_v_pipeline_sim.Effect.{err, Ensures, index_error, assertion_error}
use risc_v_pipeline_sim.Encoding.{enc_u, enc_i}
use risc_v_pipeline_sim.Encoding.Decode.{imm_gen}
use risc_v_pipeline_sim.Generator.Random.{Rng, Store, sum}
use risc_v_pipeline_sim.Generator.Instr.{
  max_span, candidates, candidates_from, in_any_range, gen_one_instr,
}
use risc_v_pipeline_sim.Generator.Program.{
  build_full_program, random_program, random_loop_block, program_plan, hi_lo, data_offset,
  program_end_bytes, max_valid_end, data_mem_bytes,
}
use risc_v_pipeline_sim.Generator.Base.{base_register, hi_lo_sum, data_address}
use risc_v_pipeline_sim.Generator.Safe.{Straight}
use risc_v_pipeline_sim.Generator.InstrSafe.{Emitted}
use risc_v_pipeline_sim.Generator.Transfers.{TopLevel}
use risc_v_pipeline_sim.Generator.Dispatch.{gen_one_instr-Straight, gen_one_instr-TopLevel}
use risc_v_pipeline_sim.Generator.LoopBlock.{LoopResult, Grown, random_loop_block-LoopResult}
use risc_v_pipeline_sim.Generator.Whole.{SafeProgram, program_plan-SafeProgram}
use risc_v_pipeline_sim.Generator.Outcome.{random_program-error}
use risc_v_pipeline_sim.Generator.Full.{Words, build_full_program-Words}

-- The next state of a linear congruential generator.
abbrev next : ℕ → ℕ
next s = (s * 1103515245 + 12345) % 2147483648

pub counter_below : (n s : ℕ) → 0 < n → s % n < n
counter_below n s h = omega arith

length_pos : (ws : List ℕ) → 0 < sum ws → 0 < length ws
length_pos [] h = elim h [ ]
length_pos (w ∷ ws) h = omega arith

pub counter_weighted : (ws : List ℕ) (s : ℕ) → 0 < sum ws → s % length ws < length ws
counter_weighted ws s h = omega (arith, length_pos ws h)

abbrev pub counter : Rng
counter = record {
  State = ℕ;
  below = λ n s. (s / 8 % n, next s);
  weighted = λ ws s. (s / 8 % length ws, next s);
  chance = λ p s. (ltb (s / 8 % 100) p, next s);
  below-lt = λ n s h. counter_below n (s / 8) h;
  weighted-lt = λ ws s h. counter_weighted ws (s / 8) h;
}

abbrev pub seed : Store ℕ
seed = record { random = 42; written = [] }

hi_lo_700 : hi_lo (data_offset 700) ≡ (1, negsuc 1259)
unfolding hi_lo data_offset
hi_lo_700 = refl

spans : (max_span 10 2 ≡ 7) × (max_span 20 2 ≡ 8) × (max_span 10 9 ≡ 1) × (max_span 10 10 ≡ 0)
unfolding max_span
spans = (refl, refl, refl, refl)

candidates_skip_a_loop : candidates 20 2 ((4, 9) ∷ []) ≡ 1 ∷ 7 ∷ 8 ∷ []
unfolding candidates candidates_from max_span in_any_range
candidates_skip_a_loop = refl

hi_lo_sum_example :
    let p = hi_lo 2836 in
    (imm_gen (enc_u 0x17 31 p.0) + imm_gen (enc_i 0x13 0x0 31 31 p.1)) % 2 ^ 32 ≡ 2836
hi_lo_sum_example = hi_lo_sum 2836 (omega arith)

data_address_example :
    let address = (base_register 700 + to_word (negsuc 27)) % 2 ^ 32 in
    (program_end_bytes 700 ≤ address) × (address + 4 ≤ data_mem_bytes) × (address % 4 ≡ 0)
unfolding program_end_bytes max_valid_end
data_address_example = data_address 700 (negsuc 27) (omega arith) (1, omega arith, refl)

gen_one_instr-Straight_example :
    Ensures (Emitted ℕ [] Straight) (gen_one_instr counter false none none []) seed
gen_one_instr-Straight_example = gen_one_instr-Straight counter seed tt []

gen_one_instr-TopLevel_example :
    Ensures
      (Emitted ℕ [] (TopLevel 20 2 ((4, 9) ∷ [])))
      (gen_one_instr counter true (some 2) (some 20) ((4, 9) ∷ []))
      seed
gen_one_instr-TopLevel_example =
    gen_one_instr-TopLevel counter seed tt 20 2 ((4, 9) ∷ []) (omega arith)

random_loop_block-LoopResult_example :
    Ensures
      (λ r t. LoopResult 10 t.written r × Grown [] t.written)
      (random_loop_block counter 10)
      seed
random_loop_block-LoopResult_example = random_loop_block-LoopResult counter seed tt 10

program_plan-SafeProgram_example :
    Ensures (λ plan t. SafeProgram 12 t.written plan) (program_plan counter 12) seed
unfolding program_end_bytes max_valid_end
program_plan-SafeProgram_example =
    program_plan-SafeProgram counter 12 seed (omega arith) (omega arith)

random_program-error_example :
    random_program counter 1000 seed ≡ err (if 1000 == 0 then index_error else assertion_error)
random_program-error_example = random_program-error counter 1000 seed (inr (omega arith))

build_full_program-Words_example :
    Ensures (λ out t. Words out.0 × (length out.0 ≡ 12 + 32)) (build_full_program counter 12) seed
build_full_program-Words_example =
    build_full_program-Words counter 12 seed (omega arith) (omega arith)
