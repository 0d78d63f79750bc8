-- ===== src/Generator/Program.antt =====
-- `random_loop_block`, `random_program`, the preamble and `build_full_program` of gen_program.py.
use risc_v_pipeline_sim.Common.{
  ℕ, zero, suc, ◌+◌, ◌-◌, ◌*◌, ◌/◌, ◌^◌, true, false, List, [], ◌∷◌, ◌++◌, map, Option, none, some,
  ℤ, pos, negsuc, sub_ℕ, neg_ℕ, ltb, ◌==◌, if◌then◌else◌, min, length, take, drop, replicate,
  bit_and,
}
use risc_v_pipeline_sim.Effect.{
  Result, ok, err, index_error, assertion_error, out_of_fuel, raise, lift, pure, ◌>>=◌,
}
use risc_v_pipeline_sim.Encoding.{enc_i, enc_b, enc_u}
use risc_v_pipeline_sim.Generator.Random.{clear_written, Rng, Gen, randint, draw}
use risc_v_pipeline_sim.Generator.Instr.{load_store_window, gen_one_instr}

abbrev pub data_mem_bytes : ℕ
data_mem_bytes = 4096

-- `LOOP_BODY_WORDS` and `LOOP_TRIP_COUNTS`, each a lowest and a highest number, and
-- `LOOP_BLOCK_PROB` in hundredths.
abbrev pub loop_body_words : ℕ × ℕ
loop_body_words = (1, 5)

abbrev pub loop_trip_counts : ℕ × ℕ
loop_trip_counts = (2, 8)

abbrev pub loop_block_prob : ℕ
loop_block_prob = 15

-- The split of the data offset into the immediates of auipc and addi.
unfoldable pub hi_lo : ℕ → ℕ × ℤ
hi_lo data_offset =
    let lo12 = bit_and data_offset 0xFFF in
    let hi20 = data_offset / 2 ^ 12 in
    if bit_and lo12 0x800 == 0 then (hi20, pos lo12) else (hi20 + 1, sub_ℕ lo12 0x1000)

unfoldable pub program_end_bytes : ℕ → ℕ
program_end_bytes n = (31 + n + 1) * 4

abbrev pub auipc_pc : ℕ
auipc_pc = 31 * 4

unfoldable pub data_offset : ℕ → ℕ
unfolding program_end_bytes
data_offset n = program_end_bytes n - auipc_pc + load_store_window

unfoldable pub max_valid_end : ℕ
max_valid_end = data_mem_bytes - 4 - 2 * load_store_window

abbrev continue : {A B : Type 0} → Result A → (A → Result B) → Result B
continue (ok a) f = f a
continue (err e) f = err e

-- A slot of `instrs`, `None` until it is filled.
abbrev pub Slots : Type 0
Slots = List (Option ℕ)

-- `instrs[i] = w`
unfoldable pub set_slot : ℕ → ℕ → Slots → Result Slots
set_slot i w xs =
    if ltb i (length xs) then ok (take i xs ++ some w ∷ drop (i + 1) xs) else err index_error

-- `instrs[i:i + len(ws)] = ws`
unfoldable pub set_slice : ℕ → List ℕ → Slots → Slots
set_slice i ws xs = take i xs ++ map some ws ++ drop (i + length ws) xs

-- What the first pass decides: the slots, the loop blocks as ranges of slots, the slots left for
-- the second pass, and the count of retirements.
pub record Plan : Type 0 where
  pub instrs : Slots
  pub expected_retire : ℕ
  pub loop_ranges : List (ℕ × ℕ)
  pub single_slots : List ℕ

-- One round of the first pass at slot `i`: a loop block, or one slot for the second pass.
unfoldable pub place_block : ℕ → Plan → Option (List ℕ × ℕ) → ℕ × Plan
place_block i plan (some (words, retire_count)) = (
  i + length words,
  record plan {
    instrs = set_slice i words plan.instrs;
    expected_retire = plan.expected_retire + retire_count;
    loop_ranges = plan.loop_ranges ++ (i, i + length words) ∷ [];
  },
)
place_block i plan none = (
  i + 1,
  record plan {
    expected_retire = plan.expected_retire + 1;
    single_slots = plan.single_slots ++ i ∷ [];
  },
)

-- `instrs` with the instructions that set x31, before the first pass.
unfoldable pub base_slots : ℕ → Result Slots
base_slots n =
    let (hi20, lo12) = hi_lo (data_offset n) in
    continue (set_slot 0 (enc_u 0x17 31 hi20) (replicate n none))
      λ xs. if ltb 1 n then set_slot 1 (enc_i 0x13 0x0 31 31 lo12) xs else ok xs

unfoldable pub start : ℕ → ℕ
start n = if ltb 1 n then 2 else 1

-- `beq x0, x0, 0`
unfoldable pub epilogue : ℕ
epilogue = enc_b 0x63 0x0 0 0 (pos 0)

-- `[… for r in range(first, first + count)]`
unfoldable pub clear_from : ℕ → ℕ → List ℕ
clear_from first zero = []
clear_from first (suc count) = enc_i 0x13 0x0 first 0 (pos 0) ∷ clear_from (first + 1) count

unfoldable pub clear_all_regs_preamble : List ℕ
unfolding clear_from
clear_all_regs_preamble = clear_from 1 31

module _ (rng : Rng) where
  -- `[m for _ in range(count)]`
  unfoldable pub repeat : ℕ → Gen rng ℕ → Gen rng (List ℕ)
  repeat zero m = pure []
  repeat (suc count) m = do w ← m; ws ← repeat count m; pure (w ∷ ws)

  unfoldable pub loop_block : ℕ → Gen rng (List ℕ × ℕ)
  loop_block max_body = do
    body_len ← randint rng loop_body_words.0 max_body
    trip_count ← randint rng loop_trip_counts.0 loop_trip_counts.1
    body ← repeat body_len (gen_one_instr rng false none none [])
    let init = enc_i 0x13 0x0 30 0 (pos trip_count)
    let decrement = enc_i 0x13 0x0 30 30 (negsuc 0)
    let branch_back = enc_b 0x63 0x1 30 0 (neg_ℕ ((body_len + 1) * 4))
    pure (init ∷ body ++ decrement ∷ branch_back ∷ [], 1 + trip_count * (body_len + 2))

  -- A budget below four words gives no loop.
  unfoldable pub random_loop_block : ℕ → Gen rng (Option (List ℕ × ℕ))
  random_loop_block budget_words =
      let max_body = min loop_body_words.1 (budget_words - 3) in
      if ltb max_body loop_body_words.0
      then pure none
      else do block ← loop_block max_body; pure (some block)

  unfoldable pub plan_step : ℕ → ℕ → Plan → Gen rng (ℕ × Plan)
  plan_step n i plan = do
    is_loop ← draw rng (rng.chance loop_block_prob)
    block ← if is_loop then random_loop_block (n - i) else pure none
    pure (place_block i plan block)

  -- `while i < n`; each round moves `i` by one slot at least, so `n` rounds are enough.
  unfoldable pub pass_one : ℕ → ℕ → ℕ → Plan → Gen rng Plan
  pass_one zero n i plan = if ltb i n then raise out_of_fuel else pure plan
  pass_one (suc fuel) n i plan =
      if ltb i n
      then (plan_step n i plan >>= λ (i', plan'). pass_one fuel n i' plan')
      else pure plan

  unfoldable pub pass_two : ℕ → List (ℕ × ℕ) → List ℕ → Slots → Gen rng Slots
  pass_two n ranges [] xs = pure xs
  pass_two n ranges (i ∷ slots) xs = do
    w ← gen_one_instr rng true (some i) (some n) ranges
    xs' ← lift (set_slot i w xs)
    pass_two n ranges slots xs'

  -- `random_program` with all that it decides.
  unfoldable pub program_plan : ℕ → Gen rng Plan
  program_plan n = if ltb max_valid_end (program_end_bytes n) then raise assertion_error else do
    slots ← lift (base_slots n)
    cleared ← clear_written rng
    plan ←
        pass_one n n (start n)
          (record { instrs = slots; expected_retire = 0; loop_ranges = []; single_slots = [] })
    instrs ← pass_two n plan.loop_ranges plan.single_slots plan.instrs
    pure (record plan { instrs = instrs })

  unfoldable pub random_program : ℕ → Gen rng (Slots × ℕ)
  random_program n = do plan ← program_plan n; pure (plan.instrs, plan.expected_retire)

  unfoldable pub build_full_program : ℕ → Gen rng (Slots × ℕ)
  build_full_program n = do
    (program, program_retire) ← random_program n
    pure
        (map some clear_all_regs_preamble ++ program ++ some epilogue ∷ [], 31 + program_retire + 1)
