-- ===== src/Generator/Outcome.antt =====
-- When `random_program` raises, and what `build_full_program` returns.
use risc_v_pipeline_sim.Common.{
  ℕ, zero, suc, ◌-◌, ◌/◌, ◌≤◌, ◌<◌, ◌≡◌, refl, ◌⊎◌, inl, inr, inr, arith, true, ltb, ◌==◌,
  if◌then◌else◌,
}
use risc_v_pipeline_sim.Effect.{err, index_error, assertion_error, ◌>>=◌, raise, lift}
use risc_v_pipeline_sim.Generator.Random.{Rng, Store}
use risc_v_pipeline_sim.Generator.Program.{
  program_end_bytes, max_valid_end, set_slot, base_slots, program_plan, random_program,
}

-- The longest program that the message of the assertion advises.
abbrev pub longest : ℕ
longest = 975

-- `n` is small enough exactly when it is at most `max_valid_end // 4 - 32`.
module _ (n : ℕ) where
  pub short_enough : n ≤ longest → program_end_bytes n ≤ max_valid_end
  unfolding program_end_bytes max_valid_end
  short_enough h = omega arith

  too_long : longest < n → max_valid_end < program_end_bytes n
  unfolding program_end_bytes max_valid_end
  too_long h = omega arith

longest-max_valid_end : longest ≡ max_valid_end / 4 - 32
unfolding max_valid_end
longest-max_valid_end = refl

-- With no slots the first assignment raises an IndexError, and with more than 975 the assertion
-- fails, whatever the random draws.
pub random_program-error :
    (rng : Rng) (n : ℕ) (g : Store rng.State)
    → (n ≡ 0) ⊎ (longest < n)
    → random_program rng n g ≡ err (if n == 0 then index_error else assertion_error)
unfolding random_program program_plan ◌>>=◌ raise
random_program-error rng zero g h =
    unfold program_end_bytes max_valid_end base_slots set_slot lift in refl
random_program-error rng (suc n) g (inl e) = absurd (omega arith)
random_program-error rng (suc n) g (inr h) =
    let long : ltb max_valid_end (program_end_bytes (suc n)) ≡ true =
      ground (arith, too_long (suc n) h) in
    rw long (ground arith)
