-- ===== src/Generator/Targets.antt =====
-- The candidates for the target of a branch or a jump.
use risc_v_pipeline_sim.Common.{ℕ, zero, suc, ◌+◌, ◌≤◌, ◌<◌, arith, List, All, if_either}
use risc_v_pipeline_sim.Generator.Instr.{in_any_range, max_span, candidates_from, candidates}
use risc_v_pipeline_sim.Generator.Safe.{SafeTarget}

max_span_bounds :
    (total place : ℕ)
    → place < total
    → (max_span total place ≤ 8) × (place + max_span total place ≤ total)
unfolding max_span
max_span_bounds total place h = ground arith

module _ (total place : ℕ) (ranges : List (ℕ × ℕ)) where
  candidates_from-SafeTarget :
      (first count : ℕ)
      → 1 ≤ first
      → first + count ≤ 9
      → place + first + count ≤ total + 1
      → All (SafeTarget total place ranges) (candidates_from first count place ranges)
  unfolding candidates_from
  candidates_from-SafeTarget first zero h1 h8 ht = tt
  candidates_from-SafeTarget first (suc count) h1 h8 ht =
      let rest =
        candidates_from-SafeTarget (first + 1) count (omega arith) (omega arith) (omega arith) in
      if_either (All (SafeTarget total place ranges)) (in_any_range (place + first) ranges) _ _
        (λ _. rest)
        λ out.
          (record { forward = h1; near = omega arith; inside = omega arith; no_loop = out }, rest)

  -- Every candidate lies one to eight words forward, not past the epilogue, and in no loop block.
  pub candidates-SafeTarget :
      place < total → All (SafeTarget total place ranges) (candidates total place ranges)
  unfolding candidates
  candidates-SafeTarget h =
      candidates_from-SafeTarget 1 (max_span total place) (omega arith)
        (omega (arith, max_span_bounds total place h))
        (omega (arith, max_span_bounds total place h))
