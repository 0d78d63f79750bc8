-- ===== src/Generator/Whole.antt =====
-- `random_program` and `build_full_program` as a whole.
use risc_v_pipeline_sim.Generator.Draws.{clear_written_lem}
use risc_v_pipeline_sim.Common.{
  ℕ, zero, suc, ◌-◌, ◌≤◌, ◌<◌, ◌≡◌, refl, sym, ◌∙◌, arith, true, false, List, [], ◌∷◌, ◌++◌, map,
  Option, none, some, ℤ, All, length, length-append, replicate, ltb, append-nil, if◌then◌else◌,
}
use risc_v_pipeline_sim.Effect.{ok, Ensures, Ensures-bind, Ensures-pure, Ensures-lift}
use risc_v_pipeline_sim.Encoding.{enc_u, enc_i}
use risc_v_pipeline_sim.Generator.Random.{Rng, Store}
use risc_v_pipeline_sim.Generator.Program.{
  Slots, Plan, hi_lo, data_offset, program_end_bytes, max_valid_end, set_slot, base_slots, start,
  program_plan,
}
use risc_v_pipeline_sim.Generator.Safe.{InWindow}
use risc_v_pipeline_sim.Generator.Pieces.{
  Piece, slots_of, ranges_from, retire_of, length-slots_of, set_slot-next,
}
use risc_v_pipeline_sim.Generator.PassOne.{Planned, pass_one-Planned}
use risc_v_pipeline_sim.Generator.PassTwo.{SafeFrom, pass_two-Filled}

-- The instructions that set x31: auipc, and addi where there is room for it.
abbrev pub base_words : ℕ → List ℕ
base_words n =
    let p = hi_lo (data_offset n) in
    enc_u 0x17 31 p.0 ∷ (if ltb 1 n then enc_i 0x13 0x0 31 31 p.1 ∷ [] else [])

base_slots-base_words :
    (n : ℕ)
    → 0 < n
    → (base_slots n ≡ ok (map some (base_words n) ++ replicate (n - start n) none))
      × (length (map {B = Option ℕ} some (base_words n)) ≡ start n)
      × (start n ≤ n)
unfolding base_slots start
base_slots-base_words zero h = elim h [ ]
base_slots-base_words (suc zero) h = unfold set_slot in (refl, refl, omega arith)
base_slots-base_words (suc (suc n)) h =
    let p = hi_lo (data_offset (suc (suc n))) in
    let auipc = enc_u 0x17 31 p.0 in
    let addi = enc_i 0x13 0x0 31 31 p.1 in
    let room : ltb 1 (suc (suc n)) ≡ true = ground arith in
    let rest : suc (suc n) - 2 ≡ n = omega arith in
    rw
      (
        room,
        rest,
        set_slot-next 0 auipc [] (replicate (suc n) none) none refl,
        set_slot-next 1 addi (some auipc ∷ []) (replicate n none) none refl,
      )
      (refl, refl, omega arith)

-- A whole program of `n` slots: the base register's instructions, and behind them pieces that are
-- safe each in its place. The ranges are those of its loops, and the count of retirements is one
-- for each single slot and that of each loop.
pub record SafeProgram (n : ℕ) (written : List ℤ) (plan : Plan) : Type 0 where
  pub pieces : List Piece
  pub instrs : plan.instrs ≡ map some (base_words n) ++ slots_of pieces
  pub length_instrs : length plan.instrs ≡ n
  pub ranges : plan.loop_ranges ≡ ranges_from (start n) pieces
  pub retire : plan.expected_retire ≡ retire_of pieces
  pub safe : SafeFrom n plan.loop_ranges written (start n) pieces
  pub in_window : All InWindow written

module _ (rng : Rng) (n : ℕ) (g : Store rng.State) where
  -- For at least one slot and a program short enough for the assertion, program_plan raises nothing
  -- and ends for every generator of random bits, whatever was generated before; its slots are the
  -- base register's instructions followed by pieces, each a single slot whose word falls through
  -- safely or branches forward to a safe target outside every loop, or a bounded loop block; ranges
  -- and retirement count are those of the pieces.
  pub program_plan-SafeProgram :
      0 < n
      → program_end_bytes n ≤ max_valid_end
      → Ensures (λ plan t. SafeProgram n t.written plan) (program_plan rng n) g
  unfolding program_plan
  program_plan-SafeProgram h0 h =
      let base = base_slots-base_words n h0 in
      let short : ltb max_valid_end (program_end_bytes n) ≡ false = ground arith in
      let front = map some (base_words n) in
      let none_left : n - n ≡ 0 = omega arith in
      rw (short, base.0)
        (Ensures-bind {Q = λ xs t. (xs ≡ front ++ replicate (n - start n) none) × (t ≡ g)}
          (Ensures-lift _ g (refl, refl))
          λ xs t q.
            rw (q.0, q.1)
              (Ensures-bind (clear_written_lem rng g) λ u t₀ z.
                Ensures-bind
                  (pass_one-Planned rng n (start n) front base.1 n t₀ (start n) _ (omega arith)
                    (rw z tt) (planned_start front t₀.written base.2))
                  λ plan t₁ q₁.
                    let p = q₁.0 in
                    rw (p.ranges, p.singles, p.instrs, none_left, append-nil)
                      (Ensures-bind {P = λ plan t. SafeProgram n t.written plan}
                        (pass_two-Filled rng n (ranges_from (start n) p.pieces) p.pieces t₁
                          (start n) front base.1 p.reached q₁.1.in_window p.planned)
                        λ ys t₂ f. Ensures-pure _ t₂ (record {
                          pieces = f.pieces;
                          instrs = f.instrs;
                          length_instrs =
                              rw (f.instrs, length-append)
                                (omega (
                                  arith,
                                  base.1,
                                  p.reached,
                                  length-slots_of f.pieces,
                                  f.same_total,
                                ));
                          ranges = sym f.same_ranges;
                          retire = p.retire ∙ sym f.same_retire;
                          safe = f.safe;
                          in_window = f.grown.in_window;
                        }))))
    where
      planned_start :
          (front : Slots) (written : List ℤ)
          → start n ≤ n
          → Planned n (start n) front written (start n) (record {
            instrs = front ++ replicate (n - start n) none;
            expected_retire = 0;
            loop_ranges = [];
            single_slots = [];
          })
      planned_start front written hs = record {
        pieces = [];
        reached = omega arith;
        inside = hs;
        instrs = rw append-nil;
        ranges = refl;
        singles = refl;
        retire = refl;
        planned = tt;
      }
