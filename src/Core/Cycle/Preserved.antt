-- ===== src/Core/Cycle/Preserved.antt =====
-- The invariant of the core holds again behind a clock edge.
use risc_v_pipeline_sim.Common.{
  ℕ, ◌≡◌, sym, ap, ◌∙◌, subst, inl, inr, Bool-cases, true, false, ◌&&◌, ◌||◌, List, ◌∷◌, All,
}
use risc_v_pipeline_sim.Encoding.Decode.{rs1_of, rs2_of}
use risc_v_pipeline_sim.Core.Pipeline.{IfId, id_ex_next}
use risc_v_pipeline_sim.Core.Pipeline.Forwarded.{fwd_rs-written_back}
use risc_v_pipeline_sim.Core.Predictor.{Training, train, trained}
use risc_v_pipeline_sim.Core.Predictor.Trained.{IsPc}
use risc_v_pipeline_sim.Core.Cycle.{
  fwd_rs1, fwd_rs2, is_control_flow_ex, flush_target, flush, stall, instr_if_final, rs_data_id,
  predictor_next, cycle,
}
use risc_v_pipeline_sim.Core.Cycle.Registers.{Core, instr_at, ram_read, if_id_zero}
use risc_v_pipeline_sim.Core.Cycle.Sequential.{round, arch_of}
use risc_v_pipeline_sim.Core.Cycle.Ex.{Transfers, bubble_quiet, neither}
use risc_v_pipeline_sim.Core.Cycle.Round.{now, flush_target-round}
use risc_v_pipeline_sim.Core.Cycle.Signals.{
  reg_file_write-zero, pc_next-IsPc, if_id_next-Fetched, if_id_next-valid, goes_front, issues,
  waits, training, predictor_next-train, control_flow, target_ex-flush_target,
}
use risc_v_pipeline_sim.Core.Cycle.Invariant.{
  OfProgram, FetchStage, Decoded, Invariant, no_instruction, predicted_before, lowered,
  id_ex_zero_lem,
}

-- The loop buffer passes on what the memory holds, in a cycle in which IF/ID takes it.
abbrev pub Transparent : (imem : ℕ → ℕ) → Core → Type 0
Transparent imem c =
    flush c ≡ false → stall c ≡ false → instr_if_final imem c ≡ instr_at imem c.pc_if

module _ (imem : ℕ → ℕ) (c : Core) (older : IfId) (d1 d2 : ℕ) where
  abbrev here : Core
  here = now imem c older d1 d2

  module _ (f : FetchStage imem here) (d : Decoded imem here older d1 d2)
      (next_ok : older.valid ≡ true → IsPc (round imem (arch_of here)).pc) where
    target-IsPc :
        older.valid ≡ true → IsPc (flush_target here.id_ex_r (fwd_rs1 here) (fwd_rs2 here))
    target-IsPc v =
        subst IsPc
          (sym
            (flush_target-round imem c older d1 d2 v (d.fetched v) (d.operand1 v) (d.operand2 v)))
          (next_ok v)

    flushed-IsPc :
        flush here ≡ true → IsPc (flush_target here.id_ex_r (fwd_rs1 here) (fwd_rs2 here))
    flushed-IsPc q = elim (Bool-cases older.valid) [
      | inl v ↦ target-IsPc v
      | inr v ↦ lowered _ (sym (bubble_quiet older d1 d2 (fwd_rs1 here) (fwd_rs2 here) v) ∙ q)
    ]

    trains :
        is_control_flow_ex here.id_ex_r ≡ true
        → predictor_next here ≡ trained (training here ∷ f.trainings)
    unfolding trained
    trains q = predictor_next-train true here q ∙ ap (train (training here)) f.trained_by

    trainings_ok : is_control_flow_ex here.id_ex_r ≡ true → OfProgram imem (training here)
    trainings_ok q =
        let (v, t) = control_flow older d1 d2 q in
        let g = d.fetched v in
        (
          unfold id_ex_next in g.is_pc,
          unfold id_ex_next in subst Transfers g.word t,
          λ taken. subst IsPc (target_ex-flush_target here taken) (target-IsPc v),
        )

    trained_next :
        (ts : List Training) × (predictor_next here ≡ trained ts) × All (OfProgram imem) ts
    trained_next = elim (Bool-cases (is_control_flow_ex here.id_ex_r)) [
      | inl q ↦ (training here ∷ f.trainings, trains q, (trainings_ok q, f.of_program))
      | inr q ↦ (f.trainings, predictor_next-train false here q ∙ f.trained_by, f.of_program)
    ]

    FetchStage-next : Transparent imem here → FetchStage imem (cycle imem here)
    FetchStage-next same = record {
      zero_set =
          reg_file_write-zero (c.mem_wb_r.valid && c.mem_wb_r.reg_write) c.mem_wb_r.rd_addr _ c.rf
            f.zero_set;
      pc_ok =
          pc_next-IsPc (flush here) (stall here) here flushed-IsPc f.pc_ok
            (λ e. (predicted_before imem here f e).1);
      fetched = λ v. (if_id_next-Fetched imem (flush here) (stall here) here f same v).0;
      follows = λ v. (if_id_next-Fetched imem (flush here) (stall here) here f same v).1;
      trainings = trained_next.0;
      trained_by = trained_next.1;
      of_program = trained_next.2;
    }

    operands :
        flush here ≡ false
        → stall here ≡ false
        → Decoded imem
            (cycle imem here)
            c.if_id_r
            (rs_data_id c (rs1_of c.if_id_r.instr))
            (rs_data_id c (rs2_of c.if_id_r.instr))
    operands quiet free =
        let next = cycle imem here in
        let (op1, op2) =
          fwd_rs-written_back c.rf c.mem_wb_r c.ex_mem_r older d1 d2 (fwd_rs1 here) (fwd_rs2 here)
            (ram_read c.ram c.ex_mem_r.mem_read c.ex_mem_r.alu_result)
            (ram_read next.ram next.ex_mem_r.mem_read next.ex_mem_r.alu_result) c.if_id_r.instr
            f.zero_set free in
        record {
          fetched = f.fetched;
          behind = λ v. if_id_next-valid imem (flush here) (stall here) here quiet free;
          follows = λ v. goes_front imem (flush here) (stall here) here quiet free ∙ f.follows v;
          operand1 = λ v. op1;
          operand2 = λ v. op2;
        }

    -- The invariant holds again.
    pub Invariant-next : Transparent imem here → Invariant imem (cycle imem here)
    unfolding id_ex_next
    Invariant-next same = elim (Bool-cases (flush here || stall here)) [
      | inl q ↦ record {
        fetches = FetchStage-next same;
        older = if_id_zero;
        d1 = 0;
        d2 = 0;
        id_ex = waits (flush here) (stall here) here q ∙ id_ex_zero_lem;
        decoded = no_instruction imem (cycle imem here);
      }
      | inr q ↦
          let (quiet, free) = neither (flush here) (stall here) q in
          record {
            fetches = FetchStage-next same;
            older = c.if_id_r;
            d1 = rs_data_id c (rs1_of c.if_id_r.instr);
            d2 = rs_data_id c (rs2_of c.if_id_r.instr);
            id_ex = issues (flush here) (stall here) here quiet free;
            decoded = operands quiet free;
          }
    ]
