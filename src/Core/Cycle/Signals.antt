-- ===== src/Core/Cycle/Signals.antt =====
-- What the registers of the core take at a clock edge, for each value of flush and stall.
use risc_v_pipeline_sim.Common.{
  ℕ, ◌≡◌, refl, sym, ap, subst, inl, inr, arith, Bool, Bool-cases, true, false, ◌&&◌, ◌||◌,
  if◌then◌else◌,
}
use risc_v_pipeline_sim.Encoding.Decode.{rs1_of, rs2_of}
use risc_v_pipeline_sim.Core.Datapath.{reg_file_write, control_of}
use risc_v_pipeline_sim.Core.Pipeline.{IfId, id_ex_next}
use risc_v_pipeline_sim.Core.Predictor.{Training, predict_taken, predict_target, train}
use risc_v_pipeline_sim.Core.Predictor.Trained.{IsPc}
use risc_v_pipeline_sim.Core.Cycle.{
  fwd_rs1, fwd_rs2, taken_ex, target_ex, is_control_flow_ex, flush_target, instr_if_final, pc_next,
  if_id_next, rs_data_id, id_ex_step, predictor_next,
}
use risc_v_pipeline_sim.Core.Cycle.Registers.{Core, instr_at, id_ex_zero}
use risc_v_pipeline_sim.Core.Cycle.Ex.{Transfers, Fetched, predicted}
use risc_v_pipeline_sim.Core.Cycle.Invariant.{FetchStage, predicted_before, lowered}

pub reg_file_write-zero :
    (w : Bool) (rd v : ℕ) (rf : ℕ → ℕ) → rf 0 ≡ 0 → reg_file_write w rd v rf 0 ≡ 0
unfolding reg_file_write
reg_file_write-zero w rd v rf z = ground arith

pub pc_next-IsPc :
    (fl st : Bool) (c : Core)
    → (fl ≡ true → IsPc (flush_target c.id_ex_r (fwd_rs1 c) (fwd_rs2 c)))
    → IsPc c.pc_if
    → (predict_taken c.predictor c.pc_if ≡ true → IsPc (predict_target c.predictor c.pc_if))
    → IsPc (pc_next fl st c)
unfolding pc_next
pc_next-IsPc true st c h p q = h refl
pc_next-IsPc false true c h p q = p
pc_next-IsPc false false c h p q = elim (Bool-cases (predict_taken c.predictor c.pc_if)) [
  | inl e ↦ rw e (q e)
  | inr e ↦ rw e (omega arith)
]

-- What IF/ID takes, and where the fetch stage goes on.
pub if_id_next-Fetched :
    (imem : ℕ → ℕ) (fl st : Bool) (c : Core)
    → FetchStage imem c
    → (fl ≡ false → st ≡ false → instr_if_final imem c ≡ instr_at imem c.pc_if)
    → (if_id_next imem fl st c).valid ≡ true
    → Fetched imem (if_id_next imem fl st c)
      × (pc_next fl st c ≡ predicted (if_id_next imem fl st c))
unfolding if_id_next pc_next
if_id_next-Fetched imem true st c f same v = lowered _ v
if_id_next-Fetched imem false true c f same v = (f.fetched v, f.follows v)
if_id_next-Fetched imem false false c f same v =
    let word = same refl refl in
    (
      record {
        word = word;
        plus4 = refl;
        is_pc = f.pc_ok;
        taken_transfers = λ t. subst Transfers (sym word) (predicted_before imem c f t).0;
      },
      refl,
    )

pub if_id_next-valid :
    (imem : ℕ → ℕ) (fl st : Bool) (c : Core)
    → fl ≡ false
    → st ≡ false
    → (if_id_next imem fl st c).valid ≡ true
unfolding if_id_next
if_id_next-valid imem true st c q1 q2 = lowered _ (sym q1)
if_id_next-valid imem false true c q1 q2 = lowered _ (sym q2)
if_id_next-valid imem false false c q1 q2 = refl

pub goes_front :
    (imem : ℕ → ℕ) (fl st : Bool) (c : Core)
    → fl ≡ false
    → st ≡ false
    → (let f = if_id_next imem fl st c in if f.valid then f.pc else pc_next fl st c) ≡ c.pc_if
unfolding if_id_next
goes_front imem true st c q1 q2 = lowered _ (sym q1)
goes_front imem false true c q1 q2 = lowered _ (sym q2)
goes_front imem false false c q1 q2 = refl

pub issues :
    (fl st : Bool) (c : Core)
    → fl ≡ false
    → st ≡ false
    → id_ex_step fl st c
      ≡ id_ex_next c.if_id_r
          (rs_data_id c (rs1_of c.if_id_r.instr))
          (rs_data_id c (rs2_of c.if_id_r.instr))
unfolding id_ex_step
issues true st c q1 q2 = lowered _ (sym q1)
issues false true c q1 q2 = lowered _ (sym q2)
issues false false c q1 q2 = refl

pub waits : (fl st : Bool) (c : Core) → (fl || st) ≡ true → id_ex_step fl st c ≡ id_ex_zero
unfolding id_ex_step
waits true st c q = refl
waits false true c q = refl
waits false false c q = lowered _ q

-- What the stage EX trains the predictor with.
abbrev pub training : Core → Training
training c = record {
  train_pc = c.id_ex_r.pc;
  train_taken = taken_ex c.id_ex_r (fwd_rs1 c) (fwd_rs2 c);
  train_target = target_ex c.id_ex_r (fwd_rs1 c) (fwd_rs2 c);
}

pub predictor_next-train :
    (b : Bool) (c : Core)
    → is_control_flow_ex c.id_ex_r ≡ b
    → predictor_next c ≡ (if b then train (training c) c.predictor else c.predictor)
unfolding predictor_next
predictor_next-train b c q = ap (λ k. if k then train (training c) c.predictor else c.predictor) q

gated :
    (v branch jump : Bool)
    → (v && (branch && v || jump && v)) ≡ true
    → (v ≡ true) × ((branch || jump) ≡ true)
gated v branch jump q = ground arith

pub control_flow :
    (older : IfId) (d1 d2 : ℕ)
    → is_control_flow_ex (id_ex_next older d1 d2) ≡ true
    → (older.valid ≡ true) × Transfers older.instr
unfolding id_ex_next
control_flow older d1 d2 q =
    gated older.valid (control_of older.instr).branch (control_of older.instr).jump q

-- A taken training goes where the flush would.
pub target_ex-flush_target :
    (c : Core)
    → taken_ex c.id_ex_r (fwd_rs1 c) (fwd_rs2 c) ≡ true
    → flush_target c.id_ex_r (fwd_rs1 c) (fwd_rs2 c) ≡ target_ex c.id_ex_r (fwd_rs1 c) (fwd_rs2 c)
unfolding flush_target
target_ex-flush_target c q =
    ap (λ k. if k then target_ex c.id_ex_r (fwd_rs1 c) (fwd_rs2 c) else c.id_ex_r.pc_plus4) q
