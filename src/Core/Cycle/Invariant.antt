-- ===== src/Core/Cycle/Invariant.antt =====
-- What holds in every cycle of the core.
use risc_v_pipeline_sim.Common.{
  ℕ, ◌≡◌, refl, sym, subst, inl, inr, arith, Bool-cases, true, false, ◌&&◌, ◌==◌, some, List, [],
  ◌∷◌, All,
}
use risc_v_pipeline_sim.Encoding.Decode.{opcode_of, rs1_of, rs2_of, rd_of, funct3_of, imm_gen}
use risc_v_pipeline_sim.Core.Control.{control_unit}
use risc_v_pipeline_sim.Core.Pipeline.{IfId, id_ex_next, fwd_rs}
use risc_v_pipeline_sim.Core.Predictor.{Training, predict_taken, predict_target, trained}
use risc_v_pipeline_sim.Core.Predictor.Trained.{IsPc, last_taken, predict_taken-last_taken}
use risc_v_pipeline_sim.Core.Cycle.Registers.{Core, instr_at, if_id_zero, id_ex_zero, core_reset}
use risc_v_pipeline_sim.Core.Cycle.Sequential.{front, arch_of}
use risc_v_pipeline_sim.Core.Cycle.Ex.{Transfers, Fetched, predicted}

-- The trainings are those of branches and jumps of the program.
abbrev pub OfProgram : (imem : ℕ → ℕ) → Training → Type 0
OfProgram imem t =
    IsPc t.train_pc
    × Transfers (instr_at imem t.train_pc)
    × (t.train_taken ≡ true → IsPc t.train_target)

-- The fetch stage.
pub record FetchStage (imem : ℕ → ℕ) (c : Core) : Type 0 where
  pub zero_set : c.rf 0 ≡ 0
  pub pc_ok : IsPc c.pc_if
  pub fetched : c.if_id_r.valid ≡ true → Fetched imem c.if_id_r
  pub follows : c.if_id_r.valid ≡ true → c.pc_if ≡ predicted c.if_id_r
  pub trainings : List Training
  pub trained_by : c.predictor ≡ trained trainings
  pub of_program : All (OfProgram imem) trainings

-- ID/EX is what ID made of `older`, with operands that are those of the program order.
pub record Decoded (imem : ℕ → ℕ) (c : Core) (older : IfId) (d1 d2 : ℕ) : Type 0 where
  pub fetched : older.valid ≡ true → Fetched imem older
  pub behind : older.valid ≡ true → c.if_id_r.valid ≡ true
  pub follows : older.valid ≡ true → front c ≡ predicted older
  pub operand1 :
      older.valid ≡ true
      → fwd_rs c.ex_mem_r c.mem_wb_r (rs1_of older.instr) d1
        ≡ (arch_of c).registers (rs1_of older.instr)
  pub operand2 :
      older.valid ≡ true
      → fwd_rs c.ex_mem_r c.mem_wb_r (rs2_of older.instr) d2
        ≡ (arch_of c).registers (rs2_of older.instr)

pub record Invariant (imem : ℕ → ℕ) (c : Core) : Type 0 where
  pub fetches : FetchStage imem c
  pub older : IfId
  pub d1 : ℕ
  pub d2 : ℕ
  pub id_ex : c.id_ex_r ≡ id_ex_next older d1 d2
  pub decoded : Decoded imem c older d1 d2

pub lowered : (P : Type 0) → false ≡ true → P
lowered P e = absurd (cc)

abbrev pub no_instruction : (imem : ℕ → ℕ) (c : Core) → Decoded imem c if_id_zero 0 0
no_instruction imem c = record {
  fetched = λ e. lowered _ e;
  behind = λ e. lowered _ e;
  follows = λ e. lowered _ e;
  operand1 = λ e. lowered _ e;
  operand2 = λ e. lowered _ e;
}

pub id_ex_zero_lem : id_ex_zero ≡ id_ex_next if_id_zero 0 0
unfolding id_ex_next control_unit opcode_of rs1_of rs2_of rd_of funct3_of imm_gen
id_ex_zero_lem = refl

-- After the reset.
pub reset-Invariant : (imem buffer ram : ℕ → ℕ) → Invariant imem (core_reset buffer ram)
unfolding trained
reset-Invariant imem buffer ram = record {
  fetches = record {
    zero_set = refl;
    pc_ok = omega arith;
    fetched = λ e. lowered _ e;
    follows = λ e. lowered _ e;
    trainings = [];
    trained_by = refl;
    of_program = tt;
  };
  older = if_id_zero;
  d1 = 0;
  d2 = 0;
  id_ex = id_ex_zero_lem;
  decoded = no_instruction imem (core_reset buffer ram);
}

pcs : (imem : ℕ → ℕ) (ts : List Training) → All (OfProgram imem) ts → All (λ t. IsPc t.train_pc) ts
pcs imem [] h = tt
pcs imem (t ∷ ts) h = (h.0.0, pcs imem ts h.1)

-- What has been trained as taken.
taken_before :
    (imem : ℕ → ℕ) (ts : List Training) (pc target : ℕ)
    → All (OfProgram imem) ts
    → last_taken pc ts ≡ some target
    → Transfers (instr_at imem pc) × IsPc target
taken_before imem [] pc target h e = absurd (cc)
taken_before imem (t ∷ ts) pc target h e = elim (Bool-cases (t.train_taken && (t.train_pc == pc))) [
  | inl this ↦
      let taken : t.train_taken ≡ true = ground (arith, this) in
      let here : t.train_pc ≡ pc = ground (arith, this) in
      let first : some t.train_target ≡ some target = rw this at e in
      let there : t.train_target ≡ target = cc in
      (subst (λ p. Transfers (instr_at imem p)) here h.0.1, subst IsPc there (h.0.2 taken))
  | inr before ↦ taken_before imem ts pc target h.1 (rw before at e)
]

-- A prediction is that of a branch or a jump, to a pc.
pub predicted_before :
    (imem : ℕ → ℕ) (c : Core)
    → FetchStage imem c
    → predict_taken c.predictor c.pc_if ≡ true
    → Transfers (instr_at imem c.pc_if) × IsPc (predict_target c.predictor c.pc_if)
predicted_before imem c f e =
    subst
      (λ p.
        predict_taken p c.pc_if ≡ true
        → Transfers (instr_at imem c.pc_if) × IsPc (predict_target p c.pc_if))
      (sym f.trained_by)
      (λ e1.
        taken_before imem f.trainings c.pc_if (predict_target (trained f.trainings) c.pc_if)
          f.of_program
          (predict_taken-last_taken f.trainings c.pc_if (pcs imem f.trainings f.of_program) f.pc_ok
            e1))
      e
