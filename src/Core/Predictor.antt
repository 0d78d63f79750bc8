-- ===== src/Core/Predictor.antt =====
-- rtl/branch_predictor.sv, with 64 entries.
pub mod Trained
use risc_v_pipeline_sim.Common.{
  ℕ, ◌+◌, ◌-◌, Bool, true, false, ◌&&◌, ◌==◌, List, [], ◌∷◌, if◌then◌else◌,
}
use risc_v_pipeline_sim.Encoding.Decode.{slice}
use risc_v_pipeline_sim.Isa.Machine.{set_at}
use risc_v_pipeline_sim.Core.Alu.{bit}

pub record Predictor : Type 0 where
  pub bht : ℕ → ℕ
  pub btb : ℕ → ℕ
  pub btb_valid : ℕ → Bool
  pub btb_tag : ℕ → ℕ

abbrev pub idx_of : ℕ → ℕ
idx_of pc = slice 2 6 pc

abbrev pub tag_of : ℕ → ℕ
tag_of pc = slice 8 24 pc

unfoldable pub predict_taken : Predictor → (if_pc : ℕ) → Bool
predict_taken p if_pc =
    p.btb_valid (idx_of if_pc)
    && (p.btb_tag (idx_of if_pc) == tag_of if_pc)
    && bit 1 (p.bht (idx_of if_pc))

unfoldable pub predict_target : Predictor → (if_pc : ℕ) → ℕ
predict_target p if_pc = p.btb (idx_of if_pc)

-- The ports of a branch or a jump in EX.
pub record Training : Type 0 where
  pub train_pc : ℕ
  pub train_taken : Bool
  pub train_target : ℕ

-- The state after the reset.
abbrev pub predictor_reset : Predictor
predictor_reset = record { bht = λ i. 1; btb = λ i. 0; btb_valid = λ i. false; btb_tag = λ i. 0 }

-- A clock edge with `train_valid`.
unfoldable pub train : Training → Predictor → Predictor
train t p =
    let i = idx_of t.train_pc in
    if t.train_taken
    then record {
      bht = if p.bht i == 3 then p.bht else set_at p.bht i (p.bht i + 1);
      btb = set_at p.btb i t.train_target;
      btb_valid = λ j. if j == i then true else p.btb_valid j;
      btb_tag = set_at p.btb_tag i (tag_of t.train_pc);
    }
    else record p { bht = if p.bht i == 0 then p.bht else set_at p.bht i (p.bht i - 1) }

-- The predictor after trainings, the last one first.
unfoldable pub trained : List Training → Predictor
trained [] = predictor_reset
trained (t ∷ ts) = train t (trained ts)
