-- ===== src/Core/Predictor/Trained.antt =====
-- What a prediction of the branch predictor rests on.
use risc_v_pipeline_sim.Common.{
  ℕ, ◌%◌, ◌^◌, ◌<◌, ◌≡◌, refl, inl, inr, arith, Bool-cases, true, false, ◌&&◌, ◌==◌, Option, none,
  some, List, [], ◌∷◌, All, if◌then◌else◌,
}
use risc_v_pipeline_sim.Core.Predictor.{
  Predictor, idx_of, tag_of, predict_taken, predict_target, Training, train, trained,
}

-- The target of the last training of the pc that was taken.
abbrev pub last_taken : ℕ → List Training → Option ℕ
last_taken pc [] = none
last_taken pc (t ∷ ts) =
    let rest = last_taken pc ts in
    if t.train_taken && (t.train_pc == pc) then some t.train_target else rest

abbrev pub IsPc : ℕ → Type 0
IsPc pc = (pc < 2 ^ 32) × (pc % 4 ≡ 0)

same_pc : (a b : ℕ) → IsPc a → IsPc b → idx_of a ≡ idx_of b → tag_of a ≡ tag_of b → a ≡ b
same_pc a b ha hb i t = omega arith

other_pc : (a b : ℕ) → (a == b) ≡ true → (idx_of b == idx_of a) ≡ false → ⊥
other_pc a b e h = ground arith

-- An entry with the tag of a pc holds the target of its last taken training.
Sound : Predictor → List Training → Type 0
Sound p ts =
    (pc : ℕ)
    → IsPc pc
    → p.btb_valid (idx_of pc) ≡ true
    → p.btb_tag (idx_of pc) ≡ tag_of pc
    → last_taken pc ts ≡ some (p.btb (idx_of pc))

train-Sound :
    (t : Training) (p : Predictor) (ts : List Training)
    → IsPc t.train_pc
    → Sound p ts
    → Sound (train t p) (t ∷ ts)
unfolding Sound train
train-Sound t p ts ht sound pc hp valid tag = elim (Bool-cases t.train_taken) [
  | inl taken ↦ elim (Bool-cases (idx_of pc == idx_of t.train_pc)) [
    | inl same ↦
        let stored : tag_of t.train_pc ≡ tag_of pc = rw (taken, same) at tag in
        let e : t.train_pc ≡ pc = same_pc t.train_pc pc ht hp (ground (arith, same)) stored in
        let test : (t.train_pc == pc) ≡ true = ground (arith, e) in rw (taken, test, same) refl
    | inr other ↦
        let e1 : p.btb_valid (idx_of pc) ≡ true = rw (taken, other) at valid in
        let e2 : p.btb_tag (idx_of pc) ≡ tag_of pc = rw (taken, other) at tag in
        let test : (t.train_pc == pc) ≡ false = elim (Bool-cases (t.train_pc == pc)) [
          | inl e ↦ absurd (other_pc t.train_pc pc e other)
          | inr e ↦ e
        ] in
        rw (taken, test, other) (sound pc hp e1 e2)
  ]
  | inr n ↦
      let e1 : p.btb_valid (idx_of pc) ≡ true = rw n at valid in
      let e2 : p.btb_tag (idx_of pc) ≡ tag_of pc = rw n at tag in rw n (sound pc hp e1 e2)
]

trained-Sound : (ts : List Training) → All (λ t. IsPc t.train_pc) ts → Sound (trained ts) ts
unfolding trained
trained-Sound [] h = unfold Sound in (λ pc hp valid tag. absurd (cc))
trained-Sound (t ∷ ts) h = train-Sound t (trained ts) ts h.0 (trained-Sound ts h.1)

-- If the predictor, after any trainings of aligned pcs since the reset, predicts an aligned pc to be
-- taken, then that very pc has been trained as taken, and the predicted target is that of the last
-- such training.
pub predict_taken-last_taken :
    (ts : List Training) (pc : ℕ)
    → All (λ t. IsPc t.train_pc) ts
    → IsPc pc
    → predict_taken (trained ts) pc ≡ true
    → last_taken pc ts ≡ some (predict_target (trained ts) pc)
unfolding predict_taken predict_target Sound
predict_taken-last_taken ts pc h hp taken = trained-Sound ts h pc hp (ground arith) (ground arith)
