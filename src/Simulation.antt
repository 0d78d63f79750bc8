-- ===== src/Simulation.antt =====
-- The programs of shared/spike/gen_program.py on the simulator src/main.cpp: where a machine comes to
-- when it runs.
pub mod Steps
pub mod Loop
pub mod Pieces
pub mod Preamble
pub mod Whole
pub mod Loading
pub mod Settled
use risc_v_pipeline_sim.Common.{
  ℕ, zero, suc, ◌+◌, ◌*◌, ◌≤◌, ◌≡◌, refl, sym, ap, ◌∙◌, arith, Option, some, List, [], ◌∷◌, ◌++◌,
  get_elem?, length,
}
use risc_v_pipeline_sim.Isa.Machine.{Machine}
use risc_v_pipeline_sim.Isa.Run.{Status, running, finished, undefined, continue, step, run_sim}
use risc_v_pipeline_sim.Isa.Access.{word_at}

-- The machine runs into a state with the property within a number of rounds.
abbrev pub Leads : (Machine → Type 0) → ℕ → Machine → Type 0
Leads P rounds m = (k : ℕ) × (t : Machine) × (k ≤ rounds) × (run_sim k m ≡ running t) × P t

run_sim-add : (j k : ℕ) (m : Machine) → run_sim (j + k) m ≡ continue (run_sim j m) (run_sim k)
unfolding run_sim
run_sim-add zero k m = let e : 0 + k ≡ k = omega arith in rw e refl
run_sim-add (suc j) k m =
    let e : suc j + k ≡ suc (j + k) = omega arith in rw e (later (λ t. run_sim-add j k t) (step m))
  where
    later :
        ((t : Machine) → run_sim (j + k) t ≡ continue (run_sim j t) (run_sim k))
        → (s : Status)
        → continue s (run_sim (j + k)) ≡ continue (continue s (run_sim j)) (run_sim k)
    later ih (running t) = ih t
    later ih (finished t) = refl
    later ih undefined = refl

module _ {P : Machine → Type 0} where
  pub Leads-here : (m : Machine) → P m → Leads P 0 m
  unfolding run_sim
  Leads-here m p = (0, m, omega arith, refl, p)

  pub Leads-weaken : (b c : ℕ) (m : Machine) → b ≤ c → Leads P b m → Leads P c m
  Leads-weaken b c m h (k, t, le, e, p) = (k, t, omega arith, e, p)

  pub Leads-step : (b : ℕ) (m m' : Machine) → step m ≡ running m' → Leads P b m' → Leads P (1 + b) m
  unfolding run_sim
  Leads-step b m m' s (k, t, le, e, p) = (suc k, t, omega arith, rw s e, p)

pub Leads-then :
    {P Q : Machine → Type 0} (b c : ℕ) (m : Machine)
    → Leads P b m
    → ((t : Machine) → P t → Leads Q c t)
    → Leads Q (b + c) m
Leads-then b c m (k, t, le, e, p) f =
    let (k', t', le', e', q) = f t p in (k + k', t', omega arith, run_sim-add k k' m ∙ (rw e e'), q)

-- The words of the program at and behind a slot.
module _ (program : List ℕ) where
  abbrev pub Placed : ℕ → List ℕ → Type 0
  Placed i [] = Unit
  Placed i (w ∷ ws) = (get_elem? program i ≡ some w) × Placed (i + 1) ws

  -- The program lies in the memory from address 0 on.
  abbrev pub Code : Machine → Type 0
  Code m = (i w : ℕ) → get_elem? program i ≡ some w → word_at m.memory (i * 4) ≡ w

  -- Nothing disturbs the run of the program: x0 is zero, x31 holds the base of the data, and the
  -- program is in its place.
  pub record Ready (base : ℕ) (m : Machine) : Type 0 where
    pub zero_set : m.registers 0 ≡ 0
    pub base_set : m.registers 31 ≡ base
    pub code : Code m

  -- The machine stands at a slot.
  abbrev pub At : ℕ → ℕ → Machine → Type 0
  At base i m = (m.pc ≡ i * 4) × Ready base m

  pub Placed-append :
      (i : ℕ) (a b : List ℕ) → Placed i (a ++ b) → Placed i a × Placed (i + length a) b
  Placed-append i [] b p = let e : i + 0 ≡ i = omega arith in (tt, rw e p)
  Placed-append i (w ∷ a) b (e, p) =
      let (pa, pb) = Placed-append (i + 1) a b p in
      let same : (i + 1) + length a ≡ i + length (w ∷ a) = omega arith in ((e, pa), rw (← same) pb)
