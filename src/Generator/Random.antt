-- ===== src/Generator/Random.antt =====
-- Python's `random.Random` as gen_program.py uses it. Its generator of random bits is not part of
-- the repository: `Rng` holds what the library documents of the draws, whatever the seed.
use risc_v_pipeline_sim.Common.{
  ℕ, ◌+◌, ◌-◌, ◌*◌, ◌/◌, ◌<◌, Bool, true, false, List, [], ◌∷◌, none, some, ℤ, pos, negsuc, sub_ℕ,
  ltb, if◌then◌else◌, length, get_elem?,
}
use risc_v_pipeline_sim.Effect.{Action, Result, ok, err, index_error, lift, ◌>>=◌, pure}

abbrev pub sum : List ℕ → ℕ
sum [] = 0
sum (x ∷ xs) = x + sum xs

-- `below n` is a number from 0 to n - 1, from which `randint`, `randrange` and `choice` are built;
-- `weighted ws` is an index drawn by `choices` with the weights `ws`; `chance p` is the outcome of
-- `random() < p / 100`.
pub record Rng : Type 1 where
  pub State : Type 0
  pub below : ℕ → State → ℕ × State
  pub weighted : List ℕ → State → ℕ × State
  pub chance : ℕ → State → Bool × State
  pub below-lt : (n : ℕ) (s : State) → 0 < n → (below n s).0 < n
  pub weighted-lt : (ws : List ℕ) (s : State) → 0 < sum ws → (weighted ws s).0 < length ws

-- `a < b` on Python's integers.
abbrev pub ltb_ℤ : ℤ → ℤ → Bool
ltb_ℤ (pos a) (pos b) = ltb a b
ltb_ℤ (pos a) (negsuc b) = false
ltb_ℤ (negsuc a) (pos b) = true
ltb_ℤ (negsuc a) (negsuc b) = ltb b a

-- `written_offsets.add(o)`. The set is kept in the order in which `sorted` lists it.
unfoldable pub add_offset : ℤ → List ℤ → List ℤ
add_offset o [] = o ∷ []
add_offset o (x ∷ xs) =
    if ltb_ℤ o x then o ∷ x ∷ xs else if ltb_ℤ x o then x ∷ add_offset o xs else x ∷ xs

-- The generator's state: that of the random draws and the set `written_offsets`.
pub record Store (State : Type 0) : Type 0 where
  pub random : State
  pub written : List ℤ

abbrev pub element : {A : Type 0} → List A → ℕ → Result A
element xs i = elim (get_elem? xs i) [ none ↦ err index_error | some a ↦ ok a ]

module _ (rng : Rng) where
  open rng use {State, below, weighted, chance}

  abbrev pub Gen : Type 0 → Type 0
  Gen A = Action (Store State) A

  unfoldable pub draw : {A : Type 0} → (State → A × State) → Gen A
  draw f g = let (a, s) = f g.random in ok (a, record g { random = s })

  unfoldable pub get_written : Gen (List ℤ)
  get_written g = ok (g.written, g)

  unfoldable pub add_written : ℤ → Gen (Unit {0})
  add_written o g = ok (tt, record g { written = add_offset o g.written })

  -- `written_offsets = set()`
  unfoldable pub clear_written : Gen (Unit {0})
  clear_written g = ok (tt, record g { written = [] })

  -- `rng.randint(lo, hi)` for natural bounds.
  unfoldable pub randint : ℕ → ℕ → Gen ℕ
  randint lo hi = do k ← draw (below (hi + 1 - lo)); pure (lo + k)

  -- `rng.randint(-lo, hi)`
  unfoldable pub randint_signed : ℕ → ℕ → Gen ℤ
  randint_signed lo hi = do k ← draw (below (lo + hi + 1)); pure (sub_ℕ k lo)

  -- `rng.randrange(-w, w + 1, step)`: a range of 2 w / step + 1 numbers.
  unfoldable pub randrange : ℕ → ℕ → Gen ℤ
  randrange w step = do k ← draw (below (2 * w / step + 1)); pure (sub_ℕ (step * k) w)

  -- `rng.choice(xs)`
  unfoldable pub choice : {A : Type 0} → List A → Gen A
  choice xs = do k ← draw (below (length xs)); lift (element xs k)

  -- `rng.choices(xs, weights=ws)[0]`
  unfoldable pub choices : {A : Type 0} → List A → List ℕ → Gen A
  choices xs ws = do k ← draw (weighted ws); lift (element xs k)
