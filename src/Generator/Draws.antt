-- ===== src/Generator/Draws.antt =====
-- What each random draw of gen_program.py ensures, whatever the generator of random bits.
use risc_v_pipeline_sim.Common.{
  ℕ, zero, suc, ◌+◌, ◌-◌, ◌*◌, ◌/◌, ◌≤◌, ◌<◌, ◌≡◌, refl, arith, List, [], ◌∷◌, ℤ, sub_ℕ, All,
  length,
}
use risc_v_pipeline_sim.Effect.{Ensures, Ensures-bind, Ensures-pure, lift}
use risc_v_pipeline_sim.Generator.Random.{
  clear_written, Rng, Store, sum, draw, randint, randint_signed, randrange, choice, choices,
  get_written, add_written, add_offset, element,
}

-- An element that a position below the length finds.
All-element :
    {A S : Type 0} (P : A → Type 0) (Q : S → Type 0) (xs : List A) (i : ℕ) (s : S)
    → i < length xs
    → All P xs
    → Q s
    → Ensures (λ a t. P a × Q t) (lift (element xs i)) s
unfolding lift
All-element P Q [] i s h all q = elim h [ ]
All-element P Q (x ∷ xs) zero s h all q = record { returns = (all.0, q) }
All-element P Q (x ∷ xs) (suc i) s h all q = All-element P Q xs i s (omega arith) all.1 q

module _ (rng : Rng) (g : Store rng.State) where
  -- A draw leaves the set of offsets alone.
  pub draw_lem :
      {A : Type 0} (f : rng.State → A × rng.State)
      → Ensures (λ a t. t.written ≡ g.written) (draw rng f) g
  unfolding draw
  draw_lem f = record { returns = refl }

  draw-below :
      (n : ℕ)
      → 0 < n
      → Ensures (λ k t. (k < n) × (t.written ≡ g.written)) (draw rng (rng.below n)) g
  unfolding draw
  draw-below n h = record { returns = (rng.below-lt n g.random h, refl) }

  draw-weighted :
      (ws : List ℕ)
      → 0 < sum ws
      → Ensures (λ k t. (k < length ws) × (t.written ≡ g.written)) (draw rng (rng.weighted ws)) g
  unfolding draw
  draw-weighted ws h = record { returns = (rng.weighted-lt ws g.random h, refl) }

  pub randint_range :
      (lo hi : ℕ)
      → lo ≤ hi
      → Ensures (λ k t. (lo ≤ k) × (k ≤ hi) × (t.written ≡ g.written)) (randint rng lo hi) g
  unfolding randint
  randint_range lo hi h =
      Ensures-bind (draw-below (hi + 1 - lo) (omega arith))
        λ k t q. Ensures-pure (lo + k) t (omega arith, omega arith, q.1)

  pub randint_signed_range :
      (lo hi : ℕ)
      → Ensures
          (λ z t. ((k : ℕ) × (k ≤ lo + hi) × (z ≡ sub_ℕ k lo)) × (t.written ≡ g.written))
          (randint_signed rng lo hi)
          g
  unfolding randint_signed
  randint_signed_range lo hi =
      Ensures-bind (draw-below (lo + hi + 1) (omega arith))
        λ k t q. Ensures-pure (sub_ℕ k lo) t ((k, omega arith, refl), q.1)

  pub randrange_range :
      (w step : ℕ)
      → Ensures
          (λ z t.
            ((k : ℕ) × (k ≤ 2 * w / step) × (z ≡ sub_ℕ (step * k) w)) × (t.written ≡ g.written))
          (randrange rng w step)
          g
  unfolding randrange
  randrange_range w step =
      Ensures-bind (draw-below (2 * w / step + 1) (omega arith))
        λ k t q. Ensures-pure (sub_ℕ (step * k) w) t ((k, omega arith, refl), q.1)

  -- A choice satisfies what every element does.
  pub choice-All :
      {A : Type 0} (P : A → Type 0) (xs : List A)
      → 0 < length xs
      → All P xs
      → Ensures (λ a t. P a × (t.written ≡ g.written)) (choice rng xs) g
  unfolding choice
  choice-All P xs h all =
      Ensures-bind (draw-below (length xs) h)
        λ k t q. All-element P (λ u. u.written ≡ g.written) xs k t q.0 all q.1

  pub choices-All :
      {A : Type 0} (P : A → Type 0) (xs : List A) (ws : List ℕ)
      → 0 < sum ws
      → length xs ≡ length ws
      → All P xs
      → Ensures (λ a t. P a × (t.written ≡ g.written)) (choices rng xs ws) g
  unfolding choices
  choices-All P xs ws h e all =
      Ensures-bind (draw-weighted ws h)
        λ k t q. All-element P (λ u. u.written ≡ g.written) xs k t (rw e q.0) all q.1

  pub get_written_lem :
      Ensures (λ os t. (os ≡ g.written) × (t.written ≡ g.written)) (get_written rng) g
  unfolding get_written
  get_written_lem = record { returns = (refl, refl) }

  pub clear_written_lem : Ensures (λ u t. t.written ≡ []) (clear_written rng) g
  unfolding clear_written
  clear_written_lem = record { returns = refl }

  pub add_written_lem :
      (o : ℤ) → Ensures (λ u t. t.written ≡ add_offset o g.written) (add_written rng o) g
  unfolding add_written
  add_written_lem o = record { returns = refl }
