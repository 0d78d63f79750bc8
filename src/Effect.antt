-- ===== src/Effect.antt =====
-- Python code that changes state and may raise: an action takes a state and returns a value with
-- the new state, or the exception. `Ensures P m s` says that `m` does not raise from the state `s`,
-- and that its value and its final state satisfy `P`.
-- `out_of_fuel` is no Python exception: a loop of the model has used up its rounds.
pub data Error : Type 0 where
  index_error assertion_error type_error struct_error out_of_fuel : Error

pub data Result {ℓ} (A : Type ℓ) : Type ℓ where
  ok : A → Result A
  err : Error → Result A

abbrev pub Action : Type 0 → Type 0 → Type 0
Action S A = S → Result (A × S)

module _ {S A : Type 0} where
  unfoldable pub pure : A → Action S A
  pure a s = ok (a, s)

  unfoldable pub raise : Error → Action S A
  raise e s = err e

  -- What an operation that needs no state returns or raises.
  unfoldable pub lift : Result A → Action S A
  lift (ok a) s = ok (a, s)
  lift (err e) s = err e

  abbrev pub Holds : (A → S → Type 0) → Result (A × S) → Type 0
  Holds P (ok (a, t)) = P a t
  Holds P (err e) = ⊥

pub record Ensures {S A : Type 0} (P : A → S → Type 0) (m : Action S A) (s : S) : Type 0 where
  pub returns : Holds P (m s)

module _ {S A B : Type 0} where
  abbrev continue : Result (A × S) → (A → Action S B) → Result (B × S)
  continue (ok (a, s)) f = f a s
  continue (err e) f = err e

  infixl 5 ◌>>=◌ ◌>>◌
  unfoldable pub ◌>>=◌ : Action S A → (A → Action S B) → Action S B
  ◌>>=◌ m f s = continue (m s) f

  abbrev pub ◌>>◌ : Action S A → Action S B → Action S B
  m >> n = m >>= λ _. n

module _ {S A : Type 0} where
  pub Ensures-pure : {P : A → S → Type 0} (a : A) (s : S) → P a s → Ensures P (pure a) s
  unfolding pure
  Ensures-pure a s p = record { returns = p }

  pub Ensures-lift : {P : A → S → Type 0} (a : A) (s : S) → P a s → Ensures P (lift (ok a)) s
  unfolding lift
  Ensures-lift a s p = record { returns = p }

  Holds-weaken :
      (P Q : A → S → Type 0) (r : Result (A × S))
      → ((a : A) (t : S) → Q a t → P a t)
      → Holds Q r
      → Holds P r
  Holds-weaken P Q (ok (a, t)) f h = f a t h
  Holds-weaken P Q (err e) f h = h

  pub Ensures-weaken :
      {P Q : A → S → Type 0} {m : Action S A} {s : S}
      → ((a : A) (t : S) → Q a t → P a t)
      → Ensures Q m s
      → Ensures P m s
  Ensures-weaken {P} {Q} {m} {s} f h = record { returns = Holds-weaken P Q (m s) f h.returns }

module _ {S A B : Type 0} where
  Holds-continue :
      (P : B → S → Type 0) (Q : A → S → Type 0) (r : Result (A × S)) (f : A → Action S B)
      → Holds Q r
      → ((a : A) (t : S) → Q a t → Ensures P (f a) t)
      → Holds P (continue r f)
  Holds-continue P Q (ok (a, t)) f h k = (k a t h).returns
  Holds-continue P Q (err e) f h k = h

  -- What the first action ensures, the rest may use.
  pub Ensures-bind :
      {P : B → S → Type 0} {Q : A → S → Type 0} {m : Action S A} {f : A → Action S B} {s : S}
      → Ensures Q m s
      → ((a : A) (t : S) → Q a t → Ensures P (f a) t)
      → Ensures P (m >>= f) s
  unfolding ◌>>=◌
  Ensures-bind {P} {Q} {m} {f} {s} h k = record { returns = Holds-continue P Q (m s) f h.returns k }
