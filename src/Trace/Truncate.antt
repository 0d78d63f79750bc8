-- ===== src/Trace/Truncate.antt =====
-- `truncate_at_self_loop` and a definition of it that has no positions.
use risc_v_pipeline_sim.Common.{
  ℕ, zero, suc, ◌+◌, ◌-◌, ◌<◌, ◌≡◌, refl, sym, ap, ◌∙◌, inl, inr, arith, Bool, true, false, ◌&&◌,
  List, [], ◌∷◌, ◌++◌, leb, ◌==◌, if◌then◌else◌, take, length, append_assoc, append-nil,
  length-append, All, All-append, Bool-cases,
}
use risc_v_pipeline_sim.Trace.{truncate_loop, truncate_at_self_loop}

module _ {A : Type 0} (pc_of : A → ℕ) where
  -- The first k records are there and stand at p.
  abbrev pub stays : ℕ → ℕ → List A → Bool
  stays p zero xs = true
  stays p (suc k) [] = false
  stays p (suc k) (x ∷ xs) = pc_of x == p && stays p k xs

  abbrev pub starts_run : ℕ → List A → Bool
  starts_run k [] = false
  starts_run k (x ∷ xs) = stays (pc_of x) k (x ∷ xs)

  -- Up to the first record of the first run of k.
  abbrev pub cut : ℕ → List A → List A
  cut k [] = []
  cut k (x ∷ xs) = if starts_run k (x ∷ xs) then x ∷ [] else x ∷ cut k xs

  pub stays_short : (p k : ℕ) (xs : List A) → length xs < k → stays p k xs ≡ false
  stays_short p zero xs h = absurd (omega arith)
  stays_short p (suc k) [] h = refl
  stays_short p (suc k) (x ∷ xs) h = ground (arith, stays_short p k xs)

  cut_short : (k : ℕ) (xs : List A) → length xs < k → cut k xs ≡ xs
  cut_short k [] h = refl
  cut_short k (x ∷ xs) h =
      rw (stays_short (pc_of x) k (x ∷ xs) h) (ap (λ t. x ∷ t) (cut_short k xs (omega arith)))

  -- A run that another record ends.
  stays_ended :
      (p k : ℕ) (run : List A) (r : A) (rest : List A)
      → length run < k
      → (pc_of r == p) ≡ false
      → stays p k (run ++ r ∷ rest) ≡ false
  stays_ended p zero run r rest h e = absurd (omega arith)
  stays_ended p (suc k) [] r rest h e = ground arith
  stays_ended p (suc k) (x ∷ xs) r rest h e = ground (arith, stays_ended p k xs r rest)

  cut_ended :
      (p k : ℕ) (run : List A) (r : A) (rest : List A)
      → length run < k
      → (pc_of r == p) ≡ false
      → All (λ x. pc_of x ≡ p) run
      → cut k (run ++ r ∷ rest) ≡ run ++ cut k (r ∷ rest)
  cut_ended p k [] r rest h e a = refl
  cut_ended p k (x ∷ xs) r rest h e a =
      rw (a.0, stays_ended p k (x ∷ xs) r rest h e)
        (ap (λ t. x ∷ t) (cut_ended p k xs r rest (omega arith) e a.1))

  -- A run that has reached k.
  stays_reached :
      (p : ℕ) (run rest : List A)
      → All (λ x. pc_of x ≡ p) run
      → stays p (length run) (run ++ rest) ≡ true
  stays_reached p [] rest a = refl
  stays_reached p (x ∷ xs) rest a = ground (arith, stays_reached p xs rest)

  cut_reached :
      (k : ℕ) (h : A) (hs : List A) (r : A) (rest : List A)
      → k ≡ length (h ∷ hs ++ r ∷ [])
      → All (λ x. pc_of x ≡ pc_of h) hs
      → pc_of r ≡ pc_of h
      → cut k (h ∷ hs ++ r ∷ rest) ≡ h ∷ []
  cut_reached k h hs r rest e a er =
      let all = All-append (λ x. pc_of x ≡ pc_of h) hs (r ∷ []) a (er, tt) in
      let run = stays_reached (pc_of h) (h ∷ hs ++ r ∷ []) rest (refl, all) in
      rw
        (
          e,
          ap (λ t. stays (pc_of h) (length (h ∷ hs ++ r ∷ [])) (h ∷ t))
              (sym (append_assoc hs (r ∷ []) rest)),
          run,
        )
        refl

  take_past :
      (before : List A) (h : A) (rest : List A)
      → take (suc (length before)) (before ++ h ∷ rest) ≡ before ++ h ∷ []
  take_past [] h rest = refl
  take_past (x ∷ xs) h rest = ap (λ t. x ∷ t) (take_past xs h rest)

  -- The loop, in a run that starts behind `before` and has not reached the threshold.
  truncate_loop-cut :
      (k : ℕ) (records before : List A) (h : A) (hs : List A) (n i : ℕ) (rest : List A)
      → records ≡ before ++ (h ∷ hs ++ rest)
      → n ≡ suc (length hs)
      → i ≡ length before + n
      → 1 < k
      → n < k
      → All (λ x. pc_of x ≡ pc_of h) (h ∷ hs)
      → truncate_loop pc_of k records (pc_of h) n i rest ≡ before ++ cut k (h ∷ hs ++ rest)
  unfolding truncate_loop
  truncate_loop-cut k records before h hs n i [] e en ei h1 hk a =
      rw (e, ap (λ t. cut k (h ∷ t)) (append-nil hs), ap (λ t. before ++ h ∷ t) (append-nil hs))
        (ap (λ t. before ++ t) (sym (cut_short k (h ∷ hs) (omega arith))))
  truncate_loop-cut k records before h hs n i (r ∷ rest) e en ei h1 hk a =
      elim (Bool-cases (pc_of r == pc_of h)) [
        | inl same ↦
            let long = length-append hs (r ∷ []) in
            rw same (elim (Bool-cases (leb k (n + 1))) [
              | inl full ↦
                  let place : i + 2 - k ≡ suc (length before) = ground arith in
                  let reached =
                    cut_reached k h hs r rest (ground (arith, long)) a.1 (ground arith) in
                  rw (full, place, e, reached) (take_past before h (hs ++ r ∷ rest))
              | inr free ↦
                  rw (free, sym (append_assoc hs (r ∷ []) rest))
                    (truncate_loop-cut k records before h (hs ++ r ∷ []) (n + 1) (i + 1) rest
                      (e ∙ ap (λ t. before ++ h ∷ t) (sym (append_assoc hs (r ∷ []) rest)))
                      (ground (arith, long)) (omega arith) h1 (ground arith)
                      (All-append (λ x. pc_of x ≡ pc_of h) (h ∷ hs) (r ∷ []) a (ground arith, tt)))
            ])
        | inr other ↦
            rw
              (
                other,
                cut_ended (pc_of h) k (h ∷ hs) r rest (omega arith) other a,
                sym (append_assoc before (h ∷ hs) (cut k (r ∷ rest))),
              )
              (truncate_loop-cut k records (before ++ h ∷ hs) r [] 1 (i + 1) rest
                (e ∙ sym (append_assoc before (h ∷ hs) (r ∷ rest))) refl
                (omega (arith, length-append before (h ∷ hs))) h1 h1 (refl, tt))
      ]

  pub truncate_at_self_loop-cut :
      (k : ℕ) (records : List A) → 1 < k → truncate_at_self_loop pc_of k records ≡ cut k records
  unfolding truncate_at_self_loop
  truncate_at_self_loop-cut k [] h = refl
  truncate_at_self_loop-cut k (r ∷ rest) h =
      truncate_loop-cut k (r ∷ rest) [] r [] 1 1 rest refl refl refl h h (refl, tt)
