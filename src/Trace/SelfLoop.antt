-- ===== src/Trace/SelfLoop.antt =====
-- What `truncate_at_self_loop` and `trim_boot_stub` keep of a trace.
use risc_v_pipeline_sim.Common.{
  ℕ, zero, suc, ◌<◌, ◌≡◌, ◌≢◌, refl, sym, ap, ◌∙◌, ◌⊎◌, inl, inr, arith, true, false, List, [], ◌∷◌,
  ◌++◌, ◌==◌, All, Bool-cases,
}
use risc_v_pipeline_sim.Trace.{SpikeRecord, truncate_at_self_loop, trim_loop, trim_boot_stub}
use risc_v_pipeline_sim.Trace.Truncate.{
  starts_run, stays, stays_short, cut, truncate_at_self_loop-cut,
}

module _ {A : Type 0} (pc_of : A → ℕ) where
  -- No record is the first of k at one pc.
  abbrev pub NoRun : ℕ → List A → Type 0
  NoRun k [] = Unit
  NoRun k (x ∷ xs) = (starts_run pc_of k (x ∷ xs) ≡ false) × NoRun k xs

  -- The records end in the result, or the result ends with the first record of the first run of k.
  abbrev pub EndsAtRun : ℕ → List A → List A → Type 0
  EndsAtRun k records result =
      (records ≡ result)
      ⊎ ((before : List A) × (r : A) × (rest : List A) × (records ≡ before ++ r ∷ rest)
          × (starts_run pc_of k (r ∷ rest) ≡ true)
          × (result ≡ before ++ r ∷ []))

  stays_prefix :
      (p k : ℕ) (xs ys : List A) → stays pc_of p k (xs ++ ys) ≡ false → stays pc_of p k xs ≡ false
  stays_prefix p zero xs ys h = h
  stays_prefix p (suc k) [] ys h = refl
  stays_prefix p (suc k) (x ∷ xs) ys h = ground (arith, stays_prefix p k xs ys)

  cut-prefix : (k : ℕ) (xs : List A) → (rest : List A) × (xs ≡ cut pc_of k xs ++ rest)
  cut-prefix k [] = ([], refl)
  cut-prefix k (x ∷ xs) = elim (Bool-cases (starts_run pc_of k (x ∷ xs))) [
    | inl run ↦ rw run (xs, refl)
    | inr other ↦ let (rest, e) = cut-prefix k xs in rw other (rest, ap (λ t. x ∷ t) e)
  ]

  cut-NoRun : (k : ℕ) (xs : List A) → 1 < k → NoRun k (cut pc_of k xs)
  cut-NoRun k [] h = tt
  cut-NoRun k (x ∷ xs) h = elim (Bool-cases (starts_run pc_of k (x ∷ xs))) [
    | inl run ↦ rw run (stays_short pc_of (pc_of x) k (x ∷ []) h, tt)
    | inr other ↦
        let (rest, e) = cut-prefix k xs in
        let shorter =
          stays_prefix (pc_of x) k (x ∷ cut pc_of k xs) rest
            (sym (ap (λ t. stays pc_of (pc_of x) k (x ∷ t)) e) ∙ other) in
        rw other (shorter, cut-NoRun k xs h)
  ]

  NoRun-cut : (k : ℕ) (xs : List A) → NoRun k xs → cut pc_of k xs ≡ xs
  NoRun-cut k [] h = refl
  NoRun-cut k (x ∷ xs) h = rw h.0 (ap (λ t. x ∷ t) (NoRun-cut k xs h.1))

  cut-EndsAtRun : (k : ℕ) (xs : List A) → EndsAtRun k xs (cut pc_of k xs)
  cut-EndsAtRun k [] = inl refl
  cut-EndsAtRun k (x ∷ xs) = elim (Bool-cases (starts_run pc_of k (x ∷ xs))) [
    | inl run ↦ rw run (inr ([], x, xs, refl, run, refl))
    | inr other ↦ rw other (elim (cut-EndsAtRun k xs) [
      | inl e ↦ inl (ap (λ t. x ∷ t) e)
      | inr (before, r, rest, e, run, er) ↦
          inr (x ∷ before, r, rest, ap (λ t. x ∷ t) e, run, ap (λ t. x ∷ t) er)
    ])
  ]

  -- For a threshold of at least two, the result has no run of that length and is all the records
  -- or ends with the first record of a run; cutting it again changes nothing.
  pub truncate_at_self_loop-NoRun :
      (k : ℕ) (records : List A)
      → 1 < k
      → let result = truncate_at_self_loop pc_of k records in
        NoRun k result
        × EndsAtRun k records result
        × (truncate_at_self_loop pc_of k result ≡ result)
  truncate_at_self_loop-NoRun k records h =
      let quiet = cut-NoRun k records h in
      rw (truncate_at_self_loop-cut pc_of k records h) (
        quiet,
        cut-EndsAtRun k records,
        truncate_at_self_loop-cut pc_of k (cut pc_of k records) h
            ∙ NoRun-cut k (cut pc_of k records) quiet,
      )

-- The boot stub: records before the first one at the entry address.
trim_loop-found :
    (records before : List SpikeRecord) (entry : ℕ) (r : SpikeRecord) (rest : List SpikeRecord)
    → All (λ x. x.pc ≢ entry) before
    → r.pc ≡ entry
    → trim_loop records entry (before ++ r ∷ rest) ≡ r ∷ rest
unfolding trim_loop
trim_loop-found records [] entry r rest h e = ground arith
trim_loop-found records (x ∷ before) entry r rest h e =
    ground (arith, trim_loop-found records before entry r rest)

trim_loop-absent :
    (records : List SpikeRecord) (entry : ℕ) (rest : List SpikeRecord)
    → All (λ x. x.pc ≢ entry) rest
    → trim_loop records entry rest ≡ records
unfolding trim_loop
trim_loop-absent records entry [] h = refl
trim_loop-absent records entry (x ∷ rest) h = ground (arith, trim_loop-absent records entry rest)

-- Records before the first one at the entry address are dropped.
pub trim_boot_stub-found :
    (before : List SpikeRecord) (entry : ℕ) (r : SpikeRecord) (rest : List SpikeRecord)
    → All (λ x. x.pc ≢ entry) before
    → r.pc ≡ entry
    → trim_boot_stub (before ++ r ∷ rest) entry ≡ r ∷ rest
unfolding trim_boot_stub
trim_boot_stub-found before entry r rest = trim_loop-found (before ++ r ∷ rest) before entry r rest

-- A trace that never reaches the entry address is left as it is.
pub trim_boot_stub-absent :
    (entry : ℕ) (records : List SpikeRecord)
    → All (λ x. x.pc ≢ entry) records
    → trim_boot_stub records entry ≡ records
unfolding trim_boot_stub
trim_boot_stub-absent entry records = trim_loop-absent records entry records

-- The first record at the entry address, when there is one.
first_at :
    (entry : ℕ) (records : List SpikeRecord)
    → ((before : List SpikeRecord) × (r : SpikeRecord) × (rest : List SpikeRecord) × (records
          ≡ before ++ r ∷ rest)
        × All (λ x. x.pc ≢ entry) before
        × (r.pc ≡ entry))
      ⊎ All (λ x. x.pc ≢ entry) records
first_at entry [] = inr tt
first_at entry (x ∷ rest) = elim (Bool-cases (x.pc == entry)) [
  | inl here ↦ inl ([], x, rest, refl, tt, ground arith)
  | inr later ↦
      let apart : x.pc ≢ entry = ground arith in
      elim (first_at entry rest) [
        | inl (before, r, more, e, away, at) ↦
            inl (x ∷ before, r, more, ap (λ t. x ∷ t) e, (apart, away), at)
        | inr away ↦ inr (apart, away)
      ]
]

-- The result starts at the first record at the entry address and has all that follow; with no such
-- record it is all the records.
pub trim_boot_stub-cases :
    (records : List SpikeRecord) (entry : ℕ)
    → ((before : List SpikeRecord) × (r : SpikeRecord) × (rest : List SpikeRecord) × (records
          ≡ before ++ r ∷ rest)
        × All (λ x. x.pc ≢ entry) before
        × (r.pc ≡ entry)
        × (trim_boot_stub records entry ≡ r ∷ rest))
      ⊎ (All (λ x. x.pc ≢ entry) records × (trim_boot_stub records entry ≡ records))
trim_boot_stub-cases records entry = elim (first_at entry records) [
  | inl (before, r, rest, e, away, at) ↦
      inl (before, r, rest, e, away, at, rw e (trim_boot_stub-found before entry r rest away at))
  | inr away ↦ inr (away, trim_boot_stub-absent entry records away)
]
