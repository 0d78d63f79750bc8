-- ===== src/Simulation/Whole.antt =====
-- A whole generated program in the simulator's memory: the run comes to the epilogue and stays there.
use risc_v_pipeline_sim.Common.{
  ℕ, ◌+◌, ◌*◌, ◌≤◌, ◌<◌, ◌≡◌, refl, subst, inl, inr, arith, Bool-cases, ltb, some, List, [], ◌∷◌,
  ◌++◌, append_assoc, get_elem?, length, length-append, ℤ, to_word,
}
use risc_v_pipeline_sim.Isa.Machine.{Machine, add_32}
use risc_v_pipeline_sim.Isa.Run.{running, run_sim}
use risc_v_pipeline_sim.Generator.Safe.{InWindow}
use risc_v_pipeline_sim.Generator.Program.{
  start, program_end_bytes, clear_all_regs_preamble, epilogue,
}
use risc_v_pipeline_sim.Generator.Base.{base_register, data_address}
use risc_v_pipeline_sim.Generator.Outcome.{longest, short_enough}
use risc_v_pipeline_sim.Generator.Pieces.{Piece, words_of, total, retire_of}
use risc_v_pipeline_sim.Generator.PassTwo.{SafeFrom}
use risc_v_pipeline_sim.Generator.Image.{image, Covers, length_clear, length-base_words}
use risc_v_pipeline_sim.Generator.Whole.{base_words}
use risc_v_pipeline_sim.Simulation.{
  Leads, Leads-here, Leads-weaken, Leads-step, Leads-then, Placed, Placed-append, Code, Ready, At,
}
use risc_v_pipeline_sim.Simulation.Pieces.{pieces_lead}
use risc_v_pipeline_sim.Simulation.Preamble.{
  upper_base, clear_lead, base_lead, auipc_step, run_sim-epilogue,
}

get_elem?-append_here :
    (before : List ℕ) (w : ℕ) (ws : List ℕ) → get_elem? (before ++ w ∷ ws) (length before) ≡ some w
get_elem?-append_here [] w ws = refl
get_elem?-append_here (x ∷ before) w ws = get_elem?-append_here before w ws

-- Every word of a list stands at its place.
Placed-here : (before ws : List ℕ) → Placed (before ++ ws) (length before) ws
Placed-here before [] = tt
Placed-here before (w ∷ ws) =
    let later = Placed-here (before ++ w ∷ []) ws in
    let next : length (before ++ w ∷ []) ≡ length before + 1 = length-append before (w ∷ []) in
    (get_elem?-append_here before w ws, rw (append_assoc before (w ∷ []) ws, next) at later)

module _ (n : ℕ) (ranges : List (ℕ × ℕ)) (written : List ℤ) (ps : List Piece) (some_slots : 0 < n)
    (short : n ≤ longest) (size : length (image n ps) ≡ n + 32)
    (fits : length (image n ps) * 4 ≤ 4096) (ends : start n + total ps ≡ n)
    (safe : SafeFrom n ranges written (start n) ps) (covers : Covers ranges (start n) ps) where
  program_window :
      (o : ℤ)
      → InWindow o
      → (length (image n ps) * 4 ≤ add_32 (base_register n) (to_word o))
        × (add_32 (base_register n) (to_word o) + 4 ≤ 4096)
  unfolding program_end_bytes
  program_window o win =
      let a = data_address n o (short_enough n short) win in (omega (arith, a.0), a.1)

  -- Where the parts stand.
  parts-Placed :
      let program = image n ps in
      Placed program 0 clear_all_regs_preamble
      × Placed program 31 (base_words n)
      × Placed program (31 + start n) (words_of ps)
      × (get_elem? program (31 + n) ≡ some epilogue)
  parts-Placed =
      let random = base_words n ++ words_of ps in
      let front = clear_all_regs_preamble ++ random in
      let (start_placed, last) =
        Placed-append (image n ps) 0 front (epilogue ∷ []) (Placed-here [] (image n ps)) in
      let (clear, rest) =
        Placed-append (image n ps) 0 clear_all_regs_preamble random start_placed in
      let (base, pieces) =
        Placed-append (image n ps) 31 (base_words n) (words_of ps) (rw length_clear at rest) in
      let to_pieces : 31 + length (base_words n) ≡ 31 + start n =
        omega (arith, length-base_words n) in
      let to_last : 0 + length front ≡ 31 + n =
        omega (arith, size, length-append front (epilogue ∷ [])) in
      (clear, base, rw to_pieces at pieces, (rw to_last at last).0)

  -- The machine at the epilogue.
  abbrev Settled : Machine → Type 0
  Settled t = (base : ℕ) × At (image n ps) base (31 + n) t

  random_lead : (m : Machine) → At (image n ps) 0 31 m → Leads Settled (2 + retire_of ps) m
  random_lead m at = elim (Bool-cases (ltb 1 n)) [
    | inl long ↦
        let from : start n ≡ 2 = unfold start in (rw long refl) in
        let here : 33 ≡ 31 + start n = omega (arith, from) in
        Leads-then 2 (retire_of ps) m (base_lead (image n ps) fits n m short long parts-Placed.1 at)
          (λ t q.
            let (k, u, le, e, p) =
              pieces_lead (image n ps) fits (base_register n) program_window n ranges written
                (start n) ps ends safe parts-Placed.2 covers (start n) t (inl refl)
                (subst (λ i. At (image n ps) (base_register n) i t) here q) in
            (k, u, le, e, (base_register n, p)))
    | inr one ↦
        let (m', s, at') = auipc_step (image n ps) fits n m short parts-Placed.1.0 at in
        let here : 32 ≡ 31 + n = ground arith in
        Leads-weaken (1 + 0) (2 + retire_of ps) m (omega arith) (
          Leads-step 0 m m' s (
            Leads-here m'
              (upper_base n, subst (λ i. At (image n ps) (upper_base n) i m') here at')))
  ]

  -- From the start, with the program in the memory and the registers clear, the run comes to the
  -- epilogue, and no later round takes it away from there.
  pub image_lead :
      (m : Machine)
      → m.pc ≡ 0
      → m.registers 0 ≡ 0
      → m.registers 31 ≡ 0
      → Code (image n ps) m
      → Leads
          (λ t. (t.pc ≡ (31 + n) * 4) × ((rounds : ℕ) → run_sim rounds t ≡ running t))
          (33 + retire_of ps)
          m
  unfolding clear_all_regs_preamble
  image_lead m pc0 zero0 base0 code =
      let ready : Ready (image n ps) 0 m = record {
        zero_set = zero0;
        base_set = base0;
        code = code;
      } in
      let (k, t, le, e, (base, at)) =
        Leads-then 31 (2 + retire_of ps) m
          (clear_lead (image n ps) fits 1 31 0 m (omega arith) (omega arith) parts-Placed.0
            (pc0, ready))
          (λ t q. random_lead t q) in
      (
        k,
        t,
        omega arith,
        e,
        (at.0, run_sim-epilogue (image n ps) fits base (31 + n) t parts-Placed.3 at),
      )
