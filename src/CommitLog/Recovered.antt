-- ===== src/CommitLog/Recovered.antt =====
-- The parser gives back the run that the testbench logged.
use risc_v_pipeline_sim.Common.{
  ℕ, ◌+◌, ◌<◌, ◌≡◌, refl, sym, ap, ◌∙◌, arith, ◌==◌, Option, none, some, inl, inr, List, [], ◌∷◌,
  ◌++◌, All, Text, Bool-cases,
}
use risc_v_pipeline_sim.Common.Lines.{lines_of, text_of, lines_of-text_of, strip}
use risc_v_pipeline_sim.Trace.{SvRecord}
use risc_v_pipeline_sim.SvLog.{
  LogLine, unknown_line, empty_line, pc_line, reg_line, mem_line, classify, note, note_all, SvState,
  start_state, parse_sv_log,
}
use risc_v_pipeline_sim.SvLog.Keys.{Increasing}
use risc_v_pipeline_sim.SvLog.Records.{
  classified, last_of, last_of-none, last_pc, last_reg, last_mem, logged, record_at, indices,
  parse_sv_log-logged,
}
use risc_v_pipeline_sim.SvLog.Unique.{records_unique}
use risc_v_pipeline_sim.CommitLog.{Cycle, next_idx, log_lines, commit_log}
use risc_v_pipeline_sim.CommitLog.Cycles.{
  onto, stores, retired, CycleFits, numbered, numbered_later, pc_of, reg_of, store_of, mem_kind,
  wb_kind, kinds, classified-log_lines, log_lines-Printed, Printed-OneLine, mem_kind-last,
  wb_kind-last,
}

numbered-onto :
    {A V : Type 0} (f : Option A → Option V) (i idx : ℕ) (o : Option A) (xs : List A)
    → f none ≡ none
    → last_of (f (numbered (next_idx i o) idx xs)) (f (numbered i idx (onto o [])))
      ≡ f (numbered i idx (onto o xs))
numbered-onto f i idx none xs e = ground (arith, e)
numbered-onto f i idx (some x) xs e = elim (Bool-cases (i == idx)) [
  | inl same ↦
      let later : numbered (i + 1) idx xs ≡ none = numbered_later (i + 1) idx xs (ground arith) in
      rw (same, later, e) refl
  | inr other ↦ rw (other, e) (last_of-none (f (numbered (i + 1) idx xs)))
]

-- The lines of a run, read for one index.
kinds-last :
    (idx m w : ℕ) (cycles : List Cycle)
    → (last_pc idx (kinds m w cycles) ≡ pc_of (numbered w idx (retired cycles)))
      × (last_reg idx (kinds m w cycles) ≡ reg_of (numbered w idx (retired cycles)))
      × (last_mem idx (kinds m w cycles) ≡ store_of (numbered m idx (stores cycles)))
kinds-last idx m w [] = (refl, refl, refl)
kinds-last idx m w (c ∷ cycles) =
    let rest = kinds (next_idx m c.ex_mem) (next_idx w c.mem_wb) cycles in
    let (pc, reg, mem) = kinds-last idx (next_idx m c.ex_mem) (next_idx w c.mem_wb) cycles in
    let (pc_w, reg_w, mem_w) = wb_kind-last idx w rest c.mem_wb in
    let (pc_m, reg_m, mem_m) = mem_kind-last idx m (wb_kind w c.mem_wb ++ rest) c.ex_mem in
    (
      pc_m ∙ pc_w ∙ (rw pc (numbered-onto pc_of w idx c.mem_wb (retired cycles) refl)),
      reg_m ∙ reg_w ∙ (rw reg (numbered-onto reg_of w idx c.mem_wb (retired cycles) refl)),
      mem_m ∙ (rw (mem_w, mem) (numbered-onto store_of m idx c.ex_mem (stores cycles) refl)),
    )

-- The records of the instructions that reached WB, with the stores of those that reached MEM.
abbrev pub rows : ℕ → List (ℕ × Option (ℕ × ℕ)) → List (Option (ℕ × ℕ)) → List SvRecord
rows i [] ms = []
rows i ((pc, reg) ∷ ws) [] = record { idx = i; pc = pc; reg = reg; mem = none } ∷ rows (i + 1) ws []
rows i ((pc, reg) ∷ ws) (m ∷ ms) =
    record { idx = i; pc = pc; reg = reg; mem = m } ∷ rows (i + 1) ws ms

abbrev row_of : ℕ → Option (ℕ × Option (ℕ × ℕ)) → Option (ℕ × ℕ) → Option SvRecord
row_of idx none m = none
row_of idx (some (pc, reg)) m = some (record { idx = idx; pc = pc; reg = reg; mem = m })

record_at-rows :
    (idx i : ℕ) (ws : List (ℕ × Option (ℕ × ℕ))) (ms : List (Option (ℕ × ℕ)))
    → record_at idx (rows i ws ms) ≡ row_of idx (numbered i idx ws) (store_of (numbered i idx ms))
record_at-rows idx i [] ms = refl
record_at-rows idx i ((pc, reg) ∷ ws) [] = ground (arith, record_at-rows idx (i + 1) ws [])
record_at-rows idx i ((pc, reg) ∷ ws) (m ∷ ms) = ground (arith, record_at-rows idx (i + 1) ws ms)

rows-later :
    (n i : ℕ) (ws : List (ℕ × Option (ℕ × ℕ))) (ms : List (Option (ℕ × ℕ)))
    → n < i
    → All (λ y. n < y) (indices (rows i ws ms))
rows-later n i [] ms h = tt
rows-later n i ((pc, reg) ∷ ws) [] h = (h, rows-later n (i + 1) ws [] (omega arith))
rows-later n i ((pc, reg) ∷ ws) (m ∷ ms) h = (h, rows-later n (i + 1) ws ms (omega arith))

rows-Increasing :
    (i : ℕ) (ws : List (ℕ × Option (ℕ × ℕ))) (ms : List (Option (ℕ × ℕ)))
    → Increasing (indices (rows i ws ms))
rows-Increasing i [] ms = tt
rows-Increasing i ((pc, reg) ∷ ws) [] =
    (rows-later i (i + 1) ws [] (omega arith), rows-Increasing (i + 1) ws [])
rows-Increasing i ((pc, reg) ∷ ws) (m ∷ ms) =
    (rows-later i (i + 1) ws ms (omega arith), rows-Increasing (i + 1) ws ms)

logged-kinds :
    (idx : ℕ) (cycles : List Cycle)
    → logged idx (kinds 0 0 cycles)
      ≡ row_of idx (numbered 0 idx (retired cycles)) (store_of (numbered 0 idx (stores cycles)))
logged-kinds idx cycles =
    let (pc, reg, mem) = kinds-last idx 0 0 cycles in ground (arith, pc, reg, mem)

-- A log without lines of other forms leaves the list of unrecognised lines alone.
abbrev Known : List LogLine → Type 0
Known [] = Unit
Known (unknown_line ∷ lines) = ⊥
Known (_ ∷ lines) = Known lines

note-Known :
    (n : ℕ) (raw : Text) (kind : LogLine) (lines : List LogLine) (st : SvState)
    → Known (kind ∷ lines)
    → ((note n raw kind st).unrecognized ≡ st.unrecognized) × Known lines
unfolding note
note-Known n raw empty_line lines st h = (refl, h)
note-Known n raw unknown_line lines st h = absurd h
note-Known n raw (pc_line i pc) lines st h = (refl, h)
note-Known n raw (reg_line i rd val) lines st h = (refl, h)
note-Known n raw (mem_line i addr val) lines st h = (refl, h)

note_all-Known :
    (n : ℕ) (lines : List Text) (st : SvState)
    → Known (classified lines)
    → (note_all n lines st).unrecognized ≡ st.unrecognized
unfolding note_all
note_all-Known n [] st h = refl
note_all-Known n (raw ∷ lines) st h =
    let (same, known) = note-Known n (strip raw) (classify (strip raw)) (classified lines) st h in
    note_all-Known (n + 1) lines _ known ∙ same

mem_kind-Known :
    (i : ℕ) (m : Option (Option (ℕ × ℕ))) (rest : List LogLine)
    → Known rest
    → Known (mem_kind i m ++ rest)
mem_kind-Known i none rest h = h
mem_kind-Known i (some none) rest h = h
mem_kind-Known i (some (some (addr, val))) rest h = h

wb_kind-Known :
    (i : ℕ) (w : Option (ℕ × Option (ℕ × ℕ))) (rest : List LogLine)
    → Known rest
    → Known (wb_kind i w ++ rest)
wb_kind-Known i none rest h = h
wb_kind-Known i (some (pc, none)) rest h = h
wb_kind-Known i (some (pc, some (rd, val))) rest h = h

kinds-Known : (m w : ℕ) (cycles : List Cycle) → Known (kinds m w cycles)
kinds-Known m w [] = tt
kinds-Known m w (c ∷ cycles) =
    mem_kind-Known m c.ex_mem _
      (wb_kind-Known w c.mem_wb _ (kinds-Known (next_idx m c.ex_mem) (next_idx w c.mem_wb) cycles))

-- For every sequence of cycles with values of 32 bits, the parser recognises every line that the
-- testbench logs and returns the instructions that reached WB in their order, numbered from 0, each
-- with its pc, the register it writes and the store of the instruction that reached MEM with the
-- same number.
pub parse_sv_log-commit_log :
    (cycles : List Cycle)
    → All CycleFits cycles
    → parse_sv_log (commit_log cycles) ≡ (rows 0 (retired cycles) (stores cycles), [])
unfolding commit_log
parse_sv_log-commit_log cycles h =
    let split =
      lines_of-text_of (log_lines 0 0 cycles)
        (Printed-OneLine (log_lines 0 0 cycles) (log_lines-Printed 0 0 cycles)) in
    let kind = classified-log_lines 0 0 cycles h in
    let (ordered, each) = parse_sv_log-logged (text_of (log_lines 0 0 cycles)) in
    let same_records =
      records_unique _ (rows 0 (retired cycles) (stores cycles)) ordered
        (rows-Increasing 0 (retired cycles) (stores cycles))
        (λ idx.
          each idx
          ∙ ap (λ t. logged idx (classified t)) split
          ∙ ap (logged idx) kind
          ∙ logged-kinds idx cycles
          ∙ sym (record_at-rows idx 0 (retired cycles) (stores cycles))) in
    let known : Known (classified (lines_of (text_of (log_lines 0 0 cycles)))) =
      rw (split, kind) (kinds-Known 0 0 cycles) in
    let none_left : (parse_sv_log (text_of (log_lines 0 0 cycles))).1 ≡ [] =
      unfold parse_sv_log in note_all-Known 1 _ start_state known in
    λ i. (same_records i, none_left i)
