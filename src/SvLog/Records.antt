-- ===== src/SvLog/Records.antt =====
-- The records of parse_sv_log as a function of the classified lines.
use risc_v_pipeline_sim.Common.{
  ℕ, ◌+◌, ◌≡◌, refl, ap, ◌∙◌, arith, true, false, Option, none, some, inl, inr, List, [], ◌∷◌, ◌==◌,
  if◌then◌else◌, map, Bool-cases, Text,
}
use risc_v_pipeline_sim.Common.Lines.{lines_of, strip}
use risc_v_pipeline_sim.Trace.{SvRecord}
use risc_v_pipeline_sim.SvLog.{
  LogLine, empty_line, unknown_line, pc_line, reg_line, mem_line, classify, get_item, keys, SvState,
  note, note_all, sorted, record_of, start_state, parse_sv_log,
}
use risc_v_pipeline_sim.SvLog.Keys.{
  contains, Increasing, NoRepeat, get_item-set_item, set_item-NoRepeat, contains-keys,
  contains-sorted, sorted-Increasing,
}

-- The lines of a log, by kind.
abbrev pub classified : List Text → List LogLine
classified [] = []
classified (raw ∷ lines) = classify (strip raw) ∷ classified lines

abbrev pub last_of : {V : Type 0} → (later earlier : Option V) → Option V
last_of none earlier = earlier
last_of (some v) earlier = some v

abbrev pub only_at : {V : Type 0} → (i idx : ℕ) → V → Option V
only_at i idx v = if i == idx then some v else none

-- What the log says last of an index.
abbrev pub last_pc : ℕ → List LogLine → Option ℕ
last_pc idx [] = none
last_pc idx (pc_line i pc ∷ lines) = last_of (last_pc idx lines) (only_at i idx pc)
last_pc idx (_ ∷ lines) = last_pc idx lines

abbrev pub last_reg : ℕ → List LogLine → Option (ℕ × ℕ)
last_reg idx [] = none
last_reg idx (reg_line i rd val ∷ lines) = last_of (last_reg idx lines) (only_at i idx (rd, val))
last_reg idx (_ ∷ lines) = last_reg idx lines

abbrev pub last_mem : ℕ → List LogLine → Option (ℕ × ℕ)
last_mem idx [] = none
last_mem idx (mem_line i addr val ∷ lines) =
    last_of (last_mem idx lines) (only_at i idx (addr, val))
last_mem idx (_ ∷ lines) = last_mem idx lines

-- The record that an index has in a log: none without a PC line.
abbrev pub logged : ℕ → List LogLine → Option SvRecord
logged idx lines = elim (last_pc idx lines) [
  | none ↦ none
  | some pc ↦
      some (record { idx = idx; pc = pc; reg = last_reg idx lines; mem = last_mem idx lines })
]

-- The record with an index among others.
abbrev pub record_at : ℕ → List SvRecord → Option SvRecord
record_at idx [] = none
record_at idx (r ∷ records) =
    let rest = record_at idx records in if r.idx == idx then some r else rest

abbrev pub indices : List SvRecord → List ℕ
indices [] = []
indices (r ∷ records) = r.idx ∷ indices records

-- What the reading loop has stored behind the given lines.
record Stored (idx : ℕ) (lines : List LogLine) (before after : SvState) : Type 0 where
  pc : get_item idx after.pc_by_idx ≡ last_of (last_pc idx lines) (get_item idx before.pc_by_idx)
  reg :
      get_item idx after.reg_by_idx ≡ last_of (last_reg idx lines) (get_item idx before.reg_by_idx)
  mem :
      get_item idx after.mem_by_idx ≡ last_of (last_mem idx lines) (get_item idx before.mem_by_idx)

Stored-note :
    (idx n : ℕ) (raw : Text) (line : LogLine) (lines : List LogLine) (st after : SvState)
    → Stored idx lines (note n raw line st) after
    → Stored idx (line ∷ lines) st after
unfolding note
Stored-note idx n raw empty_line lines st after h = record { pc = h.pc; reg = h.reg; mem = h.mem }
Stored-note idx n raw unknown_line lines st after h = record { pc = h.pc; reg = h.reg; mem = h.mem }
Stored-note idx n raw (pc_line i pc) lines st after h = record {
  pc = ground (arith, h.pc, get_item-set_item i idx pc st.pc_by_idx);
  reg = h.reg;
  mem = h.mem;
}
Stored-note idx n raw (reg_line i rd val) lines st after h = record {
  pc = h.pc;
  reg = ground (arith, h.reg, get_item-set_item i idx (rd, val) st.reg_by_idx);
  mem = h.mem;
}
Stored-note idx n raw (mem_line i addr val) lines st after h = record {
  pc = h.pc;
  reg = h.reg;
  mem = ground (arith, h.mem, get_item-set_item i idx (addr, val) st.mem_by_idx);
}

note_all-Stored :
    (idx n : ℕ) (lines : List Text) (st : SvState)
    → Stored idx (classified lines) st (note_all n lines st)
unfolding note_all
note_all-Stored idx n [] st = record { pc = refl; reg = refl; mem = refl }
note_all-Stored idx n (raw ∷ lines) st =
    let next = note n (strip raw) (classify (strip raw)) st in
    Stored-note idx n (strip raw) (classify (strip raw)) (classified lines) st
      (note_all (n + 1) lines next) (note_all-Stored idx (n + 1) lines next)

note-NoRepeat :
    (n : ℕ) (raw : Text) (line : LogLine) (st : SvState)
    → NoRepeat (keys st.pc_by_idx)
    → NoRepeat (keys (note n raw line st).pc_by_idx)
unfolding note
note-NoRepeat n raw empty_line st h = h
note-NoRepeat n raw unknown_line st h = h
note-NoRepeat n raw (pc_line i pc) st h = set_item-NoRepeat i pc st.pc_by_idx h
note-NoRepeat n raw (reg_line i rd val) st h = h
note-NoRepeat n raw (mem_line i addr val) st h = h

note_all-NoRepeat :
    (n : ℕ) (lines : List Text) (st : SvState)
    → NoRepeat (keys st.pc_by_idx)
    → NoRepeat (keys (note_all n lines st).pc_by_idx)
unfolding note_all
note_all-NoRepeat n [] st h = h
note_all-NoRepeat n (raw ∷ lines) st h =
    note_all-NoRepeat (n + 1) lines _ (note-NoRepeat n (strip raw) (classify (strip raw)) st h)

module _ (st : SvState) where
  record_at-record_of :
      (idx : ℕ) (ks : List ℕ)
      → record_at idx (map (record_of st) ks)
        ≡ (if contains idx ks then some (record_of st idx) else none)
  record_at-record_of idx [] = refl
  record_at-record_of idx (k ∷ ks) = elim (Bool-cases (k == idx)) [
    | inl same ↦ let e : k ≡ idx = ground arith in rw (same, e) refl
    | inr other ↦ rw other (record_at-record_of idx ks)
  ]

  indices-record_of : (ks : List ℕ) → indices (map (record_of st) ks) ≡ ks
  indices-record_of [] = refl
  indices-record_of (k ∷ ks) = ap (λ t. k ∷ t) (indices-record_of ks)

pub last_of-none : {V : Type 0} (o : Option V) → last_of o none ≡ o
last_of-none none = refl
last_of-none (some v) = refl

record_of-logged :
    (idx : ℕ) (lines : List LogLine) (st : SvState)
    → Stored idx lines start_state st
    → (if (elim (get_item idx st.pc_by_idx) [ none ↦ false | some v ↦ true ])
        then some (record_of st idx)
        else none)
      ≡ logged idx lines
unfolding get_item
record_of-logged idx lines st s = ground (
  arith,
  s.pc ∙ last_of-none (last_pc idx lines),
  s.reg ∙ last_of-none (last_reg idx lines),
  s.mem ∙ last_of-none (last_mem idx lines),
)

-- The records are in strictly increasing order of their indices; an index has a record exactly when
-- the log has a PC line for it, and the record holds the pc, the register write and the store that
-- the log gives last for that index.
pub parse_sv_log-logged :
    (text : Text)
    → let records = (parse_sv_log text).0 in
      Increasing (indices records)
      × ((idx : ℕ) → record_at idx records ≡ logged idx (classified (lines_of text)))
unfolding parse_sv_log
parse_sv_log-logged text =
    let st = note_all 1 (lines_of text) start_state in
    let once = note_all-NoRepeat 1 (lines_of text) start_state tt in
    (
      rw (indices-record_of st (sorted (keys st.pc_by_idx)))
          (sorted-Increasing (keys st.pc_by_idx) once),
      λ idx.
          let s = note_all-Stored idx 1 (lines_of text) start_state in
          record_at-record_of st idx (sorted (keys st.pc_by_idx))
          ∙ (rw (contains-sorted idx (keys st.pc_by_idx), contains-keys idx st.pc_by_idx)
              (record_of-logged idx (classified (lines_of text)) st s)),
    )
