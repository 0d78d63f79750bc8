-- ===== src/SpikeLog/Attributed.antt =====
-- Which instruction a commit goes to, in a log where every instruction prints its own commit line
-- behind its disassembly.
use risc_v_pipeline_sim.Common.{
  ℕ, ◌+◌, ◌≡◌, refl, sym, ap, ◌∙◌, arith, Bool, true, false, Option, none, some, inl, inr, List, [],
  ◌∷◌, All, Bool-cases,
}
use mathlib.Core.Bool.{true≢false}
use risc_v_pipeline_sim.SpikeLog.{
  Key, same_key, QueueMap, pop_from, correlate, empty_log, parse_lines,
}
use risc_v_pipeline_sim.SpikeLog.Commits.{
  read_lines-retired, read_lines-reg_commits, read_lines-mem_commits,
}
use risc_v_pipeline_sim.SpikeLog.Queues.{waiting, head, pop_from-head, waiting-pop_from}
use risc_v_pipeline_sim.SpikeLog.Ordered.{
  Commitment, Retired, trace_lines, reg_part, mem_part, trace_records, is_some, Determined, keys_of,
  parts, retired-trace_lines, reg_commits-trace_lines, mem_commits-trace_lines,
}

same_key_refl : (k : Key) → same_key k k ≡ true
same_key_refl (a, b) = ground arith

-- One of the two parts of a commit, which the instruction's word decides to be there.
module _ (f : Commitment → Option (ℕ × ℕ)) (kind : ℕ → Bool) where
  abbrev IsKind : Retired → Type 0
  IsKind r = is_some (f r.commits) ≡ kind r.instr

  parts_none :
      (key : Key) (rs : List Retired) → kind key.1 ≡ false → All IsKind rs → parts f key rs ≡ []
  parts_none key [] e h = refl
  parts_none (a, b) (r ∷ rs) e h =
      let ih = parts_none (a, b) rs e h.1 in
      elim (Bool-cases (same_key (a, b) (r.pc, r.instr))) [
        | inl same ↦
            let word : r.instr ≡ b = ground arith in
            let none_here = none_of (f r.commits) (h.0 ∙ ap kind word ∙ e) in
            rw (same, none_here, ih) refl
        | inr other ↦ rw (other, ih) refl
      ]
    where
      none_of : (o : Option (ℕ × ℕ)) → is_some o ≡ false → o ≡ none
      none_of none e = refl
      none_of (some v) e = absurd (true≢false e)

  module _ (r : Retired) (rs : List Retired) (queues : QueueMap) (kinds : All IsKind (r ∷ rs))
      (queued : (key : Key) → waiting key queues ≡ parts f key (r ∷ rs)) where
    abbrev k : Key
    k = (r.pc, r.instr)

    popped_here : (o : Option (ℕ × ℕ)) → f r.commits ≡ o → (pop_from k queues).0 ≡ o
    popped_here (some v) e =
        pop_from-head k queues ∙ ap head (queued k) ∙ (rw (same_key_refl k, e) refl)
    popped_here none e =
        let empty = parts_none k rs (sym kinds.0 ∙ ap is_some e) kinds.1 in
        pop_from-head k queues ∙ ap head (queued k) ∙ (rw (same_key_refl k, e, empty) refl)

    left_here :
        (o : Option (ℕ × ℕ)) (key : Key)
        → f r.commits ≡ o
        → waiting key (pop_from k queues).1 ≡ parts f key rs
    left_here (some v) key e = elim (Bool-cases (same_key key k)) [
      | inl same ↦ waiting-pop_from key k queues ∙ (rw (same, queued key, same, e) refl)
      | inr other ↦ waiting-pop_from key k queues ∙ (rw (other, queued key, other) refl)
    ]
    left_here none (a, b) e = elim (Bool-cases (same_key (a, b) k)) [
      | inl same ↦
          let word : b ≡ r.instr = ground arith in
          let empty = parts_none (a, b) rs (ap kind word ∙ sym kinds.0 ∙ ap is_some e) kinds.1 in
          waiting-pop_from (a, b) k queues ∙ (rw (same, queued (a, b), same, e, empty) refl)
      | inr other ↦ waiting-pop_from (a, b) k queues ∙ (rw (other, queued (a, b), other) refl)
    ]

module _ (writes_reg stores_mem : ℕ → Bool) where
  reg_kinds :
      (rs : List Retired)
      → All (Determined writes_reg stores_mem) rs
      → All (IsKind reg_part writes_reg) rs
  reg_kinds [] h = tt
  reg_kinds (r ∷ rs) h = (h.0.2, reg_kinds rs h.1)

  mem_kinds :
      (rs : List Retired)
      → All (Determined writes_reg stores_mem) rs
      → All (IsKind mem_part stores_mem) rs
  mem_kinds [] h = tt
  mem_kinds (r ∷ rs) h = (h.0.3, mem_kinds rs h.1)

  correlate-trace :
      (idx : ℕ) (rs : List Retired) (regs mems : QueueMap)
      → All (Determined writes_reg stores_mem) rs
      → ((key : Key) → waiting key regs ≡ parts reg_part key rs)
      → ((key : Key) → waiting key mems ≡ parts mem_part key rs)
      → correlate idx (keys_of rs) regs mems ≡ trace_records idx rs
  unfolding correlate
  correlate-trace idx [] regs mems h qr qm = refl
  correlate-trace idx (r ∷ rs) regs mems h qr qm =
      let rk = reg_kinds (r ∷ rs) h in
      let mk = mem_kinds (r ∷ rs) h in
      let k : Key = (r.pc, r.instr) in
      rw
        (
          popped_here reg_part writes_reg r rs regs rk qr (reg_part r.commits) refl,
          popped_here mem_part stores_mem r rs mems mk qm (mem_part r.commits) refl,
          correlate-trace (idx + 1) rs (pop_from k regs).1 (pop_from k mems).1 h.1
              (λ key. left_here reg_part writes_reg r rs regs rk qr (reg_part r.commits) key refl)
              (λ key. left_here mem_part stores_mem r rs mems mk qm (mem_part r.commits) key refl),
        )
        refl

  -- In a log where every instruction prints its disassembly and then its own commit line, with pcs
  -- and words of 32 bits, and where the word decides whether a register is written and whether
  -- memory is, every record has the commit of its own instruction, however often an instruction is
  -- executed.
  pub parse_lines-trace_lines :
      (rs : List Retired)
      → All (Determined writes_reg stores_mem) rs
      → parse_lines (trace_lines rs) ≡ trace_records 0 rs
  unfolding parse_lines
  parse_lines-trace_lines rs h =
      let lines = trace_lines rs in
      rw (read_lines-retired 1 lines empty_log, retired-trace_lines writes_reg stores_mem rs h)
        (correlate-trace 0 rs _ _ h
          (λ key. read_lines-reg_commits key 1 lines empty_log ∙ reg_commits-trace_lines key rs)
          (λ key. read_lines-mem_commits key 1 lines empty_log ∙ mem_commits-trace_lines key rs))
