-- ===== src/SpikeLog/Commits.antt =====
-- What the reading loop of parse_spike_log collects.
use risc_v_pipeline_sim.Common.{
  ℕ, ◌+◌, ◌%◌, ◌^◌, ◌≡◌, refl, sym, ap, ◌∙◌, bit_and, inl, inr, List, [], ◌∷◌, ◌++◌, append-nil,
  append_assoc, if◌then◌else◌, Bool-cases,
}
use risc_v_pipeline_sim.Common.Bits.{and_mask}
use risc_v_pipeline_sim.Trace.Compare.{mask32}
use risc_v_pipeline_sim.SpikeLog.{
  Line, blank_line, warning_line, exception_line, mem_read_line, bare_commit_line, other_line,
  reg_line, mem_line, plain_line, Key, same_key, QueueMap, append_to, Log, read_line, read_lines,
}
use risc_v_pipeline_sim.SpikeLog.Queues.{waiting, waiting-append_to}

-- The retired instructions of the log, by pc and word of 32 bits.
abbrev pub retired : List Line → List Key
retired [] = []
retired (plain_line pc instr ∷ lines) = (pc % 2 ^ 32, instr % 2 ^ 32) ∷ retired lines
retired (_ ∷ lines) = retired lines

-- The register commits of one instruction, in the order of the log.
abbrev pub reg_commits : Key → List Line → List (ℕ × ℕ)
reg_commits key [] = []
reg_commits key (reg_line pc instr rd val ∷ lines) =
    let rest = reg_commits key lines in
    if same_key key (pc, instr) then (rd, val % 2 ^ 32) ∷ rest else rest
reg_commits key (_ ∷ lines) = reg_commits key lines

abbrev pub mem_commits : Key → List Line → List (ℕ × ℕ)
mem_commits key [] = []
mem_commits key (mem_line pc instr addr val ∷ lines) =
    let rest = mem_commits key lines in
    if same_key key (pc, instr) then (addr, val % 2 ^ 32) ∷ rest else rest
mem_commits key (_ ∷ lines) = mem_commits key lines

append_one : {A : Type 0} (xs : List A) (x : A) (ys : List A) → (xs ++ x ∷ []) ++ ys ≡ xs ++ x ∷ ys
append_one xs x ys = append_assoc xs (x ∷ []) ys

pub read_lines-retired :
    (n : ℕ) (lines : List Line) (log : Log)
    → (read_lines n lines log).records_by_pc_seq ≡ log.records_by_pc_seq ++ retired lines
unfolding read_lines read_line
read_lines-retired n [] log = sym (append-nil log.records_by_pc_seq)
read_lines-retired n (blank_line ∷ lines) log = read_lines-retired (n + 1) lines log
read_lines-retired n (warning_line ∷ lines) log = read_lines-retired (n + 1) lines log
read_lines-retired n (exception_line name line ∷ lines) log = read_lines-retired (n + 1) lines _
read_lines-retired n (mem_read_line ∷ lines) log = read_lines-retired (n + 1) lines log
read_lines-retired n (bare_commit_line ∷ lines) log = read_lines-retired (n + 1) lines log
read_lines-retired n (other_line line ∷ lines) log = read_lines-retired (n + 1) lines _
read_lines-retired n (reg_line pc instr rd val ∷ lines) log = read_lines-retired (n + 1) lines _
read_lines-retired n (mem_line pc instr addr val ∷ lines) log = read_lines-retired (n + 1) lines _
read_lines-retired n (plain_line pc instr ∷ lines) log =
    rw (← and_mask 32 pc, ← and_mask 32 instr)
      (read_lines-retired (n + 1) lines _
        ∙ append_one log.records_by_pc_seq (bit_and pc mask32, bit_and instr mask32)
            (retired lines))

-- What an appended commit leaves under a key, with the rest of the log.
append_to-commit :
    (key k : Key) (v w : ℕ × ℕ) (queues : QueueMap) (rest : List (ℕ × ℕ))
    → v ≡ w
    → waiting key (append_to k v queues) ++ rest
      ≡ waiting key queues ++ (if same_key key k then w ∷ rest else rest)
append_to-commit key k v w queues rest e = elim (Bool-cases (same_key key k)) [
  | inl same ↦
      let eq : waiting key (append_to k v queues) ≡ waiting key queues ++ v ∷ [] =
        waiting-append_to key k v queues ∙ (rw same refl) in
      rw (same, eq, e) (append_one (waiting key queues) w rest)
  | inr other ↦
      let eq : waiting key (append_to k v queues) ≡ waiting key queues =
        waiting-append_to key k v queues ∙ (rw other refl) in
      rw (other, eq) refl
]

module _ (key : Key) where
  pub read_lines-reg_commits :
      (n : ℕ) (lines : List Line) (log : Log)
      → waiting key (read_lines n lines log).reg_by_line_context
        ≡ waiting key log.reg_by_line_context ++ reg_commits key lines
  unfolding read_lines read_line
  read_lines-reg_commits n [] log = sym (append-nil (waiting key log.reg_by_line_context))
  read_lines-reg_commits n (blank_line ∷ lines) log = read_lines-reg_commits (n + 1) lines log
  read_lines-reg_commits n (warning_line ∷ lines) log = read_lines-reg_commits (n + 1) lines log
  read_lines-reg_commits n (exception_line name line ∷ lines) log =
      read_lines-reg_commits (n + 1) lines _
  read_lines-reg_commits n (mem_read_line ∷ lines) log = read_lines-reg_commits (n + 1) lines log
  read_lines-reg_commits n (bare_commit_line ∷ lines) log = read_lines-reg_commits (n + 1) lines log
  read_lines-reg_commits n (other_line line ∷ lines) log = read_lines-reg_commits (n + 1) lines _
  read_lines-reg_commits n (mem_line pc instr addr val ∷ lines) log =
      read_lines-reg_commits (n + 1) lines _
  read_lines-reg_commits n (plain_line pc instr ∷ lines) log =
      read_lines-reg_commits (n + 1) lines _
  read_lines-reg_commits n (reg_line pc instr rd val ∷ lines) log =
      read_lines-reg_commits (n + 1) lines _
      ∙ append_to-commit key (pc, instr) (rd, bit_and val mask32) (rd, val % 2 ^ 32)
          log.reg_by_line_context (reg_commits key lines) (ap (λ t. (rd, t)) (and_mask 32 val))

  pub read_lines-mem_commits :
      (n : ℕ) (lines : List Line) (log : Log)
      → waiting key (read_lines n lines log).mem_by_line_context
        ≡ waiting key log.mem_by_line_context ++ mem_commits key lines
  unfolding read_lines read_line
  read_lines-mem_commits n [] log = sym (append-nil (waiting key log.mem_by_line_context))
  read_lines-mem_commits n (blank_line ∷ lines) log = read_lines-mem_commits (n + 1) lines log
  read_lines-mem_commits n (warning_line ∷ lines) log = read_lines-mem_commits (n + 1) lines log
  read_lines-mem_commits n (exception_line name line ∷ lines) log =
      read_lines-mem_commits (n + 1) lines _
  read_lines-mem_commits n (mem_read_line ∷ lines) log = read_lines-mem_commits (n + 1) lines log
  read_lines-mem_commits n (bare_commit_line ∷ lines) log = read_lines-mem_commits (n + 1) lines log
  read_lines-mem_commits n (other_line line ∷ lines) log = read_lines-mem_commits (n + 1) lines _
  read_lines-mem_commits n (reg_line pc instr rd val ∷ lines) log =
      read_lines-mem_commits (n + 1) lines _
  read_lines-mem_commits n (plain_line pc instr ∷ lines) log =
      read_lines-mem_commits (n + 1) lines _
  read_lines-mem_commits n (mem_line pc instr addr val ∷ lines) log =
      read_lines-mem_commits (n + 1) lines _
      ∙ append_to-commit key (pc, instr) (addr, bit_and val mask32) (addr, val % 2 ^ 32)
          log.mem_by_line_context (mem_commits key lines) (ap (λ t. (addr, t)) (and_mask 32 val))
