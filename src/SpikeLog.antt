-- ===== src/SpikeLog.antt =====
-- shared/spike/spike_log_parser.py, parse_spike_log behind the matching of its regular expressions:
-- what each kind of line adds, and the walk that gives every retired instruction its commits.
pub mod Queues
pub mod Commits
pub mod Fifo
pub mod Scan
pub mod Forms
pub mod Quiet
pub mod Kinds
pub mod Printed
pub mod Matched
pub mod Reads
pub mod Classified
pub mod Whole
pub mod Ordered
pub mod Attributed
use risc_v_pipeline_sim.Common.{
  ℕ, ◌+◌, bit_and, Bool, true, false, ◌&&◌, Option, none, some, Text, List, [], ◌∷◌, ◌++◌, ◌==◌,
  if◌then◌else◌,
}
use risc_v_pipeline_sim.Trace.{SpikeRecord}
use risc_v_pipeline_sim.Trace.Compare.{mask32}

-- What a line is, by the first of the tests that it passes, with the numbers in the match's groups.
pub data Line : Type 0 where
  blank_line warning_line mem_read_line bare_commit_line : Line
  exception_line : (name line : Text) → Line
  other_line : (line : Text) → Line
  reg_line : (pc instr rd val : ℕ) → Line
  mem_line : (pc instr addr val : ℕ) → Line
  plain_line : (pc instr : ℕ) → Line

abbrev pub Key : Type 0
Key = ℕ × ℕ

abbrev pub same_key : Key → Key → Bool
same_key (a, b) (c, d) = a == c && b == d

-- A dict of lists of pairs, in the order in which its keys were added.
abbrev pub QueueMap : Type 0
QueueMap = List (Key × List (ℕ × ℕ))

-- `queues.setdefault(key, []).append(v)`
unfoldable pub append_to : Key → ℕ × ℕ → QueueMap → QueueMap
append_to key v [] = (key, v ∷ []) ∷ []
append_to key v ((k, vs) ∷ rest) =
    let later = append_to key v rest in
    if same_key key k then (k, vs ++ v ∷ []) ∷ rest else (k, vs) ∷ later

-- `queues[key].pop(0) if queues.get(key) else None`
unfoldable pub pop_from : Key → QueueMap → Option (ℕ × ℕ) × QueueMap
pop_from key [] = (none, [])
pop_from key ((k, []) ∷ rest) =
    let later = pop_from key rest in
    if same_key key k then (none, (k, []) ∷ rest) else (later.0, (k, []) ∷ later.1)
pop_from key ((k, v ∷ vs) ∷ rest) =
    let later = pop_from key rest in
    if same_key key k then (some v, (k, vs) ∷ rest) else (later.0, (k, v ∷ vs) ∷ later.1)

-- The variables of the reading loop.
pub record Log : Type 0 where
  pub records_by_pc_seq : List Key
  pub reg_by_line_context : QueueMap
  pub mem_by_line_context : QueueMap
  pub unrecognized : List (ℕ × Text)
  pub exceptions : List (ℕ × Text × Text)

unfoldable pub read_line : ℕ → Line → Log → Log
read_line line_no blank_line log = log
read_line line_no warning_line log = log
read_line line_no (exception_line name line) log = record log {
  exceptions = log.exceptions ++ (line_no, name, line) ∷ [];
}
read_line line_no mem_read_line log = log
read_line line_no bare_commit_line log = log
read_line line_no (other_line line) log = record log {
  unrecognized = log.unrecognized ++ (line_no, line) ∷ [];
}
read_line line_no (reg_line pc instr rd val) log = record log {
  reg_by_line_context = append_to (pc, instr) (rd, bit_and val mask32) log.reg_by_line_context;
}
read_line line_no (mem_line pc instr addr val) log = record log {
  mem_by_line_context = append_to (pc, instr) (addr, bit_and val mask32) log.mem_by_line_context;
}
read_line line_no (plain_line pc instr) log = record log {
  records_by_pc_seq = log.records_by_pc_seq ++ (bit_and pc mask32, bit_and instr mask32) ∷ [];
}

-- `for line_no, line in enumerate(f, 1)`, from a line number on.
unfoldable pub read_lines : ℕ → List Line → Log → Log
read_lines line_no [] log = log
read_lines line_no (line ∷ lines) log = read_lines (line_no + 1) lines (read_line line_no line log)

-- The walk over the retired instructions, from an index on.
unfoldable pub correlate : ℕ → List Key → (regs mems : QueueMap) → List SpikeRecord
correlate idx [] regs mems = []
correlate idx ((pc, instr) ∷ seq) regs mems =
    let (reg, regs') = pop_from (pc, instr) regs in
    let (mem, mems') = pop_from (pc, instr) mems in
    record { idx = idx; pc = pc; instr = instr; reg = reg; mem = mem }
    ∷ correlate (idx + 1) seq regs' mems'

abbrev pub empty_log : Log
empty_log = record {
  records_by_pc_seq = [];
  reg_by_line_context = [];
  mem_by_line_context = [];
  unrecognized = [];
  exceptions = [];
}

-- `records` of `parse_spike_log`, on the lines of the log.
unfoldable pub parse_lines : List Line → List SpikeRecord
parse_lines lines =
    let log = read_lines 1 lines empty_log in
    correlate 0 log.records_by_pc_seq log.reg_by_line_context log.mem_by_line_context
