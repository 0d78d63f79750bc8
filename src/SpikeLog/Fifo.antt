-- ===== src/SpikeLog/Fifo.antt =====
-- Which commits each retired instruction of a Spike log gets.
use risc_v_pipeline_sim.Common.{
  ℕ, ◌+◌, ◌≡◌, refl, ap, ◌∙◌, arith, true, Option, inl, inr, List, [], ◌∷◌, map, if◌then◌else◌,
  Bool-cases,
}
use risc_v_pipeline_sim.Trace.{SpikeRecord}
use risc_v_pipeline_sim.SpikeLog.{
  Line, Key, same_key, QueueMap, pop_from, read_lines, correlate, empty_log, parse_lines,
}
use risc_v_pipeline_sim.SpikeLog.Commits.{
  retired, reg_commits, mem_commits, read_lines-retired, read_lines-reg_commits,
  read_lines-mem_commits,
}
use risc_v_pipeline_sim.SpikeLog.Queues.{waiting, head, tail, pop_from-head, waiting-pop_from}

abbrev pub key_of : SpikeRecord → Key
key_of r = (r.pc, r.instr)

-- A field of the records of one instruction, in order.
abbrev pub field_of :
    (SpikeRecord → Option (ℕ × ℕ)) → Key → List SpikeRecord → List (Option (ℕ × ℕ))
field_of f key [] = []
field_of f key (r ∷ records) =
    let rest = field_of f key records in if same_key key (key_of r) then f r ∷ rest else rest

-- One commit for each retirement of the instruction, first come first served, and None once there
-- are no more.
abbrev pub served : Key → List Key → List (ℕ × ℕ) → List (Option (ℕ × ℕ))
served key [] commits = []
served key (k ∷ seq) commits =
    let same = same_key key k in
    let rest = served key seq (if same then tail commits else commits) in
    if same then head commits ∷ rest else rest

waiting_same :
    (key k : Key) (queues : QueueMap)
    → same_key key k ≡ true
    → waiting k queues ≡ waiting key queues
waiting_same (a, b) (c, d) queues e =
    let first : c ≡ a = ground arith in let second : d ≡ b = ground arith in rw (first, second) refl

-- One step of the walk, for one of the two fields.
serve :
    (key k : Key) (seq : List Key) (queues : QueueMap) (fs : List (Option (ℕ × ℕ)))
    → fs ≡ served key seq (waiting key (pop_from k queues).1)
    → (if same_key key k then (pop_from k queues).0 ∷ fs else fs)
      ≡ served key (k ∷ seq) (waiting key queues)
serve key k seq queues fs ih = elim (Bool-cases (same_key key k)) [
  | inl same ↦
      let first = pop_from-head k queues ∙ ap head (waiting_same key k queues same) in
      let left : waiting key (pop_from k queues).1 ≡ tail (waiting key queues) =
        waiting-pop_from key k queues ∙ (rw same refl) in
      rw (same, first, ih, left) refl
  | inr other ↦
      let left : waiting key (pop_from k queues).1 ≡ waiting key queues =
        waiting-pop_from key k queues ∙ (rw other refl) in
      rw (other, ih, left) refl
]

correlate-served :
    (key : Key) (idx : ℕ) (seq : List Key) (regs mems : QueueMap)
    → (field_of (λ (r : SpikeRecord). r.reg) key (correlate idx seq regs mems)
        ≡ served key seq (waiting key regs))
      × (field_of (λ (r : SpikeRecord). r.mem) key (correlate idx seq regs mems)
          ≡ served key seq (waiting key mems))
unfolding correlate
correlate-served key idx [] regs mems = (refl, refl)
correlate-served key idx ((pc, instr) ∷ seq) regs mems =
    let k : Key = (pc, instr) in
    let (reg_ih, mem_ih) =
      correlate-served key (idx + 1) seq (pop_from k regs).1 (pop_from k mems).1 in
    (serve key k seq regs _ reg_ih, serve key k seq mems _ mem_ih)

correlate-keys :
    (idx : ℕ) (seq : List Key) (regs mems : QueueMap)
    → map key_of (correlate idx seq regs mems) ≡ seq
unfolding correlate
correlate-keys idx [] regs mems = refl
correlate-keys idx ((pc, instr) ∷ seq) regs mems =
    ap (λ t. (pc, instr) ∷ t) (correlate-keys (idx + 1) seq _ _)

-- The records are the retired instructions in the order of the log, and the records of one
-- instruction get its register commits and its memory commits, each in the order of the log, and
-- None once there are no more.
pub parse_lines-served :
    (lines : List Line) (key : Key)
    → let records = parse_lines lines in
      (map key_of records ≡ retired lines)
      × (field_of (λ (r : SpikeRecord). r.reg) key records
          ≡ served key (retired lines) (reg_commits key lines))
      × (field_of (λ (r : SpikeRecord). r.mem) key records
          ≡ served key (retired lines) (mem_commits key lines))
unfolding parse_lines
parse_lines-served lines key =
    let log = read_lines 1 lines empty_log in
    let seq = read_lines-retired 1 lines empty_log in
    let regs = read_lines-reg_commits key 1 lines empty_log in
    let mems = read_lines-mem_commits key 1 lines empty_log in
    let (reg, mem) =
      correlate-served key 0 log.records_by_pc_seq log.reg_by_line_context
        log.mem_by_line_context in
    (
      correlate-keys 0 log.records_by_pc_seq log.reg_by_line_context log.mem_by_line_context ∙ seq,
      reg ∙ (rw (seq, regs) refl),
      mem ∙ (rw (seq, mems) refl),
    )
