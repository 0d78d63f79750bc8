-- ===== src/SvLog.antt =====
-- shared/spike/sv_log_parser.py: parse_sv_log, from the text of commit_log.txt.
pub mod Keys
pub mod Records
pub mod Unique
use risc_v_pipeline_sim.Common.{
  ℕ, ◌+◌, bit_and, Bool, true, false, Option, none, some, List, [], ◌∷◌, ◌++◌, leb, ◌==◌,
  if◌then◌else◌, map, Text, codes, int_base,
}
use risc_v_pipeline_sim.Common.Lines.{lines_of, strip}
use risc_v_pipeline_sim.Regex.{
  Pattern, Groups, hex, digit, space, at_end, lit, plus, group_of, match_start,
}
use risc_v_pipeline_sim.Trace.{SvRecord}
use risc_v_pipeline_sim.Trace.Compare.{mask32}

-- r"^PC\s+(\d+)\s+([0-9a-fA-F]+)$"
abbrev pub sv_pc_re : Pattern
sv_pc_re =
    lit (codes "PC")
      (plus space (group_of (plus digit) (plus space (group_of (plus hex) (at_end ∷ [])))))

-- r"^REG\s+(\d+)\s+(\d+)\s+([0-9a-fA-F]+)$"
abbrev pub sv_reg_re : Pattern
sv_reg_re = lit (codes "REG") (
    plus space (
      group_of (plus digit)
        (plus space (group_of (plus digit) (plus space (group_of (plus hex) (at_end ∷ [])))))))

-- r"^MEM\s+(\d+)\s+([0-9a-fA-F]+)\s+([0-9a-fA-F]+)$"
abbrev pub sv_mem_re : Pattern
sv_mem_re = lit (codes "MEM") (
    plus space (
      group_of (plus digit)
        (plus space (group_of (plus hex) (plus space (group_of (plus hex) (at_end ∷ [])))))))

-- What a line is, with the numbers in its groups.
pub data LogLine : Type 0 where
  empty_line unknown_line : LogLine
  pc_line : (idx pc : ℕ) → LogLine
  reg_line : (idx rd val : ℕ) → LogLine
  mem_line : (idx addr val : ℕ) → LogLine

abbrev pub as_pc : Option Groups → Option LogLine
as_pc (some (idx ∷ pc ∷ [])) = some (pc_line (int_base idx 10) (int_base pc 16))
as_pc _ = none

abbrev pub as_reg : Option Groups → Option LogLine
as_reg (some (idx ∷ rd ∷ val ∷ [])) =
    some (reg_line (int_base idx 10) (int_base rd 10) (bit_and (int_base val 16) mask32))
as_reg _ = none

abbrev pub as_mem : Option Groups → Option LogLine
as_mem (some (idx ∷ addr ∷ val ∷ [])) =
    some (mem_line (int_base idx 10) (int_base addr 16) (bit_and (int_base val 16) mask32))
as_mem _ = none

abbrev pub or_else : Option LogLine → LogLine → LogLine
or_else none other = other
or_else (some l) other = l

-- The tests on a stripped line, in their order.
unfoldable pub classify : Text → LogLine
classify [] = empty_line
classify (c ∷ s) =
    let line = c ∷ s in
    or_else (as_pc (match_start sv_pc_re line)) (
      or_else (as_reg (match_start sv_reg_re line))
        (or_else (as_mem (match_start sv_mem_re line)) unknown_line))

-- A dict from indices, in the order in which its keys were added.
abbrev pub Dict : Type 0 → Type 0
Dict V = List (ℕ × V)

module _ {V : Type 0} where
  -- `d[key] = v`
  unfoldable pub set_item : ℕ → V → Dict V → Dict V
  set_item key v [] = (key, v) ∷ []
  set_item key v ((k, w) ∷ rest) =
      let later = set_item key v rest in if k == key then (k, v) ∷ rest else (k, w) ∷ later

  -- `d.get(key)`
  unfoldable pub get_item : ℕ → Dict V → Option V
  get_item key [] = none
  get_item key ((k, w) ∷ rest) = let later = get_item key rest in if k == key then some w else later

  abbrev pub keys : Dict V → List ℕ
  keys [] = []
  keys ((k, w) ∷ rest) = k ∷ keys rest

-- The variables of the reading loop; unrecognised lines are named by their numbers and texts.
pub record SvState : Type 0 where
  pub pc_by_idx : Dict ℕ
  pub reg_by_idx : Dict (ℕ × ℕ)
  pub mem_by_idx : Dict (ℕ × ℕ)
  pub unrecognized : List (ℕ × Text)

-- The body of the loop behind the tests.
unfoldable pub note : ℕ → Text → LogLine → SvState → SvState
note line_no line empty_line st = st
note line_no line (pc_line idx pc) st = record st { pc_by_idx = set_item idx pc st.pc_by_idx }
note line_no line (reg_line idx rd val) st = record st {
  reg_by_idx = set_item idx (rd, val) st.reg_by_idx;
}
note line_no line (mem_line idx addr val) st = record st {
  mem_by_idx = set_item idx (addr, val) st.mem_by_idx;
}
note line_no line unknown_line st = record st {
  unrecognized = st.unrecognized ++ (line_no, line) ∷ [];
}

-- `for line_no, line in enumerate(f, 1)`, from a line number on.
unfoldable pub note_all : ℕ → List Text → SvState → SvState
note_all line_no [] st = st
note_all line_no (raw ∷ lines) st =
    note_all (line_no + 1) lines (note line_no (strip raw) (classify (strip raw)) st)

abbrev pub insert_sorted : ℕ → List ℕ → List ℕ
insert_sorted k [] = k ∷ []
insert_sorted k (x ∷ xs) =
    let later = insert_sorted k xs in if leb k x then k ∷ x ∷ xs else x ∷ later

-- `sorted(...)`
unfoldable pub sorted : List ℕ → List ℕ
sorted [] = []
sorted (k ∷ ks) = insert_sorted k (sorted ks)

-- `pc_by_idx[idx]`, for an idx among its keys.
abbrev pub pc_at : ℕ → Dict ℕ → ℕ
pc_at idx d = elim (get_item idx d) [ none ↦ 0 | some pc ↦ pc ]

abbrev pub record_of : SvState → ℕ → SvRecord
record_of st idx = record {
  idx = idx;
  pc = pc_at idx st.pc_by_idx;
  reg = get_item idx st.reg_by_idx;
  mem = get_item idx st.mem_by_idx;
}

abbrev pub start_state : SvState
start_state = record { pc_by_idx = []; reg_by_idx = []; mem_by_idx = []; unrecognized = [] }

-- The records and the unrecognised lines of a log.
unfoldable pub parse_sv_log : Text → List SvRecord × List (ℕ × Text)
parse_sv_log text =
    let st = note_all 1 (lines_of text) start_state in
    (map (record_of st) (sorted (keys st.pc_by_idx)), st.unrecognized)
