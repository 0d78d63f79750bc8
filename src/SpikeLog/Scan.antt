-- ===== src/SpikeLog/Scan.antt =====
-- The regular expressions of parse_spike_log and the order of its tests on a line.
use risc_v_pipeline_sim.Common.{
  ℕ, Bool, true, false, Option, none, some, List, [], ◌∷◌, ◌==◌, if◌then◌else◌, Text, codes,
  int_base,
}
use risc_v_pipeline_sim.Common.Lines.{lines_of, strip}
use risc_v_pipeline_sim.Regex.{
  Pattern, Groups, digit, hex, space, non_space, dot, star, opening, closing, at_end, lit, plus,
  group_of, search_in,
}
use risc_v_pipeline_sim.Trace.{SpikeRecord}
use risc_v_pipeline_sim.SpikeLog.{
  Line, blank_line, warning_line, exception_line, mem_read_line, bare_commit_line, other_line,
  reg_line, mem_line, plain_line, read_lines, correlate, empty_log,
}

-- r"\s+\d+:\s+" in front of a pattern.
abbrev pub head_re : Pattern → Pattern
head_re p = plus space (plus digit (lit (codes ":") (plus space p)))

-- r"core\s+\d+:\s+" in front of a pattern.
abbrev pub core_re : Pattern → Pattern
core_re p = lit (codes "core") (head_re p)

-- r"0x([0-9a-fA-F]+)\s+\(0x([0-9a-fA-F]+)\)" in front of a pattern.
abbrev pub place_re : Pattern → Pattern
place_re p =
    lit (codes "0x") (
      group_of (plus hex)
        (plus space (lit (codes "(0x") (group_of (plus hex) (lit (codes ")") p)))))

-- The same with the privilege level of a commit line before it, r"\d+\s+".
abbrev pub commit_re : Pattern → Pattern
commit_re p = core_re (plus digit (plus space (place_re p)))

abbrev pub hex_number_re : Pattern → Pattern
hex_number_re p = lit (codes "0x") (group_of (plus hex) p)

-- PLAIN_RE
abbrev pub plain_re : Pattern
plain_re =
    core_re (place_re (plus space (opening ∷ plus non_space (star dot ∷ closing ∷ at_end ∷ []))))

-- REG_RE
abbrev pub reg_re : Pattern
reg_re = commit_re (
    plus space
      (lit (codes "x") (star space ∷ group_of (plus digit) (plus space (hex_number_re [])))))

-- MEM_RE
abbrev pub mem_re : Pattern
mem_re =
    commit_re
      (plus space (lit (codes "mem") (plus space (hex_number_re (plus space (hex_number_re []))))))

-- MEM_READ_RE
abbrev pub mem_read_re : Pattern
mem_read_re =
    commit_re
      (plus space (lit (codes "mem") (plus space (hex_number_re (star space ∷ at_end ∷ [])))))

-- BARE_COMMIT_RE
abbrev pub bare_commit_re : Pattern
bare_commit_re = commit_re (star space ∷ at_end ∷ [])

-- EXCEPTION_RE
abbrev pub exception_re : Pattern
exception_re = core_re (lit (codes "exception") (plus space (group_of (plus non_space) [])))

abbrev pub starts_with : Text → Text → Bool
starts_with s [] = true
starts_with [] (c ∷ t) = false
starts_with (x ∷ s) (c ∷ t) = let rest = starts_with s t in if x == c then rest else false

abbrev pub is_empty : Text → Bool
is_empty [] = true
is_empty (c ∷ s) = false

abbrev pub as_exception : Text → Option Groups → Option Line
as_exception line (some (name ∷ [])) = some (exception_line name line)
as_exception line _ = none

abbrev pub as_reg : Option Groups → Option Line
as_reg (some (pc ∷ instr ∷ rd ∷ val ∷ [])) =
    some (reg_line (int_base pc 16) (int_base instr 16) (int_base rd 10) (int_base val 16))
as_reg _ = none

abbrev pub as_mem : Option Groups → Option Line
as_mem (some (pc ∷ instr ∷ addr ∷ val ∷ [])) =
    some (mem_line (int_base pc 16) (int_base instr 16) (int_base addr 16) (int_base val 16))
as_mem _ = none

abbrev pub if_found : Option Groups → Line → Option Line
if_found none line = none
if_found (some g) line = some line

abbrev pub as_plain : Option Groups → Option Line
as_plain (some (pc ∷ instr ∷ text ∷ [])) = some (plain_line (int_base pc 16) (int_base instr 16))
as_plain _ = none

abbrev pub or_else : Option Line → Line → Line
or_else none other = other
or_else (some l) other = l

-- The searches, in their order.
unfoldable pub scan : Text → Line
scan line = or_else (as_exception line (search_in exception_re line)) (
    or_else (as_reg (search_in reg_re line)) (
      or_else (as_mem (search_in mem_re line)) (
        or_else (if_found (search_in mem_read_re line) mem_read_line) (
          or_else (if_found (search_in bare_commit_re line) bare_commit_line)
            (or_else (as_plain (search_in plain_re line)) (other_line line))))))

-- A line without its newline.
unfoldable pub classify : Text → Line
classify line =
    if is_empty (strip line)
    then blank_line
    else if starts_with (strip line) (codes "warning:")
    then warning_line
    else scan line

abbrev pub classified : List Text → List Line
classified [] = []
classified (line ∷ lines) = classify line ∷ classified lines

-- `parse_spike_log` on the text of the log: the records, the unrecognised lines and the exceptions.
unfoldable pub parse_spike_log : Text → List SpikeRecord × List (ℕ × Text) × List (ℕ × Text × Text)
parse_spike_log text =
    let log = read_lines 1 (classified (lines_of text)) empty_log in
    (
      correlate 0 log.records_by_pc_seq log.reg_by_line_context log.mem_by_line_context,
      log.unrecognized,
      log.exceptions,
    )
