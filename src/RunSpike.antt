-- ===== src/RunSpike.antt =====
-- shared/spike/run_spike.py: the instructions in Spike's log and the two files that are made from
-- them. The compiler and Spike are run by subprocess; what they print is an argument.
pub mod Exported
pub mod Files
pub mod Words
use risc_v_pipeline_sim.Common.{
  ℕ, Bool, true, false, ◌&&◌, ◌||◌, Option, none, some, List, [], ◌∷◌, ◌++◌, ◌==◌, if◌then◌else◌,
  Text, codes, in_range, int_base, replicate,
}
use risc_v_pipeline_sim.Common.Lines.{onto_first, strip}
use risc_v_pipeline_sim.Regex.{
  Pattern, Groups, digit, hex, space, dot, star, opening, closing, lit, plus, group_of, search_in,
}

-- A character that ends a line, and a line feed at the start.
abbrev pub is_line_end : ℕ → Bool
is_line_end c = in_range 10 13 c || in_range 28 30 c

abbrev pub starts_line_feed : Text → Bool
starts_line_feed [] = false
starts_line_feed (c ∷ s) = c == b'\n'

-- `s.splitlines()`
unfoldable pub splitlines : Text → List Text
splitlines [] = []
splitlines (c ∷ s) =
    let rest = splitlines s in
    if c == b'\r' && starts_line_feed s
    then rest
    else if is_line_end c
    then [] ∷ rest
    else onto_first c rest

-- r"(0x[0-9a-fA-F]+)" in front of a pattern.
abbrev pub literal_re : Pattern → Pattern
literal_re p = opening ∷ lit (codes "0x") (plus hex (closing ∷ p))

-- The pattern behind r"core\s+(\d+):\s+".
abbrev pub step_re : Pattern
step_re = literal_re (
    plus space (
      lit (codes "(")
        (literal_re (lit (codes ")") (plus space (opening ∷ star dot ∷ closing ∷ []))))))

abbrev pub run_re : Pattern
run_re =
    lit (codes "core") (plus space (group_of (plus digit) (lit (codes ":") (plus space step_re))))

pub record Inst : Type 0 where
  pub core : ℕ
  pub pc : Text
  pub inst_hex : Text
  pub disassembly : Text

-- `match.groups()`
abbrev pub inst_of : Option Groups → Option Inst
inst_of (some (core ∷ pc ∷ inst_hex ∷ disassembly ∷ [])) = some (record {
  core = int_base core 10;
  pc = pc;
  inst_hex = inst_hex;
  disassembly = strip disassembly;
})
inst_of _ = none

abbrev pub onto_insts : Option Inst → List Inst → List Inst
onto_insts none rest = rest
onto_insts (some inst) rest = inst ∷ rest

-- The loop over the lines.
unfoldable pub parse_insts : List Text → List Inst
parse_insts [] = []
parse_insts (line ∷ lines) = onto_insts (inst_of (search_in run_re line)) (parse_insts lines)

-- `parsed_instructions` of `run_spike_and_parse`, from Spike's standard error.
unfoldable pub run_spike_and_parse : Text → List Inst
run_spike_and_parse raw_log = parse_insts (splitlines raw_log)

abbrev pub trace_rows : List Inst → Text
trace_rows [] = []
trace_rows (inst ∷ insts) =
    (inst.pc
      ++ (codes " | " ++ (inst.inst_hex ++ (codes " | " ++ (inst.disassembly ++ b'\n' ∷ [])))))
    ++ trace_rows insts

-- spike_trace.txt
unfoldable pub spike_trace : List Inst → Text
spike_trace insts =
    codes "PC          | Opcode     | Disassembly"
    ++ b'\n' ∷ (replicate 50 b'-' ++ b'\n' ∷ trace_rows insts)

-- `inst["inst_hex"][2:]`
abbrev pub drop_two : Text → Text
drop_two (a ∷ b ∷ s) = s
drop_two _ = []

-- inst_mem.hex, written by `export_for_sv`.
unfoldable pub export_for_sv : List Inst → Text
export_for_sv [] = []
export_for_sv (inst ∷ insts) = (drop_two inst.inst_hex ++ b'\n' ∷ []) ++ export_for_sv insts
