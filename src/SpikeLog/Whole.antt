-- ===== src/SpikeLog/Whole.antt =====
-- parse_spike_log on the text of a whole log.
use risc_v_pipeline_sim.Common.{
  ℕ, ◌+◌, ◌≡◌, refl, sym, ◌∙◌, List, [], ◌∷◌, ◌++◌, append-nil, append_assoc, map, All, Text,
}
use risc_v_pipeline_sim.Common.Lines.{lines_of, OneLine, text_of, lines_of-text_of}
use risc_v_pipeline_sim.SpikeLog.{
  Line, blank_line, warning_line, exception_line, mem_read_line, bare_commit_line, other_line,
  reg_line, mem_line, plain_line, Log, read_line, read_lines, empty_log, parse_lines,
}
use risc_v_pipeline_sim.SpikeLog.Scan.{classified, parse_spike_log}
use risc_v_pipeline_sim.SpikeLog.Printed.{
  Form, reg_form, mem_form, read_form, bare_form, plain_form, trap_form, form_text, form_line,
}
use risc_v_pipeline_sim.SpikeLog.Classified.{classify-form}

-- The exceptions among the lines, with their line numbers.
abbrev pub traps : ℕ → List Line → List (ℕ × Text × Text)
traps line_no [] = []
traps line_no (exception_line name line ∷ lines) = (line_no, name, line) ∷ traps (line_no + 1) lines
traps line_no (_ ∷ lines) = traps (line_no + 1) lines

-- A log of the printed forms.
abbrev pub spike_text : List Form → Text
spike_text forms = text_of (map form_text forms)

classified-forms : (forms : List Form) → classified (map form_text forms) ≡ map form_line forms
classified-forms [] = refl
classified-forms (f ∷ forms) = rw (classify-form f, classified-forms forms) refl

read_lines-traps :
    (n : ℕ) (lines : List Line) (log : Log)
    → (read_lines n lines log).exceptions ≡ log.exceptions ++ traps n lines
unfolding read_lines read_line
read_lines-traps n [] log = sym (append-nil log.exceptions)
read_lines-traps n (blank_line ∷ lines) log = read_lines-traps (n + 1) lines log
read_lines-traps n (warning_line ∷ lines) log = read_lines-traps (n + 1) lines log
read_lines-traps n (exception_line name line ∷ lines) log =
    read_lines-traps (n + 1) lines _
    ∙ append_assoc log.exceptions ((n, name, line) ∷ []) (traps (n + 1) lines)
read_lines-traps n (mem_read_line ∷ lines) log = read_lines-traps (n + 1) lines log
read_lines-traps n (bare_commit_line ∷ lines) log = read_lines-traps (n + 1) lines log
read_lines-traps n (other_line line ∷ lines) log = read_lines-traps (n + 1) lines _
read_lines-traps n (reg_line pc instr rd val ∷ lines) log = read_lines-traps (n + 1) lines _
read_lines-traps n (mem_line pc instr addr val ∷ lines) log = read_lines-traps (n + 1) lines _
read_lines-traps n (plain_line pc instr ∷ lines) log = read_lines-traps (n + 1) lines _

-- Every form of line is recognised.
read_lines-recognized :
    (n : ℕ) (forms : List Form) (log : Log)
    → (read_lines n (map form_line forms) log).unrecognized ≡ log.unrecognized
unfolding read_lines read_line
read_lines-recognized n [] log = refl
read_lines-recognized n (reg_form w ∷ forms) log = read_lines-recognized (n + 1) forms _
read_lines-recognized n (mem_form w ∷ forms) log = read_lines-recognized (n + 1) forms _
read_lines-recognized n (read_form w ∷ forms) log = read_lines-recognized (n + 1) forms log
read_lines-recognized n (bare_form c rest h ∷ forms) log = read_lines-recognized (n + 1) forms log
read_lines-recognized n (plain_form d ∷ forms) log = read_lines-recognized (n + 1) forms _
read_lines-recognized n (trap_form t ∷ forms) log = read_lines-recognized (n + 1) forms _

-- On the text of a log in which every line is of one of Spike's six forms and holds no newline,
-- parse_spike_log leaves no line unrecognised, reports exactly the exceptions of the log with their
-- line numbers, and returns the records for the lines with the numbers they were printed with. In
-- the forms, numbers and white space have any width from one character on; the text of a
-- disassembly, and the value of a register or memory commit with what follows it, have `core` in
-- front of white space nowhere, no hex digit follows such a value, and nothing but white space
-- follows the address of a read or a bare commit.
pub parse_spike_log-printed :
    (forms : List Form)
    → All OneLine (map form_text forms)
    → parse_spike_log (spike_text forms)
      ≡ (parse_lines (map form_line forms), [], traps 1 (map form_line forms))
unfolding parse_spike_log parse_lines
parse_spike_log-printed forms h =
    let split : lines_of (spike_text forms) ≡ map form_text forms =
      lines_of-text_of (map form_text forms) h in
    let none_left = read_lines-recognized 1 forms empty_log in
    let trapped = read_lines-traps 1 (map form_line forms) empty_log in
    rw (split, classified-forms forms, none_left, trapped) refl
