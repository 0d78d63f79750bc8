-- ===== src/RunSpike/Words.antt =====
-- The words that run_spike.py writes and the records of parse_spike_log, from the same log.
use risc_v_pipeline_sim.Common.{
  ℕ, ◌%◌, ◌^◌, ◌≡◌, refl, sym, ap, ◌∙◌, arith, true, false, ◌==◌, List, [], ◌∷◌, map, Text,
  int_base, All,
}
use risc_v_pipeline_sim.Common.Lines.{lines_of, OneLine, lines_of-text_of}
use risc_v_pipeline_sim.Trace.{SpikeRecord}
use risc_v_pipeline_sim.Regex.{has, hex}
use risc_v_pipeline_sim.Regex.Runs.{AllIn}
use risc_v_pipeline_sim.SpikeLog.Forms.{IsRun-all}
use risc_v_pipeline_sim.SpikeLog.Printed.{
  Form, reg_form, mem_form, read_form, bare_form, plain_form, trap_form, form_text, form_line,
}
use risc_v_pipeline_sim.SpikeLog.{parse_lines}
use risc_v_pipeline_sim.SpikeLog.Scan.{parse_spike_log}
use risc_v_pipeline_sim.SpikeLog.Commits.{retired}
use risc_v_pipeline_sim.SpikeLog.Fifo.{key_of, parse_lines-served}
use risc_v_pipeline_sim.SpikeLog.Whole.{spike_text, parse_spike_log-printed}
use risc_v_pipeline_sim.RunSpike.{is_line_end, run_spike_and_parse, export_for_sv}
use risc_v_pipeline_sim.RunSpike.Files.{PlainTrap, Unbroken, words, run_spike_and_parse-printed}

hex_no_newline : (c : ℕ) → has hex c ≡ true → (c == b'\n') ≡ false
hex_no_newline c h = ground arith

hex_OneLine : (s : Text) → AllIn hex s → OneLine s
hex_OneLine [] h = tt
hex_OneLine (c ∷ s) h = (hex_no_newline c h.0, hex_OneLine s h.1)

words-OneLine : (forms : List Form) → All OneLine (words forms)
words-OneLine [] = tt
words-OneLine (reg_form w ∷ forms) = words-OneLine forms
words-OneLine (mem_form w ∷ forms) = words-OneLine forms
words-OneLine (read_form w ∷ forms) = words-OneLine forms
words-OneLine (bare_form c rest b ∷ forms) = words-OneLine forms
words-OneLine (trap_form t ∷ forms) = words-OneLine forms
words-OneLine (plain_form d ∷ forms) =
    (hex_OneLine d.place.instr (IsRun-all hex d.place.instr d.place.instr_run), words-OneLine forms)

unbroken_OneLine : (s : Text) → All (λ c. is_line_end c ≡ false) s → OneLine s
unbroken_OneLine [] h = tt
unbroken_OneLine (c ∷ s) h = (ground (arith, h.0), unbroken_OneLine s h.1)

forms-OneLine : (forms : List Form) → All Unbroken forms → All OneLine (map form_text forms)
forms-OneLine [] h = tt
forms-OneLine (f ∷ forms) h = (unbroken_OneLine (form_text f) h.0, forms-OneLine forms h.1)

-- A word of the file, as $readmemh reads it into 32 bits.
abbrev pub read_word : Text → ℕ
read_word s = int_base s 16 % 2 ^ 32

words-retired :
    (forms : List Form)
    → map read_word (words forms) ≡ map (λ k. k.1) (retired (map form_line forms))
words-retired [] = refl
words-retired (reg_form w ∷ forms) = words-retired forms
words-retired (mem_form w ∷ forms) = words-retired forms
words-retired (read_form w ∷ forms) = words-retired forms
words-retired (bare_form c rest b ∷ forms) = words-retired forms
words-retired (trap_form t ∷ forms) = words-retired forms
words-retired (plain_form d ∷ forms) = ap (λ t. read_word d.place.instr ∷ t) (words-retired forms)

abbrev pub instr_of : SpikeRecord → ℕ
instr_of r = r.instr

map_instr :
    (records : List SpikeRecord) → map (λ k. k.1) (map key_of records) ≡ map instr_of records
map_instr [] = refl
map_instr (r ∷ records) = ap (λ t. r.instr ∷ t) (map_instr records)

-- On a log of Spike's forms, in which no line holds another line end, and `core` stands in front of
-- white space neither in the text of a disassembly or exception nor from the value on in a register
-- or memory commit, where no hex digit follows the value, and only white space follows a read's
-- address or a bare commit, the words of inst_mem.hex, cut to 32 bits, are the instruction words of
-- the records of parse_spike_log, in the same order.
pub export_for_sv-parse_spike_log :
    (forms : List Form)
    → All Unbroken forms
    → All PlainTrap forms
    → map read_word (lines_of (export_for_sv (run_spike_and_parse (spike_text forms))))
      ≡ map instr_of (parse_spike_log (spike_text forms)).0
export_for_sv-parse_spike_log forms h plain =
    let lines = map form_line forms in
    let written = (run_spike_and_parse-printed forms h plain).1 in
    let keys = (parse_lines-served lines (0, 0)).0 in
    ap (λ t. map read_word (lines_of t)) written
    ∙ ap (map read_word) (lines_of-text_of (words forms) (words-OneLine forms))
    ∙ words-retired forms
    ∙ ap (map (λ k. k.1)) (sym keys)
    ∙ map_instr (parse_lines lines)
    ∙ ap (λ r. map instr_of r.0) (sym (parse_spike_log-printed forms (forms-OneLine forms h)))
