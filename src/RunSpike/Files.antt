-- ===== src/RunSpike/Files.antt =====
-- What run_spike.py writes for a log of Spike's lines.
use risc_v_pipeline_sim.Common.{
  ◌≡◌, refl, ap, ◌∙◌, arith, false, ◌==◌, none, List, [], ◌∷◌, ◌++◌, append_assoc, map, Text, codes,
  int_base, All,
}
use risc_v_pipeline_sim.Common.Lines.{strip, text_of}
use risc_v_pipeline_sim.Regex.{space, match_here, search_in}
use risc_v_pipeline_sim.SpikeLog.Quiet.{Quiet, Quiet-letter}
use risc_v_pipeline_sim.SpikeLog.Forms.{IsRun-all, Quiet-space}
use risc_v_pipeline_sim.SpikeLog.Printed.{
  Trap, Form, reg_form, mem_form, read_form, bare_form, plain_form, trap_form, form_text, reg_rest,
  mem_rest, read_rest,
}
use risc_v_pipeline_sim.SpikeLog.Matched.{Quiet-reg, Quiet-mem}
use risc_v_pipeline_sim.SpikeLog.Reads.{Quiet-read, blank_Quiet}
use risc_v_pipeline_sim.SpikeLog.Whole.{spike_text}
use risc_v_pipeline_sim.RunSpike.{
  Inst, run_re, is_line_end, splitlines, parse_insts, run_spike_and_parse, export_for_sv,
}
use risc_v_pipeline_sim.RunSpike.Exported.{run_missed, commit_passed, plain_exported, hex_text}

-- Where the text of an exception has `core` in front of white space, another match could begin.
abbrev pub PlainTrap : Form → Type 0
PlainTrap (trap_form t) = Quiet (t.name ++ t.rest)
PlainTrap _ = Unit

-- No character that ends a line.
abbrev pub Unbroken : Form → Type 0
Unbroken f = All (λ c. is_line_end c ≡ false) (form_text f)

-- The instructions whose disassembly the log has.
abbrev pub executed : List Form → List Inst
executed [] = []
executed (plain_form d ∷ forms) =
    record {
      core = int_base d.head.core 10;
      pc = hex_text d.place.pc;
      inst_hex = hex_text d.place.instr;
      disassembly = strip (d.word ++ d.operands);
    }
    ∷ executed forms
executed (_ ∷ forms) = executed forms

abbrev pub words : List Form → List Text
words [] = []
words (plain_form d ∷ forms) = d.place.instr ∷ words forms
words (_ ∷ forms) = words forms

splitlines_line :
    (line rest : Text)
    → All (λ c. is_line_end c ≡ false) line
    → splitlines (line ++ b'\n' ∷ rest) ≡ line ∷ splitlines rest
unfolding splitlines
splitlines_line [] rest h = refl
splitlines_line (c ∷ line) rest h =
    let no_return : (c == b'\r') ≡ false = ground (arith, h.0) in
    rw (splitlines_line line rest h.1, h.0, no_return) refl

splitlines_text_of :
    (forms : List Form) → All Unbroken forms → splitlines (spike_text forms) ≡ map form_text forms
unfolding splitlines
splitlines_text_of [] h = refl
splitlines_text_of (f ∷ forms) h =
    splitlines_line (form_text f) (spike_text forms) h.0
    ∙ ap (λ t. form_text f ∷ t) (splitlines_text_of forms h.1)

trap_passed :
    (t : Trap) → Quiet (t.name ++ t.rest) → search_in run_re (form_text (trap_form t)) ≡ none
trap_passed t q =
    let behind = t.gap ++ (t.name ++ t.rest) in
    let here : Quiet (codes "exception" ++ behind) = (
      refl,
      (
        refl,
        (
          refl,
          (
            refl,
            (
              refl,
              (
                refl,
                (
                  refl,
                  (
                    refl,
                    Quiet-letter b'n' behind refl
                        (Quiet-space t.gap (t.name ++ t.rest) (IsRun-all space t.gap t.gap_run) q),
                  ),
                ),
              ),
            ),
          ),
        ),
      ),
    ) in
    run_missed t.head (codes "exception" ++ behind) here refl (λ start. unfold match_here in refl)

parse_insts-forms :
    (forms : List Form) → All PlainTrap forms → parse_insts (map form_text forms) ≡ executed forms
unfolding parse_insts
parse_insts-forms [] h = refl
parse_insts-forms (reg_form w ∷ forms) h =
    rw (commit_passed w.commit (reg_rest w) (Quiet-reg w)) (parse_insts-forms forms h.1)
parse_insts-forms (mem_form w ∷ forms) h =
    rw (commit_passed w.commit (mem_rest w) (Quiet-mem w)) (parse_insts-forms forms h.1)
parse_insts-forms (read_form w ∷ forms) h =
    rw (commit_passed w.commit (read_rest w) (Quiet-read w)) (parse_insts-forms forms h.1)
parse_insts-forms (bare_form c rest b ∷ forms) h =
    rw (commit_passed c rest (blank_Quiet rest b)) (parse_insts-forms forms h.1)
parse_insts-forms (trap_form t ∷ forms) h = rw (trap_passed t h.0) (parse_insts-forms forms h.1)
parse_insts-forms (plain_form d ∷ forms) h = rw (plain_exported d, parse_insts-forms forms h.1) refl

export_for_sv-executed :
    (forms : List Form) → export_for_sv (executed forms) ≡ text_of (words forms)
unfolding export_for_sv
export_for_sv-executed [] = refl
export_for_sv-executed (reg_form w ∷ forms) = export_for_sv-executed forms
export_for_sv-executed (mem_form w ∷ forms) = export_for_sv-executed forms
export_for_sv-executed (read_form w ∷ forms) = export_for_sv-executed forms
export_for_sv-executed (bare_form c rest b ∷ forms) = export_for_sv-executed forms
export_for_sv-executed (trap_form t ∷ forms) = export_for_sv-executed forms
export_for_sv-executed (plain_form d ∷ forms) =
    append_assoc d.place.instr (b'\n' ∷ []) (export_for_sv (executed forms))
    ∙ ap (λ t. d.place.instr ++ b'\n' ∷ t) (export_for_sv-executed forms)

-- On a log of Spike's forms, without other line ends, run_spike_and_parse returns the instructions
-- whose disassembly is printed, in their order, with the numbers and the text of the line, and
-- export_for_sv writes their words, one to a line, as they stand in the log.
pub run_spike_and_parse-printed :
    (forms : List Form)
    → All Unbroken forms
    → All PlainTrap forms
    → (run_spike_and_parse (spike_text forms) ≡ executed forms)
      × (export_for_sv (run_spike_and_parse (spike_text forms)) ≡ text_of (words forms))
unfolding run_spike_and_parse
run_spike_and_parse-printed forms h plain =
    let parsed : parse_insts (splitlines (spike_text forms)) ≡ executed forms =
      ap parse_insts (splitlines_text_of forms h) ∙ parse_insts-forms forms plain in
    (parsed, ap export_for_sv parsed ∙ export_for_sv-executed forms)
