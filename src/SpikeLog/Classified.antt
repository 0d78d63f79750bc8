-- ===== src/SpikeLog/Classified.antt =====
-- The parser's tests classify every printed line as the line it is: those before the one that is meant
-- for it do not match.
use risc_v_pipeline_sim.Common.{
  ℕ, ◌≡◌, refl, ◌∙◌, none, some, false, [], ◌∷◌, ◌++◌, Text, codes, ◌-◌, length, take,
}
use risc_v_pipeline_sim.Regex.{
  Pattern, Groups, has, is, digit, hex, space, non_space, dot, one, star, opening, closing, at_end,
  lit, plus, group_of, match_here, search_in,
}
use risc_v_pipeline_sim.Regex.Runs.{
  AllIn, Outside-run, Rejects, Rejects-one, Rejects-opening, plus_skip, plus_take, star_all,
  Disjoint-space-digit, Disjoint-space-non_space, Disjoint-non_space-space,
}
use risc_v_pipeline_sim.Regex.Steps.{match_opening}
use risc_v_pipeline_sim.SpikeLog.{bare_commit_line}
use risc_v_pipeline_sim.SpikeLog.Quiet.{search_core, search_core_none, classify-core}
use risc_v_pipeline_sim.SpikeLog.Forms.{
  head_text, head_tail, place_text, Commit, commit_text, commit_tail, match_head, match_place,
  IsRun-all, Quiet-space, Quiet-head, Quiet-place,
}
use risc_v_pipeline_sim.SpikeLog.Kinds.{
  gap_other, gap_only, Rejects-space-letter, commit_found, commit_missed, no_exception,
  exception_rest,
}
use risc_v_pipeline_sim.SpikeLog.Scan.{
  head_re, core_re, hex_number_re, exception_re, reg_re, mem_re, mem_read_re, bare_commit_re,
  plain_re, classify, scan, place_re, commit_re,
}
use risc_v_pipeline_sim.SpikeLog.Printed.{
  RegWrite, reg_rest, MemWrite, mem_rest, Disassembly, Trap, Form, reg_form, mem_form, read_form,
  bare_form, plain_form, trap_form, form_text, form_line,
}
use risc_v_pipeline_sim.SpikeLog.Matched.{
  trap_found, reg_found, mem_found, Quiet-reg, Quiet-mem, val_re,
}
use risc_v_pipeline_sim.SpikeLog.Reads.{blank_Quiet, classify-read}

classify-reg : (w : RegWrite) → classify (form_text (reg_form w)) ≡ form_line (reg_form w)
unfolding scan
classify-reg w =
    classify-core (commit_tail w.commit (reg_rest w))
    ∙ (rw (no_exception w.commit (reg_rest w) (Quiet-reg w), reg_found w) refl)

mem_no_reg : (w : MemWrite) → search_in reg_re (commit_text w.commit (mem_rest w)) ≡ none
mem_no_reg w =
    let l = w.commit.place in
    let rd_re = star space ∷ group_of (plus digit) val_re in
    commit_missed w.commit (plus space (lit (codes "x") rd_re)) (mem_rest w) (Quiet-mem w) (
      gap_other b'x' b'm' rd_re w.gap _ (l.instr ++ (b')' ∷ mem_rest w)) (l.pc ∷ l.instr ∷ []) refl
        refl refl w.gap_run)

classify-mem : (w : MemWrite) → classify (form_text (mem_form w)) ≡ form_line (mem_form w)
unfolding scan
classify-mem w =
    classify-core (commit_tail w.commit (mem_rest w))
    ∙ (rw (no_exception w.commit (mem_rest w) (Quiet-mem w), mem_no_reg w, mem_found w) refl)

-- A commit line with a blank rest.
module _ (c : Commit) (rest : Text) (h : AllIn space rest) where
  -- No pattern of a further field matches it.
  bare_missed :
      (a : ℕ) (q : Pattern)
      → has space a ≡ false
      → search_in (commit_re (plus space (one (is a) ∷ q))) (commit_text c rest) ≡ none
  bare_missed a q e =
      let l = c.place in
      commit_missed c (plus space (one (is a) ∷ q)) rest (blank_Quiet rest h)
        (gap_only a q rest (l.instr ++ (b')' ∷ rest)) (l.pc ∷ l.instr ∷ []) e h)

  bare_found :
      search_in bare_commit_re (commit_text c rest) ≡ some (c.place.pc ∷ c.place.instr ∷ [])
  unfolding match_here
  bare_found =
      let l = c.place in
      let gs : Groups = l.pc ∷ l.instr ∷ [] in
      commit_found c (star space ∷ at_end ∷ []) rest gs
        (star_all space (at_end ∷ []) rest (l.instr ++ (b')' ∷ rest)) gs gs h refl)

  classify-bare : classify (commit_text c rest) ≡ bare_commit_line
  unfolding scan
  classify-bare =
      let address_re = plus space (hex_number_re val_re) in
      let read_re = plus space (hex_number_re (star space ∷ at_end ∷ [])) in
      let reg : search_in reg_re (commit_text c rest) ≡ none =
        bare_missed b'x' (star space ∷ group_of (plus digit) val_re) refl in
      let mem : search_in mem_re (commit_text c rest) ≡ none =
        bare_missed b'm' (lit (codes "em") address_re) refl in
      let read : search_in mem_read_re (commit_text c rest) ≡ none =
        bare_missed b'm' (lit (codes "em") read_re) refl in
      classify-core (commit_tail c rest)
      ∙ (rw (no_exception c rest (blank_Quiet rest h), reg, mem, read, bare_found) refl)

-- The line that -l prints before an instruction runs.
module _ (d : Disassembly) where
  abbrev words : Text
  words = d.word ++ d.operands

  abbrev placed : Text
  placed = place_text d.place (d.gap ++ words)

  -- The place follows at once where a commit line has its level.
  plain_missed :
      (p : Pattern)
      → ((start : Text) → match_here p placed start [] ≡ none)
      → Rejects space p
      → search_in (core_re p) (head_text d.head placed) ≡ none
  plain_missed p none_here r =
      search_core_none _ (head_tail d.head placed)
        (Quiet-head d.head placed (
          Quiet-place d.place (d.gap ++ words)
            (Quiet-space d.gap words (IsRun-all space d.gap d.gap_run) d.text_quiet)))
        (match_head d.head p placed (head_text d.head placed) [] refl r
          ∙ none_here (head_text d.head placed))

  no_commit : (q : Pattern) → search_in (commit_re q) (head_text d.head placed) ≡ none
  unfolding match_here
  no_commit q =
      plain_missed (plus digit (plus space (place_re q))) (λ start. refl)
        (Rejects-one space digit (star digit ∷ plus space (place_re q)) Disjoint-space-digit)

  no_trap : search_in exception_re (head_text d.head placed) ≡ none
  unfolding match_here
  no_trap =
      plain_missed exception_rest (λ start. refl)
        (Rejects-space-letter b'e'
          (lit (codes "xception") (plus space (group_of (plus non_space) []))) refl)

  abbrev plain_groups : Groups
  plain_groups = d.place.pc ∷ d.place.instr ∷ take (length words - 0) words ∷ []

  plain_found : search_in plain_re (head_text d.head placed) ≡ some plain_groups
  unfolding match_here
  plain_found =
      let line = head_text d.head placed in
      let start = d.place.instr ++ (b')' ∷ (d.gap ++ words)) in
      let gs : Groups = d.place.pc ∷ d.place.instr ∷ [] in
      let tail_re = star dot ∷ closing ∷ at_end ∷ [] in
      let words_re = opening ∷ plus non_space tail_re in
      search_core (head_re (place_re (plus space words_re))) (head_tail d.head placed) plain_groups
        (match_head d.head (place_re (plus space words_re)) placed line [] refl (
            Rejects-space-letter b'0'
              (lit (codes "x") (
                group_of (plus hex) (
                  plus space (
                    lit (codes "(0x")
                      (group_of (plus hex) (lit (codes ")") (plus space words_re)))))))
              refl)
          ∙ match_place d.place (plus space words_re) (d.gap ++ words) line []
          ∙ plus_skip space words_re words start gs d.gap d.gap_run
              (Outside-run non_space space d.word d.operands Disjoint-non_space-space d.word_run)
              (Rejects-opening space (plus non_space tail_re)
                (Rejects-one space non_space (star non_space ∷ tail_re) Disjoint-space-non_space))
          ∙ match_opening (plus non_space tail_re) words start gs
          ∙ plus_take non_space tail_re d.operands words gs d.word plain_groups d.word_run
              d.operands_outside
              (star_all dot (closing ∷ at_end ∷ []) d.operands words gs plain_groups d.operands_dots
                refl))

  classify-plain : classify (form_text (plain_form d)) ≡ form_line (plain_form d)
  unfolding scan
  classify-plain =
      let address_re = plus space (hex_number_re val_re) in
      let read_re = plus space (hex_number_re (star space ∷ at_end ∷ [])) in
      let reg : search_in reg_re (head_text d.head placed) ≡ none =
        no_commit (plus space (lit (codes "x") (star space ∷ group_of (plus digit) val_re))) in
      let mem : search_in mem_re (head_text d.head placed) ≡ none =
        no_commit (plus space (lit (codes "mem") address_re)) in
      let read : search_in mem_read_re (head_text d.head placed) ≡ none =
        no_commit (plus space (lit (codes "mem") read_re)) in
      let bare : search_in bare_commit_re (head_text d.head placed) ≡ none =
        no_commit (star space ∷ at_end ∷ []) in
      classify-core (head_tail d.head placed)
      ∙ (rw (no_trap, reg, mem, read, bare, plain_found) refl)

classify-trap : (t : Trap) → classify (form_text (trap_form t)) ≡ form_line (trap_form t)
unfolding scan
classify-trap t =
    classify-core (head_tail t.head (codes "exception" ++ (t.gap ++ (t.name ++ t.rest))))
    ∙ (rw (trap_found t) refl)

-- A line of any of the six forms that the comments of the parser describe is classified as the form
-- says, with the numbers it was printed with. Numbers and white space have any width from one
-- character on; the text of a disassembly, and the value of a register or memory commit with what
-- follows it, have `core` in front of white space nowhere, no hex digit follows such a value, and
-- nothing but white space follows the address of a read or a bare commit.
pub classify-form : (f : Form) → classify (form_text f) ≡ form_line f
classify-form (reg_form w) = classify-reg w
classify-form (mem_form w) = classify-mem w
classify-form (read_form w) = classify-read w
classify-form (bare_form c rest h) = classify-bare c rest h
classify-form (plain_form d) = classify-plain d
classify-form (trap_form t) = classify-trap t
