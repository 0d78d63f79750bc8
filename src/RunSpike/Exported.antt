-- ===== src/RunSpike/Exported.antt =====
-- The pattern of run_spike.py on Spike's lines: it matches those of -l and no commit line.
use mathlib.Core.Path.{subst}
use risc_v_pipeline_sim.Common.{
  ℕ, ◌-◌, ◌≡◌, refl, ◌∙◌, arith, inl, inr, Bool-cases, true, ◌==◌, none, some, [], ◌∷◌, ◌++◌,
  append-nil, Text, codes, length, take,
}
use risc_v_pipeline_sim.Regex.{
  Pattern, Groups, has, is, digit, hex, space, non_space, dot, star, opening, closing, lit, plus,
  group_of, match_here, search_in,
}
use risc_v_pipeline_sim.Regex.Steps.{match_one, match_one_not, match_opening, match_closing}
use risc_v_pipeline_sim.Regex.Runs.{
  AllIn, IsRun, Outside, Outside-run, Rejects, Rejects-one, Rejects-opening, Rejects-closing,
  plus_skip, plus_take, star_all, group_skip, taken, Disjoint-space-digit, Disjoint-digit-space,
  Disjoint-hex-space, Disjoint-space-hex, Disjoint-non_space-space,
}
use risc_v_pipeline_sim.SpikeLog.Quiet.{Quiet, Quiet-gap, search_core, search_core_none}
use risc_v_pipeline_sim.SpikeLog.Forms.{
  Head, head_text, head_tail, place_text, Commit, commit_text, Disjoint-space-char,
  Disjoint-digit-char, Disjoint-hex-char, IsRun-all, Quiet-space, Quiet-head, Quiet-place,
}
use risc_v_pipeline_sim.SpikeLog.Kinds.{Rejects-space-letter}
use risc_v_pipeline_sim.SpikeLog.Printed.{Disassembly, plain_form, form_text}
use risc_v_pipeline_sim.RunSpike.{literal_re, step_re, run_re}

-- A hexadecimal literal is one group.
literal_found :
    (p : Pattern) (s rest start : Text) (gs : Groups)
    → IsRun hex s
    → Outside hex rest
    → Rejects hex p
    → match_here (literal_re p) (codes "0x" ++ (s ++ rest)) start gs
      ≡ match_here p rest (codes "0x" ++ (s ++ rest)) (gs ++ (codes "0x" ++ s) ∷ [])
unfolding match_here
literal_found p s rest start gs h o r =
    let here = codes "0x" ++ (s ++ rest) in
    plus_skip hex (closing ∷ p) rest here gs s h o (Rejects-closing hex p r)
    ∙ match_closing p rest here gs
    ∙ (rw (taken (codes "0x" ++ s) rest) refl)

-- A privilege level is no such literal.
level_no_literal :
    (p : Pattern) (level gap t start : Text) (gs : Groups)
    → IsRun digit level
    → IsRun space gap
    → match_here (literal_re p) (level ++ (gap ++ t)) start gs ≡ none
level_no_literal p level gap t start gs hl hg =
    match_opening (lit (codes "0x") (plus hex (closing ∷ p))) (level ++ (gap ++ t)) start gs
    ∙ first level hl (level ++ (gap ++ t))
  where
    x_re : Pattern
    x_re = lit (codes "x") (plus hex (closing ∷ p))

    no_x :
        (g s : Text)
        → IsRun space g
        → match_here (lit (codes "x") (plus hex (closing ∷ p))) (g ++ t) s gs ≡ none
    no_x [] s h = absurd h
    no_x (c ∷ g) s h =
        match_one_not (is b'x') _ c (g ++ t) s gs (Disjoint-space-char b'x' refl c h.0)

    second :
        (ds s : Text)
        → AllIn digit ds
        → match_here (lit (codes "x") (plus hex (closing ∷ p))) (ds ++ (gap ++ t)) s gs ≡ none
    second [] s h = no_x gap s hg
    second (d ∷ ds) s h =
        match_one_not (is b'x') _ d (ds ++ (gap ++ t)) s gs (Disjoint-digit-char b'x' refl d h.0)

    first :
        (l : Text)
        → IsRun digit l
        → (s : Text)
        → match_here (lit (codes "0x") (plus hex (closing ∷ p))) (l ++ (gap ++ t)) s gs ≡ none
    first [] h s = absurd h
    first (d ∷ ds) h s = elim (Bool-cases (d == b'0')) [
      | inl zero ↦ match_one (is b'0') _ d (ds ++ (gap ++ t)) s gs zero ∙ second ds s h.1
      | inr other ↦ match_one_not (is b'0') _ d (ds ++ (gap ++ t)) s gs other
    ]

pub Rejects-space-step : Rejects space step_re
Rejects-space-step = Rejects-opening space _ (Rejects-space-letter b'0' _ refl)

pub match_head_group :
    (h : Head) (rest start : Text)
    → Outside space rest
    → match_here run_re (head_text h rest) start []
      ≡ match_here step_re rest (h.core ++ (b':' ∷ (h.gap ++ rest))) (h.core ∷ [])
unfolding match_here
match_head_group h rest start o =
    let behind = b':' ∷ (h.gap ++ rest) in
    let colon = lit (codes ":") (plus space step_re) in
    plus_skip space (group_of (plus digit) colon) (h.core ++ behind) start [] h.blanks h.blanks_run
      (Outside-run digit space h.core behind Disjoint-digit-space h.core_run)
      (Rejects-opening space (plus digit (closing ∷ colon))
        (Rejects-one space digit (star digit ∷ closing ∷ colon) Disjoint-space-digit))
    ∙ group_skip digit colon h.core behind start [] h.core_run refl
        (Rejects-one digit (is b':') (plus space step_re) (Disjoint-digit-char b':' refl))
    ∙ plus_skip space step_re rest (h.core ++ behind) (h.core ∷ []) h.gap h.gap_run o
        Rejects-space-step

-- Without a place behind the head, the line is passed over.
pub run_missed :
    (h : Head) (rest : Text)
    → Quiet rest
    → Outside space rest
    → ((start : Text) → match_here step_re rest start (h.core ∷ []) ≡ none)
    → search_in run_re (head_text h rest) ≡ none
run_missed h rest q o none_here =
    search_core_none _ (head_tail h rest) (Quiet-head h rest q)
      (match_head_group h rest (head_text h rest) o ∙ none_here _)

pub commit_passed :
    (c : Commit) (rest : Text) → Quiet rest → search_in run_re (commit_text c rest) ≡ none
commit_passed c rest q =
    let behind = c.gap ++ place_text c.place rest in
    run_missed c.head (c.level ++ behind)
      (Quiet-gap digit c.level behind (Disjoint-digit-char b'c' refl)
        (IsRun-all digit c.level c.level_run)
        (Quiet-space c.gap (place_text c.place rest) (IsRun-all space c.gap c.gap_run)
          (Quiet-place c.place rest q)))
      (Outside-run digit space c.level behind Disjoint-digit-space c.level_run)
      (λ start.
        level_no_literal _ c.level c.gap (place_text c.place rest) start _ c.level_run c.gap_run)

taken_all : (s : Text) → take (length s - 0) s ≡ s
taken_all s = subst (λ t. take (length t - 0) t ≡ s) (append-nil s) (taken s [])

abbrev pub hex_text : Text → Text
hex_text s = codes "0x" ++ s

pub plain_exported :
    (d : Disassembly)
    → search_in run_re (form_text (plain_form d))
      ≡ some
          (d.head.core ∷ hex_text d.place.pc ∷ hex_text d.place.instr ∷ (d.word ++ d.operands) ∷ [])
unfolding match_here
plain_exported d =
    let words = d.word ++ d.operands in
    let last = b')' ∷ (d.gap ++ words) in
    let bracket = codes "(0x" ++ (d.place.instr ++ last) in
    let behind = d.place.gap ++ bracket in
    let placed = place_text d.place (d.gap ++ words) in
    let start = d.head.core ++ (b':' ∷ (d.head.gap ++ placed)) in
    let words_re = opening ∷ star dot ∷ closing ∷ [] in
    let word_re = lit (codes ")") (plus space words_re) in
    let bracket_re = lit (codes "(") (literal_re word_re) in
    let gs : Groups = d.head.core ∷ hex_text d.place.pc ∷ [] in
    let out : Groups = gs ++ hex_text d.place.instr ∷ words ∷ [] in
    search_core _ (head_tail d.head placed) out (
      match_head_group d.head placed (head_text d.head placed) refl
      ∙ literal_found (plus space bracket_re) d.place.pc behind start (d.head.core ∷ [])
          d.place.pc_run
          (Outside-run space hex d.place.gap bracket Disjoint-space-hex d.place.gap_run)
          (Rejects-one hex space (star space ∷ bracket_re) Disjoint-hex-space)
      ∙ plus_skip space bracket_re bracket placed gs d.place.gap d.place.gap_run refl
          (Rejects-space-letter b'(' (literal_re word_re) refl)
      ∙ literal_found word_re d.place.instr last placed gs d.place.instr_run refl
          (Rejects-one hex (is b')') (plus space words_re) (Disjoint-hex-char b')' refl))
      ∙ plus_take space words_re words _ (gs ++ hex_text d.place.instr ∷ []) d.gap out d.gap_run
          (Outside-run non_space space d.word d.operands Disjoint-non_space-space d.word_run)
          (star_all dot (closing ∷ []) words words (gs ++ hex_text d.place.instr ∷ []) out
            (non_space_dots d.word d.operands d.word_run d.operands_dots)
            (rw (taken_all words) refl)))
  where
    non_space_dot : (x : ℕ) → has non_space x ≡ true → has dot x ≡ true
    non_space_dot x h = ground arith

    dots : (s t : Text) → AllIn non_space s → AllIn dot t → AllIn dot (s ++ t)
    dots [] t h h' = h'
    dots (x ∷ s) t h h' = (non_space_dot x h.0, dots s t h.1 h')

    non_space_dots : (s t : Text) → IsRun non_space s → AllIn dot t → AllIn dot (s ++ t)
    non_space_dots s t h = dots s t (IsRun-all non_space s h)
