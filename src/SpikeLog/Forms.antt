-- ===== src/SpikeLog/Forms.antt =====
-- The forms of Spike's lines, as spike_log_parser.py describes them, and the common parts of the
-- patterns on them.
use risc_v_pipeline_sim.Common.{ℕ, ◌≡◌, refl, ◌∙◌, arith, false, [], ◌∷◌, ◌++◌, Text, codes}
use risc_v_pipeline_sim.Regex.{
  Pattern, Groups, Class, has, is, digit, hex, space, star, lit, plus, group_of, match_here,
}
use risc_v_pipeline_sim.Regex.Runs.{
  AllIn, IsRun, Outside, Outside-run, Disjoint, Rejects, Rejects-one, plus_skip, group_skip,
  Disjoint-space-digit, Disjoint-space-hex, Disjoint-digit-space, Disjoint-hex-space,
}
use risc_v_pipeline_sim.SpikeLog.Quiet.{Quiet, Quiet-run, Quiet-gap, Quiet-letter}
use risc_v_pipeline_sim.SpikeLog.Scan.{core_re, place_re, commit_re}

-- `core   0: `
pub record Head : Type 0 where
  pub blanks : Text
  pub core : Text
  pub gap : Text
  pub blanks_run : IsRun space blanks
  pub core_run : IsRun digit core
  pub gap_run : IsRun space gap

abbrev pub head_text : Head → Text → Text
head_text h rest = codes "core" ++ (h.blanks ++ (h.core ++ (b':' ∷ (h.gap ++ rest))))

-- `0x80000016 (0xfff00f1b)`
pub record Place : Type 0 where
  pub pc : Text
  pub gap : Text
  pub instr : Text
  pub pc_run : IsRun hex pc
  pub gap_run : IsRun space gap
  pub instr_run : IsRun hex instr

abbrev pub place_text : Place → Text → Text
place_text p rest = codes "0x" ++ (p.pc ++ (p.gap ++ (codes "(0x" ++ (p.instr ++ (b')' ∷ rest)))))

-- A line of --log-commits up to the instruction word: the level, then the place.
pub record Commit : Type 0 where
  pub head : Head
  pub level : Text
  pub gap : Text
  pub place : Place
  pub level_run : IsRun digit level
  pub gap_run : IsRun space gap

abbrev pub commit_text : Commit → Text → Text
commit_text c rest = head_text c.head (c.level ++ (c.gap ++ place_text c.place rest))

Disjoint-digit-colon : Disjoint digit (is b':')
Disjoint-digit-colon x h = ground arith

Disjoint-hex-paren : Disjoint hex (is b')')
Disjoint-hex-paren x h = ground arith

pub Disjoint-space-char : (c : ℕ) → has space c ≡ false → Disjoint space (is c)
Disjoint-space-char c e x h = ground arith

pub match_head :
    (h : Head) (p : Pattern) (rest start : Text) (gs : Groups)
    → Outside space rest
    → Rejects space p
    → match_here (core_re p) (head_text h rest) start gs ≡ match_here p rest start gs
unfolding match_here
match_head h p rest start gs o r =
    let colon = lit (codes ":") (plus space p) in
    let behind = b':' ∷ (h.gap ++ rest) in
    plus_skip space (plus digit colon) (h.core ++ behind) start gs h.blanks h.blanks_run
      (Outside-run digit space h.core behind Disjoint-digit-space h.core_run)
      (Rejects-one space digit (star digit ∷ colon) Disjoint-space-digit)
    ∙ plus_skip digit colon behind start gs h.core h.core_run refl
        (Rejects-one digit (is b':') (plus space p) Disjoint-digit-colon)
    ∙ plus_skip space p rest start gs h.gap h.gap_run o r

-- Behind the place both groups are closed.
pub match_place :
    (l : Place) (p : Pattern) (rest start : Text) (gs : Groups)
    → match_here (place_re p) (place_text l rest) start gs
      ≡ match_here p rest (l.instr ++ (b')' ∷ rest)) ((gs ++ l.pc ∷ []) ++ l.instr ∷ [])
unfolding match_here
match_place l p rest start gs =
    let word = group_of (plus hex) (lit (codes ")") p) in
    let bracket = lit (codes "(0x") word in
    let last = b')' ∷ rest in
    let behind = codes "(0x" ++ (l.instr ++ last) in
    group_skip hex (plus space bracket) l.pc (l.gap ++ behind) start gs l.pc_run
      (Outside-run space hex l.gap behind Disjoint-space-hex l.gap_run)
      (Rejects-one hex space (star space ∷ bracket) Disjoint-hex-space)
    ∙ plus_skip space bracket behind (l.pc ++ (l.gap ++ behind)) (gs ++ l.pc ∷ []) l.gap l.gap_run
        refl (Rejects-one space (is b'(') (lit (codes "0x") word) (Disjoint-space-char b'(' refl))
    ∙ group_skip hex (lit (codes ")") p) l.instr last (l.pc ++ (l.gap ++ behind)) (gs ++ l.pc ∷ [])
        l.instr_run refl (Rejects-one hex (is b')') p Disjoint-hex-paren)

pub match_commit :
    (c : Commit) (p : Pattern) (rest start : Text) (gs : Groups)
    → match_here (commit_re p) (commit_text c rest) start gs
      ≡ match_here p rest
          (c.place.instr ++ (b')' ∷ rest))
          ((gs ++ c.place.pc ∷ []) ++ c.place.instr ∷ [])
unfolding match_here
match_commit c p rest start gs =
    let placed = place_text c.place rest in
    match_head c.head (plus digit (plus space (place_re p))) (c.level ++ (c.gap ++ placed)) start gs
      (Outside-run digit space c.level (c.gap ++ placed) Disjoint-digit-space c.level_run)
      (Rejects-one space digit (star digit ∷ plus space (place_re p)) Disjoint-space-digit)
    ∙ plus_skip digit (plus space (place_re p)) (c.gap ++ placed) start gs c.level c.level_run
        (Outside-run space digit c.gap placed Disjoint-space-digit c.gap_run)
        (Rejects-one digit space (star space ∷ place_re p) Disjoint-digit-space)
    ∙ plus_skip space (place_re p) placed start gs c.gap c.gap_run refl (
        Rejects-one space (is b'0')
          (lit (codes "x") (
            group_of (plus hex)
              (plus space (lit (codes "(0x") (group_of (plus hex) (lit (codes ")") p))))))
          (Disjoint-space-char b'0' refl))
    ∙ match_place c.place p rest start gs

pub Disjoint-digit-char : (c : ℕ) → has digit c ≡ false → Disjoint digit (is c)
Disjoint-digit-char c e x h = ground arith

pub Disjoint-hex-char : (c : ℕ) → has hex c ≡ false → Disjoint hex (is c)
Disjoint-hex-char c e x h = ground arith

pub IsRun-all : (c : Class) (s : Text) → IsRun c s → AllIn c s
IsRun-all c [] h = tt
IsRun-all c (x ∷ s) h = h

pub Quiet-space : (s rest : Text) → AllIn space s → Quiet rest → Quiet (s ++ rest)
Quiet-space s rest = Quiet-gap space s rest (Disjoint-space-char b'c' refl)

pub Quiet-digit : (s rest : Text) → IsRun digit s → Quiet rest → Quiet (s ++ rest)
Quiet-digit s rest h = Quiet-gap digit s rest (Disjoint-digit-char b'c' refl) (IsRun-all digit s h)

pub Quiet-hex :
    (s rest : Text) → IsRun hex s → Outside (is b'o') rest → Quiet rest → Quiet (s ++ rest)
Quiet-hex s rest h = Quiet-run hex s rest (Disjoint-hex-char b'o' refl) (IsRun-all hex s h)

-- A head without its first word.
abbrev pub head_tail : Head → Text → Text
head_tail h rest = h.blanks ++ (h.core ++ (b':' ∷ (h.gap ++ rest)))

pub Quiet-head : (h : Head) (rest : Text) → Quiet rest → Quiet (head_tail h rest)
Quiet-head h rest q =
    let behind = h.gap ++ rest in
    Quiet-space h.blanks (h.core ++ (b':' ∷ behind)) (IsRun-all space h.blanks h.blanks_run) (
      Quiet-digit h.core (b':' ∷ behind) h.core_run (
        Quiet-letter b':' behind refl (Quiet-space h.gap rest (IsRun-all space h.gap h.gap_run) q)))

pub Quiet-place : (l : Place) (rest : Text) → Quiet rest → Quiet (place_text l rest)
Quiet-place l rest q =
    let word = l.instr ++ (b')' ∷ rest) in
    let behind = codes "(0x" ++ word in
    let word_quiet : Quiet (b'x' ∷ word) =
      Quiet-letter b'x' word refl
        (Quiet-hex l.instr (b')' ∷ rest) l.instr_run refl (Quiet-letter b')' rest refl q)) in
    let gap_quiet : Quiet (l.gap ++ behind) =
      Quiet-space l.gap behind (IsRun-all space l.gap l.gap_run) (refl, (refl, word_quiet)) in
    let o = Outside-run space (is b'o') l.gap behind (Disjoint-space-char b'o' refl) l.gap_run in
    (
      refl,
      Quiet-letter b'x' (l.pc ++ (l.gap ++ behind)) refl
          (Quiet-hex l.pc (l.gap ++ behind) l.pc_run o gap_quiet),
    )

-- A commit line without its first word.
abbrev pub commit_tail : Commit → Text → Text
commit_tail c rest = head_tail c.head (c.level ++ (c.gap ++ place_text c.place rest))

pub Quiet-commit : (c : Commit) (rest : Text) → Quiet rest → Quiet (commit_tail c rest)
Quiet-commit c rest q =
    let placed = place_text c.place rest in
    Quiet-head c.head (c.level ++ (c.gap ++ placed)) (
      Quiet-digit c.level (c.gap ++ placed) c.level_run
        (Quiet-space c.gap placed (IsRun-all space c.gap c.gap_run) (Quiet-place c.place rest q)))
