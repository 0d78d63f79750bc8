-- ===== src/SpikeLog/Kinds.antt =====
-- The patterns of spike_log_parser.py on every form of line that its comments describe.
use risc_v_pipeline_sim.Common.{
  ℕ, ◌≡◌, refl, ◌∙◌, false, ◌==◌, none, some, [], ◌∷◌, ◌++◌, Text, codes,
}
use risc_v_pipeline_sim.Regex.{
  Pattern, Groups, has, is, digit, space, non_space, one, star, lit, plus, group_of, match_here,
  search_in,
}
use risc_v_pipeline_sim.Regex.Runs.{
  AllIn, IsRun, Outside-run, Rejects, Rejects-one, Rejects-run, plus_skip, Disjoint-digit-space,
}
use risc_v_pipeline_sim.Regex.Steps.{match_one, match_one_not, match_star}
use risc_v_pipeline_sim.SpikeLog.Quiet.{Quiet, search_core, search_core_none}
use risc_v_pipeline_sim.SpikeLog.Forms.{
  place_text, Commit, commit_text, commit_tail, match_head, match_commit, Disjoint-space-char,
  Disjoint-digit-char, Quiet-commit,
}
use risc_v_pipeline_sim.SpikeLog.Scan.{head_re, place_re, commit_re, exception_re}

-- After a gap another character stands.
pub gap_other :
    (a b : ℕ) (q : Pattern) (gap t start : Text) (gs : Groups)
    → (b == a) ≡ false
    → has space a ≡ false
    → has space b ≡ false
    → IsRun space gap
    → match_here (plus space (one (is a) ∷ q)) (gap ++ (b ∷ t)) start gs ≡ none
gap_other a b q gap t start gs e sa sb h =
    plus_skip space (one (is a) ∷ q) (b ∷ t) start gs gap h sb
      (Rejects-one space (is a) q (Disjoint-space-char a sa))
    ∙ match_one_not (is a) q b t start gs e

star_only :
    (a : ℕ) (q : Pattern) (gap start : Text) (gs : Groups)
    → has space a ≡ false
    → AllIn space gap
    → match_here (star space ∷ one (is a) ∷ q) gap start gs ≡ none
unfolding match_here
star_only a q [] start gs sa h = refl
star_only a q (x ∷ gap) start gs sa h =
    match_star space (one (is a) ∷ q) x gap start gs h.0
    ∙ (rw (star_only a q gap start gs sa h.1)
        (match_one_not (is a) q x gap start gs (Disjoint-space-char a sa x h.0)))

-- Only white space is left.
pub gap_only :
    (a : ℕ) (q : Pattern) (gap start : Text) (gs : Groups)
    → has space a ≡ false
    → AllIn space gap
    → match_here (plus space (one (is a) ∷ q)) gap start gs ≡ none
unfolding match_here
gap_only a q [] start gs sa h = refl
gap_only a q (x ∷ gap) start gs sa h =
    match_one space (star space ∷ one (is a) ∷ q) x gap start gs h.0
    ∙ star_only a q gap start gs sa h.1

pub Rejects-space-letter :
    (a : ℕ) (q : Pattern) → has space a ≡ false → Rejects space (one (is a) ∷ q)
Rejects-space-letter a q e = Rejects-one space (is a) q (Disjoint-space-char a e)

-- A commit line whose rest the pattern matches.
pub commit_found :
    (c : Commit) (p : Pattern) (rest : Text) (out : Groups)
    → match_here p rest (c.place.instr ++ (b')' ∷ rest)) ((c.place.pc ∷ []) ++ c.place.instr ∷ [])
      ≡ some out
    → search_in (commit_re p) (commit_text c rest) ≡ some out
commit_found c p rest out m =
    search_core (head_re (plus digit (plus space (place_re p)))) (commit_tail c rest) out
      (match_commit c p rest (commit_text c rest) [] ∙ m)

-- A commit line whose rest it does not match.
pub commit_missed :
    (c : Commit) (p : Pattern) (rest : Text)
    → Quiet rest
    → match_here p rest (c.place.instr ++ (b')' ∷ rest)) ((c.place.pc ∷ []) ++ c.place.instr ∷ [])
      ≡ none
    → search_in (commit_re p) (commit_text c rest) ≡ none
commit_missed c p rest q m =
    search_core_none _ (commit_tail c rest) (Quiet-commit c rest q)
      (match_commit c p rest (commit_text c rest) [] ∙ m)

abbrev pub exception_rest : Pattern
exception_rest = lit (codes "exception") (plus space (group_of (plus non_space) []))

pub no_exception :
    (c : Commit) (rest : Text) → Quiet rest → search_in exception_re (commit_text c rest) ≡ none
no_exception c rest q =
    let behind = c.gap ++ place_text c.place rest in
    search_core_none _ (commit_tail c rest) (Quiet-commit c rest q) (
      match_head c.head exception_rest (c.level ++ behind) (commit_text c rest) []
        (Outside-run digit space c.level behind Disjoint-digit-space c.level_run)
        (Rejects-space-letter b'e' _ refl)
      ∙ Rejects-run digit exception_rest c.level behind (commit_text c rest) []
          (Rejects-one digit (is b'e') _ (Disjoint-digit-char b'e' refl)) c.level_run)
