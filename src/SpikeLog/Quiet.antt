-- ===== src/SpikeLog/Quiet.antt =====
-- The search of the patterns of spike_log_parser.py in a line that starts with `core`: behind that
-- word no match can begin where `core` does not stand in front of white space.
use risc_v_pipeline_sim.Common.{
  Bool, is_space, if◌then◌else◌, ℕ, ◌≡◌, refl, ◌∙◌, arith, false, ◌==◌, none, some, [], ◌∷◌, ◌++◌,
  Text, codes, inl, inr, Bool-cases,
}
use risc_v_pipeline_sim.Common.Lines.{strip, lstrip, rstrip, keep_before}
use risc_v_pipeline_sim.Regex.{
  Class, is, space, one, lit, Pattern, Groups, match_here, match_start, search_in,
}
use risc_v_pipeline_sim.Regex.Steps.{match_one, match_one_not}
use risc_v_pipeline_sim.Regex.Runs.{AllIn, Outside, Disjoint}
use risc_v_pipeline_sim.SpikeLog.Scan.{classify, scan, is_empty, starts_with}

-- The text starts with the word and white space.
abbrev begins : Text → Text → Bool
begins [] [] = false
begins [] (x ∷ s) = is_space x
begins (a ∷ w) [] = false
begins (a ∷ w) (x ∷ s) = let rest = begins w s in if x == a then rest else false

-- Nowhere does `core` stand in front of white space.
abbrev pub Quiet : Text → Type 0
Quiet [] = Unit
Quiet (c ∷ s) = (begins (codes "core") (c ∷ s) ≡ false) × Quiet s

pub Quiet-letter : (x : ℕ) (s : Text) → (x == b'c') ≡ false → Quiet s → Quiet (x ∷ s)
Quiet-letter x s e q = (rw e refl, q)

no_ore : (x : ℕ) (s : Text) → Outside (is b'o') s → begins (codes "core") (x ∷ s) ≡ false
no_ore x [] o = ground arith
no_ore x (y ∷ s) o = ground arith

-- A run without `o`, in front of a text that does not start with one.
pub Quiet-run :
    (c : Class) (s rest : Text)
    → Disjoint c (is b'o')
    → AllIn c s
    → Outside (is b'o') rest
    → Quiet rest
    → Quiet (s ++ rest)
Quiet-run c [] rest apart h o q = q
Quiet-run c (x ∷ []) rest apart h o q = (no_ore x rest o, q)
Quiet-run c (x ∷ y ∷ s) rest apart h o q =
    (no_ore x (y ∷ (s ++ rest)) (apart y h.1.0), Quiet-run c (y ∷ s) rest apart h.1 o q)

-- A run without `c`.
pub Quiet-gap :
    (c : Class) (s rest : Text) → Disjoint c (is b'c') → AllIn c s → Quiet rest → Quiet (s ++ rest)
Quiet-gap c [] rest apart h q = q
Quiet-gap c (x ∷ s) rest apart h q =
    Quiet-letter x (s ++ rest) (apart x h.0) (Quiet-gap c s rest apart h.1 q)

-- The patterns of the parser all start with this word and white space.
abbrev core_gap : Pattern → Pattern
core_gap q = lit (codes "core") (one space ∷ q)

match_word-none :
    (q : Pattern) (w s start : Text)
    → begins w s ≡ false
    → match_here (lit w (one space ∷ q)) s start [] ≡ none
match_word-none q [] [] start h = unfold match_here in refl
match_word-none q [] (x ∷ s) start h = match_one_not space q x s start [] h
match_word-none q (a ∷ w) [] start h = unfold match_here in refl
match_word-none q (a ∷ w) (x ∷ s) start h = elim (Bool-cases (x == a)) [
  | inl here ↦
      match_one (is a) (lit w (one space ∷ q)) x s start [] here
      ∙ match_word-none q w s start (ground (arith, h, here))
  | inr other ↦ match_one_not (is a) (lit w (one space ∷ q)) x s start [] other
]

search_core_gap-none : (q : Pattern) (s : Text) → Quiet s → search_in (core_gap q) s ≡ none
unfolding search_in match_start match_here
search_core_gap-none q [] h = refl
search_core_gap-none q (c ∷ s) h =
    rw (match_word-none q (codes "core") (c ∷ s) (c ∷ s) h.0) (search_core_gap-none q s h.1)

module _ (q : Pattern) (s : Text) where
  -- A match at the start of a line is found.
  pub search_core :
      (g : Groups)
      → match_here (lit (codes "core") q) (codes "core" ++ s) (codes "core" ++ s) [] ≡ some g
      → search_in (lit (codes "core") q) (codes "core" ++ s) ≡ some g
  unfolding search_in match_start
  search_core g m = rw m refl

  -- Without one, nothing is found behind it.
  pub search_core_none :
      Quiet s
      → match_here (core_gap q) (codes "core" ++ s) (codes "core" ++ s) [] ≡ none
      → search_in (core_gap q) (codes "core" ++ s) ≡ none
  unfolding search_in match_start
  search_core_none h m =
      rw (m) (search_core_gap-none q (codes "ore" ++ s) (refl, (refl, (refl, h))))

solid : (s : Text) → is_empty (keep_before b'c' s) ≡ false
solid [] = refl
solid (c ∷ s) = refl

no_warning : (s : Text) → starts_with (keep_before b'c' s) (codes "warning:") ≡ false
no_warning [] = refl
no_warning (c ∷ s) = refl

-- Such a line is neither blank nor a warning.
pub classify-core : (s : Text) → classify (codes "core" ++ s) ≡ scan (codes "core" ++ s)
unfolding classify strip lstrip rstrip
classify-core s = let t = rstrip (codes "ore" ++ s) in rw (solid t, no_warning t) refl
