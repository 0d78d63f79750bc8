-- ===== src/Common/Lines.antt =====
-- The lines of a text file as Python gives them, and `str.strip`.
use mathlib.Core.Path.{◌≡◌, refl, ap, ◌∙◌}
use mathlib.Core.Bool.{false}
use mathlib.Core.List.{List, [], ◌∷◌, ◌++◌}
use Prim.Native.Nat.{ℕ}
use risc_v_pipeline_sim.Common.Tests.{◌==◌, if◌then◌else◌}
use risc_v_pipeline_sim.Common.Lists.{All}
use risc_v_pipeline_sim.Common.Ascii.{Text, is_space}

abbrev pub onto_first : ℕ → List Text → List Text
onto_first c [] = (c ∷ []) ∷ []
onto_first c (line ∷ lines) = (c ∷ line) ∷ lines

-- The lines of a file, without the newline that ends each; the last may lack it.
unfoldable pub lines_of : Text → List Text
lines_of [] = []
lines_of (c ∷ s) = let rest = lines_of s in if c == b'\n' then [] ∷ rest else onto_first c rest

unfoldable pub lstrip : Text → Text
lstrip [] = []
lstrip (c ∷ s) = let rest = lstrip s in if is_space c then rest else c ∷ s

abbrev pub keep_before : ℕ → Text → Text
keep_before c [] = if is_space c then [] else c ∷ []
keep_before c (d ∷ s) = c ∷ d ∷ s

unfoldable pub rstrip : Text → Text
rstrip [] = []
rstrip (c ∷ s) = keep_before c (rstrip s)

-- `s.strip()`
unfoldable pub strip : Text → Text
strip s = rstrip (lstrip s)

-- No newline in the text.
abbrev pub OneLine : Text → Type 0
OneLine s = All (λ c. (c == b'\n') ≡ false) s

-- A line with its newline, in front of a text.
pub lines_of-line :
    (line rest : Text) → OneLine line → lines_of (line ++ b'\n' ∷ rest) ≡ line ∷ lines_of rest
unfolding lines_of
lines_of-line [] rest h = refl
lines_of-line (c ∷ line) rest h = rw (lines_of-line line rest h.1, h.0) refl

-- The lines of a file, each with its newline.
abbrev pub text_of : List Text → Text
text_of [] = []
text_of (line ∷ lines) = line ++ b'\n' ∷ text_of lines

pub lines_of-text_of : (lines : List Text) → All OneLine lines → lines_of (text_of lines) ≡ lines
lines_of-text_of [] h = unfold lines_of in refl
lines_of-text_of (line ∷ lines) h =
    lines_of-line line (text_of lines) h.0 ∙ ap (λ t. line ∷ t) (lines_of-text_of lines h.1)

-- A text that neither starts nor ends with white space.
abbrev pub EndsSolid : Text → Type 0
EndsSolid [] = Unit
EndsSolid (c ∷ []) = is_space c ≡ false
EndsSolid (c ∷ d ∷ s) = EndsSolid (d ∷ s)

abbrev pub StartsSolid : Text → Type 0
StartsSolid [] = Unit
StartsSolid (c ∷ s) = is_space c ≡ false

rstrip-EndsSolid : (s : Text) → EndsSolid s → rstrip s ≡ s
unfolding rstrip
rstrip-EndsSolid [] h = refl
rstrip-EndsSolid (c ∷ []) h = rw h refl
rstrip-EndsSolid (c ∷ d ∷ s) h = rw (rstrip-EndsSolid (d ∷ s) h) refl

lstrip-StartsSolid : (s : Text) → StartsSolid s → lstrip s ≡ s
unfolding lstrip
lstrip-StartsSolid [] h = refl
lstrip-StartsSolid (c ∷ s) h = rw h refl

pub strip_solid : (s : Text) → StartsSolid s → EndsSolid s → strip s ≡ s
unfolding strip
strip_solid s h h' = rw (lstrip-StartsSolid s h) (rstrip-EndsSolid s h')
