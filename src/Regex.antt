-- ===== src/Regex.antt =====
-- The regular expressions of shared/spike/spike_log_parser.py, shared/spike/sv_log_parser.py and
-- shared/spike/run_spike.py: a pattern is a sequence of characters, greedy repetitions, the ends of
-- groups and `$`. Python's `re` matches them by going back from the longest repetition.
pub mod Steps
pub mod Runs
use risc_v_pipeline_sim.Common.{
  ℕ, ◌-◌, Bool, true, false, not, Option, none, some, List, [], ◌∷◌, ◌++◌, ◌==◌, length, take, Text,
  is_digit, is_hex, is_space,
}

-- One character of a pattern.
pub data Class : Type 0 where
  is : ℕ → Class
  digit hex space non_space dot : Class

abbrev pub has : Class → ℕ → Bool
has (is a) c = c == a
has digit c = is_digit c
has hex c = is_hex c
has space c = is_space c
has non_space c = not (is_space c)
has dot c = not (c == b'\n')

pub data Item : Type 0 where
  one star : Class → Item
  opening closing at_end : Item

abbrev pub Pattern : Type 0
Pattern = List Item

-- `m.groups()`
abbrev pub Groups : Type 0
Groups = List Text

-- Literal characters in front of a pattern.
abbrev pub lit : Text → Pattern → Pattern
lit [] p = p
lit (c ∷ s) p = one (is c) ∷ lit s p

-- `C+` in front of a pattern.
abbrev pub plus : Class → Pattern → Pattern
plus c p = one c ∷ star c ∷ p

-- A group in front of a pattern.
abbrev pub group_of : (Pattern → Pattern) → Pattern → Pattern
group_of g p = opening ∷ g (closing ∷ p)

abbrev pub first_of : Option Groups → Option Groups → Option Groups
first_of (some g) other = some g
first_of none other = other

-- `start` is the text from the opening of the group that is open, `groups` those that are closed.
unfoldable pub match_here : Pattern → Text → (start : Text) → Groups → Option Groups
match_here [] s start groups = some groups
match_here (one c ∷ p) [] start groups = none
match_here (one c ∷ p) (x ∷ s) start groups = elim (has c x) [
  | true ↦ match_here p s start groups
  | false ↦ none
]
match_here (star c ∷ p) [] start groups = match_here p [] start groups
match_here (star c ∷ p) (x ∷ s) start groups = elim (has c x) [
  | true ↦ first_of (match_here (star c ∷ p) s start groups) (match_here p (x ∷ s) start groups)
  | false ↦ match_here p (x ∷ s) start groups
]
match_here (opening ∷ p) s start groups = match_here p s s groups
match_here (closing ∷ p) s start groups =
    match_here p s start (groups ++ take (length start - length s) start ∷ [])
match_here (at_end ∷ p) [] start groups = match_here p [] start groups
match_here (at_end ∷ p) (x ∷ []) start groups = elim (x == b'\n') [
  | true ↦ match_here p (x ∷ []) start groups
  | false ↦ none
]
match_here (at_end ∷ p) (x ∷ y ∷ s) start groups = none

-- `pattern.match(s)`
unfoldable pub match_start : Pattern → Text → Option Groups
match_start p s = match_here p s s []

-- `pattern.search(s)`: a match at the first position where there is one.
unfoldable pub search_in : Pattern → Text → Option Groups
search_in p [] = match_start p []
search_in p (c ∷ s) = first_of (match_start p (c ∷ s)) (search_in p s)
