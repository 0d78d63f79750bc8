-- ===== src/Common/Ascii.antt =====
-- Texts as lists of ASCII codes, and Python's reading of digits.
use Prim.Native.Nat.{ℕ, ◌+◌, ◌-◌, ◌*◌}
use Prim.Native.Char.{code}
use Prim.Native.String.{String}
use mathlib.Core.Bool.{Bool, ◌&&◌, ◌||◌}
use mathlib.Core.List.{List, [], ◌∷◌}
use risc_v_pipeline_sim.Common.Tests.{leb, if◌then◌else◌}

abbrev pub Text : Type 0
Text = List ℕ

-- The codes of a literal.
abbrev pub codes : String → Text
codes String.[] = []
codes (String.◌∷◌ c s) = code c ∷ codes s

abbrev pub in_range : ℕ → ℕ → ℕ → Bool
in_range lo hi c = leb lo c && leb c hi

abbrev pub is_digit : ℕ → Bool
is_digit c = in_range b'0' b'9' c

-- `[0-9a-fA-F]`
abbrev pub is_hex : ℕ → Bool
is_hex c = is_digit c || in_range b'a' b'f' c || in_range b'A' b'F' c

-- `str.isspace`: the white space of ASCII, the separators 28 to 31 among it.
abbrev pub is_space : ℕ → Bool
is_space c = in_range 9 13 c || in_range 28 32 c

-- The value of a digit to any base up to 16.
abbrev pub digit_value : ℕ → ℕ
digit_value c = if leb c b'9' then c - b'0' else if leb c b'F' then c - b'A' + 10 else c - b'a' + 10

-- `int(text, base)` for a text of digits, behind those that `acc` stands for.
abbrev pub int_from : (base acc : ℕ) → Text → ℕ
int_from base acc [] = acc
int_from base acc (c ∷ s) = int_from base (acc * base + digit_value c) s

abbrev pub int_base : Text → (base : ℕ) → ℕ
int_base s base = int_from base 0 s
