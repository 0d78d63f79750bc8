-- ===== src/CommitLog/Solid.antt =====
-- The printed lines stay as they are under strip and when the file is split into lines.
use risc_v_pipeline_sim.Common.{
  ℕ, ◌<◌, ◌≡◌, refl, arith, true, false, ◌==◌, [], ◌∷◌, ◌++◌, Text, codes, is_hex, is_digit, All,
  All-append, length, length-append,
}
use risc_v_pipeline_sim.Common.Digits.{
  decimal, format_08x, format_08x-is_hex, length-format_08x_pos, decimal-is_digit,
}
use risc_v_pipeline_sim.Common.Lines.{strip, strip_solid, StartsSolid, EndsSolid, OneLine}
use risc_v_pipeline_sim.Regex.Runs.{Disjoint-hex-space}
use risc_v_pipeline_sim.CommitLog.{print_pc, print_reg, print_mem}

hex_solid : (s : Text) → All (λ c. is_hex c ≡ true) s → EndsSolid s
hex_solid [] h = tt
hex_solid (c ∷ []) h = Disjoint-hex-space c h.0
hex_solid (c ∷ d ∷ s) h = hex_solid (d ∷ s) h.1

EndsSolid-append : (s t : Text) → 0 < length t → EndsSolid t → EndsSolid (s ++ t)
EndsSolid-append [] t h e = e
EndsSolid-append (c ∷ []) [] h e = absurd (omega arith)
EndsSolid-append (c ∷ []) (d ∷ t) h e = e
EndsSolid-append (c ∷ d ∷ s) t h e = EndsSolid-append (d ∷ s) t h e

-- Blanks and digits are no newlines.
no_newline : (c : ℕ) → is_hex c ≡ true → (c == b'\n') ≡ false
no_newline c h = ground arith

hex_OneLine : (s : Text) → All (λ c. is_hex c ≡ true) s → OneLine s
hex_OneLine [] h = tt
hex_OneLine (c ∷ s) h = (no_newline c h.0, hex_OneLine s h.1)

digit_is_hex : (c : ℕ) → is_digit c ≡ true → is_hex c ≡ true
digit_is_hex c h = ground arith

digit_OneLine : (s : Text) → All (λ c. is_digit c ≡ true) s → OneLine s
digit_OneLine [] h = tt
digit_OneLine (c ∷ s) h = (no_newline c (digit_is_hex c h.0), digit_OneLine s h.1)

-- The rest of a line: not empty, with no white space at its end and no newline.
abbrev RestOfLine : Text → Type 0
RestOfLine t = (0 < length t) × EndsSolid t × OneLine t

RestOfLine-append : (s t : Text) → OneLine s → RestOfLine t → RestOfLine (s ++ t)
RestOfLine-append s t h (l, e, o) = (
  omega (arith, length-append s t),
  EndsSolid-append s t l e,
  All-append (λ c. (c == b'\n') ≡ false) s t h o,
)

hex_rest : (v : ℕ) → RestOfLine (format_08x v)
hex_rest v = (
  length-format_08x_pos v,
  hex_solid (format_08x v) (format_08x-is_hex v),
  hex_OneLine (format_08x v) (format_08x-is_hex v),
)

blank_rest : (t : Text) → RestOfLine t → RestOfLine (b' ' ∷ t)
blank_rest t h = RestOfLine-append (b' ' ∷ []) t (refl, tt) h

decimal_rest : (v : ℕ) (t : Text) → RestOfLine t → RestOfLine (decimal v ++ t)
decimal_rest v t h =
    RestOfLine-append (decimal v) t (digit_OneLine (decimal v) (decimal-is_digit v)) h

hex_then : (v : ℕ) (t : Text) → RestOfLine t → RestOfLine (format_08x v ++ t)
hex_then v t h =
    RestOfLine-append (format_08x v) t (hex_OneLine (format_08x v) (format_08x-is_hex v)) h

-- A line that the parser sees as it was printed.
abbrev pub Printed : Text → Type 0
Printed t = (strip t ≡ t) × OneLine t

Printed-RestOfLine : (t : Text) → StartsSolid t → RestOfLine t → Printed t
Printed-RestOfLine t s (l, e, o) = (strip_solid t s e, o)

pub print_pc-Printed : (idx pc : ℕ) → Printed (print_pc idx pc)
unfolding print_pc
print_pc-Printed idx pc = Printed-RestOfLine _ refl (
    RestOfLine-append (codes "PC ") _ (refl, (refl, (refl, tt)))
      (decimal_rest idx _ (blank_rest _ (hex_rest pc))))

pub print_reg-Printed : (idx rd val : ℕ) → Printed (print_reg idx rd val)
unfolding print_reg
print_reg-Printed idx rd val = Printed-RestOfLine _ refl (
    RestOfLine-append (codes "REG ") _ (refl, (refl, (refl, (refl, tt))))
      (decimal_rest idx _ (blank_rest _ (decimal_rest rd _ (blank_rest _ (hex_rest val))))))

pub print_mem-Printed : (idx addr val : ℕ) → Printed (print_mem idx addr val)
unfolding print_mem
print_mem-Printed idx addr val = Printed-RestOfLine _ refl (
    RestOfLine-append (codes "MEM ") _ (refl, (refl, (refl, (refl, tt))))
      (decimal_rest idx _ (blank_rest _ (hex_then addr _ (blank_rest _ (hex_rest val))))))
