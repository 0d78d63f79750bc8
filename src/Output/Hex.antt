-- ===== src/Output/Hex.antt =====
-- program.hex, read back line by line.
use risc_v_pipeline_sim.Common.{
  ℕ, ◌+◌, ◌*◌, ◌^◌, ◌<◌, ◌≡◌, refl, arith, true, some, List, [], ◌∷◌, ◌++◌, map, ◌==◌,
  if◌then◌else◌, length, length-append, All, Text, is_hex, digit_value, int_from,
}
use risc_v_pipeline_sim.Common.Digits.{
  format_08x, format_08x-is_hex, int_base-format_08x, length-format_08x,
}
use risc_v_pipeline_sim.Effect.{ok}
use risc_v_pipeline_sim.Output.{write_hex}

-- The numbers in lines of hexadecimal digits; `acc` is what the line has so far.
abbrev pub read_lines : (acc : ℕ) → Text → List ℕ
read_lines acc [] = []
read_lines acc (c ∷ cs) =
    let other = read_lines (acc * 16 + digit_value c) cs in
    if c == b'\n' then acc ∷ read_lines 0 cs else other

-- A line of digits is read as their number.
read_lines-int_from :
    (acc : ℕ) (xs rest : Text)
    → All (λ c. is_hex c ≡ true) xs
    → read_lines acc ((xs ++ b'\n' ∷ []) ++ rest) ≡ int_from 16 acc xs ∷ read_lines 0 rest
read_lines-int_from acc [] rest h = refl
read_lines-int_from acc (x ∷ xs) rest h =
    ground (arith, read_lines-int_from (acc * 16 + digit_value x) xs rest h.1)

-- The text of all the lines.
abbrev pub hex_text : List ℕ → Text
hex_text [] = []
hex_text (w ∷ ws) = (format_08x w ++ b'\n' ∷ []) ++ hex_text ws

pub write_hex_lem : (ws : List ℕ) → write_hex (map some ws) ≡ ok (hex_text ws)
unfolding write_hex
write_hex_lem [] = refl
write_hex_lem (w ∷ ws) = rw (write_hex_lem ws) refl

pub read_lines-hex_text : (ws : List ℕ) → read_lines 0 (hex_text ws) ≡ ws
read_lines-hex_text [] = refl
read_lines-hex_text (w ∷ ws) =
    rw
      (
        read_lines-int_from 0 (format_08x w) (hex_text ws) (format_08x-is_hex w),
        int_base-format_08x w,
        read_lines-hex_text ws,
      )
      refl

pub length-hex_text :
    (ws : List ℕ) → All (λ w. w < 16 ^ 8) ws → length (hex_text ws) ≡ 9 * length ws
length-hex_text [] h = refl
length-hex_text (w ∷ ws) h = omega (
  arith,
  length-append (format_08x w ++ b'\n' ∷ []) (hex_text ws),
  length-append (format_08x w) (b'\n' ∷ []),
  length-format_08x w h.0,
  length-hex_text ws h.1,
)

-- For 32-bit words write_hex raises nothing, and its text, nine characters to a word, read line by
-- line as hexadecimal numbers gives the words back.
pub read_lines-write_hex :
    (ws : List ℕ)
    → All (λ w. w < 16 ^ 8) ws
    → (text : List ℕ) × (write_hex (map some ws) ≡ ok text)
      × (read_lines 0 text ≡ ws)
      × (length text ≡ 9 * length ws)
read_lines-write_hex ws h =
    (hex_text ws, write_hex_lem ws, read_lines-hex_text ws, length-hex_text ws h)
