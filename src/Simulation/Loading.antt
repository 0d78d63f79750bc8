-- ===== src/Simulation/Loading.antt =====
-- program.hex, read by load_from_file: the words stand in the memory one behind the other.
use risc_v_pipeline_sim.Common.{
  ℕ, zero, suc, ◌+◌, ◌*◌, ◌%◌, ◌^◌, ◌≤◌, ◌<◌, ◌≡◌, refl, ◌∙◌, arith, ap, true, false, ltb, ◌==◌,
  some, List, [], ◌∷◌, map, get_elem?, length, All, Text, is_hex, digit_value, int_from, int_base,
  append_assoc,
}
use risc_v_pipeline_sim.Common.Digits.{
  format_08x, format_08x-is_hex, int_base-format_08x, length-format_08x_pos,
}
use risc_v_pipeline_sim.Common.Lines.{lines_of, lines_of-line, OneLine}
use risc_v_pipeline_sim.Output.Hex.{hex_text}
use risc_v_pipeline_sim.Isa.Machine.{Machine, add_32, store_word, and_then}
use risc_v_pipeline_sim.Isa.Run.{
  isspace, skip_space, skip_prefix, digits_from, signed_hex, after_space, stoul, load_lines,
  load_from_file,
}
use risc_v_pipeline_sim.Isa.Access.{
  word_at, with_word, store_word_inside, with_word_below, word_at-with_word, word_at_same,
}
use risc_v_pipeline_sim.Simulation.{Code}

abbrev AllHex : Text → Type 0
AllHex s = All (λ c. is_hex c ≡ true) s

digits_from-AllHex : (acc : ℕ) (s : Text) → AllHex s → digits_from acc s ≡ int_from 16 acc s
digits_from-AllHex acc [] h = refl
digits_from-AllHex acc (c ∷ s) h = rw h.0 (digits_from-AllHex (acc * 16 + digit_value c) s h.1)

-- x is no digit.
skip_prefix-AllHex : (s : Text) → AllHex s → skip_prefix s ≡ s
skip_prefix-AllHex [] h = refl
skip_prefix-AllHex (a ∷ []) h = refl
skip_prefix-AllHex (a ∷ b ∷ []) h = refl
skip_prefix-AllHex (a ∷ b ∷ c ∷ s) h =
    let x : (b == b'x') ≡ false = ground (arith, h.1.0) in
    let y : (b == b'X') ≡ false = ground (arith, h.1.0) in ground (arith, x, y)

solid :
    (c : ℕ)
    → is_hex c ≡ true
    → (isspace c ≡ false) × ((c == b'-') ≡ false) × ((c == b'+') ≡ false) × ((c == b'\n') ≡ false)
solid c h = (ground arith, ground arith, ground arith, ground arith)

-- A number of up to 64 bits, written in digits.
stoul-AllHex :
    (s : Text) → AllHex s → 0 < length s → int_base s 16 < 2 ^ 64 → stoul s ≡ some (int_base s 16)
unfolding stoul
stoul-AllHex [] h nonempty small = absurd (omega arith)
stoul-AllHex (c ∷ s) h nonempty small =
    let (space, minus, plus, newline) = solid c h.0 in
    let digits : digits_from 0 (skip_prefix (c ∷ s)) ≡ int_base (c ∷ s) 16 =
      ap (digits_from 0) (skip_prefix-AllHex (c ∷ s) h) ∙ digits_from-AllHex 0 (c ∷ s) h in
    let room : ltb (int_base (c ∷ s) 16) (2 ^ 64) ≡ true = ground arith in
    let start : skip_space (c ∷ s) ≡ c ∷ s = rw space refl in
    let plain : after_space (c ∷ s) ≡ signed_hex false (c ∷ s) = rw (minus, plus) refl in
    let read : signed_hex false (c ∷ s) ≡ some (int_base (c ∷ s) 16) =
      rw (digits, room, h.0) refl in
    ap after_space start ∙ plain ∙ read

AllHex-OneLine : (s : Text) → AllHex s → OneLine s
AllHex-OneLine [] h = tt
AllHex-OneLine (c ∷ s) h = ((solid c h.0).3, AllHex-OneLine s h.1)

lines_of-hex_text : (ws : List ℕ) → lines_of (hex_text ws) ≡ map format_08x ws
lines_of-hex_text [] = unfold lines_of in refl
lines_of-hex_text (w ∷ ws) =
    ap lines_of (append_assoc (format_08x w) (b'\n' ∷ []) (hex_text ws))
    ∙ lines_of-line (format_08x w) (hex_text ws)
        (AllHex-OneLine (format_08x w) (format_08x-is_hex w))
    ∙ ap (λ t. format_08x w ∷ t) (lines_of-hex_text ws)

load_line :
    (a v : ℕ) (line : Text) (lines : List Text) (m : Machine)
    → 0 < length line
    → stoul line ≡ some v
    → load_lines a (line ∷ lines) m
      ≡ and_then (store_word a (v % 2 ^ 32) m) (load_lines (add_32 a 4) lines)
unfolding load_lines
load_line a v [] lines m h e = absurd (omega arith)
load_line a v (c ∷ line) lines m h e = rw (load_lines, e) refl

load_word :
    (i w : ℕ) (lines : List Text) (m : Machine)
    → i * 4 + 4 ≤ 4096
    → w < 2 ^ 32
    → load_lines (i * 4) (format_08x w ∷ lines) m
      ≡ load_lines ((i + 1) * 4) lines (record m { memory = with_word m.memory (i * 4) w })
unfolding and_then
load_word i w lines m room h =
    let number : stoul (format_08x w) ≡ some w =
      stoul-AllHex (format_08x w) (format_08x-is_hex w) (length-format_08x_pos w)
        (omega (arith, int_base-format_08x w))
      ∙ ap some (int_base-format_08x w) in
    let small : w % 2 ^ 32 ≡ w = omega arith in
    let next : add_32 (i * 4) 4 ≡ (i + 1) * 4 = omega arith in
    load_line (i * 4) w (format_08x w) lines m (length-format_08x_pos w) number
    ∙ (rw (small, store_word_inside (i * 4) w m room, next) refl)

-- A machine with the words in its memory, in their order.
record Loaded (i : ℕ) (ws : List ℕ) (m m' : Machine) : Type 0 where
  pub pc_kept : m'.pc ≡ m.pc
  pub registers_kept : m'.registers ≡ m.registers
  pub below_kept : (j : ℕ) → j < i * 4 → m'.memory j ≡ m.memory j
  pub in_memory : (k w : ℕ) → get_elem? ws k ≡ some w → word_at m'.memory ((i + k) * 4) ≡ w

load_words :
    (i : ℕ) (ws : List ℕ) (m : Machine)
    → (i + length ws) * 4 ≤ 4096
    → All (λ w. w < 2 ^ 32) ws
    → (m' : Machine) × (load_lines (i * 4) (map format_08x ws) m ≡ some m') × Loaded i ws m m'
load_words i [] m room h =
    unfold load_lines in
    (
      m,
      refl,
      record {
        pc_kept = refl;
        registers_kept = refl;
        below_kept = λ j le. refl;
        in_memory = λ k w e. absurd (cc);
      },
    )
load_words i (w ∷ ws) m room h =
    let m1 : Machine = record m { memory = with_word m.memory (i * 4) w } in
    let (m', e, l) = load_words (i + 1) ws m1 (omega arith) h.1 in
    (
      m',
      load_word i w (map format_08x ws) m (omega arith) h.0 ∙ e,
      record {
        pc_kept = l.pc_kept;
        registers_kept = l.registers_kept;
        below_kept = λ j le. l.below_kept j (omega arith) ∙ with_word_below m.memory (i * 4) w j le;
        in_memory = placed m1 m' l (word_at-with_word m.memory (i * 4) w h.0);
      },
    )
  where
    placed :
        (m1 m' : Machine)
        → Loaded (i + 1) ws m1 m'
        → word_at m1.memory (i * 4) ≡ w
        → (k v : ℕ) → get_elem? (w ∷ ws) k ≡ some v
        → word_at m'.memory ((i + k) * 4) ≡ v
    placed m1 m' l first zero v e =
        let here : (i + 0) * 4 ≡ i * 4 = omega arith in
        let same : w ≡ v = cc in
        ap (word_at m'.memory) here
        ∙ word_at_same m1.memory m'.memory (i * 4) (l.below_kept (i * 4) (omega arith))
            (l.below_kept (i * 4 + 1) (omega arith)) (l.below_kept (i * 4 + 2) (omega arith))
            (l.below_kept (i * 4 + 3) (omega arith))
        ∙ first
        ∙ same
    placed m1 m' l first (suc k) v e =
        let there : (i + suc k) * 4 ≡ (i + 1 + k) * 4 = omega arith in
        ap (word_at m'.memory) there ∙ l.in_memory k v e

-- From any state, load_from_file of the text of up to 1024 words of 32 bits puts every word at its
-- place in the memory, lowest byte first, and leaves the pc and the registers as they are.
pub load_from_file-Code :
    (ws : List ℕ) (m : Machine)
    → length ws * 4 ≤ 4096
    → All (λ w. w < 2 ^ 32) ws
    → (m' : Machine) × (load_from_file (hex_text ws) m ≡ some m')
      × (m'.pc ≡ m.pc)
      × (m'.registers ≡ m.registers)
      × Code ws m'
unfolding load_from_file
load_from_file-Code ws m room h =
    let (m', e, l) = load_words 0 ws m (omega arith) h in
    (
      m',
      ap (λ t. load_lines 0 t m) (lines_of-hex_text ws) ∙ e,
      l.pc_kept,
      l.registers_kept,
      λ k w e. ap (λ t. word_at m'.memory (t * 4)) (zero_add k) ∙ l.in_memory k w e,
    )
  where
    zero_add : (k : ℕ) → k ≡ 0 + k
    zero_add k = omega arith
