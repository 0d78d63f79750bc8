-- ===== src/Isa/Run.antt =====
-- load_from_file and run_sim of src/main.cpp. A loop that need not end takes the number of its rounds.
use risc_v_pipeline_sim.Common.{
  ℕ, zero, suc, ◌+◌, ◌-◌, ◌*◌, ◌%◌, ◌^◌, Bool, true, false, ◌||◌, ◌&&◌, Option, none, some, List,
  [], ◌∷◌, ltb, ◌==◌, if◌then◌else◌, Text, in_range, is_hex, digit_value,
}
use risc_v_pipeline_sim.Common.Lines.{lines_of}
use risc_v_pipeline_sim.Isa.Machine.{Machine, add_32, fetch_instruction, store_word, and_then}
use risc_v_pipeline_sim.Isa.Execute.{decode_and_execute}

-- Where the simulation stands after some rounds.
pub data Status : Type 0 where
  running finished : Machine → Status
  undefined : Status

abbrev pub advance : Option Machine → Status
advance none = undefined
advance (some m) = running (record m { pc = add_32 m.pc 4 })

-- What is done with the word at the pc; a word of zeros ends the program.
abbrev pub perform : Machine → Option ℕ → Status
perform m none = undefined
perform m (some instr) = if instr == 0 then finished m else advance (decode_and_execute instr m)

-- A round of the loop of run_sim.
unfoldable pub step : Machine → Status
step m = if ltb m.pc 4096 then perform m (fetch_instruction m m.pc) else finished m

abbrev pub continue : Status → (Machine → Status) → Status
continue (running m) f = f m
continue (finished m) f = finished m
continue undefined f = undefined

unfoldable pub run_sim : (rounds : ℕ) → Machine → Status
run_sim zero m = running m
run_sim (suc rounds) m = continue (step m) (run_sim rounds)

-- The white space of C.
abbrev pub isspace : ℕ → Bool
isspace c = in_range 9 13 c || c == 32

abbrev pub skip_space : Text → Text
skip_space [] = []
skip_space (c ∷ s) = let rest = skip_space s in if isspace c then rest else c ∷ s

-- A prefix 0x in front of a digit.
abbrev pub skip_prefix : Text → Text
skip_prefix (a ∷ b ∷ c ∷ s) =
    if a == b'0' && (b == b'x' || b == b'X') && is_hex c then c ∷ s else a ∷ b ∷ c ∷ s
skip_prefix s = s

-- The number in the digits in front, behind those that `acc` stands for.
abbrev pub digits_from : ℕ → Text → ℕ
digits_from acc [] = acc
digits_from acc (c ∷ s) =
    let rest = digits_from (acc * 16 + digit_value c) s in if is_hex c then rest else acc

abbrev pub starts_hex : Text → Bool
starts_hex [] = false
starts_hex (c ∷ s) = is_hex c

-- The number with its sign; none where there are no digits or more than 64 bits.
abbrev pub signed_hex : (negative : Bool) → Text → Option ℕ
signed_hex negative s =
    let v = digits_from 0 (skip_prefix s) in
    if starts_hex s
    then (if ltb v (2 ^ 64) then some (if negative then (2 ^ 64 - v) % 2 ^ 64 else v) else none)
    else none

abbrev pub after_space : Text → Option ℕ
after_space [] = none
after_space (c ∷ s) =
    if c == b'-'
    then signed_hex true s
    else if c == b'+'
    then signed_hex false s
    else signed_hex false (c ∷ s)

-- `std::stoul(line, nullptr, 16)`; none where it throws.
unfoldable pub stoul : Text → Option ℕ
stoul line = after_space (skip_space line)

-- The loop over the lines, with `current_pc`; the message on a bad line is not part of the model.
unfoldable pub load_lines : (current_pc : ℕ) → List Text → Machine → Option Machine
load_lines current_pc [] m = some m
load_lines current_pc ([] ∷ lines) m = load_lines current_pc lines m
load_lines current_pc ((c ∷ line) ∷ lines) m = elim (stoul (c ∷ line)) [
  | none ↦ load_lines current_pc lines m
  | some v ↦
      and_then (store_word current_pc (v % 2 ^ 32) m) (load_lines (add_32 current_pc 4) lines)
]

unfoldable pub load_from_file : Text → Machine → Option Machine
load_from_file file m = load_lines 0 (lines_of file) m

-- The state at the start of `main`.
abbrev pub power_on : Machine
power_on = record { registers = λ r. 0; pc = 0; memory = λ a. 0 }
