-- ===== src/Isa/Access.antt =====
-- Words in the simulator's memory, at addresses whose four bytes lie inside it.
use risc_v_pipeline_sim.Common.{
  ℕ, ◌+◌, ◌*◌, ◌/◌, ◌%◌, ◌^◌, ◌≤◌, ◌<◌, ◌≡◌, refl, ◌∙◌, arith, true, false, some, ltb, leb,
}
use risc_v_pipeline_sim.Common.Bits.{and_mask, or_field}
use risc_v_pipeline_sim.Encoding.{◌|||◌}
use risc_v_pipeline_sim.Isa.Machine.{
  Machine, add_32, set_at, read_byte, write_byte, and_then, fetch_instruction, write_word,
  store_word,
}

-- The word in four bytes.
abbrev pub word_at : (ℕ → ℕ) → ℕ → ℕ
word_at mem a = mem a ||| mem (a + 1) * 2 ^ 8 ||| mem (a + 2) * 2 ^ 16 ||| mem (a + 3) * 2 ^ 24

add_32_small : (a k : ℕ) → a + k < 2 ^ 32 → add_32 a k ≡ a + k
add_32_small a k h = omega arith

inside : (a : ℕ) → a < 4096 → ltb a 4096 ≡ true
inside a h = ground arith

pub fetch_inside :
    (m : Machine) (a : ℕ) → a + 4 ≤ 4096 → fetch_instruction m a ≡ some (word_at m.memory a)
unfolding fetch_instruction read_byte
fetch_inside m a h =
    rw
      (
        add_32_small a 1 (omega arith),
        add_32_small a 2 (omega arith),
        add_32_small a 3 (omega arith),
        inside a (omega arith),
        inside (a + 1) (omega arith),
        inside (a + 2) (omega arith),
        inside (a + 3) (omega arith),
      )
      refl

-- The memory with a word written at an address.
abbrev pub with_word : (ℕ → ℕ) → (address value : ℕ) → ℕ → ℕ
with_word mem a v =
    set_at
      (set_at (set_at (set_at mem a (v % 2 ^ 8)) (a + 1) (v / 2 ^ 8 % 2 ^ 8)) (a + 2)
        (v / 2 ^ 16 % 2 ^ 8))
      (a + 3) (v / 2 ^ 24 % 2 ^ 8)

pub write_word_inside :
    (a v : ℕ) (m : Machine)
    → a + 4 ≤ 4096
    → write_word a v m ≡ some (record m { memory = with_word m.memory a v })
unfolding write_word write_byte and_then
write_word_inside a v m h =
    rw
      (
        add_32_small a 1 (omega arith),
        add_32_small a 2 (omega arith),
        add_32_small a 3 (omega arith),
        inside a (omega arith),
        inside (a + 1) (omega arith),
        inside (a + 2) (omega arith),
        inside (a + 3) (omega arith),
        and_mask 8 v,
        and_mask 8 (v / 2 ^ 8),
        and_mask 8 (v / 2 ^ 16),
        and_mask 8 (v / 2 ^ 24),
      )
      refl

pub store_word_inside :
    (a v : ℕ) (m : Machine)
    → a + 4 ≤ 4096
    → store_word a v m ≡ some (record m { memory = with_word m.memory a v })
unfolding store_word
store_word_inside a v m h =
    let room : leb 4096 (add_32 a 3) ≡ false = ground arith in rw room (write_word_inside a v m h)

-- Bytes outside the four stay.
pub with_word_below : (mem : ℕ → ℕ) (a v j : ℕ) → j < a → with_word mem a v j ≡ mem j
with_word_below mem a v j h = ground arith

pub with_word_above : (mem : ℕ → ℕ) (a v j : ℕ) → a + 4 ≤ j → with_word mem a v j ≡ mem j
with_word_above mem a v j h = ground arith

join_bytes :
    (a b c d : ℕ)
    → a < 256
    → b < 256
    → c < 256
    → d < 256
    → (a ||| b * 2 ^ 8 ||| c * 2 ^ 16 ||| d * 2 ^ 24) ≡ a + b * 2 ^ 8 + c * 2 ^ 16 + d * 2 ^ 24
join_bytes a b c d ha hb hc hd = ground (
  arith,
  or_field 8 16 a (b * 2 ^ 8),
  or_field 16 24 (a + b * 2 ^ 8) (c * 2 ^ 16),
  or_field 24 32 (a + b * 2 ^ 8 + c * 2 ^ 16) (d * 2 ^ 24),
)

with_word_bytes :
    (mem : ℕ → ℕ) (a v : ℕ)
    → (with_word mem a v a ≡ v % 2 ^ 8)
      × (with_word mem a v (a + 1) ≡ v / 2 ^ 8 % 2 ^ 8)
      × (with_word mem a v (a + 2) ≡ v / 2 ^ 16 % 2 ^ 8)
      × (with_word mem a v (a + 3) ≡ v / 2 ^ 24 % 2 ^ 8)
with_word_bytes mem a v = (ground arith, ground arith, ground arith, ground arith)

pub word_at-with_word : (mem : ℕ → ℕ) (a v : ℕ) → v < 2 ^ 32 → word_at (with_word mem a v) a ≡ v
word_at-with_word mem a v h =
    let (e0, e1, e2, e3) = with_word_bytes mem a v in
    let joined =
      join_bytes (v % 2 ^ 8) (v / 2 ^ 8 % 2 ^ 8) (v / 2 ^ 16 % 2 ^ 8) (v / 2 ^ 24 % 2 ^ 8)
        (omega arith) (omega arith) (omega arith) (omega arith) in
    (λ i. e0 i ||| e1 i * 2 ^ 8 ||| e2 i * 2 ^ 16 ||| e3 i * 2 ^ 24) ∙ joined ∙ omega arith

pub word_at_same :
    (mem mem' : ℕ → ℕ) (a : ℕ)
    → mem' a ≡ mem a
    → mem' (a + 1) ≡ mem (a + 1)
    → mem' (a + 2) ≡ mem (a + 2)
    → mem' (a + 3) ≡ mem (a + 3)
    → word_at mem' a ≡ word_at mem a
word_at_same mem mem' a e0 e1 e2 e3 = λ i. e0 i ||| e1 i * 2 ^ 8 ||| e2 i * 2 ^ 16 ||| e3 i * 2 ^ 24
