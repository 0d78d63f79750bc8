-- ===== src/Isa/SameFields.antt =====
-- The simulator in C++ and the core in SystemVerilog read the same fields and immediates.
use risc_v_pipeline_sim.Common.{
  ℕ, ◌+◌, ◌-◌, ◌*◌, ◌/◌, ◌%◌, ◌^◌, ◌<◌, ◌≡◌, refl, sym, ap, ◌∙◌, arith, bit_and, not, ◌==◌,
  if◌then◌else◌,
}
use risc_v_pipeline_sim.Common.Bits.{and_mask, and_bit, and_high, or_field}
use risc_v_pipeline_sim.Encoding.{◌|||◌}
use risc_v_pipeline_sim.Encoding.Decode.{
  opcode_of, rd_of, funct3_of, rs1_of, rs2_of, funct7_of, imm_i, imm_s, imm_b, imm_j, imm_u,
}
use risc_v_pipeline_sim.Isa.{
  Fields, fields, sign_extend_12, decode_b_imm, decode_j_imm, decode_s_imm,
}

-- The mask of lui and auipc leaves the upper immediate.
pub mask_upper : (w : ℕ) → w < 2 ^ 32 → bit_and w 0xFFFFF000 ≡ imm_u w
mask_upper w h =
    let parts : w ≡ w / 2 ^ 12 * 2 ^ 12 + w % 2 ^ 12 = omega arith in
    let high : bit_and (w / 2 ^ 12 * 2 ^ 12 + w % 2 ^ 12) (0xFFFFF * 2 ^ 12)
        ≡ bit_and (w / 2 ^ 12) 0xFFFFF * 2 ^ 12 =
      and_high 12 (w / 2 ^ 12) (w % 2 ^ 12) 0xFFFFF (omega arith) in
    ap (λ t. bit_and t 0xFFFFF000) parts ∙ high ∙ ap (λ t. t * 2 ^ 12) (and_mask 20 (w / 2 ^ 12))

-- A value of k + 1 bits, its highest bit repeated up to bit 31.
extend_12 :
    (x : ℕ)
    → x < 2 ^ 12
    → (if not (bit_and x 0x800 == 0) then x ||| 0xFFFFF000 else x)
      ≡ x / 2 ^ 11 * (2 ^ 32 - 2 ^ 12) + x
extend_12 x h =
    let e : (0 * 2 + x / 2 ^ 11) * 2 ^ 11 + x % 2 ^ 11 ≡ x = omega arith in
    let bit : bit_and x 0x800 ≡ x / 2 ^ 11 * 2 ^ 11 =
      ap (λ t. bit_and t 0x800) (sym e)
      ∙ and_bit 11 0 (x / 2 ^ 11) (x % 2 ^ 11) (omega arith) (omega arith) in
    let filled = or_field 12 32 x 0xFFFFF000 (omega arith) (omega arith) refl in
    ground (arith, bit, filled)

extend_13 :
    (x : ℕ)
    → x < 2 ^ 13
    → (if not (bit_and x 0x1000 == 0) then x ||| 0xFFFFE000 else x)
      ≡ x / 2 ^ 12 * (2 ^ 32 - 2 ^ 13) + x
extend_13 x h =
    let e : (0 * 2 + x / 2 ^ 12) * 2 ^ 12 + x % 2 ^ 12 ≡ x = omega arith in
    let bit : bit_and x 0x1000 ≡ x / 2 ^ 12 * 2 ^ 12 =
      ap (λ t. bit_and t 0x1000) (sym e)
      ∙ and_bit 12 0 (x / 2 ^ 12) (x % 2 ^ 12) (omega arith) (omega arith) in
    let filled = or_field 13 32 x 0xFFFFE000 (omega arith) (omega arith) refl in
    ground (arith, bit, filled)

extend_21 :
    (x : ℕ)
    → x < 2 ^ 21
    → (if not (bit_and x 0x100000 == 0) then x ||| 0xFFE00000 else x)
      ≡ x / 2 ^ 20 * (2 ^ 32 - 2 ^ 21) + x
extend_21 x h =
    let e : (0 * 2 + x / 2 ^ 20) * 2 ^ 20 + x % 2 ^ 20 ≡ x = omega arith in
    let bit : bit_and x 0x100000 ≡ x / 2 ^ 20 * 2 ^ 20 =
      ap (λ t. bit_and t 0x100000) (sym e)
      ∙ and_bit 20 0 (x / 2 ^ 20) (x % 2 ^ 20) (omega arith) (omega arith) in
    let filled = or_field 21 32 x 0xFFE00000 (omega arith) (omega arith) refl in
    ground (arith, bit, filled)

join_s : (a b : ℕ) → b < 32 → (a * 2 ^ 5 ||| b * 2 ^ 0) ≡ a * 2 ^ 5 + b
join_s a b h =
    let e : b * 2 ^ 0 ≡ b = omega arith in
    rw e (or_field 0 5 (a * 2 ^ 5) b (omega arith) (omega arith) (omega arith))

join_b :
    (s a b c : ℕ)
    → a < 2
    → b < 64
    → c < 16
    → (s * 2 ^ 12 ||| a * 2 ^ 11 ||| b * 2 ^ 5 ||| c * 2 ^ 1)
      ≡ s * 2 ^ 12 + a * 2 ^ 11 + b * 2 ^ 5 + c * 2 ^ 1
join_b s a b c ha hb hc = ground (
  arith,
  or_field 11 12 (s * 2 ^ 12) (a * 2 ^ 11),
  or_field 5 11 (s * 2 ^ 12 + a * 2 ^ 11) (b * 2 ^ 5),
  or_field 1 5 (s * 2 ^ 12 + a * 2 ^ 11 + b * 2 ^ 5) (c * 2 ^ 1),
)

-- The fields of a jump are not joined in the order of their places.
join_j :
    (s a b c : ℕ)
    → a < 1024
    → b < 2
    → c < 256
    → (s * 2 ^ 20 ||| a * 2 ^ 1 ||| b * 2 ^ 11 ||| c * 2 ^ 12)
      ≡ s * 2 ^ 20 + a * 2 ^ 1 + b * 2 ^ 11 + c * 2 ^ 12
join_j s a b c ha hb hc = ground (
  arith,
  or_field 1 11 (s * 2 ^ 20) (a * 2 ^ 1),
  or_field 11 12 (s * 2 ^ 20 + a * 2 ^ 1) (b * 2 ^ 11),
  or_field 12 20 (s * 2 ^ 20 + a * 2 ^ 1 + b * 2 ^ 11) (c * 2 ^ 12),
)

sign_extend_12-imm_i : (w : ℕ) → w < 2 ^ 32 → sign_extend_12 (w / 2 ^ 20) ≡ imm_i w
unfolding sign_extend_12
sign_extend_12-imm_i w h = extend_12 (w / 2 ^ 20) (omega arith) ∙ omega arith

decode_s_imm-imm_s : (w : ℕ) → w < 2 ^ 32 → decode_s_imm w ≡ imm_s w
unfolding decode_s_imm
decode_s_imm-imm_s w h =
    let high = and_mask 7 (w / 2 ^ 25) in
    let low = and_mask 5 (w / 2 ^ 7) in
    rw (high, low, join_s (w / 2 ^ 25 % 2 ^ 7) (w / 2 ^ 7 % 2 ^ 5) (omega arith))
      (extend_12 (w / 2 ^ 25 % 2 ^ 7 * 2 ^ 5 + w / 2 ^ 7 % 2 ^ 5) (omega arith) ∙ omega arith)

decode_b_imm-imm_b : (w : ℕ) → w < 2 ^ 32 → decode_b_imm w ≡ imm_b w
unfolding decode_b_imm
decode_b_imm-imm_b w h =
    let x =
      w / 2 ^ 31 * 2 ^ 12
      + w / 2 ^ 7 % 2 ^ 1 * 2 ^ 11
      + w / 2 ^ 25 % 2 ^ 6 * 2 ^ 5
      + w / 2 ^ 8 % 2 ^ 4 * 2 ^ 1 in
    rw
      (
        and_mask 1 (w / 2 ^ 7),
        and_mask 6 (w / 2 ^ 25),
        and_mask 4 (w / 2 ^ 8),
        join_b (w / 2 ^ 31) (w / 2 ^ 7 % 2 ^ 1) (w / 2 ^ 25 % 2 ^ 6) (w / 2 ^ 8 % 2 ^ 4)
            (omega arith) (omega arith) (omega arith),
      )
      (extend_13 x (omega arith) ∙ omega arith)

decode_j_imm-imm_j : (w : ℕ) → w < 2 ^ 32 → decode_j_imm w ≡ imm_j w
unfolding decode_j_imm
decode_j_imm-imm_j w h =
    let x =
      w / 2 ^ 31 * 2 ^ 20
      + w / 2 ^ 21 % 2 ^ 10 * 2 ^ 1
      + w / 2 ^ 20 % 2 ^ 1 * 2 ^ 11
      + w / 2 ^ 12 % 2 ^ 8 * 2 ^ 12 in
    rw
      (
        and_mask 10 (w / 2 ^ 21),
        and_mask 1 (w / 2 ^ 20),
        and_mask 8 (w / 2 ^ 12),
        join_j (w / 2 ^ 31) (w / 2 ^ 21 % 2 ^ 10) (w / 2 ^ 20 % 2 ^ 1) (w / 2 ^ 12 % 2 ^ 8)
            (omega arith) (omega arith) (omega arith),
      )
      (extend_21 x (omega arith) ∙ omega arith)

abbrev pub core_fields : ℕ → Fields
core_fields w = record {
  opcode = opcode_of w;
  rd = rd_of w;
  funct3 = funct3_of w;
  rs1 = rs1_of w;
  rs2 = rs2_of w;
  funct7 = funct7_of w;
}

pub fields_masks : (w : ℕ) → fields w ≡ core_fields w
unfolding fields opcode_of rd_of funct3_of rs1_of rs2_of funct7_of
fields_masks w =
    let e : w / 2 ^ 0 ≡ w = omega arith in
    rw
      (
        e,
        and_mask 7 w,
        and_mask 5 (w / 2 ^ 7),
        and_mask 3 (w / 2 ^ 12),
        and_mask 5 (w / 2 ^ 15),
        and_mask 5 (w / 2 ^ 20),
        and_mask 7 (w / 2 ^ 25),
      )
      refl

-- For every word of 32 bits, the simulator in C++ takes the same opcode, function codes and registers
-- from it as the core, and its decoders give the bits of the immediates that the core's immediate
-- generator gives for loads and arithmetic, stores, branches and jumps.
pub fields-core_fields :
    (w : ℕ)
    → w < 2 ^ 32
    → (fields w ≡ core_fields w)
      × (sign_extend_12 (w / 2 ^ 20) ≡ imm_i w)
      × (decode_s_imm w ≡ imm_s w)
      × (decode_b_imm w ≡ imm_b w)
      × (decode_j_imm w ≡ imm_j w)
fields-core_fields w h = (
  fields_masks w,
  sign_extend_12-imm_i w h,
  decode_s_imm-imm_s w h,
  decode_b_imm-imm_b w h,
  decode_j_imm-imm_j w h,
)
