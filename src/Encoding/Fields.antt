-- ===== src/Encoding/Fields.antt =====
-- Each encoder of gen_program.py as a sum of its fields, for fields that are in range.
use risc_v_pipeline_sim.Common.{
  ℕ, ◌+◌, ◌-◌, ◌*◌, ◌/◌, ◌%◌, ◌^◌, ◌<◌, ◌≡◌, ap, arith, residue, ℤ, pos, negsuc, land,
}
use risc_v_pipeline_sim.Common.Bits.{or_field, and_mask}
use native.Mathlib.Nat.{one-le-pow}
use risc_v_pipeline_sim.Encoding.{u32, enc_r, enc_i, enc_shift, enc_s, enc_b, enc_u, enc_j, ◌|||◌}

-- The fields that most formats share, as a sum; `top` starts at bit 20.
unfoldable pub packed : ℕ → ℕ → ℕ → ℕ → ℕ → ℕ
packed top rs1 funct3 rd opcode =
    top * 2 ^ 20 + rs1 * 2 ^ 15 + funct3 * 2 ^ 12 + rd * 2 ^ 7 + opcode

-- The lower four fields below a part that starts at bit 20.
pack_low :
    (top rs1 funct3 rd opcode : ℕ)
    → top < 4096
    → rs1 < 32
    → funct3 < 8
    → rd < 32
    → opcode < 128
    → u32 (top * 2 ^ 20 ||| rs1 * 2 ^ 15 ||| funct3 * 2 ^ 12 ||| rd * 2 ^ 7 ||| opcode)
      ≡ packed top rs1 funct3 rd opcode
unfolding packed u32
pack_low top rs1 funct3 rd opcode ht h1 h3 hd ho = ground (
  arith,
  or_field 15 20 (top * 2 ^ 20) (rs1 * 2 ^ 15),
  or_field 12 15 (top * 2 ^ 20 + rs1 * 2 ^ 15) (funct3 * 2 ^ 12),
  or_field 7 12 (top * 2 ^ 20 + rs1 * 2 ^ 15 + funct3 * 2 ^ 12) (rd * 2 ^ 7),
  or_field 0 7 (top * 2 ^ 20 + rs1 * 2 ^ 15 + funct3 * 2 ^ 12 + rd * 2 ^ 7) opcode,
  and_mask 32 (packed top rs1 funct3 rd opcode),
)

-- Two fields above bit 20.
join_top : (hi lo : ℕ) → lo < 32 → (hi * 2 ^ 25 ||| lo * 2 ^ 20) ≡ (hi * 32 + lo) * 2 ^ 20
join_top hi lo h = ground (arith, or_field 20 25 (hi * 2 ^ 25) (lo * 2 ^ 20))

join_three :
    (a b c : ℕ)
    → b < 64
    → c < 32
    → (a * 2 ^ 31 ||| b * 2 ^ 25 ||| c * 2 ^ 20) ≡ ((a * 64 + b) * 32 + c) * 2 ^ 20
join_three a b c hb hc =
    ground (arith, or_field 25 31 (a * 2 ^ 31) (b * 2 ^ 25), join_top (a * 64 + b) c)

upper_fields :
    (top rs1 funct3 : ℕ)
    → rs1 < 32
    → funct3 < 8
    → (top * 2 ^ 20 ||| rs1 * 2 ^ 15 ||| funct3 * 2 ^ 12)
      ≡ top * 2 ^ 20 + rs1 * 2 ^ 15 + funct3 * 2 ^ 12
upper_fields top rs1 funct3 h1 h3 = ground (
  arith,
  or_field 15 20 (top * 2 ^ 20) (rs1 * 2 ^ 15),
  or_field 12 15 (top * 2 ^ 20 + rs1 * 2 ^ 15) (funct3 * 2 ^ 12),
)

-- A branch splits the field of rd in two.
join_rd :
    (x hi lo : ℕ)
    → x % 2 ^ 12 ≡ 0
    → hi < 16
    → lo < 2
    → (x ||| hi * 2 ^ 8 ||| lo * 2 ^ 7) ≡ (x ||| (hi * 2 + lo) * 2 ^ 7)
join_rd x hi lo hx hh hl = ground (
  arith,
  or_field 8 12 x (hi * 2 ^ 8),
  or_field 7 8 (x + hi * 2 ^ 8) (lo * 2 ^ 7),
  or_field 7 12 x ((hi * 2 + lo) * 2 ^ 7),
)

-- `z & (2 ^ k - 1)` is the k-bit pattern of `z`.
land-residue : (k : ℕ) (z : ℤ) → land z (2 ^ k - 1) ≡ residue k z
land-residue k (pos n) = and_mask k n
land-residue k (negsuc n) = ap (λ t. 2 ^ k - 1 - t) (and_mask k n)

pub residue-lt : (k : ℕ) (z : ℤ) → residue k z < 2 ^ k
residue-lt k (pos n) = omega (arith, one-le-pow k 2)
residue-lt k (negsuc n) = omega (arith, one-le-pow k 2)

module _ (opcode funct3 : ℕ) (ho : opcode < 128) (h3 : funct3 < 8) where
  pub enc_r-packed :
      (funct7 rd rs1 rs2 : ℕ)
      → funct7 < 128
      → rd < 32
      → rs1 < 32
      → rs2 < 32
      → enc_r opcode funct3 funct7 rd rs1 rs2 ≡ packed (funct7 * 32 + rs2) rs1 funct3 rd opcode
  unfolding enc_r
  enc_r-packed funct7 rd rs1 rs2 h7 hd h1 h2 =
      rw (join_top funct7 rs2 h2)
        (pack_low (funct7 * 32 + rs2) rs1 funct3 rd opcode (omega arith) h1 h3 hd ho)

  pub enc_shift-packed :
      (funct7 rd rs1 shamt : ℕ)
      → funct7 < 128
      → rd < 32
      → rs1 < 32
      → enc_shift opcode funct3 funct7 rd rs1 shamt
        ≡ packed (funct7 * 32 + shamt % 32) rs1 funct3 rd opcode
  unfolding enc_shift
  enc_shift-packed funct7 rd rs1 shamt h7 hd h1 =
      rw (and_mask 5 shamt, join_top funct7 (shamt % 32) (omega arith))
        (pack_low (funct7 * 32 + shamt % 32) rs1 funct3 rd opcode (omega arith) h1 h3 hd ho)

  pub enc_i-packed :
      (rd rs1 : ℕ) (imm : ℤ)
      → rd < 32
      → rs1 < 32
      → enc_i opcode funct3 rd rs1 imm ≡ packed (residue 12 imm) rs1 funct3 rd opcode
  unfolding enc_i
  enc_i-packed rd rs1 imm hd h1 =
      rw (land-residue 12 imm)
        (pack_low (residue 12 imm) rs1 funct3 rd opcode (residue-lt 12 imm) h1 h3 hd ho)

  pub enc_s-packed :
      (rs1 rs2 : ℕ) (imm : ℤ)
      → rs1 < 32
      → rs2 < 32
      → enc_s opcode funct3 rs1 rs2 imm
        ≡ packed (residue 12 imm / 32 * 32 + rs2) rs1 funct3 (residue 12 imm % 32) opcode
  unfolding enc_s
  enc_s-packed rs1 rs2 imm h1 h2 =
      let m = residue 12 imm in
      rw (land-residue 12 imm, and_mask 5 m, join_top (m / 32) rs2 h2)
        (pack_low (m / 32 * 32 + rs2) rs1 funct3 (m % 32) opcode (omega (arith, residue-lt 12 imm))
          h1 h3 (omega arith) ho)

  pub enc_b-packed :
      (rs1 rs2 : ℕ) (imm : ℤ)
      → rs1 < 32
      → rs2 < 32
      → let m = residue 13 imm in
        enc_b opcode funct3 rs1 rs2 imm
        ≡ packed
            ((m / 4096 % 2 * 64 + m / 32 % 64) * 32 + rs2)
            rs1
            funct3
            (m / 2 % 16 * 2 + m / 2048 % 2)
            opcode
  unfolding enc_b
  enc_b-packed rs1 rs2 imm h1 h2 =
      let m = residue 13 imm in
      let top = (m / 4096 % 2 * 64 + m / 32 % 64) * 32 + rs2 in
      rw
        (
          land-residue 13 imm,
          and_mask 1 (m / 4096),
          and_mask 1 (m / 2048),
          and_mask 6 (m / 32),
          and_mask 4 (m / 2),
          join_three (m / 4096 % 2) (m / 32 % 64) rs2 (omega arith) h2,
          upper_fields top rs1 funct3 h1 h3,
          join_rd (top * 2 ^ 20 + rs1 * 2 ^ 15 + funct3 * 2 ^ 12) (m / 2 % 16) (m / 2048 % 2)
              (omega arith) (omega arith) (omega arith),
          ← upper_fields top rs1 funct3 h1 h3,
        )
        (pack_low top rs1 funct3 (m / 2 % 16 * 2 + m / 2048 % 2) opcode (omega arith) h1 h3
          (omega arith) ho)

-- The 20 upper bits of the two formats without rs1 and funct3.
pack_upper :
    (hi rd opcode : ℕ)
    → hi < 2 ^ 20
    → rd < 32
    → opcode < 128
    → u32 (hi * 2 ^ 12 ||| rd * 2 ^ 7 ||| opcode) ≡ hi * 2 ^ 12 + rd * 2 ^ 7 + opcode
unfolding u32
pack_upper hi rd opcode hh hd ho = ground (
  arith,
  or_field 7 12 (hi * 2 ^ 12) (rd * 2 ^ 7),
  or_field 0 7 (hi * 2 ^ 12 + rd * 2 ^ 7) opcode,
  and_mask 32 (hi * 2 ^ 12 + rd * 2 ^ 7 + opcode),
)

-- A jump puts bit 11 and then bits 1 to 10 between what it has put already.
jump_fields :
    (a b c d : ℕ)
    → b < 256
    → c < 2
    → d < 1024
    → (a * 2 ^ 31 ||| b * 2 ^ 12 ||| c * 2 ^ 20 ||| d * 2 ^ 21)
      ≡ (((a * 1024 + d) * 2 + c) * 256 + b) * 2 ^ 12
jump_fields a b c d hb hc hd = ground (
  arith,
  or_field 12 20 (a * 2 ^ 31) (b * 2 ^ 12),
  or_field 20 21 (a * 2 ^ 31 + b * 2 ^ 12) (c * 2 ^ 20),
  or_field 21 31 (a * 2 ^ 31 + b * 2 ^ 12 + c * 2 ^ 20) (d * 2 ^ 21),
)

module _ (opcode rd : ℕ) (ho : opcode < 128) (hd : rd < 32) where
  pub enc_u-packed :
      (imm20 : ℕ) → enc_u opcode rd imm20 ≡ imm20 % 2 ^ 20 * 2 ^ 12 + rd * 2 ^ 7 + opcode
  unfolding enc_u
  enc_u-packed imm20 =
      rw (and_mask 20 imm20) (pack_upper (imm20 % 2 ^ 20) rd opcode (omega arith) hd ho)

  pub enc_j-packed :
      (imm : ℤ)
      → let m = residue 21 imm in
        enc_j opcode rd imm
        ≡ (((m / 2 ^ 20 % 2 * 1024 + m / 2 % 1024) * 2 + m / 2048 % 2) * 256 + m / 4096 % 256)
            * 2 ^ 12
          + rd * 2 ^ 7
          + opcode
  unfolding enc_j
  enc_j-packed imm =
      let m = residue 21 imm in
      rw
        (
          land-residue 21 imm,
          and_mask 1 (m / 2 ^ 20),
          and_mask 8 (m / 4096),
          and_mask 1 (m / 2048),
          and_mask 10 (m / 2),
          jump_fields (m / 2 ^ 20 % 2) (m / 4096 % 256) (m / 2048 % 2) (m / 2 % 1024) (omega arith)
              (omega arith) (omega arith),
        )
        (pack_upper _ rd opcode (omega arith) hd ho)
