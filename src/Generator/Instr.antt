-- ===== src/Generator/Instr.antt =====
-- One random instruction: the tables, the constants and `_gen_one_instr` of gen_program.py.
use risc_v_pipeline_sim.Common.{
  ℕ, zero, suc, ◌+◌, ◌-◌, ◌*◌, Bool, false, ◌&&◌, ◌||◌, List, [], ◌∷◌, ◌++◌, map, Option, some, ℤ,
  pos, ltb, leb, ◌==◌, if◌then◌else◌, min,
}
use risc_v_pipeline_sim.Effect.{type_error, raise, pure, ◌>>=◌, ◌>>◌}
use risc_v_pipeline_sim.Encoding.{enc_r, enc_i, enc_shift, enc_s, enc_b, enc_j}
use risc_v_pipeline_sim.Generator.Random.{
  Rng, Gen, get_written, add_written, randint, randint_signed, randrange, choice, choices,
}

-- (opcode, funct3, funct7), and (opcode, funct3).
abbrev pub r_type : List (ℕ × ℕ × ℕ)
r_type =
    (0x33, 0x0, 0x00)
    ∷ (0x33, 0x0, 0x20)
    ∷ (0x33, 0x1, 0x00)
    ∷ (0x33, 0x2, 0x00)
    ∷ (0x33, 0x3, 0x00)
    ∷ (0x33, 0x4, 0x00)
    ∷ (0x33, 0x5, 0x00)
    ∷ (0x33, 0x5, 0x20)
    ∷ (0x33, 0x6, 0x00)
    ∷ (0x33, 0x7, 0x00)
    ∷ []

abbrev pub i_arith_table : List (ℕ × ℕ)
i_arith_table = map (λ f3. (0x13, f3)) (0x0 ∷ 0x2 ∷ 0x3 ∷ 0x4 ∷ 0x6 ∷ 0x7 ∷ [])

abbrev pub i_shift_table : List (ℕ × ℕ × ℕ)
i_shift_table = (0x13, 0x1, 0x00) ∷ (0x13, 0x5, 0x00) ∷ (0x13, 0x5, 0x20) ∷ []

abbrev pub branches : List (ℕ × ℕ)
branches = map (λ f3. (0x63, f3)) (0x0 ∷ 0x1 ∷ 0x4 ∷ 0x5 ∷ [])

abbrev pub load_store_window : ℕ
load_store_window = 32

-- `any(lo <= idx < hi for lo, hi in ranges)`
unfoldable pub in_any_range : ℕ → List (ℕ × ℕ) → Bool
in_any_range idx [] = false
in_any_range idx ((lo, hi) ∷ ranges) = (leb lo idx && ltb idx hi) || in_any_range idx ranges

-- `min(8, total - 1 - pos) or 1`; below zero, which is truthy, the range of candidates is empty,
-- as it is for 0 here.
unfoldable pub max_span : ℕ → ℕ → ℕ
max_span total place =
    if leb total place then 0 else let m = min 8 (total - 1 - place) in if m == 0 then 1 else m

-- `[d for d in range(first, first + count) if not _in_any_range(pos + d, loop_ranges)]`
unfoldable pub candidates_from : ℕ → ℕ → ℕ → List (ℕ × ℕ) → List ℕ
candidates_from first zero place ranges = []
candidates_from first (suc count) place ranges =
    let rest = candidates_from (first + 1) count place ranges in
    if in_any_range (place + first) ranges then rest else first ∷ rest

unfoldable pub candidates : ℕ → ℕ → List (ℕ × ℕ) → List ℕ
candidates total place ranges = candidates_from 1 (max_span total place) place ranges

pub data Category : Type 0 where
  r i_arith i_shift store branch jal load : Category

abbrev pub categories : Bool → List ℤ → List (Category × ℕ)
categories allow_branch_jal written =
    (r, 10)
      ∷ (i_arith, 10)
      ∷ (i_shift, 4)
      ∷ (store, 8)
      ∷ (if allow_branch_jal then (branch, 8) ∷ (jal, 3) ∷ [] else [])
    ++ elim written [ [] ↦ [] | o ∷ os ↦ (load, 8) ∷ [] ]

module _ (rng : Rng) where
  -- x30 and x31 are reserved.
  unfoldable pub reg : Gen rng ℕ
  reg = randint rng 0 29

  unfoldable pub gen_r : Gen rng ℕ
  gen_r = do
    (op, f3, f7) ← choice rng r_type
    rd ← reg
    rs1 ← reg
    rs2 ← reg
    pure (enc_r op f3 f7 rd rs1 rs2)

  unfoldable pub gen_i_arith : Gen rng ℕ
  gen_i_arith = do
    (op, f3) ← choice rng i_arith_table
    rd ← reg
    rs1 ← reg
    imm ← randint_signed rng 2048 2047
    pure (enc_i op f3 rd rs1 imm)

  unfoldable pub gen_i_shift : Gen rng ℕ
  gen_i_shift = do
    (op, f3, f7) ← choice rng i_shift_table
    rd ← reg
    rs1 ← reg
    shamt ← randint rng 0 31
    pure (enc_shift op f3 f7 rd rs1 shamt)

  unfoldable pub gen_load : Gen rng ℕ
  gen_load = do
    written ← get_written rng
    offset ← choice rng written
    rd ← reg
    pure (enc_i 0x03 0x2 rd 31 offset)

  unfoldable pub gen_store : Gen rng ℕ
  gen_store = do
    offset ← randrange rng load_store_window 4
    add_written rng offset
    rs2 ← reg
    pure (enc_s 0x23 0x2 31 rs2 offset)

  -- With no safe target in reach a branch or a jump becomes an R-type instruction.
  unfoldable pub branch_to : ℕ → ℕ → List ℕ → Gen rng ℕ
  branch_to op f3 [] = gen_r
  branch_to op f3 (d ∷ ds) = do
    delta_words ← choice rng (d ∷ ds)
    rs1 ← reg
    rs2 ← reg
    pure (enc_b op f3 rs1 rs2 (pos (delta_words * 4)))

  unfoldable pub gen_branch : ℕ → ℕ → List (ℕ × ℕ) → Gen rng ℕ
  unfolding branch_to
  gen_branch total place ranges = do
    (op, f3) ← choice rng branches
    branch_to op f3 (candidates total place ranges)

  unfoldable pub jump_to : List ℕ → Gen rng ℕ
  jump_to [] = gen_r
  jump_to (d ∷ ds) = do
    delta_words ← choice rng (d ∷ ds)
    pure (enc_j 0x6F 0 (pos (delta_words * 4)))

  unfoldable pub gen_jal : ℕ → ℕ → List (ℕ × ℕ) → Gen rng ℕ
  unfolding jump_to
  gen_jal total place ranges = jump_to (candidates total place ranges)

  -- `total - 1 - pos` raises where one of them is `None`.
  unfoldable pub emit : Category → Option ℕ → Option ℕ → List (ℕ × ℕ) → Gen rng ℕ
  emit Category.r place total ranges = gen_r
  emit i_arith place total ranges = gen_i_arith
  emit i_shift place total ranges = gen_i_shift
  emit load place total ranges = gen_load
  emit store place total ranges = gen_store
  emit branch (some p) (some n) ranges = gen_branch n p ranges
  emit jal (some p) (some n) ranges = gen_jal n p ranges
  emit category place total ranges = raise type_error

  unfoldable pub gen_one_instr : Bool → Option ℕ → Option ℕ → List (ℕ × ℕ) → Gen rng ℕ
  unfolding emit
  gen_one_instr allow_branch_jal place total ranges = do
    written ← get_written rng
    let table = categories allow_branch_jal written
    category ← choices rng (map (λ c. c.0) table) (map (λ c. c.1) table)
    emit category place total ranges
