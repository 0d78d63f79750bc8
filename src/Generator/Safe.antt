-- ===== src/Generator/Safe.antt =====
-- What the generated instructions are, as the core decodes them, and what makes them safe to run:
-- the reserved registers, the data window, the targets of branches and jumps.
use risc_v_pipeline_sim.Common.{
  ℕ, ◌+◌, ◌*◌, ◌≤◌, ◌<◌, ◌≡◌, refl, ◌⊎◌, inl, inr, arith, false, List, [], ◌∷◌, ℤ, pos, negsuc,
  sub_ℕ, All, Fits, to_word, if_either,
}
use risc_v_pipeline_sim.Encoding.Decode.{opcode_of, rd_of, funct3_of, rs1_of, rs2_of, imm_gen}
use risc_v_pipeline_sim.Generator.Random.{add_offset, ltb_ℤ}
use risc_v_pipeline_sim.Generator.Instr.{in_any_range}

abbrev pub Among : ℤ → List ℤ → Type 0
Among o [] = ⊥
Among o (x ∷ xs) = (o ≡ x) ⊎ Among o xs

-- The offsets -32, -28, …, 32.
abbrev pub InWindow : ℤ → Type 0
InWindow o = (k : ℕ) × (k ≤ 16) × (o ≡ sub_ℕ (4 * k) 32)

-- An instruction that falls through: it writes no reserved register, it reads or writes memory
-- at x31 plus an offset of the window, and it reads at offsets of `written` only.
pub data Straight (written : List ℤ) (w : ℕ) : Type 0 where
  reg_reg : opcode_of w ≡ 0x33 → rd_of w < 30 → rs1_of w < 30 → rs2_of w < 30 → Straight written w
  reg_imm : opcode_of w ≡ 0x13 → rd_of w < 30 → rs1_of w < 30 → Straight written w
  load :
      (o : ℤ)
      → Among o written
      → InWindow o
      → opcode_of w ≡ 0x03
      → funct3_of w ≡ 2
      → rd_of w < 30
      → rs1_of w ≡ 31
      → imm_gen w ≡ to_word o
      → Straight written w
  store :
      (o : ℤ)
      → Among o written
      → InWindow o
      → opcode_of w ≡ 0x23
      → funct3_of w ≡ 2
      → rs1_of w ≡ 31
      → rs2_of w < 30
      → imm_gen w ≡ to_word o
      → Straight written w

-- BEQ, BNE, BLT or BGE: those whose outcome the core resolves.
abbrev pub IsBranchCode : ℕ → Type 0
IsBranchCode f3 = (f3 ≡ 0) ⊎ (f3 ≡ 1) ⊎ (f3 ≡ 4) ⊎ (f3 ≡ 5)

-- `d` words forward of the slot `place` is in the program or its epilogue, and in no loop block.
pub record SafeTarget (total place : ℕ) (ranges : List (ℕ × ℕ)) (d : ℕ) : Type 0 where
  pub forward : 1 ≤ d
  pub near : d ≤ 8
  pub inside : place + d ≤ total
  pub no_loop : in_any_range (place + d) ranges ≡ false

pub data Transfer (total place : ℕ) (ranges : List (ℕ × ℕ)) (w : ℕ) : Type 0 where
  branch_forward :
      (d : ℕ)
      → SafeTarget total place ranges d
      → opcode_of w ≡ 0x63
      → IsBranchCode (funct3_of w)
      → rs1_of w < 30
      → rs2_of w < 30
      → imm_gen w ≡ d * 4
      → Transfer total place ranges w
  jump_forward :
      (d : ℕ)
      → SafeTarget total place ranges d
      → opcode_of w ≡ 0x6F
      → rd_of w ≡ 0
      → imm_gen w ≡ d * 4
      → Transfer total place ranges w

ltb_ℤ_total : (a b : ℤ) → ltb_ℤ a b ≡ false → ltb_ℤ b a ≡ false → a ≡ b
ltb_ℤ_total a b h k = ground arith

-- Whatever the place at which `add_offset` puts an element, a property of lists that each of its
-- three outcomes has holds of the result.
add_offset-cons :
    (P : List ℤ → Type 0) (o x : ℤ) (xs : List ℤ)
    → P (o ∷ x ∷ xs)
    → P (x ∷ add_offset o xs)
    → (o ≡ x → P (x ∷ xs))
    → P (add_offset o (x ∷ xs))
unfolding add_offset
add_offset-cons P o x xs first later same =
    if_either P (ltb_ℤ o x) _ _ (λ _. first)
      λ n. if_either P (ltb_ℤ x o) _ _ (λ _. later) (λ m. same (ltb_ℤ_total o x n m))

pub Among-add_self : (o : ℤ) (xs : List ℤ) → Among o (add_offset o xs)
Among-add_self o [] = unfold add_offset in inl refl
Among-add_self o (x ∷ xs) =
    add_offset-cons (Among o) o x xs (inl refl) (inr (Among-add_self o xs)) inl

pub Among-add : (o p : ℤ) (xs : List ℤ) → Among p xs → Among p (add_offset o xs)
Among-add o p [] h = elim h [ ]
Among-add o p (x ∷ xs) (inl e) = add_offset-cons (Among p) o x xs (inr (inl e)) (inl e) (λ _. inl e)
Among-add o p (x ∷ xs) (inr h) =
    add_offset-cons (Among p) o x xs (inr (inr h)) (inr (Among-add o p xs h)) (λ _. inr h)

pub All-add : (o : ℤ) (xs : List ℤ) → InWindow o → All InWindow xs → All InWindow (add_offset o xs)
All-add o [] h all = unfold add_offset in (h, tt)
All-add o (x ∷ xs) h all =
    add_offset-cons (All InWindow) o x xs (h, all) (all.0, All-add o xs h all.1) (λ _. all)

pub All-Among : (P : ℤ → Type 0) (xs : List ℤ) → ((o : ℤ) → Among o xs → P o) → All P xs
All-Among P [] f = tt
All-Among P (x ∷ xs) f = (f x (inl refl), All-Among P xs (λ o h. f o (inr h)))

pub Among-All : (P : ℤ → Type 0) (xs : List ℤ) (o : ℤ) → All P xs → Among o xs → P o
Among-All P [] o all h = elim h [ ]
Among-All P (x ∷ xs) o all (inl e) = rw e all.0
Among-All P (x ∷ xs) o all (inr h) = Among-All P xs o all.1 h

pub InWindow-Fits : (o : ℤ) → InWindow o → Fits 11 o
InWindow-Fits (pos n) h = ground arith
InWindow-Fits (negsuc n) h = ground arith

pub Straight-mono :
    (xs ys : List ℤ) (w : ℕ) → ((o : ℤ) → Among o xs → Among o ys) → Straight xs w → Straight ys w
Straight-mono xs ys w sub (reg_reg a b c d) = reg_reg a b c d
Straight-mono xs ys w sub (reg_imm a b c) = reg_imm a b c
Straight-mono xs ys w sub (load o m a b c d e f) = load o (sub o m) a b c d e f
Straight-mono xs ys w sub (store o m a b c d e f) = store o (sub o m) a b c d e f
