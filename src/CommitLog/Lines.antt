-- ===== src/CommitLog/Lines.antt =====
-- The parser reads every printed line as what it was printed for.
use risc_v_pipeline_sim.Common.{
  ℕ, bit_and, ◌^◌, ◌<◌, ◌≡◌, refl, sym, ap, ◌∙◌, arith, false, ◌==◌, none, some, [], ◌∷◌, ◌++◌,
  append-nil, Text,
}
use risc_v_pipeline_sim.Common.Bits.{and_mask}
use risc_v_pipeline_sim.Common.Digits.{
  decimal, format_08x, int_base-decimal, int_base-format_08x, format_08x-is_hex,
  length-format_08x_pos, decimal-is_digit, length-decimal_pos,
}
use risc_v_pipeline_sim.Regex.{
  digit, hex, space, is, star, at_end, one, plus, group_of, Pattern, Groups, match_here,
  match_start,
}
use risc_v_pipeline_sim.Regex.Runs.{
  IsRun, Outside, IsRun-AllIn, Rejects-one, Rejects-at_end, field_skip, Rejects,
  Disjoint-space-digit, Disjoint-space-hex, Disjoint-digit-space, Disjoint-hex-space,
}
use risc_v_pipeline_sim.Regex.Steps.{match_one_not}
use risc_v_pipeline_sim.SvLog.{
  sv_pc_re, sv_reg_re, sv_mem_re, pc_line, reg_line, mem_line, classify,
}
use risc_v_pipeline_sim.Trace.Compare.{mask32}
use risc_v_pipeline_sim.CommitLog.{print_pc, print_reg, print_mem}

decimal-IsRun : (v : ℕ) → IsRun digit (decimal v)
decimal-IsRun v = IsRun-AllIn digit (decimal v) (length-decimal_pos v) (decimal-is_digit v)

format_08x-IsRun : (v : ℕ) → IsRun hex (format_08x v)
format_08x-IsRun v = IsRun-AllIn hex (format_08x v) (length-format_08x_pos v) (format_08x-is_hex v)

-- A number and what follows it, behind one blank.
module _ (p : Pattern) (start : Text) (gs : Groups) (v : ℕ) (rest : Text) where
  decimal_field :
      Outside digit rest
      → Rejects digit p
      → match_here (plus space (group_of (plus digit) p)) (b' ' ∷ (decimal v ++ rest)) start gs
        ≡ match_here p rest (decimal v ++ rest) (gs ++ decimal v ∷ [])
  decimal_field =
      field_skip digit p (b' ' ∷ []) (decimal v) rest start gs (refl, tt) (decimal-IsRun v)
        Disjoint-space-digit Disjoint-digit-space

  hex_field :
      Outside hex rest
      → Rejects hex p
      → match_here (plus space (group_of (plus hex) p)) (b' ' ∷ (format_08x v ++ rest)) start gs
        ≡ match_here p rest (format_08x v ++ rest) (gs ++ format_08x v ∷ [])
  hex_field =
      field_skip hex p (b' ' ∷ []) (format_08x v) rest start gs (refl, tt) (format_08x-IsRun v)
        Disjoint-space-hex Disjoint-hex-space

-- A hexadecimal number at the end of the line.
last_field :
    (start : Text) (gs : Groups) (v : ℕ)
    → match_here (plus space (group_of (plus hex) (at_end ∷ []))) (b' ' ∷ format_08x v) start gs
      ≡ some (gs ++ format_08x v ∷ [])
last_field start gs v =
    ap (λ t. match_here (plus space (group_of (plus hex) (at_end ∷ []))) (b' ' ∷ t) start gs)
      (sym (append-nil (format_08x v)))
    ∙ hex_field (at_end ∷ []) start gs v [] tt (Rejects-at_end hex [] refl)
    ∙ unfold match_here in refl

Rejects-digit-space : (q : Pattern) → Rejects digit (plus space q)
Rejects-digit-space q = Rejects-one digit space (star space ∷ q) Disjoint-digit-space

Rejects-hex-space : (q : Pattern) → Rejects hex (plus space q)
Rejects-hex-space q = Rejects-one hex space (star space ∷ q) Disjoint-hex-space

abbrev hex_end : Pattern
hex_end = plus space (group_of (plus hex) (at_end ∷ []))

match_pc :
    (idx pc : ℕ) → match_start sv_pc_re (print_pc idx pc) ≡ some (decimal idx ∷ format_08x pc ∷ [])
unfolding match_start match_here print_pc
match_pc idx pc =
    decimal_field hex_end (print_pc idx pc) [] idx (b' ' ∷ format_08x pc) refl
      (Rejects-digit-space (group_of (plus hex) (at_end ∷ [])))
    ∙ last_field (decimal idx ++ (b' ' ∷ format_08x pc)) (decimal idx ∷ []) pc

match_reg :
    (idx rd val : ℕ)
    → match_start sv_reg_re (print_reg idx rd val)
      ≡ some (decimal idx ∷ decimal rd ∷ format_08x val ∷ [])
unfolding match_start match_here print_reg
match_reg idx rd val =
    let behind = b' ' ∷ (decimal rd ++ (b' ' ∷ format_08x val)) in
    decimal_field (plus space (group_of (plus digit) hex_end)) (print_reg idx rd val) [] idx behind
      refl (Rejects-digit-space (group_of (plus digit) hex_end))
    ∙ decimal_field hex_end (decimal idx ++ behind) (decimal idx ∷ []) rd (b' ' ∷ format_08x val)
        refl (Rejects-digit-space (group_of (plus hex) (at_end ∷ [])))
    ∙ last_field (decimal rd ++ (b' ' ∷ format_08x val)) (decimal idx ∷ decimal rd ∷ []) val

match_mem :
    (idx addr val : ℕ)
    → match_start sv_mem_re (print_mem idx addr val)
      ≡ some (decimal idx ∷ format_08x addr ∷ format_08x val ∷ [])
unfolding match_start match_here print_mem
match_mem idx addr val =
    let behind = b' ' ∷ (format_08x addr ++ (b' ' ∷ format_08x val)) in
    decimal_field (plus space (group_of (plus hex) hex_end)) (print_mem idx addr val) [] idx behind
      refl (Rejects-digit-space (group_of (plus hex) hex_end))
    ∙ hex_field hex_end (decimal idx ++ behind) (decimal idx ∷ []) addr (b' ' ∷ format_08x val) refl
        (Rejects-hex-space (group_of (plus hex) (at_end ∷ [])))
    ∙ last_field (format_08x addr ++ (b' ' ∷ format_08x val)) (decimal idx ∷ format_08x addr ∷ [])
        val

-- A line that starts with another letter.
other_letter :
    (a b : ℕ) (p : Pattern) (s : Text)
    → (b == a) ≡ false
    → match_start (one (is a) ∷ p) (b ∷ s) ≡ none
unfolding match_start
other_letter a b p s e = match_one_not (is a) p b s (b ∷ s) [] e

pub classify-print_pc : (idx pc : ℕ) → classify (print_pc idx pc) ≡ pc_line idx pc
unfolding classify print_pc
classify-print_pc idx pc = rw (match_pc idx pc, int_base-decimal idx, int_base-format_08x pc) refl

masked : (v : ℕ) → v < 2 ^ 32 → bit_and v mask32 ≡ v
masked v h = and_mask 32 v ∙ omega arith

pub classify-print_reg :
    (idx rd val : ℕ) → val < 2 ^ 32 → classify (print_reg idx rd val) ≡ reg_line idx rd val
unfolding classify print_reg
classify-print_reg idx rd val h =
    let not_pc : match_start sv_pc_re (print_reg idx rd val) ≡ none =
      other_letter b'P' b'R' _ _ refl in
    rw
      (
        not_pc,
        match_reg idx rd val,
        int_base-decimal idx,
        int_base-decimal rd,
        int_base-format_08x val,
        masked val h,
      )
      refl

pub classify-print_mem :
    (idx addr val : ℕ) → val < 2 ^ 32 → classify (print_mem idx addr val) ≡ mem_line idx addr val
unfolding classify print_mem
classify-print_mem idx addr val h =
    let not_pc : match_start sv_pc_re (print_mem idx addr val) ≡ none =
      other_letter b'P' b'M' _ _ refl in
    let not_reg : match_start sv_reg_re (print_mem idx addr val) ≡ none =
      other_letter b'R' b'M' _ _ refl in
    rw
      (
        not_pc,
        not_reg,
        match_mem idx addr val,
        int_base-decimal idx,
        int_base-format_08x addr,
        int_base-format_08x val,
        masked val h,
      )
      refl
