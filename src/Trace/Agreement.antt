-- ===== src/Trace/Agreement.antt =====
-- When the comparison accepts a pair of records: the agreement of what the two did to the
-- architectural state, with no mention of the checks.
use risc_v_pipeline_sim.Common.{
  ℕ, zero, suc, ◌+◌, ◌-◌, ◌%◌, ◌^◌, ◌<◌, ◌≡◌, ◌≢◌, refl, sym, ◌⊎◌, ◌↔◌, inl, inr, arith, true,
  false, Option, none, some, ◌==◌, Bool-cases,
}
use risc_v_pipeline_sim.Common.Bits.{and_mask}
use risc_v_pipeline_sim.Trace.Compare.{
  base_offset, values_match_allowing_pc_base, Reason, reg_presence_mismatch, reg_rd_mismatch,
  Verdict, reject, pc_delta, check_pc, check_regs, check_reg, check_mem, zero_x0,
}

abbrev pub IsWord : ℕ → Type 0
IsWord v = v < 2 ^ 32

abbrev pub AreWords : Option (ℕ × ℕ) → Type 0
AreWords none = Unit
AreWords (some (a, v)) = IsWord a × IsWord v

-- The two values are equal in all bits but the highest.
abbrev pub Rebased : ℕ → ℕ → Type 0
Rebased v w = v % 2 ^ 31 ≡ w % 2 ^ 31

-- What a register write does to the registers: one to x0 does nothing.
abbrev pub effect : Option (ℕ × ℕ) → Option (ℕ × ℕ)
effect none = none
effect (some (zero, v)) = none
effect (some (suc rd, v)) = some (suc rd, v)

abbrev pub SameWrite : Option (ℕ × ℕ) → Option (ℕ × ℕ) → Type 0
SameWrite none none = Unit
SameWrite none (some w) = ⊥
SameWrite (some w) none = ⊥
SameWrite (some (rd, v)) (some (rd', v')) = (rd ≡ rd') × Rebased v v'

abbrev pub SameStore : Option (ℕ × ℕ) → Option (ℕ × ℕ) → Type 0
SameStore none none = Unit
SameStore none (some w) = ⊥
SameStore (some w) none = ⊥
SameStore (some (addr, v)) (some (addr', v')) = Rebased addr addr' × (v ≡ v')

-- The values match exactly when they agree in all bits but the highest.
pub values_match-Rebased :
    (v w : ℕ) → IsWord v → IsWord w → (values_match_allowing_pc_base v w ≡ true) ↔ Rebased v w
unfolding values_match_allowing_pc_base
values_match-Rebased v w hv hw =
    let a = and_mask 32 (v + base_offset) in
    let b = and_mask 32 (w + base_offset) in (λ h. ground (arith, a, b), λ h. ground (arith, a, b))

-- A check leaves the verdict alone where P holds, and where not it rejects with one reason.
pub data Judged (P : Type 0) (v v' : Verdict) : Type 0 where
  accepted : P → v' ≡ v → Judged P v v'
  rejected : ¬ P → (why : Reason) → v' ≡ reject v why → Judged P v v'

pc_delta_mod :
    (pc base : ℕ) → IsWord pc → IsWord base → pc_delta pc base ≡ (pc + 2 ^ 32 - base) % 2 ^ 32
pc_delta_mod pc base h h' = ground (arith, and_mask 32 (pc - base), and_mask 32 (base - pc - 1))

pub check_pc-Judged :
    (sp_pc spike_base sv_pc sv_base : ℕ) (v : Verdict)
    → IsWord sp_pc
    → IsWord spike_base
    → IsWord sv_pc
    → IsWord sv_base
    → Judged
        ((sp_pc + sv_base) % 2 ^ 32 ≡ (sv_pc + spike_base) % 2 ^ 32)
        v
        (check_pc sp_pc spike_base sv_pc sv_base v)
unfolding check_pc
check_pc-Judged sp_pc spike_base sv_pc sv_base v h1 h2 h3 h4 =
    let sp = pc_delta_mod sp_pc spike_base h1 h2 in
    let sv = pc_delta_mod sv_pc sv_base h3 h4 in
    elim (Bool-cases (pc_delta sp_pc spike_base == pc_delta sv_pc sv_base)) [
      | inl same ↦
          let e : pc_delta sp_pc spike_base ≡ pc_delta sv_pc sv_base = ground arith in
          rw same (accepted (omega (arith, sp, sv)) refl)
      | inr differ ↦
          let ne : pc_delta sp_pc spike_base ≢ pc_delta sv_pc sv_base = ground arith in
          rw differ (rejected (λ e. ne (omega (arith, sp, sv))) _ refl)
    ]

values_match-cases :
    (v w : ℕ)
    → IsWord v
    → IsWord w
    → ((values_match_allowing_pc_base v w ≡ true) × Rebased w v)
      ⊎ ((values_match_allowing_pc_base v w ≡ false) × (¬ Rebased w v))
values_match-cases v w hv hw =
    let (to, from) = values_match-Rebased v w hv hw in
    elim (Bool-cases (values_match_allowing_pc_base v w)) [
      | inl match ↦ inl (match, sym (to match))
      | inr differ ↦ inr (differ, λ e. ground (arith, from (sym e)))
    ]

zero_x0-suc : (rd v : ℕ) → zero_x0 (suc rd) v ≡ v
zero_x0-suc rd v = ground arith

check_regs-Judged :
    (sp_rd sp_val sv_rd sv_val : ℕ) (v : Verdict)
    → IsWord sp_val
    → IsWord sv_val
    → Judged
        ((suc sp_rd ≡ suc sv_rd) × Rebased sp_val sv_val)
        v
        (check_regs (some (suc sp_rd, sp_val)) (some (suc sv_rd, sv_val)) v)
unfolding check_regs
check_regs-Judged sp_rd sp_val sv_rd sv_val v h h' =
    rw (zero_x0-suc sp_rd sp_val, zero_x0-suc sv_rd sv_val)
      (elim (Bool-cases (suc sp_rd == suc sv_rd)) [
        | inl same ↦ elim (values_match-cases sv_val sp_val h' h) [
          | inl (match, e) ↦ rw (same, match) (accepted (ground arith, e) refl)
          | inr (differ, ne) ↦ rw (same, differ) (rejected (λ e. ne e.1) _ refl)
        ]
        | inr other ↦ rw other (rejected (λ e. ground arith) _ refl)
      ])

pub check_reg-Judged :
    (sp sv : Option (ℕ × ℕ)) (v : Verdict)
    → AreWords sp
    → AreWords sv
    → Judged (SameWrite (effect sp) (effect sv)) v (check_reg sp sv v)
unfolding check_reg check_regs values_match_allowing_pc_base
check_reg-Judged none none v h h' = accepted tt refl
check_reg-Judged none (some (zero, w)) v h h' = accepted tt refl
check_reg-Judged none (some (suc rd, w)) v h h' =
    rejected (λ e. e) (reg_presence_mismatch none (some (suc rd, w))) (ground arith)
check_reg-Judged (some (zero, x)) none v h h' = accepted tt refl
check_reg-Judged (some (suc rd, x)) none v h h' =
    rejected (λ e. e) (reg_presence_mismatch (some (suc rd, x)) none) (ground arith)
check_reg-Judged (some (zero, x)) (some (zero, w)) v h h' = accepted tt refl
check_reg-Judged (some (zero, x)) (some (suc rd, w)) v h h' =
    rejected (λ e. e) (reg_rd_mismatch 0 (suc rd)) (ground arith)
check_reg-Judged (some (suc rd, x)) (some (zero, w)) v h h' =
    rejected (λ e. e) (reg_rd_mismatch (suc rd) 0) (ground arith)
check_reg-Judged (some (suc rd, x)) (some (suc rd', w)) v h h' =
    check_regs-Judged rd x rd' w v h.1 h'.1

pub check_mem-Judged :
    (sp sv : Option (ℕ × ℕ)) (v : Verdict)
    → AreWords sp
    → AreWords sv
    → Judged (SameStore sp sv) v (check_mem sp sv v)
unfolding check_mem
check_mem-Judged none none v h h' = accepted tt refl
check_mem-Judged none (some w) v h h' = rejected (λ e. e) _ refl
check_mem-Judged (some w) none v h h' = rejected (λ e. e) _ refl
check_mem-Judged (some (a, x)) (some (a', x')) v h h' = elim (values_match-cases a' a h'.0 h.0) [
  | inl (match, e) ↦ rw match (elim (Bool-cases (x' == x)) [
    | inl same ↦ rw same (accepted (e, ground arith) refl)
    | inr other ↦ rw other (rejected (λ d. ground arith) _ refl)
  ])
  | inr (differ, ne) ↦ rw differ (rejected (λ d. ne d.0) _ refl)
]
