-- ===== src/SpikeLog/Ordered.antt =====
-- The log of instructions that print their own commit lines, and what its lines say in order.
use risc_v_pipeline_sim.Common.{
  ℕ, ◌+◌, ◌%◌, ◌^◌, ◌<◌, ◌≡◌, refl, ap, ◌∙◌, arith, Bool, true, false, Option, none, some, List, [],
  ◌∷◌, All, if◌then◌else◌,
}
use risc_v_pipeline_sim.Trace.{SpikeRecord}
use risc_v_pipeline_sim.SpikeLog.{
  Line, bare_commit_line, mem_read_line, reg_line, mem_line, plain_line, Key, same_key,
}
use risc_v_pipeline_sim.SpikeLog.Commits.{retired, reg_commits, mem_commits}

-- What the commit line of an instruction says; a load to x0 has the address only.
pub data Commitment : Type 0 where
  writes : (rd val : ℕ) → Commitment
  stores : (addr val : ℕ) → Commitment
  reads nothing : Commitment

pub record Retired : Type 0 where
  pub pc : ℕ
  pub instr : ℕ
  pub commits : Commitment

abbrev pub commit_line : ℕ → ℕ → Commitment → Line
commit_line pc instr (writes rd val) = reg_line pc instr rd val
commit_line pc instr (stores addr val) = mem_line pc instr addr val
commit_line pc instr reads = mem_read_line
commit_line pc instr nothing = bare_commit_line

abbrev pub trace_lines : List Retired → List Line
trace_lines [] = []
trace_lines (r ∷ rs) = plain_line r.pc r.instr ∷ commit_line r.pc r.instr r.commits ∷ trace_lines rs

abbrev pub reg_part : Commitment → Option (ℕ × ℕ)
reg_part (writes rd val) = some (rd, val % 2 ^ 32)
reg_part _ = none

abbrev pub mem_part : Commitment → Option (ℕ × ℕ)
mem_part (stores addr val) = some (addr, val % 2 ^ 32)
mem_part _ = none

-- Every instruction with its own commit.
abbrev pub trace_records : ℕ → List Retired → List SpikeRecord
trace_records idx [] = []
trace_records idx (r ∷ rs) =
    record {
      idx = idx;
      pc = r.pc;
      instr = r.instr;
      reg = reg_part r.commits;
      mem = mem_part r.commits;
    }
    ∷ trace_records (idx + 1) rs

abbrev pub is_some : Option (ℕ × ℕ) → Bool
is_some none = false
is_some (some v) = true

-- The pc and the word have 32 bits, and the word decides whether the instruction writes a register
-- and whether it stores.
abbrev pub Determined : (writes_reg stores_mem : ℕ → Bool) → Retired → Type 0
Determined writes_reg stores_mem r =
    (r.pc < 2 ^ 32)
    × (r.instr < 2 ^ 32)
    × (is_some (reg_part r.commits) ≡ writes_reg r.instr)
    × (is_some (mem_part r.commits) ≡ stores_mem r.instr)

abbrev pub keys_of : List Retired → List Key
keys_of [] = []
keys_of (r ∷ rs) = (r.pc, r.instr) ∷ keys_of rs

-- The commits of one instruction, for one of the two parts.
abbrev pub parts : (Commitment → Option (ℕ × ℕ)) → Key → List Retired → List (ℕ × ℕ)
parts f key [] = []
parts f key (r ∷ rs) =
    let rest = parts f key rs in
    if same_key key (r.pc, r.instr)
    then (elim (f r.commits) [ none ↦ rest | some v ↦ v ∷ rest ])
    else rest

module _ (writes_reg stores_mem : ℕ → Bool) where
  pub retired-trace_lines :
      (rs : List Retired)
      → All (Determined writes_reg stores_mem) rs
      → retired (trace_lines rs) ≡ keys_of rs
  retired-trace_lines [] h = refl
  retired-trace_lines (r ∷ rs) h =
      let ih = retired-trace_lines rs h.1 in
      let pc : r.pc % 2 ^ 32 ≡ r.pc = omega (arith, h.0.0) in
      let instr : r.instr % 2 ^ 32 ≡ r.instr = omega (arith, h.0.1) in
      rw (pc, instr) (ap (λ t. (r.pc, r.instr) ∷ t) (skip r.commits ∙ ih))
    where
      skip :
          (c : Commitment)
          → retired (commit_line r.pc r.instr c ∷ trace_lines rs) ≡ retired (trace_lines rs)
      skip (writes rd val) = refl
      skip (stores addr val) = refl
      skip reads = refl
      skip nothing = refl

pub reg_commits-trace_lines :
    (key : Key) (rs : List Retired) → reg_commits key (trace_lines rs) ≡ parts reg_part key rs
reg_commits-trace_lines key [] = refl
reg_commits-trace_lines key (r ∷ rs) = go r.commits (reg_commits-trace_lines key rs)
  where
    go :
        (c : Commitment)
        → reg_commits key (trace_lines rs) ≡ parts reg_part key rs
        → reg_commits key (commit_line r.pc r.instr c ∷ trace_lines rs) ≡ (
            if same_key key (r.pc, r.instr)
            then (elim (reg_part c) [
              | none ↦ parts reg_part key rs
              | some v ↦ v ∷ parts reg_part key rs
            ])
            else parts reg_part key rs)
    go (writes rd val) ih = rw ih refl
    go (stores addr val) ih = ground (arith, ih)
    go reads ih = ground (arith, ih)
    go nothing ih = ground (arith, ih)

pub mem_commits-trace_lines :
    (key : Key) (rs : List Retired) → mem_commits key (trace_lines rs) ≡ parts mem_part key rs
mem_commits-trace_lines key [] = refl
mem_commits-trace_lines key (r ∷ rs) = go r.commits (mem_commits-trace_lines key rs)
  where
    go :
        (c : Commitment)
        → mem_commits key (trace_lines rs) ≡ parts mem_part key rs
        → mem_commits key (commit_line r.pc r.instr c ∷ trace_lines rs) ≡ (
            if same_key key (r.pc, r.instr)
            then (elim (mem_part c) [
              | none ↦ parts mem_part key rs
              | some v ↦ v ∷ parts mem_part key rs
            ])
            else parts mem_part key rs)
    go (stores addr val) ih = rw ih refl
    go (writes rd val) ih = ground (arith, ih)
    go reads ih = ground (arith, ih)
    go nothing ih = ground (arith, ih)
