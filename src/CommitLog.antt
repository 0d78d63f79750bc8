-- ===== src/CommitLog.antt =====
-- rtl/tb_commit_log.sv: the lines that the testbench prints for the instructions in the MEM and the
-- WB stage, with all bits known.
pub mod Lines
pub mod Solid
pub mod Cycles
pub mod Recovered
use risc_v_pipeline_sim.Common.{ℕ, ◌+◌, Option, none, some, List, [], ◌∷◌, ◌++◌, Text, codes}
use risc_v_pipeline_sim.Common.Lines.{text_of}
use risc_v_pipeline_sim.Common.Digits.{decimal, format_08x}

-- $fdisplay(log_fd, "PC %0d %h", ...), without its newline.
unfoldable pub print_pc : (idx pc : ℕ) → Text
print_pc idx pc = codes "PC " ++ (decimal idx ++ (b' ' ∷ format_08x pc))

-- $fdisplay(log_fd, "REG %0d %0d %h", ...)
unfoldable pub print_reg : (idx rd val : ℕ) → Text
print_reg idx rd val =
    codes "REG " ++ (decimal idx ++ (b' ' ∷ (decimal rd ++ (b' ' ∷ format_08x val))))

-- $fdisplay(log_fd, "MEM %0d %h %h", ...)
unfoldable pub print_mem : (idx addr val : ℕ) → Text
print_mem idx addr val =
    codes "MEM " ++ (decimal idx ++ (b' ' ∷ (format_08x addr ++ (b' ' ∷ format_08x val))))

-- The registers behind EX and MEM in one cycle, where they are valid: the store of the instruction
-- in `ex_mem_r`, if it is one; the pc of that in `mem_wb_r`, with the register that it writes.
pub record Cycle : Type 0 where
  pub ex_mem : Option (Option (ℕ × ℕ))
  pub mem_wb : Option (ℕ × Option (ℕ × ℕ))

unfoldable pub mem_lines : ℕ → Option (Option (ℕ × ℕ)) → List Text
mem_lines mem_commit_idx none = []
mem_lines mem_commit_idx (some none) = []
mem_lines mem_commit_idx (some (some (addr, val))) = print_mem mem_commit_idx addr val ∷ []

unfoldable pub wb_lines : ℕ → Option (ℕ × Option (ℕ × ℕ)) → List Text
wb_lines wb_commit_idx none = []
wb_lines wb_commit_idx (some (pc, none)) = print_pc wb_commit_idx pc ∷ []
wb_lines wb_commit_idx (some (pc, some (rd, val))) =
    print_pc wb_commit_idx pc ∷ print_reg wb_commit_idx rd val ∷ []

-- An index moves on with every valid instruction.
abbrev pub next_idx {ℓ} : {A : Type ℓ} → ℕ → Option A → ℕ
next_idx idx none = idx
next_idx idx (some a) = idx + 1

-- The always block over the cycles in which it logs, from the two indices.
unfoldable pub log_lines : (mem_commit_idx wb_commit_idx : ℕ) → List Cycle → List Text
log_lines mem_commit_idx wb_commit_idx [] = []
log_lines mem_commit_idx wb_commit_idx (c ∷ cycles) =
    mem_lines mem_commit_idx c.ex_mem
    ++ (wb_lines wb_commit_idx c.mem_wb
        ++ log_lines (next_idx mem_commit_idx c.ex_mem) (next_idx wb_commit_idx c.mem_wb) cycles)

-- commit_log.txt
unfoldable pub commit_log : List Cycle → Text
commit_log cycles = text_of (log_lines 0 0 cycles)
