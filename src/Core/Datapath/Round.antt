-- ===== src/Core/Datapath/Round.antt =====
-- The state behind an instruction on the core, as a state of the simulator src/main.cpp.
use risc_v_pipeline_sim.Common.{
  ℕ, ◌*◌, ◌/◌, ◌^◌, ◌<◌, ◌≡◌, refl, sym, ap, ◌∙◌, inl, inr, arith, Bool-cases, true, ltb, ◌==◌,
  some, if◌then◌else◌,
}
use risc_v_pipeline_sim.Encoding.Decode.{rd_of, rs1_of, rs2_of}
use risc_v_pipeline_sim.Isa.Machine.{Machine, add_32, write_reg}
use risc_v_pipeline_sim.Isa.Execute.{decode_and_execute}
use risc_v_pipeline_sim.Isa.Run.{running, advance}
use risc_v_pipeline_sim.Isa.Access.{word_at, with_word}
use risc_v_pipeline_sim.Core.Datapath.{Retired, execute, reg_file_write}

-- The state after an instruction has left the pipeline. The words of data_mem are those at the
-- addresses that are multiples of four.
abbrev pub commit : Retired → Machine → Machine
commit r m = record {
  registers = reg_file_write r.reg_write r.rd_addr r.write_data m.registers;
  pc = r.next_pc;
  memory = if r.mem_write then with_word m.memory (r.address / 4 * 4) r.store_data else m.memory;
}

abbrev pub core_round : ℕ → Machine → Machine
core_round w m =
    commit
      (execute w m.pc (m.registers (rs1_of w)) (m.registers (rs2_of w))
        (λ a. word_at m.memory (a / 4 * 4)))
      m

-- The registers and the pc have 32 bits.
pub record Sized (m : Machine) : Type 0 where
  pub registers_sized : (r : ℕ) → m.registers r < 2 ^ 32
  pub pc_sized : m.pc < 2 ^ 32

pub write_reg_lem :
    (rd v : ℕ) (m : Machine)
    → rd < 32
    → write_reg rd v m ≡ record m { registers = reg_file_write true rd v m.registers }
unfolding write_reg reg_file_write
write_reg_lem rd v m h = elim (Bool-cases (rd == 0)) [
  | inl zero ↦ rw zero refl
  | inr other ↦ let small : ltb rd 32 ≡ true = ground arith in rw (other, small) refl
]

pub rd_small : (w : ℕ) → rd_of w < 32
unfolding rd_of
rd_small w = omega arith

-- An instruction that writes a register and falls through.
pub written_round :
    (w v : ℕ) (m : Machine)
    → decode_and_execute w m ≡ some (write_reg (rd_of w) v m)
    → core_round w m
      ≡ record m { registers = reg_file_write true (rd_of w) v m.registers; pc = add_32 m.pc 4 }
    → advance (decode_and_execute w m) ≡ running (core_round w m)
written_round w v m ran core =
    ap advance (ran ∙ ap some (write_reg_lem (rd_of w) v m (rd_small w))) ∙ ap running (sym core)
