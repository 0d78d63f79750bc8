-- ===== src/Core/Cycle/Sequential.antt =====
-- What the core promises: one instruction after the other.
use risc_v_pipeline_sim.Common.{ℕ, zero, suc, true, if◌then◌else◌}
use risc_v_pipeline_sim.Encoding.Decode.{rs1_of, rs2_of}
use risc_v_pipeline_sim.Core.Datapath.{Retired, execute, reg_file_write}
use risc_v_pipeline_sim.Core.Pipeline.Forwarded.{written_back}
use risc_v_pipeline_sim.Core.Pipeline.{mem_wb_next}
use risc_v_pipeline_sim.Core.Cycle.Registers.{Core, instr_at, ram_read, ram_write}

-- The state that a program sees.
pub record Arch : Type 0 where
  pub registers : ℕ → ℕ
  pub pc : ℕ
  pub ram : ℕ → ℕ

abbrev pub retire : Retired → Arch → Arch
retire r a = record {
  registers = reg_file_write r.reg_write r.rd_addr r.write_data a.registers;
  pc = r.next_pc;
  ram = ram_write r.mem_write r.address r.store_data a.ram;
}

-- The instruction at the pc.
unfoldable pub round : (imem : ℕ → ℕ) → Arch → Arch
round imem a =
    let w = instr_at imem a.pc in
    retire (execute w a.pc (a.registers (rs1_of w)) (a.registers (rs2_of w)) (ram_read a.ram true))
      a

unfoldable pub rounds : (imem : ℕ → ℕ) → (count : ℕ) → Arch → Arch
rounds imem zero a = a
rounds imem (suc count) a = rounds imem count (round imem a)

-- The pc of the instruction that is next to leave ID.
abbrev pub front : Core → ℕ
front c = if c.if_id_r.valid then c.if_id_r.pc else c.pc_if

-- The state behind the instructions that have left EX, with the one in EX as the next.
abbrev pub arch_of : Core → Arch
arch_of c = record {
  registers =
      written_back
        (mem_wb_next c.ex_mem_r (ram_read c.ram c.ex_mem_r.mem_read c.ex_mem_r.alu_result))
        (written_back c.mem_wb_r c.rf);
  pc = if c.id_ex_r.valid then c.id_ex_r.pc else front c;
  ram = ram_write c.ex_mem_r.mem_write c.ex_mem_r.alu_result c.ex_mem_r.store_data c.ram;
}
