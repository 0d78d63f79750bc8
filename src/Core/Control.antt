-- ===== src/Core/Control.antt =====
-- rtl/control_unit.sv.
use risc_v_pipeline_sim.Common.{ℕ, Bool, true, false, ◌==◌, if◌then◌else◌}
use risc_v_pipeline_sim.Core.Alu.{bit}

pub record Control : Type 0 where
  pub reg_write : Bool
  pub alu_src : Bool
  pub alu_control : ℕ
  pub mem_to_reg : Bool
  pub mem_read : Bool
  pub mem_write : Bool
  pub branch : Bool
  pub jump : Bool
  pub jalr : Bool
  pub lui : Bool
  pub auipc : Bool

-- The default values of the signals.
abbrev pub defaults : Control
defaults = record {
  reg_write = false;
  alu_src = false;
  alu_control = 0;
  mem_to_reg = false;
  mem_read = false;
  mem_write = false;
  branch = false;
  jump = false;
  jalr = false;
  lui = false;
  auipc = false;
}

unfoldable pub r_control : (funct3 funct7 : ℕ) → ℕ
r_control funct3 funct7 =
    if funct3 == 0
    then (if funct7 == 0x20 then 1 else 0)
    else if funct3 == 7
    then 2
    else if funct3 == 6
    then 3
    else if funct3 == 1
    then 5
    else if funct3 == 4
    then 4
    else if funct3 == 5
    then (if bit 5 funct7 then 7 else 6)
    else if funct3 == 2
    then 8
    else if funct3 == 3
    then 9
    else 0

unfoldable pub i_control : (funct3 funct7 : ℕ) → ℕ
i_control funct3 funct7 =
    if funct3 == 0
    then 0
    else if funct3 == 7
    then 2
    else if funct3 == 6
    then 3
    else if funct3 == 4
    then 4
    else if funct3 == 1
    then 5
    else if funct3 == 5
    then (if bit 5 funct7 then 7 else 6)
    else if funct3 == 2
    then 8
    else if funct3 == 3
    then 9
    else 0

unfoldable pub control_unit : (opcode funct3 funct7 : ℕ) → Control
control_unit opcode funct3 funct7 =
    if opcode == 0x33
    then record defaults { reg_write = true; alu_control = r_control funct3 funct7 }
    else if opcode == 0x13
    then record defaults { reg_write = true; alu_src = true; alu_control = i_control funct3 funct7 }
    else if opcode == 0x03
    then record defaults { reg_write = true; alu_src = true; mem_to_reg = true; mem_read = true }
    else if opcode == 0x23
    then record defaults { alu_src = true; mem_write = true }
    else if opcode == 0x63
    then record defaults { branch = true; alu_control = 1 }
    else if opcode == 0x6F
    then record defaults { jump = true; reg_write = true }
    else if opcode == 0x67
    then record defaults { jump = true; jalr = true; reg_write = true; alu_src = true }
    else if opcode == 0x37
    then record defaults { lui = true; reg_write = true }
    else if opcode == 0x17
    then record defaults { auipc = true; reg_write = true; alu_src = true }
    else defaults
