-- ===== src/Tests/SpikeForms.antt =====
-- Lines of a log of Spike: an instruction of the boot stub and one of the program, each with its
-- commit, and one that names a control register.
use risc_v_pipeline_sim.Common.{arith, List, [], ◌∷◌, codes}
use risc_v_pipeline_sim.SpikeLog.Forms.{Head, Place, Commit}
use risc_v_pipeline_sim.SpikeLog.Printed.{RegWrite, Disassembly, Form, reg_form, plain_form}

abbrev pub head : Head
head = record {
  blanks = codes "   ";
  core = codes "0";
  gap = codes " ";
  blanks_run = ground arith;
  core_run = ground arith;
  gap_run = ground arith;
}

abbrev pub auipc_place : Place
auipc_place = record {
  pc = codes "00001000";
  gap = codes " ";
  instr = codes "00000297";
  pc_run = ground arith;
  gap_run = ground arith;
  instr_run = ground arith;
}

abbrev pub addi_place : Place
addi_place = record {
  pc = codes "80000000";
  gap = codes " ";
  instr = codes "ffff0f13";
  pc_run = ground arith;
  gap_run = ground arith;
  instr_run = ground arith;
}

abbrev pub commit : Place → Commit
commit p = record {
  head = head;
  level = codes "3";
  gap = codes " ";
  place = p;
  level_run = ground arith;
  gap_run = ground arith;
}

abbrev pub auipc_write : RegWrite
auipc_write = record {
  commit = commit auipc_place;
  gap = codes " ";
  pad = [];
  rd = codes "5";
  gap2 = codes "  ";
  val = codes "00001000";
  rest = [];
  gap_run = ground arith;
  pad_blank = ground arith;
  rd_run = ground arith;
  gap2_run = ground arith;
  val_run = ground arith;
  rest_outside = ground arith;
  value_quiet = ground arith;
}

abbrev pub addi_write : RegWrite
addi_write = record {
  commit = commit addi_place;
  gap = codes " ";
  pad = [];
  rd = codes "30";
  gap2 = codes " ";
  val = codes "ffffffff";
  rest = [];
  gap_run = ground arith;
  pad_blank = ground arith;
  rd_run = ground arith;
  gap2_run = ground arith;
  val_run = ground arith;
  rest_outside = ground arith;
  value_quiet = ground arith;
}

abbrev pub disassembly : Place → Disassembly
disassembly p = record {
  head = head;
  place = p;
  gap = codes " ";
  word = codes "addi";
  operands = codes "    t5, t5, -1";
  gap_run = ground arith;
  word_run = ground arith;
  operands_outside = ground arith;
  operands_dots = ground arith;
  text_quiet = ground arith;
}

abbrev pub forms : List Form
forms =
    plain_form (disassembly auipc_place)
    ∷ reg_form auipc_write
    ∷ plain_form (disassembly addi_place)
    ∷ reg_form addi_write
    ∷ []

-- `core   0: 0x80000004 (0x30679073) csrw mcounteren, a5`
abbrev pub csr_write : Disassembly
csr_write = record {
  head = head;
  place = record {
    pc = codes "80000004";
    gap = codes " ";
    instr = codes "30679073";
    pc_run = ground arith;
    gap_run = ground arith;
    instr_run = ground arith;
  };
  gap = codes " ";
  word = codes "csrw";
  operands = codes " mcounteren, a5";
  gap_run = ground arith;
  word_run = ground arith;
  operands_outside = ground arith;
  operands_dots = ground arith;
  text_quiet = ground arith;
}

abbrev pub all_forms : List Form
all_forms = plain_form csr_write ∷ forms
