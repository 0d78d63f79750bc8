-- ===== src/SpikeLog/Printed.antt =====
-- The lines that Spike prints, in the forms of spike_log_parser.py's comments, and what each says.
-- The text of a disassembly, and the value of a commit with what follows it, have `core` in front of
-- white space nowhere, since a pattern could match from there on.
use risc_v_pipeline_sim.Common.{◌∷◌, ◌++◌, Text, codes, int_base}
use risc_v_pipeline_sim.Regex.{digit, hex, space, non_space, dot}
use risc_v_pipeline_sim.Regex.Runs.{AllIn, IsRun, Outside}
use risc_v_pipeline_sim.SpikeLog.{
  Line, exception_line, mem_read_line, bare_commit_line, reg_line, mem_line, plain_line,
}
use risc_v_pipeline_sim.SpikeLog.Quiet.{Quiet}
use risc_v_pipeline_sim.SpikeLog.Forms.{Head, head_text, Place, place_text, Commit, commit_text}

-- `... x30 0xffffffffffffffff`; a load goes on with its address.
pub record RegWrite : Type 0 where
  pub commit : Commit
  pub gap : Text
  pub pad : Text
  pub rd : Text
  pub gap2 : Text
  pub val : Text
  pub rest : Text
  pub gap_run : IsRun space gap
  pub pad_blank : AllIn space pad
  pub rd_run : IsRun digit rd
  pub gap2_run : IsRun space gap2
  pub val_run : IsRun hex val
  pub rest_outside : Outside hex rest
  pub value_quiet : Quiet (val ++ rest)

abbrev pub reg_rest : RegWrite → Text
reg_rest w = w.gap ++ (b'x' ∷ (w.pad ++ (w.rd ++ (w.gap2 ++ (codes "0x" ++ (w.val ++ w.rest))))))

-- `... mem 0x80002000 0x2a`
pub record MemWrite : Type 0 where
  pub commit : Commit
  pub gap : Text
  pub gap2 : Text
  pub addr : Text
  pub gap3 : Text
  pub val : Text
  pub rest : Text
  pub gap_run : IsRun space gap
  pub gap2_run : IsRun space gap2
  pub addr_run : IsRun hex addr
  pub gap3_run : IsRun space gap3
  pub val_run : IsRun hex val
  pub rest_outside : Outside hex rest
  pub value_quiet : Quiet (val ++ rest)

abbrev pub mem_rest : MemWrite → Text
mem_rest w =
    w.gap
    ++ (codes "mem"
        ++ (w.gap2 ++ (codes "0x" ++ (w.addr ++ (w.gap3 ++ (codes "0x" ++ (w.val ++ w.rest)))))))

-- `... mem 0x800002fc`
pub record MemRead : Type 0 where
  pub commit : Commit
  pub gap : Text
  pub gap2 : Text
  pub addr : Text
  pub rest : Text
  pub gap_run : IsRun space gap
  pub gap2_run : IsRun space gap2
  pub addr_run : IsRun hex addr
  pub rest_blank : AllIn space rest

abbrev pub read_rest : MemRead → Text
read_rest w = w.gap ++ (codes "mem" ++ (w.gap2 ++ (codes "0x" ++ (w.addr ++ w.rest))))

-- `core   0: 0x80000000 (0x00000013) nop`
pub record Disassembly : Type 0 where
  pub head : Head
  pub place : Place
  pub gap : Text
  pub word : Text
  pub operands : Text
  pub gap_run : IsRun space gap
  pub word_run : IsRun non_space word
  pub operands_outside : Outside non_space operands
  pub operands_dots : AllIn dot operands
  pub text_quiet : Quiet (word ++ operands)

-- `core   0: exception trap_illegal_instruction, epc 0x80000000`
pub record Trap : Type 0 where
  pub head : Head
  pub gap : Text
  pub name : Text
  pub rest : Text
  pub gap_run : IsRun space gap
  pub name_run : IsRun non_space name
  pub rest_outside : Outside non_space rest

-- A line of the log. The rest of a bare commit is blank.
pub data Form : Type 0 where
  reg_form : RegWrite → Form
  mem_form : MemWrite → Form
  read_form : MemRead → Form
  bare_form : (c : Commit) (rest : Text) → AllIn space rest → Form
  plain_form : Disassembly → Form
  trap_form : Trap → Form

abbrev pub form_text : Form → Text
form_text (reg_form w) = commit_text w.commit (reg_rest w)
form_text (mem_form w) = commit_text w.commit (mem_rest w)
form_text (read_form w) = commit_text w.commit (read_rest w)
form_text (bare_form c rest h) = commit_text c rest
form_text (plain_form d) = head_text d.head (place_text d.place (d.gap ++ (d.word ++ d.operands)))
form_text (trap_form t) = head_text t.head (codes "exception" ++ (t.gap ++ (t.name ++ t.rest)))

abbrev pub form_line : Form → Line
form_line (reg_form w) =
    let l = w.commit.place in
    reg_line (int_base l.pc 16) (int_base l.instr 16) (int_base w.rd 10) (int_base w.val 16)
form_line (mem_form w) =
    let l = w.commit.place in
    mem_line (int_base l.pc 16) (int_base l.instr 16) (int_base w.addr 16) (int_base w.val 16)
form_line (read_form w) = mem_read_line
form_line (bare_form c rest h) = bare_commit_line
form_line (plain_form d) = plain_line (int_base d.place.pc 16) (int_base d.place.instr 16)
form_line (trap_form t) = exception_line t.name (form_text (trap_form t))
