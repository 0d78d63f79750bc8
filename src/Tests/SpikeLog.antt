-- ===== src/Tests/SpikeLog.antt =====
-- shared/spike/spike_log_parser.py.
use risc_v_pipeline_sim.Common.{codes, ◌≡◌, refl, none, some, List, [], ◌∷◌, map}
use risc_v_pipeline_sim.Trace.{SpikeRecord}
use risc_v_pipeline_sim.SpikeLog.{
  Line, reg_line, mem_line, plain_line, other_line, Key, append_to, pop_from, read_line, read_lines,
  correlate, parse_lines,
}
use risc_v_pipeline_sim.SpikeLog.Commits.{retired, reg_commits, mem_commits}
use risc_v_pipeline_sim.SpikeLog.Fifo.{key_of, field_of, served, parse_lines-served}

-- An addi in a loop, twice, and a store between.
abbrev log_lines : List Line
log_lines =
    plain_line 0x80000000 0xffff0f13
    ∷ reg_line 0x80000000 0xffff0f13 30 5
    ∷ plain_line 0x80000004 0x23
    ∷ mem_line 0x80000004 0x23 0x80000f00 7
    ∷ other_line (codes "?")
    ∷ plain_line 0x80000000 0xffff0f13
    ∷ reg_line 0x80000000 0xffff0f13 30 4
    ∷ []

loop_records :
    parse_lines log_lines
    ≡ record { idx = 0; pc = 0x80000000; instr = 0xffff0f13; reg = some (30, 5); mem = none }
      ∷ record { idx = 1; pc = 0x80000004; instr = 0x23; reg = none; mem = some (0x80000f00, 7) }
      ∷ record { idx = 2; pc = 0x80000000; instr = 0xffff0f13; reg = some (30, 4); mem = none }
      ∷ []
unfolding parse_lines read_lines read_line append_to pop_from correlate
loop_records = refl

-- A pc that is printed with 64 bits: the commit is not found.
lost_commit :
    parse_lines (plain_line 0xffffffff80000000 0x13 ∷ reg_line 0xffffffff80000000 0x13 1 9 ∷ [])
    ≡ record { idx = 0; pc = 0x80000000; instr = 0x13; reg = none; mem = none } ∷ []
unfolding parse_lines read_lines read_line append_to pop_from correlate
lost_commit = refl

abbrev add_key : Key
add_key = (0x80000000, 0xffff0f13)

parse_lines-served_example :
    (map key_of (parse_lines log_lines) ≡ retired log_lines)
    × (field_of (λ (r : SpikeRecord). r.reg) add_key (parse_lines log_lines)
        ≡ served add_key (retired log_lines) (reg_commits add_key log_lines))
    × (field_of (λ (r : SpikeRecord). r.mem) add_key (parse_lines log_lines)
        ≡ served add_key (retired log_lines) (mem_commits add_key log_lines))
parse_lines-served_example = parse_lines-served log_lines add_key
