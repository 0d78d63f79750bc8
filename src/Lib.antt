-- ===== src/Lib.antt =====
-- Verification of the Python tooling of the RV32I pipeline simulator, in shared/spike, of the
-- simulator in C++, src/main.cpp, and of the core, under rtl/. The tooling generates a random
-- program, writes it for two simulators, parses the trace of each and compares them. What the
-- parts assume of one another is that every generated word means to the core what the generator
-- meant, and that the program stays in its memory and ends.
--
-- - Common: shared names, lists over native numbers, Python's integers (ℤ), the arithmetic of bit
--   fields (Common/Bits) and their bounds (Common/BitBounds), ASCII texts (Common/Ascii), numbers
--   as digits (Common/Digits) and the lines of a file (Common/Lines).
-- - Effect: actions that carry a state and may raise an exception, with a postcondition rule for
--   each way to build one.
-- - Encoding: enc_r, enc_i, enc_shift, enc_s, enc_b, enc_u and enc_j of
--   shared/spike/gen_program.py. Encoding/Decode has the bit slices of rtl/riscv_core.sv and
--   rtl/imm_gen.sv, by which the words are read back; Encoding/Fields and Encoding/Slices reduce
--   both to sums.
-- - Generator: the rest of the generator in gen_program.py. Generator/Random is random.Random as a
--   parameter: each draw has the range that Python documents, and nothing else is assumed.
--   Generator/Instr is _gen_one_instr, a function for each category; Generator/Program is
--   random_loop_block, random_program in its two passes, the preamble and build_full_program.
--   Generator/Safe says what a safe instruction is, Generator/Pieces is the abstract view of a
--   program, and the other modules prove that each pass keeps it.
-- - Elf: build_elf32 and self_check_elf of gen_program.py; Elf/Struct is what they use of Python's
--   struct, and Elf/Loader reads a file at the offsets of the ELF specification.
-- - Output: the text of program.hex, and main of gen_program.py with the two files as its value.
--   Output/Load has what both simulators get.
-- - Trace: the records that shared/spike/spike_log_parser.py and shared/spike/sv_log_parser.py
--   give, their functions truncate_at_self_loop, and shared/spike/compare_accuracy.py.
--   Trace/Compare is the function compare; Trace/Agreement says when two records agree, with no
--   mention of the checks, and Trace/Faithful what it means that one trace is the other shifted by
--   the reset vector.
-- - Regex: the regular expressions of the two log parsers and of shared/spike/run_spike.py, with a
--   matcher that takes greedy repetitions and goes back from them. The matcher stands for Python's
--   re, as documented, and for no code of the repository. Regex/Runs is about texts put together
--   from runs of one class.
-- - SpikeLog: parse_spike_log of shared/spike/spike_log_parser.py. SpikeLog/Scan has its patterns
--   and the order of its tests, SpikeLog itself what each kind of line adds and the walk that
--   gives instructions their commits; SpikeLog/Queues sees the queues of commits as a function
--   from keys to lists. SpikeLog/Printed has the forms of Spike's lines, as the parser's comments
--   describe them, without a second `core` in front of white space where another pattern could
--   match, and SpikeLog/Ordered the logs in which every instruction prints its own commit, which
--   SpikeLog/Attributed reads back.
-- - SvLog: parse_sv_log of shared/spike/sv_log_parser.py, with its dicts in the order of
--   insertion; SvLog/Records is what a log says of an index.
-- - CommitLog: the always block of rtl/tb_commit_log.sv that writes the log, from what the
--   pipeline registers behind EX and MEM hold in each cycle. CommitLog/Recovered reads the log
--   back.
-- - RunSpike: the instructions that shared/spike/run_spike.py finds in what Spike prints, and the
--   files spike_trace.txt and inst_mem.hex; RunSpike/Words compares the second with the other
--   parser's records.
-- - Accuracy: the function compare of shared/spike/compare_accuracy.py from the texts of the two
--   logs, with the numbers and lines that it prints about them; Accuracy/Counts is about any two
--   logs, and Accuracy/SameRun composes the parsers, the testbench and the comparison.
-- - Isa: the simulator src/main.cpp. Isa itself has its decoders, Isa/Machine the registers, the
--   memory and the arithmetic unit, Isa/Execute every case of decode_and_execute, and Isa/Run the
--   loop of run_sim and load_from_file. Isa/SameFields compares the decoders with the core's;
--   Isa/Access and Isa/Effects say what single accesses and instructions do.
-- - Simulation: the programs of gen_program.py on that simulator. Simulation/Steps is about one
--   round, Simulation/Loop about a loop block, Simulation/Pieces about the random part,
--   Simulation/Preamble about the fixed parts, Simulation/Loading about program.hex in the memory,
--   and Simulation/Settled composes them with main.
-- - Core: rtl/riscv_core.sv. Core/Alu and Core/Control are rtl/alu.sv and rtl/control_unit.sv;
--   Core/Datapath is what the stages EX, MEM and WB compute for one instruction from its operands,
--   and its modules compare that with a round of src/main.cpp, for memory accesses at multiples of
--   four, where the bytes of the one and the words of the other agree. Core/Pipeline has the
--   pipeline registers behind ID with what goes into each, the register file, rtl/forward_unit.sv
--   and rtl/hazard_unit.sv. Core/Predictor is rtl/branch_predictor.sv and Core/LoopBuffer is
--   rtl/loop_buffer.sv, each as its registers with a function for a clock edge;
--   Core/LoopBuffer/Cycles says how the core drives the second. Core/Cycle is the whole core: its
--   registers and memories in Core/Cycle/Registers, the signals of the fetch stage and of the
--   flush, and the function cycle for a clock edge. Core/Cycle/Sequential is its specification,
--   one instruction after the other, and the other modules compare the two: Core/Cycle/Ex the
--   stage EX, Core/Cycle/Round a cycle, Core/Cycle/Invariant what holds in every cycle,
--   Core/Cycle/Signals and Core/Cycle/Preserved why, Core/Cycle/Timing the bubbles,
--   Core/Cycle/Fetching the loop buffer and Core/Cycle/Refines a run. Core/Cycle/Typed,
--   Core/Cycle/SameData, Core/Cycle/SameStep and Core/Cycle/Simulated go on from there to the runs
--   of src/main.cpp.
-- - Tests: runs and the theorems at concrete inputs.
--
-- An integer of Python is a natural number where the program has only natural numbers, and of type
-- ℤ where it has negative ones. The set written_offsets is kept in the order in which sorted lists
-- it. A variable named pos in the source is called place, since pos is a constructor of ℤ. The
-- loop of the first pass takes fuel: n rounds, and each round moves on by one slot at least, so
-- that they are enough. The digits of a number take as many rounds as the number, which is more
-- than it has digits. A text is a list of ASCII codes, as Python reads it with line ends
-- translated; a line is the text without its line feed. A line of the testbench's log has all its
-- bits known, with no x or z.
--
-- A run of the simulator src/main.cpp takes the number of its rounds, since its loop need not end:
-- where a result is about every run, it holds for every number of rounds. An access outside its
-- array ends the run as undefined, and a value of a signed type is given by its bits.
--
-- Not modelled: the arguments of the command line, the wording of what the scripts print, the main
-- blocks of the two parsers, the calls of the compiler and of Spike in run_spike.py, and
-- dump_registers of src/main.cpp. Of the core, its debug outputs and the unknown bits of a
-- simulator of hardware are left out: a load outside the data memory gives 0 here. The testbenches
-- other than tb_commit_log.sv print what single modules do, and are left out too.
pub mod Common
pub mod Effect
pub mod Encoding
pub mod Generator
pub mod Elf
pub mod Output
pub mod Regex
pub mod Trace
pub mod SpikeLog
pub mod RunSpike
pub mod Isa
pub mod Core
pub mod Simulation
pub mod Accuracy
pub mod SvLog
pub mod CommitLog
pub mod Tests
