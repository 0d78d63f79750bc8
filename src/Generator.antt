-- ===== src/Generator.antt =====
-- shared/spike/gen_program.py, the random program generator.
pub mod Random
pub mod Instr
pub mod Draws
pub mod Program
pub mod Base
pub mod Safe
pub mod Targets
pub mod InstrSafe
pub mod Transfers
pub mod Dispatch
pub mod LoopBlock
pub mod Pieces
pub mod PassOne
pub mod PassTwo
pub mod Whole
pub mod Outcome
pub mod Image
pub mod Full
