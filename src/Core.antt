-- ===== src/Core.antt =====
-- The core in SystemVerilog, rtl/riscv_core.sv and the modules that it puts together. A signal of
-- one bit is of type Bool, a wider one is the number of its bits.
pub mod Alu
pub mod Control
pub mod Datapath
pub mod Predictor
pub mod LoopBuffer
pub mod Pipeline
pub mod Cycle
