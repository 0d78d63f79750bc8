-- ===== src/Tests.antt =====
-- Runs of the definitions at inputs that can be followed in the source, and the theorems at
-- concrete inputs.
mod Encoding
mod Generator
mod Trace
mod Output
mod SpikeLog
mod SpikeForms
mod Logs
mod Isa
mod Simulation
mod Core
mod Cycle
mod SameRun
