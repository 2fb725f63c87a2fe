-- ===== src/Sim.antt =====
-- scripts/sim.py: the behavioural simulator.
pub mod State
pub mod Exec
pub mod Tick
pub mod Host
pub mod Output
pub mod Flow
pub mod Step
pub mod Jump
pub mod Window
pub mod Block
pub mod Add
pub mod Registers
pub mod Negative
