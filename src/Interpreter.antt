-- ===== src/Interpreter.antt =====
-- interpreter/: the virtual machine.
pub mod Data
pub mod Memory
pub mod Cpu
pub mod Native
pub mod Step
pub mod Run
