-- ===== src/Tests.antt =====
-- Runs of the theorems at concrete inputs.
mod Encoding
mod Lexing
mod Parsing
mod Memory
mod Machine
mod Running
mod Collecting
mod Commands
