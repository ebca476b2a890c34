-- ===== src/Opcodes.antt =====
-- src/opcodes.rs: instructions, operands, and reading an opcode from bytes.
pub mod Mode
pub mod Instruction
pub mod Operand
pub mod Decode
pub mod Cursor
