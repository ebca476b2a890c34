-- ===== src/Opcodes/Operand.antt =====
-- src/opcodes.rs: operands.
use lakesis.Base.{ℕ}
use lakesis.Base.Int.{ℤ}
use lakesis.Opcodes.Mode.{OperandMode, read_only, read_write}

pub data Operand : Type 0 where
  immediate : ℤ → Operand
  register : ℕ → Operand
  reference : ℕ → ℤ → Operand
  stack : ℕ → Operand

-- `Operand::mode`
unfoldable pub operand_mode : Operand → OperandMode
operand_mode (immediate v) = read_only
operand_mode _ = read_write
