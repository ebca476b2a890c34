-- ===== src/Assembler/Token.antt =====
-- src/assembler/parser.rs: the tokens that the parser gives the encoder.
use lakesis.Base.{ℕ, List, Option}
use lakesis.Base.Text.{Text}
use lakesis.Base.Int.{ℤ}
use lakesis.Opcodes.Instruction.{Instruction}
use lakesis.Assembler.Report.{FileRange}

pub data Operand : Type 0 where
  label : Text → Operand
  immediate : ℤ → Operand
  register : ℕ → Operand
  stack : ℕ → Operand
  reference : ℕ → ℤ → Operand

pub data TokenValue : Type 0 where
  label_definition : Text → TokenValue
  string : Option Text → Text → TokenValue
  align : ℕ → TokenValue
  define : Text → ℤ → TokenValue
  opcode : Instruction → List Operand → TokenValue

pub record Token : Type 0 where
  pub value : TokenValue
  pub range : FileRange
