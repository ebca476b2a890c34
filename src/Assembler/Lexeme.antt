-- ===== src/Assembler/Lexeme.antt =====
-- src/assembler/lexer.rs: the tokens that the lexer gives the parser.
use lakesis.Base.{ℕ}
use lakesis.Base.Text.{Text}
use lakesis.Base.Int.{ℤ}
use lakesis.Opcodes.Instruction.{Instruction}
use lakesis.Assembler.Report.{FileRange}

pub data Directive : Type 0 where
  string align define : Directive

pub data LexerTokenValue : Type 0 where
  label_definition label_reference : Text → LexerTokenValue
  instruction : Instruction → LexerTokenValue
  number : ℤ → LexerTokenValue
  register : ℕ → LexerTokenValue
  stack_pointer start_reference end_reference argument_separator : LexerTokenValue
  offset_positive offset_negative : LexerTokenValue
  directive : Directive → LexerTokenValue
  string_literal : Text → LexerTokenValue
  character_literal : ℕ → LexerTokenValue

pub record LexerToken : Type 0 where
  pub value : LexerTokenValue
  pub range : FileRange
