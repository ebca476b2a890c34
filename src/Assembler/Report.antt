-- ===== src/Assembler/Report.antt =====
-- src/assembler/mod.rs: positions, ranges and errors of the assembler. A message of the source is a
-- constructor, with what the message shows; the text of an operand is left out of it.
use lakesis.Base.{ℕ, ◌+◌}
use lakesis.Base.Text.{Text}
use lakesis.Base.Result
use lakesis.Opcodes.Mode.{OperandMode}

pub record FilePosition : Type 0 where
  pub line : ℕ
  pub column : ℕ

pub record FileRange : Type 0 where
  pub start : FilePosition
  pub end : FilePosition

abbrev pub position_start : FilePosition
position_start = record { line = 1; column = 1 }

unfoldable pub next_column : FilePosition → FilePosition
next_column p = record p { column = p.column + 1 }

unfoldable pub next_line : FilePosition → FilePosition
next_line p = record { line = p.line + 1; column = 1 }

-- `FileRange::invalid`
abbrev pub range_invalid : FileRange
range_invalid = record { start = position_start; end = position_start }

-- `FileRange::single`
abbrev pub range_single : FilePosition → FileRange
range_single p = record { start = p; end = p }

pub data Message : Type 0 where
  -- src/assembler/encoder.rs
  alignment_too_small operand_too_long : Message
  redefinition_of_label label_not_found : Text → Message
  -- src/assembler/parser.rs
  unexpected_end_of_file expected_label_or_instruction expected_directive : Message
  expected_string_literal expected_number expected_label expected_instruction : Message
  expected_operand expected_reference_start expected_stack_or_register : Message
  negative_stack_offset expected_reference_end : Message
  wrong_operand_count : Text → ℕ → ℕ → Message
  wrong_operand_mode : Text → ℕ → OperandMode → Message
  -- src/assembler/lexer.rs
  syntax_error no_digits number_too_large unterminated_character invalid_register : Message
  unknown_escape : ℕ → Message
  unknown_directive : Text → Message

pub record Error : Type 0 where
  pub message : Message
  pub range : FileRange

-- `Result<T>` of src/assembler/mod.rs.
abbrev pub AsmResult {ℓ} : Type ℓ → Type ℓ
AsmResult A = Result.Result Error A
