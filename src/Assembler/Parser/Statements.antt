-- ===== src/Assembler/Parser/Statements.antt =====
-- src/assembler/parser.rs: labels, directives and opcodes, and the loop over the input.
use lakesis.Base.{
  ℕ, zero, suc, Bool, true, List, [], Option, none, some, leb, ◌==◌, if◌then◌else◌, length,
}
use lakesis.Base.Text.{Text}
use lakesis.Base.Int.{ℤ, pos, negsuc}
use lakesis.Base.Words.{as_uword}
use lakesis.Base.Result.{ok, panic, ◌>>=◌, ◌>>◌}
use lakesis.Opcodes.Instruction.{Instruction, descriptor}
use lakesis.Assembler.Report.{
  AsmResult, alignment_too_small, expected_label_or_instruction, expected_directive,
  expected_string_literal, expected_label, expected_instruction, wrong_operand_count,
}
use lakesis.Assembler.Lexeme.{LexerToken, LexerTokenValue, Directive}
use lakesis.Assembler.Token.{Token, label_definition, string, align, define, opcode}
use lakesis.Assembler.Parser.{
  Parser, parser_new, is_eof, peek, peek_full, consume, consume_or_error, fail, make_token,
  expect_number, operands_loop, check_operands,
}

unfoldable pub expect_instruction : LexerTokenValue → Parser → AsmResult Instruction
expect_instruction (LexerTokenValue.instruction i) p = ok i
expect_instruction _ p = fail expected_instruction p

unfoldable pub parse_opcode : Parser → AsmResult Parser
parse_opcode p = do
  v ← peek p
  i ← expect_instruction v p
  let p₁ = (consume p).1
  (operands, p₂) ← operands_loop (length p.inputs) [] p₁
  let d = descriptor i
  if length d.operands == length operands
      then (do
        check_operands d.mnemonic 0 d.operands operands p₂
        make_token (opcode i operands) p₂)
      else fail (wrong_operand_count d.mnemonic (length d.operands) (length operands)) p₂

-- The label in front of a string, if there is one.
unfoldable pub take_label : LexerTokenValue → Parser → AsmResult (Option Text × Parser)
take_label (LexerTokenValue.label_reference l) p = do p' ← consume_or_error p; ok (some l, p')
take_label _ p = ok (none, p)

unfoldable pub expect_string : LexerTokenValue → Parser → AsmResult Text
expect_string (LexerTokenValue.string_literal s) p = ok s
expect_string _ p = fail expected_string_literal p

unfoldable pub parse_directive_string : Parser → AsmResult Parser
parse_directive_string p = do
  v ← peek p
  (length_label, p₁) ← take_label v p
  v₁ ← peek p₁
  value ← expect_string v₁ p₁
  make_token (string length_label value) (consume p₁).1

-- `x <= 1` on `i64`
unfoldable pub is_at_most_one : ℤ → Bool
is_at_most_one (pos n) = leb n 1
is_at_most_one (negsuc n) = true

unfoldable pub parse_directive_align : Parser → AsmResult Parser
parse_directive_align p = do
  v ← peek p
  alignment ← expect_number v p
  if is_at_most_one alignment
      then fail alignment_too_small p
      else make_token (align (as_uword alignment)) (consume p).1

unfoldable pub expect_label : LexerTokenValue → Parser → AsmResult Text
expect_label (LexerTokenValue.label_reference l) p = ok l
expect_label _ p = fail expected_label p

unfoldable pub parse_directive_define : Parser → AsmResult Parser
parse_directive_define p = do
  v ← peek p
  l ← expect_label v p
  p₁ ← consume_or_error p
  v₁ ← peek p₁
  value ← expect_number v₁ p₁
  make_token (define l value) (consume p₁).1

unfoldable pub expect_directive : LexerTokenValue → Parser → AsmResult Directive
expect_directive (LexerTokenValue.directive d) p = ok d
expect_directive _ p = fail expected_directive p

unfoldable pub parse_arguments : Directive → Parser → AsmResult Parser
parse_arguments Directive.string p = parse_directive_string p
parse_arguments Directive.align p = parse_directive_align p
parse_arguments Directive.define p = parse_directive_define p

unfoldable pub parse_directive : Parser → AsmResult Parser
parse_directive p = do
  v ← peek p
  d ← expect_directive v p
  p₁ ← consume_or_error p
  parse_arguments d p₁

-- `parse_single`, by the token at its start.
unfoldable pub parse_statement : LexerTokenValue → Parser → AsmResult Parser
parse_statement (LexerTokenValue.label_definition l) p = do
  p' ← make_token (label_definition l) p
  ok (consume p').1
parse_statement (LexerTokenValue.directive _) p = parse_directive p
parse_statement (LexerTokenValue.instruction _) p = parse_opcode p
parse_statement _ p = fail expected_label_or_instruction p

unfoldable pub parse_single : Parser → AsmResult Parser
parse_single p = do v ← peek p; parse_statement v p

-- `while !self.is_eof()`, on fuel: each round passes a token at least.
unfoldable pub parse_loop : ℕ → Parser → AsmResult Parser
parse_loop zero p = if is_eof p then ok p else panic
parse_loop (suc fuel) p =
    let round : AsmResult Parser = (do
      t ← peek_full p
      p' ← parse_single (record p { token_start = t.range.start })
      parse_loop fuel p') in
    if is_eof p then ok p else round

-- `parse` on a new parser, whose outputs are empty.
unfoldable pub parse : List LexerToken → AsmResult (List Token)
parse tokens = do p ← parse_loop (length tokens) (parser_new tokens); ok p.outputs
