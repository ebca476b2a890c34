-- ===== src/Assembler/Parser.antt =====
-- src/assembler/parser.rs: from the lexer's tokens to the encoder's.
pub mod Statements
pub mod View
pub mod Operands
pub mod Safety
pub mod Checked
pub mod Printed
pub mod OperandsBack
pub mod StatementsBack
pub mod RoundTrip
pub mod Refusal
pub mod Acceptance
pub mod Disassembly
use lakesis.Base.{
  ℕ, zero, suc, ◌+◌, ◌-◌, Bool, true, false, not, List, [], ◌∷◌, ◌++◌, Option, none, some, ltb, leb,
  ◌==◌, if◌then◌else◌, length, get_elem?,
}
use lakesis.Base.Text.{Text}
use lakesis.Base.Int.{ℤ, pos, negsuc}
use lakesis.Base.Words.{as_uword, neg_iword}
use lakesis.Base.Result.{ok, err, panic, ◌>>=◌, ◌>>◌, guard, unwrap}
use lakesis.Opcodes.Mode.{OperandMode, read_only, read_write, can_be_used_as}
use lakesis.Opcodes.Instruction.{Instruction, descriptor}
use lakesis.Assembler.Report.{
  FilePosition, FileRange, Message, AsmResult, position_start, unexpected_end_of_file,
  expected_number, expected_operand, expected_reference_start, expected_stack_or_register,
  expected_reference_end, negative_stack_offset, wrong_operand_count, wrong_operand_mode,
}
use lakesis.Assembler.Lexeme.{LexerToken, LexerTokenValue}
use lakesis.Assembler.Token.{
  Token, TokenValue, Operand, label, immediate, register, stack, reference,
}

pub record Parser : Type 0 where
  pub inputs : List LexerToken
  pub input_index : ℕ
  pub token_start : FilePosition
  pub outputs : List Token

-- `Parser::new`
unfoldable pub parser_new : List LexerToken → Parser
parser_new ts = record { inputs = ts; input_index = 0; token_start = position_start; outputs = [] }

unfoldable pub is_eof : Parser → Bool
is_eof p = leb (length p.inputs) p.input_index

unfoldable pub peek_full : Parser → AsmResult LexerToken
peek_full p = unwrap (get_elem? p.inputs p.input_index)

unfoldable pub peek : Parser → AsmResult LexerTokenValue
peek p = do t ← peek_full p; ok t.value

-- Whether more tokens follow, and the parser behind the token.
unfoldable pub consume : Parser → Bool × Parser
consume p =
    let p' = record p { input_index = p.input_index + 1 } in
    if is_eof p then (false, p) else (not (is_eof p'), p')

-- `self.inputs[self.inputs.len() - 1]`
unfoldable pub last_input : List LexerToken → AsmResult LexerToken
last_input ts = if length ts == 0 then panic else unwrap (get_elem? ts (length ts - 1))

unfoldable pub range : Parser → AsmResult FileRange
range p = do
  t ← if is_eof p then last_input p.inputs else peek_full p
  ok (record { start = p.token_start; end = t.range.end })

-- `Err(self.make_error(…))`
unfoldable pub fail {ℓ} : {A : Type ℓ} → Message → Parser → AsmResult A
fail m p = do r ← range p; err (record { message = m; range = r })

unfoldable pub consume_or_error : Parser → AsmResult Parser
consume_or_error p =
    let (more, p') = consume p in if more then ok p' else fail unexpected_end_of_file p'

unfoldable pub make_token : TokenValue → Parser → AsmResult Parser
make_token v p = do
  r ← range p
  ok (record p { outputs = p.outputs ++ record { value = v; range = r } ∷ [] })

-- The sign in front of an offset.
unfoldable pub offset_sign : LexerTokenValue → Option Bool
offset_sign LexerTokenValue.offset_positive = some false
offset_sign LexerTokenValue.offset_negative = some true
offset_sign _ = none

unfoldable pub expect_number : LexerTokenValue → Parser → AsmResult ℤ
expect_number (LexerTokenValue.number n) p = ok n
expect_number _ p = fail expected_number p

-- The number behind a sign, or no offset.
unfoldable pub signed_offset : Option Bool → Parser → AsmResult (ℤ × Parser)
signed_offset none p = ok (pos 0, p)
signed_offset (some is_negative) p = do
  p₁ ← consume_or_error p
  n ← peek p₁
  absolute_value ← expect_number n p₁
  p₂ ← consume_or_error p₁
  offset ← if is_negative then neg_iword absolute_value else ok absolute_value
  ok (offset, p₂)

unfoldable pub parse_reference_or_stack_offset : Parser → AsmResult (ℤ × Parser)
parse_reference_or_stack_offset p = do v ← peek p; signed_offset (offset_sign v) p

-- The stack pointer, or a register.
unfoldable pub expect_base : LexerTokenValue → Parser → AsmResult (Option ℕ)
expect_base LexerTokenValue.stack_pointer p = ok none
expect_base (LexerTokenValue.register r) p = ok (some r)
expect_base _ p = fail expected_stack_or_register p

unfoldable pub expect_start : LexerTokenValue → Parser → AsmResult (Unit {0})
expect_start LexerTokenValue.start_reference p = ok tt
expect_start _ p = fail expected_reference_start p

unfoldable pub expect_end : LexerTokenValue → Parser → AsmResult (Unit {0})
expect_end LexerTokenValue.end_reference p = ok tt
expect_end _ p = fail expected_reference_end p

-- The operand at the end; a stack offset that is negative was refused.
unfoldable pub operand_at_base : Option ℕ → ℤ → Operand
operand_at_base none offset = stack (as_uword offset)
operand_at_base (some r) offset = reference r offset

-- `offset < 0 && register.is_none()`
unfoldable pub is_below_stack : Option ℕ → ℤ → Bool
is_below_stack none (negsuc n) = true
is_below_stack _ _ = false

unfoldable pub parse_reference_or_stack : Parser → AsmResult (Operand × Parser)
parse_reference_or_stack p = do
  v ← peek p
  expect_start v p
  p₁ ← consume_or_error p
  v₁ ← peek p₁
  base ← expect_base v₁ p₁
  p₂ ← consume_or_error p₁
  (offset, p₃) ← parse_reference_or_stack_offset p₂
  if is_below_stack base offset
      then fail negative_stack_offset p₃
      else (do v₃ ← peek p₃; expect_end v₃ p₃; ok (operand_at_base base offset, (consume p₃).1))

-- What `parse_operand` finds at a token: an operand, the start of a reference, or neither.
pub data Found : Type 0 where
  operand : Operand → Found
  start nothing : Found

unfoldable pub find_operand : LexerTokenValue → Found
find_operand (LexerTokenValue.label_reference l) = operand (label l)
find_operand (LexerTokenValue.number n) = operand (immediate n)
find_operand (LexerTokenValue.register i) = operand (register i)
find_operand (LexerTokenValue.character_literal c) = operand (immediate (pos c))
find_operand LexerTokenValue.start_reference = start
find_operand _ = nothing

-- The parser passes what was found; a reference is parsed first.
unfoldable pub consume_found : Found → Parser → AsmResult (Option Operand × Parser)
consume_found (operand o) p = ok (some o, (consume p).1)
consume_found start p = do (o, p') ← parse_reference_or_stack p; ok (some o, p')
consume_found nothing p = ok (none, p)

unfoldable pub parse_operand : Parser → AsmResult (Option Operand × Parser)
parse_operand p =
    if is_eof p then ok (none, p) else (do v ← peek p; consume_found (find_operand v) p)

unfoldable pub is_separator : LexerTokenValue → Bool
is_separator LexerTokenValue.argument_separator = true
is_separator _ = false

-- Whether the loop of `parse_opcode` goes on behind an operand.
unfoldable pub pass_separator : Parser → AsmResult (Bool × Parser)
pass_separator p = if is_eof p then ok (false, p) else (do
  v ← peek p
  if is_separator v then (do p' ← consume_or_error p; ok (true, p')) else ok (false, p))

abbrev pub Operands : Type 0
Operands = List Operand × Parser

-- The body of the loop behind `parse_operand`, with the next round.
unfoldable pub collect :
    (List Operand → Parser → AsmResult Operands)
    → List Operand
    → Option Operand
    → Parser
    → AsmResult Operands
collect again operands none p =
    if length operands == 0 then ok (operands, p) else fail expected_operand p
collect again operands (some o) p = do
  (more, p') ← pass_separator p
  if more then again (operands ++ o ∷ []) p' else ok (operands ++ o ∷ [], p')

-- The `loop` of `parse_opcode`, on fuel: each round but the last passes an operand and a separator.
unfoldable pub operands_loop : ℕ → List Operand → Parser → AsmResult Operands
operands_loop zero operands p = panic
operands_loop (suc fuel) operands p = do
  (found, p') ← parse_operand p
  collect (operands_loop fuel) operands found p'

-- `Operand::mode` of src/assembler/parser.rs.
unfoldable pub mode : Operand → OperandMode
mode (immediate _) = read_only
mode (label _) = read_only
mode _ = read_write

-- The loop that compares the modes, from the operand with number `i + 1` on.
unfoldable pub check_operands :
    Text → ℕ → List OperandMode → List Operand → Parser → AsmResult (Unit {0})
check_operands mnemonic i (expected ∷ es) (actual ∷ as') p =
    if can_be_used_as (mode actual) expected
    then check_operands mnemonic (suc i) es as' p
    else fail (wrong_operand_mode mnemonic (i + 1) expected) p
check_operands mnemonic i _ _ p = ok tt
