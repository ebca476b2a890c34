-- ===== src/Tests/Parsing.antt =====
-- The theorems about the parser, on the tokens of a small program.
use lakesis.Base.{◌↔◌, length, ◌≡◌, refl, List, [], ◌∷◌, map, none, arith}
use lakesis.Base.Int.{negsuc}
use lakesis.Base.Text.{codes}
use lakesis.Base.Distinct.{All}
use lakesis.Base.Result.{ok, err, Returns}
use lakesis.Opcodes.Instruction.{move, halt, descriptor}
use lakesis.Opcodes.Decode.{check_modes}
use lakesis.Opcodes.Mode.{can_be_used_as}
use lakesis.Opcodes.Operand.{operand_mode}
use lakesis.Opcodes.Cursor.{disassemble}
use lakesis.Assembler.Report.{range_invalid, FileRange, wrong_operand_count}
use lakesis.Assembler.Lexeme.{LexerToken, LexerTokenValue}
use lakesis.Assembler.Token.{
  Token, TokenValue, immediate, register, reference, opcode, align, string, label_definition,
}
use lakesis.Assembler.Output.{Output, empty}
use lakesis.Assembler.Encoder.{encode}
use lakesis.Assembler.Encoder.Program.{Line, token_of, opcode_of}
use lakesis.Assembler.Parser.View.{IsNegatable}
use lakesis.Assembler.Parser.{
  parser_new, is_eof, peek_full, peek, consume, last_input, range, make_token, find_operand,
  consume_found, parse_operand, is_separator, consume_or_error, pass_separator, collect,
  operands_loop, mode, check_operands,
}
use lakesis.Assembler.Parser.Statements.{
  parse, expect_instruction, parse_opcode, parse_statement, parse_single, parse_loop,
}
use lakesis.Assembler.Parser.Safety.{AreChecked, IsChecked}
use lakesis.Assembler.Parser.Printed.{program_lexemes}
use lakesis.Assembler.Parser.Checked.{parse-AreChecked}
use lakesis.Assembler.Parser.RoundTrip.{parse-program_lexemes}
use lakesis.Assembler.Parser.Acceptance.{parse-accepts_iff}
use lakesis.Assembler.Parser.Refusal.{parse-wrong_operand_count}
use lakesis.Assembler.Parser.Disassembly.{disassemble-encode-parse}

-- a: .string "A"; .align 8; mov [r2-5], r1; halt
abbrev statements : List TokenValue
statements =
    label_definition (codes "a")
    ∷ string none (codes "A")
    ∷ align 8
    ∷ opcode move (reference 2 (negsuc 4) ∷ register 1 ∷ [])
    ∷ opcode halt []
    ∷ []

abbrev at_nowhere : LexerTokenValue → LexerToken
at_nowhere v = record { value = v; range = range_invalid }

abbrev tokens : List LexerToken
tokens = map at_nowhere (program_lexemes statements)

All-IsNegatable : All (λ t. IsNegatable t.value) tokens
All-IsNegatable =
    (tt, (tt, (tt, (tt, (tt, (tt, (tt, (tt, (tt, (tt, (tt, (tt, (tt, (tt, tt))))))))))))))

parse-program_lexemes_example :
    (out : List Token) × (parse tokens ≡ ok out) × (map (λ t. t.value) out ≡ statements)
unfolding descriptor check_modes can_be_used_as operand_mode
parse-program_lexemes_example =
    parse-program_lexemes statements tokens refl All-IsNegatable
      (tt, (tt, (omega arith, ((refl, refl), ((refl, refl), tt)))))

parse-AreChecked_example : Returns AreChecked (parse tokens)
parse-AreChecked_example = parse-AreChecked tokens All-IsNegatable

-- mov -300, r1; halt
abbrev lines : List Line
lines =
    record {
      instruction = move;
      operands = immediate (negsuc 299) ∷ register 1 ∷ [];
      range = range_invalid;
    }
    ∷ record { instruction = halt; operands = []; range = range_invalid }
    ∷ []

abbrev line_tokens : List LexerToken
line_tokens =
    at_nowhere (LexerTokenValue.instruction move)
    ∷ at_nowhere (LexerTokenValue.number (negsuc 299))
    ∷ at_nowhere LexerTokenValue.argument_separator
    ∷ at_nowhere (LexerTokenValue.register 1)
    ∷ at_nowhere (LexerTokenValue.instruction halt)
    ∷ []

accepted : parse line_tokens ≡ ok (map token_of lines)
unfolding parse parser_new is_eof peek_full peek consume range make_token find_operand consume_found
    parse_operand is_separator consume_or_error pass_separator collect operands_loop mode
    check_operands expect_instruction parse_opcode parse_statement parse_single parse_loop
    last_input descriptor can_be_used_as
accepted = refl

disassemble-encode-parse_example :
    (o : Output) × (encode (map token_of lines) empty ≡ ok o)
    × (disassemble o.bytes ≡ ok (map opcode_of lines))
disassemble-encode-parse_example =
    disassemble-encode-parse line_tokens lines (tt, (omega arith, (tt, (tt, (tt, tt))))) accepted
      ((omega arith, (omega arith, tt)), (tt, tt))

-- a: halt r1; .align 8
abbrev refused_tokens : List LexerToken
refused_tokens =
    map at_nowhere (
      program_lexemes (label_definition (codes "a") ∷ opcode halt (register 1 ∷ []) ∷ align 8 ∷ []))

parse-wrong_operand_count_example :
    (r : FileRange) × (parse refused_tokens
      ≡ err (record {
        message =
            wrong_operand_count (descriptor halt).mnemonic (length (descriptor halt).operands) 1;
        range = r;
      }))
unfolding descriptor
parse-wrong_operand_count_example =
    parse-wrong_operand_count (label_definition (codes "a") ∷ []) halt (register 1 ∷ [])
      (align 8 ∷ []) refused_tokens refl (tt, (tt, (tt, (tt, (tt, tt))))) (tt, tt)
      (λ e. absurd (omega (arith, e)))

parse-accepts_iff_example :
    ((out : List Token) × (parse tokens ≡ ok out)) ↔ All IsChecked statements
parse-accepts_iff_example = parse-accepts_iff statements tokens refl All-IsNegatable
