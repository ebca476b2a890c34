-- ===== src/Tests/Lexing.antt =====
-- The theorems about the lexer and the whole assembler, on small texts.
use lakesis.Base.{ℕ, ◌≡◌, refl, true, List, [], ◌∷◌, map, arith, ◌==◌, leb, ◌&&◌, ◌||◌}
use lakesis.Base.Chars.{is_digit, is_below, digit_value, is_ascii_alphabetic}
use lakesis.Base.Int.{pos, negsuc, ◌*ℤ◌}
use lakesis.Base.Words.{neg_iword, mul_iword}
use lakesis.Base.Text.{codes, text_eq}
use lakesis.Base.Distinct.{All}
use lakesis.Base.Result.{ok, Returns, ◌>>=◌}
use lakesis.Opcodes.Instruction.{move, halt, descriptor, from_mnemonic, to_lowercase}
use lakesis.Opcodes.Mode.{can_be_used_as}
use lakesis.Opcodes.Cursor.{disassemble}
use lakesis.Base.Chars
use lakesis.Assembler.Report
use lakesis.Assembler.Lexer
use lakesis.Assembler.Lexer.Numbers
use lakesis.Assembler.Lexer.Words
use lakesis.Assembler.Lexer.Single
use lakesis.Assembler.Parser
use lakesis.Assembler.Parser.Statements
use lakesis.Assembler.Report.{FilePosition, FileRange, AsmResult}
use lakesis.Assembler.Token.{immediate, register}
use lakesis.Assembler.Output.{Output, empty}
use lakesis.Assembler.Encoder.Program.{Line, token_of, opcode_of}
use lakesis.Assembler.Lexer.Numbers.{is_number_part}
use lakesis.Assembler.Lexer.Words.{Classes}
use lakesis.Assembler.Lexer.Single.{lex}
use lakesis.Assembler.Lexer.Multiplier.{lacks_multiplier, lacks_from, is_on}
use lakesis.Assembler.Lexer.NumberBack.{digit_char, lex-digit_char}
use lakesis.Assembler.Lexeme.{LexerTokenValue}
use lakesis.Assembler.Lexer.Safety.{lex-IsNegatable}
use lakesis.Assembler.Parser.View.{IsNegatable}
use lakesis.Assembler.Parser.Statements.{parse}
use lakesis.Assembler.Assemble.{assemble, disassemble-assemble}

-- The classes of the characters up to 7F.
abbrev pub ascii : Classes
ascii = record {
  is_whitespace = λ c. c == b' ' || leb 9 c && leb c 13;
  is_alphabetic = λ c. leb b'a' c && leb c b'z' || leb b'A' c && leb c b'Z';
  is_numeric = λ c. leb b'0' c && leb c b'9';
}

abbrev pub text : List ℕ
text = codes "mov -300, r1 ; new lines\nhalt"

pub text_lacks : lacks_multiplier text ≡ true
unfolding lacks_multiplier lacks_from is_on is_number_part is_digit is_below digit_value
text_lacks = refl

lex-IsNegatable_example : Returns (All (λ t. IsNegatable t.value)) (lex ascii text)
lex-IsNegatable_example = lex-IsNegatable ascii text text_lacks

abbrev at : ℕ → ℕ → ℕ → ℕ → FileRange
at l c l' c' = record {
  start = record { line = l; column = c };
  end = record { line = l'; column = c' };
}

-- An opcode ends with the token behind it, if there is one.
abbrev pub lines : List Line
lines =
    record {
      instruction = move;
      operands = immediate (negsuc 299) ∷ register 1 ∷ [];
      range = at 1 1 2 5;
    }
    ∷ record { instruction = halt; operands = []; range = at 2 1 2 5 }
    ∷ []

pub accepted : (do ts ← lex ascii text; parse ts) ≡ ok (map token_of lines)
unfolding Lexer.from_buffer Lexer.is_eof Lexer.or_nul Lexer.peek_around_raw Lexer.peek_raw
    Lexer.peek_around Lexer.peek Lexer.next_position Lexer.width Lexer.consume Lexer.read_while
    Lexer.lexer_new Lexer.range Lexer.make_token Lexer.advance Lexer.advance_or_error
    Chars.digit_value Chars.is_below Chars.is_digit Chars.with_digit Chars.digits_value
    Chars.fits_positive Chars.from_str_radix Numbers.lex_sign Numbers.lex_radix
    Numbers.is_number_part Numbers.lex_digits Numbers.lex_multiplier Numbers.or_too_large
    Numbers.lex_number Chars.ends_with Chars.is_empty Chars.trim_start_matches Chars.starts_with
    Chars.fits_byte Chars.parse_u8 Words.register_token Words.lex_register Words.instruction_token
    Words.name_token Words.is_valid_identifier_start Words.is_valid_identifier_middle
    Words.lex_identifier Single.skip_while Single.lex_mark Single.lex_whitespace Single.lex_comment
    Single.lex_single Single.lex_loop Single.lex Parser.parser_new Parser.is_eof Parser.peek_full
    Parser.peek Parser.consume Parser.range Parser.consume_or_error Parser.make_token
    Parser.find_operand Parser.consume_found Parser.parse_operand Parser.is_separator
    Parser.pass_separator Parser.collect Parser.operands_loop Parser.mode Parser.check_operands
    Statements.expect_instruction Statements.parse_opcode Statements.parse_statement
    Statements.parse_single Statements.parse_loop Statements.parse Report.next_column
    Report.next_line text_eq from_mnemonic to_lowercase neg_iword mul_iword ◌*ℤ◌ descriptor
    can_be_used_as Single.lex_signed Lexer.consume_or_error Lexer.consume_many_or_error
    Lexer.consume_many Parser.last_input
accepted = refl

disassemble-assemble_example :
    (o : Output) × (assemble ascii text empty ≡ ok o)
    × (disassemble o.bytes ≡ ok (map opcode_of lines))
disassemble-assemble_example =
    disassemble-assemble ascii text lines text_lacks accepted
      ((omega arith, (omega arith, tt)), (tt, tt))

lex-digit_char_example :
    (r : FileRange) × (lex ascii (map digit_char (3 ∷ 0 ∷ 7 ∷ []))
      ≡ ok (record { value = LexerTokenValue.number (pos 307); range = r } ∷ []))
lex-digit_char_example =
    lex-digit_char ascii 3 (0 ∷ 7 ∷ []) (omega arith, (omega arith, (omega arith, tt)))
      (refl, (refl, (refl, tt))) (omega arith)
