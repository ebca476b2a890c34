-- ===== src/Assembler/Lexer/Words.antt =====
-- src/assembler/lexer.rs: strings, characters, identifiers and directives.
use lakesis.Base.{
  ℕ, zero, suc, ◌-◌, ◌^◌, Bool, true, false, ◌||◌, [], ◌∷◌, ◌++◌, Option, none, some, leb, ◌==◌,
  if◌then◌else◌, length,
}
use lakesis.Base.Chars.{
  ends_with, trim_end_matches, trim_start_matches, starts_with, parse_u8, is_ascii_alphabetic,
}
use lakesis.Base.Text.{Text, codes, text_eq}
use lakesis.Base.Result.{ok, panic, ◌>>=◌}
use lakesis.Core.{register_num}
use lakesis.Opcodes.Instruction.{Instruction, from_mnemonic, to_lowercase}
use lakesis.Assembler.Report.{
  AsmResult, unknown_escape, unterminated_character, unknown_directive, invalid_register,
}
use lakesis.Assembler.Lexeme.{LexerTokenValue, Directive}
use lakesis.Assembler.Lexer.{
  Lexer, peek, read_while, fuel_of, make_token, fail, advance, advance_or_error,
}

-- What the lexer asks the standard library about a character: tables of Unicode.
pub record Classes : Type 0 where
  pub is_whitespace : ℕ → Bool
  pub is_alphabetic : ℕ → Bool
  pub is_numeric : ℕ → Bool

-- The character behind a backslash, which ends with `quote` where it is a quote.
unfoldable pub escape : ℕ → ℕ → Option ℕ
escape quote c =
    if c == b'n'
    then some b'\n'
    else if c == quote
    then some quote
    else if c == b'\\'
    then some b'\\'
    else none

unfoldable pub or_unknown : Option ℕ → ℕ → Lexer → AsmResult ℕ
or_unknown none x l = fail (unknown_escape x) l
or_unknown (some c) x l = ok c

-- A character of a string or of a literal, which the reader stands at afterwards.
unfoldable pub lex_escaped : ℕ → Lexer → AsmResult (ℕ × Lexer)
lex_escaped quote l =
    let escaped : AsmResult (ℕ × Lexer) = (do
      l' ← advance_or_error l
      c ← or_unknown (escape quote (peek l'.reader)) (peek l'.reader) l'
      ok (c, l')) in
    if peek l.reader == b'\\' then escaped else ok (peek l.reader, l)

-- The loop of `lex_string`, on fuel: each round passes a character.
unfoldable pub string_loop : ℕ → Text → Lexer → AsmResult (Text × Lexer)
string_loop zero text l = panic
string_loop (suc fuel) text l =
    let round : AsmResult (Text × Lexer) = (do
      (c, l₁) ← lex_escaped b'"' l
      l₂ ← advance_or_error l₁
      string_loop fuel (text ++ c ∷ []) l₂) in
    if peek l.reader == b'"' then ok (text, l) else round

unfoldable pub lex_string : Lexer → AsmResult Lexer
lex_string l = do
  (text, l') ← string_loop (fuel_of l.reader) [] l
  ok (make_token (LexerTokenValue.string_literal text) (advance l'))

unfoldable pub lex_character : Lexer → AsmResult Lexer
lex_character l = do
  (character, l₁) ← lex_escaped b'\'' l
  l₂ ← advance_or_error l₁
  if peek l₂.reader == b'\''
      then ok (make_token (LexerTokenValue.character_literal character) (advance l₂))
      else fail unterminated_character l₂

-- A register of that number, if there is a number.
unfoldable pub register_token : Option ℕ → Lexer → AsmResult (Bool × Lexer)
register_token none l = ok (false, l)
register_token (some reg_num) l =
    if leb register_num reg_num
    then fail invalid_register l
    else ok (true, make_token (LexerTokenValue.register reg_num) l)

-- The source compares the bitwise complement of the length with 1.
unfoldable pub lex_register : Text → Lexer → AsmResult (Bool × Lexer)
lex_register identifier l =
    let reg_num_str = trim_start_matches b'r' (trim_start_matches b'R' identifier) in
    if starts_with b'R' identifier || starts_with b'r' identifier
    then (if 2 ^ 64 - 1 - length reg_num_str == 1
        then ok (false, l)
        else register_token (parse_u8 reg_num_str) l)
    else ok (false, l)

-- A token for an identifier that is not a register.
unfoldable pub instruction_token : Option Instruction → Text → Lexer → Lexer
instruction_token (some i) name l = make_token (LexerTokenValue.instruction i) l
instruction_token none name l =
    if text_eq (to_lowercase name) (codes "sp")
    then make_token LexerTokenValue.stack_pointer l
    else make_token (LexerTokenValue.label_reference name) l

-- What `lex_identifier` does with the name.
unfoldable pub name_token : Text → Lexer → AsmResult Lexer
name_token name l =
    if ends_with b':' name
    then ok (make_token (LexerTokenValue.label_definition (trim_end_matches b':' name)) l)
    else (do
      (is_register, l') ← lex_register name l
      if is_register then ok l' else ok (instruction_token (from_mnemonic name) name l'))

unfoldable pub directive_token : Text → Lexer → AsmResult Lexer
directive_token name l =
    if text_eq name (codes "string")
    then ok (make_token (LexerTokenValue.directive Directive.string) l)
    else if text_eq name (codes "align")
    then ok (make_token (LexerTokenValue.directive Directive.align) l)
    else if text_eq name (codes "define")
    then ok (make_token (LexerTokenValue.directive Directive.define) l)
    else fail (unknown_directive name) l

unfoldable pub lex_directive : Lexer → AsmResult Lexer
lex_directive l = do
  (name, r) ← read_while is_ascii_alphabetic (λ _. true) (fuel_of l.reader) [] l.reader
  directive_token name (record l { reader = r })

module _ (classes : Classes) where
  unfoldable pub is_valid_identifier_start : ℕ → Bool
  is_valid_identifier_start c = c == b'_' || classes.is_alphabetic c

  unfoldable pub is_valid_identifier_middle : ℕ → Bool
  is_valid_identifier_middle c = is_valid_identifier_start c || classes.is_numeric c || c == b':'

  unfoldable pub lex_identifier : Lexer → AsmResult Lexer
  lex_identifier l = do
    (name, r) ← read_while is_valid_identifier_middle (λ _. true) (fuel_of l.reader) [] l.reader
    name_token name (record l { reader = r })
