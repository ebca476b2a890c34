-- ===== src/Assembler/Lexer/Single.antt =====
-- src/assembler/lexer.rs: the choice of a token by its first character, and the loop over the text.
use lakesis.Base.{ℕ, zero, suc, Bool, true, false, not, List, [], ◌==◌, if◌then◌else◌, length}
use lakesis.Base.Chars.{is_digit}
use lakesis.Base.Result.{ok, panic, ◌>>=◌}
use lakesis.Assembler.Report.{AsmResult, syntax_error}
use lakesis.Assembler.Lexeme.{LexerToken, LexerTokenValue}
use lakesis.Assembler.Lexer.{
  from_buffer, Lexer, lexer_new, is_eof, peek, read_while, fuel_of, make_token, fail, advance,
}
use lakesis.Assembler.Lexer.Numbers.{lex_number}
use lakesis.Assembler.Lexer.Words.{
  Classes, is_valid_identifier_start, lex_string, lex_character, lex_identifier, lex_directive,
}

-- A loop that passes characters.
unfoldable pub skip_while : (ℕ → Bool) → Lexer → AsmResult Lexer
skip_while test l = do
  (_, r) ← read_while test (λ _. false) (fuel_of l.reader) [] l.reader
  ok (record l { reader = r })

-- A token of one character.
unfoldable pub lex_mark : LexerTokenValue → Lexer → AsmResult Lexer
lex_mark v l = ok (make_token v (advance l))

-- A sign is a token of its own inside a reference only.
unfoldable pub lex_signed : LexerTokenValue → Lexer → AsmResult Lexer
lex_signed v l = if l.inside_ref then lex_mark v l else lex_number l

module _ (classes : Classes) where
  unfoldable pub lex_whitespace : Lexer → AsmResult Lexer
  lex_whitespace = skip_while classes.is_whitespace

  unfoldable pub lex_comment : Lexer → AsmResult Lexer
  lex_comment = skip_while (λ c. not (c == b'\n'))

  unfoldable pub lex_single : Lexer → AsmResult Lexer
  lex_single l =
      let c = peek l.reader in
      if classes.is_whitespace c
      then lex_whitespace l
      else if c == b';'
      then lex_comment l
      else if c == b'['
      then lex_mark LexerTokenValue.start_reference (record l { inside_ref = true })
      else if c == b']'
      then lex_mark LexerTokenValue.end_reference (record l { inside_ref = false })
      else if c == b','
      then lex_mark LexerTokenValue.argument_separator l
      else if c == b'+'
      then lex_signed LexerTokenValue.offset_positive l
      else if c == b'-'
      then lex_signed LexerTokenValue.offset_negative l
      else if c == b'.'
      then lex_directive (advance l)
      else if c == b'"'
      then lex_string (advance l)
      else if c == b'\''
      then lex_character (advance l)
      else if is_digit 10 c
      then lex_number l
      else if is_valid_identifier_start classes c
      then lex_identifier classes l
      else fail syntax_error l

  -- `while !self.reader.is_eof()`, on fuel: each round passes a character at least.
  unfoldable pub lex_loop : ℕ → Lexer → AsmResult Lexer
  lex_loop zero l = if is_eof l.reader then ok l else panic
  lex_loop (suc fuel) l =
      let round : AsmResult Lexer = (do
        l' ← lex_single (record l { token_start = l.reader.pos })
        lex_loop fuel l') in
      if is_eof l.reader then ok l else round

  -- `lex` on the characters of the text, with a new lexer, whose tokens are empty.
  unfoldable pub lex : List ℕ → AsmResult (List LexerToken)
  lex text = do l ← lex_loop (length text) (lexer_new (from_buffer text)); ok l.tokens
