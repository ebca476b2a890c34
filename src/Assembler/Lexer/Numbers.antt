-- ===== src/Assembler/Lexer/Numbers.antt =====
-- src/assembler/lexer.rs: `lex_number`.
use lakesis.Base.{
  ℕ, Bool, true, false, not, ◌&&◌, ◌||◌, [], Option, none, some, ◌==◌, if◌then◌else◌, length,
}
use lakesis.Base.Chars.{is_digit, from_str_radix}
use lakesis.Base.Text.{Text}
use lakesis.Base.Int.{ℤ, pos}
use lakesis.Base.Words.{neg_iword, mul_iword}
use lakesis.Base.Result.{ok, ◌>>=◌}
use lakesis.Core.{word_byte_size}
use lakesis.Assembler.Report.{AsmResult, no_digits, number_too_large}
use lakesis.Assembler.Lexeme.{LexerTokenValue}
use lakesis.Assembler.Lexer.{
  Lexer, peek, peek_around, read_while, fuel_of, consume_many_or_error, make_token, fail, advance,
  advance_or_error,
}

-- Whether the number is positive, behind its sign.
unfoldable pub lex_sign : Lexer → AsmResult (Bool × Lexer)
lex_sign l =
    let c = peek l.reader in
    if c == b'+'
    then (do l' ← advance_or_error l; ok (true, l'))
    else if c == b'-'
    then (do l' ← advance_or_error l; ok (false, l'))
    else ok (true, l)

-- The radix, behind its prefix.
unfoldable pub lex_radix : Lexer → AsmResult (ℕ × Lexer)
lex_radix l =
    let c = peek l.reader in
    let d = peek_around 1 l.reader in
    let pass_prefix : AsmResult Lexer = (do
      r ← consume_many_or_error 2 l.reader
      ok (record l { reader = r })) in
    if c == b'0' && d == b'x'
    then (do l' ← pass_prefix; ok (16, l'))
    else if c == b'0' && d == b'b'
    then (do l' ← pass_prefix; ok (2, l'))
    else ok (10, l)

unfoldable pub is_number_part : ℕ → ℕ → Bool
is_number_part radix c = is_digit radix c || c == b'_'

unfoldable pub lex_digits : ℕ → Lexer → AsmResult (Text × Lexer)
lex_digits radix l = do
  (digits, r) ←
      read_while (is_number_part radix) (λ c. not (c == b'_')) (fuel_of l.reader) [] l.reader
  ok (digits, record l { reader = r })

-- `WORD_BYTE_SIZE` behind a `w`, or 1.
unfoldable pub lex_multiplier : Lexer → ℤ × Lexer
lex_multiplier l = if peek l.reader == b'w' then (pos word_byte_size, advance l) else (pos 1, l)

unfoldable pub or_too_large : Option ℕ → Lexer → AsmResult ℕ
or_too_large none l = fail number_too_large l
or_too_large (some n) l = ok n

unfoldable pub lex_number : Lexer → AsmResult Lexer
lex_number l = do
  (is_positive, l₁) ← lex_sign l
  (radix, l₂) ← lex_radix l₁
  (digits, l₃) ← lex_digits radix l₂
  let multiplier = (lex_multiplier l₃).0
  let l₄ = (lex_multiplier l₃).1
  if length digits == 0 then fail no_digits l₄ else (do
    raw_num ← or_too_large (from_str_radix digits radix) l₄
    signed_num ← if is_positive then ok (pos raw_num) else neg_iword (pos raw_num)
    num ← mul_iword signed_num multiplier
    ok (make_token (LexerTokenValue.number num) l₄))
