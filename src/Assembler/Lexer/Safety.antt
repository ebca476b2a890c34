-- ===== src/Assembler/Lexer/Safety.antt =====
-- src/assembler/lexer.rs: the lexer and panics.
use lakesis.Base.{
  ℕ, zero, suc, ◌≤◌, ◌<◌, ◌≡◌, refl, Bool, true, false, not, List, [], arith, inl, inr, ◌==◌,
  length,
}
use lakesis.Base.Chars.{is_digit}
use lakesis.Base.Distinct.{All}
use lakesis.Base.Result.{Returns, value, Returns-bind, Returns-if}
use lakesis.Assembler.Report.{syntax_error}
use lakesis.Assembler.Lexeme.{LexerTokenValue}
use lakesis.Assembler.Lexer.{from_buffer, Lexer, lexer_new, is_eof, peek, fuel_of, advance}
use lakesis.Assembler.Lexer.Words.{Classes, is_valid_identifier_start}
use lakesis.Assembler.Lexer.Single.{
  skip_while, lex_mark, lex_signed, lex_whitespace, lex_comment, lex_single, lex_loop, lex,
}
use lakesis.Assembler.Lexer.Progress.{read_while-less, not_eof-left}
use lakesis.Assembler.Lexer.Multiplier.{lacks_multiplier}
use lakesis.Assembler.Lexer.NumberSafety.{
  Lexes, Starts, advance-less, make_token-Lexes, fail-Returns, number-Returns,
}
use lakesis.Assembler.Lexer.WordSafety.{
  string-Returns, character-Returns, directive-Returns, identifier-Returns,
}
use lakesis.Assembler.Parser.View.{IsNegatable}

module _ {b : List ℕ} {n : ℕ} {l : Lexer} (s : Lexes b (suc n) l)
    (e : is_eof l.reader ≡ false) where
  skip-Returns :
      (test : ℕ → Bool) → test (peek l.reader) ≡ true → Returns (Lexes b n) (skip_while test l)
  unfolding skip_while
  skip-Returns test h =
      Returns-bind
        (read_while-less test (λ _. false) (λ _ _. Unit {0}) (λ _ _ _ _ _. tt) (fuel_of l.reader) n
          [] s.reads (omega arith) e h tt)
        λ a (reads, _). value (record { reads = reads; negatable = s.negatable })

  mark-Returns : (v : LexerTokenValue) → IsNegatable v → Returns (Lexes b n) (lex_mark v l)
  unfolding lex_mark
  mark-Returns v h = value (make_token-Lexes v h (advance-less s e))

  module _ (lacks : lacks_multiplier b ≡ true) where
    signed-Returns :
        (v : LexerTokenValue)
        → IsNegatable v
        → Starts (peek l.reader)
        → Returns (Lexes b n) (lex_signed v l)
    unfolding lex_signed
    signed-Returns v h starts =
        Returns-if l.inside_ref (λ _. mark-Returns v h) (λ _. number-Returns lacks starts s)

not_line_feed : (c : ℕ) → c == b';' ≡ true → not (c == b'\n') ≡ true
not_line_feed c h = ground arith

inside-Lexes :
    {b : List ℕ} {n : ℕ} {l : Lexer} (x : Bool)
    → Lexes b n l
    → Lexes b n (record l { inside_ref = x })
inside-Lexes x s = record { reads = s.reads; negatable = s.negatable }

module _ (classes : Classes) {b : List ℕ} (lacks : lacks_multiplier b ≡ true) where
  single-Returns :
      {n : ℕ} {l : Lexer}
      → Lexes b (suc n) l
      → n < length b
      → is_eof l.reader ≡ false
      → Returns (Lexes b n) (lex_single classes l)
  unfolding lex_single lex_whitespace lex_comment
  single-Returns {n} {l} s few e =
      let c = peek l.reader in
      let after = advance-less s e in
      let enough : n ≤ length (advance l).reader.buffer = rw (after.reads.same) (omega arith) in
      Returns-if (classes.is_whitespace c) (λ h. skip-Returns s e classes.is_whitespace h)
        λ _.
          Returns-if (c == b';') (λ h. skip-Returns s e (λ x. not (x == b'\n')) (not_line_feed c h))
            λ _.
              Returns-if (c == b'[')
                (λ _. mark-Returns (inside-Lexes true s) e LexerTokenValue.start_reference tt)
                λ _.
                  Returns-if (c == b']')
                    (λ _. mark-Returns (inside-Lexes false s) e LexerTokenValue.end_reference tt)
                    λ _.
                      Returns-if (c == b',')
                        (λ _. mark-Returns s e LexerTokenValue.argument_separator tt)
                        λ _.
                          Returns-if (c == b'+')
                            (λ h.
                              signed-Returns s e lacks LexerTokenValue.offset_positive tt (inl h))
                            λ _.
                              Returns-if (c == b'-')
                                (λ h.
                                  signed-Returns s e lacks LexerTokenValue.offset_negative tt
                                    (inr (inl h)))
                                λ _.
                                  Returns-if (c == b'.') (λ _. directive-Returns after enough)
                                    λ _.
                                      Returns-if (c == b'"') (λ _. string-Returns after enough)
                                        λ _.
                                          Returns-if (c == b'\'') (λ _. character-Returns after)
                                            λ _.
                                              Returns-if (is_digit 10 c)
                                                (λ h. number-Returns lacks (inr (inr h)) s)
                                                λ _.
                                                  Returns-if (is_valid_identifier_start classes c)
                                                    (λ h. identifier-Returns classes h e s)
                                                    (λ _. fail-Returns syntax_error l)

  start-Lexes :
      {n : ℕ} {l : Lexer} → Lexes b n l → Lexes b n (record l { token_start = l.reader.pos })
  start-Lexes s = record { reads = s.reads; negatable = s.negatable }

  loop-Returns :
      (fuel n : ℕ) {l : Lexer}
      → Lexes b n l
      → n ≤ fuel
      → n ≤ length b
      → Returns (λ l'. All (λ t. IsNegatable t.value) l'.tokens) (lex_loop classes fuel l)
  unfolding lex_loop
  loop-Returns zero n {l} s enough few =
      Returns-if (is_eof l.reader) (λ _. value s.negatable)
        (λ e. absurd (omega (arith, s.reads.few, not_eof-left l.reader e)))
  loop-Returns (suc fuel) zero {l} s enough few =
      Returns-if (is_eof l.reader) (λ _. value s.negatable)
        (λ e. absurd (omega (arith, s.reads.few, not_eof-left l.reader e)))
  loop-Returns (suc fuel) (suc n) {l} s enough few =
      Returns-if (is_eof l.reader) (λ _. value s.negatable)
        λ e.
          Returns-bind (single-Returns (start-Lexes s) (omega arith) e)
            λ l' s'. loop-Returns fuel n s' (omega arith) (omega arith)

module _ (classes : Classes) (text : List ℕ) where
  -- On a text in which no w stands behind a decimal digit with nothing but hexadecimal digits, underscores
  -- and x's between them, the lexer does not panic and its loops end, and it gives no number -2 ^ 63.
  pub lex-IsNegatable :
      lacks_multiplier text ≡ true → Returns (All (λ t. IsNegatable t.value)) (lex classes text)
  unfolding lex from_buffer lexer_new
  lex-IsNegatable lacks =
      Returns-bind
        (loop-Returns classes lacks (length text) (length text)
          (record { reads = record { same = refl; few = omega arith }; negatable = tt })
          (omega arith) (omega arith))
        λ l all. value all
