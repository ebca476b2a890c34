-- ===== src/Assembler/Lexer/NumberBack.antt =====
-- src/assembler/lexer.rs: lexing the decimal digits of a number.
use lakesis.Base.{
  ◌⊎◌, inl, inr, ℕ, zero, suc, ◌+◌, ◌*◌, ◌^◌, ◌≤◌, ◌<◌, ◌≡◌, refl, Bool, true, false, not, ◌&&◌,
  List, [], ◌∷◌, ◌++◌, map, some, arith, ◌==◌, length, length-map, ==-eq-false, append_assoc,
  lt→ltb,
}
use lakesis.Base.Text.{Text}
use lakesis.Base.Chars.{
  digit_value, is_below, is_digit, with_digit, digits_value, fits_positive, from_str_radix,
}
use lakesis.Base.Int.{pos}
use lakesis.Base.Words.{mul_iword}
use lakesis.Base.Distinct.{All}
use lakesis.Base.Result.{ok}
use lakesis.Assembler.Report.{FileRange, position_start}
use lakesis.Assembler.Lexeme.{LexerTokenValue}
use lakesis.Assembler.Lexer.{
  TrackingFileReader, Lexer, from_buffer, lexer_new, range, is_eof, peek, peek_around, consume,
  read_while, fuel_of, make_token,
}
use lakesis.Assembler.Lexer.Numbers.{
  lex_sign, lex_radix, is_number_part, lex_digits, lex_multiplier, or_too_large, lex_number,
}
use lakesis.Assembler.Lexer.Words.{Classes}
use lakesis.Assembler.Lexer.Single.{lex_single, lex_loop, lex}
use lakesis.Assembler.Lexer.NumberSafety.{times_one, fits}
use lakesis.Assembler.Lexer.Reading.{
  Ahead, IsKept, Ahead-nil, Ahead-not_eof, Ahead-peek, Ahead-behind, Ahead-consume, Ahead-next,
}

abbrev pub digit_char : ℕ → ℕ
digit_char d = b'0' + d

abbrev pub IsDecimal : ℕ → Type 0
IsDecimal d = d < 10

-- The number that decimal digits stand for, behind digits that stand for `n`.
abbrev pub decimal_value : ℕ → List ℕ → ℕ
decimal_value n [] = n
decimal_value n (d ∷ ds) = decimal_value (n * 10 + d) ds

digit_value-digit_char : (d : ℕ) → IsDecimal d → digit_value (digit_char d) ≡ some d
unfolding digit_value
digit_value-digit_char d h = ground arith

is_digit-digit_char : (d : ℕ) → IsDecimal d → is_digit 10 (digit_char d) ≡ true
unfolding is_digit is_below
is_digit-digit_char d h = rw (digit_value-digit_char d h) (lt→ltb _ _ h)

no_mark : (d k : ℕ) → IsDecimal d → (k < b'0') ⊎ (b'9' < k) → digit_char d == k ≡ false
no_mark d k h (inl low) = ==-eq-false _ _ (λ e. absurd (omega (arith, e)))
no_mark d k h (inr high) = ==-eq-false _ _ (λ e. absurd (omega (arith, e)))

digits_value-decimal :
    (n : ℕ) (ds : List ℕ)
    → All IsDecimal ds
    → digits_value 10 n (map digit_char ds) ≡ some (decimal_value n ds)
unfolding digits_value with_digit
digits_value-decimal n [] all = refl
digits_value-decimal n (d ∷ ds) (h, all) =
    rw (digit_value-digit_char d h, lt→ltb d 10 h) (digits_value-decimal (n * 10 + d) ds all)

abbrev keep : ℕ → Bool
keep c = not (c == b'_')

part-digit_char : (d : ℕ) → IsDecimal d → is_number_part 10 (digit_char d) ≡ true
unfolding is_number_part
part-digit_char d h = rw (is_digit-digit_char d h) refl

-- The loop over digits reads them all, up to the end of the text.
read_digits :
    (fuel d : ℕ) (ds : List ℕ) (text : Text) {r : TrackingFileReader}
    → All IsDecimal (d ∷ ds)
    → length ds < fuel
    → Ahead (map digit_char (d ∷ ds)) r
    → (r' : TrackingFileReader) × (read_while (is_number_part 10) keep fuel text r
        ≡ ok (text ++ map digit_char (d ∷ ds), r'))
      × Ahead [] r'
unfolding read_while
read_digits zero d ds text all few h = absurd (omega arith)
read_digits (suc fuel) d [] text {r} (a, _) few h =
    let k : IsKept (digit_char d) = λ e. absurd (omega (arith, e)) in
    let behind = Ahead-behind h k in
    (
      (consume r).1,
      rw
          (
            Ahead-peek h k,
            part-digit_char d a,
            no_mark d b'_' a (inr (omega arith)),
            Ahead-consume h k,
            (Ahead-nil behind).0,
          )
          refl,
      behind,
    )
read_digits (suc fuel) d (d' ∷ ds) text {r} (a, all) few h =
    let k : IsKept (digit_char d) = λ e. absurd (omega (arith, e)) in
    let k' : IsKept (digit_char d') = λ e. absurd (omega (arith, e)) in
    let behind = Ahead-behind h k in
    let (r', is, done) =
      read_digits fuel d' ds (text ++ digit_char d ∷ []) all (omega (arith, few)) behind in
    (
      r',
      rw
          (
            Ahead-peek h k,
            part-digit_char d a,
            no_mark d b'_' a (inr (omega arith)),
            Ahead-consume h k,
            Ahead-not_eof behind k',
            is,
            append_assoc text (digit_char d ∷ []) (map digit_char (d' ∷ ds)),
          )
          refl,
      done,
    )

kept : (d : ℕ) → IsKept (digit_char d)
kept d e = absurd (omega (arith, e))

not_empty : (n : ℕ) → suc n == 0 ≡ false
not_empty n = ==-eq-false (suc n) 0 (λ e. absurd (omega (arith, e)))

and_false : (b : Bool) → b && false ≡ false
and_false true = refl
and_false false = refl

at_digits :
    (k : ℕ) (ds : List ℕ) (r : TrackingFileReader)
    → b'9' < k
    → All IsDecimal ds
    → Ahead (map digit_char ds) r
    → peek r == k ≡ false
at_digits k [] r high all h =
    rw ((Ahead-nil h).1) (==-eq-false 0 k (λ e. absurd (omega (arith, e))))
at_digits k (d ∷ ds) r high all h = rw (Ahead-peek h (kept d)) (no_mark d k all.0 (inr high))

-- Digits ahead of a lexer, up to the end of the text.
module _ (l : Lexer) (d : ℕ) (ds : List ℕ) (all : All IsDecimal (d ∷ ds))
    (h : Ahead (map digit_char (d ∷ ds)) l.reader) where
  sign_back : lex_sign l ≡ ok (true, l)
  unfolding lex_sign
  sign_back =
      rw
        (
          Ahead-peek h (kept d),
          no_mark d b'+' all.0 (inl (omega arith)),
          no_mark d b'-' all.0 (inl (omega arith)),
        )
        refl

  -- Behind the first digit there is no letter.
  no_letter : (k : ℕ) → b'9' < k → peek_around 1 l.reader == k ≡ false
  no_letter k high =
      rw (Ahead-next h (kept d))
        (at_digits k ds (consume l.reader).1 high all.1 (Ahead-behind h (kept d)))

  radix_back : lex_radix l ≡ ok (10, l)
  unfolding lex_radix
  radix_back =
      rw
        (
          no_letter b'x' (omega arith),
          no_letter b'b' (omega arith),
          and_false (peek l.reader == b'0'),
        )
        refl

  -- A number that is read to the end of the text.
  number_back :
      length ds ≤ length l.reader.buffer
      → decimal_value 0 (d ∷ ds) < 2 ^ 63
      → (r : TrackingFileReader) × (lex_number l
          ≡ ok (
              make_token
                (LexerTokenValue.number (pos (decimal_value 0 (d ∷ ds))))
                (record l { reader = r })))
        × Ahead [] r
  unfolding lex_number lex_digits lex_multiplier from_str_radix fits_positive or_too_large mul_iword
  number_back few fit =
      let (r, read, done) = read_digits (fuel_of l.reader) d ds [] all (omega (arith, few)) h in
      let z = pos (decimal_value 0 (d ∷ ds)) in
      (
        r,
        rw
            (
              sign_back,
              radix_back,
              read,
              (Ahead-nil done).1,
              digits_value-decimal 0 (d ∷ ds) all,
              lt→ltb _ _ fit,
              times_one z,
              fits z fit,
              not_empty (length (map digit_char ds)),
            )
            refl,
        done,
      )

  single_back :
      (classes : Classes)
      → classes.is_whitespace (digit_char d) ≡ false
      → lex_single classes l ≡ lex_number l
  unfolding lex_single
  single_back classes w =
      let a = all.0 in
      rw
        (
          Ahead-peek h (kept d),
          w,
          no_mark d b';' a (inr (omega arith)),
          no_mark d b'[' a (inr (omega arith)),
          no_mark d b']' a (inr (omega arith)),
          no_mark d b',' a (inl (omega arith)),
          no_mark d b'+' a (inl (omega arith)),
          no_mark d b'-' a (inl (omega arith)),
          no_mark d b'.' a (inl (omega arith)),
          no_mark d b'"' a (inl (omega arith)),
          no_mark d b'\'' a (inl (omega arith)),
          is_digit-digit_char d a,
        )
        refl

loop_end :
    (classes : Classes) (fuel : ℕ) (l : Lexer)
    → is_eof l.reader ≡ true
    → lex_loop classes fuel l ≡ ok l
unfolding lex_loop
loop_end classes zero l h = rw h refl
loop_end classes (suc fuel) l h = rw h refl

chars_count : (ds : List ℕ) → length (map digit_char ds) ≡ length ds
chars_count ds = length-map ds digit_char

-- A text of decimal digits, of which there is one at least and which stand for less than 2 ^ 63,
-- is lexed as the one number that the digits stand for, if no digit is white space.
pub lex-digit_char :
    (classes : Classes) (d : ℕ) (ds : List ℕ)
    → All IsDecimal (d ∷ ds)
    → All (λ k. classes.is_whitespace (digit_char k) ≡ false) (d ∷ ds)
    → decimal_value 0 (d ∷ ds) < 2 ^ 63
    → (r : FileRange) × (lex classes (map digit_char (d ∷ ds))
        ≡ ok (
            record { value = LexerTokenValue.number (pos (decimal_value 0 (d ∷ ds))); range = r }
            ∷ []))
unfolding lex lex_loop lexer_new from_buffer make_token
lex-digit_char classes d ds all white fit =
    let l : Lexer = record (lexer_new (from_buffer (map digit_char (d ∷ ds)))) {
      token_start = position_start;
    } in
    let h : Ahead (map digit_char (d ∷ ds)) l.reader = record { left = refl } in
    let (r, is, done) = number_back l d ds all h (omega (arith, chars_count ds)) fit in
    let l' : Lexer =
      make_token (LexerTokenValue.number (pos (decimal_value 0 (d ∷ ds))))
        (record l { reader = r }) in
    (
      range (record l { reader = r }),
      rw
          (
            Ahead-not_eof h (kept d),
            single_back l d ds all h classes white.0,
            is,
            loop_end classes (length (map digit_char ds)) l' (Ahead-nil done).0,
          )
          refl,
    )
