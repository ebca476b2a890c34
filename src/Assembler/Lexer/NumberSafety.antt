-- ===== src/Assembler/Lexer/NumberSafety.antt =====
-- src/assembler/lexer.rs: `lex_number` and panics.
use lakesis.Base.{
  ℕ, zero, suc, ◌^◌, ◌≤◌, ◌<◌, ◌≡◌, refl, ◌⊎◌, Bool, true, false, not, ◌&&◌, List, [], ◌∷◌, ◌++◌,
  some, none, Option, ltb, arith, if◌then◌else◌, Bool-cases, inl, inr, ◌==◌, length,
}
use lakesis.Base.Chars.{is_digit, from_str_radix, fits_positive, digits_value}
use lakesis.Base.Text.{Text}
use lakesis.Base.Int.{ℤ, pos, negsuc, ◌*ℤ◌}
use lakesis.Base.Words.{neg_iword, mul_iword, fits_i64}
use lakesis.Base.Distinct.{All, All-append}
use lakesis.Base.Result.{ok, ◌>>=◌, Returns, value, error, Returns-bind, Returns-if}
use lakesis.Assembler.Report.{Error, no_digits, Message}
use lakesis.Assembler.Lexeme.{LexerTokenValue}
use lakesis.Assembler.Lexer.{
  TrackingFileReader, Lexer, consume_many_or_error, is_eof, peek, peek_around, consume,
  consume_many, consume_or_error, fuel_of, make_token, fail, advance, advance_or_error,
}
use lakesis.Assembler.Lexer.Numbers.{
  is_number_part, lex_sign, lex_radix, lex_digits, lex_multiplier, or_too_large, lex_number,
}
use lakesis.Assembler.Lexer.Progress.{
  Reads, consume-Reads, consume-less, consume_many-Returns, many-less, read_while-Returns,
  read_while-less,
}
use lakesis.Assembler.Lexer.Multiplier.{
  lacks_multiplier, IsOn, part-not_eof, part-IsOn, digit-IsOn, prefix-IsOn, IsOn-no_multiplier,
}
use lakesis.Assembler.Parser.View.{IsNegatable}

-- A lexer of the text `b` with at most `n` characters left, and with numbers that have a negative.
pub record Lexes (b : List ℕ) (n : ℕ) (l : Lexer) : Type 0 where
  pub reads : Reads b n l.reader
  pub negatable : All (λ t. IsNegatable t.value) l.tokens

module _ {b : List ℕ} {n : ℕ} {l : Lexer} where
  pub advance-Lexes : Lexes b n l → Lexes b n (advance l)
  unfolding advance
  advance-Lexes s = record { reads = consume-Reads s.reads; negatable = s.negatable }

  pub advance-less : Lexes b (suc n) l → is_eof l.reader ≡ false → Lexes b n (advance l)
  unfolding advance
  advance-less s e = record { reads = consume-less s.reads e; negatable = s.negatable }

  pub advance_or_error-Returns : Lexes b (suc n) l → Returns (Lexes b n) (advance_or_error l)
  unfolding advance_or_error consume_or_error
  advance_or_error-Returns s =
      Returns-bind (consume_many-Returns 0 s.reads)
        λ r reads. value (record { reads = reads; negatable = s.negatable })

  pub make_token-Lexes :
      (v : LexerTokenValue) → IsNegatable v → Lexes b n l → Lexes b n (make_token v l)
  unfolding make_token
  make_token-Lexes v h s = record {
    reads = s.reads;
    negatable = All-append _ _ _ s.negatable (h, tt);
  }

pub fail-Returns {ℓ μ} :
    {A : Type ℓ} {P : A → Type μ} (m : Message) (l : Lexer) → Returns P (fail m l)
unfolding fail
fail-Returns m l = error

pub Lexes-weaken : {b : List ℕ} {n m : ℕ} {l : Lexer} → Lexes b n l → n ≤ m → Lexes b m l
Lexes-weaken s h = record {
  reads = record { same = s.reads.same; few = omega (arith, s.reads.few) };
  negatable = s.negatable;
}

-- The characters at which a number starts.
abbrev pub Starts : ℕ → Type 0
Starts c = (c == b'+' ≡ true) ⊎ ((c == b'-' ≡ true) ⊎ (is_digit 10 c ≡ true))

digit_start : (c : ℕ) → Starts c → c == b'+' ≡ false → c == b'-' ≡ false → is_digit 10 c ≡ true
digit_start c (inl h) p m = cc
digit_start c (inr (inl h)) p m = cc
digit_start c (inr (inr h)) p m = h

-- Numbers that fit and have a negative.
abbrev pub IsPlainNumber : ℤ → Type 0
IsPlainNumber (pos n) = n < 2 ^ 63
IsPlainNumber (negsuc n) = suc n < 2 ^ 63

or_too_large-Returns :
    (o : Option ℕ) (l : Lexer) → Returns (λ n. n < 2 ^ 63) (or_too_large (fits_positive o) l)
unfolding or_too_large fits_positive fail
or_too_large-Returns none l = error
or_too_large-Returns (some n) l = elim (Bool-cases (ltb n (2 ^ 63))) [
  | inl e ↦ rw e (value (ground arith))
  | inr e ↦ rw e error
]

signed-Returns :
    (is_positive : Bool) (n : ℕ)
    → n < 2 ^ 63
    → Returns {E = Error} IsPlainNumber (if is_positive then ok (pos n) else neg_iword (pos n))
unfolding neg_iword
signed-Returns true n h = value h
signed-Returns false zero h = value (omega arith)
signed-Returns false (suc n) h = value h

IsPlainNumber-IsNegatable : (z : ℤ) → IsPlainNumber z → IsNegatable (LexerTokenValue.number z)
IsPlainNumber-IsNegatable (pos n) h = tt
IsPlainNumber-IsNegatable (negsuc n) h = h

pub times_one : (z : ℤ) → z *ℤ pos 1 ≡ z
unfolding ◌*ℤ◌
times_one (pos n) = ground arith
times_one (negsuc n) = ground arith

pub fits : (z : ℤ) → IsPlainNumber z → fits_i64 z ≡ true
fits (pos n) h = ground arith
fits (negsuc n) h = ground arith

mul_one-Returns :
    (z : ℤ) → IsPlainNumber z → Returns {E = Error} IsPlainNumber (mul_iword z (pos 1))
unfolding mul_iword
mul_one-Returns z h = rw (times_one z, fits z h) (value h)

multiplier-one : (l : Lexer) → peek l.reader == b'w' ≡ false → (lex_multiplier l).0 ≡ pos 1
unfolding lex_multiplier
multiplier-one l h = rw h refl

multiplier-Lexes : {b : List ℕ} {n : ℕ} {l : Lexer} → Lexes b n l → Lexes b n (lex_multiplier l).1
unfolding lex_multiplier
multiplier-Lexes {l} s = elim (Bool-cases (peek l.reader == b'w')) [
  | inl e ↦ rw e (advance-Lexes s)
  | inr e ↦ rw e s
]

ten-part : (c : ℕ) → is_digit 10 c ≡ true → is_number_part 10 c ≡ true
unfolding is_number_part
ten-part c h = rw h refl

module _ {b : List ℕ} {n : ℕ} where
  sign-Returns :
      {l : Lexer}
      → Starts (peek l.reader)
      → Lexes b (suc n) l
      → Returns
          (λ a. Lexes b (suc n) a.1 × (Lexes b n a.1 ⊎ (is_digit 10 (peek a.1.reader) ≡ true)))
          (lex_sign l)
  unfolding lex_sign
  sign-Returns {l} starts s =
      Returns-if (peek l.reader == b'+')
        (λ _.
          Returns-bind (advance_or_error-Returns s)
            λ l' s'. value (Lexes-weaken s' (omega arith), inl s'))
        λ p.
          Returns-if (peek l.reader == b'-')
            (λ _.
              Returns-bind (advance_or_error-Returns s)
                λ l' s'. value (Lexes-weaken s' (omega arith), inl s'))
            λ m. value (s, inr (digit_start (peek l.reader) starts p m))

  prefix-Returns :
      {l : Lexer}
      → Lexes b (suc n) l
      → Returns (Lexes b n) (do r ← consume_many_or_error 2 l.reader; ok (record l { reader = r }))
  prefix-Returns s =
      Returns-bind (consume_many-Returns 1 s.reads)
        λ r reads. value (record { reads = reads; negatable = s.negatable })

  x_prefix-Returns :
      {l : Lexer}
      → peek l.reader == b'0' ≡ true
      → peek_around 1 l.reader == b'x' ≡ true
      → Lexes b (suc n) l
      → Returns
          (λ l'. Lexes b n l' × IsOn l'.reader)
          (do r ← consume_many_or_error 2 l.reader; ok (record l { reader = r }))
  unfolding consume_many_or_error
  x_prefix-Returns {l} z x s =
      Returns-bind {P = λ r. Reads b n r × IsOn r}
        (Returns-if (consume_many 2 l.reader).0
          (λ h. value (many-less 1 s.reads h, prefix-IsOn l.reader z x h)) (λ _. error))
        λ r (reads, on). value (record { reads = reads; negatable = s.negatable }, on)

  radix-Returns :
      {l : Lexer}
      → Lexes b (suc n) l
      → Lexes b n l ⊎ (is_digit 10 (peek l.reader) ≡ true)
      → Returns
          (λ a.
            (a.0 ≤ 16)
            × ((a.0 ≤ 10) ⊎ IsOn a.1.reader)
            × Lexes b (suc n) a.1
            × (Lexes b n a.1 ⊎ (is_number_part a.0 (peek a.1.reader) ≡ true)))
          (lex_radix l)
  unfolding lex_radix
  radix-Returns {l} s ready =
      Returns-if (peek l.reader == b'0' && peek_around 1 l.reader == b'x')
        (λ h.
          Returns-bind (x_prefix-Returns (ground arith) (ground arith) s)
            λ l' (s', on). value (omega arith, inr on, Lexes-weaken s' (omega arith), inl s'))
        λ _.
          Returns-if (peek l.reader == b'0' && peek_around 1 l.reader == b'b')
            (λ _. Returns-bind (prefix-Returns s) λ l' s'.
              value (omega arith, inl (omega arith), Lexes-weaken s' (omega arith), inl s'))
            λ _. value (omega arith, inl (omega arith), s, ready_part ready)
    where
      ready_part :
          {l : Lexer}
          → Lexes b n l ⊎ (is_digit 10 (peek l.reader) ≡ true)
          → Lexes b n l ⊎ (is_number_part 10 (peek l.reader) ≡ true)
      ready_part (inl s) = inl s
      ready_part {l} (inr h) = inr (ten-part (peek l.reader) h)

-- Digits that were read are behind a number: no digits are yet, where they are of the radix 10 or less.
abbrev Counts : ℕ → Text → TrackingFileReader → Type 0
Counts radix text r = ((radix ≤ 10) × (text ≡ [])) ⊎ IsOn r

some_digits :
    {b : List ℕ} (radix : ℕ) (digits : Text) (l : Lexer)
    → lacks_multiplier b ≡ true
    → l.reader.buffer ≡ b
    → Counts radix digits l.reader
    → length digits == 0 ≡ false
    → (lex_multiplier l).0 ≡ pos 1
some_digits radix digits l lacks same (inl (small, e)) few = let h = rw e at few in cc
some_digits radix digits l lacks same (inr on) few =
    multiplier-one l (IsOn-no_multiplier l.reader (rw same lacks) on)

part-Counts :
    (radix : ℕ)
    → radix ≤ 16
    → (text : Text) (r : TrackingFileReader) → is_number_part radix (peek r) ≡ true
    → Counts radix text r
    → Counts radix (if not (peek r == b'_') then text ++ peek r ∷ [] else text) (consume r).1
part-Counts radix small text r h (inr on) = inr (part-IsOn radix r small h on)
part-Counts radix small text r h (inl (ten, e)) = elim (Bool-cases (peek r == b'_')) [
  | inl u ↦ inl (ten, rw u e)
  | inr u ↦ inr (digit-IsOn radix r ten h u)
]

no_digits-Counts : (radix : ℕ) (r : TrackingFileReader) → (radix ≤ 10) ⊎ IsOn r → Counts radix [] r
no_digits-Counts radix r (inl ten) = inl (ten, refl)
no_digits-Counts radix r (inr on) = inr on

module _ {b : List ℕ} (lacks : lacks_multiplier b ≡ true) where
  digits-Returns :
      {n : ℕ} {l : Lexer} (radix : ℕ)
      → radix ≤ 16
      → (radix ≤ 10) ⊎ IsOn l.reader
      → Lexes b (suc n) l
      → Lexes b n l ⊎ (is_number_part radix (peek l.reader) ≡ true)
      → Returns (λ a. Lexes b n a.1 × Counts radix a.0 a.1.reader) (lex_digits radix l)
  unfolding lex_digits
  digits-Returns {n} {l} radix small start s (inl s') =
      Returns-bind
        (read_while-Returns (is_number_part radix) (λ c. not (c == b'_')) (Counts radix)
          (λ text r same h i. part-Counts radix small text r h i) (fuel_of l.reader) n [] s'.reads
          (omega arith) (no_digits-Counts radix l.reader start))
        λ a (reads, e). value (record { reads = reads; negatable = s.negatable }, e)
  digits-Returns {n} {l} radix small start s (inr h) =
      Returns-bind
        (read_while-less (is_number_part radix) (λ c. not (c == b'_')) (Counts radix)
          (λ text r same h i. part-Counts radix small text r h i) (fuel_of l.reader) n [] s.reads
          (omega arith) (part-not_eof radix l.reader small h) h
          (no_digits-Counts radix l.reader start))
        λ a (reads, e). value (record { reads = reads; negatable = s.negatable }, e)

  pub number-Returns :
      {n : ℕ} {l : Lexer}
      → Starts (peek l.reader)
      → Lexes b (suc n) l
      → Returns (Lexes b n) (lex_number l)
  unfolding lex_number from_str_radix
  number-Returns {l} starts s = Returns-bind (sign-Returns starts s) λ a (s₁, ready₁).
      Returns-bind (radix-Returns s₁ ready₁) λ r (small, start, s₂, ready₂).
        Returns-bind (digits-Returns r.0 small start s₂ ready₂) λ d (s₃, e).
          Returns-if (length d.0 == 0) (λ _. fail-Returns no_digits (lex_multiplier d.1).1)
            λ present.
              Returns-bind (or_too_large-Returns (digits_value r.0 0 d.0) (lex_multiplier d.1).1)
                λ raw fit. Returns-bind (signed-Returns a.0 raw fit) λ z plain.
                  rw (some_digits r.0 d.0 d.1 lacks s₃.reads.same e present) (
                    Returns-bind (mul_one-Returns z plain) λ num plain'. value (
                      make_token-Lexes (LexerTokenValue.number num)
                        (IsPlainNumber-IsNegatable num plain') (multiplier-Lexes s₃)))
