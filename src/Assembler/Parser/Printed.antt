-- ===== src/Assembler/Parser/Printed.antt =====
-- The tokens that stand for a statement, and what the basic operations of the parser do on them.
use lakesis.Base.{
  suc, ◌≡◌, refl, ap, ◌∙◌, true, false, not, List, [], ◌∷◌, ◌++◌, map, Option, none, some,
}
use lakesis.Base.Text.{Text}
use lakesis.Base.Int.{ℤ, pos, negsuc}
use lakesis.Base.Result.{ok}
use lakesis.Assembler.Report.{FileRange, FilePosition}
use lakesis.Assembler.Lexeme.{LexerToken, LexerTokenValue, Directive}
use lakesis.Assembler.Token.{
  TokenValue, label_definition, string, align, define, opcode, Operand, label, immediate, register,
  stack, reference,
}
use lakesis.Assembler.Parser.{
  Parser, is_eof, peek, peek_full, consume, consume_or_error, make_token,
}
use lakesis.Assembler.Parser.View.{
  Sees, behind, Sees-peek, Sees-peek_full, Sees-is_eof, Sees-not_eof, Sees-behind, Sees-consume,
  Sees-range,
}

abbrev offset_lexemes : ℤ → List LexerTokenValue
offset_lexemes (pos n) = LexerTokenValue.offset_positive ∷ LexerTokenValue.number (pos n) ∷ []
offset_lexemes (negsuc n) =
    LexerTokenValue.offset_negative ∷ LexerTokenValue.number (pos (suc n)) ∷ []

abbrev pub operand_lexemes : Operand → List LexerTokenValue
operand_lexemes (label l) = LexerTokenValue.label_reference l ∷ []
operand_lexemes (immediate z) = LexerTokenValue.number z ∷ []
operand_lexemes (register r) = LexerTokenValue.register r ∷ []
operand_lexemes (stack n) =
    LexerTokenValue.start_reference
    ∷ LexerTokenValue.stack_pointer
    ∷ LexerTokenValue.offset_positive
    ∷ LexerTokenValue.number (pos n)
    ∷ LexerTokenValue.end_reference
    ∷ []
operand_lexemes (reference r z) =
    LexerTokenValue.start_reference
    ∷ LexerTokenValue.register r
    ∷ (offset_lexemes z ++ LexerTokenValue.end_reference ∷ [])

-- Operands with a separator in front of each.
abbrev pub more_lexemes : List Operand → List LexerTokenValue
more_lexemes [] = []
more_lexemes (o ∷ os) = LexerTokenValue.argument_separator ∷ (operand_lexemes o ++ more_lexemes os)

-- Operands with separators between them.
abbrev pub operands_lexemes : List Operand → List LexerTokenValue
operands_lexemes [] = []
operands_lexemes (o ∷ os) = operand_lexemes o ++ more_lexemes os

-- The label in front of a string.
abbrev pub label_lexemes : Option Text → List LexerTokenValue
label_lexemes none = []
label_lexemes (some l) = LexerTokenValue.label_reference l ∷ []

abbrev pub lexemes : TokenValue → List LexerTokenValue
lexemes (label_definition l) = LexerTokenValue.label_definition l ∷ []
lexemes (string l s) =
    LexerTokenValue.directive Directive.string
    ∷ (label_lexemes l ++ LexerTokenValue.string_literal s ∷ [])
lexemes (align n) = LexerTokenValue.directive Directive.align ∷ LexerTokenValue.number (pos n) ∷ []
lexemes (define l z) =
    LexerTokenValue.directive Directive.define
    ∷ LexerTokenValue.label_reference l
    ∷ LexerTokenValue.number z
    ∷ []
lexemes (opcode i os) = LexerTokenValue.instruction i ∷ operands_lexemes os

abbrev pub program_lexemes : List TokenValue → List LexerTokenValue
program_lexemes [] = []
program_lexemes (v ∷ vs) = lexemes v ++ program_lexemes vs

-- The parser has the tokens with the values `vs` left.
pub record Shows (p : Parser) (vs : List LexerTokenValue) : Type 0 where
  pub ahead : List LexerToken
  pub sees : Sees p ahead
  pub values : map (λ t. t.value) ahead ≡ vs

pub data Head (v : LexerTokenValue) (vs : List LexerTokenValue) (p : Parser) : Type 0 where
  head :
      (t : LexerToken) (ts : List LexerToken)
      → t.value ≡ v
      → map (λ u. u.value) ts ≡ vs
      → Sees p (t ∷ ts)
      → Head v vs p

to_head :
    {p : Parser} {v : LexerTokenValue} {vs : List LexerTokenValue} (ts : List LexerToken)
    → Sees p ts
    → map (λ t. t.value) ts ≡ v ∷ vs
    → Head v vs p
to_head [] s h = cc
to_head (t ∷ ts) s h = head t ts (cc) (cc) s

Head-behind :
    {p : Parser} {v : LexerTokenValue} {vs : List LexerTokenValue}
    → Head v vs p
    → (peek p ≡ ok v)
      × (is_eof p ≡ false)
      × (consume p ≡ (not (is_eof (behind p)), behind p))
      × Shows (behind p) vs
Head-behind (head t ts e es s) = (
  Sees-peek s ∙ ap ok e,
  Sees-not_eof s,
  Sees-consume s,
  record { ahead = ts; sees = Sees-behind s; values = es },
)

module _ {p : Parser} {v : LexerTokenValue} {vs : List LexerTokenValue} (s : Shows p (v ∷ vs)) where
  pub Shows-peek : peek p ≡ ok v
  Shows-peek = (Head-behind (to_head s.ahead s.sees s.values)).0

  pub Shows-not_eof : is_eof p ≡ false
  Shows-not_eof = (Head-behind (to_head s.ahead s.sees s.values)).1

  pub Shows-behind : Shows (behind p) vs
  Shows-behind = (Head-behind (to_head s.ahead s.sees s.values)).3

  pub Shows-consume : (consume p).1 ≡ behind p
  Shows-consume = ap (λ c. c.1) ((Head-behind (to_head s.ahead s.sees s.values)).2)

Head-peek_full :
    {p : Parser} {v : LexerTokenValue} {vs : List LexerTokenValue}
    → Head v vs p
    → (t : LexerToken) × (peek_full p ≡ ok t)
Head-peek_full (head t ts e es s) = (t, Sees-peek_full s)

pub Shows-peek_full :
    {p : Parser} {v : LexerTokenValue} {vs : List LexerTokenValue}
    → Shows p (v ∷ vs)
    → (t : LexerToken) × (peek_full p ≡ ok t)
Shows-peek_full s = Head-peek_full (to_head s.ahead s.sees s.values)

-- The start of the next token is not part of what is left.
pub Shows-start :
    {p : Parser} {vs : List LexerTokenValue} (f : FilePosition)
    → Shows p vs
    → Shows (record p { token_start = f }) vs
Shows-start f s = record {
  ahead = s.ahead;
  sees = record {
    left = s.sees.left;
    some_input = s.sees.some_input;
    negatable = s.sees.negatable;
  };
  values = s.values;
}

pub Shows-consume_before :
    {p : Parser} {v : LexerTokenValue} {vs : List LexerTokenValue}
    → Shows p (v ∷ vs)
    → is_eof (behind p) ≡ false
    → consume_or_error p ≡ ok (behind p)
unfolding consume_or_error
Shows-consume_before s more = rw ((Head-behind (to_head s.ahead s.sees s.values)).2, more) refl

pub Shows-consume_or_error :
    {p : Parser} {v w : LexerTokenValue} {vs : List LexerTokenValue}
    → Shows p (v ∷ w ∷ vs)
    → consume_or_error p ≡ ok (behind p)
Shows-consume_or_error s = Shows-consume_before s (Shows-not_eof (Shows-behind s))

nothing_left :
    {p : Parser} (ts : List LexerToken) → Sees p ts → map (λ t. t.value) ts ≡ [] → is_eof p ≡ true
nothing_left [] s h = Sees-is_eof s
nothing_left (t ∷ ts) s h = cc

pub Shows-is_eof : {p : Parser} → Shows p [] → is_eof p ≡ true
Shows-is_eof s = nothing_left s.ahead s.sees s.values

pub Shows-make_token :
    {p : Parser} {vs : List LexerTokenValue} (v : TokenValue)
    → Shows p vs
    → (r : FileRange) × (p' : Parser) × (make_token v p ≡ ok p')
      × (p'.outputs ≡ p.outputs ++ record { value = v; range = r } ∷ [])
      × Shows p' vs
unfolding make_token
Shows-make_token {p} v s =
    let (r, e) = Sees-range s.sees in
    (
      r,
      record p { outputs = p.outputs ++ record { value = v; range = r } ∷ [] },
      rw e refl,
      refl,
      record {
        ahead = s.ahead;
        sees = record {
          left = s.sees.left;
          some_input = s.sees.some_input;
          negatable = s.sees.negatable;
        };
        values = s.values;
      },
    )
