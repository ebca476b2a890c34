-- ===== src/Assembler/Parser/StatementsBack.antt =====
-- src/assembler/parser.rs: parsing the tokens of a statement.
use lakesis.Base.{
  ℕ, ◌≤◌, ◌<◌, ◌≡◌, refl, ap, ◌∙◌, List, [], ◌∷◌, ◌++◌, map, Option, none, some, arith, length,
  length-append, length-map, ==_iff, leb-eq-false,
}
use lakesis.Base.Int.{ℤ, pos}
use lakesis.Base.Words.{as_uword}
use lakesis.Base.Text.{Text}
use lakesis.Base.Result.{ok}
use lakesis.Opcodes.Instruction.{Instruction, descriptor}
use lakesis.Assembler.Report.{AsmResult}
use lakesis.Assembler.Lexeme.{LexerToken, LexerTokenValue, Directive}
use lakesis.Assembler.Token.{
  Token, TokenValue, label_definition, string, align, define, opcode, Operand, label, immediate,
  register, stack, reference,
}
use lakesis.Assembler.Parser.{Parser, make_token, expect_number, find_operand, is_separator}
use lakesis.Assembler.Parser.View.{behind}
use lakesis.Assembler.Parser.Statements.{
  expect_instruction, parse_opcode, take_label, expect_string, parse_directive_string,
  is_at_most_one, parse_directive_align, expect_label, parse_directive_define, expect_directive,
  parse_arguments, parse_directive, parse_statement, parse_single,
}
use lakesis.Assembler.Parser.Safety.{IsChecked, length-left}
use lakesis.Assembler.Parser.Printed.{
  operand_lexemes, more_lexemes, operands_lexemes, label_lexemes, lexemes, program_lexemes, Shows,
  Shows-peek, Shows-behind, Shows-consume, Shows-consume_or_error, Shows-make_token,
}
use lakesis.Assembler.Parser.OperandsBack.{Stops, operands_back, check_back}

-- `m` gives a parser with the values `rest` left that made `v`.
pub record Made (m : AsmResult Parser) (v : TokenValue) (rest : List LexerTokenValue)
    (made : List TokenValue) : Type 0 where
  pub next : Parser
  pub is : m ≡ ok next
  pub shows : Shows next rest
  pub outputs : map (λ t. t.value) next.outputs ≡ made ++ v ∷ []

abbrev pub values : List Token → List TokenValue
values ts = map (λ t. t.value) ts

pub values-append : (ts us : List Token) → values (ts ++ us) ≡ values ts ++ values us
values-append [] us = refl
values-append (t ∷ ts) us = ap (λ vs. t.value ∷ vs) (values-append ts us)

token-Made :
    {made : List Token} {q : Parser} {rest : List LexerTokenValue} (v : TokenValue)
    → Shows q rest
    → q.outputs ≡ made
    → Made (make_token v q) v rest (values made)
token-Made {made} {q} v s kept =
    let (r, next, is, out, shows) = Shows-make_token v s in
    record {
      next = next;
      is = is;
      shows = shows;
      outputs = ap values out ∙ values-append q.outputs _ ∙ ap (λ ts. values ts ++ v ∷ []) kept;
    }

length-more_lexemes : (os : List Operand) → length os ≤ length (more_lexemes os)
length-more_lexemes [] = omega arith
length-more_lexemes (o ∷ os) =
    omega (arith, length-append (operand_lexemes o) (more_lexemes os), length-more_lexemes os)

length-operand : (o : Operand) → 0 < length (operand_lexemes o)
length-operand (label l) = omega arith
length-operand (immediate z) = omega arith
length-operand (register r) = omega arith
length-operand (stack n) = omega arith
length-operand (reference r z) = omega arith

pub length-operands_lexemes : (os : List Operand) → length os ≤ length (operands_lexemes os)
length-operands_lexemes [] = omega arith
length-operands_lexemes (o ∷ os) = omega (
  arith,
  length-append (operand_lexemes o) (more_lexemes os),
  length-more_lexemes os,
  length-operand o,
)

lexeme_count : (ts : List LexerToken) → length (map (λ t. t.value) ts) ≡ length ts
lexeme_count ts = length-map ts (λ t. t.value)

pub Shows-length :
    {p : Parser} {vs : List LexerTokenValue} → Shows p vs → length vs ≤ length p.inputs
Shows-length s = omega (arith, length-left s.sees, lexeme_count s.ahead, ap length s.values)

module _ {p : Parser} {rest : List LexerTokenValue} (h : Stops rest) where
  pub opcode_back :
      (i : Instruction) (os : List Operand)
      → IsChecked (opcode i os)
      → Shows p (lexemes (opcode i os) ++ rest)
      → Made (parse_opcode p) (opcode i os) rest (values p.outputs)
  unfolding parse_opcode expect_instruction
  opcode_back i os c s =
      let few : length os < length p.inputs = omega (
        arith,
        length-operands_lexemes os,
        length-append (operands_lexemes os) rest,
        Shows-length s,
      ) in
      let g = operands_back (length p.inputs) os h few (Shows-behind s) in
      rw
        (
          Shows-peek s,
          Shows-consume s,
          g.is,
          (==_iff _ _).1 c.0,
          check_back (descriptor i).mnemonic 0 (descriptor i).operands os g.next c.1,
        )
        (token-Made (opcode i os) g.shows g.kept)

  string_back :
      (l : Option Text) (text : Text)
      → Shows p (label_lexemes l ++ LexerTokenValue.string_literal text ∷ rest)
      → Made (parse_directive_string p) (string l text) rest (values p.outputs)
  unfolding parse_directive_string take_label expect_string
  string_back none text s =
      rw (Shows-peek s, Shows-peek s, Shows-consume s)
        (token-Made (string none text) (Shows-behind s) refl)
  string_back (some l) text s =
      let s₁ = Shows-behind s in
      rw (Shows-peek s, Shows-consume_or_error s, Shows-peek s₁, Shows-consume s₁)
        (token-Made (string (some l) text) (Shows-behind s₁) refl)

  align_back :
      (n : ℕ)
      → 1 < n
      → Shows p (LexerTokenValue.number (pos n) ∷ rest)
      → Made (parse_directive_align p) (align n) rest (values p.outputs)
  unfolding parse_directive_align expect_number is_at_most_one as_uword
  align_back n big s =
      rw (Shows-peek s, leb-eq-false n 1 big, Shows-consume s)
        (token-Made (align n) (Shows-behind s) refl)

  define_back :
      (l : Text) (z : ℤ)
      → Shows p (LexerTokenValue.label_reference l ∷ LexerTokenValue.number z ∷ rest)
      → Made (parse_directive_define p) (define l z) rest (values p.outputs)
  unfolding parse_directive_define expect_label expect_number
  define_back l z s =
      let s₁ = Shows-behind s in
      rw (Shows-peek s, Shows-consume_or_error s, Shows-peek s₁, Shows-consume s₁)
        (token-Made (define l z) (Shows-behind s₁) refl)

  label_back :
      (l : Text)
      → Shows p (LexerTokenValue.label_definition l ∷ rest)
      → Made
          (parse_statement (LexerTokenValue.label_definition l) p)
          (label_definition l)
          rest
          (values p.outputs)
  unfolding parse_statement
  label_back l s =
      let m = token-Made (label_definition l) s refl in
      record {
        next = behind m.next;
        is = rw (m.is, Shows-consume m.shows) refl;
        shows = Shows-behind m.shows;
        outputs = m.outputs;
      }

-- The arguments of a directive.
module _ {p : Parser} {rest : List LexerTokenValue} (h : Stops rest) where
  directive_back :
      {d : Directive} {w : LexerTokenValue} {ws : List LexerTokenValue} {v : TokenValue}
      → Shows p (LexerTokenValue.directive d ∷ w ∷ ws)
      → Made (parse_arguments d (behind p)) v rest (values p.outputs)
      → Made (parse_single p) v rest (values p.outputs)
  unfolding parse_single parse_statement parse_directive expect_directive
  directive_back s m = rw (Shows-peek s, Shows-peek s, Shows-consume_or_error s) m

  pub single_back :
      (v : TokenValue)
      → IsChecked v
      → Shows p (lexemes v ++ rest)
      → Made (parse_single p) v rest (values p.outputs)
  unfolding parse_single parse_statement parse_arguments
  single_back (label_definition l) c s = rw (Shows-peek s) (label_back h l s)
  single_back (string none text) c s = directive_back s (string_back h none text (Shows-behind s))
  single_back (string (some l) text) c s =
      directive_back s (string_back h (some l) text (Shows-behind s))
  single_back (align n) c s = directive_back s (align_back h n c (Shows-behind s))
  single_back (define l z) c s = directive_back s (define_back h l z (Shows-behind s))
  single_back (opcode i os) c s = rw (Shows-peek s) (opcode_back h i os c s)

pub lexemes-Stops : (vs : List TokenValue) → Stops (program_lexemes vs)
unfolding find_operand is_separator
lexemes-Stops [] = tt
lexemes-Stops (label_definition l ∷ vs) = (refl, refl)
lexemes-Stops (string l text ∷ vs) = (refl, refl)
lexemes-Stops (align n ∷ vs) = (refl, refl)
lexemes-Stops (define l z ∷ vs) = (refl, refl)
lexemes-Stops (opcode i os ∷ vs) = (refl, refl)

-- A statement starts with a token.
pub some_lexeme :
    (v : TokenValue) (rest : List LexerTokenValue)
    → (w : LexerTokenValue) × (ws : List LexerTokenValue) × (lexemes v ++ rest ≡ w ∷ ws)
some_lexeme (label_definition l) rest = (_, _, refl)
some_lexeme (string l text) rest = (_, _, refl)
some_lexeme (align n) rest = (_, _, refl)
some_lexeme (define l z) rest = (_, _, refl)
some_lexeme (opcode i os) rest = (_, _, refl)
