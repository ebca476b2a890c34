-- ===== src/Assembler/Lexer/WordSafety.antt =====
-- src/assembler/lexer.rs: strings, characters, identifiers and directives, and panics.
use lakesis.Base.{
  ℕ, zero, suc, ◌-◌, ◌^◌, ◌≤◌, ◌<◌, ◌≡◌, refl, true, false, ◌||◌, List, [], ◌∷◌, ◌++◌, some, none,
  Option, leb, arith, ◌==◌, length, Bool-cases, inl, inr,
}
use lakesis.Base.Chars.{
  ends_with, trim_start_matches, starts_with, parse_u8, is_ascii_alphabetic, trim_end_matches,
}
use lakesis.Base.Text.{Text, text_eq, codes}
use lakesis.Base.Result.{Returns, value, Returns-bind, Returns-weaken, Returns-if}
use lakesis.Opcodes.Instruction.{Instruction, from_mnemonic, to_lowercase}
use lakesis.Core.{register_num}
use lakesis.Assembler.Report.{
  unterminated_character, unknown_escape, unknown_directive, invalid_register,
}
use lakesis.Assembler.Lexeme.{LexerTokenValue, Directive}
use lakesis.Assembler.Lexer.{Lexer, is_eof, peek, fuel_of, advance_or_error}
use lakesis.Assembler.Lexer.Words.{
  Classes, escape, or_unknown, lex_escaped, string_loop, lex_string, lex_character, register_token,
  lex_register, instruction_token, name_token, directive_token, lex_directive,
  is_valid_identifier_start, is_valid_identifier_middle, lex_identifier,
}
use lakesis.Assembler.Lexer.Progress.{consume_or_error-fewer, read_while-Returns, read_while-less}
use lakesis.Assembler.Lexer.NumberSafety.{
  Lexes, advance-Lexes, make_token-Lexes, fail-Returns, Lexes-weaken,
}

advance_or_error-fewer :
    {b : List ℕ} (n : ℕ) {l : Lexer}
    → Lexes b n l
    → Returns (λ l'. Lexes b (n - 1) l' × (0 < n)) (advance_or_error l)
unfolding advance_or_error
advance_or_error-fewer n s =
    Returns-bind (consume_or_error-fewer n s.reads)
      λ r (reads, some_left). value (record { reads = reads; negatable = s.negatable }, some_left)

or_unknown-Returns : (o : Option ℕ) (x : ℕ) (l : Lexer) → Returns (λ _. Unit {0}) (or_unknown o x l)
unfolding or_unknown
or_unknown-Returns none x l = fail-Returns (unknown_escape x) l
or_unknown-Returns (some c) x l = value tt

module _ {b : List ℕ} where
  escaped-Returns :
      {n : ℕ} {l : Lexer} (quote : ℕ)
      → Lexes b n l
      → Returns (λ a. Lexes b n a.1) (lex_escaped quote l)
  unfolding lex_escaped
  escaped-Returns {n} {l} quote s =
      Returns-if (peek l.reader == b'\\')
        (λ _. Returns-bind (advance_or_error-fewer n s) λ l' (s', _).
          Returns-bind (or_unknown-Returns (escape quote (peek l'.reader)) (peek l'.reader) l')
            λ c _. value (Lexes-weaken s' (omega arith)))
        (λ _. value s)

  string_loop-Returns :
      (fuel n : ℕ) (text : Text) {l : Lexer}
      → Lexes b n l
      → n < fuel
      → Returns (λ a. Lexes b n a.1) (string_loop fuel text l)
  unfolding string_loop
  string_loop-Returns zero n text s few = absurd (omega arith)
  string_loop-Returns (suc fuel) n text {l} s few =
      Returns-if (peek l.reader == b'"') (λ _. value s)
        λ _. Returns-bind (escaped-Returns b'"' s) λ a s₁.
          Returns-bind (advance_or_error-fewer n s₁) λ l₂ (s₂, some_left).
            Returns-weaken (string_loop-Returns fuel (n - 1) (text ++ a.0 ∷ []) s₂ (omega arith))
              λ a' s₃. Lexes-weaken s₃ (omega arith)

  pub string-Returns :
      {n : ℕ} {l : Lexer}
      → Lexes b n l
      → n ≤ length l.reader.buffer
      → Returns (Lexes b n) (lex_string l)
  unfolding lex_string
  string-Returns {n} {l} s few =
      Returns-bind (string_loop-Returns (fuel_of l.reader) n [] s (omega arith))
        λ a s'. value (make_token-Lexes (LexerTokenValue.string_literal a.0) tt (advance-Lexes s'))

  pub character-Returns : {n : ℕ} {l : Lexer} → Lexes b n l → Returns (Lexes b n) (lex_character l)
  unfolding lex_character
  character-Returns {n} s = Returns-bind (escaped-Returns b'\'' s) λ a s₁.
      Returns-bind (advance_or_error-fewer n s₁) λ l₂ (s₂, _).
        Returns-if (peek l₂.reader == b'\'')
          (λ _. value (
            make_token-Lexes (LexerTokenValue.character_literal a.0) tt
              (advance-Lexes (Lexes-weaken s₂ (omega arith)))))
          (λ _. fail-Returns unterminated_character l₂)

  module _ {n : ℕ} {l : Lexer} (s : Lexes b n l) where
    register_token-Returns : (o : Option ℕ) → Returns (λ a. Lexes b n a.1) (register_token o l)
    unfolding register_token
    register_token-Returns none = value s
    register_token-Returns (some r) =
        Returns-if (leb register_num r) (λ _. fail-Returns invalid_register l)
          (λ _. value (make_token-Lexes (LexerTokenValue.register r) tt s))

    register-Returns : (name : Text) → Returns (λ a. Lexes b n a.1) (lex_register name l)
    unfolding lex_register
    register-Returns name =
        let digits = trim_start_matches b'r' (trim_start_matches b'R' name) in
        Returns-if (starts_with b'R' name || starts_with b'r' name)
          (λ _.
            Returns-if (2 ^ 64 - 1 - length digits == 1) (λ _. value s)
              (λ _. register_token-Returns (parse_u8 digits)))
          (λ _. value s)

    directive_token-Returns : (name : Text) → Returns (Lexes b n) (directive_token name l)
    unfolding directive_token
    directive_token-Returns name =
        Returns-if (text_eq name (codes "string"))
          (λ _. value (make_token-Lexes (LexerTokenValue.directive Directive.string) tt s))
          λ _.
            Returns-if (text_eq name (codes "align"))
              (λ _. value (make_token-Lexes (LexerTokenValue.directive Directive.align) tt s))
              λ _.
                Returns-if (text_eq name (codes "define"))
                  (λ _. value (make_token-Lexes (LexerTokenValue.directive Directive.define) tt s))
                  (λ _. fail-Returns (unknown_directive name) l)

  instruction_token-Lexes :
      {n : ℕ} {l : Lexer} (o : Option Instruction) (name : Text)
      → Lexes b n l
      → Lexes b n (instruction_token o name l)
  unfolding instruction_token
  instruction_token-Lexes (some i) name s = make_token-Lexes (LexerTokenValue.instruction i) tt s
  instruction_token-Lexes none name s =
      elim (Bool-cases (text_eq (to_lowercase name) (codes "sp"))) [
        | inl e ↦ rw e (make_token-Lexes LexerTokenValue.stack_pointer tt s)
        | inr e ↦ rw e (make_token-Lexes (LexerTokenValue.label_reference name) tt s)
      ]

  name-Returns :
      {n : ℕ} {l : Lexer} (name : Text) → Lexes b n l → Returns (Lexes b n) (name_token name l)
  unfolding name_token
  name-Returns name s =
      Returns-if (ends_with b':' name)
        (λ _.
          value
            (make_token-Lexes (LexerTokenValue.label_definition (trim_end_matches b':' name)) tt s))
        λ _. Returns-bind (register-Returns s name) λ a s'.
          Returns-if a.0 (λ _. value s')
            (λ _. value (instruction_token-Lexes (from_mnemonic name) name s'))

  pub directive-Returns :
      {n : ℕ} {l : Lexer}
      → Lexes b n l
      → n ≤ length l.reader.buffer
      → Returns (Lexes b n) (lex_directive l)
  unfolding lex_directive
  directive-Returns {n} {l} s few =
      Returns-bind
        (read_while-Returns is_ascii_alphabetic (λ _. true) (λ _ _. Unit {0}) (λ _ _ _ _ _. tt)
          (fuel_of l.reader) n [] s.reads (omega (arith, s.reads.few)) tt)
        λ a (reads, _).
          directive_token-Returns (record { reads = reads; negatable = s.negatable }) a.0

start-middle :
    (classes : Classes) (c : ℕ)
    → is_valid_identifier_start classes c ≡ true
    → is_valid_identifier_middle classes c ≡ true
unfolding is_valid_identifier_middle
start-middle classes c h = rw h refl

pub identifier-Returns :
    (classes : Classes) {b : List ℕ} {n : ℕ} {l : Lexer}
    → is_valid_identifier_start classes (peek l.reader) ≡ true
    → is_eof l.reader ≡ false
    → Lexes b (suc n) l
    → Returns (Lexes b n) (lex_identifier classes l)
unfolding lex_identifier
identifier-Returns classes {n} {l} h e s =
    Returns-bind
      (read_while-less (is_valid_identifier_middle classes) (λ _. true) (λ _ _. Unit {0})
        (λ _ _ _ _ _. tt) (fuel_of l.reader) n [] s.reads (omega arith) e
        (start-middle classes (peek l.reader) h) tt)
      λ a (reads, _). name-Returns a.0 (record { reads = reads; negatable = s.negatable })
