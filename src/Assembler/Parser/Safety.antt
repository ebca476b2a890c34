-- ===== src/Assembler/Parser/Safety.antt =====
-- src/assembler/parser.rs: the functions about statements, panics, and the checks of operands.
use lakesis.Base.{
  ℕ, suc, ◌+◌, ◌≤◌, ◌<◌, ◌≡◌, refl, ap, false, List, [], ◌∷◌, map, arith, length, length-drop, ◌==◌,
  ==_iff,
}
use lakesis.Base.Text.{Text}
use lakesis.Base.Int.{ℤ, pos, negsuc}
use lakesis.Base.Words.{as_uword}
use lakesis.Base.Distinct.{All, All-append}
use lakesis.Base.Result.{ok, Returns, value, Returns-bind, Returns-weaken, Returns-if}
use lakesis.Opcodes.Mode.{OperandMode, can_be_used_as}
use lakesis.Opcodes.Operand.{operand_mode}
use lakesis.Opcodes.Instruction.{descriptor}
use lakesis.Opcodes.Decode.{check_modes}
use lakesis.Assembler.Report.{
  expected_string_literal, expected_label, expected_instruction, expected_directive,
  alignment_too_small, expected_label_or_instruction, wrong_operand_count, wrong_operand_mode,
}
use lakesis.Assembler.Lexeme.{LexerToken, LexerTokenValue, Directive}
use lakesis.Assembler.Token.{
  Token, TokenValue, label_definition, string, align, define, opcode, Operand, label, immediate,
  register, stack, reference,
}
use lakesis.Assembler.Encoder.Operands.{as_core}
use lakesis.Assembler.Parser.{Parser, make_token, mode, check_operands}
use lakesis.Assembler.Parser.View.{
  Sees, Rests, Waits, Sees-peek, fail-Returns, consume-Rests, consume_or_error-Returns,
  make_token-Returns, Waits-weaken, Rests-weaken,
}
use lakesis.Assembler.Parser.Operands.{expect_number-Returns, operands_loop-Returns}
use lakesis.Assembler.Parser.Statements.{
  expect_instruction, parse_opcode, take_label, expect_string, parse_directive_string,
  is_at_most_one, parse_directive_align, expect_label, parse_directive_define, expect_directive,
  parse_arguments, parse_directive, parse_statement, parse_single,
}

-- The operands of an opcode are what its instruction's descriptor asks for, by the rules of the
-- decoder; an alignment is at least two.
abbrev pub IsChecked : TokenValue → Type 0
IsChecked (opcode i os) =
    (length (descriptor i).operands ≡ length os)
    × (check_modes (descriptor i).operands (map as_core os) ≡ ok tt)
IsChecked (align n) = 1 < n
IsChecked _ = Unit

abbrev pub AreChecked : List Token → Type 0
AreChecked = All (λ t. IsChecked t.value)

pub mode-as_core : (o : Operand) → operand_mode (as_core o) ≡ mode o
unfolding operand_mode mode
mode-as_core (label l) = refl
mode-as_core (immediate z) = refl
mode-as_core (register r) = refl
mode-as_core (stack n) = refl
mode-as_core (reference r z) = refl

check_operands-Returns :
    (name : Text) (i : ℕ) (es : List OperandMode) (os : List Operand) {p : Parser}
    {ts : List LexerToken}
    → Sees p ts
    → Returns (λ _. check_modes es (map as_core os) ≡ ok tt) (check_operands name i es os p)
unfolding check_operands check_modes
check_operands-Returns name i [] os s = value refl
check_operands-Returns name i (e ∷ es) [] s = value refl
check_operands-Returns name i (e ∷ es) (o ∷ os) s =
    Returns-if (can_be_used_as (mode o) e)
      (λ fits.
        Returns-weaken (check_operands-Returns name (suc i) es os s)
          λ _ rest. rw (mode-as_core o, fits) rest)
      (λ _. fail-Returns s (wrong_operand_mode name (i + 1) e))

-- A parser with checked outputs and at most `n` tokens left.
pub record Steps (n : ℕ) (p : Parser) : Type 0 where
  pub ahead : List LexerToken
  pub sees : Sees p ahead
  pub few : length ahead ≤ n
  pub checked : AreChecked p.outputs

-- A token is made behind one that is passed, or where the parser stands.
make_token-Steps :
    {made : List Token} {n : ℕ} {p : Parser} (v : TokenValue)
    → IsChecked v
    → AreChecked made
    → Rests made n p
    → Returns (Steps n) (make_token v p)
make_token-Steps v c all r = Returns-weaken (make_token-Returns v r.sees) λ p' (sees, range, out).
    record {
      ahead = r.ahead;
      sees = sees;
      few = r.few;
      checked = rw (out, r.kept) (All-append _ _ _ all (c, tt));
    }

module _ {p : Parser} {ts : List LexerToken} where
  expect_instruction-Returns :
      (v : LexerTokenValue) → Sees p ts → Returns (λ _. Unit {0}) (expect_instruction v p)
  unfolding expect_instruction
  expect_instruction-Returns (LexerTokenValue.instruction i) s = value tt
  expect_instruction-Returns _ s = fail-Returns s expected_instruction

  expect_string-Returns :
      (v : LexerTokenValue) → Sees p ts → Returns (λ _. Unit {0}) (expect_string v p)
  unfolding expect_string
  expect_string-Returns (LexerTokenValue.string_literal i) s = value tt
  expect_string-Returns _ s = fail-Returns s expected_string_literal

  expect_label-Returns :
      (v : LexerTokenValue) → Sees p ts → Returns (λ _. Unit {0}) (expect_label v p)
  unfolding expect_label
  expect_label-Returns (LexerTokenValue.label_reference i) s = value tt
  expect_label-Returns _ s = fail-Returns s expected_label

  expect_directive-Returns :
      (v : LexerTokenValue) → Sees p ts → Returns (λ _. Unit {0}) (expect_directive v p)
  unfolding expect_directive
  expect_directive-Returns (LexerTokenValue.directive i) s = value tt
  expect_directive-Returns _ s = fail-Returns s expected_directive

pub length-left : {p : Parser} {ts : List LexerToken} → Sees p ts → length ts ≤ length p.inputs
length-left {p} s = omega (arith, ap length s.left, length-drop p.input_index p.inputs)

module _ {p : Parser} {t : LexerToken} {ts : List LexerToken} (s : Sees p (t ∷ ts))
    (all : AreChecked p.outputs) where
  parse_opcode-Returns : Returns (Steps (length ts)) (parse_opcode p)
  unfolding parse_opcode
  parse_opcode-Returns = rw (Sees-peek s) (
      Returns-bind (expect_instruction-Returns t.value s) λ i _.
        let behind = consume-Rests s in
        Returns-bind
          (operands_loop-Returns (length p.inputs) [] behind.ahead behind.sees
            (omega (arith, behind.few, length-left s)))
          λ r w.
            Returns-if (length (descriptor i).operands == length r.0)
              (λ same.
                Returns-bind
                  (check_operands-Returns (descriptor i).mnemonic 0 (descriptor i).operands r.0
                    w.sees)
                  λ _ fits.
                    make_token-Steps (opcode i r.0) ((==_iff _ _).0 same, fits) all
                      (Rests-weaken w behind.kept behind.few))
              (λ _. fail-Returns w.sees (
                wrong_operand_count (descriptor i).mnemonic (length (descriptor i).operands)
                  (length r.0))))

  take_label-Returns :
      (v : LexerTokenValue) → Returns (λ r. Waits p.outputs (suc (length ts)) r.1) (take_label v p)
  unfolding take_label
  take_label-Returns (LexerTokenValue.label_reference l) =
      Returns-bind (consume_or_error-Returns s) λ p' w. value (Waits-weaken w refl (omega arith))
  take_label-Returns _ =
      value (record { next = t; ahead = ts; sees = s; few = omega arith; kept = refl })

  string-Returns : Returns (Steps (length ts)) (parse_directive_string p)
  unfolding parse_directive_string
  string-Returns = rw (Sees-peek s) (
      Returns-bind (take_label-Returns t.value) λ r w. rw (Sees-peek w.sees) (
        Returns-bind (expect_string-Returns w.next.value w.sees) λ text _.
          make_token-Steps (string r.0 text) tt all
            (Rests-weaken (consume-Rests w.sees) w.kept (omega (arith, w.few)))))

  define-Returns : Returns (Steps (length ts)) (parse_directive_define p)
  unfolding parse_directive_define
  define-Returns = rw (Sees-peek s) (
      Returns-bind (expect_label-Returns t.value s) λ l _.
        Returns-bind (consume_or_error-Returns s) λ p₁ w. rw (Sees-peek w.sees) (
          Returns-bind (expect_number-Returns w.next.value w.sees) λ z _.
            make_token-Steps (define l z) tt all
              (Rests-weaken (consume-Rests w.sees) w.kept (omega (arith, w.few)))))

more_than_one : (z : ℤ) → is_at_most_one z ≡ false → 1 < as_uword z
unfolding is_at_most_one as_uword
more_than_one (pos n) h = ground arith
more_than_one (negsuc n) h = cc

module _ {p : Parser} {t : LexerToken} {ts : List LexerToken} (s : Sees p (t ∷ ts))
    (all : AreChecked p.outputs) where
  align-Returns : Returns (Steps (length ts)) (parse_directive_align p)
  unfolding parse_directive_align
  align-Returns = rw (Sees-peek s) (
      Returns-bind (expect_number-Returns t.value s) λ z _.
        Returns-if (is_at_most_one z) (λ _. fail-Returns s alignment_too_small)
          λ big. make_token-Steps (align (as_uword z)) (more_than_one z big) all (consume-Rests s))

  arguments-Returns : (d : Directive) → Returns (Steps (length ts)) (parse_arguments d p)
  unfolding parse_arguments
  arguments-Returns Directive.string = string-Returns s all
  arguments-Returns Directive.align = align-Returns
  arguments-Returns Directive.define = define-Returns s all

module _ {p : Parser} {t : LexerToken} {ts : List LexerToken} (s : Sees p (t ∷ ts))
    (all : AreChecked p.outputs) where
  directive-Returns : Returns (Steps (length ts)) (parse_directive p)
  unfolding parse_directive
  directive-Returns = rw (Sees-peek s) (
      Returns-bind (expect_directive-Returns t.value s) λ d _.
        Returns-bind (consume_or_error-Returns s) λ p₁ w.
          Returns-weaken (arguments-Returns w.sees (rw w.kept all) d) λ p₂ st. record {
            ahead = st.ahead;
            sees = st.sees;
            few = omega (arith, st.few, w.few);
            checked = st.checked;
          })

  label-Returns :
      (l : Text)
      → Returns (Steps (length ts)) (parse_statement (LexerTokenValue.label_definition l) p)
  unfolding parse_statement
  label-Returns l =
      Returns-bind (make_token-Returns (label_definition l) s) λ p₁ (sees, range, out).
        let r = consume-Rests sees in
        value (record {
          ahead = r.ahead;
          sees = r.sees;
          few = r.few;
          checked = rw (r.kept, out) (All-append _ _ _ all (tt, tt));
        })

  statement-Returns : (v : LexerTokenValue) → Returns (Steps (length ts)) (parse_statement v p)
  unfolding parse_statement
  statement-Returns (LexerTokenValue.label_definition l) = label-Returns l
  statement-Returns (LexerTokenValue.directive d) = directive-Returns
  statement-Returns (LexerTokenValue.instruction i) = parse_opcode-Returns s all
  statement-Returns _ = fail-Returns s expected_label_or_instruction

  pub single-Returns : Returns (Steps (length ts)) (parse_single p)
  unfolding parse_single
  single-Returns = rw (Sees-peek s) (statement-Returns t.value)
