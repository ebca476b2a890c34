-- ===== src/Assembler/Parser/Operands.antt =====
-- src/assembler/parser.rs: the functions about operands, and panics.
use lakesis.Base.{
  ℕ, zero, suc, ◌<◌, ◌≡◌, refl, ◌∙◌, Bool, true, false, List, [], ◌∷◌, ◌++◌, Option, none, some,
  arith, length, ◌-◌, ◌==◌, if◌then◌else◌, lt→ltb,
}
use lakesis.Base.Int.{ℤ, pos, negsuc}
use lakesis.Base.Words.{neg_iword}
use lakesis.Base.Result.{ok, Returns, value, Returns-bind, Returns-weaken, Returns-if}
use lakesis.Assembler.Report.{
  expected_number, expected_stack_or_register, expected_reference_start, expected_reference_end,
  negative_stack_offset, expected_operand, Error, AsmResult,
}
use lakesis.Assembler.Lexeme.{LexerToken, LexerTokenValue}
use lakesis.Assembler.Token.{Token, Operand}
use lakesis.Assembler.Parser.{
  Parser, expect_number, expect_base, expect_start, expect_end, offset_sign, is_below_stack,
  parse_reference_or_stack_offset, parse_reference_or_stack, Found, operand, start, nothing,
  find_operand, parse_operand, is_separator, pass_separator, consume_found, signed_offset, Operands,
  collect, operands_loop,
}
use lakesis.Assembler.Parser.View.{
  IsNegatable, Sees, Rests, Waits, Sees-peek, Sees-is_eof, Sees-not_eof, fail-Returns,
  consume-Rests, consume_or_error-Returns, Waits-weaken, Rests-weaken,
}

module _ {p : Parser} {ts : List LexerToken} where
  pub expect_number-Returns :
      (v : LexerTokenValue)
      → Sees p ts
      → Returns (λ z. v ≡ LexerTokenValue.number z) (expect_number v p)
  unfolding expect_number
  expect_number-Returns (LexerTokenValue.number n) s = value refl
  expect_number-Returns _ s = fail-Returns s expected_number

  expect_base-Returns :
      (v : LexerTokenValue) → Sees p ts → Returns (λ _. Unit {0}) (expect_base v p)
  unfolding expect_base
  expect_base-Returns LexerTokenValue.stack_pointer s = value tt
  expect_base-Returns (LexerTokenValue.register r) s = value tt
  expect_base-Returns _ s = fail-Returns s expected_stack_or_register

  expect_start-Returns :
      (v : LexerTokenValue) → Sees p ts → Returns (λ _. Unit {0}) (expect_start v p)
  unfolding expect_start
  expect_start-Returns LexerTokenValue.start_reference s = value tt
  expect_start-Returns _ s = fail-Returns s expected_reference_start

  expect_end-Returns : (v : LexerTokenValue) → Sees p ts → Returns (λ _. Unit {0}) (expect_end v p)
  unfolding expect_end
  expect_end-Returns LexerTokenValue.end_reference s = value tt
  expect_end-Returns _ s = fail-Returns s expected_reference_end

neg_iword-Returns :
    (z : ℤ)
    → IsNegatable (LexerTokenValue.number z)
    → Returns (λ _. Unit {0}) (neg_iword {E = Error} z)
unfolding neg_iword
neg_iword-Returns (pos zero) h = value tt
neg_iword-Returns (pos (suc n)) h = value tt
neg_iword-Returns (negsuc n) h = rw (lt→ltb _ _ h) (value tt)

signed-Returns :
    (is_negative : Bool) (z : ℤ)
    → IsNegatable (LexerTokenValue.number z)
    → Returns {E = Error} (λ _. Unit {0}) (if is_negative then neg_iword z else ok z)
signed-Returns true z h = neg_iword-Returns z h
signed-Returns false z h = value tt

signed_offset-Returns :
    (sign : Option Bool) {p : Parser} {t : LexerToken} {ts : List LexerToken}
    → Sees p (t ∷ ts)
    → Returns (λ r. Waits p.outputs (suc (length ts)) r.1) (signed_offset sign p)
unfolding signed_offset
signed_offset-Returns none {t} {ts} s =
    value (record { next = t; ahead = ts; sees = s; few = omega arith; kept = refl })
signed_offset-Returns (some is_negative) s = Returns-bind (consume_or_error-Returns s) λ p₁ w₁.
    rw (Sees-peek w₁.sees) (
      Returns-bind (expect_number-Returns w₁.next.value w₁.sees) λ z is.
        Returns-bind (consume_or_error-Returns w₁.sees) λ p₂ w₂.
          Returns-bind (signed-Returns is_negative z (rw is at w₁.sees.negatable.0))
            λ _ _. value (Waits-weaken w₂ w₁.kept (omega (arith, w₁.few))))

offset-Returns :
    {p : Parser} {t : LexerToken} {ts : List LexerToken}
    → Sees p (t ∷ ts)
    → Returns (λ r. Waits p.outputs (suc (length ts)) r.1) (parse_reference_or_stack_offset p)
unfolding parse_reference_or_stack_offset
offset-Returns {t} s = rw (Sees-peek s) (signed_offset-Returns (offset_sign t.value) s)

pub reference-Returns :
    {p : Parser} {t : LexerToken} {ts : List LexerToken}
    → Sees p (t ∷ ts)
    → Returns (λ r. Rests p.outputs (length ts) r.1) (parse_reference_or_stack p)
unfolding parse_reference_or_stack
reference-Returns {p} {t} {ts} s = rw (Sees-peek s) (
    Returns-bind (expect_start-Returns t.value s) λ _ _.
      Returns-bind (consume_or_error-Returns s) λ p₁ w₁. rw (Sees-peek w₁.sees) (
        Returns-bind (expect_base-Returns w₁.next.value w₁.sees) λ base _.
          Returns-bind (consume_or_error-Returns w₁.sees) λ p₂ w₂.
            Returns-bind (offset-Returns w₂.sees) λ r w₃.
              Returns-if (is_below_stack base r.0) (λ _. fail-Returns w₃.sees negative_stack_offset)
                λ _. rw (Sees-peek w₃.sees) (
                  Returns-bind (expect_end-Returns w₃.next.value w₃.sees) λ _ _. value (
                    Rests-weaken (consume-Rests w₃.sees) (w₃.kept ∙ w₂.kept ∙ w₁.kept)
                      (omega (arith, w₃.few, w₂.few, w₁.few))))))

consume_found-Returns :
    (f : Found) {p : Parser} {t : LexerToken} {ts : List LexerToken}
    → Sees p (t ∷ ts)
    → Returns (λ r. Rests p.outputs (suc (length ts)) r.1) (consume_found f p)
unfolding consume_found
consume_found-Returns (operand o) s = value (Rests-weaken (consume-Rests s) refl (omega arith))
consume_found-Returns start s =
    Returns-bind (reference-Returns s) λ r w. value (Rests-weaken w refl (omega arith))
consume_found-Returns nothing {t} {ts} s =
    value (record { ahead = t ∷ ts; sees = s; few = omega arith; kept = refl })

pub parse_operand-Returns :
    {p : Parser} (ts : List LexerToken)
    → Sees p ts
    → Returns (λ r. Rests p.outputs (length ts) r.1) (parse_operand p)
unfolding parse_operand
parse_operand-Returns [] s =
    rw (Sees-is_eof s) (value (record { ahead = []; sees = s; few = omega arith; kept = refl }))
parse_operand-Returns (t ∷ ts) s =
    rw (Sees-not_eof s, Sees-peek s) (consume_found-Returns (find_operand t.value) s)

-- A separator that is passed leaves fewer tokens.
pass_separator-Returns :
    {p : Parser} (ts : List LexerToken)
    → Sees p ts
    → Returns
        (λ r.
          Rests p.outputs (length ts) r.1
          × (r.0 ≡ true → Rests p.outputs (length ts - 1) r.1 × (0 < length ts)))
        (pass_separator p)
unfolding pass_separator
pass_separator-Returns [] s =
    rw (Sees-is_eof s)
      (value (record { ahead = []; sees = s; few = omega arith; kept = refl }, λ h. cc))
pass_separator-Returns {p} (t ∷ ts) s =
    rw (Sees-not_eof s, Sees-peek s)
      (Returns-if (is_separator t.value)
        (λ _. Returns-bind (consume_or_error-Returns s) λ p' w.
          let r : Rests p.outputs (length ts) p' = record {
            ahead = w.next ∷ w.ahead;
            sees = w.sees;
            few = omega (arith, w.few);
            kept = w.kept;
          } in
          value (
            Rests-weaken r refl (omega arith),
            λ _. (Rests-weaken r refl (omega arith), omega arith),
          ))
        λ _. value (record { ahead = t ∷ ts; sees = s; few = omega arith; kept = refl }, λ h. cc))

collect-Returns :
    (again : List Operand → Parser → AsmResult Operands) (made : List Token)
    (operands : List Operand) (found : Option Operand) {p : Parser} (ts : List LexerToken)
    → Sees p ts
    → p.outputs ≡ made
    → ((os : List Operand) (p' : Parser) (us : List LexerToken)
        → Sees p' us
        → p'.outputs ≡ made
        → length us < length ts
        → Returns (λ r. Rests made (length ts) r.1) (again os p'))
    → Returns (λ r. Rests made (length ts) r.1) (collect again operands found p)
unfolding collect
collect-Returns again made operands none ts s k next =
    Returns-if (length operands == 0)
      (λ _. value (record { ahead = ts; sees = s; few = omega arith; kept = k }))
      (λ _. fail-Returns s expected_operand)
collect-Returns again made operands (some o) ts s k next =
    Returns-bind (pass_separator-Returns ts s) λ r w.
      Returns-if r.0
        (λ h.
          let (shorter, some_left) = w.1 h in
          next (operands ++ o ∷ []) r.1 shorter.ahead shorter.sees (shorter.kept ∙ k)
            (omega (arith, shorter.few)))
        (λ _. value (Rests-weaken w.0 k (omega arith)))

pub operands_loop-Returns :
    (fuel : ℕ) (operands : List Operand) {p : Parser} (ts : List LexerToken)
    → Sees p ts
    → length ts < fuel
    → Returns (λ r. Rests p.outputs (length ts) r.1) (operands_loop fuel operands p)
unfolding operands_loop
operands_loop-Returns zero operands ts s h = absurd (omega arith)
operands_loop-Returns (suc fuel) operands {p} ts s h =
    Returns-bind (parse_operand-Returns ts s) λ r w.
      Returns-weaken
        (collect-Returns (operands_loop fuel) p.outputs operands r.0 w.ahead w.sees w.kept
          λ os p' us s' k' small.
            Returns-weaken (operands_loop-Returns fuel os us s' (omega (arith, w.few)))
              λ a w'. Rests-weaken w' k' (omega arith))
        λ a w'. Rests-weaken w' refl w.few
