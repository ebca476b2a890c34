-- ===== src/Assembler/Parser/OperandsBack.antt =====
-- src/assembler/parser.rs: parsing the tokens of operands.
use lakesis.Base.{
  ℕ, zero, suc, ◌+◌, ◌<◌, ◌≡◌, refl, sym, ap, ◌∙◌, Bool, true, false, List, [], ◌∷◌, ◌++◌, map,
  Option, none, some, arith, length, append_assoc, if◌then◌else◌,
}
use lakesis.Base.Int.{ℤ, pos, negsuc}
use lakesis.Base.Words.{as_uword, neg_iword}
use lakesis.Base.Text.{Text}
use lakesis.Base.Result.{ok, ◌>>◌, guard}
use lakesis.Core.{CoreResult, operand_cannot_be_used}
use lakesis.Opcodes.Mode.{OperandMode, can_be_used_as}
use lakesis.Opcodes.Decode.{check_modes}
use lakesis.Assembler.Report.{Error, AsmResult, wrong_operand_mode}
use lakesis.Assembler.Lexeme.{LexerTokenValue}
use lakesis.Assembler.Token.{Token, Operand, label, immediate, register, stack, reference}
use lakesis.Assembler.Encoder.Operands.{as_core}
use lakesis.Assembler.Parser.{
  Parser, is_eof, fail, offset_sign, expect_number, signed_offset, parse_reference_or_stack_offset,
  expect_base, expect_start, expect_end, operand_at_base, is_below_stack, parse_reference_or_stack,
  Found, nothing, find_operand, consume_found, parse_operand, is_separator, pass_separator, collect,
  operands_loop, mode, check_operands,
}
use lakesis.Assembler.Parser.View.{behind}
use lakesis.Assembler.Parser.Safety.{mode-as_core}
use lakesis.Assembler.Parser.Printed.{
  operand_lexemes, operands_lexemes, more_lexemes, Shows, Shows-peek, Shows-not_eof, Shows-behind,
  Shows-consume, Shows-consume_or_error, Shows-consume_before, Shows-is_eof,
}

module _ {p : Parser} {v sg : LexerTokenValue} {n z : ℤ} {base : Option ℕ} {is_negative : Bool}
    {rest : List LexerTokenValue} where
  at_base :
      Shows p (
        LexerTokenValue.start_reference
        ∷ v
        ∷ sg
        ∷ LexerTokenValue.number n
        ∷ LexerTokenValue.end_reference
        ∷ rest)
      → ((q : Parser) → expect_base v q ≡ ok base)
      → offset_sign sg ≡ some is_negative
      → (if is_negative then neg_iword {E = Error} n else ok n) ≡ ok z
      → is_below_stack base z ≡ false
      → parse_reference_or_stack p
        ≡ ok (operand_at_base base z, behind (behind (behind (behind (behind p)))))
  unfolding parse_reference_or_stack expect_start parse_reference_or_stack_offset signed_offset
      expect_number expect_end
  at_base s b g h f =
      let s₁ = Shows-behind s in
      let s₂ = Shows-behind s₁ in
      let s₃ = Shows-behind s₂ in
      let s₄ = Shows-behind s₃ in
      rw
        (
          Shows-peek s,
          Shows-consume_or_error s,
          Shows-peek s₁,
          b (behind p),
          Shows-consume_or_error s₁,
          Shows-peek s₂,
          g,
          Shows-consume_or_error s₂,
          Shows-peek s₃,
          Shows-consume_or_error s₃,
          h,
          f,
          Shows-peek s₄,
          Shows-consume s₄,
        )
        refl

-- `m` gives `a` and a parser with the values `rest` left and the outputs `made`.
pub record Goes {A : Type 0} (m : AsmResult (A × Parser)) (a : A) (rest : List LexerTokenValue)
    (made : List Token) : Type 0 where
  pub next : Parser
  pub is : m ≡ ok (a, next)
  pub shows : Shows next rest
  pub kept : next.outputs ≡ made

module _ {p : Parser} {rest : List LexerTokenValue} where
  one_back :
      {v : LexerTokenValue} (o : Operand)
      → Shows p (v ∷ rest)
      → find_operand v ≡ Found.operand o
      → Goes (parse_operand p) (some o) rest p.outputs
  unfolding parse_operand consume_found
  one_back o s f = record {
    next = behind p;
    is = rw (Shows-not_eof s, Shows-peek s, f, Shows-consume s) refl;
    shows = Shows-behind s;
    kept = refl;
  }

  based_back :
      {vs : List LexerTokenValue} {o : Operand}
      → Shows p (LexerTokenValue.start_reference ∷ vs)
      → Shows (behind (behind (behind (behind (behind p))))) rest
      → parse_reference_or_stack p ≡ ok (o, behind (behind (behind (behind (behind p)))))
      → Goes (parse_operand p) (some o) rest p.outputs
  unfolding parse_operand find_operand consume_found
  based_back s end is = record {
    next = behind (behind (behind (behind (behind p))));
    is = rw (Shows-not_eof s, Shows-peek s, is) refl;
    shows = end;
    kept = refl;
  }

  behind_five :
      {a b c d e : LexerTokenValue}
      → Shows p (a ∷ b ∷ c ∷ d ∷ e ∷ rest)
      → Shows (behind (behind (behind (behind (behind p))))) rest
  behind_five s = Shows-behind (Shows-behind (Shows-behind (Shows-behind (Shows-behind s))))

  pub operand_back :
      (o : Operand)
      → Shows p (operand_lexemes o ++ rest)
      → Goes (parse_operand p) (some o) rest p.outputs × (is_eof p ≡ false)
  unfolding find_operand offset_sign expect_base is_below_stack operand_at_base neg_iword as_uword
  operand_back (label l) s = (one_back (label l) s refl, Shows-not_eof s)
  operand_back (immediate z) s = (one_back (immediate z) s refl, Shows-not_eof s)
  operand_back (register r) s = (one_back (register r) s refl, Shows-not_eof s)
  operand_back (stack n) s =
      (based_back s (behind_five s) (at_base s (λ q. refl) refl refl refl), Shows-not_eof s)
  operand_back (reference r (pos n)) s =
      (based_back s (behind_five s) (at_base s (λ q. refl) refl refl refl), Shows-not_eof s)
  operand_back (reference r (negsuc n)) s =
      (based_back s (behind_five s) (at_base s (λ q. refl) refl refl refl), Shows-not_eof s)

-- The values at which the loop over operands stops.
abbrev pub Stops : List LexerTokenValue → Type 0
Stops [] = Unit
Stops (v ∷ vs) = (find_operand v ≡ nothing) × (is_separator v ≡ false)

no_operand :
    {p : Parser} (vs : List LexerTokenValue)
    → Stops vs
    → Shows p vs
    → parse_operand p ≡ ok (none, p)
unfolding parse_operand consume_found
no_operand [] h s = rw (Shows-is_eof s) refl
no_operand (v ∷ vs) h s = rw (Shows-not_eof s, Shows-peek s, h.0) refl

no_separator :
    {p : Parser} (vs : List LexerTokenValue)
    → Stops vs
    → Shows p vs
    → pass_separator p ≡ ok (false, p)
unfolding pass_separator
no_separator [] h s = rw (Shows-is_eof s) refl
no_separator (v ∷ vs) h s = rw (Shows-not_eof s, Shows-peek s, h.1) refl

separator_back :
    {p : Parser} {vs : List LexerTokenValue}
    → Shows p (LexerTokenValue.argument_separator ∷ vs)
    → is_eof (behind p) ≡ false
    → pass_separator p ≡ ok (true, behind p)
unfolding pass_separator is_separator
separator_back s more = rw (Shows-not_eof s, Shows-peek s, Shows-consume_before s more) refl

more_back :
    {rest : List LexerTokenValue} (fuel : ℕ) (acc : List Operand) (o : Operand) (os : List Operand)
    {p : Parser}
    → Stops rest
    → length os < fuel
    → Shows p (operand_lexemes o ++ (more_lexemes os ++ rest))
    → Goes (operands_loop fuel acc p) (acc ++ o ∷ os) rest p.outputs
unfolding operands_loop collect
more_back zero acc o os h few s = absurd (omega arith)
more_back (suc fuel) acc o [] {p} h few s =
    let (g, _) = operand_back o s in
    record {
      next = g.next;
      is = rw (g.is, no_separator _ h g.shows) refl;
      shows = g.shows;
      kept = g.kept;
    }
more_back {rest} (suc fuel) acc o (o' ∷ os) {p} h few s =
    let (g, _) = operand_back o s in
    let s' : Shows (behind g.next) (operand_lexemes o' ++ (more_lexemes os ++ rest)) =
      rw (sym (append_assoc (operand_lexemes o') (more_lexemes os) rest)) (Shows-behind g.shows) in
    let g' = more_back fuel (acc ++ o ∷ []) o' os h (omega (arith, few)) s' in
    record {
      next = g'.next;
      is =
          rw
            (
              g.is,
              separator_back g.shows ((operand_back o' s').1),
              g'.is,
              append_assoc acc (o ∷ []) (o' ∷ os),
            )
            refl;
      shows = g'.shows;
      kept = g'.kept ∙ g.kept;
    }

pub operands_back :
    {rest : List LexerTokenValue} (fuel : ℕ) (os : List Operand) {p : Parser}
    → Stops rest
    → length os < fuel
    → Shows p (operands_lexemes os ++ rest)
    → Goes (operands_loop fuel [] p) os rest p.outputs
unfolding operands_loop collect
operands_back zero os h few s = absurd (omega arith)
operands_back {rest} (suc fuel) [] {p} h few s = record {
  next = p;
  is = rw (no_operand rest h s) refl;
  shows = s;
  kept = refl;
}
operands_back {rest} (suc fuel) (o ∷ os) h few s =
    more_back (suc fuel) [] o os h (omega (arith, few))
      (rw (sym (append_assoc (operand_lexemes o) (more_lexemes os) rest)) s)

-- Where the decoder goes on, the parser does.
both_checked :
    {b : Bool} {m : CoreResult (Unit {0})} {k : AsmResult (Unit {0})} (c : Bool)
    (f : AsmResult (Unit {0}))
    → b ≡ c
    → (do guard b operand_cannot_be_used; m) ≡ ok tt
    → (m ≡ ok tt → k ≡ ok tt)
    → (if c then k else f) ≡ ok tt
both_checked true f e h next = next (rw e at h)
both_checked false f e h next = let h' = rw e at h in cc

-- The checks of the decoder are those of the parser.
pub check_back :
    (name : Text) (i : ℕ) (es : List OperandMode) (os : List Operand) (p : Parser)
    → check_modes es (map as_core os) ≡ ok tt
    → check_operands name i es os p ≡ ok tt
unfolding check_operands check_modes
check_back name i [] os p h = refl
check_back name i (e ∷ es) [] p h = refl
check_back name i (e ∷ es) (o ∷ os) p h =
    both_checked (can_be_used_as (mode o) e) (fail (wrong_operand_mode name (i + 1) e) p)
      (ap (λ m. can_be_used_as m e) (mode-as_core o)) h λ h'. check_back name (suc i) es os p h'
