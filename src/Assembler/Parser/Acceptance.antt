-- ===== src/Assembler/Parser/Acceptance.antt =====
-- src/assembler/parser.rs: which statements the parser accepts.
use lakesis.Base.{
  ◌⊎◌, ◌↔◌, inl, inr, Bool-cases, leb, ◌==◌, ==_iff, ◌+◌, ◌-◌, ℕ, suc, ◌<◌, ◌≡◌, refl, ap, List, [],
  ◌∷◌, ◌++◌, map, arith, length, length-append,
}
use lakesis.Base.Distinct.{All}
use lakesis.Base.Result.{err}
use lakesis.Opcodes.Instruction.{Instruction, descriptor}
use lakesis.Assembler.Lexeme.{LexerToken, LexerTokenValue}
use lakesis.Assembler.Token.{TokenValue, opcode, Operand}
use lakesis.Assembler.Parser.{fail, Parser, parser_new}
use lakesis.Assembler.Parser.View.{IsNegatable}
use lakesis.Assembler.Parser.Statements.{
  expect_instruction, parse_opcode, parse_statement, parse_single, parse_loop, parse,
}
use lakesis.Assembler.Parser.Checked.{Sees-new}
use lakesis.Assembler.Parser.Safety.{IsChecked}
use lakesis.Assembler.Parser.Printed.{
  operands_lexemes, lexemes, program_lexemes, Shows, Shows-peek, Shows-peek_full, Shows-start,
  Shows-not_eof, Shows-behind, Shows-consume,
}
use lakesis.Assembler.Parser.OperandsBack.{operands_back}
use lakesis.Assembler.Parser.StatementsBack.{
  lexemes-Stops, some_lexeme, Shows-length, length-operands_lexemes,
}
use lakesis.Assembler.Parser.RoundTrip.{length-lexemes}
use lakesis.Assembler.Report.{Message}
use lakesis.Base.Text.{Text}
use lakesis.Base.Result.{ok, err}
use lakesis.Opcodes.Mode.{OperandMode, can_be_used_as}
use lakesis.Opcodes.Decode.{check_modes}
use lakesis.Assembler.Encoder.Operands.{as_core}
use lakesis.Assembler.Report.{AsmResult, Message, Error, alignment_too_small, wrong_operand_mode}
use lakesis.Assembler.Token.{Token, label_definition, string, align, define}
use lakesis.Assembler.Parser.{mode, check_operands, expect_number}
use lakesis.Assembler.Parser.Statements.{
  parse_directive, expect_directive, parse_arguments, parse_directive_align, is_at_most_one,
}
use lakesis.Assembler.Parser.Safety.{mode-as_core}
use lakesis.Assembler.Parser.Printed.{Shows-consume_or_error}
use lakesis.Assembler.Parser.Refusal.{count_error, fails, opcode_refused, loop_pass}
use lakesis.Assembler.Parser.RoundTrip.{parse-program_lexemes}

-- A call that gives an error.
abbrev IsRefused : {A : Type 0} → AsmResult A → Type 0
IsRefused m = (e : Error) × (m ≡ err e)

-- The modes of the operands fit, or the parser says that they do not.
modes_or_IsRefused :
    (es : List OperandMode) (os : List Operand)
    → (check_modes es (map as_core os) ≡ ok tt)
      ⊎ ((name : Text) (i : ℕ) (p : Parser) (vs : List LexerTokenValue)
          → Shows p vs
          → IsRefused (check_operands name i es os p))
unfolding check_modes check_operands
modes_or_IsRefused [] os = inl refl
modes_or_IsRefused (e ∷ es) [] = inl refl
modes_or_IsRefused (e ∷ es) (o ∷ os) = elim (Bool-cases (can_be_used_as (mode o) e)) [
  | inl fit ↦ elim (modes_or_IsRefused es os) [
    | inl rest ↦ inl (rw (mode-as_core o, fit) rest)
    | inr bad ↦ inr (λ name i p vs s. rw fit (bad name (suc i) p vs s))
  ]
  | inr unfit ↦ inr (λ name i p vs s. rw unfit (refused (wrong_operand_mode name (i + 1) e) s))
]
  where
    refused :
        {p : Parser} {vs : List LexerTokenValue} (m : Message)
        → Shows p vs
        → IsRefused (fail {A = Unit {0}} m p)
    refused m s = let (r, e') = fails {A = Unit {0}} m s in (record { message = m; range = r }, e')

-- The parser refuses a statement, whatever statements follow.
abbrev Refuses : TokenValue → Type 0
Refuses v =
    (ws : List TokenValue) (p : Parser)
    → Shows p (lexemes v ++ program_lexemes ws)
    → IsRefused (parse_single p)

operands_few :
    {i : Instruction} (os : List Operand) (ws : List TokenValue) {p : Parser}
    → Shows p (lexemes (opcode i os) ++ program_lexemes ws)
    → length os < length p.inputs
operands_few os ws s = omega (
  arith,
  length-operands_lexemes os,
  length-append (operands_lexemes os) (program_lexemes ws),
  Shows-length s,
)

opcode-IsChecked :
    (i : Instruction) (os : List Operand) → IsChecked (opcode i os) ⊎ Refuses (opcode i os)
unfolding parse_single parse_statement parse_opcode expect_instruction
opcode-IsChecked i os = elim (Bool-cases (length (descriptor i).operands == length os)) [
  | inl same ↦ elim (modes_or_IsRefused (descriptor i).operands os) [
    | inl fit ↦ inl ((==_iff _ _).0 same, fit)
    | inr bad ↦ inr (λ ws p s.
        let few : length os < length p.inputs = operands_few os ws s in
        let g = operands_back (length p.inputs) os (lexemes-Stops ws) few (Shows-behind s) in
        let (e, is) = bad (descriptor i).mnemonic 0 g.next (program_lexemes ws) g.shows in
        (e, rw (Shows-peek s, Shows-peek s, Shows-consume s, g.is, same, is) refl))
  ]
  | inr other ↦ inr (λ ws p s.
      let (r, e) = opcode_refused i os ws (λ same. let h = (==_iff _ _).1 same in cc) s in
      (record { message = count_error i os; range = r }, e))
]

align-IsChecked : (n : ℕ) → IsChecked (align n) ⊎ Refuses (align n)
unfolding parse_single parse_statement parse_directive expect_directive parse_arguments
    parse_directive_align expect_number is_at_most_one
align-IsChecked n = elim (Bool-cases (leb n 1)) [
  | inl small ↦ inr (λ ws p s.
      let s₁ = Shows-behind s in
      let (r, e) = fails {A = Parser} alignment_too_small s₁ in
      (
        record { message = alignment_too_small; range = r },
        rw (Shows-peek s, Shows-peek s, Shows-consume_or_error s, Shows-peek s₁, small) e,
      ))
  | inr big ↦ inl (ground arith)
]

IsChecked-or_refused : (v : TokenValue) → IsChecked v ⊎ Refuses v
IsChecked-or_refused (label_definition l) = inl tt
IsChecked-or_refused (string l text) = inl tt
IsChecked-or_refused (align n) = align-IsChecked n
IsChecked-or_refused (define l z) = inl tt
IsChecked-or_refused (opcode i os) = opcode-IsChecked i os

-- Statements are all checked, or there is a first one that is refused.
data FirstRefused (vs : List TokenValue) : Type 0 where
  first_refused :
      (us : List TokenValue) (v : TokenValue) (ws : List TokenValue)
      → vs ≡ us ++ v ∷ ws
      → All IsChecked us
      → Refuses v
      → FirstRefused vs

find_refused : (vs : List TokenValue) → All IsChecked vs ⊎ FirstRefused vs
find_refused [] = inl tt
find_refused (v ∷ vs) = elim (IsChecked-or_refused v) [
  | inr bad ↦ inr (first_refused [] v vs refl tt bad)
  | inl good ↦ elim (find_refused vs) [
    | inl all ↦ inl (good, all)
    | inr later ↦ inr (behind_checked v good later)
  ]
]
  where
    behind_checked : (v : TokenValue) → IsChecked v → FirstRefused vs → FirstRefused (v ∷ vs)
    behind_checked v good (first_refused us w ws e all bad) =
        first_refused (v ∷ us) w ws (ap (λ ts. v ∷ ts) e) (good, all) bad

-- Checked statements in front of one that is refused.
IsRefused-behind :
    (us : List TokenValue) (v : TokenValue) (ws : List TokenValue) (t : LexerToken)
    (ts : List LexerToken)
    → map (λ u. u.value) (t ∷ ts) ≡ program_lexemes (us ++ v ∷ ws)
    → All (λ u. IsNegatable u.value) (t ∷ ts)
    → All IsChecked us
    → Refuses v
    → IsRefused (parse (t ∷ ts))
unfolding parse parser_new parse_loop
IsRefused-behind us v ws t ts h n c bad =
    let s : Shows (parser_new (t ∷ ts)) (program_lexemes (us ++ v ∷ ws)) = record {
      ahead = t ∷ ts;
      sees = Sees-new t ts n;
      values = h;
    } in
    let enough : length (t ∷ ts) ≡ length us + suc (length ts - length us) =
      omega (arith, length-lexemes (us ++ v ∷ ws), length-append us (v ∷ ws), Shows-length s) in
    let (q, is, shows) =
      loop_pass (length (t ∷ ts)) (suc (length ts - length us)) us (v ∷ ws) enough c s in
    let (w, rest, starts) = some_lexeme v (program_lexemes ws) in
    let shows' : Shows q (lexemes v ++ program_lexemes ws) = shows in
    let s₁ = rw starts at shows' in
    let (u, peeked) = Shows-peek_full s₁ in
    let (e, refused) =
      bad ws (record q { token_start = u.range.start }) (Shows-start u.range.start shows') in
    (e, rw (is, Shows-not_eof s₁, peeked, refused) refl)

accepted-IsChecked :
    (vs : List TokenValue) (ts : List LexerToken) {out : List Token}
    → map (λ t. t.value) ts ≡ program_lexemes vs
    → All (λ t. IsNegatable t.value) ts
    → parse ts ≡ ok out
    → All IsChecked vs
accepted-IsChecked [] [] h n accepted = tt
accepted-IsChecked (v ∷ vs) [] h n accepted =
    absurd (omega (arith, length-lexemes (v ∷ vs), ap length h))
accepted-IsChecked vs (t ∷ ts) h n accepted = elim (find_refused vs) [
  | inl all ↦ all
  | inr (first_refused us v ws e c bad) ↦
      let h' = rw e at h in let (e', refused) = IsRefused-behind us v ws t ts h' n c bad in cc
]

-- Where the tokens have the values that stand for some statements, with no number -2 ^ 63, the parser accepts
-- them exactly if every opcode has the operands that the decoder wants of its instruction, and
-- every alignment is at least two.
pub parse-accepts_iff :
    (vs : List TokenValue) (ts : List LexerToken)
    → map (λ t. t.value) ts ≡ program_lexemes vs
    → All (λ t. IsNegatable t.value) ts
    → ((out : List Token) × (parse ts ≡ ok out)) ↔ All IsChecked vs
parse-accepts_iff vs ts h n = (
  λ (out, accepted). accepted-IsChecked vs ts h n accepted,
  λ c. let (out, is, _) = parse-program_lexemes vs ts h n c in (out, is),
)
