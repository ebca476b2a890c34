-- ===== src/Assembler/Parser/Refusal.antt =====
-- src/assembler/parser.rs: opcodes with a wrong number of operands.
use lakesis.Base.{
  ◌≢◌, ◌+◌, ◌-◌, ==-eq-false, ℕ, zero, suc, ◌<◌, ◌≡◌, refl, ap, List, [], ◌∷◌, ◌++◌, map, arith,
  length, length-append,
}
use lakesis.Base.Distinct.{All}
use lakesis.Base.Result.{err}
use lakesis.Opcodes.Instruction.{Instruction, descriptor}
use lakesis.Assembler.Lexeme.{LexerToken, LexerTokenValue}
use lakesis.Assembler.Token.{TokenValue, opcode, Operand}
use lakesis.Assembler.Parser.{fail, Parser, parser_new}
use lakesis.Assembler.Parser.View.{IsNegatable, Sees-range}
use lakesis.Assembler.Parser.Statements.{
  expect_instruction, parse_opcode, parse_statement, parse_single, parse_loop, parse,
}
use lakesis.Assembler.Parser.Checked.{Sees-new}
use lakesis.Assembler.Parser.Safety.{IsChecked}
use lakesis.Assembler.Parser.Printed.{
  operands_lexemes, lexemes, program_lexemes, Shows, Shows-peek, Shows-peek_full, Shows-start,
  Shows-not_eof, Shows-behind, Shows-consume,
}
use lakesis.Assembler.Parser.OperandsBack.{operands_back}
use lakesis.Assembler.Parser.StatementsBack.{
  single_back, lexemes-Stops, some_lexeme, Shows-length, length-operands_lexemes,
}
use lakesis.Assembler.Parser.RoundTrip.{length-lexemes}
use lakesis.Assembler.Report.{FileRange, Message, wrong_operand_count}

-- The loop passes checked statements.
pub loop_pass :
    (fuel rest : ℕ) (vs ws : List TokenValue) {p : Parser}
    → fuel ≡ length vs + rest
    → All IsChecked vs
    → Shows p (program_lexemes (vs ++ ws))
    → (q : Parser) × (parse_loop fuel p ≡ parse_loop rest q) × Shows q (program_lexemes ws)
unfolding parse_loop
loop_pass fuel rest [] ws {p} e c s =
    let same : fuel ≡ rest = omega (arith, e) in (p, ap (λ n. parse_loop n p) same, s)
loop_pass zero rest (v ∷ vs) ws e c s = absurd (omega (arith, e))
loop_pass (suc fuel) rest (v ∷ vs) ws {p} e c s =
    let (w, us, starts) = some_lexeme v (program_lexemes (vs ++ ws)) in
    let s' : Shows p (lexemes v ++ program_lexemes (vs ++ ws)) = s in
    let s₁ = rw starts at s' in
    let (t, peeked) = Shows-peek_full s₁ in
    let m = single_back (lexemes-Stops (vs ++ ws)) v c.0 (Shows-start t.range.start s') in
    let (q, is, shows) = loop_pass fuel rest vs ws (omega (arith, e)) c.1 m.shows in
    (q, rw (Shows-not_eof s₁, peeked, m.is) is, shows)

abbrev pub count_error : Instruction → List Operand → Message
count_error i os =
    wrong_operand_count (descriptor i).mnemonic (length (descriptor i).operands) (length os)

pub fails :
    {A : Type 0} {p : Parser} {vs : List LexerTokenValue} (m : Message)
    → Shows p vs
    → (r : FileRange) × (fail {A = A} m p ≡ err (record { message = m; range = r }))
unfolding fail
fails m s = let (r, e) = Sees-range s.sees in (r, rw e refl)

pub opcode_refused :
    (i : Instruction) (os : List Operand) (ws : List TokenValue) {p : Parser}
    → length (descriptor i).operands ≢ length os
    → Shows p (program_lexemes (opcode i os ∷ ws))
    → (r : FileRange) × (parse_single p ≡ err (record { message = count_error i os; range = r }))
unfolding parse_single parse_statement parse_opcode expect_instruction
opcode_refused i os ws {p} wrong s =
    let few : length os < length p.inputs = omega (
      arith,
      length-operands_lexemes os,
      length-append (operands_lexemes os) (program_lexemes ws),
      Shows-length s,
    ) in
    let g = operands_back (length p.inputs) os (lexemes-Stops ws) few (Shows-behind s) in
    let (r, e) = fails {A = Parser} (count_error i os) g.shows in
    (r, rw (Shows-peek s, Shows-peek s, Shows-consume s, g.is, ==-eq-false _ _ wrong) e)

-- Where the tokens stand for checked statements, then an opcode whose number of operands is not that
-- of its instruction, and then any statements, with no number -2 ^ 63, the parser gives the error about that number.
pub parse-wrong_operand_count :
    (vs : List TokenValue) (i : Instruction) (os : List Operand) (ws : List TokenValue)
    (ts : List LexerToken)
    → map (λ t. t.value) ts ≡ program_lexemes (vs ++ opcode i os ∷ ws)
    → All (λ t. IsNegatable t.value) ts
    → All IsChecked vs
    → length (descriptor i).operands ≢ length os
    → (r : FileRange) × (parse ts
        ≡ err (record {
          message =
              wrong_operand_count
                (descriptor i).mnemonic
                (length (descriptor i).operands)
                (length os);
          range = r;
        }))
unfolding parse parser_new parse_loop
parse-wrong_operand_count vs i os ws [] h n c wrong = absurd (
    omega (
      arith,
      length-lexemes (vs ++ opcode i os ∷ ws),
      length-append vs (opcode i os ∷ ws),
      ap length h,
    ))
parse-wrong_operand_count vs i os ws (t ∷ ts) h n c wrong =
    let s : Shows (parser_new (t ∷ ts)) (program_lexemes (vs ++ opcode i os ∷ ws)) = record {
      ahead = t ∷ ts;
      sees = Sees-new t ts n;
      values = h;
    } in
    let enough : length (t ∷ ts) ≡ length vs + suc (length ts - length vs) = omega (
      arith,
      length-lexemes (vs ++ opcode i os ∷ ws),
      length-append vs (opcode i os ∷ ws),
      Shows-length s,
    ) in
    let (q, is, shows) =
      loop_pass (length (t ∷ ts)) (suc (length ts - length vs)) vs (opcode i os ∷ ws) enough c s in
    let (u, peeked) = Shows-peek_full shows in
    let (r, e) = opcode_refused i os ws wrong (Shows-start u.range.start shows) in
    (r, rw (is, Shows-not_eof shows, peeked, e) refl)
