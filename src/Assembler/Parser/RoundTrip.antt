-- ===== src/Assembler/Parser/RoundTrip.antt =====
-- src/assembler/parser.rs: parsing the tokens of a program.
use lakesis.Base.{
  ℕ, zero, suc, ◌≤◌, ◌≡◌, refl, sym, ap, ◌∙◌, List, [], ◌∷◌, ◌++◌, map, arith, length, append_assoc,
  append-nil, length-append,
}
use lakesis.Base.Distinct.{All}
use lakesis.Base.Result.{ok}
use lakesis.Assembler.Lexeme.{LexerToken}
use lakesis.Assembler.Token.{Token, TokenValue}
use lakesis.Assembler.Parser.{Parser, parser_new, is_eof}
use lakesis.Assembler.Parser.View.{IsNegatable}
use lakesis.Assembler.Parser.Statements.{parse_loop, parse}
use lakesis.Assembler.Parser.Checked.{Sees-new}
use lakesis.Assembler.Parser.Safety.{IsChecked}
use lakesis.Assembler.Parser.Printed.{
  lexemes, program_lexemes, Shows, Shows-peek_full, Shows-start, Shows-not_eof, Shows-is_eof,
}
use lakesis.Assembler.Parser.StatementsBack.{
  values, single_back, lexemes-Stops, some_lexeme, Shows-length,
}

loop_back :
    (fuel : ℕ) (vs : List TokenValue) {p : Parser}
    → All IsChecked vs
    → length vs ≤ fuel
    → Shows p (program_lexemes vs)
    → (q : Parser) × (parse_loop fuel p ≡ ok q) × (values q.outputs ≡ values p.outputs ++ vs)
unfolding parse_loop
loop_back zero [] {p} c few s = (p, rw (Shows-is_eof s) refl, sym (append-nil _))
loop_back (suc fuel) [] {p} c few s = (p, rw (Shows-is_eof s) refl, sym (append-nil _))
loop_back zero (v ∷ vs) c few s = absurd (omega arith)
loop_back (suc fuel) (v ∷ vs) {p} c few s =
    let (w, ws, e) = some_lexeme v (program_lexemes vs) in
    let s₁ = rw e at s in
    let (t, peeked) = Shows-peek_full s₁ in
    let m = single_back (lexemes-Stops vs) v c.0 (Shows-start t.range.start s) in
    let (q, is, out) = loop_back fuel vs c.1 (omega arith) m.shows in
    (
      q,
      rw (Shows-not_eof s₁, peeked, m.is, is) refl,
      rw (out, m.outputs) (append_assoc (values p.outputs) (v ∷ []) vs),
    )

pub length-lexemes : (vs : List TokenValue) → length vs ≤ length (program_lexemes vs)
length-lexemes [] = omega arith
length-lexemes (v ∷ vs) =
    let (w, ws, e) = some_lexeme v [] in
    omega (
      arith,
      length-append (lexemes v) (program_lexemes vs),
      length-lexemes vs,
      ap length (sym (append-nil (lexemes v)) ∙ e),
    )

-- Where the tokens have the values that stand for some checked statements, with no number
-- -2 ^ 63, the parser gives these statements back, in their order.
pub parse-program_lexemes :
    (vs : List TokenValue) (ts : List LexerToken)
    → map (λ t. t.value) ts ≡ program_lexemes vs
    → All (λ t. IsNegatable t.value) ts
    → All IsChecked vs
    → (out : List Token) × (parse ts ≡ ok out) × (map (λ t. t.value) out ≡ vs)
unfolding parse parser_new
parse-program_lexemes [] [] h n c = unfold parse_loop is_eof in ([], refl, refl)
parse-program_lexemes (v ∷ vs) [] h n c =
    let (w, ws, e) = some_lexeme v (program_lexemes vs) in let h' = h ∙ e in cc
parse-program_lexemes vs (t ∷ ts) h n c =
    let s : Shows (parser_new (t ∷ ts)) (program_lexemes vs) = record {
      ahead = t ∷ ts;
      sees = Sees-new t ts n;
      values = h;
    } in
    let enough : length vs ≤ length (t ∷ ts) = omega (arith, length-lexemes vs, Shows-length s) in
    let (q, is, out) = loop_back (length (t ∷ ts)) vs c enough s in (q.outputs, rw is refl, out)
