-- ===== src/Assembler/Parser/Checked.antt =====
-- src/assembler/parser.rs: the loop over the statements, panics, and what the encoder is given.
use lakesis.Base.{ℕ, zero, suc, ◌≤◌, refl, List, [], ◌∷◌, arith, length}
use lakesis.Base.Distinct.{All}
use lakesis.Base.Result.{Returns, value, Returns-bind}
use lakesis.Assembler.Report.{FilePosition}
use lakesis.Assembler.Lexeme.{LexerToken}
use lakesis.Assembler.Parser.{Parser, parser_new, is_eof}
use lakesis.Assembler.Parser.View.{IsNegatable, Sees, Sees-peek_full, Sees-is_eof, Sees-not_eof}
use lakesis.Assembler.Parser.Statements.{parse_loop, parse}
use lakesis.Assembler.Parser.Safety.{AreChecked, single-Returns}

Sees-start :
    {p : Parser} {ts : List LexerToken} (f : FilePosition)
    → Sees p ts
    → Sees (record p { token_start = f }) ts
Sees-start f s = record { left = s.left; some_input = s.some_input; negatable = s.negatable }

loop-Returns :
    (fuel : ℕ) {p : Parser} (ts : List LexerToken)
    → Sees p ts
    → AreChecked p.outputs
    → length ts ≤ fuel
    → Returns (λ p'. AreChecked p'.outputs) (parse_loop fuel p)
unfolding parse_loop
loop-Returns zero [] s all h = rw (Sees-is_eof s) (value all)
loop-Returns zero (t ∷ ts) s all h = absurd (omega arith)
loop-Returns (suc fuel) [] s all h = rw (Sees-is_eof s) (value all)
loop-Returns (suc fuel) (t ∷ ts) s all h =
    rw (Sees-not_eof s, Sees-peek_full s)
      (Returns-bind (single-Returns (Sees-start t.range.start s) all)
        λ p' st. loop-Returns fuel st.ahead st.sees st.checked (omega (arith, st.few)))

pub Sees-new :
    (t : LexerToken) (ts : List LexerToken)
    → All (λ u. IsNegatable u.value) (t ∷ ts)
    → Sees (parser_new (t ∷ ts)) (t ∷ ts)
unfolding parser_new
Sees-new t ts n = record { left = refl; some_input = omega arith; negatable = n }

-- On any tokens without the number -2 ^ 63 the parser does not panic and its loops end. If it accepts the tokens, every opcode that it gives has the operands that the
-- decoder wants of its instruction, and every alignment is at least two.
pub parse-AreChecked :
    (ts : List LexerToken) → All (λ t. IsNegatable t.value) ts → Returns AreChecked (parse ts)
unfolding parse
parse-AreChecked [] n = unfold parse_loop parser_new is_eof in value tt
parse-AreChecked (t ∷ ts) n =
    Returns-bind
      (loop-Returns (suc (length ts)) (t ∷ ts) (Sees-new t ts n) (unfold parser_new in tt)
        (omega arith))
      λ p all. value all
