-- ===== src/Assembler/Assemble.antt =====
-- src/assembler/mod.rs: `assemble`, from the characters of a source to an executable.
use lakesis.Base.{◌≡◌, true, List, map, ℕ}
use lakesis.Base.Distinct.{All}
use lakesis.Base.Result.{ok, ◌>>=◌, Returns-ok, >>=-eq-ok}
use lakesis.Opcodes.Cursor.{disassemble}
use lakesis.Assembler.Report.{AsmResult}
use lakesis.Assembler.Lexer.Words.{Classes}
use lakesis.Assembler.Lexer.Single.{lex}
use lakesis.Assembler.Lexer.Multiplier.{lacks_multiplier}
use lakesis.Assembler.Lexer.Safety.{lex-IsNegatable}
use lakesis.Assembler.Parser.Statements.{parse}
use lakesis.Assembler.Parser.Disassembly.{disassemble-encode-parse}
use lakesis.Assembler.Output.{Output, empty}
use lakesis.Assembler.Encoder.{encode}
use lakesis.Assembler.Encoder.Write.{ArePlain}
use lakesis.Assembler.Encoder.Program.{Line, token_of, opcode_of}

unfoldable pub assemble : Classes → List ℕ → Output → AsmResult Output
assemble classes source result = do
  lex_tokens ← lex classes source
  parse_tokens ← parse lex_tokens
  encode parse_tokens result

-- If a source, in which no w stands behind a decimal digit with nothing but hexadecimal digits,
-- underscores and x's between them, is lexed and parsed as opcodes whose operands are registers below
-- four, values of at most 56 bits and no labels, then assembling it succeeds, and the bytes are disassembled into the same opcodes in the same order.
pub disassemble-assemble :
    (classes : Classes) (source : List ℕ) (ls : List Line)
    → lacks_multiplier source ≡ true
    → (do ts ← lex classes source; parse ts) ≡ ok (map token_of ls)
    → All (λ l. ArePlain l.operands) ls
    → (o : Output) × (assemble classes source empty ≡ ok o)
      × (disassemble o.bytes ≡ ok (map opcode_of ls))
unfolding assemble
disassemble-assemble classes source ls lacks accepted plain =
    let (ts, lexed, parsed) = >>=-eq-ok (lex classes source) parse accepted in
    let (o, encoded, back) =
      disassemble-encode-parse ts ls (Returns-ok (lex-IsNegatable classes source lacks) lexed)
        parsed plain in
    (o, rw lexed (rw parsed encoded), back)
