-- ===== src/Assembler/Parser/Disassembly.antt =====
-- From accepted tokens through the encoder to the disassembler.
use lakesis.Base.{◌<◌, ◌≡◌, List, [], ◌∷◌, map, arith, length}
use lakesis.Base.Distinct.{All}
use lakesis.Base.Result.{ok, Returns-ok}
use lakesis.Opcodes.Instruction.{Instruction, descriptor, no_operation}
use lakesis.Opcodes.Cursor.{disassemble}
use lakesis.Assembler.Lexeme.{LexerToken}
use lakesis.Assembler.Output.{Output, empty}
use lakesis.Assembler.Encoder.{encode}
use lakesis.Assembler.Encoder.Write.{ArePlain}
use lakesis.Assembler.Encoder.Program.{Line, AreWellFormed, token_of, opcode_of, disassemble-encode}
use lakesis.Assembler.Parser.View.{IsNegatable}
use lakesis.Assembler.Parser.Statements.{parse}
use lakesis.Assembler.Parser.Safety.{AreChecked}
use lakesis.Assembler.Parser.Checked.{parse-AreChecked}

operands-lt : (i : Instruction) → length (descriptor i).operands < 4
unfolding descriptor
operands-lt no_operation = omega arith
operands-lt _ = omega arith

AreChecked-AreWellFormed :
    (ls : List Line)
    → AreChecked (map token_of ls)
    → All (λ l. ArePlain l.operands) ls
    → AreWellFormed ls
AreChecked-AreWellFormed [] c p = tt
AreChecked-AreWellFormed (l ∷ ls) ((count, modes), cs) (p, ps) = (
  record {
    few = omega (arith, operands-lt l.instruction);
    plain = p;
    count = count;
    modes = modes;
  },
  AreChecked-AreWellFormed ls cs ps,
)

-- If the parser accepts tokens, without the number -2 ^ 63, as opcodes whose operands are registers
-- below four, values of at most 56 bits and no labels, then encoding them succeeds, and the bytes
-- are disassembled into the same opcodes in the same order.
pub disassemble-encode-parse :
    (ts : List LexerToken) (ls : List Line)
    → All (λ t. IsNegatable t.value) ts
    → parse ts ≡ ok (map token_of ls)
    → All (λ l. ArePlain l.operands) ls
    → (o : Output) × (encode (map token_of ls) empty ≡ ok o)
      × (disassemble o.bytes ≡ ok (map opcode_of ls))
disassemble-encode-parse ts ls n accepted plain =
    disassemble-encode ls
      (AreChecked-AreWellFormed ls (Returns-ok (parse-AreChecked ts n) accepted) plain)
