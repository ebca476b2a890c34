-- ===== src/Interpreter/Run/Assembled.antt =====
-- From the source of a program through the assembler to the interpreter.
use mathlib.Core.Path.{subst}
use lakesis.Base.{ℕ, ◌≡◌, sym, ◌⊎◌, true, List, [], ◌∷◌, map, length}
use lakesis.Base.Distinct.{All}
use lakesis.Base.Result.{ok, ◌>>=◌}
use lakesis.Opcodes.Instruction.{halt}
use lakesis.Opcodes.Decode.{Opcode}
use lakesis.Opcodes.Cursor.{listing, disassemble}
use lakesis.Opcodes.Cursor.Lines.{listing-disassemble}
use lakesis.Assembler.Lexer.Words.{Classes}
use lakesis.Assembler.Lexer.Single.{lex}
use lakesis.Assembler.Lexer.Multiplier.{lacks_multiplier}
use lakesis.Assembler.Parser.Statements.{parse}
use lakesis.Assembler.Output.{Output, empty}
use lakesis.Assembler.Encoder.Write.{ArePlain}
use lakesis.Assembler.Encoder.Program.{Line, token_of, opcode_of}
use lakesis.Assembler.Assemble.{assemble, disassemble-assemble}
use lakesis.Interpreter.Cpu.{Interpreter}
use lakesis.Interpreter.Run.{run_loop}
use lakesis.Interpreter.Run.Fetch.{HoldsCode, at}
use lakesis.Interpreter.Run.Straight.{IsStraight}
use lakesis.Interpreter.Run.Listing.{execute_lines, run_loop-listing}

All-of_map {ℓ κ} :
    {A B : Type ℓ} (f : A → B) (P : B → Type κ) (xs : List A)
    → All P (map f xs)
    → All (λ x. P (f x)) xs
All-of_map f P [] h = tt
All-of_map f P (x ∷ xs) (p, ps) = (p, All-of_map f P xs ps)

abbrev pub ComputesOrHalts : Opcode → Type 0
ComputesOrHalts op = IsStraight op ⊎ (op.instruction ≡ halt)

-- Let a source, in which no w stands behind a decimal digit with nothing but hexadecimal digits,
-- underscores and x's between them, be lexed and parsed as opcodes whose operands are registers below four, values of at most 56 bits and
-- no labels, and which compute in registers or halt, and let it be assembled into bytes. Then the bytes
-- are listed as these opcodes in the order of the source, and a machine in whose memory they stand, run
-- from the first byte for as many steps as there are lines, executes the lines in this order, each with
-- the instruction pointer at the position printed with it, up to one that halts or fails.
pub run_loop-assemble :
    (classes : Classes) (source : List ℕ) (ls : List Line) (o : Output) (addr : ℕ) (randoms : ℕ → ℕ)
    (i : Interpreter)
    → lacks_multiplier source ≡ true
    → (do ts ← lex classes source; parse ts) ≡ ok (map token_of ls)
    → All (λ l. ArePlain l.operands) ls
    → All ComputesOrHalts (map opcode_of ls)
    → assemble classes source empty ≡ ok o
    → HoldsCode i.memory addr o.bytes
    → (lines : List (ℕ × Opcode)) × (listing o.bytes ≡ ok lines)
      × (map (λ l. l.1) lines ≡ map opcode_of ls)
      × (run_loop (length lines) randoms 0 (at addr i) ≡ execute_lines addr randoms 0 lines i)
run_loop-assemble classes source ls o addr randoms i lacks accepted plain straight assembled held =
    let (o', assembled', back) = disassemble-assemble classes source ls lacks accepted plain in
    let same : o' ≡ o = cc in
    let (lines, listed, ops) =
      listing-disassemble o.bytes
        (subst (λ x. disassemble x.bytes ≡ ok (map opcode_of ls)) same back) in
    (
      lines,
      listed,
      ops,
      run_loop-listing addr o.bytes randoms 0 lines i held listed (
          All-of_map (λ l. l.1) ComputesOrHalts lines
            (subst (All ComputesOrHalts) (sym ops) straight)),
    )
