-- ===== src/CommandLine.antt =====
-- src/main.rs: the verbs of the command line, over the files of the standard library.
pub mod Compose
use lakesis.Base.{ℕ, List, [], ◌∷◌, ◌++◌, Option, drop, if◌then◌else◌}
use lakesis.Base.Text.{Text, codes, text_eq}
use lakesis.Base.Result.{Result, ok, err, panic, ◌>>=◌, ◌>>◌}
use lakesis.Core.{CoreResult}
use lakesis.Opcodes.Decode.{Opcode}
use lakesis.Opcodes.Cursor.{view}
use lakesis.Assembler.Report
use lakesis.Assembler.Report.{AsmResult}
use lakesis.Assembler.Lexer.Words.{Classes}
use lakesis.Assembler.Output.{Output, empty, seek}
use lakesis.Assembler.Assemble
use lakesis.Interpreter.Run
use lakesis.Interpreter.Run.{Trace}

-- What the commands need of the standard library: files by their paths, in a state `W`, with errors `E`,
-- and texts. `file_len` is the length that `metadata` gives; `create_file` makes an empty file, and `write_all` gives the file its contents.
pub record Platform (W E : Type 0) : Type 0 where
  pub open_file : Text → W → Result E (Unit {0})
  pub file_len : Text → W → Result E ℕ
  pub create_file : Text → W → Result E W
  pub read_to_end : Text → W → Result E (List ℕ)
  pub write_all : Text → List ℕ → W → Result E W
  pub with_extension : Text → Text → Text
  pub from_utf8_lossy : List ℕ → Text
  pub classes : Classes

-- The errors that end the program.
pub data CommandError (E : Type 0) : Type 0 where
  file_error : E → CommandError E
  assembler_error : Report.Error → CommandError E
  expected_exactly_1_argument expected_1_or_2_arguments expected_1_argument : CommandError E

-- What a command does that its files and its source let begin: print a listing, up to an opcode that is
-- refused with an error, or the help, write files, or run a program, for a number of steps, whose trace
-- has the error that it may end with. What a failing command leaves in files is not kept.
pub data Done (W : Type 0) : Type 0 where
  viewed : List (ℕ × Opcode) → CoreResult (Unit {0}) → Done W
  assembled : W → Done W
  ran : Option Trace → Done W
  helped : Text → Done W

module _ {W E : Type 0} (p : Platform W E) where
  -- The `?` operator on an error of a file and of the assembler.
  unfoldable pub on_file : {A : Type 0} → Result E A → Result (CommandError E) A
  on_file (ok a) = ok a
  on_file (err e) = err (file_error e)
  on_file panic = panic

  unfoldable pub on_source : {A : Type 0} → AsmResult A → Result (CommandError E) A
  on_source (ok a) = ok a
  on_source (err e) = err (assembler_error e)
  on_source panic = panic

  unfoldable pub disassemble : List Text → W → Result (CommandError E) (Done W)
  disassemble (path ∷ []) w = do
    on_file (p.open_file path w)
    _ ← on_file (p.file_len path w)
    bytes ← on_file (p.read_to_end path w)
    let (lines, end) = view bytes
    ok (viewed lines end)
  disassemble _ w = err expected_exactly_1_argument

  -- The result is created before the source is read.
  unfoldable pub assemble_to : Text → Text → W → Result (CommandError E) (Done W)
  assemble_to source_path result_path w = do
    on_file (p.open_file source_path w)
    w₁ ← on_file (p.create_file result_path w)
    source ← on_file (p.read_to_end source_path w₁)
    o ← on_source (Assemble.assemble p.classes (p.from_utf8_lossy source) empty)
    w₂ ← on_file (p.write_all result_path o.bytes w₁)
    ok (assembled w₂)

  unfoldable pub assemble : List Text → W → Result (CommandError E) (Done W)
  assemble (source_path ∷ []) w =
      assemble_to source_path (p.with_extension source_path (codes "bin")) w
  assemble (source_path ∷ result_path ∷ []) w = assemble_to source_path result_path w
  assemble _ w = err expected_1_or_2_arguments

  unfoldable pub run : ℕ → (ℕ → ℕ) → List Text → W → Result (CommandError E) (Done W)
  run steps randoms (path ∷ []) w = do
    on_file (p.open_file path w)
    program_data ← on_file (p.read_to_end path w)
    ok (ran (Run.run steps randoms program_data))
  run steps randoms _ w = err expected_1_argument

  -- The program is read from the position of the cursor on.
  unfoldable pub assemble_and_run : ℕ → (ℕ → ℕ) → List Text → W → Result (CommandError E) (Done W)
  assemble_and_run steps randoms (path ∷ []) w = do
    on_file (p.open_file path w)
    source ← on_file (p.read_to_end path w)
    o ← on_source (Assemble.assemble p.classes (p.from_utf8_lossy source) empty)
    let program_data = seek 0 o
    ok (ran (Run.run steps randoms (drop program_data.position program_data.bytes)))
  assemble_and_run steps randoms _ w = err expected_1_argument

-- A line and its end.
unfoldable pub line : Text → Text
line t = t ++ 10 ∷ []

-- What `print_help` prints; `name` is the first argument of the program, or lakesis.
unfoldable pub help_text : Text → Text
help_text name =
    line (name ++ codes " help")
    ++ line (codes "\tPrints this message")
    ++ line []
    ++ line (name ++ codes " asm <source> [output]")
    ++ line (codes "\tCompiles an assembly source code file to an executable")
    ++ line (codes "\tsource: Path of the file containing the assembly source code")
    ++ line (codes "\toutput: Path of the file where the executable will be written to.")
    ++ line (codes "\t        If not specified, uses the same file as 'source' but with a")
    ++ line (codes "\t        .bin extension")
    ++ line []
    ++ line (name ++ codes " view <file>")
    ++ line (codes "\tDisassembles an executable and displays its code")
    ++ line (codes "\tfile: Path of the file to disassemble")
    ++ line []
    ++ line (name ++ codes " run <file>")
    ++ line (codes "\tRuns a compiled executable")
    ++ line (codes "\tfile: Path of the executable to run")
    ++ line []
    ++ line (name ++ codes " runasm <file>")
    ++ line (codes "\tCompiles an assembly source file and immediately runs it")
    ++ line (codes "\tfile: Path of the assembly source code to compile and run")
    ++ line []

unfoldable pub print_help : {W E : Type 0} → List Text → Result (CommandError E) (Done W)
print_help [] = ok (helped (help_text (codes "lakesis")))
print_help (name ∷ raw_args) = ok (helped (help_text name))

-- `raw_args.get(1)`, or the empty text, and `raw_args[2..]`, or nothing.
unfoldable pub verb_of : List Text → Text
verb_of (name ∷ verb ∷ args) = verb
verb_of _ = []

unfoldable pub args_of : List Text → List Text
args_of (name ∷ verb ∷ args) = args
args_of _ = []

unfoldable pub main :
    {W E : Type 0} → Platform W E → ℕ → (ℕ → ℕ) → List Text → W → Result (CommandError E) (Done W)
main p steps randoms raw_args w =
    let verb = verb_of raw_args in
    let args = args_of raw_args in
    if text_eq verb (codes "view")
    then disassemble p args w
    else if text_eq verb (codes "asm")
    then assemble p args w
    else if text_eq verb (codes "run")
    then run p steps randoms args w
    else if text_eq verb (codes "runasm")
    then assemble_and_run p steps randoms args w
    else print_help raw_args
