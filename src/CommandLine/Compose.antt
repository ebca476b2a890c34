-- ===== src/CommandLine/Compose.antt =====
-- The commands of src/main.rs one after the other, and on the same file.
use mathlib.Core.Path.{subst}
use lakesis.Base.{ℕ, ◌≡◌, refl, sym, ap, ◌∙◌, Bool, true, false, List, [], ◌∷◌, length, map}
use lakesis.Base.Text.{Text}
use lakesis.Base.Result.{Result, ok, err, panic, ◌>>=◌, >>=-eq-ok}
use lakesis.Assembler.Report.{AsmResult}
use lakesis.Assembler.Lexer.Words.{Classes}
use lakesis.Assembler.Output.{Output, empty}
use lakesis.Assembler.Assemble
use lakesis.Assembler.Assemble.{disassemble-assemble}
use lakesis.Assembler.Lexer.Single.{lex}
use lakesis.Assembler.Lexer.Multiplier.{lacks_multiplier}
use lakesis.Assembler.Parser.Statements.{parse}
use lakesis.Assembler.Encoder.Write.{ArePlain}
use lakesis.Assembler.Encoder.Program.{Line, token_of, opcode_of}
use lakesis.Base.Distinct.{All}
use lakesis.Opcodes.Decode.{Opcode}
use lakesis.Opcodes.Cursor
use lakesis.Opcodes.Cursor.Lines.{listing-disassemble, view-lines}
use lakesis.CommandLine.{
  Platform, assembled, on_file, on_source, assemble_to, assemble, run, assemble_and_run,
  disassemble, viewed,
}

-- What the standard library and the operating system promise of files: whether two paths lead to the same
-- file can be asked, a file that was created is empty and other files stay, and a file that was written
-- can be opened and has what was written, and its length.
pub record KeepsFiles {W E : Type 0} (p : Platform W E) : Type 0 where
  pub is_same_file : Text → Text → W → Bool
  pub read-create_same :
      (path : Text) (w w' : W) → p.create_file path w ≡ ok w' → p.read_to_end path w' ≡ ok []
  pub read-create_other :
      (path other : Text) (w w' : W)
      → is_same_file path other w ≡ false
      → p.create_file path w ≡ ok w'
      → p.read_to_end other w' ≡ p.read_to_end other w
  pub open-write :
      (path : Text) (bytes : List ℕ) (w w' : W)
      → p.write_all path bytes w ≡ ok w'
      → p.open_file path w' ≡ ok tt
  pub len-write :
      (path : Text) (bytes : List ℕ) (w w' : W)
      → p.write_all path bytes w ≡ ok w'
      → p.file_len path w' ≡ ok (length bytes)
  pub read-write :
      (path : Text) (bytes : List ℕ) (w w' : W)
      → p.write_all path bytes w ≡ ok w'
      → p.read_to_end path w' ≡ ok bytes

pub assemble-nothing : (classes : Classes) → Assemble.assemble classes [] empty ≡ ok empty
unfolding Assemble.assemble lakesis.Assembler.Lexer.Single.lex
    lakesis.Assembler.Lexer.Single.lex_loop lakesis.Assembler.Lexer.is_eof
    lakesis.Assembler.Lexer.lexer_new lakesis.Assembler.Lexer.from_buffer
    lakesis.Assembler.Parser.Statements.parse lakesis.Assembler.Parser.Statements.parse_loop
    lakesis.Assembler.Parser.is_eof lakesis.Assembler.Parser.parser_new
    lakesis.Assembler.Encoder.encode lakesis.Assembler.Encoder.encode_tokens
    lakesis.Assembler.Encoder.fixup lakesis.Assembler.Encoder.encoder_new
assemble-nothing classes = refl

module _ {W E : Type 0} (p : Platform W E) (k : KeepsFiles p) where
  on_file-eq-ok : {A : Type 0} (r : Result E A) {a : A} → on_file p r ≡ ok a → r ≡ ok a
  unfolding on_file
  on_file-eq-ok (ok b) h = cc
  on_file-eq-ok (err e) h = cc
  on_file-eq-ok panic h = cc

  on_file-ok : {A : Type 0} (r : Result E A) {a : A} → r ≡ ok a → on_file p r ≡ ok a
  unfolding on_file
  on_file-ok r h = rw h refl

  -- The parts of an assembly that succeeds.
  record Assembly (source result : Text) (w w' : W) : Type 0 where
    opened : on_file p (p.open_file source w) ≡ ok tt
    created : W
    creating : p.create_file result w ≡ ok created
    bytes : List ℕ
    reading : p.read_to_end source created ≡ ok bytes
    output : Output
    assembling : Assemble.assemble p.classes (p.from_utf8_lossy bytes) empty ≡ ok output
    writing : p.write_all result output.bytes created ≡ ok w'

  on_source-eq-ok : {A : Type 0} (r : AsmResult A) {a : A} → on_source p r ≡ ok a → r ≡ ok a
  unfolding on_source
  on_source-eq-ok (ok b) h = cc
  on_source-eq-ok (err e) h = cc
  on_source-eq-ok panic h = cc

  assembly :
      (source result : Text) (w w' : W)
      → assemble p (source ∷ result ∷ []) w ≡ ok (assembled w')
      → Assembly source result w w'
  unfolding assemble assemble_to
  assembly source result w w' done =
      let (u, opened, h₁) = >>=-eq-ok (on_file p (p.open_file source w)) _ done in
      let (w₁, created, h₂) = >>=-eq-ok (on_file p (p.create_file result w)) _ h₁ in
      let (bytes, read, h₃) = >>=-eq-ok (on_file p (p.read_to_end source w₁)) _ h₂ in
      let (o, asm, h₄) =
        >>=-eq-ok (on_source p (Assemble.assemble p.classes (p.from_utf8_lossy bytes) empty)) _
          h₃ in
      let (w₂, written, h₅) = >>=-eq-ok (on_file p (p.write_all result o.bytes w₁)) _ h₄ in
      let last : w₂ ≡ w' = cc in
      record {
        opened = opened;
        created = w₁;
        creating = on_file-eq-ok _ created;
        bytes = bytes;
        reading = on_file-eq-ok _ read;
        output = o;
        assembling = on_source-eq-ok _ asm;
        writing = on_file-eq-ok _ written ∙ ap ok last;
      }

  -- Let a source be assembled into a path that does not lead to the same file. Then running what was
  -- written is running the source at once, for the same steps and random numbers.
  pub assemble_and_run-assemble :
      (steps : ℕ) (randoms : ℕ → ℕ) (source result : Text) (w w' : W)
      → k.is_same_file result source w ≡ false
      → assemble p (source ∷ result ∷ []) w ≡ ok (assembled w')
      → assemble_and_run p steps randoms (source ∷ []) w ≡ run p steps randoms (result ∷ []) w'
  unfolding assemble_and_run run on_source lakesis.Assembler.Output.seek
  assemble_and_run-assemble steps randoms source result w w' other done =
      let a = assembly source result w w' done in
      let before : on_file p (p.read_to_end source w) ≡ ok a.bytes =
        on_file-ok _
          (sym (k.read-create_other result source w a.created other a.creating) ∙ a.reading) in
      let open_again : on_file p (p.open_file result w') ≡ ok tt =
        on_file-ok _ (k.open-write result a.output.bytes a.created w' a.writing) in
      let read_again : on_file p (p.read_to_end result w') ≡ ok a.output.bytes =
        on_file-ok _ (k.read-write result a.output.bytes a.created w' a.writing) in
      rw (a.opened, before, a.assembling, open_again, read_again) refl

  -- Let a source, in which no w stands behind a decimal digit with nothing but hexadecimal digits,
  -- underscores and x's between them, be lexed and parsed as opcodes whose operands are registers below
  -- four, values of at most 56 bits and no labels, and be assembled into a path that does not lead to the
  -- same file. Then viewing what was written prints these opcodes, in the order of the source, and ends
  -- without an error.
  pub disassemble-assemble_to :
      (source result : Text) (w w' : W) (bytes : List ℕ) (ls : List Line)
      → k.is_same_file result source w ≡ false
      → p.read_to_end source w ≡ ok bytes
      → lacks_multiplier (p.from_utf8_lossy bytes) ≡ true
      → (do ts ← lex p.classes (p.from_utf8_lossy bytes); parse ts) ≡ ok (map token_of ls)
      → All (λ l. ArePlain l.operands) ls
      → assemble p (source ∷ result ∷ []) w ≡ ok (assembled w')
      → (lines : List (ℕ × Opcode)) × (disassemble p (result ∷ []) w' ≡ ok (viewed lines (ok tt)))
        × (map (λ l. l.1) lines ≡ map opcode_of ls)
  unfolding disassemble
  disassemble-assemble_to source result w w' bytes ls other held lacks accepted plain done =
      let a = assembly source result w w' done in
      let read : ◌≡◌ {A = Result E (List ℕ)} (ok a.bytes) (ok bytes) =
        sym a.reading ∙ k.read-create_other result source w a.created other a.creating ∙ held in
      let same : a.bytes ≡ bytes = cc in
      let (o, encoded, back) =
        disassemble-assemble p.classes (p.from_utf8_lossy bytes) ls lacks accepted plain in
      let encoded' = rw same at a.assembling in
      let is : o ≡ a.output = cc in
      let (lines, listed, ops) =
        listing-disassemble a.output.bytes
          (subst (λ x. Cursor.disassemble x.bytes ≡ ok (map opcode_of ls)) is back) in
      let (printed, well) = view-lines a.output.bytes listed in
      let open_again : on_file p (p.open_file result w') ≡ ok tt =
        on_file-ok _ (k.open-write result a.output.bytes a.created w' a.writing) in
      let len_again : on_file p (p.file_len result w') ≡ ok (length a.output.bytes) =
        on_file-ok _ (k.len-write result a.output.bytes a.created w' a.writing) in
      let read_again : on_file p (p.read_to_end result w') ≡ ok a.output.bytes =
        on_file-ok _ (k.read-write result a.output.bytes a.created w' a.writing) in
      (lines, rw (open_again, len_again, read_again, printed, well) refl, ops)

  -- Assembling a file onto itself assembles the empty text: the source is lost, and the file is empty.
  pub assemble-same_file :
      (path : Text) (w w' : W)
      → p.from_utf8_lossy [] ≡ []
      → assemble p (path ∷ path ∷ []) w ≡ ok (assembled w')
      → p.read_to_end path w' ≡ ok []
  assemble-same_file path w w' no_text done =
      let a = assembly path path w w' done in
      let lost : ◌≡◌ {A = Result E (List ℕ)} (ok a.bytes) (ok []) =
        sym a.reading ∙ k.read-create_same path w a.created a.creating in
      let none_left : a.bytes ≡ [] = cc in
      let nothing : ◌≡◌ {A = AsmResult Output} (ok a.output) (ok empty) =
        sym a.assembling
        ∙ ap (λ b. Assemble.assemble p.classes (p.from_utf8_lossy b) empty) none_left
        ∙ ap (λ t. Assemble.assemble p.classes t empty) no_text
        ∙ assemble-nothing p.classes in
      let is : a.output ≡ empty = cc in
      k.read-write path a.output.bytes a.created w' a.writing ∙ ap (λ o. ok o.bytes) is
