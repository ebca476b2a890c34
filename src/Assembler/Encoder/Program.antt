-- ===== src/Assembler/Encoder/Program.antt =====
-- A program of opcodes is disassembled into what was assembled.
use lakesis.Base.{
  ℕ, zero, suc, ◌≤◌, ◌<◌, ◌≡◌, refl, sym, ap, ◌∙◌, List, [], ◌∷◌, ◌++◌, map, arith, length,
  length-append,
}
use lakesis.Base.Result.{ok}
use lakesis.Opcodes.Instruction.{Instruction, descriptor}
use lakesis.Opcodes.Decode.{Opcode, check_modes}
use lakesis.Opcodes.Cursor.{cursor_serves, disassemble, disassemble_loop}
use lakesis.Assembler.Token.{Token, opcode, Operand}
use lakesis.Assembler.Output.{Output, empty, write_all}
use lakesis.Assembler.Output.Append.{IsAtEnd, write_all-end, write_all-nil, write_all-write_all}
use lakesis.Assembler.Report.{FileRange}
use lakesis.Assembler.Encoder.{
  Encoder, encode, encode_tokens, encode_single, encode_value, encoder_new, fixup, fixup_loop,
  consume, is_eof, write,
}
use lakesis.Assembler.Encoder.Operands.{as_core}
use lakesis.Assembler.Encoder.Write.{
  ArePlain, operand_codes, opcode_code, encode_opcode-write, write-IsAtEnd,
}
use lakesis.Assembler.Encoder.RoundTrip.{decode-opcode_code}

-- An opcode of the assembler, with the place in the source where it stands.
pub record Line : Type 0 where
  pub instruction : Instruction
  pub operands : List Operand
  pub range : FileRange

abbrev pub token_of : Line → Token
token_of l = record { value = opcode l.instruction l.operands; range = l.range }

abbrev pub opcode_of : Line → Opcode
opcode_of l = record { instruction = l.instruction; operands = map as_core l.operands }

-- The operands are plain, and are what the instruction asks for.
pub record IsWellFormed (l : Line) : Type 0 where
  pub few : length l.operands < 4
  pub plain : ArePlain l.operands
  pub count : length (descriptor l.instruction).operands ≡ length l.operands
  pub modes : check_modes (descriptor l.instruction).operands (map as_core l.operands) ≡ ok tt

abbrev pub AreWellFormed : List Line → Type 0
AreWellFormed [] = Unit
AreWellFormed (l ∷ ls) = IsWellFormed l × AreWellFormed ls

pub code : List Line → List ℕ
code [] = []
code (l ∷ ls) = opcode_code l.instruction l.operands ++ code ls

-- An encoder that has made no fixup.
abbrev HasNoFixups : Encoder → Type 0
HasNoFixups e = e.fixups ≡ []

consume-output : (e : Encoder) → ((consume e).output ≡ e.output) × ((consume e).fixups ≡ e.fixups)
unfolding consume is_eof
consume-output e = ground arith

write-output :
    (c : List ℕ) (e : Encoder)
    → ((write c e).output ≡ write_all c e.output) × ((write c e).fixups ≡ e.fixups)
unfolding write
write-output c e = (refl, refl)

encode_single-opcode :
    (l : Line) (e : Encoder)
    → IsWellFormed l
    → IsAtEnd e.output
    → encode_single (opcode l.instruction l.operands) e
      ≡ ok (consume (write (opcode_code l.instruction l.operands) e))
unfolding encode_single encode_value
encode_single-opcode l e w end =
    rw (encode_opcode-write l.instruction l.operands e w.few w.plain end)

-- Each token appends its code.
encode_tokens-code :
    (ls : List Line) (e : Encoder)
    → AreWellFormed ls
    → IsAtEnd e.output
    → HasNoFixups e
    → (e' : Encoder) × (encode_tokens (map token_of ls) e ≡ ok e')
      × (e'.output ≡ write_all (code ls) e.output)
      × HasNoFixups e'
unfolding encode_tokens code
encode_tokens-code [] e w end f = (e, refl, sym (write_all-nil e.output end), f)
encode_tokens-code (l ∷ ls) e (wl, ws) end f =
    let c = opcode_code l.instruction l.operands in
    let (out, fix) = consume-output (write c e) in
    let (written, kept) = write-output c e in
    let (e', done, all_out, no_fix) =
      encode_tokens-code ls (consume (write c e)) ws (rw out (write-IsAtEnd c e end))
        (fix ∙ kept ∙ f) in
    (
      e',
      rw (encode_single-opcode l e wl end) done,
      all_out ∙ rw (out, written) (write_all-write_all c (code ls) e.output end),
      no_fix,
    )

encode-code :
    (ls : List Line)
    → AreWellFormed ls
    → encode (map token_of ls) empty ≡ ok (write_all (code ls) empty)
unfolding encode fixup fixup_loop encoder_new
encode-code ls w =
    let (e, done, out, no_fix) =
      encode_tokens-code ls (encoder_new (map token_of ls) empty) w refl refl in
    rw (done, no_fix) (ap ok out)

disassemble_loop-code :
    (ls : List Line) (fuel : ℕ)
    → AreWellFormed ls
    → length (code ls) ≤ fuel
    → disassemble_loop fuel (code ls) ≡ ok (map opcode_of ls)
unfolding disassemble_loop code opcode_code
disassemble_loop-code [] zero w h = refl
disassemble_loop-code [] (suc fuel) w h = refl
disassemble_loop-code (l ∷ ls) zero w h = absurd (omega arith)
disassemble_loop-code (l ∷ ls) (suc fuel) (wl, ws) h =
    let (rest, e, v) =
      decode-opcode_code cursor_serves l.instruction l.operands (code (l ∷ ls)) (code ls) wl.few
        wl.plain wl.count wl.modes refl in
    rw (
      e,
      v,
      disassemble_loop-code ls fuel ws
          (omega (arith, length-append (operand_codes l.operands) (code ls))),
    )

-- Encoding opcodes whose operands are plain and fit their instructions succeeds on an empty output,
-- and disassembling the bytes gives the same opcodes in the same order.
pub disassemble-encode :
    (ls : List Line)
    → AreWellFormed ls
    → (o : Output) × (encode (map token_of ls) empty ≡ ok o)
      × (disassemble o.bytes ≡ ok (map opcode_of ls))
unfolding disassemble
disassemble-encode ls w = (
  record { bytes = code ls; position = length (code ls) },
  encode-code ls w ∙ ap ok (write_all-end (code ls) empty refl),
  disassemble_loop-code ls (length (code ls)) w (omega arith),
)
