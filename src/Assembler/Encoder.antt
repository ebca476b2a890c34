-- ===== src/Assembler/Encoder.antt =====
-- src/assembler/encoder.rs: from the parser's tokens to bytes.
pub mod Values
pub mod Operands
pub mod Write
pub mod RoundTrip
pub mod Align
pub mod Program
use lakesis.Base.{
  ℕ, zero, suc, ◌+◌, ◌-◌, ◌*◌, ◌%◌, ◌^◌, bit_and, bit_or, Bool, true, false, not, List, [], ◌∷◌,
  Option, none, some, ltb, leb, ◌==◌, if◌then◌else◌, length, get_elem?, take, reverse,
}
use lakesis.Base.Bytes.{to_le_bytes}
use lakesis.Base.Dict.{lookup, insert}
use lakesis.Base.Text.{Text, text_eq, as_bytes}
use lakesis.Base.Int.{ℤ, pos, negsuc}
use lakesis.Base.Words.{abs_iword, as_uword}
use lakesis.Base.Result.{Result, ok, err, panic, ◌>>=◌, ◌>>◌, unwrap}
use lakesis.Opcodes.Instruction.{Instruction, instruction_value}
use lakesis.Assembler.Report.{
  AsmResult, FileRange, Message, alignment_too_small, operand_too_long, redefinition_of_label,
  label_not_found, range_invalid,
}
use lakesis.Assembler.Token.{
  Token, TokenValue, label_definition, string, align, define, opcode, Operand, label, immediate,
  register, stack, reference,
}
use lakesis.Assembler.Output.{Output, write_all, seek}

pub record Encoder : Type 0 where
  pub tokens : List Token
  pub output : Output
  pub index : ℕ
  pub label_values : List (Text × ℕ)
  pub fixups : List (ℕ × Text)

pub record OperandData : Type 0 where
  pub addressing_mode : ℕ
  pub register_number : ℕ
  pub value_is_positive : Bool
  pub value_absolute : ℕ
  pub label : Option Text

-- `Encoder::new`
unfoldable pub encoder_new : List Token → Output → Encoder
encoder_new ts o = record { tokens = ts; output = o; index = 0; label_values = []; fixups = [] }

-- `self.output.seek(SeekFrom::Current(0))`
abbrev pub offset : Encoder → ℕ
offset e = e.output.position

unfoldable pub is_eof : Encoder → Bool
is_eof e = leb (length e.tokens) e.index

-- The token at an index; an index out of bounds panics.
unfoldable pub token_at : ℕ → Encoder → AsmResult Token
token_at i e = unwrap (get_elem? e.tokens i)

unfoldable pub range : Encoder → AsmResult FileRange
unfolding is_eof token_at
range e =
    if is_eof e
    then (do
      t ← if length e.tokens == 0 then panic else token_at (length e.tokens - 1) e
      ok t.range)
    else (do t ← token_at e.index e; ok t.range)

-- `Err(self.make_error(…))`
unfoldable pub fail {ℓ} : {A : Type ℓ} → Message → Encoder → AsmResult A
unfolding range
fail m e = do r ← range e; err (record { message = m; range = r })

unfoldable pub consume : Encoder → Encoder
unfolding is_eof
consume e = if is_eof e then e else record e { index = e.index + 1 }

unfoldable pub write : List ℕ → Encoder → Encoder
write bytes e = record e { output = write_all bytes e.output }

unfoldable pub write_byte : ℕ → Encoder → Encoder
unfolding write
write_byte b = write (b ∷ [])

-- `while self.offset()? % alignment != 0 { self.write_byte(0)?; }`, on fuel.
unfoldable pub align_loop : ℕ → ℕ → Encoder → AsmResult Encoder
align_loop zero alignment e = panic
align_loop (suc fuel) alignment e = elim (offset e % alignment == 0) [
  | true ↦ ok e
  | false ↦ align_loop fuel alignment (write_byte 0 e)
]

unfoldable pub align_output : ℕ → Encoder → AsmResult Encoder
unfolding align_loop
align_output alignment e =
    if leb alignment 1 then fail alignment_too_small e else align_loop alignment alignment e

unfoldable pub set_label_value_without_override : Text → ℕ → Encoder → AsmResult Encoder
set_label_value_without_override name value e =
    let e' = record e { label_values = insert text_eq name value e.label_values } in
    elim (lookup text_eq name e.label_values) [
      | none ↦ ok e'
      | some _ ↦ fail (redefinition_of_label name) e'
    ]

unfoldable pub remember_label : Text → Encoder → AsmResult Encoder
unfolding set_label_value_without_override
remember_label name e = set_label_value_without_override name (offset e) e

unfoldable pub encode_string : Option Text → Text → Encoder → AsmResult Encoder
unfolding set_label_value_without_override
encode_string none value e = ok (write (as_bytes value) e)
encode_string (some l) value e = do
  e' ← set_label_value_without_override l (length (as_bytes value)) e
  ok (write (as_bytes value) e')

-- `x >= 0` on `i64`
abbrev pub is_positive : ℤ → Bool
is_positive (pos n) = true
is_positive (negsuc n) = false

unfoldable pub get_operand_data : Operand → AsmResult OperandData
get_operand_data (label l) = ok (record {
  addressing_mode = 0;
  register_number = 0;
  value_is_positive = true;
  value_absolute = 0;
  label = some l;
})
get_operand_data (immediate x) = do
  a ← abs_iword x
  ok (record {
    addressing_mode = 0;
    register_number = 0;
    value_is_positive = is_positive x;
    value_absolute = a;
    label = none;
  })
get_operand_data (register r) = ok (record {
  addressing_mode = 1;
  register_number = r;
  value_is_positive = true;
  value_absolute = 0;
  label = none;
})
get_operand_data (reference r x) = do
  a ← abs_iword x
  ok (record {
    addressing_mode = 2;
    register_number = r;
    value_is_positive = is_positive x;
    value_absolute = a;
    label = none;
  })
get_operand_data (stack o) = ok (record {
  addressing_mode = 3;
  register_number = 0;
  value_is_positive = true;
  value_absolute = o;
  label = none;
})

-- `while value_bytes.ends_with(&[0]) { value_bytes.pop(); }`, on the bytes from the last to the first.
unfoldable pub pop_zeros : List ℕ → List ℕ
pop_zeros [] = []
pop_zeros (b ∷ bs) = let rest = pop_zeros bs in if b == 0 then rest else b ∷ bs

-- The bytes that are written for the value.
unfoldable pub value_bytes_of : OperandData → List ℕ
unfolding pop_zeros
value_bytes_of d = elim d.label [
  | some _ ↦ take 7 (to_le_bytes 8 d.value_absolute)
  | none ↦ reverse (pop_zeros (reverse (to_le_bytes 8 d.value_absolute)))
]

-- The bits of the mode, of the register and of the sign.
unfoldable pub mode_bits : OperandData → ℕ
mode_bits d =
    let b =
      bit_or (bit_and (d.addressing_mode * 2 ^ 6 % 256) 0xc0)
        (bit_and (d.register_number * 2 ^ 4 % 256) 0x30) in
    if d.value_is_positive then b else bit_or b 0x08

-- `if let Some(label) = data.label { self.fixups.insert(offset, …) }`
unfoldable pub remember_fixup : Option Text → Encoder → Encoder
remember_fixup none e = e
remember_fixup (some l) e = record e { fixups = insert (λ a b. a == b) (offset e) l e.fixups }

-- The writes of `encode_operand`, behind its check of the length.
unfoldable pub write_operand : OperandData → List ℕ → Encoder → Encoder
unfolding mode_bits remember_fixup
write_operand d value_bytes e =
    let size_bits = bit_and (length value_bytes % 256 * 2 ^ 0 % 256) 0x07 in
    write value_bytes (remember_fixup d.label (write_byte (bit_or (mode_bits d) size_bits) e))

-- `encode_operand`, once it has the data.
unfoldable pub encode_data : OperandData → Encoder → AsmResult Encoder
encode_data d e =
    let value_bytes = value_bytes_of d in
    if ltb 7 (length value_bytes)
    then fail operand_too_long e
    else ok (write_operand d value_bytes e)

unfoldable pub encode_operand : Operand → Encoder → AsmResult Encoder
encode_operand operand e = do d ← get_operand_data operand; encode_data d e

unfoldable pub encode_operands : List Operand → Encoder → AsmResult Encoder
encode_operands [] e = ok e
encode_operands (o ∷ os) e = do e' ← encode_operand o e; encode_operands os e'

unfoldable pub encode_opcode : Instruction → List Operand → Encoder → AsmResult Encoder
encode_opcode instr operands e =
    let value = bit_and (instruction_value instr) 0x3f in
    let count = bit_and (length operands % 256 * 2 ^ 6 % 256) 0xc0 in
    encode_operands operands (write_byte (bit_or value count) e)

-- The `match` of `encode_single`; `value as u64` wraps.
unfoldable pub encode_value : TokenValue → Encoder → AsmResult Encoder
encode_value (label_definition s) e = remember_label s e
encode_value (define l v) e = set_label_value_without_override l (as_uword v) e
encode_value (string l v) e = encode_string l v e
encode_value (align n) e = align_output n e
encode_value (opcode i os) e = encode_opcode i os e

unfoldable pub encode_single : TokenValue → Encoder → AsmResult Encoder
encode_single v e = do e' ← encode_value v e; ok (consume e')

-- `while !self.is_eof() { self.encode_single()?; }` over the tokens that are left; `index` counts
-- those that are done.
unfoldable pub encode_tokens : List Token → Encoder → AsmResult Encoder
encode_tokens [] e = ok e
encode_tokens (t ∷ ts) e = do e' ← encode_single t.value e; encode_tokens ts e'

-- The loop of `fixup`, in the order in which the fixups were made.
unfoldable pub fixup_loop : List (Text × ℕ) → List (ℕ × Text) → Output → AsmResult Output
fixup_loop labels [] o = ok o
fixup_loop labels ((at, l) ∷ fs) o = elim (lookup text_eq l labels) [
  | some v ↦ fixup_loop labels fs (write_all (take 7 (to_le_bytes 8 v)) (seek at o))
  | none ↦ err (record { message = label_not_found l; range = range_invalid })
]

unfoldable pub fixup : Encoder → AsmResult Output
unfolding fixup_loop
fixup e = fixup_loop e.label_values e.fixups e.output

-- `encode`: what the writer holds at the end.
unfoldable pub encode : List Token → Output → AsmResult Output
encode ts o = do e ← encode_tokens ts (encoder_new ts o); fixup e
