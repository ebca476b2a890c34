-- ===== src/Assembler/Encoder/Write.antt =====
-- `encode_operand` and `encode_opcode` append bytes to the output and change nothing else.
use lakesis.Base.{
  ℕ, ◌+◌, ◌*◌, ◌^◌, ◌≤◌, ◌<◌, ◌≡◌, refl, sym, ap, ◌∙◌, List, [], ◌∷◌, ◌++◌, none, arith, length,
  ltb-eq-false,
}
use lakesis.Base.Int.{ℤ, pos, negsuc}
use lakesis.Base.Words.{abs_iword}
use lakesis.Base.Result.{ok}
use lakesis.Opcodes.Instruction.{Instruction, instruction_value}
use lakesis.Opcodes.Instruction.Lookup.{instruction_value-lt}
use lakesis.Assembler.Token.{Operand, label, immediate, register, stack, reference}
use lakesis.Assembler.Output.Append.{IsAtEnd, write_all-write_all, write_all-IsAtEnd, write_all-nil}
use lakesis.Assembler.Report.{operand_too_long}
use lakesis.Assembler.Encoder.{
  Encoder, OperandData, get_operand_data, value_bytes_of, mode_bits, write_operand, encode_operand,
  encode_data, write, write_byte, remember_fixup, fail, is_positive, encode_operands, encode_opcode,
}
use lakesis.Assembler.Encoder.Values.{
  stripped, stripped_short, stripped_long, first_byte, opcode_byte, opcode_byte_lem,
}
use lakesis.Assembler.Encoder.Operands.{IsPlain, magnitude, sign_of, operand_code, plain_code}

abs_magnitude :
    (x : ℤ)
    → magnitude x < 2 ^ 63
    → abs_iword {E = lakesis.Assembler.Report.Error} x ≡ ok (magnitude x)
unfolding abs_iword
abs_magnitude (pos n) h = refl
abs_magnitude (negsuc n) h = ground arith

write-write :
    (v w : List ℕ) (e : Encoder) → IsAtEnd e.output → write w (write v e) ≡ write (v ++ w) e
unfolding write
write-write v w e h = rw (write_all-write_all v w e.output h)

abbrev plain_data : ℕ → ℕ → ℤ → OperandData
plain_data m r x = record {
  addressing_mode = m;
  register_number = r;
  value_is_positive = is_positive x;
  value_absolute = magnitude x;
  label = none;
}

write_operand-plain :
    (m r : ℕ) (x : ℤ) (e : Encoder)
    → IsAtEnd e.output
    → write_operand (plain_data m r x) (stripped (magnitude x)) e
      ≡ write (plain_code m r (sign_of x) (magnitude x)) e
unfolding write_operand mode_bits plain_code first_byte remember_fixup write_byte
write_operand-plain m r (pos n) e h = write-write _ _ e h
write_operand-plain m r (negsuc n) e h = write-write _ _ e h

value_bytes-plain : (m r : ℕ) (x : ℤ) → value_bytes_of (plain_data m r x) ≡ stripped (magnitude x)
unfolding value_bytes_of stripped
value_bytes-plain m r x = refl

encode_data-plain :
    (m r : ℕ) (x : ℤ) (e : Encoder)
    → magnitude x < 2 ^ 56
    → IsAtEnd e.output
    → encode_data (plain_data m r x) e ≡ ok (write (plain_code m r (sign_of x) (magnitude x)) e)
unfolding encode_data
encode_data-plain m r x e h end =
    rw (value_bytes-plain m r x, ltb-eq-false _ _ (stripped_short (magnitude x) h))
      (ap ok (write_operand-plain m r x e end))

encode_data-long :
    (m r : ℕ) (x : ℤ) (e : Encoder)
    → 2 ^ 56 ≤ magnitude x
    → magnitude x < 2 ^ 64
    → encode_data (plain_data m r x) e ≡ fail operand_too_long e
unfolding encode_data
encode_data-long m r x e h k = rw (value_bytes-plain m r x, stripped_long (magnitude x) k h)

-- An operand that fits is written as its code.
pub encode_operand-write :
    (o : Operand) (e : Encoder)
    → IsPlain o
    → IsAtEnd e.output
    → encode_operand o e ≡ ok (write (operand_code o) e)
unfolding encode_operand get_operand_data operand_code
encode_operand-write (label l) e h end = absurd h
encode_operand-write (immediate x) e h end =
    rw (abs_magnitude x (omega arith)) (encode_data-plain 0 0 x e h end)
encode_operand-write (register r) e h end = encode_data-plain 1 r (pos 0) e (omega arith) end
encode_operand-write (reference r x) e (hr, h) end =
    rw (abs_magnitude x (omega arith)) (encode_data-plain 2 r x e h end)
encode_operand-write (stack a) e h end = encode_data-plain 3 0 (pos a) e h end

-- An immediate whose absolute value takes 57 to 63 bits is refused with the message about its length.
pub encode_immediate-long :
    (x : ℤ) (e : Encoder)
    → 2 ^ 56 ≤ magnitude x
    → magnitude x < 2 ^ 63
    → encode_operand (immediate x) e ≡ fail operand_too_long e
unfolding encode_operand get_operand_data
encode_immediate-long x e h k = rw (abs_magnitude x k) (encode_data-long 0 0 x e h (omega arith))

-- A list of plain operands is written as the codes one after the other.
abbrev pub ArePlain : List Operand → Type 0
ArePlain [] = Unit
ArePlain (o ∷ os) = IsPlain o × ArePlain os

abbrev pub operand_codes : List Operand → List ℕ
operand_codes [] = []
operand_codes (o ∷ os) = operand_code o ++ operand_codes os

write-nil : (e : Encoder) → IsAtEnd e.output → write [] e ≡ e
unfolding write
write-nil e h = rw (write_all-nil e.output h)

pub write-IsAtEnd : (w : List ℕ) (e : Encoder) → IsAtEnd e.output → IsAtEnd (write w e).output
unfolding write
write-IsAtEnd w e h = write_all-IsAtEnd w e.output h

encode_operands-write :
    (os : List Operand) (e : Encoder)
    → ArePlain os
    → IsAtEnd e.output
    → encode_operands os e ≡ ok (write (operand_codes os) e)
unfolding encode_operands
encode_operands-write [] e h end = ap ok (sym (write-nil e end))
encode_operands-write (o ∷ os) e (ho, hs) end = rw (encode_operand-write o e ho end) (
    encode_operands-write os (write (operand_code o) e) hs (write-IsAtEnd (operand_code o) e end)
    ∙ ap ok (write-write (operand_code o) (operand_codes os) e end))

-- The first byte of an opcode, and all its bytes.
unfoldable pub opcode_code : Instruction → List Operand → List ℕ
opcode_code i os = (instruction_value i + 64 * length os) ∷ operand_codes os

-- An opcode with at most three operands, each of them plain, is appended as its code.
pub encode_opcode-write :
    (i : Instruction) (os : List Operand) (e : Encoder)
    → length os < 4
    → ArePlain os
    → IsAtEnd e.output
    → encode_opcode i os e ≡ ok (write (opcode_code i os) e)
unfolding encode_opcode opcode_code write_byte opcode_byte
encode_opcode-write i os e hl hs end =
    rw (opcode_byte_lem (instruction_value i) (length os) (instruction_value-lt i) hl) (
      encode_operands-write os _ hs (write-IsAtEnd _ e end)
      ∙ ap ok (write-write _ (operand_codes os) e end))
