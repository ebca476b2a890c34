-- ===== src/Opcodes/Decode.antt =====
-- src/opcodes.rs: `Opcode::decode` and `Operand::decode`, over any reader.
pub mod Reading
pub mod Fields
use lakesis.Base.{
  ℕ, zero, suc, ◌+◌, ◌-◌, ◌*◌, ◌/◌, ◌^◌, ◌≤◌, ◌<◌, bit_and, ◌≡◌, Bool, true, false, List, [], ◌∷◌,
  ◌++◌, Option, none, some, ◌==◌, if◌then◌else◌, length, replicate, take, drop,
}
use lakesis.Base.Bytes.{from_le_bytes}
use lakesis.Base.Int.{ℤ, pos, negsuc}
use lakesis.Base.Words.{as_iword, mul_iword}
use lakesis.Base.Result.{Result, ok, err, ◌>>=◌, ◌>>◌, ok_or, guard}
use lakesis.Core.{
  Error, CoreResult, no_instruction_with_value, operand_count_mismatch, operand_cannot_be_used,
  invalid_addressing_mode,
}
use lakesis.Opcodes.Mode.{OperandMode, can_be_used_as}
use lakesis.Opcodes.Instruction.{Instruction, from_value, descriptor}
use lakesis.Opcodes.Operand.{Operand, immediate, register, reference, stack, operand_mode}

-- What the decoder needs of `impl Read`: the call `read_exact` with a buffer of `n` bytes.
pub record Reader (S : Type 0) : Type 0 where
  pub read_exact : ℕ → S → CoreResult (List ℕ × S)

-- What `read_exact` promises: it fills the buffer with the next bytes, or fails. `view` is what can
-- still be read.
pub record Serves {S : Type 0} (r : Reader S) : Type 0 where
  pub view : S → List ℕ
  pub read_exact_fills :
      (n : ℕ) (s : S)
      → n ≤ length (view s)
      → (s' : S) × (r.read_exact n s ≡ ok (take n (view s), s')) × (view s' ≡ drop n (view s))
  pub read_exact_fails :
      (n : ℕ) (s : S) → length (view s) < n → (e : Error) × (r.read_exact n s ≡ err e)

pub record Opcode : Type 0 where
  pub instruction : Instruction
  pub operands : List Operand

-- `Self::from_value(value).ok_or(…)`
unfoldable pub decode_instruction : ℕ → CoreResult Instruction
decode_instruction v = ok_or (from_value v) (no_instruction_with_value v)

-- The `match` on the addressing mode.
unfoldable pub operand_of : ℕ → ℕ → ℤ → ℕ → CoreResult Operand
operand_of addr_mode register_num ivalue uvalue =
    if addr_mode == 0
    then ok (immediate ivalue)
    else if addr_mode == 1
    then ok (register register_num)
    else if addr_mode == 2
    then ok (reference register_num ivalue)
    else if addr_mode == 3
    then ok (stack uvalue)
    else err invalid_addressing_mode

-- The loop that compares each operand's mode with the descriptor's.
unfoldable pub check_modes : List OperandMode → List Operand → CoreResult (Unit {0})
check_modes (expected ∷ es) (actual ∷ as') = do
  guard (can_be_used_as (operand_mode actual) expected) operand_cannot_be_used
  check_modes es as'
check_modes _ _ = ok tt

-- The head of a one-byte buffer.
abbrev first : List ℕ → ℕ
first [] = 0
first (b ∷ bs) = b

module _ {S : Type 0} (r : Reader S) where
  unfoldable pub read_byte : S → CoreResult (ℕ × S)
  read_byte s = do (bytes, s') ← r.read_exact 1 s; ok (first bytes, s')

  unfoldable pub decode_operand : S → CoreResult (Operand × S)
  decode_operand s = do
    (first_byte, s₁) ← read_byte s
    let addr_mode = bit_and first_byte 0xc0 / 2 ^ 6
    let register_num = bit_and first_byte 0x30 / 2 ^ 4
    let sign = bit_and first_byte 0x08 / 2 ^ 3
    let value_size = bit_and first_byte 0x07 / 2 ^ 0
    (value_bytes, s₂) ← r.read_exact value_size s₁
    let uvalue = from_le_bytes (value_bytes ++ replicate (8 - value_size) 0)
    ivalue ← mul_iword (as_iword uvalue) (if sign == 0 then pos 1 else negsuc 0)
    operand ← operand_of addr_mode register_num ivalue uvalue
    ok (operand, s₂)

  -- `for _ in 0..operand_count { operands.push(Operand::decode(read)?) }`
  unfoldable pub decode_operands : ℕ → S → CoreResult (List Operand × S)
  decode_operands zero s = ok ([], s)
  decode_operands (suc n) s = do
    (operand, s₁) ← decode_operand s
    (operands, s₂) ← decode_operands n s₁
    ok (operand ∷ operands, s₂)

  unfoldable pub decode : S → CoreResult (Opcode × S)
  decode s = do
    (first_byte, s₁) ← read_byte s
    let operand_count = bit_and first_byte 0xc0 / 2 ^ 6
    let instruction_id = bit_and first_byte 0x3f
    instruction ← decode_instruction instruction_id
    (operands, s₂) ← decode_operands operand_count s₁
    let expected = (descriptor instruction).operands
    guard (length expected == length operands)
        (operand_count_mismatch (length expected) (length operands))
    check_modes expected operands
    ok (record { instruction = instruction; operands = operands }, s₂)
