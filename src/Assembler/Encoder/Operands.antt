-- ===== src/Assembler/Encoder/Operands.antt =====
-- What `encode_operand` writes is what `decode_operand` reads.
use lakesis.Base.{
  ℕ, suc, ◌-◌, ◌/◌, ◌%◌, ◌^◌, ◌≤◌, ◌<◌, ◌≡◌, List, [], ◌∷◌, ◌++◌, arith, length, replicate, ltb,
  Bool-cases, inl, inr,
}
use lakesis.Base.Bytes.{from_le_bytes, from_le_bytes-append_zeros}
use lakesis.Base.Int.{ℤ, pos, negsuc, ◌*ℤ◌}
use lakesis.Base.Words.{as_iword, mul_iword}
use lakesis.Base.Result.{ok}
use lakesis.Core.{Error}
use lakesis.Opcodes.Operand.{
  Operand as CoreOperand, immediate as core_immediate, register as core_register,
  reference as core_reference, stack as core_stack,
}
use lakesis.Opcodes.Decode.{Reader, Serves, decode_operand, operand_of}
use lakesis.Opcodes.Decode.Fields.{operand_from, decode_operand-cons}
use lakesis.Assembler.Token.{Operand, label, immediate, register, stack, reference}
use lakesis.Assembler.Encoder.Values.{
  stripped, stripped_value, stripped_short, first_byte, first_byte-packed, packed,
}

-- A reader in front of the bytes reads the operand off them.
abbrev pub DecodesOperand : List ℕ → CoreOperand → Type 1
DecodesOperand code o =
    (S : Type 0) (r : Reader S) (sv : Serves r) (s : S) (rest : List ℕ)
    → sv.view s ≡ code ++ rest
    → (s' : S) × (decode_operand r s ≡ ok (o, s')) × (sv.view s' ≡ rest)

-- Sign and magnitude give back a number whose magnitude has 63 bits at most.
positive_value : (a : ℕ) → a < 2 ^ 63 → mul_iword {E = Error} (as_iword a) (pos 1) ≡ ok (pos a)
unfolding mul_iword as_iword ◌*ℤ◌
positive_value a h = ground arith

negative_value :
    (n : ℕ) → suc n < 2 ^ 63 → mul_iword {E = Error} (as_iword (suc n)) (negsuc 0) ≡ ok (negsuc n)
unfolding mul_iword as_iword ◌*ℤ◌
negative_value n h = ground arith

value_read : (bytes : List ℕ) (n : ℕ) → from_le_bytes (bytes ++ replicate n 0) ≡ from_le_bytes bytes
value_read bytes n = from_le_bytes-append_zeros bytes n

operand_from_positive :
    (m r a : ℕ) → a < 2 ^ 63 → operand_from m r 0 (stripped a) ≡ operand_of m r (pos a) a
unfolding operand_from
operand_from_positive m r a h = rw (value_read, stripped_value a (omega arith), positive_value a h)

operand_from_negative :
    (m r n : ℕ)
    → suc n < 2 ^ 63
    → operand_from m r 1 (stripped (suc n)) ≡ operand_of m r (negsuc n) (suc n)
unfolding operand_from
operand_from_negative m r n h =
    rw (value_read, stripped_value (suc n) (omega arith), negative_value n h)

-- The magnitude of a stack offset may use all 64 bits; the decoder then ignores the signed value.
any_value : (a : ℕ) → a < 2 ^ 64 → (i : ℤ) × (mul_iword {E = Error} (as_iword a) (pos 1) ≡ ok i)
unfolding mul_iword as_iword ◌*ℤ◌
any_value a h = elim (Bool-cases (ltb a (2 ^ 63))) [
  | inl l ↦ (pos a, ground arith)
  | inr l ↦ (negsuc (2 ^ 64 - 1 - a), ground arith)
]

operand_from_stack : (a : ℕ) → a < 2 ^ 64 → operand_from 3 0 0 (stripped a) ≡ ok (core_stack a)
unfolding operand_from operand_of
operand_from_stack a h = let (i, e) = any_value a h in rw (value_read, stripped_value a h, e)

DecodesOperand-packed :
    (m r s : ℕ) (bytes : List ℕ) (o : CoreOperand)
    → m < 4
    → r < 4
    → s < 2
    → length bytes ≤ 7
    → operand_from m r s bytes ≡ ok o
    → DecodesOperand (first_byte m r s (length bytes) ∷ bytes) o
DecodesOperand-packed m r s bytes o hm hr hs hl e S rd sv st rest v =
    decode_operand-cons sv st (packed m r s (length bytes)) bytes rest (omega arith) (omega arith)
      (rw (← first_byte-packed m r s (length bytes) hm hr hs (omega arith)) v)
      (rw (mode, reg, sign) e)
  where
    mode : packed m r s (length bytes) / 64 ≡ m
    mode = omega arith

    reg : packed m r s (length bytes) / 16 % 4 ≡ r
    reg = omega arith

    sign : packed m r s (length bytes) / 8 % 2 ≡ s
    sign = omega arith

-- The operands without a label whose fields fit their places.
abbrev pub magnitude : ℤ → ℕ
magnitude (pos n) = n
magnitude (negsuc n) = suc n

abbrev pub IsPlain : Operand → Type 0
IsPlain (label l) = ⊥
IsPlain (immediate x) = magnitude x < 2 ^ 56
IsPlain (register r) = r < 4
IsPlain (reference r x) = (r < 4) × (magnitude x < 2 ^ 56)
IsPlain (stack a) = a < 2 ^ 56

-- The operand that an operand of the assembler stands for; a label is filled in by `fixup`.
abbrev pub as_core : Operand → CoreOperand
as_core (label l) = core_immediate (pos 0)
as_core (immediate x) = core_immediate x
as_core (register r) = core_register r
as_core (reference r x) = core_reference r x
as_core (stack a) = core_stack a

abbrev pub sign_of : ℤ → ℕ
sign_of (pos n) = 0
sign_of (negsuc n) = 1

unfoldable pub plain_code : ℕ → ℕ → ℕ → ℕ → List ℕ
plain_code m r s a = first_byte m r s (length (stripped a)) ∷ stripped a

-- The bytes of an operand without a label.
unfoldable pub operand_code : Operand → List ℕ
operand_code (label l) = []
operand_code (immediate x) = plain_code 0 0 (sign_of x) (magnitude x)
operand_code (register r) = plain_code 1 r 0 0
operand_code (reference r x) = plain_code 2 r (sign_of x) (magnitude x)
operand_code (stack a) = plain_code 3 0 0 a

operand_from_signed :
    (m r : ℕ) (x : ℤ)
    → magnitude x < 2 ^ 56
    → operand_from m r (sign_of x) (stripped (magnitude x)) ≡ operand_of m r x (magnitude x)
operand_from_signed m r (pos n) h = operand_from_positive m r n (omega arith)
operand_from_signed m r (negsuc n) h = operand_from_negative m r n (omega arith)

sign-lt-two : (x : ℤ) → sign_of x < 2
sign-lt-two (pos n) = omega arith
sign-lt-two (negsuc n) = omega arith

-- Every reader reads an operand off its code, and stops behind it.
pub operand_code-DecodesOperand :
    (o : Operand) → IsPlain o → DecodesOperand (operand_code o) (as_core o)
unfolding operand_code plain_code operand_of
operand_code-DecodesOperand (label l) h = absurd h
operand_code-DecodesOperand (immediate x) h =
    DecodesOperand-packed 0 0 (sign_of x) (stripped (magnitude x)) (core_immediate x) (omega arith)
      (omega arith) (sign-lt-two x) (stripped_short (magnitude x) h) (operand_from_signed 0 0 x h)
operand_code-DecodesOperand (register r) h =
    DecodesOperand-packed 1 r 0 (stripped 0) (core_register r) (omega arith) h (omega arith)
      (stripped_short 0 (omega arith)) (operand_from_positive 1 r 0 (omega arith))
operand_code-DecodesOperand (reference r x) (hr, h) =
    DecodesOperand-packed 2 r (sign_of x) (stripped (magnitude x)) (core_reference r x)
      (omega arith) hr (sign-lt-two x) (stripped_short (magnitude x) h)
      (operand_from_signed 2 r x h)
operand_code-DecodesOperand (stack a) h =
    DecodesOperand-packed 3 0 0 (stripped a) (core_stack a) (omega arith) (omega arith)
      (omega arith) (stripped_short a h) (operand_from_stack a (omega arith))
