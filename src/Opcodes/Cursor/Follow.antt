-- ===== src/Opcodes/Cursor/Follow.antt =====
-- Reading an opcode of src/opcodes.rs with two readers, of which one is the cursor of `disassemble`.
use mathlib.Core.Path.{subst}
use lakesis.Base.{
  ℕ, zero, suc, ◌-◌, ◌/◌, ◌^◌, bit_and, ◌≡◌, List, ◌++◌, length, replicate, ◌==◌, if◌then◌else◌,
}
use lakesis.Base.Bytes.{from_le_bytes}
use lakesis.Base.Int.{pos, negsuc}
use lakesis.Base.Words.{as_iword, mul_iword}
use lakesis.Base.Result.{ok, err, panic, ◌>>=◌, guard}
use lakesis.Core.{Error, CoreResult, operand_count_mismatch}
use lakesis.Opcodes.Instruction.{descriptor}
use lakesis.Opcodes.Decode.{
  Reader, read_byte, decode_operand, decode_operands, decode, decode_instruction, operand_of,
  check_modes,
}
use lakesis.Opcodes.Cursor.{cursor}

-- Where reading off bytes gives a value and leaves bytes, reading off a state gives the same value, and
-- leaves a state that stands at the bytes left. Nothing is said of where the bytes cannot be read.
pub data Agrees {S A : Type 0} (IsAt : S → List ℕ → Type 0)
    : CoreResult (A × S) → CoreResult (A × List ℕ) → Type 0 where
  same : {a : A} {s : S} {rest : List ℕ} → IsAt s rest → Agrees IsAt (ok (a, s)) (ok (a, rest))
  cursor_fails : {m : CoreResult (A × S)} {e : Error} → Agrees IsAt m (err e)
  cursor_panics : {m : CoreResult (A × S)} → Agrees IsAt m panic

module _ {S A : Type 0} {IsAt : S → List ℕ → Type 0} where
  Agrees-bind :
      {B : Type 0} {m : CoreResult (A × S)} {c : CoreResult (A × List ℕ)}
      (next : A × S → CoreResult (B × S)) (next' : A × List ℕ → CoreResult (B × List ℕ))
      → Agrees IsAt m c
      → ((a : A) (s : S) (rest : List ℕ)
          → IsAt s rest
          → Agrees IsAt (next (a, s)) (next' (a, rest)))
      → Agrees IsAt (m >>= next) (c >>= next')
  Agrees-bind next next' (same {a} {s} {rest} at) k = k a s rest at
  Agrees-bind next next' cursor_fails k = cursor_fails
  Agrees-bind next next' cursor_panics k = cursor_panics

  -- A step that reads nothing.
  Agrees-pure :
      {B : Type 0} (p : CoreResult B) (next : B → CoreResult (A × S))
      (next' : B → CoreResult (A × List ℕ))
      → ((b : B) → Agrees IsAt (next b) (next' b))
      → Agrees IsAt (p >>= next) (p >>= next')
  Agrees-pure (ok b) next next' k = k b
  Agrees-pure (err e) next next' k = cursor_fails
  Agrees-pure panic next next' k = cursor_panics

  pub Agrees-ok :
      {m : CoreResult (A × S)} {c : CoreResult (A × List ℕ)} {a : A} {rest : List ℕ}
      → Agrees IsAt m c
      → c ≡ ok (a, rest)
      → (s : S) × (m ≡ ok (a, s)) × IsAt s rest
  Agrees-ok {a = a'} {rest = rest'} (same {a} {s} {rest} at) h =
      let left : rest ≡ rest' = cc in (s, cc, subst (IsAt s) left at)
  Agrees-ok cursor_fails h = cc
  Agrees-ok cursor_panics h = cc

-- A reader whose states stand at bytes, and that reads what a cursor on the bytes reads.
pub record Follows {S : Type 0} (r : Reader S) (IsAt : S → List ℕ → Type 0) : Type 0 where
  pub read_exact_follows :
      (n : ℕ) (s : S) (bytes : List ℕ)
      → IsAt s bytes
      → Agrees IsAt (r.read_exact n s) (cursor.read_exact n bytes)

module _ {S : Type 0} {r : Reader S} {IsAt : S → List ℕ → Type 0} (f : Follows r IsAt) where
  read_byte-follows :
      (s : S) (bytes : List ℕ) → IsAt s bytes → Agrees IsAt (read_byte r s) (read_byte cursor bytes)
  unfolding read_byte
  read_byte-follows s bytes at =
      Agrees-bind _ _ (f.read_exact_follows 1 s bytes at) (λ read s' rest at'. same at')

  decode_operand-follows :
      (s : S) (bytes : List ℕ)
      → IsAt s bytes
      → Agrees IsAt (decode_operand r s) (decode_operand cursor bytes)
  unfolding decode_operand
  decode_operand-follows s bytes at =
      Agrees-bind _ _ (read_byte-follows s bytes at) (λ b s₁ rest₁ at₁.
        let size = bit_and b 0x07 / 2 ^ 0 in
        Agrees-bind _ _ (f.read_exact_follows size s₁ rest₁ at₁) (λ bytes s₂ rest₂ at₂.
          let uvalue = from_le_bytes (bytes ++ replicate (8 - size) 0) in
          let sign = if bit_and b 0x08 / 2 ^ 3 == 0 then pos 1 else negsuc 0 in
          Agrees-pure (mul_iword (as_iword uvalue) sign) _ _ (λ ivalue.
            Agrees-pure (operand_of (bit_and b 0xc0 / 2 ^ 6) (bit_and b 0x30 / 2 ^ 4) ivalue uvalue)
              _ _ (λ operand. same at₂))))

  decode_operands-follows :
      (n : ℕ) (s : S) (bytes : List ℕ)
      → IsAt s bytes
      → Agrees IsAt (decode_operands r n s) (decode_operands cursor n bytes)
  unfolding decode_operands
  decode_operands-follows zero s bytes at = same at
  decode_operands-follows (suc n) s bytes at =
      Agrees-bind _ _ (decode_operand-follows s bytes at) (λ operand s₁ rest₁ at₁.
        Agrees-bind _ _ (decode_operands-follows n s₁ rest₁ at₁)
          (λ operands s₂ rest₂ at₂. same at₂))

  pub decode-follows :
      (s : S) (bytes : List ℕ) → IsAt s bytes → Agrees IsAt (decode r s) (decode cursor bytes)
  unfolding decode
  decode-follows s bytes at = Agrees-bind _ _ (read_byte-follows s bytes at) (λ b s₁ rest₁ at₁.
      Agrees-pure (decode_instruction (bit_and b 0x3f)) _ _ (λ i.
        Agrees-bind _ _ (decode_operands-follows (bit_and b 0xc0 / 2 ^ 6) s₁ rest₁ at₁)
          (λ operands s₂ rest₂ at₂.
            let expected = (descriptor i).operands in
            let count =
              guard (length expected == length operands)
                (operand_count_mismatch (length expected) (length operands)) in
            Agrees-pure count _ _
              (λ _. Agrees-pure (check_modes expected operands) _ _ (λ _. same at₂)))))
