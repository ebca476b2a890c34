-- ===== src/Opcodes/Decode/Fields.antt =====
-- The fields that `decode_operand` and `decode` take from a byte, as arithmetic.
use lakesis.Base.{
  ℕ, ◌-◌, ◌/◌, ◌%◌, ◌^◌, ◌<◌, bit_and, ◌≡◌, List, ◌∷◌, ◌++◌, arith, length, replicate, ◌==◌,
  if◌then◌else◌,
}
use lakesis.Base.Bytes.{top_two, bits_four_five, bit_three, low_three, from_le_bytes}
use lakesis.Base.Int.{pos, negsuc}
use lakesis.Base.Words.{as_iword, mul_iword}
use lakesis.Base.Result.{ok, ◌>>=◌, bind_assoc}
use lakesis.Core.{CoreResult}
use lakesis.Opcodes.Decode.{Reader, Serves, decode_operand, operand_of}
use lakesis.Opcodes.Decode.Reading.{read_exact-append, read_byte-cons}
use lakesis.Opcodes.Operand.{Operand}

-- What the bytes after the first one make of the fields.
unfoldable pub operand_from : ℕ → ℕ → ℕ → List ℕ → CoreResult Operand
operand_from addr_mode register_num sign bytes = do
  let uvalue = from_le_bytes (bytes ++ replicate (8 - length bytes) 0)
  ivalue ← mul_iword (as_iword uvalue) (if sign == 0 then pos 1 else negsuc 0)
  operand_of addr_mode register_num ivalue uvalue

mode_field : (b : ℕ) → b < 256 → bit_and b 0xc0 / 2 ^ 6 ≡ b / 64
mode_field b h = omega (arith, top_two b h)

register_field : (b : ℕ) → b < 256 → bit_and b 0x30 / 2 ^ 4 ≡ b / 16 % 4
register_field b h = omega (arith, bits_four_five b h)

sign_field : (b : ℕ) → b < 256 → bit_and b 0x08 / 2 ^ 3 ≡ b / 8 % 2
sign_field b h = omega (arith, bit_three b h)

size_field : (b : ℕ) → b < 256 → bit_and b 0x07 / 2 ^ 0 ≡ b % 8
size_field b h = omega (arith, low_three b h)

module _ {S : Type 0} {r : Reader S} (sv : Serves r) where
  -- Reading an operand off its first byte and its value bytes.
  pub decode_operand-cons :
      (s : S) (b : ℕ) (bytes rest : List ℕ) {o : Operand}
      → b < 256
      → b % 8 ≡ length bytes
      → sv.view s ≡ b ∷ (bytes ++ rest)
      → operand_from (b / 64) (b / 16 % 4) (b / 8 % 2) bytes ≡ ok o
      → (s' : S) × (decode_operand r s ≡ ok (o, s')) × (sv.view s' ≡ rest)
  decode_operand-cons s b bytes rest {o} h size v e =
      let (s₁, e₁, v₁) = read_byte-cons sv s b (bytes ++ rest) v in
      let (s₂, e₂, v₂) = read_exact-append sv s₁ bytes rest v₁ in
      let whole : decode_operand r s
          ≡ (operand_from (b / 64) (b / 16 % 4) (b / 8 % 2) bytes >>= λ o. ok (o, s₂)) =
        unfold decode_operand operand_from in
        rw (
          e₁,
          mode_field b h,
          register_field b h,
          sign_field b h,
          size_field b h,
          size,
          e₂,
          bind_assoc,
        ) in
      (s₂, rw e at whole, v₂)
