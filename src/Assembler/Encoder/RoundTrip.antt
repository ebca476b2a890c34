-- ===== src/Assembler/Encoder/RoundTrip.antt =====
-- Opcodes are read back as they were written.
use lakesis.Base.{
  ℕ, ◌+◌, ◌*◌, ◌/◌, ◌^◌, ◌<◌, bit_and, ◌≡◌, refl, ◌∙◌, List, [], ◌∷◌, ◌++◌, map, append_assoc,
  arith, length, length-map, ==_refl,
}
use lakesis.Base.Bytes.{low_six, top_two}
use lakesis.Base.Result.{ok}
use lakesis.Opcodes.Instruction.{Instruction, instruction_value, descriptor}
use lakesis.Opcodes.Instruction.Lookup.{from_value_iff, instruction_value-lt}
use lakesis.Opcodes.Decode.{
  Reader, Serves, decode, decode_operand, decode_operands, decode_instruction, check_modes,
}
use lakesis.Opcodes.Decode.Reading.{read_byte-cons}
use lakesis.Assembler.Token.{Operand}
use lakesis.Assembler.Encoder.Operands.{IsPlain, as_core, operand_code, operand_code-DecodesOperand}
use lakesis.Assembler.Output.Append.{IsAtEnd}
use lakesis.Assembler.Encoder.{Encoder, encode_operand, encode_opcode, write}
use lakesis.Assembler.Encoder.Write.{
  encode_operand-write, encode_opcode-write, ArePlain, operand_codes, opcode_code,
}

decode_instruction-value : (i : Instruction) → decode_instruction (instruction_value i) ≡ ok i
unfolding decode_instruction
decode_instruction-value i = rw ((from_value_iff (instruction_value i) i).1 refl)

id_field :
    (i : Instruction) (n : ℕ)
    → n < 4
    → bit_and (instruction_value i + 64 * n) 0x3f ≡ instruction_value i
id_field i n h =
    let v = instruction_value i in
    omega
      (arith, instruction_value-lt i, low_six (v + 64 * n) (omega (arith, instruction_value-lt i)))

count_field :
    (i : Instruction) (n : ℕ) → n < 4 → bit_and (instruction_value i + 64 * n) 0xc0 / 2 ^ 6 ≡ n
count_field i n h =
    let v = instruction_value i in
    omega
      (arith, instruction_value-lt i, top_two (v + 64 * n) (omega (arith, instruction_value-lt i)))

module _ {S : Type 0} {r : Reader S} (sv : Serves r) where
  decode_operands-codes :
      (os : List Operand) (s : S) (rest : List ℕ)
      → ArePlain os
      → sv.view s ≡ operand_codes os ++ rest
      → (s' : S) × (decode_operands r (length os) s ≡ ok (map as_core os, s')) × (sv.view s' ≡ rest)
  unfolding decode_operands
  decode_operands-codes [] s rest h v = (s, refl, v)
  decode_operands-codes (o ∷ os) s rest (ho, hs) v =
      let (s₁, e₁, v₁) =
        operand_code-DecodesOperand o ho S r sv s (operand_codes os ++ rest)
          (v ∙ append_assoc (operand_code o) (operand_codes os) rest) in
      let (s₂, e₂, v₂) = decode_operands-codes os s₁ rest hs v₁ in (s₂, rw (e₁, e₂), v₂)

  pub decode-opcode_code :
      (i : Instruction) (os : List Operand) (s : S) (rest : List ℕ)
      → length os < 4
      → ArePlain os
      → length (descriptor i).operands ≡ length os
      → check_modes (descriptor i).operands (map as_core os) ≡ ok tt
      → sv.view s ≡ opcode_code i os ++ rest
      → (s' : S) × (decode r s ≡ ok (record { instruction = i; operands = map as_core os }, s'))
        × (sv.view s' ≡ rest)
  unfolding decode opcode_code
  decode-opcode_code i os s rest hl hs count modes v =
      let (s₁, e₁, v₁) = read_byte-cons sv s _ (operand_codes os ++ rest) v in
      let (s₂, e₂, v₂) = decode_operands-codes os s₁ rest hs v₁ in
      (
        s₂,
        rw (
          e₁,
          id_field i (length os) hl,
          decode_instruction-value i,
          count_field i (length os) hl,
          e₂,
          count,
          length-map os as_core,
          ==_refl (length os),
          modes,
        ),
        v₂,
      )

  -- A plain operand is appended to an output that the encoder stands at the end of, and every reader in
  -- front of the bytes that were appended decodes the same operand and stops behind them.
  pub decode_operand-encode_operand :
      (o : Operand) (e : Encoder) (s : S) (rest : List ℕ)
      → IsPlain o
      → IsAtEnd e.output
      → sv.view s ≡ operand_code o ++ rest
      → (encode_operand o e ≡ ok (write (operand_code o) e))
        × (s' : S) × (decode_operand r s ≡ ok (as_core o, s'))
        × (sv.view s' ≡ rest)
  decode_operand-encode_operand o e s rest h end v =
      let (s', decoded, behind) = operand_code-DecodesOperand o h S r sv s rest v in
      (encode_operand-write o e h end, s', decoded, behind)

  -- An opcode whose operands are at most three, in number and modes what its instruction's descriptor asks
  -- for, and each without a label, with registers below four and a value or offset of at most 56 bits, is
  -- appended to an output that the encoder stands at the end of, and every reader in front of the bytes
  -- that were appended decodes the same opcode and stops behind them.
  pub decode-encode_opcode :
      (i : Instruction) (os : List Operand) (e : Encoder) (s : S) (rest : List ℕ)
      → length os < 4
      → ArePlain os
      → length (descriptor i).operands ≡ length os
      → check_modes (descriptor i).operands (map as_core os) ≡ ok tt
      → IsAtEnd e.output
      → sv.view s ≡ opcode_code i os ++ rest
      → (encode_opcode i os e ≡ ok (write (opcode_code i os) e))
        × (s' : S) × (decode r s ≡ ok (record { instruction = i; operands = map as_core os }, s'))
        × (sv.view s' ≡ rest)
  decode-encode_opcode i os e s rest few plain count modes end v =
      let (s', decoded, behind) = decode-opcode_code i os s rest few plain count modes v in
      (encode_opcode-write i os e few plain end, s', decoded, behind)
