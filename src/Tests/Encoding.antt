-- ===== src/Tests/Encoding.antt =====
-- The theorems about instructions and the encoder, on a small program.
use lakesis.Base.{
  ℕ, ◌+◌, ◌%◌, ◌^◌, ◌≡◌, ◌<◌, refl, ◌↔◌, List, [], ◌∷◌, ◌++◌, map, some, arith, replicate,
}
use lakesis.Base.Int.{pos, negsuc}
use lakesis.Base.Text.{codes}
use lakesis.Base.Result.{ok}
use lakesis.Opcodes.Instruction.{
  move, add, halt, instruction_value, descriptor, from_value, from_mnemonic, to_lowercase,
}
use lakesis.Opcodes.Instruction.Lookup.{from_value_iff, from_mnemonic_iff}
use lakesis.Opcodes.Decode.{decode, decode_operand, check_modes}
use lakesis.Opcodes.Mode.{can_be_used_as}
use lakesis.Opcodes.Operand.{operand_mode}
use lakesis.Opcodes.Cursor.{cursor, cursor_serves, disassemble}
use lakesis.Assembler.Report.{range_invalid, operand_too_long}
use lakesis.Assembler.Token.{Operand, immediate, register, reference, align}
use lakesis.Assembler.Output.{Output, empty}
use lakesis.Assembler.Encoder.{
  Encoder, encode, encode_operand, encode_opcode, align_output, fail, write,
}
use lakesis.Assembler.Encoder.Operands.{as_core, operand_code}
use lakesis.Assembler.Encoder.Write.{encode_immediate-long, opcode_code}
use lakesis.Assembler.Encoder.RoundTrip.{decode_operand-encode_operand, decode-encode_opcode}
use lakesis.Assembler.Encoder.Align.{align_output-write, gap}
use lakesis.Assembler.Encoder.Program.{Line, AreWellFormed, token_of, opcode_of, disassemble-encode}

-- mov -300, r1; add [r2+8], r3; halt
abbrev program : List Line
program =
    record {
      instruction = move;
      operands = immediate (negsuc 299) ∷ register 1 ∷ [];
      range = range_invalid;
    }
    ∷ record {
      instruction = add;
      operands = reference 2 (pos 8) ∷ register 3 ∷ [];
      range = range_invalid;
    }
    ∷ record { instruction = halt; operands = []; range = range_invalid }
    ∷ []

program_formed : AreWellFormed program
unfolding descriptor check_modes can_be_used_as operand_mode
program_formed = (
  record {
    few = omega arith;
    plain = (omega arith, (omega arith, tt));
    count = refl;
    modes = refl;
  },
  (
    record {
      few = omega arith;
      plain = ((omega arith, omega arith), (omega arith, tt));
      count = refl;
      modes = refl;
    },
    (record { few = omega arith; plain = tt; count = refl; modes = refl }, tt),
  ),
)

disassemble-encode_example :
    (o : Output) × (encode (map token_of program) empty ≡ ok o)
    × (disassemble o.bytes ≡ ok (map opcode_of program))
disassemble-encode_example = disassemble-encode program program_formed

abbrev encoder : Encoder
encoder = record {
  tokens = record { value = align 8; range = range_invalid } ∷ [];
  output = record { bytes = 1 ∷ 2 ∷ 3 ∷ []; position = 3 };
  index = 0;
  label_values = [];
  fixups = [];
}

abbrev operands : List Operand
operands = immediate (negsuc 299) ∷ register 1 ∷ []

decode-encode_opcode_example :
    (encode_opcode move operands encoder ≡ ok (write (opcode_code move operands) encoder))
    × (s' : List ℕ) × (decode cursor (opcode_code move operands ++ 7 ∷ [])
        ≡ ok (record { instruction = move; operands = map as_core operands }, s'))
    × (s' ≡ 7 ∷ [])
unfolding descriptor check_modes can_be_used_as operand_mode
decode-encode_opcode_example =
    decode-encode_opcode cursor_serves move operands encoder (opcode_code move operands ++ 7 ∷ [])
      (7 ∷ []) (omega arith) (omega arith, (omega arith, tt)) refl refl refl refl

decode_operand-encode_operand_example :
    (encode_operand (reference 2 (negsuc 99)) encoder
      ≡ ok (write (operand_code (reference 2 (negsuc 99))) encoder))
    × (s' : List ℕ) × (decode_operand cursor (operand_code (reference 2 (negsuc 99)) ++ 7 ∷ [])
        ≡ ok (as_core (reference 2 (negsuc 99)), s'))
    × (s' ≡ 7 ∷ [])
decode_operand-encode_operand_example =
    decode_operand-encode_operand cursor_serves (reference 2 (negsuc 99)) encoder
      (operand_code (reference 2 (negsuc 99)) ++ 7 ∷ []) (7 ∷ []) (omega arith, omega arith) refl
      refl

encode_immediate-long_example :
    encode_operand (immediate (pos (2 ^ 60))) encoder ≡ fail operand_too_long encoder
encode_immediate-long_example =
    encode_immediate-long (pos (2 ^ 60)) encoder (omega arith) (omega arith)

align_output-write_example :
    (align_output 8 encoder ≡ ok (write (replicate (gap 8 3) 0) encoder))
    × (gap 8 3 < 8)
    × ((3 + gap 8 3) % 8 ≡ 0)
align_output-write_example = align_output-write 8 encoder (omega arith) refl

from_value_iff_example : (from_value 2 ≡ some add) ↔ (instruction_value add ≡ 2)
from_value_iff_example = from_value_iff 2 add

from_mnemonic_iff_example :
    (from_mnemonic (codes "MOV") ≡ some move)
    ↔ ((descriptor move).mnemonic ≡ to_lowercase (codes "MOV"))
from_mnemonic_iff_example = from_mnemonic_iff (codes "MOV") move
