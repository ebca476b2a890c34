-- ===== src/Tests/Running.antt =====
-- Runs of the theorems about running programs, from their source on.
use lakesis.Base.{
  ℕ, zero, suc, ◌+◌, ◌-◌, ◌%◌, ◌^◌, ◌<◌, ◌≡◌, ◌↔◌, refl, arith, inl, inr, List, [], ◌∷◌, ◌++◌, map,
  length, replicate, Option, some, none, true, false,
}
use lakesis.Base.Int.{pos, negsuc}
use lakesis.Base.Result.{ok, >>=-eq-ok}
use lakesis.Opcodes.Instruction.{move, halt, call, return}
use lakesis.Opcodes.Operand.{immediate, register}
use lakesis.Opcodes.Decode.{Opcode, decode}
use lakesis.Opcodes.Cursor.{cursor, listing}
use lakesis.Assembler.Lexer.Single.{lex}
use lakesis.Assembler.Parser.Statements.{parse}
use lakesis.Assembler.Output
use lakesis.Assembler.Output.{Output, empty}
use lakesis.Assembler.Encoder
use lakesis.Assembler.Encoder.{encode}
use lakesis.Assembler.Encoder.Program.{token_of, opcode_of}
use lakesis.Assembler.Assemble.{assemble}
use lakesis.Interpreter.Data.{DataWord}
use lakesis.Interpreter.Memory.IdMap
use lakesis.Interpreter.Memory.Sizes.{round_down_to}
use lakesis.Interpreter.Memory.Mapper.{new_block, translate}
use lakesis.Interpreter.Memory.Allocator.{new_allocation}
use lakesis.Interpreter.Memory.Store.{
  Memory, Allocation, addr_to_allocation, bitfield_start, bitfield_end, set_data_word,
  get_data_word,
}
use lakesis.Interpreter.Memory.Store.DataWords.{HoldsWord, get_data_word-set_data_word}
use lakesis.Interpreter.Cpu.{
  Interpreter, CpuState, cpu_default, data_word, reference_word, wrapping_sub, with_cpu, push_stack,
  pop_stack,
}
use lakesis.Interpreter.Step.{step_call, step_return, execute}
use lakesis.Interpreter.Step.Calls.{pop_stack-push_stack, step_return-step_call}
use lakesis.Interpreter.Run.{Trace, step, run_loop}
use lakesis.Interpreter.Run.Fetch.{HoldsCode, at, step-decode}
use lakesis.Interpreter.Run.Straight.{combines}
use lakesis.Interpreter.Run.Listing.{execute_lines, run_loop-listing, run_loop-ends}
use lakesis.Interpreter.Run.Assembled.{run_loop-assemble}
use lakesis.Tests.Lexing.{ascii, text, lines, accepted, text_lacks}

-- mov -300, r1; halt
abbrev pub code : List ℕ
code = 129 ∷ 10 ∷ 44 ∷ 1 ∷ 80 ∷ 63 ∷ []

abbrev pub output : Output
output = record { bytes = code; position = 6 }

encoded : encode (map token_of lines) empty ≡ ok output
unfolding encode Encoder.encoder_new Encoder.is_eof Encoder.token_at Encoder.range Encoder.fail
    Encoder.consume Encoder.write Encoder.write_byte Encoder.get_operand_data Encoder.pop_zeros
    Encoder.value_bytes_of Encoder.mode_bits Encoder.remember_fixup Encoder.write_operand
    Encoder.encode_data Encoder.encode_operand Encoder.encode_operands Encoder.encode_opcode
    Encoder.encode_value Encoder.encode_single Encoder.encode_tokens Encoder.fixup_loop
    Encoder.fixup Output.overwrite Output.write_all Output.seek lakesis.Base.Bytes.to_le_bytes
    lakesis.Opcodes.Instruction.instruction_value lakesis.Base.Words.abs_iword
encoded = refl

pub assembled : assemble ascii text empty ≡ ok output
unfolding assemble
assembled =
    let (ts, lexed, parsed) = >>=-eq-ok (lex ascii text) parse accepted in
    rw lexed (rw parsed encoded)

-- Sixteen bytes at address 0, with the code in front, and their byte of marks.
abbrev room : Allocation
room = new_allocation 0 16 true none 1 1 1

abbrev memory : Memory
memory = record {
  virtual_mapper = record {
    blocks = record { next_id = 2; entries = (1, new_block 1 0 16 1) ∷ [] };
    mappings = (0, record { block = 1; offset = 0 }) ∷ [];
    next_address = 1024;
  };
  regions = record {
    map = record {
      next_id = 2;
      entries =
          (
            1,
            record {
              id = 1;
              state = lakesis.Interpreter.Memory.Regions.used 1;
              base = 0;
              length = 17;
            },
          )
          ∷ [];
    };
    in_order = 1 ∷ [];
  };
  allocations = record { next_id = 2; entries = (1, room) ∷ [] };
  heap = code ++ replicate 11 0;
}

abbrev machine : Interpreter
machine = record { cpu_state = record cpu_default { stack_pointer = 8 }; memory = memory }

top : HoldsWord 8 memory
unfolding addr_to_allocation translate round_down_to lakesis.Base.Dict.lookup IdMap.get bitfield_end
    bitfield_start lakesis.Interpreter.Memory.Sizes.bitfield_len lakesis.Base.Words.add_uword
    lakesis.Base.Words.sub_uword
top = record {
  allocation = room;
  offset = 8;
  end = 17;
  aligned = refl;
  mapped = refl;
  room = omega arith;
  marks = refl;
  inside = omega arith;
  marked = omega arith;
}

code_mapped : (k : ℕ) → k < 6 → addr_to_allocation (0 + k) memory ≡ ok (room, 0 + k)
unfolding addr_to_allocation translate round_down_to lakesis.Base.Dict.lookup IdMap.get
code_mapped zero h = refl
code_mapped (suc zero) h = refl
code_mapped (suc (suc zero)) h = refl
code_mapped (suc (suc (suc zero))) h = refl
code_mapped (suc (suc (suc (suc zero)))) h = refl
code_mapped (suc (suc (suc (suc (suc zero))))) h = refl
code_mapped (suc (suc (suc (suc (suc (suc k)))))) h = absurd (omega arith)

abbrev held : HoldsCode memory 0 code
held = record {
  allocation = room;
  offset = 0;
  mapped = code_mapped;
  room = omega arith;
  front = [];
  back = replicate 11 0;
  stored = refl;
  here = refl;
  below = omega arith;
}

abbrev word : DataWord
word = reference_word 70000

get_data_word-set_data_word_example :
    (heap : List ℕ) × (length heap ≡ length memory.heap)
    × (set_data_word 8 word memory ≡ ok (record memory { heap = heap }))
    × (get_data_word 8 (record memory { heap = heap }) ≡ ok word)
get_data_word-set_data_word_example = get_data_word-set_data_word 8 word memory (omega arith) top

pop_stack-push_stack_example :
    (pushed : Interpreter) × (push_stack word machine ≡ ok pushed)
    × (pushed.cpu_state ≡ record (machine.cpu_state) { stack_pointer = wrapping_sub 8 8 })
    × (pop_stack
          (with_cpu (record cpu_default { stack_pointer = pushed.cpu_state.stack_pointer }) pushed)
        ≡ ok (word, with_cpu (record cpu_default { stack_pointer = 8 }) pushed))
pop_stack-push_stack_example =
    pop_stack-push_stack word machine cpu_default (omega arith) (omega arith) top

abbrev calling : Opcode
calling = record { instruction = call; operands = immediate (pos 5) ∷ [] }

abbrev returning : Opcode
returning = record { instruction = return; operands = [] }

step_return-step_call_example :
    (called : Interpreter) × (step_call calling machine ≡ ok called)
    × (called.cpu_state.instruction_pointer ≡ 5)
    × (step_return returning
          (with_cpu (record cpu_default { stack_pointer = called.cpu_state.stack_pointer }) called)
        ≡ ok (with_cpu (record cpu_default { stack_pointer = 8; instruction_pointer = 0 }) called))
unfolding lakesis.Interpreter.Step.read_operand lakesis.Interpreter.Cpu.operand_at
    lakesis.Interpreter.Cpu.read lakesis.Base.Words.as_uword cpu_default
step_return-step_call_example =
    step_return-step_call calling returning machine cpu_default {target = data_word 5} refl refl
      refl (omega arith) (omega arith) top

abbrev no_numbers : ℕ → ℕ
no_numbers k = 0

-- The machine in the end.
abbrev first_line : Opcode
first_line = record { instruction = move; operands = immediate (negsuc 299) ∷ register 1 ∷ [] }

abbrev last_line : Opcode
last_line = record { instruction = halt; operands = [] }

step-decode_example :
    (passed : List ℕ) × (code ≡ passed ++ (63 ∷ []))
    × (step 0 (at (0 + 0) machine) ≡ execute 0 move first_line (at (0 + length passed) machine))
unfolding decode cursor lakesis.Opcodes.Decode.read_byte lakesis.Opcodes.Decode.decode_instruction
    lakesis.Opcodes.Instruction.from_value lakesis.Opcodes.Decode.decode_operands
    lakesis.Opcodes.Decode.decode_operand lakesis.Base.Words.mul_iword lakesis.Base.Int.◌*ℤ◌
    lakesis.Base.Words.as_iword lakesis.Base.Bytes.from_le_bytes lakesis.Opcodes.Decode.operand_of
    lakesis.Opcodes.Instruction.descriptor lakesis.Opcodes.Decode.check_modes
    lakesis.Opcodes.Mode.can_be_used_as lakesis.Opcodes.Operand.operand_mode
step-decode_example = step-decode machine held 0 [] code (63 ∷ []) {op = first_line} refl refl

abbrev printed : List (ℕ × Opcode)
printed = (5, first_line) ∷ (6, last_line) ∷ []

listed : listing code ≡ ok printed
unfolding listing lakesis.Opcodes.Cursor.listing_loop decode cursor lakesis.Opcodes.Decode.read_byte
    lakesis.Opcodes.Decode.decode_instruction lakesis.Opcodes.Instruction.from_value
    lakesis.Opcodes.Decode.decode_operands lakesis.Opcodes.Decode.decode_operand
    lakesis.Base.Words.mul_iword lakesis.Base.Int.◌*ℤ◌ lakesis.Base.Words.as_iword
    lakesis.Base.Bytes.from_le_bytes lakesis.Opcodes.Decode.operand_of
    lakesis.Opcodes.Instruction.descriptor lakesis.Opcodes.Decode.check_modes
    lakesis.Opcodes.Mode.can_be_used_as lakesis.Opcodes.Operand.operand_mode
listed = refl

run_loop-listing_example :
    run_loop 2 no_numbers 0 (at 0 machine) ≡ execute_lines 0 no_numbers 0 printed machine
run_loop-listing_example =
    run_loop-listing 0 code no_numbers 0 printed machine held listed
      (inl (combines refl), (inr refl, tt))

run_loop-ends_example : (t : Trace) × (run_loop 2 no_numbers 0 (at 0 machine) ≡ some t)
run_loop-ends_example =
    run_loop-ends 0 code no_numbers ((5, first_line) ∷ []) [] 6 last_line machine held listed
      (inl (combines refl), (inr refl, tt)) refl

run_loop-assemble_example :
    (ls : List (ℕ × Opcode)) × (listing code ≡ ok ls)
    × (map (λ l. l.1) ls ≡ map opcode_of lines)
    × (run_loop (length ls) no_numbers 0 (at 0 machine) ≡ execute_lines 0 no_numbers 0 ls machine)
run_loop-assemble_example =
    run_loop-assemble ascii text lines output 0 no_numbers machine text_lacks accepted
      ((omega arith, (omega arith, tt)), (tt, tt)) (inl (combines refl), (inr refl, tt)) assembled
      held
