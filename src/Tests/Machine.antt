-- ===== src/Tests/Machine.antt =====
-- The theorems about the instructions, on a machine with an empty memory.
use lakesis.Base.{
  ◌+◌, ◌*◌, ◌^◌, ◌<◌, ◌≡◌, refl, Bool, false, ◌||◌, not, [], ◌∷◌, ltb, leb, ◌==◌, arith,
}
use lakesis.Base.Int.{pos}
use lakesis.Base.Result.{ok}
use lakesis.Base.Words.{as_uword}
use lakesis.Opcodes.Instruction.{
  Instruction, add, subtract, compare, jump_equal, jump_not_equal, jump_greater, jump_greater_equal,
  jump_less, jump_less_equal,
}
use lakesis.Opcodes.Operand.{immediate, register}
use lakesis.Opcodes.Decode.{Opcode}
use lakesis.Interpreter.Data.{DataWord}
use lakesis.Interpreter.Data.Arithmetic.{flag}
use lakesis.Interpreter.Memory.Store.{memory_new}
use lakesis.Interpreter.Cpu.{Interpreter, cpu_default, data_word, operand_at, read, get_register}
use lakesis.Interpreter.Step.{read_operand, execute, quiet}
use lakesis.Interpreter.Step.Sums.{given, execute-add_and_sub}
use lakesis.Interpreter.Step.Compare.{compared, compare_then, jump_if, conditional_jumps}

abbrev machine : Interpreter
machine = record { cpu_state = cpu_default; memory = memory_new }

abbrev cmp : Opcode
cmp = record { instruction = compare; operands = immediate (pos 3) ∷ register 1 ∷ [] }

abbrev jmp : Opcode
jmp = record { instruction = jump_greater; operands = immediate (pos 64) ∷ [] }

conditional_jumps_example :
    let i' = compared 3 0 machine in
    let after = λ (k : Instruction). compare_then 5 cmp k jmp machine in
    (after jump_equal ≡ jump_if (3 == 0) jmp i')
    × (after jump_not_equal ≡ jump_if (not (3 == 0)) jmp i')
    × (after jump_greater ≡ jump_if (ltb 0 3) jmp i')
    × (after jump_greater_equal ≡ jump_if (leb 0 3) jmp i')
    × (after jump_less ≡ jump_if (ltb 3 0) jmp i')
    × (after jump_less_equal ≡ jump_if (leb 3 0) jmp i')
unfolding read_operand operand_at read get_register cpu_default as_uword
conditional_jumps_example =
    conditional_jumps 5 cmp jmp machine (data_word 3) (data_word 0) refl refl refl

abbrev sum_op : Opcode
sum_op = record { instruction = add; operands = immediate (pos 5) ∷ register 1 ∷ [] }

execute-add_and_sub_example :
    (sum difference : DataWord) × (carry borrow : Bool) × (execute 0 add sum_op machine
      ≡ ok (given 1 sum carry machine, quiet))
    × (0 + 5 ≡ sum.value + flag carry * 2 ^ 64)
    × (sum.value < 2 ^ 64)
    × (sum.is_reference ≡ false || false)
    × (execute 0 subtract sum_op machine ≡ ok (given 1 difference borrow machine, quiet))
    × (0 + flag borrow * 2 ^ 64 ≡ difference.value + 5)
    × (difference.value < 2 ^ 64)
    × (difference.is_reference ≡ false || false)
unfolding read get_register cpu_default as_uword
execute-add_and_sub_example =
    execute-add_and_sub 0 1 (immediate (pos 5)) sum_op machine (data_word 5) (data_word 0) refl refl
      refl (omega arith) (omega arith)
