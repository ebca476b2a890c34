-- ===== src/Interpreter/Step.antt =====
-- `Interpreter::step` of src/interpreter/mod.rs.
pub mod Compare
pub mod Calls
pub mod Sums
use Prim.Native.Nat.{bit_and, bit_or, bit_xor}
use lakesis.Base.{
  ℕ, zero, suc, ◌+◌, ◌<◌, ◌≤◌, Bool, true, false, ◌||◌, not, List, [], ◌∷◌, Option, none, some, leb,
  ◌==◌, if◌then◌else◌, length, take, drop,
}
use lakesis.Base.Result.{Result, ok, err, panic, ◌>>=◌, ◌>>◌, guard}
use lakesis.Core.{Error, CoreResult, return_to_data}
use lakesis.Opcodes.Instruction.{
  Instruction, no_operation, move, add, subtract, multiply, divide, bitwise_and, bitwise_or,
  bitwise_xor, bitwise_not, shift_left, shift_right, compare, jump_equal, jump_not_equal,
  jump_greater, jump_greater_equal, jump_less, jump_less_equal, call, return, push, pop, new,
  garbage_collector, reference, unreference, call_native, debug_memory, debug_dump, debug_cpu, halt,
}
use lakesis.Opcodes.Decode.{Opcode}
use lakesis.Interpreter.Data.{
  DataWord, overflowing_add, overflowing_sub, overflowing_mul, overflowing_div, overflowing_shl,
  overflowing_shr, plain_operation, not_word,
}
use lakesis.Interpreter.Memory.Store.{Memory, get}
use lakesis.Interpreter.Memory.Allocator.{allocate, force_garbage_collection}
use lakesis.Interpreter.Cpu.{
  CpuState, Interpreter, ensure_operands, operand_at, read, write, write_with_flags, combine,
  with_cpu, combine_with_carry, reverse_combine_with_carry, jump, conditional_jump, push_stack,
  pop_stack, reference_word,
}
use lakesis.Interpreter.Native.{
  Piece, cpu_dump, memory_dump, memory_map, native_print, native_random, native_sleep,
}

-- What a step does beside changing the interpreter: whether to go on, what is printed, and how long
-- the thread sleeps.
pub record Effects : Type 0 where
  pub running : Bool
  pub printed : List Piece
  pub slept : ℕ

abbrev pub quiet : Effects
quiet = record { running = true; printed = []; slept = 0 }

abbrev pub prints : List Piece → Effects
prints ps = record { running = true; printed = ps; slept = 0 }

abbrev pub Step : Type 0
Step = CoreResult (Interpreter × Effects)

-- The end of the arms that only change the interpreter.
unfoldable pub silent : CoreResult Interpreter → Step
silent m = do i ← m; ok (i, quiet)

-- `opcode.operands[n]`, read.
unfoldable pub read_operand : ℕ → Opcode → Interpreter → CoreResult DataWord
read_operand n op i = do o ← operand_at n op; read o i

unfoldable pub write_operand : ℕ → Opcode → DataWord → Interpreter → CoreResult Interpreter
write_operand n op w i = do o ← operand_at n op; write o w i

unfoldable pub step_move : Opcode → Interpreter → CoreResult Interpreter
step_move op i = do
  ensure_operands op 2
  w ← read_operand 0 op i
  target ← operand_at 1 op
  write_with_flags target w i

unfoldable pub step_not : Opcode → Interpreter → CoreResult Interpreter
step_not op i = do
  ensure_operands op 1
  w ← read_operand 0 op i
  target ← operand_at 0 op
  write_with_flags target (not_word w) i

unfoldable pub step_compare : Opcode → Interpreter → CoreResult Interpreter
step_compare op i = do
  ensure_operands op 2
  a ← read_operand 0 op i
  b ← read_operand 1 op i
  ok (
      with_cpu
        (record (i.cpu_state) { zero_flag = a.value == b.value; carry_flag = leb b.value a.value })
        i)

unfoldable pub step_jump_less_equal : Opcode → Interpreter → CoreResult Interpreter
step_jump_less_equal op i =
    if i.cpu_state.zero_flag || not i.cpu_state.carry_flag then jump op i else ok i

unfoldable pub step_call : Opcode → Interpreter → CoreResult Interpreter
step_call op i = do
  ensure_operands op 1
  target ← read_operand 0 op i
  i' ← push_stack (reference_word i.cpu_state.instruction_pointer) i
  ok (with_cpu (record (i'.cpu_state) { instruction_pointer = target.value }) i')

unfoldable pub step_return : Opcode → Interpreter → CoreResult Interpreter
step_return op i = do
  ensure_operands op 0
  (addr, i') ← pop_stack i
  guard addr.is_reference return_to_data
  ok (with_cpu (record (i'.cpu_state) { instruction_pointer = addr.value }) i')

unfoldable pub step_push : Opcode → Interpreter → CoreResult Interpreter
step_push op i = do ensure_operands op 1; w ← read_operand 0 op i; push_stack w i

unfoldable pub step_pop : Opcode → Interpreter → CoreResult Interpreter
step_pop op i = do ensure_operands op 1; (w, i') ← pop_stack i; write_operand 0 op w i'

unfoldable pub step_new : Opcode → Interpreter → CoreResult Interpreter
step_new op i = do
  ensure_operands op 2
  size ← read_operand 0 op i
  (addr, m) ← allocate size.value true i.cpu_state.registers none none i.memory
  write_operand 1 op (reference_word addr) (record i { memory = m })

unfoldable pub step_collect : Interpreter → CoreResult Interpreter
step_collect i = do
  m ← force_garbage_collection i.cpu_state.registers i.memory
  ok (record i { memory = m })

-- `ref` and `unref`
unfoldable pub step_mark : Bool → Opcode → Interpreter → CoreResult Interpreter
step_mark mark op i = do
  ensure_operands op 1
  w ← read_operand 0 op i
  write_operand 0 op (record w { is_reference = mark }) i

-- `unimplemented!()` panics.
unfoldable pub step_native : ℕ → Opcode → Interpreter → Step
step_native random op i = do
  ensure_operands op 1
  w ← read_operand 0 op i
  if w.value == 0
      then (do ps ← native_print i; ok (i, prints ps))
      else if w.value == 1
      then silent (native_random random i)
      else if w.value == 2
      then (do t ← native_sleep i; ok (i, record quiet { slept = t }))
      else panic

unfoldable pub step_debug_cpu : Opcode → Interpreter → Step
step_debug_cpu op i = do
  ensure_operands op 1
  w ← read_operand 0 op i
  ok (i, prints (cpu_dump w i.cpu_state ∷ []))

unfoldable pub step_debug_dump : Opcode → Interpreter → Step
step_debug_dump op i = do
  ensure_operands op 2
  addr ← read_operand 0 op i
  len ← read_operand 1 op i
  bytes ← get addr.value len.value i.memory
  ok (i, prints (memory_dump addr.value bytes ∷ []))

unfoldable pub step_debug_memory : Opcode → Interpreter → Step
step_debug_memory op i = do ensure_operands op 0; ok (i, prints (memory_map i.memory ∷ []))

-- The `match` of `step` on a decoded opcode; `random` is what `rand::random()` would give.
unfoldable pub execute : ℕ → Instruction → Opcode → Interpreter → Step
execute random no_operation op i = ok (i, quiet)
execute random move op i = silent (step_move op i)
execute random add op i = silent (combine_with_carry op overflowing_add i)
execute random subtract op i = silent (reverse_combine_with_carry op overflowing_sub i)
execute random multiply op i = silent (combine_with_carry op overflowing_mul i)
execute random divide op i = silent (reverse_combine_with_carry op overflowing_div i)
execute random bitwise_and op i = silent (combine op (plain_operation bit_and) i)
execute random bitwise_or op i = silent (combine op (plain_operation bit_or) i)
execute random bitwise_xor op i = silent (combine op (plain_operation bit_xor) i)
execute random bitwise_not op i = silent (step_not op i)
execute random shift_left op i = silent (combine_with_carry op overflowing_shl i)
execute random shift_right op i = silent (combine_with_carry op overflowing_shr i)
execute random compare op i = silent (step_compare op i)
execute random Instruction.jump op i = silent (jump op i)
execute random jump_equal op i = silent (conditional_jump op (some true) none i)
execute random jump_not_equal op i = silent (conditional_jump op (some false) none i)
execute random jump_greater op i = silent (conditional_jump op (some false) (some true) i)
execute random jump_greater_equal op i = silent (conditional_jump op none (some true) i)
execute random jump_less op i = silent (conditional_jump op none (some false) i)
execute random jump_less_equal op i = silent (step_jump_less_equal op i)
execute random call op i = silent (step_call op i)
execute random return op i = silent (step_return op i)
execute random push op i = silent (step_push op i)
execute random pop op i = silent (step_pop op i)
execute random new op i = silent (step_new op i)
execute random garbage_collector op i = silent (step_collect i)
execute random reference op i = silent (step_mark true op i)
execute random unreference op i = silent (step_mark false op i)
execute random call_native op i = step_native random op i
execute random debug_cpu op i = step_debug_cpu op i
execute random debug_dump op i = step_debug_dump op i
execute random debug_memory op i = step_debug_memory op i
execute random halt op i = ok (i, record quiet { running = false })
