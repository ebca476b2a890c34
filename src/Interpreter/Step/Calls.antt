-- ===== src/Interpreter/Step/Calls.antt =====
-- src/interpreter/mod.rs: the stack, and `call` together with `return`.
use lakesis.Base.{ℕ, ◌^◌, ◌<◌, ◌≡◌, refl, arith, [], length}
use lakesis.Base.Result.{ok}
use lakesis.Core.{word_byte_size}
use lakesis.Opcodes.Decode.{Opcode}
use lakesis.Interpreter.Data.{DataWord}
use lakesis.Interpreter.Memory.Store.DataWords.{HoldsWord, get_data_word-set_data_word}
use lakesis.Interpreter.Cpu.{
  CpuState, Interpreter, wrapping_add, wrapping_sub, ensure_operands, push_stack, pop_stack,
  with_cpu, reference_word,
}
use lakesis.Interpreter.Step.{read_operand, step_call, step_return}

wrapping_add-wrapping_sub :
    (a b : ℕ) → a < 2 ^ 64 → b < 2 ^ 64 → wrapping_add (wrapping_sub a b) b ≡ a
unfolding wrapping_add wrapping_sub
wrapping_add-wrapping_sub a b h k = omega arith

-- Where a word can stand at the stack pointer, pushing it succeeds, moves the stack pointer one word
-- down and leaves the rest of the processor. Whatever the registers, the flags and the instruction
-- pointer are then, popping gives the word back with its mark, and the stack pointer it had before.
pub pop_stack-push_stack :
    (w : DataWord) (i : Interpreter) (c : CpuState)
    → w.value < 2 ^ 64
    → i.cpu_state.stack_pointer < 2 ^ 64
    → HoldsWord i.cpu_state.stack_pointer i.memory
    → (pushed : Interpreter) × (push_stack w i ≡ ok pushed)
      × (pushed.cpu_state ≡ record (i.cpu_state) {
        stack_pointer = wrapping_sub i.cpu_state.stack_pointer word_byte_size;
      })
      × (pop_stack (with_cpu (record c { stack_pointer = pushed.cpu_state.stack_pointer }) pushed)
          ≡ ok (w, with_cpu (record c { stack_pointer = i.cpu_state.stack_pointer }) pushed))
unfolding push_stack pop_stack with_cpu
pop_stack-push_stack w i c small low holds =
    let sp = i.cpu_state.stack_pointer in
    let (heap, _, writing, reading) = get_data_word-set_data_word sp w i.memory small holds in
    let back : wrapping_add (wrapping_sub sp word_byte_size) word_byte_size ≡ sp =
      wrapping_add-wrapping_sub sp word_byte_size low (omega arith) in
    let pushed : Interpreter = record {
      cpu_state = record (i.cpu_state) { stack_pointer = wrapping_sub sp word_byte_size };
      memory = record (i.memory) { heap = heap };
    } in
    (pushed, rw writing refl, refl, rw (back, reading) refl)

-- Where a word can stand at the stack pointer, a call with an operand that can be read goes to the
-- operand's value. A return from any state of the registers and flags, with the stack and the memory
-- as the call left them, goes back to the instruction behind the call, with the stack pointer from
-- before the call, and changes nothing else.
pub step_return-step_call :
    (calling returning : Opcode) (i : Interpreter) (c : CpuState) {target : DataWord}
    → length calling.operands ≡ 1
    → read_operand 0 calling i ≡ ok target
    → returning.operands ≡ []
    → i.cpu_state.instruction_pointer < 2 ^ 64
    → i.cpu_state.stack_pointer < 2 ^ 64
    → HoldsWord i.cpu_state.stack_pointer i.memory
    → (called : Interpreter) × (step_call calling i ≡ ok called)
      × (called.cpu_state.instruction_pointer ≡ target.value)
      × (step_return returning
            (with_cpu (record c { stack_pointer = called.cpu_state.stack_pointer }) called)
          ≡ ok (
              with_cpu
                (record c {
                  stack_pointer = i.cpu_state.stack_pointer;
                  instruction_pointer = i.cpu_state.instruction_pointer;
                })
                called))
unfolding step_call step_return ensure_operands with_cpu
step_return-step_call calling returning i c {target} one reading none small low holds =
    let (pushed, pushing, _, popping) =
      pop_stack-push_stack (reference_word i.cpu_state.instruction_pointer) i c small low holds in
    let called : Interpreter =
      with_cpu (record (pushed.cpu_state) { instruction_pointer = target.value }) pushed in
    (called, rw (one, reading, pushing) refl, refl, rw (none, popping) refl)
