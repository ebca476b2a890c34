-- ===== src/Interpreter/Cpu.antt =====
-- The state of the interpreter of src/interpreter/mod.rs, and its reads, writes, jumps and stack.
use lakesis.Base.{
  ℕ, ◌+◌, ◌-◌, ◌*◌, ◌%◌, ◌^◌, Bool, true, false, ◌&&◌, not, List, Option, none, some, ◌==◌,
  if◌then◌else◌, length, get_elem?, set, replicate,
}
use lakesis.Base.Words.{as_uword}
use lakesis.Base.Result.{ok, err, panic, ◌>>=◌, ◌>>◌, guard, unwrap}
use lakesis.Core.{
  CoreResult, register_num, word_byte_size, expected_operands, immediate_destination,
}
use lakesis.Opcodes.Operand.{Operand, immediate, register, reference, stack}
use lakesis.Opcodes.Decode.{Opcode}
use lakesis.Interpreter.Data.{DataWord, expect_reference}
use lakesis.Interpreter.Memory.Store.{Memory, get_data_word, set_data_word}

pub record CpuState : Type 0 where
  pub registers : List DataWord
  pub stack_pointer : ℕ
  pub instruction_pointer : ℕ
  pub carry_flag : Bool
  pub zero_flag : Bool

pub record Interpreter : Type 0 where
  pub cpu_state : CpuState
  pub memory : Memory

abbrev pub data_word : ℕ → DataWord
data_word v = record { value = v; is_reference = false }

abbrev pub reference_word : ℕ → DataWord
reference_word v = record { value = v; is_reference = true }

-- `CpuState::default`
unfoldable pub cpu_default : CpuState
cpu_default = record {
  registers = replicate register_num (data_word 0);
  stack_pointer = 0;
  instruction_pointer = 0;
  carry_flag = false;
  zero_flag = false;
}

-- `Wrapping` addition and subtraction.
unfoldable pub wrapping_add : ℕ → ℕ → ℕ
wrapping_add a b = (a + b) % 2 ^ 64

unfoldable pub wrapping_sub : ℕ → ℕ → ℕ
wrapping_sub a b = (a + 2 ^ 64 - b) % 2 ^ 64

unfoldable pub with_cpu : CpuState → Interpreter → Interpreter
with_cpu c i = record i { cpu_state = c }

unfoldable pub ensure_operands : Opcode → ℕ → CoreResult (Unit {0})
ensure_operands op expected =
    guard (length op.operands == expected) (expected_operands expected (length op.operands))

-- `opcode.operands[i]`
unfoldable pub operand_at : ℕ → Opcode → CoreResult Operand
operand_at i op = unwrap (get_elem? op.operands i)

-- `self.cpu_state.registers[i as usize]`
unfoldable pub get_register : ℕ → Interpreter → CoreResult DataWord
get_register r i = unwrap (get_elem? i.cpu_state.registers r)

unfoldable pub set_register : ℕ → DataWord → Interpreter → CoreResult Interpreter
set_register r w i = do
  old ← get_register r i
  ok (with_cpu (record (i.cpu_state) { registers = set i.cpu_state.registers r w }) i)

unfoldable pub get_effective_address : Operand → Interpreter → CoreResult ℕ
get_effective_address (reference r offset) i = do
  w ← get_register r i
  base ← expect_reference w
  ok (wrapping_add base (as_uword offset))
get_effective_address (stack offset) i = ok (wrapping_add i.cpu_state.stack_pointer offset)
get_effective_address _ i = panic

unfoldable pub read : Operand → Interpreter → CoreResult DataWord
read (immediate v) i = ok (data_word (as_uword v))
read (register r) i = get_register r i
read op i = do addr ← get_effective_address op i; get_data_word addr i.memory

unfoldable pub write : Operand → DataWord → Interpreter → CoreResult Interpreter
write (immediate _) w i = err immediate_destination
write (register r) w i = set_register r w i
write op w i = do
  addr ← get_effective_address op i
  m ← set_data_word addr w i.memory
  ok (record i { memory = m })

unfoldable pub write_with_flags : Operand → DataWord → Interpreter → CoreResult Interpreter
write_with_flags op w i = do
  i' ← write op w i
  ok (with_cpu (record (i'.cpu_state) { carry_flag = false; zero_flag = w.value == 0 }) i')

-- The operands are read in order, and the result goes to the second.
unfoldable pub combine_with_carry :
    Opcode
    → (DataWord → DataWord → CoreResult (DataWord × Bool))
    → Interpreter
    → CoreResult Interpreter
combine_with_carry op operation i = do
  ensure_operands op 2
  source ← operand_at 0 op
  value1 ← read source i
  target ← operand_at 1 op
  value2 ← read target i
  (result, carry) ← operation value1 value2
  i' ← write_with_flags target result i
  ok (with_cpu (record (i'.cpu_state) { carry_flag = carry }) i')

unfoldable pub reverse_combine_with_carry :
    Opcode
    → (DataWord → DataWord → CoreResult (DataWord × Bool))
    → Interpreter
    → CoreResult Interpreter
reverse_combine_with_carry op operation = combine_with_carry op (λ a b. operation b a)

unfoldable pub combine :
    Opcode → (DataWord → DataWord → DataWord) → Interpreter → CoreResult Interpreter
combine op operation i = do
  ensure_operands op 2
  source ← operand_at 0 op
  value1 ← read source i
  target ← operand_at 1 op
  value2 ← read target i
  write_with_flags target (operation value1 value2) i

unfoldable pub jump : Opcode → Interpreter → CoreResult Interpreter
jump op i = do
  ensure_operands op 1
  target ← operand_at 0 op
  w ← read target i
  ok (with_cpu (record (i.cpu_state) { instruction_pointer = w.value }) i)

-- `None` accepts both values of a flag.
unfoldable pub flag_matches : Option Bool → Bool → Bool
flag_matches none flag = true
flag_matches (some true) flag = flag
flag_matches (some false) flag = not flag

unfoldable pub conditional_jump :
    Opcode → Option Bool → Option Bool → Interpreter → CoreResult Interpreter
conditional_jump op zero_flag carry_flag i =
    if flag_matches zero_flag i.cpu_state.zero_flag
      && flag_matches carry_flag i.cpu_state.carry_flag
    then jump op i
    else ok i

unfoldable pub push_stack : DataWord → Interpreter → CoreResult Interpreter
push_stack w i = do
  m ← set_data_word i.cpu_state.stack_pointer w i.memory
  ok (record {
    cpu_state = record (i.cpu_state) {
      stack_pointer = wrapping_sub i.cpu_state.stack_pointer word_byte_size;
    };
    memory = m;
  })

unfoldable pub pop_stack : Interpreter → CoreResult (DataWord × Interpreter)
pop_stack i = do
  let sp = wrapping_add i.cpu_state.stack_pointer word_byte_size
  w ← get_data_word sp i.memory
  ok (w, with_cpu (record (i.cpu_state) { stack_pointer = sp }) i)

unfoldable pub read_native_parameter : ℕ → Interpreter → CoreResult DataWord
read_native_parameter index i =
    get_data_word
      (wrapping_add i.cpu_state.stack_pointer (wrapping_add index 1 * word_byte_size % 2 ^ 64))
      i.memory
