-- ===== src/Opcodes/Instruction.antt =====
-- src/opcodes.rs: the instructions, their values and their descriptors, and the lookups by value and
-- by mnemonic. A text is the list of its code points.
pub mod Lookup
use lakesis.Base.{
  ℕ, ◌+◌, Bool, true, false, ◌&&◌, List, [], ◌∷◌, map, Option, none, some, leb, ◌==◌, if◌then◌else◌,
}
use lakesis.Base.Text.{Text, codes, text_eq}
use lakesis.Opcodes.Mode.{OperandMode, read_only, read_write}

pub data Instruction : Type 0 where
  no_operation move add subtract multiply divide bitwise_and bitwise_or bitwise_xor bitwise_not :
      Instruction
  shift_left shift_right compare jump jump_equal jump_not_equal jump_greater jump_greater_equal :
      Instruction
  jump_less jump_less_equal call return push pop new garbage_collector reference unreference :
      Instruction
  call_native debug_memory debug_dump debug_cpu halt : Instruction

-- The `u8` that `#[repr(u8)]` gives an instruction.
unfoldable pub instruction_value : Instruction → ℕ
instruction_value no_operation = 0x00
instruction_value move = 0x01
instruction_value add = 0x02
instruction_value subtract = 0x03
instruction_value multiply = 0x04
instruction_value divide = 0x05
instruction_value bitwise_and = 0x06
instruction_value bitwise_or = 0x07
instruction_value bitwise_xor = 0x08
instruction_value bitwise_not = 0x09
instruction_value shift_left = 0x0a
instruction_value shift_right = 0x0b
instruction_value compare = 0x0c
instruction_value jump = 0x0d
instruction_value jump_equal = 0x0e
instruction_value jump_not_equal = 0x0f
instruction_value jump_greater = 0x10
instruction_value jump_greater_equal = 0x11
instruction_value jump_less = 0x12
instruction_value jump_less_equal = 0x13
instruction_value call = 0x14
instruction_value return = 0x15
instruction_value push = 0x16
instruction_value pop = 0x17
instruction_value new = 0x18
instruction_value garbage_collector = 0x19
instruction_value reference = 0x1a
instruction_value unreference = 0x1b
instruction_value call_native = 0x1c
instruction_value debug_memory = 0x3c
instruction_value debug_dump = 0x3d
instruction_value debug_cpu = 0x3e
instruction_value halt = 0x3f

pub record InstructionDescriptor : Type 0 where
  pub operands : List OperandMode
  pub mnemonic : Text
  pub is_jump : Bool

abbrev describe : List OperandMode → Text → Bool → InstructionDescriptor
describe ops name jumps = record { operands = ops; mnemonic = name; is_jump = jumps }

-- The table of `InstructionRepository::new`, which holds an entry for each instruction.
unfoldable pub descriptor : Instruction → InstructionDescriptor
descriptor no_operation = describe [] (codes "nop") false
descriptor halt = describe [] (codes "halt") false
descriptor add = describe (read_only ∷ read_write ∷ []) (codes "add") false
descriptor subtract = describe (read_only ∷ read_write ∷ []) (codes "sub") false
descriptor multiply = describe (read_only ∷ read_write ∷ []) (codes "mul") false
descriptor divide = describe (read_only ∷ read_write ∷ []) (codes "div") false
descriptor bitwise_and = describe (read_only ∷ read_write ∷ []) (codes "and") false
descriptor bitwise_or = describe (read_only ∷ read_write ∷ []) (codes "or") false
descriptor bitwise_xor = describe (read_only ∷ read_write ∷ []) (codes "xor") false
descriptor bitwise_not = describe (read_write ∷ []) (codes "not") false
descriptor shift_left = describe (read_only ∷ read_write ∷ []) (codes "shl") false
descriptor shift_right = describe (read_only ∷ read_write ∷ []) (codes "shr") false
descriptor compare = describe (read_only ∷ read_only ∷ []) (codes "cmp") false
descriptor jump = describe (read_only ∷ []) (codes "jmp") true
descriptor jump_equal = describe (read_only ∷ []) (codes "jeq") true
descriptor jump_not_equal = describe (read_only ∷ []) (codes "jne") true
descriptor jump_greater = describe (read_only ∷ []) (codes "jgt") true
descriptor jump_greater_equal = describe (read_only ∷ []) (codes "jge") true
descriptor jump_less = describe (read_only ∷ []) (codes "jlt") true
descriptor jump_less_equal = describe (read_only ∷ []) (codes "jle") true
descriptor call = describe (read_only ∷ []) (codes "call") true
descriptor return = describe [] (codes "ret") true
descriptor move = describe (read_only ∷ read_write ∷ []) (codes "mov") false
descriptor push = describe (read_only ∷ []) (codes "push") false
descriptor pop = describe (read_write ∷ []) (codes "pop") false
descriptor new = describe (read_only ∷ read_write ∷ []) (codes "new") false
descriptor garbage_collector = describe [] (codes "gc") false
descriptor reference = describe (read_write ∷ []) (codes "ref") false
descriptor unreference = describe (read_write ∷ []) (codes "unref") false
descriptor call_native = describe (read_only ∷ []) (codes "native") false
descriptor debug_cpu = describe (read_only ∷ []) (codes "debugcpu") false
descriptor debug_dump = describe (read_only ∷ read_only ∷ []) (codes "debugdump") false
descriptor debug_memory = describe [] (codes "debugmem") false

-- The keys of `descriptors`, in the order in which they are inserted.
abbrev pub instructions : List Instruction
instructions =
    no_operation ∷ halt ∷ add ∷ subtract ∷ multiply ∷ divide ∷ bitwise_and ∷ bitwise_or
    ∷ bitwise_xor ∷ bitwise_not ∷ shift_left ∷ shift_right ∷ compare ∷ jump ∷ jump_equal
    ∷ jump_not_equal ∷ jump_greater ∷ jump_greater_equal ∷ jump_less ∷ jump_less_equal ∷ call
    ∷ return ∷ move ∷ push ∷ pop ∷ new ∷ garbage_collector ∷ reference ∷ unreference ∷ call_native
    ∷ debug_cpu ∷ debug_dump ∷ debug_memory ∷ []

-- The last entry of a table whose key passes the test.
find_last : (Instruction → Bool) → List Instruction → Option Instruction
find_last test [] = none
find_last test (i ∷ is) = elim (find_last test is) [
  | some j ↦ some j
  | none ↦ if test i then some i else none
]

-- `by_value`: a later insertion under the same value would replace an earlier one.
unfoldable pub from_value : ℕ → Option Instruction
unfolding find_last instruction_value
from_value v = find_last (λ i. instruction_value i == v) instructions

-- `str::to_lowercase`, on the letters from `A` to `Z`. No other character has a lower case that
-- occurs in a mnemonic.
unfoldable pub to_lowercase : Text → Text
to_lowercase = map (λ c. if leb b'A' c && leb c b'Z' then c + 32 else c)

-- `by_mnemonic`.
by_mnemonic : Text → Option Instruction
unfolding find_last descriptor
by_mnemonic name = find_last (λ i. text_eq (descriptor i).mnemonic name) instructions

unfoldable pub from_mnemonic : Text → Option Instruction
unfolding by_mnemonic to_lowercase
from_mnemonic name = by_mnemonic (to_lowercase name)
