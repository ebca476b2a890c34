-- ===== src/Core.antt =====
-- src/core.rs: the sizes of the machine, and the errors of the virtual machine. The source's error is
-- a message; here it is a constructor for each message, with the numbers that the message shows.
use lakesis.Base.{ℕ}
use lakesis.Base.Result

abbrev pub register_num : ℕ
register_num = 4

abbrev pub word_byte_size : ℕ
word_byte_size = 8

abbrev pub initial_memory_size : ℕ
initial_memory_size = 1024

abbrev pub max_memory_size : ℕ
max_memory_size = 1073741824

pub data Error : Type 0 where
  -- the standard library's error of `read_exact`
  failed_to_fill_buffer : Error
  -- src/opcodes.rs
  no_instruction_with_value : ℕ → Error
  operand_count_mismatch : ℕ → ℕ → Error
  operand_cannot_be_used invalid_addressing_mode : Error
  -- src/interpreter/mod.rs
  expected_operands : ℕ → ℕ → Error
  expected_a_reference expected_data immediate_destination return_to_data : Error
  base_not_a_reference unterminated_placeholder string_not_a_reference : Error
  program_not_at_zero : Error
  -- src/interpreter/memory.rs
  not_word_aligned not_byte_aligned unmapped_address base_not_page_aligned : ℕ → Error
  base_not_available : ℕ → Error
  unmapped_memory out_of_memory : Error
  bytes_not_available : ℕ → ℕ → Error
  invalid_allocation_id invalid_virtual_block_id invalid_region_id invalid_heap_region_id : Error

-- `Result<T>` of src/core.rs.
abbrev pub CoreResult {ℓ} : Type ℓ → Type ℓ
CoreResult A = Result.Result Error A
