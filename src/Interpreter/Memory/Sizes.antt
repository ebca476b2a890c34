-- ===== src/Interpreter/Memory/Sizes.antt =====
-- The size computations of src/interpreter/memory.rs, on `usize` with checked arithmetic.
use lakesis.Base.{ℕ, ◌+◌, ◌-◌, ◌*◌, ◌/◌, ◌^◌, ◌≤◌, ◌<◌, ◌≡◌, arith}
use lakesis.Base.Words.{add_uword, sub_uword}
use lakesis.Base.Result.{ok, panic, ◌>>=◌}
use lakesis.Core.{CoreResult, word_byte_size}

unfoldable pub divide_round_up : ℕ → ℕ → CoreResult ℕ
divide_round_up dividend divisor = do
  a ← add_uword dividend divisor
  b ← sub_uword a 1
  ok (b / divisor)

unfoldable pub bitfield_len : ℕ → CoreResult ℕ
unfolding divide_round_up
bitfield_len data_len = divide_round_up data_len (word_byte_size * 8)

unfoldable pub total_region_len : ℕ → CoreResult ℕ
unfolding bitfield_len
total_region_len data_len = do b ← bitfield_len data_len; add_uword data_len b

unfoldable pub round_down_to : ℕ → ℕ → ℕ
round_down_to value alignment = value / alignment * alignment

-- A region of fewer than 2 ^ 63 bytes of data takes those and a byte for each 64 of them begun.
pub total_region_len_lem : (n : ℕ) → n < 2 ^ 63 → total_region_len n ≡ ok (n + (n + 63) / 64)
unfolding total_region_len add_uword sub_uword
total_region_len_lem n h = ground arith

-- The length of a region of 2 ^ 64 - 64 bytes of data or more panics.
pub total_region_len_overflow : (n : ℕ) → 2 ^ 64 - 64 ≤ n → total_region_len n ≡ panic
unfolding total_region_len add_uword sub_uword
total_region_len_overflow n h = ground arith
