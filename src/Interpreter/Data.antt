-- ===== src/Interpreter/Data.antt =====
-- `DataValue` of src/interpreter/mod.rs: a word with its mark as a reference, and the operations on words.
pub mod Arithmetic
use lakesis.Base.{
  ℕ, ◌+◌, ◌-◌, ◌*◌, ◌/◌, ◌%◌, ◌^◌, bit_and, bit_or, Bool, true, false, ◌||◌, not, ltb, leb, ◌==◌,
  if◌then◌else◌,
}
use Prim.Native.Nat.{bit_xor}
use lakesis.Base.Result.{Result, ok, err, panic, ◌>>=◌}
use lakesis.Core.{CoreResult, expected_a_reference, expected_data as expected_data_error}

pub record DataValue {ℓ} (A : Type ℓ) : Type ℓ where
  pub value : A
  pub is_reference : Bool

abbrev pub DataWord : Type 0
DataWord = DataValue ℕ

module _ {ℓ} {A : Type ℓ} where
  unfoldable pub expect_reference : DataValue A → CoreResult A
  expect_reference d = if not d.is_reference then err expected_a_reference else ok d.value

  unfoldable pub expect_data : DataValue A → CoreResult A
  expect_data d = if d.is_reference then err expected_data_error else ok d.value

  unfoldable pub map_value {κ} : {B : Type κ} → (A → B) → DataValue A → DataValue B
  map_value f d = record { value = f d.value; is_reference = d.is_reference }

  unfoldable pub combine_values {κ μ} :
      {B : Type κ} {C : Type μ} → (A → B → C) → DataValue A → DataValue B → DataValue C
  combine_values f a b = record {
    value = f a.value b.value;
    is_reference = a.is_reference || b.is_reference;
  }

-- The operations of the standard library's `u64` with their overflow flag. Division by zero panics, and
-- a shift takes the last six bits of its number.
abbrev pub Operation : Type 0
Operation = ℕ → ℕ → CoreResult (ℕ × Bool)

unfoldable pub u64_add : Operation
u64_add a b = ok ((a + b) % 2 ^ 64, leb (2 ^ 64) (a + b))

unfoldable pub u64_sub : Operation
u64_sub a b = ok ((a + 2 ^ 64 - b) % 2 ^ 64, ltb a b)

unfoldable pub u64_mul : Operation
u64_mul a b = ok (a * b % 2 ^ 64, leb (2 ^ 64) (a * b))

unfoldable pub u64_div : Operation
u64_div a b = if b == 0 then panic else ok (a / b, false)

unfoldable pub u64_shl : Operation
u64_shl a n = ok (a * 2 ^ (n % 64) % 2 ^ 64, leb 64 n)

unfoldable pub u64_shr : Operation
u64_shr a n = ok (a / 2 ^ (n % 64), leb 64 n)

-- `overflowing_operation`: the combined word, and the flag.
unfoldable pub overflowing_operation :
    Operation → DataWord → DataWord → CoreResult (DataWord × Bool)
overflowing_operation op a b = do
  (v, carry) ← op a.value b.value
  ok (combine_values (λ _ _. v) a b, carry)

unfoldable pub overflowing_add : DataWord → DataWord → CoreResult (DataWord × Bool)
overflowing_add = overflowing_operation u64_add

unfoldable pub overflowing_sub : DataWord → DataWord → CoreResult (DataWord × Bool)
overflowing_sub = overflowing_operation u64_sub

unfoldable pub overflowing_mul : DataWord → DataWord → CoreResult (DataWord × Bool)
overflowing_mul = overflowing_operation u64_mul

unfoldable pub overflowing_div : DataWord → DataWord → CoreResult (DataWord × Bool)
overflowing_div = overflowing_operation u64_div

-- The number of the shift is cut to 32 bits, `b as u32`.
unfoldable pub overflowing_shl : DataWord → DataWord → CoreResult (DataWord × Bool)
overflowing_shl = overflowing_operation (λ a b. u64_shl a (b % 2 ^ 32))

unfoldable pub overflowing_shr : DataWord → DataWord → CoreResult (DataWord × Bool)
overflowing_shr = overflowing_operation (λ a b. u64_shr a (b % 2 ^ 32))

-- An operation that has no flag.
unfoldable pub plain_operation : (ℕ → ℕ → ℕ) → DataWord → DataWord → DataWord
plain_operation f = combine_values f

-- `!x` on `u64`
unfoldable pub not_word : DataWord → DataWord
not_word = map_value (λ v. 2 ^ 64 - 1 - v)
