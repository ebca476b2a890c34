-- ===== src/Base/Bytes.antt =====
-- Bytes of a machine word, little end first, and the masks on one byte as arithmetic.
use lakesis.Base.{
  ℕ, zero, suc, ◌+◌, ◌*◌, ◌/◌, ◌%◌, ◌^◌, ◌<◌, bit_and, ◌≡◌, refl, Bool, true, ◌&&◌, List, [], ◌∷◌,
  ◌++◌, arith, ◌==◌, length, replicate,
}

abbrev pub IsByte : ℕ → Type 0
IsByte b = b < 256

abbrev pub IsU64 : ℕ → Type 0
IsU64 v = v < 2 ^ 64

-- `value.to_le_bytes()`: its first `n` bytes.
unfoldable pub to_le_bytes : ℕ → ℕ → List ℕ
to_le_bytes zero v = []
to_le_bytes (suc n) v = (v % 256) ∷ to_le_bytes n (v / 256)

-- `UWord::from_le_bytes(bytes)`.
unfoldable pub from_le_bytes : List ℕ → ℕ
from_le_bytes [] = 0
from_le_bytes (b ∷ bs) = b + 256 * from_le_bytes bs

pub length-to_le_bytes : (n v : ℕ) → length (to_le_bytes n v) ≡ n
unfolding to_le_bytes
length-to_le_bytes zero v = refl
length-to_le_bytes (suc n) v = omega (arith, length-to_le_bytes n (v / 256))

pub from_le_bytes-zeros : (n : ℕ) → from_le_bytes (replicate n 0) ≡ 0
unfolding from_le_bytes
from_le_bytes-zeros zero = refl
from_le_bytes-zeros (suc n) = omega (arith, from_le_bytes-zeros n)

pub from_le_bytes-append_zeros :
    (bs : List ℕ) (n : ℕ) → from_le_bytes (bs ++ replicate n 0) ≡ from_le_bytes bs
unfolding from_le_bytes
from_le_bytes-append_zeros [] n = from_le_bytes-zeros n
from_le_bytes-append_zeros (b ∷ bs) n = omega (arith, from_le_bytes-append_zeros bs n)

-- Eight bytes hold a word.
pub from_le_bytes-to_le_bytes : (v : ℕ) → v < 2 ^ 64 → from_le_bytes (to_le_bytes 8 v) ≡ v
unfolding from_le_bytes to_le_bytes
from_le_bytes-to_le_bytes v h = omega arith

module _ (f g : ℕ → ℕ) where
  unfoldable pub agree_below : ℕ → Bool
  agree_below zero = true
  agree_below (suc n) = f n == g n && agree_below n

  pub agree_below→eq : (n : ℕ) → agree_below n ≡ true → (i : ℕ) → i < n → f i ≡ g i
  unfolding agree_below
  agree_below→eq zero e i h = absurd (omega arith)
  agree_below→eq (suc n) e i h = ground (arith, agree_below→eq n (ground arith) i)

-- The masks of src/opcodes.rs on one byte.
pub low_six : (b : ℕ) → b < 256 → bit_and b 0x3f ≡ b % 64
unfolding agree_below
low_six = agree_below→eq _ _ 256 refl

pub top_two : (b : ℕ) → b < 256 → bit_and b 0xc0 ≡ b / 64 * 64
unfolding agree_below
top_two = agree_below→eq _ _ 256 refl

pub bits_four_five : (b : ℕ) → b < 256 → bit_and b 0x30 ≡ b / 16 % 4 * 16
unfolding agree_below
bits_four_five = agree_below→eq _ _ 256 refl

pub bit_three : (b : ℕ) → b < 256 → bit_and b 0x08 ≡ b / 8 % 2 * 8
unfolding agree_below
bit_three = agree_below→eq _ _ 256 refl

pub low_three : (b : ℕ) → b < 256 → bit_and b 0x07 ≡ b % 8
unfolding agree_below
low_three = agree_below→eq _ _ 256 refl
