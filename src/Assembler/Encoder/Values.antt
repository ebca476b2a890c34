-- ===== src/Assembler/Encoder/Values.antt =====
-- The value bytes of an operand hold its value, and the first byte holds the other parts.
use Prim.Native.Nat.{bit_and, bit_or}
use mathlib.Core.List.{reverse-cons, reverse-reverse}
use mathlib.Core.Logic.{◌≢◌}
use lakesis.Base.{
  ℕ, ◌+◌, ◌*◌, ◌/◌, ◌%◌, ◌^◌, ◌≤◌, ◌<◌, ◌≡◌, refl, sym, ap, ◌∙◌, List, [], ◌∷◌, arith, length,
  length-append, reverse, ◌==◌, Bool-cases, inl, inr, ==_iff, if◌then◌else◌,
}
use lakesis.Base.Bytes.{
  to_le_bytes, from_le_bytes, length-to_le_bytes, agree_below, agree_below→eq,
  from_le_bytes-append_zeros, from_le_bytes-to_le_bytes,
}
use lakesis.Assembler.Encoder.{pop_zeros}

length-reverse : (xs : List ℕ) → length (reverse xs) ≡ length xs
length-reverse [] = refl
length-reverse (x ∷ xs) =
    rw (reverse-cons x xs) (omega (arith, length-append (reverse xs) (x ∷ []), length-reverse xs))

length-pop_zeros : (xs : List ℕ) → length (pop_zeros xs) ≤ length xs
unfolding pop_zeros
length-pop_zeros [] = omega arith
length-pop_zeros (x ∷ xs) = ground (arith, length-pop_zeros xs)

pop_zeros_value :
    (xs : List ℕ) → from_le_bytes (reverse (pop_zeros xs)) ≡ from_le_bytes (reverse xs)
unfolding pop_zeros
pop_zeros_value [] = refl
pop_zeros_value (x ∷ xs) = elim (Bool-cases (x == 0)) [
  | inl z ↦
      rw (z, reverse-cons, (==_iff x 0).0 z)
        (pop_zeros_value xs ∙ sym (from_le_bytes-append_zeros (reverse xs) 1))
  | inr n ↦ rw n
]

-- The bytes without the trailing zeros, at most eight, have the value of the word.
unfoldable pub stripped : ℕ → List ℕ
stripped v = reverse (pop_zeros (reverse (to_le_bytes 8 v)))

pub stripped_value : (v : ℕ) → v < 2 ^ 64 → from_le_bytes (stripped v) ≡ v
unfolding stripped
stripped_value v h =
    pop_zeros_value (reverse (to_le_bytes 8 v))
    ∙ ap from_le_bytes (reverse-reverse (to_le_bytes 8 v))
    ∙ from_le_bytes-to_le_bytes v h

pub length-stripped : (v : ℕ) → length (stripped v) ≤ 8
unfolding stripped
length-stripped v = rw length-reverse (
    omega (
      arith,
      length-pop_zeros (reverse (to_le_bytes 8 v)),
      length-reverse (to_le_bytes 8 v),
      length-to_le_bytes 8 v,
    ))

pop_zeros-zero : (x : ℕ) (xs : List ℕ) → x ≡ 0 → length (pop_zeros (x ∷ xs)) ≤ length xs
unfolding pop_zeros
pop_zeros-zero x xs h = ground (arith, length-pop_zeros xs)

pop_zeros-other : (x : ℕ) (xs : List ℕ) → x ≢ 0 → pop_zeros (x ∷ xs) ≡ x ∷ xs
unfolding pop_zeros
pop_zeros-other x xs h = ground arith

low_seven : ℕ → List ℕ
low_seven v = reverse (to_le_bytes 7 v)

last_byte : ℕ → ℕ
last_byte v = v / 256 / 256 / 256 / 256 / 256 / 256 / 256 % 256

reverse-to_le_bytes : (v : ℕ) → reverse (to_le_bytes 8 v) ≡ last_byte v ∷ low_seven v
unfolding to_le_bytes low_seven last_byte
reverse-to_le_bytes v = refl

length-low_seven : (v : ℕ) → length (low_seven v) ≡ 7
unfolding low_seven
length-low_seven v = length-reverse (to_le_bytes 7 v) ∙ length-to_le_bytes 7 v

-- A word takes seven bytes or fewer exactly if it is below 2 ^ 56.
pub stripped_short : (v : ℕ) → v < 2 ^ 56 → length (stripped v) ≤ 7
unfolding stripped last_byte
stripped_short v h =
    rw (length-reverse, reverse-to_le_bytes)
      (omega (arith, pop_zeros-zero (last_byte v) (low_seven v) (omega arith), length-low_seven v))

pub stripped_long : (v : ℕ) → v < 2 ^ 64 → 2 ^ 56 ≤ v → length (stripped v) ≡ 8
unfolding stripped last_byte
stripped_long v h l =
    rw
      (
        length-reverse,
        reverse-to_le_bytes,
        pop_zeros-other (last_byte v) (low_seven v) (omega arith),
      )
      (omega (arith, length-low_seven v))

-- The first byte of an operand, from the numbers of its fields.
unfoldable pub first_byte : ℕ → ℕ → ℕ → ℕ → ℕ
first_byte m r s n =
    let b = bit_or (bit_and (m * 2 ^ 6 % 256) 0xc0) (bit_and (r * 2 ^ 4 % 256) 0x30) in
    bit_or (if s == 0 then b else bit_or b 0x08) (bit_and (n % 256 * 2 ^ 0 % 256) 0x07)

first_byte_table : (b : ℕ) → b < 256 → first_byte (b / 64) (b / 16 % 4) (b / 8 % 2) (b % 8) ≡ b
unfolding first_byte agree_below
first_byte_table =
    agree_below→eq (λ b. first_byte (b / 64) (b / 16 % 4) (b / 8 % 2) (b % 8)) (λ b. b) 256 refl

abbrev pub packed : ℕ → ℕ → ℕ → ℕ → ℕ
packed m r s n = 64 * m + 16 * r + 8 * s + n

-- The fields do not overlap.
pub first_byte-packed :
    (m r s n : ℕ) → m < 4 → r < 4 → s < 2 → n < 8 → first_byte m r s n ≡ packed m r s n
first_byte-packed m r s n hm hr hs hn =
    rw (mode, reg, sign, size) at (first_byte_table (packed m r s n) (omega arith))
  where
    mode : packed m r s n / 64 ≡ m
    mode = omega arith

    reg : packed m r s n / 16 % 4 ≡ r
    reg = omega arith

    sign : packed m r s n / 8 % 2 ≡ s
    sign = omega arith

    size : packed m r s n % 8 ≡ n
    size = omega arith

-- The first byte of an opcode, from the instruction's value and the number of operands.
unfoldable pub opcode_byte : ℕ → ℕ → ℕ
opcode_byte v n = bit_or (bit_and v 0x3f) (bit_and (n % 256 * 2 ^ 6 % 256) 0xc0)

opcode_byte_table : (b : ℕ) → b < 256 → opcode_byte (b % 64) (b / 64) ≡ b
unfolding opcode_byte agree_below
opcode_byte_table = agree_below→eq (λ b. opcode_byte (b % 64) (b / 64)) (λ b. b) 256 refl

pub opcode_byte_lem : (v n : ℕ) → v < 64 → n < 4 → opcode_byte v n ≡ v + 64 * n
opcode_byte_lem v n hv hn = rw (low, high) at (opcode_byte_table (v + 64 * n) (omega arith))
  where
    low : (v + 64 * n) % 64 ≡ v
    low = omega arith

    high : (v + 64 * n) / 64 ≡ n
    high = omega arith
