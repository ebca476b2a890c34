-- ===== src/Interpreter/Data/Arithmetic.antt =====
-- The word operations and their flags.
use lakesis.Base.{ℕ, ◌+◌, ◌-◌, ◌*◌, ◌%◌, ◌^◌, ◌<◌, ◌≡◌, refl, Bool, true, false, arith, ltb, leb}
use lakesis.Base.Result.{ok}
use lakesis.Interpreter.Data.{u64_add, u64_sub}

abbrev pub flag : Bool → ℕ
flag true = 1
flag false = 0

-- The addition and the subtraction of two words give words that are exact up to the carry and the
-- borrow that they report.
pub add_and_sub_carry :
    (a b : ℕ)
    → a < 2 ^ 64
    → b < 2 ^ 64
    → (v w : ℕ) × (c d : Bool) × (u64_add a b ≡ ok (v, c))
      × (a + b ≡ v + flag c * 2 ^ 64)
      × (v < 2 ^ 64)
      × (u64_sub a b ≡ ok (w, d))
      × (a + flag d * 2 ^ 64 ≡ w + b)
      × (w < 2 ^ 64)
unfolding u64_add u64_sub
add_and_sub_carry a b ha hb = (
  (a + b) % 2 ^ 64,
  (a + 2 ^ 64 - b) % 2 ^ 64,
  leb (2 ^ 64) (a + b),
  ltb a b,
  refl,
  ground arith,
  omega arith,
  refl,
  ground arith,
  omega arith,
)
