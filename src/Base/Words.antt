-- ===== src/Base/Words.antt =====
-- Signed and unsigned machine words: conversions and checked operations. The checked ones panic on
-- overflow, as the program built by `cargo run` does.
use lakesis.Base.{ℕ, zero, suc, ◌+◌, ◌-◌, ◌*◌, ◌^◌, ◌<◌, ◌≡◌, Bool, arith, ltb, leb, if◌then◌else◌}
use lakesis.Base.Int.{ℤ, pos, negsuc, ◌*ℤ◌}
use lakesis.Base.Result.{Result, ok, panic}

-- `u as i64`
unfoldable pub as_iword : ℕ → ℤ
as_iword u = if ltb u (2 ^ 63) then pos u else negsuc (2 ^ 64 - 1 - u)

-- `i as u64`
unfoldable pub as_uword : ℤ → ℕ
as_uword (pos n) = n
as_uword (negsuc n) = 2 ^ 64 - 1 - n

-- The values of an `i64`.
abbrev pub fits_i64 : ℤ → Bool
fits_i64 (pos n) = ltb n (2 ^ 63)
fits_i64 (negsuc n) = ltb n (2 ^ 63)

abbrev pub IsI64 : ℤ → Type 0
IsI64 (pos n) = n < 2 ^ 63
IsI64 (negsuc n) = n < 2 ^ 63

module _ {κ} {E : Type κ} where
  -- `a * b` on `i64`
  unfoldable pub mul_iword : ℤ → ℤ → Result E ℤ
  mul_iword a b = let p = a *ℤ b in if fits_i64 p then ok p else panic

  -- `x.abs()` on `i64`
  unfoldable pub abs_iword : ℤ → Result E ℕ
  abs_iword (pos n) = ok n
  abs_iword (negsuc n) = if ltb (suc n) (2 ^ 63) then ok (suc n) else panic

  -- `-x` on `i64`
  unfoldable pub neg_iword : ℤ → Result E ℤ
  neg_iword (pos zero) = ok (pos 0)
  neg_iword (pos (suc n)) = ok (negsuc n)
  neg_iword (negsuc n) = if ltb (suc n) (2 ^ 63) then ok (pos (suc n)) else panic

  -- `a + b` on `u64` and `usize`
  unfoldable pub add_uword : ℕ → ℕ → Result E ℕ
  add_uword a b = if ltb (a + b) (2 ^ 64) then ok (a + b) else panic

  -- `a - b` on `u64` and `usize`
  unfoldable pub sub_uword : ℕ → ℕ → Result E ℕ
  sub_uword a b = if leb b a then ok (a - b) else panic

  -- `a * b` on `u64` and `usize`
  unfoldable pub mul_uword : ℕ → ℕ → Result E ℕ
  mul_uword a b = if ltb (a * b) (2 ^ 64) then ok (a * b) else panic

pub as_uword-as_iword : (u : ℕ) → u < 2 ^ 64 → as_uword (as_iword u) ≡ u
unfolding as_uword as_iword
as_uword-as_iword u h = ground arith

pub as_iword-as_uword : (i : ℤ) → IsI64 i → as_iword (as_uword i) ≡ i
unfolding as_uword as_iword
as_iword-as_uword (pos n) h = ground arith
as_iword-as_uword (negsuc n) h = ground arith
