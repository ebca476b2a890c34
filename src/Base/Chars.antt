-- ===== src/Base/Chars.antt =====
-- What the standard library does with the characters and the texts of a source.
use lakesis.Base.{
  ℕ, ◌+◌, ◌-◌, ◌*◌, ◌^◌, Bool, true, false, ◌&&◌, ◌||◌, [], ◌∷◌, Option, none, some, ltb, leb, ◌==◌,
  if◌then◌else◌,
}
use lakesis.Base.Text.{Text}

-- `char::to_digit`, for radices up to 16.
unfoldable pub digit_value : ℕ → Option ℕ
digit_value c =
    if leb b'0' c && leb c b'9'
    then some (c - b'0')
    else if leb b'a' c && leb c b'f'
    then some (10 + (c - b'a'))
    else if leb b'A' c && leb c b'F'
    then some (10 + (c - b'A'))
    else none

unfoldable pub is_below : ℕ → Option ℕ → Bool
is_below radix none = false
is_below radix (some d) = ltb d radix

-- `char::is_digit`
unfoldable pub is_digit : ℕ → ℕ → Bool
is_digit radix c = is_below radix (digit_value c)

-- A digit behind digits of the value `n`, and what follows.
unfoldable pub with_digit : (ℕ → Option ℕ) → ℕ → ℕ → Option ℕ → Option ℕ
with_digit next radix n none = none
with_digit next radix n (some d) = if ltb d radix then next (n * radix + d) else none

-- The value of digits behind digits of the value `n`.
unfoldable pub digits_value : ℕ → ℕ → Text → Option ℕ
digits_value radix n [] = some n
digits_value radix n (c ∷ cs) = with_digit (λ m. digits_value radix m cs) radix n (digit_value c)

-- `i64::from_str_radix`, on digits without a sign, of which there is one at least.
unfoldable pub fits_positive : Option ℕ → Option ℕ
fits_positive none = none
fits_positive (some n) = if ltb n (2 ^ 63) then some n else none

unfoldable pub from_str_radix : Text → ℕ → Option ℕ
from_str_radix digits radix = fits_positive (digits_value radix 0 digits)

-- `ends_with`
unfoldable pub ends_with : ℕ → Text → Bool
ends_with c [] = false
ends_with c (x ∷ []) = x == c
ends_with c (x ∷ (y ∷ ys)) = ends_with c (y ∷ ys)

unfoldable pub is_empty : Text → Bool
is_empty [] = true
is_empty (c ∷ cs) = false

-- `trim_end_matches`
unfoldable pub trim_end_matches : ℕ → Text → Text
trim_end_matches c [] = []
trim_end_matches c (x ∷ xs) =
    let rest = trim_end_matches c xs in if is_empty rest && x == c then [] else x ∷ rest

-- `trim_start_matches`
unfoldable pub trim_start_matches : ℕ → Text → Text
trim_start_matches c [] = []
trim_start_matches c (x ∷ xs) =
    let rest = trim_start_matches c xs in if x == c then rest else x ∷ xs

unfoldable pub starts_with : ℕ → Text → Bool
starts_with c [] = false
starts_with c (x ∷ xs) = x == c

unfoldable pub fits_byte : Option ℕ → Option ℕ
fits_byte none = none
fits_byte (some n) = if ltb n 256 then some n else none

-- `parse::<u8>`, which takes digits and perhaps a plus in front of them.
unfoldable pub parse_u8 : Text → Option ℕ
parse_u8 text =
    let digits = if starts_with b'+' text then drop_first text else text in
    if is_empty digits then none else fits_byte (digits_value 10 0 digits)
  where
    drop_first : Text → Text
    drop_first [] = []
    drop_first (c ∷ cs) = cs

unfoldable pub is_ascii_alphabetic : ℕ → Bool
is_ascii_alphabetic c = leb b'a' c && leb c b'z' || leb b'A' c && leb c b'Z'
