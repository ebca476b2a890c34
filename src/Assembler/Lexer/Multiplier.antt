-- ===== src/Assembler/Lexer/Multiplier.antt =====
-- src/assembler/lexer.rs: texts in which no number has a multiplier.
use lakesis.Base.{
  get_elem?-none, ℕ, zero, suc, ◌+◌, ◌≤◌, ◌≡◌, refl, sym, ap, Bool, true, false, not, ◌&&◌, ◌||◌,
  List, [], ◌∷◌, arith, if◌then◌else◌, Bool-cases, inl, inr, ◌==◌, leb, length, get_elem?, Option,
  some, none,
}
use lakesis.Base.Chars.{is_digit, is_below, digit_value}
use lakesis.Assembler.Lexer.{
  TrackingFileReader, is_eof, peek, peek_raw, peek_around, peek_around_raw, or_nul, width, consume,
  consume_many,
}
use lakesis.Assembler.Lexer.Numbers.{is_number_part}

-- Whether a `w` behind the character `c` is behind a number, if it is (`on`) behind the text before.
unfoldable pub is_on : Bool → ℕ → Bool
is_on on c = is_digit 10 c || (on && (is_number_part 16 c || c == b'x'))

unfoldable pub lacks_from : Bool → List ℕ → Bool
lacks_from on [] = true
lacks_from on (c ∷ cs) = not (on && c == b'w') && lacks_from (is_on on c) cs

-- No `w` stands behind a decimal digit with nothing but digits, up to the hexadecimal ones, underscores
-- and x's between them.
unfoldable pub lacks_multiplier : List ℕ → Bool
lacks_multiplier = lacks_from false

-- Whether the position `i` of a text is behind a number.
unfoldable pub on_from : Bool → List ℕ → ℕ → Bool
on_from on [] zero = on
on_from on [] (suc i) = false
on_from on (c ∷ cs) zero = on
on_from on (c ∷ cs) (suc i) = on_from (is_on on c) cs i

lacks_from-at :
    (on : Bool) (b : List ℕ) (i : ℕ)
    → lacks_from on b ≡ true
    → on_from on b i ≡ true
    → (or_nul (get_elem? b i) == b'w') ≡ false
unfolding lacks_from on_from or_nul
lacks_from-at on [] i l h = refl
lacks_from-at on (c ∷ cs) zero l h = let l' = rw h at l in ground arith
lacks_from-at on (c ∷ cs) (suc i) l h = lacks_from-at (is_on on c) cs i (ground arith) h

is_on-nul : (on : Bool) → is_on on 0 ≡ false
unfolding is_on is_number_part is_digit is_below digit_value
is_on-nul true = refl
is_on-nul false = refl

on_from-zero : (on : Bool) (b : List ℕ) → on_from on b 0 ≡ on
unfolding on_from
on_from-zero on [] = refl
on_from-zero on (c ∷ cs) = refl

on_from-suc :
    (on : Bool) (b : List ℕ) (i : ℕ)
    → on_from on b (suc i) ≡ is_on (on_from on b i) (or_nul (get_elem? b i))
unfolding on_from or_nul
on_from-suc on [] zero = sym (is_on-nul on)
on_from-suc on [] (suc i) = sym (is_on-nul false)
on_from-suc on (c ∷ cs) zero = on_from-zero (is_on on c) cs
on_from-suc on (c ∷ cs) (suc i) = on_from-suc (is_on on c) cs i

-- The reader is behind a number.
unfoldable pub IsOn : TrackingFileReader → Type 0
IsOn r = on_from false r.buffer (r.index + 0) ≡ true

-- A character that is read as it is stored.
abbrev IsStored : ℕ → Type 0
IsStored c = (c == b'\n' ≡ false) × (c == 0 ≡ false)

raw_stored :
    (c : ℕ)
    → (if c == b'\r' then b'\n' else c) == b'\n' ≡ false
    → (c == b'\r' ≡ false) × ((if c == b'\r' then b'\n' else c) ≡ c)
raw_stored c h = elim (Bool-cases (c == b'\r')) [
  | inl e ↦ let n = rw e at h in cc
  | inr e ↦ (e, rw e refl)
]

width-one : (r : TrackingFileReader) → peek_raw r == b'\r' ≡ false → width r ≡ 1
unfolding width
width-one r e = rw e refl

stored-not_eof : (r : TrackingFileReader) → peek_raw r == 0 ≡ false → is_eof r ≡ false
unfolding is_eof peek_raw peek_around_raw or_nul
stored-not_eof r h = elim (Bool-cases (leb (length r.buffer) r.index)) [
  | inl e ↦
      let n = get_elem?-none r.buffer (r.index + 0) (ground arith) in
      let z : peek_raw r ≡ 0 = ap or_nul n in let h' = rw z at h in cc
  | inr e ↦ e
]

-- What passing a stored character does.
record Passes (r : TrackingFileReader) : Type 0 where
  not_eof : is_eof r ≡ false
  same : (consume r).1.buffer ≡ r.buffer
  next : (consume r).1.index ≡ r.index + 1
  char : peek_raw r ≡ peek r

stored-Passes : (r : TrackingFileReader) → IsStored (peek r) → Passes r
unfolding consume peek peek_around peek_raw
stored-Passes r (line, nul) =
    let (e, char) = raw_stored (peek_raw r) line in
    let one = width-one r e in
    let nul' = rw char at nul in
    let left = stored-not_eof r nul' in
    record { not_eof = left; same = rw left refl; next = rw (left, one) refl; char = sym char }

IsOn-consume :
    (r : TrackingFileReader)
    → Passes r
    → is_on (on_from false r.buffer (r.index + 0)) (peek r) ≡ true
    → IsOn (consume r).1
unfolding IsOn peek_raw peek_around_raw
IsOn-consume r p h =
    let suc_next : (consume r).1.index + 0 ≡ suc (r.index + 0) = omega (arith, p.next) in
    rw (p.same, suc_next, on_from-suc false r.buffer (r.index + 0), p.char) h

digit-is_on : (on : Bool) (c : ℕ) → is_digit 10 c ≡ true → is_on on c ≡ true
unfolding is_on
digit-is_on on c h = rw h refl

part-is_on : (on : Bool) (c : ℕ) → on ≡ true → is_number_part 16 c ≡ true → is_on on c ≡ true
unfolding is_on
part-is_on on c o h = ground arith

x-is_on : (on : Bool) (c : ℕ) → on ≡ true → c == b'x' ≡ true → is_on on c ≡ true
unfolding is_on
x-is_on on c o h = ground arith

below_wider :
    (radix : ℕ) (o : Option ℕ) → radix ≤ 16 → is_below radix o ≡ true → is_below 16 o ≡ true
unfolding is_below
below_wider radix none small h = h
below_wider radix (some d) small h = ground arith

-- A digit is one of the radix 16.
wider : (radix c : ℕ) → radix ≤ 16 → is_number_part radix c ≡ true → is_number_part 16 c ≡ true
unfolding is_number_part is_digit
wider radix c small h = ground (arith, below_wider radix (digit_value c) small)

below_ten : (radix : ℕ) (o : Option ℕ) → radix ≤ 10 → is_below radix o ≡ true → is_below 10 o ≡ true
unfolding is_below
below_ten radix none small h = h
below_ten radix (some d) small h = ground arith

-- A part of a number of the radix 10 or less is an underscore or a digit of the radix 10.
ten_digit :
    (radix c : ℕ)
    → radix ≤ 10
    → is_number_part radix c ≡ true
    → c == b'_' ≡ false
    → is_digit 10 c ≡ true
unfolding is_number_part is_digit
ten_digit radix c small h u = ground (arith, below_ten radix (digit_value c) small)

line-no_part : is_number_part 16 b'\n' ≡ false
unfolding is_number_part is_digit is_below digit_value
line-no_part = refl

nul-no_part : is_number_part 16 0 ≡ false
unfolding is_number_part is_digit is_below digit_value
nul-no_part = refl

apart : (c d : ℕ) → is_number_part 16 d ≡ false → is_number_part 16 c ≡ true → c == d ≡ false
apart c d outside h = elim (Bool-cases (c == d)) [
  | inl e ↦ let same : c ≡ d = ground arith in let n = rw same at h in cc
  | inr e ↦ e
]

-- Parts of numbers are passed as they are stored.
part-Passes :
    (radix : ℕ) (r : TrackingFileReader)
    → radix ≤ 16
    → is_number_part radix (peek r) ≡ true
    → Passes r
part-Passes radix r small h =
    let part = wider radix (peek r) small h in
    stored-Passes r (apart (peek r) b'\n' line-no_part part, apart (peek r) 0 nul-no_part part)

-- A part of a number is not the end of the text.
pub part-not_eof :
    (radix : ℕ) (r : TrackingFileReader)
    → radix ≤ 16
    → is_number_part radix (peek r) ≡ true
    → is_eof r ≡ false
part-not_eof radix r small h = (part-Passes radix r small h).not_eof

-- Digits and underscores that are passed stay a number.
pub part-IsOn :
    (radix : ℕ) (r : TrackingFileReader)
    → radix ≤ 16
    → is_number_part radix (peek r) ≡ true
    → IsOn r
    → IsOn (consume r).1
unfolding IsOn
part-IsOn radix r small h on =
    IsOn-consume r (part-Passes radix r small h)
      (part-is_on _ (peek r) on (wider radix (peek r) small h))

-- A digit of the radix 10 or less begins one.
pub digit-IsOn :
    (radix : ℕ) (r : TrackingFileReader)
    → radix ≤ 10
    → is_number_part radix (peek r) ≡ true
    → peek r == b'_' ≡ false
    → IsOn (consume r).1
digit-IsOn radix r small h u =
    IsOn-consume r (part-Passes radix r (omega arith) h)
      (digit-is_on _ (peek r) (ten_digit radix (peek r) small h u))

not_multiplier : (c : ℕ) → c == b'w' ≡ false → (if c == b'\r' then b'\n' else c) == b'w' ≡ false
not_multiplier c h = ground arith

-- Behind a number there is no multiplier.
pub IsOn-no_multiplier :
    (r : TrackingFileReader) → lacks_multiplier r.buffer ≡ true → IsOn r → peek r == b'w' ≡ false
unfolding IsOn lacks_multiplier peek peek_around peek_around_raw
IsOn-no_multiplier r l on =
    not_multiplier (or_nul (get_elem? r.buffer (r.index + 0)))
      (lacks_from-at false r.buffer (r.index + 0) l on)

digit_zero : is_digit 10 b'0' ≡ true
unfolding is_digit is_below digit_value
digit_zero = refl

zero-Passes : (r : TrackingFileReader) → peek r == b'0' ≡ true → Passes r
zero-Passes r h = stored-Passes r (ground arith, ground arith)

zero-IsOn : (r : TrackingFileReader) → peek r == b'0' ≡ true → IsOn (consume r).1
zero-IsOn r h =
    let is : peek r ≡ b'0' = ground arith in
    IsOn-consume r (zero-Passes r h) (digit-is_on _ (peek r) (rw is digit_zero))

x-IsOn : (r : TrackingFileReader) → peek r == b'x' ≡ true → IsOn r → IsOn (consume r).1
unfolding IsOn
x-IsOn r h on =
    IsOn-consume r (stored-Passes r (ground arith, ground arith)) (x-is_on _ (peek r) on h)

peek-consume : (r : TrackingFileReader) → Passes r → peek (consume r).1 ≡ peek_around 1 r
unfolding peek peek_around peek_around_raw
peek-consume r p =
    let next : (consume r).1.index + 0 ≡ r.index + 1 = omega (arith, p.next) in
    rw (p.same, next) refl

-- Behind the prefix 0x, a number goes on.
pub prefix-IsOn :
    (r : TrackingFileReader)
    → peek r == b'0' ≡ true
    → peek_around 1 r == b'x' ≡ true
    → (consume_many 2 r).0 ≡ true
    → IsOn (consume_many 2 r).1
unfolding consume_many
prefix-IsOn r z x h =
    let p = zero-Passes r z in
    let x' : peek (consume r).1 == b'x' ≡ true = rw (peek-consume r p) x in
    let on = x-IsOn (consume r).1 x' (zero-IsOn r z) in
    elim (Bool-cases (consume r).0) [
      | inl e ↦ elim (Bool-cases (consume (consume r).1).0) [
        | inl e' ↦ rw (e, e') on
        | inr e' ↦ rw (e, e') on
      ]
      | inr e ↦ let h' = rw e at h in cc
    ]
