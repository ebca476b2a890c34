-- ===== src/Assembler/Lexer/Reading.antt =====
-- What a reader sees ahead, and what the basic operations give then.
use native.Mathlib.Numerals.{add-one}
use lakesis.Base.{
  ℕ, ◌+◌, ◌≡◌, ◌≢◌, refl, ap, ◌∙◌, true, false, not, List, [], ◌∷◌, Option, arith, if◌then◌else◌,
  ◌==◌, get_elem?, drop, ==-eq-false, leb-eq-false, le→leb, drop-nil, drop-cons, get_elem?-none,
}
use lakesis.Assembler.Lexer.{
  TrackingFileReader, is_eof, or_nul, peek, peek_raw, peek_around, peek_around_raw, width, consume,
}

pub record Ahead (cs : List ℕ) (r : TrackingFileReader) : Type 0 where
  pub left : drop r.index r.buffer ≡ cs

-- A character that the reader does not normalize.
abbrev pub IsKept : ℕ → Type 0
IsKept c = c ≢ b'\r'

kept_char : (c : ℕ) → IsKept c → (if c == b'\r' then b'\n' else c) ≡ c
kept_char c k = rw (==-eq-false c b'\r' k) refl

raw_at :
    (r : TrackingFileReader) (k : ℕ) {o : Option ℕ}
    → get_elem? r.buffer (r.index + k) ≡ o
    → peek_around_raw k r ≡ or_nul o
unfolding peek_around_raw
raw_at r k e = ap or_nul e

module _ {r : TrackingFileReader} where
  pub Ahead-nil : Ahead [] r → (is_eof r ≡ true) × (peek r ≡ 0)
  unfolding is_eof peek peek_around or_nul
  Ahead-nil h =
      let few = drop-nil r.index r.buffer h.left in
      (le→leb _ _ few, rw (raw_at r 0 (get_elem?-none r.buffer (r.index + 0) (omega arith))) refl)

  module _ {c : ℕ} {cs : List ℕ} (h : Ahead (c ∷ cs) r) (k : IsKept c) where
    pub Ahead-not_eof : is_eof r ≡ false
    unfolding is_eof
    Ahead-not_eof = leb-eq-false _ _ (drop-cons r.index r.buffer h.left).1

    Ahead-raw : peek_raw r ≡ c
    unfolding peek_raw or_nul
    Ahead-raw =
        raw_at r 0 (ap (get_elem? r.buffer) (omega arith) ∙ (drop-cons r.index r.buffer h.left).0)

    pub Ahead-peek : peek r ≡ c
    unfolding peek peek_around peek_raw
    Ahead-peek = rw Ahead-raw (kept_char c k)

    Ahead-width : width r ≡ 1
    unfolding width
    Ahead-width = rw (Ahead-raw, ==-eq-false c b'\r' k) refl

    pub Ahead-behind : Ahead cs (consume r).1
    unfolding consume
    Ahead-behind =
        rw (Ahead-not_eof, Ahead-width)
          (record { left = rw (add-one r.index) (drop-cons r.index r.buffer h.left).2 })

    pub Ahead-consume : (consume r).0 ≡ not (is_eof (consume r).1)
    unfolding consume
    Ahead-consume = rw Ahead-not_eof refl

    next_raw :
        (i : ℕ) → or_nul (get_elem? r.buffer (i + 1)) ≡ or_nul (get_elem? r.buffer (i + 1 + 0))
    next_raw i = ap (λ j. or_nul (get_elem? r.buffer j)) (omega arith)

    -- The character behind the next one.
    pub Ahead-next : peek_around 1 r ≡ peek (consume r).1
    unfolding consume peek peek_around peek_around_raw
    Ahead-next =
        rw (Ahead-not_eof, Ahead-width)
          (ap (λ c'. if c' == b'\r' then b'\n' else c') (next_raw r.index))
