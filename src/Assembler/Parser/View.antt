-- ===== src/Assembler/Parser/View.antt =====
-- What is left of a parser's input, and what the basic operations do with it.
use native.Mathlib.Numerals.{add-one}
use lakesis.Base.{
  drop-nil, drop-cons, ℕ, zero, suc, ◌+◌, ◌-◌, ◌^◌, ◌≤◌, ◌<◌, ◌≡◌, refl, ◌∙◌, true, false, not,
  List, [], ◌∷◌, ◌++◌, some, arith, le→leb, leb-eq-false, ==-eq-false, length, get_elem?, drop,
}
use lakesis.Base.Int.{negsuc}
use lakesis.Base.Distinct.{All}
use lakesis.Base.Result.{ok, Returns, value, error}
use lakesis.Assembler.Report.{FileRange, Message, unexpected_end_of_file}
use lakesis.Assembler.Lexeme.{LexerToken, LexerTokenValue}
use lakesis.Assembler.Token.{Token, TokenValue}
use lakesis.Assembler.Parser.{
  Parser, is_eof, peek, peek_full, consume, consume_or_error, last_input, range, fail, make_token,
}

-- A number that has a negative in `i64`.
abbrev pub IsNegatable : LexerTokenValue → Type 0
IsNegatable (LexerTokenValue.number (negsuc n)) = suc n < 2 ^ 63
IsNegatable _ = Unit

-- The parser has some input, of which `ts` is left.
pub record Sees (p : Parser) (ts : List LexerToken) : Type 0 where
  pub left : drop p.input_index p.inputs ≡ ts
  pub some_input : 0 < length p.inputs
  pub negatable : All (λ t. IsNegatable t.value) ts

-- The parser behind the token that it sees.
abbrev pub behind : Parser → Parser
behind p = record p { input_index = p.input_index + 1 }

module _ {p : Parser} where
  pub Sees-is_eof : Sees p [] → is_eof p ≡ true
  unfolding is_eof
  Sees-is_eof s = le→leb _ _ (drop-nil p.input_index p.inputs s.left)

  module _ {t : LexerToken} {ts : List LexerToken} (s : Sees p (t ∷ ts)) where
    pub Sees-not_eof : is_eof p ≡ false
    unfolding is_eof
    Sees-not_eof = leb-eq-false _ _ (drop-cons p.input_index p.inputs s.left).1

    pub Sees-peek_full : peek_full p ≡ ok t
    unfolding peek_full
    Sees-peek_full = rw ((drop-cons p.input_index p.inputs s.left).0)

    pub Sees-peek : peek p ≡ ok t.value
    unfolding peek
    Sees-peek = rw Sees-peek_full refl

    pub Sees-behind : Sees (behind p) ts
    Sees-behind = record {
      left = rw (add-one p.input_index) (drop-cons p.input_index p.inputs s.left).2;
      some_input = s.some_input;
      negatable = s.negatable.1;
    }

    pub Sees-consume : consume p ≡ (not (is_eof (behind p)), behind p)
    unfolding consume
    Sees-consume = rw Sees-not_eof refl

get_elem?-some :
    (i : ℕ) (xs : List LexerToken) → i < length xs → (x : LexerToken) × (get_elem? xs i ≡ some x)
get_elem?-some i [] h = absurd (omega arith)
get_elem?-some zero (x ∷ xs) h = (x, refl)
get_elem?-some (suc i) (x ∷ xs) h = get_elem?-some i xs (omega arith)

last_input-ok : (ts : List LexerToken) → 0 < length ts → (t : LexerToken) × (last_input ts ≡ ok t)
unfolding last_input
last_input-ok ts h =
    let (t, e) = get_elem?-some (length ts - 1) ts (omega arith) in
    (t, rw (==-eq-false (length ts) 0 (λ z. absurd (omega (arith, z))), e) refl)

range-ok : (p : Parser) (ts : List LexerToken) → Sees p ts → (r : FileRange) × (range p ≡ ok r)
unfolding range
range-ok p [] s =
    let (t, e) = last_input-ok p.inputs s.some_input in
    (record { start = p.token_start; end = t.range.end }, rw (Sees-is_eof s, e) refl)
range-ok p (t ∷ ts) s = (
  record { start = p.token_start; end = t.range.end },
  rw (Sees-not_eof s, Sees-peek_full s) refl,
)

module _ {p : Parser} {ts : List LexerToken} (s : Sees p ts) where
  pub Sees-range : (r : FileRange) × (range p ≡ ok r)
  Sees-range = range-ok p ts s

  pub fail-Returns {ℓ μ} : {A : Type ℓ} {P : A → Type μ} (m : Message) → Returns P (fail m p)
  unfolding fail
  fail-Returns m = let (r, e) = Sees-range in rw e error

-- A parser with a given output and at most `n` tokens left.
pub record Rests (made : List Token) (n : ℕ) (p : Parser) : Type 0 where
  pub ahead : List LexerToken
  pub sees : Sees p ahead
  pub few : length ahead ≤ n
  pub kept : p.outputs ≡ made

-- The same, with at least one token left.
pub record Waits (made : List Token) (n : ℕ) (p : Parser) : Type 0 where
  pub next : LexerToken
  pub ahead : List LexerToken
  pub sees : Sees p (next ∷ ahead)
  pub few : suc (length ahead) ≤ n
  pub kept : p.outputs ≡ made

module _ {p : Parser} {t : LexerToken} {ts : List LexerToken} (s : Sees p (t ∷ ts)) where
  pub consume-Rests : Rests p.outputs (length ts) (consume p).1
  consume-Rests =
      rw (Sees-consume s)
        (record { ahead = ts; sees = Sees-behind s; few = omega arith; kept = refl })

  pub consume_or_error-cons :
      {u : LexerToken} {us : List LexerToken} → ts ≡ u ∷ us → consume_or_error p ≡ ok (behind p)
  unfolding consume_or_error
  consume_or_error-cons e = rw (Sees-consume s, Sees-not_eof (rw e at (Sees-behind s))) refl

consume_or_error-ahead :
    (p : Parser) (ts : List LexerToken)
    → (consume p ≡ (not (is_eof (behind p)), behind p))
    → Sees (behind p) ts
    → Returns (Waits p.outputs (length ts)) (consume_or_error p)
unfolding consume_or_error
consume_or_error-ahead p [] e s = rw (e, Sees-is_eof s) (fail-Returns s unexpected_end_of_file)
consume_or_error-ahead p (u ∷ us) e s =
    rw (e, Sees-not_eof s)
      (value (record { next = u; ahead = us; sees = s; few = omega arith; kept = refl }))

pub consume_or_error-Returns :
    {p : Parser} {t : LexerToken} {ts : List LexerToken}
    → Sees p (t ∷ ts)
    → Returns (Waits p.outputs (length ts)) (consume_or_error p)
consume_or_error-Returns {p} {ts} s = consume_or_error-ahead p ts (Sees-consume s) (Sees-behind s)

pub make_token-Returns :
    {p : Parser} {ts : List LexerToken} (v : TokenValue)
    → Sees p ts
    → Returns
        (λ p'.
          Sees p' ts
          × (r : FileRange) × (p'.outputs ≡ p.outputs ++ record { value = v; range = r } ∷ []))
        (make_token v p)
unfolding make_token
make_token-Returns v s =
    let (r, e) = Sees-range s in
    rw e (
      value (record { left = s.left; some_input = s.some_input; negatable = s.negatable }, r, refl))

pub Waits-weaken :
    {made made' : List Token} {n m : ℕ} {p : Parser}
    → Waits made n p
    → made ≡ made'
    → n ≤ m
    → Waits made' m p
Waits-weaken w e h = record {
  next = w.next;
  ahead = w.ahead;
  sees = w.sees;
  few = omega (arith, w.few);
  kept = w.kept ∙ e;
}

pub Rests-weaken :
    {made made' : List Token} {n m : ℕ} {p : Parser}
    → Rests made n p
    → made ≡ made'
    → n ≤ m
    → Rests made' m p
Rests-weaken r e h = record {
  ahead = r.ahead;
  sees = r.sees;
  few = omega (arith, r.few);
  kept = r.kept ∙ e;
}
