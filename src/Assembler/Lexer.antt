-- ===== src/Assembler/Lexer.antt =====
-- src/assembler/lexer.rs: the reader that tracks positions, and what the lexer does with it. A
-- character is its code point; the bytes were made characters by the standard library.
pub mod Numbers
pub mod Words
pub mod Single
pub mod Progress
pub mod Multiplier
pub mod NumberSafety
pub mod WordSafety
pub mod Safety
pub mod Reading
pub mod NumberBack
use lakesis.Base.{
  ℕ, zero, suc, ◌+◌, Bool, true, false, not, ◌&&◌, ◌||◌, List, [], ◌∷◌, ◌++◌, Option, none, some,
  leb, ◌==◌, if◌then◌else◌, length, get_elem?,
}
use lakesis.Base.Text.{Text}
use lakesis.Base.Result.{ok, err, panic, ◌>>=◌}
use lakesis.Assembler.Report.{
  FilePosition, FileRange, Message, AsmResult, position_start, next_column, next_line, range_single,
  unexpected_end_of_file,
}
use lakesis.Assembler.Lexeme.{LexerToken, LexerTokenValue}

pub record TrackingFileReader : Type 0 where
  pub buffer : List ℕ
  pub index : ℕ
  pub pos : FilePosition

unfoldable pub from_buffer : List ℕ → TrackingFileReader
from_buffer buffer = record { buffer = buffer; index = 0; pos = position_start }

unfoldable pub is_eof : TrackingFileReader → Bool
is_eof r = leb (length r.buffer) r.index

-- `.unwrap_or('\0')`
unfoldable pub or_nul : Option ℕ → ℕ
or_nul none = 0
or_nul (some c) = c

-- The source asks for the offsets 0 and 1 only.
unfoldable pub peek_around_raw : ℕ → TrackingFileReader → ℕ
peek_around_raw offset r = or_nul (get_elem? r.buffer (r.index + offset))

unfoldable pub peek_raw : TrackingFileReader → ℕ
peek_raw = peek_around_raw 0

-- A carriage return is read as a line feed.
unfoldable pub peek_around : ℕ → TrackingFileReader → ℕ
peek_around offset r = let c = peek_around_raw offset r in if c == b'\r' then b'\n' else c

unfoldable pub peek : TrackingFileReader → ℕ
peek = peek_around 0

unfoldable pub next_position : ℕ → FilePosition → FilePosition
next_position c p = if c == b'\r' || c == b'\n' then next_line p else next_column p

-- A carriage return and a line feed are one logical character.
unfoldable pub width : TrackingFileReader → ℕ
width r = if peek_raw r == b'\r' && peek_around_raw 1 r == b'\n' then 2 else 1

-- Whether more characters follow, and the reader behind the character.
unfoldable pub consume : TrackingFileReader → Bool × TrackingFileReader
consume r =
    let r' = record r { index = r.index + width r; pos = next_position (peek r) r.pos } in
    if is_eof r then (false, r) else (not (is_eof r'), r')

unfoldable pub consume_many : ℕ → TrackingFileReader → Bool × TrackingFileReader
consume_many zero r = (true, r)
consume_many (suc amount) r =
    let (more, r') = consume r in
    let rest = consume_many amount r' in if more then rest else (false, r')

unfoldable pub consume_many_or_error : ℕ → TrackingFileReader → AsmResult TrackingFileReader
consume_many_or_error amount r =
    let (more, r') = consume_many amount r in
    if more
    then ok r'
    else err (record { message = unexpected_end_of_file; range = range_single r'.pos })

unfoldable pub consume_or_error : TrackingFileReader → AsmResult TrackingFileReader
consume_or_error = consume_many_or_error 1

-- `while test(peek()) { if keep(peek()) { text.push(peek()); } if !consume() { break; } }`, on fuel:
-- each round passes a character.
unfoldable pub read_while :
    (ℕ → Bool) → (ℕ → Bool) → ℕ → Text → TrackingFileReader → AsmResult (Text × TrackingFileReader)
read_while test keep zero text r = panic
read_while test keep (suc fuel) text r =
    let c = peek r in
    let text' = if keep c then text ++ c ∷ [] else text in
    let (more, r') = consume r in
    let rest = read_while test keep fuel text' r' in
    if test c then (if more then rest else ok (text', r')) else ok (text, r)

-- Fuel for a loop over what a reader has left.
abbrev pub fuel_of : TrackingFileReader → ℕ
fuel_of r = suc (length r.buffer)

pub record Lexer : Type 0 where
  pub reader : TrackingFileReader
  pub tokens : List LexerToken
  pub token_start : FilePosition
  pub inside_ref : Bool

-- `Lexer::new`
unfoldable pub lexer_new : TrackingFileReader → Lexer
lexer_new r = record { reader = r; tokens = []; token_start = position_start; inside_ref = false }

unfoldable pub range : Lexer → FileRange
range l = record { start = l.token_start; end = l.reader.pos }

unfoldable pub make_token : LexerTokenValue → Lexer → Lexer
make_token v l = record l { tokens = l.tokens ++ record { value = v; range = range l } ∷ [] }

-- `Err(self.make_error(…))`
unfoldable pub fail {ℓ} : {A : Type ℓ} → Message → Lexer → AsmResult A
fail m l = err (record { message = m; range = range l })

-- `self.reader.consume()`
unfoldable pub advance : Lexer → Lexer
advance l = record l { reader = (consume l.reader).1 }

-- `self.reader.consume_or_error()?`
unfoldable pub advance_or_error : Lexer → AsmResult Lexer
advance_or_error l = do r ← consume_or_error l.reader; ok (record l { reader = r })
