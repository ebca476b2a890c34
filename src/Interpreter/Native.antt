-- ===== src/Interpreter/Native.antt =====
-- The native functions of src/interpreter/mod.rs. What is printed is a list of pieces, before they are
-- turned into text; what a function prints before it fails is not kept.
use lakesis.Base.{ℕ, ◌+◌, not, List, [], ◌∷◌, ◌==◌, if◌then◌else◌}
use lakesis.Base.Int.{ℤ}
use lakesis.Base.Words.{as_iword}
use lakesis.Base.Result.{ok, err, ◌>>=◌, ◌>>◌, guard}
use lakesis.Core.{
  CoreResult, base_not_a_reference, unterminated_placeholder, string_not_a_reference,
}
use lakesis.Interpreter.Data.{DataWord}
use lakesis.Interpreter.Memory.Store.{Memory, get}
use lakesis.Interpreter.Cpu.{CpuState, Interpreter, read_native_parameter, set_register, data_word}

-- A character, a number with and without sign, the bytes of a UTF-8 text, and the outputs of the
-- debugging instructions.
pub data Piece : Type 0 where
  character : ℕ → Piece
  signed : ℤ → Piece
  unsigned : ℕ → Piece
  text : List ℕ → Piece
  cpu_dump : DataWord → CpuState → Piece
  memory_dump : ℕ → List ℕ → Piece
  memory_map : Memory → Piece

-- The loop of `native_print` over the rest of the format string; `parameter` counts the parameters.
unfoldable pub print_format : List ℕ → ℕ → Interpreter → CoreResult (List Piece)
print_format [] parameter i = ok []
print_format (c ∷ []) parameter i =
    if c == b'%' then err unterminated_placeholder else ok (character c ∷ [])
print_format (c ∷ (d ∷ rest)) parameter i =
    let plain : CoreResult (List Piece) = (do
      ps ← print_format (d ∷ rest) parameter i
      ok (character c ∷ ps)) in
    let percent : CoreResult (List Piece) = (do
      ps ← print_format rest parameter i
      ok (character b'%' ∷ ps)) in
    let decimal : CoreResult (List Piece) = (do
      w ← read_native_parameter parameter i
      ps ← print_format rest (parameter + 1) i
      ok (signed (as_iword w.value) ∷ ps)) in
    let natural : CoreResult (List Piece) = (do
      w ← read_native_parameter parameter i
      ps ← print_format rest (parameter + 1) i
      ok (unsigned w.value ∷ ps)) in
    let string : CoreResult (List Piece) = (do
      len ← read_native_parameter parameter i
      w ← read_native_parameter (parameter + 1) i
      guard w.is_reference string_not_a_reference
      bytes ← get w.value len.value i.memory
      ps ← print_format rest (parameter + 2) i
      ok (text bytes ∷ ps)) in
    let other = print_format rest parameter i in
    if not (c == b'%')
    then plain
    else if d == b'%'
    then percent
    else if d == b'd'
    then decimal
    else if d == b'u'
    then natural
    else if d == b's'
    then string
    else other

unfoldable pub native_print : Interpreter → CoreResult (List Piece)
native_print i = do
  len ← read_native_parameter 0 i
  base ← read_native_parameter 1 i
  guard base.is_reference base_not_a_reference
  bytes ← get base.value len.value i.memory
  print_format bytes 2 i

-- `rand::random()` is a number that the caller gives.
unfoldable pub native_random : ℕ → Interpreter → CoreResult Interpreter
native_random random i = set_register 0 (data_word random) i

-- The time that the thread sleeps, in milliseconds.
unfoldable pub native_sleep : Interpreter → CoreResult ℕ
native_sleep i = do w ← read_native_parameter 0 i; ok w.value
