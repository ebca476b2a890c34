-- ===== src/Opcodes/Cursor.antt =====
-- `Cursor<Vec<u8>>` as a reader, and the loop of `disassemble` in src/main.rs.
pub mod Follow
pub mod Lines
use lakesis.Base.{
  ℕ, zero, suc, ◌-◌, ◌≤◌, ◌<◌, ◌≡◌, refl, List, [], ◌∷◌, leb, le→leb, leb-eq-false, if◌then◌else◌,
  length, take, drop,
}
use lakesis.Base.Result.{ok, err, panic, ◌>>=◌}
use lakesis.Core.{Error, CoreResult, failed_to_fill_buffer}
use lakesis.Opcodes.Decode.{Reader, Serves, Opcode, decode}

-- The state is the bytes behind the cursor's position.
unfoldable pub cursor : Reader (List ℕ)
cursor = record {
  read_exact =
      λ n s. if leb n (length s) then ok (take n s, drop n s) else err failed_to_fill_buffer;
}

pub cursor_fills :
    (n : ℕ) (s : List ℕ)
    → n ≤ length s
    → (s' : List ℕ) × (cursor.read_exact n s ≡ ok (take n s, s')) × (s' ≡ drop n s)
unfolding cursor
cursor_fills n s h = (drop n s, rw (le→leb n (length s) h), refl)

pub cursor_fails :
    (n : ℕ) (s : List ℕ) → length s < n → (e : Error) × (cursor.read_exact n s ≡ err e)
unfolding cursor
cursor_fails n s h = (failed_to_fill_buffer, rw (leb-eq-false n (length s) h))

abbrev pub cursor_serves : Serves cursor
cursor_serves = record {
  view = λ s. s;
  read_exact_fills = cursor_fills;
  read_exact_fails = cursor_fails;
}

-- The opcodes that `disassemble` prints, on fuel: each takes a byte at least.
unfoldable pub disassemble_loop : ℕ → List ℕ → CoreResult (List Opcode)
disassemble_loop fuel [] = ok []
disassemble_loop zero (b ∷ bs) = panic
disassemble_loop (suc fuel) (b ∷ bs) = do
  (opcode, rest) ← decode cursor (b ∷ bs)
  opcodes ← disassemble_loop fuel rest
  ok (opcode ∷ opcodes)

unfoldable pub disassemble : List ℕ → CoreResult (List Opcode)
disassemble bytes = disassemble_loop (length bytes) bytes

-- What the loop of `disassemble` prints when every opcode is decoded: each with the position of the
-- cursor behind it.
unfoldable pub listing_loop : ℕ → ℕ → List ℕ → CoreResult (List (ℕ × Opcode))
listing_loop fuel size [] = ok []
listing_loop zero size (b ∷ bs) = panic
listing_loop (suc fuel) size (b ∷ bs) = do
  (opcode, rest) ← decode cursor (b ∷ bs)
  lines ← listing_loop fuel size rest
  ok ((size - length rest, opcode) ∷ lines)

unfoldable pub listing : List ℕ → CoreResult (List (ℕ × Opcode))
listing bytes = listing_loop (length bytes) (length bytes) bytes

-- What the loop prints on any bytes, up to an opcode that is refused, and how it ends.
unfoldable pub view_loop : ℕ → ℕ → List ℕ → List (ℕ × Opcode) × CoreResult (Unit {0})
view_loop fuel size [] = ([], ok tt)
view_loop zero size (b ∷ bs) = ([], panic)
view_loop (suc fuel) size (b ∷ bs) = elim (decode cursor (b ∷ bs)) [
  | ok (opcode, rest) ↦
      let (lines, end) = view_loop fuel size rest in ((size - length rest, opcode) ∷ lines, end)
  | err e ↦ ([], err e)
  | panic ↦ ([], panic)
]

unfoldable pub view : List ℕ → List (ℕ × Opcode) × CoreResult (Unit {0})
view bytes = view_loop (length bytes) (length bytes) bytes
