-- ===== src/Interpreter/Memory/Reader.antt =====
-- `MemoryReader` of src/interpreter/memory.rs: reading the memory from an address on.
use lakesis.Base.{ℕ, [], ◌==◌, if◌then◌else◌}
use lakesis.Base.Words.{add_uword, sub_uword}
use lakesis.Base.Result.{ok, ◌>>=◌}
use lakesis.Core.{CoreResult}
use lakesis.Opcodes.Decode.{Reader}
use lakesis.Interpreter.Memory.Store.{Memory, get}

record MemoryReader : Type 0 where
  memory : Memory
  base_addr : ℕ
  addr : ℕ

-- `Memory::reader_for`, with `MemoryReader::new`.
unfoldable reader_for : ℕ → Memory → MemoryReader
reader_for addr m = record { memory = m; base_addr = addr; addr = addr }

unfoldable offset : MemoryReader → CoreResult ℕ
offset r = sub_uword r.addr r.base_addr

-- `read`, which fills the whole buffer or fails; `read_exact` makes no read for an empty buffer, which
-- leaves the reader where it is.
unfoldable memory_reader : Reader MemoryReader
memory_reader = record {
  read_exact = λ n r. if n == 0 then ok ([], r) else (do
    bytes ← get r.addr n r.memory
    addr ← add_uword r.addr n
    ok (bytes, record r { addr = addr }));
}
