-- ===== src/Assembler/Output.antt =====
-- What the encoder needs of `impl Write + Seek`, as `Cursor<Vec<u8>>` and a new file have it: bytes
-- and a position. Failures of the device are left out.
pub mod Append
use lakesis.Base.{ℕ, ◌+◌, ◌-◌, List, [], ◌∷◌, ◌++◌, length, take, drop, replicate}

pub record Output : Type 0 where
  pub bytes : List ℕ
  pub position : ℕ

abbrev pub empty : Output
empty = record { bytes = []; position = 0 }

-- Writing over what stands at a position, behind zeros if that lies beyond the end.
unfoldable pub overwrite : ℕ → List ℕ → List ℕ → List ℕ
overwrite pos written bytes =
    take pos bytes
    ++ (replicate (pos - length bytes) 0 ++ (written ++ drop (pos + length written) bytes))

-- `write_all`
unfoldable pub write_all : List ℕ → Output → Output
write_all written o = record {
  bytes = overwrite o.position written o.bytes;
  position = o.position + length written;
}

-- `seek(SeekFrom::Start(n))`
unfoldable pub seek : ℕ → Output → Output
seek n o = record o { position = n }
