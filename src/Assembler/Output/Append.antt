-- ===== src/Assembler/Output/Append.antt =====
-- Writing at the end of an output appends.
use Prim.Native.Nat.add
use lakesis.Base.{
  ℕ, zero, suc, ◌+◌, ◌-◌, ◌≡◌, refl, ap, List, [], ◌∷◌, ◌++◌, append-nil, append_assoc, arith,
  length, length-append, take, drop,
}
use lakesis.Assembler.Output.{Output, overwrite, write_all}

abbrev pub IsAtEnd : Output → Type 0
IsAtEnd o = o.position ≡ length o.bytes

take-length : (xs : List ℕ) → take (length xs) xs ≡ xs
take-length [] = refl
take-length (x ∷ xs) = ap (λ t. x ∷ t) (take-length xs)

drop-nil : (n : ℕ) → drop {A = ℕ} n [] ≡ []
drop-nil zero = refl
drop-nil (suc n) = refl

drop-beyond : (xs : List ℕ) (n : ℕ) → drop (length xs + n) xs ≡ []
drop-beyond [] n = drop-nil (0 + n)
drop-beyond (x ∷ xs) n = rw (add.suc) (drop-beyond xs n)

overwrite-end : (bytes written : List ℕ) → overwrite (length bytes) written bytes ≡ bytes ++ written
unfolding overwrite
overwrite-end bytes written = rw (none_missing, take-length, drop-beyond, append-nil)
  where
    none_missing : length bytes - length bytes ≡ 0
    none_missing = omega arith

-- The bytes are appended, and the position stays at the end.
pub write_all-end :
    (w : List ℕ) (o : Output)
    → IsAtEnd o
    → write_all w o ≡ record { bytes = o.bytes ++ w; position = length (o.bytes ++ w) }
unfolding write_all
write_all-end w o h = rw (h, overwrite-end, length-append o.bytes w)

pub write_all-write_all :
    (v w : List ℕ) (o : Output) → IsAtEnd o → write_all w (write_all v o) ≡ write_all (v ++ w) o
write_all-write_all v w o h = rw (
  write_all-end v o h,
  write_all-end (v ++ w) o h,
  write_all-end w (record { bytes = o.bytes ++ v; position = length (o.bytes ++ v) }) refl,
  append_assoc,
)

pub write_all-IsAtEnd : (w : List ℕ) (o : Output) → IsAtEnd o → IsAtEnd (write_all w o)
write_all-IsAtEnd w o h = rw (write_all-end w o h)

pub write_all-nil : (o : Output) → IsAtEnd o → write_all [] o ≡ o
write_all-nil o h = rw (write_all-end [] o h, append-nil, ← h)
