-- ===== src/Opcodes/Decode/Reading.antt =====
-- Reading bytes off the front of what a reader can still read.
use lakesis.Base.{ℕ, ◌≡◌, refl, ap, List, [], ◌∷◌, ◌++◌, arith, length, length-append, take, drop}
use lakesis.Base.Result.{ok}
use lakesis.Opcodes.Decode.{Reader, Serves, read_byte}

take-append {ℓ} : {A : Type ℓ} (xs ys : List A) → take (length xs) (xs ++ ys) ≡ xs
take-append [] ys = refl
take-append (x ∷ xs) ys = ap (λ t. x ∷ t) (take-append xs ys)

drop-append {ℓ} : {A : Type ℓ} (xs ys : List A) → drop (length xs) (xs ++ ys) ≡ ys
drop-append [] ys = refl
drop-append (x ∷ xs) ys = drop-append xs ys

module _ {S : Type 0} {r : Reader S} (sv : Serves r) where
  -- A read of as many bytes as stand there returns them and leaves the rest.
  pub read_exact-append :
      (s : S) (bytes rest : List ℕ)
      → sv.view s ≡ bytes ++ rest
      → (s' : S) × (r.read_exact (length bytes) s ≡ ok (bytes, s')) × (sv.view s' ≡ rest)
  read_exact-append s bytes rest v =
      let (s', e, v') =
        sv.read_exact_fills (length bytes) s (rw v (omega (arith, length-append bytes rest))) in
      (s', rw (v, take-append) at e, rw (v, drop-append) at v')

  pub read_byte-cons :
      (s : S) (b : ℕ) (rest : List ℕ)
      → sv.view s ≡ b ∷ rest
      → (s' : S) × (read_byte r s ≡ ok (b, s')) × (sv.view s' ≡ rest)
  read_byte-cons s b rest v =
      let (s', e, v') = read_exact-append s (b ∷ []) rest v in (s', unfold read_byte in rw e, v')
