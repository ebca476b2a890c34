-- ===== src/Opcodes/Cursor/Lines.antt =====
-- The lines that `disassemble` of src/main.rs prints, and the opcodes on them.
use lakesis.Base.{ℕ, zero, suc, ◌-◌, ◌≡◌, refl, sym, ap, ◌∙◌, inl, inr, List, [], ◌∷◌, length, map}
use lakesis.Base.Result.{Result, ok, err, panic, ◌>>=◌, ◌>>◌, >>=-eq-ok, Result-cases}
use lakesis.Opcodes.Decode.{Opcode, decode}
use lakesis.Opcodes.Cursor.{
  cursor, disassemble, disassemble_loop, listing, listing_loop, view, view_loop,
}

listing_loop-disassemble_loop :
    (fuel size : ℕ) (bytes : List ℕ) {ops : List Opcode}
    → disassemble_loop fuel bytes ≡ ok ops
    → (lines : List (ℕ × Opcode)) × (listing_loop fuel size bytes ≡ ok lines)
      × (map (λ l. l.1) lines ≡ ops)
unfolding disassemble_loop listing_loop
listing_loop-disassemble_loop fuel size [] h = ([], refl, cc)
listing_loop-disassemble_loop zero size (b ∷ bs) h = cc
listing_loop-disassemble_loop (suc fuel) size (b ∷ bs) {ops} h =
    let ((op, rest), decoded, h') = >>=-eq-ok (decode cursor (b ∷ bs)) _ h in
    let (ops', done, whole) = >>=-eq-ok (disassemble_loop fuel rest) _ h' in
    let (lines, listed, same) = listing_loop-disassemble_loop fuel size rest done in
    let is : op ∷ ops' ≡ ops = cc in
    ((size - length rest, op) ∷ lines, rw (decoded, listed) refl, ap (λ os. op ∷ os) same ∙ is)

-- Bytes that disassemble into opcodes have a listing, with these opcodes on its lines.
pub listing-disassemble :
    (bytes : List ℕ) {ops : List Opcode}
    → disassemble bytes ≡ ok ops
    → (lines : List (ℕ × Opcode)) × (listing bytes ≡ ok lines) × (map (λ l. l.1) lines ≡ ops)
unfolding disassemble listing
listing-disassemble bytes h = listing_loop-disassemble_loop (length bytes) (length bytes) bytes h

>>-then {ℓ κ} :
    {E : Type ℓ} {A : Type κ} (m : Result E (Unit {0})) (a : A) (f : A → A)
    → ((m >> ok a) >>= λ b. ok (f b)) ≡ (m >> ok (f a))
>>-then (ok u) a f = refl
>>-then (err e) a f = refl
>>-then panic a f = refl

view_loop-listing_loop :
    (fuel size : ℕ) (bytes : List ℕ)
    → listing_loop fuel size bytes
      ≡ ((view_loop fuel size bytes).1 >> ok (view_loop fuel size bytes).0)
unfolding view_loop listing_loop
view_loop-listing_loop fuel size [] = refl
view_loop-listing_loop zero size (b ∷ bs) = refl
view_loop-listing_loop (suc fuel) size (b ∷ bs) = elim (Result-cases (decode cursor (b ∷ bs))) [
  | inl ((op, rest), e) ↦
      rw (view_loop, listing_loop, e)
        (rw (view_loop-listing_loop fuel size rest) (
          >>-then (view_loop fuel size rest).1 (view_loop fuel size rest).0
            (λ ls. (size - length rest, op) ∷ ls)))
  | inr (inl (failure, e)) ↦ rw (view_loop, listing_loop, e) refl
  | inr (inr e) ↦ rw (view_loop, listing_loop, e) refl
]

view-listing : (bytes : List ℕ) → listing bytes ≡ ((view bytes).1 >> ok (view bytes).0)
unfolding view listing
view-listing bytes = view_loop-listing_loop (length bytes) (length bytes) bytes

>>-eq-ok {ℓ κ} :
    {E : Type ℓ} {A : Type κ} (m : Result E (Unit {0})) {a b : A}
    → (m >> ok a) ≡ ok b
    → (m ≡ ok tt) × (a ≡ b)
>>-eq-ok (ok u) h = (refl, cc)
>>-eq-ok (err e) h = cc
>>-eq-ok panic h = cc

-- On bytes that have a listing, `disassemble` prints it and ends well.
pub view-lines :
    (bytes : List ℕ) {lines : List (ℕ × Opcode)}
    → listing bytes ≡ ok lines
    → ((view bytes).0 ≡ lines) × ((view bytes).1 ≡ ok tt)
view-lines bytes h =
    let (well, same) = >>-eq-ok (view bytes).1 (sym (view-listing bytes) ∙ h) in (same, well)
