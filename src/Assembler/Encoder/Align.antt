-- ===== src/Assembler/Encoder/Align.antt =====
-- `.align`: zeros up to the next multiple of the alignment.
use native.Mathlib.Nat.{mod-lt, mod-eq_of_lt, mod_self, mod-add-mod, add-mod-mod}
use lakesis.Base.{
  ℕ, zero, suc, ◌+◌, ◌-◌, ◌%◌, ◌<◌, ◌≤◌, ◌≡◌, ◌≢◌, sym, ap, ◌∙◌, [], ◌∷◌, arith, leb-eq-false,
  replicate,
}
use lakesis.Base.Result.{ok}
use lakesis.Assembler.Output.{write_all}
use lakesis.Assembler.Output.Append.{IsAtEnd, write_all-nil, write_all-write_all, write_all-IsAtEnd}
use lakesis.Assembler.Encoder.{Encoder, align_loop, align_output, offset, write, write_byte}

-- How far a position is below the next multiple.
abbrev pub gap : ℕ → ℕ → ℕ
gap alignment position = (alignment - position % alignment) % alignment

gap-lt : (a p : ℕ) → 0 < a → gap a p < a
gap-lt a p h = mod-lt (a - p % a) h

gap-mod : (a p : ℕ) → 0 < a → (p + gap a p) % a ≡ 0
gap-mod a p h =
    let r = mod-lt p h in
    let e : p % a + (a - p % a) ≡ a = omega arith in
    add-mod-mod p (a - p % a) a ∙ sym (mod-add-mod p a (a - p % a)) ∙ ap (λ x. x % a) e ∙ mod_self a

-- No position between two multiples is a multiple.
not_yet : (a p n : ℕ) → suc n < a → (p + suc n) % a ≡ 0 → p % a ≢ 0
not_yet a p n small h z =
    let e : suc n % a ≡ 0 =
      ap (λ x. x % a) (omega arith)
      ∙ ap (λ r. (r + suc n) % a) (sym z)
      ∙ mod-add-mod p a (suc n)
      ∙ h in
    absurd (omega (arith, sym (mod-eq_of_lt small) ∙ e))

align_loop-stop : (fuel a : ℕ) (e : Encoder) → offset e % a ≡ 0 → align_loop (suc fuel) a e ≡ ok e
unfolding align_loop
align_loop-stop fuel a e h = ground arith

align_loop-on :
    (fuel a : ℕ) (e : Encoder)
    → offset e % a ≢ 0
    → align_loop (suc fuel) a e ≡ align_loop fuel a (write_byte 0 e)
unfolding align_loop
align_loop-on fuel a e h = ground arith

align_loop-write :
    (n fuel a : ℕ) (e : Encoder)
    → n < fuel
    → n < a
    → IsAtEnd e.output
    → (offset e + n) % a ≡ 0
    → align_loop fuel a e ≡ ok (write (replicate n 0) e)
unfolding align_loop write write_byte write_all
align_loop-write n zero a e f s end h = absurd (omega arith)
align_loop-write zero (suc fuel) a e f s end h =
    let here : offset e % a ≡ 0 = ap (λ x. x % a) (omega arith) ∙ h in
    align_loop-stop fuel a e here
    ∙ ap (λ o. ok (record e { output = o })) (sym (write_all-nil e.output end))
align_loop-write (suc n) (suc fuel) a e f s end h =
    let there : (offset (write_byte 0 e) + n) % a ≡ 0 = ap (λ x. x % a) (omega arith) ∙ h in
    align_loop-on fuel a e (not_yet a (offset e) n s h)
    ∙ (align_loop-write n fuel a (write_byte 0 e) (omega arith) (omega arith)
          (write_all-IsAtEnd (0 ∷ []) e.output end) there
        ∙ ap (λ o. ok (record e { output = o }))
            (write_all-write_all (0 ∷ []) (replicate n 0) e.output end))

-- An alignment of two or more of an encoder that stands at the end of its output succeeds: it appends
-- zeros, fewer than the alignment, and the position behind them is a multiple of the alignment.
pub align_output-write :
    (a : ℕ) (e : Encoder)
    → 2 ≤ a
    → IsAtEnd e.output
    → (align_output a e ≡ ok (write (replicate (gap a (offset e)) 0) e))
      × (gap a (offset e) < a)
      × ((offset e + gap a (offset e)) % a ≡ 0)
unfolding align_output
align_output-write a e h end = (
  rw (leb-eq-false a 1 h) (
      align_loop-write (gap a (offset e)) a a e (gap-lt a (offset e) (omega arith))
        (gap-lt a (offset e) (omega arith)) end (gap-mod a (offset e) (omega arith))),
  gap-lt a (offset e) (omega arith),
  gap-mod a (offset e) (omega arith),
)
