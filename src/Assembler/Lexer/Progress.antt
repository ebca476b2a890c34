-- ===== src/Assembler/Lexer/Progress.antt =====
-- What is left of a lexer's text, and how much of it the basic operations and the loops pass.
use lakesis.Base.{
  ℕ, zero, suc, ◌-◌, ◌≤◌, ◌<◌, ◌≡◌, refl, Bool, true, false, List, [], ◌∷◌, ◌++◌, arith,
  if◌then◌else◌, Bool-cases, inl, inr, length,
}
use lakesis.Base.Text.{Text}
use lakesis.Base.Result.{Returns, value, error, Returns-weaken, Returns-if}
use lakesis.Assembler.Lexer.{
  TrackingFileReader, is_eof, peek, width, consume, consume_many, consume_many_or_error,
  consume_or_error, read_while,
}

-- The characters that are left.
abbrev pub left : TrackingFileReader → ℕ
left r = length r.buffer - r.index

-- A reader of the text `b` that has at most `n` characters left.
pub record Reads (b : List ℕ) (n : ℕ) (r : TrackingFileReader) : Type 0 where
  pub same : r.buffer ≡ b
  pub few : left r ≤ n

width-pos : (r : TrackingFileReader) → 0 < width r
unfolding width
width-pos r = ground arith

pub not_eof-left : (r : TrackingFileReader) → is_eof r ≡ false → 0 < left r
unfolding is_eof
not_eof-left r h = ground arith

module _ {b : List ℕ} {n : ℕ} {r : TrackingFileReader} (reads : Reads b n r) where
  pub consume-Reads : Reads b n (consume r).1
  unfolding consume
  consume-Reads = elim (Bool-cases (is_eof r)) [
    | inl e ↦ rw e reads
    | inr e ↦ rw e (record { same = reads.same; few = omega (arith, reads.few) })
  ]

pub consume-less :
    {b : List ℕ} {n : ℕ} {r : TrackingFileReader}
    → Reads b (suc n) r
    → is_eof r ≡ false
    → Reads b n (consume r).1
unfolding consume
consume-less {r} reads e =
    rw e
      (record { same = reads.same; few = omega (arith, reads.few, width-pos r, not_eof-left r e) })

-- Where more characters follow, one was passed.
more-not_eof : (r : TrackingFileReader) → (consume r).0 ≡ true → is_eof r ≡ false
unfolding consume
more-not_eof r h = elim (Bool-cases (is_eof r)) [ inl e ↦ cc | inr e ↦ e ]

consume-fuel :
    {fuel : ℕ} (r : TrackingFileReader)
    → left r < suc fuel
    → is_eof r ≡ false
    → left (consume r).1 < fuel
consume-fuel r few e =
    let pos : 0 < left r = not_eof-left r e in
    let less =
      consume-less {n = left r - 1} {r = r} (record { same = refl; few = omega arith }) e in
    omega (arith, less.few)

one-not_eof : (r : TrackingFileReader) → (consume_many 1 r).0 ≡ true → is_eof r ≡ false
unfolding consume_many
one-not_eof r h = elim (Bool-cases (consume r).0) [
  | inl e ↦ more-not_eof r e
  | inr e ↦ let h' = rw e at h in cc
]

many-Reads :
    {b : List ℕ} {n : ℕ} (amount : ℕ) {r : TrackingFileReader}
    → Reads b n r
    → Reads b n (consume_many amount r).1
unfolding consume_many
many-Reads zero reads = reads
many-Reads (suc amount) {r} reads = elim (Bool-cases (consume r).0) [
  | inl e ↦ rw e (many-Reads amount (consume-Reads reads))
  | inr e ↦ rw e (consume-Reads reads)
]

pub many-less :
    {b : List ℕ} {n : ℕ} (amount : ℕ) {r : TrackingFileReader}
    → Reads b (suc n) r
    → (consume_many (suc amount) r).0 ≡ true
    → Reads b n (consume_many (suc amount) r).1
unfolding consume_many
many-less amount {r} reads h = elim (Bool-cases (consume r).0) [
  | inl e ↦ rw e (many-Reads amount (consume-less reads (more-not_eof r e)))
  | inr e ↦ let h' = rw e at h in cc
]

-- Where characters are passed and more follow, fewer are left.
pub consume_many-Returns :
    {b : List ℕ} {n : ℕ} (amount : ℕ) {r : TrackingFileReader}
    → Reads b (suc n) r
    → Returns (Reads b n) (consume_many_or_error (suc amount) r)
unfolding consume_many_or_error
consume_many-Returns amount {r} reads =
    Returns-if (consume_many (suc amount) r).0 (λ h. value (many-less amount reads h)) (λ _. error)

-- The same, whatever is left.
pub consume_or_error-fewer :
    {b : List ℕ} (n : ℕ) {r : TrackingFileReader}
    → Reads b n r
    → Returns (λ r'. Reads b (n - 1) r' × (0 < n)) (consume_or_error r)
unfolding consume_or_error consume_many_or_error
consume_or_error-fewer zero {r} reads =
    Returns-if (consume_many 1 r).0
      (λ h. absurd (omega (arith, reads.few, not_eof-left r (one-not_eof r h)))) (λ _. error)
consume_or_error-fewer (suc n) reads =
    Returns-weaken (consume_many-Returns 0 reads)
      λ r' reads'. (record { same = reads'.same; few = omega (arith, reads'.few) }, omega arith)

-- A loop that passes characters ends, keeps the property `I` of its text and its reader that each
-- round keeps, and passes the first character if that passes the test.
module _ (test keep : ℕ → Bool) {b : List ℕ} (I : Text → TrackingFileReader → Type 0)
    (kept : (text : Text) (r : TrackingFileReader)
      → r.buffer ≡ b
      → test (peek r) ≡ true
      → I text r
      → I (if keep (peek r) then text ++ peek r ∷ [] else text) (consume r).1) where
  pub read_while-Returns :
      (fuel n : ℕ) (text : Text) {r : TrackingFileReader}
      → Reads b n r
      → left r < fuel
      → I text r
      → Returns (λ a. Reads b n a.1 × I a.0 a.1) (read_while test keep fuel text r)
  unfolding read_while
  read_while-Returns zero n text reads few i = absurd (omega arith)
  read_while-Returns (suc fuel) n text {r} reads few i =
      Returns-if (test (peek r))
        (λ h.
          Returns-if (consume r).0
            (λ more.
              read_while-Returns fuel n _ (consume-Reads reads)
                (consume-fuel r few (more-not_eof r more)) (kept text r reads.same h i))
            λ _. value (consume-Reads reads, kept text r reads.same h i))
        (λ _. value (reads, i))

  -- The same, where the first character passes.
  pub read_while-less :
      (fuel n : ℕ) (text : Text) {r : TrackingFileReader}
      → Reads b (suc n) r
      → left r < fuel
      → is_eof r ≡ false
      → test (peek r) ≡ true
      → I text r
      → Returns (λ a. Reads b n a.1 × I a.0 a.1) (read_while test keep fuel text r)
  unfolding read_while
  read_while-less zero n text reads few e h i = absurd (omega arith)
  read_while-less (suc fuel) n text {r} reads few e h i = rw h (
      Returns-if (consume r).0
        (λ more.
          read_while-Returns fuel n _ (consume-less reads e) (consume-fuel r few e)
            (kept text r reads.same h i))
        λ _. value (consume-less reads e, kept text r reads.same h i))
