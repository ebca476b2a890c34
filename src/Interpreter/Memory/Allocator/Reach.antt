-- ===== src/Interpreter/Memory/Allocator/Reach.antt =====
-- What the program of src/interpreter/memory.rs can still reach from some addresses.
use mathlib.Core.List.{Memᴰ}
use mathlib.Core.List.Memᴰ
use mathlib.Core.Path.{subst}
use lakesis.Base.{
  ℕ, zero, suc, ◌+◌, ◌*◌, ◌/◌, ◌≤◌, ◌<◌, ◌≡◌, ◌≢◌, refl, sym, ap, ◌∙◌, ◌⊎◌, inl, inr, ◌↔◌, arith,
  Bool, true, false, List, ◌∷◌, length, Option, none, some, get_elem?, get_elem?-none, leb, leb→le,
  Bool-cases,
}
use lakesis.Base.Bytes.{from_le_bytes}
use lakesis.Base.Result.{ok, ◌>>=◌, >>=-eq-ok}
use lakesis.Core.{CoreResult, word_byte_size}
use lakesis.Interpreter.Memory.Heap.{slice}
use lakesis.Interpreter.Memory.Store.{
  Allocation, Memory, addr_to_allocation, bitfield_start, bitfield_end, get_bit,
}
use lakesis.Interpreter.Memory.Allocator.{push_references, push_allocation}

-- A marked word in an allocation: bit `index` of its marks is set, and the word is at `index`.
pub record RefersTo (a : Allocation) (heap : List ℕ) (target : ℕ) : Type 0 where
  pub end : ℕ
  pub marks_end : bitfield_end a ≡ ok end
  pub bits : List ℕ
  pub marks : slice (bitfield_start a) end heap ≡ ok bits
  pub index : ℕ
  pub marked : get_bit index bits ≡ some true
  pub word : List ℕ
  pub read :
      slice
        (a.start + index * word_byte_size)
        (a.start + index * word_byte_size + word_byte_size)
        heap
      ≡ ok word
  pub is : from_le_bytes word ≡ target

-- The addresses that are roots, or that an allocation at an address reached refers to.
pub data IsReached (m : Memory) (roots : List ℕ) : ℕ → Type 0 where
  root : {addr : ℕ} → Memᴰ addr roots → IsReached m roots addr
  follow :
      {addr offset target : ℕ} {a : Allocation}
      → IsReached m roots addr
      → addr_to_allocation addr m ≡ ok (a, offset)
      → RefersTo a m.heap target
      → IsReached m roots target

-- An allocation with this id is at an address reached.
abbrev pub IsReachedId : Memory → List ℕ → ℕ → Type 0
IsReachedId m roots id =
    (addr : ℕ) × (a : Allocation) × (offset : ℕ) × (addr_to_allocation addr m ≡ ok (a, offset))
    × (a.id ≡ id)
    × IsReached m roots addr

eq_or_lt : (i j : ℕ) → i ≤ j → (i ≡ j) ⊎ (i < j)
eq_or_lt zero zero h = inl refl
eq_or_lt zero (suc j) h = inr (omega arith)
eq_or_lt (suc i) zero h = absurd (omega arith)
eq_or_lt (suc i) (suc j) h = elim (eq_or_lt i j (omega arith)) [
  | inl e ↦ inl (ap suc e)
  | inr l ↦ inr (omega arith)
]

-- A marked word among the bits from `i` on.
record Pushed (n i : ℕ) (bits : List ℕ) (start : ℕ) (heap : List ℕ) (target : ℕ) : Type 0 where
  index : ℕ
  low : i ≤ index
  high : index < i + n
  marked : get_bit index bits ≡ some true
  word : List ℕ
  read :
      slice (start + index * word_byte_size) (start + index * word_byte_size + word_byte_size) heap
      ≡ ok word
  is : from_le_bytes word ≡ target

pub mark-cases : (o : Option Bool) → (o ≡ some true) ⊎ ((o ≡ none) ⊎ (o ≡ some false))
mark-cases (some true) = inl refl
mark-cases none = inr (inl refl)
mark-cases (some false) = inr (inr refl)

module _ (bits : List ℕ) (start : ℕ) (heap : List ℕ) (target : ℕ) where
  later :
      {n i : ℕ} → Pushed n (suc i) bits start heap target → Pushed (suc n) i bits start heap target
  later p = record {
    index = p.index;
    low = omega (arith, p.low);
    high = omega (arith, p.high);
    marked = p.marked;
    word = p.word;
    read = p.read;
    is = p.is;
  }

  first_or_later :
      {n i : ℕ} (p : Pushed (suc n) i bits start heap target)
      → (p.index ≡ i) ⊎ Pushed n (suc i) bits start heap target
  first_or_later {n} {i} p = elim (eq_or_lt i p.index p.low) [
    | inl e ↦ inl (sym e)
    | inr more ↦ inr (record {
      index = p.index;
      low = more;
      high = omega (arith, p.high);
      marked = p.marked;
      word = p.word;
      read = p.read;
      is = p.is;
    })
  ]

  first_word :
      {n i : ℕ} (p : Pushed n i bits start heap target) {word : List ℕ}
      → p.index ≡ i
      → slice (start + i * word_byte_size) (start + i * word_byte_size + word_byte_size) heap
        ≡ ok word
      → target ≡ from_le_bytes word
  first_word {n} {i} p {word} e read =
      let read' : slice (start + i * word_byte_size) (start + i * word_byte_size + word_byte_size)
            heap
          ≡ ok p.word =
        subst
          (λ k.
            slice (start + k * word_byte_size) (start + k * word_byte_size + word_byte_size) heap
            ≡ ok p.word)
          e p.read in
      let same : p.word ≡ word = cc in sym p.is ∙ ap from_le_bytes same

  -- What is on the stack afterwards was there, or is a marked word, and both are there.
  push_references-Pushed :
      (n i : ℕ) (next : List ℕ) {next' : List ℕ}
      → push_references n i bits start heap next ≡ ok next'
      → Memᴰ target next' ↔ (Memᴰ target next ⊎ Pushed n i bits start heap target)
  unfolding push_references
  push_references-Pushed zero i next {next'} h =
      let same : next ≡ next' = cc in
      (
        (λ t. inl (subst (Memᴰ target) (sym same) t)),
        (λ t. elim t [
          | inl here ↦ subst (Memᴰ target) same here
          | inr p ↦ absurd (omega (arith, p.low, p.high))
        ]),
      )
  push_references-Pushed (suc n) i next {next'} h = elim (mark-cases (get_bit i bits)) [
    | inl set ↦
        (let h' : (slice (start + i * word_byte_size) (start + i * word_byte_size + word_byte_size)
                  heap
                >>= λ word. push_references n (suc i) bits start heap (from_le_bytes word ∷ next))
              ≡ ok next' =
            rw (push_references, set) at h in
          let (word, read, rest) =
            >>=-eq-ok
              (slice (start + i * word_byte_size) (start + i * word_byte_size + word_byte_size)
                heap)
              _ h' in
          let (to, from) = push_references-Pushed n (suc i) (from_le_bytes word ∷ next) rest in
          (
            (λ t. elim (to t) [
              | inl here ↦ elim (Memᴰ.cases_cons here) [
                | inl e ↦ inr (record {
                  index = i;
                  low = omega arith;
                  high = omega arith;
                  marked = set;
                  word = word;
                  read = read;
                  is = sym e;
                })
                | inr old ↦ inl old
              ]
              | inr p ↦ inr (later p)
            ]),
            (λ t. elim t [
              | inl here ↦ from (inl (Memᴰ.tail here))
              | inr p ↦ elim (first_or_later p) [
                | inl e ↦ from (inl (Memᴰ.head (first_word p e read)))
                | inr q ↦ from (inr q)
              ]
            ]),
          ))
    | inr (inl unset) ↦
        skipped (λ yes. cc)
          (push_references-Pushed n (suc i) next (rw (push_references, unset) at h))
    | inr (inr unset) ↦
        skipped (λ yes. cc)
          (push_references-Pushed n (suc i) next (rw (push_references, unset) at h))
  ]
    where
      skipped :
          (get_bit i bits ≢ some true)
          → Memᴰ target next' ↔ (Memᴰ target next ⊎ Pushed n (suc i) bits start heap target)
          → Memᴰ target next' ↔ (Memᴰ target next ⊎ Pushed (suc n) i bits start heap target)
      skipped unset (to, from) = (
        (λ t. elim (to t) [ inl here ↦ inl here | inr p ↦ inr (later p) ]),
        (λ t. elim t [
          | inl here ↦ from (inl here)
          | inr p ↦ elim (first_or_later p) [
            | inl e ↦ absurd (unset (subst (λ k. get_bit k bits ≡ some true) e p.marked))
            | inr q ↦ from (inr q)
          ]
        ]),
      )

ok_inj : {A : Type 0} {a b : A} → ◌≡◌ {A = CoreResult A} (ok a) (ok b) → a ≡ b
ok_inj e = cc

pub get_bit-inside :
    (i : ℕ) (bits : List ℕ) {b : Bool} → get_bit i bits ≡ some b → i < 8 * length bits
unfolding get_bit
get_bit-inside i bits {b} h = elim (Bool-cases (leb (length bits) (i / 8))) [
  | inl out ↦
      (let none_there : get_elem? bits (i / 8) ≡ none =
          get_elem?-none bits (i / 8) (leb→le (length bits) (i / 8) out) in
        let h' : none ≡ some b = rw (get_bit, none_there) at h in absurd (none_is_not h'))
  | inr fits ↦ ground (arith, fits)
]
  where
    none_is_not : (none ≡ some b) → ⊥
    none_is_not e = cc

-- The addresses that scanning an allocation puts on the stack.
pub push_allocation-RefersTo :
    (a : Allocation) (m : Memory) (next : List ℕ) {next' : List ℕ} (target : ℕ)
    → push_allocation a m next ≡ ok next'
    → Memᴰ target next' ↔ (Memᴰ target next ⊎ RefersTo a m.heap target)
unfolding push_allocation
push_allocation-RefersTo a m next {next'} target h =
    let (end, marks_end, h₁) = >>=-eq-ok (bitfield_end a) _ h in
    let (bits, marks, h₂) = >>=-eq-ok (slice (bitfield_start a) end m.heap) _ h₁ in
    let (to, from) =
      push_references-Pushed bits a.start m.heap target (8 * length bits) 0 next h₂ in
    (
      (λ t. elim (to t) [
        | inl here ↦ inl here
        | inr p ↦ inr (record {
          end = end;
          marks_end = marks_end;
          bits = bits;
          marks = marks;
          index = p.index;
          marked = p.marked;
          word = p.word;
          read = p.read;
          is = p.is;
        })
      ]),
      (λ t. elim t [
        | inl here ↦ from (inl here)
        | inr r ↦
            (let same_end : r.end ≡ end = ok_inj (sym r.marks_end ∙ marks_end) in
              let same_bits : r.bits ≡ bits =
                ok_inj
                  (sym r.marks ∙ ap (λ e. slice (bitfield_start a) e m.heap) same_end ∙ marks) in
              let marked : get_bit r.index bits ≡ some true =
                subst (λ bs. get_bit r.index bs ≡ some true) same_bits r.marked in
              from (
                inr (record {
                  index = r.index;
                  low = omega arith;
                  high = omega (arith, get_bit-inside r.index bits marked);
                  marked = marked;
                  word = r.word;
                  read = r.read;
                  is = r.is;
                })))
      ]),
    )
