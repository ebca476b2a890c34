-- ===== src/Interpreter/Memory/Store/DataWords.antt =====
-- src/interpreter/memory.rs: words together with their marks.
use lakesis.Base.{
  ℕ, zero, suc, ◌+◌, ◌-◌, ◌/◌, ◌%◌, ◌^◌, ◌≤◌, ◌<◌, ◌≡◌, refl, sym, ap, ◌∙◌, true, false, List, [],
  ◌∷◌, ◌++◌, arith, length, ◌==◌, ==_iff, take, drop, ltb,
}
use lakesis.Base.Bytes.{to_le_bytes, length-to_le_bytes, from_le_bytes-to_le_bytes}
use lakesis.Base.Result.{ok}
use lakesis.Core.{word_byte_size}
use lakesis.Interpreter.Data.{DataWord}
use lakesis.Interpreter.Memory.Heap.{slice, splice}
use lakesis.Interpreter.Memory.Store.{
  Allocation, Memory, addr_to_allocation, addr_to_indices, addr_to_reference_indices,
  ensure_aligned, get, set, get_word, set_word, bitfield_start, bitfield_end, data_end,
  get_data_word, set_data_word,
}
use lakesis.Interpreter.Memory.Store.ReadBack.{slice-splice, length-splice, set-fits}
use lakesis.Interpreter.Memory.Store.Marks.{set_reference-splice, slice-ok}

-- Bytes in front of those that are replaced stay.
take-drop-before :
    (s n t : ℕ) (heap tail : List ℕ)
    → s + n ≤ t
    → t ≤ length heap
    → take n (drop s (take t heap ++ tail)) ≡ take n (drop s heap)
take-drop-before zero zero t heap tail h k = refl
take-drop-before zero (suc n) zero heap tail h k = absurd (omega arith)
take-drop-before zero (suc n) (suc t) [] tail h k = absurd (omega arith)
take-drop-before zero (suc n) (suc t) (x ∷ heap) tail h k =
    ap (λ xs. x ∷ xs) (take-drop-before zero n t heap tail (omega arith) (omega arith))
take-drop-before (suc s) n zero heap tail h k = absurd (omega arith)
take-drop-before (suc s) n (suc t) [] tail h k = absurd (omega arith)
take-drop-before (suc s) n (suc t) (x ∷ heap) tail h k =
    take-drop-before s n t heap tail (omega arith) (omega arith)

slice-splice_before :
    (s e t : ℕ) (bytes heap : List ℕ)
    → s ≤ e
    → e ≤ t
    → t + length bytes ≤ length heap
    → slice s e (splice t bytes heap) ≡ slice s e heap
slice-splice_before s e t bytes heap a b c =
    let kept : take (e - s) (drop s (splice t bytes heap)) ≡ take (e - s) (drop s heap) =
      unfold splice in take-drop-before s (e - s) t heap _ (omega arith) (omega arith) in
    slice-ok s e (splice t bytes heap) a (omega (arith, length-splice t bytes heap c))
    ∙ ap ok kept
    ∙ sym (slice-ok s e heap a (omega arith))

-- A word can stand at an address: it is aligned and mapped, its bytes lie in the allocation, and the
-- allocation lies on the heap with its marks.
pub record HoldsWord (addr : ℕ) (m : Memory) : Type 0 where
  pub allocation : Allocation
  pub offset : ℕ
  pub end : ℕ
  pub aligned : addr % word_byte_size ≡ 0
  pub mapped : addr_to_allocation addr m ≡ ok (allocation, offset)
  pub room : offset + word_byte_size ≤ allocation.data_length
  pub marks : bitfield_end allocation ≡ ok end
  pub inside : end ≤ length m.heap
  pub marked : offset / 64 < end - bitfield_start allocation

-- Where a word stands does not depend on the bytes of the heap.
module _ {addr : ℕ} {m : Memory} (h : HoldsWord addr m) (heap : List ℕ) where
  reference_indices :
      addr_to_reference_indices addr (record m { heap = heap })
      ≡ ok (bitfield_start h.allocation, h.end, h.offset / word_byte_size)
  unfolding addr_to_reference_indices addr_to_allocation
  reference_indices = rw ((==_iff (addr % word_byte_size) 0).1 h.aligned, mapped', h.marks) refl
    where
      mapped' : addr_to_allocation addr (record m { heap = heap }) ≡ ok (h.allocation, h.offset)
      mapped' = h.mapped

  word_indices :
      addr_to_indices addr word_byte_size (record m { heap = heap })
      ≡ ok (h.allocation.start + h.offset, h.allocation.start + h.offset + word_byte_size)
  unfolding addr_to_indices addr_to_allocation
  word_indices = rw (mapped', enough) refl
    where
      mapped' : addr_to_allocation addr (record m { heap = heap }) ≡ ok (h.allocation, h.offset)
      mapped' = h.mapped

      enough : ltb (h.allocation.data_length - h.offset) word_byte_size ≡ false
      enough = ground (arith, h.room)

-- Where a word can stand, writing a word with its mark succeeds, changes nothing but bytes of
-- the heap, whose length stays, and reading the address then gives the word and the mark.
pub get_data_word-set_data_word :
    (addr : ℕ) (w : DataWord) (m : Memory)
    → w.value < 2 ^ 64
    → HoldsWord addr m
    → (heap : List ℕ) × (length heap ≡ length m.heap)
      × (set_data_word addr w m ≡ ok (record m { heap = heap }))
      × (get_data_word addr (record m { heap = heap }) ≡ ok w)
unfolding set_data_word get_data_word set_word get_word ensure_aligned get bitfield_start data_end
get_data_word-set_data_word addr w m small h =
    let bytes = to_le_bytes 8 w.value in
    let at = h.allocation.start + h.offset in
    let heap₁ = splice at bytes m.heap in
    let m₁ : Memory = record m { heap = heap₁ } in
    let eight : length bytes ≡ 8 = length-to_le_bytes 8 w.value in
    let fits : at + length bytes ≤ length m.heap =
      omega (arith, eight, h.room, h.inside, h.marked) in
    let long : length heap₁ ≡ length m.heap = length-splice at bytes m.heap fits in
    let here : addr_to_indices addr (length bytes) m ≡ ok (at, at + word_byte_size) =
      rw eight (word_indices h m.heap) in
    let setting : set addr bytes m ≡ ok m₁ =
      set-fits addr bytes m here (omega (arith, fits, eight)) in
    let (bits, size, marking, marked) =
      set_reference-splice addr w.is_reference m₁ (reference_indices h heap₁)
        (omega (arith, long, h.inside)) (omega (arith, h.marked)) in
    let heap₂ = splice (bitfield_start h.allocation) bits heap₁ in
    let m₂ : Memory = record m { heap = heap₂ } in
    let fits₂ : bitfield_start h.allocation + length bits ≤ length heap₁ =
      unfold data_end in omega (arith, size, long, h.inside, h.marked) in
    let near : at + word_byte_size ≤ bitfield_start h.allocation =
      unfold data_end in omega (arith, h.room) in
    let bytes₂ : slice at (at + word_byte_size) heap₂ ≡ ok bytes =
      slice-splice_before at (at + word_byte_size) (bitfield_start h.allocation) bits heap₁
        (omega arith) near fits₂
      ∙ slice-splice at (at + word_byte_size) bytes m.heap (omega arith)
          (omega (arith, fits, eight)) (omega (arith, eight)) in
    let even : (addr % word_byte_size == 0) ≡ true =
      (==_iff (addr % word_byte_size) 0).1 h.aligned in
    let long₂ : length heap₂ ≡ length m.heap =
      length-splice (bitfield_start h.allocation) bits heap₁ fits₂ ∙ long in
    (
      heap₂,
      long₂,
      rw (even, setting) marking,
      rw (even, word_indices h heap₂, bytes₂, from_le_bytes-to_le_bytes w.value small, marked) refl,
    )
