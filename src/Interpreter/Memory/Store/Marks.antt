-- ===== src/Interpreter/Memory/Store/Marks.antt =====
-- src/interpreter/memory.rs: the marks of references, in the bits behind the data.
use lakesis.Base.{
  ℕ, zero, suc, ◌-◌, ◌/◌, ◌%◌, ◌^◌, ◌≤◌, ◌<◌, ◌≡◌, refl, ap, Bool, true, false, List, [], ◌∷◌, ◌++◌,
  some, arith, length, ◌==◌, get_elem?, take, drop, length-take, length-drop, le→leb,
}
use lakesis.Base.Result.{ok}
use lakesis.Interpreter.Memory.Heap.{slice, splice}
use lakesis.Interpreter.Memory.Store.{
  Memory, addr_to_reference_indices, addr_to_allocation, get_bit, put_bit, set_bit, is_reference,
  set_reference,
}
use lakesis.Interpreter.Memory.Store.ReadBack.{slice-splice, length-splice}

bit-put_bit : (k : ℕ) (b : Bool) (byte : ℕ) → k < 8 → (put_bit k b byte / 2 ^ k % 2 == 1) ≡ b
unfolding put_bit
bit-put_bit zero true byte h = ground arith
bit-put_bit zero false byte h = ground arith
bit-put_bit (suc zero) true byte h = ground arith
bit-put_bit (suc zero) false byte h = ground arith
bit-put_bit (suc (suc zero)) true byte h = ground arith
bit-put_bit (suc (suc zero)) false byte h = ground arith
bit-put_bit (suc (suc (suc zero))) true byte h = ground arith
bit-put_bit (suc (suc (suc zero))) false byte h = ground arith
bit-put_bit (suc (suc (suc (suc zero)))) true byte h = ground arith
bit-put_bit (suc (suc (suc (suc zero)))) false byte h = ground arith
bit-put_bit (suc (suc (suc (suc (suc zero))))) true byte h = ground arith
bit-put_bit (suc (suc (suc (suc (suc zero))))) false byte h = ground arith
bit-put_bit (suc (suc (suc (suc (suc (suc zero)))))) true byte h = ground arith
bit-put_bit (suc (suc (suc (suc (suc (suc zero)))))) false byte h = ground arith
bit-put_bit (suc (suc (suc (suc (suc (suc (suc zero))))))) true byte h = ground arith
bit-put_bit (suc (suc (suc (suc (suc (suc (suc zero))))))) false byte h = ground arith
bit-put_bit (suc (suc (suc (suc (suc (suc (suc (suc k)))))))) b byte h = absurd (omega arith)

get_elem?-splice :
    (j : ℕ) (x : ℕ) (bytes tail : List ℕ)
    → j < length bytes
    → get_elem? (take j bytes ++ (x ∷ tail)) j ≡ some x
get_elem?-splice j x [] tail h = absurd (omega arith)
get_elem?-splice zero x (y ∷ ys) tail h = refl
get_elem?-splice (suc j) x (y ∷ ys) tail h = get_elem?-splice j x ys tail (omega arith)

get_elem?-inside : (xs : List ℕ) (j : ℕ) → j < length xs → (x : ℕ) × (get_elem? xs j ≡ some x)
get_elem?-inside [] j h = absurd (omega arith)
get_elem?-inside (x ∷ xs) zero h = (x, refl)
get_elem?-inside (x ∷ xs) (suc j) h = get_elem?-inside xs j (omega arith)

get_bit-set_bit :
    (i : ℕ) (b : Bool) (bytes : List ℕ)
    → i / 8 < length bytes
    → (bytes' : List ℕ) × (set_bit i b bytes ≡ some bytes')
      × (get_bit i bytes' ≡ some b)
      × (length bytes' ≡ length bytes)
unfolding set_bit get_bit
get_bit-set_bit i b bytes h =
    let (byte, e) = get_elem?-inside bytes (i / 8) h in
    let put : get_elem? (splice (i / 8) (put_bit (i % 8) b byte ∷ []) bytes) (i / 8)
        ≡ some (put_bit (i % 8) b byte) =
      unfold splice in get_elem?-splice (i / 8) (put_bit (i % 8) b byte) bytes _ h in
    (
      splice (i / 8) (put_bit (i % 8) b byte ∷ []) bytes,
      rw (set_bit, e) refl,
      rw (get_bit, put) (ap some (bit-put_bit (i % 8) b byte (omega arith))),
      length-splice (i / 8) (put_bit (i % 8) b byte ∷ []) bytes (omega arith),
    )

pub slice-ok :
    (s e : ℕ) (heap : List ℕ)
    → s ≤ e
    → e ≤ length heap
    → slice s e heap ≡ ok (take (e - s) (drop s heap))
unfolding slice
slice-ok s e heap a b = rw (le→leb s e a, le→leb e (length heap) b) refl

-- The bytes that setting a mark leaves on the heap.
pub set_reference-splice :
    (addr : ℕ) (mark : Bool) (m : Memory) {start end offset : ℕ}
    → addr_to_reference_indices addr m ≡ ok (start, end, offset)
    → end ≤ length m.heap
    → offset / 8 < end - start
    → (bits : List ℕ) × (length bits ≡ end - start)
      × (set_reference addr mark m ≡ ok (record m { heap = splice start bits m.heap }))
      × (is_reference addr (record m { heap = splice start bits m.heap }) ≡ ok mark)
unfolding set_reference is_reference addr_to_reference_indices addr_to_allocation
set_reference-splice addr mark m {start} {end} {offset} found inside few =
    let bits = take (end - start) (drop start m.heap) in
    let sliced : slice start end m.heap ≡ ok bits =
      slice-ok start end m.heap (omega arith) inside in
    let long : length bits ≡ end - start =
      omega (arith, length-take (end - start) (drop start m.heap), length-drop start m.heap) in
    let (bits', is, back, same) = get_bit-set_bit offset mark bits (omega arith) in
    (
      bits',
      omega (arith, same, long),
      rw (found, sliced, is) refl,
      rw (found, slice-splice start end bits' m.heap (omega arith) inside (omega arith), back) refl,
    )

-- Where the bits of an allocation's marks lie on the heap and reach the mark of an aligned address,
-- setting the mark succeeds, and reading the mark then gives what was set.
pub is_reference-set_reference :
    (addr : ℕ) (mark : Bool) (m : Memory) {start end offset : ℕ}
    → addr_to_reference_indices addr m ≡ ok (start, end, offset)
    → end ≤ length m.heap
    → offset / 8 < end - start
    → (m' : Memory) × (set_reference addr mark m ≡ ok m') × (is_reference addr m' ≡ ok mark)
is_reference-set_reference addr mark m found inside few =
    let (bits, _, done, back) = set_reference-splice addr mark m found inside few in (_, done, back)
