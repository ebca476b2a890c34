-- ===== src/Interpreter/Memory/Store/ReadBack.antt =====
-- Bytes and words behind an address are read back as they were written.
use lakesis.Base.{
  not, ltb, ℕ, zero, suc, ◌+◌, ◌-◌, ◌%◌, ◌^◌, ==_iff, ◌≤◌, ◌<◌, ◌≡◌, refl, sym, ap, List, [], ◌∷◌,
  ◌++◌, arith, length, length-append, take, drop, length-take, length-drop, le→leb,
}
use lakesis.Base.Bytes.{to_le_bytes, length-to_le_bytes, from_le_bytes-to_le_bytes}
use lakesis.Base.Result.{ok, >>=-eq-ok, guard}
use lakesis.Core.{bytes_not_available, word_byte_size}
use lakesis.Interpreter.Memory.Heap.{slice, splice, copy_from_slice}
use lakesis.Interpreter.Memory.Store.{
  Memory, get, set, get_word, set_word, ensure_aligned, addr_to_indices, addr_to_allocation,
}

take-append : (xs ys : List ℕ) → take (length xs) (xs ++ ys) ≡ xs
take-append [] ys = refl
take-append (x ∷ xs) ys = ap (λ t. x ∷ t) (take-append xs ys)

take-drop-splice :
    (s : ℕ) (bytes heap tail : List ℕ)
    → s ≤ length heap
    → take (length bytes) (drop s (take s heap ++ (bytes ++ tail))) ≡ bytes
take-drop-splice zero bytes heap tail h = take-append bytes tail
take-drop-splice (suc s) bytes [] tail h = absurd (omega arith)
take-drop-splice (suc s) bytes (x ∷ heap) tail h = take-drop-splice s bytes heap tail (omega arith)

pub length-splice :
    (s : ℕ) (bytes heap : List ℕ)
    → s + length bytes ≤ length heap
    → length (splice s bytes heap) ≡ length heap
unfolding splice
length-splice s bytes heap h = omega (
  arith,
  length-append (take s heap) (bytes ++ drop (s + length bytes) heap),
  length-append bytes (drop (s + length bytes) heap),
  length-take s heap,
  length-drop (s + length bytes) heap,
)

copy_from_slice-ok :
    (s e : ℕ) (bytes heap : List ℕ) {heap' : List ℕ}
    → copy_from_slice s e bytes heap ≡ ok heap'
    → (s ≤ e) × (e ≤ length heap) × (e - s ≡ length bytes) × (splice s bytes heap ≡ heap')
unfolding copy_from_slice
copy_from_slice-ok s e bytes heap h = ground arith

pub slice-splice :
    (s e : ℕ) (bytes heap : List ℕ)
    → s ≤ e
    → e ≤ length heap
    → e - s ≡ length bytes
    → slice s e (splice s bytes heap) ≡ ok bytes
unfolding slice
slice-splice s e bytes heap a b c =
    let inside : s + length bytes ≤ length heap = omega arith in
    rw (le→leb s e a, length-splice s bytes heap inside, le→leb e (length heap) b, c)
      (ap ok (unfold splice in take-drop-splice s bytes heap _ (omega arith)))

-- Which bytes an address stands for does not depend on the bytes.
pub addr_to_indices-heap :
    (addr size : ℕ) (m : Memory) (heap : List ℕ)
    → addr_to_indices addr size (record m { heap = heap }) ≡ addr_to_indices addr size m
unfolding addr_to_indices addr_to_allocation
addr_to_indices-heap addr size m heap = refl

-- Bytes that were written behind an address are what is read there.
pub get-set :
    (addr : ℕ) (bytes : List ℕ) (m m' : Memory)
    → set addr bytes m ≡ ok m'
    → get addr (length bytes) m' ≡ ok bytes
unfolding set get
get-set addr bytes m m' done =
    let ((s, e), found, copying) = >>=-eq-ok (addr_to_indices addr (length bytes) m) _ done in
    let (heap, copied, written) = >>=-eq-ok (copy_from_slice s e bytes m.heap) _ copying in
    let (a, b, c, same) = copy_from_slice-ok s e bytes m.heap copied in
    let after : record m { heap = heap } ≡ m' = cc in
    rw (sym after, addr_to_indices-heap addr (length bytes) m heap, found, sym same)
      (slice-splice s e bytes m.heap a b c)

addr_to_indices-length :
    (addr size : ℕ) (m : Memory) {s e : ℕ} → addr_to_indices addr size m ≡ ok (s, e) → e ≡ s + size
unfolding addr_to_indices
addr_to_indices-length addr size m h =
    let ((a, o), _, rest) = >>=-eq-ok (addr_to_allocation addr m) _ h in
    let left = a.data_length - o in
    let (_, _, done) =
      >>=-eq-ok (guard (not (ltb left size)) (bytes_not_available size left))
        (λ _. ok (a.start + o, a.start + o + size)) rest in
    cc

copy_from_slice-fits :
    (s e : ℕ) (bytes heap : List ℕ)
    → e ≡ s + length bytes
    → e ≤ length heap
    → copy_from_slice s e bytes heap ≡ ok (splice s bytes heap)
unfolding copy_from_slice
copy_from_slice-fits s e bytes heap a b = ground arith

pub set-fits :
    (addr : ℕ) (bytes : List ℕ) (m : Memory) {s e : ℕ}
    → addr_to_indices addr (length bytes) m ≡ ok (s, e)
    → e ≤ length m.heap
    → set addr bytes m ≡ ok (record m { heap = splice s bytes m.heap })
unfolding set
set-fits addr bytes m {s} {e} found inside = rw (
  found,
  copy_from_slice-fits s e bytes m.heap (addr_to_indices-length addr (length bytes) m found) inside,
)

-- At an aligned address with a word's eight bytes in its allocation and on the heap, writing a word
-- succeeds, and reading the address then gives that word.
pub get_word-set_word :
    (addr value : ℕ) (m : Memory) {s e : ℕ}
    → value < 2 ^ 64
    → addr % word_byte_size ≡ 0
    → addr_to_indices addr word_byte_size m ≡ ok (s, e)
    → e ≤ length m.heap
    → (m' : Memory) × (set_word addr value m ≡ ok m') × (get_word addr m' ≡ ok value)
unfolding set_word get_word ensure_aligned
get_word-set_word addr value m {s} {e} h aligned found inside =
    let bytes = to_le_bytes 8 value in
    let m' = record m { heap = splice s bytes m.heap } in
    let here : addr_to_indices addr (length bytes) m ≡ ok (s, e) = rw length-to_le_bytes found in
    let setting : set addr bytes m ≡ ok m' = set-fits addr bytes m here inside in
    let reading : get addr word_byte_size m' ≡ ok bytes =
      rw length-to_le_bytes at (get-set addr bytes m m' setting) in
    let test = (==_iff (addr % word_byte_size) 0).1 aligned in
    (m', rw (test, setting) refl, rw (test, reading) (ap ok (from_le_bytes-to_le_bytes value h)))
