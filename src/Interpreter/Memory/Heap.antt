-- ===== src/Interpreter/Memory/Heap.antt =====
-- `Heap` of src/interpreter/memory.rs: the bytes. A slice out of bounds, which the source's indexing by
-- raw pointers does not check, is a panic here.
use lakesis.Base.{ℕ, ◌+◌, ◌-◌, ◌&&◌, List, ◌++◌, leb, if◌then◌else◌, length, take, drop, replicate}
use lakesis.Base.Result.{ok, panic}
use lakesis.Core.{CoreResult}

-- What `alloc` leaves in new memory is not specified; here it is zeros.
unfoldable pub heap_new : ℕ → List ℕ
heap_new size = replicate size 0

-- `realloc` to a larger size keeps the bytes.
unfoldable pub resize : ℕ → List ℕ → List ℕ
resize new_size heap = take new_size heap ++ replicate (new_size - length heap) 0

-- `&self.heap[start..end]`
unfoldable pub slice : ℕ → ℕ → List ℕ → CoreResult (List ℕ)
slice start end heap =
    if leb start end && leb end (length heap)
    then ok (take (end - start) (drop start heap))
    else panic

-- The heap with other bytes at a place.
unfoldable pub splice : ℕ → List ℕ → List ℕ → List ℕ
splice start bytes heap = take start heap ++ (bytes ++ drop (start + length bytes) heap)

-- `self.heap[start..end].copy_from_slice(bytes)`
unfoldable pub copy_from_slice : ℕ → ℕ → List ℕ → List ℕ → CoreResult (List ℕ)
copy_from_slice start end bytes heap =
    if leb start end
      && leb end (length heap)
      && leb (end - start) (length bytes)
      && leb (length bytes) (end - start)
    then ok (splice start bytes heap)
    else panic

-- `heap.copy_within(start..end, dest)`
unfoldable pub copy_within : ℕ → ℕ → ℕ → List ℕ → CoreResult (List ℕ)
copy_within start end dest heap =
    if leb start end && leb end (length heap) && leb (dest + (end - start)) (length heap)
    then ok (splice dest (take (end - start) (drop start heap)) heap)
    else panic
