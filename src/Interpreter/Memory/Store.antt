-- ===== src/Interpreter/Memory/Store.antt =====
-- `Memory` of src/interpreter/memory.rs: reads and writes through virtual addresses.
pub mod ReadBack
pub mod Marks
pub mod DataWords
use lakesis.Base.{
  ℕ, ◌+◌, ◌-◌, ◌*◌, ◌/◌, ◌%◌, ◌^◌, Bool, List, [], ◌∷◌, Option, none, some, ltb, leb, ◌==◌, not,
  if◌then◌else◌, length, get_elem?,
}
use lakesis.Base.Bytes.{to_le_bytes, from_le_bytes}
use lakesis.Base.Text.{Text}
use lakesis.Base.Result.{ok, ◌>>=◌, ◌>>◌, guard, unwrap}
use lakesis.Core.{
  CoreResult, word_byte_size, initial_memory_size, unmapped_memory, bytes_not_available,
  not_word_aligned, not_byte_aligned,
}
use lakesis.Interpreter.Data.{DataWord}
use lakesis.Interpreter.Memory.IdMap
use lakesis.Interpreter.Memory.IdMap.{IdMap}
use lakesis.Interpreter.Memory.Sizes.{bitfield_len}
use lakesis.Interpreter.Memory.Heap.{heap_new, slice, splice, copy_from_slice}
use lakesis.Interpreter.Memory.Mapper.{VirtualAddressMapper, mapper_new, translate}
use lakesis.Interpreter.Memory.Regions.{HeapRegions, regions_new}

pub record Allocation : Type 0 where
  pub id : ℕ
  pub start : ℕ
  pub data_length : ℕ
  pub is_collectible : Bool
  pub name : Option Text
  pub virtual_block : ℕ
  pub region : ℕ

pub record Memory : Type 0 where
  pub virtual_mapper : VirtualAddressMapper
  pub regions : HeapRegions
  pub allocations : IdMap Allocation
  pub heap : List ℕ

unfoldable pub memory_new : Memory
memory_new = record {
  virtual_mapper = mapper_new;
  regions = regions_new initial_memory_size;
  allocations = IdMap.empty;
  heap = heap_new initial_memory_size;
}

unfoldable pub data_end : Allocation → ℕ
data_end a = a.start + a.data_length

unfoldable pub bitfield_start : Allocation → ℕ
unfolding data_end
bitfield_start a = data_end a

unfoldable pub bitfield_end : Allocation → CoreResult ℕ
unfolding bitfield_start
bitfield_end a = do n ← bitfield_len a.data_length; ok (bitfield_start a + n)

unfoldable pub addr_to_allocation : ℕ → Memory → CoreResult (Allocation × ℕ)
addr_to_allocation addr m = do
  (id, offset) ← translate addr m.virtual_mapper
  a ← unwrap (IdMap.get id m.allocations)
  guard (not (leb a.data_length offset)) unmapped_memory
  ok (a, offset)

unfoldable pub addr_to_indices : ℕ → ℕ → Memory → CoreResult (ℕ × ℕ)
addr_to_indices addr size m = do
  (a, offset) ← addr_to_allocation addr m
  let readable_len = a.data_length - offset
  guard (not (ltb readable_len size)) (bytes_not_available size readable_len)
  ok (a.start + offset, a.start + offset + size)

-- `Memory::get`
unfoldable pub get : ℕ → ℕ → Memory → CoreResult (List ℕ)
get addr size m = do (start, end) ← addr_to_indices addr size m; slice start end m.heap

-- `Memory::set`
unfoldable pub set : ℕ → List ℕ → Memory → CoreResult Memory
set addr bytes m = do
  (start, end) ← addr_to_indices addr (length bytes) m
  heap ← copy_from_slice start end bytes m.heap
  ok (record m { heap = heap })

unfoldable pub ensure_aligned : ℕ → CoreResult (Unit {0})
ensure_aligned addr = guard (addr % word_byte_size == 0) (not_word_aligned addr)

unfoldable pub get_word : ℕ → Memory → CoreResult ℕ
get_word addr m = do
  ensure_aligned addr
  bytes ← get addr word_byte_size m
  ok (from_le_bytes bytes)

unfoldable pub set_word : ℕ → ℕ → Memory → CoreResult Memory
set_word addr value m = do ensure_aligned addr; set addr (to_le_bytes 8 value) m

unfoldable pub addr_to_reference_indices : ℕ → Memory → CoreResult (ℕ × ℕ × ℕ)
addr_to_reference_indices addr m = do
  guard (addr % word_byte_size == 0) (not_byte_aligned addr)
  (a, byte_offset) ← addr_to_allocation addr m
  end ← bitfield_end a
  ok (bitfield_start a, end, byte_offset / word_byte_size)

-- Bit `i` of a bit slice over bytes, lowest bit first, as `view_bits::<Lsb0>` numbers them.
unfoldable pub get_bit : ℕ → List ℕ → Option Bool
get_bit i bytes = elim (get_elem? bytes (i / 8)) [
  | none ↦ none
  | some b ↦ some (b / 2 ^ (i % 8) % 2 == 1)
]

-- A byte with one bit given anew.
unfoldable pub put_bit : ℕ → Bool → ℕ → ℕ
put_bit k b byte =
    let low = byte % 2 ^ k in
    let high = byte / 2 ^ (k + 1) * 2 ^ (k + 1) in high + ((if b then 2 ^ k else 0) + low)

unfoldable pub set_bit : ℕ → Bool → List ℕ → Option (List ℕ)
set_bit i b bytes = elim (get_elem? bytes (i / 8)) [
  | none ↦ none
  | some byte ↦ some (splice (i / 8) (put_bit (i % 8) b byte ∷ []) bytes)
]

unfoldable pub is_reference : ℕ → Memory → CoreResult Bool
is_reference addr m = do
  (start, end, offset) ← addr_to_reference_indices addr m
  bits ← slice start end m.heap
  unwrap (get_bit offset bits)

unfoldable pub set_reference : ℕ → Bool → Memory → CoreResult Memory
set_reference addr value m = do
  (start, end, offset) ← addr_to_reference_indices addr m
  bits ← slice start end m.heap
  bits' ← unwrap (set_bit offset value bits)
  ok (record m { heap = splice start bits' m.heap })

unfoldable pub get_data_word : ℕ → Memory → CoreResult DataWord
get_data_word addr m = do
  value ← get_word addr m
  ref ← is_reference addr m
  ok (record { value = value; is_reference = ref })

unfoldable pub set_data_word : ℕ → DataWord → Memory → CoreResult Memory
set_data_word addr w m = do m₁ ← set_word addr w.value m; set_reference addr w.is_reference m₁
