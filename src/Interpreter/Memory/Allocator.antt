-- ===== src/Interpreter/Memory/Allocator.antt =====
-- `Memory` of src/interpreter/memory.rs: allocation, garbage collection and growth of the heap.
pub mod Reach
pub mod Visit
pub mod Mark
pub mod Scan
pub mod Collected
pub mod Survival
pub mod Garbage
use Prim.Native.Nat.{min}
use lakesis.Base.{
  ℕ, zero, suc, ◌+◌, ◌*◌, Bool, true, false, List, [], ◌∷◌, Option, none, some, ltb, leb, ◌==◌,
  if◌then◌else◌, length, replicate,
}
use lakesis.Base.Bytes.{from_le_bytes}
use lakesis.Base.Text.{Text}
use lakesis.Base.Words.{add_uword}
use lakesis.Base.Result.{ok, err, panic, ◌>>=◌, ◌>>◌, guard, unwrap, ok_or}
use lakesis.Core.{
  CoreResult, word_byte_size, max_memory_size, out_of_memory as out_of_memory_error,
  invalid_allocation_id,
}
use lakesis.Interpreter.Data.{DataWord}
use lakesis.Interpreter.Memory.IdMap
use lakesis.Interpreter.Memory.IdMap.{IdMap}
use lakesis.Interpreter.Memory.Sizes.{total_region_len}
use lakesis.Interpreter.Memory.Heap.{slice, splice, resize}
use lakesis.Interpreter.Memory.Mapper.{map_block, unmap, get_block}
use lakesis.Interpreter.Memory.Regions
use lakesis.Interpreter.Memory.Regions.{
  AllocationResult, success, out_of_memory, failure, used_bytes, extend,
}
use lakesis.Interpreter.Memory.Regions.Compact.{compact}
use lakesis.Interpreter.Memory.Store.{
  Allocation, Memory, addr_to_allocation, bitfield_start, bitfield_end, get_bit,
}

-- `Memory::deallocate`
unfoldable pub deallocate : ℕ → Memory → CoreResult Memory
deallocate id m = do
  a ← ok_or (IdMap.get id m.allocations) invalid_allocation_id
  mapper ← unmap a.virtual_block m.virtual_mapper
  regions ← Regions.deallocate a.region m.regions
  ok (record m {
    virtual_mapper = mapper;
    regions = regions;
    allocations = IdMap.remove id m.allocations;
  })

unfoldable pub contains : ℕ → List ℕ → Bool
contains k [] = false
contains k (x ∷ xs) = if x == k then true else contains k xs

-- `HashSet::remove`
unfoldable pub discard : ℕ → List ℕ → List ℕ
discard k [] = []
discard k (x ∷ xs) = let rest = discard k xs in if x == k then rest else x ∷ rest

-- The words that the bits from `i` on mark as references, pushed one after the other.
unfoldable pub push_references : ℕ → ℕ → List ℕ → ℕ → List ℕ → List ℕ → CoreResult (List ℕ)
push_references zero i bits start heap next = ok next
push_references (suc n) i bits start heap next = elim (get_bit i bits) [
  | some true ↦ (do
    word ← slice (start + i * word_byte_size) (start + i * word_byte_size + word_byte_size) heap
    push_references n (suc i) bits start heap (from_le_bytes word ∷ next))
  | _ ↦ push_references n (suc i) bits start heap next
]

-- The references in an allocation, on top of the stack `next`.
unfoldable pub push_allocation : Allocation → Memory → List ℕ → CoreResult (List ℕ)
push_allocation a m next = do
  end ← bitfield_end a
  bits ← slice (bitfield_start a) end m.heap
  push_references (8 * length bits) 0 bits a.start m.heap next

-- `while let Some(addr) = next.pop()`, on fuel: what is left of `collectible`.
unfoldable pub mark_loop : ℕ → List ℕ → List ℕ → List ℕ → Memory → CoreResult (List ℕ)
mark_loop fuel [] visited collectible m = ok collectible
mark_loop zero (addr ∷ next) visited collectible m = panic
mark_loop (suc fuel) (addr ∷ next) visited collectible m = elim (addr_to_allocation addr m) [
  | ok (a, _) ↦ elim (contains a.id visited) [
    | true ↦ mark_loop fuel next visited collectible m
    | false ↦ (do
      next' ← push_allocation a m next
      mark_loop fuel next' (a.id ∷ visited) (discard a.id collectible) m)
  ]
  | err _ ↦ mark_loop fuel next visited collectible m
  | panic ↦ panic
]

-- The bases of the blocks that are never collected, and the ids that may be.
unfoldable pub seed :
    List (ℕ × Allocation) → Memory → List ℕ → List ℕ → CoreResult (List ℕ × List ℕ)
seed [] m next collectible = ok (next, collectible)
seed ((id, a) ∷ as') m next collectible = elim a.is_collectible [
  | true ↦ seed as' m next (id ∷ collectible)
  | false ↦ (do
    b ← unwrap (get_block a.virtual_block m.virtual_mapper)
    seed as' m (b.base ∷ next) collectible)
]

-- The addresses among the roots.
unfoldable pub root_addresses : List DataWord → List ℕ
root_addresses [] = []
root_addresses (w ∷ ws) = if w.is_reference then w.value ∷ root_addresses ws else root_addresses ws

unfoldable pub deallocate_all : List ℕ → Memory → CoreResult Memory
deallocate_all [] m = ok m
deallocate_all (id ∷ is) m = do m' ← deallocate id m; deallocate_all is m'

-- `allocation.start = region.base` for each allocation.
unfoldable pub relocate :
    List (ℕ × Allocation) → Regions.HeapRegions → CoreResult (List (ℕ × Allocation))
relocate [] h = ok []
relocate ((id, a) ∷ as') h = do
  r ← unwrap (Regions.get a.region h)
  rest ← relocate as' h
  ok ((id, record a { start = r.base }) ∷ rest)

-- Each allocation is scanned once, and pushes a word at most for each bit of its bitfield on the heap.
abbrev pub mark_fuel : List ℕ → Memory → ℕ
mark_fuel next m = length next + 8 * length m.heap

unfoldable pub force_garbage_collection : List DataWord → Memory → CoreResult Memory
force_garbage_collection roots m = do
  (next, collectible) ← seed m.allocations.entries m (root_addresses roots) []
  garbage ← mark_loop (mark_fuel next m) next [] collectible m
  m₁ ← deallocate_all garbage m
  (regions, heap) ← compact m₁.regions m₁.heap
  entries ← relocate m₁.allocations.entries regions
  ok (record m₁ {
    regions = regions;
    heap = heap;
    allocations = record (m₁.allocations) { entries = entries };
  })

-- `while new_heap_size < minimum_required`, on fuel.
unfoldable pub grow : ℕ → ℕ → ℕ → CoreResult ℕ
grow zero minimum size = if ltb size minimum then panic else ok size
grow (suc fuel) minimum size =
    let rest = grow fuel minimum (min (size * 2) max_memory_size) in
    if ltb size minimum then rest else ok size

-- The heap and the regions made larger.
unfoldable pub expand : ℕ → Memory → CoreResult Memory
expand minimum m = do
  size ← grow 32 minimum (length m.heap)
  regions ← extend size m.regions
  ok (record m { heap = resize size m.heap; regions = regions })

-- The first, the second and the third attempt of `try_allocate_region`.
unfoldable pub attempt : ℕ → ℕ → Memory → CoreResult (Option (ℕ × ℕ) × Memory)
attempt data_size id m = do
  (answer, regions) ← Regions.allocate data_size id m.regions
  elim answer [
    | success base region ↦ ok (some (base, region), record m { regions = regions })
    | out_of_memory ↦ ok (none, record m { regions = regions })
    | failure e ↦ err e
  ]

-- After the collection brought no room.
unfoldable pub allocate_expanded : ℕ → ℕ → Memory → CoreResult ((ℕ × ℕ) × Memory)
allocate_expanded data_size id m = do
  total ← total_region_len data_size
  minimum ← add_uword (used_bytes m.regions) total
  guard (leb minimum max_memory_size) out_of_memory_error
  m₁ ← expand minimum m
  (answer, m₂) ← attempt data_size id m₁
  found ← ok_or answer out_of_memory_error
  ok (found, m₂)

unfoldable pub allocate_collected : ℕ → ℕ → Memory → CoreResult ((ℕ × ℕ) × Memory)
allocate_collected data_size id m = do
  (answer, m₁) ← attempt data_size id m
  elim answer [ some found ↦ ok (found, m₁) | none ↦ allocate_expanded data_size id m₁ ]

unfoldable pub try_allocate_region : ℕ → ℕ → List DataWord → Memory → CoreResult ((ℕ × ℕ) × Memory)
try_allocate_region data_size id gc_roots m = do
  (answer, m₁) ← attempt data_size id m
  elim answer [
    | some found ↦ ok (found, m₁)
    | none ↦ (do m₂ ← force_garbage_collection gc_roots m₁; allocate_collected data_size id m₂)
  ]

abbrev pub new_allocation : ℕ → ℕ → Bool → Option Text → ℕ → ℕ → ℕ → Allocation
new_allocation start size collectible name region block id = record {
  id = id;
  start = start;
  data_length = size;
  is_collectible = collectible;
  name = name;
  virtual_block = block;
  region = region;
}

-- `for x in &mut self.heap[start..end] { *x = 0; }`
unfoldable pub zero_range : ℕ → ℕ → List ℕ → CoreResult (List ℕ)
zero_range start end heap = do
  bytes ← slice start end heap
  ok (splice start (replicate (length bytes) 0) heap)

-- `Memory::allocate`
unfoldable pub allocate :
    ℕ → Bool → List DataWord → Option ℕ → Option Text → Memory → CoreResult (ℕ × Memory)
allocate data_size collectible gc_roots preferred_base name m = do
  let id = IdMap.peek_next_id m.allocations
  ((start, region), m₁) ← try_allocate_region data_size id gc_roots m
  ((addr, block), mapper) ← map_block data_size id preferred_base m₁.virtual_mapper
  let item = new_allocation start data_size collectible name region block
  end ← bitfield_end (item id)
  zeroed ← zero_range (bitfield_start (item id)) end m₁.heap
  ok (
    addr,
    record m₁ {
      virtual_mapper = mapper;
      allocations = IdMap.insert item m₁.allocations;
      heap = zeroed;
    },
  )
