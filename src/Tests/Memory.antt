-- ===== src/Tests/Memory.antt =====
-- The theorems about the memory, on a heap with a used region between two free ones.
use lakesis.Base.{ℕ, ◌+◌, ◌-◌, ◌/◌, ◌%◌, ◌^◌, ◌≤◌, ◌≡◌, refl, false, [], ◌∷◌, none, some, arith}
use lakesis.Base.Dict.{lookup, insert}
use lakesis.Base.Result.{ok, panic}
use lakesis.Core.{max_memory_size}
use lakesis.Interpreter.Memory.IdMap
use lakesis.Interpreter.Memory.IdMap.{IdMap}
use lakesis.Interpreter.Memory.Sizes.{
  total_region_len, total_region_len_lem, total_region_len_overflow,
}
use lakesis.Interpreter.Memory.Regions.{
  HeapRegion, HeapRegions, is_free, AllocationResult, success, free, used, get, free_region,
  allocate, deallocate, regions_new,
}
use lakesis.Interpreter.Memory.Regions.Order.{Lists}
use lakesis.Interpreter.Memory.Regions.Layout.{AreSeparate}
use lakesis.Interpreter.Memory.Regions.Deallocate.{released}
use lakesis.Interpreter.Memory.Regions.Valid.{
  IsValid, Outcome, allocate-IsValid, deallocate-IsValid,
}
use lakesis.Interpreter.Memory.Regions.Reached.{
  Reached, created, allocated, deallocated, Counted, Reached-IsValid, Reached-whole,
}
use lakesis.Interpreter.Memory.Mapper.{
  VirtualAddressMapper, new_block, mapper_new, map_block, prefer, map_pages, pages_of, pages_from,
  translate,
}
use lakesis.Interpreter.Memory.Mapper.Translate.{translate-map_block}
use lakesis.Interpreter.Memory.Allocator.{grow}
use lakesis.Base.{true, replicate}
use lakesis.Interpreter.Memory.Sizes.{round_down_to}
use lakesis.Interpreter.Memory.Store.Marks.{is_reference-set_reference}
use lakesis.Interpreter.Memory.Store.{
  bitfield_start, bitfield_end, set_reference, is_reference, addr_to_reference_indices, Memory,
  get_word, set_word, addr_to_indices, addr_to_allocation,
}
use lakesis.Interpreter.Memory.Store.ReadBack.{get_word-set_word}
use lakesis.Interpreter.Memory.Allocator.{new_allocation}
use lakesis.Interpreter.Memory.Growth.{grow-ends}

abbrev low : HeapRegion
low = record { id = 1; state = free; base = 0; length = 100 }

abbrev middle : HeapRegion
middle = record { id = 2; state = used 9; base = 100; length = 200 }

abbrev high : HeapRegion
high = record { id = 3; state = free; base = 300; length = 724 }

abbrev heap : HeapRegions
heap = record {
  map = record { next_id = 4; entries = (1, low) ∷ (2, middle) ∷ (3, high) ∷ [] };
  in_order = 1 ∷ 2 ∷ 3 ∷ [];
}

heap-Lists : Lists heap (low ∷ middle ∷ high ∷ [])
unfolding IdMap.get lookup
heap-Lists = record {
  order = refl;
  found = (refl, (refl, (refl, tt)));
  distinct = (
    (λ h. absurd (omega arith), (λ h. absurd (omega arith), tt)),
    ((λ h. absurd (omega arith), tt), (tt, tt)),
  );
  older = (omega arith, (omega arith, (omega arith, tt)));
}

heap-separate : AreSeparate false (low ∷ middle ∷ high ∷ [])
unfolding is_free
heap-separate = (refl, (refl, (refl, tt)))

-- The free regions do not touch.
abbrev heap-IsValid : IsValid heap 1024
heap-IsValid = record {
  regions = low ∷ middle ∷ high ∷ [];
  listed = heap-Lists;
  tiles = (refl, (refl, (refl, refl)));
  separate = heap-separate;
}

-- A new heap, an allocation in it, and the heap behind its free.
abbrev one_used : HeapRegions
one_used = record {
  map = record {
    next_id = 3;
    entries =
        (1, record { id = 1; state = used 7; base = 0; length = 204 })
        ∷ (2, record { id = 2; state = free; base = 204; length = 820 })
        ∷ [];
  };
  in_order = 1 ∷ 2 ∷ [];
}

abbrev all_freed : HeapRegions
all_freed = record {
  map = record {
    next_id = 3;
    entries = (1, record { id = 1; state = free; base = 0; length = 1024 }) ∷ [];
  };
  in_order = 1 ∷ [];
}

one_allocated : allocate 200 7 (regions_new 1024) ≡ ok (success 0 1, one_used)
unfolding allocate total_region_len lakesis.Base.Words.add_uword lakesis.Base.Words.sub_uword
    lakesis.Interpreter.Memory.Regions.find_region regions_new IdMap.get lookup IdMap.insert insert
    IdMap.empty IdMap.peek_next_id is_free lakesis.Interpreter.Memory.Regions.use_region
    lakesis.Interpreter.Memory.Regions.split_region IdMap.put
    lakesis.Interpreter.Memory.Regions.insert_at
one_allocated = refl

one_freed : deallocate 1 one_used ≡ ok all_freed
unfolding deallocate IdMap.get lookup lakesis.Interpreter.Memory.Regions.position
    lakesis.Interpreter.Memory.Regions.deallocate_at lakesis.Interpreter.Memory.Regions.region_at
    lakesis.Interpreter.Memory.Regions.is_used is_free
    lakesis.Interpreter.Memory.Regions.join_free_right lakesis.Interpreter.Memory.Regions.remove_at
    IdMap.remove lakesis.Base.Dict.remove IdMap.put insert
one_freed = refl

one_Reached : Reached 1024 1 one_used
one_Reached = allocated 200 7 created one_allocated

all_Reached : Reached 1024 0 all_freed
unfolding get is_free IdMap.get lookup
all_Reached =
    deallocated (record { id = 1; state = used 7; base = 0; length = 204 }) one_Reached refl refl
      one_freed

Reached-IsValid_example : Counted 1024 1 one_used
Reached-IsValid_example = Reached-IsValid one_Reached

Reached-whole_example :
    (id : ℕ) × (all_freed.in_order ≡ id ∷ []) × (get id all_freed ≡ some (free_region 0 1024 id))
Reached-whole_example = Reached-whole (omega arith) all_Reached

allocate-IsValid_example :
    (a : AllocationResult) × (h' : HeapRegions) × (allocate 200 7 heap ≡ ok (a, h'))
    × (v' : IsValid h' 1024) × Outcome 204 7 4 heap-IsValid.regions a v'.regions
allocate-IsValid_example =
    allocate-IsValid 200 7 heap-IsValid (total_region_len_lem 200 (omega arith))

deallocate-IsValid_example :
    (h' : HeapRegions) × (deallocate 2 heap ≡ ok h')
    × (v' : IsValid h' 1024) × (v'.regions ≡ released (low ∷ []) middle (high ∷ []))
unfolding is_free
deallocate-IsValid_example = deallocate-IsValid heap-IsValid (low ∷ []) (high ∷ []) middle refl refl

total_region_len_overflow_example : total_region_len (2 ^ 64 - 1) ≡ panic
total_region_len_overflow_example = total_region_len_overflow (2 ^ 64 - 1) (omega arith)

grow-ends_example :
    (grown : ℕ) × (grow 32 5000 1024 ≡ ok grown)
    × (5000 ≤ grown)
    × (1024 ≤ grown)
    × (grown ≤ max_memory_size)
grow-ends_example = grow-ends 5000 1024 (omega arith) (omega arith) (omega arith)

abbrev mapper_after : VirtualAddressMapper
mapper_after = record {
  blocks = record { next_id = 2; entries = (1, new_block 7 0 3000 1) ∷ [] };
  mappings =
      (0, record { block = 1; offset = 0 })
      ∷ (1024, record { block = 1; offset = 1024 })
      ∷ (2048, record { block = 1; offset = 2048 })
      ∷ [];
  next_address = 3072;
}

translate-map_block_example :
    (translate (0 + 1500) mapper_after ≡ ok (7, 1500)) × (mapper_after.next_address % 1024 ≡ 0)
unfolding map_block prefer map_pages pages_of pages_from mapper_new lakesis.Base.Words.add_uword
    IdMap.peek_next_id IdMap.insert IdMap.empty insert
translate-map_block_example =
    translate-map_block 3000 7 none mapper_new mapper_after 0 1 1500 refl refl (omega arith)

-- Sixteen bytes of data at address 0, with their byte of marks.
abbrev memory : Memory
memory = record {
  virtual_mapper = record {
    blocks = record { next_id = 2; entries = (1, new_block 1 0 16 1) ∷ [] };
    mappings = (0, record { block = 1; offset = 0 }) ∷ [];
    next_address = 1024;
  };
  regions = record {
    map = record {
      next_id = 2;
      entries = (1, record { id = 1; state = used 1; base = 0; length = 17 }) ∷ [];
    };
    in_order = 1 ∷ [];
  };
  allocations = record { next_id = 2; entries = (1, new_allocation 0 16 true none 1 1 1) ∷ [] };
  heap = replicate 17 0;
}

get_word-set_word_example :
    (m' : Memory) × (set_word 8 70000 memory ≡ ok m') × (get_word 8 m' ≡ ok 70000)
unfolding addr_to_indices addr_to_allocation translate round_down_to lookup IdMap.get
get_word-set_word_example =
    get_word-set_word 8 70000 memory {s = 8} {e = 16} (omega arith) refl refl (omega arith)

is_reference-set_reference_example :
    (m' : Memory) × (set_reference 8 true memory ≡ ok m') × (is_reference 8 m' ≡ ok true)
unfolding addr_to_reference_indices addr_to_allocation translate round_down_to lookup IdMap.get
    bitfield_end bitfield_start lakesis.Interpreter.Memory.Sizes.bitfield_len
    lakesis.Base.Words.add_uword lakesis.Base.Words.sub_uword
is_reference-set_reference_example =
    is_reference-set_reference 8 true memory {start = 16} {end = 17} {offset = 1} refl (omega arith)
      (omega arith)
