-- ===== src/Tests/Collecting.antt =====
-- Runs of the theorems about garbage collection, on three allocations of which the first refers to the
-- second.
use mathlib.Core.List.{Memᴰ}
use mathlib.Core.List.Memᴰ
use mathlib.Core.Path.{subst}
use lakesis.Base.{
  ℕ, zero, suc, ◌+◌, ◌*◌, ◌^◌, ◌/◌, ◌%◌, ◌<◌, ◌≤◌, ◌≡◌, ◌↔◌, refl, sym, ap, ◌∙◌, ◌⊎◌, inl, inr,
  arith, List, [], ◌∷◌, ◌++◌, replicate, none, some, true, false, length, ◌==◌,
}
use lakesis.Base.Result.{ok}
use lakesis.Core.{CoreResult}
use lakesis.Interpreter.Data.{DataWord}
use lakesis.Interpreter.Memory.IdMap
use lakesis.Interpreter.Memory.Heap.{slice}
use lakesis.Interpreter.Memory.Sizes.{round_down_to}
use lakesis.Interpreter.Memory.Mapper.{new_block, translate}
use lakesis.Interpreter.Memory.Regions.{HeapRegion, used, free}
use lakesis.Interpreter.Memory.Store.{
  Memory, Allocation, addr_to_allocation, bitfield_start, bitfield_end, data_end, get_bit,
}
use lakesis.Interpreter.Memory.Allocator.{
  new_allocation, push_allocation, mark_loop, mark_fuel, seed, root_addresses,
  force_garbage_collection,
}
use lakesis.Interpreter.Memory.Allocator.Reach.{
  RefersTo, IsReached, IsReachedId, root, follow, get_bit-inside, push_allocation-RefersTo,
}
use lakesis.Interpreter.Memory.Allocator.Scan.{IsConsistent}
use lakesis.Interpreter.Memory.Allocator.Collected.{unseen_marks, mark_loop-IsReachedId}
use lakesis.Interpreter.Memory.Allocator.Garbage.{
  force_garbage_collection-keeps, force_garbage_collection-takes,
}
use lakesis.Interpreter.Cpu.{reference_word}

abbrev one : Allocation
one = new_allocation 9 16 true none 1 1 1

abbrev two : Allocation
two = new_allocation 26 8 true none 2 2 2

abbrev three : Allocation
three = new_allocation 0 8 true none 3 3 3

abbrev region : ℕ → ℕ → ℕ → HeapRegion
region id base length = record { id = id; state = used id; base = base; length = length }

-- The first word is 1024, the address of the second allocation, and is marked.
abbrev memory : Memory
memory = record {
  virtual_mapper = record {
    blocks = record {
      next_id = 4;
      entries =
          (1, new_block 1 0 16 1) ∷ (2, new_block 2 1024 8 2) ∷ (3, new_block 3 2048 8 3) ∷ [];
    };
    mappings =
        (0, record { block = 1; offset = 0 })
        ∷ (1024, record { block = 2; offset = 0 })
        ∷ (2048, record { block = 3; offset = 0 })
        ∷ [];
    next_address = 3072;
  };
  regions = record {
    map = record {
      next_id = 4;
      entries = (1, region 1 9 17) ∷ (2, region 2 26 9) ∷ (3, region 3 0 9) ∷ [];
    };
    in_order = 3 ∷ 1 ∷ 2 ∷ [];
  };
  allocations = record { next_id = 4; entries = (1, one) ∷ (2, two) ∷ (3, three) ∷ [] };
  heap = replicate 9 0 ++ (0 ∷ 4 ∷ replicate 14 0 ++ (1 ∷ replicate 9 0));
}

abbrev registers : List DataWord
registers = reference_word 0 ∷ []

-- Afterwards the two that are left stand at the front of the heap.
abbrev memory_after : Memory
memory_after = record {
  virtual_mapper = record {
    blocks = record {
      next_id = 4;
      entries = (1, new_block 1 0 16 1) ∷ (2, new_block 2 1024 8 2) ∷ [];
    };
    mappings =
        (0, record { block = 1; offset = 0 }) ∷ (1024, record { block = 2; offset = 0 }) ∷ [];
    next_address = 3072;
  };
  regions = record {
    map = record {
      next_id = 5;
      entries =
          (1, region 1 0 17)
          ∷ (2, region 2 17 9)
          ∷ (4, record { id = 4; state = free; base = 26; length = 9 })
          ∷ [];
    };
    in_order = 1 ∷ 2 ∷ 4 ∷ [];
  };
  allocations = record {
    next_id = 4;
    entries = (1, record one { start = 0 }) ∷ (2, record two { start = 17 }) ∷ [];
  };
  heap = 0 ∷ 4 ∷ replicate 14 0 ++ (1 ∷ replicate 18 0);
}

collected : force_garbage_collection registers memory ≡ ok memory_after
unfolding force_garbage_collection seed mark_loop root_addresses addr_to_allocation translate
    lakesis.Base.Dict.lookup IdMap.get lakesis.Interpreter.Memory.Allocator.contains push_allocation
    bitfield_end lakesis.Interpreter.Memory.Sizes.bitfield_len lakesis.Base.Words.add_uword
    lakesis.Base.Words.sub_uword slice lakesis.Interpreter.Memory.Allocator.push_references get_bit
    lakesis.Base.Bytes.from_le_bytes lakesis.Base.Dict.insert lakesis.Base.Dict.remove
    lakesis.Interpreter.Memory.Allocator.deallocate
    lakesis.Interpreter.Memory.Allocator.deallocate_all lakesis.Interpreter.Memory.Allocator.discard
    lakesis.Interpreter.Memory.Allocator.relocate lakesis.Interpreter.Memory.Heap.copy_within
    lakesis.Interpreter.Memory.Heap.splice IdMap.insert IdMap.peek_next_id IdMap.put IdMap.remove
    lakesis.Interpreter.Memory.Mapper.get_block lakesis.Interpreter.Memory.Mapper.pages_from
    lakesis.Interpreter.Memory.Mapper.pages_of lakesis.Interpreter.Memory.Mapper.unmap
    lakesis.Interpreter.Memory.Mapper.unmap_pages
    lakesis.Interpreter.Memory.Regions.Compact.close_gap
    lakesis.Interpreter.Memory.Regions.Compact.compact
    lakesis.Interpreter.Memory.Regions.Compact.compact_loop
    lakesis.Interpreter.Memory.Regions.Compact.drop_region
    lakesis.Interpreter.Memory.Regions.Compact.move_region
    lakesis.Interpreter.Memory.Regions.deallocate lakesis.Interpreter.Memory.Regions.deallocate_at
    lakesis.Interpreter.Memory.Regions.deallocate_island lakesis.Interpreter.Memory.Regions.get
    lakesis.Interpreter.Memory.Regions.is_free lakesis.Interpreter.Memory.Regions.is_used
    lakesis.Interpreter.Memory.Regions.join_free_right lakesis.Interpreter.Memory.Regions.last_id
    lakesis.Interpreter.Memory.Regions.position lakesis.Interpreter.Memory.Regions.region_at
    lakesis.Interpreter.Memory.Regions.region_end lakesis.Interpreter.Memory.Regions.remove_at
    lakesis.Interpreter.Memory.Regions.state_is_free
    lakesis.Interpreter.Memory.Sizes.divide_round_up round_down_to bitfield_start data_end
collected = refl

seeded :
    seed memory.allocations.entries memory (root_addresses registers) []
    ≡ ok (0 ∷ [], 3 ∷ 2 ∷ 1 ∷ [])
unfolding seed root_addresses
seeded = refl

at_zero : addr_to_allocation 0 memory ≡ ok (one, 0)
unfolding addr_to_allocation translate lakesis.Base.Dict.lookup IdMap.get
at_zero = refl

at_page : addr_to_allocation 1024 memory ≡ ok (two, 0)
unfolding addr_to_allocation translate lakesis.Base.Dict.lookup IdMap.get
at_page = refl

first_pushes : push_allocation one memory [] ≡ ok (1024 ∷ [])
unfolding push_allocation bitfield_end lakesis.Interpreter.Memory.Sizes.bitfield_len
    lakesis.Base.Words.add_uword lakesis.Base.Words.sub_uword slice
    lakesis.Interpreter.Memory.Allocator.push_references get_bit lakesis.Base.Bytes.from_le_bytes
first_pushes = refl

second_pushes : push_allocation two memory [] ≡ ok []
unfolding push_allocation bitfield_end lakesis.Interpreter.Memory.Sizes.bitfield_len
    lakesis.Base.Words.add_uword lakesis.Base.Words.sub_uword slice
    lakesis.Interpreter.Memory.Allocator.push_references get_bit
second_pushes = refl

first_refers : RefersTo one memory.heap 1024
first_refers =
    elim ((push_allocation-RefersTo one memory [] 1024 first_pushes).0 (Memᴰ.head refl)) [
      | inl t ↦ absurd (Memᴰ.not-nil t)
      | inr r ↦ r
    ]

second_reached : IsReachedId memory (root_addresses registers) 2
unfolding root_addresses
second_reached =
    (1024, two, 0, at_page, refl, follow {offset = 0} (root (Memᴰ.head refl)) at_zero first_refers)

-- Nothing else is reached.
reached : {addr : ℕ} → IsReached memory (0 ∷ []) addr → (addr ≡ 0) ⊎ (addr ≡ 1024)
reached (root t) = inl (Memᴰ.eq_of_singleton t)
reached (follow {addr} {offset} {target} {a} r found refers) = elim (reached r) [
  | inl is ↦
      (let found' : ◌≡◌ {A = CoreResult (Allocation × ℕ)} (ok (a, offset)) (ok (one, 0)) =
          sym found ∙ ap (λ x. addr_to_allocation x memory) is ∙ at_zero in
        let same : a ≡ one = cc in
        inr (
          Memᴰ.eq_of_singleton (
            (push_allocation-RefersTo one memory [] target first_pushes).1
              (inr (subst (λ b. RefersTo b memory.heap target) same refers)))))
  | inr is ↦
      (let found' : ◌≡◌ {A = CoreResult (Allocation × ℕ)} (ok (a, offset)) (ok (two, 0)) =
          sym found ∙ ap (λ x. addr_to_allocation x memory) is ∙ at_page in
        let same : a ≡ two = cc in
        absurd (
          Memᴰ.not-nil (
            (push_allocation-RefersTo two memory [] target second_pushes).1
              (inr (subst (λ b. RefersTo b memory.heap target) same refers)))))
]

third_unreached : IsReachedId memory (0 ∷ []) 3 → ⊥
third_unreached (addr, a, offset, found, is, r) = elim (reached r) [
  | inl zero_is ↦
      (let found' : ◌≡◌ {A = CoreResult (Allocation × ℕ)} (ok (a, offset)) (ok (one, 0)) =
          sym found ∙ ap (λ x. addr_to_allocation x memory) zero_is ∙ at_zero in
        let same : a ≡ one = cc in absurd (omega (arith, is, ap (λ b. b.id) same)))
  | inr page_is ↦
      (let found' : ◌≡◌ {A = CoreResult (Allocation × ℕ)} (ok (a, offset)) (ok (two, 0)) =
          sym found ∙ ap (λ x. addr_to_allocation x memory) page_is ∙ at_page in
        let same : a ≡ two = cc in absurd (omega (arith, is, ap (λ b. b.id) same)))
]

-- One byte of marks, with the first bit set or none.
marked_first : (i b : ℕ) → b ≤ 1 → get_bit i (b ∷ []) ≡ some true → i ≡ 0
unfolding get_bit
marked_first i b few h = low i (get_bit-inside i (b ∷ []) h) h
  where
    low : (i : ℕ) → i < 8 → get_bit i (b ∷ []) ≡ some true → i ≡ 0
    low zero small h = refl
    low (suc zero) small h = ground (arith, few)
    low (suc (suc zero)) small h = ground (arith, few)
    low (suc (suc (suc zero))) small h = ground (arith, few)
    low (suc (suc (suc (suc zero)))) small h = ground (arith, few)
    low (suc (suc (suc (suc (suc zero))))) small h = ground (arith, few)
    low (suc (suc (suc (suc (suc (suc zero)))))) small h = ground (arith, few)
    low (suc (suc (suc (suc (suc (suc (suc zero))))))) small h = ground (arith, few)
    low (suc (suc (suc (suc (suc (suc (suc (suc i)))))))) small h = absurd (omega arith)

consistent : IsConsistent memory
unfolding IdMap.get bitfield_start data_end lakesis.Base.Dict.lookup
consistent = record {
  mappings = (
    (new_block 1 0 16 1, refl),
    ((new_block 2 1024 8 2, refl), ((new_block 3 2048 8 3, refl), tt)),
  );
  blocks = ((one, refl), ((two, refl), ((three, refl), tt)));
  ids = (refl, (refl, (refl, tt)));
  scannable = (
    record {
      small = omega arith;
      inside = omega arith;
      words = λ i set. omega (arith, marked_first i 1 (omega arith) set);
    },
    (
      record {
        small = omega arith;
        inside = omega arith;
        words = λ i set. omega (arith, marked_first i 0 (omega arith) set);
      },
      (
        record {
          small = omega arith;
          inside = omega arith;
          words = λ i set. omega (arith, marked_first i 0 (omega arith) set);
        },
        tt,
      ),
    ),
  );
}

fits : unseen_marks [] memory.allocations.entries ≤ 8 * length memory.heap
unfolding unseen_marks lakesis.Interpreter.Memory.Allocator.contains
fits = omega arith

mark_loop-IsReachedId_example :
    (garbage : List ℕ) × (mark_loop (mark_fuel (0 ∷ []) memory) (0 ∷ []) [] (3 ∷ 2 ∷ 1 ∷ []) memory
      ≡ ok garbage)
    × ((id : ℕ)
        → Memᴰ id garbage ↔ (Memᴰ id (3 ∷ 2 ∷ 1 ∷ []) × (IsReachedId memory (0 ∷ []) id → ⊥)))
mark_loop-IsReachedId_example = mark_loop-IsReachedId consistent (0 ∷ []) (3 ∷ 2 ∷ 1 ∷ []) fits

force_garbage_collection-keeps_example :
    (start : ℕ) × (IdMap.get 2 memory_after.allocations ≡ some (record two { start = start }))
unfolding IdMap.get lakesis.Base.Dict.lookup
force_garbage_collection-keeps_example =
    force_garbage_collection-keeps registers memory memory_after 2 two consistent fits collected
      refl second_reached

force_garbage_collection-takes_example : IdMap.get 3 memory_after.allocations ≡ none
force_garbage_collection-takes_example =
    force_garbage_collection-takes registers memory memory_after 3 (0 ∷ []) (3 ∷ 2 ∷ 1 ∷ [])
      consistent fits seeded collected (three, Memᴰ.tail (Memᴰ.tail (Memᴰ.head refl)), refl)
      third_unreached
