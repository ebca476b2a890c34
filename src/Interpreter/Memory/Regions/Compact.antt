-- ===== src/Interpreter/Memory/Regions/Compact.antt =====
-- `HeapRegions::compact` of src/interpreter/memory.rs.
use lakesis.Base.{
  ℕ, zero, suc, ◌+◌, ◌-◌, true, false, List, [], ◌∷◌, ◌++◌, ltb, if◌then◌else◌, length, get_elem?,
}
use lakesis.Base.Result.{ok, panic, ◌>>=◌, unwrap}
use lakesis.Core.{CoreResult}
use lakesis.Interpreter.Memory.IdMap
use lakesis.Interpreter.Memory.Heap.{copy_within}
use lakesis.Interpreter.Memory.Regions.{
  HeapRegion, HeapRegions, is_free, region_end, free_region, remove_at, last_id,
}

-- The regions, the base for the next one, and the bytes.
abbrev pub Packing : Type 0
Packing = HeapRegions × ℕ × List ℕ

-- The body of the loop for a free region.
unfoldable pub drop_region : ℕ → ℕ → HeapRegions → HeapRegions
drop_region id index h = record {
  map = IdMap.remove id h.map;
  in_order = remove_at index h.in_order;
}

-- The body of the loop for a region that is in use: it moves down to `next_base`.
unfoldable pub move_region : ℕ → HeapRegion → ℕ → HeapRegions → List ℕ → CoreResult Packing
move_region id r next_base h heap = do
  heap' ← copy_within r.base (region_end r) next_base heap
  let moved = record r { base = next_base }
  ok (record h { map = IdMap.put id moved h.map }, region_end moved, heap')

-- `while index < self.in_order.len()`, on fuel: each round removes a region or passes one.
unfoldable pub compact_loop : ℕ → ℕ → ℕ → HeapRegions → List ℕ → CoreResult Packing
compact_loop zero index next_base h heap =
    if ltb index (length h.in_order) then panic else ok (h, next_base, heap)
compact_loop (suc fuel) index next_base h heap =
    let round : CoreResult Packing = (do
      id ← unwrap (get_elem? h.in_order index)
      r ← unwrap (IdMap.get id h.map)
      elim (is_free r) [
        | true ↦ compact_loop fuel index next_base (drop_region id index h) heap
        | false ↦ (do
          (h', base', heap') ← move_region id r next_base h heap
          compact_loop fuel (index + 1) base' h' heap')
      ]) in
    if ltb index (length h.in_order) then round else ok (h, next_base, heap)

-- The free region behind the packed ones, if there is room.
unfoldable pub close_gap : ℕ → ℕ → HeapRegions → HeapRegions
close_gap next_base end h =
    if ltb next_base end
    then record {
      map = IdMap.insert (free_region next_base (end - next_base)) h.map;
      in_order = h.in_order ++ (IdMap.peek_next_id h.map ∷ []);
    }
    else h

unfoldable pub compact : HeapRegions → List ℕ → CoreResult (HeapRegions × List ℕ)
compact h heap = do
  id ← last_id h.in_order
  r ← unwrap (IdMap.get id h.map)
  (h', next_base, heap') ← compact_loop (length h.in_order) 0 0 h heap
  ok (close_gap next_base (region_end r) h', heap')
