-- ===== src/Interpreter/Memory/Regions.antt =====
-- `HeapRegions` of src/interpreter/memory.rs: the regions of the heap, free and used, in order. Bases and
-- lengths are `usize`; all ends lie within the heap, so that their sums do not wrap.
pub mod Order
pub mod Allocate
pub mod Release
pub mod Deallocate
pub mod Layout
pub mod Valid
pub mod Compact
pub mod Counting
pub mod Reached
use lakesis.Base.{
  ℕ, zero, suc, ◌+◌, ◌-◌, Bool, true, false, not, ◌&&◌, List, [], ◌∷◌, ◌++◌, map, Option, none,
  some, ltb, leb, ◌==◌, if◌then◌else◌, length, get_elem?,
}
use lakesis.Base.Result.{Result, ok, err, panic, ◌>>=◌, ◌>>◌, ok_or, unwrap, assert}
use lakesis.Core.{Error, CoreResult, invalid_region_id, invalid_heap_region_id}
use lakesis.Interpreter.Memory.IdMap
use lakesis.Interpreter.Memory.IdMap.{IdMap}
use lakesis.Interpreter.Memory.Sizes.{total_region_len}

pub data HeapRegionState : Type 0 where
  free : HeapRegionState
  used : ℕ → HeapRegionState

unfoldable pub state_is_free : HeapRegionState → Bool
state_is_free free = true
state_is_free (used _) = false

pub record HeapRegion : Type 0 where
  pub id : ℕ
  pub state : HeapRegionState
  pub base : ℕ
  pub length : ℕ

unfoldable pub is_free : HeapRegion → Bool
unfolding state_is_free
is_free r = state_is_free r.state

unfoldable pub is_used : HeapRegion → Bool
is_used r = not (is_free r)

unfoldable pub region_end : HeapRegion → ℕ
region_end r = r.base + r.length

pub record HeapRegions : Type 0 where
  pub map : IdMap HeapRegion
  pub in_order : List ℕ

pub data AllocationResult : Type 0 where
  success : ℕ → ℕ → AllocationResult
  out_of_memory : AllocationResult
  failure : Error → AllocationResult

-- A free region without an id.
abbrev pub free_region : ℕ → ℕ → ℕ → HeapRegion
free_region base len id = record { id = id; state = free; base = base; length = len }

-- `Vec::insert` and `Vec::remove` on the order.
unfoldable pub insert_at : ℕ → ℕ → List ℕ → List ℕ
insert_at zero x xs = x ∷ xs
insert_at (suc n) x [] = x ∷ []
insert_at (suc n) x (y ∷ ys) = y ∷ insert_at n x ys

unfoldable pub remove_at : ℕ → List ℕ → List ℕ
remove_at n [] = []
remove_at zero (y ∷ ys) = ys
remove_at (suc n) (y ∷ ys) = y ∷ remove_at n ys

unfoldable pub get : ℕ → HeapRegions → Option HeapRegion
get id h = IdMap.get id h.map

-- `self.map.get(self.in_order[index]).unwrap()`
unfoldable pub region_at : ℕ → HeapRegions → CoreResult HeapRegion
region_at index h = do id ← unwrap (get_elem? h.in_order index); unwrap (IdMap.get id h.map)

unfoldable pub regions_new : ℕ → HeapRegions
regions_new size =
    let m = IdMap.insert (free_region 0 size) IdMap.empty in
    record { map = m; in_order = IdMap.peek_next_id {A = HeapRegion} IdMap.empty ∷ [] }

sum_lengths : List HeapRegion → ℕ
sum_lengths [] = 0
sum_lengths (r ∷ rs) = if is_used r then r.length + sum_lengths rs else sum_lengths rs

unfoldable pub used_bytes : HeapRegions → ℕ
unfolding sum_lengths
used_bytes h = sum_lengths (IdMap.values h.map)

-- The first free region, from an index on, that is long enough; with its index.
unfoldable pub find_region :
    IdMap HeapRegion → ℕ → ℕ → List ℕ → CoreResult (Option (ℕ × HeapRegion))
find_region m total index [] = ok none
find_region m total index (id ∷ ids) = do
  r ← unwrap (IdMap.get id m)
  if is_free r && leb total r.length
      then ok (some (index, r))
      else find_region m total (suc index) ids

-- The split of a region that is too long: the rest becomes a free region behind it.
unfoldable pub split_region : ℕ → ℕ → HeapRegion → HeapRegions → HeapRegions
split_region total index r h =
    if ltb total r.length
    then record {
      map = IdMap.insert (free_region (r.base + total) (r.length - total)) h.map;
      in_order = insert_at (index + 1) (IdMap.peek_next_id h.map) h.in_order;
    }
    else h

-- The write through `get_mut(region_id).unwrap()` that marks a region as used.
unfoldable pub use_region : ℕ → ℕ → ℕ → HeapRegions → CoreResult (AllocationResult × HeapRegions)
use_region total allocation id h = do
  r ← unwrap (IdMap.get id h.map)
  let r' = record r { length = total; state = used allocation }
  ok (success r.base r.id, record h { map = IdMap.put id r' h.map })

unfoldable pub allocate : ℕ → ℕ → HeapRegions → CoreResult (AllocationResult × HeapRegions)
allocate data_size allocation h = do
  total ← total_region_len data_size
  found ← find_region h.map total 0 h.in_order
  elim found [
    | none ↦ ok (out_of_memory, h)
    | some (index, r) ↦ use_region total allocation r.id (split_region total index r h)
  ]

unfoldable pub join_free_right : ℕ → HeapRegions → CoreResult HeapRegions
join_free_right left_index h = do
  assert (ltb (left_index + 1) (length h.in_order))
  right_id ← unwrap (get_elem? h.in_order (left_index + 1))
  let order = remove_at (left_index + 1) h.in_order
  left_id ← unwrap (get_elem? order left_index)
  right ← unwrap (IdMap.get right_id h.map)
  let m = IdMap.remove right_id h.map
  left ← unwrap (IdMap.get left_id m)
  let left' = record left { state = free; length = left.length + right.length }
  ok (record { map = IdMap.put left_id left' m; in_order = order })

unfoldable pub deallocate_island : ℕ → HeapRegions → CoreResult HeapRegions
deallocate_island id h = do
  r ← ok_or (IdMap.get id h.map) invalid_heap_region_id
  ok (record h { map = IdMap.put id (record r { state = free }) h.map })

-- `iter().position(|&x| x == id)`
unfoldable pub position : ℕ → List ℕ → Option ℕ
position id [] = none
position id (x ∷ xs) =
    if x == id then some 0 else (elim (position id xs) [ none ↦ none | some n ↦ some (suc n) ])

-- The cases of `deallocate` by the neighbours: which are there, and which are used.
unfoldable pub deallocate_at : ℕ → ℕ → HeapRegions → CoreResult HeapRegions
deallocate_at id index h =
    let has_left = ltb 0 index in
    let has_right = ltb (index + 1) (length h.in_order) in
    if not has_left && not has_right
    then deallocate_island id h
    else if not has_left && has_right
    then (do
      right ← region_at (index + 1) h
      if is_used right then deallocate_island id h else join_free_right index h)
    else if has_left && not has_right
    then (do
      left ← region_at (index - 1) h
      if is_used left then deallocate_island id h else join_free_right (index - 1) h)
    else (do
      right ← region_at (index + 1) h
      left ← region_at (index - 1) h
      if is_used left && is_used right
          then deallocate_island id h
          else if is_used left && is_free right
          then join_free_right index h
          else if is_free left && is_used right
          then join_free_right (index - 1) h
          else (do h' ← join_free_right (index - 1) h; join_free_right (index - 1) h'))

unfoldable pub deallocate : ℕ → HeapRegions → CoreResult HeapRegions
deallocate id h = do
  r ← ok_or (IdMap.get id h.map) invalid_region_id
  index ← unwrap (position r.id h.in_order)
  deallocate_at id index h

-- `*self.in_order.last().unwrap()`
unfoldable pub last_id : List ℕ → CoreResult ℕ
last_id [] = panic
last_id (id ∷ []) = ok id
last_id (id ∷ (i ∷ is)) = last_id (i ∷ is)

unfoldable pub extend : ℕ → HeapRegions → CoreResult HeapRegions
extend new_size h = do
  id ← last_id h.in_order
  r ← unwrap (IdMap.get id h.map)
  assert (leb (region_end r) new_size)
  if is_free r
      then ok (record h { map = IdMap.put id (record r { length = new_size - r.base }) h.map })
      else ok (record {
        map = IdMap.insert (free_region (region_end r) (new_size - region_end r)) h.map;
        in_order = h.in_order ++ (IdMap.peek_next_id h.map ∷ []);
      })
