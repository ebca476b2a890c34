-- ===== src/Interpreter/Memory/Regions/Valid.antt =====
-- The regions of a valid heap, and the operations that keep them valid.
use lakesis.Base.{ℕ, ◌≡◌, refl, true, false, List, [], ◌∷◌, ◌++◌, Bool-cases, inl, inr}
use lakesis.Base.Result.{ok}
use lakesis.Interpreter.Memory.Sizes.{total_region_len}
use lakesis.Interpreter.Memory.Regions.{
  HeapRegion, HeapRegions, AllocationResult, success, out_of_memory, is_free, allocate, deallocate,
}
use lakesis.Interpreter.Memory.Regions.Order.{Lists}
use lakesis.Interpreter.Memory.Regions.Allocate.{
  carved, fits, NoneFits, allocate-none, allocate-first,
}
use lakesis.Interpreter.Memory.Regions.Deallocate.{released, deallocate_lem}
use lakesis.Interpreter.Memory.Regions.Layout.{
  Tiles, AreSeparate, Tiles-context, AreSeparate-context, Tiles-carved, AreSeparate-carved,
  Tiles-released, AreSeparate-released,
}

-- The regions of a heap of `size` bytes: they are listed in order, tile the heap, and free ones do
-- not touch.
pub record IsValid (h : HeapRegions) (size : ℕ) : Type 0 where
  pub regions : List HeapRegion
  pub listed : Lists h regions
  pub tiles : Tiles 0 regions size
  pub separate : AreSeparate false regions

-- The first region that fits, if one does.
data Search (total : ℕ) : List HeapRegion → Type 0 where
  missing : {rs : List HeapRegion} → NoneFits total rs → Search total rs
  present :
      (xs ys : List HeapRegion) (r : HeapRegion)
      → NoneFits total xs
      → fits total r ≡ true
      → Search total (xs ++ r ∷ ys)

Search-cons :
    (total : ℕ) (x : HeapRegion) {xs : List HeapRegion}
    → fits total x ≡ false
    → Search total xs
    → Search total (x ∷ xs)
Search-cons total x n (missing ns) = missing (n, ns)
Search-cons total x n (present xs ys r ns t) = present (x ∷ xs) ys r (n, ns) t

Search-regions : (total : ℕ) (rs : List HeapRegion) → Search total rs
Search-regions total [] = missing tt
Search-regions total (x ∷ xs) = elim (Bool-cases (fits total x)) [
  | inl t ↦ present [] xs x tt t
  | inr n ↦ Search-cons total x n (Search-regions total xs)
]

-- What an allocation answers, and the regions behind it: that no region fits, with the regions as they
-- were, or the first region that fits, which is cut to the length that is needed.
pub data Outcome (total allocation new_id : ℕ)
    : List HeapRegion → AllocationResult → List HeapRegion → Type 0 where
  full :
      {rs : List HeapRegion}
      → NoneFits total rs
      → Outcome total allocation new_id rs out_of_memory rs
  taken :
      (xs ys : List HeapRegion) (r : HeapRegion)
      → NoneFits total xs
      → fits total r ≡ true
      → Outcome total allocation new_id
          (xs ++ r ∷ ys)
          (success r.base r.id)
          (xs ++ (carved total allocation new_id r ++ ys))

allocate_found :
    {h : HeapRegions} {size : ℕ} (data_size allocation : ℕ) {total : ℕ} {rs : List HeapRegion}
    → Search total rs
    → Lists h rs
    → Tiles 0 rs size
    → AreSeparate false rs
    → total_region_len data_size ≡ ok total
    → (a : AllocationResult) × (h' : HeapRegions) × (allocate data_size allocation h ≡ ok (a, h'))
      × (v' : IsValid h' size) × Outcome total allocation h.map.next_id rs a v'.regions
allocate_found {h} {size} data_size allocation {total} {rs} (missing n) l t s e = (
  out_of_memory,
  h,
  allocate-none data_size allocation total rs l e n,
  record { regions = rs; listed = l; tiles = t; separate = s },
  full n,
)
allocate_found {h} {size} data_size allocation {total} (present xs ys r n f) l t s e =
    let (h', answered, l') = allocate-first data_size allocation total xs ys r l e n f in
    let new_id = h.map.next_id in
    let mine = carved total allocation new_id r ++ ys in
    (
      success r.base r.id,
      h',
      answered,
      record {
        regions = xs ++ mine;
        listed = l';
        tiles =
            Tiles-context xs (r ∷ ys) mine 0 size
              (λ b. Tiles-carved total allocation new_id r ys f b size) t;
        separate =
            AreSeparate-context xs (r ∷ ys) mine false
              (λ b. AreSeparate-carved total allocation new_id r ys f b) s;
      },
      taken xs ys r n f,
    )

-- On valid regions, an allocation of a size whose region length can be computed does not panic. It
-- takes the first region that fits, cuts it to that length and keeps the rest free, or answers that
-- there is no memory if no region fits. The regions are valid again.
pub allocate-IsValid :
    {h : HeapRegions} {size : ℕ} (data_size allocation : ℕ) {total : ℕ} (v : IsValid h size)
    → total_region_len data_size ≡ ok total
    → (a : AllocationResult) × (h' : HeapRegions) × (allocate data_size allocation h ≡ ok (a, h'))
      × (v' : IsValid h' size) × Outcome total allocation h.map.next_id v.regions a v'.regions
allocate-IsValid data_size allocation {total} v e =
    allocate_found data_size allocation (Search-regions total v.regions) v.listed v.tiles v.separate
      e

-- On valid regions, freeing a used region by its id succeeds. The regions before and behind it stay,
-- but for a free one on either side, which is joined with it. The regions are valid again.
pub deallocate-IsValid :
    {h : HeapRegions} {size : ℕ} (v : IsValid h size) (xs ys : List HeapRegion) (r : HeapRegion)
    → v.regions ≡ xs ++ r ∷ ys
    → is_free r ≡ false
    → (h' : HeapRegions) × (deallocate r.id h ≡ ok h')
      × (v' : IsValid h' size) × (v'.regions ≡ released xs r ys)
deallocate-IsValid {h} {size} v xs ys r e u =
    let (h', done, l') = deallocate_lem xs ys r (rw e at v.listed) in
    (
      h',
      done,
      record {
        regions = released xs r ys;
        listed = l';
        tiles = Tiles-released xs r ys 0 size (rw e at v.tiles);
        separate = AreSeparate-released xs r ys u (rw e at v.separate);
      },
      refl,
    )
