-- ===== src/Interpreter/Memory/Regions/Release.antt =====
-- `HeapRegions::deallocate` frees a region and joins it with its free neighbours.
use lakesis.Base.{
  ℕ, ◌+◌, ◌<◌, ◌≡◌, refl, sym, List, [], ◌∷◌, ◌++◌, append_assoc, some, arith, length,
  length-append, lt→ltb, ==_refl, ==-eq-false,
}
use lakesis.Base.Distinct.{IsFresh}
use lakesis.Base.Result.{ok}
use lakesis.Interpreter.Memory.IdMap
use lakesis.Interpreter.Memory.IdMap.{IdMap}
use lakesis.Interpreter.Memory.Regions.{
  HeapRegion, HeapRegions, free, position, region_at, remove_at, join_free_right, deallocate_island,
}
use lakesis.Interpreter.Memory.Regions.Order.{Lists, length-ids, Lists-at, Lists-put, Lists-remove}

-- Two neighbours as one free region, under the id of the left one.
abbrev pub joined : HeapRegion → HeapRegion → HeapRegion
joined l r = record l { state = free; length = l.length + r.length }

abbrev pub freed : HeapRegion → HeapRegion
freed r = record r { state = free }

pub position-append :
    (xs ys : List ℕ) (k : ℕ) → IsFresh k xs → position k (xs ++ k ∷ ys) ≡ some (length xs)
unfolding position
position-append [] ys k f = rw (==_refl k)
position-append (x ∷ xs) ys k (fx, f) =
    rw (==-eq-false x k (λ e. fx (sym e)), position-append xs ys k f)

module _ {h : HeapRegions} (xs ys : List HeapRegion) where
  pub island :
      (r : HeapRegion)
      → Lists h (xs ++ r ∷ ys)
      → (h' : HeapRegions) × (deallocate_island r.id h ≡ ok h') × Lists h' (xs ++ freed r ∷ ys)
  unfolding deallocate_island
  island r l = (
    record h { map = IdMap.put r.id (freed r) h.map },
    rw ((Lists-at xs ys r l).1),
    Lists-put xs ys r (freed r) refl l,
  )

  pub region_at_lem : (r : HeapRegion) → Lists h (xs ++ r ∷ ys) → region_at (length xs) h ≡ ok r
  unfolding region_at
  region_at_lem r l = let (here, stored) = Lists-at xs ys r l in rw (here, stored)

-- The same regions, with the first of the rest counted to the front.
pub snoc :
    {h : HeapRegions} (xs ys : List HeapRegion) (l : HeapRegion)
    → Lists h (xs ++ l ∷ ys)
    → Lists h ((xs ++ l ∷ []) ++ ys)
snoc xs ys l li = rw append_assoc li

unsnoc :
    {h : HeapRegions} (xs ys : List HeapRegion) (l : HeapRegion)
    → Lists h ((xs ++ l ∷ []) ++ ys)
    → Lists h (xs ++ l ∷ ys)
unsnoc xs ys l li = rw append_assoc at li

pub length-snoc : (xs : List HeapRegion) (l : HeapRegion) → length (xs ++ l ∷ []) ≡ length xs + 1
length-snoc xs l = length-append xs (l ∷ [])

pub order_length :
    {h : HeapRegions} (rs : List HeapRegion) → Lists h rs → length h.in_order ≡ length rs
order_length rs li = rw li.order (length-ids rs)

-- The index is that of the left one.
pub join_right :
    {h : HeapRegions} (xs ys : List HeapRegion) (l r : HeapRegion)
    → Lists h (xs ++ l ∷ r ∷ ys)
    → (h' : HeapRegions) × (join_free_right (length xs) h ≡ ok h')
      × Lists h' (xs ++ joined l r ∷ ys)
unfolding join_free_right
join_right {h} xs ys l r li =
    let (right_at, right_stored) = Lists-at (xs ++ l ∷ []) ys r (snoc xs (r ∷ ys) l li) in
    let removed = unsnoc xs ys l (Lists-remove (xs ++ l ∷ []) ys r (snoc xs (r ∷ ys) l li)) in
    let (left_at, left_stored) = Lists-at xs ys l removed in
    let order = remove_at (length (xs ++ l ∷ [])) h.in_order in
    (
      record { map = IdMap.put l.id (joined l r) (IdMap.remove r.id h.map); in_order = order },
      rw (
        lt→ltb (length xs + 1) (length h.in_order) inside,
        ← length-snoc xs l,
        right_at,
        left_at,
        right_stored,
        left_stored,
      ),
      Lists-put xs ys l (joined l r) refl removed,
    )
  where
    inside : length xs + 1 < length h.in_order
    inside = omega (arith, order_length (xs ++ l ∷ r ∷ ys) li, length-append xs (l ∷ r ∷ ys))
