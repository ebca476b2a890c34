-- ===== src/Interpreter/Memory/Regions/Allocate.antt =====
-- `HeapRegions::allocate` takes the first free region that is long enough, and splits it.
use Prim.Native.Nat.add
use lakesis.Base.{
  ℕ, suc, ◌+◌, ◌-◌, ◌≡◌, refl, ap, ◌∙◌, Bool, true, false, ◌&&◌, List, [], ◌∷◌, ◌++◌, none, some,
  arith, length, ltb, leb, if◌then◌else◌, Bool-cases, inl, inr,
}
use lakesis.Base.Distinct.{All}
use lakesis.Base.Result.{ok}
use lakesis.Interpreter.Memory.IdMap
use lakesis.Interpreter.Memory.IdMap.{IdMap}
use lakesis.Interpreter.Memory.Sizes.{total_region_len}
use lakesis.Interpreter.Memory.Regions.{
  HeapRegion, HeapRegions, success, out_of_memory, used, is_free, free_region, find_region,
  split_region, use_region, allocate,
}
use lakesis.Interpreter.Memory.Regions.Order.{
  Lists, IsFound, ids, Lists-at, Lists-put, Lists-insert_after,
}

-- The test of the search.
abbrev pub fits : ℕ → HeapRegion → Bool
fits total r = is_free r && leb total r.length

abbrev pub NoneFits : ℕ → List HeapRegion → Type 0
NoneFits total = All (λ r. fits total r ≡ false)

-- What becomes of the region that is taken.
unfoldable pub carved : ℕ → ℕ → ℕ → HeapRegion → List HeapRegion
carved total allocation new_id r =
    let mine = record r { length = total; state = used allocation } in
    if ltb total r.length
    then mine ∷ free_region (r.base + total) (r.length - total) new_id ∷ []
    else mine ∷ []

find_region-none :
    (m : IdMap HeapRegion) (total i : ℕ) (rs : List HeapRegion)
    → All (IsFound m) rs
    → NoneFits total rs
    → find_region m total i (ids rs) ≡ ok none
unfolding find_region
find_region-none m total i [] f n = refl
find_region-none m total i (r ∷ rs) (fr, f) (nr, n) =
    rw (fr, nr) (find_region-none m total (suc i) rs f n)

find_region-some :
    (m : IdMap HeapRegion) (total i : ℕ) (xs ys : List HeapRegion) (r : HeapRegion)
    → All (IsFound m) (xs ++ r ∷ ys)
    → NoneFits total xs
    → fits total r ≡ true
    → find_region m total i (ids (xs ++ r ∷ ys)) ≡ ok (some (i + length xs, r))
unfolding find_region
find_region-some m total i [] ys r (fr, f) n t =
    rw (fr, t) (ap (λ (j : ℕ). ok (some (j, r))) (omega arith))
find_region-some m total i (x ∷ xs) ys r (fx, f) (nx, n) t =
    rw (fx, nx)
      (find_region-some m total (suc i) xs ys r f n t
        ∙ ap (λ (j : ℕ). ok (some (j, r))) (omega arith))

use_region_lem :
    (total allocation : ℕ) {h : HeapRegions} (xs ys : List HeapRegion) (r : HeapRegion)
    → Lists h (xs ++ r ∷ ys)
    → (h' : HeapRegions) × (use_region total allocation r.id h ≡ ok (success r.base r.id, h'))
      × Lists h' (xs ++ record r { length = total; state = used allocation } ∷ ys)
unfolding use_region
use_region_lem total allocation {h} xs ys r l =
    let mine = record r { length = total; state = used allocation } in
    (
      record h { map = IdMap.put r.id mine h.map },
      rw ((Lists-at xs ys r l).1),
      Lists-put xs ys r mine refl l,
    )

module _ {h : HeapRegions} (data_size allocation total : ℕ) where
  -- If no region fits, the answer is that there is no memory, and nothing changes.
  pub allocate-none :
      (rs : List HeapRegion)
      → Lists h rs
      → total_region_len data_size ≡ ok total
      → NoneFits total rs
      → allocate data_size allocation h ≡ ok (out_of_memory, h)
  unfolding allocate
  allocate-none rs l e n =
      let nothing : find_region h.map total 0 h.in_order ≡ ok none =
        rw l.order (find_region-none h.map total 0 rs l.found n) in
      rw (e, nothing)

  -- The first region that fits is taken, and what it has too much stays free behind it.
  pub allocate-first :
      (xs ys : List HeapRegion) (r : HeapRegion)
      → Lists h (xs ++ r ∷ ys)
      → total_region_len data_size ≡ ok total
      → NoneFits total xs
      → fits total r ≡ true
      → (h' : HeapRegions) × (allocate data_size allocation h ≡ ok (success r.base r.id, h'))
        × Lists h' (xs ++ (carved total allocation h.map.next_id r ++ ys))
  unfolding allocate split_region carved
  allocate-first xs ys r l e n t = elim (Bool-cases (ltb total r.length)) [
    | inl longer ↦
        let rest = free_region (r.base + total) (r.length - total) in
        let (h', used_it, l') =
          use_region_lem total allocation xs (rest h.map.next_id ∷ ys) r
            (Lists-insert_after xs ys r rest (λ i. refl) l) in
        (h', rw (e, found, longer) (unfold IdMap.peek_next_id in used_it), rw longer l')
    | inr exact ↦
        let (h', used_it, l') = use_region_lem total allocation xs ys r l in
        (h', rw (e, found, exact) used_it, rw exact l')
  ]
    where
      found : find_region h.map total 0 h.in_order ≡ ok (some (length xs, r))
      found = rw l.order (rw add.zero at (find_region-some h.map total 0 xs ys r l.found n t))
