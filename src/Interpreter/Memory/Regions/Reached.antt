-- ===== src/Interpreter/Memory/Regions/Reached.antt =====
-- src/interpreter/memory.rs: the heaps that `HeapRegions::allocate` and `HeapRegions::deallocate` make of a new heap.
use mathlib.Core.Path.{subst}
use lakesis.Base.{
  ℕ, suc, ◌-◌, ◌<◌, ◌≡◌, refl, sym, ap, ◌∙◌, false, List, [], ◌∷◌, ◌++◌, Option, some, none, arith,
  ◌==◌, Bool-cases, inl, inr,
}
use lakesis.Base.Dict.{lookup, insert}
use lakesis.Base.Distinct.{All, All-right}
use lakesis.Base.Result.{ok, >>=-eq-ok, ok_or, unwrap}
use lakesis.Core.{Error, CoreResult, invalid_region_id}
use lakesis.Interpreter.Memory.IdMap
use lakesis.Interpreter.Memory.Sizes.{total_region_len}
use lakesis.Interpreter.Memory.Regions.{
  HeapRegion, HeapRegions, AllocationResult, success, out_of_memory, is_free, state_is_free, get,
  position, allocate, deallocate, regions_new, free_region,
}
use lakesis.Interpreter.Memory.Regions.Order.{Lists, IsFound, ids}
use lakesis.Interpreter.Memory.Regions.Deallocate.{released}
use lakesis.Interpreter.Memory.Regions.Layout.{Tiles, AreSeparate}
use lakesis.Interpreter.Memory.Regions.Counting.{
  count_used, count_used-context, count_used-carved, count_used-released, whole_heap,
}
use lakesis.Interpreter.Memory.Regions.Valid.{
  IsValid, Outcome, full, taken, allocate-IsValid, deallocate-IsValid,
}

-- The heaps of `size` bytes that allocations and frees lead to, with the number of the allocations that
-- were not freed. An allocation may be answered by no memory. What is freed is a used region.
pub data Reached (size : ℕ) : ℕ → HeapRegions → Type 0 where
  created : Reached size 0 (regions_new size)
  allocated :
      {n : ℕ} {h h' : HeapRegions} {base id : ℕ} (data_size allocation : ℕ)
      → Reached size n h
      → allocate data_size allocation h ≡ ok (success base id, h')
      → Reached size (suc n) h'
  refused :
      {n : ℕ} {h h' : HeapRegions} (data_size allocation : ℕ)
      → Reached size n h
      → allocate data_size allocation h ≡ ok (out_of_memory, h')
      → Reached size n h'
  deallocated :
      {n : ℕ} {h h' : HeapRegions} (r : HeapRegion)
      → Reached size n h
      → get r.id h ≡ some r
      → is_free r ≡ false
      → deallocate r.id h ≡ ok h'
      → Reached size (n - 1) h'

position-split :
    (id : ℕ) (rs : List HeapRegion) {k : ℕ}
    → position id (ids rs) ≡ some k
    → (xs ys : List HeapRegion) × (r : HeapRegion) × (rs ≡ xs ++ r ∷ ys) × (r.id ≡ id)
unfolding position
position-split id [] h = cc
position-split id (r ∷ rs) h = elim (Bool-cases (r.id == id)) [
  | inl e ↦ ([], rs, r, refl, ground arith)
  | inr e ↦
      let (k', found) = behind (position id (ids rs)) (rw e at h) in
      let (xs, ys, r', is, same) = position-split id rs found in
      (r ∷ xs, ys, r', ap (λ x. r ∷ x) is, same)
]
  where
    behind :
        (o : Option ℕ) {k : ℕ}
        → (elim o [ none ↦ none | some n ↦ some (suc n) ]) ≡ some k
        → (k' : ℕ) × (o ≡ some k')
    behind none h = cc
    behind (some n) h = (n, refl)

-- The region with an id that `deallocate` finds is one of those that are listed.
listed-split :
    {h h' : HeapRegions} (rs : List HeapRegion) (r : HeapRegion)
    → Lists h rs
    → get r.id h ≡ some r
    → deallocate r.id h ≡ ok h'
    → (xs ys : List HeapRegion) × (rs ≡ xs ++ r ∷ ys)
unfolding deallocate get
listed-split {h} rs r l stored done =
    let (r₁, e₁, done₁) = >>=-eq-ok (ok_or (IdMap.get r.id h.map) invalid_region_id) _ done in
    let (k, e₂, _) = >>=-eq-ok (unwrap (position r₁.id h.in_order)) _ done₁ in
    let e₃ : ◌≡◌ {A = CoreResult HeapRegion} (ok r) (ok r₁) = rw stored at e₁ in
    let same : r₁ ≡ r = cc in
    let at : position r.id (ids rs) ≡ some k = unwrapped (rw (same, l.order) at e₂) in
    let (xs, ys, r', is, id) = position-split r.id rs at in
    let found : IdMap.get r'.id h.map ≡ some r' =
      (All-right (IsFound h.map) xs (r' ∷ ys) (rw is at l.found)).0 in
    let found' : IdMap.get r.id h.map ≡ some r' = rw id at found in
    let r'_is : r' ≡ r = cc in (xs, ys, is ∙ ap (λ x. xs ++ x ∷ ys) r'_is)
  where
    unwrapped : {o : Option ℕ} {k : ℕ} → unwrap {E = Error} o ≡ ok k → o ≡ some k
    unwrapped {o = none} e = cc
    unwrapped {o = some n} e = cc

-- The regions that are reached are valid, and the used ones are counted.
abbrev pub Counted : ℕ → ℕ → HeapRegions → Type 0
Counted size n h = (v : IsValid h size) × (count_used v.regions ≡ n)

Outcome-taken :
    {total allocation id base new_id : ℕ} {rs rs' : List HeapRegion} {a : AllocationResult}
    → Outcome total allocation new_id rs a rs'
    → a ≡ success base id
    → count_used rs' ≡ suc (count_used rs)
Outcome-taken (full n) e = cc
Outcome-taken {total} {allocation} {new_id} (taken xs ys r n f) e =
    count_used-context xs _ (r ∷ ys) (count_used-carved total allocation new_id r ys f)

Outcome-full :
    {total allocation new_id : ℕ} {rs rs' : List HeapRegion} {a : AllocationResult}
    → Outcome total allocation new_id rs a rs'
    → a ≡ out_of_memory
    → rs' ≡ rs
Outcome-full (full n) e = refl
Outcome-full (taken xs ys r n f) e = cc

module _ {size n : ℕ} {h h' : HeapRegions} where
  allocated-Counted :
      {base id : ℕ} (data_size allocation : ℕ)
      → Counted size n h
      → allocate data_size allocation h ≡ ok (success base id, h')
      → Counted size (suc n) h'
  unfolding allocate
  allocated-Counted {base} {id} data_size allocation (v, count) done =
      let (total, len, _) = >>=-eq-ok (total_region_len data_size) _ done in
      let (a, h₁, done₁, v', o) = allocate-IsValid data_size allocation v len in
      let same : ◌≡◌ {A = CoreResult (AllocationResult × HeapRegions)} (ok (a, h₁))
          (ok (success base id, h')) =
        sym done₁ ∙ done in
      let is : a ≡ success base id = cc in
      let is' : h₁ ≡ h' = cc in
      subst (Counted size (suc n)) is' (v', Outcome-taken o is ∙ ap (λ (m : ℕ). suc m) count)

  refused-Counted :
      (data_size allocation : ℕ)
      → Counted size n h
      → allocate data_size allocation h ≡ ok (out_of_memory, h')
      → Counted size n h'
  unfolding allocate
  refused-Counted data_size allocation (v, count) done =
      let (total, len, _) = >>=-eq-ok (total_region_len data_size) _ done in
      let (a, h₁, done₁, v', o) = allocate-IsValid data_size allocation v len in
      let same : ◌≡◌ {A = CoreResult (AllocationResult × HeapRegions)} (ok (a, h₁))
          (ok (out_of_memory, h')) =
        sym done₁ ∙ done in
      let is : a ≡ out_of_memory = cc in
      let is' : h₁ ≡ h' = cc in
      subst (Counted size n) is' (v', ap count_used (Outcome-full o is) ∙ count)

  deallocated-Counted :
      (r : HeapRegion)
      → Counted size n h
      → get r.id h ≡ some r
      → is_free r ≡ false
      → deallocate r.id h ≡ ok h'
      → Counted size (n - 1) h'
  deallocated-Counted r (v, count) stored u done =
      let (xs, ys, is) = listed-split v.regions r v.listed stored done in
      let (h₁, done₁, v', after) = deallocate-IsValid v xs ys r is u in
      let is' : h₁ ≡ h' = cc in
      let fewer = count_used-released xs ys r u in
      let count' : count_used (xs ++ r ∷ ys) ≡ n = ap count_used (sym is) ∙ count in
      let left : count_used (released xs r ys) ≡ n - 1 = omega (arith, fewer, count') in
      subst (Counted size (n - 1)) is' (v', ap count_used after ∙ left)

new-Counted : (size : ℕ) → Counted size 0 (regions_new size)
unfolding regions_new IdMap.insert IdMap.empty IdMap.peek_next_id IdMap.get lookup insert count_used
    is_free state_is_free
new-Counted size = (
  record {
    regions = free_region 0 size 1 ∷ [];
    listed = record { order = refl; found = (refl, tt); distinct = (tt, tt); older = omega arith };
    tiles = (refl, omega arith);
    separate = (refl, tt);
  },
  refl,
)

-- In every heap that allocations and frees lead to from a new one, the regions are valid: they tile the
-- heap, their ids are apart and found, and no two free ones stand side by side. There are as many used
-- regions as allocations that were not freed.
pub Reached-IsValid : {size n : ℕ} {h : HeapRegions} → Reached size n h → Counted size n h
Reached-IsValid {size} created = new-Counted size
Reached-IsValid (allocated data_size allocation reached done) =
    allocated-Counted data_size allocation (Reached-IsValid reached) done
Reached-IsValid (refused data_size allocation reached done) =
    refused-Counted data_size allocation (Reached-IsValid reached) done
Reached-IsValid (deallocated r reached stored u done) =
    deallocated-Counted r (Reached-IsValid reached) stored u done

-- When all that was allocated from a new heap of at least one byte is freed again, the heap is one free
-- region of its whole size.
pub Reached-whole :
    {size : ℕ} {h : HeapRegions}
    → 0 < size
    → Reached size 0 h
    → (id : ℕ) × (h.in_order ≡ id ∷ []) × (get id h ≡ some (free_region 0 size id))
unfolding get
Reached-whole {size} {h} some_bytes reached =
    let (v, count) = Reached-IsValid reached in whole v.regions v.listed v.tiles v.separate count
  where
    whole :
        (rs : List HeapRegion)
        → Lists h rs
        → Tiles 0 rs size
        → AreSeparate false rs
        → count_used rs ≡ 0
        → (id : ℕ) × (h.in_order ≡ id ∷ []) × (IdMap.get id h.map ≡ some (free_region 0 size id))
    whole [] l t s c = absurd (omega (arith, t))
    whole (r ∷ rs) l t s c =
        let is = whole_heap size r rs c t s in
        let order : h.in_order ≡ r.id ∷ [] = l.order ∙ ap ids is in
        let found : All (IsFound h.map) (free_region 0 size r.id ∷ []) =
          subst (All (IsFound h.map)) is l.found in
        (r.id, order, found.0)
