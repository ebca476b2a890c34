-- ===== src/Interpreter/Memory/Regions/Deallocate.antt =====
-- `HeapRegions::deallocate` by the neighbours of the region.
use native.Mathlib.Nat.{add_assoc}
use lakesis.Base.{
  ℕ, ◌+◌, ◌-◌, ◌≡◌, refl, ap, true, false, List, [], ◌∷◌, ◌++◌, append_assoc, some, arith, length,
  length-append, ltb, if◌then◌else◌, Bool-cases, inl, inr, lt→ltb, ltb-eq-false,
}
use lakesis.Base.Distinct.{IsFresh, All-left, AreDistinct-remove}
use lakesis.Base.Result.{ok}
use lakesis.Interpreter.Memory.Regions.{
  HeapRegion, HeapRegions, is_free, is_used, position, region_at, deallocate_at, deallocate,
}
use lakesis.Interpreter.Memory.Regions.Order.{Lists, ids, ids-append, length-ids, Lists-at}
use lakesis.Interpreter.Memory.Regions.Release.{
  joined, freed, island, join_right, region_at_lem, position-append, snoc, length-snoc,
  order_length,
}

-- The freed region and what follows it, joined if that is free.
unfoldable pub released_right : HeapRegion → List HeapRegion → List HeapRegion
released_right r [] = freed r ∷ []
released_right r (y ∷ ys) = if is_free y then joined r y ∷ ys else freed r ∷ y ∷ ys

abbrev pub absorb : HeapRegion → List HeapRegion → List HeapRegion
absorb w [] = w ∷ []
absorb w (x ∷ xs) = joined w x ∷ xs

-- The same behind a left neighbour, which takes in what is freed if it is free.
unfoldable pub released_left : HeapRegion → HeapRegion → List HeapRegion → List HeapRegion
released_left w r ys = if is_free w then absorb w (released_right r ys) else w ∷ released_right r ys

-- The regions after `r`, which stands between `xs` and `ys`, is freed.
unfoldable pub released : List HeapRegion → HeapRegion → List HeapRegion → List HeapRegion
unfolding released_right released_left
released [] r ys = released_right r ys
released (w ∷ []) r ys = released_left w r ys
released (v ∷ (w ∷ ws)) r ys = v ∷ released (w ∷ ws) r ys

-- What `deallocate_at` comes to.
Frees : HeapRegions → ℕ → ℕ → List HeapRegion → Type 0
Frees h id index rs = (h' : HeapRegions) × (deallocate_at id index h ≡ ok h') × Lists h' rs

module _ {h : HeapRegions} (r : HeapRegion) where
  alone : Lists h (r ∷ []) → Frees h r.id 0 (released_right r [])
  unfolding Frees deallocate_at released_right
  alone l =
      let (h', e, l') = island [] [] r l in
      (h', rw (ltb-eq-false 1 (length h.in_order) (omega (arith, order_length (r ∷ []) l))) e, l')

  at_first :
      (y : HeapRegion) (ys : List HeapRegion)
      → Lists h (r ∷ y ∷ ys)
      → Frees h r.id 0 (released_right r (y ∷ ys))
  unfolding Frees deallocate_at released_right is_used
  at_first y ys l = elim (Bool-cases (is_free y)) [
    | inl open_right ↦
        let (h', e, l') = join_right [] ys r y l in
        (h', rw (right_there, right, open_right) e, rw open_right l')
    | inr closed ↦
        let (h', e, l') = island [] (y ∷ ys) r l in
        (h', rw (right_there, right, closed) e, rw closed l')
  ]
    where
      right_there : ltb 1 (length h.in_order) ≡ true
      right_there = lt→ltb _ _ (omega (arith, order_length (r ∷ y ∷ ys) l))

      right : region_at 1 h ≡ ok y
      right = region_at_lem (r ∷ []) ys y l

  at_last :
      (ws : List HeapRegion) (w : HeapRegion)
      → Lists h (ws ++ w ∷ r ∷ [])
      → Frees h r.id (length ws + 1) (ws ++ released_left w r [])
  unfolding Frees deallocate_at released_left released_right is_used
  at_last ws w l = elim (Bool-cases (is_free w)) [
    | inl open_left ↦
        let (h', e, l') = join_right ws [] w r l in
        (h', rw (left_there, right_not_there, left_index, left, open_left) e, rw open_left l')
    | inr closed ↦
        let (h', e, l') = island (ws ++ w ∷ []) [] r (snoc ws (r ∷ []) w l) in
        (
          h',
          rw (left_there, right_not_there, left_index, left, closed) e,
          rw closed (rw append_assoc at l'),
        )
  ]
    where
      left_there : ltb 0 (length ws + 1) ≡ true
      left_there = lt→ltb _ _ (omega arith)

      right_not_there : ltb (length ws + 1 + 1) (length h.in_order) ≡ false
      right_not_there =
          ltb-eq-false _ _
            (omega (arith, order_length (ws ++ w ∷ r ∷ []) l, length-append ws (w ∷ r ∷ [])))

      left_index : length ws + 1 - 1 ≡ length ws
      left_index = omega arith

      left : region_at (length ws) h ≡ ok w
      left = region_at_lem ws (r ∷ []) w l

  at_middle :
      (ws : List HeapRegion) (w y : HeapRegion) (ys : List HeapRegion)
      → Lists h (ws ++ w ∷ r ∷ y ∷ ys)
      → Frees h r.id (length ws + 1) (ws ++ released_left w r (y ∷ ys))
  unfolding Frees deallocate_at released_left released_right is_used
  at_middle ws w y ys l = elim (Bool-cases (is_free w)) [
    | inl open_left ↦ elim (Bool-cases (is_free y)) [
      | inl open_right ↦
          let (h₁, e₁, l₁) = join_right ws (y ∷ ys) w r l in
          let (h', e', l') = join_right ws ys (joined w r) y l₁ in
          (
            h',
            rw (left_there, right_there, left_index, right, left, open_left, open_right, e₁) e',
            rw (open_left, open_right, ← add_assoc w.length r.length y.length) l',
          )
      | inr closed_right ↦
          let (h', e, l') = join_right ws (y ∷ ys) w r l in
          (
            h',
            rw (left_there, right_there, left_index, right, left, open_left, closed_right) e,
            rw (open_left, closed_right) l',
          )
    ]
    | inr closed_left ↦
        let behind = snoc ws (r ∷ y ∷ ys) w l in
        elim (Bool-cases (is_free y)) [
          | inl open_right ↦
              let (h', e, l') = join_right (ws ++ w ∷ []) ys r y behind in
              (
                h',
                rw (left_there, right_there, left_index, right, left, closed_left, open_right)
                    (rw length-snoc at e),
                rw (closed_left, open_right) (rw append_assoc at l'),
              )
          | inr closed_right ↦
              let (h', e, l') = island (ws ++ w ∷ []) (y ∷ ys) r behind in
              (
                h',
                rw (left_there, right_there, left_index, right, left, closed_left, closed_right) e,
                rw (closed_left, closed_right) (rw append_assoc at l'),
              )
        ]
  ]
    where
      left_there : ltb 0 (length ws + 1) ≡ true
      left_there = lt→ltb _ _ (omega arith)

      right_there : ltb (length ws + 1 + 1) (length h.in_order) ≡ true
      right_there =
          lt→ltb _ _ (
            omega (arith, order_length (ws ++ w ∷ r ∷ y ∷ ys) l, length-append ws (w ∷ r ∷ y ∷ ys)))

      left_index : length ws + 1 - 1 ≡ length ws
      left_index = omega arith

      left : region_at (length ws) h ≡ ok w
      left = region_at_lem ws (r ∷ y ∷ ys) w l

      right : region_at (length ws + 1 + 1) h ≡ ok y
      right =
          rw (length-snoc, length-snoc) at
            (region_at_lem ((ws ++ w ∷ []) ++ r ∷ []) ys y
              (snoc (ws ++ w ∷ []) (y ∷ ys) r (snoc ws (r ∷ y ∷ ys) w l)))

-- A list is empty or ends in an element.
data Ends : List HeapRegion → Type 0 where
  nothing : Ends []
  last : (ws : List HeapRegion) (w : HeapRegion) → Ends (ws ++ w ∷ [])

Ends-cons : (x : HeapRegion) {xs : List HeapRegion} → Ends xs → Ends (x ∷ xs)
Ends-cons x nothing = last [] x
Ends-cons x (last ws w) = last (x ∷ ws) w

ends : (xs : List HeapRegion) → Ends xs
ends [] = nothing
ends (x ∷ xs) = Ends-cons x (ends xs)

released-snoc :
    (ws : List HeapRegion) (w r : HeapRegion) (ys : List HeapRegion)
    → released (ws ++ w ∷ []) r ys ≡ ws ++ released_left w r ys
unfolding released
released-snoc [] w r ys = refl
released-snoc (v ∷ []) w r ys = refl
released-snoc (v ∷ (u ∷ us)) w r ys = ap (λ t. v ∷ t) (released-snoc (u ∷ us) w r ys)

Frees-released :
    {h : HeapRegions} (r : HeapRegion) {xs : List HeapRegion} (ys : List HeapRegion)
    → Ends xs
    → Lists h (xs ++ r ∷ ys)
    → Frees h r.id (length xs) (released xs r ys)
unfolding released
Frees-released r [] nothing l = alone r l
Frees-released r (y ∷ ys) nothing l = at_first r y ys l
Frees-released r [] (last ws w) l =
    rw (length-snoc, released-snoc) (at_last r ws w (rw append_assoc at l))
Frees-released r (y ∷ ys) (last ws w) l =
    rw (length-snoc, released-snoc) (at_middle r ws w y ys (rw append_assoc at l))

-- A region of the heap is freed by its id, and joined with the free ones beside it.
pub deallocate_lem :
    {h : HeapRegions} (xs ys : List HeapRegion) (r : HeapRegion)
    → Lists h (xs ++ r ∷ ys)
    → (h' : HeapRegions) × (deallocate r.id h ≡ ok h') × Lists h' (released xs r ys)
unfolding deallocate Frees
deallocate_lem {h} xs ys r l =
    let (h', e, l') = Frees-released r ys (ends xs) l in
    (h', rw ((Lists-at xs ys r l).1, found) e, l')
  where
    fresh : IsFresh r.id (ids xs ++ ids ys)
    fresh = (AreDistinct-remove (ids xs) (ids ys) r.id (rw ids-append at l.distinct)).0

    found : position r.id h.in_order ≡ some (length xs)
    found =
        rw (l.order, ids-append, ← length-ids xs)
          (position-append (ids xs) (ids ys) r.id (All-left _ (ids xs) (ids ys) fresh))
