-- ===== src/Interpreter/Memory/Regions/Layout.antt =====
-- The regions tile the heap, and no two free ones stand side by side.
use native.Mathlib.Nat.{add_assoc}
use lakesis.Base.{
  ℕ, ◌+◌, ◌-◌, ◌≤◌, ◌≡◌, refl, ap, Bool, true, false, ◌&&◌, List, [], ◌∷◌, ◌++◌, arith, ltb,
  Bool-cases, inl, inr,
}
use lakesis.Interpreter.Memory.Regions.{HeapRegion, is_free}
use lakesis.Interpreter.Memory.Regions.Allocate.{carved, fits}
use lakesis.Interpreter.Memory.Regions.Deallocate.{released, released_right, released_left, absorb}

-- Each region begins where the one before it ends; the last one ends at `end`.
abbrev pub Tiles : ℕ → List HeapRegion → ℕ → Type 0
Tiles base [] end = base ≡ end
Tiles base (r ∷ rs) end = (r.base ≡ base) × Tiles (base + r.length) rs end

-- No two free regions are neighbours; the flag says whether the region before the list is free.
abbrev pub AreSeparate : Bool → List HeapRegion → Type 0
AreSeparate before [] = Unit
AreSeparate before (r ∷ rs) = ((before && is_free r) ≡ false) × AreSeparate (is_free r) rs

pub Tiles-context :
    (xs ys zs : List HeapRegion) (base end : ℕ)
    → ((b : ℕ) → Tiles b ys end → Tiles b zs end)
    → Tiles base (xs ++ ys) end
    → Tiles base (xs ++ zs) end
Tiles-context [] ys zs base end f t = f base t
Tiles-context (x ∷ xs) ys zs base end f (tx, t) =
    (tx, Tiles-context xs ys zs (base + x.length) end f t)

pub AreSeparate-context :
    (xs ys zs : List HeapRegion) (before : Bool)
    → ((b : Bool) → AreSeparate b ys → AreSeparate b zs)
    → AreSeparate before (xs ++ ys)
    → AreSeparate before (xs ++ zs)
AreSeparate-context [] ys zs before f s = f before s
AreSeparate-context (x ∷ xs) ys zs before f (sx, s) =
    (sx, AreSeparate-context xs ys zs (is_free x) f s)

AreSeparate-used : (b : Bool) (rs : List HeapRegion) → AreSeparate b rs → AreSeparate false rs
AreSeparate-used b [] s = tt
AreSeparate-used b (r ∷ rs) (sr, s) = (refl, s)

module _ (total allocation id : ℕ) (r : HeapRegion) (ys : List HeapRegion)
    (f : fits total r ≡ true) where
  fits_parts : (is_free r ≡ true) × (total ≤ r.length)
  fits_parts = ground arith

  pub Tiles-carved :
      (base end : ℕ) → Tiles base (r ∷ ys) end → Tiles base (carved total allocation id r ++ ys) end
  unfolding carved
  Tiles-carved base end (tr, t) = elim (Bool-cases (ltb total r.length)) [
    | inl longer ↦
        let whole : base + total + (r.length - total) ≡ base + r.length =
          omega (arith, fits_parts.1) in
        rw longer (tr, (ap (λ (b : ℕ). b + total) tr, rw whole t))
    | inr exact ↦
        let whole : total ≡ r.length = ground (arith, fits_parts.1) in rw (exact) (tr, rw whole t)
  ]

  pub AreSeparate-carved :
      (before : Bool)
      → AreSeparate before (r ∷ ys)
      → AreSeparate before (carved total allocation id r ++ ys)
  unfolding carved is_free
  AreSeparate-carved before (sr, s) =
      let behind : AreSeparate true ys = rw (fits_parts.0) at s in
      elim (Bool-cases (ltb total r.length)) [
        | inl longer ↦ rw longer (used_after before, (refl, behind))
        | inr exact ↦ rw exact (used_after before, AreSeparate-used true ys behind)
      ]
    where
      used_after : (b : Bool) → (b && false) ≡ false
      used_after true = refl
      used_after false = refl

Tiles-released_right :
    (r : HeapRegion) (ys : List HeapRegion) (base end : ℕ)
    → Tiles base (r ∷ ys) end
    → Tiles base (released_right r ys) end
unfolding released_right
Tiles-released_right r [] base end t = t
Tiles-released_right r (y ∷ ys) base end (tr, (ty, t)) = elim (Bool-cases (is_free y)) [
  | inl open_right ↦ rw open_right (tr, rw (add_assoc base r.length y.length) at t)
  | inr closed_right ↦ rw closed_right (tr, (ty, t))
]

Tiles-absorb :
    (w : HeapRegion) (xs : List HeapRegion) (base end : ℕ)
    → Tiles base (w ∷ xs) end
    → Tiles base (absorb w xs) end
Tiles-absorb w [] base end t = t
Tiles-absorb w (x ∷ xs) base end (tw, (tx, t)) = (tw, rw (add_assoc base w.length x.length) at t)

Tiles-released_left :
    (w r : HeapRegion) (ys : List HeapRegion) (base end : ℕ)
    → Tiles base (w ∷ r ∷ ys) end
    → Tiles base (released_left w r ys) end
unfolding released_left
Tiles-released_left w r ys base end (tw, t) =
    let right = Tiles-released_right r ys (base + w.length) end t in
    elim (Bool-cases (is_free w)) [
      | inl open_left ↦ rw open_left (Tiles-absorb w (released_right r ys) base end (tw, right))
      | inr closed_left ↦ rw closed_left (tw, right)
    ]

pub Tiles-released :
    (xs : List HeapRegion) (r : HeapRegion) (ys : List HeapRegion) (base end : ℕ)
    → Tiles base (xs ++ r ∷ ys) end
    → Tiles base (released xs r ys) end
unfolding released
Tiles-released [] r ys base end t = Tiles-released_right r ys base end t
Tiles-released (w ∷ []) r ys base end t = Tiles-released_left w r ys base end t
Tiles-released (v ∷ (w ∷ ws)) r ys base end (tv, t) =
    (tv, Tiles-released (w ∷ ws) r ys (base + v.length) end t)

-- What follows the first of the freed regions is separate from it.
AreSeparate-released_right :
    (r : HeapRegion) (ys : List HeapRegion)
    → AreSeparate false ys
    → AreSeparate false (released_right r ys)
unfolding released_right is_free
AreSeparate-released_right r [] s = (refl, tt)
AreSeparate-released_right r (y ∷ ys) (sy, s) = elim (Bool-cases (is_free y)) [
  | inl open_right ↦ rw open_right (refl, rw open_right at s)
  | inr closed_right ↦ rw closed_right (refl, (ap (λ b. b) closed_right, s))
]

abbrev HeadIsFree : List HeapRegion → Type 0
HeadIsFree [] = ⊥
HeadIsFree (x ∷ xs) = is_free x ≡ true

released_right-HeadIsFree :
    (r : HeapRegion) (ys : List HeapRegion) → HeadIsFree (released_right r ys)
unfolding released_right is_free
released_right-HeadIsFree r [] = refl
released_right-HeadIsFree r (y ∷ ys) = elim (Bool-cases (is_free y)) [
  | inl open_right ↦ rw open_right refl
  | inr closed_right ↦ rw closed_right refl
]

AreSeparate-absorb :
    (w : HeapRegion) (xs : List HeapRegion) (before : Bool)
    → (before && true) ≡ false
    → HeadIsFree xs
    → AreSeparate false xs
    → AreSeparate before (absorb w xs)
unfolding is_free
AreSeparate-absorb w [] before b f s = absurd f
AreSeparate-absorb w (x ∷ xs) before b f (sx, s) = (b, rw f at s)

AreSeparate-released_left :
    (w r : HeapRegion) (ys : List HeapRegion) (before : Bool)
    → is_free r ≡ false
    → AreSeparate before (w ∷ r ∷ ys)
    → AreSeparate before (released_left w r ys)
unfolding released_left
AreSeparate-released_left w r ys before u (sw, (sr, s)) =
    let right = AreSeparate-released_right r ys (rw u at s) in
    elim (Bool-cases (is_free w)) [
      | inl open_left ↦ rw open_left (
          AreSeparate-absorb w (released_right r ys) before (rw open_left at sw)
            (released_right-HeadIsFree r ys) right)
      | inr closed_left ↦ rw closed_left (sw, rw closed_left right)
    ]

AreSeparate-released_behind :
    (w : HeapRegion) (ws : List HeapRegion) (r : HeapRegion) (ys : List HeapRegion) (before : Bool)
    → is_free r ≡ false
    → AreSeparate before (w ∷ (ws ++ r ∷ ys))
    → AreSeparate before (released (w ∷ ws) r ys)
unfolding released
AreSeparate-released_behind w [] r ys before u s = AreSeparate-released_left w r ys before u s
AreSeparate-released_behind v (w ∷ ws) r ys before u (sv, s) =
    (sv, AreSeparate-released_behind w ws r ys (is_free v) u s)

pub AreSeparate-released :
    (xs : List HeapRegion) (r : HeapRegion) (ys : List HeapRegion)
    → is_free r ≡ false
    → AreSeparate false (xs ++ r ∷ ys)
    → AreSeparate false (released xs r ys)
AreSeparate-released [] r ys u (sr, s) =
    unfold released in AreSeparate-released_right r ys (rw u at s)
AreSeparate-released (w ∷ ws) r ys u s = AreSeparate-released_behind w ws r ys false u s
