-- ===== src/Interpreter/Memory/Regions/Counting.antt =====
-- src/interpreter/memory.rs: how many regions are used, and a heap where none is.
use lakesis.Base.{
  ℕ, suc, ◌+◌, ◌-◌, ◌≡◌, refl, ap, ◌∙◌, true, false, List, [], ◌∷◌, ◌++◌, arith, if◌then◌else◌, ltb,
  Bool-cases, inl, inr,
}
use lakesis.Interpreter.Memory.Regions.{
  HeapRegion, HeapRegionState, free, used, is_free, state_is_free, free_region,
}
use lakesis.Interpreter.Memory.Regions.Allocate.{carved, fits}
use lakesis.Interpreter.Memory.Regions.Release.{joined, freed}
use lakesis.Interpreter.Memory.Regions.Deallocate.{released, released_right, released_left, absorb}
use lakesis.Interpreter.Memory.Regions.Layout.{Tiles, AreSeparate}

-- The used regions.
unfoldable pub count_used : List HeapRegion → ℕ
count_used [] = 0
count_used (r ∷ rs) = if is_free r then count_used rs else suc (count_used rs)

count_used-free :
    (r : HeapRegion) (rs : List HeapRegion) → is_free r ≡ true → count_used (r ∷ rs) ≡ count_used rs
unfolding count_used
count_used-free r rs e = rw e refl

count_used-used :
    (r : HeapRegion) (rs : List HeapRegion)
    → is_free r ≡ false
    → count_used (r ∷ rs) ≡ suc (count_used rs)
unfolding count_used
count_used-used r rs e = rw e refl

count_used-under :
    (x : HeapRegion) (ys zs : List HeapRegion)
    → count_used ys ≡ count_used zs
    → count_used (x ∷ ys) ≡ count_used (x ∷ zs)
unfolding count_used
count_used-under x ys zs e = rw e refl

-- More used regions behind some are more used regions.
pub count_used-context :
    (xs ys zs : List HeapRegion)
    → count_used ys ≡ suc (count_used zs)
    → count_used (xs ++ ys) ≡ suc (count_used (xs ++ zs))
unfolding count_used
count_used-context [] ys zs e = e
count_used-context (x ∷ xs) ys zs e = let e' = count_used-context xs ys zs e in ground (arith, e')

is_free-freed : (r : HeapRegion) → is_free (freed r) ≡ true
unfolding is_free state_is_free
is_free-freed r = refl

is_free-joined : (r y : HeapRegion) → is_free (joined r y) ≡ true
unfolding is_free state_is_free
is_free-joined r y = refl

is_free-used :
    (r : HeapRegion) (total allocation : ℕ)
    → is_free (record r { length = total; state = used allocation }) ≡ false
unfolding is_free state_is_free
is_free-used r total allocation = refl

is_free-rest : (base len id : ℕ) → is_free (free_region base len id) ≡ true
unfolding is_free state_is_free
is_free-rest base len id = refl

pub count_used-carved :
    (total allocation id : ℕ) (r : HeapRegion) (ys : List HeapRegion)
    → fits total r ≡ true
    → count_used (carved total allocation id r ++ ys) ≡ suc (count_used (r ∷ ys))
unfolding carved
count_used-carved total allocation id r ys f =
    let mine : HeapRegion = record r { length = total; state = used allocation } in
    let unused = count_used-free r ys (ground arith) in
    elim (Bool-cases (ltb total r.length)) [
      | inl longer ↦
          let rest = free_region (r.base + total) (r.length - total) id in
          rw (longer, unused)
            (count_used-used mine (rest ∷ ys) (is_free-used r total allocation)
              ∙ ap (λ (n : ℕ). suc n) (count_used-free rest ys (is_free-rest _ _ id)))
      | inr exact ↦ rw (exact, unused) (count_used-used mine ys (is_free-used r total allocation))
    ]

count_used-right :
    (r : HeapRegion) (ys : List HeapRegion) → count_used (released_right r ys) ≡ count_used ys
unfolding released_right
count_used-right r [] = count_used-free (freed r) [] (is_free-freed r)
count_used-right r (y ∷ ys) = elim (Bool-cases (is_free y)) [
  | inl e ↦ rw (e, count_used-free y ys e) (count_used-free (joined r y) ys (is_free-joined r y))
  | inr e ↦ rw e (count_used-free (freed r) (y ∷ ys) (is_free-freed r))
]

count_used-absorb :
    (w r : HeapRegion) (ys : List HeapRegion)
    → count_used (absorb w (released_right r ys)) ≡ count_used ys
unfolding released_right
count_used-absorb w r [] = count_used-free _ [] (is_free-joined w (freed r))
count_used-absorb w r (y ∷ ys) = elim (Bool-cases (is_free y)) [
  | inl e ↦ rw (e, count_used-free y ys e) (count_used-free _ ys (is_free-joined w (joined r y)))
  | inr e ↦ rw e (count_used-free _ (y ∷ ys) (is_free-joined w (freed r)))
]

count_used-left :
    (w r : HeapRegion) (ys : List HeapRegion)
    → count_used (released_left w r ys) ≡ count_used (w ∷ ys)
unfolding released_left
count_used-left w r ys = elim (Bool-cases (is_free w)) [
  | inl e ↦ rw (e, count_used-free w ys e) (count_used-absorb w r ys)
  | inr e ↦ rw e (count_used-under w (released_right r ys) ys (count_used-right r ys))
]

pub count_used-released :
    (xs ys : List HeapRegion) (r : HeapRegion)
    → is_free r ≡ false
    → count_used (xs ++ r ∷ ys) ≡ suc (count_used (released xs r ys))
unfolding released count_used
count_used-released [] ys r u = rw (u, count_used-right r ys) refl
count_used-released (w ∷ []) ys r u = let e = count_used-left w r ys in ground (arith, e, u)
count_used-released (v ∷ (w ∷ ws)) ys r u =
    let e = count_used-released (w ∷ ws) ys r u in ground (arith, e)

-- Where no region is used, a region that is free is the last.
free-last : (rs : List HeapRegion) → count_used rs ≡ 0 → AreSeparate true rs → rs ≡ []
unfolding count_used
free-last [] c s = refl
free-last (r ∷ rs) c s = absurd (ground (arith, s.0))

state-free : (s : HeapRegionState) → state_is_free s ≡ true → s ≡ free
unfolding state_is_free
state-free free e = refl
state-free (used a) e = cc

first-free :
    (r : HeapRegion) (rs : List HeapRegion)
    → count_used (r ∷ rs) ≡ 0
    → (is_free r ≡ true) × (count_used rs ≡ 0)
unfolding count_used
first-free r rs c = (ground (arith, c), ground (arith, c))

region-free :
    (id base len size : ℕ) (state : HeapRegionState)
    → state ≡ free
    → base ≡ 0
    → len ≡ size
    → ◌≡◌ {A = HeapRegion}
        (record { id = id; state = state; base = base; length = len })
        (free_region 0 size id)
region-free id base len size state es eb el = rw (es, eb, el) refl

-- Where no region is used, there is one region, which is free and the whole heap.
pub whole_heap :
    (size : ℕ) (r : HeapRegion) (rs : List HeapRegion)
    → count_used (r ∷ rs) ≡ 0
    → Tiles 0 (r ∷ rs) size
    → AreSeparate false (r ∷ rs)
    → r ∷ rs ≡ free_region 0 size r.id ∷ []
unfolding is_free
whole_heap size r rs c (begins, t) (_, s) =
    let (unused, none_used) = first-free r rs c in
    let alone = free-last rs none_used (rw unused at s) in
    let t' : Tiles (0 + r.length) [] size = rw alone at t in
    let is =
      region-free r.id r.base r.length size r.state (state-free r.state unused) begins
        (omega (arith, t')) in
    ap (λ x. r ∷ x) alone ∙ ap (λ x. x ∷ []) is
