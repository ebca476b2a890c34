-- ===== src/Interpreter/Memory/Regions/Order.antt =====
-- The regions of a heap in their order, and what the operations on the map and the order do to them.
use lakesis.Base.{
  ℕ, suc, ◌+◌, ◌<◌, ◌≡◌, refl, sym, ap, ◌∙◌, List, [], ◌∷◌, ◌++◌, none, some, arith, length,
  length-append, append_assoc, get_elem?, ◌==◌, ==_iff, ==_refl, ==-eq-false, if◌then◌else◌,
}
use lakesis.Base.Distinct.{
  All, All-append, All-left, All-right, All-map, IsFresh, AreDistinct, AreDistinct-insert,
  AreDistinct-remove, IsFresh-next,
}
use lakesis.Base.Dict.Laws.{lookup-insert, lookup-remove}
use lakesis.Interpreter.Memory.IdMap
use lakesis.Interpreter.Memory.IdMap.{IdMap, id_eq}
use lakesis.Interpreter.Memory.Regions.{HeapRegion, HeapRegions, insert_at, remove_at}

abbrev pub ids : List HeapRegion → List ℕ
ids [] = []
ids (r ∷ rs) = r.id ∷ ids rs

abbrev pub IsFound : IdMap HeapRegion → HeapRegion → Type 0
IsFound m r = IdMap.get r.id m ≡ some r

-- The regions `rs`, in this order, are those of the heap.
pub record Lists (h : HeapRegions) (rs : List HeapRegion) : Type 0 where
  pub order : h.in_order ≡ ids rs
  pub found : All (IsFound h.map) rs
  pub distinct : AreDistinct (ids rs)
  pub older : All (λ i. i < h.map.next_id) (ids rs)

pub ids-append : (xs ys : List HeapRegion) → ids (xs ++ ys) ≡ ids xs ++ ids ys
ids-append [] ys = refl
ids-append (x ∷ xs) ys = ap (λ t. x.id ∷ t) (ids-append xs ys)

pub length-ids : (xs : List HeapRegion) → length (ids xs) ≡ length xs
length-ids [] = refl
length-ids (x ∷ xs) = ap suc (length-ids xs)

get-put :
    (k j : ℕ) (r : HeapRegion) (m : IdMap HeapRegion)
    → IdMap.get j (IdMap.put k r m) ≡ (if k == j then some r else IdMap.get j m)
unfolding IdMap.get IdMap.put
get-put k j r m = lookup-insert id_eq ==_iff k j r m.entries

get-insert :
    (j : ℕ) (r : ℕ → HeapRegion) (m : IdMap HeapRegion)
    → IdMap.get j (IdMap.insert r m)
      ≡ (if m.next_id == j then some (r m.next_id) else IdMap.get j m)
unfolding IdMap.get IdMap.insert
get-insert j r m = lookup-insert id_eq ==_iff m.next_id j (r m.next_id) m.entries

get-remove :
    (k j : ℕ) (m : IdMap HeapRegion)
    → IdMap.get j (IdMap.remove k m) ≡ (if k == j then none else IdMap.get j m)
unfolding IdMap.get IdMap.remove
get-remove k j m = lookup-remove id_eq ==_iff k j m.entries

IsFound-put :
    (m : IdMap HeapRegion) (k : ℕ) (r : HeapRegion) (rs : List HeapRegion)
    → IsFresh k (ids rs)
    → All (IsFound m) rs
    → All (IsFound (IdMap.put k r m)) rs
IsFound-put m k r [] f h = tt
IsFound-put m k r (q ∷ rs) (fq, f) (hq, h) =
    (get-put k q.id r m ∙ rw (==-eq-false k q.id fq) hq, IsFound-put m k r rs f h)

IsFound-remove :
    (m : IdMap HeapRegion) (k : ℕ) (rs : List HeapRegion)
    → IsFresh k (ids rs)
    → All (IsFound m) rs
    → All (IsFound (IdMap.remove k m)) rs
IsFound-remove m k [] f h = tt
IsFound-remove m k (q ∷ rs) (fq, f) (hq, h) =
    (get-remove k q.id m ∙ rw (==-eq-false k q.id fq) hq, IsFound-remove m k rs f h)

IsFound-insert :
    (m : IdMap HeapRegion) (r : ℕ → HeapRegion) (rs : List HeapRegion)
    → IsFresh m.next_id (ids rs)
    → All (IsFound m) rs
    → All (IsFound (IdMap.insert r m)) rs
IsFound-insert m r [] f h = tt
IsFound-insert m r (q ∷ rs) (fq, f) (hq, h) =
    (get-insert q.id r m ∙ rw (==-eq-false m.next_id q.id fq) hq, IsFound-insert m r rs f h)

insert_at-append : (xs ys : List ℕ) (x : ℕ) → insert_at (length xs) x (xs ++ ys) ≡ xs ++ x ∷ ys
unfolding insert_at
insert_at-append [] ys x = refl
insert_at-append (y ∷ xs) ys x = ap (λ t. y ∷ t) (insert_at-append xs ys x)

remove_at-append : (xs ys : List ℕ) (x : ℕ) → remove_at (length xs) (xs ++ x ∷ ys) ≡ xs ++ ys
unfolding remove_at
remove_at-append [] ys x = refl
remove_at-append (y ∷ xs) ys x = ap (λ t. y ∷ t) (remove_at-append xs ys x)

get_elem?-append : (xs ys : List ℕ) (x : ℕ) → get_elem? (xs ++ x ∷ ys) (length xs) ≡ some x
get_elem?-append [] ys x = refl
get_elem?-append (y ∷ xs) ys x = get_elem?-append xs ys x

older_insert :
    (n : ℕ) (xs ys : List ℕ) → All (λ i. i < n) (xs ++ ys) → All (λ i. i < suc n) (xs ++ n ∷ ys)
older_insert n xs ys h =
    let wider = All-map (λ i. i < n) {Q = λ i. i < suc n} (xs ++ ys) (λ i p. omega arith) h in
    All-append _ xs (n ∷ ys) (All-left _ xs ys wider) (omega arith, All-right _ xs ys wider)

module _ {h : HeapRegions} (xs ys : List HeapRegion) where
  IsFresh-sides : (r : HeapRegion) → Lists h (xs ++ r ∷ ys) → IsFresh r.id (ids xs ++ ids ys)
  IsFresh-sides r l = (AreDistinct-remove (ids xs) (ids ys) r.id (rw ids-append at l.distinct)).0

  -- The region at a place of the order.
  pub Lists-at :
      (r : HeapRegion)
      → Lists h (xs ++ r ∷ ys)
      → (get_elem? h.in_order (length xs) ≡ some r.id) × (IdMap.get r.id h.map ≡ some r)
  Lists-at r l = (
    rw (l.order, ids-append, ← length-ids xs) (get_elem?-append (ids xs) (ids ys) r.id),
    (All-right _ xs (r ∷ ys) l.found).0,
  )

  -- A write to a region that keeps its id.
  pub Lists-put :
      (r r' : HeapRegion)
      → r'.id ≡ r.id
      → Lists h (xs ++ r ∷ ys)
      → Lists (record h { map = IdMap.put r.id r' h.map }) (xs ++ r' ∷ ys)
  Lists-put r r' e l =
      let fresh = IsFresh-sides r l in
      let same : ids (xs ++ r' ∷ ys) ≡ ids (xs ++ r ∷ ys) = rw (ids-append, ids-append, e) in
      record {
        order = l.order ∙ sym same;
        found =
            All-append _ xs (r' ∷ ys)
              (IsFound-put h.map r.id r' xs (All-left _ (ids xs) (ids ys) fresh)
                (All-left _ xs (r ∷ ys) l.found))
              (
                get-put r.id r'.id r' h.map ∙ rw (e, ==_refl),
                IsFound-put h.map r.id r' ys (All-right _ (ids xs) (ids ys) fresh)
                    (All-right _ xs (r ∷ ys) l.found).1,
              );
        distinct = rw same l.distinct;
        older = unfold IdMap.put in rw same l.older;
      }

  -- A new region behind those of `xs`.
  pub Lists-insert :
      (r : ℕ → HeapRegion)
      → ((i : ℕ) → (r i).id ≡ i)
      → Lists h (xs ++ ys)
      → Lists
          (record {
            map = IdMap.insert r h.map;
            in_order = insert_at (length xs) h.map.next_id h.in_order;
          })
          (xs ++ r h.map.next_id ∷ ys)
  Lists-insert r e l =
      let n = h.map.next_id in
      let here : ids (xs ++ r n ∷ ys) ≡ ids xs ++ n ∷ ids ys = rw (ids-append, e) in
      let fresh = IsFresh-next n (ids xs ++ ids ys) (rw ids-append at l.older) in
      record {
        order =
            rw (l.order, here, ids-append, ← length-ids xs) (insert_at-append (ids xs) (ids ys) n);
        found =
            All-append _ xs (r n ∷ ys)
              (IsFound-insert h.map r xs (All-left _ (ids xs) (ids ys) fresh)
                (All-left _ xs ys l.found))
              (
                get-insert (r n).id r h.map ∙ rw (e, ==_refl),
                IsFound-insert h.map r ys (All-right _ (ids xs) (ids ys) fresh)
                    (All-right _ xs ys l.found),
              );
        distinct =
            rw here (AreDistinct-insert (ids xs) (ids ys) n (rw ids-append at l.distinct) fresh);
        older =
            unfold IdMap.insert in
            rw here (older_insert n (ids xs) (ids ys) (rw ids-append at l.older));
      }

  pub Lists-remove :
      (r : HeapRegion)
      → Lists h (xs ++ r ∷ ys)
      → Lists
          (record { map = IdMap.remove r.id h.map; in_order = remove_at (length xs) h.in_order })
          (xs ++ ys)
  Lists-remove r l =
      let fresh = IsFresh-sides r l in
      let rest : AreDistinct (ids xs ++ ids ys) =
        (AreDistinct-remove (ids xs) (ids ys) r.id (rw ids-append at l.distinct)).1 in
      let old : All (λ i. i < h.map.next_id) (ids xs ++ r.id ∷ ids ys) = rw ids-append at l.older in
      record {
        order =
            rw (l.order, ids-append, ids-append, ← length-ids xs)
              (remove_at-append (ids xs) (ids ys) r.id);
        found =
            All-append _ xs ys
              (IsFound-remove h.map r.id xs (All-left _ (ids xs) (ids ys) fresh)
                (All-left _ xs (r ∷ ys) l.found))
              (IsFound-remove h.map r.id ys (All-right _ (ids xs) (ids ys) fresh)
                (All-right _ xs (r ∷ ys) l.found).1);
        distinct = rw ids-append rest;
        older =
            unfold IdMap.remove in
            rw ids-append (
              All-append _ (ids xs) (ids ys) (All-left _ (ids xs) (r.id ∷ ids ys) old)
                (All-right _ (ids xs) (r.id ∷ ids ys) old).1);
      }

module _ {h : HeapRegions} (xs ys : List HeapRegion) where
  -- A new region right behind `r`.
  pub Lists-insert_after :
      (r : HeapRegion) (new : ℕ → HeapRegion)
      → ((i : ℕ) → (new i).id ≡ i)
      → Lists h (xs ++ r ∷ ys)
      → Lists
          (record {
            map = IdMap.insert new h.map;
            in_order = insert_at (length xs + 1) h.map.next_id h.in_order;
          })
          (xs ++ r ∷ new h.map.next_id ∷ ys)
  Lists-insert_after r new e l =
      let moved : Lists h ((xs ++ r ∷ []) ++ ys) = rw (append_assoc) l in
      rw (append_assoc, length-append) at (Lists-insert (xs ++ r ∷ []) ys new e moved)
