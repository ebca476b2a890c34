-- ===== src/Interpreter/Memory/Allocator/Garbage.antt =====
-- `force_garbage_collection` of src/interpreter/memory.rs as a whole.
use mathlib.Core.List.{Memᴰ}
use mathlib.Core.Path.{subst}
use lakesis.Base.{ℕ, ◌≡◌, ◌≤◌, ◌*◌, sym, ap, ◌∙◌, inr, List, [], length, some, none}
use lakesis.Base.Dict.{lookup}
use lakesis.Base.Result.{ok, >>=-eq-ok}
use lakesis.Core.{CoreResult}
use lakesis.Interpreter.Data.{DataWord}
use lakesis.Interpreter.Memory.IdMap
use lakesis.Interpreter.Memory.IdMap.{id_eq}
use lakesis.Interpreter.Memory.Regions.Compact.{compact}
use lakesis.Interpreter.Memory.Store.{Allocation, Memory}
use lakesis.Interpreter.Memory.Allocator.{
  deallocate_all, seed, relocate, root_addresses, mark_loop, mark_fuel, force_garbage_collection,
}
use lakesis.Interpreter.Memory.Allocator.Reach.{IsReached, IsReachedId, root, follow}
use lakesis.Interpreter.Memory.Allocator.Scan.{IsConsistent}
use lakesis.Interpreter.Memory.Allocator.Collected.{unseen_marks, mark_loop-IsReachedId}
use lakesis.Interpreter.Memory.Allocator.Survival.{
  IsCollectible, deallocate_all-get, relocate-lookup, seed-IsCollectible,
}

IsReached-more :
    {m : Memory} {roots more : List ℕ} {addr : ℕ}
    → ((x : ℕ) → Memᴰ x roots → Memᴰ x more)
    → IsReached m roots addr
    → IsReached m more addr
IsReached-more sub (root {addr} t) = root (sub addr t)
IsReached-more sub (follow r found refers) = follow (IsReached-more sub r) found refers

-- What a collection that succeeds does with the allocation of an id.
record Collection (m m' : Memory) (roots next : List ℕ) (id : ℕ) : Type 0 where
  keeps :
      (a : Allocation)
      → IsReachedId m roots id
      → IdMap.get id m.allocations ≡ some a
      → (start : ℕ) × (IdMap.get id m'.allocations ≡ some (record a { start = start }))
  takes :
      IsCollectible m.allocations.entries id
      → (IsReachedId m next id → ⊥)
      → IdMap.get id m'.allocations ≡ none

ok_inj : {A : Type 0} {a b : A} → ◌≡◌ {A = CoreResult A} (ok a) (ok b) → a ≡ b
ok_inj e = cc

module _ {m : Memory} (c : IsConsistent m)
    (fits : unseen_marks [] m.allocations.entries ≤ 8 * length m.heap) where
  collection :
      (registers : List DataWord) (next collectible : List ℕ) (m' : Memory) (id : ℕ)
      → seed m.allocations.entries m (root_addresses registers) [] ≡ ok (next, collectible)
      → force_garbage_collection registers m ≡ ok m'
      → Collection m m' (root_addresses registers) next id
  unfolding force_garbage_collection IdMap.get
  collection registers next collectible m' id seeded done =
      let ((next', collectible'), seeded', done₁) =
        >>=-eq-ok (seed m.allocations.entries m (root_addresses registers) []) _ done in
      let (garbage', marked', done₂) =
        >>=-eq-ok (mark_loop (mark_fuel next' m) next' [] collectible' m) _ done₁ in
      let (m₁, freed, done₃) = >>=-eq-ok (deallocate_all garbage' m) _ done₂ in
      let ((regions, heap), _, done₄) = >>=-eq-ok (compact m₁.regions m₁.heap) _ done₃ in
      let (entries, relocated, done₅) =
        >>=-eq-ok (relocate m₁.allocations.entries regions) _ done₄ in
      let (garbage, marked, is_garbage) = mark_loop-IsReachedId c next' collectible' fits in
      let same : garbage ≡ garbage' = cc in
      let same' : next' ≡ next = cc in
      let after : lookup id_eq id m'.allocations.entries ≡ lookup id_eq id entries =
        last (ok_inj done₅) in
      let (taken, kept) = deallocate_all-get garbage' id m freed in
      let (found, missing) = relocate-lookup m₁.allocations.entries regions id relocated in
      record {
        keeps = λ a (addr, b, offset, at, is, r) here.
            let more =
              IsReached-more
                (λ x t.
                  (seed-IsCollectible m.allocations.entries m (root_addresses registers) [] x
                      seeded').1
                    t)
                r in
            let stays : Memᴰ id garbage' → ⊥ = λ t.
              ((is_garbage id).0 (subst (Memᴰ id) (sym same) t)).1
                (addr, b, offset, at, is, more) in
            let (start, there) = found a (kept stays ∙ here) in (start, after ∙ there);
        takes = λ may unreached.
            let listed =
              (seed-IsCollectible m.allocations.entries m (root_addresses registers) [] id
                  seeded').0
                (inr may) in
            let gone =
              (is_garbage id).1
                (listed, (λ r. unreached (subst (λ n. IsReachedId m n id) same' r))) in
            after ∙ missing (taken (subst (Memᴰ id) same gone));
      }
    where
      last :
          {x : Memory}
          → x ≡ m'
          → lookup id_eq id m'.allocations.entries ≡ lookup id_eq id x.allocations.entries
      last e = ap (λ y. lookup id_eq id y.allocations.entries) (sym e)

-- Every allocation that a consistent memory, whose marks fit the heap, reaches from the references in the
-- registers through marked words is still registered after a collection that succeeds, with the same
-- length, name, block and region; only the place where it starts on the heap may be another.
pub force_garbage_collection-keeps :
    (registers : List DataWord) (m m' : Memory) (id : ℕ) (a : Allocation)
    → IsConsistent m
    → unseen_marks [] m.allocations.entries ≤ 8 * length m.heap
    → force_garbage_collection registers m ≡ ok m'
    → IdMap.get id m.allocations ≡ some a
    → IsReachedId m (root_addresses registers) id
    → (start : ℕ) × (IdMap.get id m'.allocations ≡ some (record a { start = start }))
unfolding force_garbage_collection
force_garbage_collection-keeps registers m m' id a c fits done here reached =
    let ((next, collectible), seeded, _) =
      >>=-eq-ok (seed m.allocations.entries m (root_addresses registers) []) _ done in
    (collection c fits registers next collectible m' id seeded done).keeps a reached here

-- An allocation that may be collected, and that a consistent memory, whose marks fit the heap, does not
-- reach from the addresses that marking starts with, is gone after a collection that succeeds.
pub force_garbage_collection-takes :
    (registers : List DataWord) (m m' : Memory) (id : ℕ) (next collectible : List ℕ)
    → IsConsistent m
    → unseen_marks [] m.allocations.entries ≤ 8 * length m.heap
    → seed m.allocations.entries m (root_addresses registers) [] ≡ ok (next, collectible)
    → force_garbage_collection registers m ≡ ok m'
    → IsCollectible m.allocations.entries id
    → (IsReachedId m next id → ⊥)
    → IdMap.get id m'.allocations ≡ none
force_garbage_collection-takes registers m m' id next collectible c fits seeded done may unreached =
    (collection c fits registers next collectible m' id seeded done).takes may unreached
