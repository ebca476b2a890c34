-- ===== src/Interpreter/Memory/Allocator/Collected.antt =====
-- What `force_garbage_collection` of src/interpreter/memory.rs finds to be garbage.
use mathlib.Core.List.{Memᴰ}
use mathlib.Core.List.Memᴰ
use mathlib.Core.Path.{subst}
use lakesis.Base.{
  ℕ, zero, suc, ◌+◌, ◌*◌, ◌≤◌, ◌≡◌, refl, inl, inr, ◌↔◌, arith, Bool-cases, false, List, [], ◌∷◌,
  length, some, ==_refl, if◌then◌else◌,
}
use lakesis.Base.Dict.{lookup}
use lakesis.Base.Result.{ok, panic, Result-cases, Returns, Returns-ok}
use lakesis.Core.{Error}
use lakesis.Interpreter.Memory.IdMap
use lakesis.Interpreter.Memory.IdMap.{id_eq}
use lakesis.Interpreter.Memory.Store.{Allocation, Memory, addr_to_allocation}
use lakesis.Interpreter.Memory.Allocator.{contains, discard, mark_loop, mark_fuel}
use lakesis.Interpreter.Memory.Allocator.Reach.{IsReachedId}
use lakesis.Interpreter.Memory.Allocator.Visit.{==-cases, addr_to_allocation-get}
use lakesis.Interpreter.Memory.Allocator.Mark.{Marking-start, mark_loop-Marking}
use lakesis.Interpreter.Memory.Allocator.Scan.{
  IsConsistent, IsScannable, marks_len, addr_to_allocation-Returns, push_allocation-ok,
}

-- The bits of the marks of the allocations that are not visited.
unfoldable pub unseen_marks : List ℕ → List (ℕ × Allocation) → ℕ
unseen_marks visited [] = 0
unseen_marks visited ((id, a) ∷ entries) =
    let rest = unseen_marks visited entries in
    if contains a.id visited then rest else 8 * marks_len a + rest

unseen_marks-cons :
    (id : ℕ) (visited : List ℕ) (entries : List (ℕ × Allocation))
    → unseen_marks (id ∷ visited) entries ≤ unseen_marks visited entries
unfolding unseen_marks contains
unseen_marks-cons id visited [] = omega arith
unseen_marks-cons id visited ((j, a) ∷ entries) =
    ground (arith, unseen_marks-cons id visited entries)

unseen_marks-visit :
    (id : ℕ) (visited : List ℕ) (entries : List (ℕ × Allocation)) {a : Allocation}
    → lookup id_eq id entries ≡ some a
    → contains a.id visited ≡ false
    → unseen_marks (a.id ∷ visited) entries + 8 * marks_len a ≤ unseen_marks visited entries
unfolding unseen_marks lookup contains
unseen_marks-visit id visited [] h new = cc
unseen_marks-visit id visited ((j, b) ∷ entries) {a} h new = elim (==-cases j id) [
  | inl (same, j_is) ↦
      (let h' : some b ≡ some a = rw same at h in
        let is : b ≡ a = cc in
        let rest = unseen_marks-cons a.id visited entries in
        rw (is, ==_refl a.id, new) (omega (arith, rest)))
  | inr (other, ne) ↦
      (let rest = unseen_marks-visit id visited entries {a = a} (rw other at h) new in
        ground (arith, rest))
]

module _ {m : Memory} (c : IsConsistent m) where
  mark_loop-ok :
      (fuel : ℕ) (next visited collectible : List ℕ)
      → length next + unseen_marks visited m.allocations.entries ≤ fuel
      → (garbage : List ℕ) × (mark_loop fuel next visited collectible m ≡ ok garbage)
  unfolding mark_loop
  mark_loop-ok fuel [] visited collectible h = (collectible, refl)
  mark_loop-ok zero (addr ∷ next) visited collectible h = absurd (omega arith)
  mark_loop-ok (suc fuel) (addr ∷ next) visited collectible h =
      elim (Result-cases (addr_to_allocation addr m)) [
        | inl ((a, offset), found) ↦ elim (Bool-cases (contains a.id visited)) [
          | inl old ↦
              (let (garbage, done) = mark_loop-ok fuel next visited collectible (omega arith) in
                (garbage, rw (mark_loop, found, old) done))
          | inr new ↦
              (let scannable : IsScannable m.heap a =
                  Returns-ok (addr_to_allocation-Returns c addr) found in
                let (next', pushed, few) = push_allocation-ok c a next scannable in
                let there = addr_to_allocation-get addr m c.ids found in
                let less =
                  unseen_marks-visit a.id visited m.allocations.entries {a = a}
                    (unfold IdMap.get in there) new in
                let (garbage, done) =
                  mark_loop-ok fuel next' (a.id ∷ visited) (discard a.id collectible)
                    (omega (arith, few, less)) in
                (garbage, rw (mark_loop, found, new, pushed) done))
        ]
        | inr (inl (e, missed)) ↦
            (let (garbage, done) = mark_loop-ok fuel next visited collectible (omega arith) in
              (garbage, rw (mark_loop, missed) done))
        | inr (inr stopped) ↦ absurd (
            returned (
              subst (Returns (λ p. IsScannable m.heap p.0)) stopped
                (addr_to_allocation-Returns c addr)))
      ]
    where
      returned : Returns {E = Error} {A = Allocation × ℕ} (λ p. IsScannable m.heap p.0) panic → ⊥
      returned r = elim r [ ]

  -- In a consistent memory whose marks all fit the heap, marking from some addresses ends, and what it
  -- leaves of the ids that may be collected are exactly those of which no allocation can be reached
  -- from these addresses through marked words.
  pub mark_loop-IsReachedId :
      (roots collectible : List ℕ)
      → unseen_marks [] m.allocations.entries ≤ 8 * length m.heap
      → (garbage : List ℕ) × (mark_loop (mark_fuel roots m) roots [] collectible m ≡ ok garbage)
        × ((id : ℕ) → Memᴰ id garbage ↔ (Memᴰ id collectible × (IsReachedId m roots id → ⊥)))
  mark_loop-IsReachedId roots collectible fits =
      let (garbage, done) =
        mark_loop-ok (mark_fuel roots m) roots [] collectible (omega (arith, fits)) in
      (
        garbage,
        done,
        mark_loop-Marking (mark_fuel roots m) roots [] collectible c.ids Marking-start
            (λ id. ((λ t. (t, (λ v. absurd (Memᴰ.not-nil v)))), (λ t. t.0))) done,
      )
