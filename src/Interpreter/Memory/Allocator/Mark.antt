-- ===== src/Interpreter/Memory/Allocator/Mark.antt =====
-- The loop of `force_garbage_collection` of src/interpreter/memory.rs that marks allocations.
use mathlib.Core.List.{Memᴰ}
use mathlib.Core.List.Memᴰ
use mathlib.Core.Path.{subst}
use lakesis.Base.{ℕ, zero, suc, ◌≡◌, refl, sym, ◌∙◌, ◌⊎◌, inl, inr, ◌↔◌, Bool-cases, List, [], ◌∷◌}
use lakesis.Base.Result.{ok, err, panic, ◌>>=◌, >>=-eq-ok, Result-cases}
use lakesis.Core.{Error, CoreResult}
use lakesis.Interpreter.Memory.Store.{Allocation, Memory, addr_to_allocation}
use lakesis.Interpreter.Memory.Allocator.{contains, discard, mark_loop, push_allocation}
use lakesis.Interpreter.Memory.Allocator.Reach.{
  RefersTo, IsReached, IsReachedId, root, follow, push_allocation-RefersTo,
}
use lakesis.Interpreter.Memory.Allocator.Visit.{
  HaveIds, contains_iff, discard_iff, addr_to_allocation-same,
}

-- An address whose allocation, if it has one, is visited.
abbrev pub IsDone : Memory → List ℕ → ℕ → Type 0
IsDone m visited addr =
    (a : Allocation) (offset : ℕ) → addr_to_allocation addr m ≡ ok (a, offset) → Memᴰ a.id visited

-- What holds between the rounds: the stack and the visited ids are reached, and what the roots and the
-- visited allocations refer to is on the stack or done.
pub record Marking (m : Memory) (roots next visited : List ℕ) : Type 0 where
  reached : (addr : ℕ) → Memᴰ addr next → IsReached m roots addr
  visits : (id : ℕ) → Memᴰ id visited → IsReachedId m roots id
  rooted : (addr : ℕ) → Memᴰ addr roots → Memᴰ addr next ⊎ IsDone m visited addr
  closed :
      (addr offset target : ℕ) (a : Allocation)
      → addr_to_allocation addr m ≡ ok (a, offset)
      → Memᴰ a.id visited
      → RefersTo a m.heap target
      → Memᴰ target next ⊎ IsDone m visited target

-- The ids that are left are those that may be collected and are not visited.
abbrev pub Leaves : List ℕ → List ℕ → List ℕ → Type 0
Leaves all visited collectible =
    (id : ℕ) → Memᴰ id collectible ↔ (Memᴰ id all × (Memᴰ id visited → ⊥))

IsDone-visited :
    (m : Memory) (addr : ℕ) {offset : ℕ} {visited : List ℕ} {a : Allocation}
    → addr_to_allocation addr m ≡ ok (a, offset)
    → Memᴰ a.id visited
    → IsDone m visited addr
IsDone-visited m addr {offset = offset} {visited = visited} {a = a} found t b o at =
    let both : ◌≡◌ {A = CoreResult (Allocation × ℕ)} (ok (a, offset)) (ok (b, o)) =
      sym found ∙ at in
    let same : a ≡ b = cc in subst (λ c. Memᴰ c.id visited) same t

Leaves-visit :
    {all visited collectible : List ℕ} (id : ℕ)
    → Leaves all visited collectible
    → Leaves all (id ∷ visited) (discard id collectible)
Leaves-visit {all} {visited} {collectible} id leaves j = (
  (λ t.
      let (u, other) = (discard_iff j id collectible).0 t in
      let (may, unseen) = (leaves j).0 u in
      (may, (λ v. elim (Memᴰ.cases_cons v) [ inl is ↦ other is | inr old ↦ unseen old ]))),
  (λ t.
      (discard_iff j id collectible).1
        ((leaves j).1 (t.0, (λ v. t.1 (Memᴰ.tail v))), (λ e. t.1 (Memᴰ.head e)))),
)

module _ {m : Memory} {roots : List ℕ} where
  pub Marking-start : Marking m roots roots []
  Marking-start = record {
    reached = λ addr t. root t;
    visits = λ id t. absurd (Memᴰ.not-nil t);
    rooted = λ addr t. inl t;
    closed = λ addr offset target a found t. absurd (Memᴰ.not-nil t);
  }

  -- An address that is done leaves the stack.
  Marking-pop :
      {addr : ℕ} {next visited : List ℕ}
      → IsDone m visited addr
      → Marking m roots (addr ∷ next) visited
      → Marking m roots next visited
  Marking-pop {addr} {next} {visited} done k = record {
    reached = λ x t. k.reached x (Memᴰ.tail t);
    visits = k.visits;
    rooted = λ x t. pass x (k.rooted x t);
    closed =
        λ x offset target a found t refers. pass target (k.closed x offset target a found t refers);
  }
    where
      pass : (x : ℕ) → Memᴰ x (addr ∷ next) ⊎ IsDone m visited x → Memᴰ x next ⊎ IsDone m visited x
      pass x (inr other) = inr other
      pass x (inl t) = elim (Memᴰ.cases_cons t) [
        | inl is ↦ inr (subst (IsDone m visited) (sym is) done)
        | inr u ↦ inl u
      ]

  -- An allocation is visited.
  Marking-visit :
      {addr offset : ℕ} {next next' visited : List ℕ} {a : Allocation}
      → HaveIds m
      → addr_to_allocation addr m ≡ ok (a, offset)
      → push_allocation a m next ≡ ok next'
      → Marking m roots (addr ∷ next) visited
      → Marking m roots next' (a.id ∷ visited)
  Marking-visit {addr} {offset} {next} {next'} {visited} {a} ids found pushed k = record {
    reached = λ x t. elim ((pushes x).0 t) [
      | inl old ↦ k.reached x (Memᴰ.tail old)
      | inr refers ↦ follow here found refers
    ];
    visits = λ id t. elim (Memᴰ.cases_cons t) [
      | inl is ↦ (addr, a, offset, found, sym is, here)
      | inr old ↦ k.visits id old
    ];
    rooted = λ x t. pass x (k.rooted x t);
    closed = λ x o target b at t refers. elim (Memᴰ.cases_cons t) [
      | inl is ↦
          (let same : b ≡ a = addr_to_allocation-same x addr m ids at found is in
            inl ((pushes target).1 (inr (subst (λ c. RefersTo c m.heap target) same refers))))
      | inr old ↦ pass target (k.closed x o target b at old refers)
    ];
  }
    where
      here : IsReached m roots addr
      here = k.reached addr (Memᴰ.head refl)

      pushes : (x : ℕ) → Memᴰ x next' ↔ (Memᴰ x next ⊎ RefersTo a m.heap x)
      pushes x = push_allocation-RefersTo a m next x pushed

      done : IsDone m (a.id ∷ visited) addr
      done = IsDone-visited m addr found (Memᴰ.head refl)

      pass :
          (x : ℕ)
          → Memᴰ x (addr ∷ next) ⊎ IsDone m visited x
          → Memᴰ x next' ⊎ IsDone m (a.id ∷ visited) x
      pass x (inr other) = inr (λ b o at. Memᴰ.tail (other b o at))
      pass x (inl t) = elim (Memᴰ.cases_cons t) [
        | inl is ↦ inr (subst (IsDone m (a.id ∷ visited)) (sym is) done)
        | inr u ↦ inl ((pushes x).1 (inl u))
      ]

  -- With an empty stack, the visited ids are those of the allocations reached.
  Marking-end :
      {visited : List ℕ}
      → Marking m roots [] visited
      → (id : ℕ) → Memᴰ id visited ↔ IsReachedId m roots id
  Marking-end {visited} k id = (k.visits id, back)
    where
      no_stack : {x : ℕ} → Memᴰ x [] ⊎ IsDone m visited x → IsDone m visited x
      no_stack (inl t) = absurd (Memᴰ.not-nil t)
      no_stack (inr d) = d

      all_done : {addr : ℕ} → IsReached m roots addr → IsDone m visited addr
      all_done (root {addr} t) = no_stack (k.rooted addr t)
      all_done (follow {addr} {offset} {target} {a} before found refers) =
          no_stack (k.closed addr offset target a found (all_done before a offset found) refers)

      back : IsReachedId m roots id → Memᴰ id visited
      back (addr, a, offset, found, is, r) =
          subst (λ j. Memᴰ j visited) is (all_done r a offset found)

  -- What a finished loop leaves.
  pub mark_loop-Marking :
      (fuel : ℕ) (next visited collectible : List ℕ) {all garbage : List ℕ}
      → HaveIds m
      → Marking m roots next visited
      → Leaves all visited collectible
      → mark_loop fuel next visited collectible m ≡ ok garbage
      → (id : ℕ) → Memᴰ id garbage ↔ (Memᴰ id all × (IsReachedId m roots id → ⊥))
  unfolding mark_loop
  mark_loop-Marking fuel [] visited collectible {all} {garbage} ids k leaves h id =
      let same : collectible ≡ garbage = cc in
      (
        (λ t.
            let (may, unseen) = (leaves id).0 (subst (Memᴰ id) (sym same) t) in
            (may, (λ r. unseen ((Marking-end k id).1 r)))),
        (λ t. subst (Memᴰ id) same ((leaves id).1 (t.0, (λ v. t.1 ((Marking-end k id).0 v))))),
      )
  mark_loop-Marking zero (addr ∷ next) visited collectible ids k leaves h id = cc
  mark_loop-Marking (suc fuel) (addr ∷ next) visited collectible {all} {garbage} ids k leaves h id =
      elim (Result-cases (addr_to_allocation addr m)) [
        | inl ((a, offset), found) ↦ elim (Bool-cases (contains a.id visited)) [
          | inl old ↦
              (let seen : IsDone m visited addr =
                  IsDone-visited m addr found ((contains_iff a.id visited).0 old) in
                mark_loop-Marking fuel next visited collectible ids (Marking-pop seen k) leaves
                  (rw (mark_loop, found, old) at h) id)
          | inr new ↦
              (let h' : (push_allocation a m next >>= λ next'.
              mark_loop fuel next' (a.id ∷ visited) (discard a.id collectible) m)
                    ≡ ok garbage =
                  rw (mark_loop, found, new) at h in
                let (next', pushed, rest) = >>=-eq-ok (push_allocation a m next) _ h' in
                mark_loop-Marking fuel next' (a.id ∷ visited) (discard a.id collectible) ids
                  (Marking-visit ids found pushed k) (Leaves-visit a.id leaves) rest id)
        ]
        | inr (inl (e, missed)) ↦
            (let nowhere : IsDone m visited addr = λ b o at. absurd (not_both missed at) in
              mark_loop-Marking fuel next visited collectible ids (Marking-pop nowhere k) leaves
                (rw (mark_loop, missed) at h) id)
        | inr (inr stopped) ↦ absurd (not_ok (rw (mark_loop, stopped) at h))
      ]
    where
      not_both :
          {r : CoreResult (Allocation × ℕ)} {e : Error} {b : Allocation × ℕ}
          → r ≡ err e
          → r ≡ ok b
          → ⊥
      not_both p q = cc

      not_ok : ◌≡◌ {A = CoreResult (List ℕ)} panic (ok garbage) → ⊥
      not_ok p = cc
