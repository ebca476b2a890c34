-- ===== src/Interpreter/Memory/Allocator/Visit.antt =====
-- The sets of ids that marking of src/interpreter/memory.rs keeps, and the allocation that an id is of.
use mathlib.Core.List.{Memᴰ}
use mathlib.Core.List.Memᴰ
use mathlib.Core.Path.{subst}
use lakesis.Base.{
  ℕ, ◌≡◌, ◌≢◌, refl, sym, ap, ◌∙◌, ◌⊎◌, inl, inr, ◌↔◌, arith, Bool, Bool-cases, true, false, List,
  [], ◌∷◌, Option, none, some, ◌==◌, ==_iff, not, leb,
}
use lakesis.Base.Dict.{lookup}
use lakesis.Base.Distinct.{All}
use lakesis.Base.Result.{ok, ◌>>◌, guard, >>=-eq-ok, unwrap}
use lakesis.Core.{CoreResult, unmapped_memory}
use lakesis.Interpreter.Memory.IdMap
use lakesis.Interpreter.Memory.IdMap.{id_eq}
use lakesis.Interpreter.Memory.Mapper.{translate}
use lakesis.Interpreter.Memory.Store.{Allocation, Memory, addr_to_allocation}
use lakesis.Interpreter.Memory.Allocator.{contains, discard}

pub ==-cases : (a b : ℕ) → (((a == b) ≡ true) × (a ≡ b)) ⊎ (((a == b) ≡ false) × (a ≢ b))
==-cases a b = elim (Bool-cases (a == b)) [
  | inl same ↦ inl (same, (==_iff a b).0 same)
  | inr other ↦ inr (other, different other)
]
  where
    different : (a == b) ≡ false → a ≢ b
    different other e = absurd (ground (arith, other, e))

pub contains_iff : (k : ℕ) (xs : List ℕ) → (contains k xs ≡ true) ↔ Memᴰ k xs
unfolding contains
contains_iff k [] = ((λ h. cc), (λ t. absurd (Memᴰ.not-nil t)))
contains_iff k (x ∷ xs) = elim (==-cases x k) [
  | inl (same, e) ↦ ((λ h. Memᴰ.head (sym e)), (λ t. rw same refl))
  | inr (other, ne) ↦ (
    (λ h. Memᴰ.tail ((contains_iff k xs).0 (rw other at h))),
    (λ t. elim (Memᴰ.cases_cons t) [
      | inl e ↦ absurd (ne (sym e))
      | inr u ↦ rw other ((contains_iff k xs).1 u)
    ]),
  )
]

pub discard_iff : (j k : ℕ) (xs : List ℕ) → Memᴰ j (discard k xs) ↔ (Memᴰ j xs × (j ≢ k))
unfolding discard
discard_iff j k [] = ((λ t. absurd (Memᴰ.not-nil t)), (λ t. absurd (Memᴰ.not-nil t.0)))
discard_iff j k (x ∷ xs) = elim (==-cases x k) [
  | inl (same, e) ↦ rw same (
    (λ t. let (u, ne) = (discard_iff j k xs).0 t in (Memᴰ.tail u, ne)),
    (λ t. elim (Memᴰ.cases_cons t.0) [
      | inl is ↦ absurd (t.1 (is ∙ e))
      | inr u ↦ (discard_iff j k xs).1 (u, t.1)
    ]),
  )
  | inr (other, ne) ↦ rw other (
    (λ t. elim (Memᴰ.cases_cons t) [
      | inl is ↦ (Memᴰ.head is, (λ e. ne (sym is ∙ e)))
      | inr u ↦ (let (v, ne') = (discard_iff j k xs).0 u in (Memᴰ.tail v, ne'))
    ]),
    (λ t. elim (Memᴰ.cases_cons t.0) [
      | inl is ↦ Memᴰ.head is
      | inr u ↦ Memᴰ.tail ((discard_iff j k xs).1 (u, t.1))
    ]),
  )
]

-- Each allocation is kept under its id.
abbrev pub HaveIds : Memory → Type 0
HaveIds m = All (λ e. e.1.id ≡ e.0) m.allocations.entries

lookup-HaveIds :
    (id : ℕ) (entries : List (ℕ × Allocation)) {a : Allocation}
    → All (λ e. e.1.id ≡ e.0) entries
    → lookup id_eq id entries ≡ some a
    → a.id ≡ id
unfolding lookup
lookup-HaveIds id [] h e = cc
lookup-HaveIds id ((j, b) ∷ entries) {a} (hb, hs) e = elim (==-cases j id) [
  | inl (same, j_is) ↦
      (let e' : some b ≡ some a = rw same at e in
        let is : b ≡ a = cc in ap (λ x. x.id) (sym is) ∙ hb ∙ j_is)
  | inr (other, ne) ↦ lookup-HaveIds id entries hs (rw other at e)
]

unwrap-eq-ok :
    {A : Type 0} (o : Option A) {a : A} → ◌≡◌ {A = CoreResult A} (unwrap o) (ok a) → o ≡ some a
unwrap-eq-ok none h = cc
unwrap-eq-ok (some b) h = cc

pub addr_to_allocation-get :
    (addr : ℕ) (m : Memory) {a : Allocation} {offset : ℕ}
    → HaveIds m
    → addr_to_allocation addr m ≡ ok (a, offset)
    → IdMap.get a.id m.allocations ≡ some a
unfolding addr_to_allocation IdMap.get
addr_to_allocation-get addr m {a} {offset} ids h =
    let ((id, offset'), _, h₁) = >>=-eq-ok (translate addr m.virtual_mapper) _ h in
    let (b, found, h₂) = >>=-eq-ok (unwrap (lookup id_eq id m.allocations.entries)) _ h₁ in
    let is : b ≡ a = last (not (leb b.data_length offset')) b offset' h₂ in
    let found' : lookup id_eq id m.allocations.entries ≡ some a =
      unwrap-eq-ok _ found ∙ ap some is in
    subst (λ k. lookup id_eq k m.allocations.entries ≡ some a)
      (sym (lookup-HaveIds id m.allocations.entries ids found')) found'
  where
    last :
        (c : Bool) (b : Allocation) (o : ℕ)
        → ◌≡◌ {A = CoreResult (Allocation × ℕ)}
            (◌>>◌ {B = Allocation × ℕ} (guard c unmapped_memory) (ok (b, o)))
            (ok (a, offset))
        → b ≡ a
    last false b o e = cc
    last true b o e = cc

-- Addresses in allocations with the same id are in the same allocation.
pub addr_to_allocation-same :
    (addr addr' : ℕ) (m : Memory) {a a' : Allocation} {offset offset' : ℕ}
    → HaveIds m
    → addr_to_allocation addr m ≡ ok (a, offset)
    → addr_to_allocation addr' m ≡ ok (a', offset')
    → a.id ≡ a'.id
    → a ≡ a'
addr_to_allocation-same addr addr' m {a} {a'} ids h h' same =
    let e = addr_to_allocation-get addr m ids h in
    let e' = addr_to_allocation-get addr' m ids h' in
    let both : some a ≡ some a' = sym e ∙ ap (λ k. IdMap.get k m.allocations) same ∙ e' in cc
