-- ===== src/Interpreter/Memory/Allocator/Survival.antt =====
-- What is left of the allocations behind `force_garbage_collection` of src/interpreter/memory.rs.
use mathlib.Core.List.{Memᴰ}
use mathlib.Core.List.Memᴰ
use mathlib.Core.Path.{subst}
use lakesis.Base.{
  ℕ, ◌≡◌, refl, sym, ap, ◌∙◌, ◌⊎◌, inl, inr, Bool-cases, true, false, List, [], ◌∷◌, none, some,
  ◌==◌, ==_iff, if◌then◌else◌,
}
use lakesis.Base.Dict.{lookup, remove}
use lakesis.Base.Dict.Laws.{lookup-remove}
use lakesis.Base.Result.{ok, ◌>>=◌, >>=-eq-ok, unwrap, ok_or}
use lakesis.Interpreter.Memory.IdMap
use lakesis.Interpreter.Memory.IdMap.{id_eq}
use lakesis.Interpreter.Memory.Mapper.{get_block, unmap}
use lakesis.Interpreter.Memory.Regions
use lakesis.Interpreter.Memory.Regions.{HeapRegions}
use lakesis.Interpreter.Memory.Store.{Allocation, Memory}
use lakesis.Interpreter.Memory.Allocator.{contains, deallocate, deallocate_all, seed, relocate}
use lakesis.Interpreter.Memory.Allocator.Visit.{==-cases, contains_iff}

true_is_not : true ≡ false → ⊥
true_is_not e = cc

deallocate-get :
    (gone id : ℕ) (m : Memory) {m' : Memory}
    → deallocate gone m ≡ ok m'
    → IdMap.get id m'.allocations ≡ (if gone == id then none else IdMap.get id m.allocations)
unfolding deallocate IdMap.get IdMap.remove
deallocate-get gone id m {m'} h =
    let (a, _, h₁) = >>=-eq-ok (ok_or (lookup id_eq gone m.allocations.entries) _) _ h in
    let (mapper, _, h₂) = >>=-eq-ok (unmap a.virtual_block m.virtual_mapper) _ h₁ in
    let (regions, _, h₃) = >>=-eq-ok (Regions.deallocate a.region m.regions) _ h₂ in
    let is : record m {
      virtual_mapper = mapper;
      regions = regions;
      allocations = record (m.allocations) { entries = remove id_eq gone m.allocations.entries };
    }
        ≡ m' =
      cc in
    ap (λ x. lookup id_eq id x.allocations.entries) (sym is)
    ∙ lookup-remove id_eq ==_iff gone id m.allocations.entries

-- Releasing some ids takes these away and keeps the others.
pub deallocate_all-get :
    (ids : List ℕ) (id : ℕ) (m : Memory) {m' : Memory}
    → deallocate_all ids m ≡ ok m'
    → (Memᴰ id ids → IdMap.get id m'.allocations ≡ none)
      × ((Memᴰ id ids → ⊥) → IdMap.get id m'.allocations ≡ IdMap.get id m.allocations)
unfolding deallocate_all
deallocate_all-get [] id m {m'} h =
    let same : m ≡ m' = cc in
    ((λ t. absurd (Memᴰ.not-nil t)), (λ other. ap (λ x. IdMap.get id x.allocations) (sym same)))
deallocate_all-get (gone ∷ ids) id m {m'} h =
    let (m₁, freed, h₁) = >>=-eq-ok (deallocate gone m) _ h in
    let (taken, kept) = deallocate_all-get ids id m₁ h₁ in
    let here = deallocate-get gone id m freed in
    (
      (λ t. elim (Bool-cases (contains id ids)) [
        | inl inside ↦ taken ((contains_iff id ids).0 inside)
        | inr outside ↦ elim (Memᴰ.cases_cons t) [
          | inl is ↦ kept (not_in outside) ∙ here ∙ rw ((==_iff gone id).1 (sym is)) refl
          | inr u ↦ taken u
        ]
      ]),
      (λ other. kept (λ u. other (Memᴰ.tail u)) ∙ here ∙ elim (==-cases gone id) [
        | inl (_, is) ↦ absurd (other (Memᴰ.head (sym is)))
        | inr (apart, _) ↦ rw apart refl
      ]),
    )
  where
    not_in : contains id ids ≡ false → Memᴰ id ids → ⊥
    not_in outside u = absurd (true_is_not (sym ((contains_iff id ids).1 u) ∙ outside))

-- Relocating changes the starts of the allocations only.
pub relocate-lookup :
    (entries : List (ℕ × Allocation)) (h : HeapRegions) (id : ℕ) {entries' : List (ℕ × Allocation)}
    → relocate entries h ≡ ok entries'
    → ((a : Allocation)
        → lookup id_eq id entries ≡ some a
        → (start : ℕ) × (lookup id_eq id entries' ≡ some (record a { start = start })))
      × (lookup id_eq id entries ≡ none → lookup id_eq id entries' ≡ none)
unfolding relocate lookup
relocate-lookup [] h id {entries'} done =
    let same : [] ≡ entries' = cc in ((λ a e. cc), (λ e. ap (lookup id_eq id) (sym same)))
relocate-lookup ((j, a) ∷ entries) h id {entries'} done =
    let (r, _, done₁) = >>=-eq-ok (unwrap (Regions.get a.region h)) _ done in
    let (rest, relocated, done₂) = >>=-eq-ok (relocate entries h) _ done₁ in
    let whole : (j, record a { start = r.base }) ∷ rest ≡ entries' = cc in
    let (found, missing) = relocate-lookup entries h id relocated in
    elim (==-cases j id) [
      | inl (same, _) ↦ (
        (λ b e.
            let e' : some a ≡ some b = rw same at e in
            let is : a ≡ b = cc in
            (
              r.base,
              ap (lookup id_eq id) (sym whole)
                  ∙ rw same (ap {A = Allocation} (λ x. some (record x { start = r.base })) is),
            )),
        (λ e. absurd (some_is_not (rw same at e))),
      )
      | inr (other, _) ↦ (
        (λ b e.
            let (start, there) = found b (rw other at e) in
            (start, ap (lookup id_eq id) (sym whole) ∙ rw other there)),
        (λ e. ap (lookup id_eq id) (sym whole) ∙ rw other (missing (rw other at e))),
      )
    ]
  where
    some_is_not : some a ≡ none → ⊥
    some_is_not e = cc

-- An id of an entry that may be collected.
abbrev pub IsCollectible : List (ℕ × Allocation) → ℕ → Type 0
IsCollectible entries id = (a : Allocation) × Memᴰ (id, a) entries × (a.is_collectible ≡ true)

-- The ids that may be collected are those of the entries that may, and no address leaves the stack.
pub seed-IsCollectible :
    (entries : List (ℕ × Allocation)) (m : Memory) (next collectible : List ℕ) (id : ℕ)
    {next' collectible' : List ℕ}
    → seed entries m next collectible ≡ ok (next', collectible')
    → (Memᴰ id collectible ⊎ IsCollectible entries id → Memᴰ id collectible')
      × (Memᴰ id next → Memᴰ id next')
unfolding seed
seed-IsCollectible [] m next collectible id {next'} {collectible'} done =
    let same : collectible ≡ collectible' = cc in
    let same' : next ≡ next' = cc in
    (
      (λ t. elim t [ inl u ↦ subst (Memᴰ id) same u | inr (a, v, _) ↦ absurd (Memᴰ.not-nil v) ]),
      (λ t. subst (Memᴰ id) same' t),
    )
seed-IsCollectible ((j, a) ∷ entries) m next collectible id {next'} {collectible'} done =
    elim (Bool-cases a.is_collectible) [
      | inl may ↦
          (let done' : seed entries m next (j ∷ collectible) ≡ ok (next', collectible') =
              rw (seed, may) at done in
            let (ids, addrs) = seed-IsCollectible entries m next (j ∷ collectible) id done' in
            (
              (λ t. elim t [
                | inl u ↦ ids (inl (Memᴰ.tail u))
                | inr (b, v, k) ↦ elim (Memᴰ.cases_cons v) [
                  | inl e ↦ ids (inl (Memᴰ.head (ap (λ p. p.0) e)))
                  | inr w ↦ ids (inr (b, w, k))
                ]
              ]),
              addrs,
            ))
      | inr stays ↦
          (let done' : (unwrap (get_block a.virtual_block m.virtual_mapper) >>= λ b.
          seed entries m (b.base ∷ next) collectible)
                ≡ ok (next', collectible') =
              rw (seed, stays) at done in
            let (b, _, rest) =
              >>=-eq-ok (unwrap (get_block a.virtual_block m.virtual_mapper)) _ done' in
            let (ids, addrs) = seed-IsCollectible entries m (b.base ∷ next) collectible id rest in
            (
              (λ t. elim t [
                | inl u ↦ ids (inl u)
                | inr (b, v, k) ↦ elim (Memᴰ.cases_cons v) [
                  | inl e ↦ absurd (true_is_not (sym k ∙ ap (λ p. p.1.is_collectible) e ∙ stays))
                  | inr w ↦ ids (inr (b, w, k))
                ]
              ]),
              (λ t. addrs (Memᴰ.tail t)),
            ))
    ]
