-- ===== src/Interpreter/Memory/Mapper/Translate.antt =====
-- Addresses of a block that was just mapped translate to its allocation.
use lakesis.Base.{
  le→leb, lt→ltb, ℕ, zero, suc, ◌+◌, ◌*◌, ◌/◌, ◌%◌, ◌^◌, ◌≤◌, ◌≡◌, refl, ap, ◌∙◌, sym, List, [],
  ◌∷◌, Option, none, some, arith, ◌==◌, ==_iff, ==_refl, if◌then◌else◌, Bool-cases, inl, inr, ltb,
  leb, ◌&&◌,
}
use lakesis.Core.{Error}
use lakesis.Base.Words.{add_uword}
use lakesis.Base.Dict.{lookup, insert as insert_key}
use lakesis.Base.Dict.Laws.{lookup-insert}
use lakesis.Base.Result.{ok, >>=-eq-ok}
use lakesis.Interpreter.Memory.IdMap
use lakesis.Interpreter.Memory.IdMap.{id_eq}
use lakesis.Interpreter.Memory.Sizes.{round_down_to}
use lakesis.Interpreter.Memory.Mapper.{
  VirtualAddressMapper, VirtualAddressMapping, virtual_page_size, pages_from, pages_of, map_pages,
  map_block, prefer, translate, new_block,
}

abbrev mapping_of : ℕ → ℕ → VirtualAddressMapping
mapping_of block page = record { block = block; offset = page * virtual_page_size }

page_case :
    (block base n page k : ℕ) (old : Option VirtualAddressMapping)
    → (if leb (suc page) k && ltb k (suc page + n)
        then some (mapping_of block k)
        else (if id_eq (base + page * virtual_page_size) (base + k * virtual_page_size)
            then some (mapping_of block page)
            else old))
      ≡ (if leb page k && ltb k (page + suc n) then some (mapping_of block k) else old)
page_case block base n page k old = elim (Bool-cases (page == k)) [
  | inl e ↦ let same = (==_iff page k).0 e in ground arith
  | inr e ↦ ground arith
]

-- The pages and the mapper that the loops give where no address is too large.
unfoldable page_list : ℕ → ℕ → ℕ → List (ℕ × ℕ)
page_list base page zero = []
page_list base page (suc n) = (page, base + page * virtual_page_size) ∷ page_list base (suc page) n

unfoldable with_pages : ℕ → List (ℕ × ℕ) → VirtualAddressMapper → VirtualAddressMapper
with_pages block [] v = v
with_pages block ((page, addr) ∷ ps) v = with_pages block ps (record v {
  mappings = insert_key id_eq addr (mapping_of block page) v.mappings;
  next_address = v.next_address + virtual_page_size;
})

add_uword-eq-ok : (a b : ℕ) {c : ℕ} → add_uword {E = Error} a b ≡ ok c → a + b ≡ c
unfolding add_uword
add_uword-eq-ok a b h = elim (Bool-cases (ltb (a + b) (2 ^ 64))) [
  | inl e ↦ let h' = rw e at h in cc
  | inr e ↦ let h' = rw e at h in cc
]

pages_from-eq-ok :
    (base page n : ℕ) {ps : List (ℕ × ℕ)}
    → pages_from base page n ≡ ok ps
    → page_list base page n ≡ ps
unfolding pages_from page_list
pages_from-eq-ok base page zero h = cc
pages_from-eq-ok base page (suc n) {ps} h =
    let (addr, added, h₁) = >>=-eq-ok (add_uword base (page * virtual_page_size)) _ h in
    let (rest, listed, h₂) = >>=-eq-ok (pages_from base (suc page) n) _ h₁ in
    let first = add_uword-eq-ok base (page * virtual_page_size) added in
    let behind = pages_from-eq-ok base (suc page) n listed in
    let all : (page, addr) ∷ rest ≡ ps = cc in
    ap (λ a. (page, a) ∷ page_list base (suc page) n) first
    ∙ ap (λ r. (page, addr) ∷ r) behind
    ∙ all

map_pages-eq-ok :
    (block : ℕ) (ps : List (ℕ × ℕ)) (v : VirtualAddressMapper) {v' : VirtualAddressMapper}
    → map_pages block ps v ≡ ok v'
    → with_pages block ps v ≡ v'
unfolding map_pages with_pages
map_pages-eq-ok block [] v h = cc
map_pages-eq-ok block ((page, addr) ∷ ps) v h =
    let (next, added, h₁) = >>=-eq-ok (add_uword v.next_address virtual_page_size) _ h in
    let is = add_uword-eq-ok v.next_address virtual_page_size added in
    ap
      (λ x. with_pages block ps (record v {
        mappings = insert_key id_eq addr (mapping_of block page) v.mappings;
        next_address = x;
      }))
      is
    ∙ map_pages-eq-ok block ps _ h₁

-- The pages from `page` on change the mappings of their own addresses only.
with_pages-lookup :
    (block base n page : ℕ) (v : VirtualAddressMapper) (k : ℕ)
    → lookup id_eq
        (base + k * virtual_page_size)
        (with_pages block (page_list base page n) v).mappings
      ≡ (if leb page k && ltb k (page + n)
          then some (mapping_of block k)
          else lookup id_eq (base + k * virtual_page_size) v.mappings)
unfolding with_pages page_list
with_pages-lookup block base zero page v k = ground arith
with_pages-lookup block base (suc n) page v k =
    with_pages-lookup block base n (suc page) _ k
    ∙ ap
        (λ old. if leb (suc page) k && ltb k (suc page + n) then some (mapping_of block k) else old)
        (lookup-insert id_eq ==_iff (base + page * virtual_page_size) (base + k * virtual_page_size)
          (mapping_of block page) v.mappings)
    ∙ page_case block base n page k _

with_pages-rest :
    (block base n page : ℕ) (v : VirtualAddressMapper)
    → ((with_pages block (page_list base page n) v).blocks ≡ v.blocks)
      × ((with_pages block (page_list base page n) v).next_address
          ≡ v.next_address + n * virtual_page_size)
unfolding with_pages page_list
with_pages-rest block base zero page v = (refl, omega arith)
with_pages-rest block base (suc n) page v =
    let (same, next) = with_pages-rest block base n (suc page) _ in (same, next ∙ omega arith)

-- The mapper that `map` gives after it has looked at the preferred base.
abbrev mapped : ℕ → ℕ → VirtualAddressMapper → VirtualAddressMapper
mapped size allocation v =
    with_pages v.blocks.next_id (page_list v.next_address 0 (suc (size / virtual_page_size)))
      (record v { blocks = IdMap.insert (new_block allocation v.next_address size) v.blocks })

round_down_to-base :
    (base k : ℕ)
    → base % virtual_page_size ≡ 0
    → round_down_to (base + k) virtual_page_size ≡ base + k / virtual_page_size * virtual_page_size
unfolding round_down_to
round_down_to-base base k h = omega arith

mapped-lookup :
    (size allocation : ℕ) (v : VirtualAddressMapper) (k : ℕ)
    → k ≤ size
    → lookup id_eq
        (v.next_address + k / virtual_page_size * virtual_page_size)
        (mapped size allocation v).mappings
      ≡ some (mapping_of v.blocks.next_id (k / virtual_page_size))
mapped-lookup size allocation v k h =
    with_pages-lookup v.blocks.next_id v.next_address (suc (size / virtual_page_size)) 0 _
      (k / virtual_page_size)
    ∙ rw
        (
          le→leb 0 (k / virtual_page_size) (omega arith),
          lt→ltb (k / virtual_page_size) (0 + suc (size / virtual_page_size)) (omega arith),
        )
        refl

mapped-get :
    (size allocation : ℕ) (v : VirtualAddressMapper)
    → IdMap.get v.blocks.next_id (mapped size allocation v).blocks
      ≡ some (new_block allocation v.next_address size v.blocks.next_id)
unfolding IdMap.get IdMap.insert
mapped-get size allocation v =
    ap (IdMap.get v.blocks.next_id)
      (with_pages-rest v.blocks.next_id v.next_address (suc (size / virtual_page_size)) 0 _).0
    ∙ lookup-insert id_eq ==_iff v.blocks.next_id v.blocks.next_id _ v.blocks.entries
    ∙ rw (==_refl v.blocks.next_id) refl

translate-mapped :
    (size allocation : ℕ) (v : VirtualAddressMapper) (k : ℕ)
    → v.next_address % virtual_page_size ≡ 0
    → k ≤ size
    → translate (v.next_address + k) (mapped size allocation v) ≡ ok (allocation, k)
unfolding translate
translate-mapped size allocation v k a h =
    rw
      (
        round_down_to-base v.next_address k a,
        mapped-lookup size allocation v k h,
        mapped-get size allocation v,
      )
      (ap (λ x. ok (allocation, x)) (omega arith))

next-mapped :
    (size allocation : ℕ) (v : VirtualAddressMapper)
    → v.next_address % virtual_page_size ≡ 0
    → (mapped size allocation v).next_address % virtual_page_size ≡ 0
next-mapped size allocation v a =
    let next =
      (with_pages-rest v.blocks.next_id v.next_address (suc (size / virtual_page_size)) 0 _).1 in
    ap (λ x. x % virtual_page_size) next ∙ omega arith

prefer-aligned :
    (preferred_base : Option ℕ) (v v₁ : VirtualAddressMapper)
    → v.next_address % virtual_page_size ≡ 0
    → prefer preferred_base v ≡ ok v₁
    → v₁.next_address % virtual_page_size ≡ 0
unfolding prefer
prefer-aligned none v v₁ a h = ground arith
prefer-aligned (some b) v v₁ a h = ground arith

-- In a mapper whose next address is a multiple of the page size, every address from the base that
-- `map` returns up to the size above it translates to the block's allocation and the distance from
-- the base, and the next address is a multiple of the page size again.
pub translate-map_block :
    (size allocation : ℕ) (preferred_base : Option ℕ) (v v' : VirtualAddressMapper) (base id k : ℕ)
    → v.next_address % virtual_page_size ≡ 0
    → map_block size allocation preferred_base v ≡ ok ((base, id), v')
    → k ≤ size
    → (translate (base + k) v' ≡ ok (allocation, k)) × (v'.next_address % virtual_page_size ≡ 0)
unfolding map_block pages_of IdMap.peek_next_id
translate-map_block size allocation preferred_base v v' base id k a h small =
    let (v₁, preferred, h₁) = >>=-eq-ok (prefer preferred_base v) _ h in
    let (pages, listed, h₂) = >>=-eq-ok (pages_of v₁.next_address size) _ h₁ in
    let (v₂, looped, done) = >>=-eq-ok (map_pages v₁.blocks.next_id pages _) _ h₂ in
    let same_base : v₁.next_address ≡ base = cc in
    let last : v₂ ≡ v' = cc in
    let added : VirtualAddressMapper = record v₁ {
      blocks = IdMap.insert (new_block allocation v₁.next_address size) v₁.blocks;
    } in
    let same : mapped size allocation v₁ ≡ v' =
      ap (λ ps. with_pages v₁.blocks.next_id ps added) (pages_from-eq-ok v₁.next_address 0 _ listed)
      ∙ map_pages-eq-ok v₁.blocks.next_id pages added looped
      ∙ last in
    let aligned = prefer-aligned preferred_base v v₁ a preferred in
    (
      rw (sym same_base, sym same) (translate-mapped size allocation v₁ k aligned small),
      rw (sym same) (next-mapped size allocation v₁ aligned),
    )
