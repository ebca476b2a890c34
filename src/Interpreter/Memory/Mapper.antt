-- ===== src/Interpreter/Memory/Mapper.antt =====
-- `VirtualAddressMapper` of src/interpreter/memory.rs: pages of virtual addresses and the blocks that they
-- belong to.
pub mod Translate
use lakesis.Base.{
  ℕ, zero, suc, ◌+◌, ◌-◌, ◌*◌, ◌/◌, ◌%◌, Bool, List, [], ◌∷◌, Option, none, some, ltb, ◌==◌, not,
}
use lakesis.Base.Dict.{lookup, insert as insert_key, remove as remove_key}
use lakesis.Base.Result.{Result, ok, ◌>>=◌, ◌>>◌, guard, ok_or, unwrap}
use lakesis.Base.Words.{add_uword}
use lakesis.Core.{
  Error, CoreResult, base_not_page_aligned, base_not_available, unmapped_address,
  invalid_virtual_block_id,
}
use lakesis.Interpreter.Memory.IdMap
use lakesis.Interpreter.Memory.IdMap.{IdMap, id_eq}
use lakesis.Interpreter.Memory.Sizes.{round_down_to}

abbrev pub virtual_page_size : ℕ
virtual_page_size = 1024

pub record VirtualAddressMapping : Type 0 where
  pub block : ℕ
  pub offset : ℕ

pub record VirtualAddressBlock : Type 0 where
  pub id : ℕ
  pub allocation : ℕ
  pub base : ℕ
  pub size : ℕ

pub record VirtualAddressMapper : Type 0 where
  pub blocks : IdMap VirtualAddressBlock
  pub mappings : List (ℕ × VirtualAddressMapping)
  pub next_address : ℕ

unfoldable pub mapper_new : VirtualAddressMapper
mapper_new = record { blocks = IdMap.empty; mappings = []; next_address = 0 }

-- The pages from a number on, with their addresses. A page's distance from the base is at most the size.
unfoldable pub pages_from : ℕ → ℕ → ℕ → CoreResult (List (ℕ × ℕ))
pages_from base page zero = ok []
pages_from base page (suc n) = do
  addr ← add_uword base (page * virtual_page_size)
  pages ← pages_from base (suc page) n
  ok ((page, addr) ∷ pages)

-- `for page in 0..=(size / VIRTUAL_PAGE_SIZE)`
unfoldable pub pages_of : ℕ → ℕ → CoreResult (List (ℕ × ℕ))
unfolding pages_from
pages_of base size = pages_from base 0 (suc (size / virtual_page_size))

-- The loop of `map`.
unfoldable pub map_pages : ℕ → List (ℕ × ℕ) → VirtualAddressMapper → CoreResult VirtualAddressMapper
map_pages block [] v = ok v
map_pages block ((page, addr) ∷ ps) v = do
  next ← add_uword v.next_address virtual_page_size
  map_pages block ps (record v {
    mappings =
        insert_key id_eq addr (record { block = block; offset = page * virtual_page_size })
          v.mappings;
    next_address = next;
  })

-- The part of `map` that looks at `preferred_base`: the mapper with its next address.
unfoldable pub prefer : Option ℕ → VirtualAddressMapper → CoreResult VirtualAddressMapper
prefer none v = ok v
prefer (some base) v = do
  guard (base % virtual_page_size == 0) (base_not_page_aligned base)
  guard (not (ltb base v.next_address)) (base_not_available base)
  ok (record v { next_address = base })

abbrev pub new_block : ℕ → ℕ → ℕ → ℕ → VirtualAddressBlock
new_block allocation base size id = record {
  id = id;
  allocation = allocation;
  base = base;
  size = size;
}

-- The address and the id of the block.
unfoldable pub map_block :
    ℕ → ℕ → Option ℕ → VirtualAddressMapper → CoreResult ((ℕ × ℕ) × VirtualAddressMapper)
map_block size allocation preferred_base v = do
  v₁ ← prefer preferred_base v
  let base = v₁.next_address
  let block_id = IdMap.peek_next_id v₁.blocks
  let added = IdMap.insert (new_block allocation base size) v₁.blocks
  pages ← pages_of base size
  v₂ ← map_pages block_id pages (record v₁ { blocks = added })
  ok ((base, block_id), v₂)

-- The loop of `unmap`.
unfoldable pub unmap_pages :
    List (ℕ × ℕ) → List (ℕ × VirtualAddressMapping) → List (ℕ × VirtualAddressMapping)
unmap_pages [] m = m
unmap_pages ((page, addr) ∷ ps) m = unmap_pages ps (remove_key id_eq addr m)

unfoldable pub unmap : ℕ → VirtualAddressMapper → CoreResult VirtualAddressMapper
unmap id v = do
  b ← ok_or (IdMap.get id v.blocks) invalid_virtual_block_id
  pages ← pages_of b.base b.size
  ok (record v { blocks = IdMap.remove id v.blocks; mappings = unmap_pages pages v.mappings })

unfoldable pub get_block : ℕ → VirtualAddressMapper → Option VirtualAddressBlock
get_block id v = IdMap.get id v.blocks

-- The allocation that an address belongs to, and the offset in it.
unfoldable pub translate : ℕ → VirtualAddressMapper → CoreResult (ℕ × ℕ)
unfolding round_down_to
translate addr v = do
  let aligned = round_down_to addr virtual_page_size
  mapping ← ok_or (lookup id_eq aligned v.mappings) (unmapped_address addr)
  b ← unwrap (IdMap.get mapping.block v.blocks)
  ok (b.allocation, mapping.offset + (addr - aligned))
