-- ===== src/Interpreter/Memory/Allocator/Scan.antt =====
-- A memory of src/interpreter/memory.rs that marking can scan: its parts refer to each other, and the
-- allocations and the words that they mark lie on the heap.
use lakesis.Base.{
  ℕ, zero, suc, ◌+◌, ◌-◌, ◌*◌, ◌/◌, ◌^◌, ◌≤◌, ◌<◌, ◌≡◌, refl, ap, ◌∙◌, inl, inr, arith, Bool-cases,
  true, List, [], ◌∷◌, length, length-take, take, drop, Option-cases, some, leb, not,
}
use lakesis.Base.Bytes.{from_le_bytes}
use lakesis.Base.Words.{add_uword, sub_uword}
use lakesis.Base.Dict.{lookup}
use lakesis.Base.Distinct.{All}
use lakesis.Base.Result.{ok, ◌>>◌, guard, Returns, error, value, Returns-bind}
use lakesis.Core.{word_byte_size, unmapped_memory}
use lakesis.Interpreter.Memory.IdMap
use lakesis.Interpreter.Memory.IdMap.{id_eq}
use lakesis.Interpreter.Memory.Heap.{slice}
use lakesis.Interpreter.Memory.Sizes.{bitfield_len, divide_round_up, round_down_to}
use lakesis.Interpreter.Memory.Mapper.{VirtualAddressBlock, translate}
use lakesis.Interpreter.Memory.Store.{
  Allocation, Memory, addr_to_allocation, bitfield_start, bitfield_end, get_bit,
}
use lakesis.Interpreter.Memory.Store.Marks.{slice-ok}
use lakesis.Interpreter.Memory.Allocator.{push_references, push_allocation}
use lakesis.Interpreter.Memory.Allocator.Reach.{mark-cases}
use lakesis.Interpreter.Memory.Allocator.Visit.{==-cases}
use mathlib.Core.Path.{subst}

-- The bytes of an allocation's marks.
abbrev pub marks_len : Allocation → ℕ
marks_len a = (a.data_length + 63) / 64

abbrev pub marks_of : Allocation → List ℕ → List ℕ
marks_of a heap = take (marks_len a) (drop (bitfield_start a) heap)

-- An allocation whose marks and marked words lie on the heap.
pub record IsScannable (heap : List ℕ) (a : Allocation) : Type 0 where
  pub small : a.data_length < 2 ^ 63
  pub inside : bitfield_start a + marks_len a ≤ length heap
  pub words :
      (i : ℕ)
      → get_bit i (marks_of a heap) ≡ some true
      → a.start + i * word_byte_size + word_byte_size ≤ length heap

-- Every page belongs to a block, every block to an allocation, and every allocation can be scanned.
pub record IsConsistent (m : Memory) : Type 0 where
  pub mappings :
      All
        (λ e. (b : VirtualAddressBlock) × (IdMap.get e.1.block m.virtual_mapper.blocks ≡ some b))
        m.virtual_mapper.mappings
  pub blocks :
      All
        (λ e. (a : Allocation) × (IdMap.get e.1.allocation m.allocations ≡ some a))
        m.virtual_mapper.blocks.entries
  pub ids : All (λ e. e.1.id ≡ e.0) m.allocations.entries
  pub scannable : All (λ e. IsScannable m.heap e.1) m.allocations.entries

pub lookup-All {ℓ} :
    {V : Type 0} (P : ℕ × V → Type ℓ) (id : ℕ) (entries : List (ℕ × V)) {v : V}
    → All P entries
    → lookup id_eq id entries ≡ some v
    → P (id, v)
unfolding lookup
lookup-All P id [] h e = cc
lookup-All P id ((j, u) ∷ entries) {v} (hu, hs) e = elim (==-cases j id) [
  | inl (same, j_is) ↦
      (let e' : some u ≡ some v = rw same at e in
        let is : u ≡ v = cc in subst P (ap (λ k. (k, u)) j_is ∙ ap (λ w. (id, w)) is) hu)
  | inr (other, ne) ↦ lookup-All P id entries hs (rw other at e)
]

bitfield_len-marks_len :
    (a : Allocation) → a.data_length < 2 ^ 63 → bitfield_len a.data_length ≡ ok (marks_len a)
unfolding bitfield_len divide_round_up add_uword sub_uword
bitfield_len-marks_len a h = ground arith

module _ {m : Memory} (c : IsConsistent m) where
  translate-Returns :
      (addr : ℕ)
      → Returns
          (λ p. (a : Allocation) × (IdMap.get p.0 m.allocations ≡ some a))
          (translate addr m.virtual_mapper)
  unfolding translate IdMap.get
  translate-Returns addr =
      elim (Option-cases (lookup id_eq (round_down_to addr 1024) m.virtual_mapper.mappings)) [
        | inl missing ↦ rw missing error
        | inr (mapping, found) ↦
            (let (b, there) =
                lookup-All
                  (λ e.
                    (b : VirtualAddressBlock) × (IdMap.get e.1.block m.virtual_mapper.blocks
                      ≡ some b))
                  (round_down_to addr 1024) m.virtual_mapper.mappings c.mappings found in
              let owner =
                lookup-All
                  (λ e. (a : Allocation) × (IdMap.get e.1.allocation m.allocations ≡ some a))
                  mapping.block m.virtual_mapper.blocks.entries c.blocks there in
              rw (found, there) (value owner))
      ]

  -- Looking an address up fails or succeeds, and does not panic.
  pub addr_to_allocation-Returns :
      (addr : ℕ) → Returns (λ p. IsScannable m.heap p.0) (addr_to_allocation addr m)
  unfolding addr_to_allocation translate IdMap.get
  addr_to_allocation-Returns addr = Returns-bind (translate-Returns addr) (λ p owner. rw owner.1 (
      within owner.0 p.1
        (lookup-All (λ e. IsScannable m.heap e.1) p.0 m.allocations.entries c.scannable owner.1)))
    where
      within :
          (a : Allocation) (offset : ℕ)
          → IsScannable m.heap a
          → Returns {A = Allocation × ℕ}
              (λ p. IsScannable m.heap p.0)
              (◌>>◌ {B = Allocation × ℕ}
                (guard (not (leb a.data_length offset)) unmapped_memory)
                (ok (a, offset)))
      within a offset s = elim (Bool-cases (leb a.data_length offset)) [
        | inl out ↦ rw out error
        | inr fits ↦ rw fits (value s)
      ]

  module _ (bits : List ℕ) (start : ℕ) (heap : List ℕ)
      (words : (i : ℕ)
        → get_bit i bits ≡ some true
        → start + i * word_byte_size + word_byte_size ≤ length heap) where
    push_references-ok :
        (n i : ℕ) (next : List ℕ)
        → (next' : List ℕ) × (push_references n i bits start heap next ≡ ok next')
          × (length next' ≤ length next + n)
    unfolding push_references
    push_references-ok zero i next = (next, refl, omega arith)
    push_references-ok (suc n) i next = elim (mark-cases (get_bit i bits)) [
      | inl set ↦
          (let at = start + i * word_byte_size in
            let (next', done, few) =
              push_references-ok n (suc i)
                (from_le_bytes (take (at + word_byte_size - at) (drop at heap)) ∷ next) in
            (
              next',
              rw
                  (
                    push_references,
                    set,
                    slice-ok at (at + word_byte_size) heap (omega arith) (words i set),
                  )
                  done,
              omega (arith, few),
            ))
      | inr (inl unset) ↦
          (let (next', done, few) = push_references-ok n (suc i) next in
            (next', rw (push_references, unset) done, omega (arith, few)))
      | inr (inr unset) ↦
          (let (next', done, few) = push_references-ok n (suc i) next in
            (next', rw (push_references, unset) done, omega (arith, few)))
    ]

  pub push_allocation-ok :
      (a : Allocation) (next : List ℕ)
      → IsScannable m.heap a
      → (next' : List ℕ) × (push_allocation a m next ≡ ok next')
        × (length next' ≤ length next + 8 * marks_len a)
  unfolding push_allocation bitfield_end bitfield_start
  push_allocation-ok a next s =
      let start = bitfield_start a in
      let marks_end : bitfield_end a ≡ ok (start + marks_len a) =
        rw (bitfield_end, bitfield_len-marks_len a s.small) refl in
      let n : start + marks_len a - start ≡ marks_len a = omega arith in
      let marks : slice start (start + marks_len a) m.heap ≡ ok (marks_of a m.heap) =
        slice-ok start (start + marks_len a) m.heap (omega arith) s.inside
        ∙ ap (λ k. ok (take k (drop start m.heap))) n in
      let bits = marks_of a m.heap in
      let (next', done, few) =
        push_references-ok bits a.start m.heap s.words (8 * length bits) 0 next in
      let short : length bits ≤ marks_len a =
        omega (arith, length-take (marks_len a) (drop start m.heap)) in
      (next', rw (marks_end, marks) done, omega (arith, few, short))
