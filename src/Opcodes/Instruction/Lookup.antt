-- ===== src/Opcodes/Instruction/Lookup.antt =====
-- The lookups of src/opcodes.rs are the inverses of the values and the mnemonics.
use lakesis.Base.{
  ℕ, ◌<◌, ◌≡◌, refl, ◌↔◌, inl, inr, Bool, true, List, [], ◌∷◌, none, some, arith, ◌==◌, ==_iff,
  Option-cases, Bool-cases,
}
use lakesis.Base.Text.{Text, text_eq, text_eq_iff}
use lakesis.Opcodes.Instruction.{
  Instruction, instruction_value, descriptor, instructions, find_last, from_value, from_mnemonic,
  by_mnemonic, to_lowercase, no_operation,
}

find_last_passes :
    (test : Instruction → Bool) (is : List Instruction) {i : Instruction}
    → find_last test is ≡ some i
    → test i ≡ true
unfolding find_last
find_last_passes test [] h = cc
find_last_passes test (j ∷ is) {i} h = elim (Option-cases (find_last test is)) [
  | inl e ↦ elim (Bool-cases (test j)) [
    | inl t ↦ cc (last_is (rw (e, t) at h))
    | inr t ↦ absurd (none_is (rw (e, t) at h))
  ]
  | inr (k, e) ↦ find_last_passes test is {i = i} (rw e (rw e at h))
]
  where
    last_is : some j ≡ some i → j ≡ i
    last_is e = cc

    none_is : none ≡ some i → ⊥
    none_is e = cc

from_value-value : (i : Instruction) → from_value (instruction_value i) ≡ some i
unfolding from_value
from_value-value no_operation = refl
from_value-value _ = refl

by_mnemonic-mnemonic : (i : Instruction) → by_mnemonic (descriptor i).mnemonic ≡ some i
unfolding by_mnemonic text_eq
by_mnemonic-mnemonic no_operation = refl
by_mnemonic-mnemonic _ = refl

by_mnemonic_sound :
    (name : Text) (i : Instruction) → by_mnemonic name ≡ some i → (descriptor i).mnemonic ≡ name
by_mnemonic_sound name i e = (text_eq_iff _ _).0 (
    find_last_passes (λ j. text_eq (descriptor j).mnemonic name) instructions
      (unfold by_mnemonic in e))

-- `from_value` returns an instruction exactly if the number is that instruction's value.
pub from_value_iff : (v : ℕ) (i : Instruction) → (from_value v ≡ some i) ↔ (instruction_value i ≡ v)
from_value_iff v i = (
  λ e.
      (==_iff _ _).0
        (find_last_passes (λ j. instruction_value j == v) instructions (unfold from_value in e)),
  λ e. rw (← e) (from_value-value i),
)

-- `from_mnemonic` returns an instruction exactly if the name in lower case is its mnemonic.
pub from_mnemonic_iff :
    (name : Text) (i : Instruction)
    → (from_mnemonic name ≡ some i) ↔ ((descriptor i).mnemonic ≡ to_lowercase name)
from_mnemonic_iff name i = (
  λ e. by_mnemonic_sound (to_lowercase name) i (unfold from_mnemonic in e),
  λ e. unfold from_mnemonic in rw (← e) (by_mnemonic-mnemonic i),
)

-- The value fits the six bits that an opcode has for it.
pub instruction_value-lt : (i : Instruction) → instruction_value i < 64
unfolding instruction_value
instruction_value-lt no_operation = omega arith
instruction_value-lt _ = omega arith
