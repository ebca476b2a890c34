-- ===== src/Interpreter/Step/Compare.antt =====
-- `cmp a, b` and the conditional jumps behind it.
use lakesis.Base.{ℕ, ◌≡◌, refl, Bool, not, arith, ltb, leb, ◌==◌, if◌then◌else◌, length}
use lakesis.Base.Result.{ok, ◌>>=◌}
use lakesis.Opcodes.Decode.{Opcode}
use lakesis.Opcodes.Instruction.{
  Instruction, compare, jump_equal, jump_not_equal, jump_greater, jump_greater_equal, jump_less,
  jump_less_equal,
}
use lakesis.Interpreter.Data.{DataWord}
use lakesis.Interpreter.Cpu.{
  Interpreter, conditional_jump, flag_matches, jump, with_cpu, ensure_operands,
}
use lakesis.Interpreter.Step.{
  Step, execute, silent, step_jump_less_equal, step_compare, read_operand,
}

-- The interpreter after a comparison of `a` with `b`.
abbrev pub compared : ℕ → ℕ → Interpreter → Interpreter
compared a b i = record i {
  cpu_state = record (i.cpu_state) { zero_flag = a == b; carry_flag = leb b a };
}

-- A comparison, and then the instruction `k` on what it leaves.
abbrev pub compare_then : ℕ → Opcode → Instruction → Opcode → Interpreter → Step
compare_then random cmp k op i = do (i', _) ← execute random compare cmp i; execute random k op i'

-- Jumping from the compared state, if a test holds.
abbrev pub jump_if : Bool → Opcode → Interpreter → Step
jump_if test op i = silent (if test then jump op i else ok i)

execute-compare :
    (random : ℕ) (cmp : Opcode) (i : Interpreter) (a b : DataWord)
    → length cmp.operands ≡ 2
    → read_operand 0 cmp i ≡ ok a
    → read_operand 1 cmp i ≡ ok b
    → execute random compare cmp i ≡ silent (ok (compared a.value b.value i))
unfolding execute step_compare ensure_operands with_cpu
execute-compare random cmp i a b n ra rb = rw (n, ra, rb) refl

jumps :
    (random a b : ℕ) (op : Opcode) (i : Interpreter)
    → let i' = compared a b i in
      (execute random jump_equal op i' ≡ jump_if (a == b) op i')
      × (execute random jump_not_equal op i' ≡ jump_if (not (a == b)) op i')
      × (execute random jump_greater op i' ≡ jump_if (ltb b a) op i')
      × (execute random jump_greater_equal op i' ≡ jump_if (leb b a) op i')
      × (execute random jump_less op i' ≡ jump_if (ltb a b) op i')
      × (execute random jump_less_equal op i' ≡ jump_if (leb a b) op i')
unfolding execute conditional_jump flag_matches step_jump_less_equal
jumps random a b op i =
    (ground arith, ground arith, ground arith, ground arith, ground arith, ground arith)

-- Behind a comparison with two operands, both of which can be read, each conditional jump jumps if its
-- relation holds between their values as unsigned words, and else leaves the compared state alone.
pub conditional_jumps :
    (random : ℕ) (cmp op : Opcode) (i : Interpreter) (a b : DataWord)
    → length cmp.operands ≡ 2
    → read_operand 0 cmp i ≡ ok a
    → read_operand 1 cmp i ≡ ok b
    → let i' = compared a.value b.value i in
      let after = λ (k : Instruction). compare_then random cmp k op i in
      (after jump_equal ≡ jump_if (a.value == b.value) op i')
      × (after jump_not_equal ≡ jump_if (not (a.value == b.value)) op i')
      × (after jump_greater ≡ jump_if (ltb b.value a.value) op i')
      × (after jump_greater_equal ≡ jump_if (leb b.value a.value) op i')
      × (after jump_less ≡ jump_if (ltb a.value b.value) op i')
      × (after jump_less_equal ≡ jump_if (leb a.value b.value) op i')
unfolding silent
conditional_jumps random cmp op i a b n ra rb =
    rw (execute-compare random cmp i a b n ra rb) (jumps random a.value b.value op i)
