-- ===== src/Interpreter/Run/Straight.antt =====
-- src/interpreter/mod.rs: the instructions that work on registers and go on to the next one.
use lakesis.Base.{ℕ, ◌≡◌, refl, Bool, true, false, [], ◌∷◌}
use lakesis.Base.Result.{Result, ok, err, panic, ◌>>=◌}
use lakesis.Core.{CoreResult}
use lakesis.Opcodes.Instruction.{
  Instruction, no_operation, move, add, subtract, multiply, divide, bitwise_and, bitwise_or,
  bitwise_xor, bitwise_not, shift_left, shift_right, compare, reference, unreference,
}
use lakesis.Opcodes.Operand.{Operand, register}
use lakesis.Opcodes.Decode.{Opcode}
use lakesis.Interpreter.Data.{DataWord}
use lakesis.Interpreter.Cpu.{
  Interpreter, ensure_operands, operand_at, read, write, write_with_flags, combine, with_cpu,
  combine_with_carry, reverse_combine_with_carry, set_register, get_register,
}
use lakesis.Interpreter.Step.{
  Effects, execute, silent, step_move, step_not, step_compare, step_mark, read_operand,
  write_operand,
}

-- What holds of the answer, if there is one.
pub data OnOk {ℓ κ μ} {E : Type κ} {A : Type ℓ} (P : A → Type μ)
    : Result E A → Type (ℓ ⊔ κ ⊔ μ) where
  answered : {a : A} → P a → OnOk P (ok a)
  failed : {e : E} → OnOk P (err e)
  panicked : OnOk P panic

module _ {ℓ κ μ ν} {E : Type κ} {A : Type ℓ} {B : Type ν} {Q : B → Type μ} where
  OnOk-after :
      (m : Result E A) (next : A → Result E B) → ((a : A) → OnOk Q (next a)) → OnOk Q (m >>= next)
  OnOk-after (ok a) next k = k a
  OnOk-after (err e) next k = failed
  OnOk-after panic next k = panicked

  OnOk-bind {ρ} :
      {P : A → Type ρ} {m : Result E A} (next : A → Result E B)
      → OnOk P m
      → ((a : A) → P a → OnOk Q (next a))
      → OnOk Q (m >>= next)
  OnOk-bind next (answered {a} p) k = k a p
  OnOk-bind next failed k = failed
  OnOk-bind next panicked k = panicked

-- The memory and the instruction pointer are the same.
abbrev pub Keeps : Interpreter → Interpreter → Type 0
Keeps i j =
    (j.memory ≡ i.memory) × (j.cpu_state.instruction_pointer ≡ i.cpu_state.instruction_pointer)

write_with_flags-Keeps :
    (r : ℕ) (w : DataWord) (i : Interpreter) → OnOk (Keeps i) (write_with_flags (register r) w i)
unfolding write_with_flags write set_register with_cpu
write_with_flags-Keeps r w i =
    OnOk-bind {P = Keeps i} _ (OnOk-after (get_register r i) _ (λ old. answered (refl, refl)))
      (λ j same. answered same)

abbrev opcode2 : Instruction → Operand → Operand → Opcode
opcode2 k a b = record { instruction = k; operands = a ∷ b ∷ [] }

abbrev opcode1 : Instruction → Operand → Opcode
opcode1 k a = record { instruction = k; operands = a ∷ [] }

module _ (k : Instruction) (a : Operand) (r : ℕ) (i : Interpreter) where
  combine_with_carry-Keeps :
      (operation : DataWord → DataWord → CoreResult (DataWord × Bool))
      → OnOk (Keeps i) (combine_with_carry (opcode2 k a (register r)) operation i)
  unfolding combine_with_carry ensure_operands operand_at with_cpu
  combine_with_carry-Keeps operation = OnOk-after (read a i) _ (λ value1.
      OnOk-after (read (register r) i) _ (λ value2.
        OnOk-after (operation value1 value2) _
          (λ answer. OnOk-bind _ (write_with_flags-Keeps r answer.0 i) (λ j same. answered same))))

  combine-Keeps :
      (operation : DataWord → DataWord → DataWord)
      → OnOk (Keeps i) (combine (opcode2 k a (register r)) operation i)
  unfolding combine ensure_operands operand_at
  combine-Keeps operation = OnOk-after (read a i) _ (λ value1.
      OnOk-after (read (register r) i) _
        (λ value2. write_with_flags-Keeps r (operation value1 value2) i))

  step_move-Keeps : OnOk (Keeps i) (step_move (opcode2 k a (register r)) i)
  unfolding step_move read_operand ensure_operands operand_at
  step_move-Keeps = OnOk-after (read a i) _ (λ w. write_with_flags-Keeps r w i)

  step_compare-Keeps : (b : Operand) → OnOk (Keeps i) (step_compare (opcode2 k a b) i)
  unfolding step_compare read_operand ensure_operands operand_at with_cpu
  step_compare-Keeps b =
      OnOk-after (read a i) _ (λ v. OnOk-after (read b i) _ (λ w. answered (refl, refl)))

  step_not-Keeps : OnOk (Keeps i) (step_not (opcode1 k (register r)) i)
  unfolding step_not read_operand ensure_operands operand_at
  step_not-Keeps = OnOk-after (read (register r) i) _ (λ w. write_with_flags-Keeps r _ i)

  step_mark-Keeps : (mark : Bool) → OnOk (Keeps i) (step_mark mark (opcode1 k (register r)) i)
  unfolding step_mark read_operand write_operand ensure_operands operand_at write set_register
      with_cpu
  step_mark-Keeps mark =
      OnOk-after (read (register r) i) _
        (λ w. OnOk-after (get_register r i) _ (λ old. answered (refl, refl)))

-- Instructions with two operands that write to the second, and with one that write to it.
abbrev pub is_binary : Instruction → Bool
is_binary move = true
is_binary add = true
is_binary subtract = true
is_binary multiply = true
is_binary divide = true
is_binary bitwise_and = true
is_binary bitwise_or = true
is_binary bitwise_xor = true
is_binary shift_left = true
is_binary shift_right = true
is_binary _ = false

abbrev pub is_unary : Instruction → Bool
is_unary bitwise_not = true
is_unary reference = true
is_unary unreference = true
is_unary _ = false

-- An opcode that computes in a register, or compares two values.
pub data IsStraight : Opcode → Type 0 where
  pauses : IsStraight (record { instruction = no_operation; operands = [] })
  compares : {a b : Operand} → IsStraight (opcode2 compare a b)
  computes : {k : Instruction} {r : ℕ} → is_unary k ≡ true → IsStraight (opcode1 k (register r))
  combines :
      {k : Instruction} {a : Operand} {r : ℕ}
      → is_binary k ≡ true
      → IsStraight (opcode2 k a (register r))

-- The machine goes on with the same memory and instruction pointer.
abbrev pub GoesOn : Interpreter → Interpreter × Effects → Type 0
GoesOn i (j, e) = Keeps i j × (e.running ≡ true)

silent-GoesOn :
    (i : Interpreter) {m : CoreResult Interpreter} → OnOk (Keeps i) m → OnOk (GoesOn i) (silent m)
unfolding silent
silent-GoesOn i same = OnOk-bind _ same (λ j kept. answered (kept, refl))

module _ (random r : ℕ) (i : Interpreter) where
  execute-unary :
      (k : Instruction)
      → is_unary k ≡ true
      → OnOk (GoesOn i) (execute random k (opcode1 k (register r)) i)
  unfolding execute
  execute-unary bitwise_not h = silent-GoesOn i (step_not-Keeps bitwise_not (register r) r i)
  execute-unary reference h = silent-GoesOn i (step_mark-Keeps reference (register r) r i true)
  execute-unary unreference h = silent-GoesOn i (step_mark-Keeps unreference (register r) r i false)
  execute-unary _ h = cc

  execute-binary :
      (k : Instruction) (a : Operand)
      → is_binary k ≡ true
      → OnOk (GoesOn i) (execute random k (opcode2 k a (register r)) i)
  unfolding execute reverse_combine_with_carry
  execute-binary move a h = silent-GoesOn i (step_move-Keeps move a r i)
  execute-binary add a h = silent-GoesOn i (combine_with_carry-Keeps add a r i _)
  execute-binary subtract a h = silent-GoesOn i (combine_with_carry-Keeps subtract a r i _)
  execute-binary multiply a h = silent-GoesOn i (combine_with_carry-Keeps multiply a r i _)
  execute-binary divide a h = silent-GoesOn i (combine_with_carry-Keeps divide a r i _)
  execute-binary bitwise_and a h = silent-GoesOn i (combine-Keeps bitwise_and a r i _)
  execute-binary bitwise_or a h = silent-GoesOn i (combine-Keeps bitwise_or a r i _)
  execute-binary bitwise_xor a h = silent-GoesOn i (combine-Keeps bitwise_xor a r i _)
  execute-binary shift_left a h = silent-GoesOn i (combine_with_carry-Keeps shift_left a r i _)
  execute-binary shift_right a h = silent-GoesOn i (combine_with_carry-Keeps shift_right a r i _)
  execute-binary _ a h = cc

pub execute-IsStraight :
    (random : ℕ) (op : Opcode) (i : Interpreter)
    → IsStraight op
    → OnOk (GoesOn i) (execute random op.instruction op i)
unfolding execute
execute-IsStraight random op i pauses = answered ((refl, refl), refl)
execute-IsStraight random op i (compares {a} {b}) =
    silent-GoesOn i (step_compare-Keeps compare a 0 i b)
execute-IsStraight random op i (computes {k} {r} h) = execute-unary random r i k h
execute-IsStraight random op i (combines {k} {a} {r} h) = execute-binary random r i k a h
