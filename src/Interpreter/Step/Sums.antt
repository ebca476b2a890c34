-- ===== src/Interpreter/Step/Sums.antt =====
-- src/interpreter/mod.rs: `add` and `sub` into a register.
use lakesis.Base.{
  ℕ, ◌+◌, ◌*◌, ◌^◌, ◌<◌, ◌≡◌, refl, Bool, true, false, ◌||◌, [], ◌∷◌, arith, ◌==◌, set,
}
use lakesis.Base.Result.{ok}
use lakesis.Core.{CoreResult}
use lakesis.Opcodes.Instruction.{add, subtract}
use lakesis.Opcodes.Operand.{Operand, register}
use lakesis.Opcodes.Decode.{Opcode}
use lakesis.Interpreter.Data.{
  DataWord, overflowing_operation, overflowing_add, overflowing_sub, combine_values,
}
use lakesis.Interpreter.Data.Arithmetic.{flag, add_and_sub_carry}
use lakesis.Interpreter.Cpu.{
  Interpreter, ensure_operands, operand_at, read, write, write_with_flags, with_cpu,
  combine_with_carry, reverse_combine_with_carry, set_register, get_register,
}
use lakesis.Interpreter.Step.{execute, silent, quiet}

-- The machine whose register `r` is given a word, with the flags for this word and a carry.
abbrev pub given : ℕ → DataWord → Bool → Interpreter → Interpreter
given r w carry i = record i {
  cpu_state = record (i.cpu_state) {
    registers = set i.cpu_state.registers r w;
    zero_flag = w.value == 0;
    carry_flag = carry;
  };
}

combine_with_carry-given :
    (op : Opcode) (a : Operand) (r : ℕ) (i : Interpreter) (v w result : DataWord) (carry : Bool)
    (operation : DataWord → DataWord → CoreResult (DataWord × Bool))
    → op.operands ≡ a ∷ register r ∷ []
    → read a i ≡ ok v
    → get_register r i ≡ ok w
    → operation v w ≡ ok (result, carry)
    → combine_with_carry op operation i ≡ ok (given r result carry i)
unfolding combine_with_carry ensure_operands operand_at read write_with_flags write set_register
    with_cpu
combine_with_carry-given op a r i v w result carry operation two ra rr done =
    rw (two, ra, rr, done) refl

or_comm : (p q : Bool) → (p || q) ≡ (q || p)
or_comm true true = refl
or_comm true false = refl
or_comm false true = refl
or_comm false false = refl

-- `add` and `sub` whose second operand is the register `r`, and whose operands can be read and are words
-- below 2 ^ 64, put a word below 2 ^ 64 into `r` and set the flags for it: the sum, up to the carry that
-- the flag has, or the register's value less the first operand's, up to the borrow that the flag has. The
-- word is marked as a reference if one of the operands is.
pub execute-add_and_sub :
    (random r : ℕ) (a : Operand) (op : Opcode) (i : Interpreter) (v w : DataWord)
    → op.operands ≡ a ∷ register r ∷ []
    → read a i ≡ ok v
    → get_register r i ≡ ok w
    → v.value < 2 ^ 64
    → w.value < 2 ^ 64
    → (sum difference : DataWord) × (carry borrow : Bool) × (execute random add op i
        ≡ ok (given r sum carry i, quiet))
      × (w.value + v.value ≡ sum.value + flag carry * 2 ^ 64)
      × (sum.value < 2 ^ 64)
      × (sum.is_reference ≡ w.is_reference || v.is_reference)
      × (execute random subtract op i ≡ ok (given r difference borrow i, quiet))
      × (w.value + flag borrow * 2 ^ 64 ≡ difference.value + v.value)
      × (difference.value < 2 ^ 64)
      × (difference.is_reference ≡ w.is_reference || v.is_reference)
unfolding execute silent reverse_combine_with_carry overflowing_add overflowing_sub
    overflowing_operation combine_values
execute-add_and_sub random r a op i v w two ra rr hv hw =
    let (s, _, c, _, added, exact, low, _, _, _) = add_and_sub_carry v.value w.value hv hw in
    let (_, d, _, b, _, _, _, taken, exact', low') = add_and_sub_carry w.value v.value hw hv in
    let x : DataWord = record { value = s; is_reference = v.is_reference || w.is_reference } in
    let y : DataWord = record { value = d; is_reference = w.is_reference || v.is_reference } in
    let adds =
      combine_with_carry-given op a r i v w x c overflowing_add two ra rr (rw added refl) in
    let takes =
      combine_with_carry-given op a r i v w y b (λ p q. overflowing_sub q p) two ra rr
        (rw taken refl) in
    (
      x,
      y,
      c,
      b,
      rw adds refl,
      omega (arith, exact),
      low,
      or_comm v.is_reference w.is_reference,
      rw takes refl,
      exact',
      low',
      refl,
    )
