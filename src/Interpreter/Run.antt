-- ===== src/Interpreter/Run.antt =====
-- `Interpreter::step` and `run` of src/interpreter/mod.rs: fetching an opcode, loading a program.
pub mod Fetch
pub mod Straight
pub mod Listing
pub mod Assembled
use lakesis.Base.{
  ℕ, zero, suc, ◌+◌, ◌*◌, ◌%◌, true, false, List, [], ◌++◌, Option, none, some, ◌==◌, if◌then◌else◌,
  length,
}
use mathlib.Core.Option.{map as option_map}
use lakesis.Base.Text.{codes}
use lakesis.Base.Result.{ok, err, panic, ◌>>=◌, ◌>>◌, guard}
use lakesis.Core.{Error, CoreResult, word_byte_size, program_not_at_zero}
use lakesis.Opcodes.Decode.{Reader, decode}
use lakesis.Interpreter.Memory.Store.{memory_new, get, set}
use lakesis.Interpreter.Memory.Allocator.{allocate}
use lakesis.Interpreter.Cpu.{Interpreter, cpu_default, with_cpu, wrapping_add, wrapping_sub}
use lakesis.Interpreter.Step.{Step, Effects, execute}
use lakesis.Interpreter.Native.{Piece}

abbrev pub stack_size : ℕ
stack_size = 2 * 1048576

-- `InterpreterInstructionPointerReader`: `read_exact` makes no read for an empty buffer, and one
-- read of the whole buffer otherwise.
unfoldable pub ip_reader : Reader Interpreter
ip_reader = record {
  read_exact = λ n i. if n == 0 then ok ([], i) else (do
    bytes ← get i.cpu_state.instruction_pointer n i.memory
    ok (
      bytes,
      with_cpu
          (record (i.cpu_state) {
            instruction_pointer = wrapping_add i.cpu_state.instruction_pointer n;
          })
          i,
    ));
}

-- `random` is what `rand::random()` would give in this step.
unfoldable pub step : ℕ → Interpreter → Step
step random i = do (op, i') ← decode ip_reader i; execute random op.instruction op i'

-- How a run of the program ends, with what it prints and how long it sleeps on the way.
pub data Outcome : Type 0 where
  halted : Interpreter → Outcome
  failed : Error → Outcome
  crashed : Outcome

pub record Trace : Type 0 where
  pub printed : List Piece
  pub slept : ℕ
  pub outcome : Outcome

unfoldable pub ends : Outcome → Trace
ends o = record { printed = []; slept = 0; outcome = o }

-- A step's effects in front of a trace.
unfoldable pub preceded : Effects → Trace → Trace
preceded e t = record {
  printed = e.printed ++ t.printed;
  slept = e.slept + t.slept;
  outcome = t.outcome;
}

-- What a step leads to: the next steps, or the end.
unfoldable pub resume : (Interpreter → Option Trace) → Step → Option Trace
resume next (ok (i, e)) = elim e.running [
  | true ↦ option_map (preceded e) (next i)
  | false ↦ some (preceded e (ends (halted i)))
]
resume next (err e) = some (ends (failed e))
resume next panic = some (ends crashed)

-- `while interpreter.step()? {}`, for a number of steps: a program may run for ever. `randoms k` is what
-- `rand::random()` would give in step `k`.
unfoldable pub run_loop : ℕ → (ℕ → ℕ) → ℕ → Interpreter → Option Trace
run_loop zero randoms k i = none
run_loop (suc fuel) randoms k i =
    let next = run_loop fuel randoms (suc k) in resume next (step (randoms k) i)

-- `while aligned_len % WORD_BYTE_SIZE != 0 { aligned_len += 1; }`, which takes 7 rounds at most.
unfoldable pub align_len : ℕ → ℕ → ℕ
align_len zero n = n
align_len (suc fuel) n =
    let rest = align_len fuel (n + 1) in if n % word_byte_size == 0 then n else rest

-- The part of `run` before the loop.
unfoldable pub load : List ℕ → CoreResult Interpreter
load program_data = do
  (base, m₁) ←
      allocate (align_len 7 (length program_data)) false [] (some 0) (some (codes "Program"))
        memory_new
  guard (base == 0) program_not_at_zero
  m₂ ← set 0 program_data m₁
  (stack_base, m₃) ← allocate stack_size false [] none (some (codes "Stack")) m₂
  let sp = wrapping_sub (wrapping_add stack_base stack_size) word_byte_size
  ok (record { cpu_state = record cpu_default { stack_pointer = sp }; memory = m₃ })

-- `run`, for a number of steps.
unfoldable pub run : ℕ → (ℕ → ℕ) → List ℕ → Option Trace
run fuel randoms program_data = elim (load program_data) [
  | ok i ↦ run_loop fuel randoms 0 i
  | err e ↦ some (ends (failed e))
  | panic ↦ some (ends crashed)
]
