-- ===== src/Interpreter/Run/Listing.antt =====
-- Running a program of src/interpreter/mod.rs next to what `disassemble` of src/main.rs prints of it.
use mathlib.Core.Path.{subst}
use lakesis.Base.{
  ℕ, zero, suc, ◌+◌, ◌-◌, ◌≡◌, refl, sym, ap, ◌∙◌, ◌⊎◌, inl, inr, arith, Bool-cases, false, List,
  [], ◌∷◌, ◌++◌, length, length-append, Option, none, some,
}
use lakesis.Base.Distinct.{All}
use lakesis.Base.Result.{ok, err, panic, >>=-eq-ok}
use lakesis.Opcodes.Instruction.{halt}
use lakesis.Opcodes.Decode.{Opcode, decode}
use lakesis.Opcodes.Cursor.{cursor, listing, listing_loop}
use lakesis.Interpreter.Cpu.{Interpreter, with_cpu}
use lakesis.Interpreter.Step.{Effects, Step, execute, quiet}
use lakesis.Interpreter.Run.{Trace, ends, halted, resume, run_loop, preceded}
use lakesis.Interpreter.Run.Fetch.{HoldsCode, at, step-decode}
use lakesis.Interpreter.Run.Straight.{
  OnOk, answered, failed, panicked, IsStraight, Keeps, execute-IsStraight,
}

-- The lines of a listing executed one after the other, each with the instruction pointer at the
-- position that is printed with it, up to a line that halts or fails.
unfoldable pub execute_lines : ℕ → (ℕ → ℕ) → ℕ → List (ℕ × Opcode) → Interpreter → Option Trace
execute_lines addr randoms k [] i = none
execute_lines addr randoms k ((position, op) ∷ lines) i =
    let next = execute_lines addr randoms (suc k) lines in
    resume next (execute (randoms k) op.instruction op (at (addr + position) i))

abbrev pub halt_opcode : Opcode
halt_opcode = record { instruction = halt; operands = [] }

abbrev pub IsStraightOrHalt : ℕ × Opcode → Type 0
IsStraightOrHalt (position, op) = IsStraight op ⊎ (op.instruction ≡ halt)

-- After a step that goes on, what comes next is the same.
resume-OnOk :
    (next next' : Interpreter → Option Trace) (s : Step)
    → OnOk (λ a. (a.1.running ≡ false) ⊎ (next a.0 ≡ next' a.0)) s
    → resume next s ≡ resume next' s
unfolding resume preceded
resume-OnOk next next' (ok (i, e)) (answered (inl off)) = rw off refl
resume-OnOk next next' (ok (i, e)) (answered (inr alike)) = elim (Bool-cases e.running) [
  | inl on ↦ rw (on, alike) refl
  | inr off ↦ rw off refl
]
resume-OnOk next next' (err e) failed = refl
resume-OnOk next next' panic panicked = refl

OnOk-map {μ ν} :
    {P : Interpreter × Effects → Type μ} {Q : Interpreter × Effects → Type ν} {s : Step}
    → OnOk P s
    → ((j : Interpreter) (e : Effects) → P (j, e) → Q (j, e))
    → OnOk Q s
OnOk-map (answered {a} p) f = answered (f a.0 a.1 p)
OnOk-map failed f = failed
OnOk-map panicked f = panicked

at_self : (ip : ℕ) (i : Interpreter) → i.cpu_state.instruction_pointer ≡ ip → at ip i ≡ i
unfolding with_cpu
at_self ip i e = ap (λ p. at p i) (sym e)

module _ (addr : ℕ) (code : List ℕ) (randoms : ℕ → ℕ) where
  -- A line's step, and the lines behind it.
  run_loop-line :
      (k : ℕ) (before bytes rest : List ℕ) (op : Opcode) (lines : List (ℕ × Opcode))
      (i : Interpreter)
      → HoldsCode i.memory addr code
      → code ≡ before ++ bytes
      → decode cursor bytes ≡ ok (op, rest)
      → IsStraightOrHalt (length code - length rest, op)
      → ((passed : List ℕ) (j : Interpreter)
          → HoldsCode j.memory addr code
          → code ≡ passed ++ rest
          → run_loop (length lines) randoms (suc k) (at (addr + length passed) j)
            ≡ execute_lines addr randoms (suc k) lines j)
      → run_loop (suc (length lines)) randoms k (at (addr + length before) i)
        ≡ execute_lines addr randoms k ((length code - length rest, op) ∷ lines) i
  unfolding run_loop execute_lines execute with_cpu
  run_loop-line k before bytes rest op lines i h split decoded line later =
      let (passed, split', stepped) = step-decode i h (randoms k) before bytes rest split decoded in
      let position : length code - length rest ≡ length passed =
        omega (arith, ap length split', length-append passed rest) in
      let j₀ = at (addr + length passed) i in
      let follow : (j : Interpreter)
          → Keeps j₀ j
          → run_loop (length lines) randoms (suc k) j ≡ execute_lines addr randoms (suc k) lines j =
        λ j kept.
          subst
            (λ x.
              run_loop (length lines) randoms (suc k) x
              ≡ execute_lines addr randoms (suc k) lines j)
            (at_self (addr + length passed) j kept.1)
            (later passed j (subst (λ m. HoldsCode m addr code) (sym kept.0) h) split') in
      let goes : OnOk
          (λ a.
            (a.1.running ≡ false)
            ⊎ (run_loop (length lines) randoms (suc k) a.0
                ≡ execute_lines addr randoms (suc k) lines a.0))
          (execute (randoms k) op.instruction op j₀) =
        elim line [
          | inl straight ↦
              OnOk-map (execute-IsStraight (randoms k) op j₀ straight)
                (λ j e on. inr (follow j on.0))
          | inr halts ↦ rw halts (answered (inl refl))
        ] in
      rw (stepped, position) (resume-OnOk _ _ (execute (randoms k) op.instruction op j₀) goes)

  run_loop-lines :
      (fuel k : ℕ) (before bytes : List ℕ) (lines : List (ℕ × Opcode)) (i : Interpreter)
      → HoldsCode i.memory addr code
      → code ≡ before ++ bytes
      → listing_loop fuel (length code) bytes ≡ ok lines
      → All IsStraightOrHalt lines
      → run_loop (length lines) randoms k (at (addr + length before) i)
        ≡ execute_lines addr randoms k lines i
  unfolding listing_loop
  run_loop-lines fuel k before [] [] i h split listed later = unfold run_loop execute_lines in refl
  run_loop-lines fuel k before [] (l ∷ lines) i h split listed later = cc
  run_loop-lines zero k before (b ∷ bs) lines i h split listed later = cc
  run_loop-lines (suc fuel) k before (b ∷ bs) lines i h split listed later =
      let ((op, rest), decoded, listed') = >>=-eq-ok (decode cursor (b ∷ bs)) _ listed in
      let (lines', listed'', whole) = >>=-eq-ok (listing_loop fuel (length code) rest) _ listed' in
      let is : (length code - length rest, op) ∷ lines' ≡ lines = cc in
      let later' : All IsStraightOrHalt ((length code - length rest, op) ∷ lines') =
        subst (All IsStraightOrHalt) (sym is) later in
      subst
        (λ ls.
          run_loop (length ls) randoms k (at (addr + length before) i)
          ≡ execute_lines addr randoms k ls i)
        is
        (run_loop-line k before (b ∷ bs) rest op lines' i h split decoded later'.0
          (λ passed j held split'.
            run_loop-lines fuel (suc k) passed rest lines' j held split' listed'' later'.1))

-- Where code stands in the memory and a cursor lists it as opcodes that compute in registers or halt,
-- running from the code's first byte, for as many steps as there are lines, is executing the lines of
-- the listing in order, each with the instruction pointer at the position printed with it.
pub run_loop-listing :
    (addr : ℕ) (code : List ℕ) (randoms : ℕ → ℕ) (k : ℕ) (lines : List (ℕ × Opcode))
    (i : Interpreter)
    → HoldsCode i.memory addr code
    → listing code ≡ ok lines
    → All IsStraightOrHalt lines
    → run_loop (length lines) randoms k (at addr i) ≡ execute_lines addr randoms k lines i
unfolding listing
run_loop-listing addr code randoms k lines i h listed straight =
    let zero_more : addr + 0 ≡ addr = omega arith in
    subst (λ a. run_loop (length lines) randoms k (at a i) ≡ execute_lines addr randoms k lines i)
      zero_more
      (run_loop-lines addr code randoms (length code) k [] code lines i h refl listed straight)

resume-some :
    (next : Interpreter → Option Trace) (s : Step)
    → ((i : Interpreter) → (t : Trace) × (next i ≡ some t))
    → (t : Trace) × (resume next s ≡ some t)
unfolding resume preceded
resume-some next (ok (i, e)) later = elim (Bool-cases e.running) [
  | inl on ↦ (let (t, is) = later i in (preceded e t, rw (on, is) refl))
  | inr off ↦ (preceded e (ends (halted i)), rw off refl)
]
resume-some next (err e) later = (_, refl)
resume-some next panic later = (_, refl)

execute_lines-ends :
    (addr : ℕ) (randoms : ℕ → ℕ) (k : ℕ) (front rest : List (ℕ × Opcode)) (position : ℕ)
    (op : Opcode) (i : Interpreter)
    → op.instruction ≡ halt
    → (t : Trace) × (execute_lines addr randoms k (front ++ ((position, op) ∷ rest)) i ≡ some t)
unfolding execute_lines execute resume preceded
execute_lines-ends addr randoms k [] rest position op i halts = (
  preceded (record quiet { running = false }) (ends (halted (at (addr + position) i))),
  rw halts refl,
)
execute_lines-ends addr randoms k ((p, o) ∷ front) rest position op i halts =
    resume-some (execute_lines addr randoms (suc k) (front ++ ((position, op) ∷ rest)))
      (execute (randoms k) o.instruction o (at (addr + p) i))
      (λ j. execute_lines-ends addr randoms (suc k) front rest position op j halts)

-- Where code stands in the memory and a cursor lists it as opcodes that compute in registers or halt,
-- one of which halts, running from the code's first byte ends, within as many steps as there are lines.
pub run_loop-ends :
    (addr : ℕ) (code : List ℕ) (randoms : ℕ → ℕ) (front rest : List (ℕ × Opcode)) (position : ℕ)
    (op : Opcode) (i : Interpreter)
    → HoldsCode i.memory addr code
    → listing code ≡ ok (front ++ ((position, op) ∷ rest))
    → All IsStraightOrHalt (front ++ ((position, op) ∷ rest))
    → op.instruction ≡ halt
    → (t : Trace) × (run_loop (length (front ++ ((position, op) ∷ rest))) randoms 0 (at addr i)
        ≡ some t)
run_loop-ends addr code randoms front rest position op i h listed straight halts =
    let (t, done) = execute_lines-ends addr randoms 0 front rest position op i halts in
    (t, run_loop-listing addr code randoms 0 _ i h listed straight ∙ done)
