-- ===== src/Interpreter/Run/Fetch.antt =====
-- src/interpreter/mod.rs: fetching opcodes from bytes that stand in the memory.
use mathlib.Core.Path.{subst}
use lakesis.Base.{
  ℕ, zero, suc, ◌+◌, ◌-◌, ◌%◌, ◌^◌, ◌≤◌, ◌<◌, ◌≡◌, refl, sym, ap, ◌∙◌, ◌≢◌, arith, false,
  Bool-cases, inl, inr, List, [], ◌∷◌, ◌++◌, append_assoc, length, length-append, take, drop,
  take-append-drop, length-take, leb, leb→le, le→leb, ltb, ◌==◌,
}
use lakesis.Base.Result.{ok}
use lakesis.Opcodes.Decode.{Opcode, decode}
use lakesis.Opcodes.Cursor.{cursor}
use lakesis.Opcodes.Cursor.Follow.{Agrees, same, cursor_fails, Follows, decode-follows, Agrees-ok}
use lakesis.Interpreter.Memory.Heap.{slice}
use lakesis.Interpreter.Memory.Store.{Memory, Allocation, addr_to_allocation, addr_to_indices, get}
use lakesis.Interpreter.Memory.Store.Marks.{slice-ok}
use lakesis.Interpreter.Cpu.{Interpreter, with_cpu, wrapping_add}
use lakesis.Interpreter.Step.{execute}
use lakesis.Interpreter.Run.{ip_reader, step}

-- Bytes stand at consecutive virtual addresses, which lie in one allocation on the heap.
pub record HoldsCode (m : Memory) (addr : ℕ) (code : List ℕ) : Type 0 where
  pub allocation : Allocation
  pub offset : ℕ
  pub mapped :
      (k : ℕ) → k < length code → addr_to_allocation (addr + k) m ≡ ok (allocation, offset + k)
  pub room : offset + length code ≤ allocation.data_length
  pub front : List ℕ
  pub back : List ℕ
  pub stored : m.heap ≡ front ++ (code ++ back)
  pub here : length front ≡ allocation.start + offset
  pub below : addr + length code < 2 ^ 64

-- The machine with its instruction pointer somewhere else.
abbrev pub at : ℕ → Interpreter → Interpreter
at ip i = with_cpu (record (i.cpu_state) { instruction_pointer = ip }) i

-- The machine in front of what is left of the code.
abbrev pub StandsAt : ℕ → List ℕ → Interpreter → Interpreter → List ℕ → Type 0
StandsAt addr code i j rest =
    (before : List ℕ) × (code ≡ before ++ rest) × (j ≡ at (addr + length before) i)

take-drop-middle : (xs ys zs : List ℕ) → take (length ys) (drop (length xs) (xs ++ (ys ++ zs))) ≡ ys
take-drop-middle (x ∷ xs) ys zs = take-drop-middle xs ys zs
take-drop-middle [] [] zs = refl
take-drop-middle [] (y ∷ ys) zs = ap (λ t. y ∷ t) (take-drop-middle [] ys zs)

module _ {addr : ℕ} {code : List ℕ} {m : Memory} (h : HoldsCode m addr code) where
  -- The heap around bytes in the middle of the code.
  around :
      (before read after : List ℕ)
      → code ≡ before ++ (read ++ after)
      → m.heap ≡ (h.front ++ before) ++ (read ++ (after ++ h.back))
  around before read after split =
      h.stored ∙ ap (λ c. h.front ++ (c ++ h.back)) split ∙ simp append_assoc

  get-code :
      (before read after : List ℕ)
      → code ≡ before ++ (read ++ after)
      → length read ≢ 0
      → get (addr + length before) (length read) m ≡ ok read
  unfolding get addr_to_indices
  get-code before read after split some =
      let whole : length code ≡ length before + (length read + length after) =
        ap length split
        ∙ length-append before (read ++ after)
        ∙ ap (λ n. length before + n) (length-append read after) in
      let mapped : addr_to_allocation (addr + length before) m
          ≡ ok (h.allocation, h.offset + length before) =
        h.mapped (length before) (omega (arith, whole, some)) in
      let enough : ltb (h.allocation.data_length - (h.offset + length before)) (length read)
          ≡ false =
        ground (arith, h.room, whole) in
      let start : length (h.front ++ before) ≡ h.allocation.start + (h.offset + length before) =
        omega (arith, length-append h.front before, h.here) in
      let size : length m.heap
          ≡ length (h.front ++ before) + (length read + length (after ++ h.back)) =
        ap length (around before read after split)
        ∙ length-append (h.front ++ before) (read ++ (after ++ h.back))
        ∙ ap (λ n. length (h.front ++ before) + n) (length-append read (after ++ h.back)) in
      let s = h.allocation.start + (h.offset + length before) in
      let sliced : slice s (s + length read) m.heap
          ≡ ok (take (s + length read - s) (drop s m.heap)) =
        slice-ok s (s + length read) m.heap (omega arith) (omega (arith, start, size)) in
      let n : s + length read - s ≡ length read = omega arith in
      rw (mapped, enough)
        (sliced
          ∙ rw (n, around before read after split)
              (rw⁻¹ start (ap ok (take-drop-middle (h.front ++ before) read (after ++ h.back)))))

module _ {addr : ℕ} {code : List ℕ} (i : Interpreter) (h : HoldsCode i.memory addr code) where
  read_exact_at :
      (n : ℕ) (before rest : List ℕ)
      → code ≡ before ++ rest
      → Agrees
          (StandsAt addr code i)
          (ip_reader.read_exact n (at (addr + length before) i))
          (cursor.read_exact n rest)
  unfolding ip_reader cursor with_cpu wrapping_add
  read_exact_at zero before rest split =
      rw (le→leb 0 (length rest) (omega arith)) (same (before, split, refl))
  read_exact_at (suc n) before rest split = elim (Bool-cases (leb (suc n) (length rest))) [
    | inl fits ↦
        (let read = take (suc n) rest in
          let after = drop (suc n) rest in
          let long : length read ≡ suc n =
            omega (arith, length-take (suc n) rest, leb→le (suc n) (length rest) fits) in
          let split' : code ≡ before ++ (read ++ after) =
            split ∙ ap (λ xs. before ++ xs) (sym (take-append-drop (suc n) rest)) in
          let got : get (addr + length before) (suc n) i.memory ≡ ok read =
            subst (λ k. get (addr + length before) k i.memory ≡ ok read) long
              (get-code h before read after split' (omega (arith, long))) in
          let short : length before + (length read + length after) ≡ length code = sym (
            ap length split'
            ∙ length-append before (read ++ after)
            ∙ ap (λ n. length before + n) (length-append read after)) in
          let ip : (addr + length before + suc n) % 2 ^ 64 ≡ addr + length (before ++ read) =
            omega (arith, length-append before read, long, short, h.below) in
          let nonzero : (suc n == 0) ≡ false = ground arith in
          rw (nonzero, fits, got, ip)
            (same (before ++ read, split' ∙ sym (append_assoc before read after), refl)))
    | inr few ↦ rw few cursor_fails
  ]

  ip_reader-Follows : Follows ip_reader (StandsAt addr code i)
  ip_reader-Follows = record { read_exact_follows = follow }
    where
      follow :
          (n : ℕ) (j : Interpreter) (rest : List ℕ)
          → StandsAt addr code i j rest
          → Agrees (StandsAt addr code i) (ip_reader.read_exact n j) (cursor.read_exact n rest)
      follow n j rest (before, split, is) = rw is (read_exact_at n before rest split)

  -- Where code stands in the memory, and a cursor in the middle of the code decodes an opcode, a step
  -- of the machine there executes this opcode, with the instruction pointer at the bytes that the
  -- cursor leaves.
  pub step-decode :
      (random : ℕ) (before bytes rest : List ℕ) {op : Opcode}
      → code ≡ before ++ bytes
      → decode cursor bytes ≡ ok (op, rest)
      → (passed : List ℕ) × (code ≡ passed ++ rest)
        × (step random (at (addr + length before) i)
            ≡ execute random op.instruction op (at (addr + length passed) i))
  unfolding step
  step-decode random before bytes rest {op} split decoded =
      let (j, fetched, (passed, split', is)) =
        Agrees-ok
          (decode-follows ip_reader-Follows (at (addr + length before) i) bytes
            (before, split, refl))
          decoded in
      (passed, split', rw (fetched, is) refl)
