-- ===== src/Interpreter/Memory/Growth.antt =====
-- The growth of the heap: the loop of `try_allocate_region` ends.
use Prim.Native.Nat.{min}
use lakesis.Base.{
  ℕ, zero, suc, ◌*◌, ◌^◌, ◌<◌, ◌≤◌, ◌≡◌, refl, arith, ltb, Bool-cases, ltb-eq-false, ltb→lt, inl,
  inr,
}
use lakesis.Base.Result.{ok}
use mathlib.Core.Path.{subst}
use lakesis.Core.{max_memory_size}
use lakesis.Interpreter.Memory.Allocator.{grow}

doubled : (p size limit : ℕ) → 1 ≤ p → limit ≤ size * (p * 2) → limit ≤ min (size * 2) limit * p
doubled zero size limit h enough = absurd (omega arith)
doubled (suc q) size limit h enough = elim (Bool-cases (ltb limit (size * 2))) [
  | inl below ↦
      let lt = ltb→lt limit (size * 2) below in
      let m : min (size * 2) limit ≡ limit = omega arith in rw m (omega arith)
  | inr above ↦ let m : min (size * 2) limit ≡ size * 2 = ground arith in rw m (omega arith)
]

power-pos : (n : ℕ) → 1 ≤ 2 ^ n
power-pos zero = omega arith
power-pos (suc n) = let p = power-pos n in omega arith

power-suc : (n : ℕ) → 2 ^ suc n ≡ 2 ^ n * 2
power-suc n = omega arith

grow-fuel :
    (fuel minimum size : ℕ)
    → minimum ≤ max_memory_size
    → size ≤ max_memory_size
    → max_memory_size ≤ size * 2 ^ fuel
    → (grown : ℕ) × (grow fuel minimum size ≡ ok grown)
      × (minimum ≤ grown)
      × (size ≤ grown)
      × (grown ≤ max_memory_size)
unfolding grow
grow-fuel zero minimum size m s h =
    (size, rw (ltb-eq-false size minimum (omega arith)) refl, omega arith, omega arith, s)
grow-fuel (suc fuel) minimum size m s h = elim (Bool-cases (ltb size minimum)) [
  | inl small ↦
      let (grown, e, big, above, below) =
        grow-fuel fuel minimum (min (size * 2) max_memory_size) m (omega arith) (
          doubled (2 ^ fuel) size max_memory_size (power-pos fuel)
            (subst (λ p. max_memory_size ≤ size * p) (power-suc fuel) h)) in
      (grown, rw small e, big, omega arith, below)
  | inr large ↦ (size, rw large refl, ground arith, omega arith, s)
]

-- For a heap that is not empty and a need that the largest heap meets, the loop ends, with a size that
-- meets the need, is not below the size before and is not above the largest.
pub grow-ends :
    (minimum size : ℕ)
    → minimum ≤ max_memory_size
    → 0 < size
    → size ≤ max_memory_size
    → (grown : ℕ) × (grow 32 minimum size ≡ ok grown)
      × (minimum ≤ grown)
      × (size ≤ grown)
      × (grown ≤ max_memory_size)
grow-ends minimum size m p s = grow-fuel 32 minimum size m s (omega arith)
