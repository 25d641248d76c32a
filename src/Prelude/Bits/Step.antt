-- ===== src/Prelude/Bits/Step.antt =====
-- The native bit operations by their lowest digit, with the fuel of their definition dropped.
use Prim.Native.Nat.{ℕ, zero, suc, ◌+◌, ◌*◌, ◌/◌, ◌%◌, ◌≤◌, min, max, bit_and, bit_or}
use Prim.Native.Nat.{digits, bit_and-bitwise, bit_or-bitwise}
use mathlib.Core.Path.{◌≡◌, refl}
use native.Mathlib.Omega.{arith}

module _ (tail : ℕ → ℕ) (digit : ℕ → ℕ → ℕ) where
  abbrev enough : ℕ → ℕ → ℕ
  enough a b = digits tail digit a a b

  -- Whatever fuel covers the number gives the value at its own size; `k` bounds both.
  settled : (k fuel a b : ℕ) → fuel ≤ k → a ≤ fuel → digits tail digit fuel a b ≡ enough a b
  settled k zero zero b bound covers = refl
  settled k (suc fuel) zero b bound covers = refl
  settled k zero (suc a) b bound covers = absurd (omega arith)
  settled zero (suc fuel) (suc a) b bound covers = absurd (omega arith)
  settled (suc k) (suc fuel) (suc a) b bound covers = omega (
    arith,
    settled k fuel (suc a / 2) (b / 2) (omega arith) (omega arith),
    settled k a (suc a / 2) (b / 2) (omega arith) (omega arith),
  )

  parts : (a b : ℕ) → enough (suc a) b ≡ digit (suc a % 2) (b % 2) + 2 * enough (suc a / 2) (b / 2)
  parts a b = omega (arith, settled a a (suc a / 2) (b / 2) (omega arith) (omega arith))

-- What `|` and `&` are at the two lowest digits, and at the rest.
pub halves_or : (a b : ℕ) → max (a % 2) (b % 2) + 2 * bit_or (a / 2) (b / 2) ≡ bit_or a b
halves_or zero b = simp bit_or-bitwise (omega arith)
halves_or (suc a) b = simp bit_or-bitwise (omega (arith, parts (λ rest. rest) max a b))

pub halves_and : (a b : ℕ) → min (a % 2) (b % 2) + 2 * bit_and (a / 2) (b / 2) ≡ bit_and a b
halves_and zero b = simp bit_and-bitwise (omega arith)
halves_and (suc a) b = simp bit_and-bitwise (omega (arith, parts (λ rest. 0) min a b))
