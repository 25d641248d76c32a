-- ===== src/Prelude/Bits.antt =====
-- `|` of a field and of bits below it, and `&` with a low mask, as arithmetic at every width.
mod Step
use Prim.Native.Nat.{ℕ, zero, suc, ◌+◌, ◌-◌, ◌*◌, ◌/◌, ◌%◌, ◌^◌, ◌≤◌, ◌<◌, bit_and, bit_or}
use mathlib.Core.Path.{◌≡◌, refl, ap}
use native.Mathlib.Nat.{pow-suc, one-le-pow, add-zero}
use native.Mathlib.Omega.{arith}
use Prim.Native.Nat.{bit_or-bitwise}
use Step.{halves_or, halves_and}

bit_or-zero_upto : (n a : ℕ) → a ≤ n → bit_or a 0 ≡ a
bit_or-zero_upto n zero h = refl
bit_or-zero_upto zero (suc a) h = absurd (omega arith)
bit_or-zero_upto (suc n) (suc a) h =
    omega (arith, halves_or (suc a) 0, bit_or-zero_upto n (suc a / 2) (omega arith))

bit_and-zero_upto : (n a : ℕ) → a ≤ n → bit_and a 0 ≡ 0
bit_and-zero_upto n zero h = refl
bit_and-zero_upto zero (suc a) h = absurd (omega arith)
bit_and-zero_upto (suc n) (suc a) h =
    omega (arith, halves_and (suc a) 0, bit_and-zero_upto n (suc a / 2) (omega arith))

pub bit_or-zero : (a : ℕ) → bit_or a 0 ≡ a
bit_or-zero a = bit_or-zero_upto a a (omega arith)

pub zero-bit_or : (b : ℕ) → bit_or 0 b ≡ b
zero-bit_or b = bit_or-bitwise 0 b

bit_and-zero : (a : ℕ) → bit_and a 0 ≡ 0
bit_and-zero a = bit_and-zero_upto a a (omega arith)

mul-two_pow_suc : (q k : ℕ) → q * 2 ^ suc k ≡ 2 * (q * 2 ^ k)
mul-two_pow_suc q k = omega (arith, ap (λ (t : ℕ). q * t) (pow-suc 2 k))

-- Bits below position `k` are set without touching the field above them.
pub bit_or_low :
    (k q a b : ℕ) → a < 2 ^ k → b < 2 ^ k → bit_or (q * 2 ^ k + a) b ≡ q * 2 ^ k + bit_or a b
bit_or_low zero q zero zero ha hb = ground (arith, bit_or-zero q)
bit_or_low zero q (suc a) b ha hb = absurd (omega arith)
bit_or_low zero q zero (suc b) ha hb = absurd (omega arith)
bit_or_low (suc k) q a b ha hb = ground (
  arith,
  halves_or (q * 2 ^ suc k + a) b,
  halves_or a b,
  mul-two_pow_suc q k,
  pow-suc 2 k,
  bit_or_low k q (a / 2) (b / 2) (omega (arith, pow-suc 2 k)) (omega (arith, pow-suc 2 k)),
)

bit_and_low : (k q r : ℕ) → r < 2 ^ k → bit_and (q * 2 ^ k + r) (2 ^ k - 1) ≡ r
bit_and_low zero q r h = omega (arith, bit_and-zero (q * 2 ^ 0 + r))
bit_and_low (suc k) q r h =
    let below : r / 2 < 2 ^ k = omega (arith, pow-suc 2 k) in
    ground (
      arith,
      one-le-pow k 2,
      pow-suc 2 k,
      mul-two_pow_suc q k,
      bit_and_low k q (r / 2) below,
      halves_and (q * 2 ^ suc k + r) (2 ^ suc k - 1),
    )

-- A mask of `k` low bits is the remainder by `2 ^ k`.
pub bit_and_mask : (k a : ℕ) → bit_and a (2 ^ k - 1) ≡ a % 2 ^ k
bit_and_mask k a = ground (arith, one-le-pow k 2, bit_and_low k (a / 2 ^ k) (a % 2 ^ k))

-- A field shifted past `k` bits, with bits below it set.
pub bit_or_field : (k q b : ℕ) → b < 2 ^ k → bit_or (q * 2 ^ k) b ≡ q * 2 ^ k + b
bit_or_field k q b hb =
    rw (add-zero, zero-bit_or) at (bit_or_low k q 0 b (omega (arith, one-le-pow k 2)) hb)

-- Fields shifted past `k` bits meet as the fields do.
pub bit_and_shifted : (k q r : ℕ) → bit_and (q * 2 ^ k) (r * 2 ^ k) ≡ bit_and q r * 2 ^ k
bit_and_shifted zero q r = ground arith
bit_and_shifted (suc k) q r = ground (
  arith,
  halves_and (q * 2 ^ suc k) (r * 2 ^ suc k),
  mul-two_pow_suc q k,
  mul-two_pow_suc r k,
  mul-two_pow_suc (bit_and q r) k,
  bit_and_shifted k q r,
)
