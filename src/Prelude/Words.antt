-- ===== src/Prelude/Words.antt =====
-- Rust's `u64` and `usize`, both 64 bits wide on every target. The operators wrap, as they do in
-- a release build (a debug build panics where the result would differ).
use Prim.Native.Nat.{ℕ, ◌+◌, ◌-◌, ◌*◌, ◌/◌, ◌%◌, ◌^◌}

infixl 65 ◌+u◌ ◌-u◌
infixl 70 ◌*u◌
infixl 75 ◌<<<◌ ◌>>>◌
abbrev pub ◌+u◌ : ℕ → ℕ → ℕ
a +u b = (a + b) % 2 ^ 64

-- `-` on ℕ stops at 0, so the modulus is added first.
abbrev pub ◌-u◌ : ℕ → ℕ → ℕ
a -u b = (a + 2 ^ 64 - b) % 2 ^ 64

abbrev pub ◌*u◌ : ℕ → ℕ → ℕ
a *u b = a * b % 2 ^ 64

-- Bits shifted out on the left are lost.
abbrev pub ◌<<<◌ : ℕ → ℕ → ℕ
a <<< k = a * 2 ^ k % 2 ^ 64

abbrev pub ◌>>>◌ : ℕ → ℕ → ℕ
a >>> k = a / 2 ^ k
