-- ===== src/PageTable/Entry.antt =====
-- Entries of page tables as sums: the flags of an entry lie below the bits of its address.
use alpheratz.Prelude.{ℕ, ◌+◌, ◌*◌, ◌/◌, ◌%◌, ◌<◌, ◌≡◌, bit_or, arith}
use alpheratz.Prelude.Bits.{bit_or_low, zero-bit_or}
use native.Mathlib.Nat.{add-zero}

module _ (address : ℕ) (aligned : address % 4096 ≡ 0) where
  pub bit_or_flags : (a b : ℕ) → a < 4096 → b < 4096 → bit_or (address + a) b ≡ address + bit_or a b
  bit_or_flags a b ha hb =
      let whole : address ≡ address / 4096 * 4096 = omega arith in
      rw whole (bit_or_low 12 (address / 4096) a b ha hb)

  pub bit_or_flag : (b : ℕ) → b < 4096 → bit_or address b ≡ address + b
  bit_or_flag b hb = rw (add-zero, zero-bit_or) at (bit_or_flags 0 b (omega arith) hb)
