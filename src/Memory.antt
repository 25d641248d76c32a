-- ===== src/Memory.antt =====
-- Physical memory, as the loader's raw pointers see it: the 64-bit words by the address of their
-- first byte. Every access in the program is to a word whose address is a multiple of 8, so words
-- never overlap. Also the loops `for i in 0..n` that fill tables with such writes.
use alpheratz.Prelude.{
  ℕ, zero, suc, ◌+◌, ◌*◌, ◌≤◌, ◌<◌, ◌≡◌, ◌≢◌, refl, ◌⊎◌, ◌&&◌, arith, leb, ltb, ◌==◌, if◌then◌else◌,
}

abbrev pub Memory : Type 0
Memory = ℕ → ℕ

-- `ptr.add(i)` for `ptr: *mut u64`.
abbrev pub add : ℕ → ℕ → ℕ
add ptr i = ptr + 8 * i

-- `*ptr = value`
unfoldable pub write : Memory → ℕ → ℕ → Memory
write m ptr value a = if ptr == a then value else m a

-- `core::ptr::write_bytes(ptr as *mut u8, 0, count)`
unfoldable pub write_zeros : Memory → ℕ → ℕ → Memory
write_zeros m ptr count a = if leb ptr a && ltb a (ptr + count) then 0 else m a

-- `for i in 0..n { s = body(i, s) }`: the last round is the outermost call.
unfoldable pub for_range {ℓ} : {S : Type ℓ} → ℕ → (ℕ → S → S) → S → S
for_range zero body s = s
for_range (suc n) body s = body n (for_range n body s)

pub write-eq : (m : Memory) (p v a : ℕ) → p ≡ a → write m p v a ≡ v
unfolding write
write-eq m p v a h = ground arith

pub write-ne : (m : Memory) (p v a : ℕ) → p ≢ a → write m p v a ≡ m a
unfolding write
write-ne m p v a h = ground arith

pub write_zeros-inside : (m : Memory) (p n a : ℕ) → p ≤ a → a < p + n → write_zeros m p n a ≡ 0
unfolding write_zeros
write_zeros-inside m p n a l h = ground arith

pub write_zeros-outside :
    (m : Memory) (p n a : ℕ) → (a < p) ⊎ (p + n ≤ a) → write_zeros m p n a ≡ m a
unfolding write_zeros
write_zeros-outside m p n a h = ground arith

-- A loop whose rounds leave a word alone leaves it alone.
pub for_range-keeps :
    (n : ℕ) (body : ℕ → Memory → Memory) (m : Memory) (a : ℕ)
    → ((i : ℕ) (k : Memory) → i < n → body i k a ≡ k a)
    → for_range n body m a ≡ m a
unfolding for_range
for_range-keeps zero body m a keep = refl
for_range-keeps (suc n) body m a keep = ground (
  arith,
  keep n (for_range n body m),
  for_range-keeps n body m a (λ i k h. keep i k (omega arith)),
)

-- A word that round `j` sets, and that the later rounds leave alone, keeps that value.
pub for_range-sets :
    (n : ℕ) (body : ℕ → Memory → Memory) (m : Memory) (a v j : ℕ)
    → j < n
    → ((k : Memory) → body j k a ≡ v)
    → ((i : ℕ) (k : Memory) → i < n → j < i → body i k a ≡ k a)
    → for_range n body m a ≡ v
unfolding for_range
for_range-sets zero body m a v j h sets keep = absurd (omega arith)
for_range-sets (suc n) body m a v j h sets keep =
    ground
      (arith, sets (for_range n body m), keep n (for_range n body m), for_range-sets n body m a v j)

-- A loop that writes the words from `ptr` on: word `j` is what round `j` wrote.
module _ (n ptr : ℕ) (address value : ℕ → ℕ) (m : Memory)
    (from_ptr : (i : ℕ) → i < n → address i ≡ add ptr i) where
  pub fill-sets :
      (j : ℕ) → j < n → for_range n (λ i k. write k (address i) (value i)) m (add ptr j) ≡ value j
  fill-sets j h =
      for_range-sets n _ m (add ptr j) (value j) j h (λ k. write-eq k _ _ _ (from_ptr j h))
        (λ i k p q. write-ne k _ _ _ (omega (arith, from_ptr i p)))

  pub fill-keeps :
      (a : ℕ)
      → (a < ptr) ⊎ (add ptr n ≤ a)
      → for_range n (λ i k. write k (address i) (value i)) m a ≡ m a
  fill-keeps a out = for_range-keeps n _ m a λ i k h. write-ne k _ _ _ (omega (arith, from_ptr i h))
