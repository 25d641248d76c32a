-- ===== src/Canicula/Words.antt =====
-- Physical memory by the byte, as src/boot/canicula/x86_64.rs copies segments into it, and by the
-- little-endian word, as src/page_table/x86_64.rs writes table entries to it.
use alpheratz.Prelude.{
  ℕ, zero, suc, ◌+◌, ◌*◌, ◌/◌, ◌%◌, ◌^◌, ◌<◌, ◌≡◌, refl, ◌∙◌, ap, sym, arith, Option, ◌⊎◌, inl, inr,
}
use alpheratz.Memory.{Memory, add}
use alpheratz.PageTable.Walk.{
  Slot, invalid, table, page, walk, index, walk-table, walk-page, walk-invalid,
}
use alpheratz.PageTable.X64.Decode.{decode}
use alpheratz.Canicula.{Bytes, Handover}

-- The word whose first byte is at an address.
unfoldable pub words_of : Bytes → Memory
words_of m a =
    m a % 256
    + m (a + 1) % 256 * 0x100
    + m (a + 2) % 256 * 0x1_0000
    + m (a + 3) % 256 * 0x100_0000
    + m (a + 4) % 256 * 0x1_0000_0000
    + m (a + 5) % 256 * 0x100_0000_0000
    + m (a + 6) % 256 * 0x1_0000_0000_0000
    + m (a + 7) % 256 * 0x100_0000_0000_0000

-- The byte of a word, the lowest first.
pub byte_of : ℕ → ℕ → ℕ
byte_of word zero = word % 256
byte_of word (suc i) = byte_of (word / 256) i

unfoldable pub bytes_of : Memory → Bytes
bytes_of m a = byte_of (m (a / 8 * 8)) (a % 8)

words_of_lem :
    (m : Bytes) (a : ℕ)
    → words_of m a
      ≡ m a % 256
        + m (a + 1) % 256 * 0x100
        + m (a + 2) % 256 * 0x1_0000
        + m (a + 3) % 256 * 0x100_0000
        + m (a + 4) % 256 * 0x1_0000_0000
        + m (a + 5) % 256 * 0x100_0000_0000
        + m (a + 6) % 256 * 0x1_0000_0000_0000
        + m (a + 7) % 256 * 0x100_0000_0000_0000
unfolding words_of
words_of_lem m a = refl

byte_of-words_of : (m : Bytes) (a i : ℕ) → i < 8 → byte_of (words_of m a) i ≡ m (a + i) % 256
unfolding byte_of
byte_of-words_of m a zero h =
    let first : m (a + 0) ≡ m a = ap m (omega arith) in omega (arith, first, words_of_lem m a)
byte_of-words_of m a (suc zero) h = omega (arith, words_of_lem m a)
byte_of-words_of m a (suc (suc zero)) h = omega (arith, words_of_lem m a)
byte_of-words_of m a (suc (suc (suc zero))) h = omega (arith, words_of_lem m a)
byte_of-words_of m a (suc (suc (suc (suc zero)))) h = omega (arith, words_of_lem m a)
byte_of-words_of m a (suc (suc (suc (suc (suc zero))))) h = omega (arith, words_of_lem m a)
byte_of-words_of m a (suc (suc (suc (suc (suc (suc zero)))))) h = omega (arith, words_of_lem m a)
byte_of-words_of m a (suc (suc (suc (suc (suc (suc (suc zero))))))) h =
    omega (arith, words_of_lem m a)
byte_of-words_of m a (suc (suc (suc (suc (suc (suc (suc (suc i)))))))) h = absurd (omega arith)

pub bytes_of-words_of : (m : Bytes) (a : ℕ) → bytes_of (words_of m) a ≡ m a % 256
unfolding bytes_of
bytes_of-words_of m a =
    byte_of-words_of m (a / 8 * 8) (a % 8) (omega arith) ∙ ap (λ b. m b % 256) (omega arith)

bytes_of-at : (m : Memory) (a i : ℕ) → a % 8 ≡ 0 → i < 8 → bytes_of m (a + i) ≡ byte_of (m a) i
unfolding bytes_of
bytes_of-at m a i aligned h =
    ap (λ b. byte_of (m b) ((a + i) % 8)) (omega (arith, aligned))
    ∙ ap (byte_of (m a)) (omega (arith, aligned))

pub words_of-bytes_of : (m : Memory) (a : ℕ) → a % 8 ≡ 0 → words_of (bytes_of m) a ≡ m a % 2 ^ 64
unfolding byte_of
words_of-bytes_of m a h =
    let first : bytes_of m a ≡ byte_of (m a) 0 =
      ap (bytes_of m) {x = a} {y = a + 0} (omega arith) ∙ bytes_of-at m a 0 h (omega arith) in
    omega (
      arith,
      words_of_lem (bytes_of m) a,
      first,
      bytes_of-at m a 1 h (omega arith),
      bytes_of-at m a 2 h (omega arith),
      bytes_of-at m a 3 h (omega arith),
      bytes_of-at m a 4 h (omega arith),
      bytes_of-at m a 5 h (omega arith),
      bytes_of-at m a 6 h (omega arith),
      bytes_of-at m a 7 h (omega arith),
    )

-- A table entry is 64 bits.
decode-word : (level entry : ℕ) → decode level (entry % 2 ^ 64) ≡ decode level entry
decode-word zero entry = ground arith
decode-word (suc level) entry = ground arith

-- Tables start on page boundaries.
decode-aligned : (level entry t : ℕ) → decode (suc level) entry ≡ table t → t % 8 ≡ 0
decode-aligned level entry t e = ground arith

Slot-cases : (s : Slot) → (s ≡ invalid) ⊎ ((t : ℕ) × (s ≡ table t)) ⊎ ((p : ℕ) × (s ≡ page p))
Slot-cases invalid = inl refl
Slot-cases (table t) = inr (inl (t, refl))
Slot-cases (page p) = inr (inr (p, refl))

module _ (m : Memory) where
  same_slot :
      (level root i : ℕ)
      → root % 8 ≡ 0
      → decode level (words_of (bytes_of m) (add root i)) ≡ decode level (m (add root i))
  same_slot level root i h =
      ap (decode level) (words_of-bytes_of m (add root i) (omega (arith, h)))
      ∙ decode-word level (m (add root i))

  -- The processor finds the entries that the bytes were made from.
  pub walk-words_of :
      (level root va : ℕ)
      → root % 8 ≡ 0
      → walk decode level (words_of (bytes_of m)) root va ≡ walk decode level m root va
  unfolding walk
  walk-words_of zero root va h = rw (walk, same_slot 0 root (index 0 va) h) refl
  walk-words_of (suc level) root va h =
      let same = same_slot (suc level) root (index (suc level) va) h in
      elim (Slot-cases (decode (suc level) (m (add root (index (suc level) va))))) [
        | inl e ↦
            walk-invalid decode (words_of (bytes_of m)) (suc level) root va (same ∙ e)
            ∙ sym (walk-invalid decode m (suc level) root va e)
        | inr (inl (t, e)) ↦
            walk-table decode (words_of (bytes_of m)) level root va t (same ∙ e)
            ∙ walk-words_of level t va
                (decode-aligned level (m (add root (index (suc level) va))) t e)
            ∙ sym (walk-table decode m level root va t e)
        | inr (inr (p, e)) ↦
            walk-page decode (words_of (bytes_of m)) (suc level) root va p (same ∙ e)
            ∙ sym (walk-page decode m (suc level) root va p e)
      ]

-- A byte depends on its word.
pub bytes_of-eq :
    (m k : Memory) (a : ℕ) → m (a / 8 * 8) ≡ k (a / 8 * 8) → bytes_of m a ≡ bytes_of k a
unfolding bytes_of
bytes_of-eq m k a e = ap (λ w. byte_of w (a % 8)) e

-- Where the processor finds an address at the jump.
abbrev pub mmu : Handover → ℕ → Option ℕ
mmu h = walk decode 3 (words_of h.memory) h.cr3
