-- ===== src/PageTable/KernelWalk.antt =====
-- The part that all four architectures share: one directory, whose entries lead to a run of tables
-- of 4 KiB pages, maps the kernel's pages one after the other.
use alpheratz.Prelude.{
  ℕ, ◌+◌, ◌*◌, ◌/◌, ◌%◌, ◌^◌, ◌≤◌, ◌<◌, ◌≡◌, ◌∙◌, ap, arith, some, none, ltb, if◌then◌else◌,
}
use alpheratz.Memory.{Memory, add}
use alpheratz.PageTable.Walk.{
  Decoder, invalid, table, page, index, walk, walk-table, walk-page, walk-invalid,
}

module _ (decode : Decoder) (m : Memory) (directory tables kernel_phys pages : ℕ)
    (link : (j : ℕ)
      → j < (pages + 511) / 512
      → decode 1 (m (add directory j)) ≡ table (tables + j * 4096))
    (leaf : (j : ℕ) → j < pages → decode 0 (m (add tables j)) ≡ page (kernel_phys + j * 4096)) where
  -- The word that holds the page of `va` in the run of tables.
  word : (va : ℕ) → add (tables + index 1 va * 4096) (index 0 va) ≡ add tables (va % 2 ^ 30 / 4096)
  word va = omega arith

  to_tables :
      (va : ℕ)
      → va % 2 ^ 30 < (pages + 511) / 512 * 2 ^ 21
      → walk decode 1 m directory va ≡ walk decode 0 m (tables + index 1 va * 4096) va
  to_tables va h = walk-table decode m 0 directory va _ (link (index 1 va) (omega arith))

  -- An address in the kernel's pages leads to where the kernel was loaded.
  pub kernel_inside :
      (va : ℕ)
      → va % 2 ^ 30 < pages * 4096
      → walk decode 1 m directory va ≡ some (kernel_phys + va % 2 ^ 30)
  kernel_inside va h =
      to_tables va (omega arith)
      ∙ walk-page decode m 0 _ va (kernel_phys + va % 2 ^ 30 / 4096 * 4096)
          (ap (λ a. decode 0 (m a)) (word va) ∙ leaf (va % 2 ^ 30 / 4096) (omega arith))
      ∙ ap some (omega arith)

  module _
      (leaf_gap : (j : ℕ)
        → pages ≤ j
        → j < (pages + 511) / 512 * 512
        → decode 0 (m (add tables j)) ≡ invalid) where
    pub kernel_gap :
        (va : ℕ)
        → pages * 4096 ≤ va % 2 ^ 30
        → va % 2 ^ 30 < (pages + 511) / 512 * 2 ^ 21
        → walk decode 1 m directory va ≡ none
    kernel_gap va h h' =
        to_tables va h'
        ∙ walk-invalid decode m 0 _ va (
            ap (λ a. decode 0 (m a)) (word va)
            ∙ leaf_gap (va % 2 ^ 30 / 4096) (omega arith) (omega arith))

    module _
        (link_gap : (j : ℕ)
          → (pages + 511) / 512 ≤ j
          → j < 512
          → decode 1 (m (add directory j)) ≡ invalid) where
      kernel_beyond :
          (va : ℕ)
          → (pages + 511) / 512 * 2 ^ 21 ≤ va % 2 ^ 30
          → walk decode 1 m directory va ≡ none
      kernel_beyond va h =
          walk-invalid decode m 1 directory va (link_gap (index 1 va) (omega arith) (omega arith))

      -- Every address of the directory's 1 GiB leads to its kernel page, or nowhere.
      pub kernel_walk :
          (va : ℕ)
          → walk decode 1 m directory va
            ≡ (if ltb (va % 2 ^ 30) (pages * 4096) then some (kernel_phys + va % 2 ^ 30) else none)
      kernel_walk va = ground (arith, kernel_inside va, kernel_gap va, kernel_beyond va)
