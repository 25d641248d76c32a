-- ===== src/PageTable/AArch64/Entries.antt =====
-- The word that `init_page_tables` of src/page_table/aarch64.rs leaves at each entry, and all words
-- outside the allocated pages.
use alpheratz.Prelude.{
  ℕ, ◌+◌, ◌*◌, ◌≤◌, ◌<◌, ◌≡◌, refl, ◌∙◌, ◌⊎◌, inl, inr, arith, bit_or, ◌+u◌, ◌*u◌, ◌<<<◌,
}
use alpheratz.Memory.{
  Memory, add, fill-sets, fill-keeps, write-eq, write-ne, write_zeros, write_zeros-inside,
  write_zeros-outside,
}
use alpheratz.PageTable.AArch64.{
  PageTableConfig, page_size, table_desc, block_desc, normal_mem_attrs, fill_blocks, fill_l2,
  fill_l3, fill_tables,
}
use alpheratz.PageTable.AArch64.Layout.{IsLaidOut}

abbrev pub block : ℕ → ℕ
block i = bit_or (bit_or (i <<< 30) normal_mem_attrs) block_desc

fill_blocks-sets : (l1 j : ℕ) (m : Memory) → j < 4 → fill_blocks l1 m (add l1 j) ≡ block j
unfolding fill_blocks
fill_blocks-sets l1 j m h = fill-sets 4 l1 _ _ m (λ i h'. refl) j h

pub fill_blocks-keeps :
    (l1 : ℕ) (m : Memory) (a : ℕ) → (a < l1) ⊎ (add l1 4 ≤ a) → fill_blocks l1 m a ≡ m a
unfolding fill_blocks
fill_blocks-keeps l1 m a o = fill-keeps 4 l1 _ _ m (λ i h. refl) a o

module _ (cfg : PageTableConfig) (l : IsLaidOut cfg) where
  pub fill_l2-keeps :
      (m : Memory) (a : ℕ)
      → (a < cfg.l2_kernel) ⊎ (add cfg.l2_kernel cfg.l3_count ≤ a)
      → fill_l2 cfg.l2_kernel cfg.l3_base cfg.l3_count m a ≡ m a
  unfolding fill_l2
  fill_l2-keeps m a o = fill-keeps cfg.l3_count cfg.l2_kernel _ _ m (λ i h. refl) a o

  pub fill_l3-keeps :
      (m : Memory) (a : ℕ)
      → (a < cfg.l3_base) ⊎ (add cfg.l3_base cfg.kernel_4k_pages ≤ a)
      → fill_l3 cfg.l3_base cfg.kernel_phys cfg.kernel_4k_pages m a ≡ m a
  unfolding fill_l3
  fill_l3-keeps m a o = fill-keeps cfg.kernel_4k_pages cfg.l3_base _ _ m (λ i h. omega arith) a o

  module _ (m : Memory) where
    abbrev pub cleared : Memory
    cleared = write_zeros m cfg.ttbr0_l0 (page_size *u (6 +u cfg.l3_count))

    pub cleared-eq :
        (a : ℕ) → cfg.ttbr0_l0 ≤ a → a < cfg.l3_base + cfg.l3_count * 4096 → cleared a ≡ 0
    cleared-eq a h h' = write_zeros-inside m _ _ a h (omega arith)

    pub ttbr0_low : fill_tables cfg m (add cfg.ttbr0_l0 0) ≡ bit_or cfg.l1_low table_desc
    unfolding fill_tables
    ttbr0_low =
        fill_blocks-keeps _ _ _ (inl (omega arith))
        ∙ write-ne _ _ _ _ (omega arith)
        ∙ fill_l3-keeps _ _ (inl (omega arith))
        ∙ fill_l2-keeps _ _ (inl (omega arith))
        ∙ write-ne _ _ _ _ (omega arith)
        ∙ write-ne _ _ _ _ (omega arith)
        ∙ fill_blocks-keeps _ _ _ (inl (omega arith))
        ∙ write-eq _ _ _ _ refl

    pub ttbr0_other : (i : ℕ) → 0 < i → i < 512 → fill_tables cfg m (add cfg.ttbr0_l0 i) ≡ 0
    unfolding fill_tables
    ttbr0_other i h h' =
        fill_blocks-keeps _ _ _ (inl (omega arith))
        ∙ write-ne _ _ _ _ (omega arith)
        ∙ fill_l3-keeps _ _ (inl (omega arith))
        ∙ fill_l2-keeps _ _ (inl (omega arith))
        ∙ write-ne _ _ _ _ (omega arith)
        ∙ write-ne _ _ _ _ (omega arith)
        ∙ fill_blocks-keeps _ _ _ (inl (omega arith))
        ∙ write-ne _ _ _ _ (omega arith)
        ∙ cleared-eq _ (omega arith) (omega arith)

    -- What follows the blocks of L1_LOW leaves them alone.
    l1_low_as_filled :
        (a : ℕ)
        → cfg.l1_low ≤ a
        → a < cfg.l1_low + 0x1000
        → (k : Memory) × (fill_tables cfg m a ≡ fill_blocks cfg.l1_low k a) × (k a ≡ 0)
    unfolding fill_tables
    l1_low_as_filled a h h' = (
      _,
      fill_blocks-keeps _ _ a (inl (omega arith))
          ∙ write-ne _ _ _ a (omega arith)
          ∙ fill_l3-keeps _ a (inl (omega arith))
          ∙ fill_l2-keeps _ a (inl (omega arith))
          ∙ write-ne _ _ _ a (omega arith)
          ∙ write-ne _ _ _ a (omega arith),
      write-ne _ _ _ a (omega arith) ∙ cleared-eq a (omega arith) (omega arith),
    )

    pub l1_low_entry : (j : ℕ) → j < 4 → fill_tables cfg m (add cfg.l1_low j) ≡ block j
    l1_low_entry j h =
        let (k, e, z) = l1_low_as_filled (add cfg.l1_low j) (omega arith) (omega arith) in
        e ∙ fill_blocks-sets _ j k h

    pub l1_low_gap : (j : ℕ) → 4 ≤ j → j < 512 → fill_tables cfg m (add cfg.l1_low j) ≡ 0
    l1_low_gap j h h' =
        let (k, e, z) = l1_low_as_filled (add cfg.l1_low j) (omega arith) (omega arith) in
        e ∙ fill_blocks-keeps _ k _ (inr (omega arith)) ∙ z

    pub ttbr1_phys_map :
        fill_tables cfg m (add cfg.ttbr1_l0 256) ≡ bit_or cfg.l1_phys_map table_desc
    unfolding fill_tables
    ttbr1_phys_map = fill_blocks-keeps _ _ _ (inl (omega arith)) ∙ write-eq _ _ _ _ refl

    pub l1_phys_map_entry : (j : ℕ) → j < 4 → fill_tables cfg m (add cfg.l1_phys_map j) ≡ block j
    unfolding fill_tables
    l1_phys_map_entry j h = fill_blocks-sets _ j _ h

    pub l1_phys_map_gap : (j : ℕ) → 4 ≤ j → j < 512 → fill_tables cfg m (add cfg.l1_phys_map j) ≡ 0
    unfolding fill_tables
    l1_phys_map_gap j h h' =
        fill_blocks-keeps _ _ _ (inr (omega arith))
        ∙ write-ne _ _ _ _ (omega arith)
        ∙ fill_l3-keeps _ _ (inl (omega arith))
        ∙ fill_l2-keeps _ _ (inr (omega arith))
        ∙ write-ne _ _ _ _ (omega arith)
        ∙ write-ne _ _ _ _ (omega arith)
        ∙ fill_blocks-keeps _ _ _ (inr (omega arith))
        ∙ write-ne _ _ _ _ (omega arith)
        ∙ cleared-eq _ (omega arith) (omega arith)

    -- Nothing outside the allocated pages changes.
    pub outside :
        (a : ℕ)
        → (a < cfg.ttbr0_l0) ⊎ (cfg.ttbr0_l0 + (6 + cfg.l3_count) * 4096 ≤ a)
        → fill_tables cfg m a ≡ m a
    unfolding fill_tables
    outside a o =
        fill_blocks-keeps _ _ a (omega arith)
        ∙ write-ne _ _ _ a (omega arith)
        ∙ fill_l3-keeps _ a (omega arith)
        ∙ fill_l2-keeps _ a (omega arith)
        ∙ write-ne _ _ _ a (omega arith)
        ∙ write-ne _ _ _ a (omega arith)
        ∙ fill_blocks-keeps _ _ a (omega arith)
        ∙ write-ne _ _ _ a (omega arith)
        ∙ write_zeros-outside m _ _ a (omega arith)
