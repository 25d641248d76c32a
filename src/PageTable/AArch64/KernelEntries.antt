-- ===== src/PageTable/AArch64/KernelEntries.antt =====
-- The words of the kernel's tables, and of the TTBR1 root, after `init_page_tables` of
-- src/page_table/aarch64.rs.
use alpheratz.Prelude.{
  ℕ, ◌+◌, ◌*◌, ◌≤◌, ◌<◌, ◌≡◌, ◌≢◌, refl, ◌∙◌, ◌⊎◌, inl, inr, arith, bit_or, ◌+u◌, ◌*u◌,
}
use alpheratz.Memory.{Memory, add, fill-sets, write-eq, write-ne}
use alpheratz.PageTable.AArch64.{
  PageTableConfig, page_size, table_desc, page_desc, normal_mem_attrs, fill_l2, fill_l3,
  fill_tables,
}
use alpheratz.PageTable.AArch64.Layout.{IsLaidOut}
use alpheratz.PageTable.AArch64.Entries.{
  fill_blocks-keeps, fill_l2-keeps, fill_l3-keeps, cleared-eq,
}

module _ (cfg : PageTableConfig) (l : IsLaidOut cfg) (m : Memory) where
  pub ttbr1_kernel : fill_tables cfg m (add cfg.ttbr1_l0 0) ≡ bit_or cfg.l1_kernel table_desc
  unfolding fill_tables
  ttbr1_kernel =
      fill_blocks-keeps _ _ _ (inl (omega arith))
      ∙ write-ne _ _ _ _ (omega arith)
      ∙ fill_l3-keeps cfg l _ _ (inl (omega arith))
      ∙ fill_l2-keeps cfg l _ _ (inl (omega arith))
      ∙ write-ne _ _ _ _ (omega arith)
      ∙ write-eq _ _ _ _ refl

  pub ttbr1_other : (i : ℕ) → 0 < i → i < 512 → i ≢ 256 → fill_tables cfg m (add cfg.ttbr1_l0 i) ≡ 0
  unfolding fill_tables
  ttbr1_other i h h' ne =
      fill_blocks-keeps _ _ _ (inl (omega arith))
      ∙ write-ne _ _ _ _ (omega arith)
      ∙ fill_l3-keeps cfg l _ _ (inl (omega arith))
      ∙ fill_l2-keeps cfg l _ _ (inl (omega arith))
      ∙ write-ne _ _ _ _ (omega arith)
      ∙ write-ne _ _ _ _ (omega arith)
      ∙ fill_blocks-keeps _ _ _ (inr (omega arith))
      ∙ write-ne _ _ _ _ (omega arith)
      ∙ cleared-eq cfg l m _ (omega arith) (omega arith)

  pub l1_kernel_entry : fill_tables cfg m (add cfg.l1_kernel 0) ≡ bit_or cfg.l2_kernel table_desc
  unfolding fill_tables
  l1_kernel_entry =
      fill_blocks-keeps _ _ _ (inl (omega arith))
      ∙ write-ne _ _ _ _ (omega arith)
      ∙ fill_l3-keeps cfg l _ _ (inl (omega arith))
      ∙ fill_l2-keeps cfg l _ _ (inl (omega arith))
      ∙ write-eq _ _ _ _ refl

  -- Where the L3 and L2 loops and the link of L1_KERNEL wrote nothing, the page is clear.
  kernel_gap :
      (a : ℕ)
      → cfg.l1_kernel < a
      → (a < cfg.l1_kernel + 0x1000) ⊎ (add cfg.l2_kernel cfg.l3_count ≤ a)
      → (a < cfg.l1_phys_map) ⊎ (add cfg.l3_base cfg.kernel_4k_pages ≤ a)
      → a < cfg.l3_base + cfg.l3_count * 4096
      → fill_tables cfg m a ≡ 0
  unfolding fill_tables
  kernel_gap a h o o' h' =
      fill_blocks-keeps _ _ a (omega arith)
      ∙ write-ne _ _ _ a (omega arith)
      ∙ fill_l3-keeps cfg l _ a (omega arith)
      ∙ fill_l2-keeps cfg l _ a (omega arith)
      ∙ write-ne _ _ _ a (omega arith)
      ∙ write-ne _ _ _ a (omega arith)
      ∙ fill_blocks-keeps _ _ a (inr (omega arith))
      ∙ write-ne _ _ _ a (omega arith)
      ∙ cleared-eq cfg l m a (omega arith) (omega arith)

  pub l1_kernel_gap : (j : ℕ) → 0 < j → j < 512 → fill_tables cfg m (add cfg.l1_kernel j) ≡ 0
  l1_kernel_gap j h h' =
      kernel_gap _ (omega arith) (inl (omega arith)) (inl (omega arith)) (omega arith)

  pub l2_entry :
      (j : ℕ)
      → j < cfg.l3_count
      → fill_tables cfg m (add cfg.l2_kernel j) ≡ bit_or (cfg.l3_base +u j *u page_size) table_desc
  unfolding fill_tables fill_l2
  l2_entry j h =
      fill_blocks-keeps _ _ _ (inl (omega arith))
      ∙ write-ne _ _ _ _ (omega arith)
      ∙ fill_l3-keeps cfg l _ _ (inl (omega arith))
      ∙ fill-sets cfg.l3_count cfg.l2_kernel _ _ _ (λ i h'. refl) j h

  pub l2_gap : (j : ℕ) → cfg.l3_count ≤ j → j < 512 → fill_tables cfg m (add cfg.l2_kernel j) ≡ 0
  l2_gap j h h' = kernel_gap _ (omega arith) (inr (omega arith)) (inl (omega arith)) (omega arith)

  pub l3_entry :
      (j : ℕ)
      → j < cfg.kernel_4k_pages
      → fill_tables cfg m (add cfg.l3_base j)
        ≡ bit_or (bit_or (cfg.kernel_phys +u j *u page_size) normal_mem_attrs) page_desc
  unfolding fill_tables fill_l3
  l3_entry j h =
      fill_blocks-keeps _ _ _ (inr (omega arith))
      ∙ write-ne _ _ _ _ (omega arith)
      ∙ fill-sets cfg.kernel_4k_pages cfg.l3_base _ _ _ (λ i h'. omega arith) j h

  pub l3_gap :
      (j : ℕ)
      → cfg.kernel_4k_pages ≤ j
      → j < cfg.l3_count * 512
      → fill_tables cfg m (add cfg.l3_base j) ≡ 0
  l3_gap j h h' = kernel_gap _ (omega arith) (inr (omega arith)) (inr (omega arith)) (omega arith)
