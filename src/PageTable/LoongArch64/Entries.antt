-- ===== src/PageTable/LoongArch64/Entries.antt =====
-- The word that `init_page_tables` of src/page_table/loongarch64.rs leaves at the entries that the
-- kernel's addresses go through, at the rest of the last tables, and outside the allocated pages.
use alpheratz.Prelude.{
  ℕ, ◌+◌, ◌*◌, ◌≤◌, ◌<◌, ◌≡◌, refl, ◌∙◌, ◌⊎◌, inl, inr, arith, bit_or, ◌+u◌, ◌*u◌,
}
use alpheratz.Memory.{
  Memory, add, fill-sets, fill-keeps, write-eq, write-ne, write_zeros-inside, write_zeros-outside,
}
use alpheratz.PageTable.LoongArch64.{
  PageTableConfig, page_size, leaf_attrs, fill_pmd, fill_pte, fill_tables,
}
use alpheratz.PageTable.LoongArch64.Layout.{IsLaidOut}

module _ (cfg : PageTableConfig) (l : IsLaidOut cfg) (m : Memory) where
  fill_pmd-keeps :
      (k : Memory) (a : ℕ)
      → (a < cfg.pmd_kernel) ⊎ (add cfg.pmd_kernel cfg.pte_count ≤ a)
      → fill_pmd cfg.pmd_kernel cfg.pte_base cfg.pte_count k a ≡ k a
  unfolding fill_pmd
  fill_pmd-keeps k a o = fill-keeps cfg.pte_count cfg.pmd_kernel _ _ k (λ i h. refl) a o

  fill_pte-keeps :
      (k : Memory) (a : ℕ)
      → (a < cfg.pte_base) ⊎ (add cfg.pte_base cfg.kernel_4k_pages ≤ a)
      → fill_pte cfg.pte_base cfg.kernel_phys cfg.kernel_4k_pages k a ≡ k a
  unfolding fill_pte
  fill_pte-keeps k a o = fill-keeps cfg.kernel_4k_pages cfg.pte_base _ _ k (λ i h. omega arith) a o

  pub pgd_entry : fill_tables cfg m (add cfg.pgd 510) ≡ cfg.pud_kernel
  unfolding fill_tables
  pgd_entry =
      fill_pte-keeps _ _ (inl (omega arith))
      ∙ fill_pmd-keeps _ _ (inl (omega arith))
      ∙ write-ne _ _ _ _ (omega arith)
      ∙ write-eq _ _ _ _ refl

  pub pud_entry : fill_tables cfg m (add cfg.pud_kernel 0) ≡ cfg.pmd_kernel
  unfolding fill_tables
  pud_entry =
      fill_pte-keeps _ _ (inl (omega arith))
      ∙ fill_pmd-keeps _ _ (inl (omega arith))
      ∙ write-eq _ _ _ _ refl

  pub pmd_entry :
      (j : ℕ)
      → j < cfg.pte_count
      → fill_tables cfg m (add cfg.pmd_kernel j) ≡ cfg.pte_base +u j *u page_size
  unfolding fill_tables fill_pmd
  pmd_entry j h =
      fill_pte-keeps _ _ (inl (omega arith))
      ∙ fill-sets cfg.pte_count cfg.pmd_kernel _ _ _ (λ i h'. refl) j h

  pub pte_entry :
      (j : ℕ)
      → j < cfg.kernel_4k_pages
      → fill_tables cfg m (add cfg.pte_base j)
        ≡ bit_or (cfg.kernel_phys +u j *u page_size) leaf_attrs
  unfolding fill_tables fill_pte
  pte_entry j h = fill-sets cfg.kernel_4k_pages cfg.pte_base _ _ _ (λ i h'. omega arith) j h

  pub pte_gap :
      (j : ℕ)
      → cfg.kernel_4k_pages ≤ j
      → j < cfg.pte_count * 512
      → fill_tables cfg m (add cfg.pte_base j) ≡ 0
  unfolding fill_tables
  pte_gap j h h' =
      fill_pte-keeps _ _ (inr (omega arith))
      ∙ fill_pmd-keeps _ _ (inr (omega arith))
      ∙ write-ne _ _ _ _ (omega arith)
      ∙ write-ne _ _ _ _ (omega arith)
      ∙ write_zeros-inside m _ _ _ (omega arith) (omega arith)

  -- Nothing outside the allocated pages changes.
  pub outside :
      (a : ℕ)
      → (a < cfg.pgd) ⊎ (cfg.pgd + (3 + cfg.pte_count) * 4096 ≤ a)
      → fill_tables cfg m a ≡ m a
  unfolding fill_tables
  outside a o =
      fill_pte-keeps _ a (omega arith)
      ∙ fill_pmd-keeps _ a (omega arith)
      ∙ write-ne _ _ _ a (omega arith)
      ∙ write-ne _ _ _ a (omega arith)
      ∙ write_zeros-outside m _ _ a (omega arith)
