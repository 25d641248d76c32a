-- ===== src/PageTable/X64/KernelEntries.antt =====
-- The words of the kernel's tables after `init_page_tables` of src/page_table/x86_64.rs, and all
-- words outside the allocated pages.
use alpheratz.Prelude.{ℕ, ◌+◌, ◌*◌, ◌≤◌, ◌<◌, ◌≡◌, refl, ◌∙◌, ◌⊎◌, inl, inr, arith}
use alpheratz.Memory.{Memory, add, write-eq, write-ne, write_zeros-outside}
use alpheratz.PageTable.X64.{PageTableConfig, kernel_steps, fill_tables}
use alpheratz.PageTable.X64.Fill
use alpheratz.PageTable.X64.Layout.{IsLaidOut}
use alpheratz.PageTable.X64.Entries

module _ (cfg : PageTableConfig) (l : IsLaidOut cfg) (m : Memory) where
  -- Before the last three steps the pages from `pdpt_kernel` on that they write are clear.
  early_steps-zero :
      (a : ℕ)
      → (cfg.pdpt_kernel ≤ a) × (a < cfg.pdpt_kernel + 0x1000)
        ⊎ (cfg.pd_kernel ≤ a) × (a < cfg.pd_kernel + 0x1000)
        ⊎ (cfg.pt_base ≤ a) × (a < cfg.pt_base + cfg.pt_count * 4096)
      → (k : Memory) × (fill_tables cfg m a ≡ kernel_steps cfg k a) × (k a ≡ 0)
  unfolding fill_tables
  early_steps-zero a o = (
    _,
    refl,
    Fill.fill_huge_pages-keeps _ _ a (omega arith) (omega arith)
        ∙ Fill.fill_pdpt-keeps _ _ _ a (omega arith)
        ∙ Fill.fill_huge_pages-keeps _ _ a (omega arith) (omega arith)
        ∙ Fill.fill_pdpt-keeps _ _ _ a (omega arith)
        ∙ Entries.link_pml4-keeps cfg l m _ a (omega arith)
        ∙ Entries.cleared-eq cfg l m a (omega arith) (omega arith),
  )

  pub pdpt_kernel_entry : fill_tables cfg m (add cfg.pdpt_kernel 0) ≡ cfg.pd_kernel + 3
  unfolding kernel_steps
  pdpt_kernel_entry =
      let (k, e, z) = early_steps-zero (add cfg.pdpt_kernel 0) (inl (omega arith)) in
      e
      ∙ Fill.fill_pt-keeps _ _ _ _ _ (omega arith) (inl (omega arith))
      ∙ Fill.fill_pd_kernel-keeps _ _ _ _ _ (inl (omega arith))
      ∙ write-eq k _ _ _ (omega arith)
      ∙ Fill.writable_entry_of _ cfg.pd_kernel (omega arith) (omega arith)

  pub pdpt_kernel_gap : (j : ℕ) → 0 < j → j < 512 → fill_tables cfg m (add cfg.pdpt_kernel j) ≡ 0
  unfolding kernel_steps
  pdpt_kernel_gap j h h' =
      let (k, e, z) = early_steps-zero (add cfg.pdpt_kernel j) (inl (omega arith)) in
      e
      ∙ Fill.fill_pt-keeps _ _ _ _ _ (omega arith) (inl (omega arith))
      ∙ Fill.fill_pd_kernel-keeps _ _ _ _ _ (inl (omega arith))
      ∙ write-ne k _ _ _ (omega arith)
      ∙ z

  pub pd_kernel_entry :
      (j : ℕ)
      → j < cfg.pt_count
      → fill_tables cfg m (add cfg.pd_kernel j) ≡ cfg.pt_base + j * 4096 + 3
  unfolding kernel_steps
  pd_kernel_entry j h =
      let (k, e, z) = early_steps-zero (add cfg.pd_kernel j) (inr (inl (omega arith))) in
      e
      ∙ Fill.fill_pt-keeps _ _ _ _ _ (omega arith) (inl (omega arith))
      ∙ Fill.fill_pd_kernel-sets _ _ _ _ j (omega arith) h

  pub pd_kernel_gap :
      (j : ℕ) → cfg.pt_count ≤ j → j < 512 → fill_tables cfg m (add cfg.pd_kernel j) ≡ 0
  unfolding kernel_steps
  pd_kernel_gap j h h' =
      let (k, e, z) = early_steps-zero (add cfg.pd_kernel j) (inr (inl (omega arith))) in
      e
      ∙ Fill.fill_pt-keeps _ _ _ _ _ (omega arith) (inl (omega arith))
      ∙ Fill.fill_pd_kernel-keeps _ _ _ _ _ (inr (omega arith))
      ∙ write-ne k _ _ _ (omega arith)
      ∙ z

  pub pt_entry :
      (j : ℕ)
      → j < cfg.kernel_4k_pages
      → fill_tables cfg m (add cfg.pt_base j) ≡ cfg.kernel_phys + j * 4096 + 3
  unfolding kernel_steps
  pt_entry j h =
      let (k, e, z) = early_steps-zero (add cfg.pt_base j) (inr (inr (omega arith))) in
      e ∙ Fill.fill_pt-sets _ _ _ _ j (omega arith) (omega arith) h

  pub pt_gap :
      (j : ℕ)
      → cfg.kernel_4k_pages ≤ j
      → j < cfg.pt_count * 512
      → fill_tables cfg m (add cfg.pt_base j) ≡ 0
  unfolding kernel_steps
  pt_gap j h h' =
      let (k, e, z) = early_steps-zero (add cfg.pt_base j) (inr (inr (omega arith))) in
      e
      ∙ Fill.fill_pt-keeps _ _ _ _ _ (omega arith) (inr (omega arith))
      ∙ Fill.fill_pd_kernel-keeps _ _ _ _ _ (inr (omega arith))
      ∙ write-ne k _ _ _ (omega arith)
      ∙ z

  -- Nothing outside the allocated pages changes.
  pub outside :
      (a : ℕ)
      → (a < cfg.pml4) ⊎ (cfg.pml4 + (13 + cfg.pt_count) * 4096 ≤ a)
      → fill_tables cfg m a ≡ m a
  unfolding fill_tables
  outside a o =
      Entries.kernel_steps-keep cfg l m _ a (omega arith) (omega arith) (omega arith)
      ∙ Fill.fill_huge_pages-keeps _ _ a (omega arith) (omega arith)
      ∙ Fill.fill_pdpt-keeps _ _ _ a (omega arith)
      ∙ Fill.fill_huge_pages-keeps _ _ a (omega arith) (omega arith)
      ∙ Fill.fill_pdpt-keeps _ _ _ a (omega arith)
      ∙ Entries.link_pml4-keeps cfg l m _ a (omega arith)
      ∙ write_zeros-outside m _ _ a (omega arith)
