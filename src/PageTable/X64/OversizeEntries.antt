-- ===== src/PageTable/X64/OversizeEntries.antt =====
-- The words that `init_page_tables` of src/page_table/x86_64.rs leaves in the tables of a kernel of
-- more than 1 GiB, whose page tables are more than the 512 entries of PD_KERNEL.
use alpheratz.Prelude.{ℕ, ◌+◌, ◌*◌, ◌/◌, ◌^◌, ◌≤◌, ◌<◌, ◌≡◌, ◌≢◌, ◌∙◌, ap, arith, inl, inr}
use alpheratz.Memory.{Memory, add, write-eq, write-ne, write_zeros-inside}
use alpheratz.PageTable.X64.{PageTableConfig, link_pml4, kernel_steps, fill_tables}
use alpheratz.PageTable.X64.Fill

-- The tables of such a kernel; up to 2 GiB they reach into the first directory of the physical map.
pub record IsOversized (cfg : PageTableConfig) : Type 0 where
  pub pdpt_low : cfg.pdpt_low ≡ cfg.pml4 + 0x1000
  pub pdpt_kernel : cfg.pdpt_kernel ≡ cfg.pml4 + 0x2000
  pub pdpt_phys_map : cfg.pdpt_phys_map ≡ cfg.pml4 + 0x3000
  pub pd_low_base : cfg.pd_low_base ≡ cfg.pml4 + 0x4000
  pub pd_kernel : cfg.pd_kernel ≡ cfg.pml4 + 0x8000
  pub pd_phys_map_base : cfg.pd_phys_map_base ≡ cfg.pml4 + 0x9000
  pub pt_base : cfg.pt_base ≡ cfg.pml4 + 0xD000
  pub tables : Fill.IsRange cfg.pml4 (13 + cfg.pt_count)
  pub pt_count : cfg.pt_count ≡ (cfg.kernel_4k_pages + 511) / 512
  pub more : 2 ^ 18 < cfg.kernel_4k_pages
  pub pt_count_le : cfg.pt_count ≤ 1024
  pub kernel : Fill.IsRange cfg.kernel_phys cfg.kernel_4k_pages
  pub index_lt : cfg.kernel_pml4_index < 512
  pub index_ne : cfg.kernel_pml4_index ≢ 256

module _ (cfg : PageTableConfig) (l : IsOversized cfg) (m : Memory) where
  abbrev pub filled : Memory
  filled = fill_tables cfg m

  -- The last three steps leave a word below PD_KERNEL alone that is not the first of PDPT_KERNEL.
  kernel_steps-below :
      (k : Memory) (a : ℕ) → a < cfg.pd_kernel → cfg.pdpt_kernel ≢ a → kernel_steps cfg k a ≡ k a
  unfolding kernel_steps
  kernel_steps-below k a below other =
      Fill.fill_pt-keeps _ _ _ _ a (omega arith) (inl (omega arith))
      ∙ Fill.fill_pd_kernel-keeps _ _ _ _ a (inl (omega arith))
      ∙ write-ne k _ _ a (omega arith)

  pml4_as_linked :
      (a : ℕ) → cfg.pml4 ≤ a → a < cfg.pml4 + 0x1000 → (k : Memory) × (filled a ≡ link_pml4 cfg k a)
  unfolding fill_tables
  pml4_as_linked a h h' = (
    _,
    kernel_steps-below _ a (omega arith) (omega arith)
        ∙ Fill.fill_huge_pages-keeps _ _ a (omega arith) (inl (omega arith))
        ∙ Fill.fill_pdpt-keeps _ _ _ a (inl (omega arith))
        ∙ Fill.fill_huge_pages-keeps _ _ a (omega arith) (inl (omega arith))
        ∙ Fill.fill_pdpt-keeps _ _ _ a (inl (omega arith)),
  )

  pub pml4_phys_map : filled (add cfg.pml4 256) ≡ cfg.pdpt_phys_map + 3
  unfolding link_pml4
  pml4_phys_map =
      let (k, e) = pml4_as_linked (add cfg.pml4 256) (omega arith) (omega arith) in
      e
      ∙ write-eq _ _ _ _ (omega arith)
      ∙ Fill.writable_entry_of _ cfg.pdpt_phys_map (omega arith) (omega arith)

  pub pml4_kernel : filled (add cfg.pml4 cfg.kernel_pml4_index) ≡ cfg.pdpt_kernel + 3
  unfolding link_pml4
  pml4_kernel =
      let (k, e) =
        pml4_as_linked (add cfg.pml4 cfg.kernel_pml4_index) (omega arith) (omega arith) in
      e
      ∙ write-ne _ _ _ _ (omega arith)
      ∙ write-eq _ _ _ _ (omega arith)
      ∙ Fill.writable_entry_of _ cfg.pdpt_kernel (omega arith) (omega arith)

  pub pdpt_phys_map_first : filled (add cfg.pdpt_phys_map 0) ≡ cfg.pd_phys_map_base + 3
  unfolding fill_tables
  pdpt_phys_map_first =
      kernel_steps-below _ _ (omega arith) (omega arith)
      ∙ Fill.fill_huge_pages-keeps _ _ _ (omega arith) (inl (omega arith))
      ∙ Fill.fill_pdpt-sets _ _ _ 0 (omega arith) (omega arith)
      ∙ omega arith

  pub pdpt_kernel_gap : (j : ℕ) → 0 < j → j < 512 → filled (add cfg.pdpt_kernel j) ≡ 0
  unfolding fill_tables link_pml4
  pdpt_kernel_gap j h h' =
      kernel_steps-below _ _ (omega arith) (omega arith)
      ∙ Fill.fill_huge_pages-keeps _ _ _ (omega arith) (inl (omega arith))
      ∙ Fill.fill_pdpt-keeps _ _ _ _ (inl (omega arith))
      ∙ Fill.fill_huge_pages-keeps _ _ _ (omega arith) (inl (omega arith))
      ∙ Fill.fill_pdpt-keeps _ _ _ _ (inr (omega arith))
      ∙ write-ne _ _ _ _ (omega arith)
      ∙ write-ne _ _ _ _ (omega arith)
      ∙ write-ne _ _ _ _ (omega arith)
      ∙ write_zeros-inside m _ _ _ (omega arith) (omega arith)

  -- Entry 512 + j of PD_KERNEL is entry j of the physical map's first directory.
  pub pd_phys_map_overwritten :
      (j : ℕ)
      → 512 + j < cfg.pt_count
      → filled (add cfg.pd_phys_map_base j) ≡ cfg.pt_base + (512 + j) * 4096 + 3
  unfolding fill_tables kernel_steps
  pd_phys_map_overwritten j h =
      let same : add cfg.pd_phys_map_base j ≡ add cfg.pd_kernel (512 + j) = omega arith in
      ap filled same
      ∙ Fill.fill_pt-keeps _ _ _ _ _ (omega arith) (inl (omega arith))
      ∙ Fill.fill_pd_kernel-sets _ _ _ _ (512 + j) (omega arith) h

  pub pt_entry :
      (j : ℕ)
      → j < cfg.kernel_4k_pages
      → filled (add cfg.pt_base j) ≡ cfg.kernel_phys + j * 4096 + 3
  unfolding fill_tables kernel_steps
  pt_entry j h = Fill.fill_pt-sets _ _ _ _ j (omega arith) (omega arith) h
