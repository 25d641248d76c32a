-- ===== src/PageTable/X64/Entries.antt =====
-- The word that `init_page_tables` of src/page_table/x86_64.rs leaves at each entry of the tables,
-- whatever was in memory before.
use alpheratz.Prelude.{ℕ, ◌+◌, ◌*◌, ◌≤◌, ◌<◌, ◌≡◌, ◌≢◌, ◌∙◌, ◌⊎◌, inl, inr, arith, ◌+u◌, ◌*u◌}
use alpheratz.Memory.{Memory, add, write-eq, write-ne, write_zeros, write_zeros-inside}
use alpheratz.PageTable.X64.{
  PageTableConfig, page_size, fill_pdpt, link_pml4, kernel_steps, fill_tables,
}
use alpheratz.PageTable.X64.Fill
use alpheratz.PageTable.X64.Layout.{IsLaidOut}

module _ (cfg : PageTableConfig) (l : IsLaidOut cfg) (m : Memory) where
  abbrev pub cleared : Memory
  cleared = write_zeros m cfg.pml4 (page_size *u (1 +u 3 +u 4 +u 1 +u 4 +u cfg.pt_count))

  pub cleared-eq : (a : ℕ) → cfg.pml4 ≤ a → a < cfg.pt_base + cfg.pt_count * 4096 → cleared a ≡ 0
  cleared-eq a h h' = write_zeros-inside m _ _ a h (omega arith)

  -- The writes of the kernel's tables, the last three steps, spare the other tables.
  pub kernel_steps-keep :
      (k : Memory) (a : ℕ)
      → (a < cfg.pt_base) ⊎ (cfg.pt_base + cfg.pt_count * 4096 ≤ a)
      → (a < cfg.pdpt_kernel) ⊎ (cfg.pdpt_kernel + 0x1000 ≤ a)
      → (a < cfg.pd_kernel) ⊎ (cfg.pd_kernel + 0x1000 ≤ a)
      → kernel_steps cfg k a ≡ k a
  unfolding kernel_steps
  kernel_steps-keep k a b o o' =
      Fill.fill_pt-keeps _ _ _ _ a (omega arith) (omega arith)
      ∙ Fill.fill_pd_kernel-keeps _ _ _ _ a (omega arith)
      ∙ write-ne k _ _ a (omega arith)

  pub link_pml4-keeps :
      (k : Memory) (a : ℕ) → (a < cfg.pml4) ⊎ (cfg.pml4 + 0x1000 ≤ a) → link_pml4 cfg k a ≡ k a
  unfolding link_pml4
  link_pml4-keeps k a o =
      write-ne _ _ _ a (omega arith)
      ∙ write-ne _ _ _ a (omega arith)
      ∙ write-ne k _ _ a (omega arith)

  -- The PML4 is as its links left it.
  pml4_as_linked :
      (a : ℕ) → cfg.pml4 ≤ a → a < cfg.pml4 + 0x1000 → fill_tables cfg m a ≡ link_pml4 cfg cleared a
  unfolding fill_tables
  pml4_as_linked a h h' =
      kernel_steps-keep _ a (inl (omega arith)) (inl (omega arith)) (inl (omega arith))
      ∙ Fill.fill_huge_pages-keeps _ _ a (omega arith) (inl (omega arith))
      ∙ Fill.fill_pdpt-keeps _ _ _ a (inl (omega arith))
      ∙ Fill.fill_huge_pages-keeps _ _ a (omega arith) (inl (omega arith))
      ∙ Fill.fill_pdpt-keeps _ _ _ a (inl (omega arith))

  pub pml4_low : 0 < cfg.kernel_pml4_index → fill_tables cfg m (add cfg.pml4 0) ≡ cfg.pdpt_low + 3
  unfolding link_pml4
  pml4_low other =
      pml4_as_linked _ (omega arith) (omega arith)
      ∙ write-ne _ _ _ _ (omega arith)
      ∙ write-ne _ _ _ _ (omega arith)
      ∙ write-eq _ _ _ _ (omega arith)
      ∙ Fill.writable_entry_of _ cfg.pdpt_low (omega arith) (omega arith)

  pub pml4_kernel :
      cfg.kernel_pml4_index ≢ 256
      → fill_tables cfg m (add cfg.pml4 cfg.kernel_pml4_index) ≡ cfg.pdpt_kernel + 3
  unfolding link_pml4
  pml4_kernel other =
      pml4_as_linked _ (omega arith) (omega arith)
      ∙ write-ne _ _ _ _ (omega arith)
      ∙ write-eq _ _ _ _ (omega arith)
      ∙ Fill.writable_entry_of _ cfg.pdpt_kernel (omega arith) (omega arith)

  pub pml4_phys_map : fill_tables cfg m (add cfg.pml4 256) ≡ cfg.pdpt_phys_map + 3
  unfolding link_pml4
  pml4_phys_map =
      pml4_as_linked _ (omega arith) (omega arith)
      ∙ write-eq _ _ _ _ (omega arith)
      ∙ Fill.writable_entry_of _ cfg.pdpt_phys_map (omega arith) (omega arith)

  pub pml4_other :
      (i : ℕ)
      → i < 512
      → 0 < i
      → i ≢ 256
      → i ≢ cfg.kernel_pml4_index
      → fill_tables cfg m (add cfg.pml4 i) ≡ 0
  unfolding link_pml4
  pml4_other i h p q r =
      pml4_as_linked _ (omega arith) (omega arith)
      ∙ write-ne _ _ _ _ (omega arith)
      ∙ write-ne _ _ _ _ (omega arith)
      ∙ write-ne _ _ _ _ (omega arith)
      ∙ cleared-eq _ (omega arith) (omega arith)

  -- What the last steps leave alone from the physical map's directories on.
  pub pd_phys_map_entry :
      (gb i : ℕ)
      → gb < 4
      → i < 512
      → fill_tables cfg m (add (cfg.pd_phys_map_base + gb * 4096) i)
        ≡ (gb * 512 + i) * 0x20_0000 + 0x83
  unfolding fill_tables
  pd_phys_map_entry gb i h h' =
      kernel_steps-keep _ _ (inl (omega arith)) (inr (omega arith)) (inr (omega arith))
      ∙ Fill.fill_huge_pages-sets _ _ gb i (omega arith) h h'

  pdpt_phys_map_as_filled :
      (a : ℕ)
      → cfg.pdpt_phys_map ≤ a
      → a < cfg.pdpt_phys_map + 0x1000
      → (k : Memory) × (fill_tables cfg m a ≡ fill_pdpt cfg.pdpt_phys_map cfg.pd_phys_map_base k a)
        × (k a ≡ 0)
  unfolding fill_tables
  pdpt_phys_map_as_filled a h h' = (
    _,
    kernel_steps-keep _ a (inl (omega arith)) (inr (omega arith)) (inl (omega arith))
        ∙ Fill.fill_huge_pages-keeps _ _ a (omega arith) (inl (omega arith)),
    Fill.fill_huge_pages-keeps _ _ a (omega arith) (inl (omega arith))
        ∙ Fill.fill_pdpt-keeps _ _ _ a (inr (omega arith))
        ∙ link_pml4-keeps _ a (inr (omega arith))
        ∙ cleared-eq a (omega arith) (omega arith),
  )

  pub pdpt_phys_map_entry :
      (j : ℕ)
      → j < 4
      → fill_tables cfg m (add cfg.pdpt_phys_map j) ≡ cfg.pd_phys_map_base + j * 4096 + 3
  pdpt_phys_map_entry j h =
      let (k, e, z) =
        pdpt_phys_map_as_filled (add cfg.pdpt_phys_map j) (omega arith) (omega arith) in
      e ∙ Fill.fill_pdpt-sets _ _ k j (omega arith) h

  pub pdpt_phys_map_gap :
      (j : ℕ) → 4 ≤ j → j < 512 → fill_tables cfg m (add cfg.pdpt_phys_map j) ≡ 0
  pdpt_phys_map_gap j h h' =
      let (k, e, z) =
        pdpt_phys_map_as_filled (add cfg.pdpt_phys_map j) (omega arith) (omega arith) in
      e ∙ Fill.fill_pdpt-keeps _ _ k _ (inr (omega arith)) ∙ z

  pub pd_low_entry :
      (gb i : ℕ)
      → gb < 4
      → i < 512
      → fill_tables cfg m (add (cfg.pd_low_base + gb * 4096) i) ≡ (gb * 512 + i) * 0x20_0000 + 0x83
  unfolding fill_tables
  pd_low_entry gb i h h' =
      kernel_steps-keep _ _ (inl (omega arith)) (inr (omega arith)) (inl (omega arith))
      ∙ Fill.fill_huge_pages-keeps _ _ _ (omega arith) (inl (omega arith))
      ∙ Fill.fill_pdpt-keeps _ _ _ _ (inr (omega arith))
      ∙ Fill.fill_huge_pages-sets _ _ gb i (omega arith) h h'

  pdpt_low_as_filled :
      (a : ℕ)
      → cfg.pdpt_low ≤ a
      → a < cfg.pdpt_low + 0x1000
      → (k : Memory) × (fill_tables cfg m a ≡ fill_pdpt cfg.pdpt_low cfg.pd_low_base k a)
        × (k a ≡ 0)
  unfolding fill_tables
  pdpt_low_as_filled a h h' = (
    _,
    kernel_steps-keep _ a (inl (omega arith)) (inl (omega arith)) (inl (omega arith))
        ∙ Fill.fill_huge_pages-keeps _ _ a (omega arith) (inl (omega arith))
        ∙ Fill.fill_pdpt-keeps _ _ _ a (inl (omega arith))
        ∙ Fill.fill_huge_pages-keeps _ _ a (omega arith) (inl (omega arith)),
    link_pml4-keeps _ a (inr (omega arith)) ∙ cleared-eq a (omega arith) (omega arith),
  )

  pub pdpt_low_entry :
      (j : ℕ) → j < 4 → fill_tables cfg m (add cfg.pdpt_low j) ≡ cfg.pd_low_base + j * 4096 + 3
  pdpt_low_entry j h =
      let (k, e, z) = pdpt_low_as_filled (add cfg.pdpt_low j) (omega arith) (omega arith) in
      e ∙ Fill.fill_pdpt-sets _ _ k j (omega arith) h

  pub pdpt_low_gap : (j : ℕ) → 4 ≤ j → j < 512 → fill_tables cfg m (add cfg.pdpt_low j) ≡ 0
  pdpt_low_gap j h h' =
      let (k, e, z) = pdpt_low_as_filled (add cfg.pdpt_low j) (omega arith) (omega arith) in
      e ∙ Fill.fill_pdpt-keeps _ _ k _ (inr (omega arith)) ∙ z
