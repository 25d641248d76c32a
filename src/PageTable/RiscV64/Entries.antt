-- ===== src/PageTable/RiscV64/Entries.antt =====
-- The word that `init_page_tables` of src/page_table/riscv64.rs leaves at each entry.
use alpheratz.Prelude.{
  ℕ, ◌+◌, ◌*◌, ◌≤◌, ◌<◌, ◌≡◌, ◌≢◌, refl, ap, ◌∙◌, ◌⊎◌, inl, inr, arith, ◌+u◌, ◌*u◌, ◌<<<◌,
}
use alpheratz.Memory.{
  Memory, add, fill-sets, fill-keeps, write-eq, write-ne, write_zeros, write_zeros-inside,
  write_zeros-outside,
}
use alpheratz.PageTable.RiscV64.{
  PageTableConfig, page_size, table_pte, leaf_pte, fill_gigapages, fill_l1, fill_l0, fill_tables,
}
use alpheratz.PageTable.RiscV64.Layout.{IsLaidOut}

module _ (cfg : PageTableConfig) (l : IsLaidOut cfg) where
  fill_gigapages-sets :
      (first j : ℕ) (m : Memory)
      → j < 4
      → fill_gigapages cfg.root first m (add cfg.root (first + j)) ≡ leaf_pte (j <<< 30)
  unfolding fill_gigapages
  fill_gigapages-sets first j m h =
      ap (λ a. fill_gigapages cfg.root first m a) (regroup j)
      ∙ fill-sets 4 (add cfg.root first) _ _ m (λ i h'. omega arith) j h
    where
      regroup : (j : ℕ) → add cfg.root (first + j) ≡ add (add cfg.root first) j
      regroup j = omega arith

  fill_gigapages-keeps :
      (first : ℕ) (m : Memory) (a : ℕ)
      → (a < add cfg.root first) ⊎ (add cfg.root (first + 4) ≤ a)
      → fill_gigapages cfg.root first m a ≡ m a
  unfolding fill_gigapages
  fill_gigapages-keeps first m a o =
      fill-keeps 4 (add cfg.root first) _ _ m (λ i h. omega arith) a (omega arith)

  fill_l1-keeps :
      (m : Memory) (a : ℕ)
      → (a < cfg.l1_kernel) ⊎ (add cfg.l1_kernel cfg.l0_count ≤ a)
      → fill_l1 cfg.l1_kernel cfg.l0_base cfg.l0_count m a ≡ m a
  unfolding fill_l1
  fill_l1-keeps m a o = fill-keeps cfg.l0_count cfg.l1_kernel _ _ m (λ i h. refl) a o

  fill_l0-keeps :
      (m : Memory) (a : ℕ)
      → (a < cfg.l0_base) ⊎ (add cfg.l0_base cfg.kernel_4k_pages ≤ a)
      → fill_l0 cfg.l0_base cfg.kernel_phys cfg.kernel_4k_pages m a ≡ m a
  unfolding fill_l0
  fill_l0-keeps m a o = fill-keeps cfg.kernel_4k_pages cfg.l0_base _ _ m (λ i h. omega arith) a o

  module _ (m : Memory) where
    abbrev cleared : Memory
    cleared = write_zeros m cfg.root (page_size *u (2 +u cfg.l0_count))

    cleared-eq : (a : ℕ) → cfg.root ≤ a → a < cfg.l0_base + cfg.l0_count * 4096 → cleared a ≡ 0
    cleared-eq a h h' = write_zeros-inside m _ _ a h (omega arith)

    pub root_identity : (j : ℕ) → j < 4 → fill_tables cfg m (add cfg.root j) ≡ leaf_pte (j <<< 30)
    unfolding fill_tables
    root_identity j h =
        fill_l0-keeps _ _ (inl (omega arith))
        ∙ fill_l1-keeps _ _ (inl (omega arith))
        ∙ write-ne _ _ _ _ (omega arith)
        ∙ fill_gigapages-keeps 384 _ _ (inl (omega arith))
        ∙ ap (λ a. fill_gigapages cfg.root 0 cleared a) (first j)
        ∙ fill_gigapages-sets 0 j _ h
      where
        first : (j : ℕ) → add cfg.root j ≡ add cfg.root (0 + j)
        first j = omega arith

    pub root_phys_map :
        (j : ℕ) → j < 4 → fill_tables cfg m (add cfg.root (384 + j)) ≡ leaf_pte (j <<< 30)
    unfolding fill_tables
    root_phys_map j h =
        fill_l0-keeps _ _ (inl (omega arith))
        ∙ fill_l1-keeps _ _ (inl (omega arith))
        ∙ write-ne _ _ _ _ (omega arith)
        ∙ fill_gigapages-sets 384 j _ h

    pub root_kernel : fill_tables cfg m (add cfg.root 256) ≡ table_pte cfg.l1_kernel
    unfolding fill_tables
    root_kernel =
        fill_l0-keeps _ _ (inl (omega arith))
        ∙ fill_l1-keeps _ _ (inl (omega arith))
        ∙ write-eq _ _ _ _ (omega arith)

    pub root_other :
        (i : ℕ)
        → i < 512
        → 4 ≤ i
        → i ≢ 256
        → (i < 384) ⊎ (388 ≤ i)
        → fill_tables cfg m (add cfg.root i) ≡ 0
    unfolding fill_tables
    root_other i h p q r =
        fill_l0-keeps _ _ (inl (omega arith))
        ∙ fill_l1-keeps _ _ (inl (omega arith))
        ∙ write-ne _ _ _ _ (omega arith)
        ∙ fill_gigapages-keeps 384 _ _ (omega arith)
        ∙ fill_gigapages-keeps 0 _ _ (inr (omega arith))
        ∙ cleared-eq _ (omega arith) (omega arith)

    pub l1_entry :
        (j : ℕ)
        → j < cfg.l0_count
        → fill_tables cfg m (add cfg.l1_kernel j) ≡ table_pte (cfg.l0_base +u j *u page_size)
    unfolding fill_tables fill_l1
    l1_entry j h =
        fill_l0-keeps _ _ (inl (omega arith))
        ∙ fill-sets cfg.l0_count cfg.l1_kernel _ _ _ (λ i h'. refl) j h

    -- Behind the root and the used entries, the first steps leave the pages clear.
    early_steps :
        (k : Memory) (a : ℕ)
        → cfg.l1_kernel ≤ a
        → fill_gigapages cfg.root 384 (fill_gigapages cfg.root 0 k) a ≡ k a
    early_steps k a h =
        fill_gigapages-keeps 384 _ a (inr (omega arith))
        ∙ fill_gigapages-keeps 0 k a (inr (omega arith))

    pub l1_gap : (j : ℕ) → cfg.l0_count ≤ j → j < 512 → fill_tables cfg m (add cfg.l1_kernel j) ≡ 0
    unfolding fill_tables
    l1_gap j h h' =
        fill_l0-keeps _ _ (inl (omega arith))
        ∙ fill_l1-keeps _ _ (inr (omega arith))
        ∙ write-ne _ _ _ _ (omega arith)
        ∙ early_steps _ _ (omega arith)
        ∙ cleared-eq _ (omega arith) (omega arith)

    pub l0_entry :
        (j : ℕ)
        → j < cfg.kernel_4k_pages
        → fill_tables cfg m (add cfg.l0_base j) ≡ leaf_pte (cfg.kernel_phys +u j *u page_size)
    unfolding fill_tables fill_l0
    l0_entry j h = fill-sets cfg.kernel_4k_pages cfg.l0_base _ _ _ (λ i h'. omega arith) j h

    pub l0_gap :
        (j : ℕ)
        → cfg.kernel_4k_pages ≤ j
        → j < cfg.l0_count * 512
        → fill_tables cfg m (add cfg.l0_base j) ≡ 0
    unfolding fill_tables
    l0_gap j h h' =
        fill_l0-keeps _ _ (inr (omega arith))
        ∙ fill_l1-keeps _ _ (inr (omega arith))
        ∙ write-ne _ _ _ _ (omega arith)
        ∙ early_steps _ _ (omega arith)
        ∙ cleared-eq _ (omega arith) (omega arith)

    -- Nothing outside the allocated pages changes.
    pub outside :
        (a : ℕ)
        → (a < cfg.root) ⊎ (cfg.root + (2 + cfg.l0_count) * 4096 ≤ a)
        → fill_tables cfg m a ≡ m a
    unfolding fill_tables
    outside a o =
        fill_l0-keeps _ a (omega arith)
        ∙ fill_l1-keeps _ a (omega arith)
        ∙ write-ne _ _ _ a (omega arith)
        ∙ fill_gigapages-keeps 384 _ a (omega arith)
        ∙ fill_gigapages-keeps 0 _ a (omega arith)
        ∙ write_zeros-outside m _ _ a (omega arith)
