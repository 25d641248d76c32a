-- ===== src/PageTable/LoongArch64/Maps.antt =====
-- What the tables of src/page_table/loongarch64.rs map, read by a four-level walk from the PGD.
use alpheratz.Prelude.{
  ℕ, ◌+◌, ◌*◌, ◌/◌, ◌^◌, ◌≤◌, ◌<◌, ◌≡◌, ◌⊎◌, ap, ◌∙◌, arith, Option, none, some, ltb, if◌then◌else◌,
  ◌+u◌, ◌*u◌,
}
use alpheratz.Memory.{Memory, add}
use alpheratz.Serial.{Machine, memory-serial_str}
use alpheratz.PageTable.Walk.{index, walk, walk-table}
use alpheratz.PageTable.Walk
use alpheratz.PageTable.KernelWalk
use alpheratz.PageTable.LoongArch64.{
  PageTableConfig, allocate_page_tables, init_page_tables, fill_tables,
}
use alpheratz.PageTable.LoongArch64.Decode.{decode, decode-directory, decode-leaf}
use alpheratz.PageTable.LoongArch64.Layout.{
  AllocatesPages, IsMappable, IsLaidOut, allocate_page_tables-IsAllocated,
}
use alpheratz.PageTable.LoongArch64.Entries

-- The base of PGD entry 510, in the 48 bits that the walk reads.
abbrev pub kernel_base : ℕ
kernel_base = 510 * 2 ^ 39

module _ (cfg : PageTableConfig) (l : IsLaidOut cfg) (m : Memory) where
  abbrev filled : Memory
  filled = fill_tables cfg m

  to_pmd :
      (va : ℕ)
      → index 3 va ≡ 510
      → index 2 va ≡ 0
      → walk decode 3 filled cfg.pgd va ≡ walk decode 1 filled cfg.pmd_kernel va
  to_pmd va e e' =
      walk-table decode filled 2 cfg.pgd va cfg.pud_kernel (
        ap (λ i. decode 3 (filled (add cfg.pgd i))) e
        ∙ decode-directory 2 _ _ (Entries.pgd_entry cfg l m) (omega arith) (omega arith))
      ∙ walk-table decode filled 1 cfg.pud_kernel va cfg.pmd_kernel (
          ap (λ i. decode 2 (filled (add cfg.pud_kernel i))) e'
          ∙ decode-directory 1 _ _ (Entries.pud_entry cfg l m) (omega arith) (omega arith))

  link :
      (j : ℕ)
      → j < (cfg.kernel_4k_pages + 511) / 512
      → decode 1 (filled (add cfg.pmd_kernel j)) ≡ Walk.table (cfg.pte_base + j * 4096)
  link j h =
      let exact : cfg.pte_base +u j *u 4096 ≡ cfg.pte_base + j * 4096 = omega arith in
      decode-directory 0 _ _ (Entries.pmd_entry cfg l m j (omega arith) ∙ exact) (omega arith)
        (omega arith)

  leaf :
      (j : ℕ)
      → j < cfg.kernel_4k_pages
      → decode 0 (filled (add cfg.pte_base j)) ≡ Walk.page (cfg.kernel_phys + j * 4096)
  leaf j h =
      ap (decode 0) (Entries.pte_entry cfg l m j h)
      ∙ decode-leaf (cfg.kernel_phys +u j *u 4096) _ (omega arith) (omega arith) (omega arith)

  kernel_inside :
      (offset : ℕ)
      → offset < cfg.kernel_4k_pages * 4096
      → walk decode 3 filled cfg.pgd (kernel_base + offset) ≡ some (cfg.kernel_phys + offset)
  kernel_inside offset h =
      to_pmd _ (omega arith) (omega arith)
      ∙ KernelWalk.kernel_inside decode filled cfg.pmd_kernel cfg.pte_base cfg.kernel_phys
          cfg.kernel_4k_pages link leaf (kernel_base + offset) (omega arith)
      ∙ ap some (omega arith)

  kernel_after :
      (offset : ℕ)
      → cfg.kernel_4k_pages * 4096 ≤ offset
      → offset < cfg.pte_count * 2 ^ 21
      → walk decode 3 filled cfg.pgd (kernel_base + offset) ≡ none
  kernel_after offset h h' =
      to_pmd _ (omega arith) (omega arith)
      ∙ KernelWalk.kernel_gap decode filled cfg.pmd_kernel cfg.pte_base cfg.kernel_phys
          cfg.kernel_4k_pages link leaf
          (λ j p q. ap (decode 0) (Entries.pte_gap cfg l m j p (omega arith)))
          (kernel_base + offset) (omega arith) (omega arith)

  fill_tables-translation :
      (offset : ℕ)
      → offset < (cfg.kernel_4k_pages + 511) / 512 * 2 ^ 21
      → walk decode 3 filled cfg.pgd (kernel_base + offset) ≡ (
          if ltb offset (cfg.kernel_4k_pages * 4096) then some (cfg.kernel_phys + offset) else none)
  fill_tables-translation offset h = ground (arith, kernel_inside offset, kernel_after offset)

-- The PGD and the memory once the tables are in force.
abbrev pub mmu : Machine × ℕ → ℕ → Option ℕ
mmu (s, pgd) = walk decode 3 s.memory pgd

-- For a kernel of whole aligned pages below 1 GiB, the tables that `allocate_page_tables` and
-- `init_page_tables` build lead from the base of PGD entry 510 to where the kernel was loaded, for
-- each of its pages; the rest of the 2 MiB units that the last of them begins leads nowhere.
pub init_page_tables-pgd_translation :
    (allocate_pages : ℕ → Option ℕ) (kernel_phys kernel_size : ℕ) {cfg : PageTableConfig}
    → AllocatesPages allocate_pages
    → IsMappable kernel_phys kernel_size
    → allocate_page_tables allocate_pages kernel_phys kernel_size ≡ some cfg
    → (s : Machine) (offset : ℕ)
    → let pages = (kernel_size + 4095) / 4096 in
      offset < (pages + 511) / 512 * 2 ^ 21
      → mmu (init_page_tables cfg s) (kernel_base + offset)
        ≡ (if ltb offset (pages * 4096) then some (kernel_phys + offset) else none)
unfolding init_page_tables
init_page_tables-pgd_translation allocate_pages kernel_phys kernel_size {cfg} ok k e s offset h =
    let a = allocate_page_tables-IsAllocated allocate_pages kernel_phys kernel_size ok k e in
    rw memory-serial_str (
      fill_tables-translation cfg a.laid_out _ offset (omega arith)
      ∙ cc (a.kernel_phys_eq, a.pages_eq))

-- Building the tables writes nothing outside the pages that the firmware gave for them.
pub init_page_tables-pgd_outside :
    (allocate_pages : ℕ → Option ℕ) (kernel_phys kernel_size : ℕ) {cfg : PageTableConfig}
    → AllocatesPages allocate_pages
    → IsMappable kernel_phys kernel_size
    → allocate_page_tables allocate_pages kernel_phys kernel_size ≡ some cfg
    → (s : Machine) (a : ℕ) → (a < cfg.pgd) ⊎ (cfg.pgd + (3 + cfg.pte_count) * 4096 ≤ a)
    → (init_page_tables cfg s).0.memory a ≡ s.memory a
unfolding init_page_tables
init_page_tables-pgd_outside allocate_pages kernel_phys kernel_size {cfg} ok k e s a o =
    let l = allocate_page_tables-IsAllocated allocate_pages kernel_phys kernel_size ok k e in
    rw memory-serial_str
      (Entries.outside cfg l.laid_out _ a o ∙ ap (λ m. m a) (memory-serial_str _ s))
