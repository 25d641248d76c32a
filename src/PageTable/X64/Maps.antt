-- ===== src/PageTable/X64/Maps.antt =====
-- What the tables of src/page_table/x86_64.rs map, read by the processor's walk.
use alpheratz.Prelude.{ℕ, ◌+◌, ◌*◌, ◌/◌, ◌≤◌, ◌<◌, ◌≡◌, ◌∙◌, ◌⊎◌, ap, Option, some}
use alpheratz.Serial.{Machine, memory-serial_str}
use alpheratz.PageTable.Walk.{index, walk}
use alpheratz.PageTable.X64.{PageTableConfig, allocate_page_tables, init_page_tables}
use alpheratz.PageTable.X64.Decode.{decode}
use alpheratz.PageTable.X64.Layout.{
  AllocatesPages, IsMappable, allocate_page_tables-IsAllocated, allocate_page_tables-given,
}
use alpheratz.PageTable.X64.Regions.{translation, fill_tables-translation}
use alpheratz.PageTable.X64.KernelEntries

-- `cr3` and memory after the loader's own tables are in force.
abbrev pub mmu : Machine × ℕ → ℕ → Option ℕ
mmu (s, cr3) = walk decode 3 s.memory cr3

-- For a kernel of whole aligned pages below 1 GiB and any PML4 slot, the tables that
-- `allocate_page_tables` and `init_page_tables` build translate every address as the table of the
-- documentation says: the first 4 GiB of slots 0 and 256 to themselves, the kernel's pages of its
-- slot to where it was loaded, and no other address to anything. The slot is not checked: for slot 0
-- the kernel takes the place of the identity mapping, and for slot 256 the physical map that of the
-- kernel, which is then mapped nowhere.
pub init_page_tables-translation :
    (allocate_pages : ℕ → Option ℕ) (kernel_phys kernel_size kernel_pml4_index : ℕ)
    {cfg : PageTableConfig}
    → AllocatesPages allocate_pages
    → IsMappable kernel_phys kernel_size kernel_pml4_index
    → allocate_page_tables allocate_pages kernel_phys kernel_size kernel_pml4_index ≡ some cfg
    → (s : Machine) (va : ℕ)
    → mmu (init_page_tables cfg s) va
      ≡ translation kernel_phys ((kernel_size + 4095) / 4096) kernel_pml4_index va
unfolding init_page_tables
init_page_tables-translation allocate_pages kernel_phys kernel_size index {cfg} ok k e s va =
    let a = allocate_page_tables-IsAllocated allocate_pages kernel_phys kernel_size index ok k e in
    rw memory-serial_str
      (fill_tables-translation cfg a.laid_out _ va ∙ cc (a.kernel_phys_eq, a.pages_eq, a.index_eq))

-- For a kernel of whole aligned pages below 1 GiB and a PML4 index below 512, building the tables
-- changes no word outside the pages that the firmware gives: a word that lies in none of the ranges
-- that `allocate_pages` may return holds afterwards what it held before.
pub init_page_tables-outside :
    (allocate_pages : ℕ → Option ℕ) (kernel_phys kernel_size kernel_pml4_index : ℕ)
    {cfg : PageTableConfig}
    → AllocatesPages allocate_pages
    → IsMappable kernel_phys kernel_size kernel_pml4_index
    → allocate_page_tables allocate_pages kernel_phys kernel_size kernel_pml4_index ≡ some cfg
    → (s : Machine) (a : ℕ)
    → ((n base : ℕ) → allocate_pages n ≡ some base → (a < base) ⊎ (base + n * 4096 ≤ a))
    → (init_page_tables cfg s).0.memory a ≡ s.memory a
unfolding init_page_tables
init_page_tables-outside allocate_pages kernel_phys kernel_size index {cfg} ok k e s a o =
    let l = allocate_page_tables-IsAllocated allocate_pages kernel_phys kernel_size index ok k e in
    let given = allocate_page_tables-given allocate_pages kernel_phys kernel_size index ok k e in
    rw memory-serial_str (
      KernelEntries.outside cfg l.laid_out _ a (o (13 + cfg.pt_count) cfg.pml4 given)
      ∙ ap (λ m. m a) (memory-serial_str _ s))
