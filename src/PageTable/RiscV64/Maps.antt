-- ===== src/PageTable/RiscV64/Maps.antt =====
-- What the tables of src/page_table/riscv64.rs map, read by the processor's Sv39 walk.
use alpheratz.Prelude.{
  ℕ, ◌+◌, ◌-◌, ◌*◌, ◌/◌, ◌%◌, ◌^◌, ◌≤◌, ◌<◌, ◌≡◌, ◌⊎◌, ◌≢◌, ap, ◌∙◌, ◌⊎◌, ◌&&◌, arith, Option, none,
  some, ltb, leb, ◌==◌, if◌then◌else◌, ◌+u◌, ◌*u◌, ◌<<<◌,
}
use alpheratz.Prelude.Bits.{bit_or_field}
use alpheratz.Memory.{Memory, add}
use alpheratz.Serial.{Machine, memory-serial_str}
use alpheratz.PageTable.Walk.{index, walk, walk-table, walk-page, walk-invalid}
use alpheratz.PageTable.Walk
use alpheratz.PageTable.KernelWalk
use alpheratz.PageTable.RiscV64.{
  physical_memory_offset, PageTableConfig, satp_value, allocate_page_tables, init_page_tables,
  fill_tables, table_pte, leaf_pte,
}
use alpheratz.PageTable.RiscV64.Decode.{
  decode, decode-table_pte, decode-leaf_pte, decode-gigapage, decode-zero,
}
use alpheratz.PageTable.RiscV64.Layout.{
  AllocatesPages, IsMappable, IsLaidOut, allocate_page_tables-IsAllocated,
}
use alpheratz.PageTable.RiscV64.Entries

-- The specification: where an address leads, by its root slot and its offset in the slot's 1 GiB.
abbrev pub translation : ℕ → ℕ → ℕ → Option ℕ
translation kernel_phys kernel_pages va =
    let slot = va / 2 ^ 30 % 512 in
    let offset = va % 2 ^ 30 in
    if ltb slot 4
    then some (slot * 2 ^ 30 + offset)
    else if leb 384 slot && ltb slot 388
    then some ((slot - 384) * 2 ^ 30 + offset)
    else if slot == 256 && ltb offset (kernel_pages * 4096)
    then some (kernel_phys + offset)
    else none

-- The first 4 GiB of physical memory are found from `physical_memory_offset` on.
translation-physical_memory_offset :
    (kernel_phys kernel_pages p : ℕ)
    → p < 2 ^ 32
    → translation kernel_phys kernel_pages (physical_memory_offset + p) ≡ some p
translation-physical_memory_offset kernel_phys kernel_pages p h = ground arith

module _ (cfg : PageTableConfig) (l : IsLaidOut cfg) (m : Memory) where
  abbrev filled : Memory
  filled = fill_tables cfg m

  gigapage : (j : ℕ) → j < 4 → decode 2 (leaf_pte (j <<< 30)) ≡ Walk.page (j * 2 ^ 30)
  gigapage j h =
      let exact : j <<< 30 ≡ j * 2 ^ 30 = omega arith in
      ap (λ p. decode 2 (leaf_pte p)) exact ∙ decode-gigapage _ (omega arith) (omega arith)

  identity_slot :
      (va : ℕ)
      → index 2 va < 4
      → walk decode 2 filled cfg.root va ≡ some (index 2 va * 2 ^ 30 + va % 2 ^ 30)
  identity_slot va h =
      walk-page decode filled 2 cfg.root va _
        (ap (decode 2) (Entries.root_identity cfg l m (index 2 va) h) ∙ gigapage (index 2 va) h)

  phys_map_slot :
      (va j : ℕ)
      → j < 4
      → index 2 va ≡ 384 + j
      → walk decode 2 filled cfg.root va ≡ some (j * 2 ^ 30 + va % 2 ^ 30)
  phys_map_slot va j h e = walk-page decode filled 2 cfg.root va _ (
      ap (λ i. decode 2 (filled (add cfg.root i))) e
      ∙ ap (decode 2) (Entries.root_phys_map cfg l m j h)
      ∙ gigapage j h)

  other_slot :
      (va : ℕ)
      → 4 ≤ index 2 va
      → index 2 va ≢ 256
      → (index 2 va < 384) ⊎ (388 ≤ index 2 va)
      → walk decode 2 filled cfg.root va ≡ none
  other_slot va p q r =
      walk-invalid decode filled 2 cfg.root va (
        ap (decode 2) (Entries.root_other cfg l m (index 2 va) (omega arith) p q r) ∙ decode-zero 2)

  kernel_slot :
      (va : ℕ)
      → index 2 va ≡ 256
      → walk decode 2 filled cfg.root va ≡ walk decode 1 filled cfg.l1_kernel va
  kernel_slot va e = walk-table decode filled 1 cfg.root va cfg.l1_kernel (
      ap (λ i. decode 2 (filled (add cfg.root i))) e
      ∙ ap (decode 2) (Entries.root_kernel cfg l m)
      ∙ decode-table_pte 1 _ (omega arith) (omega arith))

  l1_link :
      (j : ℕ)
      → j < cfg.l0_count
      → decode 1 (filled (add cfg.l1_kernel j)) ≡ Walk.table (cfg.l0_base + j * 4096)
  l1_link j h =
      let exact : cfg.l0_base +u j *u 4096 ≡ cfg.l0_base + j * 4096 = omega arith in
      ap (decode 1) (Entries.l1_entry cfg l m j h ∙ ap table_pte exact)
      ∙ decode-table_pte 0 _ (omega arith) (omega arith)

  l0_leaf :
      (j : ℕ)
      → j < cfg.kernel_4k_pages
      → decode 0 (filled (add cfg.l0_base j)) ≡ Walk.page (cfg.kernel_phys + j * 4096)
  l0_leaf j h =
      let exact : cfg.kernel_phys +u j *u 4096 ≡ cfg.kernel_phys + j * 4096 = omega arith in
      ap (decode 0) (Entries.l0_entry cfg l m j h ∙ ap leaf_pte exact)
      ∙ decode-leaf_pte _ (omega arith) (omega arith)

  in_l1 :
      (va : ℕ)
      → walk decode 1 filled cfg.l1_kernel va ≡ (
          if ltb (va % 2 ^ 30) (cfg.kernel_4k_pages * 4096)
          then some (cfg.kernel_phys + va % 2 ^ 30)
          else none)
  in_l1 =
      KernelWalk.kernel_walk decode filled cfg.l1_kernel cfg.l0_base cfg.kernel_phys
        cfg.kernel_4k_pages (λ j h. l1_link j (omega arith)) l0_leaf
        (λ j h h'. ap (decode 0) (Entries.l0_gap cfg l m j h (omega arith)) ∙ decode-zero 0)
        (λ j h h'. ap (decode 1) (Entries.l1_gap cfg l m j (omega arith) h') ∙ decode-zero 1)

  fill_tables-translation :
      (va : ℕ)
      → walk decode 2 filled cfg.root va ≡ translation cfg.kernel_phys cfg.kernel_4k_pages va
  fill_tables-translation va = ground (
    arith,
    identity_slot va,
    phys_map_slot va (index 2 va - 384),
    other_slot va,
    kernel_slot va,
    in_l1 va,
  )

-- The root table and the memory once the tables are in force.
abbrev pub mmu : Machine × ℕ → ℕ → Option ℕ
mmu (s, root) = walk decode 2 s.memory root

-- For a kernel of whole aligned pages below 1 GiB, the tables that `allocate_page_tables` and
-- `init_page_tables` build translate every address as documented: slots 0 to 3 and 384 to 387 to
-- the first 4 GiB, the kernel's pages of slot 256 to where it was loaded, and no other address to
-- anything.
pub init_page_tables-sv39_translation :
    (allocate_pages : ℕ → Option ℕ) (kernel_phys kernel_size : ℕ) {cfg : PageTableConfig}
    → AllocatesPages allocate_pages
    → IsMappable kernel_phys kernel_size
    → allocate_page_tables allocate_pages kernel_phys kernel_size ≡ some cfg
    → (s : Machine) (va : ℕ)
    → mmu (init_page_tables cfg s) va ≡ translation kernel_phys ((kernel_size + 4095) / 4096) va
unfolding init_page_tables
init_page_tables-sv39_translation allocate_pages kernel_phys kernel_size {cfg} ok k e s va =
    let a = allocate_page_tables-IsAllocated allocate_pages kernel_phys kernel_size ok k e in
    rw memory-serial_str
      (fill_tables-translation cfg a.laid_out _ va ∙ cc (a.kernel_phys_eq, a.pages_eq))

-- The `satp` value of allocated tables names mode Sv39 in bits 60 to 63, address space 0 in bits
-- 44 to 59, and below them the page number of the root table.
pub satp_value-fields :
    (allocate_pages : ℕ → Option ℕ) (kernel_phys kernel_size : ℕ) {cfg : PageTableConfig}
    → AllocatesPages allocate_pages
    → IsMappable kernel_phys kernel_size
    → allocate_page_tables allocate_pages kernel_phys kernel_size ≡ some cfg
    → (satp_value cfg / 2 ^ 60 ≡ 8)
      × (satp_value cfg / 2 ^ 44 % 2 ^ 16 ≡ 0)
      × (satp_value cfg % 2 ^ 44 * 4096 ≡ cfg.root)
unfolding satp_value
satp_value-fields allocate_pages kernel_phys kernel_size {cfg} ok k e =
    let a = allocate_page_tables-IsAllocated allocate_pages kernel_phys kernel_size ok k e in
    let l = a.laid_out in omega (arith, bit_or_field 60 8 (cfg.root / 4096) (omega arith))

-- Building the tables writes nothing outside the pages that the firmware gave for them.
pub init_page_tables-sv39_outside :
    (allocate_pages : ℕ → Option ℕ) (kernel_phys kernel_size : ℕ) {cfg : PageTableConfig}
    → AllocatesPages allocate_pages
    → IsMappable kernel_phys kernel_size
    → allocate_page_tables allocate_pages kernel_phys kernel_size ≡ some cfg
    → (s : Machine) (a : ℕ) → (a < cfg.root) ⊎ (cfg.root + (2 + cfg.l0_count) * 4096 ≤ a)
    → (init_page_tables cfg s).0.memory a ≡ s.memory a
unfolding init_page_tables
init_page_tables-sv39_outside allocate_pages kernel_phys kernel_size {cfg} ok k e s a o =
    let l = allocate_page_tables-IsAllocated allocate_pages kernel_phys kernel_size ok k e in
    rw memory-serial_str
      (Entries.outside cfg l.laid_out _ a o ∙ ap (λ m. m a) (memory-serial_str _ s))
