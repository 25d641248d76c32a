-- ===== src/PageTable/AArch64/Maps.antt =====
-- What the tables of src/page_table/aarch64.rs map, read by the processor's walks from its two
-- base registers.
use alpheratz.Prelude.{
  ℕ, ◌+◌, ◌-◌, ◌*◌, ◌/◌, ◌%◌, ◌^◌, ◌≤◌, ◌<◌, ◌≡◌, ◌⊎◌, ◌≢◌, ap, ◌∙◌, ◌&&◌, arith, Option, none,
  some, ltb, leb, if◌then◌else◌, ◌+u◌, ◌*u◌, ◌<<<◌,
}
use alpheratz.Memory.{Memory, add}
use alpheratz.Serial.{Machine, memory-serial_str}
use alpheratz.PageTable.Walk.{index, walk, walk-table, walk-page, walk-invalid}
use alpheratz.PageTable.KernelWalk
use alpheratz.PageTable.AArch64.{
  PageTableConfig, ttbr1, allocate_page_tables, init_page_tables, fill_tables,
}
use alpheratz.PageTable.AArch64.Decode.{
  decode, decode-table_desc, decode-block_desc, decode-page_desc, decode-zero,
}
use alpheratz.PageTable.AArch64.Layout.{
  AllocatesPages, IsMappable, IsLaidOut, allocate_page_tables-IsAllocated,
}
use alpheratz.PageTable.AArch64.Entries
use alpheratz.PageTable.AArch64.KernelEntries

-- The specification of the upper half, by the offset in it.
abbrev pub high_translation : ℕ → ℕ → ℕ → Option ℕ
high_translation kernel_phys kernel_pages offset =
    if ltb offset (kernel_pages * 4096)
    then some (kernel_phys + offset)
    else if leb 0x8000_0000_0000 offset && ltb offset (0x8000_0000_0000 + 2 ^ 32)
    then some (offset - 0x8000_0000_0000)
    else none

-- The specification: where a 64-bit address leads.
abbrev pub translation : ℕ → ℕ → ℕ → Option ℕ
translation kernel_phys kernel_pages va =
    if ltb va (2 ^ 48)
    then (if ltb va (2 ^ 32) then some va else none)
    else if leb 0xFFFF_0000_0000_0000 va
    then high_translation kernel_phys kernel_pages (va - 0xFFFF_0000_0000_0000)
    else none

-- Four blocks under one L1 map the first 4 GiB of its 512 GiB.
module _ (m : Memory) (l1 : ℕ) (blocks : (j : ℕ) → j < 4 → m (add l1 j) ≡ Entries.block j)
    (gap : (j : ℕ) → 4 ≤ j → j < 512 → m (add l1 j) ≡ 0) where
  four_gib_inside : (va : ℕ) → va % 2 ^ 39 < 2 ^ 32 → walk decode 2 m l1 va ≡ some (va % 2 ^ 39)
  four_gib_inside va h =
      walk-page decode m 2 l1 va (index 2 va * 2 ^ 30) (
        ap (decode 2) (blocks (index 2 va) (omega arith))
        ∙ decode-block_desc (index 2 va <<< 30) _ (omega arith) (omega arith) (omega arith))
      ∙ ap some (omega arith)

  four_gib_outside : (va : ℕ) → 2 ^ 32 ≤ va % 2 ^ 39 → walk decode 2 m l1 va ≡ none
  four_gib_outside va h =
      walk-invalid decode m 2 l1 va
        (ap (decode 2) (gap (index 2 va) (omega arith) (omega arith)) ∙ decode-zero 2)

-- The processor's choice of the base register by the upper 16 bits (T0SZ = T1SZ = 16).
abbrev pub mmu : Memory → ℕ → ℕ → ℕ → Option ℕ
mmu m base0 base1 va =
    if ltb va (2 ^ 48)
    then walk decode 3 m base0 va
    else if leb 0xFFFF_0000_0000_0000 va
    then walk decode 3 m base1 va
    else none

module _ (cfg : PageTableConfig) (l : IsLaidOut cfg) (m : Memory) where
  abbrev filled : Memory
  filled = fill_tables cfg m

  -- Under the TTBR0 root only entry 0 leads on.
  low_slot :
      (va : ℕ)
      → index 3 va ≡ 0
      → walk decode 3 filled cfg.ttbr0_l0 va ≡ walk decode 2 filled cfg.l1_low va
  low_slot va e = walk-table decode filled 2 cfg.ttbr0_l0 va cfg.l1_low (
      ap (λ i. decode 3 (filled (add cfg.ttbr0_l0 i))) e
      ∙ ap (decode 3) (Entries.ttbr0_low cfg l m)
      ∙ decode-table_desc 2 cfg.l1_low _ (omega arith) (omega arith) (omega arith))

  low_other : (va : ℕ) → 0 < index 3 va → walk decode 3 filled cfg.ttbr0_l0 va ≡ none
  low_other va h =
      walk-invalid decode filled 3 cfg.ttbr0_l0 va
        (ap (decode 3) (Entries.ttbr0_other cfg l m (index 3 va) h (omega arith)) ∙ decode-zero 3)

  phys_map_slot :
      (va : ℕ)
      → index 3 va ≡ 256
      → walk decode 3 filled cfg.ttbr1_l0 va ≡ walk decode 2 filled cfg.l1_phys_map va
  phys_map_slot va e = walk-table decode filled 2 cfg.ttbr1_l0 va cfg.l1_phys_map (
      ap (λ i. decode 3 (filled (add cfg.ttbr1_l0 i))) e
      ∙ ap (decode 3) (Entries.ttbr1_phys_map cfg l m)
      ∙ decode-table_desc 2 cfg.l1_phys_map _ (omega arith) (omega arith) (omega arith))

  high_other :
      (va : ℕ) → 0 < index 3 va → index 3 va ≢ 256 → walk decode 3 filled cfg.ttbr1_l0 va ≡ none
  high_other va h ne = walk-invalid decode filled 3 cfg.ttbr1_l0 va (
      ap (decode 3) (KernelEntries.ttbr1_other cfg l m (index 3 va) h (omega arith) ne)
      ∙ decode-zero 3)

  -- Entries 0 of the TTBR1 root and of L1_KERNEL lead to L2_KERNEL, which covers 1 GiB.
  to_l1 :
      (va : ℕ)
      → index 3 va ≡ 0
      → walk decode 3 filled cfg.ttbr1_l0 va ≡ walk decode 2 filled cfg.l1_kernel va
  to_l1 va e = walk-table decode filled 2 cfg.ttbr1_l0 va cfg.l1_kernel (
      ap (λ i. decode 3 (filled (add cfg.ttbr1_l0 i))) e
      ∙ ap (decode 3) (KernelEntries.ttbr1_kernel cfg l m)
      ∙ decode-table_desc 2 cfg.l1_kernel _ (omega arith) (omega arith) (omega arith))

  to_l2 :
      (va : ℕ)
      → index 2 va ≡ 0
      → walk decode 2 filled cfg.l1_kernel va ≡ walk decode 1 filled cfg.l2_kernel va
  to_l2 va e = walk-table decode filled 1 cfg.l1_kernel va cfg.l2_kernel (
      ap (λ i. decode 2 (filled (add cfg.l1_kernel i))) e
      ∙ ap (decode 2) (KernelEntries.l1_kernel_entry cfg l m)
      ∙ decode-table_desc 1 cfg.l2_kernel _ (omega arith) (omega arith) (omega arith))

  beyond_l2 : (va : ℕ) → 0 < index 2 va → walk decode 2 filled cfg.l1_kernel va ≡ none
  beyond_l2 va h = walk-invalid decode filled 2 cfg.l1_kernel va (
      ap (decode 2) (KernelEntries.l1_kernel_gap cfg l m (index 2 va) h (omega arith))
      ∙ decode-zero 2)

  in_l2 :
      (va : ℕ)
      → walk decode 1 filled cfg.l2_kernel va ≡ (
          if ltb (va % 2 ^ 30) (cfg.kernel_4k_pages * 4096)
          then some (cfg.kernel_phys + va % 2 ^ 30)
          else none)
  in_l2 =
      KernelWalk.kernel_walk decode filled cfg.l2_kernel cfg.l3_base cfg.kernel_phys
        cfg.kernel_4k_pages
        (λ j h.
          ap (decode 1) (KernelEntries.l2_entry cfg l m j (omega arith))
          ∙ decode-table_desc 0 (cfg.l3_base +u j *u 4096) _ (omega arith) (omega arith)
              (omega arith))
        (λ j h.
          ap (decode 0) (KernelEntries.l3_entry cfg l m j h)
          ∙ decode-page_desc (cfg.kernel_phys +u j *u 4096) _ (omega arith) (omega arith)
              (omega arith))
        (λ j h h'. ap (decode 0) (KernelEntries.l3_gap cfg l m j h (omega arith)) ∙ decode-zero 0)
        (λ j h h'. ap (decode 1) (KernelEntries.l2_gap cfg l m j (omega arith) h') ∙ decode-zero 1)

  low_walk :
      (va : ℕ)
      → va < 2 ^ 48
      → walk decode 3 filled cfg.ttbr0_l0 va ≡ (if ltb va (2 ^ 32) then some va else none)
  low_walk va h = ground (
    arith,
    low_slot va,
    low_other va,
    four_gib_inside filled cfg.l1_low (Entries.l1_low_entry cfg l m) (Entries.l1_low_gap cfg l m)
        va,
    four_gib_outside filled cfg.l1_low (Entries.l1_low_entry cfg l m) (Entries.l1_low_gap cfg l m)
        va,
  )

  high_walk :
      (va : ℕ)
      → 0xFFFF_0000_0000_0000 ≤ va
      → va < 2 ^ 64
      → walk decode 3 filled cfg.ttbr1_l0 va
        ≡ high_translation cfg.kernel_phys cfg.kernel_4k_pages (va - 0xFFFF_0000_0000_0000)
  high_walk va h h' = ground (
    arith,
    phys_map_slot va,
    high_other va,
    to_l1 va,
    to_l2 va,
    beyond_l2 va,
    in_l2 va,
    four_gib_inside filled cfg.l1_phys_map (Entries.l1_phys_map_entry cfg l m)
        (Entries.l1_phys_map_gap cfg l m) va,
    four_gib_outside filled cfg.l1_phys_map (Entries.l1_phys_map_entry cfg l m)
        (Entries.l1_phys_map_gap cfg l m) va,
  )

  fill_tables-translation :
      (va : ℕ)
      → va < 2 ^ 64
      → mmu filled cfg.ttbr0_l0 cfg.ttbr1_l0 va ≡ translation cfg.kernel_phys cfg.kernel_4k_pages va
  fill_tables-translation va h = ground (arith, low_walk va, high_walk va)

-- For a kernel of whole aligned pages below 1 GiB, the tables that `allocate_page_tables` and
-- `init_page_tables` build, with TTBR0 as returned and TTBR1 as the accessor gives it, translate
-- every 64-bit address as documented: the first 4 GiB to itself, the kernel's pages from
-- 0xFFFF_0000_0000_0000 on to where it was loaded, 4 GiB from 0xFFFF_8000_0000_0000 on to the first
-- 4 GiB, and no other address to anything.
pub init_page_tables-ttbr_translation :
    (allocate_pages : ℕ → Option ℕ) (kernel_phys kernel_size : ℕ) {cfg : PageTableConfig}
    → AllocatesPages allocate_pages
    → IsMappable kernel_phys kernel_size
    → allocate_page_tables allocate_pages kernel_phys kernel_size ≡ some cfg
    → (s : Machine) (va : ℕ) → va < 2 ^ 64
    → let (s', base0) = init_page_tables cfg s in
      mmu s'.memory base0 (ttbr1 cfg) va ≡ translation kernel_phys ((kernel_size + 4095) / 4096) va
unfolding init_page_tables ttbr1
init_page_tables-ttbr_translation allocate_pages kernel_phys kernel_size {cfg} ok k e s va h =
    let a = allocate_page_tables-IsAllocated allocate_pages kernel_phys kernel_size ok k e in
    rw memory-serial_str
      (fill_tables-translation cfg a.laid_out _ va h ∙ cc (a.kernel_phys_eq, a.pages_eq))

-- Building the tables writes nothing outside the pages that the firmware gave for them.
pub init_page_tables-ttbr_outside :
    (allocate_pages : ℕ → Option ℕ) (kernel_phys kernel_size : ℕ) {cfg : PageTableConfig}
    → AllocatesPages allocate_pages
    → IsMappable kernel_phys kernel_size
    → allocate_page_tables allocate_pages kernel_phys kernel_size ≡ some cfg
    → (s : Machine) (a : ℕ) → (a < cfg.ttbr0_l0) ⊎ (cfg.ttbr0_l0 + (6 + cfg.l3_count) * 4096 ≤ a)
    → (init_page_tables cfg s).0.memory a ≡ s.memory a
unfolding init_page_tables
init_page_tables-ttbr_outside allocate_pages kernel_phys kernel_size {cfg} ok k e s a o =
    let l = allocate_page_tables-IsAllocated allocate_pages kernel_phys kernel_size ok k e in
    rw memory-serial_str
      (Entries.outside cfg l.laid_out _ a o ∙ ap (λ m. m a) (memory-serial_str _ s))
