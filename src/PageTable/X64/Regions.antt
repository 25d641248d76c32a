-- ===== src/PageTable/X64/Regions.antt =====
-- The regions under each PML4 entry of src/page_table/x86_64.rs, and so the whole translation.
use alpheratz.Prelude.{
  ℕ, ◌+◌, ◌*◌, ◌/◌, ◌%◌, ◌^◌, ◌≤◌, ◌<◌, ◌≡◌, ◌≢◌, ◌∙◌, ap, arith, Option, none, some, ltb, ◌==◌,
  if◌then◌else◌, Bool-cases, inl, inr,
}
use alpheratz.Memory.{Memory, add}
use alpheratz.PageTable.Walk.{index, walk, walk-table, walk-page, walk-invalid}
use alpheratz.PageTable.KernelWalk
use alpheratz.PageTable.X64.{PageTableConfig, fill_tables}
use alpheratz.PageTable.X64.Decode.{decode, decode-table, decode-page, decode-huge, decode-zero}
use alpheratz.PageTable.X64.Layout.{IsLaidOut}
use alpheratz.PageTable.X64.Entries
use alpheratz.PageTable.X64.KernelEntries

-- Four directories of huge pages under one PDPT map the first 4 GiB of its 512 GiB.
module _ (m : Memory) (pdpt pd_base : ℕ) (aligned : pd_base % 4096 ≡ 0)
    (fits : pd_base + 0x4000 ≤ 2 ^ 52)
    (directory : (j : ℕ) → j < 4 → m (add pdpt j) ≡ pd_base + j * 4096 + 3)
    (gap : (j : ℕ) → 4 ≤ j → j < 512 → m (add pdpt j) ≡ 0)
    (huge : (gb i : ℕ)
      → gb < 4
      → i < 512
      → m (add (pd_base + gb * 4096) i) ≡ (gb * 512 + i) * 0x20_0000 + 0x83) where
  four_gib_inside : (va : ℕ) → va % 2 ^ 39 < 2 ^ 32 → walk decode 2 m pdpt va ≡ some (va % 2 ^ 39)
  four_gib_inside va h =
      walk-table decode m 1 pdpt va (pd_base + index 2 va * 4096) (
        ap (decode 2) (directory (index 2 va) (omega arith))
        ∙ decode-table 1 _ (omega arith) (omega arith))
      ∙ walk-page decode m 1 _ va ((index 2 va * 512 + index 1 va) * 0x20_0000) (
          ap (decode 1) (huge (index 2 va) (index 1 va) (omega arith) (omega arith))
          ∙ decode-huge _ (omega arith) (omega arith))
      ∙ ap some (omega arith)

  four_gib_outside : (va : ℕ) → 2 ^ 32 ≤ va % 2 ^ 39 → walk decode 2 m pdpt va ≡ none
  four_gib_outside va h =
      walk-invalid decode m 2 pdpt va
        (ap (decode 2) (gap (index 2 va) (omega arith) (omega arith)) ∙ decode-zero 2)

  four_gib :
      (va : ℕ)
      → walk decode 2 m pdpt va ≡ (if ltb (va % 2 ^ 39) (2 ^ 32) then some (va % 2 ^ 39) else none)
  four_gib va = elim (Bool-cases (ltb (va % 2 ^ 39) (2 ^ 32))) [
    | inl low ↦ rw low (four_gib_inside va (ground arith))
    | inr high ↦ rw high (four_gib_outside va (ground arith))
  ]

-- The specification: where an address leads, by its PML4 slot and its offset in the 512 GiB of it.
abbrev pub translation : ℕ → ℕ → ℕ → ℕ → Option ℕ
translation kernel_phys kernel_pages kernel_pml4_index va =
    let slot = va / 2 ^ 39 % 512 in
    let offset = va % 2 ^ 39 in
    let low = if ltb offset (2 ^ 32) then some offset else none in
    let kernel = if ltb offset (kernel_pages * 4096) then some (kernel_phys + offset) else none in
    if slot == 256
    then low
    else if slot == kernel_pml4_index
    then kernel
    else if slot == 0
    then low
    else none

module _ (cfg : PageTableConfig) (l : IsLaidOut cfg) (m : Memory) where
  abbrev filled : Memory
  filled = fill_tables cfg m

  low_region :
      (va : ℕ)
      → walk decode 2 filled cfg.pdpt_low va
        ≡ (if ltb (va % 2 ^ 39) (2 ^ 32) then some (va % 2 ^ 39) else none)
  low_region =
      four_gib filled cfg.pdpt_low cfg.pd_low_base (omega arith) (omega arith)
        (Entries.pdpt_low_entry cfg l m) (Entries.pdpt_low_gap cfg l m)
        (Entries.pd_low_entry cfg l m)

  phys_map_region :
      (va : ℕ)
      → walk decode 2 filled cfg.pdpt_phys_map va
        ≡ (if ltb (va % 2 ^ 39) (2 ^ 32) then some (va % 2 ^ 39) else none)
  phys_map_region =
      four_gib filled cfg.pdpt_phys_map cfg.pd_phys_map_base (omega arith) (omega arith)
        (Entries.pdpt_phys_map_entry cfg l m) (Entries.pdpt_phys_map_gap cfg l m)
        (Entries.pd_phys_map_entry cfg l m)

  -- Only entry 0 of PDPT_KERNEL is set, so the kernel's PD covers the first 1 GiB of its slot.
  to_pd_kernel :
      (va : ℕ)
      → va % 2 ^ 39 < 2 ^ 30
      → walk decode 2 filled cfg.pdpt_kernel va ≡ walk decode 1 filled cfg.pd_kernel va
  to_pd_kernel va h =
      let first : index 2 va ≡ 0 = omega arith in
      walk-table decode filled 1 cfg.pdpt_kernel va cfg.pd_kernel (
        ap (λ i. decode 2 (filled (add cfg.pdpt_kernel i))) first
        ∙ ap (decode 2) (KernelEntries.pdpt_kernel_entry cfg l m)
        ∙ decode-table 1 _ (omega arith) (omega arith))

  beyond_pd : (va : ℕ) → 2 ^ 30 ≤ va % 2 ^ 39 → walk decode 2 filled cfg.pdpt_kernel va ≡ none
  beyond_pd va h = walk-invalid decode filled 2 _ va (
      ap (decode 2) (KernelEntries.pdpt_kernel_gap cfg l m (index 2 va) (omega arith) (omega arith))
      ∙ decode-zero 2)

  in_pd :
      (va : ℕ)
      → walk decode 1 filled cfg.pd_kernel va ≡ (
          if ltb (va % 2 ^ 30) (cfg.kernel_4k_pages * 4096)
          then some (cfg.kernel_phys + va % 2 ^ 30)
          else none)
  in_pd =
      KernelWalk.kernel_walk decode filled cfg.pd_kernel cfg.pt_base cfg.kernel_phys
        cfg.kernel_4k_pages
        (λ j h.
          ap (decode 1) (KernelEntries.pd_kernel_entry cfg l m j (omega arith))
          ∙ decode-table 0 _ (omega arith) (omega arith))
        (λ j h.
          ap (decode 0) (KernelEntries.pt_entry cfg l m j h)
          ∙ decode-page _ (omega arith) (omega arith))
        (λ j h h'. ap (decode 0) (KernelEntries.pt_gap cfg l m j h (omega arith)) ∙ decode-zero 0)
        (λ j h h'.
          ap (decode 1) (KernelEntries.pd_kernel_gap cfg l m j (omega arith) h') ∙ decode-zero 1)

  kernel_region :
      (va : ℕ)
      → walk decode 2 filled cfg.pdpt_kernel va ≡ (
          if ltb (va % 2 ^ 39) (cfg.kernel_4k_pages * 4096)
          then some (cfg.kernel_phys + va % 2 ^ 39)
          else none)
  kernel_region va = ground (arith, to_pd_kernel va, beyond_pd va, in_pd va)

  slot_of :
      (va p : ℕ)
      → filled (add cfg.pml4 (index 3 va)) ≡ p + 3
      → p % 4096 ≡ 0
      → p < 2 ^ 52
      → walk decode 3 filled cfg.pml4 va ≡ walk decode 2 filled p va
  slot_of va p e aligned fits =
      walk-table decode filled 2 cfg.pml4 va p (ap (decode 3) e ∙ decode-table 2 p aligned fits)

  low_slot :
      (va : ℕ)
      → 0 < cfg.kernel_pml4_index
      → index 3 va ≡ 0
      → walk decode 3 filled cfg.pml4 va ≡ walk decode 2 filled cfg.pdpt_low va
  low_slot va other e =
      slot_of va cfg.pdpt_low (ap (λ i. filled (add cfg.pml4 i)) e ∙ Entries.pml4_low cfg l m other)
        (omega arith) (omega arith)

  phys_map_slot :
      (va : ℕ)
      → index 3 va ≡ 256
      → walk decode 3 filled cfg.pml4 va ≡ walk decode 2 filled cfg.pdpt_phys_map va
  phys_map_slot va e =
      slot_of va cfg.pdpt_phys_map
        (ap (λ i. filled (add cfg.pml4 i)) e ∙ Entries.pml4_phys_map cfg l m) (omega arith)
        (omega arith)

  kernel_slot :
      (va : ℕ)
      → cfg.kernel_pml4_index ≢ 256
      → index 3 va ≡ cfg.kernel_pml4_index
      → walk decode 3 filled cfg.pml4 va ≡ walk decode 2 filled cfg.pdpt_kernel va
  kernel_slot va other e =
      slot_of va cfg.pdpt_kernel
        (ap (λ i. filled (add cfg.pml4 i)) e ∙ Entries.pml4_kernel cfg l m other) (omega arith)
        (omega arith)

  other_slot :
      (va : ℕ)
      → 0 < index 3 va
      → index 3 va ≢ 256
      → index 3 va ≢ cfg.kernel_pml4_index
      → walk decode 3 filled cfg.pml4 va ≡ none
  other_slot va p q r =
      walk-invalid decode filled 3 cfg.pml4 va (
        ap (decode 3) (Entries.pml4_other cfg l m (index 3 va) (omega arith) p q r) ∙ decode-zero 3)

  pub fill_tables-translation :
      (va : ℕ)
      → walk decode 3 filled cfg.pml4 va
        ≡ translation cfg.kernel_phys cfg.kernel_4k_pages cfg.kernel_pml4_index va
  fill_tables-translation va = ground (
    arith,
    low_slot va,
    phys_map_slot va,
    kernel_slot va,
    other_slot va,
    low_region va,
    phys_map_region va,
    kernel_region va,
  )
