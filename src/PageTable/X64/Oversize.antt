-- ===== src/PageTable/X64/Oversize.antt =====
-- What `init_page_tables` of src/page_table/x86_64.rs makes of a kernel of more than 1 GiB.
use alpheratz.Prelude.{
  ℕ, ◌+◌, ◌*◌, ◌/◌, ◌%◌, ◌^◌, ◌≤◌, ◌<◌, ◌≡◌, ◌≢◌, ◌∙◌, ap, arith, Option, none, some,
}
use mathlib.Core.Path.{subst}
use alpheratz.Prelude.Fallible.{>>=-eq-some, eq_of_some}
use alpheratz.Memory.{Memory, add}
use alpheratz.Serial.{Machine, memory-serial_str}
use alpheratz.PageTable.Walk.{index, walk, walk-table, walk-page, walk-invalid}
use alpheratz.PageTable.X64.{
  PageTableConfig, lay_out, allocate_page_tables, fill_tables, init_page_tables,
  physical_memory_offset,
}
use alpheratz.PageTable.X64.Decode.{decode, decode-table, decode-page, decode-zero}
use alpheratz.PageTable.X64.Fill
use alpheratz.PageTable.X64.Layout.{AllocatesPages}
use alpheratz.PageTable.X64.Maps.{mmu}
use alpheratz.PageTable.X64.OversizeEntries
use alpheratz.PageTable.X64.OversizeEntries.{IsOversized}

module _ (cfg : PageTableConfig) (l : IsOversized cfg) (m : Memory) where
  -- Through the physical map, the kernel's part past 1 GiB is where the start of memory should be.
  phys_map_to_kernel :
      (va : ℕ)
      → index 3 va ≡ 256
      → 2 ^ 30 + va % 2 ^ 39 < cfg.kernel_4k_pages * 4096
      → walk decode 3 (fill_tables cfg m) cfg.pml4 va
        ≡ some (cfg.kernel_phys + 2 ^ 30 + va % 2 ^ 39)
  phys_map_to_kernel va slot inside =
      let first : index 2 va ≡ 0 = omega arith in
      let pt = cfg.pt_base + (512 + index 1 va) * 4096 in
      let same : add pt (index 0 va) ≡ add cfg.pt_base (2 ^ 18 + va % 2 ^ 39 / 4096) =
        omega arith in
      walk-table decode (fill_tables cfg m) 2 cfg.pml4 va cfg.pdpt_phys_map (
        ap (λ i. decode 3 (fill_tables cfg m (add cfg.pml4 i))) slot
        ∙ ap (decode 3) (OversizeEntries.pml4_phys_map cfg l m)
        ∙ decode-table 2 _ (omega arith) (omega arith))
      ∙ walk-table decode (fill_tables cfg m) 1 cfg.pdpt_phys_map va cfg.pd_phys_map_base (
          ap (λ i. decode 2 (fill_tables cfg m (add cfg.pdpt_phys_map i))) first
          ∙ ap (decode 2) (OversizeEntries.pdpt_phys_map_first cfg l m)
          ∙ decode-table 1 _ (omega arith) (omega arith))
      ∙ walk-table decode (fill_tables cfg m) 0 cfg.pd_phys_map_base va pt (
          ap (decode 1) (OversizeEntries.pd_phys_map_overwritten cfg l m (index 1 va) (omega arith))
          ∙ decode-table 0 _ (omega arith) (omega arith))
      ∙ walk-page decode (fill_tables cfg m) 0 pt va
          (cfg.kernel_phys + (2 ^ 18 + va % 2 ^ 39 / 4096) * 4096)
          (ap (λ a. decode 0 (fill_tables cfg m a)) same
            ∙ ap (decode 0)
                (OversizeEntries.pt_entry cfg l m (2 ^ 18 + va % 2 ^ 39 / 4096) (omega arith))
            ∙ decode-page _ (omega arith) (omega arith))
      ∙ ap some (omega arith)

  kernel_to_nothing :
      (va : ℕ)
      → index 3 va ≡ cfg.kernel_pml4_index
      → 2 ^ 30 ≤ va % 2 ^ 39
      → walk decode 3 (fill_tables cfg m) cfg.pml4 va ≡ none
  kernel_to_nothing va slot past =
      walk-table decode (fill_tables cfg m) 2 cfg.pml4 va cfg.pdpt_kernel (
        ap (λ i. decode 3 (fill_tables cfg m (add cfg.pml4 i))) slot
        ∙ ap (decode 3) (OversizeEntries.pml4_kernel cfg l m)
        ∙ decode-table 2 _ (omega arith) (omega arith))
      ∙ walk-invalid decode (fill_tables cfg m) 2 _ va (
          ap (decode 2)
            (OversizeEntries.pdpt_kernel_gap cfg l m (index 2 va) (omega arith) (omega arith))
          ∙ decode-zero 2)

record IsAllocated (kernel_phys kernel_size kernel_pml4_index : ℕ) (cfg : PageTableConfig)
    : Type 0 where
  oversized : IsOversized cfg
  kernel_phys_eq : cfg.kernel_phys ≡ kernel_phys
  pages_eq : cfg.kernel_4k_pages ≡ (kernel_size + 4095) / 4096
  index_eq : cfg.kernel_pml4_index ≡ kernel_pml4_index

-- A kernel of more than 1 GiB, and of 2 GiB at most, in a PML4 slot other than 256.
pub record IsTooLarge (kernel_phys kernel_size kernel_pml4_index : ℕ) : Type 0 where
  pub aligned : kernel_phys % 4096 ≡ 0
  pub end : kernel_phys + kernel_size ≤ 2 ^ 52
  pub more : 2 ^ 30 < kernel_size
  pub size : kernel_size ≤ 2 ^ 31
  pub index_lt : kernel_pml4_index < 512
  pub index_ne : kernel_pml4_index ≢ 256

lay_out-IsAllocated :
    (base kernel_phys kernel_size pages pt_count index : ℕ)
    → IsTooLarge kernel_phys kernel_size index
    → pages ≡ (kernel_size + 4095) / 4096
    → pt_count ≡ (pages + 511) / 512
    → Fill.IsRange base (13 + pt_count)
    → IsAllocated kernel_phys kernel_size index (lay_out base kernel_phys pages pt_count index)
unfolding lay_out
lay_out-IsAllocated base kernel_phys kernel_size pages pt_count index k p q r = omega arith

allocate_page_tables-IsAllocated :
    (allocate_pages : ℕ → Option ℕ) (kernel_phys kernel_size kernel_pml4_index : ℕ)
    {cfg : PageTableConfig}
    → AllocatesPages allocate_pages
    → IsTooLarge kernel_phys kernel_size kernel_pml4_index
    → allocate_page_tables allocate_pages kernel_phys kernel_size kernel_pml4_index ≡ some cfg
    → IsAllocated kernel_phys kernel_size kernel_pml4_index cfg
unfolding allocate_page_tables
allocate_page_tables-IsAllocated allocate_pages kernel_phys kernel_size index ok k e =
    let (base, given, made) = >>=-eq-some (allocate_pages _) _ e in
    subst (IsAllocated kernel_phys kernel_size index) (eq_of_some made) (
      lay_out-IsAllocated base kernel_phys kernel_size _ _ index k (omega arith) (omega arith)
        (omega (arith, ok _ base given)))

-- A kernel of more than 1 GiB, and of 2 GiB at most, of whole aligned pages and in a PML4 slot other
-- than 256, has more page tables than PD_KERNEL has entries. They run on into the physical map's, so
-- that a byte of the kernel past 1 GiB is found in the physical map, where the start of memory should
-- be, and its own address leads nowhere.
pub init_page_tables-oversize :
    (allocate_pages : ℕ → Option ℕ) (kernel_phys kernel_size kernel_pml4_index : ℕ)
    {cfg : PageTableConfig}
    → AllocatesPages allocate_pages
    → IsTooLarge kernel_phys kernel_size kernel_pml4_index
    → allocate_page_tables allocate_pages kernel_phys kernel_size kernel_pml4_index ≡ some cfg
    → (s : Machine) (va past : ℕ) → 2 ^ 30 + past < (kernel_size + 4095) / 4096 * 4096
    → va / 2 ^ 39 % 512 ≡ kernel_pml4_index
    → va % 2 ^ 39 ≡ 2 ^ 30 + past
    → (mmu (init_page_tables cfg s) (physical_memory_offset + past)
        ≡ some (kernel_phys + 2 ^ 30 + past))
      × (mmu (init_page_tables cfg s) va ≡ none)
unfolding init_page_tables
init_page_tables-oversize allocate_pages kernel_phys kernel_size index {cfg} ok k e s va past inside
      slot at =
    let a = allocate_page_tables-IsAllocated allocate_pages kernel_phys kernel_size index ok k e in
    let offset : (physical_memory_offset + past) % 2 ^ 39 ≡ past = omega (arith, k.size, inside) in
    (
      rw memory-serial_str (
          phys_map_to_kernel cfg a.oversized _ (physical_memory_offset + past)
            (omega (arith, k.size, inside)) (omega (arith, a.pages_eq, offset, inside))
          ∙ ap (λ p. some (p + 2 ^ 30 + (physical_memory_offset + past) % 2 ^ 39)) a.kernel_phys_eq
          ∙ ap (λ o. some (kernel_phys + 2 ^ 30 + o)) offset),
      rw memory-serial_str (
          kernel_to_nothing cfg a.oversized _ va (omega (arith, a.index_eq, slot))
            (omega (arith, at))),
    )
