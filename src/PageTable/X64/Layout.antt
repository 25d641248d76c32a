-- ===== src/PageTable/X64/Layout.antt =====
-- The pages that `allocate_page_tables` of src/page_table/x86_64.rs hands out, one behind the
-- other, and the word that `init_page_tables` leaves at each entry of them.
use alpheratz.Prelude.{ℕ, ◌+◌, ◌/◌, ◌%◌, ◌^◌, ◌≤◌, ◌<◌, ◌≡◌, ◌*◌, ◌⊎◌, ◌∙◌, ap, arith, Option, some}
use mathlib.Core.Path.{subst}
use alpheratz.Prelude.Fallible.{>>=-eq-some, eq_of_some}
use alpheratz.PageTable.X64.{PageTableConfig, lay_out, allocate_page_tables}
use alpheratz.PageTable.X64.Fill

pub record IsLaidOut (cfg : PageTableConfig) : Type 0 where
  pub pdpt_low : cfg.pdpt_low ≡ cfg.pml4 + 0x1000
  pub pdpt_kernel : cfg.pdpt_kernel ≡ cfg.pml4 + 0x2000
  pub pdpt_phys_map : cfg.pdpt_phys_map ≡ cfg.pml4 + 0x3000
  pub pd_low_base : cfg.pd_low_base ≡ cfg.pml4 + 0x4000
  pub pd_kernel : cfg.pd_kernel ≡ cfg.pml4 + 0x8000
  pub pd_phys_map_base : cfg.pd_phys_map_base ≡ cfg.pml4 + 0x9000
  pub pt_base : cfg.pt_base ≡ cfg.pml4 + 0xD000
  pub tables : Fill.IsRange cfg.pml4 (13 + cfg.pt_count)
  pub pt_count : cfg.pt_count ≡ (cfg.kernel_4k_pages + 511) / 512
  pub pt_count_le : cfg.pt_count ≤ 512
  pub kernel : Fill.IsRange cfg.kernel_phys cfg.kernel_4k_pages
  pub index_lt : cfg.kernel_pml4_index < 512

-- Firmware pages are whole pages of memory that 52 address bits reach.
abbrev pub AllocatesPages : (ℕ → Option ℕ) → Type 0
AllocatesPages allocate_pages = (n base : ℕ) → allocate_pages n ≡ some base → Fill.IsRange base n

-- An address in none of the ranges that the firmware may give.
abbrev pub IsOutside : (ℕ → Option ℕ) → ℕ → Type 0
IsOutside allocate_pages a =
    (n base : ℕ) → allocate_pages n ≡ some base → (a < base) ⊎ (base + n * 4096 ≤ a)

-- A kernel that the tables have room for: its pages start on a page boundary and stay below 1 GiB
-- in all, and its PML4 entry is one of the 512.
pub record IsMappable (kernel_phys kernel_size kernel_pml4_index : ℕ) : Type 0 where
  pub aligned : kernel_phys % 4096 ≡ 0
  pub end : kernel_phys + kernel_size ≤ 2 ^ 52
  pub size : kernel_size ≤ 2 ^ 30
  pub index_lt : kernel_pml4_index < 512

-- The tables in effect: the pages are those of the request, at the places of the record above.
pub record IsAllocated (kernel_phys kernel_size kernel_pml4_index : ℕ) (cfg : PageTableConfig)
    : Type 0 where
  pub laid_out : IsLaidOut cfg
  pub kernel_phys_eq : cfg.kernel_phys ≡ kernel_phys
  pub pages_eq : cfg.kernel_4k_pages ≡ (kernel_size + 4095) / 4096
  pub index_eq : cfg.kernel_pml4_index ≡ kernel_pml4_index

lay_out-IsAllocated :
    (base kernel_phys kernel_size pages pt_count index : ℕ)
    → IsMappable kernel_phys kernel_size index
    → pages ≡ (kernel_size + 4095) / 4096
    → pt_count ≡ (pages + 511) / 512
    → Fill.IsRange base (13 + pt_count)
    → IsAllocated kernel_phys kernel_size index (lay_out base kernel_phys pages pt_count index)
unfolding lay_out
lay_out-IsAllocated base kernel_phys kernel_size pages pt_count index k p q r = omega arith

pub allocate_page_tables-IsAllocated :
    (allocate_pages : ℕ → Option ℕ) (kernel_phys kernel_size kernel_pml4_index : ℕ)
    {cfg : PageTableConfig}
    → AllocatesPages allocate_pages
    → IsMappable kernel_phys kernel_size kernel_pml4_index
    → allocate_page_tables allocate_pages kernel_phys kernel_size kernel_pml4_index ≡ some cfg
    → IsAllocated kernel_phys kernel_size kernel_pml4_index cfg
unfolding allocate_page_tables
allocate_page_tables-IsAllocated allocate_pages kernel_phys kernel_size index ok k e =
    let (base, given, made) = >>=-eq-some (allocate_pages _) _ e in
    subst (IsAllocated kernel_phys kernel_size index) (eq_of_some made) (
      lay_out-IsAllocated base kernel_phys kernel_size _ _ index k (omega arith) (omega arith)
        (omega (arith, ok _ base given)))

-- The tables start at the pages that the firmware gave for them, so many as they are.
pub allocate_page_tables-given :
    (allocate_pages : ℕ → Option ℕ) (kernel_phys kernel_size kernel_pml4_index : ℕ)
    {cfg : PageTableConfig}
    → AllocatesPages allocate_pages
    → IsMappable kernel_phys kernel_size kernel_pml4_index
    → allocate_page_tables allocate_pages kernel_phys kernel_size kernel_pml4_index ≡ some cfg
    → allocate_pages (13 + cfg.pt_count) ≡ some cfg.pml4
unfolding allocate_page_tables lay_out
allocate_page_tables-given allocate_pages kernel_phys kernel_size index {cfg} ok k e =
    let (base, given, made) = >>=-eq-some (allocate_pages _) _ e in
    let fits = ok _ base given in
    subst (λ (c : PageTableConfig). allocate_pages (13 + c.pt_count) ≡ some c.pml4)
      (eq_of_some made) (ap allocate_pages (omega arith) ∙ given ∙ ap some (omega (arith, fits)))
