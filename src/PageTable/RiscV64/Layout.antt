-- ===== src/PageTable/RiscV64/Layout.antt =====
-- The pages that `allocate_page_tables` of src/page_table/riscv64.rs hands out.
use mathlib.Core.Path.{subst}
use alpheratz.Prelude.{ℕ, ◌+◌, ◌*◌, ◌/◌, ◌%◌, ◌^◌, ◌≤◌, ◌≡◌, arith, Option, some}
use alpheratz.Prelude.Fallible.{>>=-eq-some, eq_of_some}
use alpheratz.PageTable.RiscV64.{PageTableConfig, lay_out, allocate_page_tables}

-- A physical range of whole pages, within the 56 address bits of Sv39.
abbrev pub IsRange : ℕ → ℕ → Type 0
IsRange base pages = (base % 4096 ≡ 0) × (base + pages * 4096 ≤ 2 ^ 56)

pub record IsLaidOut (cfg : PageTableConfig) : Type 0 where
  pub l1_kernel : cfg.l1_kernel ≡ cfg.root + 0x1000
  pub l0_base : cfg.l0_base ≡ cfg.root + 0x2000
  pub tables : IsRange cfg.root (2 + cfg.l0_count)
  pub l0_count : cfg.l0_count ≡ (cfg.kernel_4k_pages + 511) / 512
  pub l0_count_le : cfg.l0_count ≤ 512
  pub kernel : IsRange cfg.kernel_phys cfg.kernel_4k_pages

abbrev pub AllocatesPages : (ℕ → Option ℕ) → Type 0
AllocatesPages allocate_pages = (n base : ℕ) → allocate_pages n ≡ some base → IsRange base n

-- A kernel that the tables can map: it starts on a page boundary and has at most 1 GiB.
pub record IsMappable (kernel_phys kernel_size : ℕ) : Type 0 where
  pub aligned : kernel_phys % 4096 ≡ 0
  pub end : kernel_phys + kernel_size ≤ 2 ^ 56
  pub size : kernel_size ≤ 2 ^ 30

pub record IsAllocated (kernel_phys kernel_size : ℕ) (cfg : PageTableConfig) : Type 0 where
  pub laid_out : IsLaidOut cfg
  pub kernel_phys_eq : cfg.kernel_phys ≡ kernel_phys
  pub pages_eq : cfg.kernel_4k_pages ≡ (kernel_size + 4095) / 4096

lay_out-IsAllocated :
    (base kernel_phys kernel_size pages l0_count : ℕ)
    → IsMappable kernel_phys kernel_size
    → pages ≡ (kernel_size + 4095) / 4096
    → l0_count ≡ (pages + 511) / 512
    → IsRange base (2 + l0_count)
    → IsAllocated kernel_phys kernel_size (lay_out base kernel_phys pages l0_count)
unfolding lay_out
lay_out-IsAllocated base kernel_phys kernel_size pages l0_count k p q r = omega arith

pub allocate_page_tables-IsAllocated :
    (allocate_pages : ℕ → Option ℕ) (kernel_phys kernel_size : ℕ) {cfg : PageTableConfig}
    → AllocatesPages allocate_pages
    → IsMappable kernel_phys kernel_size
    → allocate_page_tables allocate_pages kernel_phys kernel_size ≡ some cfg
    → IsAllocated kernel_phys kernel_size cfg
unfolding allocate_page_tables
allocate_page_tables-IsAllocated allocate_pages kernel_phys kernel_size ok k e =
    let (base, given, made) = >>=-eq-some (allocate_pages _) _ e in
    subst (IsAllocated kernel_phys kernel_size) (eq_of_some made) (
      lay_out-IsAllocated base kernel_phys kernel_size _ _ k (omega arith) (omega arith)
        (omega (arith, ok _ base given)))
