-- ===== src/PageTable/LoongArch64.antt =====
-- src/page_table/loongarch64.rs: the tables of the loongarch64 loader, and the register values for
-- its direct mapping windows and its page walk. `allocate_pages` is the firmware's call (AnyPages,
-- LOADER_DATA): the address of so many pages, or `none` where it fails.
pub mod Decode
mod Layout
mod Entries
pub mod Maps
pub mod Registers
use alpheratz.Prelude.{ℕ, ◌+u◌, ◌-u◌, ◌*u◌, ◌/◌, ◌%◌, ◌<<<◌, Option, some, bit_or, bytes}
use alpheratz.Prelude.Fallible.{◌>>=◌}
use alpheratz.Memory.{Memory, add, write, write_zeros, for_range}
use alpheratz.Serial.{Machine, serial_str}

abbrev pub page_size : ℕ
page_size = 4096

abbrev pte_v : ℕ
pte_v = 1 <<< 0

abbrev pte_d : ℕ
pte_d = 1 <<< 1

abbrev pte_plv0 : ℕ
pte_plv0 = 0 <<< 2

abbrev pte_mat_cc : ℕ
pte_mat_cc = 1 <<< 4

abbrev pte_g : ℕ
pte_g = 1 <<< 6

abbrev pub leaf_attrs : ℕ
leaf_attrs = bit_or (bit_or (bit_or (bit_or pte_v pte_d) pte_plv0) pte_mat_cc) pte_g

abbrev pub kernel_pgd_index : ℕ
kernel_pgd_index = 510

pub record PageTableConfig : Type 0 where
  pub pgd : ℕ
  pub pud_kernel : ℕ
  pub pmd_kernel : ℕ
  pub pte_base : ℕ
  pub kernel_phys : ℕ
  pub kernel_4k_pages : ℕ
  pub pte_count : ℕ

-- The struct that `allocate_page_tables` returns, from the base that the firmware gave.
unfoldable pub lay_out : ℕ → ℕ → ℕ → ℕ → PageTableConfig
lay_out base kernel_phys kernel_4k_pages pte_count =
    let off : ℕ = 0 in
    let pgd = base +u off in
    let off = off +u page_size in
    let pud_kernel = base +u off in
    let off = off +u page_size in
    let pmd_kernel = base +u off in
    let off = off +u page_size in
    let pte_base = base +u off in
    record {
      pgd = pgd;
      pud_kernel = pud_kernel;
      pmd_kernel = pmd_kernel;
      pte_base = pte_base;
      kernel_phys = kernel_phys;
      kernel_4k_pages = kernel_4k_pages;
      pte_count = pte_count;
    }

-- `none` is the panic of `expect`.
unfoldable pub allocate_page_tables : (ℕ → Option ℕ) → ℕ → ℕ → Option PageTableConfig
allocate_page_tables allocate_pages kernel_phys kernel_size =
    let kernel_4k_pages = (kernel_size +u page_size -u 1) / page_size in
    let pte_count = (kernel_4k_pages +u 511) / 512 in
    let total_pages = 3 +u pte_count in
    do base ← allocate_pages total_pages; some (lay_out base kernel_phys kernel_4k_pages pte_count)

-- `pmd[0..n] → PTE pages`: a directory entry is the plain address.
pub fill_pmd : ℕ → ℕ → ℕ → Memory → Memory
fill_pmd pmd pte_base pte_count =
    for_range pte_count
      λ i m. let pte_addr = pte_base +u i *u page_size in write m (add pmd i) pte_addr

-- The 4 KiB pages of the kernel.
pub fill_pte : ℕ → ℕ → ℕ → Memory → Memory
fill_pte pte_base kernel_phys kernel_4k_pages = for_range kernel_4k_pages λ i m.
    let tbl_idx = i / 512 in
    let ent_idx = i % 512 in
    let pte = pte_base +u tbl_idx *u page_size in
    let phys = kernel_phys +u i *u page_size in write m (add pte ent_idx) (bit_or phys leaf_attrs)

-- The memory after the `unsafe` block, which starts by clearing the allocated pages.
pub fill_tables : PageTableConfig → Memory → Memory
fill_tables cfg m =
    let total_pages = 3 +u cfg.pte_count in
    let m = write_zeros m cfg.pgd (page_size *u total_pages) in
    let m = write m (add cfg.pgd kernel_pgd_index) cfg.pud_kernel in
    let m = write m (add cfg.pud_kernel 0) cfg.pmd_kernel in
    let m = fill_pmd cfg.pmd_kernel cfg.pte_base cfg.pte_count m in
    fill_pte cfg.pte_base cfg.kernel_phys cfg.kernel_4k_pages m

unfoldable pub init_page_tables : PageTableConfig → Machine → Machine × ℕ
init_page_tables cfg s =
    let s = serial_str (bytes "[PT] Initializing LoongArch64 page tables...\r\n") s in
    let s = record s { memory = fill_tables cfg s.memory } in
    let s = serial_str (bytes "[PT] LoongArch64 page tables initialized\r\n") s in (s, cfg.pgd)
