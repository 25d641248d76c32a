-- ===== src/PageTable/X64.antt =====
-- src/page_table/x86_64.rs: the tables of the x86_64 loader. `allocate_pages` is the firmware's
-- call (AnyPages, LOADER_DATA): the address of so many pages, or `none` where it fails.
pub mod Decode
mod Fill
pub mod Layout
mod Entries
mod KernelEntries
pub mod Regions
pub mod Maps
mod OversizeEntries
pub mod Oversize
use alpheratz.Prelude.{
  ℕ, zero, suc, ◌+u◌, ◌-u◌, ◌*u◌, ◌/◌, ◌%◌, ◌<<<◌, Option, none, some, bit_or, bytes,
}
use alpheratz.Memory.{Memory, add, write, write_zeros, for_range}
use alpheratz.Serial.{Machine, serial_str}
use alpheratz.Prelude.Fallible.{◌>>=◌}

abbrev pub page_size : ℕ
page_size = 4096

abbrev pub page_present : ℕ
page_present = 1 <<< 0

abbrev pub page_writable : ℕ
page_writable = 1 <<< 1

abbrev pub page_huge : ℕ
page_huge = 1 <<< 7

abbrev pub phys_map_pml4_index : ℕ
phys_map_pml4_index = 256

abbrev pub physical_memory_offset : ℕ
physical_memory_offset = 0xFFFF_8000_0000_0000

pub record PageTableConfig : Type 0 where
  pub pml4 : ℕ
  pub pdpt_low : ℕ
  pub pdpt_kernel : ℕ
  pub pdpt_phys_map : ℕ
  pub pd_low_base : ℕ
  pub pd_kernel : ℕ
  pub pd_phys_map_base : ℕ
  pub pt_base : ℕ
  pub kernel_phys : ℕ
  pub kernel_4k_pages : ℕ
  pub pt_count : ℕ
  pub kernel_pml4_index : ℕ

unfoldable pub root : PageTableConfig → ℕ
root cfg = cfg.pml4

-- The struct that `allocate_page_tables` returns, from the base that the firmware gave.
unfoldable pub lay_out : ℕ → ℕ → ℕ → ℕ → ℕ → PageTableConfig
lay_out base kernel_phys kernel_4k_pages pt_count kernel_pml4_index =
    let off : ℕ = 0 in
    let pml4 = base +u off in
    let off = off +u page_size in
    let pdpt_low = base +u off in
    let off = off +u page_size in
    let pdpt_kernel = base +u off in
    let off = off +u page_size in
    let pdpt_phys_map = base +u off in
    let off = off +u page_size in
    let pd_low_base = base +u off in
    let off = off +u (4 *u page_size) in
    let pd_kernel = base +u off in
    let off = off +u page_size in
    let pd_phys_map_base = base +u off in
    let off = off +u (4 *u page_size) in
    let pt_base = base +u off in
    record {
      pml4 = pml4;
      pdpt_low = pdpt_low;
      pdpt_kernel = pdpt_kernel;
      pdpt_phys_map = pdpt_phys_map;
      pd_low_base = pd_low_base;
      pd_kernel = pd_kernel;
      pd_phys_map_base = pd_phys_map_base;
      pt_base = pt_base;
      kernel_phys = kernel_phys;
      kernel_4k_pages = kernel_4k_pages;
      pt_count = pt_count;
      kernel_pml4_index = kernel_pml4_index;
    }

-- `none` is the panic of `expect`.
unfoldable pub allocate_page_tables : (ℕ → Option ℕ) → ℕ → ℕ → ℕ → Option PageTableConfig
unfolding lay_out
allocate_page_tables allocate_pages kernel_phys kernel_size kernel_pml4_index =
    let kernel_4k_pages = (kernel_size +u page_size -u 1) / page_size in
    let pt_count = (kernel_4k_pages +u 511) / 512 in
    let total_pages = 1 +u 3 +u 4 +u 1 +u 4 +u pt_count in
    do
      base ← allocate_pages total_pages
      some (lay_out base kernel_phys kernel_4k_pages pt_count kernel_pml4_index)

-- `pdpt[0..4] → pd[0..4]`, for PDPT_LOW and for PDPT_PHYS_MAP.
pub fill_pdpt : ℕ → ℕ → Memory → Memory
fill_pdpt pdpt pd_base = for_range 4 λ i m.
    let pd_addr = pd_base +u i *u page_size in
    write m (add pdpt i) (bit_or (bit_or pd_addr page_present) page_writable)

-- The first 4 GiB in 2 MiB huge pages, for PD_LOW and for PD_PHYS_MAP.
pub fill_huge_pages : ℕ → Memory → Memory
fill_huge_pages pd_base = for_range 4 λ gb m.
    let pd = pd_base +u gb *u page_size in
    for_range 512
      (λ i m.
        let phys = (gb *u 512 +u i) *u 0x20_0000 in
        write m (add pd i) (bit_or (bit_or (bit_or phys page_present) page_writable) page_huge))
      m

-- `pd_kernel[0..n] → PT pages`
pub fill_pd_kernel : ℕ → ℕ → ℕ → Memory → Memory
fill_pd_kernel pd_kernel pt_base pt_count = for_range pt_count λ i m.
    let pt_addr = pt_base +u i *u page_size in
    write m (add pd_kernel i) (bit_or (bit_or pt_addr page_present) page_writable)

-- The 4 KiB pages of the kernel.
pub fill_pt : ℕ → ℕ → ℕ → Memory → Memory
fill_pt pt_base kernel_phys kernel_4k_pages = for_range kernel_4k_pages λ i m.
    let pt_idx = i / 512 in
    let pte_idx = i % 512 in
    let pt = pt_base +u pt_idx *u page_size in
    let phys = kernel_phys +u i *u page_size in
    write m (add pt pte_idx) (bit_or (bit_or phys page_present) page_writable)

-- The three links of the PML4.
pub link_pml4 : PageTableConfig → Memory → Memory
link_pml4 cfg m =
    let m = write m (add cfg.pml4 0) (bit_or (bit_or cfg.pdpt_low page_present) page_writable) in
    let m =
      write m (add cfg.pml4 cfg.kernel_pml4_index)
        (bit_or (bit_or cfg.pdpt_kernel page_present) page_writable) in
    write m (add cfg.pml4 phys_map_pml4_index)
      (bit_or (bit_or cfg.pdpt_phys_map page_present) page_writable)

-- PDPT_KERNEL, PD_KERNEL and the PTs.
pub kernel_steps : PageTableConfig → Memory → Memory
kernel_steps cfg m =
    let m =
      write m (add cfg.pdpt_kernel 0) (bit_or (bit_or cfg.pd_kernel page_present) page_writable) in
    let m = fill_pd_kernel cfg.pd_kernel cfg.pt_base cfg.pt_count m in
    fill_pt cfg.pt_base cfg.kernel_phys cfg.kernel_4k_pages m

-- The memory after the `unsafe` block, which starts by clearing the allocated pages.
pub fill_tables : PageTableConfig → Memory → Memory
fill_tables cfg m =
    let total_pages = 1 +u 3 +u 4 +u 1 +u 4 +u cfg.pt_count in
    let m = write_zeros m cfg.pml4 (page_size *u total_pages) in
    let m = link_pml4 cfg m in
    let m = fill_pdpt cfg.pdpt_low cfg.pd_low_base m in
    let m = fill_huge_pages cfg.pd_low_base m in
    let m = fill_pdpt cfg.pdpt_phys_map cfg.pd_phys_map_base m in
    let m = fill_huge_pages cfg.pd_phys_map_base m in kernel_steps cfg m

unfoldable pub init_page_tables : PageTableConfig → Machine → Machine × ℕ
init_page_tables cfg s =
    let s = serial_str (bytes "[PT] Initializing page tables...\r\n") s in
    let s = record s { memory = fill_tables cfg s.memory } in
    let s = serial_str (bytes "[PT] Page tables initialized\r\n") s in (s, cfg.pml4)
