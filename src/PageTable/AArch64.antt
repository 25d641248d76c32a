-- ===== src/PageTable/AArch64.antt =====
-- src/page_table/aarch64.rs: the two table trees of the aarch64 loader. `allocate_pages` is the
-- firmware's call (AnyPages, LOADER_DATA): the address of so many pages, or `none` where it fails.
pub mod Decode
mod Layout
mod Entries
mod KernelEntries
pub mod Maps
pub mod Registers
use alpheratz.Prelude.{ℕ, ◌+u◌, ◌-u◌, ◌*u◌, ◌/◌, ◌%◌, ◌<<<◌, Option, some, bit_or, bytes}
use alpheratz.Prelude.Fallible.{◌>>=◌}
use alpheratz.Memory.{Memory, add, write, write_zeros, for_range}
use alpheratz.Serial.{Machine, serial_str}

abbrev pub page_size : ℕ
page_size = 4096

abbrev pub table_desc : ℕ
table_desc = 0b11

abbrev pub block_desc : ℕ
block_desc = 0b01

abbrev pub page_desc : ℕ
page_desc = 0b11

abbrev af : ℕ
af = 1 <<< 10

abbrev sh_inner : ℕ
sh_inner = 0b11 <<< 8

abbrev attr_normal : ℕ
attr_normal = 0 <<< 2

abbrev pub normal_mem_attrs : ℕ
normal_mem_attrs = bit_or (bit_or af sh_inner) attr_normal

abbrev pub kernel_l0_index : ℕ
kernel_l0_index = 0

abbrev pub phys_map_l0_index : ℕ
phys_map_l0_index = 256

pub record PageTableConfig : Type 0 where
  pub ttbr0_l0 : ℕ
  pub l1_low : ℕ
  pub ttbr1_l0 : ℕ
  pub l1_kernel : ℕ
  pub l2_kernel : ℕ
  pub l1_phys_map : ℕ
  pub l3_base : ℕ
  pub kernel_phys : ℕ
  pub kernel_4k_pages : ℕ
  pub l3_count : ℕ

unfoldable pub ttbr0 : PageTableConfig → ℕ
ttbr0 cfg = cfg.ttbr0_l0

unfoldable pub ttbr1 : PageTableConfig → ℕ
ttbr1 cfg = cfg.ttbr1_l0

-- The struct that `allocate_page_tables` returns, from the base that the firmware gave.
unfoldable pub lay_out : ℕ → ℕ → ℕ → ℕ → PageTableConfig
lay_out base kernel_phys kernel_4k_pages l3_count =
    let off : ℕ = 0 in
    let ttbr0_l0 = base +u off in
    let off = off +u page_size in
    let l1_low = base +u off in
    let off = off +u page_size in
    let ttbr1_l0 = base +u off in
    let off = off +u page_size in
    let l1_kernel = base +u off in
    let off = off +u page_size in
    let l2_kernel = base +u off in
    let off = off +u page_size in
    let l1_phys_map = base +u off in
    let off = off +u page_size in
    let l3_base = base +u off in
    record {
      ttbr0_l0 = ttbr0_l0;
      l1_low = l1_low;
      ttbr1_l0 = ttbr1_l0;
      l1_kernel = l1_kernel;
      l2_kernel = l2_kernel;
      l1_phys_map = l1_phys_map;
      l3_base = l3_base;
      kernel_phys = kernel_phys;
      kernel_4k_pages = kernel_4k_pages;
      l3_count = l3_count;
    }

-- `none` is the panic of `expect`.
unfoldable pub allocate_page_tables : (ℕ → Option ℕ) → ℕ → ℕ → Option PageTableConfig
allocate_page_tables allocate_pages kernel_phys kernel_size =
    let kernel_4k_pages = (kernel_size +u page_size -u 1) / page_size in
    let l3_count = (kernel_4k_pages +u 511) / 512 in
    let total_pages = 2 +u 3 +u 1 +u l3_count in
    do base ← allocate_pages total_pages; some (lay_out base kernel_phys kernel_4k_pages l3_count)

-- Four 1 GiB blocks, for L1_LOW and for L1_PHYS_MAP.
pub fill_blocks : ℕ → Memory → Memory
fill_blocks l1 =
    for_range 4 λ i m. write m (add l1 i) (bit_or (bit_or (i <<< 30) normal_mem_attrs) block_desc)

-- `l2_kernel[0..n] → L3 tables`
pub fill_l2 : ℕ → ℕ → ℕ → Memory → Memory
fill_l2 l2 l3_base l3_count =
    for_range l3_count λ i m.
      let l3_addr = l3_base +u i *u page_size in write m (add l2 i) (bit_or l3_addr table_desc)

-- The 4 KiB pages of the kernel.
pub fill_l3 : ℕ → ℕ → ℕ → Memory → Memory
fill_l3 l3_base kernel_phys kernel_4k_pages = for_range kernel_4k_pages λ i m.
    let l3_idx = i / 512 in
    let pte_idx = i % 512 in
    let l3 = l3_base +u l3_idx *u page_size in
    let phys = kernel_phys +u i *u page_size in
    write m (add l3 pte_idx) (bit_or (bit_or phys normal_mem_attrs) page_desc)

-- The memory after the `unsafe` block, which starts by clearing the allocated pages.
pub fill_tables : PageTableConfig → Memory → Memory
fill_tables cfg m =
    let total_pages = 6 +u cfg.l3_count in
    let m = write_zeros m cfg.ttbr0_l0 (page_size *u total_pages) in
    let m = write m (add cfg.ttbr0_l0 0) (bit_or cfg.l1_low table_desc) in
    let m = fill_blocks cfg.l1_low m in
    let m = write m (add cfg.ttbr1_l0 kernel_l0_index) (bit_or cfg.l1_kernel table_desc) in
    let m = write m (add cfg.l1_kernel 0) (bit_or cfg.l2_kernel table_desc) in
    let m = fill_l2 cfg.l2_kernel cfg.l3_base cfg.l3_count m in
    let m = fill_l3 cfg.l3_base cfg.kernel_phys cfg.kernel_4k_pages m in
    let m = write m (add cfg.ttbr1_l0 phys_map_l0_index) (bit_or cfg.l1_phys_map table_desc) in
    fill_blocks cfg.l1_phys_map m

unfoldable pub init_page_tables : PageTableConfig → Machine → Machine × ℕ
init_page_tables cfg s =
    let s = serial_str (bytes "[PT] Initializing AArch64 page tables...\r\n") s in
    let s = record s { memory = fill_tables cfg s.memory } in
    let s = serial_str (bytes "[PT] AArch64 page tables initialized\r\n") s in (s, cfg.ttbr0_l0)
