-- ===== src/PageTable/RiscV64.antt =====
-- src/page_table/riscv64.rs: the Sv39 tables of the riscv64 loader. `allocate_pages` is the
-- firmware's call (AnyPages, LOADER_DATA): the address of so many pages, or `none` where it fails.
pub mod Decode
mod Layout
mod Entries
pub mod Maps
use alpheratz.Prelude.{
  ℕ, ◌+u◌, ◌-u◌, ◌*u◌, ◌/◌, ◌%◌, ◌<<<◌, ◌>>>◌, ◌+◌, Option, some, bit_or, bytes,
}
use alpheratz.Prelude.Fallible.{◌>>=◌}
use alpheratz.Memory.{Memory, add, write, write_zeros, for_range}
use alpheratz.Serial.{Machine, serial_str}

abbrev pub page_size : ℕ
page_size = 4096

abbrev pub pte_v : ℕ
pte_v = 1 <<< 0

abbrev pte_r : ℕ
pte_r = 1 <<< 1

abbrev pte_w : ℕ
pte_w = 1 <<< 2

abbrev pte_x : ℕ
pte_x = 1 <<< 3

abbrev pte_a : ℕ
pte_a = 1 <<< 6

abbrev pte_d : ℕ
pte_d = 1 <<< 7

abbrev pub leaf_rwx : ℕ
leaf_rwx = bit_or (bit_or (bit_or (bit_or (bit_or pte_v pte_r) pte_w) pte_x) pte_a) pte_d

abbrev pub kernel_root_index : ℕ
kernel_root_index = 256

abbrev pub phys_map_root_index : ℕ
phys_map_root_index = 384

abbrev pub physical_memory_offset : ℕ
physical_memory_offset = 0xFFFF_FFE0_0000_0000

abbrev pub satp_mode_sv39 : ℕ
satp_mode_sv39 = 8

pub record PageTableConfig : Type 0 where
  pub root : ℕ
  pub l1_kernel : ℕ
  pub l0_base : ℕ
  pub kernel_phys : ℕ
  pub kernel_4k_pages : ℕ
  pub l0_count : ℕ

unfoldable pub satp_value : PageTableConfig → ℕ
satp_value cfg = let ppn = cfg.root >>> 12 in bit_or (satp_mode_sv39 <<< 60) ppn

unfoldable pub table_pte : ℕ → ℕ
table_pte table_phys = bit_or (table_phys >>> 12 <<< 10) pte_v

unfoldable pub leaf_pte : ℕ → ℕ
leaf_pte phys = bit_or (phys >>> 12 <<< 10) leaf_rwx

-- The struct that `allocate_page_tables` returns, from the base that the firmware gave.
unfoldable pub lay_out : ℕ → ℕ → ℕ → ℕ → PageTableConfig
lay_out base kernel_phys kernel_4k_pages l0_count =
    let off : ℕ = 0 in
    let root = base +u off in
    let off = off +u page_size in
    let l1_kernel = base +u off in
    let off = off +u page_size in
    let l0_base = base +u off in
    record {
      root = root;
      l1_kernel = l1_kernel;
      l0_base = l0_base;
      kernel_phys = kernel_phys;
      kernel_4k_pages = kernel_4k_pages;
      l0_count = l0_count;
    }

-- `none` is the panic of `expect`.
unfoldable pub allocate_page_tables : (ℕ → Option ℕ) → ℕ → ℕ → Option PageTableConfig
allocate_page_tables allocate_pages kernel_phys kernel_size =
    let kernel_4k_pages = (kernel_size +u page_size -u 1) / page_size in
    let l0_count = (kernel_4k_pages +u 511) / 512 in
    let total_pages = 2 +u l0_count in
    do base ← allocate_pages total_pages; some (lay_out base kernel_phys kernel_4k_pages l0_count)

-- Four gigapages in the root from entry `first` on: the identity mapping and the physical map.
pub fill_gigapages : ℕ → ℕ → Memory → Memory
fill_gigapages root first = for_range 4 λ i m. write m (add root (first + i)) (leaf_pte (i <<< 30))

-- `l1[0..n] → L0 pages`
pub fill_l1 : ℕ → ℕ → ℕ → Memory → Memory
fill_l1 l1 l0_base l0_count =
    for_range l0_count
      λ i m. let l0_addr = l0_base +u i *u page_size in write m (add l1 i) (table_pte l0_addr)

-- The 4 KiB pages of the kernel.
pub fill_l0 : ℕ → ℕ → ℕ → Memory → Memory
fill_l0 l0_base kernel_phys kernel_4k_pages = for_range kernel_4k_pages λ i m.
    let l0_idx = i / 512 in
    let pte_idx = i % 512 in
    let l0 = l0_base +u l0_idx *u page_size in
    let phys = kernel_phys +u i *u page_size in write m (add l0 pte_idx) (leaf_pte phys)

-- The memory after the `unsafe` block, which starts by clearing the allocated pages.
pub fill_tables : PageTableConfig → Memory → Memory
fill_tables cfg m =
    let total_pages = 2 +u cfg.l0_count in
    let m = write_zeros m cfg.root (page_size *u total_pages) in
    let m = fill_gigapages cfg.root 0 m in
    let m = fill_gigapages cfg.root phys_map_root_index m in
    let m = write m (add cfg.root kernel_root_index) (table_pte cfg.l1_kernel) in
    let m = fill_l1 cfg.l1_kernel cfg.l0_base cfg.l0_count m in
    fill_l0 cfg.l0_base cfg.kernel_phys cfg.kernel_4k_pages m

unfoldable pub init_page_tables : PageTableConfig → Machine → Machine × ℕ
init_page_tables cfg s =
    let s = serial_str (bytes "[PT] Initializing RISC-V Sv39 page tables...\r\n") s in
    let s = record s { memory = fill_tables cfg s.memory } in
    let s = serial_str (bytes "[PT] RISC-V Sv39 page tables initialized\r\n") s in (s, cfg.root)
