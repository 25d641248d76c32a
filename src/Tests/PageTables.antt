-- ===== src/Tests/PageTables.antt =====
-- Tests of src/page_table: a firmware that has room, and small kernels.
use alpheratz.Prelude.{ℕ, ◌+◌, ◌≡◌, refl, arith, [], Option, none, some, leb, if◌then◌else◌}
use alpheratz.Serial.{Machine}
use alpheratz.PageTable.X64
use alpheratz.PageTable.X64.Maps
use alpheratz.PageTable.X64.Oversize
use alpheratz.PageTable.AArch64
use alpheratz.PageTable.AArch64.Maps as ArmMaps
use alpheratz.PageTable.RiscV64
use alpheratz.PageTable.RiscV64.Maps as RiscMaps
use alpheratz.PageTable.LoongArch64
use alpheratz.PageTable.LoongArch64.Maps as LoongMaps
use alpheratz.PageTable.LoongArch64.Registers

-- Up to 100 pages, always at 1 MiB.
abbrev firmware : ℕ → Option ℕ
firmware n = if leb n 100 then some 0x10_0000 else none

abbrev machine : Machine
machine = record { memory = λ a. a; serial = [] }

-- A kernel of 5000 bytes at 2 MiB.
abbrev x64_config : X64.PageTableConfig
x64_config = X64.lay_out 0x10_0000 0x20_0000 2 1 511

x64_allocated : X64.allocate_page_tables firmware 0x20_0000 5000 511 ≡ some x64_config
unfolding X64.allocate_page_tables
x64_allocated = refl

-- The second page of the kernel, in the last slot.
init_page_tables-translation_example :
    Maps.mmu (X64.init_page_tables x64_config machine) 0xFFFF_FF80_0000_1004 ≡ some 0x20_1004
init_page_tables-translation_example =
    Maps.init_page_tables-translation firmware 0x20_0000 5000 511 (λ n base e. ground arith)
      (omega arith) x64_allocated machine 0xFFFF_FF80_0000_1004

init_page_tables-outside_example :
    (X64.init_page_tables x64_config machine).0.memory 0x20_0000 ≡ 0x20_0000
unfolding X64.lay_out
init_page_tables-outside_example =
    Maps.init_page_tables-outside firmware 0x20_0000 5000 511 (λ n base e. ground arith)
      (omega arith) x64_allocated machine 0x20_0000 (λ n base e. ground arith)

-- A kernel of 1 GiB and two pages.
abbrev large_firmware : ℕ → Option ℕ
large_firmware n = if leb n 1000 then some 0x10_0000 else none

abbrev large_size : ℕ
large_size = 0x4000_2000

abbrev large_config : X64.PageTableConfig
large_config = X64.lay_out 0x10_0000 0x1000_0000 0x4_0002 513 511

large_allocated :
    X64.allocate_page_tables large_firmware 0x1000_0000 large_size 511 ≡ some large_config
unfolding X64.allocate_page_tables
large_allocated = refl

abbrev large_mmu : ℕ → Option ℕ
large_mmu = Maps.mmu (X64.init_page_tables large_config machine)

-- The first byte of the second page past 1 GiB.
init_page_tables-oversize_example :
    (large_mmu 0xFFFF_8000_0000_1000 ≡ some 0x5000_1000) × (large_mmu 0xFFFF_FF80_4000_1000 ≡ none)
init_page_tables-oversize_example =
    Oversize.init_page_tables-oversize large_firmware 0x1000_0000 large_size 511
      (λ n base e. ground arith) (omega arith) large_allocated machine 0xFFFF_FF80_4000_1000 0x1000
      (omega arith) refl refl

abbrev arm_config : AArch64.PageTableConfig
arm_config = AArch64.lay_out 0x10_0000 0x20_0000 2 1

arm_allocated : AArch64.allocate_page_tables firmware 0x20_0000 5000 ≡ some arm_config
unfolding AArch64.allocate_page_tables
arm_allocated = refl

-- An address of the direct mapping.
init_page_tables-ttbr_translation_example :
    ArmMaps.mmu
      (AArch64.init_page_tables arm_config machine).0.memory
      (AArch64.init_page_tables arm_config machine).1
      (AArch64.ttbr1 arm_config)
      0xFFFF_8000_4000_0010
    ≡ some 0x4000_0010
init_page_tables-ttbr_translation_example =
    ArmMaps.init_page_tables-ttbr_translation firmware 0x20_0000 5000 (λ n base e. ground arith)
      (omega arith) arm_allocated machine 0xFFFF_8000_4000_0010 (omega arith)

abbrev riscv_config : RiscV64.PageTableConfig
riscv_config = RiscV64.lay_out 0x10_0000 0x20_0000 2 1

riscv_allocated : RiscV64.allocate_page_tables firmware 0x20_0000 5000 ≡ some riscv_config
unfolding RiscV64.allocate_page_tables
riscv_allocated = refl

-- A page behind the kernel is not mapped.
init_page_tables-sv39_translation_example :
    RiscMaps.mmu (RiscV64.init_page_tables riscv_config machine) 0xFFFF_FFC0_0000_2000 ≡ none
init_page_tables-sv39_translation_example =
    RiscMaps.init_page_tables-sv39_translation firmware 0x20_0000 5000 (λ n base e. ground arith)
      (omega arith) riscv_allocated machine 0xFFFF_FFC0_0000_2000

abbrev loong_config : LoongArch64.PageTableConfig
loong_config = LoongArch64.lay_out 0x10_0000 0x20_0000 2 1

loong_allocated : LoongArch64.allocate_page_tables firmware 0x20_0000 5000 ≡ some loong_config
unfolding LoongArch64.allocate_page_tables
loong_allocated = refl

init_page_tables-pgd_translation_example :
    LoongMaps.mmu
      (LoongArch64.init_page_tables loong_config machine)
      (LoongMaps.kernel_base + 0x1008)
    ≡ some 0x20_1008
init_page_tables-pgd_translation_example =
    LoongMaps.init_page_tables-pgd_translation firmware 0x20_0000 5000 (λ n base e. ground arith)
      (omega arith) loong_allocated machine 0x1008 (omega arith)

direct_map-physical_example :
    let p : ℕ = 0x1234 in
    (Registers.direct_map Registers.dmw1_value (Registers.physical_memory_offset + p)
      ≡ some (Registers.Access.cached p))
    × (Registers.direct_map Registers.dmw0_value (Registers.physical_memory_offset + p) ≡ none)
    × (Registers.direct_map Registers.dmw0_value (0x8000_0000_0000_0000 + p)
        ≡ some (Registers.Access.uncached p))
    × (Registers.direct_map Registers.dmw1_value (0x8000_0000_0000_0000 + p) ≡ none)
direct_map-physical_example = Registers.direct_map-physical 0x1234 (omega arith)
