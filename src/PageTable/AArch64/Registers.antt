-- ===== src/PageTable/AArch64/Registers.antt =====
-- The register values that src/page_table/aarch64.rs recommends, and where physical memory is mapped.
use alpheratz.PageTable.AArch64.Maps.{translation}
use alpheratz.Prelude.{
  ℕ, ◌+◌, ◌*◌, ◌≤◌, ◌<◌, some, arith, ◌-◌, ◌/◌, ◌%◌, ◌^◌, ◌≡◌, refl, bit_or, ◌<<<◌,
}

abbrev pub physical_memory_offset : ℕ
physical_memory_offset = 0xFFFF_8000_0000_0000

abbrev pub mair_value : ℕ
mair_value = 0x0000_0000_0044_00FF

abbrev pub tcr_value : ℕ
tcr_value =
    let t0sz : ℕ = 16 in
    let t1sz = 16 <<< 16 in
    let tg0_4k = 0 <<< 14 in
    let tg1_4k = 2 <<< 30 in
    let sh0 = 3 <<< 12 in
    let sh1 = 3 <<< 28 in
    let orgn0 = 1 <<< 10 in
    let irgn0 = 1 <<< 8 in
    let orgn1 = 1 <<< 26 in
    let irgn1 = 1 <<< 24 in
    let ips_48 = 5 <<< 32 in
    let low = bit_or (bit_or (bit_or (bit_or t0sz t1sz) tg0_4k) tg1_4k) sh0 in
    bit_or (bit_or (bit_or (bit_or (bit_or (bit_or low sh1) orgn0) irgn0) orgn1) irgn1) ips_48

-- `width` bits of a register from bit `at` on.
abbrev field : ℕ → ℕ → ℕ → ℕ
field register at width = register / 2 ^ at % 2 ^ width

-- The architecture's fields: a region of 2 ^ (64 - TxSZ) bytes at either end, 4 KiB granules, which
-- TG0 and TG1 encode differently, and 48 bits of physical address.
tcr_regions :
    (64 - field tcr_value 0 6 ≡ 48)
    × (64 - field tcr_value 16 6 ≡ 48)
    × (field tcr_value 14 2 ≡ 0)
    × (field tcr_value 30 2 ≡ 2)
    × (field tcr_value 32 3 ≡ 5)
tcr_regions = (refl, refl, refl, refl, refl)

-- Walks are inner-shareable and write-back write-allocate in both halves.
tcr_walks :
    (field tcr_value 12 2 ≡ 3)
    × (field tcr_value 28 2 ≡ 3)
    × (field tcr_value 10 2 ≡ 1)
    × (field tcr_value 8 2 ≡ 1)
    × (field tcr_value 26 2 ≡ 1)
    × (field tcr_value 24 2 ≡ 1)
tcr_walks = (refl, refl, refl, refl, refl, refl)

-- Attribute 0, which the tables use, is normal write-back memory; 1 is device memory and 2 normal
-- memory that is not cached.
mair_attributes :
    (field mair_value 0 8 ≡ 0xFF) × (field mair_value 8 8 ≡ 0) × (field mair_value 16 8 ≡ 0x44)
mair_attributes = (refl, refl, refl)

-- The first 4 GiB of physical memory are found from `physical_memory_offset` on, behind whatever
-- kernel of at most 1 GiB is mapped.
translation-physical_memory_offset :
    (kernel_phys kernel_pages p : ℕ)
    → kernel_pages * 4096 ≤ 2 ^ 30
    → p < 2 ^ 32
    → translation kernel_phys kernel_pages (physical_memory_offset + p) ≡ some p
translation-physical_memory_offset kernel_phys kernel_pages p small h = ground arith
