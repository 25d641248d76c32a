-- ===== src/PageTable/LoongArch64/Registers.antt =====
-- The register values of src/page_table/loongarch64.rs: the direct mapping windows, through which
-- the first 256 TiB stay reachable without page tables.
use alpheratz.Prelude.{
  ℕ, ◌+◌, ◌/◌, ◌%◌, ◌^◌, ◌<◌, ◌≡◌, refl, Option, none, some, arith, bit_or, ◌<<<◌, ◌==◌,
  if◌then◌else◌,
}

abbrev pub dmw0_value : ℕ
dmw0_value = bit_or (0x8 <<< 60) (1 <<< 0)

abbrev pub dmw1_value : ℕ
dmw1_value = bit_or (bit_or (0x9 <<< 60) (1 <<< 4)) (1 <<< 0)

abbrev pub physical_memory_offset : ℕ
physical_memory_offset = 0x9000_0000_0000_0000

abbrev pub pwcl_value : ℕ
pwcl_value = bit_or (bit_or (bit_or 12 (9 <<< 5)) (21 <<< 10)) (9 <<< 15)

abbrev pub pwch_value : ℕ
pwch_value = bit_or (bit_or (bit_or 30 (9 <<< 5)) (39 <<< 10)) (9 <<< 15)

-- How an access is made through a window.
pub data Access : Type 0 where
  uncached cached : ℕ → Access

abbrev access : ℕ → ℕ → Access
access window address =
    if window / 16 % 4 == 1 then Access.cached address else Access.uncached address

-- The architecture's direct mapping at the kernel's privilege level: a window takes the addresses
-- whose upper 4 bits are its own, if its bit 0 (privilege level 0) is set, to their low 48 bits; bits
-- 4 and 5 are the memory type.
abbrev pub direct_map : ℕ → ℕ → Option Access
direct_map window va =
    if window % 2 == 1
    then (if va / 2 ^ 60 == window / 2 ^ 60 then some (access window (va % 2 ^ 48)) else none)
    else none

-- Under the two windows of the loader, physical memory is at `physical_memory_offset` through
-- window 1, cached, and 0x8000_0000_0000_0000 on through window 0, uncached, for every physical
-- address of 48 bits, and neither window takes an address of the other.
pub direct_map-physical :
    (p : ℕ)
    → p < 2 ^ 48
    → (direct_map dmw1_value (physical_memory_offset + p) ≡ some (Access.cached p))
      × (direct_map dmw0_value (physical_memory_offset + p) ≡ none)
      × (direct_map dmw0_value (0x8000_0000_0000_0000 + p) ≡ some (Access.uncached p))
      × (direct_map dmw1_value (0x8000_0000_0000_0000 + p) ≡ none)
direct_map-physical p h = ground arith

-- The fields of a page-walk register in the encoding that the source states: two pairs of a base
-- and a width, 5 bits each.
abbrev field : ℕ → ℕ → ℕ
field register at = register / 2 ^ at % 2 ^ 5

pwcl_fields :
    (field pwcl_value 0 ≡ 12)
    × (field pwcl_value 5 ≡ 9)
    × (field pwcl_value 10 ≡ 21)
    × (field pwcl_value 15 ≡ 9)
pwcl_fields = (refl, refl, refl, refl)

-- The base of the fourth level, 39, does not fit the 5 bits of its field, which holds 7.
pwch_fields :
    (field pwch_value 0 ≡ 30)
    × (field pwch_value 5 ≡ 9)
    × (field pwch_value 10 ≡ 7)
    × (field pwch_value 15 ≡ 9)
pwch_fields = (refl, refl, refl, refl)
