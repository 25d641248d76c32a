-- ===== src/PageTable/X64/Decode.antt =====
-- The x86_64 format of table entries: bit 0 is "present", bit 7 above the last level is
-- "page size" (reserved in the PML4), and bits 12 to 51 hold the address.
use alpheratz.Prelude.{
  ℕ, zero, suc, ◌*◌, ◌/◌, ◌%◌, ◌^◌, leb, ◌+◌, ◌<◌, ◌≡◌, refl, arith, ◌==◌, if◌then◌else◌,
}
use alpheratz.PageTable.Walk.{invalid, table, page, Decoder, span}

abbrev pub address_of : ℕ → ℕ → ℕ
address_of size entry = entry % 2 ^ 52 / size * size

abbrev pub decode : Decoder
decode zero entry = if entry % 2 == 0 then invalid else page (address_of 4096 entry)
decode (suc level) entry =
    if entry % 2 == 0
    then invalid
    else if entry / 128 % 2 == 0
    then table (address_of 4096 entry)
    else if leb level 1
    then page (address_of (span (suc level)) entry)
    else invalid

pub decode-table : (level p : ℕ) → p % 4096 ≡ 0 → p < 2 ^ 52 → decode (suc level) (p + 3) ≡ table p
decode-table level p aligned fits = ground arith

pub decode-page : (p : ℕ) → p % 4096 ≡ 0 → p < 2 ^ 52 → decode 0 (p + 3) ≡ page p
decode-page p aligned fits = ground arith

pub decode-huge : (p : ℕ) → p % 2 ^ 21 ≡ 0 → p < 2 ^ 52 → decode 1 (p + 0x83) ≡ page p
decode-huge p aligned fits = ground arith

pub decode-zero : (level : ℕ) → decode level 0 ≡ invalid
decode-zero zero = refl
decode-zero (suc level) = refl
