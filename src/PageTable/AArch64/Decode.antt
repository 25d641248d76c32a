-- ===== src/PageTable/AArch64/Decode.antt =====
-- The descriptors of the AArch64 translation tables with 4 KiB pages, 48-bit addresses and no
-- hardware update of the access flag: bits 0 and 1 are the type, bit 10 is the access flag, whose
-- absence faults, and bits 12 to 47 hold the address.
-- Then the descriptors that src/page_table/aarch64.rs writes, in this format.
use alpheratz.Prelude.{
  ℕ, zero, suc, ◌+◌, ◌*◌, ◌/◌, ◌%◌, ◌^◌, ◌<◌, ◌≡◌, refl, arith, bit_or, ◌&&◌, ◌==◌, leb,
  if◌then◌else◌,
}
use alpheratz.PageTable.Entry.{bit_or_flag, bit_or_flags}
use alpheratz.PageTable.Walk.{invalid, table, page, Decoder, span}

abbrev pub address_of : ℕ → ℕ → ℕ
address_of size entry = entry % 2 ^ 48 / size * size

abbrev pub decode : Decoder
decode zero entry =
    if entry % 4 == 3 && entry / 1024 % 2 == 1 then page (address_of 4096 entry) else invalid
decode (suc level) entry =
    if entry % 4 == 3
    then table (address_of 4096 entry)
    else if entry % 4 == 1 && entry / 1024 % 2 == 1 && leb level 1
    then page (address_of (span (suc level)) entry)
    else invalid

-- `p` is an address as the code computes it, with its wraps, and `q` what it comes to.
pub decode-table_desc :
    (level p q : ℕ)
    → p ≡ q
    → q % 4096 ≡ 0
    → q < 2 ^ 48
    → decode (suc level) (bit_or p 0b11) ≡ table q
decode-table_desc level p q e aligned fits =
    rw (e, bit_or_flag q aligned 3 (omega arith)) (ground arith)

attributes : (q b : ℕ) → q % 4096 ≡ 0 → b < 4 → bit_or (bit_or q 0x700) b ≡ q + (bit_or 0x700 b)
attributes q b aligned small =
    rw (bit_or_flag q aligned 0x700 (omega arith))
      (bit_or_flags q aligned 0x700 b (omega arith) (omega arith))

pub decode-block_desc :
    (p q : ℕ)
    → p ≡ q
    → q % 2 ^ 30 ≡ 0
    → q < 2 ^ 48
    → decode 2 (bit_or (bit_or p 0x700) 0b01) ≡ page q
decode-block_desc p q e aligned fits =
    rw (e, attributes q 1 (omega arith) (omega arith)) (ground arith)

pub decode-page_desc :
    (p q : ℕ) → p ≡ q → q % 4096 ≡ 0 → q < 2 ^ 48 → decode 0 (bit_or (bit_or p 0x700) 0b11) ≡ page q
decode-page_desc p q e aligned fits = rw (e, attributes q 3 aligned (omega arith)) (ground arith)

pub decode-zero : (level : ℕ) → decode level 0 ≡ invalid
decode-zero zero = refl
decode-zero (suc level) = refl
