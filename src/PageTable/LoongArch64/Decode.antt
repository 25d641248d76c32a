-- ===== src/PageTable/LoongArch64/Decode.antt =====
-- The LoongArch64 format: a directory entry without bit 6 (huge page) is the address of the next
-- table, whatever its value, and in a last-level entry bit 0 is "valid" and bits 12 to 47 hold the
-- address. Then the entries that src/page_table/loongarch64.rs writes, in this format.
use alpheratz.Prelude.{
  ℕ, zero, suc, ◌*◌, ◌/◌, ◌%◌, ◌^◌, ◌<◌, ◌≡◌, arith, bit_or, ◌==◌, if◌then◌else◌,
}
use alpheratz.PageTable.Entry.{bit_or_flag}
use alpheratz.PageTable.Walk.{invalid, table, page, Decoder, span}

abbrev pub address_of : ℕ → ℕ → ℕ
address_of size entry = entry % 2 ^ 48 / size * size

abbrev pub decode : Decoder
decode zero entry = if entry % 2 == 0 then invalid else page (address_of 4096 entry)
decode (suc level) entry =
    if entry / 64 % 2 == 0
    then table (address_of 4096 entry)
    else page (address_of (span (suc level)) entry)

pub decode-directory :
    (level p q : ℕ) → p ≡ q → q % 4096 ≡ 0 → q < 2 ^ 48 → decode (suc level) p ≡ table q
decode-directory level p q e aligned fits = rw e (ground arith)

pub decode-leaf : (p q : ℕ) → p ≡ q → q % 4096 ≡ 0 → q < 2 ^ 48 → decode 0 (bit_or p 0x53) ≡ page q
decode-leaf p q e aligned fits = rw (e, bit_or_flag q aligned 0x53 (omega arith)) (ground arith)
