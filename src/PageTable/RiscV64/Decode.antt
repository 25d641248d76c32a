-- ===== src/PageTable/RiscV64/Decode.antt =====
-- The Sv39 format of entries: bit 0 is "valid", one of bits 1 to 3 (read, write, execute) makes a
-- leaf, and bits 10 to 53 hold the page number. A leaf must be aligned to the size it covers.
-- Then `table_pte` and `leaf_pte` of src/page_table/riscv64.rs in this format.
use alpheratz.Prelude.{
  ℕ, zero, suc, ◌+◌, ◌*◌, ◌/◌, ◌%◌, ◌^◌, ◌<◌, ◌≡◌, refl, ◌∙◌, arith, ◌==◌, if◌then◌else◌,
}
use alpheratz.Prelude.Bits.{bit_or_field}
use alpheratz.PageTable.Walk.{Slot, invalid, table, page, Decoder, span}
use alpheratz.PageTable.RiscV64.{table_pte, leaf_pte}

abbrev pub page_number : ℕ → ℕ
page_number entry = entry / 2 ^ 10 % 2 ^ 44

abbrev aligned_page : ℕ → ℕ → Slot
aligned_page size address = if address % size == 0 then page address else invalid

abbrev pub decode : Decoder
decode zero entry =
    if entry % 2 == 0
    then invalid
    else if entry / 2 % 8 == 0
    then invalid
    else page (page_number entry * 4096)
decode (suc level) entry =
    if entry % 2 == 0
    then invalid
    else if entry / 2 % 8 == 0
    then table (page_number entry * 4096)
    else aligned_page (span (suc level)) (page_number entry * 4096)

table_pte-eq : (p : ℕ) → p % 4096 ≡ 0 → p < 2 ^ 56 → table_pte p ≡ p / 4 + 1
unfolding table_pte
table_pte-eq p aligned fits =
    let whole : p / 4096 * 1024 % 2 ^ 64 ≡ p / 4096 * 2 ^ 10 = omega arith in
    rw whole (bit_or_field 10 (p / 4096) 1 (omega arith) ∙ omega arith)

leaf_pte-eq : (p : ℕ) → p % 4096 ≡ 0 → p < 2 ^ 56 → leaf_pte p ≡ p / 4 + 0xCF
unfolding leaf_pte
leaf_pte-eq p aligned fits =
    let whole : p / 4096 * 1024 % 2 ^ 64 ≡ p / 4096 * 2 ^ 10 = omega arith in
    rw whole (bit_or_field 10 (p / 4096) 0xCF (omega arith) ∙ omega arith)

pub decode-table_pte :
    (level p : ℕ) → p % 4096 ≡ 0 → p < 2 ^ 56 → decode (suc level) (table_pte p) ≡ table p
decode-table_pte level p aligned fits = rw (table_pte-eq p aligned fits) (ground arith)

pub decode-leaf_pte : (p : ℕ) → p % 4096 ≡ 0 → p < 2 ^ 56 → decode 0 (leaf_pte p) ≡ page p
decode-leaf_pte p aligned fits = rw (leaf_pte-eq p aligned fits) (ground arith)

pub decode-gigapage : (p : ℕ) → p % 2 ^ 30 ≡ 0 → p < 2 ^ 56 → decode 2 (leaf_pte p) ≡ page p
decode-gigapage p aligned fits = rw (leaf_pte-eq p (omega arith) fits) (ground arith)

pub decode-zero : (level : ℕ) → decode level 0 ≡ invalid
decode-zero zero = refl
decode-zero (suc level) = refl
