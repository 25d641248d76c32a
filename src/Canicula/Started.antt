-- ===== src/Canicula/Started.antt =====
-- The jump of `boot_canicula_elf` of src/boot/canicula/x86_64.rs, and the tables in force there.
use alpheratz.Prelude.{
  ℕ, ◌+◌, ◌-◌, ◌+u◌, ◌-u◌, ◌/◌, ◌%◌, ◌^◌, ◌≤◌, ◌<◌, ◌≡◌, ◌≢◌, ◌∙◌, ◌⊎◌, ◌*◌, List, refl, ap, none,
  some, arith, Str, bytes,
}
use alpheratz.PageTable.Walk.{walk}
use alpheratz.PageTable.X64.Decode.{decode}
use alpheratz.Prelude.Bits.{bit_and_mask}
use alpheratz.Prelude.Fallible.{>>=-intro, some_of_ne}
use alpheratz.Serial.{Machine, memory-serial_str, serial_str}
use alpheratz.Serial.Hex.{serial_hex_lem}
use alpheratz.PageTable.X64.{PageTableConfig, allocate_page_tables, init_page_tables}
use alpheratz.PageTable.X64.Layout.{
  AllocatesPages, IsOutside, IsMappable, allocate_page_tables-IsAllocated,
}
use alpheratz.PageTable.X64.Regions.{translation}
use alpheratz.PageTable.X64.Maps.{init_page_tables-translation, init_page_tables-outside}
use alpheratz.Canicula.{Bytes, Firmware, ElfFile, Handover, GraphicsOutput, stack_top}
use alpheratz.Canicula.Words.{
  words_of, bytes_of, bytes_of-eq, bytes_of-words_of, walk-words_of, mmu,
}
use alpheratz.Canicula.Loader.{
  byte_at, virtual_range, load_segments, total_size, num_pages_aligned, kernel_pml4_index,
}
use alpheratz.Canicula.Boot.{boot_canicula_elf, boot_info, jump}
use alpheratz.Canicula.Ranges.{IsWellFormed}
use alpheratz.Canicula.Totality.{IsReadable, load_segments-total}

-- An executable that can be read, with its range of addresses, on a firmware that has a graphics
-- output and the memory that is asked for: the kernel's, up to 525 pages of tables, the stack. The
-- firmware does not give the kernel's pages again for the tables.
pub record IsBootable (fw : Firmware) (kernel : Str) (elf : ElfFile) (range : ℕ × ℕ) : Type 0 where
  pub parses : fw.elf kernel ≡ some elf
  pub readable : IsReadable kernel elf.program_headers
  pub well_formed : IsWellFormed elf.program_headers
  pub range_eq : virtual_range elf.program_headers (2 ^ 64 - 1, 0) ≡ some range
  pub file_bytes : (i : ℕ) → byte_at kernel i < 256
  pub kernel_pages : AllocatesPages fw.allocate_kernel
  pub table_pages : AllocatesPages fw.allocate_tables
  pub apart :
      (n k t p : ℕ)
      → fw.allocate_kernel n ≡ some k
      → fw.allocate_tables t ≡ some p
      → (k + n * 4096 ≤ p) ⊎ (p + t * 4096 ≤ k)
  pub has_kernel : fw.allocate_kernel (num_pages_aligned (total_size range)) ≢ none
  pub has_tables : (n : ℕ) → n ≤ 525 → fw.allocate_tables n ≢ none
  pub has_stack : fw.allocate_stack 256 ≢ none
  pub has_gop : fw.gop ≢ none

-- The range ends in 64 bits, is no longer than 1 GiB, and its PML4 entry is none of the loader's.
pub record IsInSlot (range : ℕ × ℕ) : Type 0 where
  pub order : range.0 ≤ range.1
  pub end_lt : range.1 < 2 ^ 64
  pub size : range.1 ≤ range.0 + 2 ^ 30
  pub slot_pos : 0 < range.0 / 2 ^ 39 % 512
  pub slot_ne : range.0 / 2 ^ 39 % 512 ≢ 256

module _ (fw : Firmware) (kernel : Str) (elf : ElfFile) (range : ℕ × ℕ)
    (b : IsBootable fw kernel elf range) (slot : IsInSlot range) where
  pub total_size_eq : total_size range ≡ range.1 - range.0
  unfolding total_size
  total_size_eq = omega (arith, slot.order, slot.end_lt)

  pub index_eq : kernel_pml4_index range ≡ range.0 / 2 ^ 39 % 512
  unfolding kernel_pml4_index
  index_eq = bit_and_mask 9 (range.0 / 2 ^ 39)

  tables-some :
      (base : ℕ)
      → allocate_page_tables fw.allocate_tables base (total_size range) (kernel_pml4_index range)
        ≢ none
  unfolding allocate_page_tables
  tables-some base = ground (
    arith,
    total_size_eq,
    slot.size,
    b.has_tables (1 +u 3 +u 4 +u 1 +u 4 +u ((total_size range +u 4096 -u 1) / 4096 +u 511) / 512),
  )

  -- Where the kernel is, as the tables want it.
  pub kernel_at :
      (base : ℕ)
      → fw.allocate_kernel (num_pages_aligned (total_size range)) ≡ some base
      → IsMappable base (total_size range) (kernel_pml4_index range)
        × (base + (range.1 - range.0) ≤ 2 ^ 52)
  unfolding num_pages_aligned
  kernel_at base e =
      let pages = b.kernel_pages _ base e in
      ground (arith, pages, total_size_eq, index_eq, slot.size, slot.slot_pos, slot.slot_ne)

  table_root :
      (base : ℕ) {cfg : PageTableConfig}
      → fw.allocate_kernel (num_pages_aligned (total_size range)) ≡ some base
      → allocate_page_tables fw.allocate_tables base (total_size range) (kernel_pml4_index range)
        ≡ some cfg
      → cfg.pml4 % 8 ≡ 0
  table_root base has_base has_cfg =
      let tables =
        allocate_page_tables-IsAllocated fw.allocate_tables base (total_size range)
          (kernel_pml4_index range) b.table_pages (kernel_at base has_base).0 has_cfg in
      omega (arith, tables.laid_out.tables)

  -- Building the tables changes no byte outside their pages.
  tables_keep :
      (base : ℕ) {cfg : PageTableConfig}
      → fw.allocate_kernel (num_pages_aligned (total_size range)) ≡ some base
      → allocate_page_tables fw.allocate_tables base (total_size range) (kernel_pml4_index range)
        ≡ some cfg
      → (image : Bytes) (serial : List ℕ) (a : ℕ) → IsOutside fw.allocate_tables a
      → bytes_of
          (init_page_tables cfg (record { memory = words_of image; serial = serial })).0.memory
          a
        ≡ image a % 256
  tables_keep base has_base has_cfg image serial a outside =
      let at = kernel_at base has_base in
      bytes_of-eq _ _ a (
        init_page_tables-outside fw.allocate_tables base (total_size range)
          (kernel_pml4_index range) b.table_pages at.0 has_cfg _ (a / 8 * 8)
          (λ n p given. ground (arith, outside n p given, b.table_pages n p given)))
      ∙ bytes_of-words_of image a

  -- The kernel is outside them.
  pub kernel-IsOutside :
      (base a : ℕ)
      → fw.allocate_kernel (num_pages_aligned (total_size range)) ≡ some base
      → base ≤ a
      → a < base + (range.1 - range.0)
      → IsOutside fw.allocate_tables a
  unfolding num_pages_aligned
  kernel-IsOutside base a has_base low high n p given = ground (
    arith,
    b.apart (num_pages_aligned (total_size range)) base n p has_base given,
    total_size_eq,
    slot.size,
  )

  -- The jump is reached, with the tables in force and the segments in memory.
  pub boots :
      (m : Bytes) (serial : List ℕ)
      → (h : Handover) × (boot_canicula_elf fw kernel m serial ≡ some h)
        × ((base : ℕ) × (fw.allocate_kernel (num_pages_aligned (total_size range)) ≡ some base)
            × ((image : Bytes) × (load_segments kernel range.0 base elf.program_headers m
                  ≡ some image)
                × ((a : ℕ) → IsOutside fw.allocate_tables a → h.memory a ≡ image a % 256))
            × ((va : ℕ)
                → mmu h va
                  ≡ translation base
                      ((total_size range + 4095) / 4096)
                      (kernel_pml4_index range)
                      va)
            × ((stack : ℕ) × (fw.allocate_stack 256 ≡ some stack) × (h.rsp ≡ stack_top stack))
            × (h.rip ≡ elf.entry_point)
            × ((gop : GraphicsOutput) × (fw.gop ≡ some gop) × (h.boot_info ≡ boot_info fw gop)))
  unfolding boot_canicula_elf jump init_page_tables
  boots m serial =
      let (base, has_base) = some_of_ne _ b.has_kernel in
      let (image, loads) =
        load_segments-total kernel range.0 base elf.program_headers m b.readable in
      let (cfg, has_cfg) = some_of_ne _ (tables-some base) in
      let (stack, has_stack) = some_of_ne _ b.has_stack in
      let (gop, has_gop) = some_of_ne _ b.has_gop in
      let s : Machine = record { memory = words_of image; serial = serial } in
      let (t, sent, kept) = serial_hex_lem elf.entry_point _ in
      let t' = serial_str (bytes "\r\n") t in
      let same : t'.memory ≡ (init_page_tables cfg s).0.memory =
        memory-serial_str _ t ∙ kept ∙ memory-serial_str _ _ in
      let cr3 = (init_page_tables cfg s).1 in
      (
        _,
        >>=-intro _ b.parses (
            >>=-intro _ b.range_eq (
              >>=-intro _ has_base (
                >>=-intro _ loads (
                  >>=-intro _ has_cfg
                    (>>=-intro _ has_stack (>>=-intro _ has_gop (>>=-intro _ sent refl))))))),
        (
          base,
          has_base,
          (
            image,
            loads,
            λ a outside.
                ap (λ m. bytes_of m a) same
                ∙ tables_keep base has_base has_cfg image serial a outside,
          ),
          (λ va.
              walk-words_of t'.memory 3 cr3 va (table_root base has_base has_cfg)
              ∙ ap (λ m. walk decode 3 m cr3 va) same
              ∙ init_page_tables-translation fw.allocate_tables base (total_size range)
                  (kernel_pml4_index range) b.table_pages (kernel_at base has_base).0 has_cfg s va),
          (stack, has_stack, refl),
          refl,
          (gop, has_gop, refl),
        ),
      )
