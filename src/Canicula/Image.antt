-- ===== src/Canicula/Image.antt =====
-- Where the kernel that src/boot/canicula/x86_64.rs starts finds itself.
use alpheratz.Prelude.{
  ℕ, ◌+◌, ◌-◌, ◌/◌, ◌%◌, ◌^◌, ◌≤◌, ◌<◌, ◌≡◌, ◌≢◌, ◌∙◌, ap, sym, List, some, arith, Str,
}
use alpheratz.Canicula.{ProgramHeader, Bytes, Firmware, ElfFile, Handover}
use alpheratz.PageTable.X64.Regions.{translation}
use alpheratz.Canicula.Words.{mmu}
use alpheratz.Canicula.Loader.{byte_at, load_segments, total_size}
use alpheratz.Canicula.Boot.{boot_canicula_elf}
use alpheratz.Canicula.Ranges.{Loads, virtual_range-Within}
use alpheratz.Canicula.Loading.{segment_byte, AllFit, load_segments-inside}
use alpheratz.Canicula.Started.{
  IsBootable, IsInSlot, total_size_eq, index_eq, kernel_at, kernel-IsOutside, boots,
}

-- The kernel's region, where the range starts at the beginning of a PML4 entry.
translation-image :
    (base lo size va : ℕ)
    → lo % 2 ^ 39 ≡ 0
    → lo / 2 ^ 39 % 512 ≢ 256
    → size ≤ 2 ^ 30
    → lo ≤ va
    → va < lo + size
    → translation base ((size + 4095) / 4096) (lo / 2 ^ 39 % 512) va ≡ some (base + (va - lo))
translation-image base lo size va aligned ne small low high = ground arith

-- The first address of a range that starts within a PML4 entry.
translation-shifted :
    (base lo size : ℕ)
    → lo % 2 ^ 39 ≢ 0
    → lo / 2 ^ 39 % 512 ≢ 256
    → translation base ((size + 4095) / 4096) (lo / 2 ^ 39 % 512) lo ≢ some base
translation-shifted base lo size within ne = ground arith

-- The segments are inside the range.
pub segments_fit :
    (fw : Firmware) (kernel : Str) (elf : ElfFile) (range : ℕ × ℕ)
    → IsBootable fw kernel elf range
    → IsInSlot range
    → (base : ℕ) (room : base + (range.1 - range.0) < 2 ^ 64)
    → AllFit kernel range.0 range.1 base room elf.program_headers
segments_fit fw kernel elf range b slot base room j q there = ground (
  arith,
  virtual_range-Within elf.program_headers (2 ^ 64 - 1, 0) j q b.well_formed b.range_eq there,
  slot.end_lt,
  b.well_formed.file_size_le j q there,
)

segment_byte-small :
    (kernel : Str) (ph : ProgramHeader) (o : ℕ)
    → ((i : ℕ) → byte_at kernel i < 256)
    → segment_byte kernel ph o % 256 ≡ segment_byte kernel ph o
segment_byte-small kernel ph o small = ground (arith, small (ph.offset + o))

-- A readable kernel is started, and at the jump, with the page tables in the same memory, every byte
-- of its segments is at its own virtual address: the byte of the file, or zero past those. This is
-- for a kernel of at most 1 GiB whose range starts at the beginning of a PML4 entry other than 0 and
-- 256, which the loader uses itself, and ends in 64 bits; and for a firmware that has the pages that
-- are asked for, in whole pages below 2^52 and those of the tables apart from the kernel's, and a
-- graphics output.
pub boot_canicula_elf-maps :
    (fw : Firmware) (kernel : Str) (elf : ElfFile) (range : ℕ × ℕ)
    → IsBootable fw kernel elf range
    → IsInSlot range
    → range.0 % 2 ^ 39 ≡ 0
    → (m : Bytes) (serial : List ℕ) (i : ℕ) (ph : ProgramHeader) (o : ℕ)
    → Loads elf.program_headers i ph
    → o < ph.mem_size
    → (h : Handover) × (boot_canicula_elf fw kernel m serial ≡ some h)
      × ((pa : ℕ) × (mmu h (ph.virtual_addr + o) ≡ some pa)
          × (h.memory pa ≡ segment_byte kernel ph o))
boot_canicula_elf-maps fw kernel elf range b slot aligned m serial i ph o l inside =
    let (h, started, (base, has_base, (image, loads, kept), map, _, _, _)) =
      boots fw kernel elf range b slot m serial in
    let index = index_eq fw kernel elf range b slot in
    let size = total_size_eq fw kernel elf range b slot in
    let room : base + (range.1 - range.0) < 2 ^ 64 =
      omega (arith, (kernel_at fw kernel elf range b slot base has_base).1) in
    let within = virtual_range-Within _ _ i ph b.well_formed b.range_eq l in
    let va = ph.virtual_addr + o in
    let translated =
      translation-image base range.0 (total_size range) va aligned slot.slot_ne
        (omega (arith, size, slot.size)) (omega (arith, within))
        (omega (arith, within, size, slot.order)) in
    let fits = segments_fit fw kernel elf range b slot base room in
    (
      h,
      started,
      (
        base + (ph.virtual_addr - range.0) + o,
        map va
            ∙ ap (λ k. translation base ((total_size range + 4095) / 4096) k va) index
            ∙ translated
            ∙ ap some (omega (arith, within)),
        kept (base + (ph.virtual_addr - range.0) + o) (
              kernel-IsOutside fw kernel elf range b slot base _ has_base (omega (arith, within))
                (omega (arith, within)))
            ∙ ap (λ (v : ℕ). v % 256)
                (load_segments-inside kernel range.0 range.1 base room elf.program_headers m i ph o
                  b.well_formed fits loads l inside)
            ∙ segment_byte-small kernel ph o b.file_bytes,
      ),
    )

-- A kernel whose range starts within a PML4 entry is started all the same, and its segments are in
-- memory from the place on that the firmware gave, but the first address of the range does not lead
-- to that place: the tables map the kernel as if the range started at the beginning of the entry.
-- This is for a readable kernel of at most 1 GiB in a PML4 entry other than 0 and 256, whose range
-- ends in 64 bits, on a firmware that has a graphics output and the pages that are asked for, those
-- of the tables apart from the kernel's.
pub boot_canicula_elf-misplaces :
    (fw : Firmware) (kernel : Str) (elf : ElfFile) (range : ℕ × ℕ)
    → IsBootable fw kernel elf range
    → IsInSlot range
    → range.0 % 2 ^ 39 ≢ 0
    → (m : Bytes) (serial : List ℕ)
    → (h : Handover) × (boot_canicula_elf fw kernel m serial ≡ some h)
      × ((base : ℕ) × ((image : Bytes) × (load_segments kernel range.0 base elf.program_headers m
              ≡ some image)
            × ((a : ℕ) → base ≤ a → a < base + (range.1 - range.0) → h.memory a ≡ image a % 256))
          × (mmu h range.0 ≢ some base))
boot_canicula_elf-misplaces fw kernel elf range b slot within m serial =
    let (h, started, (base, has_base, (image, loads, kept), map, _, _, _)) =
      boots fw kernel elf range b slot m serial in
    let index = index_eq fw kernel elf range b slot in
    let mapped =
      map range.0 ∙ ap (λ k. translation base ((total_size range + 4095) / 4096) k range.0) index in
    (
      h,
      started,
      (
        base,
        (
          image,
          loads,
          λ a low high.
              kept a (kernel-IsOutside fw kernel elf range b slot base a has_base low high),
        ),
        λ wrong.
            translation-shifted base range.0 (total_size range) within slot.slot_ne
              (sym mapped ∙ wrong),
      ),
    )
