-- ===== src/Tests/Kernels.antt =====
-- Tests of src/boot/canicula/x86_64.rs: kernels of one segment, on a firmware that has room.
use alpheratz.Prelude.{
  ℕ, zero, suc, ◌+◌, ◌-◌, ◌^◌, ◌%◌, ◌<◌, ◌≡◌, ◌≢◌, refl, arith, [], ◌∷◌, none, some, true, bytes,
  Str, get_elem?, leb, ltb, length, ◌++◌, Bool, ◌&&◌, ◌≤◌, if◌then◌else◌,
}
use alpheratz.Prelude.Fallible.{eq_of_some}
use alpheratz.Canicula.Words.{mmu}
use alpheratz.Arch.{Arch, boot_canicula, returned}
use alpheratz.Firmware.{Status}
use alpheratz.Canicula.{
  ProgramHeader, ElfFile, Firmware, Handover, Bytes, UefiPixelFormat, acpi, acpi2, other_table,
  conventional, convert_memory_type,
}
use alpheratz.Canicula.Loader.{
  virtual_range, widen, total_size, num_pages_aligned, load_segments, byte_at,
}
use alpheratz.Canicula.Boot.{boot_canicula_elf}
use alpheratz.Canicula.Ranges.{IsWellFormed}
use alpheratz.Canicula.Totality.{IsReadable}
use alpheratz.Canicula.Started.{IsBootable, IsInSlot}
use alpheratz.Canicula.Handed.{boot_canicula_elf-hands_over}
use alpheratz.Canicula.Image.{boot_canicula_elf-maps, boot_canicula_elf-misplaces}

-- Memory that holds 7 everywhere.
abbrev pub sevens : Bytes
sevens a = 7

abbrev pub file : Str
file = bytes "ELF: kernel"

-- Six bytes of the file, in a page and a half of memory.
abbrev pub header_at : ℕ → ProgramHeader
header_at virtual_addr = record {
  is_load = some true;
  offset = 5;
  virtual_addr = virtual_addr;
  file_size = 6;
  mem_size = 6000;
}

abbrev pub elf_at : ℕ → ElfFile
elf_at virtual_addr = record {
  entry_point = virtual_addr + 2;
  program_headers = header_at virtual_addr ∷ [];
}

abbrev pub firmware : ElfFile → Firmware
firmware elf = record {
  elf = λ kernel. some elf;
  allocate_kernel = λ n. if leb n 1024 then some 0x20_0000 else none;
  allocate_tables = λ n. if leb n 1024 then some 0x80_0000 else none;
  allocate_stack = λ n. if leb n 1024 then some 0x10_0000 else none;
  gop = some (record {
    width = 800;
    height = 600;
    stride = 800;
    address = 0x8000_0000;
    size = 1920000;
    format = UefiPixelFormat.bgr;
  });
  config_table = (other_table, 1) ∷ (acpi, 2) ∷ (acpi2, 3) ∷ [];
  memory_map = record { phys_start = 0; page_count = 2048; ty = conventional } ∷ [];
  push = λ regions r. if ltb (length regions) 128 then regions ++ r ∷ [] else regions;
}

only_header : (p ph : ProgramHeader) (i : ℕ) → get_elem? (p ∷ []) i ≡ some ph → (p ≡ ph) × (i ≡ 0)
only_header p ph zero e = (eq_of_some e, refl)
only_header p ph (suc i) e = cc (e)

abbrev all_small : Str → Bool
all_small [] = true
all_small (x ∷ xs) = ltb x 256 && all_small xs

byte_at-small : (xs : Str) (i : ℕ) → all_small xs ≡ true → byte_at xs i < 256
unfolding byte_at
byte_at-small [] i h = omega arith
byte_at-small (x ∷ xs) zero h = ground arith
byte_at-small (x ∷ xs) (suc i) h = byte_at-small xs i (ground arith)

module _ (start : ℕ) (h : start + 6000 < 2 ^ 64) where
  one-IsReadable : IsReadable file (elf_at start).program_headers
  one-IsReadable = record {
    known = λ i ph e. ground (arith, only_header _ ph i e);
    in_file = λ i ph l. ground (arith, only_header _ ph i l.0);
  }

  one-IsWellFormed : IsWellFormed (elf_at start).program_headers
  one-IsWellFormed = record {
    file_size_le = λ i ph l. ground (arith, only_header _ ph i l.0);
    end_lt = λ i ph l. ground (arith, only_header _ ph i l.0);
    apart = λ i j p q ne l l'.
        absurd (omega (arith, (only_header _ p i l.0).1, (only_header _ q j l'.0).1));
  }

  one_range :
      virtual_range (elf_at start).program_headers (2 ^ 64 - 1, 0) ≡ some (start, start + 6000)
  unfolding virtual_range widen
  one_range = ground arith

  pub one-IsBootable :
      IsBootable (firmware (elf_at start)) file (elf_at start) (start, start + 6000)
  unfolding num_pages_aligned total_size
  one-IsBootable = record {
    parses = refl;
    readable = one-IsReadable;
    well_formed = one-IsWellFormed;
    range_eq = one_range;
    file_bytes = λ i. byte_at-small file i refl;
    apart = λ n k t p e e'. ground arith;
    kernel_pages = λ n base e. ground arith;
    table_pages = λ n base e. ground arith;
    has_kernel = ground arith;
    has_tables = λ n le. ground arith;
    has_stack = ground arith;
    has_gop = λ e. cc;
  }

-- The last PML4 entry.
abbrev pub slot_511 : ℕ
slot_511 = 0xFFFF_FF80_0000_0000

-- Where kernels are often linked: 2 GiB below the top, within the last PML4 entry.
abbrev top_2_gib : ℕ
top_2_gib = 0xFFFF_FFFF_8000_0000

pub slot_511-IsInSlot : IsInSlot (slot_511, slot_511 + 6000)
slot_511-IsInSlot = omega arith

top_2_gib-IsInSlot : IsInSlot (top_2_gib, top_2_gib + 6000)
top_2_gib-IsInSlot = omega arith

-- The byte after the file's six is zero.
boot_canicula_elf-maps_example :
    (h : Handover) × (boot_canicula_elf (firmware (elf_at slot_511)) file sevens [] ≡ some h)
    × ((pa : ℕ) × (mmu h 0xFFFF_FF80_0000_0006 ≡ some pa) × (h.memory pa ≡ 0))
boot_canicula_elf-maps_example =
    boot_canicula_elf-maps (firmware (elf_at slot_511)) file (elf_at slot_511)
      (slot_511, slot_511 + 6000) (one-IsBootable slot_511 (omega arith)) slot_511-IsInSlot
      (omega arith) sevens [] 0 (header_at slot_511) 6 (refl, refl) (omega arith)

boot_canicula_elf-misplaces_example :
    (h : Handover) × (boot_canicula_elf (firmware (elf_at top_2_gib)) file sevens [] ≡ some h)
    × ((base : ℕ) × ((image : Bytes) × (load_segments file top_2_gib base
              (elf_at top_2_gib).program_headers
              sevens
            ≡ some image)
          × ((a : ℕ) → base ≤ a → a < base + 6000 → h.memory a ≡ image a % 256))
        × (mmu h top_2_gib ≢ some base))
boot_canicula_elf-misplaces_example =
    boot_canicula_elf-misplaces (firmware (elf_at top_2_gib)) file (elf_at top_2_gib)
      (top_2_gib, top_2_gib + 6000) (one-IsBootable top_2_gib (omega arith)) top_2_gib-IsInSlot
      (omega arith) sevens []

boot_canicula_elf-hands_over_example :
    (h : Handover) × (boot_canicula_elf (firmware (elf_at slot_511)) file sevens [] ≡ some h)
    × (h.rip ≡ 0xFFFF_FF80_0000_0002)
    × ((stack : ℕ) × ((firmware (elf_at slot_511)).allocate_stack 256 ≡ some stack)
        × (h.rsp ≡ stack + 2 ^ 20)
        × (h.rsp % 16 ≡ 0))
    × (get_elem? h.boot_info.memory_regions 0
        ≡ some (record { start = 0; end = 0x80_0000; kind = convert_memory_type conventional }))
    × ((offset : ℕ) × (h.boot_info.physical_memory_offset ≡ some offset)
        × (mmu h (offset + 5) ≡ some 5))
boot_canicula_elf-hands_over_example =
    boot_canicula_elf-hands_over (firmware (elf_at slot_511)) file (elf_at slot_511)
      (slot_511, slot_511 + 6000) (one-IsBootable slot_511 (omega arith)) slot_511-IsInSlot
      (λ n base e. ground arith) 128 (λ rs r h. ground arith) (omega arith) sevens [] 0
      (record { phys_start = 0; page_count = 2048; ty = conventional }) 5 refl (omega arith)
      (omega arith)

-- Elsewhere than on x86_64 a Canicula kernel is not started.
boot_canicula_riscv64 :
    boot_canicula Arch.riscv64 (firmware (elf_at slot_511)) file sevens []
    ≡ returned Status.unsupported
unfolding boot_canicula
boot_canicula_riscv64 = refl
