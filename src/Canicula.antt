-- ===== src/Canicula.antt =====
-- src/boot/canicula/x86_64.rs: the data of starting a Canicula kernel. `xmas_elf` and the firmware
-- are parameters, in `Firmware`; a panic is `none`. Physical memory is
-- `Bytes`: the segments are copied into it by the byte, and the page tables are words of it.
pub mod Words
pub mod Loader
pub mod Boot
pub mod Ranges
pub mod Totality
pub mod Loading
pub mod Started
pub mod Image
pub mod Outside
pub mod Handed
use alpheratz.Prelude.{
  ℕ, ◌+u◌, ◌-u◌, ◌*u◌, ◌-◌, ◌^◌, List, [], ◌∷◌, Option, none, some, Bool, bit_and, Str,
}
use alpheratz.PageTable.X64.{PageTableConfig, page_size}

-- The types of `MemoryType` that the loader names, and the others by their number.
pub data MemoryType : Type 0 where
  conventional loader_code loader_data boot_services_code boot_services_data : MemoryType
  other_type : ℕ → MemoryType

pub data MemoryRegionKind : Type 0 where
  usable bootloader : MemoryRegionKind
  unknown_uefi : ℕ → MemoryRegionKind

pub data UefiPixelFormat : Type 0 where
  rgb bgr bitmask blt_only : UefiPixelFormat

pub data PixelFormat : Type 0 where
  rgb bgr : PixelFormat
  unknown : ℕ → ℕ → ℕ → PixelFormat

unfoldable pub convert_memory_type : MemoryType → MemoryRegionKind
convert_memory_type conventional = usable
convert_memory_type loader_code = bootloader
convert_memory_type loader_data = bootloader
convert_memory_type boot_services_code = bootloader
convert_memory_type boot_services_data = bootloader
convert_memory_type (other_type ty) = unknown_uefi ty

unfoldable pub convert_pixel_format : UefiPixelFormat → PixelFormat
convert_pixel_format UefiPixelFormat.rgb = PixelFormat.rgb
convert_pixel_format UefiPixelFormat.bgr = PixelFormat.bgr
convert_pixel_format _ = unknown 0 8 16

-- A program header, as `xmas_elf` reads it. `load` is what `get_type` says, `none` its error.
pub record ProgramHeader : Type 0 where
  pub is_load : Option Bool
  pub offset : ℕ
  pub virtual_addr : ℕ
  pub file_size : ℕ
  pub mem_size : ℕ

pub record ElfFile : Type 0 where
  pub entry_point : ℕ
  pub program_headers : List ProgramHeader

pub record Descriptor : Type 0 where
  pub phys_start : ℕ
  pub page_count : ℕ
  pub ty : MemoryType

pub record MemoryRegion : Type 0 where
  pub start : ℕ
  pub end : ℕ
  pub kind : MemoryRegionKind

pub record GraphicsOutput : Type 0 where
  pub width : ℕ
  pub height : ℕ
  pub stride : ℕ
  pub address : ℕ
  pub size : ℕ
  pub format : UefiPixelFormat

pub record FrameBuffer : Type 0 where
  pub address : ℕ
  pub size : ℕ
  pub width : ℕ
  pub height : ℕ
  pub stride : ℕ
  pub bytes_per_pixel : ℕ
  pub pixel_format : PixelFormat

-- The kinds of a configuration table's entry that the loader looks for.
pub data ConfigTable : Type 0 where
  acpi2 acpi other_table : ConfigTable

-- Physical memory by the byte.
abbrev pub Bytes : Type 0
Bytes = ℕ → ℕ

-- What the loader asks of other code: the ELF parser, the three calls of `allocate_pages` in their
-- order (pages to address), the graphics output, the configuration table and the memory map, and
-- `MemoryRegions::push` of canicula_common, from one state of the collection to the next, read as the
-- regions that it has.
pub record Firmware : Type 0 where
  pub elf : Str → Option ElfFile
  pub allocate_kernel : ℕ → Option ℕ
  pub allocate_tables : ℕ → Option ℕ
  pub allocate_stack : ℕ → Option ℕ
  pub gop : Option GraphicsOutput
  pub config_table : List (ConfigTable × ℕ)
  pub memory_map : List Descriptor
  pub push : List MemoryRegion → MemoryRegion → List MemoryRegion

pub record BootInfo : Type 0 where
  pub memory_regions : List MemoryRegion
  pub framebuffer : Option FrameBuffer
  pub physical_memory_offset : Option ℕ
  pub rsdp_addr : Option ℕ

-- The state at the jump to the kernel.
pub record Handover : Type 0 where
  pub memory : Bytes
  pub serial : List ℕ
  pub config : PageTableConfig
  pub cr3 : ℕ
  pub rsp : ℕ
  pub rip : ℕ
  pub boot_info : BootInfo

-- The first entry with either of the two ACPI identifiers.
unfoldable pub rsdp_addr : List (ConfigTable × ℕ) → Option ℕ
rsdp_addr [] = none
rsdp_addr ((acpi2, address) ∷ _) = some address
rsdp_addr ((acpi, address) ∷ _) = some address
rsdp_addr ((other_table, _) ∷ entries) = rsdp_addr entries

unfoldable pub memory_region : Descriptor → MemoryRegion
memory_region desc = record {
  start = desc.phys_start;
  end = desc.phys_start +u desc.page_count *u page_size;
  kind = convert_memory_type desc.ty;
}

pub frame_buffer : GraphicsOutput → FrameBuffer
frame_buffer gop = record {
  address = gop.address;
  size = gop.size;
  width = gop.width;
  height = gop.height;
  stride = gop.stride;
  bytes_per_pixel = 4;
  pixel_format = convert_pixel_format gop.format;
}

pub stack_top : ℕ → ℕ
stack_top stack = bit_and (stack +u 1024 *u 1024) (2 ^ 64 - 1 - 0xF)
