-- ===== src/Canicula/Boot.antt =====
-- `boot_canicula_elf` of src/boot/canicula/x86_64.rs, up to the jump to the kernel.
use alpheratz.Prelude.{ℕ, ◌-◌, ◌/◌, ◌^◌, ◌+u◌, ◌-u◌, ◌*u◌, List, [], ◌∷◌, Option, some, bytes, Str}
use alpheratz.Prelude.Fallible.{◌>>=◌}
use alpheratz.Serial.{Machine, serial_str}
use alpheratz.Serial.Hex.{serial_hex}
use alpheratz.PageTable.X64.{
  PageTableConfig, physical_memory_offset, allocate_page_tables, init_page_tables,
}
use alpheratz.Canicula.{
  Bytes, Firmware, Handover, BootInfo, Descriptor, MemoryRegion, ElfFile, GraphicsOutput, rsdp_addr,
  memory_region, frame_buffer, stack_top,
}
use alpheratz.Canicula.Words.{words_of, bytes_of}
use alpheratz.Canicula.Loader.{
  virtual_range, load_segments, total_size, num_pages_aligned, kernel_pml4_index,
}

-- What `BOOT_INFO` holds at the jump; it is empty at the start.
-- `for desc in memory_map.entries() { … push(MemoryRegion { … }) }`
unfoldable pub push_regions :
    (List MemoryRegion → MemoryRegion → List MemoryRegion)
    → List Descriptor
    → List MemoryRegion
    → List MemoryRegion
push_regions push [] regions = regions
push_regions push (desc ∷ entries) regions =
    push_regions push entries (push regions (memory_region desc))

unfoldable pub boot_info : Firmware → GraphicsOutput → BootInfo
boot_info fw gop = record {
  memory_regions = push_regions fw.push fw.memory_map [];
  framebuffer = some (frame_buffer gop);
  physical_memory_offset = some physical_memory_offset;
  rsdp_addr = rsdp_addr fw.config_table;
}

-- The text on the serial port, and the jump; from here on memory is read by the byte.
unfoldable pub jump : ElfFile → BootInfo → PageTableConfig → ℕ → Machine × ℕ → Option Handover
jump elf info config stack (s, pml4_phys) = do
  s ← serial_hex elf.entry_point (serial_str (bytes "[LOADER] Jumping to kernel at ") s)
  let s = serial_str (bytes "\r\n") s
  some (record {
    memory = bytes_of s.memory;
    serial = s.serial;
    config = config;
    cr3 = pml4_phys;
    rsp = stack_top stack;
    rip = elf.entry_point;
    boot_info = info;
  })

unfoldable pub boot_canicula_elf : Firmware → Str → Bytes → List ℕ → Option Handover
boot_canicula_elf fw kernel m serial = do
  elf ← fw.elf kernel
  range ← virtual_range elf.program_headers (2 ^ 64 - 1, 0)
  kernel_phys_base ← fw.allocate_kernel (num_pages_aligned (total_size range))
  m ← load_segments kernel range.0 kernel_phys_base elf.program_headers m
  pt_config ←
      allocate_page_tables fw.allocate_tables kernel_phys_base (total_size range)
        (kernel_pml4_index range)
  stack ← fw.allocate_stack ((1024 *u 1024 +u 4096 -u 1) / 4096)
  gop ← fw.gop
  jump elf (boot_info fw gop) pt_config stack
      (init_page_tables pt_config (record { memory = words_of m; serial = serial }))
