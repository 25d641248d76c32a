-- ===== src/Canicula/Handed.antt =====
-- What src/boot/canicula/x86_64.rs hands over to the kernel that it starts.
use mathlib.Core.List.{append-nil, append_assoc}
use alpheratz.Prelude.{
  ℕ, zero, suc, ◌+◌, ◌*◌, ◌-◌, ◌/◌, ◌%◌, ◌^◌, ◌<◌, ◌≡◌, ◌∙◌, ap, List, [], ◌∷◌, some, arith, Str,
  map, get_elem?, bit_and, length, length-append, ◌++◌, ◌≤◌, sym, ◌+u◌, ◌*u◌,
}
use alpheratz.Prelude.Bits.{bit_and_mask, bit_and_shifted}
use alpheratz.PageTable.X64.{physical_memory_offset}
use alpheratz.PageTable.X64.Layout.{AllocatesPages}
use alpheratz.PageTable.X64.Regions.{translation}
use alpheratz.Canicula.{
  Bytes, Firmware, ElfFile, Handover, BootInfo, Descriptor, MemoryRegion, memory_region, stack_top,
  convert_memory_type,
}
use alpheratz.Canicula.Words.{mmu}
use alpheratz.Canicula.Loader.{kernel_pml4_index}
use alpheratz.Canicula.Boot.{push_regions, boot_canicula_elf, boot_info}
use alpheratz.Canicula.Started.{IsBootable, IsInSlot, boots}

-- Sixteen-byte alignment changes no address that has it.
keep_aligned : (a : ℕ) → a % 16 ≡ 0 → a < 2 ^ 64 → bit_and a (2 ^ 64 - 1 - 0xF) ≡ a
keep_aligned a h small =
    ap (λ n. bit_and n (2 ^ 64 - 1 - 0xF)) (omega (arith, h))
    ∙ (bit_and_shifted 4 (a / 16) (2 ^ 60 - 1)
        ∙ (ap (λ n. n * 2 ^ 4) (bit_and_mask 60 (a / 16)) ∙ omega (arith, h, small)))

stack_top_lem : (stack : ℕ) → stack % 4096 ≡ 0 → stack < 2 ^ 52 → stack_top stack ≡ stack + 2 ^ 20
unfolding stack_top
stack_top_lem stack aligned small =
    keep_aligned (stack +u 1024 *u 1024) (omega (arith, aligned)) (omega arith)
    ∙ omega (arith, small)

get_elem?-map {ℓ κ} :
    {A : Type ℓ} {B : Type κ} (f : A → B) (xs : List A) (i : ℕ) {a : A}
    → get_elem? xs i ≡ some a
    → get_elem? (map f xs) i ≡ some (f a)
get_elem?-map f [] i h = cc (h)
get_elem?-map f (x ∷ xs) zero h = cc (h)
get_elem?-map f (x ∷ xs) (suc i) h = get_elem?-map f xs i h

translation-physical :
    (base pages index p : ℕ)
    → p < 2 ^ 32
    → translation base pages index (physical_memory_offset + p) ≡ some p
translation-physical base pages index p h = ground arith

region_lem :
    (d : Descriptor)
    → d.phys_start + d.page_count * 4096 < 2 ^ 64
    → memory_region d ≡ record {
      start = d.phys_start;
      end = d.phys_start + d.page_count * 4096;
      kind = convert_memory_type d.ty;
    }
unfolding memory_region
region_lem d fits =
    ap (λ (e : ℕ). record { start = d.phys_start; end = e; kind = convert_memory_type d.ty })
      (omega (arith, fits))

-- `MemoryRegions::push` puts a region behind the others while there are fewer than this.
abbrev pub HasRoom : (List MemoryRegion → MemoryRegion → List MemoryRegion) → ℕ → Type 0
HasRoom push capacity =
    (regions : List MemoryRegion) (r : MemoryRegion)
    → length regions < capacity
    → push regions r ≡ regions ++ r ∷ []

push_regions_lem :
    (push : List MemoryRegion → MemoryRegion → List MemoryRegion) (capacity : ℕ)
    → HasRoom push capacity
    → (entries : List Descriptor) (regions : List MemoryRegion)
    → length regions + length entries ≤ capacity
    → push_regions push entries regions ≡ regions ++ map memory_region entries
unfolding push_regions
push_regions_lem push capacity room [] regions h = sym (append-nil regions)
push_regions_lem push capacity room (d ∷ entries) regions h =
    ap (push_regions push entries) (room regions (memory_region d) (omega (arith, h)))
    ∙ push_regions_lem push capacity room entries (regions ++ memory_region d ∷ [])
        (omega (arith, h, length-append regions (memory_region d ∷ [])))
    ∙ append_assoc regions (memory_region d ∷ []) (map memory_region entries)

-- A readable kernel is entered at its entry point, on a stack of 1 MiB that the firmware gave, from
-- its aligned top; the boot information has every range of the memory map that ends in 64 bits, with
-- its ends and its kind, as long as `MemoryRegions` has room for as many regions as the memory map
-- has; and it has the offset at which, through the page tables, the first 4 GiB of physical memory
-- are found. This is for a kernel of at most 1 GiB in a PML4 entry other than 0 and 256, whose range
-- ends in 64 bits, on a firmware that has a graphics output and the pages that are asked for, whole
-- pages below 2^52, those of the tables apart from the kernel's.
pub boot_canicula_elf-hands_over :
    (fw : Firmware) (kernel : Str) (elf : ElfFile) (range : ℕ × ℕ)
    → IsBootable fw kernel elf range
    → IsInSlot range
    → AllocatesPages fw.allocate_stack
    → (capacity : ℕ) → HasRoom fw.push capacity
    → length fw.memory_map ≤ capacity
    → (m : Bytes) (serial : List ℕ) (i : ℕ) (d : Descriptor) (p : ℕ)
    → get_elem? fw.memory_map i ≡ some d
    → d.phys_start + d.page_count * 4096 < 2 ^ 64
    → p < 2 ^ 32
    → (h : Handover) × (boot_canicula_elf fw kernel m serial ≡ some h)
      × (h.rip ≡ elf.entry_point)
      × ((stack : ℕ) × (fw.allocate_stack 256 ≡ some stack)
          × (h.rsp ≡ stack + 2 ^ 20)
          × (h.rsp % 16 ≡ 0))
      × (get_elem? h.boot_info.memory_regions i
          ≡ some (record {
            start = d.phys_start;
            end = d.phys_start + d.page_count * 4096;
            kind = convert_memory_type d.ty;
          }))
      × ((offset : ℕ) × (h.boot_info.physical_memory_offset ≡ some offset)
          × (mmu h (offset + p) ≡ some p))
unfolding boot_info
boot_canicula_elf-hands_over fw kernel elf range b slot pages capacity room small m serial i d p
      there fits low =
    let (
      h,
      started,
      (base, has_base, loads, maps, (stack, has_stack, top), entry, (gop, has_gop, info)),
    ) =
      boots fw kernel elf range b slot m serial in
    let given = pages 256 stack has_stack in
    let rsp_eq : h.rsp ≡ stack + 2 ^ 20 =
      top ∙ stack_top_lem stack given.0 (omega (arith, given.1)) in
    (
      h,
      started,
      entry,
      (stack, has_stack, rsp_eq, omega (arith, rsp_eq, given.0)),
      ap (λ (info : BootInfo). get_elem? info.memory_regions i) info
          ∙ ap (λ rs. get_elem? rs i)
              (push_regions_lem fw.push capacity room fw.memory_map [] (omega (arith, small)))
          ∙ (get_elem?-map memory_region fw.memory_map i there ∙ ap some (region_lem d fits)),
      (
        physical_memory_offset,
        ap (λ (info : BootInfo). info.physical_memory_offset) info,
        maps (physical_memory_offset + p)
            ∙ translation-physical base _ (kernel_pml4_index range) p low,
      ),
    )
