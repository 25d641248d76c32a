-- ===== src/Canicula/Loader.antt =====
-- src/boot/canicula/x86_64.rs: the kernel's range of addresses, and its segments put into memory.
use alpheratz.Prelude.{
  ℕ, ◌+◌, ◌-◌, ◌/◌, ◌+u◌, ◌-u◌, ◌*u◌, ◌>>>◌, List, [], ◌∷◌, Option, none, some, ◌&&◌, ltb, leb,
  if◌then◌else◌, length, get_elem?, bit_and, Str,
}
use alpheratz.Prelude.Fallible.{◌>>=◌}
use alpheratz.Canicula.{ProgramHeader, Bytes}

-- One round of the loop that finds the kernel's virtual range.
unfoldable pub widen : ProgramHeader → ℕ × ℕ → ℕ × ℕ
widen ph (min_virt, max_virt) =
    let start = ph.virtual_addr in
    let end = start +u ph.mem_size in
    (if ltb start min_virt then start else min_virt, if ltb max_virt end then end else max_virt)

unfoldable pub virtual_range : List ProgramHeader → ℕ × ℕ → Option (ℕ × ℕ)
virtual_range [] range = some range
virtual_range (ph ∷ phs) range = do
  load ← ph.is_load
  virtual_range phs (if load then widen ph range else range)

-- The byte at an index of a slice.
unfoldable pub byte_at : Str → ℕ → ℕ
byte_at slice i = elim (get_elem? slice i) [ none ↦ 0 | some b ↦ b ]

-- `copy_nonoverlapping` from `offset` of the file on. Reading past the file is undefined
-- behaviour in the source; it is `none` here.
unfoldable pub copy_nonoverlapping : Str → ℕ → ℕ → ℕ → Bytes → Option Bytes
unfolding byte_at
copy_nonoverlapping kernel offset dest count m =
    if leb (offset + count) (length kernel)
    then some (λ a.
      if leb dest a && ltb a (dest + count) then byte_at kernel (offset + (a - dest)) else m a)
    else none

-- `write_bytes(dest, 0, count)`
unfoldable pub clear_bytes : ℕ → ℕ → Bytes → Bytes
clear_bytes dest count m a = if leb dest a && ltb a (dest + count) then 0 else m a

unfoldable pub load_segment : Str → ℕ → ℕ → ProgramHeader → Bytes → Option Bytes
unfolding copy_nonoverlapping clear_bytes
load_segment kernel min_virt kernel_phys_base ph m =
    let phys_addr = kernel_phys_base +u (ph.virtual_addr -u min_virt) in
    do
      m ← copy_nonoverlapping kernel ph.offset phys_addr ph.file_size m
      some (
          if ltb ph.file_size ph.mem_size
          then clear_bytes (phys_addr + ph.file_size) (ph.mem_size - ph.file_size) m
          else m)

unfoldable pub load_segments : Str → ℕ → ℕ → List ProgramHeader → Bytes → Option Bytes
load_segments kernel min_virt base [] m = some m
load_segments kernel min_virt base (ph ∷ phs) m = do
  load ← ph.is_load
  m ← if load then load_segment kernel min_virt base ph m else some m
  load_segments kernel min_virt base phs m

unfoldable pub total_size : ℕ × ℕ → ℕ
total_size (min_virt, max_virt) = max_virt -u min_virt

-- The 4 KiB pages of as many 2 MiB as the kernel needs.
unfoldable pub num_pages_aligned : ℕ → ℕ
num_pages_aligned size = (size +u 0x20_0000 -u 1) / 0x20_0000 *u 512

unfoldable pub kernel_pml4_index : ℕ × ℕ → ℕ
kernel_pml4_index (min_virt, _) = bit_and (min_virt >>> 39) 0x1FF
