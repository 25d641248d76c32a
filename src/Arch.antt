-- ===== src/Arch.antt =====
-- The architectures that the loader is built for (`target_arch`), and what depends on them:
-- `arch_name` of src/download.rs, `boot_canicula` of src/boot/canicula/mod.rs.
use alpheratz.Prelude.{ℕ, List, Option, none, some, bytes, Str}
use alpheratz.Firmware.{Status}
use alpheratz.Canicula.{Bytes, Firmware, Handover}
use alpheratz.Canicula.Boot.{boot_canicula_elf}

pub data Arch : Type 0 where
  x86_64 aarch64 riscv64 loongarch64 : Arch

abbrev pub arch_name : Arch → Str
arch_name Arch.x86_64 = bytes "x86_64"
arch_name Arch.aarch64 = bytes "aarch64"
arch_name Arch.riscv64 = bytes "riscv64"
arch_name Arch.loongarch64 = bytes "loongarch64"

-- The kernel has the machine, or a status comes back, or an `expect` panics.
pub data Booted : Type 0 where
  handed_over : Handover → Booted
  returned : Status → Booted
  panicked : Booted

abbrev jumped : Option Handover → Booted
jumped none = panicked
jumped (some h) = handed_over h

unfoldable pub boot_canicula : Arch → Firmware → Str → Bytes → List ℕ → Booted
boot_canicula Arch.x86_64 fw kernel m serial = jumped (boot_canicula_elf fw kernel m serial)
boot_canicula _ fw kernel m serial = returned Status.unsupported
