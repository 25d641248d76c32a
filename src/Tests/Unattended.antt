-- ===== src/Tests/Unattended.antt =====
-- Tests of `main` where nobody touches the keyboard: the default entry has a kernel in the
-- configuration, and the timeout is one second.
use alpheratz.Prelude.{
  ℕ, ◌≡◌, ◌+◌, ◌*◌, ◌<◌, ◌≤◌, refl, get_elem?, List, [], ◌∷◌, ◌++◌, Option, none, some, arith,
  replicate, bytes, Str,
}
use alpheratz.Arch.{Arch}
use alpheratz.Config.{
  Config, Entry, BootFile, Protocol, FileType, inline, default_config, default_entry_index,
}
use alpheratz.Firmware.{Status, ok}
use alpheratz.Canicula.{Handover, Firmware}
use alpheratz.Canicula.Words.{mmu}
use alpheratz.Linux.Order.{run_calls}
use alpheratz.Linux.Starts.{failure_calls}
use alpheratz.Session.{Session, printed, selected}
use alpheratz.FsUtil.{into_regular_file, read_into}
use alpheratz.Download.{ResolvedFiles, place, place_if, joined, finish, any_needs, needs}
use alpheratz.Download.Client.{
  resolve_all_on, resolve_opened, open_root_if, start_if, contents_on, resolve_files_on,
}
use alpheratz.Download.Text.{is_utf8}
use alpheratz.Main.Load.{load_config, read_config, unwrap_or_default, from_utf8}
use alpheratz.Main.OnMachine.{Typed, main_on}
use alpheratz.Main.Boot.{boot, returned, handed_over}
use alpheratz.Main.Unattended.{unattended-starts, unattended-hands_over}
use alpheratz.Tests.Clients
use alpheratz.Tests.LinuxBoots
use alpheratz.Tests.Kernels

abbrev kernel : BootFile
kernel = record {
  file_type = FileType.kernel;
  search = inline;
  file = none;
  content = some Kernels.file;
  select = none;
}

abbrev entry_for : Protocol → Entry
entry_for p = record { name = bytes "A"; protocol = p; identity = none; files = kernel ∷ [] }

abbrev from_str : Protocol → Str → Option Config
from_str p s = some (record default_config { timeout = 1; entry = entry_for p ∷ [] })

abbrev files : ResolvedFiles
files = record { kernel = some Kernels.file; initrd = none; cmdline = none }

abbrev disk_config : Protocol → Config
disk_config p = load_config (from_str p) Clients.machine.disk

abbrev before : Protocol → Session ℕ
before p = printed (selected p (bytes "A") ∷ []) Clients.session

loaded :
    (p : Protocol) → disk_config p ≡ record default_config { timeout = 1; entry = entry_for p ∷ [] }
unfolding load_config read_config unwrap_or_default from_utf8 is_utf8 into_regular_file read_into
loaded p = refl

there :
    (p : Protocol)
    → get_elem? (disk_config p).entry (default_entry_index (disk_config p)) ≡ some (entry_for p)
unfolding default_entry_index
there p = rw (loaded p) refl

set : (p : Protocol) → 0 < (disk_config p).timeout
set p = rw (loaded p) (omega arith)

long : (p : Protocol) → 10 * ((disk_config p).timeout + 1) ≤ 20
long p = rw (loaded p) (omega arith)

resolved :
    (p : Protocol)
    → resolve_all_on Clients.machine (disk_config p) (entry_for p) (before p) ≡ (ok files, before p)
unfolding resolve_all_on resolve_opened open_root_if start_if resolve_files_on contents_on place
    place_if joined finish any_needs needs
resolved p = refl

abbrev canicula_firmware : Firmware
canicula_firmware = Kernels.firmware (Kernels.elf_at Kernels.slot_511)

abbrev typed : List Typed
typed = record { keys = replicate 20 none; readings = [] } ∷ []

unattended-starts_example :
    boot Arch.x86_64 LinuxBoots.firmware canicula_firmware Kernels.sevens []
      (main_on Clients.machine (from_str Protocol.linux) typed Clients.session).0
    ≡ returned Status.success (
        run_calls 30 40 Kernels.file none none
        ++ failure_calls (LinuxBoots.firmware.start_image 40))
unattended-starts_example =
    unattended-starts Clients.machine (from_str Protocol.linux) Arch.x86_64 LinuxBoots.firmware
      canicula_firmware Kernels.sevens [] 20 [] [] Clients.session (before Protocol.linux)
      (entry_for Protocol.linux) files Kernels.file 30 40 (there Protocol.linux) refl
      (set Protocol.linux) (long Protocol.linux) (resolved Protocol.linux) refl
      LinuxBoots.firmware-IsFirmware
      (record {
        device_path = refl;
        load_file2 = (30, refl);
        loads = refl;
        opens = (40, refl);
        fits = λ text e. λ e'. cc;
      })

unattended-hands_over_example :
    (h : Handover) × (boot Arch.x86_64 LinuxBoots.firmware canicula_firmware Kernels.sevens []
        (main_on Clients.machine (from_str Protocol.canicula) typed Clients.session).0
      ≡ handed_over h)
    × ((pa : ℕ) × (mmu h 0xFFFF_FF80_0000_0006 ≡ some pa) × (h.memory pa ≡ 0))
unattended-hands_over_example =
    unattended-hands_over Clients.machine (from_str Protocol.canicula) LinuxBoots.firmware
      canicula_firmware Kernels.sevens [] 20 [] [] Clients.session (before Protocol.canicula)
      (entry_for Protocol.canicula) files Kernels.file (Kernels.elf_at Kernels.slot_511)
      (Kernels.slot_511, Kernels.slot_511 + 6000) 0 (Kernels.header_at Kernels.slot_511) 6
      (there Protocol.canicula) refl (set Protocol.canicula) (long Protocol.canicula)
      (resolved Protocol.canicula) refl (Kernels.one-IsBootable Kernels.slot_511 (omega arith))
      Kernels.slot_511-IsInSlot (omega arith) (refl, refl) (omega arith)
