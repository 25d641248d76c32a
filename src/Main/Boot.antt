-- ===== src/Main/Boot.antt =====
-- The end of `main` of src/main.rs: the boot function that was chosen, and `return Status::SUCCESS`
-- whatever comes of it.
use alpheratz.Prelude.{ℕ, List, [], none, some}
use alpheratz.Arch.{Arch, Booted, boot_canicula}
use alpheratz.Arch
use alpheratz.Canicula
use alpheratz.Canicula.{Handover}
use alpheratz.Firmware.{Status}
use alpheratz.Linux
use alpheratz.Linux.{BootServices, Call, boot_linux}
use alpheratz.Main.{Final, dispatch}
use alpheratz.Main

-- `main` has returned a status, or a kernel has the machine, or an `expect` has panicked; with the
-- calls that were made for a Linux kernel.
pub data Ended : Type 0 where
  returned : Status → List Call → Ended
  handed_over : Handover → Ended
  panicked : List Call → Ended
  not_booted : Ended

-- `let _ = boot::boot_linux(…); return Status::SUCCESS`
after_linux : Linux.Run → Ended
after_linux (some _, calls) = returned Status.success calls
after_linux (none, calls) = panicked calls

after_canicula : Booted → Ended
after_canicula (Arch.handed_over h) = handed_over h
after_canicula (Arch.returned _) = returned Status.success []
after_canicula Arch.panicked = panicked []

module _ (arch : Arch) (services : BootServices) (fw : Canicula.Firmware) (memory : Canicula.Bytes)
    (serial : List ℕ) where
  unfoldable pub boot : Final → Ended
  unfolding after_linux after_canicula
  boot (Main.boot_linux i kernel initrd cmdline) =
      after_linux (boot_linux services kernel initrd cmdline)
  boot (Main.boot_canicula i kernel cmdline) =
      after_canicula (boot_canicula arch fw kernel memory serial)
  boot Main.panic = panicked []
  boot _ = not_booted
