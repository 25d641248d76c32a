-- ===== src/Main/Unattended.antt =====
-- What becomes of a machine that nobody touches: `main` of src/main.rs from the start to the kernel.
use alpheratz.Prelude.{
  ℕ, ◌+◌, ◌-◌, min, ◌*◌, ◌≤◌, ◌<◌, ◌%◌, ◌^◌, ◌≡◌, refl, ap, ◌∙◌, List, [], ◌∷◌, ◌++◌, Option, none,
  some, arith, get_elem?, replicate, Str,
}
use mathlib.Core.Option
use alpheratz.Prelude.Fallible.{eq_of_some}
use alpheratz.Arch.{Arch, boot_canicula}
use alpheratz.Canicula
use alpheratz.Canicula.{Handover, ElfFile, ProgramHeader}
use alpheratz.Canicula.Ranges.{Loads}
use alpheratz.Canicula.Loading.{segment_byte}
use alpheratz.Canicula.Started.{IsBootable, IsInSlot}
use alpheratz.Canicula.Image.{boot_canicula_elf-maps}
use alpheratz.Canicula.Words.{mmu}
use alpheratz.Config.{Config, Entry, Protocol, default_entry_index}
use alpheratz.Firmware.{Status, ok}
use alpheratz.Linux.{BootServices}
use alpheratz.Linux.Order.{IsFirmware, run_calls}
use alpheratz.Linux.Starts.{IsReady, failure_calls, boot_linux-starts}
use alpheratz.Menu.Items.{confirm-entry}
use alpheratz.Menu.{Menu, Outcome, Key, Progress, boots, show, waits, ends, total_items}
use alpheratz.Menu.Timing.{outcome, show_timeout}
use alpheratz.Session.{Session, printed, selected}
use alpheratz.Download.{ResolvedFiles}
use alpheratz.Download.Client.{Machine, resolve_all_on}
use alpheratz.Main.{dispatch}
use alpheratz.Main.Load.{load_config}
use alpheratz.Main.OnMachine.{Typed, main_on, loop_on}
use alpheratz.Main.Boot.{returned, handed_over, boot}

ends_of_outcome :
    (p : Option Progress) (o : Outcome)
    → Option.map outcome p ≡ some (some o)
    → (menu : Menu) × (p ≡ some (ends o menu))
ends_of_outcome none o h = cc (h)
ends_of_outcome (some (waits menu)) o h = cc (h)
ends_of_outcome (some (ends o' menu)) o h =
    (menu, ap (λ o. some (ends o menu)) (eq_of_some (eq_of_some h)))

-- The entry that is booted if nobody presses a key.
module _ (cfg : Config) (e : Entry) (there : get_elem? cfg.entry (default_entry_index cfg) ≡ some e)
    (set : 0 < cfg.timeout) where
  first_lem :
      default_entry_index cfg < total_items cfg
      → min (default_entry_index cfg) (total_items cfg - 1) ≡ default_entry_index cfg
  first_lem inside = omega (arith, inside)

  default_outcome :
      (n : ℕ)
      → 10 * (cfg.timeout + 1) ≤ n
      → (menu : Menu) × (show cfg (replicate n none)
          ≡ some (ends (boots (default_entry_index cfg)) menu))
  default_outcome n long =
      let (inside, boots_it) = confirm-entry cfg (default_entry_index cfg) e there in
      ends_of_outcome (show cfg (replicate n none)) (boots (default_entry_index cfg))
        (show_timeout cfg n (omega arith) set ∙ rw (first_lem inside) (ground (arith, boots_it)))

  default_session : {W : Type 0} → Session W → Session W
  default_session s = printed (selected e.protocol e.name ∷ []) s

  -- Its files are resolved, and `main` calls the boot function.
  default_boots :
      {W : Type 0} (m : Machine W) (n : ℕ) (readings : List (Option Key)) (later : List Typed)
      (s s' : Session W) (files : ResolvedFiles) (kernel : Str)
      → 10 * (cfg.timeout + 1) ≤ n
      → resolve_all_on m cfg e (printed (selected e.protocol e.name ∷ []) s) ≡ (ok files, s')
      → files.kernel ≡ some kernel
      → loop_on m cfg (record { keys = replicate n none; readings = readings } ∷ later) s
        ≡ (dispatch (default_entry_index cfg) e.protocol kernel files, s')
  unfolding loop_on
  default_boots m n readings later s s' files kernel long resolved has_kernel =
      let (menu, shown) = default_outcome n long in rw (shown, there, resolved, has_kernel) refl

-- On a machine that nobody touches, a configuration with a timeout whose default entry is one for
-- Linux: at `10 * (timeout + 1)` readings of the keyboard, or more, its kernel has been started, as
-- the last thing asked of the firmware but for the message of a failed start, after the initrd and
-- the whole command line of the entry were handed over, and `main` returns success. This is where the entry's files can be resolved and
-- nothing fails before the start, whatever comes of the start itself.
pub unattended-starts :
    {W : Type 0} (m : Machine W) (from_str : Str → Option Config) (arch : Arch)
    (services : BootServices) (fw : Canicula.Firmware) (memory : Canicula.Bytes) (serial : List ℕ)
    (n : ℕ) (readings : List (Option Key)) (later : List Typed) (s s' : Session W) (e : Entry)
    (files : ResolvedFiles) (kernel : Str) (handle image : ℕ)
    → let cfg = load_config from_str m.disk in
      get_elem? cfg.entry (default_entry_index cfg) ≡ some e
      → e.protocol ≡ Protocol.linux
      → 0 < cfg.timeout
      → 10 * (cfg.timeout + 1) ≤ n
      → resolve_all_on m cfg e (printed (selected e.protocol e.name ∷ []) s) ≡ (ok files, s')
      → files.kernel ≡ some kernel
      → IsFirmware services
      → IsReady services kernel files.cmdline handle image
      → let typed = record { keys = replicate n none; readings = readings } ∷ later in
        boot arch services fw memory serial (main_on m from_str typed s).0
        ≡ returned Status.success (
            run_calls handle image kernel files.initrd files.cmdline
            ++ failure_calls (services.start_image image))
unfolding main_on boot dispatch
unattended-starts m from_str arch services fw memory serial n readings later s s' e files kernel
      handle image there linux set long resolved has_kernel firmware ready =
    let cfg = load_config from_str m.disk in
    rw
      (
        default_boots cfg e there set m n readings later s s' files kernel long resolved has_kernel,
        linux,
        boot_linux-starts services firmware kernel files.cmdline handle image ready files.initrd,
      )
      refl

-- On a machine with x86_64 that nobody touches, a configuration with a timeout whose default entry is
-- one for Canicula: at `10 * (timeout + 1)` readings of the keyboard, or more, its kernel has the
-- machine, and every byte of its segments is at its own virtual address: the byte of the file, or
-- zero past those. This is where the entry's files can be resolved and the kernel is readable, of at
-- most 1 GiB, with a range that starts at the beginning of a PML4 entry other than 0 and 256 and ends
-- in 64 bits; and where the firmware has a graphics output and the pages that are asked for, whole
-- pages below 2^52, those of the tables apart from the kernel's.
pub unattended-hands_over :
    {W : Type 0} (m : Machine W) (from_str : Str → Option Config) (services : BootServices)
    (fw : Canicula.Firmware) (memory : Canicula.Bytes) (serial : List ℕ) (n : ℕ)
    (readings : List (Option Key)) (later : List Typed) (s s' : Session W) (e : Entry)
    (files : ResolvedFiles) (kernel : Str) (elf : ElfFile) (range : ℕ × ℕ) (i : ℕ)
    (ph : ProgramHeader) (o : ℕ)
    → let cfg = load_config from_str m.disk in
      get_elem? cfg.entry (default_entry_index cfg) ≡ some e
      → e.protocol ≡ Protocol.canicula
      → 0 < cfg.timeout
      → 10 * (cfg.timeout + 1) ≤ n
      → resolve_all_on m cfg e (printed (selected e.protocol e.name ∷ []) s) ≡ (ok files, s')
      → files.kernel ≡ some kernel
      → IsBootable fw kernel elf range
      → IsInSlot range
      → range.0 % 2 ^ 39 ≡ 0
      → Loads elf.program_headers i ph
      → o < ph.mem_size
      → let typed = record { keys = replicate n none; readings = readings } ∷ later in
        (h : Handover) × (boot Arch.x86_64 services fw memory serial (main_on m from_str typed s).0
          ≡ handed_over h)
        × ((pa : ℕ) × (mmu h (ph.virtual_addr + o) ≡ some pa)
            × (h.memory pa ≡ segment_byte kernel ph o))
unfolding main_on boot dispatch boot_canicula
unattended-hands_over m from_str services fw memory serial n readings later s s' e files kernel elf
      range i ph o there canicula set long resolved has_kernel bootable slot aligned loads inside =
    let cfg = load_config from_str m.disk in
    let (h, started, mapped) =
      boot_canicula_elf-maps fw kernel elf range bootable slot aligned memory serial i ph o loads
        inside in
    (
      h,
      rw
          (
            default_boots cfg e there set m n readings later s s' files kernel long resolved
                has_kernel,
            canicula,
            started,
          )
          refl,
      mapped,
    )
