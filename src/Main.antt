-- ===== src/Main.antt =====
-- src/main.rs: the loop of `main`, from menu to boot. A run is what each turn of the loop reads: the
-- keyboard, in the menu; the files; and the keyboard again, where a message waits for a key.
pub mod Boot
pub mod Choice
pub mod Load
pub mod OnMachine
pub mod Initrd
pub mod Retry
pub mod Unattended
pub mod Wait
use Wait.{Waited, returned, wait_for_key}
use alpheratz.Prelude.{ℕ, List, [], ◌∷◌, Option, none, some, get_elem?, Str}
use alpheratz.Config.{Config, Entry, Protocol}
use alpheratz.Firmware.{Result, ok, err}
use alpheratz.Menu.{
  Key, Progress, Outcome, boots, resets, panics, ResetType, Variable, show, waits, ends,
}
use alpheratz.Download.{Sources, ResolvedFiles, resolve_all}

pub record Turn : Type 0 where
  pub keys : List (Option Key)
  pub sources : Sources
  pub readings : List (Option Key)

-- How far a run comes: it still waits for a key, hangs in an empty menu, resets, panics, or calls
-- the boot function of a protocol with the entry's files. `boot_canicula` is given no initrd.
pub data Final : Type 0 where
  waiting hanging panic : Final
  reset : ResetType → List Variable → Final
  boot_linux : ℕ → Str → Option Str → Option Str → Final
  boot_canicula : ℕ → Str → Option Str → Final

unfoldable pub dispatch : ℕ → Protocol → Str → ResolvedFiles → Final
dispatch i Protocol.linux kernel files = boot_linux i kernel files.initrd files.cmdline
dispatch i Protocol.canicula kernel files = boot_canicula i kernel files.cmdline

-- `rest` is `wait_for_key(); continue;`.
unfoldable pub with_kernel : ℕ → Protocol → Option Str → ResolvedFiles → Final → Final
with_kernel i p none files rest = rest
with_kernel i p (some kernel) files rest = dispatch i p kernel files

unfoldable pub with_files : ℕ → Protocol → Result ResolvedFiles → Final → Final
with_files i p (err e) rest = rest
with_files i p (ok files) rest = with_kernel i p files.kernel files rest

-- `&cfg.entry[selected]`
unfoldable pub with_entry : ℕ → Option Entry → Sources → Final → Final
with_entry i none src rest = panic
with_entry i (some e) src rest = with_files i e.protocol (resolve_all src e) rest

unfoldable pub selected : Config → Outcome → Sources → Final → Final
selected cfg (boots i) src rest = with_entry i (get_elem? cfg.entry i) src rest
selected cfg (resets t vs) src rest = reset t vs
selected cfg panics src rest = panic

unfoldable pub turn : Config → Option Progress → Sources → Final → Final
turn cfg none src rest = hanging
turn cfg (some (waits m)) src rest = waiting
turn cfg (some (ends o m)) src rest = selected cfg o src rest

unfoldable pub after_key : Waited → Final → Final
after_key (Waited.waiting _) later = waiting
after_key (returned _ _) later = later

unfoldable pub main_loop : Config → List Turn → Final
unfolding turn selected with_entry with_files with_kernel dispatch after_key
main_loop cfg [] = waiting
main_loop cfg (t ∷ ts) =
    let rest = after_key (wait_for_key t.readings) (main_loop cfg ts) in
    turn cfg (show cfg t.keys) t.sources rest
