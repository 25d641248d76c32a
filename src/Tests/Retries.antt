-- ===== src/Tests/Retries.antt =====
-- Tests of `main` with an entry that has no kernel.
use alpheratz.Prelude.{◌≡◌, refl, List, [], ◌∷◌, ◌++◌, Option, none, some, replicate, bytes}
use alpheratz.Config.{Config, Entry, Protocol, default_config, default_entry_index}
use alpheratz.Session.{printed, no_kernel, press_any_key}
use alpheratz.Menu.{
  Menu, Key, down, printable, boots, Progress, waits, ends, show, run, start, continue, round,
  total_items, confirm, index_to_selection,
}
use alpheratz.Download.{joined, finish, any_needs}
use alpheratz.Download.Client.{
  resolve_all_on, resolve_opened, open_root_if, start_if, resolve_files_on,
}
use alpheratz.Main.{waiting}
use alpheratz.Main.OnMachine.{Typed, loop_on}
use alpheratz.Main.Retry.{tried, complaint, loop_on-retries}
use alpheratz.Tests.Clients

abbrev empty : Entry
empty = record { name = bytes "Empty"; protocol = Protocol.linux; identity = none; files = [] }

abbrev config : Config
config = record default_config { entry = empty ∷ [] }

abbrev keys : List (Option Key)
keys = none ∷ some (printable 13) ∷ []

abbrev menu_in : Option Progress → Menu
menu_in none = record { selected = 0; timeout = none; tick_count = 0; console = [] }
menu_in (some (waits m)) = m
menu_in (some (ends o m)) = m

chosen : show config keys ≡ some (ends (boots 0) (menu_in (show config keys)))
unfolding show run start continue round total_items confirm index_to_selection default_entry_index
chosen = refl

failed :
    complaint (tried Clients.machine config 0 empty Clients.session).0
    ≡ some (no_kernel ∷ press_any_key ∷ [])
unfolding resolve_all_on resolve_opened open_root_if start_if resolve_files_on joined finish
    any_needs
failed = refl

loop_on-retries_example :
    let typed = λ (readings : List (Option Key)).
      let t : Typed = record { keys = keys; readings = readings } in t ∷ [] in
    let s =
      printed
        (no_kernel ∷ press_any_key ∷ [])
        (tried Clients.machine config 0 empty Clients.session).1 in
    (loop_on Clients.machine config (typed (replicate 2 none ++ some down ∷ [])) Clients.session
      ≡ loop_on Clients.machine config [] s)
    × (loop_on Clients.machine config (typed (replicate 2 none)) Clients.session ≡ (waiting, s))
loop_on-retries_example =
    loop_on-retries Clients.machine config 0 empty keys [] Clients.session
      (menu_in (show config keys)) (no_kernel ∷ press_any_key ∷ []) 2 down [] chosen refl failed
