-- ===== src/Tests/Menus.antt =====
-- Tests of src/menu.rs: a menu of one entry, the firmware's settings and the shutdown.
use mathlib.Core.Option
use alpheratz.Prelude.{
  ◌≡◌, ◌≢◌, refl, List, [], ◌∷◌, Option, none, some, true, false, get_elem?, arith, bytes,
  replicate,
}
use alpheratz.Config.{Config, Entry, Protocol, index, default_config, default_entry_index}
use alpheratz.Menu.{
  Key, up, printable, ResetType, boots, resets, total_items, show, run, start, continue, round,
  draw, confirm, index_to_selection, reboot_to_firmware,
}
use alpheratz.Menu.Timing.{outcome, show_timeout}
use alpheratz.Menu.Cursor.{enter}
use alpheratz.Menu.Keys.{show-moves}
use alpheratz.Menu.Reach.{show-reaches}
use alpheratz.Menu.Shown.{IsShown, show-IsShown}
use alpheratz.Menu.Marks.{marked, labels}
use alpheratz.Menu.Highlight.{on_blue, draw-marked}
use alpheratz.Menu.Safety.{show-IsSafe}
use alpheratz.Menu.Invariant.{IsSafe}

abbrev linux : Entry
linux = record { name = bytes "Linux"; protocol = Protocol.linux; identity = none; files = [] }

abbrev config : Config
config = record default_config {
  default = index 7;
  timeout = 1;
  firmware = true;
  shutdown = true;
  entry = linux ∷ [];
}

config-total_items : total_items config ≡ 3
unfolding total_items
config-total_items = refl

config_is_full : total_items config ≢ 0
config_is_full = omega (arith, config-total_items)

abbrev typed : List (Option Key)
typed = some up ∷ none ∷ some up ∷ some enter ∷ []

-- Two Ups from the last item reach the entry.
typed-boots : Option.map outcome (show config typed) ≡ some (some (boots 0))
unfolding show total_items continue round default_entry_index confirm index_to_selection
typed-boots = refl

show_timeout_example :
    Option.map outcome (show config (replicate 20 none))
    ≡ some (some (resets ResetType.shutdown []))
unfolding confirm index_to_selection default_entry_index total_items
show_timeout_example = show_timeout config 20 config_is_full (omega arith)

show-moves_example :
    (Option.map outcome (show config (none ∷ none ∷ some up ∷ some (printable 65) ∷ none ∷ []))
      ≡ some none)
    × (Option.map outcome
          (show config (none ∷ none ∷ some up ∷ some (printable 65) ∷ none ∷ some enter ∷ []))
        ≡ some (some reboot_to_firmware))
unfolding confirm index_to_selection default_entry_index total_items reboot_to_firmware
show-moves_example =
    show-moves config 2 up (some (printable 65) ∷ none ∷ []) [] config_is_full (λ h. omega arith)
      (tt, (omega arith, (tt, tt)))

show-run-typed : show config typed ≡ some (run config 3 (start config) typed)
unfolding show run start total_items
show-run-typed = refl

show-IsSafe_example : IsSafe config (run config 3 (start config) typed)
show-IsSafe_example = show-IsSafe config typed (run config 3 (start config) typed) show-run-typed

show-reaches_example :
    Option.map outcome (show config (some up ∷ some up ∷ some enter ∷ [])) ≡ some (some (boots 0))
unfolding default_entry_index total_items confirm index_to_selection
show-reaches_example = show-reaches config 0 [] (omega (arith, config-total_items))

show-IsShown_example : IsShown config (run config 3 (start config) typed)
show-IsShown_example = show-IsShown config typed (run config 3 (start config) typed) show-run-typed

draw-marked_example : on_blue false (draw config 1 (some 1)) ≡ marked (get_elem? (labels config) 1)
draw-marked_example = draw-marked config 1 (some 1)
