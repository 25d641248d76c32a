-- ===== src/Main/OnMachine.antt =====
-- The loop of `main` of src/main.rs on the machine: the files are resolved by `resolve_all_on`, and
-- each turn starts from what the one before left.
use alpheratz.Prelude.{ℕ, if◌then◌else◌, List, [], ◌∷◌, Option, none, some, get_elem?, Str}
use alpheratz.Config.{Config, Entry, Protocol}
use alpheratz.Firmware.{Result, ok, err, is_unfinished}
use alpheratz.Session.{Session, printed, selected, failed_to_load, no_kernel, press_any_key}
use alpheratz.Menu.{Key, Progress, boots, resets, panics, show, waits, ends}
use alpheratz.Download.{ResolvedFiles}
use alpheratz.Download.Client.{Machine, resolve_all_on}
use alpheratz.Main.Wait.{Waited, returned, wait_for_key}
use alpheratz.Main.Load.{load_config}
use alpheratz.Main.{Final, waiting, hanging, panic, reset, dispatch}

-- What is typed in a turn: in the menu, and where a message waits for a key.
pub record Typed : Type 0 where
  pub keys : List (Option Key)
  pub readings : List (Option Key)

module _ {W : Type 0} (m : Machine W) where
  abbrev pub Run : Type 0
  Run = Session W → Final × Session W

  unfoldable pub kernel_on : ℕ → Protocol → ResolvedFiles → Option Str → Run → Run
  kernel_on i p files none later s = later (printed (no_kernel ∷ press_any_key ∷ []) s)
  kernel_on i p files (some kernel) later s = (dispatch i p kernel files, s)

  -- A download that is still going on keeps the loop waiting.
  unfoldable pub files_on :
      ℕ → Protocol → Run → Result ResolvedFiles × Session W → Final × Session W
  unfolding kernel_on
  files_on i p later (err e, s) =
      if is_unfinished e
      then (waiting, s)
      else later (printed (failed_to_load e ∷ press_any_key ∷ []) s)
  files_on i p later (ok files, s) = kernel_on i p files files.kernel later s

  entry_on : Config → ℕ → Option Entry → Run → Run
  unfolding files_on
  entry_on cfg i none later s = (panic, s)
  entry_on cfg i (some e) later s =
      files_on i e.protocol later
        (resolve_all_on m cfg e (printed (selected e.protocol e.name ∷ []) s))

  turn_on : Config → Option Progress → Run → Run
  unfolding entry_on
  turn_on cfg none later s = (hanging, s)
  turn_on cfg (some (waits _)) later s = (waiting, s)
  turn_on cfg (some (ends (boots i) _)) later s = entry_on cfg i (get_elem? cfg.entry i) later s
  turn_on cfg (some (ends (resets t vs) _)) later s = (reset t vs, s)
  turn_on cfg (some (ends panics _)) later s = (panic, s)

  unfoldable pub after_key_on : Waited → Run → Run
  after_key_on (Waited.waiting _) later s = (waiting, s)
  after_key_on (returned _ _) later s = later s

  unfoldable pub loop_on : Config → List Typed → Run
  unfolding turn_on after_key_on
  loop_on cfg [] s = (waiting, s)
  loop_on cfg (t ∷ ts) s =
      turn_on cfg (show cfg t.keys) (after_key_on (wait_for_key t.readings) (loop_on cfg ts)) s

  -- `main`; `from_str` is `Config::from_str`.
  unfoldable pub main_on : (Str → Option Config) → List Typed → Run
  main_on from_str typed s = loop_on (load_config from_str m.disk) typed s
