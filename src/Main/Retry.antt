-- ===== src/Main/Retry.antt =====
-- What `main` of src/main.rs does with an entry that it cannot boot.
use alpheratz.Prelude.{
  ℕ, ◌≡◌, refl, ap, ◌∙◌, List, [], ◌∷◌, ◌++◌, Option, none, some, get_elem?, replicate, Str,
  if◌then◌else◌, Bool-cases, inl, inr,
}
use alpheratz.Prelude.Fallible.{eq_of_some}
use alpheratz.Config.{Config, Entry, Protocol}
use alpheratz.Firmware.{Result, ok, err, is_unfinished}
use alpheratz.Session.{
  Message, Session, printed, selected, failed_to_load, no_kernel, press_any_key,
}
use alpheratz.Menu.{Menu, Key, boots, show, ends}
use alpheratz.Download.{ResolvedFiles}
use alpheratz.Download.Client.{Machine, resolve_all_on}
use alpheratz.Main.{waiting}
use alpheratz.Main.Wait.{wait_for_key-returned}
use alpheratz.Main.OnMachine.{Run, Typed, kernel_on, files_on, after_key_on, loop_on}

-- What is said of files that cannot be booted: `none` if there is a kernel, or if a download of them
-- is still going on.
abbrev no_kernel_in : Option (List ℕ) → Option (List Message)
no_kernel_in none = some (no_kernel ∷ press_any_key ∷ [])
no_kernel_in (some kernel) = none

abbrev pub complaint : Result ResolvedFiles → Option (List Message)
complaint (err e) = if is_unfinished e then none else some (failed_to_load e ∷ press_any_key ∷ [])
complaint (ok files) = no_kernel_in files.kernel

module _ {W : Type 0} (m : Machine W) where
  kernel_on-complaint :
      (i : ℕ) (p : Protocol) (files : ResolvedFiles) (kernel : Option Str) (later : Run m)
      (s : Session W) (ms : List Message)
      → no_kernel_in kernel ≡ some ms
      → kernel_on m i p files kernel later s ≡ later (printed ms s)
  unfolding kernel_on
  kernel_on-complaint i p files none later s ms h = ap (λ ms. later (printed ms s)) (eq_of_some h)
  kernel_on-complaint i p files (some k) later s ms h = cc (h)

  files_on-complaint :
      (i : ℕ) (p : Protocol) (later : Run m) (q : Result ResolvedFiles × Session W)
      (ms : List Message)
      → complaint q.0 ≡ some ms
      → files_on m i p later q ≡ later (printed ms q.1)
  unfolding files_on
  files_on-complaint i p later (err e, s) ms h = elim (Bool-cases (is_unfinished e)) [
    | inl going_on ↦ cc (rw going_on at h)
    | inr over ↦ rw over (ap (λ ms. later (printed ms s)) (eq_of_some (rw over at h)))
  ]
  files_on-complaint i p later (ok files, s) ms h =
      kernel_on-complaint i p files files.kernel later s ms h

module _ {W : Type 0} (m : Machine W) (cfg : Config) (i : ℕ) (e : Entry) where
  abbrev pub tried : Session W → Result ResolvedFiles × Session W
  tried s = resolve_all_on m cfg e (printed (selected e.protocol e.name ∷ []) s)

  -- An entry that was chosen in the menu and whose files cannot be loaded, or have no kernel, does
  -- not end `main`: it says so, and at the first key, however long that takes, it goes on as if it
  -- started with the machine and the messages that this entry left. Without a key it waits.
  pub loop_on-retries :
      (keys : List (Option Key)) (later : List Typed) (s : Session W) (menu : Menu)
      (ms : List Message) (n : ℕ) (k : Key) (after : List (Option Key))
      → show cfg keys ≡ some (ends (boots i) menu)
      → get_elem? cfg.entry i ≡ some e
      → complaint (tried s).0 ≡ some ms
      → let typed = λ (readings : List (Option Key)).
        let t : Typed = record { keys = keys; readings = readings } in t ∷ later in
        let left = printed ms (tried s).1 in
        (loop_on m cfg (typed (replicate n none ++ some k ∷ after)) s ≡ loop_on m cfg later left)
        × (loop_on m cfg (typed (replicate n none)) s ≡ (waiting, left))
  unfolding loop_on after_key_on
  loop_on-retries keys later s menu ms n k after chosen there failed =
      let (returns, waits) = wait_for_key-returned n k after in
      (
        rw (chosen, there)
            (files_on-complaint m i e.protocol _ (tried s) ms failed ∙ rw returns refl),
        rw (chosen, there)
            (files_on-complaint m i e.protocol _ (tried s) ms failed ∙ rw waits refl),
      )
