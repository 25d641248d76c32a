-- ===== src/Main/Choice.antt =====
-- What src/main.rs boots, and what was chosen in the menu.
use mathlib.Core.Path.{subst}
use alpheratz.Prelude.{
  ℕ, suc, ◌≡◌, refl, ap, ◌∙◌, sym, List, [], ◌∷◌, Option, none, some, get_elem?, Str,
}
use alpheratz.Config.{Config, Entry, Protocol}
use alpheratz.Firmware.{Result, ok, err}
use alpheratz.Menu.{Progress, boots, resets, panics, show, waits, ends}
use alpheratz.Menu.Invariant.{IsSafe}
use alpheratz.Menu.Items.{items-boots, items-panics}
use alpheratz.Menu.Safety.{show-IsSafe}
use alpheratz.Download.{ResolvedFiles, resolve_all}
use alpheratz.Main.Wait.{Waited, returned, wait_for_key}
use alpheratz.Main.{
  Turn, Final, waiting, hanging, panic, reset, boot_linux, boot_canicula, main_loop, turn, selected,
  with_entry, with_files, with_kernel, dispatch, after_key,
}

-- The files are those of entry `i`, of this protocol, in one of the turns.
abbrev pub FilesOf : Config → List Turn → ℕ → Protocol → ResolvedFiles → Type 0
FilesOf cfg turns i p files =
    (e : Entry) × ((j : ℕ) × ((t : Turn) × (get_elem? cfg.entry i ≡ some e)
        × (e.protocol ≡ p)
        × (get_elem? turns j ≡ some t)
        × (resolve_all t.sources e ≡ ok files)))

abbrev pub IsChosen : Config → List Turn → Final → Type 0
IsChosen cfg turns panic = ⊥
IsChosen cfg turns (boot_linux i kernel initrd cmdline) =
    FilesOf cfg turns i Protocol.linux
      (record { kernel = some kernel; initrd = initrd; cmdline = cmdline })
IsChosen cfg turns (boot_canicula i kernel cmdline) =
    (initrd : Option Str) × FilesOf cfg turns i Protocol.canicula
      (record { kernel = some kernel; initrd = initrd; cmdline = cmdline })
IsChosen cfg turns _ = Unit

FilesOf-later :
    (cfg : Config) (t : Turn) (ts : List Turn) (i : ℕ) (p : Protocol) (files : ResolvedFiles)
    → FilesOf cfg ts i p files
    → FilesOf cfg (t ∷ ts) i p files
FilesOf-later cfg t ts i p files (e, (j, (u, there, is_p, at, got))) =
    (e, (suc j, (u, there, is_p, at, got)))

IsChosen-later :
    (cfg : Config) (t : Turn) (ts : List Turn) (f : Final)
    → IsChosen cfg ts f
    → IsChosen cfg (t ∷ ts) f
IsChosen-later cfg t ts waiting h = tt
IsChosen-later cfg t ts hanging h = tt
IsChosen-later cfg t ts panic h = h
IsChosen-later cfg t ts (reset r vs) h = tt
IsChosen-later cfg t ts (boot_linux i k rd cl) h = FilesOf-later cfg t ts i _ _ h
IsChosen-later cfg t ts (boot_canicula i k cl) (rd, h) = (rd, FilesOf-later cfg t ts i _ _ h)

-- One turn, where the later turns do what was chosen.
module _ (cfg : Config) (t : Turn) (ts : List Turn) (rest : Final)
    (later : IsChosen cfg (t ∷ ts) rest) where
  with_kernel-IsChosen :
      (i : ℕ) (e : Entry) (p : Protocol) (kernel : Option Str) (files : ResolvedFiles)
      → get_elem? cfg.entry i ≡ some e
      → e.protocol ≡ p
      → files.kernel ≡ kernel
      → resolve_all t.sources e ≡ ok files
      → IsChosen cfg (t ∷ ts) (with_kernel i p kernel files rest)
  unfolding with_kernel dispatch
  with_kernel-IsChosen i e p none files there is_p is_kernel got = later
  with_kernel-IsChosen i e Protocol.linux (some k) files there is_p is_kernel got =
      (e, (0, (t, there, is_p, refl, got ∙ ap (λ k. ok (record files { kernel = k })) is_kernel)))
  with_kernel-IsChosen i e Protocol.canicula (some k) files there is_p is_kernel got = (
    files.initrd,
    (e, (0, (t, there, is_p, refl, got ∙ ap (λ k. ok (record files { kernel = k })) is_kernel))),
  )

  with_files-IsChosen :
      (i : ℕ) (e : Entry) (r : Result ResolvedFiles)
      → get_elem? cfg.entry i ≡ some e
      → resolve_all t.sources e ≡ r
      → IsChosen cfg (t ∷ ts) (with_files i e.protocol r rest)
  unfolding with_files
  with_files-IsChosen i e (err s) there got = later
  with_files-IsChosen i e (ok files) there got =
      with_kernel-IsChosen i e e.protocol files.kernel files there refl refl got

  with_entry-IsChosen :
      (i : ℕ) (e : Entry)
      → get_elem? cfg.entry i ≡ some e
      → IsChosen cfg (t ∷ ts) (with_entry i (get_elem? cfg.entry i) t.sources rest)
  unfolding with_entry
  with_entry-IsChosen i e there =
      subst (λ o. IsChosen cfg (t ∷ ts) (with_entry i o t.sources rest)) (sym there)
        (with_files-IsChosen i e (resolve_all t.sources e) there refl)

  turn-IsChosen :
      (p : Option Progress)
      → ((q : Progress) → p ≡ some q → IsSafe cfg q)
      → IsChosen cfg (t ∷ ts) (turn cfg p t.sources rest)
  unfolding turn selected
  turn-IsChosen none safe = tt
  turn-IsChosen (some (waits m)) safe = tt
  turn-IsChosen (some (ends (boots i) m)) safe =
      let (e, there) = items-boots cfg m.selected (boots i) (safe _ refl) i refl in
      with_entry-IsChosen i e there
  turn-IsChosen (some (ends (resets r vs) m)) safe = tt
  turn-IsChosen (some (ends panics m)) safe =
      absurd (items-panics cfg m.selected panics (safe _ refl) refl)

after_key-IsChosen :
    (cfg : Config) (turns : List Turn) (w : Waited) (f : Final)
    → IsChosen cfg turns f
    → IsChosen cfg turns (after_key w f)
unfolding after_key
after_key-IsChosen cfg turns (Waited.waiting n) f h = tt
after_key-IsChosen cfg turns (returned n readings) f h = h

-- Whatever is typed and read, `main` never panics on an entry that is not there, and it boots only
-- an entry of the configuration, with the boot function of its protocol and with the kernel, initrd
-- and command line that this entry resolves to.
pub main_loop-IsChosen :
    (cfg : Config) (turns : List Turn) → IsChosen cfg turns (main_loop cfg turns)
unfolding main_loop
main_loop-IsChosen cfg [] = tt
main_loop-IsChosen cfg (t ∷ ts) =
    let rest = main_loop cfg ts in
    let w = wait_for_key t.readings in
    turn-IsChosen cfg t ts (after_key w rest)
      (after_key-IsChosen cfg (t ∷ ts) w rest
        (IsChosen-later cfg t ts rest (main_loop-IsChosen cfg ts)))
      (show cfg t.keys) (show-IsSafe cfg t.keys)
