-- ===== src/Menu/Shown.antt =====
-- The screen of src/menu.rs while the menu waits.
use mathlib.Core.Path.{subst}
use alpheratz.Prelude.Fallible.{eq_of_some}
use alpheratz.Prelude.{
  ℕ, ◌+◌, ◌≡◌, refl, inl, inr, List, [], ◌∷◌, ◌++◌, Option, none, some, false, Bool-cases, leb,
  ◌==◌,
}
use alpheratz.Config.{Config}
use alpheratz.Menu.{
  Menu, Command, clear, enable_cursor, Key, Progress, waits, ends, total_items, draw, drawn,
  confirmed, react, redraw, read_key, count_down, tick, round, continue, run, start, show,
}

-- The last frame is that of the cursor and the countdown as they are now.
abbrev pub IsShown : Config → Progress → Type 0
IsShown cfg (waits m) =
    (before : List Command) × (m.console ≡ before ++ draw cfg m.selected m.timeout)
IsShown cfg (ends o m) = Unit

module _ (cfg : Config) where
  redraw-IsShown : (p : Progress) → IsShown cfg (redraw cfg p)
  unfolding redraw drawn
  redraw-IsShown (waits m) = (m.console, refl)
  redraw-IsShown (ends o m) = tt

  read_key-IsShown :
      (total : ℕ) (m : Menu) (key : Option Key)
      → IsShown cfg (waits m)
      → IsShown cfg (read_key cfg total m key)
  unfolding read_key
  read_key-IsShown total m none h = h
  read_key-IsShown total m (some k) h =
      redraw-IsShown (react cfg total (record m { timeout = none }) k)

  count_down-IsShown :
      (m : Menu) (timeout : Option ℕ)
      → IsShown cfg (waits m)
      → IsShown cfg (count_down cfg m timeout)
  unfolding count_down confirmed drawn
  count_down-IsShown m none h = h
  count_down-IsShown m (some t) h = elim (Bool-cases (t == 0)) [
    | inl over ↦ rw over tt
    | inr more ↦ rw more (m.console, refl)
  ]

  tick-IsShown : (p : Progress) → IsShown cfg p → IsShown cfg (tick cfg p)
  unfolding tick
  tick-IsShown (ends o m) h = tt
  tick-IsShown (waits m) h = elim (Bool-cases (leb 10 (m.tick_count + 1))) [
    | inl tenth ↦ rw tenth (count_down-IsShown (record m { tick_count = 0 }) m.timeout h)
    | inr other ↦ rw other h
  ]

  continue-IsShown :
      (total : ℕ) (keys : List (Option Key)) (p : Progress)
      → IsShown cfg p
      → IsShown cfg (continue cfg total keys p)
  unfolding continue round
  continue-IsShown total [] p h = h
  continue-IsShown total (k ∷ ks) (ends o m) h = tt
  continue-IsShown total (k ∷ ks) (waits m) h =
      continue-IsShown total ks (round cfg total m k)
        (tick-IsShown (read_key cfg total m k) (read_key-IsShown total m k h))

-- Whatever has been typed, while the menu waits the last frame on the screen is the one of the
-- current cursor and the current countdown.
pub show-IsShown :
    (cfg : Config) (keys : List (Option Key)) (p : Progress)
    → show cfg keys ≡ some p
    → IsShown cfg p
unfolding show run start drawn
show-IsShown cfg keys p h = elim (Bool-cases (total_items cfg == 0)) [
  | inl empty ↦ absurd (cc (rw empty at h))
  | inr full ↦ subst (IsShown cfg) (eq_of_some (rw full at h)) (
      continue-IsShown cfg (total_items cfg) keys (waits (start cfg))
        (clear ∷ enable_cursor false ∷ [], refl))
]
