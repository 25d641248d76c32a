-- ===== src/Menu/Safety.antt =====
-- What the menu of src/menu.rs may come to, for whatever is typed.
use alpheratz.Prelude.{◌<◌, ◌≡◌, ◌≢◌, List, [], ◌∷◌, Option, some, arith}
use alpheratz.Config.{Config}
use alpheratz.Menu.{Key, Progress, waits, ends, total_items, continue, run, start, show}
use alpheratz.Menu.Invariant.{IsSafe, round-IsSafe}

continue-IsSafe :
    (cfg : Config) (keys : List (Option Key)) (p : Progress)
    → IsSafe cfg p
    → IsSafe cfg (continue cfg (total_items cfg) keys p)
unfolding continue
continue-IsSafe cfg [] p h = h
continue-IsSafe cfg (k ∷ ks) (ends o m) h = h
continue-IsSafe cfg (k ∷ ks) (waits m) h = continue-IsSafe cfg ks _ (round-IsSafe cfg m k h)

start-selected : (cfg : Config) → total_items cfg ≢ 0 → (start cfg).selected < total_items cfg
unfolding start
start-selected cfg h = omega arith

-- Whatever keys are read, the cursor is on an item of the menu while it waits, and the menu ends
-- only with what the item at its cursor does: booting an entry that is there, the firmware's
-- settings or the shutdown where the configuration asks for them, and never a panic.
pub show-IsSafe :
    (cfg : Config) (keys : List (Option Key)) (p : Progress) → show cfg keys ≡ some p → IsSafe cfg p
unfolding show run
show-IsSafe cfg keys p e =
    ground (arith, start-selected cfg, continue-IsSafe cfg keys (waits (start cfg)))
