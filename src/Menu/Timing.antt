-- ===== src/Menu/Timing.antt =====
-- The countdown of src/menu.rs.
use mathlib.Core.Option
use alpheratz.Prelude.{
  ℕ, zero, suc, ◌+◌, ◌-◌, ◌*◌, ◌<◌, ◌≡◌, ◌≢◌, refl, List, [], ◌∷◌, ◌++◌, Option, none, some, arith,
  min, ltb, if◌then◌else◌, replicate,
}
use alpheratz.Config.{Config, default_entry_index}
use alpheratz.Menu.{
  Outcome, Menu, Key, Progress, waits, ends, total_items, confirm, draw, round, continue, run,
  start, show,
}

-- What a run has come to, if it has ended.
abbrev pub outcome : Progress → Option Outcome
outcome (waits m) = none
outcome (ends o m) = some o

pub continue-ends :
    (cfg : Config) (total : ℕ) (keys : List (Option Key)) (o : Outcome) (m : Menu)
    → continue cfg total keys (ends o m) ≡ ends o m
unfolding continue
continue-ends cfg total [] o m = refl
continue-ends cfg total (k ∷ ks) o m = refl

module _ (cfg : Config) (total : ℕ) where
  idle_run :
      (n t : ℕ) (m : Menu)
      → m.timeout ≡ some t
      → m.tick_count < 10
      → outcome (continue cfg total (replicate n none) (waits m))
        ≡ (if ltb (m.tick_count + n) (10 * (t + 1)) then none else some (confirm cfg m.selected).0)
  unfolding continue round
  idle_run zero t m e h = ground arith
  idle_run (suc n) t m e h = ground (
    arith,
    idle_run n t (record m { tick_count = m.tick_count + 1 }),
    idle_run n (t - 1) (record m {
      tick_count = 0;
      timeout = some (t - 1);
      console = m.console ++ draw cfg m.selected (some (t - 1));
    }),
    continue-ends cfg total (replicate n none) (confirm cfg m.selected).0
        (record m { tick_count = 0; console = m.console ++ (confirm cfg m.selected).1 }),
  )

-- With a timeout and no key pressed, the menu boots its default item, the last item where the
-- default is past the end, and it does so at exactly `10 * (timeout + 1)` readings: a second more
-- than the number that is shown first.
pub show_timeout :
    (cfg : Config) (n : ℕ)
    → total_items cfg ≢ 0
    → 0 < cfg.timeout
    → Option.map outcome (show cfg (replicate n none))
      ≡ some (
          if ltb n (10 * (cfg.timeout + 1))
          then none
          else some (confirm cfg (min (default_entry_index cfg) (total_items cfg - 1))).0)
unfolding show run start
show_timeout cfg n full set =
    ground (arith, idle_run cfg (total_items cfg) n cfg.timeout (start cfg))
