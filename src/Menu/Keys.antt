-- ===== src/Menu/Keys.antt =====
-- The keys of src/menu.rs: readings without a key, and the cursor and the countdown from the first
-- key press on.
use mathlib.Core.Option
use alpheratz.Prelude.{
  ℕ, ◌+◌, ◌-◌, ◌<◌, ◌≡◌, ◌≢◌, refl, ◌∙◌, ap, List, ◌∷◌, ◌++◌, Option, none, some, arith, min, zero,
  suc, ◌*◌, ◌≤◌, ltb, replicate, Bool-cases, inl, inr, sym,
}
use alpheratz.Config.{Config, default_entry_index}
use alpheratz.Menu.{Menu, Key, waits, total_items, confirm, draw, round, continue, run, start, show}
use alpheratz.Menu.Timing.{outcome}
use alpheratz.Menu.Cursor.{enter, moves, NoEnter, run-moves, continue-append, key-moves}

module _ (cfg : Config) (total : ℕ) where
  one_tick :
      (t : ℕ) (m : Menu)
      → m.timeout ≡ some t
      → m.tick_count + 1 < 10
      → round cfg total m none ≡ waits (record m { tick_count = m.tick_count + 1 })
  unfolding round
  one_tick t m e h = ground arith

  abbrev counted_down : ℕ → Menu → Menu
  counted_down t m = record m {
    tick_count = 0;
    timeout = some (t - 1);
    console = m.console ++ draw cfg m.selected (some (t - 1));
  }

  one_second :
      (t : ℕ) (m : Menu)
      → m.timeout ≡ some t
      → 10 ≤ m.tick_count + 1
      → 0 < t
      → round cfg total m none ≡ waits (counted_down t m)
  unfolding round
  one_second t m e h pos = ground arith

  -- Without a key the countdown leaves the cursor alone, up to its last reading.
  quiet :
      (n t : ℕ) (m : Menu)
      → m.timeout ≡ some t
      → m.tick_count < 10
      → m.tick_count + n < 10 * (t + 1)
      → (m' : Menu) × (continue cfg total (replicate n none) (waits m) ≡ waits m')
        × (m'.selected ≡ m.selected)
  unfolding continue
  quiet zero t m e ticks h = (m, refl, refl)
  quiet (suc n) t m e ticks h = elim (Bool-cases (ltb (m.tick_count + 1) 10)) [
    | inl small ↦
        let (m', r, s) =
          quiet n t (record m { tick_count = m.tick_count + 1 }) e (ground arith) (omega arith) in
        (m', ap (continue cfg total (replicate n none)) (one_tick t m e (ground arith)) ∙ r, s)
    | inr large ↦
        let (m', r, s) = quiet n (t - 1) (counted_down t m) refl (omega arith) (ground arith) in
        (
          m',
          ap (continue cfg total (replicate n none))
                (one_second t m e (ground arith) (ground arith))
              ∙ r,
          s,
        )
  ]

  -- Without a countdown no reading without a key does anything.
  still :
      (n selected : ℕ)
      → NoEnter (replicate n none) × (moves total selected (replicate n none) ≡ selected)
  still zero selected = (tt, refl)
  still (suc n) selected = let (no_enter, same) = still n selected in ((tt, no_enter), same)

-- So many readings without a key, in time if there is a countdown, leave the menu waiting.
quiet_start :
    (cfg : Config) (n : ℕ)
    → total_items cfg ≢ 0
    → (0 < cfg.timeout → n < 10 * (cfg.timeout + 1))
    → (m : Menu) × (continue cfg (total_items cfg) (replicate n none) (waits (start cfg)) ≡ waits m)
      × (m.selected ≡ min (default_entry_index cfg) (total_items cfg - 1))
unfolding start
quiet_start cfg n full in_time = elim (Bool-cases (ltb 0 cfg.timeout)) [
  | inl set ↦
      quiet cfg (total_items cfg) n cfg.timeout (start cfg) (ground arith) (omega arith)
        (omega (arith, in_time (ground arith)))
  | inr unset ↦
      let (no_enter, same) = still cfg (total_items cfg) n (start cfg).selected in
      let (m, r, s) =
        run-moves cfg (total_items cfg) (replicate n none) (start cfg) (omega (arith, full))
          (ground arith) no_enter in
      (m, r, s ∙ same)
]

after_quiet :
    (cfg : Config) (n : ℕ) (m : Menu)
    → continue cfg (total_items cfg) (replicate n none) (waits (start cfg)) ≡ waits m
    → (ls : List (Option Key))
    → continue cfg (total_items cfg) (replicate n none ++ ls) (waits (start cfg))
      ≡ continue cfg (total_items cfg) ls (waits m)
after_quiet cfg n m quiet ls =
    continue-append cfg (total_items cfg) (replicate n none) ls (waits (start cfg))
    ∙ ap (continue cfg (total_items cfg) ls) quiet

shown_full :
    (cfg : Config) (keys : List (Option Key))
    → total_items cfg ≢ 0
    → Option.map outcome (show cfg keys)
      ≡ some (outcome (continue cfg (total_items cfg) keys (waits (start cfg))))
unfolding show run
shown_full cfg keys full = ground arith

-- Once a key other than Enter has been pressed, the menu waits for Enter however long it takes, and
-- Enter then does what the item under the cursor says, where each Up and Down since the start has
-- moved the cursor by one within the ends of the menu. The first press may come at any reading while
-- the menu still waits: before reading `10 * (timeout + 1)` if there is a timeout, at any if not.
pub show-moves :
    (cfg : Config) (n : ℕ) (k : Key) (keys rest : List (Option Key))
    → total_items cfg ≢ 0
    → (0 < cfg.timeout → n < 10 * (cfg.timeout + 1))
    → NoEnter (some k ∷ keys)
    → let total = total_items cfg in
      let first = min (default_entry_index cfg) (total - 1) in
      let pressed = replicate n none ++ some k ∷ keys in
      (Option.map outcome (show cfg pressed) ≡ some none)
      × (Option.map outcome (show cfg (pressed ++ some enter ∷ rest))
          ≡ some (some (confirm cfg (moves total first (some k ∷ keys))).0))
show-moves cfg n k keys rest full in_time no_enter =
    let total = total_items cfg in
    let (m, quiet, same) = quiet_start cfg n full in_time in
    let (waiting, confirmed) =
      key-moves cfg total k keys rest m (omega (arith, same, full)) no_enter in
    (
      shown_full cfg _ full
          ∙ ap some (ap outcome (after_quiet cfg n m quiet (some k ∷ keys)) ∙ waiting),
      shown_full cfg _ full
          ∙ ap some (
              ap outcome (
                continue-append cfg total (replicate n none ++ some k ∷ keys) (some enter ∷ rest)
                  (waits (start cfg))
                ∙ ap (continue cfg total (some enter ∷ rest))
                    (after_quiet cfg n m quiet (some k ∷ keys))
                ∙ sym (continue-append cfg total (some k ∷ keys) (some enter ∷ rest) (waits m)))
              ∙ confirmed
              ∙ ap (λ i. some (confirm cfg (moves total i (some k ∷ keys))).0) same),
    )
