-- ===== src/Menu/Cursor.antt =====
-- The cursor of src/menu.rs, and what Enter does.

use alpheratz.Prelude.{
  ℕ, ◌+◌, ◌-◌, ◌<◌, ◌≡◌, ◌≢◌, refl, ◌∙◌, ap, List, [], ◌∷◌, ◌++◌, Option, none, some, arith, min,
  leb, sym, if◌then◌else◌,
}
use alpheratz.Config.{Config}
use alpheratz.Menu.{
  Menu, Key, up, down, printable, other, Progress, waits, ends, confirm, draw, round, continue,
}
use alpheratz.Menu.Timing.{outcome, continue-ends}

abbrev pub enter : Key
enter = printable 0x000D

-- The specification of the cursor: it stays within the menu's ends.
abbrev pub move : ℕ → ℕ → Option Key → ℕ
move total selected (some up) = selected - 1
move total selected (some down) = min (selected + 1) (total - 1)
move total selected _ = selected

abbrev pub moves : ℕ → ℕ → List (Option Key) → ℕ
moves total selected [] = selected
moves total selected (k ∷ ks) = moves total (move total selected k) ks

abbrev pub IsNotEnter : Option Key → Type 0
IsNotEnter (some (printable c)) = c ≢ 0x000D
IsNotEnter _ = Unit

abbrev pub NoEnter : List (Option Key) → Type 0
NoEnter [] = Unit
NoEnter (k ∷ ks) = IsNotEnter k × NoEnter ks

module _ (cfg : Config) (total : ℕ) where
  -- The state after a reading that is not Enter, with the countdown off.
  abbrev after : Menu → Option Key → Menu
  after m none = record m {
    timeout = none;
    tick_count = if leb 10 (m.tick_count + 1) then 0 else m.tick_count + 1;
  }
  after m (some k) = record m {
    selected = move total m.selected (some k);
    timeout = none;
    tick_count = if leb 10 (m.tick_count + 1) then 0 else m.tick_count + 1;
    console = m.console ++ draw cfg (move total m.selected (some k)) none;
  }

  round-none : (m : Menu) → m.timeout ≡ none → round cfg total m none ≡ waits (after m none)
  unfolding round
  round-none m e = ground arith

  round-key :
      (m : Menu) (k : Key)
      → m.selected < total
      → IsNotEnter (some k)
      → round cfg total m (some k) ≡ waits (after m (some k))
  unfolding round
  round-key m up h _ = ground arith
  round-key m down h _ = ground arith
  round-key m (printable c) h ne = ground arith
  round-key m other h _ = ground arith

  move-lt : (selected : ℕ) (k : Option Key) → selected < total → move total selected k < total
  move-lt selected none h = h
  move-lt selected (some up) h = omega arith
  move-lt selected (some down) h = omega arith
  move-lt selected (some (printable c)) h = h
  move-lt selected (some other) h = h

  -- Readings without Enter only move the cursor.
  pub run-moves :
      (keys : List (Option Key)) (m : Menu)
      → m.selected < total
      → m.timeout ≡ none
      → NoEnter keys
      → (m' : Menu) × (continue cfg total keys (waits m) ≡ waits m')
        × (m'.selected ≡ moves total m.selected keys)
  unfolding continue
  run-moves [] m h e no_enter = (m, refl, refl)
  run-moves (none ∷ ks) m h e no_enter =
      let (m', r, s) = run-moves ks (after m none) h refl no_enter.1 in
      (m', ap (continue cfg total ks) (round-none m e) ∙ r, s)
  run-moves (some k ∷ ks) m h e no_enter =
      let (m', r, s) =
        run-moves ks (after m (some k)) (move-lt m.selected (some k) h) refl no_enter.1 in
      (m', ap (continue cfg total ks) (round-key m k h no_enter.0) ∙ r, s)

  pub continue-append :
      (ks ls : List (Option Key)) (p : Progress)
      → continue cfg total (ks ++ ls) p ≡ continue cfg total ls (continue cfg total ks p)
  unfolding continue
  continue-append [] ls p = refl
  continue-append (k ∷ ks) ls (ends o m) = sym (continue-ends cfg total ls o m)
  continue-append (k ∷ ks) ls (waits m) = continue-append ks ls (round cfg total m k)

  pub enter-ends :
      (rest : List (Option Key)) (m : Menu)
      → outcome (continue cfg total (some enter ∷ rest) (waits m)) ≡ some (confirm cfg m.selected).0
  unfolding continue round
  enter-ends rest m = ap outcome (continue-ends cfg total rest _ _)

  -- From a press on, the countdown has no part in what happens.
  pub key-moves :
      (k : Key) (keys rest : List (Option Key)) (m : Menu)
      → m.selected < total
      → NoEnter (some k ∷ keys)
      → (outcome (continue cfg total (some k ∷ keys) (waits m)) ≡ none)
        × (outcome (continue cfg total ((some k ∷ keys) ++ some enter ∷ rest) (waits m))
            ≡ some (confirm cfg (moves total m.selected (some k ∷ keys))).0)
  unfolding continue
  key-moves k keys rest m h no_enter =
      let pressed = round-key m k h no_enter.0 in
      let (m', r, s) =
        run-moves keys (after m (some k)) (move-lt m.selected (some k) h) refl no_enter.1 in
      (
        ap (λ p. outcome (continue cfg total keys p)) pressed ∙ ap outcome r,
        ap (λ p. outcome (continue cfg total (keys ++ some enter ∷ rest) p)) pressed
            ∙ ap outcome (continue-append keys (some enter ∷ rest) _)
            ∙ ap (λ p. outcome (continue cfg total (some enter ∷ rest) p)) r
            ∙ enter-ends rest m'
            ∙ ap (λ i. some (confirm cfg i).0) s,
      )
