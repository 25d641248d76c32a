-- ===== src/Menu/Reach.antt =====
-- The items of src/menu.rs that can be chosen from the keyboard.
use mathlib.Core.Option
use alpheratz.Prelude.{
  ℕ, zero, suc, ◌+◌, ◌-◌, ◌<◌, ◌≡◌, ◌≢◌, inl, inr, ◌∙◌, ap, List, ◌∷◌, ◌++◌, Option, some, arith,
  min, leb, if◌then◌else◌, replicate, Bool-cases,
}
use alpheratz.Config.{Config, default_entry_index}
use alpheratz.Menu.{Key, up, down, total_items, confirm, run, start, show}
use alpheratz.Menu.Timing.{outcome}
use alpheratz.Menu.Cursor.{enter, moves, NoEnter, enter-ends}
use alpheratz.Menu.Keys.{show-moves}

-- As many presses of Up or Down as there are items between the two.
abbrev pub presses : ℕ → ℕ → List (Option Key)
presses from to =
    if leb to from then replicate (from - to) (some up) else replicate (to - from) (some down)

moves-up : (total n selected : ℕ) → moves total selected (replicate n (some up)) ≡ selected - n
moves-up total zero selected = omega arith
moves-up total (suc n) selected = moves-up total n (selected - 1) ∙ omega arith

moves-down :
    (total n selected : ℕ)
    → selected + n < total
    → moves total selected (replicate n (some down)) ≡ selected + n
moves-down total zero selected h = omega arith
moves-down total (suc n) selected h =
    let one : min (selected + 1) (total - 1) ≡ selected + 1 = omega (arith, h) in
    ap (λ s. moves total s (replicate n (some down))) one
    ∙ (moves-down total n (selected + 1) (omega (arith, h)) ∙ omega arith)

moves-presses : (total from to : ℕ) → to < total → moves total from (presses from to) ≡ to
moves-presses total from to h = elim (Bool-cases (leb to from)) [
  | inl below ↦ rw below (moves-up total (from - to) from ∙ ground (arith, below))
  | inr above ↦
      rw above (moves-down total (to - from) from (ground (arith, above)) ∙ ground (arith, above))
]

arrows-NoEnter : (n : ℕ) → NoEnter (replicate n (some up)) × NoEnter (replicate n (some down))
arrows-NoEnter zero = (tt, tt)
arrows-NoEnter (suc n) = let (ups, downs) = arrows-NoEnter n in ((tt, ups), (tt, downs))

show-enter :
    (cfg : Config) (rest : List (Option Key))
    → total_items cfg ≢ 0
    → Option.map outcome (show cfg (some enter ∷ rest))
      ≡ some (some (confirm cfg (min (default_entry_index cfg) (total_items cfg - 1))).0)
unfolding show run start
show-enter cfg rest full = ground (arith, enter-ends cfg (total_items cfg) rest (start cfg))

first : Config → ℕ
first cfg = min (default_entry_index cfg) (total_items cfg - 1)

-- Enter after so many presses of one key acts on the item moved to.
arrows-enter :
    (cfg : Config) (k : Key) (n : ℕ) (rest : List (Option Key))
    → total_items cfg ≢ 0
    → NoEnter (replicate n (some k))
    → Option.map outcome (show cfg (replicate n (some k) ++ some enter ∷ rest))
      ≡ some (some (confirm cfg (moves (total_items cfg) (first cfg) (replicate n (some k)))).0)
unfolding first
arrows-enter cfg k zero rest full h = show-enter cfg rest full
arrows-enter cfg k (suc n) rest full h =
    (show-moves cfg 0 k (replicate n (some k)) rest full (λ h. omega (arith, h)) h).1

presses-enter :
    (cfg : Config) (to : ℕ) (rest : List (Option Key))
    → total_items cfg ≢ 0
    → Option.map outcome (show cfg (presses (first cfg) to ++ some enter ∷ rest))
      ≡ some (some (confirm cfg (moves (total_items cfg) (first cfg) (presses (first cfg) to))).0)
presses-enter cfg to rest full = elim (Bool-cases (leb to (first cfg))) [
  | inl below ↦
      rw below (arrows-enter cfg up (first cfg - to) rest full (arrows-NoEnter (first cfg - to)).0)
  | inr above ↦
      rw above
        (arrows-enter cfg down (to - first cfg) rest full (arrows-NoEnter (to - first cfg)).1)
]

-- Every item of the menu can be chosen: as many presses of Up, or of Down, as it lies above or below
-- the item at which the cursor starts, and then Enter, do what the item says.
pub show-reaches :
    (cfg : Config) (item : ℕ) (rest : List (Option Key))
    → item < total_items cfg
    → let first = min (default_entry_index cfg) (total_items cfg - 1) in
      Option.map outcome (show cfg (presses first item ++ some enter ∷ rest))
      ≡ some (some (confirm cfg item).0)
unfolding first
show-reaches cfg item rest h =
    presses-enter cfg item rest (λ empty. omega (arith, empty, h))
    ∙ ap (λ i. some (some (confirm cfg i).0)) (moves-presses (total_items cfg) (first cfg) item h)
