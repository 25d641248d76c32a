-- ===== src/Menu.antt =====
-- src/menu.rs: the boot menu. Each round of the loop of `show` waits 100 ms and reads the keyboard
-- once, so a run is a list of readings; the calls on the console are kept in order.
mod Screen
pub mod Invariant
pub mod Items
pub mod Safety
pub mod Timing
pub mod Cursor
pub mod Keys
pub mod Reach
pub mod Shown
pub mod Marks
pub mod Highlight
pub use Screen.{Color, Command, draw}
use alpheratz.Prelude.{
  ℕ, ◌+◌, ◌-◌, List, [], ◌∷◌, ◌++◌, Option, none, some, Bool, true, false, ◌&&◌, ltb, leb, ◌==◌,
  if◌then◌else◌, length, get_elem?, min, bytes, Str, bit_or,
}
use Screen.{clear, enable_cursor, set_color, write}
use alpheratz.Config.{Config, Entry, default_entry_index}

pub data Selection : Type 0 where
  entry : ℕ → Selection
  firmware shutdown : Selection

-- `bool as usize`
abbrev pub as_usize : Bool → ℕ
as_usize true = 1
as_usize false = 0

-- The number of entries is a `Vec`'s length, so far below 2 ^ 64 that the sum does not wrap.
unfoldable pub total_items : Config → ℕ
total_items cfg = length cfg.entry + as_usize cfg.firmware + as_usize cfg.shutdown

unfoldable pub index_to_selection : Config → ℕ → Selection
index_to_selection cfg idx =
    if ltb idx (length cfg.entry)
    then Selection.entry idx
    else let extra = idx - length cfg.entry in
      if cfg.firmware && (extra == 0) then Selection.firmware else Selection.shutdown

pub data ResetType : Type 0 where
  cold shutdown : ResetType

-- A firmware variable as `set_variable` is given it.
pub record Variable : Type 0 where
  pub name : Str
  pub attributes : ℕ
  pub value : List ℕ

-- What `show` comes to. `boots` is its return value; `resets` sets some variables and does not
-- return, and `panics` is an index out of bounds.
pub data Outcome : Type 0 where
  boots : ℕ → Outcome
  resets : ResetType → List Variable → Outcome
  panics : Outcome

-- `NON_VOLATILE | BOOTSERVICE_ACCESS | RUNTIME_ACCESS`
abbrev attributes : ℕ
attributes = bit_or (bit_or 1 2) 4

-- `1u64.to_le_bytes()`
abbrev boot_to_fw_ui : List ℕ
boot_to_fw_ui = 1 ∷ 0 ∷ 0 ∷ 0 ∷ 0 ∷ 0 ∷ 0 ∷ 0 ∷ []

unfoldable pub reboot_to_firmware : Outcome
reboot_to_firmware =
    resets ResetType.cold
      (record { name = bytes "OsIndications"; attributes = attributes; value = boot_to_fw_ui } ∷ [])

abbrev pub Console : Type 0
Console = List Command

boot_if_there : Option Entry → ℕ → Outcome × Console
boot_if_there (some e) idx = (
  boots idx,
  set_color Color.white Color.black
      ∷ clear
      ∷ write (bytes "Booting " ++ e.name ++ bytes "...\n")
      ∷ [],
)
boot_if_there none idx = (panics, [])

act_on : Config → Selection → Outcome × Console
act_on cfg (Selection.entry idx) = boot_if_there (get_elem? cfg.entry idx) idx
act_on cfg Selection.firmware = (reboot_to_firmware, [])
act_on cfg Selection.shutdown = (resets ResetType.shutdown [], [])

-- The outcome, and what is written on the way.
unfoldable pub confirm : Config → ℕ → Outcome × Console
unfolding act_on boot_if_there
confirm cfg selected = act_on cfg (index_to_selection cfg selected)

pub data Key : Type 0 where
  up down : Key
  printable : ℕ → Key
  other : Key

pub record Menu : Type 0 where
  pub selected : ℕ
  pub timeout : Option ℕ
  pub tick_count : ℕ
  pub console : List Command

pub data Progress : Type 0 where
  waits : Menu → Progress
  ends : Outcome → Menu → Progress

-- `draw(cfg, selected, timeout)`
drawn : Config → Menu → Menu
drawn cfg m = record m { console = m.console ++ draw cfg m.selected m.timeout }

confirmed : Config → Menu → Progress
confirmed cfg m =
    let (o, written) = confirm cfg m.selected in
    ends o (record m { console = m.console ++ written })

-- The `match key`: Enter returns.
react : Config → ℕ → Menu → Key → Progress
react cfg total m up =
    waits (if ltb 0 m.selected then record m { selected = m.selected - 1 } else m)
react cfg total m down =
    waits (if ltb m.selected (total - 1) then record m { selected = m.selected + 1 } else m)
react cfg total m (printable c) = if c == 0x000D then confirmed cfg m else waits m
react cfg total m other = waits m

redraw : Config → Progress → Progress
redraw cfg (waits m) = waits (drawn cfg m)
redraw cfg (ends o m) = ends o m

-- `if let Ok(Some(key)) = key { … }`: a failed or empty reading does nothing.
read_key : Config → ℕ → Menu → Option Key → Progress
read_key cfg total m none = waits m
read_key cfg total m (some key) = redraw cfg (react cfg total (record m { timeout = none }) key)

-- The countdown, at every tenth round.
count_down : Config → Menu → Option ℕ → Progress
count_down cfg m none = waits m
count_down cfg m (some t) =
    if t == 0 then confirmed cfg m else waits (drawn cfg (record m { timeout = some (t - 1) }))

tick : Config → Progress → Progress
tick cfg (ends o m) = ends o m
tick cfg (waits m) =
    let m = record m { tick_count = m.tick_count + 1 } in
    if leb 10 m.tick_count then count_down cfg (record m { tick_count = 0 }) m.timeout else waits m

-- One round of the loop.
unfoldable pub round : Config → ℕ → Menu → Option Key → Progress
unfolding drawn confirmed react redraw read_key count_down tick
round cfg total m key = tick cfg (read_key cfg total m key)

unfoldable pub continue : Config → ℕ → List (Option Key) → Progress → Progress
continue cfg total [] p = p
continue cfg total (k ∷ ks) (ends o m) = ends o m
continue cfg total (k ∷ ks) (waits m) = continue cfg total ks (round cfg total m k)

unfoldable pub run : Config → ℕ → Menu → List (Option Key) → Progress
run cfg total m keys = continue cfg total keys (waits m)

-- The state in which the loop starts, with the first frame drawn.
unfoldable pub start : Config → Menu
unfolding drawn
start cfg = drawn cfg (record {
  selected = min (default_entry_index cfg) (total_items cfg - 1);
  timeout = if ltb 0 cfg.timeout then some cfg.timeout else none;
  tick_count = 0;
  console = clear ∷ enable_cursor false ∷ [];
})

-- `none` is the loop without end of an empty menu.
unfoldable pub show : Config → List (Option Key) → Option Progress
unfolding run start
show cfg keys =
    if total_items cfg == 0 then none else some (run cfg (total_items cfg) (start cfg) keys)
