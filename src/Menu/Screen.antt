-- ===== src/Menu/Screen.antt =====
-- `draw` and `draw_item` of src/menu.rs, as the calls that they make on the console.

use alpheratz.Prelude.{
  ℕ, zero, suc, ◌+◌, ◌-◌, ◌/◌, ◌%◌, List, [], ◌∷◌, ◌++◌, Option, none, some, Bool, true, false, not,
  ◌&&◌, ◌||◌, ltb, ◌==◌, if◌then◌else◌, length, replicate, is_empty, Str, bytes,
}
use alpheratz.Config.{Config, Entry}

pub data Color : Type 0 where
  white light_gray dark_gray black blue : Color

pub data Command : Type 0 where
  clear : Command
  enable_cursor : Bool → Command
  set_cursor_position : ℕ → ℕ → Command
  set_color : Color → Color → Command
  write : Str → Command

-- The characters of UTF-8 text: the bytes that do not continue one.
characters : Str → ℕ
characters [] = 0
characters (b ∷ bs) = let rest = characters bs in if b / 64 == 2 then rest else suc rest

-- `{:<66}`
pub pad : Str → Str
unfolding characters
pad label = label ++ replicate (66 - characters label) b' '

-- A number in decimal; `fuel` bounds its digits.
digits : ℕ → ℕ → Str → Str
digits zero n acc = acc
digits (suc fuel) n acc =
    let acc = (b'0' + n % 10) ∷ acc in
    let rest = digits fuel (n / 10) acc in if ltb n 10 then acc else rest

pub decimal : ℕ → Str
unfolding digits
decimal n = digits (suc n) n []

unfoldable pub draw_item : Bool → Str → List Command
draw_item true label =
    set_color Color.white Color.blue
    ∷ write (bytes "  > " ++ pad label ++ bytes "\n")
    ∷ set_color Color.white Color.black
    ∷ []
draw_item false label =
    set_color Color.light_gray Color.black ∷ write (bytes "    " ++ pad label ++ bytes "\n") ∷ []

-- The loop over `cfg.entry.iter().enumerate()`.
unfoldable pub draw_entries : ℕ → ℕ → List Entry → List Command
draw_entries i selected [] = []
draw_entries i selected (e ∷ es) =
    draw_item (i == selected) e.name ++ draw_entries (i + 1) selected es

unfoldable pub draw_countdown : Option ℕ → List Command
draw_countdown (some secs) =
    write (bytes "  Auto boot in " ++ decimal secs ++ bytes "s...                              \n")
    ∷ []
draw_countdown none = write (bytes "                                                   \n") ∷ []

pub firmware_label : Str
firmware_label = bytes "UEFI Firmware Settings"

pub shutdown_label : Str
shutdown_label = bytes "Shutdown"

-- The items, from the first entry to "Shutdown".
unfoldable pub draw_items : Config → ℕ → List Command
draw_items cfg selected =
    let row = length cfg.entry in
    let after_firmware = if cfg.firmware then row + 1 else row in
    draw_entries 0 selected cfg.entry
    ++ (if (cfg.firmware || cfg.shutdown) && not (is_empty cfg.entry)
        then write (bytes "\n") ∷ []
        else [])
    ++ (if cfg.firmware then draw_item (row == selected) firmware_label else [])
    ++ (if cfg.shutdown then draw_item (after_firmware == selected) shutdown_label else [])

unfoldable pub draw : Config → ℕ → Option ℕ → List Command
draw cfg selected timeout =
    set_cursor_position 0 0
    ∷ set_color Color.white Color.black
    ∷ write (bytes "\n")
    ∷ write (bytes "  Alpheratz Boot Loader\n")
    ∷ write (bytes "\n")
    ∷ (draw_items cfg selected
        ++ set_color Color.light_gray Color.black
          ∷ write (bytes "\n")
          ∷ (draw_countdown timeout
              ++ set_color Color.dark_gray Color.black
                ∷ write (bytes "\n  Up/Down to select, Enter to boot\n")
                ∷ set_color Color.white Color.black
                ∷ []))
