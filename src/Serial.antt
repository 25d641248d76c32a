-- ===== src/Serial.antt =====
-- src/serial.rs: the serial port is the sequence of bytes sent to it. The machine that the code
-- after `exit_boot_services` runs on has this port and the memory.
pub mod Hex
use mathlib.Core.List.{append-nil, append_assoc}
use alpheratz.Prelude.{ℕ, List, [], ◌∷◌, ◌++◌, ◌≡◌, refl, sym, ◌∙◌, arith, Str}
use alpheratz.Memory.{Memory}

pub record Machine : Type 0 where
  pub memory : Memory
  pub serial : List ℕ

unfoldable pub serial_byte : ℕ → Machine → Machine
serial_byte b s = record s { serial = s.serial ++ b ∷ [] }

unfoldable pub serial_str : Str → Machine → Machine
unfolding serial_byte
serial_str [] s = s
serial_str (b ∷ bs) s = serial_str bs (serial_byte b s)

-- Sending bytes leaves the memory alone.
pub memory-serial_str : (bs : Str) (s : Machine) → (serial_str bs s).memory ≡ s.memory
unfolding serial_str
memory-serial_str [] s = refl
memory-serial_str (b ∷ bs) s = memory-serial_str bs (serial_byte b s)

-- The bytes go out in order, after what was sent before.
pub serial-serial_str : (bs : Str) (s : Machine) → (serial_str bs s).serial ≡ s.serial ++ bs
unfolding serial_str
serial-serial_str [] s = sym (append-nil s.serial)
serial-serial_str (b ∷ bs) s =
    serial-serial_str bs (serial_byte b s) ∙ append_assoc s.serial (b ∷ []) bs

pub serial_str_lem :
    (bs : Str) (s : Machine) → serial_str bs s ≡ record s { serial = s.serial ++ bs }
serial_str_lem bs s = ground (arith, memory-serial_str bs s, serial-serial_str bs s)
