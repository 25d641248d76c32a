-- ===== src/Tests/Ports.antt =====
-- Tests of src/serial.rs.
use alpheratz.Prelude.{◌≡◌, refl, List, ◌++◌, some, arith, bytes, length, ℕ}
use mathlib.Core.Option
use alpheratz.Serial.{Machine}
use alpheratz.Serial.Hex.{serial_hex, read_hex, serial_hex-read_hex}

abbrev machine : Machine
machine = record { memory = λ a. a; serial = bytes "at " }

serial_hex_text :
    Option.map (λ (s : Machine). s.serial) (serial_hex 0xCAFE_0123 machine)
    ≡ some (bytes "at 0x00000000cafe0123")
unfolding serial_hex
serial_hex_text = refl

serial_hex-read_hex_example :
    (digits : List ℕ) × (serial_hex 0xCAFE_0123 machine
      ≡ some (record machine { serial = bytes "at " ++ (bytes "0x" ++ digits) }))
    × (length digits ≡ 16)
    × (read_hex 0 digits ≡ 0xCAFE_0123)
serial_hex-read_hex_example = serial_hex-read_hex 0xCAFE_0123 machine (omega arith)
