-- ===== src/Serial/Hex.antt =====
-- `serial_hex` of src/serial.rs, and the number that its digits stand for.
use alpheratz.Prelude.{
  ℕ, zero, suc, ◌+◌, ◌-◌, ◌*◌, ◌/◌, ◌%◌, ◌^◌, ◌<◌, ◌≡◌, refl, ◌∙◌, ap, List, [], ◌∷◌, ◌++◌, Option,
  none, some, arith, bit_and, ltb, leb, ◌==◌, Bool, true, false, holds_upto, holds_upto-at, ◌&&◌,
  if◌then◌else◌, bytes, get_elem?, length, ◌>>>◌,
}
use native.Mathlib.Nat.{div-div-eq-div-mul}
use mathlib.Core.List.{append-nil, append_assoc}
use native.Mathlib.Numerals.{towards_suc}
use alpheratz.Prelude.Bits.{bit_and_mask}
use alpheratz.Prelude.Fallible.{◌>>=◌}
use alpheratz.Serial.{Machine, serial_byte, serial_str, serial_str_lem, memory-serial_str}

abbrev hex : List ℕ
hex = bytes "0123456789abcdef"

-- `HEX[i]`; out of bounds is a panic, `none`.
pub serial_digit : ℕ → ℕ → Machine → Option Machine
serial_digit val i s = do b ← get_elem? hex (bit_and (val >>> (i * 4)) 0xF); some (serial_byte b s)

-- `for i in (0..n).rev()`
pub serial_digits : ℕ → ℕ → Machine → Option Machine
unfolding serial_digit
serial_digits zero val s = some s
serial_digits (suc i) val s = do s ← serial_digit val i s; serial_digits i val s

unfoldable pub serial_hex : ℕ → Machine → Option Machine
unfolding serial_digits serial_str
serial_hex val s = serial_digits 16 val (serial_str (bytes "0x") s)

-- The digits that are sent: `digit` of each of the `i` lower groups of four bits, from the top.
digit : ℕ → ℕ
digit d = if ltb d 10 then b'0' + d else b'a' + (d - 10)

pub hex_digits : ℕ → ℕ → List ℕ
hex_digits zero val = []
hex_digits (suc i) val = digit (val >>> (i * 4) % 16) ∷ hex_digits i val

-- Reading hexadecimal digits, each as the character that it is.
abbrev pub digit_value : ℕ → ℕ
digit_value c = if leb b'0' c && leb c b'9' then c - b'0' else c - b'a' + 10

abbrev pub read_hex : ℕ → List ℕ → ℕ
read_hex acc [] = acc
read_hex acc (c ∷ cs) = read_hex (acc * 16 + digit_value c) cs

abbrev is_digit : ℕ → Bool
is_digit d = elim (get_elem? hex d) [ none ↦ false | some c ↦ c == digit d ]

hex_table : holds_upto is_digit 16 ≡ true
unfolding holds_upto digit
hex_table = refl

hex-digit : (d : ℕ) → d < 16 → get_elem? hex d ≡ some (digit d)
hex-digit d h = ground (arith, holds_upto-at is_digit 16 d hex_table h)

digit_value-digit : (d : ℕ) → d < 16 → digit_value (digit d) ≡ d
unfolding digit
digit_value-digit d h = ground arith

next_power : (i : ℕ) → 2 ^ (i * 4) * 16 ≡ 2 ^ (suc i * 4)
next_power i =
    let four_more : suc i * 4 ≡ i * 4 + 4 = omega arith in
    rw four_more (simp towards_suc (omega arith))

shift_step : (val i : ℕ) → val >>> (suc i * 4) * 16 + val >>> (i * 4) % 16 ≡ val >>> (i * 4)
shift_step val i =
    omega (arith, div-div-eq-div-mul val (2 ^ (i * 4)) 16, ap (λ (e : ℕ). val / e) (next_power i))

digit_step :
    (val i : ℕ)
    → val >>> (suc i * 4) * 16 + digit_value (digit (val >>> (i * 4) % 16)) ≡ val >>> (i * 4)
digit_step val i =
    ap (λ d. val >>> (suc i * 4) * 16 + d) (digit_value-digit (val >>> (i * 4) % 16) (omega arith))
    ∙ shift_step val i

read_hex-hex_digits : (i val : ℕ) → read_hex (val >>> (i * 4)) (hex_digits i val) ≡ val
unfolding hex_digits
read_hex-hex_digits zero val = omega arith
read_hex-hex_digits (suc i) val =
    ap (λ acc. read_hex acc (hex_digits i val)) (digit_step val i) ∙ read_hex-hex_digits i val

serial_digit_lem :
    (val i : ℕ) (s : Machine)
    → serial_digit val i s ≡ some (serial_byte (digit (val >>> (i * 4) % 16)) s)
unfolding serial_digit
serial_digit_lem val i s =
    let group = val >>> (i * 4) in rw (bit_and_mask 4 group, hex-digit (group % 16) (omega arith))

serial_digits-hex_digits :
    (i val : ℕ) (s : Machine)
    → serial_digits i val s ≡ some (record s { serial = s.serial ++ hex_digits i val })
unfolding serial_digits hex_digits serial_byte
serial_digits-hex_digits zero val s = rw append-nil
serial_digits-hex_digits (suc i) val s =
    ap (λ o. o >>= serial_digits i val) (serial_digit_lem val i s)
    ∙ serial_digits-hex_digits i val (serial_byte (digit (val >>> (i * 4) % 16)) s)
    ∙ ap (λ l. some (record s { serial = l })) (append_assoc s.serial (_ ∷ []) (hex_digits i val))

length-hex_digits : (i val : ℕ) → length (hex_digits i val) ≡ i
unfolding hex_digits
length-hex_digits zero val = refl
length-hex_digits (suc i) val = ap suc (length-hex_digits i val)

-- `serial_hex` sends "0x" and then 16 digits that stand for the value, leaves the memory alone, and
-- never indexes its digits out of bounds.
pub serial_hex-read_hex :
    (val : ℕ) (s : Machine)
    → val < 2 ^ 64
    → (digits : List ℕ) × (serial_hex val s
        ≡ some (record s { serial = s.serial ++ (bytes "0x" ++ digits) }))
      × (length digits ≡ 16)
      × (read_hex 0 digits ≡ val)
unfolding serial_hex
serial_hex-read_hex val s h = (
  hex_digits 16 val,
  serial_digits-hex_digits 16 val (serial_str (bytes "0x") s)
      ∙ ap (λ (t : Machine). some (record t { serial = t.serial ++ hex_digits 16 val }))
          (serial_str_lem (bytes "0x") s)
      ∙ ap (λ l. some (record s { serial = l }))
          (append_assoc s.serial (bytes "0x") (hex_digits 16 val)),
  length-hex_digits 16 val,
  ap (λ acc. read_hex acc (hex_digits 16 val)) none_above ∙ read_hex-hex_digits 16 val,
)
  where
    none_above : ◌≡◌ {A = ℕ} 0 (val >>> (16 * 4))
    none_above = omega arith

-- The bytes that `serial_hex` sends, for every value.
pub serial_hex_lem :
    (val : ℕ) (s : Machine) → (s' : Machine) × (serial_hex val s ≡ some s') × (s'.memory ≡ s.memory)
unfolding serial_hex
serial_hex_lem val s =
    let sent = serial_str (bytes "0x") s in
    (
      record sent { serial = sent.serial ++ hex_digits 16 val },
      serial_digits-hex_digits 16 val sent,
      memory-serial_str (bytes "0x") s,
    )
