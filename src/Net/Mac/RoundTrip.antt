-- ===== src/Net/Mac/RoundTrip.antt =====
-- The round trip of MAC addresses through `mac_to_string` and `parse_mac` of src/net.rs.
use alpheratz.Prelude.{
  ℕ, zero, suc, ◌/◌, ◌%◌, ◌<◌, ◌≡◌, refl, ap, ◌∙◌, List, [], ◌∷◌, map, some, true, false, arith,
  ◌==◌, length,
}
use alpheratz.Net.Mac.{
  Chars, is_whitespace, trim_start, trim_end, trim, is_separator, split, len, to_digit, from_digits,
  from_str_radix, parse_parts, parse_mac, upper_digit, format_from, mac_to_string,
}

-- The bytes of an address.
abbrev pub AllBytes : List ℕ → Type 0
AllBytes [] = Unit
AllBytes (b ∷ bs) = (b < 256) × AllBytes bs

abbrev NoBlanks : Chars → Type 0
NoBlanks [] = Unit
NoBlanks (c ∷ cs) = (is_whitespace c ≡ false) × NoBlanks cs

trim_start-NoBlanks : (s : Chars) → NoBlanks s → trim_start s ≡ s
unfolding trim_start
trim_start-NoBlanks [] h = refl
trim_start-NoBlanks (c ∷ cs) h = ground (arith, h.0)

trim_end-NoBlanks : (s : Chars) → NoBlanks s → trim_end s ≡ s
unfolding trim_end
trim_end-NoBlanks [] h = refl
trim_end-NoBlanks (c ∷ []) h = ground (arith, h.0)
trim_end-NoBlanks (c ∷ d ∷ ds) h = rw (trim_end-NoBlanks (d ∷ ds) h.1)

module _ (d : ℕ) (h : d < 16) where
  upper_digit-is_whitespace : is_whitespace (upper_digit d) ≡ false
  unfolding is_whitespace upper_digit
  upper_digit-is_whitespace = ground arith

  upper_digit-is_separator : is_separator (upper_digit d) ≡ false
  unfolding is_separator upper_digit
  upper_digit-is_separator = ground arith

  to_digit-upper_digit : to_digit (upper_digit d) ≡ some d
  unfolding to_digit upper_digit
  to_digit-upper_digit = ground arith

  upper_digit-plus : (upper_digit d == b'+') ≡ false
  unfolding upper_digit
  upper_digit-plus = ground arith

-- The two digits of a byte.
abbrev octet : ℕ → Chars
octet b = upper_digit (b / 16) ∷ upper_digit (b % 16) ∷ []

octet-len : (b : ℕ) → b < 256 → len (octet b) ≡ 2
unfolding len upper_digit
octet-len b h = ground arith

from_str_radix-octet : (b : ℕ) → b < 256 → from_str_radix (octet b) ≡ some b
unfolding from_str_radix from_digits
from_str_radix-octet b h =
    ground (
      arith,
      upper_digit-plus (b / 16),
      to_digit-upper_digit (b / 16),
      to_digit-upper_digit (b % 16),
    )

parse_parts-octets : (bs : List ℕ) → AllBytes bs → parse_parts (map octet bs) ≡ some bs
unfolding parse_parts
parse_parts-octets [] h = refl
parse_parts-octets (b ∷ bs) h =
    ground (arith, octet-len b, from_str_radix-octet b, parse_parts-octets bs)

format_from-NoBlanks : (i : ℕ) (bs : List ℕ) → AllBytes bs → NoBlanks (format_from i bs)
unfolding format_from is_whitespace
format_from-NoBlanks i [] h = tt
format_from-NoBlanks zero (b ∷ bs) h = (
  upper_digit-is_whitespace (b / 16) (omega (arith, h.0)),
  (upper_digit-is_whitespace (b % 16) (omega arith), format_from-NoBlanks 1 bs h.1),
)
format_from-NoBlanks (suc i) (b ∷ bs) h = (
  refl,
  (
    upper_digit-is_whitespace (b / 16) (omega (arith, h.0)),
    (upper_digit-is_whitespace (b % 16) (omega arith), format_from-NoBlanks (suc (suc i)) bs h.1),
  ),
)

colon-is_separator : is_separator b':' ≡ true
unfolding is_separator
colon-is_separator = refl

-- The digits of a byte become a part, at every separator.
split-format_from :
    (i : ℕ) (bs : List ℕ) → AllBytes bs → split (format_from (suc i) bs) ≡ [] ∷ map octet bs
unfolding split format_from
split-format_from i [] h = refl
split-format_from i (b ∷ bs) h = ground (
  arith,
  colon-is_separator,
  split-format_from (suc i) bs,
  upper_digit-is_separator (b / 16),
  upper_digit-is_separator (b % 16),
)

split-octets :
    (b : ℕ) (bs : List ℕ) → AllBytes (b ∷ bs) → split (format_from 0 (b ∷ bs)) ≡ map octet (b ∷ bs)
unfolding split format_from
split-octets b bs h = ground (
  arith,
  split-format_from 0 bs,
  upper_digit-is_separator (b / 16),
  upper_digit-is_separator (b % 16),
)

length-octets : (bs : List ℕ) → length (map octet bs) ≡ length bs
length-octets [] = refl
length-octets (b ∷ bs) = ap suc (length-octets bs)

trim-format_from : (bs : List ℕ) → AllBytes bs → trim (format_from 0 bs) ≡ format_from 0 bs
unfolding trim
trim-format_from bs h =
    let no_blanks = format_from-NoBlanks 0 bs h in
    ap trim_end (trim_start-NoBlanks (format_from 0 bs) no_blanks)
    ∙ trim_end-NoBlanks (format_from 0 bs) no_blanks

-- The text that `mac_to_string` prints for an address is parsed as this address.
pub parse_mac-mac_to_string :
    (mac : List ℕ) → length mac ≡ 6 → AllBytes mac → parse_mac (mac_to_string mac) ≡ some mac
unfolding parse_mac mac_to_string format_from parse_parts
parse_mac-mac_to_string [] six h = absurd (omega arith)
parse_mac-mac_to_string (b ∷ bs) six h =
    rw (trim-format_from (b ∷ bs) h, split-octets b bs h, length-octets (b ∷ bs), six)
      (parse_parts-octets (b ∷ bs) h)
