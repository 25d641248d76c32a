-- ===== src/Net/Mac.antt =====
-- `parse_mac` and `mac_to_string` of src/net.rs. A string is its characters, by code point, since
-- `trim` and `split` work on characters; `len` is the length in UTF-8.
pub mod RoundTrip
use alpheratz.Prelude.{
  ℕ, zero, suc, ◌+◌, ◌-◌, ◌*◌, ◌/◌, ◌%◌, List, [], ◌∷◌, ◌++◌, Option, none, some, Bool, true, false,
  ◌&&◌, ◌||◌, ltb, leb, ◌==◌, if◌then◌else◌, length, is_empty,
}
use alpheratz.Prelude.Fallible.{◌>>=◌}

abbrev pub Chars : Type 0
Chars = List ℕ

-- `char::is_whitespace`
unfoldable pub is_whitespace : ℕ → Bool
is_whitespace c =
    (leb 9 c && leb c 13)
    || c == 0x20
    || c == 0x85
    || c == 0xA0
    || c == 0x1680
    || (leb 0x2000 c && leb c 0x200A)
    || c == 0x2028
    || c == 0x2029
    || c == 0x202F
    || c == 0x205F
    || c == 0x3000

unfoldable pub trim_start : Chars → Chars
trim_start [] = []
trim_start (c ∷ cs) = let rest = trim_start cs in if is_whitespace c then rest else c ∷ cs

-- A blank is dropped where nothing is left behind it.
keep_unless_blank : ℕ → Chars → Chars
keep_unless_blank c [] = if is_whitespace c then [] else c ∷ []
keep_unless_blank c (d ∷ ds) = c ∷ d ∷ ds

unfoldable pub trim_end : Chars → Chars
unfolding keep_unless_blank
trim_end [] = []
trim_end (c ∷ cs) = keep_unless_blank c (trim_end cs)

unfoldable pub trim : Chars → Chars
trim s = trim_end (trim_start s)

unfoldable pub is_separator : ℕ → Bool
is_separator c = c == b':' || c == b'-'

-- One more character for the first part.
onto_first : ℕ → List Chars → List Chars
onto_first c [] = (c ∷ []) ∷ []
onto_first c (p ∷ ps) = (c ∷ p) ∷ ps

-- `s.split(|c| c == ':' || c == '-')`
unfoldable pub split : Chars → List Chars
unfolding onto_first
split [] = [] ∷ []
split (c ∷ cs) = let parts = split cs in if is_separator c then [] ∷ parts else onto_first c parts

-- `char::len_utf8`, and `str::len`
abbrev len_utf8 : ℕ → ℕ
len_utf8 c = if ltb c 0x80 then 1 else if ltb c 0x800 then 2 else if ltb c 0x10000 then 3 else 4

unfoldable pub len : Chars → ℕ
len [] = 0
len (c ∷ cs) = len_utf8 c + len cs

-- `char::to_digit(16)`
unfoldable pub to_digit : ℕ → Option ℕ
to_digit c =
    if leb b'0' c && leb c b'9'
    then some (c - b'0')
    else if leb b'a' c && leb c b'f'
    then some (c - b'a' + 10)
    else if leb b'A' c && leb c b'F'
    then some (c - b'A' + 10)
    else none

abbrev in_u8 : ℕ → Option ℕ
in_u8 n = if ltb n 256 then some n else none

-- The digits of a number, with the error of an overflow.
unfoldable pub from_digits : ℕ → Chars → Option ℕ
from_digits acc [] = some acc
from_digits acc (c ∷ cs) = do d ← to_digit c; n ← in_u8 (acc * 16 + d); from_digits n cs

-- `u8::from_str_radix(p, 16)`: a plus sign may stand before the digits.
unfoldable pub from_str_radix : Chars → Option ℕ
from_str_radix [] = none
from_str_radix (c ∷ []) = from_digits 0 (c ∷ [])
from_str_radix (c ∷ d ∷ cs) =
    if c == b'+' then from_digits 0 (d ∷ cs) else from_digits 0 (c ∷ d ∷ cs)

-- The loop over the parts.
unfoldable pub parse_parts : List Chars → Option (List ℕ)
parse_parts [] = some []
parse_parts (p ∷ ps) = do
  b ← if len p == 2 then from_str_radix p else none
  bs ← parse_parts ps
  some (b ∷ bs)

-- `[u8; 6]` is a list of six.
unfoldable pub parse_mac : Chars → Option (List ℕ)
parse_mac s =
    let s = trim s in
    if is_empty s then none else if length (split s) == 6 then parse_parts (split s) else none

-- A digit of `{:02X}`.
unfoldable pub upper_digit : ℕ → ℕ
upper_digit d = if ltb d 10 then b'0' + d else b'A' + (d - 10)

-- `if i > 0 { s.push(':') }`
colon : ℕ → Chars
colon zero = []
colon (suc i) = b':' ∷ []

-- The loop with its index: a colon before every byte but the first.
unfoldable pub format_from : ℕ → List ℕ → Chars
unfolding colon
format_from i [] = []
format_from i (b ∷ bs) =
    colon i ++ upper_digit (b / 16) ∷ upper_digit (b % 16) ∷ format_from (suc i) bs

unfoldable pub mac_to_string : List ℕ → Chars
mac_to_string mac = format_from 0 mac
