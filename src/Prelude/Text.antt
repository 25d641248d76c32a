-- ===== src/Prelude/Text.antt =====
-- Rust's `&str` and `String` as the list of their bytes, and literals in that form.
use Prim.Native.Nat.{ℕ, ◌+◌, ◌*◌, ◌/◌, ◌%◌, ◌<◌}
use alpheratz.Prelude.Tests.{ltb, ◌==◌, if◌then◌else◌}
use mathlib.Core.Path.{◌≡◌, refl}
use native.Mathlib.Omega.{arith}
use Prim.Native.Char.{code}
use Prim.Native.String.{String}
use mathlib.Core.List.{List, [], ◌∷◌}

-- The bytes of a literal, all of them ASCII in this program.
abbrev pub bytes : String → List ℕ
bytes String.[] = []
bytes (String.◌∷◌ c s) = code c ∷ bytes s

abbrev pub Str : Type 0
Str = List ℕ

-- A `&str`'s characters, by code point, from its bytes in UTF-8: a byte from 0x80 to 0xBF goes on
-- with the character before it. `chars_from` holds that character.
add_byte : ℕ → ℕ → ℕ
add_byte c b = c * 64 + b % 64

lead : ℕ → ℕ
lead b =
    if ltb b 0x80 then b else if ltb b 0xE0 then b % 32 else if ltb b 0xF0 then b % 16 else b % 8

chars_from : ℕ → Str → List ℕ
unfolding add_byte lead
chars_from c [] = c ∷ []
chars_from c (b ∷ bs) =
    let goes_on = b / 64 == 2 in
    let rest = chars_from (if goes_on then add_byte c b else lead b) bs in
    if goes_on then rest else c ∷ rest

unfoldable pub chars : Str → List ℕ
unfolding chars_from lead
chars [] = []
chars (b ∷ bs) = chars_from (lead b) bs

abbrev pub IsAscii : Str → Type 0
IsAscii [] = Unit
IsAscii (b ∷ bs) = (b < 0x80) × IsAscii bs

chars_from-ascii : (c : ℕ) (s : Str) → IsAscii s → chars_from c s ≡ c ∷ s
unfolding chars_from lead
chars_from-ascii c [] h = refl
chars_from-ascii c (b ∷ bs) h = ground (arith, h.0, chars_from-ascii b bs)

-- ASCII text is its own characters.
pub chars-ascii : (s : Str) → IsAscii s → chars s ≡ s
unfolding chars lead
chars-ascii [] h = refl
chars-ascii (b ∷ bs) h = ground (arith, h.0, chars_from-ascii b bs)
