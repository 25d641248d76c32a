-- ===== src/Linux/Text.antt =====
-- The specification of `CStr16::from_str_with_buf`, which src/boot/linux.rs takes the command line
-- through: the code units of a UTF-8 text in UCS-2, one for each character.
use alpheratz.Prelude.{
  ℕ, zero, suc, ◌+◌, ◌-◌, ◌*◌, List, [], ◌∷◌, ◌++◌, Str, ltb, ◌==◌, if◌then◌else◌,
}

-- The bytes that a character still lacks, and its value so far, after one more byte.
read_byte : ℕ → ℕ → ℕ → ℕ × ℕ
read_byte zero value b =
    if ltb b 0x80
    then (0, b)
    else if ltb b 0xE0
    then (1, b - 0xC0)
    else if ltb b 0xF0
    then (2, b - 0xE0)
    else (3, b - 0xF0)
read_byte (suc lacking) value b = (lacking, value * 64 + (b - 0x80))

characters : ℕ → ℕ → Str → List ℕ
unfolding read_byte
characters lacking value [] = []
characters lacking value (b ∷ bs) =
    let (lacking, value) = read_byte lacking value b in
    let rest = characters lacking value bs in if lacking == 0 then value ∷ rest else rest

unfoldable pub code_units : Str → List ℕ
unfolding characters
code_units text = characters 0 0 text

-- A text with its NUL.
abbrev pub with_nul : Str → List ℕ
with_nul text = code_units text ++ 0 ∷ []
