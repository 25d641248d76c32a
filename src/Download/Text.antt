-- ===== src/Download/Text.antt =====
-- The text of src/download.rs: `expand_vars`, and what a command line's bytes must be.
use alpheratz.Prelude.{
  ℕ, zero, suc, ◌-◌, [], ◌∷◌, ◌++◌, Bool, true, false, ◌&&◌, ◌==◌, leb, ltb, if◌then◌else◌, Option,
  none, some, bytes, Str,
}

abbrev pub arch_variable : Str
arch_variable = bytes "${arch}"

-- Whether the text starts with `pattern`.
unfoldable pub starts_with : Str → Str → Bool
starts_with [] s = true
starts_with (p ∷ ps) [] = false
starts_with (p ∷ ps) (b ∷ bs) = (p == b) && starts_with ps bs

unfoldable pub contains : Str → Str → Bool
contains pattern [] = starts_with pattern []
contains pattern (b ∷ bs) =
    let rest = contains pattern bs in if starts_with pattern (b ∷ bs) then true else rest

-- `str::replace` for "${arch}": `skip` counts the bytes of a match that are still to be passed.
unfoldable pub replace : ℕ → Str → Str → Str
replace skip name [] = []
replace (suc skip) name (b ∷ bs) = replace skip name bs
replace zero name (b ∷ bs) =
    let found = starts_with arch_variable (b ∷ bs) in
    let rest = replace (if found then 6 else 0) name bs in (if found then name else b ∷ []) ++ rest

-- `expand_vars`, where `arch_name()` is the first argument.
unfoldable pub expand_vars : Str → Str → Str
expand_vars arch_name s = if contains arch_variable s then replace 0 arch_name s else s

-- `core::str::from_utf8`: `need` bytes are to come, the next of them from `lo` to `hi`.
pub record Utf8 : Type 0 where
  pub need : ℕ
  pub lo : ℕ
  pub hi : ℕ

expect : ℕ → ℕ → ℕ → Option Utf8
expect need lo hi = some (record { need = need; lo = lo; hi = hi })

first_byte : ℕ → Option Utf8
first_byte b =
    if ltb b 0x80
    then expect 0 0x80 0xBF
    else if leb 0xC2 b && leb b 0xDF
    then expect 1 0x80 0xBF
    else if b == 0xE0
    then expect 2 0xA0 0xBF
    else if b == 0xED
    then expect 2 0x80 0x9F
    else if leb 0xE1 b && leb b 0xEF
    then expect 2 0x80 0xBF
    else if b == 0xF0
    then expect 3 0x90 0xBF
    else if leb 0xF1 b && leb b 0xF3
    then expect 3 0x80 0xBF
    else if b == 0xF4
    then expect 3 0x80 0x8F
    else none

utf8_step : Option Utf8 → ℕ → Option Utf8
utf8_step none b = none
utf8_step (some s) b =
    if s.need == 0
    then first_byte b
    else if leb s.lo b && leb b s.hi
    then expect (s.need - 1) 0x80 0xBF
    else none

utf8_end : Option Utf8 → Bool
utf8_end none = false
utf8_end (some s) = s.need == 0

utf8_from : Option Utf8 → Str → Bool
utf8_from s [] = utf8_end s
utf8_from s (b ∷ bs) = utf8_from (utf8_step s b) bs

unfoldable pub is_utf8 : Str → Bool
unfolding utf8_from utf8_step utf8_end first_byte expect
is_utf8 s = utf8_from (expect 0 0x80 0xBF) s

-- `s.trim_end_matches('\n')`
keep_unless_newline : ℕ → Str → Str
keep_unless_newline b [] = if b == b'\n' then [] else b ∷ []
keep_unless_newline b (c ∷ cs) = b ∷ c ∷ cs

unfoldable pub trim_end_newlines : Str → Str
unfolding keep_unless_newline
trim_end_newlines [] = []
trim_end_newlines (b ∷ bs) = keep_unless_newline b (trim_end_newlines bs)
