-- ===== src/FsUtil/Names.antt =====
-- Which files of a directory src/fsutil.rs takes for drivers.
use alpheratz.Prelude.{
  ℕ, ◌+◌, ◌≡◌, refl, ap, sym, ◌∙◌, ◌⊎◌, inl, inr, [], ◌∷◌, ◌++◌, true, false, arith, bytes, Str,
  ◌||◌, Bool-cases,
}
use alpheratz.FsUtil.{DirEntry, str_eq, ends_with, to_ascii_lowercase, lower, efi, is_driver}

-- A letter in either case, given as a capital.
abbrev pub IsLetter : ℕ → ℕ → Type 0
IsLetter capital b = (b ≡ capital) ⊎ (b ≡ capital + 32)

-- The specification: anything and then ".efi", in any case,
abbrev pub IsEfiName : Str → Type 0
IsEfiName name =
    (stem : Str) × ((e : ℕ) × ((f : ℕ) × ((i : ℕ) × (name ≡ stem ++ b'.' ∷ e ∷ f ∷ i ∷ [])
          × IsLetter b'E' e
          × IsLetter b'F' f
          × IsLetter b'I' i)))

-- as the name of something other than a directory.
abbrev pub IsDriverFile : DirEntry → Type 0
IsDriverFile entry = (entry.is_directory ≡ false) × IsEfiName entry.name

ends_with-append :
    (suffix before s : Str) → ends_with suffix s ≡ true → ends_with suffix (before ++ s) ≡ true
unfolding ends_with
ends_with-append suffix [] s h = h
ends_with-append suffix (b ∷ bs) s h = ground (arith, ends_with-append suffix bs s h)

to_ascii_lowercase-append :
    (s t : Str) → to_ascii_lowercase (s ++ t) ≡ to_ascii_lowercase s ++ to_ascii_lowercase t
to_ascii_lowercase-append [] t = refl
to_ascii_lowercase-append (b ∷ s) t = ap (λ r. lower b ∷ r) (to_ascii_lowercase-append s t)

str_eq-eq : (s t : Str) → str_eq s t ≡ true → s ≡ t
unfolding str_eq
str_eq-eq [] [] h = refl
str_eq-eq [] (b ∷ t) h = cc (h)
str_eq-eq (a ∷ s) [] h = cc (h)
str_eq-eq (a ∷ s) (b ∷ t) h = ground (arith, str_eq-eq s t)

lowered :
    (e f i : ℕ)
    → IsLetter b'E' e
    → IsLetter b'F' f
    → IsLetter b'I' i
    → to_ascii_lowercase (b'.' ∷ e ∷ f ∷ i ∷ []) ≡ efi
lowered e f i he hf hi =
    let e' : lower e ≡ b'e' = ground arith in
    let f' : lower f ≡ b'f' = ground arith in
    let i' : lower i ≡ b'i' = ground arith in cc (e', f', i')

no_dots :
    (stem : Str) (e f i : ℕ)
    → (str_eq (stem ++ b'.' ∷ e ∷ f ∷ i ∷ []) (bytes ".")
        || str_eq (stem ++ b'.' ∷ e ∷ f ∷ i ∷ []) (bytes ".."))
      ≡ false
unfolding str_eq
no_dots [] e f i = ground arith
no_dots (a ∷ []) e f i = ground arith
no_dots (a ∷ b ∷ []) e f i = ground arith
no_dots (a ∷ b ∷ c ∷ stem) e f i = ground arith

ends_with-split :
    (suffix s : Str) → ends_with suffix s ≡ true → (before : Str) × (s ≡ before ++ suffix)
unfolding ends_with
ends_with-split suffix [] h = ([], sym (str_eq-eq suffix [] h))
ends_with-split suffix (b ∷ bs) h = elim (Bool-cases (str_eq suffix (b ∷ bs))) [
  | inl here ↦ ([], sym (str_eq-eq suffix (b ∷ bs) here))
  | inr later ↦
      let (before, e) = ends_with-split suffix bs (ground (arith, h, later)) in
      (b ∷ before, ap (λ s. b ∷ s) e)
]

raised : (name before : Str) → to_ascii_lowercase name ≡ before ++ efi → IsEfiName name
raised [] [] h = cc (h)
raised [] (b ∷ bs) h = cc (h)
raised (c ∷ name) (b ∷ before) h =
    let (stem, (e, (f, (i, split, he, hf, hi)))) = raised name before (cc (h)) in
    (c ∷ stem, (e, (f, (i, ap (λ s. c ∷ s) split, he, hf, hi))))
raised (d ∷ []) [] h = cc (h)
raised (d ∷ e ∷ []) [] h = cc (h)
raised (d ∷ e ∷ f ∷ []) [] h = cc (h)
raised (d ∷ e ∷ f ∷ i ∷ []) [] h =
    let d' : lower d ≡ b'.' = cc (h) in
    let e' : lower e ≡ b'e' = cc (h) in
    let f' : lower f ≡ b'f' = cc (h) in
    let i' : lower i ≡ b'i' = cc (h) in
    let dot : d ≡ b'.' = ground arith in
    ([], (e, (f, (i, ap (λ d. d ∷ e ∷ f ∷ i ∷ []) dot, ground arith, ground arith, ground arith))))
raised (d ∷ e ∷ f ∷ i ∷ j ∷ name) [] h = cc (h)

-- The tests of the loop accept just those.
pub is_driver-IsDriverFile : (entry : DirEntry) → is_driver entry ≡ true → IsDriverFile entry
unfolding is_driver
is_driver-IsDriverFile entry h =
    let (before, e) = ends_with-split efi (to_ascii_lowercase entry.name) (ground arith) in
    (ground arith, raised entry.name before e)

pub IsDriverFile-is_driver : (entry : DirEntry) → IsDriverFile entry → is_driver entry ≡ true
unfolding is_driver
IsDriverFile-is_driver entry (is_file, (stem, (e, (f, (i, split, he, hf, hi))))) =
    let ext = b'.' ∷ e ∷ f ∷ i ∷ [] in
    let driver : ends_with efi (to_ascii_lowercase (stem ++ ext)) ≡ true =
      ap (ends_with efi) (
        to_ascii_lowercase-append stem ext
        ∙ ap (λ t. to_ascii_lowercase stem ++ t) (lowered e f i he hf hi))
      ∙ ends_with-append efi (to_ascii_lowercase stem) efi (unfold ends_with str_eq in refl) in
    rw (is_file, split, no_dots stem e f i) driver
