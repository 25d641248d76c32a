-- ===== src/Download/Expansion.antt =====
-- `expand_vars` of src/download.rs: what it makes of a text with any number of variables.
use alpheratz.Prelude.{
  ℕ, ◌≡◌, ◌≢◌, refl, ap, ◌∙◌, inl, inr, List, [], ◌∷◌, ◌++◌, true, false, arith, Str, bytes,
  Bool-cases,
}
use alpheratz.Download.Text.{arch_variable, starts_with, contains, replace, expand_vars}

abbrev pub NoDollar : Str → Type 0
NoDollar [] = Unit
NoDollar (b ∷ bs) = (b ≢ b'$') × NoDollar bs

-- A pattern without a dollar sign does not match across one.
starts_with-dollar :
    (pattern s rest : Str)
    → NoDollar pattern
    → starts_with pattern (s ++ b'$' ∷ rest) ≡ starts_with pattern s
unfolding starts_with
starts_with-dollar [] s rest h = refl
starts_with-dollar (p ∷ ps) [] rest h = ground (arith, h.0)
starts_with-dollar (p ∷ ps) (b ∷ bs) rest h = ground (arith, starts_with-dollar ps bs rest h.1)

abbrev name_part : Str
name_part = bytes "{arch}"

name_part-NoDollar : NoDollar name_part
name_part-NoDollar = omega arith

-- The variable has one dollar sign, its first byte.
variable-dollar :
    (b : ℕ) (bs rest : Str)
    → starts_with arch_variable (b ∷ bs) ≡ false
    → starts_with arch_variable ((b ∷ bs) ++ b'$' ∷ rest) ≡ false
unfolding starts_with
variable-dollar b bs rest h = rw (starts_with-dollar name_part bs rest name_part-NoDollar) h

-- Text in which the variable does not occur.
abbrev pub IsFree : Str → Type 0
IsFree s = contains arch_variable s ≡ false

IsFree-head :
    (b : ℕ) (bs : Str) → IsFree (b ∷ bs) → (starts_with arch_variable (b ∷ bs) ≡ false) × IsFree bs
unfolding contains
IsFree-head b bs h = elim (Bool-cases (starts_with arch_variable (b ∷ bs))) [
  | inl found ↦ absurd (cc (rw found at h))
  | inr other ↦ (other, rw other at h)
]

replace-IsFree : (name s : Str) → IsFree s → replace 0 name s ≡ s
unfolding replace
replace-IsFree name [] h = refl
replace-IsFree name (b ∷ bs) h =
    let (here, later) = IsFree-head b bs h in
    rw here (ap (λ r. b ∷ r) (replace-IsFree name bs later))

replace-arch_variable :
    (name before rest : Str)
    → IsFree before
    → replace 0 name (before ++ (arch_variable ++ rest)) ≡ before ++ (name ++ replace 0 name rest)
unfolding replace
replace-arch_variable name [] rest h = unfold starts_with in refl
replace-arch_variable name (b ∷ bs) rest h =
    let (here, later) = IsFree-head b bs h in
    rw (variable-dollar b bs (name_part ++ rest) here)
      (ap (λ r. b ∷ r) (replace-arch_variable name bs rest later))

contains-arch_variable :
    (before rest : Str) → contains arch_variable (before ++ (arch_variable ++ rest)) ≡ true
unfolding contains starts_with
contains-arch_variable [] rest = refl
contains-arch_variable (b ∷ bs) rest = ground (arith, contains-arch_variable bs rest)

-- Pieces of text with something between each two.
abbrev pub joined_by : Str → Str → List Str → Str
joined_by between first [] = first
joined_by between first (s ∷ ss) = first ++ (between ++ joined_by between s ss)

abbrev pub AllFree : List Str → Type 0
AllFree [] = Unit
AllFree (s ∷ ss) = IsFree s × AllFree ss

replace-joined_by :
    (name first : Str) (pieces : List Str)
    → AllFree (first ∷ pieces)
    → replace 0 name (joined_by arch_variable first pieces) ≡ joined_by name first pieces
replace-joined_by name first [] h = replace-IsFree name first h.0
replace-joined_by name first (s ∷ ss) h =
    replace-arch_variable name first (joined_by arch_variable s ss) h.0
    ∙ ap (λ r. first ++ (name ++ r)) (replace-joined_by name s ss h.1)

-- The architecture's name takes the place of every variable of a text, however many it has, and what
-- stands between them stays as it is.
pub expand_vars-joined_by :
    (arch_name first : Str) (pieces : List Str)
    → AllFree (first ∷ pieces)
    → expand_vars arch_name (joined_by arch_variable first pieces)
      ≡ joined_by arch_name first pieces
unfolding expand_vars
expand_vars-joined_by name first [] h = rw h.0 refl
expand_vars-joined_by name first (s ∷ ss) h =
    rw (contains-arch_variable first (joined_by arch_variable s ss))
      (replace-joined_by name first (s ∷ ss) h)
