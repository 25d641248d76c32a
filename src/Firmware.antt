-- ===== src/Firmware.antt =====
-- `uefi::Status` and `uefi::Result`, as the loader's own code makes and matches them.
use alpheratz.Prelude.{ℕ, ◌≡◌, refl, ap, ◌∙◌, ◌⊎◌, inl, inr, Option, none, some, Bool, true, false}

-- The codes that the loader names, and the others by their number. `unfinished` is no code of the
-- firmware: it stands where a run is followed no further than into a loop that still goes on.
pub data Status : Type 0 where
  success not_found invalid_parameter buffer_too_small unsupported : Status
  other_status : ℕ → Status
  unfinished : Status

abbrev pub is_unfinished : Status → Bool
is_unfinished unfinished = true
is_unfinished _ = false

pub data Result {ℓ} (A : Type ℓ) : Type ℓ where
  ok : A → Result A
  err : Status → Result A

pub Result-cases {ℓ} :
    {A : Type ℓ} (r : Result A) → ((a : A) × (r ≡ ok a)) ⊎ ((e : Status) × (r ≡ err e))
Result-cases (ok a) = inl (a, refl)
Result-cases (err e) = inr (e, refl)

-- `?`
infixl 5 ◌then_◌
abbrev pub ◌then_◌ {ℓ κ} : {A : Type ℓ} {B : Type κ} → Result A → (A → Result B) → Result B
ok a then_ f = f a
err e then_ f = err e

-- `ok_or`
abbrev pub ok_or {ℓ} : {A : Type ℓ} → Option A → Status → Result A
ok_or none e = err e
ok_or (some a) e = ok a

pub then_assoc {ℓ κ μ} :
    {A : Type ℓ} {B : Type κ} {C : Type μ} (r : Result A) (f : A → Result B) (g : B → Result C)
    → ((r then_ f) then_ g) ≡ (r then_ λ a. f a then_ g)
then_assoc (ok a) f g = refl
then_assoc (err e) f g = refl

pub then_cong {ℓ κ} :
    {A : Type ℓ} {B : Type κ} (r : Result A) {f g : A → Result B}
    → ((a : A) → f a ≡ g a)
    → (r then_ f) ≡ (r then_ g)
then_cong (ok a) h = h a
then_cong (err e) h = refl

pub then_intro {ℓ κ} :
    {A : Type ℓ} {B : Type κ} {r : Result A} (f : A → Result B) {a : A} {c : Result B}
    → r ≡ ok a
    → f a ≡ c
    → (r then_ f) ≡ c
then_intro f e e' = ap (λ r. r then_ f) e ∙ e'

-- A success of a chain is a success of its first part and of the rest.
pub then_-eq-ok {ℓ κ} :
    {A : Type ℓ} {B : Type κ} (r : Result A) (f : A → Result B) {b : B}
    → (r then_ f) ≡ ok b
    → (a : A) × (r ≡ ok a) × (f a ≡ ok b)
then_-eq-ok (ok a) f h = (a, refl, h)
then_-eq-ok (err e) f h = cc

pub eq_of_ok {ℓ} : {A : Type ℓ} {a b : A} → ok a ≡ ok b → a ≡ b
eq_of_ok h = cc
