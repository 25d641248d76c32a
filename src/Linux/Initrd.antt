-- ===== src/Linux/Initrd.antt =====
-- The LoadFile2 protocol of src/boot/linux.rs, as the EFI stub of the kernel calls it.
use alpheratz.Prelude.{
  ℕ, zero, suc, ◌+◌, ◌≤◌, ◌≡◌, ◌≢◌, refl, ◌∙◌, List, [], ◌∷◌, ◌++◌, Option, none, some, arith,
  length, length-append, drop, Str, Bool-cases, inl, inr, ◌==◌, ltb,
}
use mathlib.Core.List.{append-nil}
use alpheratz.Firmware.{Status}
use alpheratz.Linux.{initrd_load_file}

drop-all {ℓ} : {A : Type ℓ} (n : ℕ) (xs : List A) → length xs ≤ n → drop n xs ≡ []
drop-all zero [] h = refl
drop-all zero (x ∷ xs) h = absurd (omega arith)
drop-all (suc n) [] h = refl
drop-all (suc n) (x ∷ xs) h = drop-all n xs (omega arith)

length-drop {ℓ} :
    {A : Type ℓ} (n : ℕ) (xs : List A) → n ≤ length xs → n + length (drop n xs) ≡ length xs
length-drop zero xs h = omega arith
length-drop (suc n) [] h = absurd (omega arith)
length-drop (suc n) (x ∷ xs) h = omega (arith, length-drop n xs (omega arith))

-- A caller that first asks for the size, with a null buffer and whatever size, and then calls with
-- a buffer of the size that it is told, gets the whole initrd and nothing else in it.
pub initrd_load_file-whole :
    (initrd : Str) (size : ℕ) (buffer : List ℕ)
    → length initrd ≢ 0
    → length buffer ≡ (initrd_load_file (some initrd) none size).buffer_size
    → ((initrd_load_file (some initrd) none size).status ≡ Status.buffer_too_small)
      × (initrd_load_file (some initrd) (some buffer) (length buffer)
          ≡ record { status = Status.success; buffer = some initrd; buffer_size = length initrd })
unfolding initrd_load_file
initrd_load_file-whole initrd size buffer some_bytes told =
    ground (arith, drop-all (length initrd) buffer, append-nil initrd)

-- Whatever the initrd is, a call with a buffer of so many bytes leaves a buffer of so many bytes:
-- nothing is written past its end.
pub initrd_load_file-length :
    (initrd : Option Str) (buffer : List ℕ) (size : ℕ)
    → size ≤ length buffer
    → (after : List ℕ) × ((initrd_load_file initrd (some buffer) size).buffer ≡ some after)
      × (length after ≡ length buffer)
unfolding initrd_load_file
initrd_load_file-length none buffer size h = (buffer, refl, refl)
initrd_load_file-length (some initrd) buffer size h =
    let kept : length initrd ≤ length buffer
        → length (initrd ++ drop (length initrd) buffer) ≡ length buffer =
      λ fits.
        length-append initrd (drop (length initrd) buffer)
        ∙ length-drop (length initrd) buffer fits in
    elim (Bool-cases (length initrd == 0)) [
      | inl empty ↦ (buffer, ground arith, refl)
      | inr full ↦ elim (Bool-cases (ltb size (length initrd))) [
        | inl small ↦ (buffer, ground arith, refl)
        | inr large ↦
            (initrd ++ drop (length initrd) buffer, ground arith, kept (ground (arith, large)))
      ]
    ]
