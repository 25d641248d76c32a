-- ===== src/Canicula/Totality.antt =====
-- The loops of src/boot/canicula/x86_64.rs on a readable file.
use alpheratz.Prelude.{
  ℕ, suc, ◌+◌, ◌≤◌, ◌≡◌, ◌≢◌, refl, List, [], ◌∷◌, none, some, Bool, true, false, arith, get_elem?,
  length, Str, if◌then◌else◌, ap, ◌∙◌,
}
use alpheratz.Prelude.Fallible.{>>=-intro, some_of_ne}
use alpheratz.Canicula.{ProgramHeader, Bytes}
use alpheratz.Canicula.Loader.{
  virtual_range, copy_nonoverlapping, load_segment, load_segments, widen,
}
use alpheratz.Canicula.Ranges.{Loads}

-- Every header's type is known, and what is loaded is in the file.
pub record IsReadable (kernel : Str) (phs : List ProgramHeader) : Type 0 where
  pub known : (i : ℕ) (ph : ProgramHeader) → get_elem? phs i ≡ some ph → ph.is_load ≢ none
  pub in_file :
      (i : ℕ) (ph : ProgramHeader) → Loads phs i ph → ph.offset + ph.file_size ≤ length kernel

IsReadable-tail :
    {kernel : Str} {ph : ProgramHeader} {phs : List ProgramHeader}
    → IsReadable kernel (ph ∷ phs)
    → IsReadable kernel phs
IsReadable-tail r = record { known = λ i. r.known (suc i); in_file = λ i. r.in_file (suc i) }

module _ (kernel : Str) where
  pub virtual_range-total :
      (phs : List ProgramHeader) (r : ℕ × ℕ)
      → IsReadable kernel phs
      → (range : ℕ × ℕ) × (virtual_range phs r ≡ some range)
  unfolding virtual_range
  virtual_range-total [] r ok = (r, refl)
  virtual_range-total (ph ∷ phs) r ok =
      let (load, e) = some_of_ne ph.is_load (ok.known 0 ph refl) in
      let r = if load then widen ph r else r in
      let (range, rest) = virtual_range-total phs r (IsReadable-tail ok) in
      (range, >>=-intro _ e rest)

  load_segment-total :
      (lo base : ℕ) (ph : ProgramHeader) (m : Bytes)
      → ph.offset + ph.file_size ≤ length kernel
      → load_segment kernel lo base ph m ≢ none
  unfolding load_segment copy_nonoverlapping
  load_segment-total lo base ph m h = ground arith

  round-total :
      (lo base : ℕ) (ph : ProgramHeader) (load : Bool) (m : Bytes)
      → (load ≡ true → ph.offset + ph.file_size ≤ length kernel)
      → (m' : Bytes) × ((if load then load_segment kernel lo base ph m else some m) ≡ some m')
  round-total lo base ph true m h = some_of_ne _ (load_segment-total lo base ph m (h refl))
  round-total lo base ph false m h = (m, refl)

  pub load_segments-total :
      (lo base : ℕ) (phs : List ProgramHeader) (m : Bytes)
      → IsReadable kernel phs
      → (m' : Bytes) × (load_segments kernel lo base phs m ≡ some m')
  unfolding load_segments
  load_segments-total lo base [] m ok = (m, refl)
  load_segments-total lo base (ph ∷ phs) m ok =
      let (load, e) = some_of_ne ph.is_load (ok.known 0 ph refl) in
      let (m1, first) =
        round-total lo base ph load m (λ h. ok.in_file 0 ph (refl, e ∙ ap some h)) in
      let (m', rest) = load_segments-total lo base phs m1 (IsReadable-tail ok) in
      (m', >>=-intro _ e (>>=-intro _ first rest))
