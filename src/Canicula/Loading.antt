-- ===== src/Canicula/Loading.antt =====
-- What the segment loader of src/boot/canicula/x86_64.rs leaves in memory.
use alpheratz.Prelude.{
  ℕ, zero, suc, ◌+◌, ◌-◌, ◌^◌, ◌≤◌, ◌<◌, ◌≡◌, ◌⊎◌, List, [], ◌∷◌, Option, some, Bool, arith, Str,
  ltb, if◌then◌else◌, Bool-cases,
}
use alpheratz.Prelude.Fallible.{>>=-eq-some, eq_of_some}
use alpheratz.Canicula.{ProgramHeader, Bytes}
use alpheratz.Canicula.Loader.{
  byte_at, copy_nonoverlapping, clear_bytes, load_segment, load_segments,
}
use alpheratz.Canicula.Ranges.{Loads, IsWellFormed, IsWellFormed-tail}

-- The specification of a segment: the bytes of the file, then zeros.
abbrev pub segment_byte : Str → ProgramHeader → ℕ → ℕ
segment_byte kernel ph o = if ltb o ph.file_size then byte_at kernel (ph.offset + o) else 0

module _ (kernel : Str) (lo hi base : ℕ) (room : base + (hi - lo) < 2 ^ 64) where
  -- The segment is in the range and no larger in the file than in memory.
  abbrev pub Fits : ProgramHeader → Type 0
  Fits ph =
      (lo ≤ ph.virtual_addr)
      × (ph.virtual_addr + ph.mem_size ≤ hi)
      × (hi < 2 ^ 64)
      × (ph.file_size ≤ ph.mem_size)

  abbrev pub place : ProgramHeader → ℕ
  place ph = base + (ph.virtual_addr - lo)

  load_segment-inside :
      (ph : ProgramHeader) (m : Bytes) {m' : Bytes} (o : ℕ)
      → Fits ph
      → load_segment kernel lo base ph m ≡ some m'
      → o < ph.mem_size
      → m' (place ph + o) ≡ segment_byte kernel ph o
  unfolding load_segment copy_nonoverlapping clear_bytes
  load_segment-inside ph m o fits e h = ground arith

  load_segment-outside :
      (ph : ProgramHeader) (m : Bytes) {m' : Bytes} (a : ℕ)
      → Fits ph
      → load_segment kernel lo base ph m ≡ some m'
      → (a < place ph) ⊎ (place ph + ph.mem_size ≤ a)
      → m' a ≡ m a
  unfolding load_segment copy_nonoverlapping clear_bytes
  load_segment-outside ph m a fits e h = ground arith

  abbrev pub AllFit : List ProgramHeader → Type 0
  AllFit phs = (i : ℕ) (ph : ProgramHeader) → Loads phs i ph → Fits ph

  -- One round of the loop, for a header of either kind.
  round : ProgramHeader → Bool → Bytes → Option Bytes
  round ph load m = if load then load_segment kernel lo base ph m else some m

  -- A whole loop is its first round and then the rest.
  first_round :
      (ph : ProgramHeader) (phs : List ProgramHeader) (m : Bytes) {m' : Bytes}
      → load_segments kernel lo base (ph ∷ phs) m ≡ some m'
      → (load : Bool) × (ph.is_load ≡ some load)
        × ((m1 : Bytes) × (round ph load m ≡ some m1)
            × (load_segments kernel lo base phs m1 ≡ some m'))
  unfolding load_segments round
  first_round ph phs m e =
      let (load, is_load, rest) = >>=-eq-some ph.is_load _ e in
      (load, is_load, >>=-eq-some (round ph load m) (load_segments kernel lo base phs) rest)

  -- Loading changes no byte outside the segments.
  pub load_segments-outside :
      (phs : List ProgramHeader) (m : Bytes) {m' : Bytes} (a : ℕ)
      → AllFit phs
      → load_segments kernel lo base phs m ≡ some m'
      → ((i : ℕ) (ph : ProgramHeader)
          → Loads phs i ph
          → (a < place ph) ⊎ (place ph + ph.mem_size ≤ a))
      → m' a ≡ m a
  unfolding load_segments round
  load_segments-outside [] m a fits e out = ground (arith, eq_of_some e)
  load_segments-outside (ph ∷ phs) m a fits e out =
      let (load, is_load, (m1, first, rest)) = first_round ph phs m e in
      let later = load_segments-outside phs m1 a (λ i. fits (suc i)) rest (λ i. out (suc i)) in
      ground
        (arith, later, load_segment-outside ph m {m' = m1} a, fits 0 ph, out 0 ph, Bool-cases load)

  -- Each byte of a loaded segment is the file's, or zero, after the whole loop: the segments that
  -- are loaded later do not reach it.
  pub load_segments-inside :
      (phs : List ProgramHeader) (m : Bytes) {m' : Bytes} (i : ℕ) (ph : ProgramHeader) (o : ℕ)
      → IsWellFormed phs
      → AllFit phs
      → load_segments kernel lo base phs m ≡ some m'
      → Loads phs i ph
      → o < ph.mem_size
      → m' (place ph + o) ≡ segment_byte kernel ph o
  unfolding round
  load_segments-inside [] m i ph o w fits e l h = cc (l.0)
  load_segments-inside (q ∷ phs) m zero ph o w fits e l h =
      let (load, is_load, (m1, first, rest)) = first_round q phs m e in
      let later =
        load_segments-outside phs m1 (place ph + o) (λ i. fits (suc i)) rest
          (λ i p there.
            ground (arith, w.apart 0 (suc i) ph p, fits 0 ph l, fits (suc i) p there)) in
      ground (
        arith,
        later,
        load_segment-inside ph m {m' = m1} o,
        fits 0 ph,
        Bool-cases load,
        eq_of_some l.0,
      )
  load_segments-inside (q ∷ phs) m (suc i) ph o w fits e l h =
      let (load, is_load, (m1, first, rest)) = first_round q phs m e in
      load_segments-inside phs m1 i ph o (IsWellFormed-tail w) (λ i. fits (suc i)) rest l h
