-- ===== src/Canicula/Ranges.antt =====
-- The range that src/boot/canicula/x86_64.rs computes, and the segments that are loaded.
use alpheratz.Prelude.{
  ℕ, zero, suc, ◌+◌, ◌^◌, ◌≤◌, ◌<◌, ◌≡◌, ◌≢◌, ◌⊎◌, List, [], ◌∷◌, some, true, arith, get_elem?,
  Bool-cases,
}
use alpheratz.Prelude.Fallible.{>>=-eq-some, eq_of_some}
use alpheratz.Canicula.{ProgramHeader}
use alpheratz.Canicula.Loader.{widen, virtual_range}

-- `ph` is loaded, and stands at place `i` of the program headers.
abbrev pub Loads : List ProgramHeader → ℕ → ProgramHeader → Type 0
Loads phs i ph = (get_elem? phs i ≡ some ph) × (ph.is_load ≡ some true)

-- Two segments share no virtual address.
abbrev pub Apart : ProgramHeader → ProgramHeader → Type 0
Apart p q =
    (p.virtual_addr + p.mem_size ≤ q.virtual_addr) ⊎ (q.virtual_addr + q.mem_size ≤ p.virtual_addr)

-- The loaded segments of an executable that follows the ELF format.
pub record IsWellFormed (phs : List ProgramHeader) : Type 0 where
  pub file_size_le : (i : ℕ) (ph : ProgramHeader) → Loads phs i ph → ph.file_size ≤ ph.mem_size
  pub end_lt :
      (i : ℕ) (ph : ProgramHeader) → Loads phs i ph → ph.virtual_addr + ph.mem_size < 2 ^ 64
  pub apart : (i j : ℕ) (p q : ProgramHeader) → i ≢ j → Loads phs i p → Loads phs j q → Apart p q

pub IsWellFormed-tail :
    {ph : ProgramHeader} {phs : List ProgramHeader} → IsWellFormed (ph ∷ phs) → IsWellFormed phs
IsWellFormed-tail w = record {
  file_size_le = λ i. w.file_size_le (suc i);
  end_lt = λ i. w.end_lt (suc i);
  apart = λ i j p q ne. w.apart (suc i) (suc j) p q (omega arith);
}

-- A range within another.
abbrev Within : ℕ × ℕ → ℕ × ℕ → Type 0
Within (lo, hi) (lo', hi') = (lo' ≤ lo) × (hi ≤ hi')

widen-Within :
    (ph : ProgramHeader) (r : ℕ × ℕ)
    → ph.virtual_addr + ph.mem_size < 2 ^ 64
    → Within r (widen ph r) × Within (ph.virtual_addr, ph.virtual_addr + ph.mem_size) (widen ph r)
unfolding widen
widen-Within ph r h = ground arith

-- The loop only widens the range.
virtual_range-widens :
    (phs : List ProgramHeader) (r : ℕ × ℕ) {range : ℕ × ℕ}
    → IsWellFormed phs
    → virtual_range phs r ≡ some range
    → Within r range
unfolding virtual_range
virtual_range-widens [] r w e = ground (arith, eq_of_some e)
virtual_range-widens (ph ∷ phs) r w e =
    let (load, is_load, rest) = >>=-eq-some ph.is_load _ e in
    ground (
      arith,
      virtual_range-widens phs _ (IsWellFormed-tail w) rest,
      widen-Within ph r,
      w.end_lt 0 ph,
      Bool-cases load,
    )

-- Every segment that is loaded is within the range.
pub virtual_range-Within :
    (phs : List ProgramHeader) (r : ℕ × ℕ) {range : ℕ × ℕ} (i : ℕ) (ph : ProgramHeader)
    → IsWellFormed phs
    → virtual_range phs r ≡ some range
    → Loads phs i ph
    → Within (ph.virtual_addr, ph.virtual_addr + ph.mem_size) range
unfolding virtual_range
virtual_range-Within [] r i ph w e l = cc (l.0)
virtual_range-Within (q ∷ phs) r zero ph w e l =
    let (load, is_load, rest) = >>=-eq-some q.is_load _ e in
    ground (
      arith,
      virtual_range-widens phs _ (IsWellFormed-tail w) rest,
      widen-Within q r,
      w.end_lt 0 q,
      eq_of_some l.0,
      Bool-cases load,
    )
virtual_range-Within (q ∷ phs) r (suc i) ph w e l =
    let (load, _, rest) = >>=-eq-some q.is_load _ e in
    virtual_range-Within phs _ i ph (IsWellFormed-tail w) rest l
