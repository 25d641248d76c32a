-- ===== src/PageTable/Walk.antt =====
-- How the processor reads page tables: the specification that the tables are built for. A radix
-- walk over 512-entry tables, one level for 9 bits of the address; `Decoder` is the architecture's
-- format of an entry, by level (0 is the table of 4 KiB pages).
use alpheratz.Prelude.{ℕ, zero, suc, ◌+◌, ◌*◌, ◌/◌, ◌%◌, ◌^◌, ◌≡◌, Option, none, some}
use alpheratz.Memory.{Memory, add}

pub data Slot : Type 0 where
  invalid : Slot
  table : ℕ → Slot
  page : ℕ → Slot

abbrev pub Decoder : Type 0
Decoder = ℕ → ℕ → Slot

-- The size of what one entry of a level covers: 4 KiB, 2 MiB, 1 GiB, 512 GiB.
abbrev pub span : ℕ → ℕ
span level = 2 ^ (12 + 9 * level)

abbrev pub index : ℕ → ℕ → ℕ
index level va = va / span level % 512

-- The physical address that `va` translates to from the table `root` at `level`.
unfoldable pub walk : Decoder → ℕ → Memory → ℕ → ℕ → Option ℕ
walk decode zero m root va = elim (decode 0 (m (add root (index 0 va)))) [
  | page p ↦ some (p + va % span 0)
  | _ ↦ none
]
walk decode (suc level) m root va =
    elim (decode (suc level) (m (add root (index (suc level) va)))) [
      | page p ↦ some (p + va % span (suc level))
      | table t ↦ walk decode level m t va
      | invalid ↦ none
    ]

module _ (decode : Decoder) (m : Memory) where
  pub walk-table :
      (level root va t : ℕ)
      → decode (suc level) (m (add root (index (suc level) va))) ≡ table t
      → walk decode (suc level) m root va ≡ walk decode level m t va
  unfolding walk
  walk-table level root va t e = rw (e, walk)

  pub walk-page :
      (level root va p : ℕ)
      → decode level (m (add root (index level va))) ≡ page p
      → walk decode level m root va ≡ some (p + va % span level)
  unfolding walk
  walk-page zero root va p e = rw (e, walk)
  walk-page (suc level) root va p e = rw (e, walk)

  pub walk-invalid :
      (level root va : ℕ)
      → decode level (m (add root (index level va))) ≡ invalid
      → walk decode level m root va ≡ none
  unfolding walk
  walk-invalid zero root va e = rw (e, walk)
  walk-invalid (suc level) root va e = rw (e, walk)
