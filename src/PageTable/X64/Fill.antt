-- ===== src/PageTable/X64/Fill.antt =====
-- What each loop of `init_page_tables` of src/page_table/x86_64.rs leaves in memory: the entries
-- that it sets, and all else as it was.
use alpheratz.Prelude.{ℕ, ◌+◌, ◌*◌, ◌/◌, ◌%◌, ◌^◌, ◌≤◌, ◌<◌, ◌≡◌, ◌∙◌, ◌⊎◌, bit_or, arith}
use alpheratz.Memory.{Memory, add, write-eq, write-ne, for_range-keeps, for_range-sets}
use alpheratz.PageTable.Entry.{bit_or_flag, bit_or_flags}
use alpheratz.PageTable.X64.{fill_pdpt, fill_huge_pages, fill_pd_kernel, fill_pt}

writable_entry : (p : ℕ) → p % 4096 ≡ 0 → bit_or (bit_or p 1) 2 ≡ p + 3
writable_entry p h =
    rw (bit_or_flag p h 1 (omega arith)) (bit_or_flags p h 1 2 (omega arith) (omega arith))

-- `p` is a sum as the code computes it, with its wraps, and `q` what it comes to.
pub writable_entry_of : (p q : ℕ) → p ≡ q → q % 4096 ≡ 0 → bit_or (bit_or p 1) 2 ≡ q + 3
writable_entry_of p q e h = rw e (writable_entry q h)

huge_entry_of : (p q : ℕ) → p ≡ q → q % 4096 ≡ 0 → bit_or (bit_or (bit_or p 1) 2) 0x80 ≡ q + 0x83
huge_entry_of p q e h =
    rw (e, writable_entry q h) (bit_or_flags q h 3 0x80 (omega arith) (omega arith))

-- A physical range of whole pages.
abbrev pub IsRange : ℕ → ℕ → Type 0
IsRange base pages = (base % 4096 ≡ 0) × (base + pages * 4096 ≤ 2 ^ 52)

pub fill_pdpt-sets :
    (pdpt pd_base : ℕ) (m : Memory) (j : ℕ)
    → IsRange pd_base 4
    → j < 4
    → fill_pdpt pdpt pd_base m (add pdpt j) ≡ pd_base + j * 4096 + 3
unfolding fill_pdpt
fill_pdpt-sets pdpt pd_base m j r h =
    for_range-sets 4 _ m (add pdpt j) _ j h
      (λ k.
        write-eq k _ _ _ (omega arith)
        ∙ writable_entry_of _ (pd_base + j * 4096) (omega arith) (omega arith))
      (λ i k p q. write-ne k _ _ _ (omega arith))

pub fill_pdpt-keeps :
    (pdpt pd_base : ℕ) (m : Memory) (a : ℕ)
    → (a < pdpt) ⊎ (add pdpt 4 ≤ a)
    → fill_pdpt pdpt pd_base m a ≡ m a
unfolding fill_pdpt
fill_pdpt-keeps pdpt pd_base m a out =
    for_range-keeps 4 _ m a λ i k h. write-ne k _ _ _ (omega arith)

-- Entry `i` of directory `gb` maps the 2 MiB page with number `gb * 512 + i`.
pub fill_huge_pages-sets :
    (pd_base : ℕ) (m : Memory) (gb i : ℕ)
    → IsRange pd_base 4
    → gb < 4
    → i < 512
    → fill_huge_pages pd_base m (add (pd_base + gb * 4096) i) ≡ (gb * 512 + i) * 0x20_0000 + 0x83
unfolding fill_huge_pages
fill_huge_pages-sets pd_base m gb i r hg hi =
    for_range-sets 4 _ m (add (pd_base + gb * 4096) i) _ gb hg
      (λ k.
        for_range-sets 512 _ k _ _ i hi
          (λ k'.
            write-eq k' _ _ _ (omega arith)
            ∙ huge_entry_of _ ((gb * 512 + i) * 0x20_0000) (omega arith) (omega arith))
          (λ j k' p q. write-ne k' _ _ _ (omega arith)))
      (λ g k p q. for_range-keeps 512 _ k _ λ j k' p'. write-ne k' _ _ _ (omega arith))

pub fill_huge_pages-keeps :
    (pd_base : ℕ) (m : Memory) (a : ℕ)
    → IsRange pd_base 4
    → (a < pd_base) ⊎ (pd_base + 0x4000 ≤ a)
    → fill_huge_pages pd_base m a ≡ m a
unfolding fill_huge_pages
fill_huge_pages-keeps pd_base m a r out =
    for_range-keeps 4 _ m a
      λ g k h. for_range-keeps 512 _ k a λ i k' h'. write-ne k' _ _ _ (omega arith)

pub fill_pd_kernel-sets :
    (pd_kernel pt_base pt_count : ℕ) (m : Memory) (j : ℕ)
    → IsRange pt_base pt_count
    → j < pt_count
    → fill_pd_kernel pd_kernel pt_base pt_count m (add pd_kernel j) ≡ pt_base + j * 4096 + 3
unfolding fill_pd_kernel
fill_pd_kernel-sets pd_kernel pt_base pt_count m j r h =
    for_range-sets pt_count _ m (add pd_kernel j) _ j h
      (λ k.
        write-eq k _ _ _ (omega arith)
        ∙ writable_entry_of _ (pt_base + j * 4096) (omega arith) (omega arith))
      (λ i k p q. write-ne k _ _ _ (omega arith))

pub fill_pd_kernel-keeps :
    (pd_kernel pt_base pt_count : ℕ) (m : Memory) (a : ℕ)
    → (a < pd_kernel) ⊎ (add pd_kernel pt_count ≤ a)
    → fill_pd_kernel pd_kernel pt_base pt_count m a ≡ m a
unfolding fill_pd_kernel
fill_pd_kernel-keeps pd_kernel pt_base pt_count m a out =
    for_range-keeps pt_count _ m a λ i k h. write-ne k _ _ _ (omega arith)

-- The tables of 4 KiB pages follow one another, so page `j` has word `j` from `pt_base` on.
pub fill_pt-sets :
    (pt_base kernel_phys pages : ℕ) (m : Memory) (j : ℕ)
    → IsRange pt_base ((pages + 511) / 512)
    → IsRange kernel_phys pages
    → j < pages
    → fill_pt pt_base kernel_phys pages m (add pt_base j) ≡ kernel_phys + j * 4096 + 3
unfolding fill_pt
fill_pt-sets pt_base kernel_phys pages m j r r' h =
    for_range-sets pages _ m (add pt_base j) _ j h
      (λ k.
        write-eq k _ _ _ (omega arith)
        ∙ writable_entry_of _ (kernel_phys + j * 4096) (omega arith) (omega arith))
      (λ i k p q. write-ne k _ _ _ (omega arith))

pub fill_pt-keeps :
    (pt_base kernel_phys pages : ℕ) (m : Memory) (a : ℕ)
    → IsRange pt_base ((pages + 511) / 512)
    → (a < pt_base) ⊎ (add pt_base pages ≤ a)
    → fill_pt pt_base kernel_phys pages m a ≡ m a
unfolding fill_pt
fill_pt-keeps pt_base kernel_phys pages m a r out =
    for_range-keeps pages _ m a λ i k h. write-ne k _ _ _ (omega arith)
