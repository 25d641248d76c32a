-- ===== src/Menu/Invariant.antt =====
-- The items of the menu of src/menu.rs, and the invariant of its loop.
use mathlib.Core.List.{append_assoc}
use alpheratz.Prelude.{
  ℕ, zero, suc, ◌+◌, ◌-◌, ◌≤◌, ◌<◌, ◌≡◌, refl, ◌∙◌, ap, List, [], ◌∷◌, ◌++◌, Option, some, Bool,
  true, false, arith, length, length-append, get_elem?, get_elem?-lt, get_elem?-append_left,
  get_elem?-append_right,
}
use alpheratz.Config.{Config, Entry}
use alpheratz.Menu.{
  ResetType, Outcome, boots, resets, reboot_to_firmware, total_items, as_usize, index_to_selection,
  confirm, Menu, Progress, waits, ends, Key, round,
}

-- The specification of the menu: what its items do, from the first to the last.
abbrev pub boot_items : ℕ → List Entry → List Outcome
boot_items i [] = []
boot_items i (e ∷ es) = boots i ∷ boot_items (suc i) es

abbrev pub item_if : Bool → Outcome → List Outcome
item_if true o = o ∷ []
item_if false o = []

abbrev pub items : Config → List Outcome
items cfg =
    boot_items 0 cfg.entry
    ++ item_if cfg.firmware reboot_to_firmware
    ++ item_if cfg.shutdown (resets ResetType.shutdown [])

length-boot_items : (i : ℕ) (es : List Entry) → length (boot_items i es) ≡ length es
length-boot_items i [] = refl
length-boot_items i (e ∷ es) = ap suc (length-boot_items (suc i) es)

length-item_if : (b : Bool) (o : Outcome) → length (item_if b o) ≡ as_usize b
length-item_if true o = refl
length-item_if false o = refl

pub length-items : (cfg : Config) → length (items cfg) ≡ total_items cfg
unfolding total_items
length-items cfg = omega (
  arith,
  length-append (boot_items 0 cfg.entry ++ item_if cfg.firmware reboot_to_firmware)
      (item_if cfg.shutdown (resets ResetType.shutdown [])),
  length-append (boot_items 0 cfg.entry) (item_if cfg.firmware reboot_to_firmware),
  length-boot_items 0 cfg.entry,
  length-item_if cfg.firmware reboot_to_firmware,
  length-item_if cfg.shutdown (resets ResetType.shutdown []),
)

get_elem?-boot_items :
    (k i : ℕ) (es : List Entry)
    → i < length es
    → get_elem? (boot_items k es) i ≡ some (boots (k + i))
get_elem?-boot_items k i [] h = absurd (omega arith)
get_elem?-boot_items k zero (e ∷ es) h = ap (λ n. some (boots n)) (omega arith)
get_elem?-boot_items k (suc i) (e ∷ es) h =
    get_elem?-boot_items (suc k) i es (omega arith) ∙ ap (λ n. some (boots n)) (omega arith)

module _ (cfg : Config) where
  abbrev extras : List Outcome
  extras =
      item_if cfg.firmware reboot_to_firmware ++ item_if cfg.shutdown (resets ResetType.shutdown [])

  items-extras : items cfg ≡ boot_items 0 cfg.entry ++ extras
  items-extras = append_assoc (boot_items 0 cfg.entry) _ _

  entry_item : (i : ℕ) → i < length cfg.entry → get_elem? (items cfg) i ≡ some (boots i)
  entry_item i h =
      ap (λ l. get_elem? l i) items-extras
      ∙ get_elem?-append_left (boot_items 0 cfg.entry) extras i
          (omega (arith, length-boot_items 0 cfg.entry))
      ∙ get_elem?-boot_items 0 i cfg.entry h
      ∙ ap (λ n. some (boots n)) (omega arith)

  extra_item :
      (i : ℕ)
      → length cfg.entry ≤ i
      → get_elem? (items cfg) i ≡ get_elem? extras (i - length cfg.entry)
  extra_item i h =
      let place : i ≡ length (boot_items 0 cfg.entry) + (i - length cfg.entry) =
        omega (arith, length-boot_items 0 cfg.entry) in
      ap (λ l. get_elem? l i) items-extras
      ∙ ap (get_elem? (boot_items 0 cfg.entry ++ extras)) place
      ∙ get_elem?-append_right (boot_items 0 cfg.entry) extras (i - length cfg.entry)

  -- The tests of `confirm` find the item at each place of the menu.
  pub confirm-items :
      (i : ℕ) → i < total_items cfg → get_elem? (items cfg) i ≡ some (confirm cfg i).0
  unfolding confirm index_to_selection total_items
  confirm-items i h = ground (arith, entry_item i, extra_item i, get_elem?-lt cfg.entry i)

  abbrev pub IsSafe : Progress → Type 0
  IsSafe (waits m) = m.selected < total_items cfg
  IsSafe (ends o m) = get_elem? (items cfg) m.selected ≡ some o

  pub round-IsSafe :
      (m : Menu) (key : Option Key)
      → m.selected < total_items cfg
      → IsSafe (round cfg (total_items cfg) m key)
  unfolding round
  round-IsSafe m key h = ground (arith, confirm-items m.selected)
