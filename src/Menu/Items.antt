-- ===== src/Menu/Items.antt =====
-- What an item of the menu of src/menu.rs can be.
use alpheratz.Prelude.{
  ℕ, zero, suc, ◌<◌, ◌≡◌, ◌≢◌, sym, ◌∙◌, List, [], ◌∷◌, none, some, arith, length, get_elem?,
  get_elem?-lt,
}
use alpheratz.Prelude.Fallible.{eq_of_some, some_of_ne}
use alpheratz.Config.{Config, Entry}
use alpheratz.Menu.{
  Outcome, boots, panics, total_items, index_to_selection, confirm, reboot_to_firmware,
}
use alpheratz.Menu.Invariant.{items, length-items, confirm-items}

pub get_elem?-bound {ℓ} :
    {A : Type ℓ} (xs : List A) (i : ℕ) {a : A} → get_elem? xs i ≡ some a → i < length xs
get_elem?-bound [] i e = cc (e)
get_elem?-bound (x ∷ xs) zero e = omega arith
get_elem?-bound (x ∷ xs) (suc i) e = omega (arith, get_elem?-bound xs i e)

confirm-there :
    (cfg : Config) (i j : ℕ)
    → i < total_items cfg
    → (confirm cfg i).0 ≡ boots j
    → get_elem? cfg.entry j ≢ none
unfolding confirm index_to_selection total_items reboot_to_firmware
confirm-there cfg i j h e = ground (arith, get_elem?-lt cfg.entry i)

confirm-safe : (cfg : Config) (i : ℕ) → i < total_items cfg → (confirm cfg i).0 ≢ panics
unfolding confirm index_to_selection total_items reboot_to_firmware
confirm-safe cfg i h = ground (arith, get_elem?-lt cfg.entry i)

-- An item that boots names an entry that is there, and no item panics.
module _ (cfg : Config) (i : ℕ) (o : Outcome) (e : get_elem? (items cfg) i ≡ some o) where
  in_menu : i < total_items cfg
  in_menu = omega (arith, get_elem?-bound (items cfg) i e, length-items cfg)

  is_confirmed : (confirm cfg i).0 ≡ o
  is_confirmed = eq_of_some (sym (confirm-items cfg i in_menu) ∙ e)

  pub items-boots : (j : ℕ) → o ≡ boots j → (entry : Entry) × (get_elem? cfg.entry j ≡ some entry)
  items-boots j h = some_of_ne _ (confirm-there cfg i j in_menu (is_confirmed ∙ h))

  pub items-panics : o ≢ panics
  items-panics h = confirm-safe cfg i in_menu (is_confirmed ∙ h)

pub confirm-entry :
    (cfg : Config) (i : ℕ) (e : Entry)
    → get_elem? cfg.entry i ≡ some e
    → (i < total_items cfg) × ((confirm cfg i).0 ≡ boots i)
unfolding confirm index_to_selection total_items
confirm-entry cfg i e there = ground (arith, get_elem?-bound cfg.entry i there)
