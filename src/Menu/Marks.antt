-- ===== src/Menu/Marks.antt =====
-- The lines that a frame of src/menu.rs should highlight, by the labels of the menu's items.

use mathlib.Core.List.{append_assoc}
use alpheratz.Prelude.{
  ℕ, zero, suc, ◌+◌, ◌<◌, ◌≡◌, refl, sym, ap, ◌∙◌, List, [], ◌∷◌, ◌++◌, Option, none, some, Bool,
  true, false, ◌==◌, if◌then◌else◌, Str, bytes, length, length-append, get_elem?, arith, map,
}
use alpheratz.Config.{Config, Entry}
use alpheratz.Menu.Screen.{pad, firmware_label, shutdown_label}

-- The specification: the items' labels, from the first to the last,
abbrev pub label_if : Bool → Str → List Str
label_if true label = label ∷ []
label_if false label = []

unfoldable pub labels : Config → List Str
labels cfg =
    map (λ (e : Entry). e.name) cfg.entry
    ++ label_if cfg.firmware firmware_label
    ++ label_if cfg.shutdown shutdown_label

unfoldable pub marked_line : Str → Str
marked_line label = bytes "  > " ++ pad label ++ bytes "\n"

-- of which one is marked.
unfoldable pub marked : Option Str → List Str
unfolding marked_line
marked none = []
marked (some label) = marked_line label ∷ []

-- The same by a search that counts.
unfoldable pub hits : ℕ → ℕ → List Str → List Str
hits i selected [] = []
hits i selected (l ∷ ls) =
    (if i == selected then marked_line l ∷ [] else []) ++ hits (i + 1) selected ls

hits-append :
    (i selected : ℕ) (ks ls : List Str)
    → hits i selected (ks ++ ls) ≡ hits i selected ks ++ hits (i + length ks) selected ls
unfolding hits
hits-append i selected [] ls = ap (λ j. hits j selected ls) (omega arith)
hits-append i selected (k ∷ ks) ls =
    ap (λ r. (if i == selected then marked_line k ∷ [] else []) ++ r)
      (hits-append (i + 1) selected ks ls
        ∙ ap (λ j. hits (i + 1) selected ks ++ hits j selected ls) (omega arith))
    ∙ sym (
        append_assoc (if i == selected then marked_line k ∷ [] else []) (hits (i + 1) selected ks)
          (hits (i + suc (length ks)) selected ls))

hits_after : (i selected : ℕ) (ls : List Str) → selected < i → hits i selected ls ≡ []
unfolding hits
hits_after i selected [] h = refl
hits_after i selected (l ∷ ls) h = ground (arith, h, hits_after (i + 1) selected ls)

pub hits-marked : (i k : ℕ) (ls : List Str) → hits i (i + k) ls ≡ marked (get_elem? ls k)
unfolding hits marked
hits-marked i k [] = refl
hits-marked i zero (l ∷ ls) = ground (arith, hits_after (i + 1) i ls)
hits-marked i (suc k) (l ∷ ls) = ground (arith, hits-marked (i + 1) k ls)

length-names : (es : List Entry) → length (map (λ (e : Entry). e.name) es) ≡ length es
length-names [] = refl
length-names (e ∷ es) = ap suc (length-names es)

length-label_if :
    (b : Bool) (label : Str) (n : ℕ) → (if b then n + 1 else n) ≡ n + length (label_if b label)
length-label_if true label n = refl
length-label_if false label n = omega arith

-- The rows of the extras are those of their labels.
pub hits-labels :
    (cfg : Config) (selected : ℕ)
    → let row = length cfg.entry in
      hits 0 selected (labels cfg)
      ≡ hits 0 selected (map (λ (e : Entry). e.name) cfg.entry)
        ++ hits row selected (label_if cfg.firmware firmware_label)
        ++ hits
            (if cfg.firmware then row + 1 else row)
            selected
            (label_if cfg.shutdown shutdown_label)
unfolding labels
hits-labels cfg selected =
    let names = map (λ (e : Entry). e.name) cfg.entry in
    let lf = label_if cfg.firmware firmware_label in
    let ls = label_if cfg.shutdown shutdown_label in
    hits-append 0 selected (names ++ lf) ls
    ∙ (ap (λ r. r ++ hits (0 + length (names ++ lf)) selected ls)
          (hits-append 0 selected names lf
            ∙ ap (λ j. hits 0 selected names ++ hits j selected lf)
                (omega (arith, length-names cfg.entry)))
        ∙ ap
            (λ j.
              (hits 0 selected names ++ hits (length cfg.entry) selected lf) ++ hits j selected ls)
            (omega (
              arith,
              length-append names lf,
              length-names cfg.entry,
              length-label_if cfg.firmware firmware_label (length cfg.entry),
            )))
