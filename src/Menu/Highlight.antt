-- ===== src/Menu/Highlight.antt =====
-- What a frame of src/menu.rs highlights.
use mathlib.Core.Path.{subst}
use mathlib.Core.List.{append-nil, append_assoc}
use alpheratz.Prelude.{
  ℕ, ◌+◌, ◌≡◌, refl, sym, ap, ◌∙◌, List, [], ◌∷◌, ◌++◌, Option, none, some, Bool, true, false, ◌==◌,
  not, ◌&&◌, ◌||◌, if◌then◌else◌, Str, bytes, length, get_elem?, arith, is_empty, map,
}
use alpheratz.Config.{Config, Entry}
use alpheratz.Menu.Screen.{
  Color, Command, set_color, write, draw_item, draw_entries, draw_countdown, draw_items, draw,
  firmware_label, shutdown_label,
}
use alpheratz.Menu.Marks.{label_if, labels, marked_line, marked, hits, hits-marked, hits-labels}

is_blue : Color → Bool
is_blue Color.blue = true
is_blue _ = false

-- What is written on blue, with the background at the start and the rest of the commands.
pub on_blue : Bool → List Command → List Str
unfolding is_blue
on_blue blue [] = []
on_blue blue (set_color text background ∷ cs) = on_blue (is_blue background) cs
on_blue true (write s ∷ cs) = s ∷ on_blue true cs
on_blue false (write s ∷ cs) = on_blue false cs
on_blue blue (_ ∷ cs) = on_blue blue cs

-- Commands after which the background is not blue, if it was not before.
IsNeutral : List Command → Type 0
IsNeutral cs = (ds : List Command) → on_blue false (cs ++ ds) ≡ on_blue false cs ++ on_blue false ds

append-IsNeutral : (cs ds : List Command) → IsNeutral cs → IsNeutral ds → IsNeutral (cs ++ ds)
unfolding IsNeutral
append-IsNeutral cs ds h h' es =
    ap (on_blue false) (append_assoc cs ds es)
    ∙ (h (ds ++ es)
        ∙ (ap (λ r. on_blue false cs ++ r) (h' es)
            ∙ (sym (append_assoc (on_blue false cs) (on_blue false ds) (on_blue false es))
                ∙ ap (λ r. r ++ on_blue false es) (sym (h ds)))))

draw_item-IsNeutral : (b : Bool) (label : Str) → IsNeutral (draw_item b label)
unfolding IsNeutral draw_item on_blue is_blue
draw_item-IsNeutral true label es = refl
draw_item-IsNeutral false label es = refl

on_blue-draw_item :
    (b : Bool) (label : Str)
    → on_blue false (draw_item b label) ≡ (if b then marked_line label ∷ [] else [])
unfolding draw_item on_blue is_blue marked_line
on_blue-draw_item true label = refl
on_blue-draw_item false label = refl

draw_entries-IsNeutral : (i selected : ℕ) (es : List Entry) → IsNeutral (draw_entries i selected es)
unfolding draw_entries
draw_entries-IsNeutral i selected [] = unfold IsNeutral on_blue in λ ds. refl
draw_entries-IsNeutral i selected (e ∷ es) =
    append-IsNeutral (draw_item (i == selected) e.name) (draw_entries (i + 1) selected es)
      (draw_item-IsNeutral (i == selected) e.name) (draw_entries-IsNeutral (i + 1) selected es)

on_blue-draw_entries :
    (i selected : ℕ) (es : List Entry)
    → on_blue false (draw_entries i selected es) ≡ hits i selected (map (λ (e : Entry). e.name) es)
unfolding draw_entries hits IsNeutral
on_blue-draw_entries i selected [] = unfold on_blue in refl
on_blue-draw_entries i selected (e ∷ es) =
    draw_item-IsNeutral (i == selected) e.name (draw_entries (i + 1) selected es)
    ∙ (ap (λ r. r ++ on_blue false (draw_entries (i + 1) selected es))
          (on_blue-draw_item (i == selected) e.name)
        ∙ ap (λ r. (if i == selected then marked_line e.name ∷ [] else []) ++ r)
            (on_blue-draw_entries (i + 1) selected es))

-- Commands that write these lines on blue.
Shows : List Command → List Str → Type 0
Shows cs ls = IsNeutral cs × (on_blue false cs ≡ ls)

append-Shows :
    (cs ds : List Command) (ks ls : List Str)
    → Shows cs ks
    → Shows ds ls
    → Shows (cs ++ ds) (ks ++ ls)
unfolding Shows
append-Shows cs ds ks ls (neutral, here) (neutral', there) = (
  append-IsNeutral cs ds neutral neutral',
  unfold IsNeutral in neutral ds ∙ (ap (λ r. r ++ on_blue false ds) here ∙ ap (λ r. ks ++ r) there),
)

extra-Shows :
    (b : Bool) (row selected : ℕ) (label : Str)
    → Shows
        (if b then draw_item (row == selected) label else [])
        (hits row selected (label_if b label))
unfolding Shows hits
extra-Shows true row selected label = (
  draw_item-IsNeutral (row == selected) label,
  on_blue-draw_item (row == selected) label ∙ sym (append-nil _),
)
extra-Shows false row selected label = unfold IsNeutral on_blue in ((λ ds. refl), refl)

blank-Shows : (b : Bool) → Shows (if b then write (bytes "\n") ∷ [] else []) []
unfolding Shows IsNeutral on_blue
blank-Shows true = ((λ ds. refl), refl)
blank-Shows false = ((λ ds. refl), refl)

entries-Shows :
    (selected : ℕ) (es : List Entry)
    → Shows (draw_entries 0 selected es) (hits 0 selected (map (λ (e : Entry). e.name) es))
unfolding Shows
entries-Shows selected es =
    (draw_entries-IsNeutral 0 selected es, on_blue-draw_entries 0 selected es)

countdown_lem :
    (timeout : Option ℕ) (cs : List Command)
    → on_blue false (draw_countdown timeout ++ cs) ≡ on_blue false cs
unfolding draw_countdown on_blue
countdown_lem none cs = refl
countdown_lem (some t) cs = refl

draw_items-Shows :
    (cfg : Config) (selected : ℕ) → Shows (draw_items cfg selected) (hits 0 selected (labels cfg))
unfolding draw_items
draw_items-Shows cfg selected =
    let row = length cfg.entry in
    let entries = hits 0 selected (map (λ (e : Entry). e.name) cfg.entry) in
    let extra = hits row selected (label_if cfg.firmware firmware_label) in
    let last = if cfg.firmware then row + 1 else row in
    subst (Shows (draw_items cfg selected))
      (ap (λ r. (r ++ extra) ++ hits last selected (label_if cfg.shutdown shutdown_label))
          (append-nil entries)
        ∙ sym (hits-labels cfg selected))
      (append-Shows _ _ _ _
        (append-Shows _ _ _ _
          (append-Shows _ _ _ _ (entries-Shows selected cfg.entry)
            (blank-Shows ((cfg.firmware || cfg.shutdown) && not (is_empty cfg.entry))))
          (extra-Shows cfg.firmware row selected firmware_label))
        (extra-Shows cfg.shutdown last selected shutdown_label))

-- Of all that a frame writes, only the line of the item at the cursor is on blue, with its label.
pub draw-marked :
    (cfg : Config) (selected : ℕ) (timeout : Option ℕ)
    → on_blue false (draw cfg selected timeout) ≡ marked (get_elem? (labels cfg) selected)
unfolding draw on_blue is_blue Shows IsNeutral
draw-marked cfg selected timeout =
    let (neutral, items) = draw_items-Shows cfg selected in
    neutral _
    ∙ (ap (λ r. on_blue false (draw_items cfg selected) ++ r) (countdown_lem timeout _)
        ∙ (append-nil (on_blue false (draw_items cfg selected))
            ∙ (items
                ∙ (ap (λ k. hits 0 k (labels cfg)) (omega arith)
                    ∙ hits-marked 0 selected (labels cfg)))))
