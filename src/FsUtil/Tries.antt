-- ===== src/FsUtil/Tries.antt =====
-- The driver files that `load_drivers_from_config` of src/fsutil.rs does not miss.
use mathlib.Core.Path.{subst}
use alpheratz.Prelude.{
  ℕ, zero, suc, ◌≡◌, refl, sym, ap, ◌∙◌, inl, inr, List, [], ◌∷◌, ◌++◌, some, true, get_elem?,
  if◌then◌else◌, Str, Bool-cases, is_empty, length, ◌+◌, get_elem?-append_right,
}
use alpheratz.Prelude.Fallible.{eq_of_some}
use alpheratz.Config.{Config}
use alpheratz.Firmware.{Result, ok, ◌then_◌}
use alpheratz.FsUtil.Names.{IsDriverFile, IsDriverFile-is_driver}
use alpheratz.FsUtil.{
  DirEntry, directory, Volume, Esp, open_esp_root, path_join, is_driver, dir_drivers, node_drivers,
  all_drivers, load_drivers_from_config,
}

abbrev pub Tried : List Str → Str → Type 0
Tried tried path = (k : ℕ) × (get_elem? tried k ≡ some path)

returns :
    (drivers : List Str) {r : Result Volume} {root : Volume}
    → r ≡ ok root
    → (if is_empty drivers then ok [] else (r then_ λ root. ok (all_drivers root drivers)))
      ≡ ok (all_drivers root drivers)
returns [] e = unfold all_drivers in refl
returns (p ∷ ps) e = rw e

-- A path of the list is a path of a longer list.
later_in :
    (xs ys : List Str) {path : Str} (i : ℕ) → get_elem? ys i ≡ some path → Tried (xs ++ ys) path
later_in xs ys i h = (length xs + i, get_elem?-append_right xs ys i ∙ h)

earlier_in :
    (xs ys : List Str) {path : Str} (i : ℕ) → get_elem? xs i ≡ some path → Tried (xs ++ ys) path
earlier_in [] ys i h = cc (h)
earlier_in (x ∷ xs) ys zero h = (0, h)
earlier_in (x ∷ xs) ys (suc i) h = let (j, there) = earlier_in xs ys i h in (suc j, there)

dir_drivers-tries :
    (p : Str) (es : List DirEntry) (j : ℕ) (e : DirEntry)
    → get_elem? es j ≡ some e
    → is_driver e ≡ true
    → Tried (dir_drivers p es) (path_join p e.name)
unfolding dir_drivers
dir_drivers-tries p [] j e h driver = cc (h)
dir_drivers-tries p (d ∷ ds) zero e h driver =
    let same : d ≡ e = eq_of_some h in
    let found = ap is_driver same ∙ driver in
    rw found (0, ap (λ (e : DirEntry). some (path_join p e.name)) same)
dir_drivers-tries p (d ∷ ds) (suc j) e h driver =
    let (k, there) = dir_drivers-tries p ds j e h driver in
    elim (Bool-cases (is_driver d)) [
      | inl found ↦ rw found (suc k, there)
      | inr other ↦ rw other (k, there)
    ]

all_drivers-tries :
    (volume : Volume) (ps : List Str) (i j : ℕ) (p : Str) (es : List DirEntry) (e : DirEntry)
    → get_elem? ps i ≡ some p
    → volume.is_cstring16 p ≡ true
    → volume.open_path p ≡ ok (directory es)
    → get_elem? es j ≡ some e
    → is_driver e ≡ true
    → Tried (all_drivers volume ps) (path_join p e.name)
unfolding all_drivers node_drivers
all_drivers-tries volume [] i j p es e h writable opened there driver = cc (h)
all_drivers-tries volume (q ∷ qs) zero j p es e h writable opened there driver =
    let same : q ≡ p = eq_of_some h in
    let (k, found) = dir_drivers-tries p es j e there driver in
    subst (λ q. Tried (all_drivers volume (q ∷ qs)) (path_join p e.name)) (sym same)
      (rw (writable, opened, all_drivers, node_drivers)
        (earlier_in (dir_drivers p es) (all_drivers volume qs) k found))
all_drivers-tries volume (q ∷ qs) (suc i) j p es e h writable opened there driver =
    let (k, found) = all_drivers-tries volume qs i j p es e h writable opened there driver in
    elim (Bool-cases (volume.is_cstring16 q)) [
      | inl fine ↦
          rw fine (later_in (node_drivers q (volume.open_path q)) (all_drivers volume qs) k found)
      | inr other ↦ rw other (k, found)
    ]

-- Every entry of a directory that a configured path names is tried, if it is no directory and its
-- name ends in ".efi", in whatever case: whatever else is configured and whatever becomes of the
-- others, as soon as the ESP can be opened and UCS-2 can write the configured path.
pub load_drivers_from_config-tries :
    (firmware : Esp) (cfg : Config) (root : Volume) (i j : ℕ) (p : Str) (es : List DirEntry)
    (e : DirEntry)
    → open_esp_root firmware ≡ ok root
    → get_elem? cfg.drivers i ≡ some p
    → root.is_cstring16 p ≡ true
    → root.open_path p ≡ ok (directory es)
    → get_elem? es j ≡ some e
    → IsDriverFile e
    → (tried : List Str) × (load_drivers_from_config firmware cfg ≡ ok tried)
      × Tried tried (path_join p e.name)
unfolding load_drivers_from_config
load_drivers_from_config-tries firmware cfg root i j p es e opens h writable opened there driver = (
  all_drivers root cfg.drivers,
  returns cfg.drivers opens,
  all_drivers-tries root cfg.drivers i j p es e h writable opened there
      (IsDriverFile-is_driver e driver),
)
