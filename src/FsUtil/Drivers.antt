-- ===== src/FsUtil/Drivers.antt =====
-- The paths that `load_drivers_from_config` of src/fsutil.rs tries.
use mathlib.Core.Path.{subst}
use alpheratz.Prelude.{
  ℕ, suc, ◌≡◌, refl, ◌⊎◌, inl, inr, List, [], ◌∷◌, ◌++◌, some, true, get_elem?, if◌then◌else◌, Str,
  Bool-cases, is_empty,
}
use alpheratz.Config.{Config}
use alpheratz.Firmware.{Result, ok, err, ◌then_◌}
use alpheratz.FsUtil.Names.{IsDriverFile, is_driver-IsDriverFile}
use alpheratz.FsUtil.{
  DirEntry, OpenFile, Node, directory, regular, unknown, Volume, Esp, open_esp_root, path_join,
  is_driver, dir_drivers, node_drivers, all_drivers, load_drivers_from_config,
}

-- A path that the configured path `p` stands for on this volume: `p` itself, if it opens as a regular
-- file, or the path of a file whose name ends in ".efi" in the directory that it opens as.
abbrev pub ComesFrom : Result Node → Str → Str → Type 0
ComesFrom opened p path =
    ((f : OpenFile) × (opened ≡ ok (regular f)) × (path ≡ p))
    ⊎ ((es : List DirEntry) × (opened ≡ ok (directory es))
        × ((j : ℕ) × ((e : DirEntry) × (get_elem? es j ≡ some e)
              × IsDriverFile e
              × (path ≡ path_join p e.name))))

abbrev pub All : (Str → Type 0) → List Str → Type 0
All Good [] = Unit
All Good (x ∷ xs) = Good x × All Good xs

All-append :
    (Good : Str → Type 0) (xs ys : List Str) → All Good xs → All Good ys → All Good (xs ++ ys)
All-append Good [] ys h h' = h'
All-append Good (x ∷ xs) ys h h' = (h.0, All-append Good xs ys h.1 h')

All-weaken :
    (Good Fine : Str → Type 0) (xs : List Str)
    → ((x : Str) → Good x → Fine x)
    → All Good xs
    → All Fine xs
All-weaken Good Fine [] weaker h = tt
All-weaken Good Fine (x ∷ xs) weaker h = (weaker x h.0, All-weaken Good Fine xs weaker h.1)

-- A path of a file with the name of a driver in a directory.
abbrev IsListed : Str → List DirEntry → Str → Type 0
IsListed p es path =
    (j : ℕ) × ((e : DirEntry) × (get_elem? es j ≡ some e)
      × IsDriverFile e
      × (path ≡ path_join p e.name))

dir_drivers-IsListed : (p : Str) (es : List DirEntry) → All (IsListed p es) (dir_drivers p es)
unfolding dir_drivers
dir_drivers-IsListed p [] = tt
dir_drivers-IsListed p (e ∷ es) =
    let later =
      All-weaken (IsListed p es) (IsListed p (e ∷ es)) (dir_drivers p es)
        (λ x (j, (d, there, file, same)). (suc j, (d, there, file, same)))
        (dir_drivers-IsListed p es) in
    elim (Bool-cases (is_driver e)) [
      | inl driver ↦ rw driver ((0, (e, refl, is_driver-IsDriverFile e driver, refl)), later)
      | inr other ↦ rw other later
    ]

node_drivers-ComesFrom : (p : Str) (n : Result Node) → All (ComesFrom n p) (node_drivers p n)
unfolding node_drivers
node_drivers-ComesFrom p (err e) = tt
node_drivers-ComesFrom p (ok (directory es)) =
    All-weaken (IsListed p es) (ComesFrom (ok (directory es)) p) (dir_drivers p es)
      (λ x listed. inr (es, refl, listed)) (dir_drivers-IsListed p es)
node_drivers-ComesFrom p (ok (regular f)) = (inl (f, refl, refl), tt)
node_drivers-ComesFrom p (ok unknown) = tt

-- A path that one of the configured paths stands for: one that UCS-2 can write.
abbrev pub IsConfigured : Volume → List Str → Str → Type 0
IsConfigured root ps path =
    (i : ℕ) × ((p : Str) × (get_elem? ps i ≡ some p)
      × (root.is_cstring16 p ≡ true)
      × ComesFrom (root.open_path p) p path)

all_drivers-IsConfigured :
    (root : Volume) (ps : List Str) → All (IsConfigured root ps) (all_drivers root ps)
unfolding all_drivers
all_drivers-IsConfigured root [] = tt
all_drivers-IsConfigured root (p ∷ ps) =
    let later =
      All-weaken (IsConfigured root ps) (IsConfigured root (p ∷ ps)) (all_drivers root ps)
        (λ x (i, (q, there, writable, c)). (suc i, (q, there, writable, c)))
        (all_drivers-IsConfigured root ps) in
    elim (Bool-cases (root.is_cstring16 p)) [
      | inl writable ↦
          let here =
            All-weaken (ComesFrom (root.open_path p) p) (IsConfigured root (p ∷ ps))
              (node_drivers p (root.open_path p)) (λ x c. (0, (p, refl, writable, c)))
              (node_drivers-ComesFrom p (root.open_path p)) in
          rw writable (All-append (IsConfigured root (p ∷ ps)) _ _ here later)
      | inr other ↦ rw other later
    ]

-- The same on the volume that the ESP opens as.
abbrev pub IsFound : Result Volume → List Str → Str → Type 0
IsFound opened ps path = (root : Volume) × (opened ≡ ok root) × IsConfigured root ps path

-- What is tried is the list above, whichever way the function returns.
tried_are :
    (root : Result Volume) (drivers : List Str) {tried : List Str}
    → (if is_empty drivers then ok [] else (root then_ λ root. ok (all_drivers root drivers)))
      ≡ ok tried
    → All (IsFound root drivers) tried
tried_are root [] {tried = []} h = tt
tried_are root [] {tried = x ∷ xs} h = cc (h)
tried_are (ok root) (p ∷ ps) h = subst (All (IsFound (ok root) (p ∷ ps))) (cc (h)) (
    All-weaken (IsConfigured root (p ∷ ps)) (IsFound (ok root) (p ∷ ps)) (all_drivers root (p ∷ ps))
      (λ x c. (root, refl, c)) (all_drivers-IsConfigured root (p ∷ ps)))
tried_are (err e) (p ∷ ps) h = cc (h)

-- Every path that is tried as a driver is that of a regular file on the ESP's volume that a
-- configured path names, or the path of a file whose name ends in ".efi", in whatever case, and that
-- is no directory, as an entry of a directory that a configured path names.
pub load_drivers_from_config-IsConfigured :
    (firmware : Esp) (cfg : Config) (tried : List Str)
    → load_drivers_from_config firmware cfg ≡ ok tried
    → All (IsFound (open_esp_root firmware) cfg.drivers) tried
unfolding load_drivers_from_config
load_drivers_from_config-IsConfigured firmware cfg tried h =
    tried_are (open_esp_root firmware) cfg.drivers h
