-- ===== src/FsUtil/Images.antt =====
-- `load_and_start_image` of src/fsutil.rs, and `load_drivers_from_config` as what it does: the paths
-- of FsUtil.antt are tried one after the other, whatever becomes of each.
use mathlib.Core.Path.{subst}
use alpheratz.Prelude.{
  ℕ, ◌≡◌, refl, sym, ap, ◌⊎◌, inl, inr, List, [], ◌∷◌, is_empty, Bool-cases, if◌then◌else◌, Str,
}
use alpheratz.Config.{Config}
use alpheratz.Firmware.{Status, Result, ok, err, Result-cases}
use alpheratz.FsUtil.{load_drivers_from_config, Volume, Esp, open_esp_root, read_file, all_drivers}
use alpheratz.Session.{Session, Action, pure, calls, ignored, ◌>>=◌, ◌>>◌, >>=-ok, >>=-err}

-- The two boot services; a loaded image is its handle.
pub record ImageServices (W : Type 0) : Type 0 where
  pub load_image : Str → W → Result ℕ × W
  pub start_image : ℕ → W → Result (Unit {0}) × W

module _ {W : Type 0} (services : ImageServices W) where
  unfoldable pub load_and_start_image : Volume → Str → Action W (Unit {0})
  load_and_start_image root path = do
    image ← (λ s. (read_file root path, s))
    h ← calls (services.load_image image)
    calls (services.start_image h)

  unfoldable pub try_each : Volume → List Str → Action W (Unit {0})
  try_each root [] = pure tt
  try_each root (p ∷ ps) = ignored (load_and_start_image root p) >> try_each root ps

  unfoldable pub load_drivers : Esp → Config → Action W (Unit {0})
  load_drivers esp cfg s =
      let tried : Action W (Unit {0}) =
        (λ s. (open_esp_root esp, s)) >>= λ root. try_each root (all_drivers root cfg.drivers) in
      if is_empty cfg.drivers then (ok tt, s) else tried s

  -- Nothing is loaded, or it is, and starting it is the result.
  abbrev pub LoadedOrNot : Str → Session W → Result (Unit {0}) × Session W → Type 0
  LoadedOrNot image s (r, s') =
      ((e : Status) × (services.load_image image s.world ≡ (err e, s'.world)) × (r ≡ err e))
      ⊎ ((h : ℕ) × ((w : W) × (services.load_image image s.world ≡ (ok h, w))
            × (services.start_image h w ≡ (r, s'.world))))

  -- How `load_and_start_image` ends: nothing can be read, and nothing is done; or what was read is not
  -- loaded; or it is loaded, and starting it is the result.
  abbrev pub EndsOneWay : Volume → Str → Session W → Result (Unit {0}) × Session W → Type 0
  EndsOneWay root path s (r, s') =
      ((e : Status) × (read_file root path ≡ err e) × (r ≡ err e) × (s' ≡ s))
      ⊎ ((image : Str) × (read_file root path ≡ ok image) × LoadedOrNot image s (r, s'))

  loaded :
      (image : Str) (s : Session W)
      → LoadedOrNot image s
          ((calls (services.load_image image) >>= λ h. calls (services.start_image h)) s)
  loaded image s =
      let called = services.load_image image s.world in
      let pack : Result ℕ → Result ℕ × Session W = λ r. (r, record s { world = called.1 }) in
      elim (Result-cases called.0) [
        | inr (e, refused) ↦
            subst (LoadedOrNot image s)
              (sym (
                >>=-err (calls (services.load_image image)) (λ h. calls (services.start_image h))
                  (ap pack refused)))
              (inl (e, ap (λ r. (r, called.1)) refused, refl))
        | inl (h, done) ↦
            subst (LoadedOrNot image s)
              (sym (
                >>=-ok (calls (services.load_image image)) (λ h. calls (services.start_image h))
                  (ap pack done)))
              (inr (h, (called.1, ap (λ r. (r, called.1)) done, refl)))
      ]

  -- `load_and_start_image` hands `load_image` exactly the bytes that `read_file` gave and starts only
  -- the handle that this returned. An error of any of the three steps is the result and ends it; after
  -- an error of `read_file` nothing has changed.
  pub load_and_start_image-outcome :
      (root : Volume) (path : Str) (s : Session W)
      → EndsOneWay root path s (load_and_start_image root path s)
  unfolding load_and_start_image
  load_and_start_image-outcome root path s =
      let after : Str → Action W (Unit {0}) =
        λ image. calls (services.load_image image) >>= λ h. calls (services.start_image h) in
      elim (Result-cases (read_file root path)) [
        | inr (e, unread) ↦
            subst (EndsOneWay root path s)
              (sym (>>=-err (λ s. (read_file root path, s)) after (ap (λ r. (r, s)) unread)))
              (inl (e, unread, refl, refl))
        | inl (image, was_read) ↦
            subst (EndsOneWay root path s)
              (sym (>>=-ok (λ s. (read_file root path, s)) after (ap (λ r. (r, s)) was_read)))
              (inr (image, was_read, loaded image s))
      ]

  -- What `load_drivers_from_config` lists is what is tried, in that order, whatever becomes of each.
  load_drivers-try_each :
      (firmware : Esp) (cfg : Config) (root : Volume) (s : Session W)
      → open_esp_root firmware ≡ ok root
      → (paths : List Str) × (load_drivers_from_config firmware cfg ≡ ok paths)
        × (load_drivers firmware cfg s ≡ try_each root paths s)
  unfolding load_drivers load_drivers_from_config
  load_drivers-try_each firmware cfg root s opens = elim (Bool-cases (is_empty cfg.drivers)) [
    | inl none_listed ↦ rw none_listed ([], refl, unfold try_each in refl)
    | inr listed ↦ rw (listed, opens) (all_drivers root cfg.drivers, refl, refl)
  ]
