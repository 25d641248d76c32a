-- ===== src/Main/Load.antt =====
-- `load_config` of src/main.rs. `from_str` is `Config::from_str`, which decodes TOML; its error is
-- `none`.
use alpheratz.Prelude.{
  ℕ, ◌≡◌, refl, ap, Option, none, some, true, if◌then◌else◌, bytes, Str, replicate,
}
use alpheratz.Prelude.Fallible.{◌>>=◌}
use alpheratz.Config.{Config, default_config}
use alpheratz.Firmware.{Status, Result, ok, err, ◌then_◌, ok_or}
use alpheratz.FsUtil.{
  Volume, Esp, open_esp_root, into_regular_file, read_into, read_regular, read_file,
}
use alpheratz.Download.Text.{is_utf8}

abbrev pub config_path : Str
config_path = bytes "\\EFI\\BOOT\\bootloader.toml"

-- `.ok()`
abbrev pub to_option {ℓ} : {A : Type ℓ} → Result A → Option A
to_option (ok a) = some a
to_option (err e) = none

-- `core::str::from_utf8(..).ok()`
unfoldable pub from_utf8 : Str → Option Str
from_utf8 buf = if is_utf8 buf then some buf else none

unfoldable pub unwrap_or_default : Option Config → Config
unwrap_or_default none = default_config
unwrap_or_default (some cfg) = cfg

-- The file's bytes, by the functions of src/fsutil.rs.
abbrev pub from_file : Esp → Result Str
from_file firmware = open_esp_root firmware then_ λ root. read_file root config_path

module _ (from_str : Str → Option Config) where
  unfoldable pub read_config : Esp → Option Config
  read_config firmware = do
    loaded_image ← to_option firmware.loaded_image
    device ← firmware.device loaded_image
    sfs ← to_option (firmware.simple_file_system device)
    root ← to_option (firmware.open_volume sfs)
    handle ← to_option (root.open_path config_path)
    file ← into_regular_file handle
    size ← to_option file.file_size
    bytes_read ← to_option (file.read size)
    text ← from_utf8 (read_into bytes_read (replicate size 0))
    from_str text

  unfoldable pub load_config : Esp → Config
  unfolding unwrap_or_default
  load_config firmware = unwrap_or_default (read_config firmware)

  abbrev pub decoded : Result Str → Option Config
  decoded r = to_option r >>= from_utf8 >>= from_str

  -- A step of the chain on both sides, alone and within a chain of its own.
  module _ {ℓ} {A : Type ℓ} where
    result_step :
        (r : Result A) (f : A → Option Config) (g : A → Result Str)
        → ((a : A) → r ≡ ok a → f a ≡ decoded (g a))
        → (to_option r >>= f) ≡ decoded (r then_ g)
    result_step (ok a) f g h = h a refl
    result_step (err e) f g h = refl

    option_step :
        (o : Option A) (e : Status) (f : A → Option Config) (g : A → Result Str)
        → ((a : A) → f a ≡ decoded (g a))
        → (o >>= f) ≡ decoded (ok_or o e then_ g)
    option_step none e f g h = refl
    option_step (some a) e f g h = h a

    inner_result_step {κ} :
        {B : Type κ} (r : Result A) (f : A → Option Config) (f' : A → Result B) (g : B → Result Str)
        → ((a : A) → f a ≡ decoded (f' a then_ g))
        → (to_option r >>= f) ≡ decoded ((r then_ f') then_ g)
    inner_result_step (ok a) f f' g h = h a
    inner_result_step (err e) f f' g h = refl

    inner_option_step {κ} :
        {B : Type κ} (o : Option A) (e : Status) (f : A → Option Config) (f' : A → Result B)
        (g : B → Result Str)
        → ((a : A) → f a ≡ decoded (f' a then_ g))
        → (o >>= f) ≡ decoded ((ok_or o e then_ f') then_ g)
    inner_option_step none e f f' g h = refl
    inner_option_step (some a) e f f' g h = h a

  -- From `root.open` on.
  read_text : Volume → Option Config
  read_text root = do
    handle ← to_option (root.open_path config_path)
    file ← into_regular_file handle
    size ← to_option file.file_size
    bytes_read ← to_option (file.read size)
    text ← from_utf8 (read_into bytes_read (replicate size 0))
    from_str text

  read_text-decoded :
      (root : Volume)
      → root.is_cstring16 config_path ≡ true
      → read_text root ≡ decoded (read_file root config_path)
  unfolding read_text read_file read_regular
  read_text-decoded root writable = rw writable (
      result_step (root.open_path config_path) _ _ (λ handle _.
        option_step (into_regular_file handle) Status.invalid_parameter _ _ (λ file.
          result_step file.file_size _ _
            (λ size _. result_step (file.read size) _ _ (λ bytes_read _. refl)))))

  read_config-decoded :
      (firmware : Esp)
      → ((sfs : ℕ) (root : Volume)
          → firmware.open_volume sfs ≡ ok root
          → root.is_cstring16 config_path ≡ true)
      → read_config firmware ≡ decoded (from_file firmware)
  unfolding read_config open_esp_root read_text
  read_config-decoded firmware writable = inner_result_step firmware.loaded_image _ _ _ (λ image.
      inner_option_step (firmware.device image) Status.not_found _ _ _ (λ device.
        inner_result_step (firmware.simple_file_system device) _ _ _ (λ sfs.
          result_step (firmware.open_volume sfs) _ _
            (λ root opened. read_text-decoded root (writable sfs root opened)))))

  -- `load_config` gives what `Config::from_str` makes of the file at its path, as `read_file` reads it
  -- from `open_esp_root`, if all of that succeeds and the bytes are UTF-8, and the default
  -- configuration otherwise. UCS-2 can write the path.
  pub load_config-from_file :
      (firmware : Esp)
      → ((sfs : ℕ) (root : Volume)
          → firmware.open_volume sfs ≡ ok root
          → root.is_cstring16 config_path ≡ true)
      → load_config firmware ≡ unwrap_or_default (decoded (from_file firmware))
  unfolding load_config
  load_config-from_file firmware writable =
      ap unwrap_or_default (read_config-decoded firmware writable)
