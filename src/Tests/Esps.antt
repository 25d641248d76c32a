-- ===== src/Tests/Esps.antt =====
-- Tests of src/fsutil.rs: an ESP with a directory of drivers and a driver of its own.
use alpheratz.Prelude.{
  inl, ◌↔◌, ℕ, ◌++◌, ◌≡◌, refl, List, [], ◌∷◌, some, true, false, bytes, Str, if◌then◌else◌,
}
use alpheratz.Config.{Config, default_config}
use alpheratz.Firmware.{Status, ok, err}
use alpheratz.FsUtil.{
  DirEntry, directory, regular, Esp, str_eq, ends_with, path_join, is_driver, dir_drivers,
  node_drivers, all_drivers, load_drivers_from_config, OpenFile, Volume, open_esp_root, read_file,
  read_regular, into_regular_file, read_into,
}
use alpheratz.FsUtil.Drivers.{All, IsFound, load_drivers_from_config-IsConfigured}
use alpheratz.FsUtil.Reading.{IsReadFrom, read_file-IsReadFrom}
use alpheratz.FsUtil.Images.{
  ImageServices, load_and_start_image, EndsOneWay, load_and_start_image-outcome, load_drivers,
  try_each,
}
use alpheratz.Session.{Session}
use alpheratz.FsUtil.Tries.{Tried, load_drivers_from_config-tries}

abbrev file_named : Str → DirEntry
file_named name = record { is_directory = false; name = name }

abbrev entries : List DirEntry
entries =
    record { is_directory = true; name = bytes "..efi" }
    ∷ file_named (bytes "readme")
    ∷ file_named (bytes "NET.EFI")
    ∷ []

-- The information says eight bytes; the file has them, or six.
abbrev file : Str → OpenFile
file text = record { file_size = ok 8; read = λ size. ok text }

abbrev root : Volume
root = record {
  is_cstring16 = λ p. true;
  open_path = λ p.
      if str_eq p (bytes "drv")
      then ok (directory entries)
      else if str_eq p (bytes "x.efi")
      then ok (regular (file (bytes "x driver")))
      else ok (regular (file (bytes "driver")));
}

abbrev volume : Esp
volume = record {
  loaded_image = ok 1;
  device = λ image. some 2;
  simple_file_system = λ device. ok 3;
  open_volume = λ sfs. ok root;
}

abbrev config : Config
config = record default_config { drivers = bytes "drv" ∷ bytes "x.efi" ∷ [] }

abbrev tried : List Str
tried = bytes "drv\\NET.EFI" ∷ bytes "x.efi" ∷ []

load_drivers_from_config-tried : load_drivers_from_config volume config ≡ ok tried
unfolding load_drivers_from_config open_esp_root all_drivers node_drivers dir_drivers is_driver
    path_join ends_with str_eq
load_drivers_from_config-tried = refl

load_drivers_from_config-IsConfigured_example :
    All (IsFound (open_esp_root volume) config.drivers) tried
load_drivers_from_config-IsConfigured_example =
    load_drivers_from_config-IsConfigured volume config tried load_drivers_from_config-tried

load_drivers_from_config-tries_example :
    (all : List Str) × (load_drivers_from_config volume config ≡ ok all)
    × Tried all (path_join (bytes "drv") (bytes "NET.EFI"))
load_drivers_from_config-tries_example =
    load_drivers_from_config-tries volume config root 0 2 (bytes "drv") entries
      (file_named (bytes "NET.EFI")) (unfold open_esp_root in refl) refl refl
      (unfold str_eq in refl) refl
      (refl, (bytes "NET", (b'E', (b'F', (b'I', refl, inl refl, inl refl, inl refl)))))

-- A driver that is shorter than its information says is followed by zeros.
read_file-IsReadFrom_example : (read_file root (bytes "y") ≡ ok (bytes "driver" ++ 0 ∷ 0 ∷ [])) ↔ (
    (root.is_cstring16 (bytes "y") ≡ true)
    × ((f : OpenFile) × (root.open_path (bytes "y") ≡ ok (regular f))
        × IsReadFrom f (bytes "driver" ++ 0 ∷ 0 ∷ [])))
read_file-IsReadFrom_example = read_file-IsReadFrom root (bytes "y") (bytes "driver" ++ 0 ∷ 0 ∷ [])

read_file_zeros : read_file root (bytes "y") ≡ ok (bytes "driver" ++ 0 ∷ 0 ∷ [])
unfolding read_file read_regular into_regular_file read_into str_eq
read_file_zeros = refl

-- A machine that keeps the images it has loaded and the handles it has started, the latest first. It
-- refuses images with zeros.
pub data Done : Type 0 where
  loaded_image : Str → Done
  started : ℕ → Done

abbrev services : ImageServices (List Done)
services = record {
  load_image = λ image w.
      if str_eq image (bytes "x driver")
      then (ok 7, Done.loaded_image image ∷ w)
      else (err Status.unsupported, w);
  start_image = λ h w. (ok tt, started h ∷ w);
}

abbrev session : Session (List Done)
session = record { world = []; messages = [] }

-- The first driver is refused, the second is loaded and started.
load_drivers_run :
    load_drivers services volume config session
    ≡ (ok tt, record session { world = started 7 ∷ Done.loaded_image (bytes "x driver") ∷ [] })
unfolding load_drivers try_each load_and_start_image read_file read_regular into_regular_file
    read_into open_esp_root all_drivers node_drivers dir_drivers is_driver path_join ends_with
    str_eq
load_drivers_run = refl

load_and_start_image-outcome_example :
    EndsOneWay services root
      (bytes "x.efi")
      session
      (load_and_start_image services root (bytes "x.efi") session)
load_and_start_image-outcome_example =
    load_and_start_image-outcome services root (bytes "x.efi") session
