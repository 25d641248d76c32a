-- ===== src/FsUtil.antt =====
-- src/fsutil.rs: the ESP's root, reading a file, and the drivers of the configuration. The firmware's
-- calls are a parameter. `load_drivers_from_config` gives the paths that it tries, in their order;
-- trying them is in FsUtil/Images.antt.
pub mod Reading
pub mod Images
pub mod Names
pub mod Drivers
pub mod Tries
use alpheratz.Prelude.{
  ℕ, ◌+◌, List, [], ◌∷◌, ◌++◌, Option, none, some, Bool, true, false, ◌&&◌, ◌||◌, leb, ◌==◌,
  is_empty, replicate, map, if◌then◌else◌, bytes, Str,
}
use alpheratz.Config.{Config}
use alpheratz.Firmware.{Status, Result, ok, err, ◌then_◌, ok_or}

pub record DirEntry : Type 0 where
  pub is_directory : Bool
  pub name : Str

-- A regular file: what `get_boxed_info` says of its size, and what `read` gives for a buffer.
pub record OpenFile : Type 0 where
  pub file_size : Result ℕ
  pub read : ℕ → Result Str

-- `into_type`, with the entries that `read_entry_boxed` gives for a directory.
pub data Node : Type 0 where
  directory : List DirEntry → Node
  regular : OpenFile → Node
  unknown : Node

-- A `Directory`: which paths UCS-2 can write, and what a path opens as.
pub record Volume : Type 0 where
  pub is_cstring16 : Str → Bool
  pub open_path : Str → Result Node

-- The firmware's calls on the way to the root.
pub record Esp : Type 0 where
  pub loaded_image : Result ℕ
  pub device : ℕ → Option ℕ
  pub simple_file_system : ℕ → Result ℕ
  pub open_volume : ℕ → Result Volume

unfoldable pub open_esp_root : Esp → Result Volume
open_esp_root firmware = firmware.loaded_image then_ λ image.
    ok_or (firmware.device image) Status.not_found then_ λ device.
    firmware.simple_file_system device then_ λ sfs. firmware.open_volume sfs

unfoldable pub into_regular_file : Node → Option OpenFile
into_regular_file (directory es) = none
into_regular_file (regular file) = some file
into_regular_file unknown = none

-- `read` into a buffer: the bytes that are read replace its first bytes.
unfoldable pub read_into : Str → Str → Str
read_into [] buf = buf
read_into (b ∷ bs) [] = []
read_into (b ∷ bs) (_ ∷ buf) = b ∷ read_into bs buf

unfoldable pub read_regular : OpenFile → Result Str
read_regular file = file.file_size then_ λ size.
    file.read size then_ λ data_read. ok (read_into data_read (replicate size 0))

unfoldable pub read_file : Volume → Str → Result Str
read_file root path =
    let contents = root.open_path path then_ λ handle.
    ok_or (into_regular_file handle) Status.invalid_parameter then_ read_regular in
    if root.is_cstring16 path then contents else err Status.invalid_parameter

-- `==` of strings.
unfoldable pub str_eq : Str → Str → Bool
str_eq [] [] = true
str_eq (a ∷ s) (b ∷ t) = (a == b) && str_eq s t
str_eq _ _ = false

unfoldable pub ends_with : Str → Str → Bool
ends_with suffix [] = str_eq suffix []
ends_with suffix (b ∷ bs) = let rest = ends_with suffix bs in str_eq suffix (b ∷ bs) || rest

abbrev pub lower : ℕ → ℕ
lower b = if leb b'A' b && leb b b'Z' then b + 32 else b

abbrev pub to_ascii_lowercase : Str → Str
to_ascii_lowercase [] = []
to_ascii_lowercase (b ∷ bs) = lower b ∷ to_ascii_lowercase bs

abbrev pub efi : Str
efi = bytes ".efi"

unfoldable pub path_join : Str → Str → Str
path_join dir file = if ends_with (bytes "\\") dir then dir ++ file else dir ++ b'\\' ∷ file

-- The tests of the loop over a directory, in their order.
unfoldable pub is_driver : DirEntry → Bool
is_driver e =
    if e.is_directory
    then false
    else if str_eq e.name (bytes ".") || str_eq e.name (bytes "..")
    then false
    else ends_with efi (to_ascii_lowercase e.name)

unfoldable pub dir_drivers : Str → List DirEntry → List Str
dir_drivers p [] = []
dir_drivers p (e ∷ es) =
    let rest = dir_drivers p es in if is_driver e then path_join p e.name ∷ rest else rest

unfoldable pub node_drivers : Str → Result Node → List Str
node_drivers p (err e) = []
node_drivers p (ok (directory es)) = dir_drivers p es
node_drivers p (ok (regular _)) = p ∷ []
node_drivers p (ok unknown) = []

unfoldable pub all_drivers : Volume → List Str → List Str
all_drivers root [] = []
all_drivers root (p ∷ ps) =
    let rest = all_drivers root ps in
    if root.is_cstring16 p then node_drivers p (root.open_path p) ++ rest else rest

unfoldable pub load_drivers_from_config : Esp → Config → Result (List Str)
load_drivers_from_config esp cfg =
    if is_empty cfg.drivers
    then ok []
    else (open_esp_root esp then_ λ root. ok (all_drivers root cfg.drivers))
