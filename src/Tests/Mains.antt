-- ===== src/Tests/Mains.antt =====
-- Tests of src/main.rs: an entry with its kernel in the configuration, behind one that has none.
use alpheratz.Prelude.{
  Option, Str, if◌then◌else◌, ◌≡◌, refl, sym, ap, List, [], ◌∷◌, none, some, true, bytes,
}
use alpheratz.Config.{
  Config, BootFile, Protocol, FileType, inline, default_config, default_entry_index,
}
use alpheratz.Firmware.{Status, ok, err, eq_of_ok}
use alpheratz.FsUtil.{OpenFile, regular, Volume, Esp, str_eq, into_regular_file, read_into}
use alpheratz.Download.Text.{is_utf8}
use alpheratz.Menu.{
  down, printable, show, run, start, continue, round, total_items, confirm, index_to_selection,
}
use alpheratz.Download.{
  Sources, resolve_all, resolve_files, contents, place, place_if, unwrap_or_empty, wrap, joined,
  finish, any_needs, open_if,
}
use alpheratz.Main.{
  Turn, boot_canicula, main_loop, turn, selected, with_entry, with_files, with_kernel, dispatch,
  after_key,
}
use alpheratz.Main.Wait.{wait_for_key}
use alpheratz.Main.Load.{
  load_config, config_path, decoded, from_file, unwrap_or_default, from_utf8, read_config,
  load_config-from_file,
}
use alpheratz.Main.Choice.{IsChosen, main_loop-IsChosen}

-- Nothing can be opened or read; files in the configuration do not need it.
abbrev sources : Sources
sources = record {
  arch_name = bytes "x86_64";
  open_esp_root = err Status.not_found;
  start_http = err Status.not_found;
  read_file = λ path. err Status.not_found;
  download = λ n url. err Status.not_found;
}

abbrev kernel : BootFile
kernel = record {
  file_type = FileType.kernel;
  search = inline;
  file = none;
  content = some (bytes "ELF");
  select = none;
}

abbrev config : Config
config = record default_config {
  shutdown = true;
  entry =
      record { name = bytes "Empty"; protocol = Protocol.linux; identity = none; files = [] }
      ∷ record {
        name = bytes "Canicula";
        protocol = Protocol.canicula;
        identity = none;
        files = kernel ∷ [];
      }
      ∷ [];
}

-- First Enter on the empty entry, then Down and Enter.
abbrev turns : List Turn
turns =
    record { keys = some (printable 13) ∷ []; sources = sources; readings = none ∷ some down ∷ [] }
    ∷ record {
      keys = none ∷ some down ∷ some (printable 13) ∷ [];
      sources = sources;
      readings = none ∷ some down ∷ [];
    }
    ∷ []

main_loop_boots : main_loop config turns ≡ boot_canicula 1 (bytes "ELF") none
unfolding main_loop turn selected with_entry with_files with_kernel dispatch after_key wait_for_key
    show run start continue round total_items confirm index_to_selection default_entry_index
    resolve_all resolve_files contents place place_if unwrap_or_empty wrap joined finish any_needs
    open_if
main_loop_boots = refl

main_loop-IsChosen_example : IsChosen config turns (main_loop config turns)
main_loop-IsChosen_example = main_loop-IsChosen config turns

-- A disk whose one file is the configuration; its timeout is taken for what the text decodes to.
abbrev text : Str
text = bytes "timeout = 9"

abbrev file : OpenFile
file = record { file_size = ok 11; read = λ size. ok text }

abbrev root : Volume
root = record {
  is_cstring16 = λ path. true;
  open_path = λ path. if str_eq path config_path then ok (regular file) else err Status.not_found;
}

abbrev disk : Esp
disk = record {
  loaded_image = ok 1;
  device = λ image. some 2;
  simple_file_system = λ device. ok 3;
  open_volume = λ sfs. ok root;
}

abbrev from_str : Str → Option Config
from_str s = if str_eq s text then some (record default_config { timeout = 9 }) else none

load_config_timeout : (load_config from_str disk).timeout ≡ 9
unfolding load_config read_config unwrap_or_default into_regular_file read_into from_utf8 is_utf8
    str_eq
load_config_timeout = refl

load_config-from_file_example :
    load_config from_str disk ≡ unwrap_or_default (decoded from_str (from_file disk))
load_config-from_file_example =
    load_config-from_file from_str disk
      (λ sfs r h. ap (λ (r : Volume). r.is_cstring16 config_path) (sym (eq_of_ok h)))
