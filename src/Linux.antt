-- ===== src/Linux.antt =====
-- src/boot/linux.rs: starting Linux through its EFI stub. The firmware is a parameter; what the
-- loader asks of it, in order, is a list of calls. `none` is a panic of `expect`.
pub mod Initrd
pub mod Text
pub mod Order
pub mod Starts
pub mod DevicePath
use alpheratz.Prelude.{
  ℕ, ◌+◌, ◌*◌, ◌/◌, ◌%◌, ◌^◌, List, [], ◌∷◌, ◌++◌, Option, none, some, Bool, true, false, ◌||◌, ltb,
  ◌==◌, if◌then◌else◌, length, drop, Str,
}
use alpheratz.Firmware.{Status, Result, ok, err}

-- What a call of `initrd_load_file` comes to: the status, the caller's buffer (`none` is a null
-- pointer) and the size that it reads back.
pub record Reply : Type 0 where
  pub status : Status
  pub buffer : Option (List ℕ)
  pub buffer_size : ℕ

abbrev copied : Str → List ℕ → List ℕ
copied source buffer = source ++ drop (length source) buffer

load_into : Str → Option (List ℕ) → ℕ → Reply
load_into bytes none size = record {
  status = Status.buffer_too_small;
  buffer = none;
  buffer_size = length bytes;
}
load_into bytes (some buffer) size =
    if ltb size (length bytes)
    then record {
      status = Status.buffer_too_small;
      buffer = some buffer;
      buffer_size = length bytes;
    }
    else record {
      status = Status.success;
      buffer = some (copied bytes buffer);
      buffer_size = length bytes;
    }

-- The initrd is what `INITRD_DATA_PTR` and `INITRD_DATA_LEN` hold, `none` before they are set.
unfoldable pub initrd_load_file : Option Str → Option (List ℕ) → ℕ → Reply
unfolding load_into
initrd_load_file none buffer size = record {
  status = Status.not_found;
  buffer = buffer;
  buffer_size = size;
}
initrd_load_file (some bytes) buffer size =
    if length bytes == 0
    then record { status = Status.not_found; buffer = buffer; buffer_size = size }
    else load_into bytes buffer size

-- The firmware, and `CStr16::from_str_with_buf` into so many code units. Each answer may depend on
-- what it is given; a handle is a number.
pub record BootServices : Type 0 where
  pub install_device_path : Result ℕ
  pub install_load_file2 : ℕ → Result ℕ
  pub load_image : Str → Result ℕ
  pub from_str_with_buf : Str → ℕ → Option (List ℕ)
  pub open_loaded_image : ℕ → Result ℕ
  pub start_image : ℕ → Result ℕ

-- What is printed: the text where it shows one, sizes and statuses.
pub data Notice : Type 0 where
  title loading_image kernel_hint cmdline_too_long starting : Notice
  kernel_size initrd_size : ℕ → Notice
  cmdline_is : Str → Notice
  load_image_failed open_protocol_failed start_image_failed : Status → Notice

-- What is asked of the firmware, with the memory that the call is about.
pub data Call : Type 0 where
  println : Notice → Call
  install_device_path : Call
  install_load_file2 : ℕ → Str → Call
  load_image : Str → Call
  open_loaded_image : ℕ → Call
  set_load_options : List ℕ → ℕ → Call
  start_image : ℕ → Call

-- A return value, or a panic, with the calls up to it.
abbrev pub Run : Type 0
Run = Option Status × List Call

-- Some calls, and then what comes after them.
abbrev pub after : List Call → Run → Run
after calls run = (run.0, calls ++ run.1)

unfoldable pub second_interface : BootServices → Str → Result ℕ → List Call × Bool
second_interface fw bytes (err e) = (Call.install_device_path ∷ [], false)
second_interface fw bytes (ok handle) =
    let calls = Call.install_device_path ∷ Call.install_load_file2 handle bytes ∷ [] in
    elim (fw.install_load_file2 handle) [ ok _ ↦ (calls, true) | err _ ↦ (calls, false) ]

-- What the two statics hold once the initrd has been installed, if there is one.
unfoldable pub initrd_data : Option Str → Option Str → Option Str
initrd_data before none = before
initrd_data before (some bytes) = some bytes

-- The calls, and whether both installations succeeded.
unfoldable pub install_initrd_load_file2 : BootServices → Str → List Call × Bool
unfolding second_interface
install_initrd_load_file2 fw bytes = second_interface fw bytes fw.install_device_path

install_if : BootServices → Option Str → List Call × Bool
install_if fw none = ([], true)
install_if fw (some bytes) =
    let (calls, installed) = install_initrd_load_file2 fw bytes in
    (println (initrd_size (length bytes)) ∷ calls, installed)

unfoldable pub start_kernel : BootServices → ℕ → Run
start_kernel fw image =
    after (println starting ∷ Call.start_image image ∷ []) (elim (fw.start_image image) [
      | ok _ ↦ (some Status.success, [])
      | err e ↦ (some e, println (start_image_failed e) ∷ [])
    ])

-- The options are the UTF-16 text with its NUL, `size` bytes of it.
unfoldable pub with_text : BootServices → ℕ → Option (List ℕ) → Run
unfolding start_kernel
with_text fw image none = (some Status.invalid_parameter, println cmdline_too_long ∷ [])
with_text fw image (some text) =
    let size = length text * 2 % 2 ^ 32 in
    after (Call.open_loaded_image image ∷ []) (elim (fw.open_loaded_image image) [
      | err e ↦ (some e, println (open_protocol_failed e) ∷ [])
      | ok _ ↦ after (Call.set_load_options text size ∷ []) (start_kernel fw image)
    ])

unfoldable pub with_cmdline : BootServices → ℕ → Option Str → Run
unfolding with_text
with_cmdline fw image none = start_kernel fw image
with_cmdline fw image (some cmdline) =
    after (println (cmdline_is cmdline) ∷ [])
      (with_text fw image (fw.from_str_with_buf cmdline 1024))

unfoldable pub load : BootServices → Str → Option Str → Run
unfolding with_cmdline
load fw kernel cmdline =
    after (println loading_image ∷ Call.load_image kernel ∷ []) (elim (fw.load_image kernel) [
      | err e ↦ (some e, println (load_image_failed e) ∷ println kernel_hint ∷ [])
      | ok image ↦ with_cmdline fw image cmdline
    ])

unfoldable pub boot_linux : BootServices → Str → Option Str → Option Str → Run
unfolding install_if load
boot_linux fw kernel initrd cmdline =
    let (calls, installed) = install_if fw initrd in
    after (println title ∷ println (kernel_size (length kernel)) ∷ calls)
      (if installed then load fw kernel cmdline else (none, []))
