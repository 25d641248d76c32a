-- ===== src/Tests/LinuxBoots.antt =====
-- Tests of src/boot/linux.rs: a firmware that starts what it is given.
use alpheratz.Prelude.{
  ℕ, ◌≤◌, ◌≡◌, refl, ap, List, [], ◌∷◌, ◌++◌, some, arith, bytes, length, leb, if◌then◌else◌, none,
}
use alpheratz.Firmware.{Status, ok}
use alpheratz.Linux.{
  BootServices, Call, Run, println, title, kernel_size, initrd_size, loading_image, cmdline_is,
  starting, initrd_load_file, boot_linux, install_initrd_load_file2, second_interface, start_kernel,
  with_text, with_cmdline, load,
}
use alpheratz.Linux.Initrd.{initrd_load_file-length}
use alpheratz.Linux.Text.{with_nul, code_units}
use alpheratz.Linux.Order.{IsFirmware, run_calls, boot_linux-success}

-- Text that does not fit is refused.
abbrev pub firmware : BootServices
firmware = record {
  install_device_path = ok 30;
  install_load_file2 = λ h. ok h;
  load_image = λ k. ok 40;
  from_str_with_buf = λ s n. if leb (length (with_nul s)) n then some (with_nul s) else none;
  open_loaded_image = λ i. ok i;
  start_image = λ i. ok i;
}

fitting :
    (n : ℕ) (all text : List ℕ)
    → (if leb (length all) n then some all else none) ≡ some text
    → (text ≡ all) × (length text ≤ n)
fitting n all text e = ground arith

pub firmware-IsFirmware : IsFirmware firmware
firmware-IsFirmware = record {
  load_err = λ k e. cc;
  open_err = λ i e. cc;
  start_err = λ i e. cc;
  whole_text = λ s n text e. fitting n (with_nul s) text e;
}

initrd_load_file-length_example :
    (after : List ℕ) × ((initrd_load_file (some (bytes "rd")) (some (1 ∷ 2 ∷ 3 ∷ [])) 3).buffer
      ≡ some after)
    × (length after ≡ 3)
initrd_load_file-length_example =
    initrd_load_file-length (some (bytes "rd")) (1 ∷ 2 ∷ 3 ∷ []) 3 (omega arith)

-- The whole run, with the command line and its NUL as twelve bytes.
boot_linux_run : boot_linux firmware (bytes "MZ") (some (bytes "rd")) (some (bytes "quiet")) ≡ (
  some Status.success,
  println title
      ∷ println (kernel_size 2)
      ∷ println (initrd_size 2)
      ∷ Call.install_device_path
      ∷ Call.install_load_file2 30 (bytes "rd")
      ∷ println loading_image
      ∷ Call.load_image (bytes "MZ")
      ∷ println (cmdline_is (bytes "quiet"))
      ∷ Call.open_loaded_image 40
      ∷ Call.set_load_options (bytes "quiet" ++ 0 ∷ []) 12
      ∷ println starting
      ∷ Call.start_image 40
      ∷ [],
)
unfolding boot_linux install_initrd_load_file2 second_interface start_kernel with_text with_cmdline
    load code_units
boot_linux_run = refl

boot_linux_succeeds :
    (boot_linux firmware (bytes "MZ") (some (bytes "rd")) (some (bytes "quiet"))).0
    ≡ some Status.success
boot_linux_succeeds = ap (λ (r : Run). r.0) boot_linux_run

boot_linux-success_example :
    (handle : ℕ) × ((image : ℕ) × (firmware.load_image (bytes "MZ") ≡ ok image)
      × ((boot_linux firmware (bytes "MZ") (some (bytes "rd")) (some (bytes "quiet"))).1
          ≡ run_calls handle image (bytes "MZ") (some (bytes "rd")) (some (bytes "quiet"))))
boot_linux-success_example =
    boot_linux-success firmware (bytes "MZ") (some (bytes "rd")) (some (bytes "quiet"))
      firmware-IsFirmware boot_linux_succeeds

-- "é", "€" and "a".
code_units_test :
    code_units (0xC3 ∷ 0xA9 ∷ 0xE2 ∷ 0x82 ∷ 0xAC ∷ 0x61 ∷ []) ≡ 0xE9 ∷ 0x20AC ∷ 0x61 ∷ []
unfolding code_units
code_units_test = refl
