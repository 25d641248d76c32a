-- ===== src/Linux/Starts.antt =====
-- When src/boot/linux.rs starts the kernel.
use mathlib.Core.List.{append_assoc}
use alpheratz.Prelude.{
  ℕ, ◌*◌, ◌≤◌, ◌≡◌, ◌≢◌, refl, ap, ◌∙◌, List, [], ◌∷◌, ◌++◌, Option, none, some, true, arith,
  length, Str, ◌%◌, ◌^◌,
}
use alpheratz.Prelude.Fallible.{some_of_ne}
use alpheratz.Firmware.{Status, Result, ok, err, Result-cases}
use alpheratz.Linux.{
  BootServices, Run, Call, println, title, kernel_size, loading_image, cmdline_is,
  start_image_failed, after, second_interface, start_kernel, with_text, with_cmdline, load,
  install_if, install_initrd_load_file2, boot_linux,
}
use alpheratz.Linux.Order.{
  IsFirmware, option_calls, initrd_calls, cmdline_calls, start_calls, run_calls,
}

-- A firmware that loads the kernel, as `image`, takes an initrd, on `handle`, and can pass on the
-- command line, which fits its buffer.
pub record IsReady (fw : BootServices) (kernel : Str) (cmdline : Option Str) (handle image : ℕ)
    : Type 0 where
  pub device_path : fw.install_device_path ≡ ok handle
  pub load_file2 : (x : ℕ) × (fw.install_load_file2 handle ≡ ok x)
  pub loads : fw.load_image kernel ≡ ok image
  pub opens : (x : ℕ) × (fw.open_loaded_image image ≡ ok x)
  pub fits : (text : Str) → cmdline ≡ some text → fw.from_str_with_buf text 1024 ≢ none

-- What `boot_linux` returns when the kernel has been started,
abbrev pub status_of : Result ℕ → Status
status_of (ok _) = Status.success
status_of (err e) = e

-- and the message where it fails.
abbrev pub failure_calls : Result ℕ → List Call
failure_calls (ok _) = []
failure_calls (err e) = println (start_image_failed e) ∷ []

start_kernel_lem :
    (fw : BootServices) (image : ℕ)
    → start_kernel fw image ≡ (
      some (status_of (fw.start_image image)),
      start_calls image ++ failure_calls (fw.start_image image),
    )
unfolding start_kernel
start_kernel_lem fw image = ground (arith, Result-cases (fw.start_image image))

module _ (fw : BootServices) (firmware : IsFirmware fw) (kernel : Str) (cmdline : Option Str)
    (handle image : ℕ) (ready : IsReady fw kernel cmdline handle image) where
  abbrev started : List Call
  started = start_calls image ++ failure_calls (fw.start_image image)

  abbrev set_and_start : List ℕ → Run
  set_and_start text = (some (status_of (fw.start_image image)), option_calls image text ++ started)

  text_lem :
      (text : List ℕ)
      → length text ≤ 1024
      → with_text fw image (some text) ≡ (
        some (status_of (fw.start_image image)),
        Call.open_loaded_image image ∷ Call.set_load_options text (length text * 2) ∷ started,
      )
  unfolding with_text
  text_lem text fits =
      let whole : length text * 2 % 2 ^ 32 ≡ length text * 2 = omega (arith, fits) in
      rw (ready.opens.1, whole, with_text)
        (ap
          (after (Call.open_loaded_image image ∷ Call.set_load_options text (length text * 2) ∷ []))
          (start_kernel_lem fw image))

  cmdline_lem :
      (given : Option Str)
      → ((text : Str) → given ≡ some text → fw.from_str_with_buf text 1024 ≢ none)
      → with_cmdline fw image given
        ≡ (some (status_of (fw.start_image image)), cmdline_calls image given ++ started)
  unfolding with_cmdline
  cmdline_lem none fits = start_kernel_lem fw image
  cmdline_lem (some given) fits =
      let (text, converted) = some_of_ne _ (fits given refl) in
      let (whole, short) = firmware.whole_text given 1024 text converted in
      rw converted (
        ap (after (println (cmdline_is given) ∷ [])) (text_lem text short ∙ ap set_and_start whole))

  load_lem : load fw kernel cmdline ≡ (
    some (status_of (fw.start_image image)),
    println loading_image ∷ Call.load_image kernel ∷ (cmdline_calls image cmdline ++ started),
  )
  unfolding load
  load_lem =
      rw (ready.loads, load)
        (ap (after (println loading_image ∷ Call.load_image kernel ∷ []))
          (cmdline_lem cmdline ready.fits))

  installed_lem :
      (initrd : Str)
      → install_initrd_load_file2 fw initrd
        ≡ (Call.install_device_path ∷ Call.install_load_file2 handle initrd ∷ [], true)
  unfolding install_initrd_load_file2 second_interface
  installed_lem initrd = rw (ready.device_path, ready.load_file2.1) refl

  install_lem : (initrd : Option Str) → install_if fw initrd ≡ (initrd_calls handle initrd, true)
  unfolding install_if
  install_lem none = refl
  install_lem (some initrd) = rw (installed_lem initrd) refl

  -- Where nothing fails before it, `boot_linux` starts the kernel: with an initrd or without, with a
  -- command line or without. It returns what comes of the start, and has made these calls.
  pub boot_linux-starts :
      (initrd : Option Str)
      → boot_linux fw kernel initrd cmdline ≡ (
        some (status_of (fw.start_image image)),
        run_calls handle image kernel initrd cmdline ++ failure_calls (fw.start_image image),
      )
  unfolding boot_linux
  boot_linux-starts initrd = rw (install_lem initrd) (
      ap
        (after (println title ∷ println (kernel_size (length kernel)) ∷ initrd_calls handle initrd))
        load_lem
      ∙ simp append_assoc)
