-- ===== src/Linux/Order.antt =====
-- What src/boot/linux.rs has asked of the firmware when Linux has run.
use alpheratz.Prelude.{
  ℕ, ◌∙◌, ◌*◌, ◌≤◌, ◌≡◌, ◌≢◌, ap, List, [], ◌∷◌, ◌++◌, Option, none, some, true, arith, length, Str,
  Option-cases, Bool-cases, inl, inr, ◌%◌, ◌^◌,
}
use alpheratz.Linux.Text.{with_nul}
use alpheratz.Firmware.{Status, ok, err, Result-cases}
use alpheratz.Linux.{
  BootServices, Call, println, title, kernel_size, initrd_size, loading_image, cmdline_is, starting,
  second_interface, start_kernel, with_text, with_cmdline, load, install_if,
  install_initrd_load_file2, boot_linux,
}

-- An error is never the status of success, and where `from_str_with_buf` takes a text it gives all of
-- it, with its NUL, in no more code units than its buffer has.
pub record IsFirmware (fw : BootServices) : Type 0 where
  pub load_err : (k : Str) → fw.load_image k ≢ err Status.success
  pub open_err : (image : ℕ) → fw.open_loaded_image image ≢ err Status.success
  pub start_err : (image : ℕ) → fw.start_image image ≢ err Status.success
  pub whole_text :
      (s : Str) (n : ℕ) (text : List ℕ)
      → fw.from_str_with_buf s n ≡ some text
      → (text ≡ with_nul s) × (length text ≤ n)

-- The specification: the calls that pass the initrd on, those that pass the command line on, and
-- those that start the kernel,
abbrev pub initrd_calls : ℕ → Option Str → List Call
initrd_calls handle none = []
initrd_calls handle (some initrd) =
    println (initrd_size (length initrd))
    ∷ Call.install_device_path
    ∷ Call.install_load_file2 handle initrd
    ∷ []

abbrev pub option_calls : ℕ → List ℕ → List Call
option_calls image text =
    Call.open_loaded_image image ∷ Call.set_load_options text (length text * 2) ∷ []

abbrev pub cmdline_calls : ℕ → Option Str → List Call
cmdline_calls image none = []
cmdline_calls image (some cmdline) =
    println (cmdline_is cmdline) ∷ option_calls image (with_nul cmdline)

abbrev pub start_calls : ℕ → List Call
start_calls image = println starting ∷ Call.start_image image ∷ []

-- and all of them, in their order.
abbrev pub run_calls : ℕ → ℕ → Str → Option Str → Option Str → List Call
run_calls handle image kernel initrd cmdline =
    println title
    ∷ println (kernel_size (length kernel))
    ∷ (initrd_calls handle initrd
        ++ println loading_image
          ∷ Call.load_image kernel
          ∷ (cmdline_calls image cmdline ++ start_calls image))

module _ (fw : BootServices) (firmware : IsFirmware fw) where
  start_kernel-success :
      (image : ℕ)
      → (start_kernel fw image).0 ≡ some Status.success
      → (start_kernel fw image).1 ≡ start_calls image
  unfolding start_kernel
  start_kernel-success image e = ground (arith, firmware.start_err image)

  with_text-success :
      (image : ℕ) (text : List ℕ)
      → length text ≤ 1024
      → (with_text fw image (some text)).0 ≡ some Status.success
      → (with_text fw image (some text)).1 ≡ option_calls image text ++ start_calls image
  unfolding with_text
  with_text-success image text fits e =
      let whole : length text * 2 % 2 ^ 32 ≡ length text * 2 = omega arith in
      ground (
        arith,
        whole,
        Result-cases (fw.open_loaded_image image),
        firmware.open_err image,
        start_kernel-success image,
      )

  with_cmdline-success :
      (image : ℕ) (cmdline : Option Str)
      → (with_cmdline fw image cmdline).0 ≡ some Status.success
      → (with_cmdline fw image cmdline).1 ≡ cmdline_calls image cmdline ++ start_calls image
  unfolding with_cmdline with_text
  with_cmdline-success image none e = start_kernel-success image e
  with_cmdline-success image (some cmdline) e =
      elim (Option-cases (fw.from_str_with_buf cmdline 1024)) [
        | inl too_long ↦ absurd (ground (arith, too_long))
        | inr (text, fits) ↦
            let (whole, short) = firmware.whole_text cmdline 1024 text fits in
            rw fits (
              ap (λ cs. println (cmdline_is cmdline) ∷ cs)
                (with_text-success image text short (rw fits at e)
                  ∙ ap (λ t. option_calls image t ++ start_calls image) whole))
      ]

  load-success :
      (kernel : Str) (cmdline : Option Str)
      → (load fw kernel cmdline).0 ≡ some Status.success
      → (image : ℕ) × (fw.load_image kernel ≡ ok image)
        × ((load fw kernel cmdline).1
            ≡ println loading_image
              ∷ Call.load_image kernel
              ∷ (cmdline_calls image cmdline ++ start_calls image))
  unfolding load
  load-success kernel cmdline e = elim (Result-cases (fw.load_image kernel)) [
    | inl (image, loaded) ↦ (
      image,
      loaded,
      rw (loaded, load)
          (ap (λ cs. println loading_image ∷ Call.load_image kernel ∷ cs)
            (with_cmdline-success image cmdline (rw (loaded, load) at e))),
    )
    | inr (s, failed) ↦ absurd (ground (arith, failed, firmware.load_err kernel))
  ]

installed :
    (fw : BootServices) (initrd : Str)
    → (install_initrd_load_file2 fw initrd).1 ≡ true
    → (handle : ℕ) × (install_initrd_load_file2 fw initrd
        ≡ (Call.install_device_path ∷ Call.install_load_file2 handle initrd ∷ [], true))
unfolding install_initrd_load_file2 second_interface
installed fw initrd e = elim (Result-cases fw.install_device_path) [
  | inl (handle, e1) ↦ (handle, ground (arith, e1, Result-cases (fw.install_load_file2 handle)))
  | inr (s, e1) ↦ absurd (ground (arith, e1))
]

-- Where `boot_linux` returns success, the kernel that it was given has been loaded and started as
-- the last call, after the initrd was installed and the options set to the whole command line in
-- UCS-2, with its NUL, if there are any; and it has said so at each step. This is where the firmware
-- gives no error the status of success, and `from_str_with_buf`, if it takes a text, gives all of it.
pub boot_linux-success :
    (fw : BootServices) (kernel : Str) (initrd cmdline : Option Str)
    → IsFirmware fw
    → (boot_linux fw kernel initrd cmdline).0 ≡ some Status.success
    → (handle : ℕ) × ((image : ℕ) × (fw.load_image kernel ≡ ok image)
        × ((boot_linux fw kernel initrd cmdline).1 ≡ run_calls handle image kernel initrd cmdline))
unfolding boot_linux install_if
boot_linux-success fw kernel none cmdline firmware e =
    let (image, loaded, calls) = load-success fw firmware kernel cmdline e in
    (
      0,
      (image, loaded, ap (λ cs. println title ∷ println (kernel_size (length kernel)) ∷ cs) calls),
    )
boot_linux-success fw kernel (some initrd) cmdline firmware e =
    elim (Bool-cases (install_initrd_load_file2 fw initrd).1) [
      | inl both_done ↦
          let (handle, both) = installed fw initrd both_done in
          let (image, loaded, calls) =
            load-success fw firmware kernel cmdline (rw (both, boot_linux) at e) in
          (
            handle,
            (
              image,
              loaded,
              rw (both, boot_linux)
                  (ap
                    (λ cs.
                      println title
                      ∷ println (kernel_size (length kernel))
                      ∷ (initrd_calls handle (some initrd) ++ cs))
                    calls),
            ),
          )
      | inr panics ↦ absurd (ground (arith, panics))
    ]
