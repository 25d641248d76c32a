-- ===== src/Main/Initrd.antt =====
-- The initrd of an entry, from its files in src/download.rs to the kernel that asks
-- `initrd_load_file` of src/boot/linux.rs for it.
use alpheratz.Prelude.{
  ℕ, ◌≡◌, ◌≢◌, refl, ap, ◌∙◌, List, [], ◌∷◌, Option, none, some, arith, length, Str,
}
use alpheratz.Config.{Entry, FileType, esp, https}
use alpheratz.Firmware.{Status, ok, ◌then_◌}
use alpheratz.Download.{Sources, ResolvedFiles, open_if, any_needs, resolve_all}
use alpheratz.Download.Files.{
  Items, all_contents, of_type, concat, one_of_all, resolved, resolve_all-resolved,
}
use alpheratz.Linux.{initrd_load_file, initrd_data}
use alpheratz.Linux.Initrd.{initrd_load_file-whole}

one_of_all-concat :
    (texts : List Str) → length (concat texts) ≢ 0 → one_of_all texts ≡ some (concat texts)
one_of_all-concat [] some_bytes = absurd (some_bytes refl)
one_of_all-concat (t ∷ ts) some_bytes = refl

-- Where the files of an entry can be read, and those for the initrd are not all empty, a kernel that
-- asks for the size of the initrd and then for its bytes, in a buffer of that size, gets all of
-- these files, one behind the other in the order of the configuration, and nothing else.
pub initrd_load_file-resolved :
    (src : Sources) (entry : Entry) (root http : ℕ) (items : Items) (before : Option Str) (size : ℕ)
    (buffer : List ℕ)
    → open_if (any_needs esp entry.files) src.open_esp_root ≡ ok root
    → open_if (any_needs https entry.files) src.start_http ≡ ok http
    → all_contents src entry.files ≡ ok items
    → length (concat (of_type FileType.initrd items)) ≢ 0
    → length buffer ≡ length (concat (of_type FileType.initrd items))
    → let initrd = concat (of_type FileType.initrd items) in
      (files : ResolvedFiles) × (resolve_all src entry ≡ ok files)
      × ((initrd_load_file (initrd_data before files.initrd) none size).buffer_size ≡ length initrd)
      × (initrd_load_file (initrd_data before files.initrd) (some buffer) (length buffer)
          ≡ record { status = Status.success; buffer = some initrd; buffer_size = length initrd })
unfolding initrd_data
initrd_load_file-resolved src entry root http items before size buffer has_root has_http read
      some_bytes fits =
    let initrd = concat (of_type FileType.initrd items) in
    let is_given = one_of_all-concat (of_type FileType.initrd items) some_bytes in
    let told : (initrd_load_file (some initrd) none size).buffer_size ≡ length initrd =
      unfold initrd_load_file in ground arith in
    let (asked, given) =
      initrd_load_file-whole initrd size buffer some_bytes (omega (arith, fits, told)) in
    (
      resolved items,
      resolve_all-resolved src entry root http has_root has_http
          ∙ ap (λ r. r then_ λ items. ok (resolved items)) read,
      rw is_given told,
      rw is_given given,
    )
