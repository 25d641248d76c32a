-- ===== src/Tests/Initrds.antt =====
-- Tests of an entry's initrd: of its two files one is on the ESP and one is downloaded.
use alpheratz.Prelude.{◌≡◌, refl, [], ◌∷◌, none, some, arith, bytes}
use alpheratz.Config.{FileType}
use alpheratz.Firmware.{Status, ok}
use alpheratz.Download.{
  ResolvedFiles, resolve_all, contents, unwrap_or_empty, wrap, any_needs, open_if,
}
use alpheratz.Download.Files.{Items, all_contents, of_type}
use alpheratz.Download.Text.{expand_vars, contains, replace, starts_with}
use alpheratz.Linux.{initrd_load_file, initrd_data}
use alpheratz.Main.Initrd.{initrd_load_file-resolved}
use alpheratz.Tests.Downloads

abbrev items : Items
items =
    (FileType.kernel, bytes "\\x86_64\\vmlinuz")
    ∷ (FileType.initrd, bytes "u")
    ∷ (FileType.cmdline, bytes "quiet\n\n")
    ∷ (FileType.initrd, bytes "v")
    ∷ []

all_contents-items : all_contents Downloads.sources Downloads.entry.files ≡ ok items
unfolding all_contents contents unwrap_or_empty wrap expand_vars contains replace starts_with
all_contents-items = refl

initrd_load_file-resolved_example :
    (files : ResolvedFiles) × (resolve_all Downloads.sources Downloads.entry ≡ ok files)
    × ((initrd_load_file (initrd_data none files.initrd) none 7).buffer_size ≡ 2)
    × (initrd_load_file (initrd_data none files.initrd) (some (0 ∷ 0 ∷ [])) 2
        ≡ record { status = Status.success; buffer = some (bytes "uv"); buffer_size = 2 })
unfolding of_type
initrd_load_file-resolved_example =
    initrd_load_file-resolved Downloads.sources Downloads.entry 1 2 items none 7 (0 ∷ 0 ∷ [])
      (unfold open_if any_needs in refl) (unfold open_if any_needs in refl) all_contents-items
      (omega arith) (omega arith)
