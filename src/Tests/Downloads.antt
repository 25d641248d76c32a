-- ===== src/Tests/Downloads.antt =====
-- Tests of src/download.rs: an entry with a kernel on the ESP and two initrds, one downloaded.
use alpheratz.Prelude.{arith, ◌++◌, inl, ◌≡◌, refl, List, [], ◌∷◌, none, some, bytes, Str}
use alpheratz.Config.{Entry, BootFile, Protocol, FileType, SearchMethod, esp, https, inline}
use alpheratz.Firmware.{Result, ok, ◌then_◌}
use alpheratz.Session.{Session}
use alpheratz.Download.{
  Sources, resolve_all, resolve_files, contents, place, place_if, unwrap_or_empty, wrap, joined,
  concatenated, finish, any_needs, open_if,
}
use alpheratz.Download.Text.{
  expand_vars, contains, replace, starts_with, is_utf8, trim_end_newlines,
}
use alpheratz.Download.Request.{HttpFirmware, collect, download}
use alpheratz.Download.Pieces.{joined_pieces, download-Whole}
use alpheratz.Download.Files.{all_contents, resolved, resolve_all-resolved}
use alpheratz.Download.Expansion.{expand_vars-joined_by}

-- A file's content is its path, and a page's its address.
abbrev pub sources : Sources
sources = record {
  arch_name = bytes "x86_64";
  open_esp_root = ok 1;
  start_http = ok 2;
  read_file = λ path. ok path;
  download = λ n url. ok url;
}

abbrev a_file : FileType → SearchMethod → Str → BootFile
a_file t m file = record {
  file_type = t;
  search = m;
  file = some file;
  content = some file;
  select = none;
}

abbrev pub entry : Entry
entry = record {
  name = bytes "Linux";
  protocol = Protocol.linux;
  identity = none;
  files =
      a_file FileType.kernel esp (bytes "\\${arch}\\vmlinuz")
      ∷ a_file FileType.initrd https (bytes "u")
      ∷ a_file FileType.cmdline inline (bytes "quiet\n\n")
      ∷ a_file FileType.initrd esp []
      ∷ a_file FileType.initrd esp (bytes "v")
      ∷ [];
}

resolve_all_text :
    resolve_all sources entry
    ≡ ok (record {
      kernel = some (bytes "\\x86_64\\vmlinuz");
      initrd = some (bytes "uv");
      cmdline = some (bytes "quiet");
    })
unfolding resolve_all resolve_files contents place place_if unwrap_or_empty wrap joined concatenated
    finish any_needs open_if expand_vars contains replace starts_with is_utf8 trim_end_newlines
resolve_all_text = refl

resolve_all-resolved_example :
    resolve_all sources entry
    ≡ (all_contents sources entry.files then_ λ items. ok (resolved items))
resolve_all-resolved_example =
    resolve_all-resolved sources entry 1 2 (unfold open_if any_needs in refl)
      (unfold open_if any_needs in refl)

-- A dollar sign of its own stays.
expand_vars-joined_by_example :
    expand_vars (bytes "riscv64") (bytes "$/${arch}/boot-${arch}.efi")
    ≡ bytes "$/riscv64/boot-riscv64.efi"
expand_vars-joined_by_example =
    expand_vars-joined_by (bytes "riscv64") (bytes "$/") (bytes "/boot-" ∷ bytes ".efi" ∷ [])
      (unfold contains starts_with in (refl, (refl, (refl, tt))))

-- A client whose world is the pieces that are still to come.
response_more : List Str → Result Str × List Str
response_more [] = (ok [], [])
response_more (p ∷ ps) = (ok p, ps)

client : HttpFirmware (List Str)
unfolding response_more
client = record {
  http_new = λ nic w. (ok 6, w);
  configure = λ h w. (ok tt, w);
  request_get = λ h url w. (ok tt, bytes "ab" ∷ bytes "cd" ∷ bytes "e" ∷ [] ∷ bytes "f" ∷ []);
  response_first = λ h w. response_more w;
  response_more = λ h w. response_more w;
  fuel = 10;
}

abbrev session : Session (List Str)
session = record { world = []; messages = [] }

-- What comes after the empty piece is left.
download_text :
    download client 6 (bytes "u") session
    ≡ (ok (bytes "abcde"), record session { world = bytes "f" ∷ [] })
unfolding download collect client
download_text = refl

-- The pieces of a body behind its first part, the empty one last.
download-Whole_example : download client 6 (bytes "u") session ≡ (
  ok (bytes "ab" ++ joined_pieces (bytes "cd" ∷ bytes "e" ∷ [])),
  record session { world = bytes "f" ∷ [] },
)
download-Whole_example =
    download-Whole client 6 (bytes "u") (bytes "ab") session
      (bytes "ab" ∷ bytes "cd" ∷ bytes "e" ∷ [] ∷ bytes "f" ∷ [])
      (bytes "cd" ∷ bytes "e" ∷ [] ∷ bytes "f" ∷ []) (bytes "cd" ∷ bytes "e" ∷ []) (ok [])
      (bytes "f" ∷ []) (unfold client in refl) (unfold client in refl)
      (unfold client response_more in
        (
          (λ e. cc (e)),
          (
            bytes "e" ∷ [] ∷ bytes "f" ∷ [],
            refl,
            ((λ e. cc (e)), ([] ∷ bytes "f" ∷ [], refl, refl)),
          ),
        ))
      (inl refl) (unfold client in omega arith)
