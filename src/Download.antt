-- ===== src/Download.antt =====
-- src/download.rs: the files of an entry, from the ESP, over HTTPS or from the configuration, over
-- what the file system and the network give, in `Sources`. Client.antt has the same code on the
-- machine.
pub mod Text
pub mod Files
pub mod Expansion
pub mod Client
pub mod Effects
pub mod Request
pub mod Pieces
pub mod Answers
pub mod Online
pub mod Started
use alpheratz.Prelude.{
  ℕ, zero, suc, ◌+◌, List, [], ◌∷◌, ◌++◌, Option, none, some, Bool, true, false, if◌then◌else◌,
  is_empty, length, ◌==◌, Str,
}
use alpheratz.Config.{Entry, BootFile, SearchMethod, FileType, esp, https, inline}
use alpheratz.Firmware.{Status, Result, ok, err, ◌then_◌}
use Text.{expand_vars, is_utf8, trim_end_newlines}

-- What the code reads from: `download n url` is what comes of downloading `url` for the `n`-th of
-- the files that are still to be resolved.
pub record Sources : Type 0 where
  pub arch_name : Str
  pub open_esp_root : Result ℕ
  pub start_http : Result ℕ
  pub read_file : Str → Result Str
  pub download : ℕ → Str → Result Str

-- The sources of the files after the first.
abbrev pub later : Sources → Sources
later src = record src { download = λ n. src.download (suc n) }

pub record ResolvedFiles : Type 0 where
  pub kernel : Option Str
  pub initrd : Option Str
  pub cmdline : Option Str

-- The variables of the loop.
pub record Resolving : Type 0 where
  pub kernel : Option Str
  pub initrd_parts : List Str
  pub cmdline : Option Str

unfoldable pub unwrap_or_empty : Option Str → Str
unwrap_or_empty none = []
unwrap_or_empty (some s) = s

unfoldable pub wrap : Result Str → Result (Option Str)
wrap r = r then_ λ s. ok (some s)

-- The bytes of a file; `ok none` is `continue`.
unfoldable pub contents : Sources → BootFile → Result (Option Str)
unfolding unwrap_or_empty wrap
contents src f =
    let file = unwrap_or_empty f.file in
    elim f.search [
      | esp ↦
          if is_empty file then ok none else wrap (src.read_file (expand_vars src.arch_name file))
      | https ↦
          if is_empty file then ok none else wrap (src.download 0 (expand_vars src.arch_name file))
      | inline ↦ ok f.content
    ]

-- `match f.file_type`
unfoldable pub place : FileType → Str → Resolving → Resolving
place FileType.kernel text r = record r { kernel = some text }
place FileType.initrd text r = record r { initrd_parts = r.initrd_parts ++ text ∷ [] }
place FileType.cmdline text r =
    if is_utf8 text then record r { cmdline = some (trim_end_newlines text) } else r

unfoldable pub place_if : FileType → Option Str → Resolving → Resolving
place_if t none r = r
place_if t (some text) r = place t text r

unfoldable pub resolve_files : Sources → List BootFile → Resolving → Result Resolving
unfolding place_if
resolve_files src [] r = ok r
resolve_files src (f ∷ fs) r =
    contents src f then_ λ text. resolve_files (later src) fs (place_if f.file_type text r)

-- One initrd of all the parts.
unfoldable pub concatenated : List Str → Str
concatenated [] = []
concatenated (p ∷ ps) = p ++ concatenated ps

unfoldable pub joined : List Str → Option Str
unfolding concatenated
joined [] = none
joined (p ∷ []) = some p
joined (p ∷ q ∷ ps) = some (concatenated (p ∷ q ∷ ps))

unfoldable pub finish : Resolving → ResolvedFiles
finish r = record { kernel = r.kernel; initrd = joined r.initrd_parts; cmdline = r.cmdline }

unfoldable pub needs : SearchMethod → SearchMethod → Bool
needs esp esp = true
needs https https = true
needs inline inline = true
needs _ _ = false

unfoldable pub any_needs : SearchMethod → List BootFile → Bool
unfolding needs
any_needs m [] = false
any_needs m (f ∷ fs) = let rest = any_needs m fs in if needs m f.search then true else rest

unfoldable pub open_if : Bool → Result ℕ → Result ℕ
open_if true r = r
open_if false r = ok 0

abbrev pub no_files : Resolving
no_files = record { kernel = none; initrd_parts = []; cmdline = none }

unfoldable pub resolve_all : Sources → Entry → Result ResolvedFiles
unfolding any_needs open_if
resolve_all src entry = open_if (any_needs esp entry.files) src.open_esp_root then_ λ _.
    open_if (any_needs https entry.files) src.start_http then_ λ _.
    resolve_files src entry.files no_files then_ λ r. ok (finish r)
