-- ===== src/Download/Files.antt =====
-- What src/download.rs makes of the files of an entry.
use mathlib.Core.List.{append-nil, append_assoc}
use alpheratz.Prelude.{
  ℕ, ◌≡◌, refl, sym, ap, ◌∙◌, List, [], ◌∷◌, ◌++◌, Option, none, some, Bool, true, false, arith,
  if◌then◌else◌, Str,
}
use alpheratz.Config.{Entry, BootFile, FileType, esp, https}
use alpheratz.Firmware.{Result, ok, ◌then_◌, then_assoc, then_cong, then_intro}
use alpheratz.Download.{
  Sources, later, no_files, Resolving, ResolvedFiles, contents, place, place_if, resolve_files,
  concatenated, joined, finish, resolve_all, open_if, any_needs,
}
use alpheratz.Download.Text.{is_utf8, trim_end_newlines}

abbrev pub Items : Type 0
Items = List (FileType × Str)

-- The specification: first all that is read, in order, or the first error.
with_item : FileType → Option Str → Items → Items
with_item t none items = items
with_item t (some text) items = (t, text) ∷ items

unfoldable pub all_contents : Sources → List BootFile → Result Items
unfolding with_item
all_contents src [] = ok []
all_contents src (f ∷ fs) = contents src f then_ λ text.
    all_contents (later src) fs then_ λ items. ok (with_item f.file_type text items)

same_type : FileType → FileType → Bool
same_type FileType.kernel FileType.kernel = true
same_type FileType.initrd FileType.initrd = true
same_type FileType.cmdline FileType.cmdline = true
same_type _ _ = false

-- Then the texts of one type, in their order,
unfoldable pub of_type : FileType → Items → List Str
unfolding same_type
of_type t [] = []
of_type t ((u, text) ∷ items) =
    let rest = of_type t items in if same_type t u then text ∷ rest else rest

-- of which the last counts,
abbrev pub last_or : Option Str → List Str → Option Str
last_or default [] = default
last_or default (s ∷ ss) = last_or (some s) ss

-- or, for a command line, the last that is UTF-8, without the newlines at its end,
abbrev pub command_lines : List Str → List Str
command_lines [] = []
command_lines (s ∷ ss) =
    let rest = command_lines ss in if is_utf8 s then trim_end_newlines s ∷ rest else rest

-- or, for an initrd, all of them as one.
abbrev pub concat : List Str → Str
concat [] = []
concat (s ∷ ss) = s ++ concat ss

abbrev pub one_of_all : List Str → Option Str
one_of_all [] = none
one_of_all (s ∷ ss) = some (concat (s ∷ ss))

abbrev pub resolved : Items → ResolvedFiles
resolved items = record {
  kernel = last_or none (of_type FileType.kernel items);
  initrd = one_of_all (of_type FileType.initrd items);
  cmdline = last_or none (command_lines (of_type FileType.cmdline items));
}

abbrev after : Resolving → Items → Resolving
after r items = record {
  kernel = last_or r.kernel (of_type FileType.kernel items);
  initrd_parts = r.initrd_parts ++ of_type FileType.initrd items;
  cmdline = last_or r.cmdline (command_lines (of_type FileType.cmdline items));
}

open_if-ok : (b : Bool) (r : Result ℕ) (a : ℕ) → r ≡ ok a → (c : ℕ) × (open_if b r ≡ ok c)
unfolding open_if
open_if-ok true r a e = (a, e)
open_if-ok false r a e = (0, refl)

after-nil : (r : Resolving) → after r [] ≡ r
unfolding of_type
after-nil r = ap (λ parts. record r { initrd_parts = parts }) (append-nil r.initrd_parts)

after-place :
    (r : Resolving) (t : FileType) (text : Str) (items : Items)
    → after (place t text r) items ≡ after r ((t, text) ∷ items)
unfolding of_type place
after-place r FileType.kernel text items = refl
after-place r FileType.initrd text items =
    ground (arith, append_assoc r.initrd_parts (text ∷ []) (of_type FileType.initrd items))
after-place r FileType.cmdline text items = ground arith

after-with_item :
    (r : Resolving) (t : FileType) (text : Option Str) (items : Items)
    → after (place_if t text r) items ≡ after r (with_item t text items)
unfolding with_item place_if
after-with_item r t none items = refl
after-with_item r t (some text) items = after-place r t text items

resolve_files-after :
    (src : Sources) (fs : List BootFile) (r : Resolving)
    → resolve_files src fs r ≡ (all_contents src fs then_ λ items. ok (after r items))
unfolding resolve_files all_contents
resolve_files-after src [] r = ap ok (sym (after-nil r))
resolve_files-after src (f ∷ fs) r =
    then_cong (contents src f) (λ text.
      resolve_files-after (later src) fs (place_if f.file_type text r)
      ∙ then_cong (all_contents (later src) fs)
          (λ items. ap ok (after-with_item r f.file_type text items))
      ∙ sym (then_assoc (all_contents (later src) fs) _ _))
    ∙ sym (then_assoc (contents src f) _ _)

concatenated-concat : (parts : List Str) → concatenated parts ≡ concat parts
unfolding concatenated
concatenated-concat [] = refl
concatenated-concat (p ∷ ps) = ap (λ rest. p ++ rest) (concatenated-concat ps)

joined-one_of_all : (parts : List Str) → joined parts ≡ one_of_all parts
unfolding joined
joined-one_of_all [] = refl
joined-one_of_all (p ∷ []) = ap some (sym (append-nil p))
joined-one_of_all (p ∷ q ∷ ps) = ap some (concatenated-concat (p ∷ q ∷ ps))

-- Where the ESP and the network can be opened, each if one of the files wants it, an entry resolves
-- to what its files say, in their order: the last kernel, every initrd as one, the last command
-- line that is UTF-8. The first file that cannot be read is the error.
pub resolve_all-resolved :
    (src : Sources) (entry : Entry) (root http : ℕ)
    → open_if (any_needs esp entry.files) src.open_esp_root ≡ ok root
    → open_if (any_needs https entry.files) src.start_http ≡ ok http
    → resolve_all src entry ≡ (all_contents src entry.files then_ λ items. ok (resolved items))
unfolding resolve_all finish
resolve_all-resolved src entry root http has_root has_http = then_intro _ has_root (
    then_intro _ has_http (
      ap (λ r. r then_ λ q. ok (finish q)) (resolve_files-after src entry.files no_files)
      ∙ then_assoc (all_contents src entry.files) _ _
      ∙ then_cong (all_contents src entry.files) (λ items.
        ap (λ i. ok (record (resolved items) { initrd = i }))
          (joined-one_of_all (of_type FileType.initrd items)))))
