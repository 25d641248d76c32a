-- ===== src/Download/Answers.antt =====
-- What the machine answers to the files of an entry, one after the other, as the sources of
-- `resolve_all`.
use alpheratz.Prelude.{
  inl, inr, true, ℕ, zero, suc, ◌≡◌, inl, inr, refl, ap, ◌∙◌, List, [], ◌∷◌, Option, none, some,
  Bool, true, false, if◌then◌else◌, is_empty, Str,
}
use alpheratz.Config.{BootFile}
use alpheratz.Firmware.{Status, Result, ok, err, ◌then_◌}
use alpheratz.Session.{goes_on-then, reading, downloading, printed, Session, Action, goes_on, pure}
use alpheratz.FsUtil.{Volume}
use alpheratz.Download.{
  Sources, Resolving, contents, place_if, resolve_files, unwrap_or_empty, wrap,
}
use alpheratz.Download.Effects.{SearchMethod-cases, byte_count_of}
use alpheratz.Download.Text.{expand_vars}
use alpheratz.Download.Client.{
  Machine, read_from, download_by, read_on, download_on, contents_on, resolve_files_on,
}

module _ {W : Type 0} (m : Machine W) where
  module _ (root : Option Volume) (http : Option ℕ) where
    -- What comes of a download for the n-th of the files, where those before it are resolved first.
    answers : List BootFile → Session W → ℕ → Str → Result Str
    answers fs s zero url = (download_by m http url (printed (downloading url ∷ []) s)).0
    answers [] s (suc n) url = err Status.not_found
    answers (f ∷ fs) s (suc n) url = answers fs (contents_on m root http f s).1 n url

    unfoldable pub sources_with : Result ℕ → Result ℕ → List BootFile → Session W → Sources
    unfolding answers
    sources_with esp_root client fs s = record {
      arch_name = m.arch_name;
      open_esp_root = esp_root;
      start_http = client;
      read_file = read_from root;
      download = answers fs s;
    }

    skipped :
        (b : Bool) (action : Action W (Option Str)) (r : Result (Option Str)) (s : Session W)
        → (action s).0 ≡ r
        → ((if b then pure none else action) s).0 ≡ (if b then ok none else r)
    skipped true action r s h = refl
    skipped false action r s h = h

    shown-wrap :
        (q : Result Str × Session W)
        → (goes_on (λ text. pure (some text)) (goes_on byte_count_of q)).0 ≡ wrap q.0
    unfolding wrap
    shown-wrap (ok text, s) = refl
    shown-wrap (err e, s) = refl

    -- One file gives the same on the machine, for the first answer.
    contents_on-contents :
        (esp_root client : Result ℕ) (f : BootFile) (fs : List BootFile) (s : Session W)
        → (contents_on m root http f s).0 ≡ contents (sources_with esp_root client (f ∷ fs) s) f
    unfolding contents_on contents sources_with answers read_on download_on
    contents_on-contents esp_root client f fs s =
        let file = unwrap_or_empty f.file in
        elim (SearchMethod-cases f.search) [
          | inl on_esp ↦ rw on_esp (
              skipped (is_empty file) _ _ s (
                shown-wrap (
                  read_from root (expand_vars m.arch_name file),
                  printed (reading (expand_vars m.arch_name file) ∷ []) s,
                )))
          | inr (inl online) ↦ rw online (
              skipped (is_empty file) _ _ s (
                shown-wrap (
                  download_by m http (expand_vars m.arch_name file)
                    (printed (downloading (expand_vars m.arch_name file) ∷ []) s))))
          | inr (inr given) ↦ rw given refl
        ]

    pub resolve_files_on-resolve_files :
        (esp_root client : Result ℕ) (fs : List BootFile) (r : Resolving) (s : Session W)
        → (resolve_files_on m root http fs r s).0
          ≡ resolve_files (sources_with esp_root client fs s) fs r
    unfolding resolve_files_on resolve_files sources_with answers
    resolve_files_on-resolve_files esp_root client [] r s = refl
    resolve_files_on-resolve_files esp_root client (f ∷ fs) r s =
        goes_on-then (contents_on m root http f s)
          (λ text. resolve_files_on m root http fs (place_if f.file_type text r)) _
          (λ text.
            resolve_files_on-resolve_files esp_root client fs (place_if f.file_type text r)
              (contents_on m root http f s).1)
        ∙ ap
            (λ c. c then_ λ text.
              resolve_files (sources_with esp_root client fs (contents_on m root http f s).1) fs
                (place_if f.file_type text r))
            (contents_on-contents esp_root client f fs s)
