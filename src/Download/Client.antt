-- ===== src/Download/Client.antt =====
-- `resolve_all` of src/download.rs on the machine: the ESP's root and the HTTP client are opened as
-- src/fsutil.rs and src/net.rs do it, and then the files are read through them, one after the other.
use alpheratz.Prelude.{
  ℕ, List, [], ◌∷◌, Option, none, some, Bool, true, false, if◌then◌else◌, is_empty, length, Str,
}
use alpheratz.Config.{Config, Entry, BootFile, esp, https, inline}
use alpheratz.Firmware.{Status, Result, ok, err, ◌then_◌}
use alpheratz.Session.{
  creating_http_client, http_new_failed, http_configure_failed, reading, downloading, byte_count,
  Action, pure, reads, calls, ignored, map_err, println, ◌>>=◌, ◌>>◌,
}
use alpheratz.FsUtil.{Volume, Esp, open_esp_root, read_file}
use alpheratz.FsUtil.Images.{ImageServices, load_drivers}
use alpheratz.Net.Select.{select_nic_handle}
use alpheratz.Net.BringUp.{NetFirmware, bring_up_ipv4}
use alpheratz.Download.{
  Resolving, ResolvedFiles, place_if, unwrap_or_empty, finish, any_needs, no_files,
}
use alpheratz.Download.Text.{expand_vars}
use alpheratz.Download.Request.{HttpFirmware, download}

pub record Machine (W : Type 0) : Type 0 where
  pub arch_name : Str
  pub disk : Esp
  pub images : ImageServices W
  pub net : NetFirmware W
  pub http : HttpFirmware W

-- `esp_root.as_mut().unwrap()`: a root that was not opened gives an error here, and so does a client
-- below; Effects is about files that would meet it.
unfoldable pub read_from : Option Volume → Str → Result Str
read_from none path = err Status.not_found
read_from (some root) path = read_file root path

module _ {W : Type 0} (m : Machine W) where
  unfoldable pub select_nic : Config → Action W ℕ
  select_nic cfg =
      reads (λ w. select_nic_handle (m.net.open_snp_readonly w) cfg (m.net.snp_handles w))

  unfoldable pub http_client : ℕ → Action W ℕ
  http_client nic = do
    println (creating_http_client ∷ [])
    h ← map_err (calls (m.http.http_new nic)) http_new_failed
    map_err (calls (m.http.configure h)) http_configure_failed
    pure h

  unfoldable pub start_http : Config → Action W ℕ
  start_http cfg = do
    ignored (load_drivers m.images m.disk cfg)
    nic ← select_nic cfg
    bring_up_ipv4 m.net cfg nic
    http_client nic

  unfoldable pub open_root_if : Bool → Action W (Option Volume)
  open_root_if true s = ((open_esp_root m.disk then_ λ root. ok (some root)), s)
  open_root_if false s = (ok none, s)

  unfoldable pub start_if : Bool → Config → Action W (Option ℕ)
  start_if true cfg = start_http cfg >>= λ h. pure (some h)
  start_if false cfg = pure none

  -- `http.as_mut().unwrap()`
  unfoldable pub download_by : Option ℕ → Str → Action W Str
  download_by none url s = (err Status.not_found, s)
  download_by (some h) url s = download m.http h url s

  unfoldable pub read_on : Option Volume → Str → Action W Str
  unfolding read_from
  read_on root path = do
    println (reading path ∷ [])
    text ← reads (λ w. read_from root path)
    println (byte_count (length text) ∷ [])
    pure text

  unfoldable pub download_on : Option ℕ → Str → Action W Str
  unfolding download_by
  download_on http url = do
    println (downloading url ∷ [])
    text ← download_by http url
    println (byte_count (length text) ∷ [])
    pure text

  -- The bytes of a file; `none` is `continue`.
  unfoldable pub contents_on : Option Volume → Option ℕ → BootFile → Action W (Option Str)
  unfolding read_on download_on
  contents_on root http f =
      let file = unwrap_or_empty f.file in
      elim f.search [
        | esp ↦
            if is_empty file
            then pure none
            else read_on root (expand_vars m.arch_name file) >>= λ text. pure (some text)
        | https ↦
            if is_empty file
            then pure none
            else download_on http (expand_vars m.arch_name file) >>= λ text. pure (some text)
        | inline ↦ pure f.content
      ]

  -- `for f in &entry.files`
  unfoldable pub resolve_files_on :
      Option Volume → Option ℕ → List BootFile → Resolving → Action W Resolving
  unfolding contents_on
  resolve_files_on root http [] r = pure r
  resolve_files_on root http (f ∷ fs) r = contents_on root http f >>= λ text.
      resolve_files_on root http fs (place_if f.file_type text r)

  unfoldable pub resolve_opened : Bool → Bool → Config → List BootFile → Action W ResolvedFiles
  unfolding open_root_if start_if resolve_files_on
  resolve_opened needs_esp needs_https cfg files = do
    root ← open_root_if needs_esp
    http ← start_if needs_https cfg
    r ← resolve_files_on root http files no_files
    pure (finish r)

  unfoldable pub resolve_all_on : Config → Entry → Action W ResolvedFiles
  unfolding resolve_opened
  resolve_all_on cfg entry =
      resolve_opened (any_needs esp entry.files) (any_needs https entry.files) cfg entry.files
