-- ===== src/Download/Online.antt =====
-- `resolve_all` on the machine, against `resolve_all` over what its sources give.
use alpheratz.Prelude.{
  ◌⊎◌, inl, inr, true, Bool-cases, ℕ, ◌≡◌, inl, inr, refl, ap, ◌∙◌, List, Option, none, Bool, true,
  false,
}
use alpheratz.Config.{Config, Entry, BootFile, esp, https}
use alpheratz.Firmware.{Result-cases, Status, Result, ok, err, ◌then_◌}
use alpheratz.Session.{goes_on-then, Session, Action, goes_on, ◌>>=◌, pure}
use alpheratz.FsUtil.{Volume, open_esp_root}
use alpheratz.Download.{
  Sources, ResolvedFiles, resolve_files, finish, any_needs, no_files, open_if, resolve_all,
}
use alpheratz.Download.Effects.{resolve_all_on-KeepsWorld, resolve_all_on-no_root}
use alpheratz.Download.Client.{
  Machine, open_root_if, start_if, resolve_files_on, resolve_opened, resolve_all_on,
}
use alpheratz.Download.Answers.{sources_with, resolve_files_on-resolve_files}

abbrev pub opens {ℓ} : {A : Type ℓ} → Result A → Result ℕ
opens r = r then_ λ _. ok 0

abbrev value_of {ℓ} : {A : Type ℓ} → Result (Option A) → Option A
value_of (ok a) = a
value_of (err e) = none

module _ {W : Type 0} (m : Machine W) where
  sources_by : Result (Option Volume) → Result (Option ℕ) × Session W → List BootFile → Sources
  sources_by root (client, s) fs =
      sources_with m (value_of root) (value_of client) (opens root) (opens client) fs s

  -- What the machine gives to `resolve_all` for an entry: the root and the client, each opened if a
  -- file wants it, every file of the root, and what comes of each download once the files before it
  -- are resolved.
  sources_of : Bool → Bool → Config → List BootFile → Session W → Sources
  unfolding sources_by
  sources_of needs_esp needs_https cfg fs s =
      sources_by (open_root_if m needs_esp s).0 (start_if m needs_https cfg s) fs

  pub sources_for : Config → Entry → Session W → Sources
  unfolding sources_of
  sources_for cfg entry s =
      sources_of (any_needs esp entry.files) (any_needs https entry.files) cfg entry.files s

  abbrev all_files : Sources → List BootFile → Result ResolvedFiles
  all_files src fs = resolve_files src fs no_files then_ λ r. ok (finish r)

  abbrev all_files_on : Option Volume → List BootFile → Option ℕ → Action W ResolvedFiles
  all_files_on root fs http = resolve_files_on m root http fs no_files >>= λ r. pure (finish r)

  with_client :
      (root : Option Volume) (q : Result (Option ℕ) × Session W) (fs : List BootFile)
      → (goes_on (all_files_on root fs) q).0
        ≡ (opens q.0 then_ λ _. all_files (sources_by (ok root) q fs) fs)
  unfolding sources_by
  with_client root (err e, s) fs = refl
  with_client root (ok http, s) fs =
      goes_on-then (resolve_files_on m root http fs no_files s) (λ r. pure (finish r)) _ (λ r. refl)
      ∙ ap (λ r. r then_ λ r. ok (finish r))
          (resolve_files_on-resolve_files m root http (opens (ok root)) (ok 0) fs no_files s)

  client_if :
      (needs_https : Bool) (cfg : Config) (root : Option Volume) (fs : List BootFile)
      (s : Session W)
      → ((start_if m needs_https cfg >>= all_files_on root fs) s).0 ≡ (
          open_if needs_https (opens (start_if m needs_https cfg s).0) then_ λ _.
          all_files (sources_by (ok root) (start_if m needs_https cfg s) fs) fs)
  unfolding open_if
  client_if true cfg root fs s = with_client root (start_if m true cfg s) fs
  client_if false cfg root fs s =
      with_client root (start_if m false cfg s) fs ∙ unfold start_if in refl

  root_lem :
      (needs_https : Bool) (cfg : Config) (root : Result (Option Volume)) (fs : List BootFile)
      (s : Session W)
      → (goes_on (λ root. start_if m needs_https cfg >>= all_files_on root fs) (root, s)).0 ≡ (
          opens root then_ λ _.
          open_if needs_https (opens (start_if m needs_https cfg s).0) then_ λ _.
          all_files (sources_by root (start_if m needs_https cfg s) fs) fs)
  root_lem needs_https cfg (err e) fs s = refl
  root_lem needs_https cfg (ok root) fs s = client_if needs_https cfg root fs s

  opened_lem :
      (needs_esp needs_https : Bool) (cfg : Config) (fs : List BootFile) (s : Session W)
      → let src = sources_of needs_esp needs_https cfg fs s in
        (resolve_opened m needs_esp needs_https cfg fs s).0 ≡ (
          open_if needs_esp src.open_esp_root then_ λ _.
          open_if needs_https src.start_http then_ λ _. all_files src fs)
  unfolding resolve_opened open_root_if sources_of sources_by sources_with open_if
  opened_lem true needs_https cfg fs s = root_lem needs_https cfg (open_root_if m true s).0 fs s
  opened_lem false needs_https cfg fs s = client_if needs_https cfg none fs s

  world_or_https :
      (cfg : Config) (entry : Entry) (s : Session W)
      → (any_needs https entry.files ≡ true) ⊎ ((resolve_all_on m cfg entry s).1.world ≡ s.world)
  world_or_https cfg entry s = elim (Bool-cases (any_needs https entry.files)) [
    | inl online ↦ inl online
    | inr offline ↦ inr (resolve_all_on-KeepsWorld m cfg entry offline s)
  ]

  abbrev pub RootDecides : Config → Entry → Session W → Type 0
  RootDecides cfg entry s =
      (any_needs esp entry.files ≡ false)
      ⊎ ((root : Volume) × (open_esp_root m.disk ≡ ok root))
      ⊎ ((e : Status) × (open_esp_root m.disk ≡ err e)
          × (resolve_all_on m cfg entry s ≡ (err e, s)))

  root_decides : (cfg : Config) (entry : Entry) (s : Session W) → RootDecides cfg entry s
  root_decides cfg entry s = elim (Bool-cases (any_needs esp entry.files)) [
    | inr unwanted ↦ inl unwanted
    | inl wanted ↦ inr (elim (Result-cases (open_esp_root m.disk)) [
      | inl opened ↦ inl opened
      | inr (e, failed) ↦ inr (e, failed, resolve_all_on-no_root m cfg entry e s wanted failed)
    ])
  ]

  -- On the machine, `resolve_all` returns what it returns over the sources that the machine gives: a
  -- file is read, or downloaded, in the world that the files before it left. Unless a file wants
  -- HTTPS it changes nothing but the messages; and where a file wants the ESP and its root cannot be
  -- opened, it returns that error and changes nothing at all.
  pub resolve_all_on-resolve_all :
      (cfg : Config) (entry : Entry) (s : Session W)
      → ((resolve_all_on m cfg entry s).0 ≡ resolve_all (sources_for cfg entry s) entry)
        × ((any_needs https entry.files ≡ true)
            ⊎ ((resolve_all_on m cfg entry s).1.world ≡ s.world))
        × RootDecides cfg entry s
  resolve_all_on-resolve_all cfg entry s = (
    unfold resolve_all_on resolve_all sources_for in
        opened_lem (any_needs esp entry.files) (any_needs https entry.files) cfg entry.files s,
    world_or_https cfg entry s,
    root_decides cfg entry s,
  )
