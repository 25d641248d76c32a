-- ===== src/Download/Effects.antt =====
-- What `resolve_all` of src/download.rs leaves alone on the machine.
use mathlib.Core.Path.{fun_ext}
use alpheratz.Prelude.{
  ℕ, ◌≡◌, refl, ap, ◌∙◌, ◌⊎◌, inl, inr, List, [], ◌∷◌, Option, none, some, Bool, true, false,
  if◌then◌else◌, is_empty, length, Str, Bool-cases,
}
use alpheratz.Config.{Config, Entry, BootFile, SearchMethod, esp, https, inline}
use alpheratz.Firmware.{Status, Result, ok, err}
use alpheratz.Session.{
  println, printed, reading, byte_count, ◌>>◌, Session, Action, pure, goes_on, ◌>>=◌,
}
use alpheratz.FsUtil.{Volume, open_esp_root}
use alpheratz.Download.{
  unwrap_or_empty, ResolvedFiles, Resolving, place_if, any_needs, needs, no_files, finish,
}
use alpheratz.Download.Client.{
  Machine, open_root_if, start_if, read_from, read_on, contents_on, resolve_files_on,
  resolve_opened, resolve_all_on,
}

pub SearchMethod-cases : (m : SearchMethod) → (m ≡ esp) ⊎ ((m ≡ https) ⊎ (m ≡ inline))
SearchMethod-cases esp = inl refl
SearchMethod-cases https = inr (inl refl)
SearchMethod-cases inline = inr (inr refl)

abbrev pub byte_count_of : {W : Type 0} → Str → Action W Str
byte_count_of text = println (byte_count (length text) ∷ []) >> pure text

module _ {W : Type 0} where
  -- An action that changes messages only.
  abbrev pub KeepsWorld : {A : Type 0} → Action W A → Type 0
  KeepsWorld action = (s : Session W) → (action s).1.world ≡ s.world

  goes_on-world :
      {A B : Type 0} (f : A → Action W B) (q : Result A × Session W)
      → ((a : A) → KeepsWorld (f a))
      → (goes_on f q).1.world ≡ q.1.world
  goes_on-world f (ok a, s) keeps = keeps a s
  goes_on-world f (err e, s) keeps = refl

  >>=-KeepsWorld :
      {A B : Type 0} (action : Action W A) (f : A → Action W B)
      → KeepsWorld action
      → ((a : A) → KeepsWorld (f a))
      → KeepsWorld (action >>= f)
  >>=-KeepsWorld action f first then_f s = goes_on-world f (action s) then_f ∙ first s

  if-KeepsWorld :
      {A : Type 0} (b : Bool) (x y : Action W A)
      → KeepsWorld x
      → KeepsWorld y
      → KeepsWorld (if b then x else y)
  if-KeepsWorld true x y hx hy = hx
  if-KeepsWorld false x y hx hy = hy

module _ {W : Type 0} (m : Machine W) where
  read_on-KeepsWorld : (root : Option Volume) (path : Str) → KeepsWorld (read_on m root path)
  unfolding read_on
  read_on-KeepsWorld root path s =
      goes_on-world byte_count_of (read_from root path, printed (reading path ∷ []) s) (λ _ _. refl)

  contents_on-KeepsWorld :
      (root : Option Volume) (http : Option ℕ) (f : BootFile)
      → needs https f.search ≡ false
      → KeepsWorld (contents_on m root http f)
  unfolding contents_on needs
  contents_on-KeepsWorld root http f offline = elim (SearchMethod-cases f.search) [
    | inl on_esp ↦ rw on_esp (
        if-KeepsWorld (is_empty (unwrap_or_empty f.file)) (pure none) _ (λ s. refl)
          (>>=-KeepsWorld (read_on m root _) (λ text. pure (some text)) (read_on-KeepsWorld root _)
            (λ text s. refl)))
    | inr (inl online) ↦ absurd (cc (rw online at offline))
    | inr (inr given) ↦ rw given (λ s. refl)
  ]

  resolve_files_on-KeepsWorld :
      (root : Option Volume) (http : Option ℕ) (fs : List BootFile) (r : Resolving)
      → any_needs https fs ≡ false
      → KeepsWorld (resolve_files_on m root http fs r)
  unfolding resolve_files_on any_needs
  resolve_files_on-KeepsWorld root http [] r offline = λ s. refl
  resolve_files_on-KeepsWorld root http (f ∷ fs) r offline =
      elim (Bool-cases (needs https f.search)) [
        | inl wanted ↦ absurd (cc (rw wanted at offline))
        | inr first ↦
            >>=-KeepsWorld (contents_on m root http f)
              (λ text. resolve_files_on m root http fs (place_if f.file_type text r))
              (contents_on-KeepsWorld root http f first)
              (λ text.
                resolve_files_on-KeepsWorld root http fs (place_if f.file_type text r)
                  (rw first at offline))
      ]

  open_root_if-KeepsWorld : (b : Bool) → KeepsWorld (open_root_if m b)
  unfolding open_root_if
  open_root_if-KeepsWorld true s = refl
  open_root_if-KeepsWorld false s = refl

  abbrev read_all : List BootFile → Option Volume → Action W ResolvedFiles
  read_all fs root = resolve_files_on m root none fs no_files >>= λ r. pure (finish r)

  -- Without a file that wants HTTPS, only messages change.
  pub resolve_all_on-KeepsWorld :
      (cfg : Config) (entry : Entry)
      → any_needs https entry.files ≡ false
      → KeepsWorld (resolve_all_on m cfg entry)
  unfolding resolve_all_on resolve_opened start_if
  resolve_all_on-KeepsWorld cfg entry offline = rw offline (
      >>=-KeepsWorld (open_root_if m (any_needs esp entry.files)) (read_all entry.files)
        (open_root_if-KeepsWorld _)
        (λ root.
          >>=-KeepsWorld (resolve_files_on m root none entry.files no_files) (λ r. pure (finish r))
            (resolve_files_on-KeepsWorld root none entry.files no_files offline) (λ r s. refl)))

  -- Where a file wants the ESP and its root cannot be opened, nothing happens at all.
  pub resolve_all_on-no_root :
      (cfg : Config) (entry : Entry) (e : Status) (s : Session W)
      → any_needs esp entry.files ≡ true
      → open_esp_root m.disk ≡ err e
      → resolve_all_on m cfg entry s ≡ (err e, s)
  unfolding resolve_all_on resolve_opened open_root_if
  resolve_all_on-no_root cfg entry e s wanted failed = rw (wanted, failed)

  needs_later :
      (method : SearchMethod) (f : BootFile) (fs : List BootFile)
      → any_needs method fs ≡ true
      → any_needs method (f ∷ fs) ≡ true
  unfolding any_needs
  needs_later method f fs h = elim (Bool-cases (needs method f.search)) [
    | inl here ↦ rw here refl
    | inr there ↦ rw there h
  ]

  module _ (root root' : Option Volume) (http http' : Option ℕ) where
    contents_on-opened :
        (f : BootFile) (fs : List BootFile)
        → (any_needs esp (f ∷ fs) ≡ true → root ≡ root')
        → (any_needs https (f ∷ fs) ≡ true → http ≡ http')
        → contents_on m root http f ≡ contents_on m root' http' f
    unfolding contents_on any_needs needs
    contents_on-opened f fs same_root same_http = elim (SearchMethod-cases f.search) [
      | inl on_esp ↦ rw (on_esp, same_root (rw on_esp refl)) refl
      | inr (inl online) ↦ rw (online, same_http (rw online refl)) refl
      | inr (inr given) ↦ rw given refl
    ]

    -- The root is read only for a file that wants the ESP, and the client used only for one that wants
    -- HTTPS: neither `unwrap` of `resolve_all` meets what has not been opened.
    pub resolve_files_on-opened :
        (fs : List BootFile) (r : Resolving)
        → (any_needs esp fs ≡ true → root ≡ root')
        → (any_needs https fs ≡ true → http ≡ http')
        → resolve_files_on m root http fs r ≡ resolve_files_on m root' http' fs r
    unfolding resolve_files_on
    resolve_files_on-opened [] r same_root same_http = refl
    resolve_files_on-opened (f ∷ fs) r same_root same_http =
        ap
          (λ (c : Action W (Option Str)).
            c >>= λ text. resolve_files_on m root http fs (place_if f.file_type text r))
          (contents_on-opened f fs same_root same_http)
        ∙ ap (λ (k : Option Str → Action W Resolving). contents_on m root' http' f >>= k)
            (fun_ext λ text.
              resolve_files_on-opened fs (place_if f.file_type text r)
                (λ e. same_root (needs_later esp f fs e))
                (λ e. same_http (needs_later https f fs e)))
