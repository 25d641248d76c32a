-- ===== src/FsUtil/Reading.antt =====
-- `read_file` of src/fsutil.rs.
use alpheratz.Prelude.{
  ℕ, zero, suc, ◌≡◌, ◌↔◌, refl, sym, ap, ◌∙◌, inl, inr, [], ◌∷◌, true, Str, length, replicate,
  Bool-cases,
}
use alpheratz.Firmware.{Status, ok, ◌then_◌, ok_or, then_-eq-ok, eq_of_ok}
use alpheratz.FsUtil.{
  OpenFile, Node, directory, regular, unknown, Volume, into_regular_file, read_into, read_regular,
  read_file,
}

length-read_into : (bs buf : Str) → length (read_into bs buf) ≡ length buf
unfolding read_into
length-read_into [] buf = refl
length-read_into (b ∷ bs) [] = refl
length-read_into (b ∷ bs) (_ ∷ buf) = ap suc (length-read_into bs buf)

length-replicate : (n : ℕ) (b : ℕ) → length (replicate n b) ≡ n
length-replicate zero b = refl
length-replicate (suc n) b = ap suc (length-replicate n b)

-- What a text is that was read: the file's bytes in a buffer of the file's size.
abbrev pub IsReadFrom : OpenFile → Str → Type 0
IsReadFrom file text =
    (file.file_size ≡ ok (length text))
    × ((bs : Str) × (file.read (length text) ≡ ok bs)
        × (text ≡ read_into bs (replicate (length text) 0)))

read_regular-IsReadFrom :
    (file : OpenFile) (text : Str) → read_regular file ≡ ok text → IsReadFrom file text
unfolding read_regular
read_regular-IsReadFrom file text h =
    let (size, has_size, rest) = then_-eq-ok file.file_size _ h in
    let (bs, reads_it, same) = then_-eq-ok (file.read size) _ rest in
    let len : length text ≡ size =
      ap length (sym (eq_of_ok same))
      ∙ (length-read_into bs (replicate size 0) ∙ length-replicate size 0) in
    (
      has_size ∙ ap ok (sym len),
      (
        bs,
        ap file.read len ∙ reads_it,
        sym (eq_of_ok same) ∙ ap (λ n. read_into bs (replicate n 0)) (sym len),
      ),
    )

regular_lem :
    (node : Node) (text : Str)
    → (ok_or (into_regular_file node) Status.invalid_parameter then_ read_regular) ≡ ok text
    → (file : OpenFile) × (node ≡ regular file) × IsReadFrom file text
unfolding into_regular_file
regular_lem (directory es) text h = cc (h)
regular_lem (regular file) text h = (file, refl, read_regular-IsReadFrom file text h)
regular_lem unknown text h = cc (h)

read_file-only :
    (root : Volume) (path text : Str)
    → read_file root path ≡ ok text
    → (root.is_cstring16 path ≡ true)
      × ((file : OpenFile) × (root.open_path path ≡ ok (regular file)) × IsReadFrom file text)
unfolding read_file
read_file-only root path text h = elim (Bool-cases (root.is_cstring16 path)) [
  | inl writable ↦
      let (node, opened, rest) = then_-eq-ok (root.open_path path) _ (rw writable at h) in
      let (file, same, good) = regular_lem node text rest in
      (writable, (file, opened ∙ ap ok same, good))
  | inr other ↦ absurd (cc (rw other at h))
]

read_file_from :
    (root : Volume) (path text : Str) (file : OpenFile)
    → root.is_cstring16 path ≡ true
    → root.open_path path ≡ ok (regular file)
    → IsReadFrom file text
    → read_file root path ≡ ok text
unfolding read_file read_regular into_regular_file
read_file_from root path text file writable opened (size, (bs, reads_it, same)) =
    rw (writable, opened, size, reads_it) (ap ok (sym same))

-- `read_file` returns a text exactly if UCS-2 can write the path, a regular file opens there, and the
-- text has as many bytes as the file's information says: what `read` gave, then zeros.
pub read_file-IsReadFrom :
    (root : Volume) (path text : Str)
    → (read_file root path ≡ ok text) ↔ (
        (root.is_cstring16 path ≡ true)
        × ((file : OpenFile) × (root.open_path path ≡ ok (regular file)) × IsReadFrom file text))
read_file-IsReadFrom root path text = (
  read_file-only root path text,
  λ (writable, (file, opened, good)). read_file_from root path text file writable opened good,
)
