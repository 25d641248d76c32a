-- ===== src/Download/Pieces.antt =====
-- What a download of src/download.rs returns.
use mathlib.Core.List.{append-nil, append_assoc}
use alpheratz.Prelude.{
  ℕ, zero, suc, ◌<◌, arith, length, ◌≡◌, ◌≢◌, ◌⊎◌, inl, inr, refl, ap, ◌∙◌, List, [], ◌∷◌, ◌++◌,
  Str,
}
use alpheratz.Firmware.{Status, Result, ok, err, ◌then_◌}
use alpheratz.Session.{Session}
use alpheratz.Download.Request.{HttpFirmware, collect, download}

-- All the pieces as one text.
abbrev pub joined_pieces : List Str → Str
joined_pieces [] = []
joined_pieces (p ∷ ps) = p ++ joined_pieces ps

-- An answer that ends a body: an empty piece, or an error.
abbrev pub IsLast : Result Str → Type 0
IsLast r = (r ≡ ok []) ⊎ ((e : Status) × (r ≡ err e))

module _ {W : Type 0} where
  -- From the world `w` on, `more` gives these pieces, none of them empty, and then the answer `last`.
  abbrev pub Sends : (W → Result Str × W) → W → List Str → Result Str × W → Type 0
  Sends more w [] last = more w ≡ last
  Sends more w (p ∷ ps) last = (p ≢ []) × ((w' : W) × (more w ≡ (ok p, w')) × Sends more w' ps last)

  -- A round of the loop, from the answer on.
  round : ℕ → (W → Result Str × W) → Str → Result Str × W → Result Str × W
  round fuel more text (answer, w) = elim answer [
    | ok [] ↦ (ok text, w)
    | ok (c ∷ cs) ↦ collect fuel more (text ++ c ∷ cs) w
    | err e ↦ (err e, w)
  ]

  collect-round :
      (fuel : ℕ) (more : W → Result Str × W) (text : Str) (w : W) {q : Result Str × W}
      → more w ≡ q
      → collect (suc fuel) more text w ≡ round fuel more text q
  unfolding collect round
  collect-round fuel more text w e = ap (round fuel more text) e

  collect-last :
      (fuel : ℕ) (more : W → Result Str × W) (text : Str) (w : W) (last : Result Str) (w' : W)
      → 0 < fuel
      → more w ≡ (last, w')
      → IsLast last
      → collect fuel more text w ≡ ((last then_ λ _. ok text), w')
  unfolding round
  collect-last zero more text w last w' enough e is_last = absurd (omega arith)
  collect-last (suc fuel) more text w last w' enough e (inl closed) =
      collect-round fuel more text w e ∙ rw closed refl
  collect-last (suc fuel) more text w last w' enough e (inr (s, failed)) =
      collect-round fuel more text w e ∙ rw failed refl

  collect_lem :
      (fuel : ℕ) (more : W → Result Str × W) (text : Str) (w : W) (ps : List Str)
      (last : Result Str) (w' : W)
      → Sends more w ps (last, w')
      → IsLast last
      → length ps < fuel
      → collect fuel more text w ≡ ((last then_ λ _. ok (text ++ joined_pieces ps)), w')
  unfolding round
  collect_lem fuel more text w [] last w' sends is_last enough =
      rw (append-nil text) (collect-last fuel more text w last w' enough sends is_last)
  collect_lem zero more text w (p ∷ ps) last w' sends is_last enough = absurd (omega arith)
  collect_lem (suc fuel) more text w ([] ∷ ps) last w' (full, _) is_last enough = absurd (full refl)
  collect_lem (suc fuel) more text w ((c ∷ cs) ∷ ps) last w' (_, (w1, e, sends)) is_last enough =
      collect-round fuel more text w e
      ∙ collect_lem fuel more (text ++ c ∷ cs) w1 ps last w' sends is_last (omega (arith, enough))
      ∙ ap (λ t. ((last then_ λ _. ok t), w')) (append_assoc text (c ∷ cs) (joined_pieces ps))

  -- Once the request has been taken and the first part of the body is there, the further pieces are
  -- asked for up to the first empty one or the first error, if there is one within the calls that the
  -- run is followed for: the download is over then. In the former case the text is the first part and
  -- the pieces, in their order; in the latter that error is the result. Nothing is asked for after
  -- that, and nothing is printed.
  pub download-Whole :
      (http : HttpFirmware W) (h : ℕ) (url body : Str) (s : Session W) (w1 w2 : W) (ps : List Str)
      (last : Result Str) (w : W)
      → http.request_get h url s.world ≡ (ok tt, w1)
      → http.response_first h w1 ≡ (ok body, w2)
      → Sends (http.response_more h) w2 ps (last, w)
      → IsLast last
      → length ps < http.fuel
      → download http h url s
        ≡ ((last then_ λ _. ok (body ++ joined_pieces ps)), record s { world = w })
  unfolding download
  download-Whole http h url body s w1 w2 ps last w requested first sends is_last enough =
      let all =
        collect_lem http.fuel (http.response_more h) body w2 ps last w sends is_last enough in
      rw (requested, first, all) refl
