-- ===== src/Download/Request.antt =====
-- One download of src/download.rs: the request, the first answer, and the loop over the rest of the
-- body. The HTTP client is a parameter.
use alpheratz.Prelude.{ℕ, zero, suc, [], ◌∷◌, ◌++◌, Str}
use alpheratz.Firmware.{Status, Result, ok, err}
use alpheratz.Session.{Action, calls, ◌>>=◌, ◌>>◌}

-- `HttpHelper`: `new`, `configure`, and the calls of a request. Nothing bounds a body: a run is
-- followed for at most `fuel` calls of `response_more` in one download.
pub record HttpFirmware (W : Type 0) : Type 0 where
  pub http_new : ℕ → W → Result ℕ × W
  pub configure : ℕ → W → Result (Unit {0}) × W
  pub request_get : ℕ → Str → W → Result (Unit {0}) × W
  pub response_first : ℕ → W → Result Str × W
  pub response_more : ℕ → W → Result Str × W
  pub fuel : ℕ

module _ {W : Type 0} where
  -- `loop { let more = h.response_more()?; … }`
  unfoldable pub collect : ℕ → (W → Result Str × W) → Str → W → Result Str × W
  collect zero more text w = (err Status.unfinished, w)
  collect (suc fuel) more text w =
      let (answer, w) = more w in
      elim answer [
        | ok [] ↦ (ok text, w)
        | ok (c ∷ cs) ↦ collect fuel more (text ++ c ∷ cs) w
        | err e ↦ (err e, w)
      ]

  unfoldable pub download : HttpFirmware W → ℕ → Str → Action W Str
  unfolding collect
  download http h url = do
    calls (http.request_get h url)
    body ← calls (http.response_first h)
    calls (collect http.fuel (http.response_more h) body)
