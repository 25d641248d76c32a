-- ===== src/Session.antt =====
-- What the loader's code does to the machine where its calls follow each other, in src/net.rs,
-- src/fsutil.rs, src/download.rs and src/main.rs: an action leaves a new world and the messages that it printed,
-- after an error too.
use alpheratz.Prelude.{ℕ, ◌≡◌, refl, ap, List, [], ◌∷◌, ◌++◌, Str}
use alpheratz.Config.{Protocol}
use alpheratz.Firmware.{Status, Result, ok, err, ◌then_◌}

pub data Message : Type 0 where
  nic_address : Str → Message
  stack_failed waiting_for_dhcp ipv4_ready creating_http_client : Message
  handles_found : ℕ → Message
  no_ip4config2 ifup_failed http_new_failed http_configure_failed : Status → Message
  ip netmask : Str → Message
  gateway dns : ℕ → ℕ → ℕ → ℕ → Message
  reading downloading : Str → Message
  byte_count : ℕ → Message
  selected : Protocol → Str → Message
  failed_to_load : Status → Message
  no_kernel press_any_key : Message

pub record Session (W : Type 0) : Type 0 where
  pub world : W
  pub messages : List Message

abbrev pub Action : Type 0 → Type 0 → Type 0
Action W A = Session W → Result A × Session W

module _ {W A : Type 0} where
  abbrev pub pure : A → Action W A
  pure a s = (ok a, s)

  -- A result that only looks at the world.
  abbrev pub reads : (W → Result A) → Action W A
  reads f s = (f s.world, s)

  -- A call that changes the world.
  abbrev pub calls : (W → Result A × W) → Action W A
  calls f s = let (r, w) = f s.world in (r, record s { world = w })

  -- `let _ = action;`
  abbrev pub ignored : Action W A → Action W (Unit {0})
  ignored action s = (ok tt, (action s).1)

  after_error : (Status → Message) → Result A × Session W → Result A × Session W
  after_error m (ok a, s) = (ok a, s)
  after_error m (err e, s) = (err e, record s { messages = s.messages ++ m e ∷ [] })

  -- `map_err` with a message.
  unfoldable pub map_err : Action W A → (Status → Message) → Action W A
  unfolding after_error
  map_err action m s = after_error m (action s)

module _ {W : Type 0} where
  abbrev pub printed : List Message → Session W → Session W
  printed ms s = record s { messages = s.messages ++ ms }

  abbrev pub println : List Message → Action W (Unit {0})
  println ms s = (ok tt, printed ms s)

  abbrev pub changes : (W → W) → Action W (Unit {0})
  changes f s = (ok tt, record s { world = f s.world })

abbrev pub goes_on :
    {W A B : Type 0} → (A → Action W B) → Result A × Session W → Result B × Session W
goes_on f (ok a, s) = f a s
goes_on f (err e, s) = (err e, s)

infixl 5 ◌>>=◌ ◌>>◌
abbrev pub ◌>>=◌ : {W A B : Type 0} → Action W A → (A → Action W B) → Action W B
◌>>=◌ m f s = goes_on f (m s)

abbrev pub ◌>>◌ : {W B : Type 0} → Action W (Unit {0}) → Action W B → Action W B
m >> k = m >>= λ _. k

module _ {W A B : Type 0} where
  pub >>=-ok :
      (m : Action W A) (f : A → Action W B) {s s' : Session W} {a : A}
      → m s ≡ (ok a, s')
      → (m >>= f) s ≡ f a s'
  >>=-ok m f e = ap (goes_on f) e

  pub >>=-err :
      (m : Action W A) (f : A → Action W B) {s s' : Session W} {e : Status}
      → m s ≡ (err e, s')
      → (m >>= f) s ≡ (err e, s')
  >>=-err m f e = ap (goes_on f) e

module _ {W A : Type 0} where
  pub map_err-ok :
      (m : Action W A) (f : Status → Message) {s s' : Session W} {a : A}
      → m s ≡ (ok a, s')
      → map_err m f s ≡ (ok a, s')
  unfolding map_err after_error
  map_err-ok m f e = ap (after_error f) e

  pub map_err-err :
      (m : Action W A) (f : Status → Message) {s s' : Session W} {e : Status}
      → m s ≡ (err e, s')
      → map_err m f s ≡ (err e, record s' { messages = s'.messages ++ f e ∷ [] })
  unfolding map_err after_error
  map_err-err m f e = ap (after_error f) e

module _ {W A B : Type 0} where
  -- The result of a sequence is the sequence of the results.
  pub goes_on-then :
      (q : Result A × Session W) (f : A → Action W B) (g : A → Result B)
      → ((a : A) → (f a q.1).0 ≡ g a)
      → (goes_on f q).0 ≡ (q.0 then_ g)
  goes_on-then (ok a, s) f g h = h a
  goes_on-then (err e, s) f g h = refl

  -- A success of a sequence is a success of its first part and of the rest.
  goes_on-eq-ok :
      (q : Result A × Session W) (f : A → Action W B) {b : B} {s' : Session W}
      → goes_on f q ≡ (ok b, s')
      → (a : A) × ((s1 : Session W) × (q ≡ (ok a, s1)) × (f a s1 ≡ (ok b, s')))
  goes_on-eq-ok (ok a, s1) f h = (a, (s1, refl, h))
  goes_on-eq-ok (err e, s1) f h = cc (h)

  pub >>=-eq-ok :
      (m : Action W A) (f : A → Action W B) {s s' : Session W} {b : B}
      → (m >>= f) s ≡ (ok b, s')
      → (a : A) × ((s1 : Session W) × (m s ≡ (ok a, s1)) × (f a s1 ≡ (ok b, s')))
  >>=-eq-ok m f {s = s} h = goes_on-eq-ok (m s) f h

module _ {W A : Type 0} where
  after_error-eq-ok :
      (q : Result A × Session W) (f : Status → Message) {a : A} {s' : Session W}
      → after_error f q ≡ (ok a, s')
      → q ≡ (ok a, s')
  unfolding after_error
  after_error-eq-ok (ok a, s1) f h = h
  after_error-eq-ok (err e, s1) f h = cc (h)

  pub map_err-eq-ok :
      (m : Action W A) (f : Status → Message) {s s' : Session W} {a : A}
      → map_err m f s ≡ (ok a, s')
      → m s ≡ (ok a, s')
  unfolding map_err
  map_err-eq-ok m f {s = s} h = after_error-eq-ok (m s) f h

  pub calls-eq-ok :
      (f : W → Result A × W) {s s' : Session W} {a : A}
      → calls f s ≡ (ok a, s')
      → f s.world ≡ (ok a, s'.world)
  calls-eq-ok f h = ap (λ (r, s). (r, s.world)) h
