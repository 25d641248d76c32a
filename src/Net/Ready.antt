-- ===== src/Net/Ready.antt =====
-- How `bring_up_ipv4` of src/net.rs ends.

use mathlib.Core.Path.{subst}
use alpheratz.Prelude.{ℕ, ◌≡◌, ◌⊎◌, inl, inr, refl, sym, ap, ◌∙◌, List, [], ◌∷◌, ◌++◌}
use alpheratz.Config.{Config, NetworkType, dhcp}
use alpheratz.Firmware.{Status, Result, ok, err, Result-cases}
use alpheratz.Net.Select.{open_ip4config2}
use alpheratz.Session.{
  Message, ipv4_ready, no_ip4config2, ifup_failed, waiting_for_dhcp, Session, Action, map_err, ◌>>◌,
  calls, >>=-ok, >>=-err, map_err-ok, map_err-err,
}
use alpheratz.Net.Passes.{passes-world}
use alpheratz.Net.BringUp.{
  NetFirmware, passes, six, open_ip4, report, bring_up_dhcp, bring_up_ipv4, by_type, wanted_type,
}

module _ {W : Type 0} (fw : NetFirmware W) where
  -- The Ip4Config2 that is opened in a world.
  abbrev pub opened : ℕ → W → Result ℕ
  opened nic w = open_ip4config2 (fw.ip4_new w) nic (fw.ip4_handles w)

  abbrev pub Ends : Session W → Message → Type 0
  Ends s m = (before : List Message) × (s.messages ≡ before ++ m ∷ [])

  abbrev pub NotOpened : ℕ → W → Result (Unit {0}) × Session W → Type 0
  NotOpened nic w (r, s) =
      (e : Status) × (opened nic w ≡ err e) × (r ≡ err e) × (s.world ≡ w) × Ends s (no_ip4config2 e)

  abbrev pub NotUp : ℕ → W → Result (Unit {0}) × Session W → Type 0
  NotUp nic w (r, s) =
      (p : ℕ) × ((e : Status) × (opened nic w ≡ ok p)
        × (fw.ifup p w ≡ (err e, s.world))
        × (r ≡ err e)
        × Ends s (ifup_failed e))

  abbrev pub Up : ℕ → W → Result (Unit {0}) × Session W → Type 0
  Up nic w (r, s) =
      (p : ℕ) × (opened nic w ≡ ok p)
      × (fw.ifup p w ≡ (ok tt, s.world))
      × (r ≡ ok tt)
      × Ends s ipv4_ready

  -- What `open_ip4` and `ifup` leave behind.
  searched : ℕ → Session W → Session W
  unfolding open_ip4
  searched nic s = (open_ip4 fw nic (record s { messages = s.messages ++ waiting_for_dhcp ∷ [] })).1

  open_ip4-opened :
      (nic : ℕ) (s : Session W) {r : Result ℕ}
      → opened nic s.world ≡ r
      → open_ip4 fw nic (record s { messages = s.messages ++ waiting_for_dhcp ∷ [] })
        ≡ (r, searched nic s)
  unfolding open_ip4 searched
  open_ip4-opened nic s e = rw e

  report-Ends :
      (p : ℕ) (s : Session W)
      → (s' : Session W) × (report fw p s ≡ (ok tt, s')) × (s'.world ≡ s.world) × Ends s' ipv4_ready
  unfolding report
  report-Ends p s = (_, refl, refl, (_, refl))

  abbrev opens : ℕ → Action W ℕ
  opens nic = map_err (open_ip4 fw nic) no_ip4config2

  abbrev ups : ℕ → Action W (Unit {0})
  ups p = map_err (calls (fw.ifup p)) ifup_failed

  abbrev waiting : Session W → Session W
  waiting s = record s { messages = s.messages ++ waiting_for_dhcp ∷ [] }

  dhcp-err :
      (nic : ℕ) (s : Session W) {e : Status}
      → opened nic s.world ≡ err e
      → NotOpened nic s.world (bring_up_dhcp fw nic s)
  unfolding bring_up_dhcp
  dhcp-err nic s {e = e} open_eq =
      subst (NotOpened nic s.world)
        (sym (
          >>=-err (opens nic) (λ p. ups p >> report fw p)
            (map_err-err (open_ip4 fw nic) no_ip4config2 (open_ip4-opened nic s open_eq))))
        (e, open_eq, refl, unfold searched open_ip4 in refl, (_, refl))

  dhcp-ok :
      (nic p : ℕ) (s : Session W)
      → opened nic s.world ≡ ok p
      → bring_up_dhcp fw nic s ≡ (ups p >> report fw p) (searched nic s)
  unfolding bring_up_dhcp
  dhcp-ok nic p s open_eq =
      >>=-ok (opens nic) (λ p. ups p >> report fw p)
        (map_err-ok (open_ip4 fw nic) no_ip4config2 (open_ip4-opened nic s open_eq))

  ifup-err :
      (p : ℕ) (s : Session W) {e : Status} {w : W}
      → fw.ifup p s.world ≡ (err e, w)
      → (ups p >> report fw p) s
        ≡ (err e, record { world = w; messages = s.messages ++ ifup_failed e ∷ [] })
  ifup-err p s {w = w} up_eq =
      >>=-err (ups p) (λ _. report fw p)
        (map_err-err (calls (fw.ifup p)) ifup_failed
          (ap (λ (r, w). (r, record s { world = w })) up_eq))

  ifup-ok :
      (p : ℕ) (s : Session W) {w : W}
      → fw.ifup p s.world ≡ (ok tt, w)
      → (ups p >> report fw p) s ≡ report fw p (record s { world = w })
  ifup-ok p s {w = w} up_eq =
      >>=-ok (ups p) (λ _. report fw p)
        (map_err-ok (calls (fw.ifup p)) ifup_failed
          (ap (λ (r, w). (r, record s { world = w })) up_eq))

  dhcp-NotUp :
      (nic p : ℕ) (s : Session W) {e : Status} {w : W}
      → opened nic s.world ≡ ok p
      → fw.ifup p s.world ≡ (err e, w)
      → NotUp nic s.world (bring_up_dhcp fw nic s)
  unfolding searched open_ip4
  dhcp-NotUp nic p s {e = e} open_eq up_eq =
      subst (NotUp nic s.world) (sym (dhcp-ok nic p s open_eq ∙ ifup-err p (searched nic s) up_eq))
        (p, (e, open_eq, up_eq, refl, (_, refl)))

  dhcp-Up :
      (nic p : ℕ) (s : Session W) {w : W}
      → opened nic s.world ≡ ok p
      → fw.ifup p s.world ≡ (ok tt, w)
      → Up nic s.world (bring_up_dhcp fw nic s)
  unfolding searched open_ip4
  dhcp-Up nic p s {w = w} open_eq up_eq =
      let (s', reported, same_world, ends) =
        report-Ends p (record (searched nic s) { world = w }) in
      subst (Up nic s.world)
        (sym (dhcp-ok nic p s open_eq ∙ (ifup-ok p (searched nic s) up_eq ∙ reported)))
        (p, open_eq, up_eq ∙ ap (λ w. (ok tt, w)) (sym same_world), refl, ends)

  dhcp-outcome :
      (nic : ℕ) (s : Session W)
      → NotOpened nic s.world (bring_up_dhcp fw nic s)
        ⊎ (NotUp nic s.world (bring_up_dhcp fw nic s) ⊎ Up nic s.world (bring_up_dhcp fw nic s))
  dhcp-outcome nic s = elim (Result-cases (opened nic s.world)) [
    | inr (e, open_eq) ↦ inl (dhcp-err nic s open_eq)
    | inl (p, open_eq) ↦ inr (elim (Result-cases (fw.ifup p s.world).0) [
      | inr (e, up_eq) ↦
          inl (dhcp-NotUp nic p s open_eq (ap (λ r. (r, (fw.ifup p s.world).1)) up_eq))
      | inl (tt, up_eq) ↦ inr (dhcp-Up nic p s open_eq (ap (λ r. (r, (fw.ifup p s.world).1)) up_eq))
    ])
  ]

  -- The world that DHCP starts from: after the passes.
  abbrev pub connected : ℕ → W → W
  connected nic w = (passes fw nic six (record { world = w; messages = [] })).world

  abbrev pub EndsOneWay : ℕ → W → Result (Unit {0}) × Session W → Type 0
  EndsOneWay nic w q = NotOpened nic w q ⊎ (NotUp nic w q ⊎ Up nic w q)

  by_network :
      (t : NetworkType) (nic : ℕ) (ms : List Message) (s : Session W)
      → EndsOneWay nic
          (connected nic s.world)
          (by_type fw t nic (passes fw nic six (record s { messages = ms })))
  unfolding by_type
  by_network dhcp nic ms s =
      let s1 : Session W = record s { messages = ms } in
      subst (λ w. EndsOneWay nic w (bring_up_dhcp fw nic (passes fw nic six s1)))
        (passes-world fw nic six s.world ms []) (dhcp-outcome nic (passes fw nic six s1))

  -- `bring_up_ipv4` ends in one of three ways, decided in the world that the passes leave. No
  -- Ip4Config2 opens: it returns that error, changes nothing more, and says so last. Or `ifup` of the
  -- one that opens fails: it returns that error and says so last. Or `ifup` succeeds: it returns
  -- success, changes nothing after `ifup`, and says last that IPv4 is ready.
  pub bring_up_ipv4-outcome :
      (cfg : Config) (nic : ℕ) (s : Session W)
      → NotOpened nic (connected nic s.world) (bring_up_ipv4 fw cfg nic s)
        ⊎ (NotUp nic (connected nic s.world) (bring_up_ipv4 fw cfg nic s)
            ⊎ Up nic (connected nic s.world) (bring_up_ipv4 fw cfg nic s))
  unfolding bring_up_ipv4 by_type
  bring_up_ipv4-outcome cfg nic s = by_network (wanted_type cfg) nic _ s
