-- ===== src/Download/Started.antt =====
-- What a started HTTP client of src/download.rs stands on.
use alpheratz.Prelude.{ℕ, ◌≡◌, sym, ap, ◌∙◌, [], ◌∷◌, ◌++◌}
use alpheratz.Config.{Config}
use alpheratz.Firmware.{Result, ok, eq_of_ok}
use alpheratz.Session.{
  creating_http_client, http_new_failed, http_configure_failed, Session, Action, pure, calls,
  map_err, ◌>>◌, >>=-eq-ok, map_err-eq-ok, calls-eq-ok,
}
use alpheratz.FsUtil.Images.{load_drivers}
use alpheratz.Net.Select.{select_nic_handle}
use alpheratz.Net.BringUp.{bring_up_ipv4}
use alpheratz.Download.Client.{Machine, select_nic, http_client, start_http}

module _ {W : Type 0} (m : Machine W) where
  -- The machine after the configured drivers have been tried.
  abbrev pub with_drivers : Config → Session W → Session W
  with_drivers cfg s = (load_drivers m.images m.disk cfg s).1

  abbrev pub chosen_nic : Config → Session W → Result ℕ
  chosen_nic cfg s =
      select_nic_handle (m.net.open_snp_readonly s.world) cfg (m.net.snp_handles s.world)

  abbrev made_on : ℕ → Action W ℕ
  made_on nic = map_err (calls (m.http.http_new nic)) http_new_failed

  abbrev configured : ℕ → Action W (Unit {0})
  configured h = map_err (calls (m.http.configure h)) http_configure_failed

  http_client-ok :
      (nic h : ℕ) (s s' : Session W)
      → http_client m nic s ≡ (ok h, s')
      → (w : W) × (m.http.http_new nic s.world ≡ (ok h, w))
        × (m.http.configure h w ≡ (ok tt, s'.world))
  unfolding http_client
  http_client-ok nic h s s' e =
      let s0 : Session W = record s { messages = s.messages ++ creating_http_client ∷ [] } in
      let (client, (s1, made, e1)) =
        >>=-eq-ok (made_on nic) (λ client. configured client >> pure client) {s = s0} e in
      let (tt, (s2, done, e2)) = >>=-eq-ok (configured client) (λ _. pure client) {s = s1} e1 in
      let same : client ≡ h = eq_of_ok (ap (λ (r, _). r) e2) in
      let last : s2 ≡ s' = ap (λ (_, s). s) e2 in
      (
        s1.world,
        calls-eq-ok (m.http.http_new nic)
              (map_err-eq-ok (calls (m.http.http_new nic)) http_new_failed made)
            ∙ ap (λ c. (ok c, s1.world)) same,
        ap (λ c. m.http.configure c s1.world) (sym same)
            ∙ (calls-eq-ok (m.http.configure client)
                  (map_err-eq-ok (calls (m.http.configure client)) http_configure_failed done)
                ∙ ap (λ (s : Session W). (ok tt, s.world)) last),
      )

  -- A client that is started was made on the card that `select_nic_handle` chose once the drivers had
  -- been tried, after IPv4 was up on that card, and was then configured; nothing comes after that.
  pub start_http-ok :
      (cfg : Config) (h : ℕ) (s s' : Session W)
      → start_http m cfg s ≡ (ok h, s')
      → (nic : ℕ) × (chosen_nic cfg (with_drivers cfg s) ≡ ok nic)
        × ((up : Session W) × (bring_up_ipv4 m.net cfg nic (with_drivers cfg s) ≡ (ok tt, up))
            × ((w : W) × (m.http.http_new nic up.world ≡ (ok h, w))
                × (m.http.configure h w ≡ (ok tt, s'.world))))
  unfolding start_http
  start_http-ok cfg h s s' e =
      let d = with_drivers cfg s in
      let (nic, (s1, chosen, e1)) =
        >>=-eq-ok (select_nic m cfg) (λ nic. bring_up_ipv4 m.net cfg nic >> http_client m nic)
          {s = d} e in
      let (tt, (up, ready, e2)) =
        >>=-eq-ok (bring_up_ipv4 m.net cfg nic) (λ _. http_client m nic) {s = s1} e1 in
      let same : d ≡ s1 = unfold select_nic in ap (λ (_, s). s) chosen in
      (
        nic,
        unfold select_nic in ap (λ (r, _). r) chosen,
        (up, ap (bring_up_ipv4 m.net cfg nic) same ∙ ready, http_client-ok nic h up s' e2),
      )
