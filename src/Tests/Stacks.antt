-- ===== src/Tests/Stacks.antt =====
-- Tests of `bring_up_ipv4`: a machine that counts the controllers it has connected and has an
-- Ip4Config2, on handle 7, after the fourth.
use alpheratz.Prelude.{
  ℕ, suc, ◌+◌, ◌<◌, ◌≡◌, ◌⊎◌, refl, [], ◌∷◌, ◌++◌, some, true, false, if◌then◌else◌, ltb, ◌==◌,
  bytes,
}
use alpheratz.Config.{default_config}
use alpheratz.Firmware.{Status, ok, err}
use alpheratz.Net.Select.{snp_mac6, open_ip4config2, first_open}
use alpheratz.Session.{
  Session, nic_address, stack_failed, waiting_for_dhcp, ipv4_ready, handles_found, ip, netmask, dns,
  map_err,
}
use alpheratz.Net.BringUp.{
  NetFirmware, bring_up_ipv4, passes, six, has_ip4, pass_message, connect_nic,
  connect_all_controllers, connect_each, count_protocol_handles, by_type, bring_up_dhcp, open_ip4,
  report, gateway_messages, dns_messages, dns_lines, wanted_type,
}
use alpheratz.Net.Mac.{mac_to_string, format_from, upper_digit}
use alpheratz.Net.Passes.{tried, passes-six}
use alpheratz.Net.Ready.{EndsOneWay, connected, bring_up_ipv4-outcome}

abbrev machine : NetFirmware ℕ
machine = record {
  open_snp_readonly = λ w h. some (1 ∷ 2 ∷ 3 ∷ 4 ∷ 5 ∷ 0xAB ∷ 7 ∷ []);
  connect_controller = λ h w. w + 1;
  all_handles = λ w. some (2 ∷ []);
  snp_handles = λ w. ok (2 ∷ []);
  ip4_handles = λ w. ok (if ltb w 4 then [] else 7 ∷ []);
  ip4_new = λ w h. if h == 7 then ok 7 else err Status.unsupported;
  ifup = λ h w. (ok tt, w + 100);
  get_interface_info = λ h w.
      some (record { station_addr = bytes "10.0.2.15"; subnet_mask = bytes "255.255.255.0" });
  get_gateway = λ h w. some (10 ∷ 0 ∷ 2 ∷ []);
  get_dns = λ h w. some (10 ∷ 0 ∷ 2 ∷ 3 ∷ 8 ∷ []);
}

abbrev session : Session ℕ
session = record { world = 0; messages = [] }

-- Two passes; three bytes are no gateway, and five are one server.
bring_up_ipv4_run : bring_up_ipv4 machine default_config 2 session ≡ (
  ok tt,
  record {
    world = 104;
    messages =
        nic_address (bytes "01:02:03:04:05:AB")
        ∷ waiting_for_dhcp
        ∷ handles_found 1
        ∷ ip (bytes "10.0.2.15")
        ∷ netmask (bytes "255.255.255.0")
        ∷ dns 10 0 2 3
        ∷ ipv4_ready
        ∷ [];
  },
)
unfolding bring_up_ipv4 passes has_ip4 pass_message connect_nic connect_all_controllers connect_each
    count_protocol_handles by_type bring_up_dhcp open_ip4 open_ip4config2 first_open report
    gateway_messages dns_messages dns_lines wanted_type mac_to_string format_from upper_digit
    snp_mac6 map_err
bring_up_ipv4_run = refl

passes-six_example :
    ((k : ℕ) × (k < 6)
      × (has_ip4 machine (tried machine 2 (suc k) 0) ≡ true)
      × ((j : ℕ) → j < k → has_ip4 machine (tried machine 2 (suc j) 0) ≡ false)
      × (passes machine 2 six session ≡ record session { world = tried machine 2 (suc k) 0 }))
    ⊎ (((j : ℕ) → j < 6 → has_ip4 machine (tried machine 2 (suc j) 0) ≡ false)
        × (passes machine 2 six session
            ≡ record { world = tried machine 2 6 0; messages = [] ++ stack_failed ∷ [] }))
passes-six_example = passes-six machine 2 session

bring_up_ipv4-outcome_example :
    EndsOneWay machine 2 (connected machine 2 0) (bring_up_ipv4 machine default_config 2 session)
bring_up_ipv4-outcome_example = bring_up_ipv4-outcome machine default_config 2 session
