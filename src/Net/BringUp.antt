-- ===== src/Net/BringUp.antt =====
-- `bring_up_ipv4` of src/net.rs: the passes that start the network stack, then DHCP. The firmware's
-- calls on handles are a parameter; only `connect_controller` and `ifup` change the world. A success
-- of `Ip4Config2::new` is the handle that it was opened on.
use alpheratz.Prelude.{
  ℕ, List, [], ◌∷◌, ◌++◌, Option, none, some, Bool, ltb, ◌==◌, if◌then◌else◌, length, Str,
}
use alpheratz.Config.{Config, NetworkType, dhcp}
use alpheratz.Firmware.{Result, ok, err}
use alpheratz.Net.Mac.{mac_to_string}
use alpheratz.Net.Select.{snp_mac6, open_ip4config2}
use alpheratz.Session.{
  Message, nic_address, stack_failed, waiting_for_dhcp, ipv4_ready, handles_found, no_ip4config2,
  ifup_failed, ip, netmask, gateway, dns, Session, Action, reads, calls, map_err, println, ◌>>=◌,
  ◌>>◌,
}

-- The addresses are as `Display` prints them.
pub record InterfaceInfo : Type 0 where
  pub station_addr : Str
  pub subnet_mask : Str

pub record NetFirmware (W : Type 0) : Type 0 where
  pub open_snp_readonly : W → ℕ → Option (List ℕ)
  pub connect_controller : ℕ → W → W
  pub all_handles : W → Option (List ℕ)
  pub snp_handles : W → Result (List ℕ)
  pub ip4_handles : W → Result (List ℕ)
  pub ip4_new : W → ℕ → Result ℕ
  pub ifup : ℕ → W → Result (Unit {0}) × W
  pub get_interface_info : ℕ → W → Option InterfaceInfo
  pub get_gateway : ℕ → W → Option (List ℕ)
  pub get_dns : ℕ → W → Option (List ℕ)

unfoldable pub count_protocol_handles : Result (List ℕ) → ℕ
count_protocol_handles (err e) = 0
count_protocol_handles (ok handles) = length handles

nic_message : Option (List ℕ) → List Message
nic_message none = []
nic_message (some address) = nic_address (mac_to_string (snp_mac6 address)) ∷ []

info_messages : Option InterfaceInfo → List Message
info_messages none = []
info_messages (some info) = ip info.station_addr ∷ netmask info.subnet_mask ∷ []

-- `gw[0]` to `gw[3]`, if there are four bytes.
unfoldable pub gateway_messages : Option (List ℕ) → List Message
gateway_messages (some (a ∷ b ∷ c ∷ d ∷ _)) = gateway a b c d ∷ []
gateway_messages _ = []

-- `chunks_exact(4)`: bytes beyond the last chunk of four are left out.
unfoldable pub dns_lines : List ℕ → List Message
dns_lines (a ∷ b ∷ c ∷ d ∷ rest) = dns a b c d ∷ dns_lines rest
dns_lines _ = []

unfoldable pub dns_messages : Option (List ℕ) → List Message
dns_messages none = []
dns_messages (some bs) = dns_lines bs

unfoldable pub wanted_type : Config → NetworkType
wanted_type cfg = elim cfg.network [
  | none ↦ dhcp
  | some n ↦ elim n.network_type [ none ↦ dhcp | some t ↦ t ]
]

-- `0..6u32`
abbrev pub six : List ℕ
six = 0 ∷ 1 ∷ 2 ∷ 3 ∷ 4 ∷ 5 ∷ []

unfoldable pub pass_message : ℕ → List Message
pass_message pass = if pass == 5 then stack_failed ∷ [] else []

module _ {W : Type 0} (fw : NetFirmware W) where
  unfoldable pub connect_each : List ℕ → W → W
  connect_each [] w = w
  connect_each (h ∷ hs) w = connect_each hs (fw.connect_controller h w)

  unfoldable pub connect_all_controllers : W → W
  connect_all_controllers w = elim (fw.all_handles w) [ none ↦ w | some all ↦ connect_each all w ]

  unfoldable pub connect_nic : ℕ → W → W
  connect_nic nic w = connect_all_controllers (fw.connect_controller nic w)

  unfoldable pub has_ip4 : W → Bool
  has_ip4 w = ltb 0 (count_protocol_handles (fw.ip4_handles w))

  -- `for pass in 0..6u32`, over the passes that are left.
  unfoldable pub passes : ℕ → List ℕ → Session W → Session W
  unfolding connect_nic has_ip4 count_protocol_handles
  passes nic [] s = s
  passes nic (pass ∷ left) s =
      let s1 = record s { world = connect_nic nic s.world } in
      let rest = passes nic left (record s1 { messages = s1.messages ++ pass_message pass }) in
      if has_ip4 s1.world then s1 else rest

  -- What `open_ip4config2` prints.
  found_messages : Result ℕ → Result (List ℕ) → List Message
  found_messages (ok _) handles = []
  found_messages (err _) (err _) = []
  found_messages (err _) (ok handles) = handles_found (length handles) ∷ []

  unfoldable pub open_ip4 : ℕ → Action W ℕ
  unfolding found_messages
  open_ip4 nic = do
    found ← reads (λ w. ok (found_messages (fw.ip4_new w nic) (fw.ip4_handles w)))
    println found
    reads (λ w. open_ip4config2 (fw.ip4_new w) nic (fw.ip4_handles w))

  -- From `get_interface_info` on: nothing here fails or changes the world.
  unfoldable pub report : ℕ → Action W (Unit {0})
  unfolding info_messages
  report ip4 = do
    info ← reads (λ w. ok (info_messages (fw.get_interface_info ip4 w)))
    println info
    gw ← reads (λ w. ok (gateway_messages (fw.get_gateway ip4 w)))
    println gw
    servers ← reads (λ w. ok (dns_messages (fw.get_dns ip4 w)))
    println servers
    println (ipv4_ready ∷ [])

  unfoldable pub bring_up_dhcp : ℕ → Action W (Unit {0})
  bring_up_dhcp nic = do
    println (waiting_for_dhcp ∷ [])
    ip4 ← map_err (open_ip4 nic) no_ip4config2
    map_err (calls (fw.ifup ip4)) ifup_failed
    report ip4

  unfoldable pub by_type : NetworkType → ℕ → Action W (Unit {0})
  by_type dhcp nic = bring_up_dhcp nic

  unfoldable pub bring_up_ipv4 : Config → ℕ → Action W (Unit {0})
  unfolding nic_message by_type passes
  bring_up_ipv4 cfg nic = do
    card ← reads (λ w. ok (nic_message (fw.open_snp_readonly w nic)))
    println card
    (λ s. (ok tt, passes nic six s))
    by_type (wanted_type cfg) nic
