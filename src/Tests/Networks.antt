-- ===== src/Tests/Networks.antt =====
-- Tests of src/net.rs.
use alpheratz.Config.{Config, Network, default_config}
use alpheratz.Firmware.{ok}
use alpheratz.Net.Select.{snp_mac6, select_nic_handle}
use alpheratz.Net.Selection.{HasMac, select_nic_handle-bound}
use alpheratz.Prelude.{
  Option, none, zero, suc, ◌++◌, replicate, ℕ, ◌≡◌, refl, List, [], ◌∷◌, some, arith, bytes,
}
use alpheratz.Net.Mac.{
  is_whitespace, trim_start, trim_end, trim, is_separator, split, len, to_digit, from_digits,
  from_str_radix, parse_parts, parse_mac, upper_digit, format_from, mac_to_string,
}
use alpheratz.Net.Mac.RoundTrip.{parse_mac-mac_to_string}

abbrev mac : List ℕ
mac = 0x52 ∷ 0x54 ∷ 0x00 ∷ 0xAB ∷ 0xCD ∷ 0x0F ∷ []

-- A short byte and a sign: five of the six bytes are two digits, one is a digit with a plus.
abbrev signed : List ℕ
signed = bytes " 52-54:+0:ab:CD:0f "

parse_mac-signed : parse_mac signed ≡ some mac
unfolding parse_mac trim trim_start trim_end is_whitespace split is_separator parse_parts len
    from_str_radix from_digits to_digit
parse_mac-signed = refl

mac_to_string_text : mac_to_string mac ≡ bytes "52:54:00:AB:CD:0F"
unfolding mac_to_string format_from upper_digit
mac_to_string_text = refl

parse_mac-mac_to_string_example : parse_mac (mac_to_string mac) ≡ some mac
parse_mac-mac_to_string_example = parse_mac-mac_to_string mac refl (omega arith)

-- Two cards; the second has the address above, in the first bytes of its 32.
abbrev snp : ℕ → Option (List ℕ)
snp zero = none
snp (suc zero) = some (mac ++ 1 ∷ 0 ∷ [])
snp (suc (suc h)) = some (replicate 32 9)

abbrev network : Network
network = record { bind = some (mac_to_string mac); network_type = none }

abbrev config : Config
config = record default_config { network = some network }

select_nic_handle-bound_example :
    (chosen : ℕ) × (select_nic_handle snp config (ok (2 ∷ 0 ∷ 1 ∷ [])) ≡ ok chosen)
    × HasMac snp mac chosen
select_nic_handle-bound_example =
    select_nic_handle-bound snp config network mac (2 ∷ 0 ∷ 1 ∷ []) 2 1 refl refl refl (omega arith)
      refl (mac ++ 1 ∷ 0 ∷ [], refl, unfold snp_mac6 in refl)
