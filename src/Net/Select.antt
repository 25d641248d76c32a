-- ===== src/Net/Select.antt =====
-- `select_nic_handle` and `open_ip4config2` of src/net.rs, over the firmware's handles. A handle is
-- a number; `snp` is what opening its SimpleNetwork protocol gives: the bytes of the card's current
-- address, of which the first six count.
use alpheratz.Prelude.{
  ℕ, List, [], ◌∷◌, Option, none, some, Bool, true, false, ◌&&◌, ◌==◌, if◌then◌else◌, take, chars,
}
use alpheratz.Prelude.Fallible.{◌>>=◌}
use alpheratz.Config.{Config}
use alpheratz.Firmware.{Status, Result, ok, err}
use alpheratz.Net.Mac.{parse_mac}

-- `==` of two addresses.
unfoldable pub same : List ℕ → List ℕ → Bool
same [] [] = true
same (x ∷ xs) (y ∷ ys) = (x == y) && same xs ys
same _ _ = false

unfoldable pub snp_mac6 : List ℕ → List ℕ
snp_mac6 current_address = take 6 current_address

module _ (snp : ℕ → Option (List ℕ)) where
  unfoldable pub has_mac : List ℕ → Option (List ℕ) → Bool
  has_mac want none = false
  has_mac want (some address) = same (snp_mac6 address) want

  -- The loop over the handles; `fallback` is what follows it.
  unfoldable pub find_nic : List ℕ → ℕ → List ℕ → ℕ
  unfolding has_mac
  find_nic want fallback [] = fallback
  find_nic want fallback (h ∷ hs) =
      let rest = find_nic want fallback hs in if has_mac want (snp h) then h else rest

  unfoldable pub choose : Option (List ℕ) → List ℕ → Result ℕ
  choose want [] = err Status.not_found
  choose none (fallback ∷ hs) = ok fallback
  choose (some want) (fallback ∷ hs) = ok (find_nic want fallback (fallback ∷ hs))

  -- `cfg.network.as_ref().and_then(|n| n.bind.as_deref()).and_then(parse_mac)`
  unfoldable pub wanted : Config → Option (List ℕ)
  wanted cfg = do n ← cfg.network; bind ← n.bind; parse_mac (chars bind)

  -- The argument is the result of `locate_snp_handles`.
  unfoldable pub select_nic_handle : Config → Result (List ℕ) → Result ℕ
  unfolding choose
  select_nic_handle cfg (err e) = err e
  select_nic_handle cfg (ok handles) = choose (wanted cfg) handles

-- `new` is `Ip4Config2::new`; a success is the handle that it was opened on.
module _ (new : ℕ → Result ℕ) where
  unfoldable pub first_open : List ℕ → Result ℕ
  first_open [] = err Status.not_found
  first_open (h ∷ hs) = let rest = first_open hs in elim (new h) [ ok p ↦ ok p | err _ ↦ rest ]

  scan : Result (List ℕ) → Result ℕ
  scan (err e) = err e
  scan (ok handles) = first_open handles

  unfoldable pub open_ip4config2 : ℕ → Result (List ℕ) → Result ℕ
  unfolding scan
  open_ip4config2 preferred handles = elim (new preferred) [ ok p ↦ ok p | err _ ↦ scan handles ]
