-- ===== src/Net/Selection.antt =====
-- Which card and which Ip4Config2 src/net.rs chooses.
use alpheratz.Prelude.{
  ℕ, zero, suc, ◌/◌, ◌%◌, ◌<◌, ◌≡◌, ◌≢◌, ◌⊎◌, refl, sym, ap, ◌∙◌, List, [], ◌∷◌, Option, none, some,
  true, arith, length, get_elem?, IsAscii, chars-ascii, Bool-cases, Option-cases, inl, inr, ==_iff,
}
use mathlib.Core.Path.{subst}
use alpheratz.Prelude.Fallible.{>>=-intro, eq_of_some}
use alpheratz.Config.{Config, Network}
use alpheratz.Firmware.{Result, ok, Result-cases}
use alpheratz.Net.Mac.{parse_mac, mac_to_string, format_from, upper_digit}
use alpheratz.Net.Mac.RoundTrip.{AllBytes, parse_mac-mac_to_string}
use alpheratz.Net.Select.{
  same, snp_mac6, find_nic, has_mac, choose, wanted, select_nic_handle, first_open, open_ip4config2,
}

same_refl : (xs : List ℕ) → same xs xs ≡ true
unfolding same
same_refl [] = refl
same_refl (x ∷ xs) = ground (arith, same_refl xs)

same_eq : (xs ys : List ℕ) → same xs ys ≡ true → xs ≡ ys
unfolding same
same_eq [] [] h = refl
same_eq [] (y ∷ ys) h = absurd (ground arith)
same_eq (x ∷ xs) [] h = absurd (ground arith)
same_eq (x ∷ xs) (y ∷ ys) h = ground (arith, same_eq xs ys, ==_iff x y)

upper_digit-lt : (d : ℕ) → d < 16 → upper_digit d < 0x80
unfolding upper_digit
upper_digit-lt d h = ground arith

format_from-IsAscii : (i : ℕ) (bs : List ℕ) → AllBytes bs → IsAscii (format_from i bs)
unfolding format_from
format_from-IsAscii i [] h = tt
format_from-IsAscii zero (b ∷ bs) h = (
  upper_digit-lt (b / 16) (omega (arith, h.0)),
  (upper_digit-lt (b % 16) (omega arith), format_from-IsAscii 1 bs h.1),
)
format_from-IsAscii (suc i) (b ∷ bs) h = (
  omega arith,
  (
    upper_digit-lt (b / 16) (omega (arith, h.0)),
    (upper_digit-lt (b % 16) (omega arith), format_from-IsAscii (suc (suc i)) bs h.1),
  ),
)

module _ (snp : ℕ → Option (List ℕ)) where
  -- A handle whose card has this address now.
  abbrev pub HasMac : List ℕ → ℕ → Type 0
  HasMac mac h = (address : List ℕ) × (snp h ≡ some address) × (snp_mac6 address ≡ mac)

  has_mac-true : (mac : List ℕ) (h : ℕ) → HasMac mac h → has_mac snp mac (snp h) ≡ true
  unfolding has_mac
  has_mac-true mac h (address, opened, eq) = rw (opened, eq, has_mac) (same_refl mac)

  has_mac-HasMac : (mac : List ℕ) (h : ℕ) → has_mac snp mac (snp h) ≡ true → HasMac mac h
  unfolding has_mac
  has_mac-HasMac mac h e = elim (Option-cases (snp h)) [
    | inl closed ↦ absurd (ground (arith, closed))
    | inr (address, opened) ↦ (address, opened, same_eq (snp_mac6 address) mac (rw opened at e))
  ]

  find_nic-HasMac :
      (mac : List ℕ) (fallback : ℕ) (handles : List ℕ) (i h : ℕ)
      → get_elem? handles i ≡ some h
      → HasMac mac h
      → HasMac mac (find_nic snp mac fallback handles)
  unfolding find_nic
  find_nic-HasMac mac fallback [] i h e has = cc (e)
  find_nic-HasMac mac fallback (g ∷ gs) zero h e has =
      let first : HasMac mac g = subst (HasMac mac) (sym (eq_of_some e)) has in
      rw (has_mac-true mac g first) first
  find_nic-HasMac mac fallback (g ∷ gs) (suc i) h e has =
      elim (Bool-cases (has_mac snp mac (snp g))) [
        | inl matches ↦ rw matches (has_mac-HasMac mac g matches)
        | inr differs ↦ rw differs (find_nic-HasMac mac fallback gs i h e has)
      ]

  find_nic-located :
      (mac : List ℕ) (fallback : ℕ) (handles : List ℕ)
      → (find_nic snp mac fallback handles ≡ fallback)
        ⊎ ((i : ℕ) × (get_elem? handles i ≡ some (find_nic snp mac fallback handles)))
  unfolding find_nic
  find_nic-located mac fallback [] = inl refl
  find_nic-located mac fallback (g ∷ gs) = elim (Bool-cases (has_mac snp mac (snp g))) [
    | inl matches ↦ inr (0, rw matches refl)
    | inr differs ↦ elim (find_nic-located mac fallback gs) [
      | inl stays ↦ inl (rw differs stays)
      | inr (i, there) ↦ inr (suc i, rw differs there)
    ]
  ]

  -- A configuration that binds the address, as the loader prints it, of a card that is there gets a
  -- card with this address.
  pub select_nic_handle-bound :
      (cfg : Config) (n : Network) (mac handles : List ℕ) (i h : ℕ)
      → cfg.network ≡ some n
      → n.bind ≡ some (mac_to_string mac)
      → length mac ≡ 6
      → AllBytes mac
      → get_elem? handles i ≡ some h
      → HasMac mac h
      → (chosen : ℕ) × (select_nic_handle snp cfg (ok handles) ≡ ok chosen) × HasMac mac chosen
  unfolding select_nic_handle wanted mac_to_string
  select_nic_handle-bound cfg n mac [] i h has_net has_bind six ok_mac e has = cc (e)
  select_nic_handle-bound cfg n mac (g ∷ gs) i h has_net has_bind six ok_mac e has =
      let text = format_from 0 mac in
      let parsed : wanted snp cfg ≡ some mac = >>=-intro _ has_net (
        >>=-intro _ has_bind (
          ap parse_mac (chars-ascii text (format_from-IsAscii 0 mac ok_mac))
          ∙ parse_mac-mac_to_string mac six ok_mac)) in
      (
        find_nic snp mac g (g ∷ gs),
        rw (parsed, select_nic_handle) refl,
        find_nic-HasMac mac g (g ∷ gs) i h e has,
      )

  choose-located :
      (want : Option (List ℕ)) (g : ℕ) (gs : List ℕ)
      → (i : ℕ) × ((chosen : ℕ) × (choose snp want (g ∷ gs) ≡ ok chosen)
          × (get_elem? (g ∷ gs) i ≡ some chosen))
  unfolding choose
  choose-located none g gs = (0, (g, refl, refl))
  choose-located (some want) g gs = elim (find_nic-located want g (g ∷ gs)) [
    | inl stays ↦ (0, (find_nic snp want g (g ∷ gs), refl, ap some (sym stays)))
    | inr (i, there) ↦ (i, (find_nic snp want g (g ∷ gs), refl, there))
  ]

  -- As soon as there is a card, some card that is there is chosen, whatever the configuration says.
  pub select_nic_handle-located :
      (cfg : Config) (handles : List ℕ)
      → handles ≢ []
      → (i : ℕ) × ((chosen : ℕ) × (select_nic_handle snp cfg (ok handles) ≡ ok chosen)
          × (get_elem? handles i ≡ some chosen))
  unfolding select_nic_handle
  select_nic_handle-located cfg [] some_card = absurd (some_card refl)
  select_nic_handle-located cfg (g ∷ gs) some_card = choose-located (wanted snp cfg) g gs

module _ (new : ℕ → Result ℕ) where
  first_open-finds :
      (handles : List ℕ) (i h p : ℕ)
      → get_elem? handles i ≡ some h
      → new h ≡ ok p
      → (j : ℕ) × ((g : ℕ) × ((q : ℕ) × (get_elem? handles j ≡ some g)
            × (new g ≡ ok q)
            × (first_open new handles ≡ ok q)))
  unfolding first_open
  first_open-finds [] i h p e opens = cc (e)
  first_open-finds (g ∷ gs) zero h p e opens =
      let first : new g ≡ ok p = ap new (eq_of_some e) ∙ opens in
      (0, (g, (p, refl, first, rw (first, first_open) refl)))
  first_open-finds (g ∷ gs) (suc i) h p e opens = elim (Result-cases (new g)) [
    | inl (q, opened) ↦ (0, (g, (q, refl, opened, rw (opened, first_open) refl)))
    | inr (s, closed) ↦
        let (j, (f, (q, there, opened, found))) = first_open-finds gs i h p e opens in
        (suc j, (f, (q, there, opened, rw (closed, first_open) found)))
  ]

  -- If Ip4Config2 opens on any located handle, `open_ip4config2` opens it: on the preferred handle,
  -- or else on one of those.
  pub open_ip4config2-finds :
      (preferred : ℕ) (handles : List ℕ) (i h p : ℕ)
      → get_elem? handles i ≡ some h
      → new h ≡ ok p
      → (g : ℕ) × ((q : ℕ) × (new g ≡ ok q)
          × (open_ip4config2 new preferred (ok handles) ≡ ok q)
          × ((g ≡ preferred) ⊎ ((j : ℕ) × (get_elem? handles j ≡ some g))))
  unfolding open_ip4config2
  open_ip4config2-finds preferred handles i h p e opens = elim (Result-cases (new preferred)) [
    | inl (q, opened) ↦ (preferred, (q, opened, rw (opened, open_ip4config2) refl, inl refl))
    | inr (s, closed) ↦
        let (j, (g, (q, there, opened, found))) = first_open-finds handles i h p e opens in
        (g, (q, opened, rw (closed, open_ip4config2) found, inr (j, there)))
  ]
