-- ===== src/Net/Passes.antt =====
-- The six passes of `bring_up_ipv4` in src/net.rs.
use mathlib.Core.List.{append-nil, append_assoc}
use alpheratz.Prelude.{
  ℕ, zero, suc, ◌<◌, ◌≡◌, ◌⊎◌, inl, inr, refl, sym, ap, ◌∙◌, List, [], ◌∷◌, ◌++◌, true, false,
  arith, length, take, Bool-cases,
}
use alpheratz.Session.{Message, stack_failed, Session}
use alpheratz.Net.BringUp.{NetFirmware, connect_nic, has_ip4, passes, pass_message, six}

-- What the passes print that found no Ip4Config2.
abbrev pub complaints : List ℕ → List Message
complaints [] = []
complaints (pass ∷ left) = pass_message pass ++ complaints left

below_suc :
    (P : ℕ → Type 0) {n : ℕ} → P 0 → ((j : ℕ) → j < n → P (suc j)) → (j : ℕ) → j < suc n → P j
below_suc P p0 ps zero h = p0
below_suc P p0 ps (suc j) h = ps j (omega (arith, h))

module _ {W : Type 0} (fw : NetFirmware W) (nic : ℕ) where
  -- The world after so many passes.
  abbrev pub tried : ℕ → W → W
  tried zero w = w
  tried (suc k) w = tried k (connect_nic fw nic w)

  -- After pass `k` the loop ends, since an Ip4Config2 is there.
  abbrev pub FoundAt : List ℕ → Session W → ℕ → Type 0
  FoundAt left s k =
      (k < length left)
      × (has_ip4 fw (tried (suc k) s.world) ≡ true)
      × ((j : ℕ) → j < k → has_ip4 fw (tried (suc j) s.world) ≡ false)
      × (passes fw nic left s ≡ record {
        world = tried (suc k) s.world;
        messages = s.messages ++ complaints (take k left);
      })

  -- No pass finds one.
  abbrev pub NeverFound : List ℕ → Session W → Type 0
  NeverFound left s =
      ((j : ℕ) → j < length left → has_ip4 fw (tried (suc j) s.world) ≡ false)
      × (passes fw nic left s ≡ record {
        world = tried (length left) s.world;
        messages = s.messages ++ complaints left;
      })

  passes-found :
      (pass : ℕ) (left : List ℕ) (s : Session W)
      → has_ip4 fw (connect_nic fw nic s.world) ≡ true
      → passes fw nic (pass ∷ left) s ≡ record s { world = connect_nic fw nic s.world }
  unfolding passes
  passes-found pass left s h = rw h

  passes-next :
      (pass : ℕ) (left : List ℕ) (s : Session W)
      → has_ip4 fw (connect_nic fw nic s.world) ≡ false
      → passes fw nic (pass ∷ left) s
        ≡ passes fw nic left (record {
          world = connect_nic fw nic s.world;
          messages = s.messages ++ pass_message pass;
        })
  unfolding passes
  passes-next pass left s h = rw h

  -- What was printed before does not matter to the world.
  pub passes-world :
      (left : List ℕ) (w : W) (ms ms' : List Message)
      → (passes fw nic left (record { world = w; messages = ms })).world
        ≡ (passes fw nic left (record { world = w; messages = ms' })).world
  passes-world [] w ms ms' = unfold passes in refl
  passes-world (pass ∷ left) w ms ms' =
      let s : Session W = record { world = w; messages = ms } in
      let s' : Session W = record { world = w; messages = ms' } in
      elim (Bool-cases (has_ip4 fw (connect_nic fw nic w))) [
        | inl found ↦
            ap (λ s. s.world) (passes-found pass left s found)
            ∙ sym (ap (λ s. s.world) (passes-found pass left s' found))
        | inr none_found ↦
            ap (λ s. s.world) (passes-next pass left s none_found)
            ∙ passes-world left (connect_nic fw nic w) _ _
            ∙ sym (ap (λ s. s.world) (passes-next pass left s' none_found))
      ]

  passes_nil : (s : Session W) → passes fw nic [] s ≡ s
  unfolding passes
  passes_nil s = refl

  pub passes-cases :
      (left : List ℕ) (s : Session W) → ((k : ℕ) × FoundAt left s k) ⊎ NeverFound left s
  passes-cases [] s = inr (
    (λ j h. absurd (omega (arith, h))),
    passes_nil s
        ∙ ap (λ ms. record { world = s.world; messages = ms }) (sym (append-nil s.messages)),
  )
  passes-cases (pass ∷ left) s =
      let s1 : Session W = record {
        world = connect_nic fw nic s.world;
        messages = s.messages ++ pass_message pass;
      } in
      elim (Bool-cases (has_ip4 fw s1.world)) [
        | inl found ↦ inl (
          0,
          (
            omega arith,
            found,
            (λ j h. absurd (omega (arith, h))),
            passes-found pass left s found
                ∙ ap (λ ms. record { world = s1.world; messages = ms })
                    (sym (append-nil s.messages)),
          ),
        )
        | inr none_found ↦ elim (passes-cases left s1) [
          | inl (k, (lt, found, before, eq)) ↦ inl (
            suc k,
            (
              omega (arith, lt),
              found,
              below_suc (λ j. has_ip4 fw (tried (suc j) s.world) ≡ false) none_found before,
              passes-next pass left s none_found
                  ∙ eq
                  ∙ ap (λ ms. record { world = tried (suc (suc k)) s.world; messages = ms })
                      (append_assoc s.messages (pass_message pass) (complaints (take k left))),
            ),
          )
          | inr (before, eq) ↦ inr (
            below_suc (λ j. has_ip4 fw (tried (suc j) s.world) ≡ false) none_found before,
            passes-next pass left s none_found
                ∙ eq
                ∙ ap (λ ms. record { world = tried (suc (length left)) s.world; messages = ms })
                    (append_assoc s.messages (pass_message pass) (complaints left)),
          )
        ]
      ]

  no_complaint : (k : ℕ) → k < 6 → complaints (take k six) ≡ []
  unfolding pass_message
  no_complaint zero h = refl
  no_complaint (suc zero) h = refl
  no_complaint (suc (suc zero)) h = refl
  no_complaint (suc (suc (suc zero))) h = refl
  no_complaint (suc (suc (suc (suc zero)))) h = refl
  no_complaint (suc (suc (suc (suc (suc zero))))) h = refl
  no_complaint (suc (suc (suc (suc (suc (suc k)))))) h = absurd (omega (arith, h))

  all_complaints : complaints six ≡ stack_failed ∷ []
  unfolding pass_message
  all_complaints = refl

  -- The loop over the network stack makes at least one pass and at most six. It ends right after the
  -- first pass that finds an Ip4Config2 and then prints nothing; only when none of the six finds one
  -- does it say that the stack failed.
  pub passes-six :
      (s : Session W)
      → ((k : ℕ) × (k < 6)
          × (has_ip4 fw (tried (suc k) s.world) ≡ true)
          × ((j : ℕ) → j < k → has_ip4 fw (tried (suc j) s.world) ≡ false)
          × (passes fw nic six s ≡ record s { world = tried (suc k) s.world }))
        ⊎ (((j : ℕ) → j < 6 → has_ip4 fw (tried (suc j) s.world) ≡ false)
            × (passes fw nic six s
                ≡ record { world = tried 6 s.world; messages = s.messages ++ stack_failed ∷ [] }))
  passes-six s = elim (passes-cases six s) [
    | inl (k, (lt, found, before, eq)) ↦ inl (
      k,
      lt,
      found,
      before,
      (eq
          ∙ ap (λ ms. record s { world = tried (suc k) s.world; messages = s.messages ++ ms })
              (no_complaint k lt)
          ∙ ap (λ ms. record s { world = tried (suc k) s.world; messages = ms })
              (append-nil s.messages)),
    )
    | inr (before, eq) ↦ inr (
      before,
      eq
          ∙ ap (λ ms. record { world = tried 6 s.world; messages = s.messages ++ ms })
              all_complaints,
    )
  ]
