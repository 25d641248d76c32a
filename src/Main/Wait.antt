-- ===== src/Main/Wait.antt =====
-- `wait_for_key` of src/main.rs, over what each reading of the keyboard gives: a key, or `none` for no
-- key and for an error.

use alpheratz.Prelude.{
  ℕ, zero, suc, ◌+◌, ◌*◌, ◌≡◌, refl, ap, ◌∙◌, List, [], ◌∷◌, ◌++◌, Option, none, some, replicate,
  arith,
}
use alpheratz.Menu.{Key}

-- How long the function has stalled, in milliseconds, and the readings that are left when it returns;
-- `waiting` while no key has come.
pub data Waited : Type 0 where
  waiting : ℕ → Waited
  returned : ℕ → List (Option Key) → Waited

abbrev stalled : ℕ → Waited → Waited
stalled ms (waiting n) = waiting (ms + n)
stalled ms (returned n readings) = returned (ms + n) readings

unfoldable pub wait_for_key : List (Option Key) → Waited
wait_for_key [] = waiting 0
wait_for_key (some k ∷ readings) = returned 100 readings
wait_for_key (none ∷ readings) = stalled 100 (wait_for_key readings)

-- `wait_for_key` returns at the first key, however many readings without one come before, and has
-- then stalled for a tenth of a second per reading; it does not take what comes after. Without a key
-- it waits for ever.
pub wait_for_key-returned :
    (n : ℕ) (k : Key) (after : List (Option Key))
    → (wait_for_key (replicate n none ++ some k ∷ after) ≡ returned (100 * suc n) after)
      × (wait_for_key (replicate n none) ≡ waiting (100 * n))
unfolding wait_for_key
wait_for_key-returned zero k after = (refl, refl)
wait_for_key-returned (suc n) k after =
    let (returns, waits) = wait_for_key-returned n k after in
    (
      ap (stalled 100) returns ∙ ap (λ ms. returned ms after) (omega arith),
      ap (stalled 100) waits ∙ ap waiting (omega arith),
    )
