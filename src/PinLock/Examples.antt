-- ===== src/PinLock/Examples.antt =====
-- The theorems on the PIN at a concrete gate and keystore.
use nur_chat.Prelude.{
  ◌≡◌, refl, ◌-◌, true, false, Option, none, some, [], ◌∷◌, map, ◌+◌, ltb, ap, arith,
}
use nur_chat.Text.{Text, Bytes, codes, same, Lacks}
use nur_chat.Exec.{done, thrown}
use nur_chat.PinLock.{
  Gate, Keystore, Pin, AreReadable, set_pin, verify_pin, change_pin, verify-set, change_pin-verify,
  third_failure-locks, is_locked_out, record_failed_attempt, reset_attempts,
}

-- Bytes as characters from 100 on.
abbrev shift_down : Text → Bytes
shift_down t = map (λ c. c - 100) t

down_up : (b : Bytes) → shift_down (map (λ x. x + 100) b) ≡ b
down_up [] = refl
down_up (x ∷ b) = rw (down_up b) (ap (λ y. y ∷ b) (omega arith))

up-Lacks : (b : Bytes) → Lacks 36 (map (λ x. x + 100) b)
up-Lacks [] = tt
up-Lacks (x ∷ b) = (omega arith, up-Lacks b)

abbrev gate : Gate
gate = record {
  gate_hash = λ pin salt. pin;
  legacy_hash = λ pin. pin;
  salt = λ n. n ∷ [];
  btoa = λ b. map (λ x. x + 100) b;
  atob = λ t. some (shift_down t);
}

gate-AreReadable : AreReadable gate
gate-AreReadable = record { atob-btoa = λ b. ap some (down_up b); btoa-Lacks = up-Lacks }

-- A keystore that is its passphrase, and takes every rewrap.
abbrev keystore : Keystore (Option Text)
keystore = record {
  set_passphrase = λ pin s. pin;
  is_passphrase_set = λ s. true;
  rewrap = λ pin s. (true, pin);
  repersist_refresh = λ s. s;
  unlock_vault = λ s. s;
  lock = λ s. s;
}

abbrev no_pin : Pin (Option Text)
no_pin = record {
  pin_hash = none;
  attempts = none;
  locked_until = none;
  draws = 0;
  keystore = none;
}

verify-set_example :
    (verify_pin gate (codes "1235") (set_pin gate (codes "1234") no_pin)
      ≡ (same (codes "1235") (codes "1234"), set_pin gate (codes "1234") no_pin))
    × ((verify_pin gate (codes "1234") (set_pin gate (codes "1234") no_pin)).0 ≡ true)
verify-set_example = verify-set gate gate-AreReadable (codes "1234") (codes "1235") no_pin

change_pin-verify_example :
    ((verify_pin gate (codes "1") no_pin).0 ≡ false
      → change_pin gate keystore (codes "1") (codes "2") no_pin
        ≡ (done false, (verify_pin gate (codes "1") no_pin).1))
    × ((change_pin gate keystore (codes "1") (codes "2") no_pin).0 ≡ thrown tt
        → (change_pin gate keystore (codes "1") (codes "2") no_pin).1.pin_hash
          ≡ (verify_pin gate (codes "1") no_pin).1.pin_hash)
    × ((change_pin gate keystore (codes "1") (codes "2") no_pin).0 ≡ done true
        → (verify_pin gate
            (codes "2")
            (change_pin gate keystore (codes "1") (codes "2") no_pin).1).0
          ≡ true)
change_pin-verify_example =
    change_pin-verify gate gate-AreReadable keystore (codes "1") (codes "2") no_pin

third_failure-locks_example :
    (is_locked_out 10
        (record_failed_attempt 2 (record_failed_attempt 1 (reset_attempts no_pin)).1).1
      ≡ false)
    × (is_locked_out 10
          (record_failed_attempt 3
            (record_failed_attempt 2 (record_failed_attempt 1 (reset_attempts no_pin)).1).1).1
        ≡ ltb 10 (3 + 30000))
third_failure-locks_example = third_failure-locks no_pin 1 2 3 10
