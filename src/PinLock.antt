-- ===== src/PinLock.antt =====
-- The PIN gate of frontend/src/services/pinLock.ts. The key derivations, `btoa` and `atob` are the
-- record `Gate`; secureStorage.ts and tokenVault.ts are the interface `Keystore`. Storage entries that
-- the module writes as numbers are numbers here.
mod Examples
use nur_chat.Prelude.{
  ℕ, zero, suc, ◌+◌, ◌-◌, ◌*◌, ◌≤◌, ◌<◌, ◌≡◌, refl, Bool, true, false, not, ◌&&◌, ◌||◌, Option,
  none, some, List, [], ◌∷◌, ◌++◌, arith, tests, ltb, leb, ◌==◌, if◌then◌else◌, length, ap, sym,
  ◌∙◌, inl, inr, Bool-cases, Option-cases, ltb→lt, ltb→le, lt→ltb, le→ltb,
}
use nur_chat.Text.{Text, Bytes, codes, same, same_refl, split, split-append, split-Lacks, Lacks}
use nur_chat.Exec.{Outcome, done, thrown}

pub record Gate : Type 0 where
  -- `gateHash(pin, salt)`: PBKDF2-SHA-256
  pub gate_hash : Text → Bytes → Bytes
  -- `SHA-256(pin + "nurchat_pin_salt")` in hex
  pub legacy_hash : Text → Text
  -- `crypto.getRandomValues` on 16 bytes, at the n-th draw
  pub salt : ℕ → Bytes
  -- `btoa` and `atob`, which throws on a text that is no base64
  pub btoa : Text → Text
  pub atob : Text → Option Text

-- The characters of the bytes, one after the other, and the bytes of the characters.
unfoldable pub binary_of : Bytes → Text
binary_of [] = []
binary_of (b ∷ bytes) = b ∷ binary_of bytes

-- `bufToB64`
unfoldable pub buf_to_b64 : Gate → Bytes → Text
unfolding binary_of
buf_to_b64 g bytes = g.btoa (binary_of bytes)

unfoldable pub bytes_of : Option Text → Option Bytes
unfolding binary_of
bytes_of none = none
bytes_of (some binary) = some (binary_of binary)

-- `b64ToBuf`
unfoldable pub b64_to_buf : Gate → Text → Option Bytes
unfolding bytes_of
b64_to_buf g b64 = bytes_of (g.atob b64)

-- What is used of the keystore: false from `rewrap` is a rejected promise, which may come after the
-- passphrase was changed.
pub record Keystore (S : Type 0) : Type 0 where
  -- `setDevicePassphrase`
  pub set_passphrase : Option Text → S → S
  pub is_passphrase_set : S → Bool
  -- `rewrapSecureStorage`
  pub rewrap : Option Text → S → Bool × S
  -- `repersistRefresh`, `unlockVault` and `lockSecureStorage`
  pub repersist_refresh : S → S
  pub unlock_vault : S → S
  pub lock : S → S

pub record Pin (S : Type 0) : Type 0 where
  pub pin_hash : Option Text
  pub attempts : Option ℕ
  pub locked_until : Option ℕ
  pub draws : ℕ
  pub keystore : S

abbrev pub max_attempts : ℕ
max_attempts = 3

abbrev pub lockout_duration_ms : ℕ
lockout_duration_ms = 30000

abbrev pub or_zero : Option ℕ → ℕ
or_zero none = 0
or_zero (some n) = n

-- The code of `$`.
abbrev pub dollar : ℕ
dollar = 36

abbrev pub version_two : Text
version_two = codes "v2"

is_hex_code : ℕ → Bool
is_hex_code c = leb 48 c && leb c 57 || leb 97 c && leb c 102 || leb 65 c && leb c 70

every : (ℕ → Bool) → Text → Bool
every f [] = true
every f (x ∷ xs) = f x && every f xs

-- `isLegacyHash`
unfoldable pub is_legacy_hash : Text → Bool
unfolding every is_hex_code
is_legacy_hash stored =
    every (λ c. not (c == dollar)) stored && length stored == 64 && every is_hex_code stored

-- `if (!stored)`
abbrev pub is_pin_set : Option Text → Bool
is_pin_set none = false
is_pin_set (some []) = false
is_pin_set (some (c ∷ cs)) = true

module _ (g : Gate) where
  matches : Text → Option Bytes → Option Bytes → Bool
  matches pin none expected = false
  matches pin (some salt) none = false
  matches pin (some salt) (some expected) = same (g.gate_hash pin salt) expected

  -- The parts of a stored value of the second version.
  unfoldable pub verify_parts : Text → List Text → Bool
  unfolding matches
  verify_parts pin (v ∷ salt ∷ hash ∷ []) =
      if same v version_two then matches pin (b64_to_buf g salt) (b64_to_buf g hash) else false
  verify_parts pin parts = false

module _ {S : Type 0} (g : Gate) where
  -- `setPin`
  unfoldable pub set_pin : Text → Pin S → Pin S
  set_pin pin s =
      let salt = g.salt s.draws in
      record s {
        pin_hash = some (
            version_two
            ++ dollar ∷ buf_to_b64 g salt
            ++ dollar ∷ buf_to_b64 g (g.gate_hash pin salt));
        attempts = none;
        locked_until = none;
        draws = s.draws + 1;
      }

  -- `verifyPin`: an entry of the first version is replaced where it matches
  unfoldable pub verify_pin : Text → Pin S → Bool × Pin S
  unfolding set_pin verify_parts is_legacy_hash
  verify_pin pin s = elim s.pin_hash [
    | none ↦ (true, s)
    | some [] ↦ (true, s)
    | some (c ∷ cs) ↦
        let stored = c ∷ cs in
        if is_legacy_hash stored
        then (if same (g.legacy_hash pin) stored then (true, set_pin pin s) else (false, s))
        else (verify_parts g pin (split dollar stored), s)
  ]

  -- `clearPin`
  unfoldable pub clear_pin : Pin S → Pin S
  clear_pin s = record s { pin_hash = none; attempts = none; locked_until = none }

  module _ (k : Keystore S) where
    -- `isStorageLocked`
    unfoldable pub is_storage_locked : Pin S → Bool
    is_storage_locked s = is_pin_set s.pin_hash && not (k.is_passphrase_set s.keystore)

    -- `unlockWithPin`
    unfoldable pub unlock_with_pin : Text → Pin S → Bool × Pin S
    unfolding verify_pin
    unlock_with_pin pin s =
        let (ok, s') = verify_pin pin s in
        if ok
        then (
          true,
          record s' { keystore = k.unlock_vault (k.set_passphrase (some pin) s'.keystore) },
        )
        else (false, s')

    -- `lockCrypto`
    unfoldable pub lock_crypto : Pin S → Pin S
    lock_crypto s = record s { keystore = k.lock (k.set_passphrase none s.keystore) }

    rewrapped : Bool × S → (S → Pin S) → Pin S → Outcome (Unit {0}) Bool × Pin S
    rewrapped (false, keystore) next s = (thrown tt, record s { keystore = keystore })
    rewrapped (true, keystore) next s = (done true, next (k.repersist_refresh keystore))

    with_passphrase : Option Text → Pin S → Pin S
    with_passphrase pin s = record s { keystore = k.set_passphrase pin s.keystore }

    -- The rewrap from one passphrase to the next, and the gate and the passphrase after it.
    unfoldable pub rewrap_to :
        Option Text → Option Text → (Pin S → Pin S) → Pin S → Outcome (Unit {0}) Bool × Pin S
    unfolding rewrapped with_passphrase
    rewrap_to old next gate s =
        let s' = with_passphrase old s in
        rewrapped (k.rewrap next s'.keystore)
          (λ keystore. with_passphrase next (gate (record s' { keystore = keystore }))) s'

    -- `enablePin`
    unfoldable pub enable_pin : Text → Pin S → Outcome (Unit {0}) Bool × Pin S
    unfolding rewrap_to set_pin
    enable_pin pin s = rewrap_to none (some pin) (set_pin pin) s

    change_checked : Text → Text → Bool × Pin S → Outcome (Unit {0}) Bool × Pin S
    unfolding rewrap_to set_pin
    change_checked current next (true, s) = rewrap_to (some current) (some next) (set_pin next) s
    change_checked current next (false, s) = (done false, s)

    -- `changePin`
    unfoldable pub change_pin : Text → Text → Pin S → Outcome (Unit {0}) Bool × Pin S
    unfolding change_checked verify_pin
    change_pin current next s = change_checked current next (verify_pin current s)

    -- `disablePin`
    unfoldable pub disable_pin : Text → Pin S → Outcome (Unit {0}) Bool × Pin S
    unfolding rewrap_to clear_pin verify_pin
    disable_pin pin s =
        let (ok, s') = verify_pin pin s in
        if ok then rewrap_to (some pin) none clear_pin s' else (done false, s')

module _ {S : Type 0} where
  -- `getRemainingAttempts`
  unfoldable pub get_remaining_attempts : Pin S → ℕ
  get_remaining_attempts s = max_attempts - or_zero s.attempts

  -- `recordFailedAttempt`, at a given time. It returns `MAX_ATTEMPTS - attempts`, which may be negative:
  -- the number recorded is returned here.
  unfoldable pub record_failed_attempt : ℕ → Pin S → ℕ × Pin S
  record_failed_attempt now s =
      let attempts = or_zero s.attempts + 1 in
      (
        attempts,
        record s {
          attempts = some attempts;
          locked_until =
              if leb max_attempts attempts
              then some (now + lockout_duration_ms)
              else s.locked_until;
        },
      )

  -- `resetAttempts`
  unfoldable pub reset_attempts : Pin S → Pin S
  reset_attempts s = record s { attempts = none; locked_until = none }

  -- `getLockoutTimeRemaining`
  unfoldable pub get_lockout_time_remaining : ℕ → Pin S → ℕ
  get_lockout_time_remaining now s = or_zero s.locked_until - now

  -- `isLockedOut`
  unfoldable pub is_locked_out : ℕ → Pin S → Bool
  unfolding get_lockout_time_remaining
  is_locked_out now s = ltb 0 (get_lockout_time_remaining now s)

-- What the theorems rely on: `atob` undoes `btoa`, whose texts have no `$` in them.
pub record AreReadable (g : Gate) : Type 0 where
  pub atob-btoa : (t : Text) → g.atob (g.btoa t) ≡ some t
  pub btoa-Lacks : (t : Text) → Lacks 36 (g.btoa t)

binary_of_same : (b : Bytes) → binary_of b ≡ b
unfolding binary_of
binary_of_same [] = refl
binary_of_same (x ∷ b) = ap (λ c. x ∷ c) (binary_of_same b)

b64_to_buf-buf_to_b64 :
    (g : Gate) (r : AreReadable g) (b : Bytes) → b64_to_buf g (buf_to_b64 g b) ≡ some b
unfolding b64_to_buf buf_to_b64 bytes_of
b64_to_buf-buf_to_b64 g r b =
    ap bytes_of (r.atob-btoa (binary_of b))
    ∙ ap some (binary_of_same (binary_of b) ∙ binary_of_same b)

buf_to_b64-Lacks : (g : Gate) (r : AreReadable g) (b : Bytes) → Lacks 36 (buf_to_b64 g b)
unfolding buf_to_b64
buf_to_b64-Lacks g r b = r.btoa-Lacks (binary_of b)

stored_parts :
    (g : Gate) (r : AreReadable g) (a b : Bytes)
    → split 36 (version_two ++ 36 ∷ buf_to_b64 g a ++ 36 ∷ buf_to_b64 g b)
      ≡ version_two ∷ buf_to_b64 g a ∷ buf_to_b64 g b ∷ []
stored_parts g r a b =
    split-append 36 version_two (buf_to_b64 g a ++ 36 ∷ buf_to_b64 g b)
      (omega arith, (omega arith, tt))
    ∙ ap (λ ps. version_two ∷ ps)
        (split-append 36 (buf_to_b64 g a) (buf_to_b64 g b) (buf_to_b64-Lacks g r a)
          ∙ ap (λ ps. buf_to_b64 g a ∷ ps)
              (split-Lacks 36 (buf_to_b64 g b) (buf_to_b64-Lacks g r b)))

module _ {S : Type 0} (g : Gate) (r : AreReadable g) where
  -- Where base64 is readable, after a PIN was set, a PIN passes the gate exactly when it derives
  -- the same hash under the new salt; the PIN that was set passes.
  pub verify-set :
      (pin other : Text) (s : Pin S)
      → (verify_pin g other (set_pin g pin s) ≡ (
        same (g.gate_hash other (g.salt s.draws)) (g.gate_hash pin (g.salt s.draws)),
        set_pin g pin s,
      ))
        × ((verify_pin g pin (set_pin g pin s)).0 ≡ true)
  unfolding verify_pin set_pin is_legacy_hash every verify_parts matches
  verify-set pin other s =
      let salt = g.salt s.draws in
      let parts = stored_parts g r salt (g.gate_hash pin salt) in
      let salted = b64_to_buf-buf_to_b64 g r salt in
      let hashed = b64_to_buf-buf_to_b64 g r (g.gate_hash pin salt) in
      (
        rw (parts, same_refl version_two, salted, hashed) refl,
        rw (parts, same_refl version_two, salted, hashed) (same_refl (g.gate_hash pin salt)),
      )

  module _ (k : Keystore S) where
    rewrapped_thrown :
        (o : Bool × S) (next : S → Pin S) (s : Pin S)
        → (rewrapped g k o next s).0 ≡ thrown tt
        → (rewrapped g k o next s).1.pin_hash ≡ s.pin_hash
    unfolding rewrapped
    rewrapped_thrown (false, keystore) next s h = refl
    rewrapped_thrown (true, keystore) next s h = absurd (ground (arith, h))

    rewrapped_done :
        (o : Bool × S) (pin : Text) (s s' : Pin S)
        → (rewrapped g k o
            (λ keystore.
              with_passphrase g k (some pin) (set_pin g pin (record s { keystore = keystore })))
            s').0
          ≡ done true
        → (verify_pin g pin
            (rewrapped g k o
              (λ keystore.
                with_passphrase g k (some pin) (set_pin g pin (record s { keystore = keystore })))
              s').1).0
          ≡ true
    unfolding rewrapped with_passphrase verify_pin set_pin
    rewrapped_done (false, keystore) pin s s' h = absurd (ground (arith, h))
    rewrapped_done (true, keystore) pin s s' h = (verify-set pin pin s).1

    change_checked-verify :
        (current next : Text) (r : Bool × Pin S)
        → (r.0 ≡ false → change_checked g k current next r ≡ (done false, r.1))
          × ((change_checked g k current next r).0 ≡ thrown tt
              → (change_checked g k current next r).1.pin_hash ≡ r.1.pin_hash)
          × ((change_checked g k current next r).0 ≡ done true
              → (verify_pin g next (change_checked g k current next r).1).0 ≡ true)
    unfolding change_checked rewrap_to with_passphrase
    change_checked-verify current next (false, s) =
        (λ h. refl, λ h. absurd (ground (arith, h)), λ h. absurd (ground (arith, h)))
    change_checked-verify current next (true, s) =
        let s' : Pin S = with_passphrase g k (some current) s in
        let o : Bool × S = k.rewrap (some next) s'.keystore in
        (
          λ h. absurd (ground (arith, h)),
          λ h.
              rewrapped_thrown o
                (λ keystore.
                  with_passphrase g k (some next)
                    (set_pin g next (record s' { keystore = keystore })))
                s' h,
          λ h. rewrapped_done o next s' s' h,
        )

    -- Where base64 is readable: a change of the PIN with a PIN that does not pass changes nothing
    -- but what the check changed; a failed rewrap leaves the gate as the check left it; and after
    -- a change the new PIN passes.
    pub change_pin-verify :
        (current next : Text) (s : Pin S)
        → ((verify_pin g current s).0 ≡ false
            → change_pin g k current next s ≡ (done false, (verify_pin g current s).1))
          × ((change_pin g k current next s).0 ≡ thrown tt
              → (change_pin g k current next s).1.pin_hash ≡ (verify_pin g current s).1.pin_hash)
          × ((change_pin g k current next s).0 ≡ done true
              → (verify_pin g next (change_pin g k current next s).1).0 ≡ true)
    unfolding change_pin
    change_pin-verify current next s = change_checked-verify current next (verify_pin g current s)

module _ {S : Type 0} where
  abbrev fail_at : ℕ → Pin S → Pin S
  fail_at now s = (record_failed_attempt now s).1

  -- From a reset, two failures do not lock the gate at any time, and the third locks it for exactly 30
  -- seconds from its own time.
  pub third_failure-locks :
      (s : Pin S) (a b c now : ℕ)
      → (is_locked_out now (fail_at b (fail_at a (reset_attempts s))) ≡ false)
        × (is_locked_out now (fail_at c (fail_at b (fail_at a (reset_attempts s))))
            ≡ ltb now (c + 30000))
  unfolding is_locked_out get_lockout_time_remaining record_failed_attempt reset_attempts
  third_failure-locks s a b c now = (ground arith, ground arith)

  -- A failed attempt takes one from the attempts left, until none is left.
  pub remaining-recorded :
      (s : Pin S) (now : ℕ) → get_remaining_attempts (fail_at now s) ≡ get_remaining_attempts s - 1
  unfolding get_remaining_attempts record_failed_attempt
  remaining-recorded s now = omega arith
