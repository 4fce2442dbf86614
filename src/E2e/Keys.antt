-- ===== src/E2e/Keys.antt =====
-- The keys of this device: `generateKeys`, `loadKeys`, `saveKeys`, `spkMatchesIdentity`, `setupPreKeys` and
-- `ensurePreKeysUploaded` of frontend/src/services/e2e.ts. The relay is its answers, and the requests that
-- were sent to it, the newest first.
use nur_chat.Prelude.{
  ℕ, zero, suc, ◌+◌, Bool, true, false, not, Option, none, some, List, [], ◌∷◌, ◌++◌, map, keep,
  ltb,
}
use nur_chat.Text.{Text, Bytes}
use nur_chat.Text.Hex.{bytes_to_hex, hex_to_bytes}
use nur_chat.Exec.{Exec, Outcome, done, thrown, pure, gets, modify, ◌>>=◌, ◌>>◌}
use nur_chat.Ratchet.Primitives.{Primitives, KeyPair}
use nur_chat.Ratchet.Session.{has}
use nur_chat.SecureStorage
use nur_chat.SecureStorage.{Aes, Storage, StorageError}
use nur_chat.SecureStorage.Records.{
  StoredKeyPair, StoredSpk, StoredOpk, store_identity_keys, load_identity_keys, store_spk, load_spk,
  store_opks, load_opks,
}
use nur_chat.E2e.{Signatures, Codecs, E2eKeys}
use nur_chat.E2e.Sessions.{is_true}

pub data Request : Type 0 where
  upload_signed_prekey : Text → Text → Request
  upload_one_time_prekeys : List Text → Request

-- The answer to the question for the own signed prekey: whether it has a key, that there is none, or an
-- error that says nothing.
pub data SpkAnswer : Type 0 where
  has_key : Bool → SpkAnswer
  not_found no_answer : SpkAnswer

-- The relay: which uploads it takes, how many one-time keys it has (none is a failed request).
pub record Relay : Type 0 where
  pub accepts : Request → Bool
  pub one_time_count : Option ℕ
  pub signed_prekey : SpkAnswer

pub data KeyError : Type 0 where
  in_store : StorageError → KeyError
  no_signature request_failed : KeyError

-- The database, the requests so far, and `ensureAttempted`.
pub record Keyring : Type 0 where
  pub storage : Storage
  pub requests : List Request
  pub attempted : List Text

abbrev pub Action : Type 0 → Type 0
Action A = Exec KeyError Keyring A

abbrev pub in_keyring :
    {A : Type 0} → Outcome StorageError A × Storage → Keyring → Outcome KeyError A × Keyring
in_keyring (done a, st) s = (done a, record s { storage = st })
in_keyring (thrown e, st) s = (thrown (in_store e), record s { storage = st })

abbrev pub on_storage : {A : Type 0} → SecureStorage.Action A → Action A
on_storage m s = in_keyring (m s.storage) s

abbrev pub lift : {A : Type 0} → KeyError → Option A → Action A
lift e none s = (thrown e, s)
lift e (some a) s = (done a, s)

abbrev pub ignored :
    {A : Type 0} → Outcome KeyError A × Keyring → Outcome KeyError (Unit {0}) × Keyring
ignored (r, s) = (done tt, s)

-- `try` with a `catch` that only logs.
abbrev pub attempt : {A : Type 0} → Action A → Action (Unit {0})
attempt m s = ignored (m s)

abbrev pub answered : Bool → Outcome KeyError (Unit {0})
answered true = done tt
answered false = thrown request_failed

-- A request; it throws where the relay refuses it.
abbrev pub send : Relay → Request → Action (Unit {0})
send relay r s = (answered (relay.accepts r), record s { requests = r ∷ s.requests })

abbrev pub keys_of : Option StoredKeyPair → Option E2eKeys
keys_of none = none
keys_of (some k) = some (record {
  private_key_hex = k.private_key_hex;
  public_key_hex = k.public_key_hex;
  signing_private_hex = k.signing_private_hex;
  signing_public_hex = k.signing_public_hex;
})

module _ (p : Primitives) (c : Aes) (g : Signatures) (codecs : Codecs) where
  -- `generateKeys`: two draws of randomness.
  unfoldable pub generate_keys : Action E2eKeys
  generate_keys s =
      let box = p.keygen s.storage.draws in
      let sign = g.keygen (s.storage.draws + 1) in
      (
        done (record {
          private_key_hex = bytes_to_hex box.secret_key;
          public_key_hex = bytes_to_hex box.public_key;
          signing_private_hex = bytes_to_hex sign.secret_key;
          signing_public_hex = bytes_to_hex sign.public_key;
        }),
        record s { storage = record s.storage { draws = s.storage.draws + 2 } },
      )

  -- `loadKeys`: null where anything throws.
  abbrev pub null_if_thrown :
      Outcome StorageError (Option StoredKeyPair) × Storage
      → Keyring
      → Outcome KeyError (Option E2eKeys) × Keyring
  null_if_thrown (done k, st) s = (done (keys_of k), record s { storage = st })
  null_if_thrown (thrown e, st) s = (done none, record s { storage = st })

  unfoldable pub load_keys : Action (Option E2eKeys)
  load_keys s = null_if_thrown (load_identity_keys p c codecs.key_pair s.storage) s

  -- `saveKeys`, and `hasKeys`
  unfoldable pub save_keys : ℕ → E2eKeys → Action (Unit {0})
  save_keys now keys = on_storage (
      store_identity_keys p c codecs.key_pair now (record {
        private_key_hex = keys.private_key_hex;
        public_key_hex = keys.public_key_hex;
        signing_private_hex = keys.signing_private_hex;
        signing_public_hex = keys.signing_public_hex;
        created_at = now;
      }))

  abbrev pub is_there : Option E2eKeys → Bool
  is_there none = false
  is_there (some k) = true

  unfoldable pub has_keys : Action Bool
  unfolding load_keys
  has_keys = do keys ← load_keys; pure (is_there keys)

  -- `spkMatchesIdentity`, false where the library throws; no stored key matches nothing.
  unfoldable pub spk_matches_identity : Option StoredSpk → E2eKeys → Bool
  spk_matches_identity none keys = false
  spk_matches_identity (some spk) keys = is_true (
      g.verify (hex_to_bytes spk.public_key_hex) (hex_to_bytes spk.signature_hex)
        (hex_to_bytes keys.signing_public_hex))

  -- The new one-time keys, from a draw on.
  unfoldable pub one_time_batch : ℕ → ℕ → ℕ → List StoredOpk
  one_time_batch now zero draws = []
  one_time_batch now (suc n) draws =
      record {
        public_key_hex = bytes_to_hex (p.keygen draws).public_key;
        secret_key_hex = bytes_to_hex (p.keygen draws).secret_key;
        created_at = now;
      }
      ∷ one_time_batch now n (draws + 1)

  abbrev pub public_hex : StoredOpk → Text
  public_hex k = k.public_key_hex

  abbrev pub not_among : List StoredOpk → StoredOpk → Bool
  not_among existing k = not (has k.public_key_hex (map public_hex existing))

  unfoldable pub store_new : ℕ → List StoredOpk → List StoredOpk → Action (Unit {0})
  store_new now existing [] = pure tt
  store_new now existing (k ∷ ks) = on_storage (store_opks p c codecs.opks now (existing ++ k ∷ ks))

  unfoldable pub upload_batch : Relay → ℕ → List StoredOpk → Action (Unit {0})
  unfolding store_new
  upload_batch relay now batch = do
    send relay (upload_one_time_prekeys (map public_hex batch))
    existing ← on_storage (load_opks p c codecs.opks)
    store_new now existing (keep (not_among existing) batch)

  unfoldable pub batch_if : Bool → Relay → ℕ → Action (Unit {0})
  unfolding one_time_batch upload_batch
  batch_if false relay now = pure tt
  batch_if true relay now = do
    n ← gets (λ s. s.storage.draws)
    modify (λ s. record s { storage = record s.storage { draws = n + 100 } })
    upload_batch relay now (one_time_batch now 100 n)

  -- The second `try` of `setupPreKeys`: 100 one-time keys where the relay has less than 20.
  unfoldable pub setup_one_time : Relay → ℕ → Action (Unit {0})
  unfolding batch_if
  setup_one_time relay now = do
    count ← lift request_failed relay.one_time_count
    batch_if (ltb count 20) relay now

  abbrev pub new_spk : ℕ → KeyPair → Bytes → StoredSpk
  new_spk now pair signature = record {
    public_key_hex = bytes_to_hex pair.public_key;
    secret_key_hex = bytes_to_hex pair.secret_key;
    signature_hex = bytes_to_hex signature;
    created_at = now;
  }

  -- The first `try`: uploaded, then kept.
  unfoldable pub upload_spk : Relay → ℕ → StoredSpk → Action (Unit {0})
  upload_spk relay now spk = do
    send relay (upload_signed_prekey spk.public_key_hex spk.signature_hex)
    on_storage (store_spk p c codecs.spk now spk)

  unfoldable pub renew : Relay → ℕ → E2eKeys → Action (Unit {0})
  unfolding upload_spk setup_one_time
  renew relay now keys = do
    n ← gets (λ s. s.storage.draws)
    modify (λ s. record s { storage = record s.storage { draws = n + 1 } })
    signature ←
        lift no_signature (g.sign (p.keygen n).public_key (hex_to_bytes keys.signing_private_hex))
    attempt (upload_spk relay now (new_spk now (p.keygen n) signature))
    attempt (setup_one_time relay now)

  unfoldable pub renew_unless : Bool → Relay → ℕ → E2eKeys → Action (Unit {0})
  unfolding renew
  renew_unless true relay now keys = pure tt
  renew_unless false relay now keys = renew relay now keys

  -- `setupPreKeys`
  unfoldable pub setup_pre_keys : Relay → ℕ → E2eKeys → Action (Unit {0})
  unfolding renew_unless spk_matches_identity
  setup_pre_keys relay now keys = do
    existing ← on_storage (load_spk p c codecs.spk)
    renew_unless (spk_matches_identity existing keys) relay now keys

  unfoldable pub upload_again : Relay → StoredSpk → SpkAnswer → Action (Unit {0})
  upload_again relay spk no_answer = pure tt
  upload_again relay spk (has_key true) = pure tt
  upload_again relay spk (has_key false) =
      attempt (send relay (upload_signed_prekey spk.public_key_hex spk.signature_hex))
  upload_again relay spk not_found =
      attempt (send relay (upload_signed_prekey spk.public_key_hex spk.signature_hex))

  unfoldable pub ensure_local : Option StoredSpk → Bool → Relay → ℕ → E2eKeys → Action (Unit {0})
  unfolding setup_pre_keys upload_again
  ensure_local none b relay now keys = setup_pre_keys relay now keys
  ensure_local (some spk) false relay now keys = setup_pre_keys relay now keys
  ensure_local (some spk) true relay now keys = upload_again relay spk relay.signed_prekey

  unfoldable pub ensure_once : Bool → Relay → ℕ → E2eKeys → Text → Action (Unit {0})
  unfolding ensure_local
  ensure_once true relay now keys user = pure tt
  ensure_once false relay now keys user = do
    modify (λ s. record s { attempted = user ∷ s.attempted })
    spk ← on_storage (load_spk p c codecs.spk)
    ensure_local spk (spk_matches_identity spk keys) relay now keys

  -- `ensurePreKeysUploaded`: once for each user.
  unfoldable pub ensure_pre_keys_uploaded : Relay → ℕ → E2eKeys → Text → Action (Unit {0})
  unfolding ensure_once
  ensure_pre_keys_uploaded relay now keys user = do
    tried ← gets (λ s. has user s.attempted)
    ensure_once tried relay now keys user

-- `isE2EEnabled`, on the public keys of the participants.
unfoldable pub all_have_keys : List (Option Text) → Bool
all_have_keys [] = true
all_have_keys (none ∷ ks) = false
all_have_keys (some [] ∷ ks) = false
all_have_keys (some (x ∷ xs) ∷ ks) = all_have_keys ks

unfoldable pub is_e2e_enabled : List (Option Text) → Option E2eKeys → Bool
unfolding all_have_keys
is_e2e_enabled participants none = false
is_e2e_enabled participants (some keys) = all_have_keys participants
