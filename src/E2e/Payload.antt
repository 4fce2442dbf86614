-- ===== src/E2e/Payload.antt =====
-- The sessions at rest: `encryptPayload`, `decryptPayload`, `persistSessions` and
-- `loadSessionsFromStorage`, and the padding of texts.
use nur_chat.Prelude.{
  ℕ, ◌+◌, Option, none, some, [], ◌∷◌, ◌++◌, ltb, if◌then◌else◌, length, take, drop,
}
use nur_chat.Text.{Text, Bytes}
use nur_chat.Assoc.{Assoc, lookup, insert}
use nur_chat.Exec.{Outcome, done, thrown, pure, gets, modify, ◌>>=◌, ◌>>◌}
use nur_chat.Ratchet.Primitives.{Primitives}
use nur_chat.Ratchet.Session.{Session, Error}
use nur_chat.Ratchet.Steps.{is_some}
use nur_chat.Ratchet.Stored.{SerializedSession, serialize, deserialize}
use nur_chat.Padding.{padded_len, pad_bytes, unpad_bytes}
use nur_chat.SecureStorage.{Aes, get_device_secret}
use nur_chat.SecureStorage.Records.{store_sessions, load_sessions, clear_sessions}
use nur_chat.E2e.{
  Codecs, E2eError, Parsed, both, bare, State, Action, on_storage, draw, with_draws, lift, attempt,
  syntax,
}

module _ (p : Primitives) where
  -- `padString`: no randomness is drawn where the block is full.
  unfoldable pub pad_draws : ℕ → ℕ
  unfolding padded_len
  pad_draws n = if ltb (n + 4) (padded_len n) then 1 else 0

  unfoldable pub pad_string : Text → Action Text
  unfolding pad_draws
  pad_string plain s = (
    done (p.base64_encode (pad_bytes p s.storage.draws (p.encode plain))),
    with_draws (s.storage.draws + pad_draws (length (p.encode plain))) s,
  )

  abbrev pub decoded : Option Bytes → Option Text
  decoded none = none
  decoded (some b) = some (p.decode b)

  -- `unpadString`
  unfoldable pub unpad_string : Text → Option Text
  unpad_string maybe = decoded (unpad_bytes (p.base64_decode maybe))

  -- `deriveStorageKey`
  unfoldable pub storage_key : Text → Bytes
  storage_key secret = take 32 (p.sha512 (p.encode secret))

  unfoldable pub derive_storage_key : Action Bytes
  unfolding storage_key
  derive_storage_key = do secret ← on_storage (get_device_secret p); pure (storage_key secret)

  -- `encryptPayload`
  unfoldable pub encrypt_payload : Text → Action Text
  unfolding derive_storage_key
  encrypt_payload plain = do
    key ← derive_storage_key
    n ← gets (λ s. s.storage.draws)
    nonce ← draw (n + 1) (λ i. p.random_values i 24)
    pure (p.base64_encode (nonce ++ p.secretbox_encrypt (p.encode plain) nonce key))

  -- `decryptPayload`: null where anything in it throws.
  unfoldable pub open_payload : Bytes → Text → Option Text
  open_payload key encoded =
      let combined = p.base64_decode encoded in
      decoded (p.secretbox_decrypt (drop 24 combined) (take 24 combined) key)

  abbrev pub null_if_thrown :
      {A : Type 0} → Outcome E2eError (Option A) × State → Outcome E2eError (Option A) × State
  null_if_thrown (done a, s) = (done a, s)
  null_if_thrown (thrown e, s) = (done none, s)

  unfoldable pub read_payload : Text → Action (Option Text)
  unfolding derive_storage_key open_payload
  read_payload encoded = do key ← derive_storage_key; pure (open_payload key encoded)

  unfoldable pub decrypt_payload : Text → Action (Option Text)
  unfolding read_payload
  decrypt_payload encoded s = null_if_thrown (read_payload encoded s)

  unfoldable pub serialize_all : Assoc Session → Assoc SerializedSession
  serialize_all [] = []
  serialize_all ((k, session) ∷ m) = (k, serialize p session) ∷ serialize_all m

  abbrev pub with_session : Text → Outcome Error Session → Assoc Session → Assoc Session
  with_session k (done session) m = insert k session m
  with_session k (thrown e) m = m

  -- The sessions that are read back; one that is not readable is left out.
  unfoldable pub restore_sessions : Assoc SerializedSession → Assoc Session → Assoc Session
  restore_sessions [] m = m
  restore_sessions ((k, d) ∷ ds) m = restore_sessions ds (with_session k (deserialize p d) m)

  unfoldable pub restore_peers : Assoc Text → Assoc Session → Assoc Text → Assoc Text
  restore_peers [] sessions m = m
  restore_peers ((k, peer) ∷ ps) sessions m =
      restore_peers ps sessions (if is_some (lookup k sessions) then insert k peer m else m)

  unfoldable pub restored : Parsed → State → State
  unfolding restore_sessions restore_peers
  restored (bare data') s = record s { sessions = restore_sessions data' s.sessions }
  restored (both d) s =
      let sessions = restore_sessions d.sessions s.sessions in
      record s { sessions = sessions; peers = restore_peers d.peers sessions s.peers }

  module _ (c : Aes) (codecs : Codecs) where
    -- `persistSessions`
    unfoldable pub persist_sessions : Action (Unit {0})
    unfolding encrypt_payload serialize_all
    persist_sessions = do
      s ← gets (λ s. s)
      encrypted ←
          encrypt_payload (
            codecs.write_persisted
              (record { sessions = serialize_all s.sessions; peers = s.peers }))
      on_storage (store_sessions p c codecs.text encrypted)

    unfoldable pub restore_text : Option Text → Action (Unit {0})
    unfolding restored
    restore_text none = pure tt
    restore_text (some []) = pure tt
    restore_text (some (x ∷ xs)) = do
      parsed ← lift syntax (codecs.read_persisted (x ∷ xs))
      modify (restored parsed)

    unfoldable pub restore_record : Option Text → Action (Unit {0})
    unfolding decrypt_payload restore_text
    restore_record none = pure tt
    restore_record (some []) = pure tt
    restore_record (some (x ∷ xs)) = do decrypted ← decrypt_payload (x ∷ xs); restore_text decrypted

    -- `loadSessionsFromStorage`
    unfoldable pub load_sessions_from_storage : Action (Unit {0})
    unfolding restore_record
    load_sessions_from_storage =
        attempt
          (do encrypted ← on_storage (load_sessions p c codecs.text); restore_record encrypted)

-- `clearDecryptedCache`, `resetMemoryCaches`, `clearSessions` and `logout`
unfoldable pub reset_memory_caches : State → State
reset_memory_caches s = record s { sessions = []; peers = []; decrypted = [] }

unfoldable pub e2e_clear_sessions : Action (Unit {0})
unfolding reset_memory_caches
e2e_clear_sessions = do modify reset_memory_caches; on_storage clear_sessions

abbrev pub logout : Action (Unit {0})
logout = e2e_clear_sessions

-- The handler of `onAutoClear`: the peers stay.
unfoldable pub auto_clear : State → State
auto_clear s = record s { sessions = []; decrypted = [] }
