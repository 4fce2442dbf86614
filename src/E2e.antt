-- ===== src/E2e.antt =====
-- The session manager of frontend/src/services/e2e.ts: what it keeps, and how it calls the ratchet and
-- the storage. A call runs to its end before the next one starts; the timer of the automatic clearing
-- is left out.
pub mod Payload
pub mod Sessions
pub mod Messages
pub mod Keeps
pub mod Keys
pub mod Prekeys
pub mod Cached
pub mod Calls
pub mod Exchange
pub mod FirstMessage
pub mod Invalidation
pub mod Restore
pub mod Reload
mod Examples
use nur_chat.Prelude.{ℕ, ◌≡◌, Bool, true, false, Option, none, some, List, [], ◌∷◌, length}
use nur_chat.Text.{Text, Bytes}
use nur_chat.Text.Hex.{AreBytes}
use nur_chat.Assoc.{Assoc, insert}
use nur_chat.Exec.{Exec, Outcome, done, thrown, pure, ◌>>=◌}
use nur_chat.Ratchet.Primitives.{Primitives, KeyPair}
use nur_chat.Ratchet.Session
use nur_chat.Ratchet.Steps
use nur_chat.Ratchet.Stored.{SerializedSession}
use nur_chat.SecureStorage
use nur_chat.SecureStorage.{Storage, StorageError}
use nur_chat.SecureStorage.Records.{Json, StoredKeyPair, StoredSpk, StoredOpk}

-- `ed25519.keygen`, `sign` and `verify`: none where the library throws.
pub record Signatures : Type 0 where
  pub keygen : ℕ → KeyPair
  pub sign : Bytes → Bytes → Option Bytes
  pub verify : Bytes → Bytes → Bytes → Option Bool
  pub get_public_key : Bytes → Option Bytes

-- A signature has 64 bytes and verifies under the key that belongs to the secret.
pub record SignaturesAreLawful (g : Signatures) : Type 0 where
  pub verify-sign :
      (m secret public : Bytes)
      → g.get_public_key secret ≡ some public
      → (signature : Bytes) × (g.sign m secret ≡ some signature)
        × (length signature ≡ 64)
        × AreBytes signature
        × (g.verify m signature public ≡ some true)

-- `E2EKeys` and `EncryptedEnvelope`
pub record E2eKeys : Type 0 where
  pub private_key_hex : Text
  pub public_key_hex : Text
  pub signing_private_hex : Text
  pub signing_public_hex : Text

pub record EncryptedEnvelope : Type 0 where
  pub ciphertext : Text
  pub signature : Text
  pub timestamp : ℕ
  pub sender_id : Text
  pub sender_signing_key : Option Text

-- What `persistSessions` writes, and what it reads: the older form has no peers.
pub record Persisted : Type 0 where
  pub sessions : Assoc SerializedSession
  pub peers : Assoc Text

pub data Parsed : Type 0 where
  both : Persisted → Parsed
  bare : Assoc SerializedSession → Parsed

-- JSON at the types that the module writes and reads.
pub record Codecs : Type 0 where
  pub key_pair : Json StoredKeyPair
  pub spk : Json StoredSpk
  pub opks : Json (List StoredOpk)
  pub text : Json Text
  pub envelope : Json Session.Envelope
  pub write_persisted : Persisted → Text
  pub read_persisted : Text → Option Parsed

-- The prekeys of a user as the server gives them.
pub record Bundle : Type 0 where
  pub identity_key : Text
  pub signed_prekey : Text
  pub signed_prekey_signature : Text
  pub one_time_prekey : Option Text

-- What a promise of this module is rejected with.
pub data E2eError : Type 0 where
  ratchet : Session.Error → E2eError
  storage : StorageError → E2eError
  syntax bad_signing_key : E2eError

-- `sessionCache`, `sessionPeers` and `decryptedCache`, with the database.
pub record State : Type 0 where
  pub sessions : Assoc Session.Session
  pub peers : Assoc Text
  pub decrypted : Assoc Text
  pub storage : Storage

abbrev pub Action : Type 0 → Type 0
Action A = Exec E2eError State A

abbrev pub in_storage :
    {A : Type 0} → Outcome StorageError A × Storage → State → Outcome E2eError A × State
in_storage (done a, st) s = (done a, record s { storage = st })
in_storage (thrown e, st) s = (thrown (storage e), record s { storage = st })

-- A call of secureStorage.ts.
abbrev pub on_storage : {A : Type 0} → SecureStorage.Action A → Action A
on_storage m s = in_storage (m s.storage) s

-- Randomness is drawn from one source.
abbrev pub with_draws : ℕ → State → State
with_draws n s = record s { storage = record s.storage { draws = n } }

abbrev pub draw : ℕ → (ℕ → Bytes) → Action Bytes
draw n f s = (done (f s.storage.draws), with_draws n s)

abbrev pub ratchet_state : Session.Session → State → Session.State
ratchet_state session s = record { session = session; draws = s.storage.draws }

abbrev pub in_session :
    {A : Type 0}
    → Text
    → Outcome Session.Error A × Session.State
    → State
    → Outcome E2eError A × State
in_session chat (done a, st) s =
    (done a, record (with_draws st.draws s) { sessions = insert chat st.session s.sessions })
in_session chat (thrown e, st) s = (
  thrown (ratchet e),
  record (with_draws st.draws s) { sessions = insert chat st.session s.sessions },
)

-- A method of the session of a chat: the cache holds the object, so it has what the method changed,
-- also where the method throws.
abbrev pub on_session : {A : Type 0} → Text → Session.Session → Steps.Action A → Action A
on_session chat session m s = in_session chat (m (ratchet_state session s)) s

abbrev pub made :
    Outcome Session.Error (Unit {0}) × Session.State
    → State
    → Outcome E2eError Session.Session × State
made (done a, st) s = (done st.session, with_draws st.draws s)
made (thrown e, st) s = (thrown (ratchet e), with_draws st.draws s)

-- A new session, started by a method; nothing holds it yet.
abbrev pub start : Steps.Action (Unit {0}) → Action Session.Session
start m s = made (m (ratchet_state Session.empty_session s)) s

abbrev pub lift : {A : Type 0} → E2eError → Option A → Action A
lift e none s = (thrown e, s)
lift e (some a) s = (done a, s)

abbrev pub ignored : {A : Type 0} → Outcome E2eError A × State → Outcome E2eError (Unit {0}) × State
ignored (r, s) = (done tt, s)

-- `try` with a `catch` that goes on.
abbrev pub attempt : {A : Type 0} → Action A → Action (Unit {0})
attempt m s = ignored (m s)
