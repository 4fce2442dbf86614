-- ===== src/E2e/Sessions.antt =====
-- The sessions in memory: `getOrCreateSession`, `removeSession`, `invalidateSessionsForUser`, and the
-- bundle that a session starts from, `fetchAndVerifyBundle`.
use nur_chat.Prelude.{
  Bool, true, false, not, ◌||◌, Option, none, some, List, [], ◌∷◌, ◌==◌, if◌then◌else◌, length,
}
use nur_chat.Text.{Text, Bytes, codes, same}
use nur_chat.Text.Hex.{hex_to_bytes}
use nur_chat.Assoc.{Assoc, lookup, insert, remove}
use nur_chat.Exec.{pure, gets, modify, ◌>>=◌, ◌>>◌}
use nur_chat.Ratchet.Primitives.{Primitives}
use nur_chat.Ratchet.Session.{Session}
use nur_chat.Ratchet.Handshake.{initialize_as_alice, initialize_as_bob}
use nur_chat.SecureStorage.{Aes}
use nur_chat.SecureStorage.Records.{StoredSpk, load_spk}
use nur_chat.SecureStorage.Namespaces.{starts_with}
use nur_chat.E2e.{Signatures, Codecs, E2eKeys, Bundle, State, Action, on_storage, start, attempt}
use nur_chat.E2e.Payload.{persist_sessions}

abbrev pub is_true : Option Bool → Bool
is_true none = false
is_true (some b) = b

module _ (g : Signatures) where
  -- `fetchAndVerifyBundle`, on the server's answer; none is a failed request.
  unfoldable pub verified_bundle : Option Bundle → Option Text
  verified_bundle none = none
  verified_bundle (some b) =
      let identity = hex_to_bytes b.identity_key in
      let spk = hex_to_bytes b.signed_prekey in
      let signature = hex_to_bytes b.signed_prekey_signature in
      if not (length identity == 32) || not (length spk == 32) || not (length signature == 64)
      then none
      else if is_true (g.verify spk signature identity)
      then some b.signed_prekey
      else none

-- The signed prekey to start from: the one given, that of the bundle, or the identity key.
unfoldable pub or_identity : Option Text → Text → Text
or_identity none identity = identity
or_identity (some spk) identity = spk

unfoldable pub prekey_to_use : Signatures → Option Bundle → Option Text → Text → Text
unfolding verified_bundle or_identity
prekey_to_use g bundle none identity = or_identity (verified_bundle g bundle) identity
prekey_to_use g bundle (some []) identity = or_identity (verified_bundle g bundle) identity
prekey_to_use g bundle (some (x ∷ xs)) identity = x ∷ xs

-- The secret of the signed prekey; the identity's where there is none.
unfoldable pub spk_secret : E2eKeys → Option StoredSpk → Bytes
spk_secret keys none = hex_to_bytes keys.private_key_hex
spk_secret keys (some spk) = hex_to_bytes spk.secret_key_hex

-- `theirSignedPrekeyHex || theirPublicKeyHex`
unfoldable pub given_or : Option Text → Text → Text
given_or none key = key
given_or (some []) key = key
given_or (some (x ∷ xs)) key = x ∷ xs

-- The peer of a chat is remembered where the id is a user's.
unfoldable pub remember_peer : Text → Option Text → Assoc Text → Assoc Text
unfolding starts_with
remember_peer chat none peers = peers
remember_peer chat (some user) peers =
    if starts_with (codes "user_") user then insert chat user peers else peers

-- The chats whose peer is a user.
unfoldable pub chats_of : Text → Assoc Text → List Text
chats_of user [] = []
chats_of user ((chat, peer) ∷ peers) =
    let rest = chats_of user peers in if same peer user then chat ∷ rest else rest

unfoldable pub remove_all : {A : Type 0} → List Text → Assoc A → Assoc A
remove_all [] m = m
remove_all (chat ∷ chats) m = remove_all chats (remove chat m)

-- The loop of `invalidateSessionsForUser`
unfoldable pub drop_user : Text → State → State
unfolding chats_of remove_all
drop_user user s = record s {
  sessions = remove_all (chats_of user s.peers) s.sessions;
  peers = remove_all (chats_of user s.peers) s.peers;
}

module _ (p : Primitives) (c : Aes) (g : Signatures) (codecs : Codecs) where
  -- The session of the side that starts.
  unfoldable pub session_as_initiator : E2eKeys → Text → Text → Action Session
  session_as_initiator keys their_public spk = start (
      initialize_as_alice p (hex_to_bytes keys.private_key_hex) (hex_to_bytes their_public)
        (hex_to_bytes spk) none)

  -- The session of the side that is written to.
  unfoldable pub session_as_responder : E2eKeys → Text → Text → Action Session
  unfolding spk_secret
  session_as_responder keys their_public ephemeral = do
    spk ← on_storage (load_spk p c codecs.spk)
    start (
        initialize_as_bob p (hex_to_bytes keys.private_key_hex) (spk_secret keys spk) none
          (hex_to_bytes their_public) (hex_to_bytes ephemeral))

  unfoldable pub new_session : E2eKeys → Text → Bool → Option Bundle → Option Text → Action Session
  unfolding session_as_initiator session_as_responder prekey_to_use given_or
  new_session keys their_public true bundle spk =
      session_as_initiator keys their_public (prekey_to_use g bundle spk their_public)
  new_session keys their_public false bundle spk =
      session_as_responder keys their_public (given_or spk their_public)

  -- The writing of the sessions, whose failure is only logged.
  unfoldable pub persist_quietly : Action (Unit {0})
  unfolding persist_sessions
  persist_quietly = attempt (persist_sessions p c codecs)

  unfoldable pub session_or_new :
      Option Session
      → Text
      → E2eKeys
      → Text
      → Bool
      → Option Text
      → Option Bundle
      → Option Text
      → Action Session
  unfolding new_session remember_peer persist_quietly
  session_or_new (some session) chat keys their_public initiator user bundle spk = pure session
  session_or_new none chat keys their_public initiator user bundle spk = do
    session ← new_session keys their_public initiator bundle spk
    modify (λ s. record s {
      sessions = insert chat session s.sessions;
      peers = remember_peer chat user s.peers;
    })
    persist_quietly
    pure session

  -- `getOrCreateSession`; `bundle` is the server's answer to the request for the peer's prekeys.
  unfoldable pub get_or_create_session :
      Text → E2eKeys → Text → Bool → Option Text → Option Bundle → Option Text → Action Session
  unfolding session_or_new
  get_or_create_session chat keys their_public initiator user bundle spk = do
    cached ← gets (λ s. lookup chat s.sessions)
    session_or_new cached chat keys their_public initiator user bundle spk

  -- `removeSession`
  unfoldable pub remove_session : Text → Action (Unit {0})
  unfolding persist_quietly
  remove_session chat = do
    modify (λ s. record s { sessions = remove chat s.sessions; peers = remove chat s.peers })
    persist_quietly

  -- `invalidateSessionsForUser`
  unfoldable pub invalidate_sessions_for_user : Text → Action (Unit {0})
  unfolding drop_user persist_quietly
  invalidate_sessions_for_user user = do modify (drop_user user); persist_quietly
