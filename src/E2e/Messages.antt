-- ===== src/E2e/Messages.antt =====
-- `encryptMessage` and `decryptMessage` of frontend/src/services/e2e.ts.
use nur_chat.Prelude.{
  ℕ, Bool, true, false, not, ◌&&◌, Option, none, some, List, [], ◌∷◌, ◌++◌, ◌==◌, if◌then◌else◌,
  length,
}
use nur_chat.Text.{Text}
use nur_chat.Text.Hex.{hex_to_bytes}
use nur_chat.Assoc.{lookup, insert}
use nur_chat.Exec.{Outcome, done, thrown, pure, gets, modify, ◌>>=◌, ◌>>◌}
use nur_chat.Ratchet.Primitives.{Primitives}
use nur_chat.Ratchet.Session.{Session, decryption_failed, ad_mismatch}
use nur_chat.Ratchet.Messages
use nur_chat.SecureStorage.{Aes}
use nur_chat.E2e.{
  Signatures, Codecs, E2eKeys, EncryptedEnvelope, Bundle, State, Action, E2eError, ratchet, syntax,
  bad_signing_key, on_session, lift,
}
use nur_chat.E2e.Payload.{pad_string, unpad_string}
use nur_chat.E2e.Sessions.{
  is_true, session_as_responder, get_or_create_session, persist_quietly, remove_session,
}

-- `/Decryption failed|Associated data mismatch/` on the message of an error.
unfoldable pub is_stale : E2eError → Bool
is_stale (ratchet decryption_failed) = true
is_stale (ratchet ad_mismatch) = true
is_stale e = false

-- `${chatId}:${msgId}`, where a message has a (non-empty) id.
unfoldable pub cache_key : Text → Option Text → Option Text
cache_key chat none = none
cache_key chat (some []) = none
cache_key chat (some (x ∷ xs)) = some (chat ++ 58 ∷ x ∷ xs)

unfoldable pub cached_text : Option Text → State → Option Text
cached_text none s = none
cached_text (some key) s = lookup key s.decrypted

unfoldable pub cache_text : Option Text → Text → State → State
cache_text none plaintext s = s
cache_text (some key) plaintext s = record s { decrypted = insert key plaintext s.decrypted }

-- `maybe ?? raw`: a legacy message is not padded.
unfoldable pub text_or_raw : Option Text → Text → Text
text_or_raw none raw = raw
text_or_raw (some t) raw = t

module _ (p : Primitives) (c : Aes) (g : Signatures) (codecs : Codecs) where
  -- `encryptMessage`; `now` is the time.
  unfoldable pub encrypt_message :
      ℕ
      → Text
      → E2eKeys
      → Text
      → Text
      → Text
      → Option Text
      → Option Bundle
      → Action EncryptedEnvelope
  unfolding get_or_create_session pad_string persist_quietly
  encrypt_message now plaintext keys their_public chat sender user bundle = do
    session ← get_or_create_session p c g codecs chat keys their_public true user bundle none
    padded ← pad_string p plaintext
    envelope ← on_session chat session (Messages.encrypt_message p padded)
    signature ←
        lift bad_signing_key (g.sign (p.encode plaintext) (hex_to_bytes keys.signing_private_hex))
    persist_quietly p c g codecs
    pure (record {
      ciphertext = codecs.envelope.stringify envelope;
      signature = p.base64_encode signature;
      timestamp = now;
      sender_id = sender;
      sender_signing_key = some keys.signing_public_hex;
    })

  -- The session to decrypt with: that of the chat, or a new one from the header.
  unfoldable pub session_to_decrypt : Option Session → Text → E2eKeys → Text → Text → Action Session
  unfolding session_as_responder
  session_to_decrypt (some session) chat keys sender_public ephemeral = pure session
  session_to_decrypt none chat keys sender_public ephemeral = do
    session ← session_as_responder p c g codecs keys sender_public ephemeral
    modify (λ s. record s { sessions = insert chat session s.sessions })
    pure session

  -- The ratchet's part of `decryptMessage`: the text, after the sessions are written.
  unfoldable pub open_text : EncryptedEnvelope → E2eKeys → Text → Text → Action Text
  unfolding session_to_decrypt unpad_string text_or_raw persist_quietly
  open_text envelope keys sender_public chat = do
    message ← lift syntax (codecs.envelope.parse envelope.ciphertext)
    found ← gets (λ s. lookup chat s.sessions)
    session ← session_to_decrypt found chat keys sender_public message.header.dh
    raw ← on_session chat session (Messages.decrypt_message p message)
    persist_quietly p c g codecs
    pure (text_or_raw (unpad_string p raw) raw)

  -- Whether the signature is there, has 64 bytes, and verifies under the key that comes with it.
  unfoldable pub has_valid_signature : EncryptedEnvelope → Text → Option (List ℕ) → Bool
  has_valid_signature envelope plaintext none = false
  has_valid_signature envelope plaintext (some []) = false
  has_valid_signature envelope plaintext (some (x ∷ xs)) =
      let signature = p.base64_decode envelope.signature in
      not (length envelope.signature == 0)
      && length signature == 64
      && is_true (g.verify (p.encode plaintext) signature (hex_to_bytes (x ∷ xs)))

  unfoldable pub accept : Bool → Option Text → Text → Action (Option Text)
  unfolding cache_text
  accept true key plaintext = do modify (cache_text key plaintext); pure (some plaintext)
  accept false key plaintext = pure none

  -- The `try` block.
  unfoldable pub decrypt_and_verify :
      EncryptedEnvelope → E2eKeys → Text → Text → Option Text → Action (Option Text)
  unfolding open_text has_valid_signature accept
  decrypt_and_verify envelope keys sender_public chat key = do
    plaintext ← open_text envelope keys sender_public chat
    accept (has_valid_signature envelope plaintext envelope.sender_signing_key) key plaintext

  -- The `catch` block: a stale session is dropped.
  unfoldable pub caught : Text → Outcome E2eError (Option Text) × State → Option Text × State
  unfolding is_stale remove_session
  caught chat (done t, s) = (t, s)
  caught chat (thrown e, s) =
      (none, if is_stale e then (remove_session p c g codecs chat s).1 else s)

  unfoldable pub cached_or_decrypted :
      Option Text
      → EncryptedEnvelope
      → E2eKeys
      → Text
      → Text
      → Option Text
      → State
      → Option Text × State
  unfolding decrypt_and_verify caught
  cached_or_decrypted (some t) envelope keys sender_public chat key s = (some t, s)
  cached_or_decrypted none envelope keys sender_public chat key s =
      caught chat (decrypt_and_verify envelope keys sender_public chat key s)

  -- `decryptMessage`
  unfoldable pub decrypt_message :
      EncryptedEnvelope → E2eKeys → Text → Text → Option Text → State → Option Text × State
  unfolding cached_or_decrypted cached_text cache_key
  decrypt_message envelope keys sender_public chat msg s =
      let key = cache_key chat msg in
      cached_or_decrypted (cached_text key s) envelope keys sender_public chat key s
