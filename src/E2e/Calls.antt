-- ===== src/E2e/Calls.antt =====
-- What `encryptMessage` and `decryptMessage` do where nothing stands in the way.
use nur_chat.Prelude.{
  ℕ, ◌+◌, ◌≤◌, ◌≡◌, refl, true, false, ◌==◌, Option, none, some, [], ◌∷◌, ◌∙◌, ap, sym, arith,
  length, le→ltb,
}
use nur_chat.Text.{Text, Bytes}
use nur_chat.Text.Hex.{hex_to_bytes}
use nur_chat.Assoc.{lookup, insert}
use nur_chat.Exec.{done}
use nur_chat.Ratchet.Primitives.{Primitives, KeyPair, AreLawful}
use nur_chat.Ratchet.Kdf.{Chain}
use nur_chat.Ratchet.Session
use nur_chat.Ratchet.Session.{Session, Envelope, message_id}
use nur_chat.Ratchet.Messages
use nur_chat.Ratchet.Calls.{sealed, after_seal, encrypt_quiet}
use nur_chat.Ratchet.Delivery.{IsQuiet}
use nur_chat.Padding.{pad_bytes, unpad-pad}
use nur_chat.SecureStorage.{Aes}
use nur_chat.E2e.{
  Signatures, Codecs, E2eKeys, EncryptedEnvelope, Bundle, State, with_draws, ratchet_state,
}
use nur_chat.E2e.Payload.{pad_string, unpad_string, pad_draws}
use nur_chat.E2e.Sessions.{get_or_create_session, persist_quietly}
use nur_chat.E2e.Messages.{
  encrypt_message, decrypt_message, session_to_decrypt, open_text, text_or_raw, has_valid_signature,
  accept, decrypt_and_verify, caught, cached_or_decrypted, cached_text, cache_text, cache_key,
}

module _ (p : Primitives) (c : Aes) (g : Signatures) (codecs : Codecs) where
  abbrev pub padded_text : Text → State → Text
  padded_text plaintext s = p.base64_encode (pad_bytes p s.storage.draws (p.encode plaintext))

  -- The state with the pad's randomness drawn, and with the session of a chat changed.
  abbrev pub after_pad : Text → State → State
  after_pad plaintext s = with_draws (s.storage.draws + pad_draws p (length (p.encode plaintext))) s

  abbrev pub after_call : Text → Session.State → State → State
  after_call chat st s = record (with_draws st.draws s) {
    sessions = insert chat st.session s.sessions;
  }

  abbrev pub wire : ℕ → E2eKeys → Text → Bytes → Envelope → EncryptedEnvelope
  wire now keys sender signature e = record {
    ciphertext = codecs.envelope.stringify e;
    signature = p.base64_encode signature;
    timestamp = now;
    sender_id = sender;
    sender_signing_key = some keys.signing_public_hex;
  }

  -- The sender's call in closed form.
  pub sent :
      (now : ℕ) (plaintext : Text) (keys : E2eKeys) (their_public chat sender : Text)
      (user : Option Text) (bundle : Option Bundle) (s s1 : State) (x : Session) (chain : Chain)
      (pair : KeyPair) (signature : Bytes)
      → get_or_create_session p c g codecs chat keys their_public true user bundle none s
        ≡ (done x, s1)
      → x.cks ≡ some chain
      → x.dhs ≡ some pair
      → IsQuiet x
      → g.sign (p.encode plaintext) (hex_to_bytes keys.signing_private_hex) ≡ some signature
      → let s2 = after_pad plaintext s1 in
        let s3 = after_call chat (after_seal p (ratchet_state x s2) chain) s2 in
        encrypt_message p c g codecs now plaintext keys their_public chat sender user bundle s ≡ (
          done (
              wire now keys sender signature
                (sealed p x s2.storage.draws chain pair (padded_text plaintext s1))),
          (persist_quietly p c g codecs s3).1,
        )
  unfolding encrypt_message pad_string
  sent now plaintext keys their_public chat sender user bundle s s1 x chain pair signature e hc hd
        quiet signed =
      let s2 : State = after_pad plaintext s1 in
      let s3 : State = after_call chat (after_seal p (ratchet_state x s2) chain) s2 in
      let padded : Text = padded_text plaintext s1 in
      rw
        (
          e,
          encrypt_quiet p (ratchet_state x s2) chain pair padded hc hd quiet.settled quiet.fresh,
          signed,
        )
        refl

  -- The ratchet's part of the receiver's call in closed form.
  pub opened :
      (envelope : EncryptedEnvelope) (message : Envelope) (keys : E2eKeys)
      (sender_public chat raw : Text) (s s1 : State) (y : Session) (rt : Session.State)
      → codecs.envelope.parse envelope.ciphertext ≡ some message
      → session_to_decrypt p c g codecs
          (lookup chat s.sessions)
          chat
          keys
          sender_public
          message.header.dh
          s
        ≡ (done y, s1)
      → Messages.decrypt_message p message (ratchet_state y s1) ≡ (done raw, rt)
      → open_text p c g codecs envelope keys sender_public chat s ≡ (
        done (text_or_raw (unpad_string p raw) raw),
        (persist_quietly p c g codecs (after_call chat rt s1)).1,
      )
  unfolding open_text
  opened envelope message keys sender_public chat raw s s1 y rt parsed found h =
      rw (parsed, found, h) refl

  -- A text that opens and has a valid signature is given.
  pub given :
      (envelope : EncryptedEnvelope) (keys : E2eKeys) (sender_public chat t : Text)
      (msg : Option Text) (s s1 : State)
      → cached_text (cache_key chat msg) s ≡ none
      → open_text p c g codecs envelope keys sender_public chat s ≡ (done t, s1)
      → has_valid_signature p c g codecs envelope t envelope.sender_signing_key ≡ true
      → decrypt_message p c g codecs envelope keys sender_public chat msg s
        ≡ (some t, cache_text (cache_key chat msg) t s1)
  unfolding decrypt_message cached_or_decrypted decrypt_and_verify accept caught
  given envelope keys sender_public chat t msg s s1 fresh open_eq valid =
      rw (fresh, open_eq, valid) refl

  pub cache_text_sessions :
      (key : Option Text) (t : Text) (s : State) → (cache_text key t s).sessions ≡ s.sessions
  unfolding cache_text
  cache_text_sessions none t s = refl
  cache_text_sessions (some key) t s = refl

  filled :
      (t : Text) (b : Bytes)
      → p.base64_decode [] ≡ []
      → p.base64_decode t ≡ b
      → length b ≡ 64
      → (length t == 0) ≡ false
  filled [] b nil e h = absurd (omega (arith, h, ap length (sym e ∙ nil)))
  filled (x ∷ t) b nil e h = ground arith

  module _ (laws : AreLawful p) where
    pub unpadded :
        (draws : ℕ) (plaintext : Text)
        → length (p.encode plaintext) ≤ 8192
        → p.decode (p.encode plaintext) ≡ plaintext
        → let raw = p.base64_encode (pad_bytes p draws (p.encode plaintext)) in
          text_or_raw (unpad_string p raw) raw ≡ plaintext
    unfolding unpad_string text_or_raw
    unpadded draws plaintext short utf =
        rw
          (
            laws.base64_decode-encode (pad_bytes p draws (p.encode plaintext)),
            unpad-pad p laws draws (p.encode plaintext) (omega arith),
            le→ltb 8192 (length (p.encode plaintext)) short,
          )
          utf

    pub wire-valid :
        (now : ℕ) (keys : E2eKeys) (sender plaintext : Text) (signature : Bytes) (e : Envelope)
        (x : ℕ) (xs : Text)
        → keys.signing_public_hex ≡ x ∷ xs
        → length signature ≡ 64
        → g.verify (p.encode plaintext) signature (hex_to_bytes keys.signing_public_hex) ≡ some true
        → has_valid_signature p c g codecs
            (wire now keys sender signature e)
            plaintext
            (some keys.signing_public_hex)
          ≡ true
    unfolding has_valid_signature
    wire-valid now keys sender plaintext signature e x xs named size verified =
        let back : p.base64_decode (p.base64_encode signature) ≡ signature =
          laws.base64_decode-encode signature in
        let key : g.verify (p.encode plaintext) signature (hex_to_bytes (x ∷ xs)) ≡ some true =
          ap (λ k. g.verify (p.encode plaintext) signature (hex_to_bytes k)) (sym named)
          ∙ verified in
        let whole : (length signature == 64) ≡ true = ground (arith, size) in
        rw
          (
            named,
            back,
            filled (p.base64_encode signature) signature laws.base64_decode-nil back size,
            whole,
            key,
          )
          refl
