-- ===== src/E2e/FirstMessage.antt =====
-- The first message of a chat: both sides make their session.
use nur_chat.Prelude.{ℕ, ◌+◌, ◌≤◌, ◌≡◌, refl, true, Option, none, some, ◌∷◌, ◌∙◌, ap, sym, length}
use nur_chat.Text.{Text, Bytes}
use nur_chat.Text.Hex.{hex_to_bytes, bytes_to_hex, hex_to_bytes-bytes_to_hex}
use nur_chat.Assoc.{lookup}
use nur_chat.Exec.{done}
use nur_chat.Ratchet.Primitives.{Primitives, KeyPair, AreLawful}
use nur_chat.Ratchet.Session.{Session}
use nur_chat.Ratchet.Handshake.{initialize_as_alice, initialize_as_bob}
use nur_chat.Ratchet.Delivery.{Linked}
use nur_chat.Ratchet.Agreement.{new_state, handshake_lem}
use nur_chat.SecureStorage.{Aes, Storage}
use nur_chat.SecureStorage.Records.{StoredSpk, load_spk}
use nur_chat.E2e.{
  Signatures, SignaturesAreLawful, Codecs, E2eKeys, EncryptedEnvelope, Bundle, State, Action,
}
use nur_chat.E2e.Sessions.{
  get_or_create_session, session_or_new, new_session, session_as_initiator, session_as_responder,
  prekey_to_use, spk_secret,
}
use nur_chat.E2e.Messages.{
  encrypt_message, decrypt_message, session_to_decrypt, cached_text, cache_key,
}
use nur_chat.E2e.Exchange.{Corresponds, CodecsAreLawful, exchanged}

-- The keys of two sides that meet: each public key is its secret's, the prekey that the first side uses
-- is that of the secret that the other side uses, and no key is one that the curve refuses.
pub record Contact (p : Primitives) (ka kb : E2eKeys) (prekey : Text) (secret : Bytes) (n : ℕ)
    : Type 0 where
  pub sender_key :
      p.get_public_key (hex_to_bytes ka.private_key_hex) ≡ some (hex_to_bytes ka.public_key_hex)
  pub receiver_key :
      p.get_public_key (hex_to_bytes kb.private_key_hex) ≡ some (hex_to_bytes kb.public_key_hex)
  pub prekey_pair : p.get_public_key secret ≡ some (hex_to_bytes prekey)
  pub x1 : Bytes
  pub x2 : Bytes
  pub x3 : Bytes
  pub shared1 :
      p.get_shared_secret (hex_to_bytes ka.private_key_hex) (hex_to_bytes prekey) ≡ some x1
  pub shared2 :
      p.get_shared_secret (p.keygen n).secret_key (hex_to_bytes kb.public_key_hex) ≡ some x2
  pub shared3 : p.get_shared_secret (p.keygen n).secret_key (hex_to_bytes prekey) ≡ some x3

some_injective {ℓ} : {A : Type ℓ} {a b : A} → some a ≡ some b → a ≡ b
some_injective e = cc

-- The state behind a call that ends well.
ended :
    {A : Type 0} (m : Action A) (s : State) (a : A)
    → (m s).0 ≡ done a
    → (s1 : State) × (m s ≡ (done a, s1))
ended m s a e = ((m s).1, ap (λ o. (o, (m s).1)) e)

module _ (p : Primitives) (c : Aes) (g : Signatures) (codecs : Codecs) where
  -- The initiator's session is made and kept.
  initiated :
      (ka : E2eKeys) (theirs chat : Text) (user : Option Text) (bundle : Option Bundle) (s : State)
      (x : Session)
      → lookup chat s.sessions ≡ none
      → initialize_as_alice p
          (hex_to_bytes ka.private_key_hex)
          (hex_to_bytes theirs)
          (hex_to_bytes (prekey_to_use g bundle none theirs))
          none
          (new_state s.storage.draws)
        ≡ (done tt, record { session = x; draws = s.storage.draws + 1 })
      → (s1 : State) × (get_or_create_session p c g codecs chat ka theirs true user bundle none s
          ≡ (done x, s1))
  unfolding get_or_create_session session_or_new new_session session_as_initiator
  initiated ka theirs chat user bundle s x empty e =
      ended (get_or_create_session p c g codecs chat ka theirs true user bundle none) s x
        (rw (empty, e) refl)

  -- The responder's session is made from the header.
  responded :
      (kb : E2eKeys) (ours chat dh : Text) (s : State) (st : Storage) (spk : Option StoredSpk)
      (y : Session)
      → load_spk p c codecs.spk s.storage ≡ (done spk, st)
      → initialize_as_bob p
          (hex_to_bytes kb.private_key_hex)
          (spk_secret kb spk)
          none
          (hex_to_bytes ours)
          (hex_to_bytes dh)
          (new_state st.draws)
        ≡ (done tt, record { session = y; draws = st.draws })
      → (t1 : State) × (session_to_decrypt p c g codecs none chat kb ours dh s ≡ (done y, t1))
  unfolding session_to_decrypt session_as_responder
  responded kb ours chat dh s st spk y loaded e =
      ended (session_to_decrypt p c g codecs none chat kb ours dh) s y (rw (loaded, e) refl)

  module _ (laws : AreLawful p) (glaws : SignaturesAreLawful g)
      (jlaws : CodecsAreLawful codecs) where
    -- Where neither side has a session for the chat, and the keys are such that the sides can meet, the
    -- first text that one side encrypts (in the form that UTF-8 gives back, at most 8192 bytes) is the
    -- text that the other side decrypts, and the sessions then belong together. The prekey is that of a
    -- bundle with a valid signature, or the identity key where there is none; its secret is the one in
    -- the other side's storage, or that of its identity where there is none.
    pub first_message :
        (now : ℕ) (plaintext : Text) (ka kb : E2eKeys) (chat sender : Text) (user : Option Text)
        (bundle : Option Bundle) (msg : Option Text) (sa sb : State) (spk : Option StoredSpk)
        (n : ℕ) (ns : Text)
        → lookup chat sa.sessions ≡ none
        → lookup chat sb.sessions ≡ none
        → (load_spk p c codecs.spk sb.storage).0 ≡ done spk
        → Contact p ka kb
            (prekey_to_use g bundle none kb.public_key_hex)
            (spk_secret kb spk)
            sa.storage.draws
        → ka.signing_public_hex ≡ n ∷ ns
        → g.get_public_key (hex_to_bytes ka.signing_private_hex)
          ≡ some (hex_to_bytes ka.signing_public_hex)
        → cached_text (cache_key chat msg) sb ≡ none
        → length (p.encode plaintext) ≤ 8192
        → p.decode (p.encode plaintext) ≡ plaintext
        → (e : EncryptedEnvelope) × (sa' sb' : State) × (encrypt_message p c g codecs now plaintext
              ka kb.public_key_hex chat sender user bundle sa
            ≡ (done e, sa'))
          × (decrypt_message p c g codecs e kb ka.public_key_hex chat msg sb
              ≡ (some plaintext, sb'))
          × Corresponds chat sa' sb'
    first_message now plaintext ka kb chat sender user bundle msg sa sb spk n ns no_sender
          no_receiver loaded k named pair fresh short utf =
        let st : Storage = (load_spk p c codecs.spk sb.storage).1 in
        let prekey : Text = prekey_to_use g bundle none kb.public_key_hex in
        let (x, y, as_alice, as_bob, linked, opening, dhs) =
          handshake_lem p laws (hex_to_bytes ka.private_key_hex) (hex_to_bytes kb.private_key_hex)
            (spk_secret kb spk) (hex_to_bytes ka.public_key_hex) (hex_to_bytes kb.public_key_hex)
            (hex_to_bytes prekey) k.sender_key k.receiver_key k.prekey_pair sa.storage.draws
            st.draws k.x1 k.x2 k.x3 k.shared1 k.shared2 k.shared3 in
        let (s1, got) = initiated ka kb.public_key_hex chat user bundle sa x no_sender as_alice in
        let ephemeral : Bytes = (p.keygen sa.storage.draws).public_key in
        let back : hex_to_bytes (bytes_to_hex ephemeral) ≡ ephemeral =
          hex_to_bytes-bytes_to_hex ephemeral
            (laws.public_bytes _ ephemeral (laws.keygen_pair sa.storage.draws)) in
        let (t1, found) =
          responded kb ka.public_key_hex chat (bytes_to_hex ephemeral) sb st spk y
            (ap (λ o. (o, st)) loaded) (rw back as_bob) in
        let header : (l : Linked x y) → bytes_to_hex ephemeral ≡ bytes_to_hex l.pair.public_key =
          λ l. ap (λ (q : KeyPair). bytes_to_hex q.public_key) (some_injective (sym dhs ∙ l.dhs)) in
        exchanged p c g codecs laws glaws jlaws now plaintext ka kb kb.public_key_hex
          ka.public_key_hex chat sender user bundle msg sa s1 sb t1 x y n ns got
          (λ l.
            ap
              (λ o.
                session_to_decrypt p c g codecs o chat kb ka.public_key_hex
                  (bytes_to_hex l.pair.public_key) sb)
              no_receiver
            ∙ ap (λ h. session_to_decrypt p c g codecs none chat kb ka.public_key_hex h sb)
                (sym (header l))
            ∙ found)
          linked opening named pair fresh short utf
