-- ===== src/E2e/Exchange.antt =====
-- A text that one side encrypts for a chat, the other side decrypts: prekeys, handshake, ratchet,
-- padding and signature together.
use nur_chat.Prelude.{ℕ, ◌≤◌, ◌≡◌, refl, true, Option, none, some, ◌∷◌, ◌∙◌, ap, length}
use nur_chat.Text.{Text}
use nur_chat.Text.Hex.{hex_to_bytes, bytes_to_hex}
use nur_chat.Assoc.{lookup, lookup-insert_self}
use nur_chat.Exec.{done}
use nur_chat.Ratchet.Primitives.{Primitives, AreLawful}
use nur_chat.Ratchet.Session
use nur_chat.Ratchet.Session.{Session, Envelope, message_id}
use nur_chat.Ratchet.Calls.{sealed, after_seal}
use nur_chat.Ratchet.Delivery.{Linked, after_receipt, decrypt_sealed, after_seal-Linked}
use nur_chat.Ratchet.Conversation.{IsOpening, IsOpening-IsQuiet, after_seal-IsOpening}
use nur_chat.SecureStorage.{Aes}
use nur_chat.E2e.{
  Signatures, SignaturesAreLawful, Codecs, E2eKeys, EncryptedEnvelope, Bundle, State, ratchet_state,
}
use nur_chat.E2e.Sessions.{get_or_create_session, session_or_new, persist_quietly}
use nur_chat.E2e.Keeps.{persist_quietly-Keeps}
use nur_chat.E2e.Messages.{
  encrypt_message, decrypt_message, session_to_decrypt, cached_text, cache_key,
}
use nur_chat.E2e.Calls.{
  padded_text, after_pad, after_call, wire, sent, opened, given, cache_text_sessions, unpadded,
  wire-valid,
}

-- The sessions that the two sides hold for a chat belong together, and there was no reply yet.
pub record Corresponds (chat : Text) (s t : State) : Type 0 where
  pub sender : Session
  pub receiver : Session
  pub sender_holds : lookup chat s.sessions ≡ some sender
  pub receiver_holds : lookup chat t.sessions ≡ some receiver
  pub linked : Linked sender receiver
  pub opening : IsOpening sender

-- JSON gives an envelope back.
pub record CodecsAreLawful (codecs : Codecs) : Type 0 where
  pub parse-stringify :
      (e : Envelope) → codecs.envelope.parse (codecs.envelope.stringify e) ≡ some e

module _ (p : Primitives) (c : Aes) (g : Signatures) (codecs : Codecs) where
  module _ (laws : AreLawful p) (glaws : SignaturesAreLawful g)
      (jlaws : CodecsAreLawful codecs) where
    -- From sessions that belong together on, where the sender's session is the one that encrypts and the
    -- receiver's the one that decrypts.
    pub exchanged :
        (now : ℕ) (plaintext : Text) (ka kb : E2eKeys) (theirs ours chat sender : Text)
        (user : Option Text) (bundle : Option Bundle) (msg : Option Text) (sa s1 sb t1 : State)
        (x y : Session) (n : ℕ) (ns : Text)
        → get_or_create_session p c g codecs chat ka theirs true user bundle none sa ≡ (done x, s1)
        → ((l : Linked x y)
            → session_to_decrypt p c g codecs
                (lookup chat sb.sessions)
                chat
                kb
                ours
                (bytes_to_hex l.pair.public_key)
                sb
              ≡ (done y, t1))
        → Linked x y
        → IsOpening x
        → ka.signing_public_hex ≡ n ∷ ns
        → g.get_public_key (hex_to_bytes ka.signing_private_hex)
          ≡ some (hex_to_bytes ka.signing_public_hex)
        → cached_text (cache_key chat msg) sb ≡ none
        → length (p.encode plaintext) ≤ 8192
        → p.decode (p.encode plaintext) ≡ plaintext
        → (e : EncryptedEnvelope) × (sa' sb' : State) × (encrypt_message p c g codecs now plaintext
              ka theirs chat sender user bundle sa
            ≡ (done e, sa'))
          × (decrypt_message p c g codecs e kb ours chat msg sb ≡ (some plaintext, sb'))
          × Corresponds chat sa' sb'
    unfolding sealed
    exchanged now plaintext ka kb theirs ours chat sender user bundle msg sa s1 sb t1 x y n ns got
          found l o named pair fresh short utf =
        let (signature, signed, size, bytes, verified) =
          glaws.verify-sign (p.encode plaintext) (hex_to_bytes ka.signing_private_hex)
            (hex_to_bytes ka.signing_public_hex) pair in
        let s2 : State = after_pad p c g codecs plaintext s1 in
        let s3 : State =
          after_call p c g codecs chat (after_seal p (ratchet_state x s2) l.chain) s2 in
        let raw : Text = padded_text p c g codecs plaintext s1 in
        let message : Envelope = sealed p x s2.storage.draws l.chain l.pair raw in
        let e : EncryptedEnvelope = wire p c g codecs now ka sender signature message in
        let rt : Session.State =
          after_receipt p (ratchet_state y t1) l.chain
            (message_id (bytes_to_hex l.pair.public_key) x.ns) in
        let read =
          decrypt_sealed p laws (ratchet_state x s2) (ratchet_state y t1) raw l
            (laws.decode-base64 _) in
        let t2 : State = after_call p c g codecs chat rt t1 in
        let t3 : State = (persist_quietly p c g codecs t2).1 in
        let text =
          opened p c g codecs e message kb ours chat raw sb t1 y rt (jlaws.parse-stringify message)
            (found l) read
          ∙ ap (λ u. (done u, t3))
              (unpadded p c g codecs laws s1.storage.draws plaintext short utf) in
        (
          e,
          _,
          _,
          sent p c g codecs now plaintext ka theirs chat sender user bundle sa s1 x l.chain l.pair
              signature got l.cks l.dhs (IsOpening-IsQuiet p x o) signed,
          given p c g codecs e kb ours chat plaintext msg sb t3 fresh text (
              wire-valid p c g codecs laws now ka sender plaintext signature message n ns named size
                verified),
          record {
            sender = (after_seal p (ratchet_state x s2) l.chain).session;
            receiver = rt.session;
            sender_holds =
                ap (lookup chat) (persist_quietly-Keeps p c g codecs s3).sessions
                ∙ lookup-insert_self chat (after_seal p (ratchet_state x s2) l.chain).session
                    s2.sessions;
            receiver_holds =
                ap (lookup chat) (
                  cache_text_sessions p c g codecs (cache_key chat msg) plaintext t3
                  ∙ (persist_quietly-Keeps p c g codecs t2).sessions)
                ∙ lookup-insert_self chat rt.session t1.sessions;
            linked = after_seal-Linked p (ratchet_state x s2) (ratchet_state y t1) l;
            opening = after_seal-IsOpening p (ratchet_state x s2) l.chain o;
          },
        )

    -- Where the sessions for a chat belong together and there was no reply yet, the next text that the
    -- first side encrypts (in the form that UTF-8 gives back, at most 8192 bytes) is the text that the
    -- other side decrypts, and the sessions belong together again. The signing keys are a pair, and the
    -- message's id was not read before.
    pub next_message :
        (now : ℕ) (plaintext : Text) (ka kb : E2eKeys) (theirs ours chat sender : Text)
        (user : Option Text) (bundle : Option Bundle) (msg : Option Text) (sa sb : State) (n : ℕ)
        (ns : Text)
        → Corresponds chat sa sb
        → ka.signing_public_hex ≡ n ∷ ns
        → g.get_public_key (hex_to_bytes ka.signing_private_hex)
          ≡ some (hex_to_bytes ka.signing_public_hex)
        → cached_text (cache_key chat msg) sb ≡ none
        → length (p.encode plaintext) ≤ 8192
        → p.decode (p.encode plaintext) ≡ plaintext
        → (e : EncryptedEnvelope) × (sa' sb' : State) × (encrypt_message p c g codecs now plaintext
              ka theirs chat sender user bundle sa
            ≡ (done e, sa'))
          × (decrypt_message p c g codecs e kb ours chat msg sb ≡ (some plaintext, sb'))
          × Corresponds chat sa' sb'
    unfolding get_or_create_session session_or_new session_to_decrypt
    next_message now plaintext ka kb theirs ours chat sender user bundle msg sa sb n ns h named pair
          fresh short utf =
        exchanged now plaintext ka kb theirs ours chat sender user bundle msg sa sa sb sb h.sender
          h.receiver n ns (rw h.sender_holds refl) (λ l. rw h.receiver_holds refl) h.linked
          h.opening named pair fresh short utf
