-- ===== src/Ratchet/Refusal.antt =====
-- A message that does not open under the key of its number, or that was sealed with other associated data.
use nur_chat.Prelude.{
  ◌-◌, ◌≤◌, ◌≡◌, refl, ◌⊎◌, inl, inr, Bool, true, false, not, ◌||◌, Option, none, some, arith, ltb,
  length, take, drop,
}
use nur_chat.Text.{Text, Bytes, same}
use nur_chat.Text.Hex.{hex_to_bytes}
use nur_chat.Assoc.{lookup}
use nur_chat.Exec.{thrown}
use nur_chat.Ratchet.Primitives.{Primitives}
use nur_chat.Ratchet.Kdf.{Chain, next_message_key, from_base64}
use nur_chat.Ratchet.Session.{
  Session, State, Error, decryption_failed, ad_mismatch, Header, Envelope, associated_data,
  message_id, has, max_skip_gap,
}
use nur_chat.Ratchet.Messages.{decrypt_with_key, decrypt_next, decrypt_message}
use nur_chat.Ratchet.Calls.{remembered, caught_up, after_advance, advance_lem, ratchet_if_new_quiet}

-- Whether what the cipher gave starts with the associated data.
abbrev pub is_bound : Bytes → Option Bytes → Bool
is_bound ad none = false
is_bound ad (some payload) =
    not (ltb (length payload) (length ad) || not (same (take (length ad) payload) ad))

abbrev pub IsRefusal : Error → Type 0
IsRefusal e = (e ≡ decryption_failed) ⊎ (e ≡ ad_mismatch)

module _ (p : Primitives) where
  -- What the cipher gives for bytes under a key.
  abbrev pub payload_of : Bytes → Bytes → Option Bytes
  payload_of bytes key = p.secretbox_decrypt (drop 24 bytes) (take 24 bytes) key

  decrypt_with_key_refused :
      (st : State) (e : Envelope) (key bytes : Bytes) (id : Text) (o : Option Bytes)
      → has id st.session.seen ≡ false
      → from_base64 p e.ciphertext ≡ some bytes
      → payload_of bytes key ≡ o
      → is_bound (associated_data st.session) o ≡ false
      → (x : Error) × (st' : State) × IsRefusal x
        × (decrypt_with_key p e key id st ≡ (thrown x, st'))
  unfolding decrypt_with_key remembered
  decrypt_with_key_refused st e key bytes id none new text opens bound = (
    decryption_failed,
    record st { session = remembered id st.session },
    inl refl,
    rw (new, text, opens) refl,
  )
  decrypt_with_key_refused st e key bytes id (some payload) new text opens bound =
      let ad : Bytes = associated_data st.session in
      let other : (ltb (length payload) (length ad) || not (same (take (length ad) payload) ad))
          ≡ true =
        ground (arith, bound) in
      (
        ad_mismatch,
        record st { session = remembered id st.session },
        inr refl,
        rw (new, text, opens, other) refl,
      )

  -- The key of the message of a header on a chain.
  abbrev pub key_for : Session → Chain → Header → Bytes
  key_for s c h = (next_message_key p (caught_up p s c h).0 (associated_data s)).0

  pub decrypt_message_refused :
      (st : State) (e : Envelope) (c : Chain) (q bytes : Bytes)
      → lookup (message_id e.header.dh e.header.ns) st.session.skipped ≡ none
      → has (message_id e.header.dh e.header.ns) st.session.seen ≡ false
      → st.session.dhr ≡ some q
      → hex_to_bytes e.header.dh ≡ q
      → st.session.ckr ≡ some c
      → c.step ≤ e.header.ns
      → e.header.ns - c.step ≤ max_skip_gap
      → from_base64 p e.ciphertext ≡ some bytes
      → is_bound (associated_data st.session) (payload_of bytes (key_for st.session c e.header))
        ≡ false
      → (x : Error) × (st' : State) × IsRefusal x × (decrypt_message p e st ≡ (thrown x, st'))
  unfolding decrypt_message decrypt_next after_advance associated_data
  decrypt_message_refused st e c q bytes kept new current own chain past gap text bound =
      let id : Text = message_id e.header.dh e.header.ns in
      let (x, st', refusal, run) =
        decrypt_with_key_refused (after_advance p st c e.header) e (key_for st.session c e.header)
          bytes id _ new text refl bound in
      (
        x,
        st',
        refusal,
        rw
            (
              kept,
              ratchet_if_new_quiet p e.header st q current own,
              advance_lem p st e.header c chain past gap,
            )
            run,
      )
