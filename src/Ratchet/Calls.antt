-- ===== src/Ratchet/Calls.antt =====
-- What the parts of `encryptMessage` and `decryptMessage` do where nothing stands in the way.
use nur_chat.Prelude.{
  ℕ, ◌+◌, ◌-◌, ◌≤◌, ◌≡◌, refl, true, false, ◌&&◌, some, ◌++◌, arith, ltb, if◌then◌else◌, length,
  take, take-append_self, drop-append_self, length-append, le→ltb,
}
use nur_chat.Text.{Text, Bytes, same, same_refl}
use nur_chat.Text.Hex.{bytes_to_hex, hex_to_bytes}
use nur_chat.Assoc.{Assoc}
use nur_chat.Exec.{done}
use nur_chat.Ratchet.Primitives.{Primitives, KeyPair, AreLawful}
use nur_chat.Ratchet.Kdf.{Chain, next_message_key, to_base64, from_base64-to_base64}
use nur_chat.Ratchet.Session.{
  Session, State, Header, Envelope, associated_data, has, add, max_skip_gap,
}
use nur_chat.Ratchet.Steps.{is_some}
use nur_chat.Ratchet.Messages.{
  ratchet_if_pending, ensure_chain, rotate, seal, prepare, encrypt_message, decrypt_with_key,
  catch_up, advance, ratchet_if_new, is_worn, trim_seen,
}

-- The session that has seen `id` too.
unfoldable pub remembered : Text → Session → Session
remembered id s = record s {
  seen = if ltb 10000 (length (add id s.seen)) then trim_seen (add id s.seen) else add id s.seen;
}

module _ (p : Primitives) where
  unfoldable pub sealed : Session → ℕ → Chain → KeyPair → Text → Envelope
  sealed s draws c kp plaintext =
      let ad = associated_data s in
      let (msg_key, next) = next_message_key p c ad in
      let nonce = p.random_values draws 24 in
      record {
        header = record { dh = bytes_to_hex kp.public_key; pn = s.pn; ns = s.ns };
        ciphertext =
            to_base64 p (nonce ++ p.secretbox_encrypt (ad ++ p.encode plaintext) nonce msg_key);
      }

  unfoldable pub after_seal : State → Chain → State
  after_seal st c = record st {
    session = record st.session {
      cks = some (next_message_key p c (associated_data st.session)).1;
      ns = st.session.ns + 1;
    };
    draws = st.draws + 1;
  }

  pub ratchet_if_pending_quiet :
      (st : State)
      → (st.session.pending_send_ratchet && is_some st.session.dhr) ≡ false
      → ratchet_if_pending p st ≡ (done tt, st)
  unfolding ratchet_if_pending
  ratchet_if_pending_quiet st h = rw h refl

  pub ensure_chain_quiet :
      (st : State) (c : Chain) → st.session.cks ≡ some c → ensure_chain p st ≡ (done tt, st)
  unfolding ensure_chain
  ensure_chain_quiet st c h = rw h refl

  pub rotate_quiet :
      (st : State)
      → (is_worn st.session.cks && is_some st.session.ckr && is_some st.session.dhr) ≡ false
      → rotate p st ≡ (done tt, st)
  unfolding rotate
  rotate_quiet st h = rw h refl

  pub seal_lem :
      (st : State) (c : Chain) (kp : KeyPair) (plaintext : Text)
      → st.session.cks ≡ some c
      → st.session.dhs ≡ some kp
      → seal p plaintext st ≡ (done (sealed st.session st.draws c kp plaintext), after_seal st c)
  unfolding seal sealed after_seal
  seal_lem st c kp plaintext hc hd = ground arith

  pub encrypt_quiet :
      (st : State) (c : Chain) (kp : KeyPair) (plaintext : Text)
      → st.session.cks ≡ some c
      → st.session.dhs ≡ some kp
      → (st.session.pending_send_ratchet && is_some st.session.dhr) ≡ false
      → (is_worn st.session.cks && is_some st.session.ckr && is_some st.session.dhr) ≡ false
      → encrypt_message p plaintext st
        ≡ (done (sealed st.session st.draws c kp plaintext), after_seal st c)
  unfolding encrypt_message prepare
  encrypt_quiet st c kp plaintext hc hd hq hr =
      rw
        (
          ratchet_if_pending_quiet st hq,
          ensure_chain_quiet st c hc,
          rotate_quiet st hr,
          seal_lem st c kp plaintext hc hd,
        )
        refl

  same_prefix : (a b : Bytes) → same (take (length a) (a ++ b)) a ≡ true
  same_prefix a b = rw (take-append_self a b (length a) refl) (same_refl a)

  long_enough : (a b : Bytes) → ltb (length (a ++ b)) (length a) ≡ false
  long_enough a b = le→ltb _ _ (omega (arith, length-append a b))

  pub decrypt_with_key_lem :
      AreLawful p
      → (st : State) (e : Envelope) (key nonce : Bytes) (id plaintext : Text)
      → has id st.session.seen ≡ false
      → length nonce ≡ 24
      → p.decode (p.encode plaintext) ≡ plaintext
      → e.ciphertext
        ≡ to_base64 p (
            nonce
            ++ p.secretbox_encrypt (associated_data st.session ++ p.encode plaintext) nonce key)
      → decrypt_with_key p e key id st
        ≡ (done plaintext, record st { session = remembered id st.session })
  unfolding decrypt_with_key remembered
  decrypt_with_key_lem laws st e key nonce id plaintext new len utf sealed' =
      let ad = associated_data st.session in
      let message = ad ++ p.encode plaintext in
      let box = p.secretbox_encrypt message nonce key in
      rw
        (
          new,
          sealed',
          from_base64-to_base64 p laws (nonce ++ box),
          take-append_self nonce box 24 len,
          drop-append_self nonce box 24 len,
          laws.decrypt-encrypt message nonce key,
          long_enough ad (p.encode plaintext),
          same_prefix ad (p.encode plaintext),
          drop-append_self ad (p.encode plaintext) (length ad) refl,
          utf,
        )
        refl

  -- The receiving chain and the kept keys, moved up to message `n`.
  unfoldable pub caught_up : Session → Chain → Header → Chain × Assoc Bytes
  caught_up s c h = catch_up p (h.ns - c.step) h.dh (associated_data s) s.seen c s.skipped

  unfoldable pub after_advance : State → Chain → Header → State
  unfolding caught_up
  after_advance st c h = record st {
    session = record st.session {
      ckr = some (next_message_key p (caught_up st.session c h).0 (associated_data st.session)).1;
      skipped = (caught_up st.session c h).1;
    };
  }

  pub advance_lem :
      (st : State) (h : Header) (c : Chain)
      → st.session.ckr ≡ some c
      → c.step ≤ h.ns
      → h.ns - c.step ≤ max_skip_gap
      → advance p h st ≡ (
        done (next_message_key p (caught_up st.session c h).0 (associated_data st.session)).0,
        after_advance st c h,
      )
  unfolding advance after_advance
  advance_lem st h c hc past gap = rw (hc, le→ltb _ _ past, le→ltb _ _ gap) refl

  pub ratchet_if_new_quiet :
      (h : Header) (st : State) (q : Bytes)
      → st.session.dhr ≡ some q
      → hex_to_bytes h.dh ≡ q
      → ratchet_if_new p h st ≡ (done tt, st)
  unfolding ratchet_if_new
  ratchet_if_new_quiet h st q hd e = rw (hd, e, same_refl q) refl
