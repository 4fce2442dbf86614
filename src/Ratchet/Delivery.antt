-- ===== src/Ratchet/Delivery.antt =====
-- A message that the sender encrypts is the message that the receiver reads.
use nur_chat.Prelude.{
  ℕ, ◌+◌, ◌-◌, ◌≤◌, ◌≡◌, refl, false, ◌&&◌, none, some, ◌++◌, arith, ltb, length, inl, inr,
  Bool-cases, ap, ◌∙◌,
}
use nur_chat.Text.{Text, Bytes, same}
use nur_chat.Text.Hex.{AreBytes, bytes_to_hex, hex_to_bytes, hex_to_bytes-bytes_to_hex}
use nur_chat.Assoc.{lookup}
use nur_chat.Exec.{Outcome, done, thrown}
use nur_chat.Ratchet.Primitives.{Primitives, KeyPair, AreLawful}
use nur_chat.Ratchet.Kdf.{Chain, next_message_key, to_base64}
use nur_chat.Ratchet.Session.{
  Error, Session, State, Header, Envelope, associated_data, associated_data_same, message_id, has,
  add, max_skip_gap,
}
use nur_chat.Ratchet.Steps.{is_some}
use nur_chat.Ratchet.Messages.{encrypt_message, decrypt_message, catch_up, is_worn, decrypt_next}
use nur_chat.Ratchet.Calls.{
  sealed, after_seal, encrypt_quiet, remembered, decrypt_with_key_lem, caught_up, after_advance,
  advance_lem, ratchet_if_new_quiet,
}
use nur_chat.Ratchet.Ids.{message_id_ne, has-add, has-trim_seen}

-- The sender's chain is the receiver's, at the sender's number, and no later message of the chain
-- is kept or seen by the receiver.
pub record Linked (s r : Session) : Type 0 where
  pub chain : Chain
  pub pair : KeyPair
  pub cks : s.cks ≡ some chain
  pub ckr : r.ckr ≡ some chain
  pub step : s.ns ≡ chain.step
  pub dhs : s.dhs ≡ some pair
  pub dhr : r.dhr ≡ some pair.public_key
  pub bytes : AreBytes pair.public_key
  pub same_data : associated_data s ≡ associated_data r
  pub unkept :
      (n : ℕ) → s.ns ≤ n → lookup (message_id (bytes_to_hex pair.public_key) n) r.skipped ≡ none
  pub unseen : (n : ℕ) → s.ns ≤ n → has (message_id (bytes_to_hex pair.public_key) n) r.seen ≡ false

-- Whether the next `encryptMessage` makes no ratchet step.
pub record IsQuiet (s : Session) : Type 0 where
  pub settled : (s.pending_send_ratchet && is_some s.dhr) ≡ false
  pub fresh : (is_worn s.cks && is_some s.ckr && is_some s.dhr) ≡ false

pub has-remembered :
    (k j : Text) (s : Session)
    → same k j ≡ false
    → has j s.seen ≡ false
    → has j (remembered k s).seen ≡ false
unfolding remembered
has-remembered k j s ne new = elim (Bool-cases (ltb 10000 (length (add k s.seen)))) [
  | inl long ↦ rw long (has-trim_seen j (add k s.seen) (rw (has-add, ne) new))
  | inr short ↦ rw short (rw (has-add, ne) new)
]

module _ (p : Primitives) where
  -- What one side encrypts, the other side decrypts.
  unfoldable pub received :
      Outcome Error Envelope → State → State → Outcome Error Text × State × State
  received (thrown e) st rt = (thrown e, st, rt)
  received (done envelope) st rt = let (o, rt') = decrypt_message p envelope rt in (o, st, rt')

  unfoldable pub transmit : Text → State → State → Outcome Error Text × State × State
  unfolding received
  transmit plaintext st rt = let (o, st') = encrypt_message p plaintext st in received o st' rt

  after_advance_data :
      (st : State) (c : Chain) (h : Header)
      → associated_data (after_advance p st c h).session ≡ associated_data st.session
  unfolding after_advance associated_data
  after_advance_data st c h = refl

  after_advance_seen :
      (st : State) (c : Chain) (h : Header)
      → (after_advance p st c h).session.seen ≡ st.session.seen
  unfolding after_advance
  after_advance_seen st c h = refl

  -- A new message of the current receiving chain is read, whatever messages it passes over.
  pub decrypt_next_lem :
      AreLawful p
      → (rt : State) (e : Envelope) (c : Chain) (q nonce : Bytes) (id plaintext : Text)
      → rt.session.dhr ≡ some q
      → hex_to_bytes e.header.dh ≡ q
      → rt.session.ckr ≡ some c
      → c.step ≤ e.header.ns
      → e.header.ns - c.step ≤ max_skip_gap
      → has id rt.session.seen ≡ false
      → length nonce ≡ 24
      → p.decode (p.encode plaintext) ≡ plaintext
      → e.ciphertext
        ≡ to_base64 p (
            nonce
            ++ p.secretbox_encrypt
                (associated_data rt.session ++ p.encode plaintext)
                nonce
                (next_message_key p
                  (caught_up p rt.session c e.header).0
                  (associated_data rt.session)).0)
      → decrypt_next p e id rt ≡ (
        done plaintext,
        record (after_advance p rt c e.header) {
          session = remembered id (after_advance p rt c e.header).session;
        },
      )
  unfolding decrypt_next
  decrypt_next_lem laws rt e c q nonce id plaintext hq hx hc past gap new len utf text =
      rw
        (
          ratchet_if_new_quiet p e.header rt q hq hx,
          advance_lem p rt e.header c hc past gap,
          decrypt_with_key_lem p laws (after_advance p rt c e.header) e
              (next_message_key p (caught_up p rt.session c e.header).0
                (associated_data rt.session)).0
              nonce id plaintext (ap (has id) (after_advance_seen rt c e.header) ∙ new) len utf
              (rw (after_advance_data rt c e.header) text),
        )
        refl

  caught_up_at_once :
      (s : Session) (c : Chain) (h : Header) → h.ns ≡ c.step → caught_up p s c h ≡ (c, s.skipped)
  unfolding caught_up catch_up
  caught_up_at_once s c h e = let z : h.ns - c.step ≡ 0 = omega arith in rw z refl

  -- The receiver's state behind the delivery of the next message of the chain.
  pub after_receipt : State → Chain → Text → State
  after_receipt rt c id = record rt {
    session =
        remembered id
          (record rt.session { ckr = some (next_message_key p c (associated_data rt.session)).1 });
  }

  after_advance_at_once :
      (rt : State) (c : Chain) (h : Header) (id : Text)
      → h.ns ≡ c.step
      → record (after_advance p rt c h) { session = remembered id (after_advance p rt c h).session }
        ≡ after_receipt rt c id
  unfolding after_advance after_receipt
  after_advance_at_once rt c h id e = rw (caught_up_at_once rt.session c h e) refl

  -- The message that the sender seals is read.
  pub decrypt_sealed :
      AreLawful p
      → (st rt : State) (plaintext : Text) (l : Linked st.session rt.session)
      → p.decode (p.encode plaintext) ≡ plaintext
      → decrypt_message p (sealed p st.session st.draws l.chain l.pair plaintext) rt ≡ (
        done plaintext,
        after_receipt rt l.chain (message_id (bytes_to_hex l.pair.public_key) st.session.ns),
      )
  unfolding decrypt_message sealed
  decrypt_sealed laws st rt plaintext l utf =
      let id = message_id (bytes_to_hex l.pair.public_key) st.session.ns in
      let e = sealed p st.session st.draws l.chain l.pair plaintext in
      rw
        (
          l.unkept st.session.ns (omega arith),
          decrypt_next_lem laws rt e l.chain l.pair.public_key (p.random_values st.draws 24) id
              plaintext l.dhr (hex_to_bytes-bytes_to_hex l.pair.public_key l.bytes) l.ckr
              (omega (arith, l.step)) (omega (arith, l.step)) (l.unseen st.session.ns (omega arith))
              (laws.random_length st.draws 24) utf
              (rw (caught_up_at_once rt.session l.chain e.header l.step, ← l.same_data) refl),
        )
        (ap (λ s. (done plaintext, s)) (after_advance_at_once rt l.chain e.header id l.step))

  step-next :
      (c : Chain) (n : ℕ) (ad : Bytes) → n ≡ c.step → n + 1 ≡ (next_message_key p c ad).1.step
  unfolding next_message_key
  step-next c n ad h = omega arith

  pub after_seal-Linked :
      (st rt : State) (l : Linked st.session rt.session)
      → Linked
          (after_seal p st l.chain).session
          (after_receipt rt l.chain
            (message_id (bytes_to_hex l.pair.public_key) st.session.ns)).session
  unfolding after_seal after_receipt remembered
  after_seal-Linked st rt l = record {
    chain = (next_message_key p l.chain (associated_data st.session)).1;
    pair = l.pair;
    cks = refl;
    ckr = rw l.same_data refl;
    step = step-next l.chain st.session.ns (associated_data st.session) l.step;
    dhs = l.dhs;
    dhr = l.dhr;
    bytes = l.bytes;
    same_data =
        associated_data_same _ st.session refl refl
        ∙ l.same_data
        ∙ associated_data_same rt.session _ refl refl;
    unkept = λ n h. l.unkept n (omega arith);
    unseen = λ n h.
        has-remembered _ (message_id (bytes_to_hex l.pair.public_key) n) rt.session
          (message_id_ne (bytes_to_hex l.pair.public_key) st.session.ns n (omega arith))
          (l.unseen n (omega arith));
  }

  -- The run of one message, in closed form.
  pub transmit_lem :
      AreLawful p
      → (st rt : State) (plaintext : Text) (l : Linked st.session rt.session) → IsQuiet st.session
      → p.decode (p.encode plaintext) ≡ plaintext
      → transmit plaintext st rt ≡ (
        done plaintext,
        after_seal p st l.chain,
        after_receipt rt l.chain (message_id (bytes_to_hex l.pair.public_key) st.session.ns),
      )
  unfolding transmit
  transmit_lem laws st rt plaintext l q utf =
      rw
        (
          encrypt_quiet p st l.chain l.pair plaintext l.cks l.dhs q.settled q.fresh,
          decrypt_sealed laws st rt plaintext l utf,
        )
        refl

  -- Over lawful primitives and from linked sessions, what the sender encrypts when no ratchet
  -- step is due, the receiver decrypts to the same text, for a text that UTF-8 gives back, and
  -- the two stay linked for the next message.
  pub transmit_delivers :
      AreLawful p
      → (st rt : State) (plaintext : Text) → Linked st.session rt.session
      → IsQuiet st.session
      → p.decode (p.encode plaintext) ≡ plaintext
      → ((transmit plaintext st rt).0 ≡ done plaintext)
        × Linked (transmit plaintext st rt).1.session (transmit plaintext st rt).2.session
  transmit_delivers laws st rt plaintext l q utf =
      rw (transmit_lem laws st rt plaintext l q utf) (refl, after_seal-Linked st rt l)
