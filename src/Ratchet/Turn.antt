-- ===== src/Ratchet/Turn.antt =====
-- A ratchet step: the side whose turn it is makes a new pair, and the other side follows it.
use nur_chat.Prelude.{
  ℕ, ◌+◌, ◌≡◌, refl, ◌⊎◌, Bool, true, false, Option, none, some, arith, inl, inr, ap, sym, ◌∙◌,
  drop,
}
use mathlib.Core.Path.{subst}
use nur_chat.Text.{Text, Bytes}
use nur_chat.Text.Hex.{bytes_to_hex, hex_to_bytes, hex_to_bytes-bytes_to_hex}
use nur_chat.Assoc.{lookup}
use nur_chat.Exec.{Outcome, done}
use nur_chat.Ratchet.Primitives.{Primitives, KeyPair, AreLawful}
use nur_chat.Ratchet.Kdf.{Chain, box_before}
use nur_chat.Ratchet.Session.{
  Error, State, Header, Envelope, associated_data, associated_data_same, message_id, has,
}
use nur_chat.Ratchet.Steps.{
  is_some, ratchet_bytes, pair_to_send, after_send, after_recv, dh_ratchet_send, dh_ratchet_recv,
}
use nur_chat.Ratchet.Messages.{
  encrypt_message, decrypt_message, ratchet_if_pending, ensure_chain, prepare, is_worn, is_current,
  ratchet_if_new, decrypt_next,
}
use nur_chat.Ratchet.Calls.{sealed, encrypt_quiet, ratchet_if_pending_quiet, ratchet_if_new_quiet}
use nur_chat.Ratchet.Delivery.{Linked, IsQuiet, transmit, transmit_delivers}
use nur_chat.Ratchet.Replay.{ratchet_if_new_moves, decrypt_unkept}

-- The pair of the next sending step: the one made when the last key arrived, or a new one.
abbrev pub next_pair : Bool → Option KeyPair → KeyPair → KeyPair
next_pair true (some kp) new = kp
next_pair true none new = new
next_pair false o new = new

module _ (p : Primitives) where
  abbrev pub pair_of : State → KeyPair
  pair_of st = next_pair st.session.dh_fresh st.session.dhs (p.keygen st.draws)

  -- It is the sender's turn to step: its next pair is a new one to the receiver, both have one root
  -- key, and what the sender has of the receiver is the public half of the receiver's pair.
  pub record IsTurn (st rt : State) : Type 0 where
    pub remote : Bytes
    pub own : KeyPair
    pub secret : Bytes
    pub due :
        (st.session.pending_send_ratchet ≡ true)
        ⊎ ((st.session.pending_send_ratchet ≡ false)
            × (st.session.cks ≡ none)
            × (is_some st.session.ckr ≡ true))
    pub dhr : st.session.dhr ≡ some remote
    pub dhs : rt.session.dhs ≡ some own
    pub own_pair : p.get_public_key own.secret_key ≡ some remote
    pub next_valid : p.get_public_key (pair_of st).secret_key ≡ some (pair_of st).public_key
    pub shared : p.get_shared_secret (pair_of st).secret_key remote ≡ some secret
    pub same_root : st.session.rk ≡ rt.session.rk
    pub same_data : associated_data st.session ≡ associated_data rt.session
    pub is_new : is_current rt.session.dhr (pair_of st).public_key ≡ false
    pub unkept :
        (n : ℕ)
        → lookup (message_id (bytes_to_hex (pair_of st).public_key) n) rt.session.skipped ≡ none
    pub unseen :
        (n : ℕ) → has (message_id (bytes_to_hex (pair_of st).public_key) n) rt.session.seen ≡ false

  -- What choosing the pair leaves alone.
  pair_to_send_lem :
      (st : State)
      → ((pair_to_send p st.session.dh_fresh st.session.dhs st).0 ≡ done (pair_of st))
        × ((pair_to_send p st.session.dh_fresh st.session.dhs st).1.session.rk ≡ st.session.rk)
        × ((pair_to_send p st.session.dh_fresh st.session.dhs st).1.session.our_identity
            ≡ st.session.our_identity)
        × ((pair_to_send p st.session.dh_fresh st.session.dhs st).1.session.their_identity
            ≡ st.session.their_identity)
  unfolding pair_to_send
  pair_to_send_lem st = ground arith

  -- The sender behind its step.
  stepped : State → Bytes → State
  stepped st x =
      let st' = (pair_to_send p st.session.dh_fresh st.session.dhs st).1 in
      record st' { session = after_send p (pair_of st) x st'.session }

  dh_ratchet_send_lem :
      (st : State) (q x : Bytes)
      → st.session.dhr ≡ some q
      → p.get_shared_secret (pair_of st).secret_key q ≡ some x
      → dh_ratchet_send p st ≡ (done tt, stepped st x)
  unfolding dh_ratchet_send stepped box_before
  dh_ratchet_send_lem st q x hd hx = simp (hd, (pair_to_send_lem st).0, hx)

  -- The receiver behind the step that follows.
  followed : State → Bytes → KeyPair → Bytes → State
  followed rt theirs own x = record {
    session = record (after_recv p theirs own x rt.session) {
      dhs = some (p.keygen rt.draws);
      dh_fresh = true;
      pending_send_ratchet = true;
    };
    draws = rt.draws + 1;
  }

  dh_ratchet_recv_lem :
      (rt : State) (theirs : Bytes) (own : KeyPair) (x : Bytes)
      → rt.session.dhs ≡ some own
      → p.get_shared_secret own.secret_key theirs ≡ some x
      → dh_ratchet_recv p theirs rt ≡ (done tt, followed rt theirs own x)
  unfolding dh_ratchet_recv followed box_before
  dh_ratchet_recv_lem rt theirs own x hd hx = rw (hd, hx) refl

  -- Behind its step the sender has nothing more to step.
  stepped-IsQuiet : (st : State) (x : Bytes) → IsQuiet (stepped st x).session
  unfolding stepped after_send is_worn
  stepped-IsQuiet st x = record { settled = refl; fresh = refl }

  ratchet_if_pending_lem :
      (st : State) (q x : Bytes)
      → st.session.pending_send_ratchet ≡ true
      → st.session.dhr ≡ some q
      → p.get_shared_secret (pair_of st).secret_key q ≡ some x
      → ratchet_if_pending p st ≡ (done tt, stepped st x)
  unfolding ratchet_if_pending
  ratchet_if_pending_lem st q x hp hd hx =
      simp (hp, hd, dh_ratchet_send_lem st q x hd hx) (unfold stepped after_send in refl)

  ensure_chain_lem :
      (st : State) (q x : Bytes)
      → st.session.cks ≡ none
      → is_some st.session.ckr ≡ true
      → st.session.dhr ≡ some q
      → p.get_shared_secret (pair_of st).secret_key q ≡ some x
      → ensure_chain p st ≡ (done tt, stepped st x)
  unfolding ensure_chain
  ensure_chain_lem st q x hc hr hd hx = simp (hc, hr, hd, dh_ratchet_send_lem st q x hd hx)

  prepare-stepped : (st : State) (x : Bytes) → prepare p (stepped st x) ≡ (done tt, stepped st x)
  unfolding prepare stepped after_send ratchet_if_pending ensure_chain
  prepare-stepped st x = refl

  ensure_chain-stepped :
      (st : State) (x : Bytes) → ensure_chain p (stepped st x) ≡ (done tt, stepped st x)
  unfolding stepped after_send ensure_chain
  ensure_chain-stepped st x = refl

  prepare_lem : (st rt : State) (t : IsTurn st rt) → prepare p st ≡ (done tt, stepped st t.secret)
  unfolding prepare
  prepare_lem st rt t = elim t.due [
    | inl pending ↦
        rw (ratchet_if_pending_lem st t.remote t.secret pending t.dhr t.shared)
          (ensure_chain-stepped st t.secret)
    | inr (settled, no_chain, chain) ↦
        rw
          (
            ratchet_if_pending_quiet p st (rw settled refl),
            ensure_chain_lem st t.remote t.secret no_chain chain t.dhr t.shared,
          )
          refl
  ]

  encrypt_prepared :
      (st st' : State) (plaintext : Text)
      → prepare p st ≡ (done tt, st')
      → prepare p st' ≡ (done tt, st')
      → encrypt_message p plaintext st ≡ encrypt_message p plaintext st'
  unfolding encrypt_message
  encrypt_prepared st st' plaintext e e' = rw (e, e') refl

  -- `encryptMessage` makes the step and goes on as it would behind it.
  encrypt_stepped :
      (st rt : State) (t : IsTurn st rt) (plaintext : Text)
      → encrypt_message p plaintext st ≡ encrypt_message p plaintext (stepped st t.secret)
  encrypt_stepped st rt t plaintext =
      encrypt_prepared st _ plaintext (prepare_lem st rt t) (prepare-stepped st t.secret)

  stepped_cks :
      (st : State) (x : Bytes)
      → (stepped st x).session.cks
        ≡ some (record { key = drop 32 (ratchet_bytes p st.session.rk x); step = 0 })
  unfolding stepped after_send
  stepped_cks st x = rw (pair_to_send_lem st).1 refl

  stepped_dhs : (st : State) (x : Bytes) → (stepped st x).session.dhs ≡ some (pair_of st)
  unfolding stepped after_send
  stepped_dhs st x = refl

  followed-Linked :
      AreLawful p
      → (st rt : State) (t : IsTurn st rt)
      → Linked
          (stepped st t.secret).session
          (followed rt (pair_of st).public_key t.own t.secret).session
  unfolding stepped followed after_send after_recv
  followed-Linked laws st rt t =
      let (_, same_root', same_ours, same_theirs) = pair_to_send_lem st in
      record {
        chain = record { key = drop 32 (ratchet_bytes p st.session.rk t.secret); step = 0 };
        pair = pair_of st;
        cks = rw same_root' refl;
        ckr = rw t.same_root refl;
        step = refl;
        dhs = refl;
        dhr = refl;
        bytes = laws.public_bytes _ _ t.next_valid;
        same_data =
            associated_data_same _ st.session same_ours same_theirs
            ∙ t.same_data
            ∙ associated_data_same rt.session _ refl refl;
        unkept = λ n h. t.unkept n;
        unseen = λ n h. t.unseen n;
      }

  ratchet_if_new_lem :
      AreLawful p
      → (st rt : State) (t : IsTurn st rt) (h : Header)
      → hex_to_bytes h.dh ≡ (pair_of st).public_key
      → ratchet_if_new p h rt ≡ (done tt, followed rt (pair_of st).public_key t.own t.secret)
  unfolding followed after_recv
  ratchet_if_new_lem laws st rt t h hex =
      let q = (pair_of st).public_key in
      let agreed : p.get_shared_secret t.own.secret_key q ≡ some t.secret =
        laws.agreement t.own.secret_key (pair_of st).secret_key _ _ t.own_pair t.next_valid
        ∙ t.shared in
      let rt' : State = record rt { session = record rt.session { pn = h.pn } } in
      ratchet_if_new_moves p h rt (ap (is_current rt.session.dhr) hex ∙ t.is_new)
      ∙ ap (λ x. dh_ratchet_recv p x rt') hex
      ∙ dh_ratchet_recv_lem rt' q t.own t.secret t.dhs agreed

  decrypt_next_from :
      (e : Envelope) (id : Text) (st st' : State)
      → ratchet_if_new p e.header st ≡ (done tt, st')
      → ratchet_if_new p e.header st' ≡ (done tt, st')
      → decrypt_next p e id st ≡ decrypt_next p e id st'
  unfolding decrypt_next
  decrypt_next_from e id st st' moves stays = rw (moves, stays) refl

  -- `decryptMessage` follows the step and goes on as it would behind it.
  decrypt_followed :
      AreLawful p
      → (st rt : State) (t : IsTurn st rt) (e : Envelope)
      → e.header.dh ≡ bytes_to_hex (pair_of st).public_key
      → decrypt_message p e rt
        ≡ decrypt_message p e (followed rt (pair_of st).public_key t.own t.secret)
  decrypt_followed laws st rt t e hd =
      let q = (pair_of st).public_key in
      let unkept : (n : ℕ) → lookup (message_id e.header.dh n) rt.session.skipped ≡ none =
        λ n. rw hd (t.unkept n) in
      let hex : hex_to_bytes e.header.dh ≡ q =
        ap hex_to_bytes hd ∙ hex_to_bytes-bytes_to_hex q (laws.public_bytes _ _ t.next_valid) in
      let id = message_id e.header.dh e.header.ns in
      decrypt_unkept p e rt (unkept e.header.ns)
      ∙ decrypt_next_from e id rt (followed rt q t.own t.secret)
          (ratchet_if_new_lem laws st rt t e.header hex)
          (ratchet_if_new_quiet p e.header (followed rt q t.own t.secret) q
            (unfold followed after_recv in refl) hex)
      ∙ sym (
          decrypt_unkept p e (followed rt q t.own t.secret)
            (unfold followed after_recv in unkept e.header.ns))

  transmit-stepped :
      AreLawful p
      → (st rt : State) (plaintext : Text) (t : IsTurn st rt)
      → transmit p plaintext st rt
        ≡ transmit p plaintext
            (stepped st t.secret)
            (followed rt (pair_of st).public_key t.own t.secret)
  unfolding transmit
  transmit-stepped laws st rt plaintext t =
      let q = stepped-IsQuiet st t.secret in
      let st' = stepped st t.secret in
      let c : Chain = record { key = drop 32 (ratchet_bytes p st.session.rk t.secret); step = 0 } in
      rw
        (
          encrypt_stepped st rt t plaintext,
          encrypt_quiet p st' c (pair_of st) plaintext (stepped_cks st t.secret)
              (stepped_dhs st t.secret) q.settled q.fresh,
        )
        (cc (
          decrypt_followed laws st rt t (sealed p st'.session st'.draws c (pair_of st) plaintext)
            (unfold sealed in refl)))

  -- Over lawful primitives, when it is the sender's turn, so that its next message makes a
  -- ratchet step to a key that is new to the receiver, a text that UTF-8 gives back is decrypted
  -- to the same text: both derive one chain from the step, and they are linked for the next
  -- message.
  pub turn_delivers :
      AreLawful p
      → (st rt : State) (plaintext : Text) → IsTurn st rt
      → p.decode (p.encode plaintext) ≡ plaintext
      → ((transmit p plaintext st rt).0 ≡ done plaintext)
        × Linked (transmit p plaintext st rt).1.session (transmit p plaintext st rt).2.session
  turn_delivers laws st rt plaintext t utf =
      subst
        (λ (r : Outcome Error Text × State × State).
          (r.0 ≡ done plaintext) × Linked r.1.session r.2.session)
        (sym (transmit-stepped laws st rt plaintext t))
        (transmit_delivers p laws (stepped st t.secret)
          (followed rt (pair_of st).public_key t.own t.secret) plaintext
          (followed-Linked laws st rt t) (stepped-IsQuiet st t.secret) utf)
