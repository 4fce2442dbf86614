-- ===== src/Ratchet/Replay.antt =====
-- A message that was read is not read again.
use nur_chat.Prelude.{
  ℕ, zero, suc, ◌+◌, ◌-◌, ◌≤◌, ◌<◌, ◌≡◌, refl, ◌≢◌, true, false, Option, none, some, List, [], ◌∷◌,
  arith, ltb, inl, inr, Bool-cases, Option-cases, ap, sym, ◌∙◌, lt→ltb, ltb→le,
}
use mathlib.Core.Path.{subst}
use nur_chat.Text.{Text, Bytes, same_refl, same_iff}
use nur_chat.Text.Hex.{hex_to_bytes}
use nur_chat.Assoc.{Assoc, lookup, insert, lookup-insert_ne, lookup-remove}
use nur_chat.Exec.{done, thrown, >>=-done}
use nur_chat.Ratchet.Primitives.{Primitives}
use nur_chat.Ratchet.Kdf.{Chain, next_message_key, step-next_message_key}
use nur_chat.Ratchet.Session.{
  Session, State, Header, Envelope, message_id, in_the_past, no_receiving_chain, gap_too_large,
  replay, max_skip_gap, associated_data, has,
}
use nur_chat.Ratchet.Steps.{dh_ratchet_recv}
use nur_chat.Ratchet.Messages.{
  decrypt_message, catch_up, keep_skipped, evict, is_current, ratchet_if_new, advance, decrypt_next,
  decrypt_skipped, decrypt_with_key,
}
use nur_chat.Ratchet.Calls.{ratchet_if_new_quiet, advance_lem, caught_up, after_advance}
use nur_chat.Ratchet.Ids.{message_id_injective, has-add}

-- The receiving chain of the header's key is behind the header's message, and its key is not kept.
pub record IsPast (h : Header) (s : Session) : Type 0 where
  pub chain : Chain
  pub ckr : s.ckr ≡ some chain
  pub behind : h.ns < chain.step
  pub dhr : s.dhr ≡ some (hex_to_bytes h.dh)
  pub unkept : lookup (message_id h.dh h.ns) s.skipped ≡ none

lookup-evict : (j : Text) (m : Assoc Bytes) → lookup j m ≡ none → lookup j (evict m) ≡ none
unfolding evict
lookup-evict j [] h = h
lookup-evict j ((k, v) ∷ m) h = ground (arith, lookup-remove k j ((k, v) ∷ m))

lookup-keep_skipped :
    (id j : Text) (key : Bytes) (seen : List Text) (m : Assoc Bytes)
    → id ≢ j
    → lookup j m ≡ none
    → lookup j (keep_skipped id key seen m) ≡ none
unfolding keep_skipped
lookup-keep_skipped id j key seen m ne h =
    ground (arith, lookup-evict j (insert id key m), lookup-insert_ne id j key m)

some_of_current : (o : Option Bytes) (q : Bytes) → is_current o q ≡ true → o ≡ some q
some_of_current none q h = cc
some_of_current (some r) q h = ap some ((same_iff r q).0 h)

module _ (p : Primitives) where
  catch_up-step :
      (n : ℕ) (dh : Text) (ad : Bytes) (seen : List Text) (c : Chain) (m : Assoc Bytes)
      → (catch_up p n dh ad seen c m).0.step ≡ c.step + n
  unfolding catch_up next_message_key
  catch_up-step zero dh ad seen c m = omega arith
  catch_up-step (suc n) dh ad seen c m = omega (
    arith,
    catch_up-step n dh ad seen (next_message_key p c ad).1
        (keep_skipped (message_id dh (c.step + 1 - 1)) (next_message_key p c ad).0 seen m),
  )

  catch_up-unkept :
      (n k : ℕ) (dh : Text) (ad : Bytes) (seen : List Text) (c : Chain) (m : Assoc Bytes)
      → c.step + n ≤ k
      → lookup (message_id dh k) m ≡ none
      → lookup (message_id dh k) (catch_up p n dh ad seen c m).1 ≡ none
  unfolding catch_up next_message_key
  catch_up-unkept zero k dh ad seen c m le h = h
  catch_up-unkept (suc n) k dh ad seen c m le h =
      catch_up-unkept n k dh ad seen (next_message_key p c ad).1 _ (omega arith) (
        lookup-keep_skipped (message_id dh (c.step + 1 - 1)) (message_id dh k) _ seen m
          (λ e. absurd (omega (arith, message_id_injective dh _ _ e))) h)

  dh_ratchet_recv_done :
      (theirs : Bytes) (st st' : State)
      → dh_ratchet_recv p theirs st ≡ (done tt, st')
      → (st'.session.dhr ≡ some theirs) × (st'.session.skipped ≡ st.session.skipped)
  unfolding dh_ratchet_recv
  dh_ratchet_recv_done theirs st st' e = ground arith

  pub ratchet_if_new_moves :
      (h : Header) (st : State)
      → is_current st.session.dhr (hex_to_bytes h.dh) ≡ false
      → ratchet_if_new p h st
        ≡ dh_ratchet_recv p
            (hex_to_bytes h.dh)
            (record st { session = record st.session { pn = h.pn } })
  unfolding ratchet_if_new
  ratchet_if_new_moves h st new = rw new (ground arith)

  ratchet_if_new_done :
      (h : Header) (st st' : State)
      → ratchet_if_new p h st ≡ (done tt, st')
      → (st'.session.dhr ≡ some (hex_to_bytes h.dh)) × (st'.session.skipped ≡ st.session.skipped)
  ratchet_if_new_done h st st' e =
      elim (Bool-cases (is_current st.session.dhr (hex_to_bytes h.dh))) [
        | inl old ↦
            let hd : st.session.dhr ≡ some (hex_to_bytes h.dh) = some_of_current _ _ old in
            let same_state : st ≡ st' =
              ap (λ r. r.1) (sym (ratchet_if_new_quiet p h st _ hd refl) ∙ e) in
            subst
              (λ (t : State).
                (t.session.dhr ≡ some (hex_to_bytes h.dh))
                × (t.session.skipped ≡ st.session.skipped))
              same_state (hd, refl)
        | inr new ↦
            dh_ratchet_recv_done (hex_to_bytes h.dh)
              (record st { session = record st.session { pn = h.pn } }) st'
              (sym (ratchet_if_new_moves h st new) ∙ e)
      ]

  advance_no_chain :
      (h : Header) (st : State)
      → st.session.ckr ≡ none
      → advance p h st ≡ (thrown no_receiving_chain, st)
  unfolding advance
  advance_no_chain h st hc = rw hc refl

  pub advance_past :
      (h : Header) (st : State) (c : Chain)
      → st.session.ckr ≡ some c
      → ltb h.ns c.step ≡ true
      → advance p h st ≡ (thrown in_the_past, st)
  unfolding advance
  advance_past h st c hc past = rw (hc, past) refl

  pub advance_far :
      (h : Header) (st : State) (c : Chain)
      → st.session.ckr ≡ some c
      → ltb h.ns c.step ≡ false
      → ltb max_skip_gap (h.ns - c.step) ≡ true
      → advance p h st ≡ (thrown gap_too_large, st)
  unfolding advance
  advance_far h st c hc next far = rw (hc, next, far) refl

  after_advance-IsPast :
      (h : Header) (st : State) (c : Chain)
      → c.step ≤ h.ns
      → st.session.dhr ≡ some (hex_to_bytes h.dh)
      → lookup (message_id h.dh h.ns) st.session.skipped ≡ none
      → IsPast h (after_advance p st c h).session
  unfolding after_advance caught_up
  after_advance-IsPast h st c le hd hs = record {
    chain = (next_message_key p (caught_up p st.session c h).0 (associated_data st.session)).1;
    ckr = refl;
    behind =
        let ad = associated_data st.session in
        omega (
          arith,
          step-next_message_key p (caught_up p st.session c h).0 ad,
          catch_up-step (h.ns - c.step) h.dh ad st.session.seen c st.session.skipped,
        );
    dhr = hd;
    unkept =
        catch_up-unkept (h.ns - c.step) h.ns h.dh (associated_data st.session) st.session.seen c
          st.session.skipped (omega arith) hs;
  }

  advance_done :
      (h : Header) (st st' : State) (key : Bytes)
      → advance p h st ≡ (done key, st')
      → st.session.dhr ≡ some (hex_to_bytes h.dh)
      → lookup (message_id h.dh h.ns) st.session.skipped ≡ none
      → IsPast h st'.session
  advance_done h st st' key e hd hs = elim (Option-cases st.session.ckr) [
    | inl hc ↦ absurd (ground (arith, advance_no_chain h st hc))
    | inr (c, hc) ↦ elim (Bool-cases (ltb h.ns c.step)) [
      | inl past ↦ absurd (ground (arith, advance_past h st c hc past))
      | inr next ↦ elim (Bool-cases (ltb max_skip_gap (h.ns - c.step))) [
        | inl far ↦ absurd (ground (arith, advance_far h st c hc next far))
        | inr near ↦
            subst (λ (t : State). IsPast h t.session)
              (ap (λ r. r.1)
                (sym (advance_lem p st h c hc (ltb→le _ _ next) (ltb→le _ _ near)) ∙ e))
              (after_advance-IsPast h st c (ltb→le _ _ next) hd hs)
      ]
    ]
  ]

  decrypt_with_key_kept :
      (e : Envelope) (key : Bytes) (id : Text) (st : State)
      → ((decrypt_with_key p e key id st).1.session.ckr ≡ st.session.ckr)
        × ((decrypt_with_key p e key id st).1.session.dhr ≡ st.session.dhr)
        × ((decrypt_with_key p e key id st).1.session.skipped ≡ st.session.skipped)
  unfolding decrypt_with_key
  decrypt_with_key_kept e key id st = ground arith

  IsPast-decrypt_with_key :
      (h : Header) (e : Envelope) (key : Bytes) (id : Text) (st : State)
      → IsPast h st.session
      → IsPast h (decrypt_with_key p e key id st).1.session
  IsPast-decrypt_with_key h e key id st past =
      let (kc, kd, ks) = decrypt_with_key_kept e key id st in
      record {
        chain = past.chain;
        ckr = kc ∙ past.ckr;
        behind = past.behind;
        dhr = kd ∙ past.dhr;
        unkept = ap (lookup (message_id h.dh h.ns)) ks ∙ past.unkept;
      }

  decrypt_next-IsPast :
      (e : Envelope) (id t : Text) (st st' : State)
      → lookup (message_id e.header.dh e.header.ns) st.session.skipped ≡ none
      → decrypt_next p e id st ≡ (done t, st')
      → IsPast e.header st'.session
  unfolding decrypt_next
  decrypt_next-IsPast e id t st st' hs h =
      let (u, st1, h1, rest) = >>=-done (ratchet_if_new p e.header) _ st st' t h in
      let (key, st2, h2, last) = >>=-done (advance p e.header) _ st1 st' t rest in
      let (hd, kept) = ratchet_if_new_done e.header st st1 h1 in
      let past =
        advance_done e.header st1 st2 key h2 hd
          (ap (lookup (message_id e.header.dh e.header.ns)) kept ∙ hs) in
      subst (λ (s : State). IsPast e.header s.session) (ap (λ r. r.1) last)
        (IsPast-decrypt_with_key e.header e key id st2 past)

  pub decrypt_unkept :
      (e : Envelope) (st : State)
      → lookup (message_id e.header.dh e.header.ns) st.session.skipped ≡ none
      → decrypt_message p e st ≡ decrypt_next p e (message_id e.header.dh e.header.ns) st
  unfolding decrypt_message
  decrypt_unkept e st hs = rw hs refl

  -- `decryptMessage` on a message whose key is past: it throws, and changes nothing.
  pub decrypt_past :
      (e : Envelope) (st : State)
      → IsPast e.header st.session
      → decrypt_message p e st ≡ (thrown in_the_past, st)
  unfolding decrypt_message decrypt_next
  decrypt_past e st past =
      rw
        (
          past.unkept,
          ratchet_if_new_quiet p e.header st (hex_to_bytes e.header.dh) past.dhr refl,
          advance_past e.header st past.chain past.ckr (lt→ltb _ _ past.behind),
        )
        refl

  -- A message whose key was kept when later messages overtook it is never read: its id is added to
  -- the ids seen just before the test that throws on an id that was seen.
  pub decrypt_skipped_fails :
      (e : Envelope) (st : State) (key : Bytes)
      → lookup (message_id e.header.dh e.header.ns) st.session.skipped ≡ some key
      → (decrypt_message p e st).0 ≡ thrown replay
  unfolding decrypt_message decrypt_skipped
  decrypt_skipped_fails e st key hs =
      let id = message_id e.header.dh e.header.ns in
      elim (Bool-cases (has id st.session.seen)) [
        | inl old ↦ rw (hs, old) refl
        | inr new ↦ rw (hs, new, has-add id id st.session.seen, same_refl id) refl
      ]

  -- A message that was read leaves the session past it.
  decrypt-IsPast :
      (e : Envelope) (t : Text) (st st' : State)
      → decrypt_message p e st ≡ (done t, st')
      → IsPast e.header st'.session
  decrypt-IsPast e t st st' h =
      elim (Option-cases (lookup (message_id e.header.dh e.header.ns) st.session.skipped)) [
        | inl none' ↦ decrypt_next-IsPast e _ t st st' none' (sym (decrypt_unkept e st none') ∙ h)
        | inr (key, kept) ↦ absurd (ground (arith, decrypt_skipped_fails e st key kept))
      ]

  -- In the state in which the reading of a message leaves a session, every envelope with the header of that
  -- message is refused, whatever its content, and this changes nothing.
  pub replay_refused :
      (e e' : Envelope) (t : Text) (st st' : State)
      → decrypt_message p e st ≡ (done t, st')
      → e'.header ≡ e.header
      → decrypt_message p e' st' ≡ (thrown in_the_past, st')
  replay_refused e e' t st st' h same_header =
      decrypt_past e' st'
        (subst (λ hd. IsPast hd st'.session) (sym same_header) (decrypt-IsPast e t st st' h))
