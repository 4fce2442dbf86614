-- ===== src/E2e/Invalidation.antt =====
-- `invalidateSessionsForUser` and the drop of a stale session.
use nur_chat.Prelude.{
  ◌≡◌, refl, ◌-◌, ◌≤◌, Bool, true, false, ◌&&◌, ◌||◌, Option, none, some, List, [], ◌∷◌, ◌∙◌, ap,
  sym, arith, if◌then◌else◌, Bool-cases, inl, inr,
}
use nur_chat.Text.{Text, Bytes, same, same_iff}
use nur_chat.Assoc.{Assoc, AreDistinct, lookup, remove, lookup-remove, lookup-insert}
use nur_chat.Text.Hex.{hex_to_bytes}
use nur_chat.Ratchet.Kdf.{Chain, from_base64}
use nur_chat.Ratchet.Session
use nur_chat.Ratchet.Session.{
  Session, Error, Envelope, associated_data, message_id, has, max_skip_gap,
}
use nur_chat.Ratchet.Messages
use nur_chat.Ratchet.Refusal.{IsRefusal, is_bound, payload_of, key_for, decrypt_message_refused}
use nur_chat.E2e.Calls.{after_call}
use nur_chat.Exec.{done, thrown}
use nur_chat.Ratchet.Primitives.{Primitives}
use nur_chat.SecureStorage.{Aes}
use nur_chat.E2e.{Signatures, Codecs, E2eKeys, EncryptedEnvelope, State, ratchet, ratchet_state}
use nur_chat.E2e.Sessions.{
  chats_of, remove_all, drop_user, persist_quietly, remove_session, invalidate_sessions_for_user,
}
use nur_chat.E2e.Messages.{
  is_stale, cached_text, cache_key, caught, cached_or_decrypted, decrypt_and_verify,
  decrypt_message, open_text, session_to_decrypt,
}
use nur_chat.E2e.Keeps.{persist_quietly-Keeps}

abbrev pub is_peer : Text → Option Text → Bool
is_peer user none = false
is_peer user (some peer) = same peer user

abbrev listed : Text → List Text → Bool
listed chat [] = false
listed chat (k ∷ ks) = same k chat || listed chat ks

listed-chats_of-none :
    (user chat : Text) (peers : Assoc Text)
    → lookup chat peers ≡ none
    → listed chat (chats_of user peers) ≡ false
unfolding lookup chats_of
listed-chats_of-none user chat [] h = refl
listed-chats_of-none user chat ((k, peer) ∷ peers) h =
    ground (arith, same_iff k chat, h, listed-chats_of-none user chat peers)

listed-chats_of :
    (user chat : Text) (peers : Assoc Text)
    → AreDistinct peers
    → listed chat (chats_of user peers) ≡ is_peer user (lookup chat peers)
unfolding lookup chats_of
listed-chats_of user chat [] h = refl
listed-chats_of user chat ((k, peer) ∷ peers) (h, hs) = elim (Bool-cases (same k chat)) [
  | inl e ↦
      let one : k ≡ chat = (same_iff k chat).0 e in
      let rest : listed chat (chats_of user peers) ≡ false =
        listed-chats_of-none user chat peers (ap (λ j. lookup j peers) (sym one) ∙ h) in
      elim (Bool-cases (same peer user)) [
        | inl h ↦ rw (e, h) (ground (arith, e))
        | inr h ↦ rw (e, h) (ground (arith, rest))
      ]
  | inr ne ↦ elim (Bool-cases (same peer user)) [
    | inl h ↦ rw (ne, h) (ground (arith, ne, listed-chats_of user chat peers hs))
    | inr h ↦ rw (ne, h) (listed-chats_of user chat peers hs)
  ]
]

lookup-remove_all :
    {A : Type 0} (chat : Text) (ks : List Text) (m : Assoc A)
    → lookup chat (remove_all ks m) ≡ (if listed chat ks then none else lookup chat m)
unfolding remove_all
lookup-remove_all chat [] m = refl
lookup-remove_all chat (k ∷ ks) m =
    lookup-remove_all chat ks (remove k m) ∙ ground (arith, lookup-remove k chat m)

module _ (p : Primitives) (c : Aes) (g : Signatures) (codecs : Codecs) where
  lookup-drop_user :
      {A : Type 0} (user chat : Text) (peers : Assoc Text) (m : Assoc A)
      → AreDistinct peers
      → lookup chat (remove_all (chats_of user peers) m)
        ≡ (if is_peer user (lookup chat peers) then none else lookup chat m)
  lookup-drop_user user chat peers m h =
      lookup-remove_all chat (chats_of user peers) m
      ∙ ap (λ b. if b then none else lookup chat m) (listed-chats_of user chat peers h)

  -- Where each chat has one peer, the call ends well: the chats whose peer is the user lose their session
  -- and their peer, every other chat keeps both.
  pub lookup-invalidate_sessions_for_user :
      (user chat : Text) (s : State)
      → AreDistinct s.peers
      → let s' = (invalidate_sessions_for_user p c g codecs user s).1 in
        ((invalidate_sessions_for_user p c g codecs user s).0 ≡ done tt)
        × (lookup chat s'.sessions
            ≡ (if is_peer user (lookup chat s.peers) then none else lookup chat s.sessions))
        × (lookup chat s'.peers
            ≡ (if is_peer user (lookup chat s.peers) then none else lookup chat s.peers))
  unfolding invalidate_sessions_for_user drop_user persist_quietly
  lookup-invalidate_sessions_for_user user chat s h =
      let kept = persist_quietly-Keeps p c g codecs (drop_user user s) in
      (
        refl,
        ap (lookup chat) kept.sessions ∙ lookup-drop_user user chat s.peers s.sessions h,
        ap (lookup chat) kept.peers ∙ lookup-drop_user user chat s.peers s.peers h,
      )

  -- What the `catch` leaves for a chat.
  after_catch :
      (chat other : Text) (stale : Bool) (s : State)
      → let s' = (if stale then (remove_session p c g codecs chat s).1 else s) in
        (lookup other s'.sessions
          ≡ (if stale && same chat other then none else lookup other s.sessions))
        × (lookup other s'.peers
            ≡ (if stale && same chat other then none else lookup other s.peers))
  unfolding remove_session persist_quietly
  after_catch chat other false s = (refl, refl)
  after_catch chat other true s =
      let kept =
        persist_quietly-Keeps p c g codecs
          (record s { sessions = remove chat s.sessions; peers = remove chat s.peers }) in
      (
        ap (lookup other) kept.sessions ∙ lookup-remove chat other s.sessions,
        ap (lookup other) kept.peers ∙ lookup-remove chat other s.peers,
      )

  is_stale-refusal : (x : Error) → IsRefusal x → is_stale (ratchet x) ≡ true
  unfolding is_stale
  is_stale-refusal x (inl e) = ap (λ y. is_stale (ratchet y)) e
  is_stale-refusal x (inr e) = ap (λ y. is_stale (ratchet y)) e

  -- Where the ratchet throws, the `try` block throws its error, and the session is what the method left.
  thrown_by_ratchet :
      (envelope : EncryptedEnvelope) (message : Envelope) (keys : E2eKeys) (sender chat : Text)
      (key : Option Text) (s : State) (y : Session) (x : Error) (rt : Session.State)
      → codecs.envelope.parse envelope.ciphertext ≡ some message
      → lookup chat s.sessions ≡ some y
      → Messages.decrypt_message p message (ratchet_state y s) ≡ (thrown x, rt)
      → decrypt_and_verify p c g codecs envelope keys sender chat key s
        ≡ (thrown (ratchet x), after_call p c g codecs chat rt s)
  unfolding decrypt_and_verify open_text session_to_decrypt
  thrown_by_ratchet envelope message keys sender chat key s y x rt parsed found run =
      rw (parsed, found, run) refl

  -- Where a message is not in memory, its chat has a session, and the envelope is of the chain that this
  -- session receives on, at most 2000 numbers ahead, not seen and with no key kept, and what the cipher makes
  -- of it under the key of its number is nothing, or does not start with the session's associated data: there
  -- is no text, the chat loses its session and its peer, and every other chat keeps both.
  pub decrypt_message-stale :
      (envelope : EncryptedEnvelope) (message : Envelope) (keys : E2eKeys)
      (sender chat other : Text) (msg : Option Text) (s : State) (y : Session) (chain : Chain)
      (q bytes : Bytes)
      → cached_text (cache_key chat msg) s ≡ none
      → codecs.envelope.parse envelope.ciphertext ≡ some message
      → lookup chat s.sessions ≡ some y
      → lookup (message_id message.header.dh message.header.ns) y.skipped ≡ none
      → has (message_id message.header.dh message.header.ns) y.seen ≡ false
      → y.dhr ≡ some q
      → hex_to_bytes message.header.dh ≡ q
      → y.ckr ≡ some chain
      → chain.step ≤ message.header.ns
      → message.header.ns - chain.step ≤ max_skip_gap
      → from_base64 p message.ciphertext ≡ some bytes
      → is_bound (associated_data y) (payload_of p bytes (key_for p y chain message.header)) ≡ false
      → let r = decrypt_message p c g codecs envelope keys sender chat msg s in
        (r.0 ≡ none)
        × (lookup other r.1.sessions ≡ (if same chat other then none else lookup other s.sessions))
        × (lookup other r.1.peers ≡ (if same chat other then none else lookup other s.peers))
  unfolding decrypt_message cached_or_decrypted caught
  decrypt_message-stale envelope message keys sender chat other msg s y chain q bytes fresh parsed
        found kept new current own on past gap text bound =
      let (x, rt, refusal, refused) =
        decrypt_message_refused p (ratchet_state y s) message chain q bytes kept new current own on
          past gap text bound in
      let s1 : State = after_call p c g codecs chat rt s in
      let run =
        thrown_by_ratchet envelope message keys sender chat (cache_key chat msg) s y x rt parsed
          found refused in
      let (no_session, no_peer) = after_catch chat other true s1 in
      rw (fresh, run, is_stale-refusal x refusal)
        (refl, no_session ∙ ground (arith, lookup-insert chat other rt.session s.sessions), no_peer)
