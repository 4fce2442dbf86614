-- ===== src/Group/Messages.antt =====
-- `encryptGroupMessageRatcheted` and `decryptGroupMessageRatcheted` together, on the stores of a sender and
-- of a member.
use mathlib.Core.Path.{subst}
use nur_chat.Prelude.{
  ℕ, ◌+◌, ◌≤◌, ◌<◌, ◌≡◌, refl, true, Option, none, some, List, [], ◌∷◌, ap, sym, ◌∙◌, arith, length,
  Bool-cases, inl, inr, if_false, le→ltb, length-append,
}
use nur_chat.Text.{Text, Bytes, same, same_iff, same_refl}
use nur_chat.Assoc.{Assoc, lookup, insert, lookup-insert_self}
use nur_chat.Ratchet.Primitives.{Primitives, AreLawful}
use nur_chat.Padding.{be32}
use nur_chat.Group.{
  GroupState, Store, kept_key, load_ratchet_states, save_ratchet_states, group_key_hash, is_hash,
  fresh_state, sender_state, receiver_hashed, receiver_state, seal_group, sealed_in,
  encrypt_group_message_ratcheted,
}
use nur_chat.Group.Receive.{saved, settle, received_in, decrypt_group_message_ratcheted}
use nur_chat.Group.Delivery.{InStep, after_seals, received, sealed_decoded, seal_group-received}

abbrev pub states_of : Option (Assoc GroupState) → Assoc GroupState
states_of none = []
states_of (some states) = states

-- The states can be loaded.
abbrev pub IsLoadable : Store → Type 0
IsLoadable s =
    (states : Assoc GroupState) × (s' : Store) × (load_ratchet_states s ≡ (some states, s'))

loaded_again :
    (states : Assoc GroupState) (s : Store)
    → load_ratchet_states (save_ratchet_states states s)
      ≡ (some states, save_ratchet_states states s)
unfolding load_ratchet_states save_ratchet_states
loaded_again states s = refl

module _ (p : Primitives) where
  -- The state that the next message to a chat is sent from, and the one that the next is received with.
  abbrev pub sending : Bytes → Text → Store → GroupState
  sending key chat s = sender_state p key (lookup chat (states_of (load_ratchet_states s).0))

  abbrev pub receiving : Bytes → Text → Store → GroupState
  receiving key chat s = receiver_state p key (lookup chat (states_of (load_ratchet_states s).0))

  -- The sender's store after messages.
  abbrev pub after_encrypts : List Text → Bytes → Text → Store → Store
  after_encrypts [] key chat s = s
  after_encrypts (c ∷ cs) key chat s =
      after_encrypts cs key chat (encrypt_group_message_ratcheted p c key chat s).1

  is_hash-some : (o : Option Text) (h : Text) → is_hash p o h ≡ true → o ≡ some h
  unfolding is_hash
  is_hash-some none h e = absurd (ground (arith, e))
  is_hash-some (some j) h e = ap some ((same_iff j h).0 e)

  sender_hash :
      (key : Bytes) (o : Option GroupState)
      → (sender_state p key o).key_hash ≡ some (group_key_hash p key)
  unfolding sender_state fresh_state
  sender_hash key none = refl
  sender_hash key (some s) = elim (Bool-cases (is_hash p s.key_hash (group_key_hash p key))) [
    | inl h ↦ rw h (is_hash-some s.key_hash (group_key_hash p key) h)
    | inr h ↦ rw h refl
  ]

  sender_again :
      (key : Bytes) (s : GroupState)
      → s.key_hash ≡ some (group_key_hash p key)
      → sender_state p key (some s) ≡ s
  unfolding sender_state is_hash
  sender_again key s h = rw (h, same_refl (group_key_hash p key)) refl

  hashed :
      (key : Bytes) (s : GroupState) (o : Option Text)
      → s.key_hash ≡ o
      → (receiver_hashed p key s o).key_hash ≡ some (group_key_hash p key)
  unfolding receiver_hashed fresh_state
  hashed key s none e = refl
  hashed key s (some h) e = elim (Bool-cases (same h (group_key_hash p key))) [
    | inl eq ↦ rw eq (e ∙ ap some ((same_iff h (group_key_hash p key)).0 eq))
    | inr ne ↦ rw ne refl
  ]

  receiver_hash :
      (key : Bytes) (o : Option GroupState)
      → (receiver_state p key o).key_hash ≡ some (group_key_hash p key)
  unfolding receiver_state fresh_state
  receiver_hash key none = refl
  receiver_hash key (some s) = hashed key s s.key_hash refl

  receiver_again :
      (key : Bytes) (s : GroupState)
      → s.key_hash ≡ some (group_key_hash p key)
      → receiver_state p key (some s) ≡ s
  unfolding receiver_state receiver_hashed
  receiver_again key s h = rw (h, same_refl (group_key_hash p key)) refl

  seal_hash :
      (draws : ℕ) (content : Text) (s : GroupState)
      → (seal_group p draws content s).1.key_hash ≡ s.key_hash
  unfolding seal_group
  seal_hash draws content s = refl

  seal_state :
      (draws : ℕ) (content : Text) (s : GroupState)
      → (seal_group p draws content s).1 ≡ (seal_group p 0 content s).1
  unfolding seal_group
  seal_state draws content s = refl

  -- One message: the envelope is the seal of the chat's state, and the next state is the seal's.
  encrypted :
      (content : Text) (key : Bytes) (chat : Text) (s : Store)
      → IsLoadable s
      → let r = encrypt_group_message_ratcheted p content key chat s in
        (draws : ℕ) × (r.0 ≡ some (seal_group p draws content (sending key chat s)).0)
        × (sending key chat r.1 ≡ (seal_group p draws content (sending key chat s)).1)
        × IsLoadable r.1
  unfolding encrypt_group_message_ratcheted sealed_in
  encrypted content key chat s (states, s1, e) =
      let st : GroupState = sender_state p key (lookup chat states) in
      let next : GroupState = (seal_group p s1.draws content st).1 in
      let all : Assoc GroupState = insert chat next states in
      let s2 : Store = record s1 { draws = s1.draws + 2 } in
      let same_state : sending key chat s ≡ st =
        ap (λ r. sender_state p key (lookup chat (states_of r.0))) e in
      let run : encrypt_group_message_ratcheted p content key chat s
          ≡ (some (seal_group p s1.draws content st).0, save_ratchet_states all s2) =
        ap (λ r. sealed_in p content key chat r.0 r.1) e in
      let stored : sending key chat (save_ratchet_states all s2) ≡ next =
        ap (λ r. sender_state p key (lookup chat (states_of r.0))) (loaded_again all s2)
        ∙ ap (sender_state p key) (lookup-insert_self chat next states)
        ∙ sender_again key next
            (seal_hash s1.draws content st ∙ sender_hash key (lookup chat states)) in
      (
        s1.draws,
        ap (λ r. r.0) run ∙ ap (λ x. some (seal_group p s1.draws content x).0) (sym same_state),
        ap (λ r. sending key chat r.1) run
            ∙ stored
            ∙ ap (λ x. (seal_group p s1.draws content x).1) (sym same_state),
        (
          all,
          save_ratchet_states all s2,
          ap (λ r. load_ratchet_states r.1) run ∙ loaded_again all s2,
        ),
      )

  -- One envelope: where the chat's state makes a text of it, that is the text, and the state is saved.
  decrypted :
      (envelope content : Text) (key : Bytes) (chat : Text) (t : Store) (next : GroupState)
      → IsLoadable t
      → 28 ≤ length (p.base64_decode envelope)
      → received p envelope (receiving key chat t) ≡ saved (some content) next
      → next.key_hash ≡ some (group_key_hash p key)
      → let r = decrypt_group_message_ratcheted p envelope key chat t in
        (r.0 ≡ some content) × (receiving key chat r.1 ≡ next) × IsLoadable r.1
  unfolding decrypt_group_message_ratcheted received_in settle
  decrypted envelope content key chat t next (states, t1, e) long got hash =
      let all : Assoc GroupState = insert chat next states in
      let st : GroupState = receiver_state p key (lookup chat states) in
      let same_state : receiving key chat t ≡ st =
        ap (λ r. receiver_state p key (lookup chat (states_of r.0))) e in
      let here : received p envelope st ≡ saved (some content) next =
        ap (received p envelope) (sym same_state) ∙ got in
      let run : decrypt_group_message_ratcheted p envelope key chat t
          ≡ (some content, save_ratchet_states all t1) =
        if_false _ _ _ (le→ltb _ _ long)
        ∙ ap (λ r. received_in p (p.base64_decode envelope) key chat r.0 r.1) e
        ∙ ap (settle p chat key states t1) here in
      let stored : receiving key chat (save_ratchet_states all t1) ≡ next =
        ap (λ r. receiver_state p key (lookup chat (states_of r.0))) (loaded_again all t1)
        ∙ ap (receiver_state p key) (lookup-insert_self chat next states)
        ∙ receiver_again key next hash in
      (
        ap (λ r. r.0) run,
        ap (λ r. receiving key chat r.1) run ∙ stored,
        (
          all,
          save_ratchet_states all t1,
          ap (λ r. load_ratchet_states r.1) run ∙ loaded_again all t1,
        ),
      )

  after_encrypts_lem :
      (cs : List Text) (key : Bytes) (chat : Text) (s : Store)
      → IsLoadable s
      → (sending key chat (after_encrypts cs key chat s) ≡ after_seals p cs (sending key chat s))
        × IsLoadable (after_encrypts cs key chat s)
  after_encrypts_lem [] key chat s h = (refl, h)
  after_encrypts_lem (c ∷ cs) key chat s h =
      let (draws, _, next, h') = encrypted c key chat s h in
      let (rest, h'') =
        after_encrypts_lem cs key chat (encrypt_group_message_ratcheted p c key chat s).1 h' in
      (rest ∙ ap (after_seals p cs) (next ∙ seal_state draws c (sending key chat s)), h'')

module _ (p : Primitives) (laws : AreLawful p) where
  long_envelope :
      (draws : ℕ) (content : Text) (s : GroupState)
      → 28 ≤ length (p.base64_decode (seal_group p draws content s).0)
  unfolding be32
  long_envelope draws content s =
      let nonce : Bytes = p.random_values draws 24 in
      rw (sealed_decoded p laws draws content s)
        (omega (arith, length-append nonce _, laws.random_length draws 24))

  -- Over lawful primitives, and between a sender and a member whose states can be loaded and whose chains
  -- for the chat are at one place under the group key: the sender's call gives an envelope, and the
  -- member's call gives its text, although up to 500 messages before it were lost, and leaves the two
  -- chains at one place and the states loadable: for a text of at most 8192 bytes that UTF-8 gives back, at
  -- a step below 2 ^ 32 whose key the member has not kept.
  pub decrypt-encrypt_ratcheted :
      (lost : List Text) (content : Text) (key : Bytes) (chat : Text) (s t : Store)
      → IsLoadable s
      → IsLoadable t
      → InStep p (sending p key chat s) (receiving p key chat t)
      → length lost ≤ 500
      → (receiving p key chat t).step + length lost < 4294967296
      → kept_key ((receiving p key chat t).step + length lost) (receiving p key chat t).skipped_keys
        ≡ none
      → length (p.encode content) ≤ 8192
      → p.decode (p.encode content) ≡ content
      → let sent =
          encrypt_group_message_ratcheted p content key chat (after_encrypts p lost key chat s) in
        (envelope : Text) × (sent.0 ≡ some envelope)
        × ((decrypt_group_message_ratcheted p envelope key chat t).0 ≡ some content)
        × InStep p
            (sending p key chat sent.1)
            (receiving p key chat (decrypt_group_message_ratcheted p envelope key chat t).1)
        × IsLoadable sent.1
        × IsLoadable (decrypt_group_message_ratcheted p envelope key chat t).1
  decrypt-encrypt_ratcheted lost content key chat s t hs ht i gap small fresh size utf8 =
      let (before, hb) = after_encrypts_lem p lost key chat s hs in
      let (draws, sent, next, hn) =
        encrypted p content key chat (after_encrypts p lost key chat s) hb in
      let from : GroupState = after_seals p lost (sending p key chat s) in
      let sealed = seal_group p draws content from in
      let one : seal_group p draws content (sending p key chat (after_encrypts p lost key chat s))
          ≡ sealed =
        ap (seal_group p draws content) before in
      let (t', got, together, hash) =
        seal_group-received p laws draws lost content (sending p key chat s)
          (receiving p key chat t) i gap small fresh size utf8 in
      let (read, state, hr) =
        decrypted p sealed.0 content key chat t t' ht (long_envelope draws content from) got
          (hash ∙ receiver_hash p key (lookup chat (states_of (load_ratchet_states t).0))) in
      (
        sealed.0,
        sent ∙ ap (λ r. some r.0) one,
        read,
        subst
            (λ x.
              InStep p x
                (receiving p key chat (decrypt_group_message_ratcheted p sealed.0 key chat t).1))
            (sym (next ∙ ap (λ r. r.1) one))
            (subst (λ y. InStep p sealed.1 y) (sym state) together),
        hn,
        hr,
      )
