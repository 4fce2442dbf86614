-- ===== src/Group/Receive.antt =====
-- `decryptGroupMessageRatcheted` of frontend/src/services/groupE2E.ts.
use nur_chat.Prelude.{
  ℕ, zero, suc, ◌+◌, ◌-◌, Option, none, some, ltb, leb, if◌then◌else◌, length, take, drop,
}
use nur_chat.Text.{Text, Bytes}
use nur_chat.Assoc.{Assoc, lookup, insert}
use nur_chat.Ratchet.Primitives.{Primitives}
use nur_chat.Padding.{read32, unpad_bytes}
use nur_chat.Group.{
  Kept, GroupState, Store, max_group_skip, kept_key, keep_key, drop_key, drop_old,
  load_ratchet_states, save_ratchet_states, group_chain_next, receiver_state,
}

-- What one envelope does to the state of its chat: nothing, or a new state to save; and the text, none
-- for null.
pub data Received : Type 0 where
  refused : Received
  saved : Option Text → GroupState → Received

unfoldable pub plain_or : Option Bytes → Bytes → Bytes
plain_or none padded = padded
plain_or (some plain) padded = plain

-- `unpadBytes(padded) ?? padded`
unfoldable pub unpadded : Bytes → Bytes
unfolding plain_or
unpadded padded = plain_or (unpad_bytes padded) padded

module _ (p : Primitives) where
  unfoldable pub text_of : Option Bytes → Option Text
  unfolding unpadded
  text_of none = none
  text_of (some padded) = some (p.decode (unpadded padded))

  -- The loop over the messages in between, whose keys are kept.
  unfoldable pub skip_to : ℕ → ℕ → Bytes → Kept → Bytes × Kept
  skip_to zero s chain kept = (chain, kept)
  skip_to (suc rounds) s chain kept =
      let (msg_key, next_chain) = group_chain_next p chain s in
      skip_to rounds (s + 1) next_chain (keep_key s (p.base64_encode msg_key) kept)

  -- A message on the chain or ahead of it.
  unfoldable pub receive_ahead : ℕ → Bytes → Bytes → GroupState → Received
  unfolding skip_to text_of
  receive_ahead step nonce ciphertext s =
      let (chain, kept) =
        skip_to (step - s.step) s.step (p.base64_decode s.chain_key) s.skipped_keys in
      let (msg_key, next_chain) = group_chain_next p chain step in
      if ltb max_group_skip (step - s.step)
      then refused
      else saved (text_of (p.secretbox_decrypt ciphertext nonce msg_key)) (record s {
        chain_key = p.base64_encode next_chain;
        step = step + 1;
        skipped_keys = drop_old (step + 1) kept;
      })

  -- A message whose key was kept: the key goes only where it opens the message.
  unfoldable pub receive_kept : ℕ → Bytes → Bytes → Text → GroupState → Received
  unfolding text_of
  receive_kept step nonce ciphertext key s =
      elim (p.secretbox_decrypt ciphertext nonce (p.base64_decode key)) [
        | none ↦ refused
        | some padded ↦
            saved (text_of (some padded)) (record s { skipped_keys = drop_key step s.skipped_keys })
      ]

  -- By the key that was kept for the step.
  unfoldable pub receive_by : ℕ → Bytes → Bytes → GroupState → Option Text → Received
  unfolding receive_ahead receive_kept
  receive_by step nonce ciphertext s (some key) = receive_kept step nonce ciphertext key s
  receive_by step nonce ciphertext s none =
      if leb s.step step then receive_ahead step nonce ciphertext s else refused

  unfoldable pub receive_group : ℕ → Bytes → Bytes → GroupState → Received
  unfolding receive_by
  receive_group step nonce ciphertext s =
      receive_by step nonce ciphertext s (kept_key step s.skipped_keys)

  -- A state with no hash is the cached object itself: it gets its hash also where nothing is saved.
  unfoldable pub touched : Text → Bytes → Assoc GroupState → Assoc GroupState
  touched chat group_key states = elim (lookup chat states) [
    | none ↦ states
    | some s ↦ elim s.key_hash [
      | none ↦ insert chat (receiver_state p group_key (some s)) states
      | some h ↦ states
    ]
  ]

  unfoldable pub settle : Text → Bytes → Assoc GroupState → Store → Received → Option Text × Store
  unfolding touched save_ratchet_states
  settle chat group_key states s refused =
      (none, record s { cache = some (touched chat group_key states) })
  settle chat group_key states s (saved text state) =
      (text, save_ratchet_states (insert chat state states) s)

  unfoldable pub received_in :
      Bytes → Bytes → Text → Option (Assoc GroupState) → Store → Option Text × Store
  unfolding settle receive_group receiver_state read32
  received_in bytes group_key chat none s = (none, s)
  received_in bytes group_key chat (some states) s = settle chat group_key states s (
      receive_group (read32 bytes) (take 24 (drop 4 bytes)) (drop 28 bytes)
        (receiver_state p group_key (lookup chat states)))

  unfoldable pub decrypt_group_message_ratcheted : Text → Bytes → Text → Store → Option Text × Store
  unfolding received_in load_ratchet_states
  decrypt_group_message_ratcheted encrypted group_key chat s =
      let bytes = p.base64_decode encrypted in
      let (states, s') = load_ratchet_states s in
      if ltb (length bytes) 28 then (none, s) else received_in bytes group_key chat states s'
