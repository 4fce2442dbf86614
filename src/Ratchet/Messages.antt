-- ===== src/Ratchet/Messages.antt =====
-- `encryptMessage` and `decryptMessage`, with the store of skipped keys and the ids seen.
use nur_chat.Prelude.{
  ℕ, zero, suc, ◌+◌, ◌-◌, Bool, false, not, ◌&&◌, ◌||◌, Option, none, some, List, [], ◌∷◌, ◌++◌,
  ltb, leb, if◌then◌else◌, length, take, drop,
}
use nur_chat.Text.{Text, Bytes, same, split}
use nur_chat.Text.Decimal.{parse_int}
use nur_chat.Text.Hex.{bytes_to_hex, hex_to_bytes}
use nur_chat.Assoc.{Assoc, lookup, insert, remove}
use nur_chat.Exec.{done, pure, throw, gets, ◌>>=◌, ◌>>◌}
use nur_chat.Ratchet.Primitives.{Primitives}
use nur_chat.Ratchet.Kdf.{Chain, next_message_key, to_base64, from_base64}
use nur_chat.Ratchet.Session.{
  Header, Envelope, associated_data, message_id, has, add, max_skip_gap, max_skipped,
  key_rotation_interval, no_sending_chain, sending_chain_null, no_receiving_chain, in_the_past,
  gap_too_large, replay, decryption_failed, ad_mismatch, bad_text, no_own_key,
}
use nur_chat.Ratchet.Steps.{Action, update, lift, when, is_some, dh_ratchet_send, dh_ratchet_recv}

-- `secretboxNonceLength`
abbrev pub secretbox_nonce_length : ℕ
secretbox_nonce_length = 24

-- `parseInt(id.split(":")[1], 10)`; none is NaN
unfoldable pub number_of : Text → Option ℕ
number_of id = elim (split 58 id) [ [] ↦ none | a ∷ r ↦ elim r [ [] ↦ none | b ∷ _ ↦ parse_int b ] ]

-- Whether the comparator puts `a` behind `b`: a difference with NaN counts as 0.
unfoldable pub comes_after : Option ℕ → Option ℕ → Bool
comes_after (some a) (some b) = ltb b a
comes_after a b = false

unfoldable pub place : Text → List Text → List Text
unfolding number_of comes_after
place k [] = k ∷ []
place k (j ∷ js) = if comes_after (number_of k) (number_of j) then j ∷ place k js else k ∷ j ∷ js

-- `.sort` by the number in the id; the sort is stable.
unfoldable pub sort_ids : List Text → List Text
unfolding place
sort_ids [] = []
sort_ids (k ∷ js) = place k (sort_ids js)

-- `.slice(-n)`
abbrev pub last_of : ℕ → List Text → List Text
last_of n ids = drop (length ids - n) ids

unfoldable pub trim_seen : List Text → List Text
unfolding sort_ids
trim_seen ids = last_of 5000 (sort_ids ids)

-- The oldest entry is dropped where there are too many.
unfoldable pub evict : Assoc Bytes → Assoc Bytes
evict [] = []
evict ((k, v) ∷ m) =
    if ltb max_skipped (length ((k, v) ∷ m)) then remove k ((k, v) ∷ m) else (k, v) ∷ m

-- A key is kept for later unless its message was seen or its key is kept already.
unfoldable pub keep_skipped : Text → Bytes → List Text → Assoc Bytes → Assoc Bytes
unfolding evict
keep_skipped id key seen skipped =
    if not (has id seen) && not (is_some (lookup id skipped))
    then evict (insert id key skipped)
    else skipped

-- `this.DHr && bytesEqual(this.DHr, theirRatchet)`
abbrev pub is_current : Option Bytes → Bytes → Bool
is_current none theirs = false
is_current (some dhr) theirs = same dhr theirs

-- `this.CKs && this.CKs.step >= KEY_ROTATION_INTERVAL`
unfoldable pub is_worn : Option Chain → Bool
is_worn none = false
is_worn (some c) = leb key_rotation_interval c.step

module _ (p : Primitives) where
  open p use {random_values, secretbox_encrypt, secretbox_decrypt, encode, decode}

  unfoldable pub ratchet_if_pending : Action (Unit {0})
  ratchet_if_pending = do
    s ← gets (λ st. st.session)
    when (s.pending_send_ratchet && is_some s.dhr)
        (do dh_ratchet_send p; update (λ s. record s { pending_send_ratchet = false }))

  unfoldable pub ensure_chain : Action (Unit {0})
  ensure_chain = do
    s ← gets (λ st. st.session)
    when (not (is_some s.cks))
        (if is_some s.ckr && is_some s.dhr then dh_ratchet_send p else throw no_sending_chain)

  -- A chain that has made 100 keys is replaced.
  unfoldable pub rotate : Action (Unit {0})
  unfolding is_worn
  rotate = do
    s ← gets (λ st. st.session)
    when (is_worn s.cks && is_some s.ckr && is_some s.dhr) (dh_ratchet_send p)

  unfoldable pub random_bytes : ℕ → Action Bytes
  random_bytes n st = (done (random_values st.draws n), record st { draws = st.draws + 1 })

  -- The message under the next key of the sending chain.
  unfoldable pub seal : Text → Action Envelope
  unfolding random_bytes
  seal plaintext = do
    s ← gets (λ st. st.session)
    chain ← lift sending_chain_null s.cks
    let ad = associated_data s
    let (msg_key, next) = next_message_key p chain ad
    update (λ s. record s { cks = some next })
    nonce ← random_bytes secretbox_nonce_length
    let ciphertext = secretbox_encrypt (ad ++ encode plaintext) nonce msg_key
    dhs ← lift no_own_key s.dhs
    update (λ s. record s { ns = s.ns + 1 })
    pure (record {
      header = record { dh = bytes_to_hex dhs.public_key; pn = s.pn; ns = s.ns };
      ciphertext = to_base64 p (nonce ++ ciphertext);
    })

  unfoldable pub prepare : Action (Unit {0})
  prepare = do ratchet_if_pending; ensure_chain

  unfoldable pub encrypt_message : Text → Action Envelope
  encrypt_message plaintext = do prepare; rotate; seal plaintext

  -- `decryptWithKey`
  unfoldable pub decrypt_with_key : Envelope → Bytes → Text → Action Text
  decrypt_with_key envelope msg_key id = do
    s ← gets (λ st. st.session)
    when (has id s.seen) (throw replay)
    let seen' = add id s.seen
    update (λ s. record s { seen = if ltb 10000 (length seen') then trim_seen seen' else seen' })
    bytes ← lift bad_text (from_base64 p envelope.ciphertext)
    let nonce = take secretbox_nonce_length bytes
    payload ←
        lift decryption_failed (secretbox_decrypt (drop secretbox_nonce_length bytes) nonce msg_key)
    let ad = associated_data s
    when (ltb (length payload) (length ad) || not (same (take (length ad) payload) ad))
        (throw ad_mismatch)
    pure (decode (drop (length ad) payload))

  -- The `while` loop of `decryptMessage`: the keys of the messages in between are kept.
  unfoldable pub catch_up : ℕ → Text → Bytes → List Text → Chain → Assoc Bytes → Chain × Assoc Bytes
  catch_up zero dh ad seen c skipped = (c, skipped)
  catch_up (suc rounds) dh ad seen c skipped =
      let (key, c') = next_message_key p c ad in
      catch_up rounds dh ad seen c' (keep_skipped (message_id dh (c'.step - 1)) key seen skipped)

  -- A header with a new public key moves the receiving ratchet.
  unfoldable pub ratchet_if_new : Header → Action (Unit {0})
  ratchet_if_new h = do
    s ← gets (λ st. st.session)
    let theirs = hex_to_bytes h.dh
    when (not (is_current s.dhr theirs))
        (do update (λ s. record s { pn = h.pn }); dh_ratchet_recv p theirs)

  -- The receiving chain, moved behind message `ns`.
  unfoldable pub advance : Header → Action Bytes
  unfolding catch_up
  advance h = do
    s ← gets (λ st. st.session)
    let ad = associated_data s
    chain ← lift no_receiving_chain s.ckr
    when (ltb h.ns chain.step) (throw in_the_past)
    when (ltb max_skip_gap (h.ns - chain.step)) (throw gap_too_large)
    let (c, skipped') = catch_up (h.ns - chain.step) h.dh ad s.seen chain s.skipped
    let (key, next) = next_message_key p c ad
    update (λ s. record s { ckr = some next; skipped = skipped' })
    pure key

  -- A message whose key was kept.
  unfoldable pub decrypt_skipped : Envelope → Bytes → Text → Action Text
  unfolding decrypt_with_key
  decrypt_skipped envelope key id = do
    s ← gets (λ st. st.session)
    when (has id s.seen) (throw replay)
    update (λ s. record s { skipped = remove id s.skipped; seen = add id s.seen })
    decrypt_with_key envelope key id

  -- A message on the receiving chain, or on the one that its header starts.
  unfoldable pub decrypt_next : Envelope → Text → Action Text
  unfolding ratchet_if_new advance decrypt_with_key
  decrypt_next envelope id = do
    ratchet_if_new envelope.header
    key ← advance envelope.header
    decrypt_with_key envelope key id

  decrypt_by : Envelope → Text → Option Bytes → Action Text
  unfolding decrypt_skipped decrypt_next
  decrypt_by envelope id none = decrypt_next envelope id
  decrypt_by envelope id (some key) = decrypt_skipped envelope key id

  unfoldable pub decrypt_message : Envelope → Action Text
  unfolding decrypt_by
  decrypt_message envelope = do
    s ← gets (λ st. st.session)
    let id = message_id envelope.header.dh envelope.header.ns
    decrypt_by envelope id (lookup id s.skipped)
