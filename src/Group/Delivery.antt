-- ===== src/Group/Delivery.antt =====
-- A message of a group from its sender to a member on the same step.
use nur_chat.Prelude.{
  ℕ, ◌+◌, ◌-◌, ◌≤◌, ◌<◌, ◌≡◌, refl, true, none, some, List, [], ◌∷◌, ◌++◌, arith, leb, length, take,
  drop, take-append_self, drop-append_self, ap, ◌∙◌, le→ltb, sym,
}
use nur_chat.Text.{Text, Bytes}
use nur_chat.Ratchet.Primitives.{Primitives, AreLawful}
use nur_chat.Padding.{be32, read32, pad_bytes, unpad-pad, read32-be32}
use nur_chat.Group.{GroupState, Kept, kept_key, drop_old, group_chain_next, seal_group}
use nur_chat.Group.Receive.{
  Received, saved, receive_group, receive_by, receive_ahead, skip_to, text_of, plain_or, unpadded,
}

module _ (p : Primitives) (laws : AreLawful p) where
  -- The bytes of an envelope, read apart as the receiver reads them.
  envelope_parts :
      (step : ℕ) (nonce ciphertext : Bytes)
      → step < 4294967296
      → length nonce ≡ 24
      → (read32 (be32 step ++ (nonce ++ ciphertext)) ≡ step)
        × (take 24 (drop 4 (be32 step ++ (nonce ++ ciphertext))) ≡ nonce)
        × (drop 28 (be32 step ++ (nonce ++ ciphertext)) ≡ ciphertext)
  unfolding be32
  envelope_parts step nonce ciphertext h n = (
    read32-be32 step (nonce ++ ciphertext) h,
    take-append_self nonce ciphertext 24 n,
    drop-append_self nonce ciphertext 24 n,
  )

module _ (p : Primitives) where
  -- The sender's state after messages.
  abbrev pub after_seals : List Text → GroupState → GroupState
  after_seals [] s = s
  after_seals (c ∷ cs) s = after_seals cs (seal_group p 0 c s).1

  -- What a member makes of an envelope.
  abbrev pub received : Text → GroupState → Received
  received envelope t =
      let bytes = p.base64_decode envelope in
      receive_group p (read32 bytes) (take 24 (drop 4 bytes)) (drop 28 bytes) t

  -- The sender's and a member's chain stand at one place.
  pub record InStep (s t : GroupState) : Type 0 where
    pub chain : p.base64_decode t.chain_key ≡ p.base64_decode s.chain_key
    pub step : t.step ≡ s.step

module _ (p : Primitives) (laws : AreLawful p) where
  step-seals : (cs : List Text) (s : GroupState) → (after_seals p cs s).step ≡ s.step + length cs
  unfolding seal_group
  step-seals [] s = omega arith
  step-seals (c ∷ cs) s = omega (arith, step-seals cs (seal_group p 0 c s).1)

  -- The loop over lost messages follows the sender's chain.
  skip-seals :
      (cs : List Text) (s : GroupState) (kept : Kept) (chain : Bytes)
      → chain ≡ p.base64_decode s.chain_key
      → (skip_to p (length cs) s.step chain kept).0 ≡ p.base64_decode (after_seals p cs s).chain_key
  unfolding skip_to seal_group
  skip-seals [] s kept chain e = e
  skip-seals (c ∷ cs) s kept chain e =
      skip-seals cs (seal_group p 0 c s).1 _ _
        (ap (λ k. (group_chain_next p k s.step).1) e ∙ sym (laws.base64_decode-encode _))

  -- The member's state after a message `n` steps ahead.
  abbrev advanced : ℕ → GroupState → GroupState
  advanced n t =
      let (chain, kept) = skip_to p n t.step (p.base64_decode t.chain_key) t.skipped_keys in
      record t {
        chain_key = p.base64_encode (group_chain_next p chain (t.step + n)).1;
        step = t.step + n + 1;
        skipped_keys = drop_old (t.step + n + 1) kept;
      }

  ahead_lem :
      (n : ℕ) (nonce ciphertext plain : Bytes) (t : GroupState)
      → n ≤ 500
      → p.secretbox_decrypt ciphertext nonce
          (group_chain_next p
            (skip_to p n t.step (p.base64_decode t.chain_key) t.skipped_keys).0
            (t.step + n)).0
        ≡ some plain
      → receive_ahead p (t.step + n) nonce ciphertext t
        ≡ saved (some (p.decode (unpadded plain))) (advanced n t)
  unfolding receive_ahead text_of
  ahead_lem n nonce ciphertext plain t h d =
      let gap : t.step + n - t.step ≡ n = omega arith in rw (gap, d, le→ltb 500 n h) refl

  unpadded-pad :
      (draws : ℕ) (plain : Bytes) → length plain ≤ 8192 → unpadded (pad_bytes p draws plain) ≡ plain
  unfolding unpadded plain_or
  unpadded-pad draws plain h =
      rw (unpad-pad p laws draws plain (omega arith), le→ltb 8192 (length plain) h) refl

  received_lem :
      (envelope : Text) (t : GroupState) (n : ℕ) (bytes nonce ciphertext : Bytes)
      → p.base64_decode envelope ≡ bytes
      → read32 bytes ≡ t.step + n
      → take 24 (drop 4 bytes) ≡ nonce
      → drop 28 bytes ≡ ciphertext
      → kept_key (t.step + n) t.skipped_keys ≡ none
      → received p envelope t ≡ receive_ahead p (t.step + n) nonce ciphertext t
  unfolding receive_group receive_by
  received_lem envelope t n bytes nonce ciphertext e r a b k =
      let on_chain : leb t.step (t.step + n) ≡ true = ground arith in
      rw (e, r, a, b, k, on_chain) refl

  pub sealed_decoded :
      (draws : ℕ) (content : Text) (s : GroupState)
      → p.base64_decode (seal_group p draws content s).0
        ≡ be32 s.step
          ++ (p.random_values draws 24
              ++ p.secretbox_encrypt
                  (pad_bytes p (draws + 1) (p.encode content))
                  (p.random_values draws 24)
                  (group_chain_next p (p.base64_decode s.chain_key) s.step).0)
  unfolding seal_group
  sealed_decoded draws content s = laws.base64_decode-encode _

  sealed_chain :
      (draws : ℕ) (content : Text) (s : GroupState)
      → (p.base64_decode (seal_group p draws content s).1.chain_key
          ≡ (group_chain_next p (p.base64_decode s.chain_key) s.step).1)
        × ((seal_group p draws content s).1.step ≡ s.step + 1)
  unfolding seal_group
  sealed_chain draws content s = (laws.base64_decode-encode _, refl)

  -- The states of one chat alone.
  pub seal_group-received :
      (draws : ℕ) (lost : List Text) (content : Text) (s t : GroupState)
      → InStep p s t
      → length lost ≤ 500
      → t.step + length lost < 4294967296
      → kept_key (t.step + length lost) t.skipped_keys ≡ none
      → length (p.encode content) ≤ 8192
      → p.decode (p.encode content) ≡ content
      → let sealed = seal_group p draws content (after_seals p lost s) in
        (t' : GroupState) × (received p sealed.0 t ≡ saved (some content) t')
        × InStep p sealed.1 t'
        × (t'.key_hash ≡ t.key_hash)
  seal_group-received draws lost content s t i gap small fresh size utf8 =
      let st : GroupState = after_seals p lost s in
      let n : ℕ = length lost in
      let nonce : Bytes = p.random_values draws 24 in
      let padded : Bytes = pad_bytes p (draws + 1) (p.encode content) in
      let chain : Bytes = (skip_to p n t.step (p.base64_decode t.chain_key) t.skipped_keys).0 in
      let key : Bytes = (group_chain_next p (p.base64_decode st.chain_key) st.step).0 in
      let step : st.step ≡ t.step + n = omega (arith, step-seals lost s, i.step) in
      let chains : chain ≡ p.base64_decode st.chain_key =
        ap (λ k. (skip_to p n k (p.base64_decode t.chain_key) t.skipped_keys).0) i.step
        ∙ skip-seals lost s t.skipped_keys (p.base64_decode t.chain_key) i.chain in
      let next : group_chain_next p chain (t.step + n)
          ≡ group_chain_next p (p.base64_decode st.chain_key) st.step =
        ap (λ k. group_chain_next p k (t.step + n)) chains
        ∙ ap (group_chain_next p (p.base64_decode st.chain_key)) (sym step) in
      let parts =
        envelope_parts p laws st.step nonce (p.secretbox_encrypt padded nonce key) (omega arith)
          (laws.random_length draws 24) in
      let opened : p.secretbox_decrypt (p.secretbox_encrypt padded nonce key) nonce
            (group_chain_next p chain (t.step + n)).0
          ≡ some padded =
        ap (λ k. p.secretbox_decrypt (p.secretbox_encrypt padded nonce key) nonce k.0) next
        ∙ laws.decrypt-encrypt padded nonce key in
      let text : p.decode (unpadded padded) ≡ content =
        ap p.decode (unpadded-pad (draws + 1) (p.encode content) size) ∙ utf8 in
      let end = sealed_chain draws content st in
      (
        advanced n t,
        received_lem (seal_group p draws content st).0 t n _ nonce
              (p.secretbox_encrypt padded nonce key) (sealed_decoded draws content st)
              (parts.0 ∙ step) parts.1 parts.2 fresh
            ∙ ahead_lem n nonce (p.secretbox_encrypt padded nonce key) padded t gap opened
            ∙ ap (λ x. saved (some x) (advanced n t)) text,
        record {
          chain = laws.base64_decode-encode _ ∙ ap (λ k. k.1) next ∙ sym end.0;
          step = omega (arith, step, end.1);
        },
        refl,
      )
