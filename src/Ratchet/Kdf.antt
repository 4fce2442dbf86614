-- ===== src/Ratchet/Kdf.antt =====
-- Key derivation: HKDF over HMAC-SHA-256, the chain of message keys, and base64 in chunks.
use mathlib.Core.Option
use nur_chat.Prelude.{
  ℕ, zero, suc, ◌+◌, ◌*◌, ◌/◌, length-drop, take-append-drop, ◌%◌, ◌≡◌, refl, Option, some, [], ◌∷◌,
  ◌++◌, arith, length, take, drop, replicate, ap, ◌≤◌, ◌∙◌,
}
use nur_chat.Text.{Text, Bytes, codes}
use nur_chat.Ratchet.Primitives.{Primitives, KeyPair, AreLawful}

-- `HKDF_SALT`
abbrev pub hkdf_salt : Bytes
hkdf_salt = replicate 32 0

pub record Chain : Type 0 where
  pub key : Bytes
  pub step : ℕ

module _ (p : Primitives) where
  open p use {hmac, get_public_key, get_shared_secret, btoa, atob, encode}

  unfoldable pub hkdf_extract : Bytes → Bytes → Bytes
  hkdf_extract salt ikm = hmac salt ikm

  -- The loop of `hkdfExpand`: the blocks from number `i` on, `t` the block before.
  unfoldable pub expand_blocks : Bytes → Bytes → ℕ → ℕ → Bytes → Bytes
  expand_blocks prk info zero i t = []
  expand_blocks prk info (suc rounds) i t =
      let block = hmac prk (t ++ (info ++ (i % 256) ∷ [])) in
      block ++ expand_blocks prk info rounds (i + 1) block

  unfoldable pub hkdf_expand : Bytes → Bytes → ℕ → Bytes
  hkdf_expand prk info len = take len (expand_blocks prk info ((len + 31) / 32) 1 [])

  unfoldable pub hkdf : Bytes → Bytes → Bytes → ℕ → Bytes
  hkdf salt ikm info len = hkdf_expand (hkdf_extract salt ikm) info len

  -- `nextMessageKey`: the message key and the chain after it.
  unfoldable pub next_message_key : Chain → Bytes → Bytes × Chain
  next_message_key c ad =
      let info_msg = ad ++ encode (codes "|nurchat:msg") in
      let info_chain = ad ++ encode (codes "|nurchat:chain") in
      let msg_key = hkdf hkdf_salt c.key info_msg 32 in
      let next_key = hkdf hkdf_salt c.key info_chain 32 in
      (msg_key, record { key = next_key; step = c.step + 1 })

  pub step-next_message_key : (c : Chain) (ad : Bytes) → (next_message_key c ad).1.step ≡ c.step + 1
  unfolding next_message_key
  step-next_message_key c ad = refl

  -- `boxBefore(theirPublic, mySecret)` and `boxKeyPairFromSecretKey`
  unfoldable pub box_before : Bytes → Bytes → Option Bytes
  box_before their_public my_secret = get_shared_secret my_secret their_public

  unfoldable pub box_key_pair_from_secret_key : Bytes → Option KeyPair
  box_key_pair_from_secret_key secret =
      Option.map (λ q. record { public_key = q; secret_key = secret }) (get_public_key secret)

  -- The loop of `toBase64`: 8192 bytes at a time. `rounds` is the number of chunks left.
  unfoldable pub binary_chunks : ℕ → Bytes → Text
  binary_chunks zero bytes = []
  binary_chunks (suc rounds) bytes = take 8192 bytes ++ binary_chunks rounds (drop 8192 bytes)

  unfoldable pub to_base64 : Bytes → Text
  to_base64 bytes = btoa (binary_chunks ((length bytes + 8191) / 8192) bytes)

  unfoldable pub from_base64 : Text → Option Bytes
  from_base64 b64 = atob b64

  -- Cut into chunks and joined, the bytes are the same.
  binary_chunks_all :
      (rounds : ℕ) (bytes : Bytes)
      → length bytes ≤ rounds * 8192
      → binary_chunks rounds bytes ≡ bytes
  unfolding binary_chunks
  binary_chunks_all zero [] h = refl
  binary_chunks_all zero (b ∷ bytes) h = absurd (omega arith)
  binary_chunks_all (suc rounds) bytes h =
      rw (binary_chunks_all rounds (drop 8192 bytes) (omega (arith, length-drop 8192 bytes)))
        (take-append-drop 8192 bytes)

  pub from_base64-to_base64 :
      AreLawful p → (bytes : Bytes) → from_base64 (to_base64 bytes) ≡ some bytes
  unfolding from_base64 to_base64
  from_base64-to_base64 laws bytes =
      laws.atob-btoa _
      ∙ ap some (binary_chunks_all ((length bytes + 8191) / 8192) bytes (omega arith))
