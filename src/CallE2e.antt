-- ===== src/CallE2e.antt =====
-- The signaling of calls, frontend/src/services/callE2E.ts. A message is its fields; what a field holds is
-- a type of values.
pub mod Unsealed
mod Examples
use nur_chat.Prelude.{
  ℕ, ◌≡◌, Bool, true, false, Option, none, some, List, [], ◌∷◌, ltb, if◌then◌else◌, length,
}
use nur_chat.Text.{Text, Bytes, codes}
use nur_chat.Text.Hex.{hex_to_bytes}
use nur_chat.Assoc.{Assoc, lookup, insert, remove, put_all}
use nur_chat.Ratchet.Primitives.{Primitives}
use nur_chat.Group.Keys.{wrap_key_for_user, unwrap_key_for_user}

-- A text as a value, what `typeof v === "string"` tells, `true`, and JSON of a body.
pub record Values (V : Type 0) : Type 0 where
  pub of_text : Text → V
  pub to_text : V → Option Text
  pub true_value : V
  pub stringify : Assoc V → Text
  pub parse : Text → Option (Assoc V)

module _ {V : Type 0} where
  -- `if (k in msg) body[k] = msg[k]`
  unfoldable pub take_field : Text → Option V → Assoc V → Assoc V
  take_field k none body = body
  take_field k (some v) body = insert k v body

  unfoldable pub body_of : Assoc V → Assoc V
  unfolding take_field
  body_of msg =
      take_field (codes "candidate") (lookup (codes "candidate") msg)
        (take_field (codes "sdp") (lookup (codes "sdp") msg) [])

  unfoldable pub sealed_fields : Values V → Assoc V → Text → Assoc V
  sealed_fields vs msg enc = insert (codes "e2e") vs.true_value (
      insert (codes "enc") (vs.of_text enc) (remove (codes "candidate") (remove (codes "sdp") msg)))

  -- The message as it is where the encryption failed.
  unfoldable pub sealed_or_plain : Values V → Assoc V → Option Text → Assoc V
  unfolding sealed_fields
  sealed_or_plain vs msg none = msg
  sealed_or_plain vs msg (some []) = msg
  sealed_or_plain vs msg (some (x ∷ xs)) = sealed_fields vs msg (x ∷ xs)

  unfoldable pub restored : Assoc V → Option (Assoc V) → Assoc V
  restored msg none = msg
  restored msg (some body) = put_all body (remove (codes "e2e") (remove (codes "enc") msg))

  -- `typeof msg.enc`, where there is one.
  unfoldable pub enc_of : Values V → Option V → Option Text
  enc_of vs none = none
  enc_of vs (some v) = vs.to_text v

  module _ (p : Primitives) (vs : Values V) where
    -- `encryptSignalingBody`: null where the curve refuses a key. The bytes are boxed as groupE2E.ts boxes
    -- a key.
    unfoldable pub encrypt_signaling_body : ℕ → Assoc V → Text → Text → Option Text
    unfolding wrap_key_for_user
    encrypt_signaling_body draws body my_secret their_public =
        wrap_key_for_user p draws (p.encode (vs.stringify body)) (hex_to_bytes my_secret)
          (hex_to_bytes their_public)

    abbrev pub parsed : Option Bytes → Option (Assoc V)
    parsed none = none
    parsed (some plain) = vs.parse (p.decode plain)

    -- `decryptSignalingBody`
    unfoldable pub decrypt_signaling_body : Text → Text → Text → Option (Assoc V)
    unfolding unwrap_key_for_user
    decrypt_signaling_body enc my_secret their_public =
        if ltb (length (p.base64_decode enc)) 40
        then none
        else parsed (unwrap_key_for_user p enc (hex_to_bytes my_secret) (hex_to_bytes their_public))

    unfoldable pub seal_body : ℕ → Assoc V → Assoc V → Text → Text → Assoc V
    unfolding encrypt_signaling_body sealed_or_plain
    seal_body draws msg [] my_secret their_public = msg
    seal_body draws msg (f ∷ fs) my_secret their_public =
        sealed_or_plain vs msg (encrypt_signaling_body draws (f ∷ fs) my_secret their_public)

    -- `sealSignalingMessage`
    unfoldable pub seal_signaling_message : ℕ → Assoc V → Text → Text → Assoc V
    unfolding seal_body body_of
    seal_signaling_message draws msg my_secret their_public =
        seal_body draws msg (body_of msg) my_secret their_public

    unfoldable pub unseal_text : Assoc V → Option Text → Text → Text → Assoc V
    unfolding decrypt_signaling_body restored
    unseal_text msg none my_secret their_public = msg
    unseal_text msg (some []) my_secret their_public = msg
    unseal_text msg (some (x ∷ xs)) my_secret their_public =
        restored msg (decrypt_signaling_body (x ∷ xs) my_secret their_public)

    -- `unsealSignalingMessage`
    unfoldable pub unseal_signaling_message : Assoc V → Text → Text → Assoc V
    unfolding unseal_text enc_of
    unseal_signaling_message msg my_secret their_public =
        unseal_text msg (enc_of vs (lookup (codes "enc") msg)) my_secret their_public
