-- ===== src/Group/Keys.antt =====
-- The group key of frontend/src/services/groupE2E.ts, wrapped for each member, and the messages of
-- groups without a ratchet. The relay's part of initGroupKey and fetchGroupKey is left out.
use nur_chat.Prelude.{
  ℕ, ◌+◌, ◌≡◌, refl, true, Option, none, some, List, [], ◌∷◌, ◌++◌, arith, take, drop,
  take-append_self, drop-append_self, ◌≤◌, length, length-append, All, ap, ◌∙◌, sym, inl, inr,
  Bool-cases, if_true, if_false,
}
use mathlib.Core.Path.{subst}
use nur_chat.Text.{Text, Bytes, same}
use nur_chat.Text.Hex.{hex_to_bytes}
use nur_chat.Assoc.{Assoc, lookup, insert, lookup-insert}
use nur_chat.Ratchet.Primitives.{Primitives, AreLawful}
use nur_chat.Ratchet.Kdf.{box_before}

module _ (p : Primitives) where
  -- `generateGroupKey`
  unfoldable pub generate_group_key : ℕ → Bytes
  generate_group_key draws = p.random_values draws 32

  sealed_key : ℕ → Bytes → Option Bytes → Option Text
  sealed_key draws group_key none = none
  sealed_key draws group_key (some shared) =
      let nonce = p.random_values draws 24 in
      some (p.base64_encode (nonce ++ p.secretbox_encrypt group_key nonce shared))

  -- `wrapKeyForUser`: none where the curve library throws.
  unfoldable pub wrap_key_for_user : ℕ → Bytes → Bytes → Bytes → Option Text
  unfolding sealed_key
  wrap_key_for_user draws group_key my_secret their_public =
      sealed_key draws group_key (box_before p their_public my_secret)

  opened_key : Bytes → Option Bytes → Option Bytes
  opened_key combined none = none
  opened_key combined (some shared) =
      p.secretbox_decrypt (drop 24 combined) (take 24 combined) shared

  -- `unwrapKeyForUser`, and `unwrapGroupKey`
  unfoldable pub unwrap_key_for_user : Text → Bytes → Bytes → Option Bytes
  unfolding opened_key
  unwrap_key_for_user wrapped my_secret their_public =
      opened_key (p.base64_decode wrapped) (box_before p their_public my_secret)

  -- `encryptGroupMessage`
  unfoldable pub encrypt_group_message : ℕ → Text → Bytes → Text
  encrypt_group_message draws content group_key =
      let nonce = p.random_values draws 24 in
      p.base64_encode (nonce ++ p.secretbox_encrypt (p.encode content) nonce group_key)

  decoded : Option Bytes → Option Text
  decoded none = none
  decoded (some plain) = some (p.decode plain)

  -- `decryptGroupMessage`
  unfoldable pub decrypt_group_message : Text → Bytes → Option Text
  unfolding decoded
  decrypt_group_message encrypted group_key =
      let bytes = p.base64_decode encrypted in
      decoded (p.secretbox_decrypt (drop 24 bytes) (take 24 bytes) group_key)

  keep_wrapped : Text → Option Text → Assoc Text → Assoc Text
  keep_wrapped user none keys = keys
  keep_wrapped user (some wrapped) keys = insert user wrapped keys

  drawn : Option Text → ℕ
  drawn none = 0
  drawn (some wrapped) = 1

  -- The loop of `initGroupKey` over the participants, who may have no public key.
  unfoldable pub keys_for : ℕ → Bytes → Bytes → List (Text × Option Text) → Assoc Text → Assoc Text
  unfolding keep_wrapped drawn wrap_key_for_user
  keys_for draws group_key secret [] keys = keys
  keys_for draws group_key secret ((user, none) ∷ ps) keys = keys_for draws group_key secret ps keys
  keys_for draws group_key secret ((user, some []) ∷ ps) keys =
      keys_for draws group_key secret ps keys
  keys_for draws group_key secret ((user, some (c ∷ cs)) ∷ ps) keys =
      let wrapped = wrap_key_for_user draws group_key secret (hex_to_bytes (c ∷ cs)) in
      keys_for (draws + drawn wrapped) group_key secret ps (keep_wrapped user wrapped keys)

  -- `initGroupKey`: the key and what is sent to the relay for each participant.
  unfoldable pub init_group_key : ℕ → Bytes → List (Text × Option Text) → Bytes × Assoc Text
  unfolding keys_for generate_group_key
  init_group_key draws secret participants =
      let group_key = generate_group_key draws in
      (group_key, keys_for (draws + 1) group_key secret participants [])

module _ (p : Primitives) (laws : AreLawful p) where
  -- Over lawful primitives, a message is read with the key that it was written with, for a text
  -- that UTF-8 gives back.
  pub decrypt-encrypt_group :
      (draws : ℕ) (content : Text) (group_key : Bytes)
      → p.decode (p.encode content) ≡ content
      → decrypt_group_message p (encrypt_group_message p draws content group_key) group_key
        ≡ some content
  unfolding decrypt_group_message encrypt_group_message decoded
  decrypt-encrypt_group draws content group_key utf =
      let nonce = p.random_values draws 24 in
      let sealed = p.secretbox_encrypt (p.encode content) nonce group_key in
      rw
        (
          laws.base64_decode-encode (nonce ++ sealed),
          take-append_self nonce sealed 24 (laws.random_length draws 24),
          drop-append_self nonce sealed 24 (laws.random_length draws 24),
          laws.decrypt-encrypt (p.encode content) nonce group_key,
        )
        (ap some utf)

  length-sealed_key :
      (draws : ℕ) (group_key : Bytes) (o : Option Bytes) (wrapped : Text)
      → ((m n k : Bytes) → length m + 16 ≤ length (p.secretbox_encrypt m n k))
      → sealed_key p draws group_key o ≡ some wrapped
      → length group_key + 40 ≤ length (p.base64_decode wrapped)
  unfolding sealed_key
  length-sealed_key draws group_key none wrapped grows h = absurd (ground (arith, h))
  length-sealed_key draws group_key (some shared) wrapped grows h =
      let nonce : Bytes = p.random_values draws 24 in
      let box : Bytes = p.secretbox_encrypt group_key nonce shared in
      let made : p.base64_encode (nonce ++ box) ≡ wrapped = cc in
      subst (λ w. length group_key + 40 ≤ length (p.base64_decode w)) made
        (rw (laws.base64_decode-encode (nonce ++ box)) (
          omega (
            arith,
            length-append nonce box,
            laws.random_length draws 24,
            grows group_key nonce shared,
          )))

  -- A wrapped key has a nonce and a tag beside the key.
  pub length-wrap :
      (draws : ℕ) (group_key secret public : Bytes) (wrapped : Text)
      → ((m n k : Bytes) → length m + 16 ≤ length (p.secretbox_encrypt m n k))
      → wrap_key_for_user p draws group_key secret public ≡ some wrapped
      → length group_key + 40 ≤ length (p.base64_decode wrapped)
  unfolding wrap_key_for_user
  length-wrap draws group_key secret public wrapped grows h =
      length-sealed_key draws group_key (box_before p public secret) wrapped grows h

  module _ (s s' q q' : Bytes) (pair : p.get_public_key s ≡ some q)
      (pair' : p.get_public_key s' ≡ some q') where
    read_apart :
        (draws : ℕ) (group_key shared : Bytes)
        → let sealed : Bytes = p.base64_decode (
            p.base64_encode (
              p.random_values draws 24
              ++ p.secretbox_encrypt group_key (p.random_values draws 24) shared)) in
          p.secretbox_decrypt (drop 24 sealed) (take 24 sealed) shared ≡ some group_key
    read_apart draws group_key shared =
        let nonce = p.random_values draws 24 in
        let sealed = p.secretbox_encrypt group_key nonce shared in
        rw
          (
            laws.base64_decode-encode (nonce ++ sealed),
            take-append_self nonce sealed 24 (laws.random_length draws 24),
            drop-append_self nonce sealed 24 (laws.random_length draws 24),
          )
          (laws.decrypt-encrypt group_key nonce shared)

    opened_key-sealed :
        (draws : ℕ) (group_key : Bytes) (o o' : Option Bytes) (wrapped : Text)
        → o ≡ o'
        → sealed_key p draws group_key o ≡ some wrapped
        → opened_key p (p.base64_decode wrapped) o' ≡ some group_key
    unfolding sealed_key opened_key
    opened_key-sealed draws group_key none o' wrapped e h = absurd (ground (arith, h))
    opened_key-sealed draws group_key (some shared) none wrapped e h = absurd (ground (arith, e))
    opened_key-sealed draws group_key (some shared) (some shared') wrapped e h =
        let nonce : Bytes = p.random_values draws 24 in
        let made : p.base64_encode (nonce ++ p.secretbox_encrypt group_key nonce shared) ≡ wrapped =
          cc in
        let one_secret : shared ≡ shared' = cc in
        subst (λ w. opened_key p (p.base64_decode w) (some shared') ≡ some group_key) made
          (subst
            (λ k.
              opened_key p
                (p.base64_decode
                  (p.base64_encode (nonce ++ p.secretbox_encrypt group_key nonce shared)))
                (some k)
              ≡ some group_key)
            one_secret (read_apart draws group_key shared))

    -- The wrapped key that the sender makes for a member opens with the member's secret key.
    pub unwrap-wrap :
        (draws : ℕ) (group_key : Bytes) (wrapped : Text)
        → wrap_key_for_user p draws group_key s q' ≡ some wrapped
        → unwrap_key_for_user p wrapped s' q ≡ some group_key
    unfolding wrap_key_for_user unwrap_key_for_user box_before
    unwrap-wrap draws group_key wrapped h =
        opened_key-sealed draws group_key _ _ wrapped (laws.agreement s s' q q' pair pair') h

    -- The public key of a participant, where it is the member's.
    abbrev pub HasKeyOf : Text → Text × Option Text → Type 0
    HasKeyOf user (other, none) = Unit
    HasKeyOf user (other, some key) = same other user ≡ true → hex_to_bytes key ≡ q'

    kept_opens :
        (user other : Text) (draws : ℕ) (group_key : Bytes) (o : Option Text) (keys : Assoc Text)
        (public : Bytes)
        → wrap_key_for_user p draws group_key s public ≡ o
        → (same other user ≡ true → public ≡ q')
        → ((w : Text) → lookup user keys ≡ some w → unwrap_key_for_user p w s' q ≡ some group_key)
        → (w : Text) → lookup user (keep_wrapped p other o keys) ≡ some w
        → unwrap_key_for_user p w s' q ≡ some group_key
    unfolding keep_wrapped
    kept_opens user other draws group_key none keys public e k old w h = old w h
    kept_opens user other draws group_key (some made) keys public e k old w h =
        elim (Bool-cases (same other user)) [
          | inl yes' ↦
              let found : lookup user (insert other made keys) ≡ some made =
                lookup-insert other user made keys ∙ if_true _ _ _ yes' in
              let one : made ≡ w = cc in
              unwrap-wrap draws group_key w
                (ap (wrap_key_for_user p draws group_key s) (sym (k yes')) ∙ e ∙ ap some one)
          | inr other_user ↦
              old w (sym (if_false _ _ _ other_user) ∙ sym (lookup-insert other user made keys) ∙ h)
        ]

    keys_for-opens :
        (user : Text) (draws : ℕ) (group_key : Bytes) (ps : List (Text × Option Text))
        (keys : Assoc Text)
        → All (HasKeyOf user) ps
        → ((w : Text) → lookup user keys ≡ some w → unwrap_key_for_user p w s' q ≡ some group_key)
        → (w : Text) → lookup user (keys_for p draws group_key s ps keys) ≡ some w
        → unwrap_key_for_user p w s' q ≡ some group_key
    unfolding keys_for
    keys_for-opens user draws group_key [] keys a old w h = old w h
    keys_for-opens user draws group_key ((other, none) ∷ ps) keys (_, a) old w h =
        keys_for-opens user draws group_key ps keys a old w h
    keys_for-opens user draws group_key ((other, some []) ∷ ps) keys (_, a) old w h =
        keys_for-opens user draws group_key ps keys a old w h
    keys_for-opens user draws group_key ((other, some (c ∷ cs)) ∷ ps) keys (k, a) old w h =
        keys_for-opens user
          (draws + drawn p (wrap_key_for_user p draws group_key s (hex_to_bytes (c ∷ cs))))
          group_key ps _ a
          (kept_opens user other draws group_key _ keys (hex_to_bytes (c ∷ cs)) refl k old) w h

    -- Over lawful primitives, and for key pairs of the sender and of a member: what is sent to
    -- the relay for a member gives that member the group key, where every entry of the list under
    -- its id has its public key, whatever the other participants' keys are and whether or not
    -- they could be used.
    pub init_group_key-unwrap :
        (user : Text) (draws : ℕ) (ps : List (Text × Option Text)) (w : Text)
        → All (HasKeyOf user) ps
        → lookup user (init_group_key p draws s ps).1 ≡ some w
        → unwrap_key_for_user p w s' q ≡ some (init_group_key p draws s ps).0
    unfolding init_group_key lookup
    init_group_key-unwrap user draws ps w a h =
        keys_for-opens user (draws + 1) _ ps [] a (λ w e. absurd (ground (arith, e))) w h
