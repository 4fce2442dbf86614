-- ===== src/CallE2e/Unsealed.antt =====
-- What was sealed is unsealed by the other side.
use mathlib.Core.Path.{subst}
use nur_chat.Prelude.{
  ℕ, ◌+◌, ◌≡◌, ◌≤◌, refl, false, Option, none, some, [], ◌∷◌, ap, ◌∙◌, arith, length, if◌then◌else◌,
  Bool-cases, inl, inr, le→ltb,
}
use nur_chat.Text.{Text, Bytes, codes, same, same_iff}
use nur_chat.Text.Hex.{hex_to_bytes}
use nur_chat.Assoc.{
  Assoc, AreDistinct, lookup, insert, remove, or_else, lookup-put_all, lookup-insert, lookup-remove,
}
use nur_chat.Ratchet.Primitives.{Primitives, AreLawful}
use nur_chat.Group.Keys.{unwrap-wrap, length-wrap}
use nur_chat.CallE2e.{
  Values, take_field, body_of, sealed_fields, sealed_or_plain, restored, enc_of,
  encrypt_signaling_body, decrypt_signaling_body, seal_body, seal_signaling_message, unseal_text,
  unseal_signaling_message,
}

apart : same (codes "sdp") (codes "candidate") ≡ false
unfolding same
apart = refl

module _ {V : Type 0} where
  or_else-none : (o : Option V) → or_else o none ≡ o
  or_else-none none = refl
  or_else-none (some v) = refl

  lookup-take_field :
      (key k : Text) (o : Option V) (body : Assoc V)
      → lookup key (take_field k o body)
        ≡ or_else (if same k key then o else none) (lookup key body)
  unfolding take_field
  lookup-take_field key k none body = ground arith
  lookup-take_field key k (some v) body = ground (arith, lookup-insert k key v body)

  lookup-body_of :
      (key : Text) (msg : Assoc V)
      → lookup key (body_of msg)
        ≡ or_else
            (if same (codes "candidate") key then lookup (codes "candidate") msg else none)
            (or_else (if same (codes "sdp") key then lookup (codes "sdp") msg else none) none)
  unfolding body_of lookup
  lookup-body_of key msg =
      rw
        (
          lookup-take_field key (codes "candidate") (lookup (codes "candidate") msg)
              (take_field (codes "sdp") (lookup (codes "sdp") msg) []),
          lookup-take_field key (codes "sdp") (lookup (codes "sdp") msg) [],
        )
        refl

  AreDistinct-fields :
      (c s : Option V)
      → AreDistinct (take_field (codes "candidate") c (take_field (codes "sdp") s []))
  unfolding take_field insert lookup same
  AreDistinct-fields none none = tt
  AreDistinct-fields none (some s) = (refl, tt)
  AreDistinct-fields (some c) none = (refl, tt)
  AreDistinct-fields (some c) (some s) = (refl, (refl, tt))

  AreDistinct-body_of : (msg : Assoc V) → AreDistinct (body_of msg)
  unfolding body_of
  AreDistinct-body_of msg =
      AreDistinct-fields (lookup (codes "candidate") msg) (lookup (codes "sdp") msg)

  -- The fields that stay, without the two that sealing adds.
  lookup-rest :
      (vs : Values V) (enc key : Text) (msg : Assoc V)
      → lookup (codes "enc") msg ≡ none
      → lookup (codes "e2e") msg ≡ none
      → lookup key (remove (codes "e2e") (remove (codes "enc") (sealed_fields vs msg enc))) ≡ (
          if same (codes "candidate") key
          then none
          else if same (codes "sdp") key
          then none
          else lookup key msg)
  unfolding sealed_fields
  lookup-rest vs enc key msg no_enc no_e2e = ground (
    arith,
    same_iff (codes "enc") key,
    same_iff (codes "e2e") key,
    no_enc,
    no_e2e,
    lookup-remove (codes "e2e") key (remove (codes "enc") (sealed_fields vs msg enc)),
    lookup-remove (codes "enc") key (sealed_fields vs msg enc),
    lookup-insert (codes "e2e") key vs.true_value (
        insert (codes "enc") (vs.of_text enc)
          (remove (codes "candidate") (remove (codes "sdp") msg))),
    lookup-insert (codes "enc") key (vs.of_text enc)
        (remove (codes "candidate") (remove (codes "sdp") msg)),
    lookup-remove (codes "candidate") key (remove (codes "sdp") msg),
    lookup-remove (codes "sdp") key msg,
  )

  together :
      (key : Text) (msg : Assoc V)
      → or_else
          (or_else
            (if same (codes "candidate") key then lookup (codes "candidate") msg else none)
            (or_else (if same (codes "sdp") key then lookup (codes "sdp") msg else none) none))
          (if same (codes "candidate") key
            then none
            else if same (codes "sdp") key
            then none
            else lookup key msg)
        ≡ lookup key msg
  together key msg = elim (Bool-cases (same (codes "candidate") key)) [
    | inl e ↦
        let one : codes "candidate" ≡ key = (same_iff (codes "candidate") key).0 e in
        let other : same (codes "sdp") key ≡ false =
          subst (λ k. same (codes "sdp") k ≡ false) one apart in
        rw
          (
            e,
            other,
            or_else-none (lookup (codes "candidate") msg),
            or_else-none (lookup (codes "candidate") msg),
          )
          (ap (λ k. lookup k msg) one)
    | inr e ↦ elim (Bool-cases (same (codes "sdp") key)) [
      | inl d ↦
          rw
            (e, d, or_else-none (lookup (codes "sdp") msg), or_else-none (lookup (codes "sdp") msg))
            (ap (λ k. lookup k msg) ((same_iff (codes "sdp") key).0 d))
      | inr d ↦ rw (e, d) refl
    ]
  ]

  restored-fields :
      (vs : Values V) (enc key : Text) (msg : Assoc V)
      → lookup (codes "enc") msg ≡ none
      → lookup (codes "e2e") msg ≡ none
      → lookup key (restored (sealed_fields vs msg enc) (some (body_of msg))) ≡ lookup key msg
  unfolding restored
  restored-fields vs enc key msg no_enc no_e2e =
      let rest = remove (codes "e2e") (remove (codes "enc") (sealed_fields vs msg enc)) in
      rw
        (
          lookup-put_all key (body_of msg) rest (AreDistinct-body_of msg),
          lookup-body_of key msg,
          lookup-rest vs enc key msg no_enc no_e2e,
        )
        (together key msg)

  module _ (p : Primitives) (laws : AreLawful p) (vs : Values V) where
    sealed-opened :
        (enc key my_secret their_public : Text) (msg : Assoc V)
        → vs.to_text (vs.of_text enc) ≡ some enc
        → lookup (codes "enc") msg ≡ none
        → lookup (codes "e2e") msg ≡ none
        → decrypt_signaling_body p vs enc my_secret their_public ≡ some (body_of msg)
        → lookup key (
            unseal_signaling_message p vs
              (sealed_or_plain vs msg (some enc))
              my_secret
              their_public)
          ≡ lookup key msg
    unfolding unseal_signaling_message sealed_or_plain sealed_fields unseal_text enc_of same
    sealed-opened [] key my_secret their_public msg text no_enc no_e2e opens = rw no_enc refl
    sealed-opened (x ∷ xs) key my_secret their_public msg text no_enc no_e2e opens =
        rw (found, text, opens) (restored-fields vs (x ∷ xs) key msg no_enc no_e2e)
      where
        found : lookup (codes "enc") (sealed_fields vs msg (x ∷ xs)) ≡ some (vs.of_text (x ∷ xs))
        found =
            rw
              (
                lookup-insert (codes "e2e") (codes "enc") vs.true_value (
                    insert (codes "enc") (vs.of_text (x ∷ xs))
                      (remove (codes "candidate") (remove (codes "sdp") msg))),
                lookup-insert (codes "enc") (codes "enc") (vs.of_text (x ∷ xs))
                    (remove (codes "candidate") (remove (codes "sdp") msg)),
              )
              refl

    -- The body that was encrypted for a key is the body that the other side decrypts.
    decrypt-encrypt_body :
        (draws : ℕ) (body : Assoc V) (secret public my_secret my_public enc : Text)
        → ((m n k : Bytes) → length m + 16 ≤ length (p.secretbox_encrypt m n k))
        → p.decode (p.encode (vs.stringify body)) ≡ vs.stringify body
        → vs.parse (vs.stringify body) ≡ some body
        → p.get_public_key (hex_to_bytes secret) ≡ some (hex_to_bytes public)
        → p.get_public_key (hex_to_bytes my_secret) ≡ some (hex_to_bytes my_public)
        → encrypt_signaling_body p vs draws body secret my_public ≡ some enc
        → decrypt_signaling_body p vs enc my_secret public ≡ some body
    unfolding encrypt_signaling_body decrypt_signaling_body
    decrypt-encrypt_body draws body secret public my_secret my_public enc grows utf json pair pair'
          made =
        let plain : Bytes = p.encode (vs.stringify body) in
        rw
          (
            le→ltb (length (p.base64_decode enc)) 40 (
                omega (
                  arith,
                  length-wrap p laws draws plain (hex_to_bytes secret) (hex_to_bytes my_public) enc
                      grows made,
                )),
            unwrap-wrap p laws (hex_to_bytes secret) (hex_to_bytes my_secret) (hex_to_bytes public)
                (hex_to_bytes my_public) pair pair' draws plain enc made,
          )
          (ap vs.parse utf ∙ json)

    unseal_plain :
        (key my_secret their_public : Text) (msg : Assoc V)
        → lookup (codes "enc") msg ≡ none
        → lookup key (unseal_signaling_message p vs msg my_secret their_public) ≡ lookup key msg
    unfolding unseal_signaling_message unseal_text enc_of
    unseal_plain key my_secret their_public msg no_enc = rw no_enc refl

    -- Over lawful primitives, a cipher that adds at least 16 bytes, and values of which a text is the text
    -- again: where a message has no "enc" and no "e2e", the body is read again from its JSON, and the keys
    -- of the two sides are pairs, the message that one side sealed and the other unsealed has every field
    -- as it was before, also where nothing was encrypted.
    pub unseal-seal :
        (draws : ℕ) (msg : Assoc V) (key secret public my_secret my_public : Text)
        → ((m n k : Bytes) → length m + 16 ≤ length (p.secretbox_encrypt m n k))
        → ((t : Text) → vs.to_text (vs.of_text t) ≡ some t)
        → p.decode (p.encode (vs.stringify (body_of msg))) ≡ vs.stringify (body_of msg)
        → vs.parse (vs.stringify (body_of msg)) ≡ some (body_of msg)
        → p.get_public_key (hex_to_bytes secret) ≡ some (hex_to_bytes public)
        → p.get_public_key (hex_to_bytes my_secret) ≡ some (hex_to_bytes my_public)
        → lookup (codes "enc") msg ≡ none
        → lookup (codes "e2e") msg ≡ none
        → lookup key (
            unseal_signaling_message p vs
              (seal_signaling_message p vs draws msg secret my_public)
              my_secret
              public)
          ≡ lookup key msg
    unfolding seal_signaling_message seal_body sealed_or_plain
    unseal-seal draws msg key secret public my_secret my_public grows text utf json pair pair'
          no_enc no_e2e =
        cases (body_of msg) refl
      where
        cases :
            (body : Assoc V)
            → body_of msg ≡ body
            → lookup key (
                unseal_signaling_message p vs
                  (seal_body p vs draws msg body secret my_public)
                  my_secret
                  public)
              ≡ lookup key msg
        cases [] b = unseal_plain key my_secret public msg no_enc
        cases (f ∷ fs) b =
            encrypted (encrypt_signaling_body p vs draws (f ∷ fs) secret my_public) refl
          where
            encrypted :
                (o : Option Text)
                → encrypt_signaling_body p vs draws (f ∷ fs) secret my_public ≡ o
                → lookup key
                    (unseal_signaling_message p vs (sealed_or_plain vs msg o) my_secret public)
                  ≡ lookup key msg
            encrypted none made = unseal_plain key my_secret public msg no_enc
            encrypted (some enc) made =
                sealed-opened enc key my_secret public msg (text enc) no_enc no_e2e (
                  decrypt-encrypt_body draws (body_of msg) secret public my_secret my_public enc
                    grows utf json pair pair'
                    (ap (λ x. encrypt_signaling_body p vs draws x secret my_public) b ∙ made))
