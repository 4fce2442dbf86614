-- ===== src/FileE2e/Delivery.antt =====
-- A file that one user sends, the other user reads.
use nur_chat.Prelude.{
  ℕ, ◌+◌, ◌-◌, ◌%◌, ◌≤◌, ◌<◌, ◌≡◌, refl, true, some, ◌++◌, ◌==◌, ltb, length, length-append,
  take-append_self, drop-append_self, arith, ap, ◌∙◌, Bool-cases, inl, inr, le→ltb, tests, ==_iff,
}
use nur_chat.Text.{Text, Bytes}
use nur_chat.Text.Hex.{hex_to_bytes}
use nur_chat.Assoc.{Assoc}
use nur_chat.Ratchet.Primitives.{Primitives, AreLawful}
use nur_chat.Padding.{be32, read32-be32}
use nur_chat.Group.Keys.{unwrap-wrap}
use nur_chat.FileE2e.{
  padded_file_len, has_magic, unpad_file_bytes, unframed, wrapped_for, file_tail, pad_file_bytes,
  encrypt_file_bytes, opened_file, decrypt_file_bytes, wrap_file_key, unwrap_file_key, unwrap_if,
  unwrap_my_file_key,
}

padded_file_len_bounds : (n : ℕ) → (8 + n ≤ padded_file_len n) × (padded_file_len n % 65536 ≡ 0)
unfolding padded_file_len
padded_file_len_bounds n = (omega arith, omega arith)

module _ (p : Primitives) (laws : AreLawful p) where
  length-file_tail : (draws n : ℕ) → length (file_tail p draws n) ≡ padded_file_len n - (8 + n)
  unfolding file_tail
  length-file_tail draws n = elim (Bool-cases (ltb (8 + n) (padded_file_len n))) [
    | inl more ↦ rw more (laws.random_length draws (padded_file_len n - (8 + n)))
    | inr full ↦ rw full (omega tests)
  ]

  length-pad_file_bytes :
      (draws : ℕ) (plain : Bytes)
      → length (pad_file_bytes p draws plain) ≡ padded_file_len (length plain)
  unfolding pad_file_bytes be32
  length-pad_file_bytes draws plain = omega (
    arith,
    length-append plain (file_tail p draws (length plain)),
    length-file_tail draws (length plain),
    padded_file_len_bounds (length plain),
  )

  -- A frame of a file of less than 2 ^ 32 bytes gives the file back, whatever its bytes.
  pub unpad_file-pad :
      (draws : ℕ) (plain : Bytes)
      → length plain < 4294967296
      → unpad_file_bytes (pad_file_bytes p draws plain) ≡ some plain
  unfolding unpad_file_bytes has_magic pad_file_bytes be32
  unpad_file-pad draws plain h =
      let framed = pad_file_bytes p draws plain in
      let size : length framed ≡ padded_file_len (length plain) =
        length-pad_file_bytes draws plain in
      let bounds = padded_file_len_bounds (length plain) in
      let whole : (length framed % 65536 == 0) ≡ true = (==_iff _ _).1 (omega (arith, size)) in
      rw
        (
          le→ltb (length framed) 8 (omega arith),
          whole,
          read32-be32 (length plain) (plain ++ file_tail p draws (length plain)) h,
          le→ltb (length framed - 8) (length plain) (omega arith),
          take-append_self plain (file_tail p draws (length plain)) (length plain) refl,
        )
        refl

  decrypt_file-encrypt :
      (draws : ℕ) (plain key : Bytes)
      → ((m n k : Bytes) → length m ≤ length (p.secretbox_encrypt m n k))
      → length plain < 4294967296
      → decrypt_file_bytes p (encrypt_file_bytes p draws plain key) key ≡ some plain
  unfolding decrypt_file_bytes encrypt_file_bytes opened_file unframed
  decrypt_file-encrypt draws plain key grows h =
      let nonce : Bytes = p.random_values draws 24 in
      let framed : Bytes = pad_file_bytes p (draws + 1) plain in
      let box : Bytes = p.secretbox_encrypt framed nonce key in
      let large : length framed ≡ padded_file_len (length plain) =
        length-pad_file_bytes (draws + 1) plain in
      let bounds = padded_file_len_bounds (length plain) in
      rw
        (
          le→ltb (length (nonce ++ box)) 40 (
              omega (
                arith,
                length-append nonce box,
                laws.random_length draws 24,
                grows framed nonce key,
                large,
                bounds,
              )),
          drop-append_self nonce box 24 (laws.random_length draws 24),
          take-append_self nonce box 24 (laws.random_length draws 24),
          laws.decrypt-encrypt framed nonce key,
          unpad_file-pad (draws + 1) plain h,
        )
        refl

  -- Over lawful primitives, and a cipher that does not shorten: where the key of a file was wrapped for a
  -- user and the wrapped key is in the envelope under the user's id, the user gets the key with the own
  -- secret key and the sender's public key, and reads the file that was encrypted with it, for files of less
  -- than 2 ^ 32 bytes.
  pub file_received :
      (draws draws' : ℕ) (key plain : Bytes) (secret public my_secret my_public user w : Text)
      (wrapped : Assoc Text)
      → ((m n k : Bytes) → length m ≤ length (p.secretbox_encrypt m n k))
      → p.get_public_key (hex_to_bytes secret) ≡ some (hex_to_bytes public)
      → p.get_public_key (hex_to_bytes my_secret) ≡ some (hex_to_bytes my_public)
      → wrap_file_key p draws key secret my_public ≡ some w
      → wrapped_for user wrapped ≡ some w
      → length plain < 4294967296
      → (unwrap_my_file_key p wrapped user my_secret public ≡ some key)
        × (decrypt_file_bytes p (encrypt_file_bytes p draws' plain key) key ≡ some plain)
  unfolding unwrap_my_file_key unwrap_if unwrap_file_key wrap_file_key
  file_received draws draws' key plain secret public my_secret my_public user w wrapped grows pair
        pair' made there h =
      (
        ap (λ o. unwrap_if p o my_secret public) there
            ∙ unwrap-wrap p laws (hex_to_bytes secret) (hex_to_bytes my_secret)
                (hex_to_bytes public) (hex_to_bytes my_public) pair pair' draws key w made,
        decrypt_file-encrypt draws' plain key grows h,
      )
