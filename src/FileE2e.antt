-- ===== src/FileE2e.antt =====
-- The encryption of files, frontend/src/services/fileE2E.ts: the bytes in a frame, and the key of a file
-- wrapped for a recipient.
pub mod Delivery
mod Examples
use nur_chat.Prelude.{
  ℕ, ◌+◌, ◌-◌, ◌*◌, ◌/◌, ◌%◌, ◌≤◌, ◌<◌, ◌≡◌, refl, Bool, true, false, not, ◌&&◌, ◌||◌, Option, none,
  some, List, [], ◌∷◌, ◌++◌, ◌==◌, ltb, if◌then◌else◌, length, take, drop, length-append,
  take-append_self, drop-append_self, arith, ap, sym, ◌∙◌, Bool-cases, inl, inr, le→ltb, lt→ltb,
  tests, ==_iff,
}
use nur_chat.Text.{Text, Bytes}
use nur_chat.Text.Hex.{hex_to_bytes}
use nur_chat.Assoc.{Assoc, lookup}
use nur_chat.Ratchet.Primitives.{Primitives, AreLawful}
use nur_chat.Ratchet.Kdf.{box_before}
use nur_chat.Group.Keys.{wrap_key_for_user, unwrap_key_for_user}
use nur_chat.Padding.{be32, read32, read32-be32}

abbrev pub file_pad_block : ℕ
file_pad_block = 65536

-- "NCF1"
abbrev pub file_pad_magic : Bytes
file_pad_magic = 0x4e ∷ 0x43 ∷ 0x46 ∷ 0x31 ∷ []

-- `Math.ceil((8 + n) / FILE_PAD_BLOCK) * FILE_PAD_BLOCK`
unfoldable pub padded_file_len : ℕ → ℕ
padded_file_len n = (8 + n + 65535) / file_pad_block * file_pad_block

unfoldable pub has_magic : Bytes → Bool
has_magic (a ∷ b ∷ c ∷ d ∷ _) = a == 0x4e && b == 0x43 && c == 0x46 && d == 0x31
has_magic _ = false

unfoldable pub unpad_file_bytes : Bytes → Option Bytes
unfolding read32 has_magic
unpad_file_bytes framed =
    let len = read32 (drop 4 framed) in
    if ltb (length framed) 8
    then none
    else if not (length framed % file_pad_block == 0)
    then none
    else if not (has_magic framed)
    then none
    else if ltb (length framed - 8) len
    then none
    else some (take len (drop 8 framed))

-- `unpadFileBytes(plain) ?? plain`: a file from before the frames is its bytes.
unfoldable pub unframed : Option Bytes → Bytes → Bytes
unframed none plain = plain
unframed (some b) plain = b

-- `wrapped[myUserId]`, and the empty text is missing too.
unfoldable pub wrapped_for : Text → Assoc Text → Option Text
wrapped_for user m = elim (lookup user m) [
  | none ↦ none
  | some w ↦ elim w [ [] ↦ none | x ∷ xs ↦ some (x ∷ xs) ]
]

module _ (p : Primitives) where
  unfoldable pub generate_file_key : ℕ → Bytes
  generate_file_key draws = p.random_values draws 32

  -- The random tail, where the frame does not fill its blocks.
  unfoldable pub file_tail : ℕ → ℕ → Bytes
  unfolding padded_file_len
  file_tail draws n =
      if ltb (8 + n) (padded_file_len n)
      then p.random_values draws (padded_file_len n - (8 + n))
      else []

  unfoldable pub pad_file_bytes : ℕ → Bytes → Bytes
  unfolding file_tail be32
  pad_file_bytes draws plain =
      file_pad_magic ++ (be32 (length plain) ++ (plain ++ file_tail draws (length plain)))

  -- The nonce is drawn before the tail.
  unfoldable pub encrypt_file_bytes : ℕ → Bytes → Bytes → Bytes
  unfolding pad_file_bytes
  encrypt_file_bytes draws plain key =
      let nonce = p.random_values draws 24 in
      nonce ++ p.secretbox_encrypt (pad_file_bytes (draws + 1) plain) nonce key

  unfoldable pub opened_file : Option Bytes → Option Bytes
  unfolding unframed unpad_file_bytes
  opened_file none = none
  opened_file (some plain) = some (unframed (unpad_file_bytes plain) plain)

  unfoldable pub decrypt_file_bytes : Bytes → Bytes → Option Bytes
  unfolding opened_file
  decrypt_file_bytes cipher key =
      if ltb (length cipher) 40
      then none
      else opened_file (p.secretbox_decrypt (drop 24 cipher) (take 24 cipher) key)

  -- The key is wrapped as groupE2E.ts wraps the group key; none where the curve refuses a key.
  unfoldable pub wrap_file_key : ℕ → Bytes → Text → Text → Option Text
  unfolding wrap_key_for_user
  wrap_file_key draws key my_secret their_public =
      wrap_key_for_user p draws key (hex_to_bytes my_secret) (hex_to_bytes their_public)

  unfoldable pub unwrap_file_key : Text → Text → Text → Option Bytes
  unfolding unwrap_key_for_user
  unwrap_file_key wrapped my_secret their_public =
      unwrap_key_for_user p wrapped (hex_to_bytes my_secret) (hex_to_bytes their_public)

  unfoldable pub unwrap_if : Option Text → Text → Text → Option Bytes
  unfolding unwrap_file_key
  unwrap_if none my_secret sender_public = none
  unwrap_if (some wrapped) my_secret sender_public = unwrap_file_key wrapped my_secret sender_public

  unfoldable pub unwrap_my_file_key : Assoc Text → Text → Text → Text → Option Bytes
  unfolding unwrap_if wrapped_for
  unwrap_my_file_key wrapped user my_secret sender_public =
      unwrap_if (wrapped_for user wrapped) my_secret sender_public
