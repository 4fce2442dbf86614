-- ===== src/Ratchet/Primitives.antt =====
-- What frontend/src/services/doubleRatchet.ts and its siblings call and do not implement: the noble
-- libraries behind cryptoAdapter.ts, the browser's HMAC, base64 and UTF-8. A call that may throw
-- returns an option.
use nur_chat.Prelude.{ℕ, ◌≡◌, Option, some, [], length}
use nur_chat.Text.{Text, Bytes}
use nur_chat.Text.Hex.{AreBytes}

pub record KeyPair : Type 0 where
  pub public_key : Bytes
  pub secret_key : Bytes

pub record Primitives : Type 0 where
  -- HMAC-SHA-256 of a message under a key (`crypto.subtle.sign`)
  pub hmac : Bytes → Bytes → Bytes
  -- `x25519.keygen()`, at the n-th draw of randomness
  pub keygen : ℕ → KeyPair
  -- `x25519.getPublicKey(secret)`
  pub get_public_key : Bytes → Option Bytes
  -- `x25519.getSharedSecret(secret, public)`
  pub get_shared_secret : Bytes → Bytes → Option Bytes
  -- `crypto.getRandomValues` on an array of a given length, at the n-th draw
  pub random_values : ℕ → ℕ → Bytes
  -- `xsalsa20poly1305(key, nonce).encrypt(message)`, arguments in the order message, nonce, key
  pub secretbox_encrypt : Bytes → Bytes → Bytes → Bytes
  -- `secretboxDecrypt(ciphertext, nonce, key)`: none is null
  pub secretbox_decrypt : Bytes → Bytes → Bytes → Option Bytes
  -- `btoa` and `atob`
  pub btoa : Text → Text
  pub atob : Text → Option Text
  -- `encode` and `decode` of base64-arraybuffer
  pub base64_encode : Bytes → Text
  pub base64_decode : Text → Bytes
  -- SHA-512 and SHA-256
  pub sha512 : Bytes → Bytes
  pub sha256 : Bytes → Bytes
  -- `new TextEncoder().encode` and `new TextDecoder().decode`
  pub encode : Text → Bytes
  pub decode : Bytes → Text

-- The documented behaviour that the theorems rely on.
pub record AreLawful (p : Primitives) : Type 0 where
  -- decryption under the same nonce and key gives the message back
  pub decrypt-encrypt :
      (m n k : Bytes) → p.secretbox_decrypt (p.secretbox_encrypt m n k) n k ≡ some m
  -- base64 is reversible, and the empty text decodes to no bytes
  pub atob-btoa : (t : Text) → p.atob (p.btoa t) ≡ some t
  pub atob-nil : p.atob [] ≡ some []
  pub base64_decode-encode : (b : Bytes) → p.base64_decode (p.base64_encode b) ≡ b
  pub base64_decode-nil : p.base64_decode [] ≡ []
  -- a text in base64 is ASCII
  pub decode-base64 : (b : Bytes) → p.decode (p.encode (p.base64_encode b)) ≡ p.base64_encode b
  -- a generated key pair matches
  pub keygen_pair :
      (n : ℕ) → p.get_public_key (p.keygen n).secret_key ≡ some (p.keygen n).public_key
  -- public keys are arrays of bytes
  pub public_bytes : (s q : Bytes) → p.get_public_key s ≡ some q → AreBytes q
  -- Diffie-Hellman: both sides compute one secret
  pub agreement :
      (s s' q q' : Bytes)
      → p.get_public_key s ≡ some q
      → p.get_public_key s' ≡ some q'
      → p.get_shared_secret s q' ≡ p.get_shared_secret s' q
  -- random values have the length asked for
  pub random_length : (n k : ℕ) → length (p.random_values n k) ≡ k
