-- ===== src/Ratchet/Toy.antt =====
-- Small stand-ins for the libraries, which behave as documented. Tests compute with them.
use mathlib.Core.Path.{subst}
use nur_chat.Prelude.{
  ℕ, ◌+◌, ◌*◌, ◌%◌, ◌≡◌, refl, Option, none, some, [], ◌∷◌, arith, ◌==◌, if◌then◌else◌, replicate,
  length, length-replicate, ap,
}
use nur_chat.Text.{Bytes}
use nur_chat.Text.Hex.{AreBytes}
use nur_chat.Ratchet.Primitives.{Primitives, AreLawful}

abbrev pub total : Bytes → ℕ
total [] = 0
total (b ∷ bs) = b + total bs

abbrev pub unbox : Bytes → Bytes → Option Bytes
unbox [] k = none
unbox (t ∷ m) k = if t == total k then some m else none

abbrev pub toy : Primitives
toy = record {
  hmac = λ k m. replicate 32 ((total k + 3 * total m + length m) % 256);
  keygen = λ n. record { public_key = (n % 256) ∷ []; secret_key = n ∷ [] };
  get_public_key = λ s. some ((total s % 256) ∷ []);
  get_shared_secret = λ s q. some (((total s + total q) % 256) ∷ []);
  random_values = λ n k. replicate k n;
  secretbox_encrypt = λ m n k. total k ∷ m;
  secretbox_decrypt = λ c n k. unbox c k;
  btoa = λ t. t;
  atob = λ t. some t;
  base64_encode = λ b. b;
  base64_decode = λ t. t;
  sha512 = λ m. replicate 64 ((total m + length m) % 256);
  sha256 = λ m. replicate 32 ((total m + length m) % 256);
  encode = λ t. t;
  decode = λ b. b;
}

toy_agreement :
    (s s' q q' : Bytes)
    → toy.get_public_key s ≡ some q
    → toy.get_public_key s' ≡ some q'
    → toy.get_shared_secret s q' ≡ toy.get_shared_secret s' q
toy_agreement s s' q q' h k =
    let e : (total s % 256) ∷ [] ≡ q = cc in
    let e' : (total s' % 256) ∷ [] ≡ q' = cc in
    rw (← e, ← e') (ap (λ n. some (n ∷ [])) (omega arith))

toy_public : (s q : Bytes) → toy.get_public_key s ≡ some q → AreBytes q
toy_public s q h = let e : (total s % 256) ∷ [] ≡ q = cc in subst AreBytes e (omega arith, tt)

pub toy-AreLawful : AreLawful toy
toy-AreLawful = record {
  decrypt-encrypt = λ m n k. ground arith;
  atob-btoa = λ t. refl;
  atob-nil = refl;
  base64_decode-encode = λ b. refl;
  base64_decode-nil = refl;
  decode-base64 = λ b. refl;
  keygen_pair = λ n. ground arith;
  public_bytes = toy_public;
  agreement = toy_agreement;
  random_length = λ n k. length-replicate k n;
}
