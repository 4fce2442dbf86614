-- ===== src/CallE2e/Examples.antt =====
-- An offer of a call from one user to another. A body in JSON is here its first field.
use nur_chat.Prelude.{
  ◌+◌, ◌≡◌, ◌≤◌, refl, some, [], ◌∷◌, ◌++◌, replicate, drop, arith, length, length-replicate,
}
use nur_chat.Text.{Text, Bytes, codes, same}
use nur_chat.Text.Hex.{hex_to_bytes}
use nur_chat.Assoc.{Assoc, lookup, insert}
use nur_chat.Ratchet.Primitives.{Primitives, AreLawful}
use nur_chat.Ratchet.Toy.{total, unbox, toy, toy-AreLawful}
use nur_chat.CallE2e.{Values, take_field, body_of, seal_signaling_message, unseal_signaling_message}
use nur_chat.CallE2e.Unsealed.{unseal-seal}

abbrev first_value : Assoc Text → Text
first_value [] = []
first_value ((k, v) ∷ _) = v

abbrev texts : Values Text
texts = record {
  of_text = λ t. t;
  to_text = λ t. some t;
  true_value = codes "true";
  stringify = first_value;
  parse = λ t. some ((codes "sdp", t) ∷ []);
}

abbrev offer : Assoc Text
offer = (codes "type", codes "offer") ∷ (codes "sdp", codes "v=0") ∷ []

-- The cipher of the toy, with 16 bytes before the message.
abbrev tagging : Primitives
tagging = record toy {
  secretbox_encrypt = λ m n k. replicate 15 0 ++ total k ∷ m;
  secretbox_decrypt = λ c n k. unbox (drop 15 c) k;
}

tagging-AreLawful : AreLawful tagging
tagging-AreLawful = record {
  decrypt-encrypt = λ m n k. ground arith;
  atob-btoa = λ t. refl;
  atob-nil = refl;
  base64_decode-encode = λ b. refl;
  base64_decode-nil = refl;
  decode-base64 = λ b. refl;
  keygen_pair = λ n. ground arith;
  public_bytes = toy-AreLawful.public_bytes;
  agreement = toy-AreLawful.agreement;
  random_length = λ n k. length-replicate k n;
}

tagging_grows : (m n k : Bytes) → length m + 16 ≤ length (tagging.secretbox_encrypt m n k)
tagging_grows m n k = omega arith

unseal-seal_example :
    lookup (codes "sdp") (
      unseal_signaling_message tagging texts
        (seal_signaling_message tagging texts 3 offer (codes "05") (codes "07"))
        (codes "07")
        (codes "05"))
    ≡ lookup (codes "sdp") offer
unfolding hex_to_bytes body_of take_field insert lookup same
unseal-seal_example =
    unseal-seal tagging tagging-AreLawful texts 3 offer (codes "sdp") (codes "05") (codes "05")
      (codes "07") (codes "07") tagging_grows (λ t. refl) refl refl refl refl refl refl
