-- ===== src/FileE2e/Examples.antt =====
-- A file from one user to another.
use nur_chat.Prelude.{◌≡◌, ◌≤◌, refl, some, [], ◌∷◌, ◌++◌, replicate, arith, length}
use nur_chat.Text.{Text, Bytes, codes, same}
use nur_chat.Text.Hex.{hex_to_bytes}
use nur_chat.Assoc.{Assoc, lookup}
use nur_chat.Ratchet.Toy.{toy, toy-AreLawful}
use nur_chat.Ratchet.Kdf.{box_before}
use nur_chat.Group.Keys.{wrap_key_for_user}
use nur_chat.FileE2e.{
  wrap_file_key, wrapped_for, unwrap_my_file_key, encrypt_file_bytes, decrypt_file_bytes,
}
use nur_chat.FileE2e.Delivery.{file_received}

toy_grows : (m n k : Bytes) → length m ≤ length (toy.secretbox_encrypt m n k)
toy_grows m n k = omega arith

abbrev file_key : Bytes
file_key = 4 ∷ 4 ∷ []

abbrev sent : Text
sent = replicate 24 0 ++ 12 ∷ 4 ∷ 4 ∷ []

abbrev for_user : Assoc Text
for_user = (codes "u2", sent) ∷ []

file_received_example :
    (unwrap_my_file_key toy for_user (codes "u2") (codes "07") (codes "05") ≡ some file_key)
    × (decrypt_file_bytes toy (encrypt_file_bytes toy 9 (codes "data") file_key) file_key
        ≡ some (codes "data"))
unfolding hex_to_bytes wrap_file_key wrap_key_for_user box_before wrapped_for lookup same
file_received_example =
    file_received toy toy-AreLawful 0 9 file_key (codes "data") (codes "05") (codes "05")
      (codes "07") (codes "07") (codes "u2") sent for_user toy_grows refl refl refl refl
      (omega arith)
