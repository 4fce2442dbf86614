-- ===== src/Group/Examples.antt =====
-- The theorem on the group ratchet at a concrete group, over the stand-ins of the ratchet's tests.
use nur_chat.Prelude.{
  ◌≡◌, refl, ◌++◌, true, false, Option, none, some, List, [], ◌∷◌, arith, replicate,
}
use nur_chat.Text.{Text, Bytes, codes, same}
use nur_chat.Text.Hex.{hex_to_bytes}
use nur_chat.Assoc.{lookup, insert}
use nur_chat.Ratchet.Kdf.{box_before}
use nur_chat.Group.Keys.{
  generate_group_key, wrap_key_for_user, unwrap_key_for_user, keys_for, init_group_key,
  init_group_key-unwrap,
}
use nur_chat.Ratchet.Toy.{toy, toy-AreLawful}
use nur_chat.Group.{
  Store, fresh_state, kept_key, load_ratchet_states, load_first, sender_state, receiver_state,
  encrypt_group_message_ratcheted,
}
use nur_chat.Group.Receive.{decrypt_group_message_ratcheted}
use nur_chat.Group.Delivery.{InStep}
use nur_chat.Group.Messages.{
  IsLoadable, sending, receiving, after_encrypts, decrypt-encrypt_ratcheted,
}

abbrev group_key : Bytes
group_key = 1 ∷ 2 ∷ 3 ∷ []

-- Two devices with no state yet, in a group with the same key.
abbrev new_store : Store
new_store = record {
  cache = none;
  stored = none;
  legacy = [];
  writable = true;
  load_failed = false;
  draws = 0;
}

new_store-IsLoadable : IsLoadable new_store
unfolding load_ratchet_states load_first
new_store-IsLoadable = (_, _, refl)

start-InStep :
    InStep toy
      (sending toy group_key (codes "g") new_store)
      (receiving toy group_key (codes "g") new_store)
unfolding load_ratchet_states load_first lookup sender_state receiver_state fresh_state
start-InStep = record { chain = refl; step = refl }

-- Two messages are lost, the third arrives.
decrypt-encrypt_ratcheted_example :
    let sent =
      encrypt_group_message_ratcheted toy
        (codes "hi")
        group_key
        (codes "g")
        (after_encrypts toy (codes "a" ∷ codes "b" ∷ []) group_key (codes "g") new_store) in
    (envelope : Text) × (sent.0 ≡ some envelope)
    × ((decrypt_group_message_ratcheted toy envelope group_key (codes "g") new_store).0
        ≡ some (codes "hi"))
    × InStep toy (sending toy group_key (codes "g") sent.1) (
        receiving toy group_key
          (codes "g")
          (decrypt_group_message_ratcheted toy envelope group_key (codes "g") new_store).1)
    × IsLoadable sent.1
    × IsLoadable (decrypt_group_message_ratcheted toy envelope group_key (codes "g") new_store).1
unfolding load_ratchet_states load_first lookup receiver_state fresh_state kept_key
decrypt-encrypt_ratcheted_example =
    decrypt-encrypt_ratcheted toy toy-AreLawful (codes "a" ∷ codes "b" ∷ []) (codes "hi") group_key
      (codes "g") new_store new_store new_store-IsLoadable new_store-IsLoadable start-InStep
      (omega arith) (omega arith) refl (omega arith) refl

-- The secret key 5 of the creator and 7 of the member, whose public key is "07" in hex.
abbrev members : List (Text × Option Text)
members = (codes "u1", none) ∷ (codes "u2", some (codes "07")) ∷ []

member_key : same (codes "u2") (codes "u2") ≡ true → hex_to_bytes (codes "07") ≡ 7 ∷ []
unfolding hex_to_bytes
member_key e = refl

abbrev sent : Text
sent = replicate 24 1 ++ 12 ∷ replicate 32 0

member_sent : lookup (codes "u2") (init_group_key toy 0 (5 ∷ []) members).1 ≡ some sent
unfolding init_group_key keys_for wrap_key_for_user lookup insert hex_to_bytes box_before same
    generate_group_key
member_sent = refl

init_group_key-unwrap_example :
    unwrap_key_for_user toy sent (7 ∷ []) (5 ∷ []) ≡ some (init_group_key toy 0 (5 ∷ []) members).0
init_group_key-unwrap_example =
    init_group_key-unwrap toy toy-AreLawful (5 ∷ []) (7 ∷ []) (5 ∷ []) (7 ∷ []) refl refl
      (codes "u2") 0 members sent (tt, (member_key, tt)) member_sent
