-- ===== src/Ratchet/Examples.antt =====
-- The theorems on the ratchet at concrete sessions, over the stand-ins of `Toy`.
use nur_chat.Prelude.{◌≡◌, refl, none, some, [], ◌∷◌, arith, map, inr}
use nur_chat.Text.{codes, same}
use nur_chat.Text.Hex.{bytes_to_hex, hex_to_bytes}
use nur_chat.Text.Decimal.{decimal}
use nur_chat.Assoc.{lookup, insert}
use nur_chat.Exec.{Outcome, done, thrown}
use nur_chat.Ratchet.Toy.{toy, toy-AreLawful}
use nur_chat.Ratchet.Kdf.{
  hkdf, hkdf_extract, hkdf_expand, expand_blocks, binary_chunks, next_message_key, box_before,
  box_key_pair_from_secret_key, to_base64, from_base64,
}
use nur_chat.Ratchet.Session.{
  Error, Session, State, Envelope, replay, in_the_past, associated_data, u8_less, message_id, has,
  add, empty_session,
}
use nur_chat.Ratchet.Handshake.{initialize_as_alice, initialize_as_bob}
use nur_chat.Ratchet.Messages.{
  ratchet_if_pending, ensure_chain, prepare, rotate, seal, encrypt_message, decrypt_message,
  is_worn, ratchet_if_new, advance,
}
use nur_chat.Ratchet.Delivery.{Linked, transmit, transmit_delivers}
use nur_chat.Ratchet.Conversation.{
  IsOpening, IsOpening-IsQuiet, transmit_all, transmit_all_delivers,
}
use nur_chat.Ratchet.Agreement.{new_state, handshake-Linked}
use nur_chat.Ratchet.Replay.{replay_refused, decrypt_skipped_fails}
use nur_chat.Ratchet.Stored.{IsStorable, serialize, deserialize, set_of, deserialize-serialize}
use nur_chat.Ratchet.Messages.{sort_ids, last_of}
use nur_chat.Ratchet.Turn.{IsTurn, turn_delivers}

-- The first side with identity secret 5, the second with identity 7 and signed key 9.
abbrev alice : State
alice = (initialize_as_alice toy (5 ∷ []) (7 ∷ []) (9 ∷ []) none (new_state 100)).1

abbrev bob : State
bob = (initialize_as_bob toy (7 ∷ []) (9 ∷ []) none (5 ∷ []) (100 ∷ []) (new_state 0)).1

handshake-Linked_example :
    ((initialize_as_alice toy (5 ∷ []) (7 ∷ []) (9 ∷ []) none (new_state 100)).0 ≡ done tt)
    × ((initialize_as_bob toy (7 ∷ []) (9 ∷ []) none (5 ∷ []) (100 ∷ []) (new_state 0)).0 ≡ done tt)
    × Linked alice.session bob.session
    × IsOpening alice.session
handshake-Linked_example =
    handshake-Linked toy toy-AreLawful (5 ∷ []) (7 ∷ []) (9 ∷ []) (5 ∷ []) (7 ∷ []) (9 ∷ []) refl
      refl refl 100 0 (14 ∷ []) (107 ∷ []) (109 ∷ []) refl refl refl

start-Linked : Linked alice.session bob.session
start-Linked = handshake-Linked_example.2

transmit_delivers_example :
    ((transmit toy (codes "hi") alice bob).0 ≡ done (codes "hi"))
    × Linked
        (transmit toy (codes "hi") alice bob).1.session
        (transmit toy (codes "hi") alice bob).2.session
transmit_delivers_example =
    transmit_delivers toy toy-AreLawful alice bob (codes "hi") start-Linked
      (IsOpening-IsQuiet toy alice.session handshake-Linked_example.3) refl

transmit_all_delivers_example :
    (transmit_all toy (codes "a" ∷ codes "b" ∷ codes "c" ∷ []) alice bob).0
    ≡ map done (codes "a" ∷ codes "b" ∷ codes "c" ∷ [])
transmit_all_delivers_example =
    transmit_all_delivers toy toy-AreLawful (codes "a" ∷ codes "b" ∷ codes "c" ∷ []) alice bob
      start-Linked handshake-Linked_example.3 (refl, (refl, (refl, tt)))

-- What the tests compute with.
program : Unit {0}
unfolding initialize_as_alice initialize_as_bob box_before box_key_pair_from_secret_key
    next_message_key hkdf hkdf_expand expand_blocks hkdf_extract associated_data u8_less message_id
    has add bytes_to_hex hex_to_bytes decimal lookup insert same is_worn ratchet_if_pending
    ensure_chain prepare rotate seal encrypt_message ratchet_if_new advance decrypt_message
    to_base64 from_base64 binary_chunks
program = tt

abbrev first : Outcome Error Envelope × State
first = encrypt_message toy (codes "hi") alice

abbrev envelope_of : Outcome Error Envelope → Envelope
envelope_of (done e) = e
envelope_of (thrown e) = record { header = record { dh = []; pn = 0; ns = 0 }; ciphertext = [] }

first_read :
    decrypt_message toy (envelope_of first.0) bob
    ≡ (done (codes "hi"), (decrypt_message toy (envelope_of first.0) bob).1)
unfolding program
first_read = refl

replay_refused_example :
    decrypt_message toy
      (record (envelope_of first.0) { ciphertext = codes "x" })
      (decrypt_message toy (envelope_of first.0) bob).1
    ≡ (thrown in_the_past, (decrypt_message toy (envelope_of first.0) bob).1)
replay_refused_example =
    replay_refused toy (envelope_of first.0)
      (record (envelope_of first.0) { ciphertext = codes "x" }) (codes "hi") bob
      (decrypt_message toy (envelope_of first.0) bob).1 first_read refl

-- The key of message 0 was kept when message 1 arrived before it.
abbrev overtaken : State
overtaken = record bob {
  session = record bob.session { skipped = (message_id (codes "64") 0, 1 ∷ []) ∷ [] };
}

abbrev late : Envelope
late = record { header = record { dh = codes "64"; pn = 0; ns = 0 }; ciphertext = codes "x" }

late_kept :
    lookup (message_id late.header.dh late.header.ns) overtaken.session.skipped ≡ some (1 ∷ [])
unfolding program
late_kept = refl

decrypt_skipped_fails_example : (decrypt_message toy late overtaken).0 ≡ thrown replay
decrypt_skipped_fails_example = decrypt_skipped_fails toy late overtaken (1 ∷ []) late_kept

bob-IsTurn : IsTurn toy bob alice
unfolding program
bob-IsTurn = record {
  remote = 100 ∷ [];
  own = toy.keygen 100;
  secret = 100 ∷ [];
  due = inr (refl, refl, refl);
  dhr = refl;
  dhs = refl;
  own_pair = refl;
  next_valid = refl;
  shared = refl;
  same_root = refl;
  same_data = refl;
  is_new = refl;
  unkept = λ n. refl;
  unseen = λ n. refl;
}

turn_delivers_example :
    ((transmit toy (codes "yo") bob alice).0 ≡ done (codes "yo"))
    × Linked
        (transmit toy (codes "yo") bob alice).1.session
        (transmit toy (codes "yo") bob alice).2.session
turn_delivers_example = turn_delivers toy toy-AreLawful bob alice (codes "yo") bob-IsTurn refl

abbrev stored_session : Session
stored_session = record empty_session {
  dhs = some (record { public_key = 5 ∷ []; secret_key = 5 ∷ [] });
  rk = some (1 ∷ 2 ∷ []);
  ns = 4;
}

stored_session-IsStorable : IsStorable toy stored_session
unfolding to_base64 binary_chunks
stored_session-IsStorable = record {
  pair = (refl, (omega arith, tt), (omega arith, tt));
  remote = tt;
  root = refl;
  sending = tt;
  receiving = tt;
  ours = tt;
  theirs = tt;
}

deserialize-serialize_example :
    deserialize toy (serialize toy stored_session)
    ≡ done
        (record stored_session { seen = set_of [] (last_of 2000 (sort_ids stored_session.seen)) })
deserialize-serialize_example =
    deserialize-serialize toy toy-AreLawful stored_session stored_session-IsStorable
