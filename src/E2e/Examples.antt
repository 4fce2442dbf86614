-- ===== src/E2e/Examples.antt =====
-- The statements at two sides that meet. Signatures and JSON are small stand-ins.
mod Setup
use nur_chat.Prelude.{
  zero, suc, ℕ, ◌≡◌, refl, true, false, ◌&&◌, Option, none, some, [], ◌∷◌, ◌++◌, arith, ap,
  if◌then◌else◌, length, take, drop, replicate, take-append_self, drop-append_self,
}
use nur_chat.Text.{Text, codes, same}
use nur_chat.Text.Hex.{AreBytes, hex_to_bytes}
use nur_chat.Assoc.{Assoc, AreDistinct, lookup}
use nur_chat.SecureStorage.{read_write}
use nur_chat.Exec.{done, thrown}
use nur_chat.Ratchet.Toy.{toy, toy-AreLawful}
use nur_chat.Ratchet.Session.{
  Session, Envelope, empty_session, decryption_failed, has, associated_data, u8_less,
}
use nur_chat.Ratchet.Kdf.{
  to_base64, binary_chunks, from_base64, next_message_key, hkdf, hkdf_expand, expand_blocks,
  hkdf_extract,
}
use nur_chat.SecureStorage.Records.{load_spk, load_value, load_text}
use nur_chat.SecureStorage.Toy.{marking, marking-AesIsLawful}
use nur_chat.Ratchet.Calls.{caught_up}
use nur_chat.Ratchet.Refusal.{is_bound, payload_of, key_for}
use nur_chat.E2e.Sessions.{prekey_to_use, or_identity, verified_bundle, spk_secret}
use nur_chat.E2e.Messages.{
  encrypt_message, decrypt_message, cached_text, cache_key, has_valid_signature, decrypt_and_verify,
  open_text, session_to_decrypt, is_stale,
}
use nur_chat.Ratchet.Stored.{SerializedSession, IsStorable, serialize, map_option}
use nur_chat.Ratchet.Steps.{is_some}
use nur_chat.E2e.Payload.{serialize_all, persist_sessions, load_sessions_from_storage}
use nur_chat.E2e.Restore.{shortened}
use nur_chat.E2e.Reload.{WritingIsLawful, snapshot, reload, load-persist_sessions}
use nur_chat.E2e.Cached.{decrypt_message-again, decrypt_message-signed}
use nur_chat.E2e.Sessions.{invalidate_sessions_for_user}
use nur_chat.E2e.Invalidation.{is_peer, lookup-invalidate_sessions_for_user, decrypt_message-stale}
use nur_chat.Ratchet.Messages
use nur_chat.E2e.Exchange.{Corresponds, CodecsAreLawful, next_message}
use nur_chat.E2e.FirstMessage.{Contact, first_message}
use nur_chat.E2e.{
  Signatures, SignaturesAreLawful, Codecs, E2eKeys, EncryptedEnvelope, State, ratchet, both,
}

-- A signature is 64 bytes that do not depend on the message.
abbrev stamping : Signatures
stamping = record {
  keygen = λ n. record { public_key = n ∷ []; secret_key = n ∷ [] };
  sign = λ m k. some (replicate 64 7);
  verify = λ m s k. some true;
  get_public_key = λ k. some k;
}

all_sevens : (n : ℕ) → AreBytes (replicate n 7)
all_sevens zero = tt
all_sevens (suc n) = (omega arith, all_sevens n)

stamping-SignaturesAreLawful : SignaturesAreLawful stamping
stamping-SignaturesAreLawful = record {
  verify-sign = λ m k q e. (replicate 64 7, refl, refl, all_sevens 64, refl);
}

-- Numbers and texts one behind the other, the first text behind its length.
abbrev joined : Envelope → Text
joined e = e.header.pn ∷ e.header.ns ∷ length e.header.dh ∷ (e.header.dh ++ e.ciphertext)

abbrev parted : Text → Option Envelope
parted (pn ∷ ns ∷ n ∷ rest) =
    some
      (record { header = record { dh = take n rest; pn = pn; ns = ns }; ciphertext = drop n rest })
parted _ = none

abbrev codecs : Codecs
codecs = record {
  key_pair = record { stringify = λ k. []; parse = λ t. none };
  spk = record { stringify = λ k. []; parse = λ t. none };
  opks = record { stringify = λ k. []; parse = λ t. none };
  text = record { stringify = λ t. t; parse = λ t. some t };
  envelope = record { stringify = joined; parse = parted };
  write_persisted = λ d. [];
  read_persisted = λ t. none;
}

codecs-CodecsAreLawful : CodecsAreLawful codecs
codecs-CodecsAreLawful = record {
  parse-stringify = λ e.
      rw
        (
          take-append_self e.header.dh e.ciphertext (length e.header.dh) refl,
          drop-append_self e.header.dh e.ciphertext (length e.header.dh) refl,
        )
        refl;
}

abbrev alice_keys : E2eKeys
alice_keys = record {
  private_key_hex = codes "05";
  public_key_hex = codes "05";
  signing_private_hex = codes "0a";
  signing_public_hex = codes "0a";
}

abbrev bob_keys : E2eKeys
bob_keys = record {
  private_key_hex = codes "07";
  public_key_hex = codes "07";
  signing_private_hex = codes "0b";
  signing_public_hex = codes "0b";
}

-- A device with nothing on it.
abbrev device : ℕ → State
device n = record {
  sessions = [];
  peers = [];
  decrypted = [];
  storage = record {
    keys = [];
    sessions = [];
    meta = [];
    database = read_write;
    namespace = [];
    passphrase = none;
    key_cache = none;
    draws = n;
  };
}

-- The peer has no signed prekey, so both sides use its identity.
contact :
    Contact toy alice_keys bob_keys
      (prekey_to_use stamping none none bob_keys.public_key_hex)
      (spk_secret bob_keys none)
      100
unfolding hex_to_bytes prekey_to_use or_identity verified_bundle spk_secret
contact = record {
  sender_key = refl;
  receiver_key = refl;
  prekey_pair = refl;
  x1 = _;
  x2 = _;
  x3 = _;
  shared1 = refl;
  shared2 = refl;
  shared3 = refl;
}

nothing_stored : (load_spk toy marking codecs.spk (device 0).storage).0 ≡ done none
unfolding load_spk load_value load_text lookup
nothing_stored = refl

first_message_example :
    (e : EncryptedEnvelope) × (sa' sb' : State) × (encrypt_message toy marking stamping codecs 1
        (codes "hi")
        alice_keys
        bob_keys.public_key_hex
        (codes "c")
        (codes "u1")
        (some (codes "user_2"))
        none
        (device 100)
      ≡ (done e, sa'))
    × (decrypt_message toy marking stamping codecs e bob_keys alice_keys.public_key_hex
          (codes "c")
          (some (codes "m1"))
          (device 0)
        ≡ (some (codes "hi"), sb'))
    × Corresponds (codes "c") sa' sb'
unfolding cached_text cache_key lookup
first_message_example =
    first_message toy marking stamping codecs toy-AreLawful stamping-SignaturesAreLawful
      codecs-CodecsAreLawful 1 (codes "hi") alice_keys bob_keys (codes "c") (codes "u1")
      (some (codes "user_2")) none (some (codes "m1")) (device 100) (device 0) none _ _ refl refl
      nothing_stored contact refl refl refl (omega arith) refl

-- The two sides after the first message.
met : (sa' sb' : State) × Corresponds (codes "c") sa' sb'
unfolding cached_text cache_key lookup
met =
    let (e, sa', sb', a, b, r) =
      first_message toy marking stamping codecs toy-AreLawful stamping-SignaturesAreLawful
        codecs-CodecsAreLawful 1 (codes "hi") alice_keys bob_keys (codes "c") (codes "u1") none none
        none (device 100) (device 0) none _ _ refl refl nothing_stored contact refl refl refl
        (omega arith) refl in
    (sa', sb', r)

next_message_example :
    (e : EncryptedEnvelope) × (sa' sb' : State) × (encrypt_message toy marking stamping codecs 2
        (codes "you")
        alice_keys
        bob_keys.public_key_hex
        (codes "c")
        (codes "u1")
        none
        none
        met.0
      ≡ (done e, sa'))
    × (decrypt_message toy marking stamping codecs e bob_keys alice_keys.public_key_hex
          (codes "c")
          none
          met.1
        ≡ (some (codes "you"), sb'))
    × Corresponds (codes "c") sa' sb'
unfolding cached_text cache_key
next_message_example =
    next_message toy marking stamping codecs toy-AreLawful stamping-SignaturesAreLawful
      codecs-CodecsAreLawful 2 (codes "you") alice_keys bob_keys bob_keys.public_key_hex
      alice_keys.public_key_hex (codes "c") (codes "u1") none none none met.0 met.1 _ _ met.2 refl
      refl refl (omega arith) refl

-- The first message, read under an id.
first_read :
    (e : EncryptedEnvelope) × (sb' : State) × (decrypt_message toy marking stamping codecs e
        bob_keys alice_keys.public_key_hex
        (codes "c")
        (some (codes "m1"))
        (device 0)
      ≡ (some (codes "hi"), sb'))
unfolding cached_text cache_key lookup
first_read =
    let (e, sa', sb', a, b, r) =
      first_message toy marking stamping codecs toy-AreLawful stamping-SignaturesAreLawful
        codecs-CodecsAreLawful 1 (codes "hi") alice_keys bob_keys (codes "c") (codes "u1") none none
        (some (codes "m1")) (device 100) (device 0) none _ _ refl refl nothing_stored contact refl
        refl refl (omega arith) refl in
    (e, sb', b)

abbrev other_envelope : EncryptedEnvelope
other_envelope = record {
  ciphertext = codes "?";
  signature = [];
  timestamp = 9;
  sender_id = [];
  sender_signing_key = none;
}

decrypt_message-again_example :
    decrypt_message toy marking stamping codecs other_envelope bob_keys []
      (codes "c")
      (some (codes "m1"))
      first_read.1
    ≡ (some (codes "hi"), first_read.1)
decrypt_message-again_example =
    decrypt_message-again toy marking stamping codecs first_read.0 other_envelope bob_keys bob_keys
      alice_keys.public_key_hex [] (codes "c") (codes "hi") _ _ (device 0) first_read.1 first_read.2

decrypt_message-signed_example :
    has_valid_signature toy marking stamping codecs first_read.0
      (codes "hi")
      first_read.0.sender_signing_key
    ≡ true
unfolding cached_text cache_key lookup
decrypt_message-signed_example =
    decrypt_message-signed toy marking stamping codecs first_read.0 bob_keys
      alice_keys.public_key_hex (codes "c") (codes "hi") (some (codes "m1")) (device 0) first_read.1
      refl first_read.2

-- Two chats, one of them with a peer that has new keys.
abbrev two_chats : State
two_chats = record (device 0) {
  sessions = (codes "c1", empty_session) ∷ (codes "c2", empty_session) ∷ [];
  peers = (codes "c1", codes "user_1") ∷ (codes "c2", codes "user_2") ∷ [];
}

two_chats-AreDistinct : AreDistinct two_chats.peers
unfolding lookup same
two_chats-AreDistinct = (refl, (refl, tt))

lookup-invalidate_sessions_for_user_example :
    let s' =
      (invalidate_sessions_for_user toy marking stamping codecs (codes "user_1") two_chats).1 in
    ((invalidate_sessions_for_user toy marking stamping codecs (codes "user_1") two_chats).0
      ≡ done tt)
    × (lookup (codes "c1") s'.sessions ≡ (
        if is_peer (codes "user_1") (lookup (codes "c1") two_chats.peers)
        then none
        else lookup (codes "c1") two_chats.sessions))
    × (lookup (codes "c1") s'.peers ≡ (
        if is_peer (codes "user_1") (lookup (codes "c1") two_chats.peers)
        then none
        else lookup (codes "c1") two_chats.peers))
lookup-invalidate_sessions_for_user_example =
    lookup-invalidate_sessions_for_user toy marking stamping codecs (codes "user_1") (codes "c1")
      two_chats two_chats-AreDistinct

-- A session that waits for a message, and a message that it cannot open.
abbrev waiting : State
waiting = record (device 0) {
  sessions =
      (
        codes "c1",
        record empty_session {
          dhr = some (1 ∷ []);
          ckr = some (record { key = 2 ∷ []; step = 0 });
        },
      )
      ∷ [];
}

abbrev forged : EncryptedEnvelope
forged = record other_envelope {
  ciphertext =
      joined (record {
        header = record { dh = codes "01"; pn = 0; ns = 0 };
        ciphertext = replicate 30 1;
      });
}

abbrev waiting_session : Session
waiting_session = record empty_session {
  dhr = some (1 ∷ []);
  ckr = some (record { key = 2 ∷ []; step = 0 });
}

abbrev forged_message : Envelope
forged_message = record {
  header = record { dh = codes "01"; pn = 0; ns = 0 };
  ciphertext = replicate 30 1;
}

forged_bytes : from_base64 toy (replicate 30 1) ≡ some (replicate 30 1)
unfolding from_base64
forged_bytes = refl

forged_payload :
    is_bound (associated_data waiting_session) (
      payload_of toy
        (replicate 30 1)
        (key_for toy waiting_session (record { key = 2 ∷ []; step = 0 }) forged_message.header))
    ≡ false
unfolding next_message_key hkdf hkdf_expand expand_blocks hkdf_extract associated_data u8_less same
    caught_up Messages.catch_up
forged_payload = refl

forged_own : hex_to_bytes (codes "01") ≡ 1 ∷ []
unfolding hex_to_bytes
forged_own = refl

waiting_there : lookup (codes "c1") waiting.sessions ≡ some waiting_session
unfolding lookup same
waiting_there = refl

decrypt_message-stale_example :
    let r =
      decrypt_message toy marking stamping codecs forged bob_keys [] (codes "c1") none waiting in
    (r.0 ≡ none)
    × (lookup (codes "c1") r.1.sessions
        ≡ (if same (codes "c1") (codes "c1") then none else lookup (codes "c1") waiting.sessions))
    × (lookup (codes "c1") r.1.peers
        ≡ (if same (codes "c1") (codes "c1") then none else lookup (codes "c1") waiting.peers))
unfolding cached_text cache_key lookup has
decrypt_message-stale_example =
    decrypt_message-stale toy marking stamping codecs forged forged_message bob_keys [] (codes "c1")
      (codes "c1") none waiting waiting_session (record { key = 2 ∷ []; step = 0 }) (1 ∷ [])
      (replicate 30 1) refl (codecs-CodecsAreLawful.parse-stringify forged_message) waiting_there
      refl refl refl forged_own refl (omega arith) (omega arith) forged_bytes forged_payload

-- A device with a session to write.
abbrev rooted : Session
rooted = record empty_session {
  dhs = some (record { public_key = 5 ∷ []; secret_key = 5 ∷ [] });
  rk = some (1 ∷ 2 ∷ []);
  ns = 4;
  seen = codes "aa:1" ∷ codes "bb:0" ∷ [];
}

abbrev kept : State
kept = record (device 0) {
  sessions = (codes "c1", rooted) ∷ [];
  peers = (codes "c1", codes "user_1") ∷ [];
}

-- JSON of a device with one chat: the root key, of two bytes, and the peer. The rest of a session is as
-- above.
abbrev root_of : Assoc SerializedSession → Text
root_of [] = []
root_of ((chat, s) ∷ _) = elim s.rk [ none ↦ [] | some root ↦ root ]

abbrev peer_of : Assoc Text → Text
peer_of [] = []
peer_of ((chat, user) ∷ _) = user

abbrev writing : Codecs
writing = record codecs {
  write_persisted = λ d. root_of d.sessions ++ peer_of d.peers;
  read_persisted = λ t. some (
      both (record {
        sessions = (codes "c1", record (serialize toy rooted) { rk = some (take 2 t) }) ∷ [];
        peers = (codes "c1", drop 2 t) ∷ [];
      }));
}

writing-WritingIsLawful : WritingIsLawful toy writing (snapshot toy marking writing kept)
unfolding serialize_all serialize to_base64 binary_chunks
writing-WritingIsLawful = record {
  parse-stringify = λ t. refl;
  utf-stringify = λ b. refl;
  read-write = refl;
  utf-write = refl;
  write_filled = (1, 2 ∷ codes "user_1", refl);
}

rooted-IsStorable : IsStorable toy rooted
unfolding to_base64 binary_chunks
rooted-IsStorable = record {
  pair = (refl, (omega arith, tt), (omega arith, tt));
  remote = tt;
  root = refl;
  sending = tt;
  receiving = tt;
  ours = tt;
  theirs = tt;
}

load-persist_sessions_example :
    let s' =
      (load_sessions_from_storage toy marking writing
        (reload (persist_sessions toy marking writing kept).1)).1 in
    ((persist_sessions toy marking writing kept).0 ≡ done tt)
    × (lookup (codes "c1") s'.sessions ≡ map_option shortened (lookup (codes "c1") kept.sessions))
    × (lookup (codes "c1") s'.peers ≡ (
        if is_some (lookup (codes "c1") kept.sessions)
        then lookup (codes "c1") kept.peers
        else none))
unfolding lookup
load-persist_sessions_example =
    load-persist_sessions toy marking writing toy-AreLawful marking-AesIsLawful (codes "c1") kept
      writing-WritingIsLawful refl (λ k e. absurd (ground (arith, e))) (refl, tt) (refl, tt)
      (rooted-IsStorable, tt)
