-- ===== src/Ratchet/Handshake.antt =====
-- X3DH and the two ways to start a session: `x3dhInitialize`, `x3dhReceive`, `initializeAsAlice`
-- and `initializeAsBob`.
use nur_chat.Prelude.{Option, none, some, [], ◌++◌, take, drop}
use nur_chat.Text.{Bytes, codes}
use nur_chat.Exec.{pure, ◌>>=◌, ◌>>◌}
use nur_chat.Ratchet.Primitives.{Primitives, KeyPair}
use nur_chat.Ratchet.Kdf.{hkdf_salt, hkdf, box_before, box_key_pair_from_secret_key}
use nur_chat.Ratchet.Session.{Session, bad_key}
use nur_chat.Ratchet.Steps.{Action, update, lift, box_key_pair}

module _ (p : Primitives) where
  open p use {encode}

  -- The shared key from the joined Diffie-Hellman secrets.
  unfoldable pub x3dh_key : Bytes → Bytes
  x3dh_key dh_input = hkdf p hkdf_salt dh_input (encode (codes "X3DH_SK")) 32

  -- The fourth secret, where a one-time key is used, behind the other three.
  unfoldable pub with_one_time : Bytes → Option Bytes → (Bytes → Option Bytes) → Action Bytes
  with_one_time dh_input none secret = pure dh_input
  with_one_time dh_input (some key) secret = do
    dh4 ← lift bad_key (secret key)
    pure (dh_input ++ dh4)

  unfoldable pub x3dh_initialize : Bytes → Bytes → Bytes → Option Bytes → Action (Bytes × Bytes)
  unfolding box_key_pair with_one_time x3dh_key
  x3dh_initialize our_secret their_public their_spk their_opk = do
    ephemeral ← box_key_pair p
    dh1 ← lift bad_key (box_before p their_spk our_secret)
    dh2 ← lift bad_key (box_before p their_public ephemeral.secret_key)
    dh3 ← lift bad_key (box_before p their_spk ephemeral.secret_key)
    dh_input ←
        with_one_time (dh1 ++ (dh2 ++ dh3)) their_opk (λ opk. box_before p opk ephemeral.secret_key)
    pure (x3dh_key dh_input, ephemeral.secret_key)

  unfoldable pub x3dh_receive : Bytes → Bytes → Option Bytes → Bytes → Bytes → Action Bytes
  unfolding with_one_time x3dh_key
  x3dh_receive our_secret our_spk our_opk their_public their_ephemeral = do
    dh1 ← lift bad_key (box_before p their_public our_spk)
    dh2 ← lift bad_key (box_before p their_ephemeral our_secret)
    dh3 ← lift bad_key (box_before p their_ephemeral our_spk)
    dh_input ← with_one_time (dh1 ++ (dh2 ++ dh3)) our_opk (λ opk. box_before p their_ephemeral opk)
    pure (x3dh_key dh_input)

  -- The 64 bytes of the first root and chain key.
  unfoldable pub init_bytes : Bytes → Bytes
  init_bytes sk = hkdf p sk [] (encode (codes "DoubleRatchet_Init")) 64

  unfoldable pub alice_started : KeyPair → KeyPair → Bytes → Bytes → Bytes → Session → Session
  unfolding init_bytes
  alice_started ephemeral identity their_public their_spk sk s =
      let derived = init_bytes sk in
      record s {
        dhs = some ephemeral;
        dhr = some their_spk;
        our_identity = some identity.public_key;
        their_identity = some their_public;
        rk = some (take 32 derived);
        cks = some (record { key = drop 32 derived; step = 0 });
        ckr = none;
        ns = 0;
        nr = 0;
        pn = 0;
        seen = [];
      }

  unfoldable pub initialize_as_alice : Bytes → Bytes → Bytes → Option Bytes → Action (Unit {0})
  unfolding x3dh_initialize alice_started
  initialize_as_alice our_secret their_public their_spk their_opk = do
    (sk, ephemeral_secret) ← x3dh_initialize our_secret their_public their_spk their_opk
    ephemeral ← lift bad_key (box_key_pair_from_secret_key p ephemeral_secret)
    identity ← lift bad_key (box_key_pair_from_secret_key p our_secret)
    update (alice_started ephemeral identity their_public their_spk sk)

  unfoldable pub bob_started : KeyPair → KeyPair → Bytes → Bytes → Session → Session
  unfolding init_bytes
  bob_started spk identity their_public sk s =
      let derived = init_bytes sk in
      record s {
        dhs = some spk;
        our_identity = some identity.public_key;
        their_identity = some their_public;
        rk = some (take 32 derived);
        ckr = some (record { key = drop 32 derived; step = 0 });
        cks = none;
        ns = 0;
        nr = 0;
        pn = 0;
        seen = [];
      }

  unfoldable pub initialize_as_bob :
      Bytes → Bytes → Option Bytes → Bytes → Bytes → Action (Unit {0})
  unfolding x3dh_receive bob_started
  initialize_as_bob our_secret our_spk our_opk their_public their_ephemeral = do
    sk ← x3dh_receive our_secret our_spk our_opk their_public their_ephemeral
    identity ← lift bad_key (box_key_pair_from_secret_key p our_secret)
    update (λ s. record s { dhr = some their_ephemeral })
    spk ← lift bad_key (box_key_pair_from_secret_key p our_spk)
    update (bob_started spk identity their_public sk)
