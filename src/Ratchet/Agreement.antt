-- ===== src/Ratchet/Agreement.antt =====
-- The handshake: both sides derive the same keys from their own secrets.
use nur_chat.Prelude.{ℕ, ◌+◌, ◌≡◌, refl, none, some, ◌++◌, ◌∙◌, drop}
use nur_chat.Text.{Bytes}
use nur_chat.Assoc.{lookup}
use nur_chat.Exec.{done}
use nur_chat.Ratchet.Primitives.{Primitives, AreLawful}
use nur_chat.Ratchet.Kdf.{box_before, box_key_pair_from_secret_key}
use nur_chat.Ratchet.Session.{Session, State, empty_session, associated_data_symmetric, has}
use nur_chat.Ratchet.Handshake.{
  x3dh_key, init_bytes, alice_started, bob_started, initialize_as_alice, initialize_as_bob,
}
use nur_chat.Ratchet.Delivery.{Linked}
use nur_chat.Ratchet.Conversation.{IsOpening}

abbrev pub new_state : ℕ → State
new_state n = record { session = empty_session; draws = n }

module _ (p : Primitives) (laws : AreLawful p) (ours theirs spk : Bytes) (a b q : Bytes)
    (ha : p.get_public_key ours ≡ some a) (hb : p.get_public_key theirs ≡ some b)
    (hq : p.get_public_key spk ≡ some q) (n m : ℕ) (x1 x2 x3 : Bytes)
    (h1 : p.get_shared_secret ours q ≡ some x1)
    (h2 : p.get_shared_secret (p.keygen n).secret_key b ≡ some x2)
    (h3 : p.get_shared_secret (p.keygen n).secret_key q ≡ some x3) where
  sk : Bytes
  sk = x3dh_key p (x1 ++ (x2 ++ x3))

  alice : Session
  unfolding sk
  alice =
      alice_started p (p.keygen n) (record { public_key = a; secret_key = ours }) b q sk
        empty_session

  initialize_as_alice_lem :
      initialize_as_alice p ours b q none (new_state n)
      ≡ (done tt, record { session = alice; draws = n + 1 })
  unfolding initialize_as_alice alice box_before box_key_pair_from_secret_key
  initialize_as_alice_lem = rw (h1, h2, h3, ha, laws.keygen_pair n) refl

  bob : Session
  unfolding sk
  bob =
      bob_started p (record { public_key = q; secret_key = spk })
        (record { public_key = b; secret_key = theirs }) a sk
        (record empty_session { dhr = some (p.keygen n).public_key })

  y1 : p.get_shared_secret spk a ≡ some x1
  y1 = laws.agreement spk ours q a hq ha ∙ h1

  y2 : p.get_shared_secret theirs (p.keygen n).public_key ≡ some x2
  y2 = laws.agreement theirs (p.keygen n).secret_key b _ hb (laws.keygen_pair n) ∙ h2

  y3 : p.get_shared_secret spk (p.keygen n).public_key ≡ some x3
  y3 = laws.agreement spk (p.keygen n).secret_key q _ hq (laws.keygen_pair n) ∙ h3

  initialize_as_bob_lem :
      initialize_as_bob p theirs spk none a (p.keygen n).public_key (new_state m)
      ≡ (done tt, record { session = bob; draws = m })
  unfolding initialize_as_bob bob box_before box_key_pair_from_secret_key
  initialize_as_bob_lem = rw (y1, y2, y3, hq, hb) refl

  alice-bob-Linked : Linked alice bob
  unfolding alice bob alice_started bob_started lookup has
  alice-bob-Linked = record {
    chain = record { key = drop 32 (init_bytes p sk); step = 0 };
    pair = p.keygen n;
    cks = refl;
    ckr = refl;
    step = refl;
    dhs = refl;
    dhr = refl;
    bytes = laws.public_bytes (p.keygen n).secret_key (p.keygen n).public_key (laws.keygen_pair n);
    same_data = associated_data_symmetric _ _ refl refl;
    unkept = λ k h. refl;
    unseen = λ k h. refl;
  }

  alice-IsOpening : IsOpening alice
  unfolding alice alice_started
  alice-IsOpening = record { settled = refl; no_reply = refl }

  -- Both starts in closed form.
  pub handshake_lem :
      (s t : Session) × (initialize_as_alice p ours b q none (new_state n)
        ≡ (done tt, record { session = s; draws = n + 1 }))
      × (initialize_as_bob p theirs spk none a (p.keygen n).public_key (new_state m)
          ≡ (done tt, record { session = t; draws = m }))
      × Linked s t
      × IsOpening s
      × (s.dhs ≡ some (p.keygen n))
  unfolding alice alice_started
  handshake_lem = (
    alice, bob, initialize_as_alice_lem, initialize_as_bob_lem, alice-bob-Linked, alice-IsOpening,
    refl,
  )

  -- When both sides start from new sessions, the first with the second side's identity key and
  -- signed key, the second with the first's identity key and ephemeral key, with no one-time key,
  -- and every secret is a valid key, then neither throws, and the first side's sending chain is
  -- the second side's receiving chain, over lawful primitives.
  pub handshake-Linked :
      ((initialize_as_alice p ours b q none (new_state n)).0 ≡ done tt)
      × ((initialize_as_bob p theirs spk none a (p.keygen n).public_key (new_state m)).0 ≡ done tt)
      × Linked
          (initialize_as_alice p ours b q none (new_state n)).1.session
          (initialize_as_bob p theirs spk none a (p.keygen n).public_key (new_state m)).1.session
      × IsOpening (initialize_as_alice p ours b q none (new_state n)).1.session
  handshake-Linked =
      rw (initialize_as_alice_lem, initialize_as_bob_lem)
        (refl, refl, alice-bob-Linked, alice-IsOpening)
