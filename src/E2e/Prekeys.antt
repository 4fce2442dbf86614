-- ===== src/E2e/Prekeys.antt =====
-- What `setupPreKeys` leaves: a signed prekey of the current identity, on the device and at the relay.
use mathlib.Core.Path.{subst}
use nur_chat.Prelude.{
  ℕ, ◌+◌, ◌≡◌, refl, Bool, true, false, Option, none, some, List, [], ◌∷◌, ap, sym, ◌∙◌, map, keep,
  ltb,
}
use nur_chat.Text.{Text, Bytes, codes}
use nur_chat.Text.Hex.{AreBytes, hex_to_bytes, hex_to_bytes-bytes_to_hex}
use nur_chat.Exec.{Outcome, done, thrown, continue, done->>=}
use nur_chat.Ratchet.Primitives.{Primitives, KeyPair, AreLawful}
use nur_chat.SecureStorage.{
  Aes, AesIsLawful, Storage, StorageError, keys_store, records, record_key,
}
use nur_chat.SecureStorage.Coherent.{Keyed}
use nur_chat.SecureStorage.Records.{
  StoredSpk, StoredOpk, load_text, store_value, load_value, store_spk, load_spk, store_opks,
  load_opks,
}
use nur_chat.SecureStorage.Others.{load_text-Keyed, load_text_same, store_text-Keyed}
use nur_chat.E2e.{Signatures, SignaturesAreLawful, Codecs, E2eKeys}
use nur_chat.E2e.Keys.{
  Request, upload_signed_prekey, upload_one_time_prekeys, Relay, Keyring, KeyError, Action,
  in_keyring, on_storage, send, answered, lift, request_failed, spk_matches_identity,
  one_time_batch, public_hex, not_among, store_new, upload_batch, batch_if, setup_one_time, new_spk,
  upload_spk, renew, renew_unless, setup_pre_keys,
}

-- The signed prekey that the relay has: that of the newest upload.
abbrev pub registered : List Request → Option Text
registered [] = none
registered (upload_signed_prekey key signature ∷ rs) = some key
registered (upload_one_time_prekeys keys ∷ rs) = registered rs

-- JSON gives a prekey back, and its texts come through UTF-8.
pub record PrekeysAreLawful (p : Primitives) (codecs : Codecs) : Type 0 where
  pub parse-stringify : (k : StoredSpk) → codecs.spk.parse (codecs.spk.stringify k) ≡ some k
  pub utf-spk :
      (k : StoredSpk) → p.decode (p.encode (codecs.spk.stringify k)) ≡ codecs.spk.stringify k
  pub utf-opks :
      (ks : List StoredOpk)
      → p.decode (p.encode (codecs.opks.stringify ks)) ≡ codecs.opks.stringify ks

module _ (p : Primitives) (c : Aes) (g : Signatures) (codecs : Codecs) where
  -- The text of the prekey's record is there, with the wrapping key in memory and the relay in step.
  record Holds (k : Bytes) (t key : Text) (s : Keyring) : Type 0 where
    keyed : Keyed p c k s.storage
    text : (load_text p c keys_store (codes "spk") s.storage).0 ≡ done (some t)
    relay : registered s.requests ≡ some key

  Holds-storage :
      (k : Bytes) (t key : Text) (s : Keyring) (st : Storage)
      → Holds k t key s
      → Keyed p c k st
      → (load_text p c keys_store (codes "spk") st).0
        ≡ (load_text p c keys_store (codes "spk") s.storage).0
      → Holds k t key (record s { storage = st })
  Holds-storage k t key s st h keyed same_text = record {
    keyed = keyed;
    text = same_text ∙ h.text;
    relay = h.relay;
  }

  Keyed-draws :
      (k : Bytes) (st : Storage) (n : ℕ) → Keyed p c k st → Keyed p c k (record st { draws = n })
  Keyed-draws k st n h = record {
    open_db = h.open_db;
    cached = h.cached;
    key = record {
      first = h.key.first;
      rest = h.key.rest;
      secret = h.key.secret;
      derived = h.key.derived;
    };
  }

  Holds-draws :
      (k : Bytes) (t key : Text) (s : Keyring) (n : ℕ)
      → Holds k t key s
      → Holds k t key (record s { storage = record s.storage { draws = n } })
  unfolding records record_key
  Holds-draws k t key s n h =
      let st : Storage = record s.storage { draws = n } in
      let keyed : Keyed p c k st = Keyed-draws k s.storage n h.keyed in
      Holds-storage k t key s st h keyed
        (load_text_same p c k keys_store (codes "spk") s.storage st h.keyed keyed refl)

  continue-Holds :
      {A B : Type 0} (k : Bytes) (t key : Text) (f : A → Action B)
      (r : Outcome KeyError A × Keyring)
      → Holds k t key r.1
      → ((a : A) (s : Keyring) → Holds k t key s → Holds k t key (f a s).1)
      → Holds k t key (continue r.0 f r.1).1
  continue-Holds k t key f (done a, s) h step = step a s h
  continue-Holds k t key f (thrown e, s) h step = h

  lift-Holds :
      {A : Type 0} (k : Bytes) (t key : Text) (o : Option A) (s : Keyring)
      → Holds k t key s
      → Holds k t key (lift request_failed o s).1
  lift-Holds k t key none s h = h
  lift-Holds k t key (some a) s h = h

  load_opks_state :
      (st : Storage) (o : Outcome StorageError (Option Text))
      → load_text p c keys_store (codes "opks") st ≡ (o, st)
      → (load_opks p c codecs.opks st).1 ≡ st
  unfolding load_opks load_value
  load_opks_state st (done t) e = rw e refl
  load_opks_state st (thrown x) e = rw e refl

  load_spk_state :
      (st : Storage) (o : Outcome StorageError (Option Text))
      → load_text p c keys_store (codes "spk") st ≡ (o, st)
      → (load_spk p c codecs.spk st).1 ≡ st
  unfolding load_spk load_value
  load_spk_state st (done t) e = rw e refl
  load_spk_state st (thrown x) e = rw e refl

  load_spk_parsed :
      (st : Storage) (t : Text)
      → (load_text p c keys_store (codes "spk") st).0 ≡ done (some t)
      → (load_spk p c codecs.spk st).0 ≡ done (codecs.spk.parse t)
  unfolding load_spk load_value
  load_spk_parsed st t e = go (load_text p c keys_store (codes "spk") st) refl e
    where
      go :
          (r : Outcome StorageError (Option Text) × Storage)
          → load_text p c keys_store (codes "spk") st ≡ r
          → r.0 ≡ done (some t)
          → (load_spk p c codecs.spk st).0 ≡ done (codecs.spk.parse t)
      go (o, st') run h = rw (run, h) refl

  in_keyring_state :
      {A : Type 0} (r : Outcome StorageError A × Storage) (s : Keyring)
      → (in_keyring r s).1 ≡ record s { storage = r.1 }
  in_keyring_state (done a, st) s = refl
  in_keyring_state (thrown e, st) s = refl

  load_opks-Holds :
      (k : Bytes) (t key : Text) (s : Keyring)
      → Holds k t key s
      → Holds k t key (on_storage (load_opks p c codecs.opks) s).1
  load_opks-Holds k t key s h =
      let same_storage : (load_opks p c codecs.opks s.storage).1 ≡ s.storage =
        load_opks_state s.storage _
          (load_text-Keyed p c k keys_store (codes "opks") s.storage h.keyed) in
      subst (Holds k t key)
        (sym (
          in_keyring_state (load_opks p c codecs.opks s.storage) s
          ∙ ap (λ st. record s { storage = st }) same_storage))
        h

  module _ (laws : AreLawful p) (aes : AesIsLawful c) (jlaws : PrekeysAreLawful p codecs) where
    store_new-Holds :
        (k : Bytes) (t key : Text) (now : ℕ) (existing fresh : List StoredOpk) (s : Keyring)
        → Holds k t key s
        → Holds k t key (store_new p c g codecs now existing fresh s).1
    unfolding store_new store_opks store_value
    store_new-Holds k t key now existing [] s h = h
    store_new-Holds k t key now existing (x ∷ xs) s h =
        let (st, run, keyed, mine, other) =
          store_text-Keyed p c laws aes k (codes "opks") _ (codes "spk") s.storage h.keyed
            (jlaws.utf-opks _) (λ e. cc) in
        subst (λ r. Holds k t key (in_keyring r s).1) (sym run)
          (Holds-storage k t key s st h keyed other)

    upload_batch-Holds :
        (k : Bytes) (t key : Text) (relay : Relay) (now : ℕ) (batch : List StoredOpk) (s : Keyring)
        → Holds k t key s
        → Holds k t key (upload_batch p c g codecs relay now batch s).1
    unfolding upload_batch
    upload_batch-Holds k t key relay now batch s h =
        continue-Holds k t key _
          (send relay (upload_one_time_prekeys (map (public_hex p c g codecs) batch)) s)
          (record { keyed = h.keyed; text = h.text; relay = h.relay })
          (λ sent s1 h1.
            continue-Holds k t key _ (on_storage (load_opks p c codecs.opks) s1)
              (load_opks-Holds k t key s1 h1)
              (λ existing s2 h2.
                store_new-Holds k t key now existing (keep (not_among p c g codecs existing) batch)
                  s2 h2))

    batch_if-Holds :
        (k : Bytes) (t key : Text) (b : Bool) (relay : Relay) (now : ℕ) (s : Keyring)
        → Holds k t key s
        → Holds k t key (batch_if p c g codecs b relay now s).1
    unfolding batch_if
    batch_if-Holds k t key false relay now s h = h
    batch_if-Holds k t key true relay now s h =
        upload_batch-Holds k t key relay now (one_time_batch p c g codecs now 100 s.storage.draws)
          (record s { storage = record s.storage { draws = s.storage.draws + 100 } })
          (Holds-draws k t key s (s.storage.draws + 100) h)

    setup_one_time-Holds :
        (k : Bytes) (t key : Text) (relay : Relay) (now : ℕ) (s : Keyring)
        → Holds k t key s
        → Holds k t key (setup_one_time p c g codecs relay now s).1
    unfolding setup_one_time
    setup_one_time-Holds k t key relay now s h =
        continue-Holds k t key (λ count. batch_if p c g codecs (ltb count 20) relay now)
          (lift request_failed relay.one_time_count s) (lift-Holds k t key relay.one_time_count s h)
          (λ count s1 h1. batch_if-Holds k t key (ltb count 20) relay now s1 h1)

    -- The first `try`, where the relay takes the key.
    upload_spk-Holds :
        (k : Bytes) (relay : Relay) (now : ℕ) (spk : StoredSpk) (s : Keyring)
        → Keyed p c k s.storage
        → relay.accepts (upload_signed_prekey spk.public_key_hex spk.signature_hex) ≡ true
        → Holds k
            (codecs.spk.stringify (record spk { created_at = now }))
            spk.public_key_hex
            (upload_spk p c g codecs relay now spk s).1
    unfolding upload_spk store_spk store_value
    upload_spk-Holds k relay now spk s keyed taken =
        let s1 : Keyring = record s {
          requests = upload_signed_prekey spk.public_key_hex spk.signature_hex ∷ s.requests;
        } in
        let (st, run, keyed', mine, other) =
          store_text-Keyed p c laws aes k (codes "spk")
            (codecs.spk.stringify (record spk { created_at = now })) (codes "opks") s.storage keyed
            (jlaws.utf-spk _) (λ e. cc) in
        let sent : send relay (upload_signed_prekey spk.public_key_hex spk.signature_hex) s
            ≡ (done tt, s1) =
          ap (λ b. (answered b, s1)) taken in
        subst
          (λ r.
            Holds k (codecs.spk.stringify (record spk { created_at = now })) spk.public_key_hex r.1)
          (sym (
            done->>= (send relay (upload_signed_prekey spk.public_key_hex spk.signature_hex)) _ s s1
              tt sent
            ∙ ap (λ r. in_keyring r s1) run))
          (record { keyed = keyed'; text = mine; relay = refl })

    -- Where the database takes writes, the wrapping key is in memory, the stored prekey (if there is one) is not signed by the identity,
    -- the signing keys are a pair and the relay takes the upload: after the call the device holds a prekey
    -- that the identity has signed, and it is the one that the relay has, whatever becomes of the one-time
    -- keys.
    pub setup_pre_keys-signed :
        (k : Bytes) (relay : Relay) (now : ℕ) (keys : E2eKeys) (existing : Option StoredSpk)
        (s : Keyring)
        → Keyed p c k s.storage
        → (load_spk p c codecs.spk s.storage).0 ≡ done existing
        → spk_matches_identity p c g codecs existing keys ≡ false
        → SignaturesAreLawful g
        → g.get_public_key (hex_to_bytes keys.signing_private_hex)
          ≡ some (hex_to_bytes keys.signing_public_hex)
        → ((key signature : Text) → relay.accepts (upload_signed_prekey key signature) ≡ true)
        → let r = setup_pre_keys p c g codecs relay now keys s in
          (r.0 ≡ done tt)
          × ((spk : StoredSpk) × ((load_spk p c codecs.spk r.1.storage).0 ≡ done (some spk))
              × (spk_matches_identity p c g codecs (some spk) keys ≡ true)
              × (registered r.1.requests ≡ some spk.public_key_hex))
    unfolding setup_pre_keys renew_unless renew spk_matches_identity
    setup_pre_keys-signed k relay now keys existing s keyed loaded stale glaws pair takes =
        let st : Storage = s.storage in
        let stays : (load_spk p c codecs.spk st).1 ≡ st =
          load_spk_state st _ (load_text-Keyed p c k keys_store (codes "spk") st keyed) in
        let found : load_spk p c codecs.spk st ≡ (done existing, st) =
          ap (λ o. (o, (load_spk p c codecs.spk st).1)) loaded
          ∙ ap (λ t. (done existing, t)) stays in
        let new : KeyPair = p.keygen st.draws in
        let (signature, signed, size, bytes, verified) =
          glaws.verify-sign new.public_key (hex_to_bytes keys.signing_private_hex)
            (hex_to_bytes keys.signing_public_hex) pair in
        let spk : StoredSpk = new_spk p c g codecs now new signature in
        let s1 : Keyring = record s { storage = record st { draws = st.draws + 1 } } in
        let s2 : Keyring = (upload_spk p c g codecs relay now spk s1).1 in
        let h2 =
          upload_spk-Holds k relay now spk s1 (Keyed-draws k st (st.draws + 1) keyed) (takes _ _) in
        let s3 : Keyring = (setup_one_time p c g codecs relay now s2).1 in
        let h3 =
          setup_one_time-Holds k (codecs.spk.stringify spk) spk.public_key_hex relay now s2 h2 in
        let run : setup_pre_keys p c g codecs relay now keys s ≡ (done tt, s3) =
          rw (found, stale, signed) refl in
        let public_bytes : AreBytes new.public_key =
          laws.public_bytes new.secret_key new.public_key (laws.keygen_pair st.draws) in
        let matches : spk_matches_identity p c g codecs (some spk) keys ≡ true =
          rw
            (
              hex_to_bytes-bytes_to_hex new.public_key public_bytes,
              hex_to_bytes-bytes_to_hex signature bytes,
              verified,
            )
            refl in
        (
          ap (λ r. r.0) run,
          (
            spk,
            ap (λ r. (load_spk p c codecs.spk r.1.storage).0) run
                ∙ load_spk_parsed s3.storage (codecs.spk.stringify spk) h3.text
                ∙ ap done (jlaws.parse-stringify spk),
            matches,
            ap (λ r. registered r.1.requests) run ∙ h3.relay,
          ),
        )
