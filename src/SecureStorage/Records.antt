-- ===== src/SecureStorage/Records.antt =====
-- The records of the database: storing, loading, and the kinds of records. `Json` is JSON.stringify and
-- JSON.parse at one type.
use nur_chat.Prelude.{ℕ, not, Option, none, some, List, [], ◌∷◌, map, keep}
use nur_chat.Text.{Text, codes, same}
use nur_chat.Assoc.{lookup, remove}
use nur_chat.Exec.{Outcome, done, thrown, pure, gets, modify, ◌>>=◌, ◌>>◌}
use nur_chat.Ratchet.Primitives.{Primitives}
use nur_chat.SecureStorage.{
  Aes, Storage, StorageError, StoreName, keys_store, sessions_store, Action, records, get_db,
  record_key, put, encrypt_at_rest, decrypt_at_rest,
}

pub record Json (A : Type 0) : Type 0 where
  pub stringify : A → Text
  pub parse : Text → Option A

pub record StoredKeyPair : Type 0 where
  pub private_key_hex : Text
  pub public_key_hex : Text
  pub signing_private_hex : Text
  pub signing_public_hex : Text
  pub created_at : ℕ

pub record StoredSpk : Type 0 where
  pub public_key_hex : Text
  pub secret_key_hex : Text
  pub signature_hex : Text
  pub created_at : ℕ

pub record StoredOpk : Type 0 where
  pub public_key_hex : Text
  pub secret_key_hex : Text
  pub created_at : ℕ

-- A rejected promise inside `try` gives null.
abbrev pub or_null_text :
    Outcome StorageError Text × Storage → Outcome StorageError (Option Text) × Storage
or_null_text (done t, s) = (done (some t), s)
or_null_text (thrown e, s) = (done none, s)

abbrev pub parsed : {A : Type 0} → Json A → Option Text → Option A
parsed j none = none
parsed j (some t) = j.parse t

module _ (p : Primitives) (c : Aes) where
  -- Encrypted and put under the key of the namespace.
  unfoldable pub store_text : StoreName → Text → Text → Action (Unit {0})
  unfolding encrypt_at_rest record_key put
  store_text store key plaintext = do
    get_db
    encrypted ← encrypt_at_rest p c plaintext
    full ← gets (record_key key)
    put store full encrypted

  unfoldable pub text_of_record : Option Text → Action (Option Text)
  unfolding decrypt_at_rest
  text_of_record none s = (done none, s)
  text_of_record (some []) s = (done none, s)
  text_of_record (some (d ∷ ds)) s = or_null_text (decrypt_at_rest p c (d ∷ ds) s)

  -- The text of a record: none where it is missing, or does not open with the wrapping key.
  unfoldable pub load_text : StoreName → Text → Action (Option Text)
  unfolding text_of_record record_key records
  load_text store key = do
    get_db
    found ← gets (λ s. lookup (record_key key s) (records store s))
    text_of_record found

  -- `storeSecureValue` and `loadSecureValue`, and the same in the other stores.
  unfoldable pub store_value : {A : Type 0} → Json A → StoreName → Text → A → Action (Unit {0})
  unfolding store_text
  store_value j store key a = store_text store key (j.stringify a)

  unfoldable pub load_value : {A : Type 0} → Json A → StoreName → Text → Action (Option A)
  unfolding load_text
  load_value j store key = do t ← load_text store key; pure (parsed j t)

  -- `storeIdentityKeys` and `loadIdentityKeys`
  unfoldable pub store_identity_keys : Json StoredKeyPair → ℕ → StoredKeyPair → Action (Unit {0})
  unfolding store_value
  store_identity_keys j now k =
      store_value j keys_store (codes "identity") (record k { created_at = now })

  unfoldable pub load_identity_keys : Json StoredKeyPair → Action (Option StoredKeyPair)
  unfolding load_value
  load_identity_keys j = load_value j keys_store (codes "identity")

  -- `storeSPK` and `loadSPK`
  unfoldable pub store_spk : Json StoredSpk → ℕ → StoredSpk → Action (Unit {0})
  unfolding store_value
  store_spk j now k = store_value j keys_store (codes "spk") (record k { created_at = now })

  unfoldable pub load_spk : Json StoredSpk → Action (Option StoredSpk)
  unfolding load_value
  load_spk j = load_value j keys_store (codes "spk")

  stamped : ℕ → StoredOpk → StoredOpk
  stamped now k = record k { created_at = now }

  -- `storeOPKs` and `loadOPKs`
  unfoldable pub store_opks : Json (List StoredOpk) → ℕ → List StoredOpk → Action (Unit {0})
  unfolding store_value stamped
  store_opks j now ks = store_value j keys_store (codes "opks") (map (stamped now) ks)

  abbrev pub or_empty_list : Option (List StoredOpk) → List StoredOpk
  or_empty_list none = []
  or_empty_list (some ks) = ks

  unfoldable pub load_opks : Json (List StoredOpk) → Action (List StoredOpk)
  unfolding load_value
  load_opks j = do found ← load_value j keys_store (codes "opks"); pure (or_empty_list found)

  -- `removeOPK`
  unfoldable pub remove_opk : Json (List StoredOpk) → ℕ → Text → Action (Unit {0})
  unfolding load_opks store_opks
  remove_opk j now pub_hex = do
    opks ← load_opks j
    store_opks j now (keep (λ k. not (same k.public_key_hex pub_hex)) opks)

  -- `storeSessions`, `loadSessions` and `clearSessions`; the data is a text.
  unfoldable pub store_sessions : Json Text → Text → Action (Unit {0})
  unfolding store_value
  store_sessions j text = store_value j sessions_store (codes "e2e_sessions") text

  unfoldable pub load_sessions : Json Text → Action (Option Text)
  unfolding load_value
  load_sessions j = load_value j sessions_store (codes "e2e_sessions")

-- `clearSessions`
unfoldable pub clear_sessions : Action (Unit {0})
unfolding record_key
clear_sessions = do
  get_db
  modify (λ s. record s { sessions = remove (record_key (codes "e2e_sessions") s) s.sessions })
