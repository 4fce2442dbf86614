-- ===== src/SecureStorage/Reads.antt =====
-- What was stored is loaded again.
use mathlib.Core.Path.{subst}
use nur_chat.Prelude.{
  ℕ, ◌+◌, ◌≡◌, ◌≢◌, ◌<◌, refl, Option, none, some, [], ◌∷◌, ◌++◌, ap, sym, ◌∙◌, arith, length,
  length-append,
}
use nur_chat.Text.{Text, Bytes}
use nur_chat.Assoc.{lookup, insert, lookup-insert_self, lookup-insert_ne}
use nur_chat.Exec.{Outcome, done, done->>=}
use nur_chat.Ratchet.Primitives.{Primitives, AreLawful}
use nur_chat.Ratchet.Kdf.{to_base64, from_base64, from_base64-to_base64}
use nur_chat.SecureStorage.{
  read_write, Aes, AesIsLawful, Storage, StorageError, StoreName, keys_store, sessions_store,
  meta_store, records, with_records, device_secret_key, get_wrapping_key, encrypt_at_rest,
  decrypt_at_rest, opened, record_key, put, put-done, with_record, get_db, get_db-done,
  lock_secure_storage,
}
use nur_chat.SecureStorage.Records.{store_text, load_text, text_of_record}
use nur_chat.SecureStorage.Coherent.{
  IsKey, IsCoherent, Keyed, get_wrapping_key-Keyed, get_wrapping_key_cached, key_or_new_secret,
  opened-sealed,
}

-- A record that is not the device secret.
abbrev pub IsData : StoreName → Text → Storage → Type 0
IsData meta_store key s = device_secret_key ≢ record_key key s
IsData keys_store key s = Unit
IsData sessions_store key s = Unit

some_injective {ℓ} : {A : Type ℓ} {a b : A} → some a ≡ some b → a ≡ b
some_injective e = cc

-- Base64 of some bytes is not empty.
pub to_base64_filled :
    (p : Primitives)
    → AreLawful p
    → (b : Bytes) → 0 < length b
    → (c : ℕ) × (cs : Text) × (to_base64 p b ≡ c ∷ cs)
unfolding from_base64
to_base64_filled p laws b h = go (to_base64 p b) refl
  where
    go : (t : Text) → to_base64 p b ≡ t → (c : ℕ) × (cs : Text) × (to_base64 p b ≡ c ∷ cs)
    go (c ∷ cs) e = (c, cs, e)
    go [] e =
        let back : p.atob [] ≡ some b = ap p.atob (sym e) ∙ from_base64-to_base64 p laws b in
        let empty : [] ≡ b = some_injective (sym laws.atob-nil ∙ back) in
        absurd (omega (arith, h, ap length empty))

module _ (p : Primitives) (c : Aes) where
  abbrev pub box_at : Bytes → Storage → Text → Text
  box_at k s t =
      to_base64 p
        (p.random_values s.draws 12 ++ c.encrypt k (p.random_values s.draws 12) (p.encode t))

  pub encrypt_at_rest_lem :
      (k : Bytes) (s s' : Storage) (t : Text)
      → get_wrapping_key p c s ≡ (done k, s')
      → encrypt_at_rest p c t s ≡ (done (box_at k s' t), record s' { draws = s'.draws + 1 })
  unfolding encrypt_at_rest
  encrypt_at_rest_lem k s s' t e = rw e refl

  pub decrypt_at_rest_lem :
      (k : Bytes) (s s' : Storage) (t : Text)
      → get_wrapping_key p c s ≡ (done k, s')
      → decrypt_at_rest p c t s ≡ (opened p c k (from_base64 p t), s')
  unfolding decrypt_at_rest
  decrypt_at_rest_lem k s s' t e = rw e refl

  text_of_record_lem :
      (k : Bytes) (s s' : Storage) (head : ℕ) (tail v : Text)
      → get_wrapping_key p c s ≡ (done k, s')
      → opened p c k (from_base64 p (head ∷ tail)) ≡ done v
      → (text_of_record p c (some (head ∷ tail)) s).0 ≡ done (some v)
  unfolding text_of_record
  text_of_record_lem k s s' head tail v e h =
      rw (decrypt_at_rest_lem k s s' (head ∷ tail) e, h) refl

  pub load_text_found :
      (store : StoreName) (key : Text) (s : Storage) (o : Option Text)
      → s.database ≡ read_write
      → lookup (record_key key s) (records store s) ≡ o
      → load_text p c store key s ≡ text_of_record p c o s
  unfolding load_text
  load_text_found store key s o d e =
      done->>= get_db _ s s tt (get_db-done s d) ∙ ap (λ r. text_of_record p c r s) e

  pub store_text_lem :
      (store : StoreName) (key v : Text) (k : Bytes) (s s' : Storage)
      → s.database ≡ read_write
      → get_wrapping_key p c s ≡ (done k, s')
      → s'.database ≡ read_write
      → store_text p c store key v s ≡ (
        done tt,
        with_record store (record_key key s') (box_at k s' v) (record s' { draws = s'.draws + 1 }),
      )
  unfolding store_text record_key
  store_text_lem store key v k s s' d e d' =
      done->>= get_db _ s s tt (get_db-done s d)
      ∙ done->>= (encrypt_at_rest p c v) (λ box t. put store (record_key key t) box t) s
          (record s' { draws = s'.draws + 1 }) (box_at k s' v) (encrypt_at_rest_lem k s s' v e)
      ∙ put-done store (record_key key s') (box_at k s' v) (record s' { draws = s'.draws + 1 }) d'

  -- A record that opens under the key is loaded, however the key is got.
  load_text_lem :
      (store : StoreName) (key : Text) (k : Bytes) (s s' : Storage) (box v : Text)
      → s.database ≡ read_write
      → get_wrapping_key p c s ≡ (done k, s')
      → lookup (record_key key s) (records store s) ≡ some box
      → ((head : ℕ) × (tail : Text) × (box ≡ head ∷ tail))
      → opened p c k (from_base64 p box) ≡ done v
      → (load_text p c store key s).0 ≡ done (some v)
  load_text_lem store key k s s' box v d e found (head, tail, filled) h =
      ap (λ r. r.0) (load_text_found store key s (some (head ∷ tail)) d (found ∙ ap some filled))
      ∙ text_of_record_lem k s s' head tail v e
          (ap (λ b. opened p c k (from_base64 p b)) (sym filled) ∙ h)

  -- What a store leaves, store by store.
  record_found :
      (store : StoreName) (full key box : Text) (s : Storage)
      → full ≡ record_key key s
      → lookup
          (record_key key (with_record store full box s))
          (records store (with_record store full box s))
        ≡ some box
  unfolding with_record records with_records record_key
  record_found keys_store full key box s e =
      ap (λ j. lookup j (insert full box s.keys)) (sym e) ∙ lookup-insert_self full box s.keys
  record_found sessions_store full key box s e =
      ap (λ j. lookup j (insert full box s.sessions)) (sym e)
      ∙ lookup-insert_self full box s.sessions
  record_found meta_store full key box s e =
      ap (λ j. lookup j (insert full box s.meta)) (sym e) ∙ lookup-insert_self full box s.meta

  with_record-Keyed :
      (store : StoreName) (key box : Text) (k : Bytes) (s : Storage)
      → IsData store key s
      → Keyed p c k s
      → Keyed p c k (with_record store (record_key key s) box s)
  unfolding with_record records with_records
  with_record-Keyed keys_store key box k s i h = record {
    open_db = h.open_db;
    cached = h.cached;
    key = record {
      first = h.key.first;
      rest = h.key.rest;
      secret = h.key.secret;
      derived = h.key.derived;
    };
  }
  with_record-Keyed sessions_store key box k s i h = record {
    open_db = h.open_db;
    cached = h.cached;
    key = record {
      first = h.key.first;
      rest = h.key.rest;
      secret = h.key.secret;
      derived = h.key.derived;
    };
  }
  with_record-Keyed meta_store key box k s i h = record {
    open_db = h.open_db;
    cached = h.cached;
    key = record {
      first = h.key.first;
      rest = h.key.rest;
      secret =
          lookup-insert_ne (record_key key s) device_secret_key box s.meta (λ e. i (sym e))
          ∙ h.key.secret;
      derived = h.key.derived;
    };
  }

  Keyed-IsCoherent : (k : Bytes) (s : Storage) → Keyed p c k s → IsCoherent p c s
  Keyed-IsCoherent k s h j e =
      let one : k ≡ j = some_injective (sym h.cached ∙ e) in subst (λ i. IsKey p c i s) one h.key

  -- After the key is dropped, the next use derives the same key.
  get_wrapping_key-locked :
      (k : Bytes) (s : Storage)
      → Keyed p c k s
      → get_wrapping_key p c (lock_secure_storage s) ≡ (done k, record s { key_cache = some k })
  unfolding get_wrapping_key lock_secure_storage
  get_wrapping_key-locked k s h =
      key_or_new_secret p c h.key.first h.key.rest (record s { key_cache = none }) h.open_db
        h.key.secret
      ∙ ap (λ i. (done i, record s { key_cache = some i })) (sym h.key.derived)

  IsData-Keeps :
      (store : StoreName) (key : Text) (s s' : Storage)
      → s'.namespace ≡ s.namespace
      → IsData store key s
      → IsData store key s'
  unfolding record_key
  IsData-Keeps keys_store key s s' e i = tt
  IsData-Keeps sessions_store key s s' e i = tt
  IsData-Keeps meta_store key s s' e i = λ h. i (h ∙ ap (λ n. n ++ key) e)

  records-lock :
      (store : StoreName) (key : Text) (s : Storage)
      → lookup (record_key key (lock_secure_storage s)) (records store (lock_secure_storage s))
        ≡ lookup (record_key key s) (records store s)
  unfolding records lock_secure_storage record_key
  records-lock keys_store key s = refl
  records-lock sessions_store key s = refl
  records-lock meta_store key s = refl

  module _ (laws : AreLawful p) (aes : AesIsLawful c) where
    -- A store with the key cached.
    pub stored-Keyed :
        (store : StoreName) (key v : Text) (k : Bytes) (s : Storage)
        → p.decode (p.encode v) ≡ v
        → IsData store key s
        → Keyed p c k s
        → let s' =
            with_record store
              (record_key key s)
              (box_at k s v)
              (record s { draws = s.draws + 1 }) in
          Keyed p c k s'
          × ((load_text p c store key s').0 ≡ done (some v))
          × ((load_text p c store key (lock_secure_storage s')).0 ≡ done (some v))
    unfolding record_key lock_secure_storage with_record
    stored-Keyed store key v k s utf i h =
        let s1 : Storage = record s { draws = s.draws + 1 } in
        let box : Text = box_at k s v in
        let s' : Storage = with_record store (record_key key s1) box s1 in
        let h1 : Keyed p c k s1 = record {
          open_db = h.open_db;
          cached = h.cached;
          key = record {
            first = h.key.first;
            rest = h.key.rest;
            secret = h.key.secret;
            derived = h.key.derived;
          };
        } in
        let h' : Keyed p c k s' =
          with_record-Keyed store key box k s1 (IsData-Keeps store key s s1 refl i) h1 in
        let found : lookup (record_key key s') (records store s') ≡ some box =
          record_found store (record_key key s1) key box s1 refl in
        let filled =
          to_base64_filled p laws
            (p.random_values s.draws 12 ++ c.encrypt k (p.random_values s.draws 12) (p.encode v))
            (omega (
              arith,
              laws.random_length s.draws 12,
              length-append (p.random_values s.draws 12)
                  (c.encrypt k (p.random_values s.draws 12) (p.encode v)),
            )) in
        let opens : opened p c k (from_base64 p box) ≡ done v =
          opened-sealed p c laws aes k s.draws v utf in
        (
          h',
          load_text_lem store key k s' s' box v h'.open_db
              (get_wrapping_key_cached p c k s' h'.cached) found filled opens,
          load_text_lem store key k (lock_secure_storage s') _ box v h'.open_db
              (get_wrapping_key-locked k s' h') (records-lock store key s' ∙ found) filled opens,
        )

    -- Where the database opens and takes writes, and the cached key is the device's: what is stored is loaded again, at
    -- once and after the key was dropped from memory, also where the store made the device secret; and
    -- the cached key still is the device's. The text is one that UTF-8 gives back, and the record is not
    -- the device secret.
    pub load-store :
        (store : StoreName) (key v : Text) (s : Storage)
        → s.database ≡ read_write
        → IsCoherent p c s
        → IsData store key s
        → p.decode (p.encode v) ≡ v
        → let s' = (store_text p c store key v s).1 in
          ((store_text p c store key v s).0 ≡ done tt)
          × ((load_text p c store key s').0 ≡ done (some v))
          × ((load_text p c store key (lock_secure_storage s')).0 ≡ done (some v))
          × IsCoherent p c s'
    unfolding with_record
    load-store store key v s d coherent i utf =
        let (k, s1, e, h, keeps) = get_wrapping_key-Keyed p c laws s d coherent in
        let stored : store_text p c store key v s ≡ (
          done tt,
          with_record store (record_key key s1) (box_at k s1 v)
              (record s1 { draws = s1.draws + 1 }),
        ) =
          store_text_lem store key v k s s1 d e h.open_db in
        let (h', now, later) =
          stored-Keyed store key v k s1 utf (IsData-Keeps store key s s1 keeps.namespace i) h in
        subst
          (λ (r : Outcome StorageError (Unit {0}) × Storage).
            (r.0 ≡ done tt)
            × ((load_text p c store key r.1).0 ≡ done (some v))
            × ((load_text p c store key (lock_secure_storage r.1)).0 ≡ done (some v))
            × IsCoherent p c r.1)
          (sym stored) (refl, now, later, Keyed-IsCoherent k _ h')
