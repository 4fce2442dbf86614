-- ===== src/SecureStorage/Secret.antt =====
-- The secret of the device: it is made once, and neither a store nor a load changes it.
use mathlib.Core.Path.{subst}
use nur_chat.Prelude.{
  ℕ, ◌+◌, ◌≡◌, refl, Option, none, some, [], ◌∷◌, ◌≢◌, ap, sym, ◌∙◌, Option-cases, inl, inr,
}
use nur_chat.Text.{Text, Bytes}
use nur_chat.Assoc.{lookup, insert, lookup-insert_self}
use nur_chat.Exec.{Outcome, done, thrown, done->>=}
use nur_chat.Ratchet.Primitives.{Primitives, AreLawful}
use nur_chat.SecureStorage.{
  read_write, Aes, Storage, StorageError, device_secret_key, new_secret, secret_or_new,
  get_device_secret, get_db, get_db-done, StoreName, sessions_store, opened, get_wrapping_key,
  key_or_new, with_record, stored_secret, with_records,
}
use nur_chat.Ratchet.Kdf.{from_base64}
use nur_chat.SecureStorage.Coherent.{
  IsCoherent, new_secret_there, key_or_new_secret, get_wrapping_key_cached,
}
use nur_chat.SecureStorage.Records.{load_text, store_text, text_of_record, or_null_text}
use nur_chat.SecureStorage.Reads.{decrypt_at_rest_lem, load_text_found, store_text_lem}

-- The database is there, with a secret.
pub record HasSecret (first : ℕ) (rest : Text) (s : Storage) : Type 0 where
  pub open_db : s.database ≡ read_write
  pub secret : lookup device_secret_key s.meta ≡ some (first ∷ rest)

module _ (p : Primitives) where
  pub get_device_secret_there :
      (first : ℕ) (rest : Text) (s : Storage)
      → HasSecret first rest s
      → get_device_secret p s ≡ (done (first ∷ rest), s)
  unfolding get_device_secret secret_or_new
  get_device_secret_there first rest s h =
      done->>= get_db _ s s tt (get_db-done s h.open_db) ∙ ap (λ o. secret_or_new p o s) h.secret

none-some : (k : Bytes) → none ≢ some k
none-some k e = cc

or_null_state : (o : Outcome StorageError Text) (s : Storage) → (or_null_text (o, s)).1 ≡ s
or_null_state (done t) s = refl
or_null_state (thrown e) s = refl

module _ (p : Primitives) (c : Aes) (laws : AreLawful p) where
  not_cached :
      (s : Storage) (o : Option Text) (k : Option Bytes)
      → IsCoherent p c s
      → lookup device_secret_key s.meta ≡ o
      → s.key_cache ≡ k
      → ((first : ℕ) (rest : Text) → o ≢ some (first ∷ rest))
      → k ≡ none
  not_cached s o none h e kc nil = refl
  not_cached s o (some k) h e kc nil =
      let key = h k kc in absurd (nil key.first key.rest (sym e ∙ key.secret))

  -- The secret is given, and made where there is none; the cached key stays the device's.
  pub get_device_secret-HasSecret :
      (s : Storage)
      → s.database ≡ read_write
      → IsCoherent p c s
      → (first : ℕ) × (rest : Text) × (s' : Storage) × (get_device_secret p s
          ≡ (done (first ∷ rest), s'))
        × HasSecret first rest s'
        × IsCoherent p c s'
  unfolding get_device_secret secret_or_new stored_secret
  get_device_secret-HasSecret s d h = go (lookup device_secret_key s.meta) refl
    where
      stored : stored_secret p s ≡ (
        done (new_secret p s),
        record s { meta = insert device_secret_key (new_secret p s) s.meta; draws = s.draws + 1 },
      )
      stored = simp d refl

      made :
          (o : Option Text)
          → lookup device_secret_key s.meta ≡ o
          → ((first : ℕ) (rest : Text) → o ≢ some (first ∷ rest))
          → get_device_secret p s ≡ (
            done (new_secret p s),
            record s {
              meta = insert device_secret_key (new_secret p s) s.meta;
              draws = s.draws + 1;
            },
          )
          → (first : ℕ) × (rest : Text) × (s' : Storage) × (get_device_secret p s
              ≡ (done (first ∷ rest), s'))
            × HasSecret first rest s'
            × IsCoherent p c s'
      made o e nil run =
          let (first, rest, named) = new_secret_there p c s (laws.random_length s.draws 32) in
          let s' : Storage = record s {
            meta = insert device_secret_key (new_secret p s) s.meta;
            draws = s.draws + 1;
          } in
          let empty : s.key_cache ≡ none = not_cached s o s.key_cache h e refl nil in
          (
            first,
            rest,
            s',
            run ∙ ap (λ t. (done t, s')) named,
            record {
              open_db = d;
              secret = lookup-insert_self device_secret_key (new_secret p s) s.meta ∙ ap some named;
            },
            λ k kc. absurd (none-some k (sym empty ∙ kc)),
          )

      go :
          (o : Option Text)
          → lookup device_secret_key s.meta ≡ o
          → (first : ℕ) × (rest : Text) × (s' : Storage) × (get_device_secret p s
              ≡ (done (first ∷ rest), s'))
            × HasSecret first rest s'
            × IsCoherent p c s'
      go none e =
          made none e (λ first rest q. cc)
            (done->>= get_db _ s s tt (get_db-done s d) ∙ ap (λ o. secret_or_new p o s) e ∙ stored)
      go (some []) e =
          made (some []) e (λ first rest q. cc)
            (done->>= get_db _ s s tt (get_db-done s d) ∙ ap (λ o. secret_or_new p o s) e ∙ stored)
      go (some (first ∷ rest)) e =
          let there : HasSecret first rest s = record { open_db = d; secret = e } in
          (first, rest, s, get_device_secret_there p first rest s there, there, h)

  -- The key is given, and the secret stays.
  get_wrapping_key-HasSecret :
      (first : ℕ) (rest : Text) (s : Storage)
      → HasSecret first rest s
      → (k : Bytes) × (s' : Storage) × (get_wrapping_key p c s ≡ (done k, s'))
        × HasSecret first rest s'
  unfolding get_wrapping_key
  get_wrapping_key-HasSecret first rest s h = elim (Option-cases s.key_cache) [
    | inl e ↦ (
      _,
      _,
      ap (λ o. key_or_new p c o s) e ∙ key_or_new_secret p c first rest s h.open_db h.secret,
      record { open_db = h.open_db; secret = h.secret },
    )
    | inr (k, e) ↦ (k, s, get_wrapping_key_cached p c k s e, h)
  ]

  -- A load leaves the secret.
  text_of_record-HasSecret :
      (first : ℕ) (rest : Text) (o : Option Text) (s : Storage)
      → HasSecret first rest s
      → HasSecret first rest (text_of_record p c o s).1
  unfolding text_of_record
  text_of_record-HasSecret first rest none s h = h
  text_of_record-HasSecret first rest (some []) s h = h
  text_of_record-HasSecret first rest (some (x ∷ xs)) s h =
      let (k, s', e, h') = get_wrapping_key-HasSecret first rest s h in
      subst (HasSecret first rest)
        (sym (
          ap (λ r. (or_null_text r).1) (decrypt_at_rest_lem p c k s s' (x ∷ xs) e)
          ∙ or_null_state (opened p c k (from_base64 p (x ∷ xs))) s'))
        h'

  pub load_text-HasSecret :
      (store : StoreName) (key : Text) (first : ℕ) (rest : Text) (s : Storage)
      → HasSecret first rest s
      → HasSecret first rest (load_text p c store key s).1
  load_text-HasSecret store key first rest s h =
      subst (λ r. HasSecret first rest r.1) (sym (load_text_found p c store key s _ h.open_db refl))
        (text_of_record-HasSecret first rest _ s h)

  -- A store of the sessions leaves the secret.
  pub store_text-HasSecret :
      (key v : Text) (first : ℕ) (rest : Text) (s : Storage)
      → HasSecret first rest s
      → HasSecret first rest (store_text p c sessions_store key v s).1
  unfolding with_record with_records
  store_text-HasSecret key v first rest s h =
      let (k, s', e, h') = get_wrapping_key-HasSecret first rest s h in
      subst (λ r. HasSecret first rest r.1)
        (sym (store_text_lem p c sessions_store key v k s s' h.open_db e h'.open_db))
        (record { open_db = h'.open_db; secret = h'.secret })
