-- ===== src/SecureStorage/Rewrap.antt =====
-- `rewrapSecureStorage`: every record under a new passphrase.
use nur_chat.Prelude.{if◌then◌else◌, ◌≡◌, refl, not, Option, some, [], ◌∷◌, ap, sym, ◌∙◌, keep}
use nur_chat.Text.{Text, Bytes, same}
use nur_chat.Assoc.{put_all, Assoc}
use nur_chat.Exec.{Outcome, done, thrown, pure, modify, ◌>>=◌, ◌>>◌, done->>=, thrown->>=}
use nur_chat.Ratchet.Primitives.{Primitives}
use nur_chat.Ratchet.Kdf.{from_base64}
use nur_chat.SecureStorage.{
  takes_writes, unavailable, Aes, Storage, StorageError, Action, device_secret_key, get_db,
  get_db-done, opened, encrypt_at_rest, decrypt_at_rest, set_device_passphrase,
}
use nur_chat.SecureStorage.Coherent.{Keyed, decrypt_at_rest_keyed}

-- The records of the third store but the device secret.
unfoldable pub but_secret : Assoc Text → Assoc Text
but_secret = keep (λ e. not (same e.0 device_secret_key))

module _ (p : Primitives) (c : Aes) where
  -- The second phase.
  unfoldable pub decrypt_all : Assoc Text → Action (Assoc Text)
  unfolding decrypt_at_rest
  decrypt_all [] = pure []
  decrypt_all ((k, raw) ∷ rs) = do
    t ← decrypt_at_rest p c raw
    ts ← decrypt_all rs
    pure ((k, t) ∷ ts)

  -- The third phase.
  unfoldable pub encrypt_all : Assoc Text → Action (Assoc Text)
  unfolding encrypt_at_rest
  encrypt_all [] = pure []
  encrypt_all ((k, t) ∷ ts) = do e ← encrypt_at_rest p c t; es ← encrypt_all ts; pure ((k, e) ∷ es)

  -- The first two phases: the texts of all records.
  unfoldable pub read_all : Action (Assoc Text × Assoc Text × Assoc Text)
  unfolding decrypt_all but_secret
  read_all = do
    ks ← λ s. decrypt_all s.keys s
    ss ← λ s. decrypt_all s.sessions s
    ms ← λ s. decrypt_all (but_secret s.meta) s
    pure (ks, ss, ms)

  -- The transaction, which writes everything or nothing.
  unfoldable pub commit : Assoc Text → Assoc Text → Assoc Text → Action (Unit {0})
  unfolding put_all
  commit ks ss ms s =
      if takes_writes s.database
      then (
        done tt,
        record s {
          keys = put_all ks s.keys;
          sessions = put_all ss s.sessions;
          meta = put_all ms s.meta;
        },
      )
      else (thrown unavailable, s)

  -- The last two phases: encrypted, then written in one transaction.
  unfoldable pub write_all : Assoc Text × Assoc Text × Assoc Text → Action (Unit {0})
  unfolding encrypt_all commit
  write_all (ks, ss, ms) = do
    ks' ← encrypt_all ks
    ss' ← encrypt_all ss
    ms' ← encrypt_all ms
    commit ks' ss' ms'

  -- `rewrapSecureStorage`
  unfoldable pub rewrap_secure_storage : Option Text → Action (Unit {0})
  unfolding read_all write_all set_device_passphrase
  rewrap_secure_storage new = do
    get_db
    texts ← read_all
    modify (set_device_passphrase new)
    write_all texts

  -- Decryption of all records under a key.
  abbrev pub cons_text :
      Text
      → Outcome StorageError Text
      → Outcome StorageError (Assoc Text)
      → Outcome StorageError (Assoc Text)
  cons_text k (thrown x) ts = thrown x
  cons_text k (done t) (thrown x) = thrown x
  cons_text k (done t) (done ts) = done ((k, t) ∷ ts)

  abbrev pub open_all : Bytes → Assoc Text → Outcome StorageError (Assoc Text)
  open_all key [] = done []
  open_all key ((k, raw) ∷ rs) = cons_text k (opened p c key (from_base64 p raw)) (open_all key rs)

  pub decrypt_all_keyed :
      (key : Bytes) (rs : Assoc Text) (s : Storage)
      → s.key_cache ≡ some key
      → decrypt_all rs s ≡ (open_all key rs, s)
  unfolding decrypt_all
  decrypt_all_keyed key [] s e = refl
  decrypt_all_keyed key ((k, raw) ∷ rs) s e =
      go (opened p c key (from_base64 p raw)) (open_all key rs)
        (decrypt_at_rest_keyed p c key s raw e) (decrypt_all_keyed key rs s e)
    where
      go :
          (o : Outcome StorageError Text) (os : Outcome StorageError (Assoc Text))
          → decrypt_at_rest p c raw s ≡ (o, s)
          → decrypt_all rs s ≡ (os, s)
          → decrypt_all ((k, raw) ∷ rs) s ≡ (cons_text k o os, s)
      go (thrown x) os e1 e2 = thrown->>= (decrypt_at_rest p c raw) _ s s x e1
      go (done t) (thrown x) e1 e2 =
          done->>= (decrypt_at_rest p c raw) _ s s t e1 ∙ thrown->>= (decrypt_all rs) _ s s x e2
      go (done t) (done ts) e1 e2 =
          done->>= (decrypt_at_rest p c raw) _ s s t e1 ∙ done->>= (decrypt_all rs) _ s s ts e2

  read_all_keyed :
      (key : Bytes) (s : Storage)
      → s.key_cache ≡ some key
      → (o : Outcome StorageError (Assoc Text × Assoc Text × Assoc Text)) × (read_all s ≡ (o, s))
  unfolding read_all
  read_all_keyed key s e =
      go (open_all key s.keys) (open_all key s.sessions) (open_all key (but_secret s.meta))
        (decrypt_all_keyed key s.keys s e) (decrypt_all_keyed key s.sessions s e)
        (decrypt_all_keyed key (but_secret s.meta) s e)
    where
      go :
          (a b d : Outcome StorageError (Assoc Text))
          → decrypt_all s.keys s ≡ (a, s)
          → decrypt_all s.sessions s ≡ (b, s)
          → decrypt_all (but_secret s.meta) s ≡ (d, s)
          → (o : Outcome StorageError (Assoc Text × Assoc Text × Assoc Text)) × (read_all s
              ≡ (o, s))
      go (thrown x) b d e1 e2 e3 = (thrown x, thrown->>= (λ t. decrypt_all t.keys t) _ s s x e1)
      go (done ks) (thrown x) d e1 e2 e3 = (
        thrown x,
        done->>= (λ t. decrypt_all t.keys t) _ s s ks e1
            ∙ thrown->>= (λ t. decrypt_all t.sessions t) _ s s x e2,
      )
      go (done ks) (done ss) (thrown x) e1 e2 e3 = (
        thrown x,
        done->>= (λ t. decrypt_all t.keys t) _ s s ks e1
            ∙ done->>= (λ t. decrypt_all t.sessions t) _ s s ss e2
            ∙ thrown->>= (λ t. decrypt_all (but_secret t.meta) t) _ s s x e3,
      )
      go (done ks) (done ss) (done ms) e1 e2 e3 = (
        done (ks, ss, ms),
        done->>= (λ t. decrypt_all t.keys t) _ s s ks e1
            ∙ done->>= (λ t. decrypt_all t.sessions t) _ s s ss e2
            ∙ done->>= (λ t. decrypt_all (but_secret t.meta) t) _ s s ms e3,
      )

  -- Where the reading of the records throws, the storage is what it was.
  pub rewrap-thrown :
      (key : Bytes) (new : Option Text) (x : StorageError) (s : Storage)
      → Keyed p c key s
      → (read_all s).0 ≡ thrown x
      → rewrap_secure_storage new s ≡ (thrown x, s)
  unfolding rewrap_secure_storage
  rewrap-thrown key new x s h bad =
      let (o, e) = read_all_keyed key s h.cached in
      let failed : o ≡ thrown x = sym (ap (λ r. r.0) e) ∙ bad in
      done->>= get_db _ s s tt (get_db-done s h.open_db)
      ∙ thrown->>= read_all _ s s x (e ∙ ap (λ y. (y, s)) failed)
