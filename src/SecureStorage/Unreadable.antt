-- ===== src/SecureStorage/Unreadable.antt =====
-- A change of the passphrase while a record does not open.
use nur_chat.Prelude.{
  ◌≡◌, refl, ◌⊎◌, false, not, Option, some, [], ◌∷◌, ap, sym, ◌∙◌, Bool-cases, inl, inr, if_true,
  if_false, arith,
}
use nur_chat.Text.{Text, Bytes, same}
use nur_chat.Assoc.{Assoc, lookup}
use nur_chat.Exec.{Outcome, done, thrown, done->>=, thrown->>=}
use nur_chat.Ratchet.Primitives.{Primitives}
use nur_chat.Ratchet.Kdf.{from_base64}
use nur_chat.SecureStorage.{
  Aes, Storage, StorageError, StoreName, keys_store, sessions_store, meta_store, records,
  device_secret_key, opened,
}
use nur_chat.SecureStorage.Coherent.{Keyed}
use nur_chat.SecureStorage.Namespaces.{lookup-keep_key}
use nur_chat.SecureStorage.Rewrap.{
  but_secret, open_all, cons_text, read_all, decrypt_all, decrypt_all_keyed, rewrap_secure_storage,
  rewrap-thrown,
}
use nur_chat.SecureStorage.Rewrapped.{is_secret}

module _ (p : Primitives) (c : Aes) where
  -- The reading of a store throws.
  abbrev Fails : Outcome StorageError (Assoc Text) → Type 0
  Fails o = (x : StorageError) × (o ≡ thrown x)

  Fails-open_all :
      (k : Bytes) (key raw : Text) (x : StorageError) (rs : Assoc Text)
      → lookup key rs ≡ some raw
      → opened p c k (from_base64 p raw) ≡ thrown x
      → Fails (open_all p c k rs)
  unfolding lookup
  Fails-open_all k key raw x [] there bad = absurd (ground (arith, there))
  Fails-open_all k key raw x ((j, other) ∷ rs) there bad = elim (Bool-cases (same j key)) [
    | inl e ↦
        let got : some other ≡ some raw = sym (if_true _ _ _ e) ∙ there in
        let one : other ≡ raw = cc in
        (
          x,
          ap (λ o. cons_text p c j o (open_all p c k rs))
              (ap (λ r. opened p c k (from_base64 p r)) one ∙ bad),
        )
    | inr ne ↦
        let (y, rest) = Fails-open_all k key raw x rs (sym (if_false _ _ _ ne) ∙ there) bad in
        later (opened p c k (from_base64 p other)) y rest
  ]
    where
      later :
          (o : Outcome StorageError Text) (y : StorageError)
          → open_all p c k rs ≡ thrown y
          → Fails (cons_text p c j o (open_all p c k rs))
      later (thrown z) y rest = (z, refl)
      later (done t) y rest = (y, ap (cons_text p c j (done t)) rest)

  read_all_thrown :
      (a b d : Outcome StorageError (Assoc Text)) (s : Storage)
      → decrypt_all p c s.keys s ≡ (a, s)
      → decrypt_all p c s.sessions s ≡ (b, s)
      → decrypt_all p c (but_secret s.meta) s ≡ (d, s)
      → Fails a ⊎ Fails b ⊎ Fails d
      → (y : StorageError) × ((read_all p c s).0 ≡ thrown y)
  unfolding read_all
  read_all_thrown (thrown x) b d s e1 e2 e3 f =
      (x, ap (λ r. r.0) (thrown->>= (λ t. decrypt_all p c t.keys t) _ s s x e1))
  read_all_thrown (done ks) (thrown x) d s e1 e2 e3 f = (
    x,
    ap (λ r. r.0)
        (done->>= (λ t. decrypt_all p c t.keys t) _ s s ks e1
          ∙ thrown->>= (λ t. decrypt_all p c t.sessions t) _ s s x e2),
  )
  read_all_thrown (done ks) (done ss) (thrown x) s e1 e2 e3 f = (
    x,
    ap (λ r. r.0)
        (done->>= (λ t. decrypt_all p c t.keys t) _ s s ks e1
          ∙ done->>= (λ t. decrypt_all p c t.sessions t) _ s s ss e2
          ∙ thrown->>= (λ t. decrypt_all p c (but_secret t.meta) t) _ s s x e3),
  )
  read_all_thrown (done ks) (done ss) (done ms) s e1 e2 e3 (inl (x, f)) = absurd (ground (arith, f))
  read_all_thrown (done ks) (done ss) (done ms) s e1 e2 e3 (inr (inl (x, f))) =
      absurd (ground (arith, f))
  read_all_thrown (done ks) (done ss) (done ms) s e1 e2 e3 (inr (inr (x, f))) =
      absurd (ground (arith, f))

  failing_store :
      (k : Bytes) (store : StoreName) (key raw : Text) (x : StorageError) (s : Storage)
      → is_secret store key ≡ false
      → lookup key (records store s) ≡ some raw
      → opened p c k (from_base64 p raw) ≡ thrown x
      → Fails (open_all p c k s.keys)
        ⊎ Fails (open_all p c k s.sessions)
        ⊎ Fails (open_all p c k (but_secret s.meta))
  unfolding records but_secret
  failing_store k keys_store key raw x s own there bad =
      inl (Fails-open_all k key raw x s.keys there bad)
  failing_store k sessions_store key raw x s own there bad =
      inr (inl (Fails-open_all k key raw x s.sessions there bad))
  failing_store k meta_store key raw x s own there bad = inr (
      inr (
        Fails-open_all k key raw x (but_secret s.meta)
          (lookup-keep_key (λ j. not (same j device_secret_key)) key s.meta ∙ rw own there) bad))

  -- Where the database takes writes, the key in memory is the device's, and a record of any store, the secret of the device excepted,
  -- does not open with it, the change of the passphrase throws, and the storage is what it was: no record is
  -- written and the passphrase is not replaced.
  pub rewrap-unreadable :
      (k : Bytes) (new : Option Text) (store : StoreName) (key raw : Text) (x : StorageError)
      (s : Storage)
      → Keyed p c k s
      → is_secret store key ≡ false
      → lookup key (records store s) ≡ some raw
      → opened p c k (from_base64 p raw) ≡ thrown x
      → (y : StorageError) × (rewrap_secure_storage p c new s ≡ (thrown y, s))
  rewrap-unreadable k new store key raw x s h own there bad =
      let (y, failed) =
        read_all_thrown _ _ _ s (decrypt_all_keyed p c k s.keys s h.cached)
          (decrypt_all_keyed p c k s.sessions s h.cached)
          (decrypt_all_keyed p c k (but_secret s.meta) s h.cached)
          (failing_store k store key raw x s own there bad) in
      (y, rewrap-thrown p c k new y s h failed)
