-- ===== src/SecureStorage/Coherent.antt =====
-- The wrapping key in memory is the one that the device secret and the passphrase give.
use nur_chat.Prelude.{
  ℕ, ◌+◌, ◌≡◌, ◌≢◌, ◌⊎◌, refl, inl, inr, Option, none, some, [], ◌∷◌, ◌++◌, ap, ◌∙◌, arith, drop,
  length, take-append_self, drop-append_self, Option-cases, Bool-cases, ltb, if_true, if_false,
}
use nur_chat.Text.{Text, Bytes}
use nur_chat.Text.Hex.{bytes_to_hex}
use nur_chat.Assoc.{lookup, insert, lookup-insert_self, lookup-insert_ne}
use nur_chat.Exec.{done}
use nur_chat.Ratchet.Primitives.{Primitives, AreLawful}
use nur_chat.Ratchet.Kdf.{to_base64, from_base64, from_base64-to_base64}
use nur_chat.SecureStorage.{
  read_write, stored_secret, Aes, AesIsLawful, Storage, device_secret_key, secret_or_new,
  new_secret, get_device_secret, key_text, key_or_new, get_wrapping_key, encrypt_at_rest,
  decrypt_at_rest, opened, plain_text,
}

module _ (p : Primitives) (c : Aes) where
  -- The key is the one that belongs to the secret on the device and the passphrase in memory.
  pub record IsKey (k : Bytes) (s : Storage) : Type 0 where
    pub first : ℕ
    pub rest : Text
    pub secret : lookup device_secret_key s.meta ≡ some (first ∷ rest)
    pub derived : k ≡ c.derive_key (p.encode (key_text p c (first ∷ rest) s.passphrase))

  -- Whatever is cached is the key.
  abbrev pub IsCoherent : Storage → Type 0
  IsCoherent s = (k : Bytes) → s.key_cache ≡ some k → IsKey k s

  -- The key is cached and the database is there and takes writes.
  pub record Keyed (k : Bytes) (s : Storage) : Type 0 where
    pub open_db : s.database ≡ read_write
    pub cached : s.key_cache ≡ some k
    pub key : IsKey k s

  -- What a call that only reads leaves.
  pub record Keeps (s s' : Storage) : Type 0 where
    pub keys : s'.keys ≡ s.keys
    pub sessions : s'.sessions ≡ s.sessions
    pub namespace : s'.namespace ≡ s.namespace
    pub passphrase : s'.passphrase ≡ s.passphrase
    pub meta : (key : Text) → device_secret_key ≢ key → lookup key s'.meta ≡ lookup key s.meta

  pub get_wrapping_key_cached :
      (k : Bytes) (s : Storage) → s.key_cache ≡ some k → get_wrapping_key p c s ≡ (done k, s)
  unfolding get_wrapping_key key_or_new
  get_wrapping_key_cached k s e = ap (λ o. key_or_new p c o s) e

  pub key_or_new_secret :
      (first : ℕ) (rest : Text) (s : Storage)
      → s.database ≡ read_write
      → lookup device_secret_key s.meta ≡ some (first ∷ rest)
      → let k = c.derive_key (p.encode (key_text p c (first ∷ rest) s.passphrase)) in
        key_or_new p c none s ≡ (done k, record s { key_cache = some k })
  unfolding key_or_new get_device_secret secret_or_new
  key_or_new_secret first rest s o e = simp (o, e) refl

  pub new_secret_there :
      (s : Storage)
      → length (p.random_values s.draws 32) ≡ 32
      → (first : ℕ) × (rest : Text) × (new_secret p s ≡ first ∷ rest)
  unfolding new_secret bytes_to_hex
  new_secret_there s h = go (p.random_values s.draws 32) h
    where
      go :
          (b : Bytes)
          → length b ≡ 32
          → (first : ℕ) × (rest : Text) × (bytes_to_hex b ≡ first ∷ rest)
      go [] e = absurd (omega (arith, e))
      go (x ∷ b) e = elim (Bool-cases (ltb x 16)) [
        | inl small ↦ (_, _, ap (λ t. t ++ bytes_to_hex b) (if_true _ _ _ small))
        | inr large ↦ (_, _, ap (λ t. t ++ bytes_to_hex b) (if_false _ _ _ large))
      ]

  key_or_new_fresh :
      (s : Storage)
      → s.database ≡ read_write
      → (lookup device_secret_key s.meta ≡ none) ⊎ (lookup device_secret_key s.meta ≡ some [])
      → let secret = new_secret p s in
        let k = c.derive_key (p.encode (key_text p c secret s.passphrase)) in
        key_or_new p c none s ≡ (
          done k,
          record s {
            meta = insert device_secret_key secret s.meta;
            draws = s.draws + 1;
            key_cache = some k;
          },
        )
  unfolding key_or_new get_device_secret secret_or_new stored_secret
  key_or_new_fresh s o (inl e) = simp (o, e) refl
  key_or_new_fresh s o (inr e) = simp (o, e) refl

  Keeps-refl : (s : Storage) → Keeps s s
  Keeps-refl s = record {
    keys = refl;
    sessions = refl;
    namespace = refl;
    passphrase = refl;
    meta = λ key ne. refl;
  }

  module _ (laws : AreLawful p) where
    fresh-Keyed :
        (s : Storage)
        → s.database ≡ read_write
        → (lookup device_secret_key s.meta ≡ none) ⊎ (lookup device_secret_key s.meta ≡ some [])
        → (k : Bytes) × (s' : Storage) × (key_or_new p c none s ≡ (done k, s'))
          × Keyed k s'
          × Keeps s s'
    fresh-Keyed s o e =
        let (first, rest, made) = new_secret_there s (laws.random_length s.draws 32) in
        (
          _,
          _,
          key_or_new_fresh s o e,
          record {
            open_db = o;
            cached = refl;
            key = record {
              first = first;
              rest = rest;
              secret = lookup-insert_self device_secret_key (new_secret p s) s.meta ∙ ap some made;
              derived = ap (λ t. c.derive_key (p.encode (key_text p c t s.passphrase))) made;
            };
          },
          record {
            keys = refl;
            sessions = refl;
            namespace = refl;
            passphrase = refl;
            meta = λ key ne. lookup-insert_ne device_secret_key key (new_secret p s) s.meta ne;
          },
        )

    uncached-Keyed :
        (s : Storage) (o : Option Text)
        → s.database ≡ read_write
        → lookup device_secret_key s.meta ≡ o
        → (k : Bytes) × (s' : Storage) × (key_or_new p c none s ≡ (done k, s'))
          × Keyed k s'
          × Keeps s s'
    uncached-Keyed s none d e = fresh-Keyed s d (inl e)
    uncached-Keyed s (some []) d e = fresh-Keyed s d (inr e)
    uncached-Keyed s (some (first ∷ rest)) d e = (
      _,
      _,
      key_or_new_secret first rest s d e,
      record {
        open_db = d;
        cached = refl;
        key = record { first = first; rest = rest; secret = e; derived = refl };
      },
      record {
        keys = refl;
        sessions = refl;
        namespace = refl;
        passphrase = refl;
        meta = λ key ne. refl;
      },
    )

    -- The key is given and cached, whether it was there, has to be derived, or its secret has to be made.
    pub get_wrapping_key-Keyed :
        (s : Storage)
        → s.database ≡ read_write
        → IsCoherent s
        → (k : Bytes) × (s' : Storage) × (get_wrapping_key p c s ≡ (done k, s'))
          × Keyed k s'
          × Keeps s s'
    unfolding get_wrapping_key
    get_wrapping_key-Keyed s d coherent = elim (Option-cases s.key_cache) [
      | inl e ↦
          let (k, s', made, keyed, keeps) = uncached-Keyed s _ d refl in
          (k, s', ap (λ o. key_or_new p c o s) e ∙ made, keyed, keeps)
      | inr (k, e) ↦ (
        k,
        s,
        get_wrapping_key_cached k s e,
        record { open_db = d; cached = e; key = coherent k e },
        Keeps-refl s,
      )
    ]

  -- Under a cached key, encryption gives a text that opens under the key, and draws once.
  pub encrypt_at_rest_keyed :
      (k : Bytes) (s : Storage) (t : Text)
      → s.key_cache ≡ some k
      → encrypt_at_rest p c t s ≡ (
        done (
            to_base64 p (
              p.random_values s.draws 12 ++ c.encrypt k (p.random_values s.draws 12) (p.encode t))),
        record s { draws = s.draws + 1 },
      )
  unfolding encrypt_at_rest
  encrypt_at_rest_keyed k s t e = rw (get_wrapping_key_cached k s e) refl

  pub decrypt_at_rest_keyed :
      (k : Bytes) (s : Storage) (t : Text)
      → s.key_cache ≡ some k
      → decrypt_at_rest p c t s ≡ (opened p c k (from_base64 p t), s)
  unfolding decrypt_at_rest
  decrypt_at_rest_keyed k s t e = rw (get_wrapping_key_cached k s e) refl

  pub opened-sealed :
      AreLawful p
      → AesIsLawful c
      → (k : Bytes) (n : ℕ) (t : Text) → p.decode (p.encode t) ≡ t
      → opened p c k (
          from_base64 p
            (to_base64 p (p.random_values n 12 ++ c.encrypt k (p.random_values n 12) (p.encode t))))
        ≡ done t
  unfolding opened plain_text
  opened-sealed laws aes k n t utf =
      let iv = p.random_values n 12 in
      let box = c.encrypt k iv (p.encode t) in
      ap (opened p c k) (from_base64-to_base64 p laws (iv ++ box))
      ∙ ap (λ a. plain_text p c (c.decrypt k a (drop 12 (iv ++ box))))
          (take-append_self iv box 12 (laws.random_length n 12))
      ∙ ap (λ b. plain_text p c (c.decrypt k iv b))
          (drop-append_self iv box 12 (laws.random_length n 12))
      ∙ ap (plain_text p c) (aes.decrypt-encrypt k iv (p.encode t))
      ∙ ap done utf
