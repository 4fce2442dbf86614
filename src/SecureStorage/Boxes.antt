-- ===== src/SecureStorage/Boxes.antt =====
-- Records that are boxed again under another key.
use mathlib.Core.Path.{subst}
use nur_chat.Prelude.{
  ℕ, ◌+◌, ◌≡◌, ◌⊎◌, inl, inr, refl, none, some, [], ◌∷◌, ap, sym, ◌∙◌, arith, if_true, if_false,
  Bool-cases, All,
}
use nur_chat.Text.{Text, Bytes, same}
use nur_chat.Assoc.{put_all, or_else, lookup-put_all, Assoc, AreDistinct, lookup}
use nur_chat.Exec.{Outcome, done, thrown}
use nur_chat.Ratchet.Primitives.{Primitives, AreLawful}
use nur_chat.Ratchet.Kdf.{from_base64}
use nur_chat.SecureStorage.{
  read_write, Aes, AesIsLawful, Storage, StorageError, device_secret_key, key_text, key_or_new,
  get_wrapping_key, opened,
}
use nur_chat.SecureStorage.Coherent.{key_or_new_secret, get_wrapping_key_cached, opened-sealed}
use nur_chat.SecureStorage.Reads.{encrypt_at_rest_lem, box_at}
use nur_chat.SecureStorage.Rewrap.{encrypt_all, open_all, cons_text}

some_injective {ℓ} : {A : Type ℓ} {a b : A} → some a ≡ some b → a ≡ b
some_injective e = cc

done_injective :
    (a b : Assoc Text) → ◌≡◌ {A = Outcome StorageError (Assoc Text)} (done a) (done b) → a ≡ b
done_injective a b e = cc

module _ (p : Primitives) (c : Aes) where
  -- The key is that of the device and the passphrase, and nothing else is cached.
  pub record IsReady (k : Bytes) (s : Storage) : Type 0 where
    pub open_db : s.database ≡ read_write
    pub first : ℕ
    pub rest : Text
    pub secret : lookup device_secret_key s.meta ≡ some (first ∷ rest)
    pub derived : k ≡ c.derive_key (p.encode (key_text p c (first ∷ rest) s.passphrase))
    pub cache : (s.key_cache ≡ none) ⊎ (s.key_cache ≡ some k)

  -- Two storages with the same records and passphrase.
  pub record SameRecords (s t : Storage) : Type 0 where
    pub keys : t.keys ≡ s.keys
    pub sessions : t.sessions ≡ s.sessions
    pub meta : t.meta ≡ s.meta
    pub passphrase : t.passphrase ≡ s.passphrase

  get_wrapping_key-IsReady :
      (k : Bytes) (s : Storage)
      → IsReady k s
      → (s' : Storage) × (get_wrapping_key p c s ≡ (done k, s')) × IsReady k s' × SameRecords s s'
  unfolding get_wrapping_key
  get_wrapping_key-IsReady k s h = go h.cache
    where
      go :
          (s.key_cache ≡ none) ⊎ (s.key_cache ≡ some k)
          → (s' : Storage) × (get_wrapping_key p c s ≡ (done k, s'))
            × IsReady k s'
            × SameRecords s s'
      go (inr e) = (
        s,
        get_wrapping_key_cached p c k s e,
        h,
        record { keys = refl; sessions = refl; meta = refl; passphrase = refl },
      )
      go (inl e) = (
        record s { key_cache = some k },
        ap (λ o. key_or_new p c o s) e
            ∙ key_or_new_secret p c h.first h.rest s h.open_db h.secret
            ∙ ap (λ i. (done i, record s { key_cache = some i })) (sym h.derived),
        record {
          open_db = h.open_db;
          first = h.first;
          rest = h.rest;
          secret = h.secret;
          derived = h.derived;
          cache = inr refl;
        },
        record { keys = refl; sessions = refl; meta = refl; passphrase = refl },
      )

  -- The boxes are those of the texts, one by one.
  abbrev pub AreBoxed : Bytes → Assoc Text → Assoc Text → Type 0
  AreBoxed k [] [] = Unit
  AreBoxed k [] (e ∷ es) = ⊥
  AreBoxed k (t ∷ ts) [] = ⊥
  AreBoxed k ((i, t) ∷ ts) ((j, e) ∷ es) =
      (i ≡ j) × (opened p c k (from_base64 p e) ≡ done t) × AreBoxed k ts es

  module _ (laws : AreLawful p) (aes : AesIsLawful c) where
    pub encrypt_all-AreBoxed :
        (k : Bytes) (ts : Assoc Text) (s : Storage)
        → IsReady k s
        → All (λ e. p.decode (p.encode e.1) ≡ e.1) ts
        → (es : Assoc Text) × (s' : Storage) × (encrypt_all p c ts s ≡ (done es, s'))
          × AreBoxed k ts es
          × IsReady k s'
          × SameRecords s s'
    unfolding encrypt_all
    encrypt_all-AreBoxed k [] s h utf = (
      [],
      s,
      refl,
      tt,
      h,
      record { keys = refl; sessions = refl; meta = refl; passphrase = refl },
    )
    encrypt_all-AreBoxed k ((i, t) ∷ ts) s h (u, utf) =
        let (s1, run, h1, same1) = get_wrapping_key-IsReady k s h in
        let s2 : Storage = record s1 { draws = s1.draws + 1 } in
        let h2 : IsReady k s2 = record {
          open_db = h1.open_db;
          first = h1.first;
          rest = h1.rest;
          secret = h1.secret;
          derived = h1.derived;
          cache = h1.cache;
        } in
        let (es, s', runs, boxed, h', same') = encrypt_all-AreBoxed k ts s2 h2 utf in
        (
          (i, box_at p c k s1 t) ∷ es,
          s',
          rw (encrypt_at_rest_lem p c k s s1 t run, runs) refl,
          (refl, opened-sealed p c laws aes k s1.draws t u, boxed),
          h',
          record {
            keys = same'.keys ∙ same1.keys;
            sessions = same'.sessions ∙ same1.sessions;
            meta = same'.meta ∙ same1.meta;
            passphrase = same'.passphrase ∙ same1.passphrase;
          },
        )

  cons_text-done :
      (j : Text) (o : Outcome StorageError Text) (os : Outcome StorageError (Assoc Text))
      (ts : Assoc Text)
      → cons_text p c j o os ≡ done ts
      → (t : Text) × (ts' : Assoc Text) × (o ≡ done t) × (os ≡ done ts') × ((j, t) ∷ ts' ≡ ts)
  cons_text-done j (thrown x) os ts e = absurd (ground (arith, e))
  cons_text-done j (done t) (thrown x) ts e = absurd (ground (arith, e))
  cons_text-done j (done t) (done ts') ts e = (t, ts', refl, refl, cc)

  -- A record that was read has its text among the texts.
  found_text :
      (k : Bytes) (key raw : Text) (rs ts : Assoc Text)
      → open_all p c k rs ≡ done ts
      → lookup key rs ≡ some raw
      → (t : Text) × (opened p c k (from_base64 p raw) ≡ done t) × (lookup key ts ≡ some t)
  unfolding lookup
  found_text k key raw [] ts e found = absurd (ground (arith, found))
  found_text k key raw ((j, v) ∷ rs) ts e found =
      let (t, ts', ot, ots, here) =
        cons_text-done j (opened p c k (from_base64 p v)) (open_all p c k rs) ts e in
      elim (Bool-cases (same j key)) [
        | inl h ↦
            let one : v ≡ raw = some_injective (sym (if_true _ (some v) _ h) ∙ found) in
            (
              t,
              ap (λ r. opened p c k (from_base64 p r)) (sym one) ∙ ot,
              ap (lookup key) (sym here) ∙ if_true _ (some t) _ h,
            )
        | inr h ↦
            let (u, ou, there) =
              found_text k key raw rs ts' ots (sym (if_false _ (some v) _ h) ∙ found) in
            (u, ou, ap (lookup key) (sym here) ∙ if_false _ (some t) _ h ∙ there)
      ]

  found_box :
      (k : Bytes) (key t : Text) (ts es : Assoc Text)
      → AreBoxed k ts es
      → lookup key ts ≡ some t
      → (raw : Text) × (lookup key es ≡ some raw) × (opened p c k (from_base64 p raw) ≡ done t)
  unfolding lookup
  found_box k key t [] [] b found = absurd (ground (arith, found))
  found_box k key t [] (e ∷ es) b found = absurd b
  found_box k key t (e ∷ ts) [] b found = absurd b
  found_box k key t ((i, u) ∷ ts) ((j, e) ∷ es) (ij, o, b) found = elim (Bool-cases (same j key)) [
    | inl h ↦
        let one : u ≡ t =
          some_injective (sym (if_true _ (some u) _ (ap (λ n. same n key) ij ∙ h)) ∙ found) in
        (e, if_true _ (some e) _ h, o ∙ ap done one)
    | inr h ↦
        let (raw, there, or) =
          found_box k key t ts es b
            (sym (if_false _ (some u) _ (ap (λ n. same n key) ij ∙ h)) ∙ found) in
        (raw, if_false _ (some e) _ h ∙ there, or)
  ]

  absent-boxes :
      (k : Bytes) (key : Text) (ts es : Assoc Text)
      → AreBoxed k ts es
      → lookup key ts ≡ none
      → lookup key es ≡ none
  unfolding lookup
  absent-boxes k key [] [] b h = refl
  absent-boxes k key [] (e ∷ es) b h = absurd b
  absent-boxes k key (e ∷ ts) [] b h = absurd b
  absent-boxes k key ((i, u) ∷ ts) ((j, e) ∷ es) (ij, o, b) h = elim (Bool-cases (same j key)) [
    | inl at ↦ absurd (
        ground (arith, sym (if_true _ (some u) (lookup key ts) (ap (λ n. same n key) ij ∙ at)) ∙ h))
    | inr at ↦
        if_false _ (some e) _ at
        ∙ absent-boxes k key ts es b
            (sym (if_false _ (some u) _ (ap (λ n. same n key) ij ∙ at)) ∙ h)
  ]

  AreDistinct-boxes :
      (k : Bytes) (ts es : Assoc Text) → AreBoxed k ts es → AreDistinct ts → AreDistinct es
  AreDistinct-boxes k [] [] b d = tt
  AreDistinct-boxes k [] (e ∷ es) b d = absurd b
  AreDistinct-boxes k (e ∷ ts) [] b d = absurd b
  AreDistinct-boxes k ((i, u) ∷ ts) ((j, e) ∷ es) (ij, o, b) (new, d) = (
    absent-boxes k j ts es b (ap (λ n. lookup n ts) (sym ij) ∙ new),
    AreDistinct-boxes k ts es b d,
  )

  absent-texts :
      (k : Bytes) (key : Text) (rs ts : Assoc Text)
      → open_all p c k rs ≡ done ts
      → lookup key rs ≡ none
      → lookup key ts ≡ none
  unfolding lookup
  absent-texts k key [] [] e h = refl
  absent-texts k key [] (t ∷ ts) e h = absurd (ground (arith, e))
  absent-texts k key ((j, v) ∷ rs) ts e h =
      let (t, ts', ot, ots, here) =
        cons_text-done j (opened p c k (from_base64 p v)) (open_all p c k rs) ts e in
      ap (lookup key) (sym here) ∙ elim (Bool-cases (same j key)) [
        | inl at ↦ absurd (ground (arith, sym (if_true _ (some v) (lookup key rs) at) ∙ h))
        | inr at ↦
            if_false _ (some t) _ at
            ∙ absent-texts k key rs ts' ots (sym (if_false _ (some v) _ at) ∙ h)
      ]

  AreDistinct-texts :
      (k : Bytes) (rs ts : Assoc Text)
      → open_all p c k rs ≡ done ts
      → AreDistinct rs
      → AreDistinct ts
  AreDistinct-texts k [] ts e d = subst AreDistinct (done_injective [] ts e) tt
  AreDistinct-texts k ((j, v) ∷ rs) ts e (new, d) =
      let (t, ts', ot, ots, here) =
        cons_text-done j (opened p c k (from_base64 p v)) (open_all p c k rs) ts e in
      subst AreDistinct here (absent-texts k j rs ts' ots new, AreDistinct-texts k rs ts' ots d)

  -- A key that no record has is left alone.
  pub lookup-put_all_absent :
      (k k' : Bytes) (key : Text) (rs ts es m : Assoc Text)
      → open_all p c k rs ≡ done ts
      → AreBoxed k' ts es
      → AreDistinct rs
      → lookup key rs ≡ none
      → lookup key (put_all es m) ≡ lookup key m
  lookup-put_all_absent k k' key rs ts es m read boxed d gone =
      lookup-put_all key es m (AreDistinct-boxes k' ts es boxed (AreDistinct-texts k rs ts read d))
      ∙ ap (λ o. or_else o (lookup key m))
          (absent-boxes k' key ts es boxed (absent-texts k key rs ts read gone))

  -- A record of a store that was read, boxed and written has its text under the new key.
  pub kept_text :
      (k k' : Bytes) (key raw : Text) (rs ts es m : Assoc Text)
      → open_all p c k rs ≡ done ts
      → AreBoxed k' ts es
      → AreDistinct rs
      → lookup key rs ≡ some raw
      → (t raw' : Text) × (opened p c k (from_base64 p raw) ≡ done t)
        × (lookup key (put_all es m) ≡ some raw')
        × (opened p c k' (from_base64 p raw') ≡ done t)
  kept_text k k' key raw rs ts es m read boxed d found =
      let (t, ot, there) = found_text k key raw rs ts read found in
      let (raw', here, oe) = found_box k' key t ts es boxed there in
      let put =
        lookup-put_all key es m
          (AreDistinct-boxes k' ts es boxed (AreDistinct-texts k rs ts read d)) in
      (t, raw', ot, put ∙ ap (λ o. or_else o (lookup key m)) here, oe)
