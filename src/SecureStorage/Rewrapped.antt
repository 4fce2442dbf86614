-- ===== src/SecureStorage/Rewrapped.antt =====
-- The change of the passphrase keeps every record, under the new key.
use mathlib.Core.Path.{subst}
use nur_chat.Prelude.{
  ◌≡◌, refl, Bool, true, false, not, Option, none, some, [], ◌∷◌, ap, sym, ◌∙◌, All, if_false,
  Bool-cases, inl, inr, if_true, keep, if◌then◌else◌,
}
use nur_chat.Text.{Text, Bytes, same}
use nur_chat.Assoc.{put_all, Assoc, AreDistinct, lookup}
use nur_chat.Exec.{Outcome, done, done->>=}
use nur_chat.Ratchet.Primitives.{Primitives, AreLawful}
use nur_chat.Ratchet.Kdf.{from_base64}
use nur_chat.SecureStorage.{
  read_write, Aes, AesIsLawful, Storage, StorageError, StoreName, keys_store, sessions_store,
  meta_store, records, device_secret_key, key_text, opened, or_null, get_db, get_db-done,
  set_device_passphrase,
}
use nur_chat.SecureStorage.Coherent.{Keyed}
use nur_chat.SecureStorage.Namespaces.{lookup-keep_key}
use nur_chat.SecureStorage.Rewrap.{
  but_secret, open_all, encrypt_all, read_all, write_all, rewrap_secure_storage, commit,
  decrypt_all, decrypt_all_keyed,
}
use nur_chat.SecureStorage.Boxes.{
  IsReady, AreBoxed, encrypt_all-AreBoxed, kept_text, lookup-put_all_absent,
}

if_same : (b : Bool) (o : Option Text) → o ≡ none → (if b then o else none) ≡ none
if_same true o e = e
if_same false o e = refl

AreDistinct-keep :
    (q : Text → Bool) (m : Assoc Text) → AreDistinct m → AreDistinct (keep (λ e. q e.0) m)
AreDistinct-keep q [] d = tt
AreDistinct-keep q ((k, v) ∷ m) (new, d) = elim (Bool-cases (q k)) [
  | inl h ↦
      subst AreDistinct (sym (if_true (q k) ((k, v) ∷ keep (λ e. q e.0) m) (keep (λ e. q e.0) m) h))
        (lookup-keep_key q k m ∙ if_same (q k) (lookup k m) new, AreDistinct-keep q m d)
  | inr h ↦
      subst AreDistinct
        (sym (if_false (q k) ((k, v) ∷ keep (λ e. q e.0) m) (keep (λ e. q e.0) m) h))
        (AreDistinct-keep q m d)
]

-- The texts of the three stores, each as UTF-8 gives it back.
abbrev pub AreTexts : Primitives → Assoc Text → Type 0
AreTexts p = All (λ e. p.decode (p.encode e.1) ≡ e.1)

-- The secret of the device is no record of an account.
abbrev pub is_secret : StoreName → Text → Bool
is_secret keys_store key = false
is_secret sessions_store key = false
is_secret meta_store key = same key device_secret_key

module _ (p : Primitives) (c : Aes) where
  read_all_lem :
      (k : Bytes) (ks ss ms : Assoc Text) (s : Storage)
      → s.key_cache ≡ some k
      → open_all p c k s.keys ≡ done ks
      → open_all p c k s.sessions ≡ done ss
      → open_all p c k (but_secret s.meta) ≡ done ms
      → read_all p c s ≡ (done (ks, ss, ms), s)
  unfolding read_all
  read_all_lem k ks ss ms s e hk hs hm =
      done->>= (λ t. decrypt_all p c t.keys t) _ s s ks
        (decrypt_all_keyed p c k s.keys s e ∙ ap (λ o. (o, s)) hk)
      ∙ done->>= (λ t. decrypt_all p c t.sessions t) _ s s ss
          (decrypt_all_keyed p c k s.sessions s e ∙ ap (λ o. (o, s)) hs)
      ∙ done->>= (λ t. decrypt_all p c (but_secret t.meta) t) _ s s ms
          (decrypt_all_keyed p c k (but_secret s.meta) s e ∙ ap (λ o. (o, s)) hm)

  -- The storage with the boxes written.
  abbrev put_boxes : Assoc Text → Assoc Text → Assoc Text → Storage → Storage
  put_boxes eks ess ems s = record s {
    keys = put_all eks s.keys;
    sessions = put_all ess s.sessions;
    meta = put_all ems s.meta;
  }

  rewrap_lem :
      (new : Option Text) (ks ss ms eks ess ems : Assoc Text) (s s2 s3 s4 : Storage)
      → s.database ≡ read_write
      → read_all p c s ≡ (done (ks, ss, ms), s)
      → encrypt_all p c ks (set_device_passphrase new s) ≡ (done eks, s2)
      → encrypt_all p c ss s2 ≡ (done ess, s3)
      → encrypt_all p c ms s3 ≡ (done ems, s4)
      → s4.database ≡ read_write
      → rewrap_secure_storage p c new s ≡ (done tt, put_boxes eks ess ems s4)
  unfolding rewrap_secure_storage write_all commit
  rewrap_lem new ks ss ms eks ess ems s s2 s3 s4 d read e1 e2 e3 d4 =
      done->>= get_db _ s s tt (get_db-done s d) ∙ rw (read, e1, e2, e3, d4) refl

  apart :
      (key : Text) (m : Assoc Text)
      → lookup key (but_secret m)
        ≡ (if not (same key device_secret_key) then lookup key m else none)
  unfolding but_secret
  apart key m = lookup-keep_key (λ j. not (same j device_secret_key)) key m

  rewritten :
      (k k' : Bytes) (ks ss ms eks ess ems : Assoc Text) (s s4 : Storage)
      → open_all p c k s.keys ≡ done ks
      → open_all p c k s.sessions ≡ done ss
      → open_all p c k (but_secret s.meta) ≡ done ms
      → AreBoxed p c k' ks eks
      → AreBoxed p c k' ss ess
      → AreBoxed p c k' ms ems
      → AreDistinct s.keys
      → AreDistinct s.sessions
      → AreDistinct (but_secret s.meta)
      → (store : StoreName) (key raw : Text) → is_secret store key ≡ false
      → lookup key (records store s) ≡ some raw
      → (t raw' : Text) × (opened p c k (from_base64 p raw) ≡ done t)
        × (lookup key (records store (put_boxes eks ess ems s4)) ≡ some raw')
        × (opened p c k' (from_base64 p raw') ≡ done t)
  unfolding records
  rewritten k k' ks ss ms eks ess ems s s4 hk hs hm b1 b2 b3 dk ds dm keys_store key raw kept
        there =
      kept_text p c k k' key raw s.keys ks eks s4.keys hk b1 dk there
  rewritten k k' ks ss ms eks ess ems s s4 hk hs hm b1 b2 b3 dk ds dm sessions_store key raw kept
        there =
      kept_text p c k k' key raw s.sessions ss ess s4.sessions hs b2 ds there
  rewritten k k' ks ss ms eks ess ems s s4 hk hs hm b1 b2 b3 dk ds dm meta_store key raw kept
        there =
      kept_text p c k k' key raw (but_secret s.meta) ms ems s4.meta hm b3 dm
        (apart key s.meta ∙ ap (λ b. if not b then lookup key s.meta else none) kept ∙ there)

  module _ (laws : AreLawful p) (aes : AesIsLawful c) where
    -- Where the database takes writes, the wrapping key in memory is the device's, and every record opens with it to a text that UTF-8
    -- gives back, the change of the passphrase ends well: the passphrase is the new one, and a record that is
    -- not the device's secret opens to the same text as before under the key of the new passphrase. The
    -- records of each store have distinct keys.
    pub rewrap-kept :
        (k : Bytes) (new : Option Text) (ks ss ms : Assoc Text) (s : Storage) (store : StoreName)
        (key raw : Text)
        → Keyed p c k s
        → open_all p c k s.keys ≡ done ks
        → open_all p c k s.sessions ≡ done ss
        → open_all p c k (but_secret s.meta) ≡ done ms
        → AreTexts p ks × AreTexts p ss × AreTexts p ms
        → AreDistinct s.keys × AreDistinct s.sessions × AreDistinct s.meta
        → is_secret store key ≡ false
        → lookup key (records store s) ≡ some raw
        → let r = rewrap_secure_storage p c new s in
          (r.0 ≡ done tt)
          × (r.1.passphrase ≡ or_null new)
          × ((k' t raw' : Bytes) × IsReady p c k' r.1
              × (opened p c k (from_base64 p raw) ≡ done t)
              × (lookup key (records store r.1) ≡ some raw')
              × (opened p c k' (from_base64 p raw') ≡ done t))
    unfolding set_device_passphrase but_secret same
    rewrap-kept k new ks ss ms s store key raw h hk hs hm (uk, us, um) (dk, ds, dm) kept there =
        let k' : Bytes =
          c.derive_key (p.encode (key_text p c (h.key.first ∷ h.key.rest) (or_null new))) in
        let s1 : Storage = set_device_passphrase new s in
        let ready : IsReady p c k' s1 = record {
          open_db = h.open_db;
          first = h.key.first;
          rest = h.key.rest;
          secret = h.key.secret;
          derived = refl;
          cache = inl refl;
        } in
        let (eks, s2, e1, b1, r2, same2) = encrypt_all-AreBoxed p c laws aes k' ks s1 ready uk in
        let (ess, s3, e2, b2, r3, same3) = encrypt_all-AreBoxed p c laws aes k' ss s2 r2 us in
        let (ems, s4, e3, b3, r4, same4) = encrypt_all-AreBoxed p c laws aes k' ms s3 r3 um in
        let s5 : Storage = put_boxes eks ess ems s4 in
        let run : rewrap_secure_storage p c new s ≡ (done tt, s5) =
          rewrap_lem new ks ss ms eks ess ems s s2 s3 s4 h.open_db
            (read_all_lem k ks ss ms s h.cached hk hs hm) e1 e2 e3 r4.open_db in
        let dm' : AreDistinct (but_secret s.meta) =
          AreDistinct-keep (λ j. not (same j device_secret_key)) s.meta dm in
        let secret : lookup device_secret_key s5.meta ≡ lookup device_secret_key s4.meta =
          lookup-put_all_absent p c k k' device_secret_key (but_secret s.meta) ms ems s4.meta hm b3
            dm' (apart device_secret_key s.meta) in
        let (t, raw', before, here, after) =
          rewritten k k' ks ss ms eks ess ems s s4 hk hs hm b1 b2 b3 dk ds dm' store key raw kept
            there in
        let ready' : IsReady p c k' s5 = record {
          open_db = r4.open_db;
          first = r4.first;
          rest = r4.rest;
          secret = secret ∙ r4.secret;
          derived = r4.derived;
          cache = r4.cache;
        } in
        subst
          (λ (r : Outcome StorageError (Unit {0}) × Storage).
            (r.0 ≡ done tt)
            × (r.1.passphrase ≡ or_null new)
            × ((k' t raw' : Bytes) × IsReady p c k' r.1
                × (opened p c k (from_base64 p raw) ≡ done t)
                × (lookup key (records store r.1) ≡ some raw')
                × (opened p c k' (from_base64 p raw') ≡ done t)))
          (sym run)
          (
            refl,
            same4.passphrase ∙ same3.passphrase ∙ same2.passphrase,
            (k', t, raw', ready', before, here, after),
          )
