-- ===== src/SecureStorage/Namespaces.antt =====
-- `clearNamespace`: the records of one account are deleted, those of the others stay.
use nur_chat.Prelude.{
  ◌≡◌, refl, Bool, true, false, not, ◌&&◌, ◌||◌, Option, none, some, [], ◌∷◌, ◌++◌, ap, sym, ◌∙◌,
  arith, keep, ◌==◌, if◌then◌else◌, inl, inr, Bool-cases, if_false,
}
use nur_chat.Text.{Text, Bytes, codes, same, same_iff}
use nur_chat.Assoc.{Assoc, lookup}
use nur_chat.Exec.{Outcome, done, thrown, done->>=, modify, gets, ◌>>=◌, ◌>>◌}
use mathlib.Core.Path.{subst}
use nur_chat.Ratchet.Primitives.{Primitives}
use nur_chat.Ratchet.Kdf.{from_base64}
use nur_chat.SecureStorage.Coherent.{Keyed, decrypt_at_rest_keyed}
use nur_chat.SecureStorage.Records.{load_text, text_of_record, or_null_text}
use nur_chat.SecureStorage.Reads.{load_text_found}
use nur_chat.SecureStorage.{
  Aes, StorageError, opened, Storage, StoreName, keys_store, sessions_store, meta_store, Action,
  device_secret_key, records, record_key, get_db, get_db-done,
}

-- `key.startsWith(prefix)` and `key.includes("::")`
unfoldable pub starts_with : Text → Text → Bool
starts_with [] key = true
starts_with (x ∷ xs) [] = false
starts_with (x ∷ xs) (y ∷ ys) = x == y && starts_with xs ys

unfoldable pub includes_colons : Text → Bool
unfolding starts_with
includes_colons [] = false
includes_colons (c ∷ cs) = starts_with (codes "::") (c ∷ cs) || includes_colons cs

-- The records of a namespace; the empty one has the records with no namespace in their key.
unfoldable pub own : Text → Text → Bool
unfolding starts_with includes_colons
own [] key = not (includes_colons key)
own (c ∷ cs) key = starts_with (c ∷ cs) key

abbrev pub is_current_namespace : Text → Text → Bool
is_current_namespace [] current = true
is_current_namespace (c ∷ cs) current = same (c ∷ cs) current

unfoldable pub without_own : Text → Assoc Text → Assoc Text
unfolding own
without_own ns = keep (λ e. not (own ns e.0))

unfoldable pub without_own_meta : Text → Assoc Text → Assoc Text
unfolding own
without_own_meta ns = keep (λ e. same e.0 device_secret_key || not (own ns e.0))

unfoldable pub cleared_namespace : Text → Storage → Storage
unfolding without_own without_own_meta
cleared_namespace ns s =
    let s' : Storage = record s {
      keys = without_own ns s.keys;
      sessions = without_own ns s.sessions;
      meta = without_own_meta ns s.meta;
    } in
    if is_current_namespace ns s.namespace
    then record s' { key_cache = none; passphrase = none }
    else s'

-- `clearNamespace`
unfoldable pub clear_namespace : Text → Action (Unit {0})
unfolding cleared_namespace
clear_namespace ns = do get_db; modify (cleared_namespace ns)

-- `clearAll`
unfoldable pub clear_all : Action (Unit {0})
unfolding clear_namespace
clear_all = do ns ← gets (λ s. s.namespace); clear_namespace ns

-- What is kept by the key is found as before.
pub lookup-keep_key :
    (q : Text → Bool) (key : Text) (m : Assoc Text)
    → lookup key (keep (λ e. q e.0) m) ≡ (if q key then lookup key m else none)
unfolding lookup
lookup-keep_key q key [] = ground arith
lookup-keep_key q key ((j, v) ∷ m) = elim (Bool-cases (q j)) [
  | inl h ↦ ground (arith, h, same_iff j key, lookup-keep_key q key m)
  | inr h ↦ ground (arith, h, same_iff j key, lookup-keep_key q key m)
]

-- The records that a clearing deletes: its own, but never the secret of the device.
abbrev pub is_deleted : StoreName → Text → Text → Bool
is_deleted keys_store ns key = own ns key
is_deleted sessions_store ns key = own ns key
is_deleted meta_store ns key = not (same key device_secret_key) && own ns key

lookup-cleared :
    (store : StoreName) (ns key : Text) (s : Storage)
    → lookup key (records store (cleared_namespace ns s))
      ≡ (if is_deleted store ns key then none else lookup key (records store s))
unfolding records cleared_namespace without_own without_own_meta
lookup-cleared keys_store ns key s = elim (Bool-cases (is_current_namespace ns s.namespace)) [
  | inl h ↦ ground (arith, h, lookup-keep_key (λ j. not (own ns j)) key s.keys)
  | inr h ↦ ground (arith, h, lookup-keep_key (λ j. not (own ns j)) key s.keys)
]
lookup-cleared sessions_store ns key s = elim (Bool-cases (is_current_namespace ns s.namespace)) [
  | inl h ↦ ground (arith, h, lookup-keep_key (λ j. not (own ns j)) key s.sessions)
  | inr h ↦ ground (arith, h, lookup-keep_key (λ j. not (own ns j)) key s.sessions)
]
lookup-cleared meta_store ns key s = elim (Bool-cases (is_current_namespace ns s.namespace)) [
  | inl h ↦
      ground
        (arith, h, lookup-keep_key (λ j. same j device_secret_key || not (own ns j)) key s.meta)
  | inr h ↦
      ground
        (arith, h, lookup-keep_key (λ j. same j device_secret_key || not (own ns j)) key s.meta)
]

module _ (p : Primitives) (c : Aes) where
  Keyed-cleared :
      (k : Bytes) (ns : Text) (s : Storage)
      → is_current_namespace ns s.namespace ≡ false
      → Keyed p c k s
      → Keyed p c k (cleared_namespace ns s) × ((cleared_namespace ns s).namespace ≡ s.namespace)
  unfolding cleared_namespace records same
  Keyed-cleared k ns s other h =
      let s' : Storage = record s {
        keys = without_own ns s.keys;
        sessions = without_own ns s.sessions;
        meta = without_own_meta ns s.meta;
      } in
      let cleared : cleared_namespace ns s ≡ s' = if_false _ _ _ other in
      let secret : lookup device_secret_key (cleared_namespace ns s).meta
          ≡ lookup device_secret_key s.meta =
        lookup-cleared meta_store ns device_secret_key s in
      subst (λ r. Keyed p c k r × (r.namespace ≡ s.namespace)) (sym cleared)
        (
          record {
            open_db = h.open_db;
            cached = h.cached;
            key = record {
              first = h.key.first;
              rest = h.key.rest;
              secret =
                  ap (λ (r : Storage). lookup device_secret_key r.meta) (sym cleared)
                  ∙ secret
                  ∙ h.key.secret;
              derived = h.key.derived;
            };
          },
          refl,
        )

  or_null_lem :
      (o : Outcome StorageError Text) (s t : Storage)
      → (or_null_text (o, s)).0 ≡ (or_null_text (o, t)).0
  or_null_lem (done t) s s' = refl
  or_null_lem (thrown x) s s' = refl

  -- Two storages with the same key read the same text from the same record.
  pub text_of_record_same :
      (k : Bytes) (o : Option Text) (s t : Storage)
      → Keyed p c k s
      → Keyed p c k t
      → (text_of_record p c o s).0 ≡ (text_of_record p c o t).0
  unfolding text_of_record
  text_of_record_same k none s t hs ht = refl
  text_of_record_same k (some []) s t hs ht = refl
  text_of_record_same k (some (d ∷ ds)) s t hs ht =
      ap (λ r. (or_null_text r).0) (decrypt_at_rest_keyed p c k s (d ∷ ds) hs.cached)
      ∙ or_null_lem (opened p c k (from_base64 p (d ∷ ds))) s t
      ∙ sym (ap (λ r. (or_null_text r).0) (decrypt_at_rest_keyed p c k t (d ∷ ds) ht.cached))

  text_of_record_if :
      (b : Bool) (o : Option Text) (s : Storage)
      → (text_of_record p c (if b then none else o) s).0
        ≡ (if b then done none else (text_of_record p c o s).0)
  unfolding text_of_record
  text_of_record_if true o s = refl
  text_of_record_if false o s = refl

  -- Clearing the records of another account, with the key cached and a database that takes writes: in each store exactly the records whose
  -- full key is the other account's are gone, the secret of the device excepted, and every other record is
  -- as it was; and a record of the current account is loaded as before, unless its full key is one of the
  -- other account's, when there is none.
  pub load-clear_namespace :
      (k : Bytes) (ns : Text) (store : StoreName) (full key : Text) (s : Storage)
      → is_current_namespace ns s.namespace ≡ false
      → Keyed p c k s
      → let s' = (clear_namespace ns s).1 in
        (lookup full (records store s')
          ≡ (if is_deleted store ns full then none else lookup full (records store s)))
        × ((load_text p c store key s').0 ≡ (
            if is_deleted store ns (record_key key s)
            then done none
            else (load_text p c store key s).0))
  unfolding clear_namespace record_key
  load-clear_namespace k ns store full key s other h =
      let (h', same_ns) = Keyed-cleared k ns s other h in
      let s' : Storage = cleared_namespace ns s in
      let cleared : clear_namespace ns s ≡ (done tt, s') =
        done->>= get_db _ s s tt (get_db-done s h.open_db) in
      let found : lookup (record_key key s') (records store s') ≡ (
          if is_deleted store ns (record_key key s)
          then none
          else lookup (record_key key s) (records store s)) =
        ap (λ n. lookup (n ++ key) (records store s')) same_ns
        ∙ lookup-cleared store ns (record_key key s) s in
      (
        ap (λ r. lookup full (records store r.1)) cleared ∙ lookup-cleared store ns full s,
        ap (λ r. (load_text p c store key r.1).0) cleared
            ∙ ap (λ r. r.0) (load_text_found p c store key s' _ h'.open_db found)
            ∙ text_of_record_same k _ s' s h' h
            ∙ text_of_record_if (is_deleted store ns (record_key key s))
                (lookup (record_key key s) (records store s)) s
            ∙ ap (λ o. if is_deleted store ns (record_key key s) then done none else o)
                (sym (ap (λ r. r.0) (load_text_found p c store key s _ h.open_db refl))),
      )
