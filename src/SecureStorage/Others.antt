-- ===== src/SecureStorage/Others.antt =====
-- With the wrapping key cached, a load changes nothing, and a store leaves the other records.
use nur_chat.Prelude.{ℕ, ◌+◌, ◌≡◌, ◌≢◌, refl, Option, none, some, [], ◌∷◌, ◌++◌, ap, sym, ◌∙◌}
use nur_chat.Text.{Text, Bytes}
use nur_chat.Assoc.{lookup, lookup-insert_ne}
use nur_chat.Exec.{Outcome, done, thrown}
use nur_chat.Ratchet.Primitives.{Primitives, AreLawful}
use nur_chat.Ratchet.Kdf.{from_base64}
use nur_chat.SecureStorage.{
  Aes, AesIsLawful, Storage, StorageError, StoreName, keys_store, records, with_records, record_key,
  with_record, opened,
}
use nur_chat.SecureStorage.Coherent.{Keyed, decrypt_at_rest_keyed, get_wrapping_key_cached}
use nur_chat.SecureStorage.Records.{store_text, load_text, text_of_record, or_null_text}
use nur_chat.SecureStorage.Reads.{load_text_found, store_text_lem, box_at, stored-Keyed}
use nur_chat.SecureStorage.Namespaces.{text_of_record_same}

pub append_injective : (a b d : Text) → a ++ b ≡ a ++ d → b ≡ d
append_injective [] b d e = e
append_injective (x ∷ a) b d e = append_injective a b d (tail_eq x (a ++ b) (a ++ d) e)
  where
    tail_eq : (x : ℕ) (s t : Text) → x ∷ s ≡ x ∷ t → s ≡ t
    tail_eq x s t e = cc

module _ (p : Primitives) (c : Aes) where
  or_null_pair :
      (o : Outcome StorageError Text) (s : Storage)
      → or_null_text (o, s) ≡ ((or_null_text (o, s)).0, s)
  or_null_pair (done t) s = refl
  or_null_pair (thrown e) s = refl

  text_of_record-Keyed :
      (k : Bytes) (o : Option Text) (s : Storage)
      → s.key_cache ≡ some k
      → text_of_record p c o s ≡ ((text_of_record p c o s).0, s)
  unfolding text_of_record
  text_of_record-Keyed k none s e = refl
  text_of_record-Keyed k (some []) s e = refl
  text_of_record-Keyed k (some (d ∷ ds)) s e =
      let run =
        ap or_null_text (decrypt_at_rest_keyed p c k s (d ∷ ds) e)
        ∙ or_null_pair (opened p c k (from_base64 p (d ∷ ds))) s in
      run ∙ ap (λ r. (r.0, s)) (sym run)

  pub load_text-Keyed :
      (k : Bytes) (store : StoreName) (key : Text) (s : Storage)
      → Keyed p c k s
      → load_text p c store key s ≡ ((load_text p c store key s).0, s)
  load_text-Keyed k store key s h =
      let found = load_text_found p c store key s _ h.open_db refl in
      found ∙ text_of_record-Keyed k _ s h.cached ∙ ap (λ r. (r.0, s)) (sym found)

  -- What is loaded depends on the record alone.
  pub load_text_same :
      (k : Bytes) (store : StoreName) (key : Text) (s t : Storage)
      → Keyed p c k s
      → Keyed p c k t
      → lookup (record_key key t) (records store t) ≡ lookup (record_key key s) (records store s)
      → (load_text p c store key t).0 ≡ (load_text p c store key s).0
  load_text_same k store key s t hs ht e =
      ap (λ r. r.0) (load_text_found p c store key t _ ht.open_db e)
      ∙ text_of_record_same p c k _ t s ht hs
      ∙ sym (ap (λ r. r.0) (load_text_found p c store key s _ hs.open_db refl))

  module _ (laws : AreLawful p) (aes : AesIsLawful c) where
    -- A store among the keys.
    pub store_text-Keyed :
        (k : Bytes) (key v other : Text) (s : Storage)
        → Keyed p c k s
        → p.decode (p.encode v) ≡ v
        → key ≢ other
        → (s' : Storage) × (store_text p c keys_store key v s ≡ (done tt, s'))
          × Keyed p c k s'
          × ((load_text p c keys_store key s').0 ≡ done (some v))
          × ((load_text p c keys_store other s').0 ≡ (load_text p c keys_store other s).0)
    unfolding with_record with_records records record_key
    store_text-Keyed k key v other s h utf ne =
        let s1 : Storage = record s { draws = s.draws + 1 } in
        let s' : Storage = with_record keys_store (record_key key s) (box_at p c k s v) s1 in
        let (h', now, later) = stored-Keyed p c laws aes keys_store key v k s utf tt h in
        (
          s',
          store_text_lem p c keys_store key v k s s h.open_db
              (get_wrapping_key_cached p c k s h.cached) h.open_db,
          h',
          now,
          load_text_same k keys_store other s s' h h' (
              lookup-insert_ne (s.namespace ++ key) (s.namespace ++ other) (box_at p c k s v) s.keys
                (λ e. ne (append_injective s.namespace key other e))),
        )
