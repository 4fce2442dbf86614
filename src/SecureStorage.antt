-- ===== src/SecureStorage.antt =====
-- The encrypted database of frontend/src/services/secureStorage.ts. The records of IndexedDB are three
-- maps of texts; PBKDF2 and AES-GCM are the record `Aes`; time is left to the callers' values.
pub mod Records
pub mod Coherent
pub mod Reads
pub mod Secret
pub mod Rewrap
pub mod Boxes
pub mod Rewrapped
pub mod Unreadable
pub mod Namespaces
pub mod Others
pub mod Toy
mod Examples
use nur_chat.Prelude.{
  ℕ, zero, suc, ◌+◌, ◌≡◌, refl, Bool, true, false, Option, none, some, List, [], ◌∷◌, ◌++◌, ◌==◌,
  if◌then◌else◌, length, take, drop, ap, if_true,
}
use nur_chat.Text.{Text, Bytes, codes, same}
use nur_chat.Text.Hex.{bytes_to_hex}
use nur_chat.Assoc.{Assoc, lookup, insert}
use nur_chat.Exec.{Exec, Outcome, done, thrown, pure, throw, gets, modify, ◌>>=◌, ◌>>◌}
use nur_chat.Ratchet.Primitives.{Primitives}
use nur_chat.Ratchet.Kdf.{to_base64, from_base64}

-- `importKey` and `deriveKey` on the text to derive from, `encrypt` and `decrypt` under a key and a
-- nonce; none where `decrypt` rejects.
pub record Aes : Type 0 where
  pub derive_key : Bytes → Bytes
  pub encrypt : Bytes → Bytes → Bytes → Bytes
  pub decrypt : Bytes → Bytes → Bytes → Option Bytes

pub record AesIsLawful (c : Aes) : Type 0 where
  pub decrypt-encrypt : (k iv m : Bytes) → c.decrypt k iv (c.encrypt k iv m) ≡ some m

pub data StorageError : Type 0 where
  unavailable undecryptable unknown_vault_format : StorageError

-- The object stores.
pub data StoreName : Type 0 where
  keys_store sessions_store meta_store : StoreName

-- What becomes of the database: it does not open, it opens and every write fails, or it takes writes.
pub data Database : Type 0 where
  closed read_only read_write : Database

abbrev pub opens : Database → Bool
opens closed = false
opens read_only = true
opens read_write = true

abbrev pub takes_writes : Database → Bool
takes_writes closed = false
takes_writes read_only = false
takes_writes read_write = true

-- The database, whether it opens and takes writes, and the variables of the module; `draws` counts the draws of
-- randomness.
pub record Storage : Type 0 where
  pub keys : Assoc Text
  pub sessions : Assoc Text
  pub meta : Assoc Text
  pub database : Database
  pub namespace : Text
  pub passphrase : Option Text
  pub key_cache : Option Bytes
  pub draws : ℕ

abbrev pub Action : Type 0 → Type 0
Action A = Exec StorageError Storage A

abbrev pub device_secret_key : Text
device_secret_key = codes "device_secret"

unfoldable pub records : StoreName → Storage → Assoc Text
records keys_store s = s.keys
records sessions_store s = s.sessions
records meta_store s = s.meta

-- The stores with one of them replaced.
unfoldable pub with_records : StoreName → Assoc Text → Storage → Storage
with_records keys_store m s = record s { keys = m }
with_records sessions_store m s = record s { sessions = m }
with_records meta_store m s = record s { meta = m }

-- `getDB`
abbrev pub get_db : Action (Unit {0})
get_db s = (if opens s.database then done tt else thrown unavailable, s)

pub get_db-done : (s : Storage) → s.database ≡ read_write → get_db s ≡ (done tt, s)
get_db-done s d = ap (λ b. (if opens b then done tt else thrown unavailable, s)) d

-- `setRecordNamespace`
abbrev pub set_record_namespace : Text → Storage → Storage
set_record_namespace ns s = record s { namespace = ns }

-- `rk`: an empty namespace adds nothing.
unfoldable pub record_key : Text → Storage → Text
record_key key s = s.namespace ++ key

unfoldable pub with_record : StoreName → Text → Text → Storage → Storage
unfolding records with_records
with_record store key value s = with_records store (insert key value (records store s)) s

-- `db.put`
unfoldable pub put : StoreName → Text → Text → Action (Unit {0})
unfolding with_record
put store key value s =
    if takes_writes s.database
    then (done tt, with_record store key value s)
    else (thrown unavailable, s)

pub put-done :
    (store : StoreName) (key value : Text) (s : Storage)
    → s.database ≡ read_write
    → put store key value s ≡ (done tt, with_record store key value s)
unfolding put
put-done store key value s d =
    ap
      (λ b.
        if takes_writes b
        then (done tt, with_record store key value s)
        else (thrown unavailable, s))
      d

-- `passphrase || null`
unfoldable pub or_null : Option Text → Option Text
or_null none = none
or_null (some []) = none
or_null (some (c ∷ cs)) = some (c ∷ cs)

-- `setDevicePassphrase`
unfoldable pub set_device_passphrase : Option Text → Storage → Storage
unfolding or_null
set_device_passphrase pass s = record s { passphrase = or_null pass; key_cache = none }

unfoldable pub is_passphrase_set : Storage → Bool
is_passphrase_set s = elim s.passphrase [ none ↦ false | some p ↦ true ]

-- `lockSecureStorage`
unfoldable pub lock_secure_storage : Storage → Storage
lock_secure_storage s = record s { key_cache = none }

module _ (p : Primitives) where
  unfoldable pub new_secret : Storage → Text
  new_secret s = bytes_to_hex (p.random_values s.draws 32)

  -- The draw is made before the write.
  unfoldable pub stored_secret : Storage → Outcome StorageError Text × Storage
  unfolding new_secret
  stored_secret s =
      if takes_writes s.database
      then (
        done (new_secret s),
        record s { meta = insert device_secret_key (new_secret s) s.meta; draws = s.draws + 1 },
      )
      else (thrown unavailable, record s { draws = s.draws + 1 })

  unfoldable pub secret_or_new : Option Text → Action Text
  unfolding stored_secret
  secret_or_new (some (c ∷ cs)) s = (done (c ∷ cs), s)
  secret_or_new (some []) s = stored_secret s
  secret_or_new none s = stored_secret s

  -- `getDeviceSecret`: made at the first use.
  unfoldable pub get_device_secret : Action Text
  unfolding secret_or_new
  get_device_secret = do
    get_db
    found ← gets (λ s. lookup device_secret_key s.meta)
    secret_or_new found

  module _ (c : Aes) where
    -- The text that the wrapping key is derived from.
    unfoldable pub key_text : Text → Option Text → Text
    key_text secret none = secret
    key_text secret (some pass) = secret ++ codes "::" ++ pass

    unfoldable pub key_or_new : Option Bytes → Action Bytes
    unfolding get_device_secret key_text
    key_or_new (some key) = pure key
    key_or_new none = do
      secret ← get_device_secret
      pass ← gets (λ s. s.passphrase)
      let key = c.derive_key (p.encode (key_text secret pass))
      modify (λ s. record s { key_cache = some key })
      pure key

    -- `getWrappingKey`
    unfoldable pub get_wrapping_key : Action Bytes
    unfolding key_or_new
    get_wrapping_key = do cached ← gets (λ s. s.key_cache); key_or_new cached

    -- `encryptAtRest`
    unfoldable pub encrypt_at_rest : Text → Action Text
    unfolding get_wrapping_key
    encrypt_at_rest plaintext = do
      key ← get_wrapping_key
      iv ← gets (λ s. p.random_values s.draws 12)
      modify (λ s. record s { draws = s.draws + 1 })
      pure (to_base64 p (iv ++ c.encrypt key iv (p.encode plaintext)))

    unfoldable pub plain_text : Option Bytes → Outcome StorageError Text
    plain_text none = thrown undecryptable
    plain_text (some plain) = done (p.decode plain)

    unfoldable pub opened : Bytes → Option Bytes → Outcome StorageError Text
    unfolding plain_text
    opened key none = thrown undecryptable
    opened key (some raw) = plain_text (c.decrypt key (take 12 raw) (drop 12 raw))

    -- `decryptAtRest`
    unfoldable pub decrypt_at_rest : Text → Action Text
    unfolding get_wrapping_key opened
    decrypt_at_rest encoded = do
      key ← get_wrapping_key
      λ s. (opened key (from_base64 p encoded), s)

    -- `encryptWithWrappingKey`
    unfoldable pub encrypt_with_wrapping_key : Text → Action Text
    unfolding encrypt_at_rest
    encrypt_with_wrapping_key plaintext = do
      box ← encrypt_at_rest plaintext
      pure (codes "v1$" ++ box)

    -- `decryptWithWrappingKey`
    unfoldable pub decrypt_with_wrapping_key : Text → Action Text
    unfolding decrypt_at_rest
    decrypt_with_wrapping_key payload =
        if same (take 3 payload) (codes "v1$")
        then decrypt_at_rest (drop 3 payload)
        else throw unknown_vault_format
