-- ===== src/SecureStorage/Examples.antt =====
-- The statements at inputs.
use nur_chat.Prelude.{◌≡◌, refl, false, none, some, [], ◌∷◌, ◌++◌, replicate, arith, if◌then◌else◌}
use nur_chat.Text.{Text, Bytes, codes, same}
use nur_chat.Assoc.{lookup}
use nur_chat.Exec.{done, thrown}
use nur_chat.Ratchet.Toy.{toy, toy-AreLawful}
use nur_chat.Ratchet.Kdf.{from_base64}
use nur_chat.SecureStorage.{
  read_write, Storage, StorageError, or_null, records, keys_store, meta_store, undecryptable,
  device_secret_key, lock_secure_storage, key_text, record_key, opened, plain_text,
}
use nur_chat.SecureStorage.Toy.{marking, marking-AesIsLawful}
use nur_chat.SecureStorage.Records.{store_text, load_text}
use nur_chat.SecureStorage.Coherent.{IsKey, IsCoherent, Keyed}
use nur_chat.SecureStorage.Reads.{IsData, load-store}
use nur_chat.SecureStorage.Boxes.{IsReady}
use nur_chat.SecureStorage.Rewrapped.{rewrap-kept}
use nur_chat.SecureStorage.Rewrap.{but_secret, rewrap_secure_storage}
use nur_chat.SecureStorage.Unreadable.{rewrap-unreadable}
use nur_chat.SecureStorage.Namespaces.{
  is_current_namespace, is_deleted, clear_namespace, load-clear_namespace,
}

-- An installation in use, with a record and the secret of the device.
abbrev in_use : Storage
in_use = record {
  keys = (codes "u2::identity", codes "junk") ∷ [];
  sessions = [];
  meta = (device_secret_key, codes "ab") ∷ [];
  database = read_write;
  namespace = codes "u1::";
  passphrase = some (codes "pin");
  key_cache = some (codes "ab::pin");
  draws = 0;
}

in_use-IsKey : IsKey toy marking (codes "ab::pin") in_use
unfolding lookup same key_text
in_use-IsKey = record { first = 97; rest = 98 ∷ []; secret = refl; derived = refl }

in_use-Keyed : Keyed toy marking (codes "ab::pin") in_use
in_use-Keyed = record { open_db = refl; cached = refl; key = in_use-IsKey }

-- An installation that has no secret yet.
abbrev fresh : Storage
fresh = record {
  keys = [];
  sessions = [];
  meta = [];
  database = read_write;
  namespace = [];
  passphrase = none;
  key_cache = none;
  draws = 0;
}

flag-IsData : IsData meta_store (codes "flag") fresh
unfolding record_key
flag-IsData e = absurd (ground (arith, e))

load-store_example :
    let s = (store_text toy marking meta_store (codes "flag") (codes "on") fresh).1 in
    ((store_text toy marking meta_store (codes "flag") (codes "on") fresh).0 ≡ done tt)
    × ((load_text toy marking meta_store (codes "flag") s).0 ≡ done (some (codes "on")))
    × ((load_text toy marking meta_store (codes "flag") (lock_secure_storage s)).0
        ≡ done (some (codes "on")))
    × IsCoherent toy marking s
load-store_example =
    load-store toy marking toy-AreLawful marking-AesIsLawful meta_store (codes "flag") (codes "on")
      fresh refl (λ k e. absurd (ground (arith, e))) flag-IsData refl

-- The record of the other account does not open.
junk : opened toy marking (codes "ab::pin") (from_base64 toy (codes "junk")) ≡ thrown undecryptable
unfolding opened plain_text from_base64
junk = refl

rewrap-unreadable_example :
    (y : StorageError) × (rewrap_secure_storage toy marking (some (codes "new")) in_use
      ≡ (thrown y, in_use))
unfolding lookup same records
rewrap-unreadable_example =
    rewrap-unreadable toy marking (codes "ab::pin") (some (codes "new")) keys_store
      (codes "u2::identity") (codes "junk") undecryptable in_use in_use-Keyed refl refl junk

other_account : is_current_namespace (codes "u2::") in_use.namespace ≡ false
unfolding same
other_account = refl

-- A record that the key opens.
abbrev sealed_hi : Text
sealed_hi = replicate 12 0 ++ 7 ∷ codes "hi"

abbrev readable : Storage
readable = record in_use { keys = (codes "u1::identity", sealed_hi) ∷ [] }

readable-IsKey : IsKey toy marking (codes "ab::pin") readable
unfolding lookup same key_text
readable-IsKey = record { first = 97; rest = 98 ∷ []; secret = refl; derived = refl }

-- The other account's record goes, the own one is loaded as before.
abbrev two_accounts : Storage
two_accounts = record readable {
  keys = (codes "u1::identity", sealed_hi) ∷ (codes "u2::identity", sealed_hi) ∷ [];
}

two_accounts-IsKey : IsKey toy marking (codes "ab::pin") two_accounts
unfolding lookup same key_text
two_accounts-IsKey = record { first = 97; rest = 98 ∷ []; secret = refl; derived = refl }

two_accounts-Keyed : Keyed toy marking (codes "ab::pin") two_accounts
two_accounts-Keyed = record { open_db = refl; cached = refl; key = two_accounts-IsKey }

load-clear_namespace_example :
    let s' = (clear_namespace (codes "u2::") two_accounts).1 in
    (lookup (codes "u2::identity") (records keys_store s') ≡ (
      if is_deleted keys_store (codes "u2::") (codes "u2::identity")
      then none
      else lookup (codes "u2::identity") (records keys_store two_accounts)))
    × ((load_text toy marking keys_store (codes "identity") s').0 ≡ (
        if is_deleted keys_store (codes "u2::") (record_key (codes "identity") two_accounts)
        then done none
        else (load_text toy marking keys_store (codes "identity") two_accounts).0))
load-clear_namespace_example =
    load-clear_namespace toy marking (codes "ab::pin") (codes "u2::") keys_store
      (codes "u2::identity") (codes "identity") two_accounts other_account two_accounts-Keyed

rewrap-kept_example :
    let r = rewrap_secure_storage toy marking (some (codes "new")) readable in
    (r.0 ≡ done tt)
    × (r.1.passphrase ≡ or_null (some (codes "new")))
    × ((k' t raw' : Bytes) × IsReady toy marking k' r.1
        × (opened toy marking (codes "ab::pin") (from_base64 toy sealed_hi) ≡ done t)
        × (lookup (codes "u1::identity") (records keys_store r.1) ≡ some raw')
        × (opened toy marking k' (from_base64 toy raw') ≡ done t))
unfolding opened plain_text from_base64 but_secret lookup same records
rewrap-kept_example =
    rewrap-kept toy marking toy-AreLawful marking-AesIsLawful (codes "ab::pin") (some (codes "new"))
      ((codes "u1::identity", codes "hi") ∷ []) [] [] readable keys_store (codes "u1::identity")
      sealed_hi (record { open_db = refl; cached = refl; key = readable-IsKey }) refl refl refl
      ((refl, tt), tt, tt) ((refl, tt), tt, (refl, tt)) refl refl
