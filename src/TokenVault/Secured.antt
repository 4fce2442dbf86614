-- ===== src/TokenVault/Secured.antt =====
-- The vault over the wrapping key of frontend/src/services/secureStorage.ts.
use nur_chat.Prelude.{◌≡◌, refl, true, Option, none, some, [], ◌∷◌, ◌++◌, arith}
use nur_chat.Text.{Text, Bytes, codes, same}
use nur_chat.Exec.{Outcome, done, thrown}
use nur_chat.Ratchet.Primitives.{Primitives, AreLawful}
use nur_chat.Ratchet.Kdf.{to_base64}
use nur_chat.SecureStorage.{
  Aes, AesIsLawful, Storage, StorageError, get_wrapping_key, encrypt_at_rest, decrypt_at_rest,
  encrypt_with_wrapping_key, decrypt_with_wrapping_key,
}
use nur_chat.SecureStorage.Coherent.{opened-sealed}
use nur_chat.TokenVault.{
  Wrapping, Vault, is_set, reloaded, set_session, stored_refresh, persisted, written, unlock_vault,
  unlock-cipher, migrate-writable,
}

-- A rejected promise is none.
unfoldable pub fulfilled : Outcome StorageError Text → Option Text
fulfilled (done t) = some t
fulfilled (thrown x) = none

module _ (p : Primitives) (c : Aes) where
  -- `encryptWithWrappingKey` and `decryptWithWrappingKey` at a state of secure storage.
  unfoldable pub wrapping : Storage → Wrapping
  unfolding fulfilled encrypt_with_wrapping_key decrypt_with_wrapping_key
  wrapping s = record {
    wrap = λ t. fulfilled (encrypt_with_wrapping_key p c t s).0;
    unwrap = λ t. fulfilled (decrypt_with_wrapping_key p c t s).0;
  }

  -- The text that a wrapping leaves.
  abbrev pub wrapped : Bytes → Text → Storage → Text
  wrapped key t s =
      codes "v1$"
      ++ to_base64 p
          (p.random_values s.draws 12 ++ c.encrypt key (p.random_values s.draws 12) (p.encode t))

  wrap_lem :
      (key : Bytes) (t : Text) (s s1 : Storage)
      → get_wrapping_key p c s ≡ (done key, s1)
      → (wrapping s).wrap t ≡ some (wrapped key t s1)
  unfolding wrapping encrypt_with_wrapping_key encrypt_at_rest fulfilled
  wrap_lem key t s s1 e = rw e refl

  unwrap_lem :
      AreLawful p
      → AesIsLawful c
      → (key : Bytes) (t : Text) (s1 s' s2 : Storage) → p.decode (p.encode t) ≡ t
      → get_wrapping_key p c s' ≡ (done key, s2)
      → (wrapping s').unwrap (wrapped key t s1) ≡ some t
  unfolding wrapping decrypt_with_wrapping_key decrypt_at_rest fulfilled same
  unwrap_lem laws aes key t s1 s' s2 utf e =
      rw (e, opened-sealed p c laws aes key s1.draws t utf) refl

  -- Over lawful primitives and a lawful cipher: a refresh token that is not empty and that UTF-8 gives back,
  -- saved by a login while the disk took writes, is in memory again after a reload and an unlock, where
  -- secure storage has one wrapping key at the login and at the unlock; and the entry in which old versions
  -- kept a plain refresh token is gone.
  pub unlock-set_session :
      AreLawful p
      → AesIsLawful c
      → (key : Bytes) (access t : Text) (v : Vault) (s s1 s' s2 : Storage)
      → get_wrapping_key p c s ≡ (done key, s1)
      → get_wrapping_key p c s' ≡ (done key, s2)
      → p.decode (p.encode t) ≡ t
      → is_set (some t) ≡ true
      → v.disk.writable ≡ true
      → ((unlock_vault
            (wrapping s')
            (reloaded (set_session (wrapping s) access (some t) v))).refresh_token
          ≡ some t)
        × ((set_session (wrapping s) access (some t) v).disk.legacy ≡ none)
  unfolding set_session stored_refresh persisted written
  unlock-set_session laws aes key access [] v s s1 s' s2 e e' utf there k =
      absurd (ground (arith, there))
  unlock-set_session laws aes key access (x ∷ xs) v s s1 s' s2 e e' utf there k =
      let t : Text = x ∷ xs in
      let made : (wrapping s).wrap t ≡ some (wrapped key t s1) = wrap_lem key t s s1 e in
      let v' : Vault = set_session (wrapping s) access (some t) v in
      let legacy : v'.disk.legacy ≡ none = rw made refl in
      let cipher : v'.disk.cipher ≡ some (wrapped key t s1) =
        rw (made, migrate-writable (wrapping s) v, k) refl in
      (
        unlock-cipher (wrapping s') v' t (wrapped key t s1) refl cipher legacy
            (unwrap_lem laws aes key t s1 s' s2 utf e'),
        legacy,
      )
