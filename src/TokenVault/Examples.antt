-- ===== src/TokenVault/Examples.antt =====
-- The theorems on the vault at concrete tokens, with a wrapping that marks the text.
use nur_chat.Prelude.{◌≡◌, refl, true, false, Option, none, some, [], ◌∷◌}
use nur_chat.Text.{Text, codes, same}
use nur_chat.TokenVault.{
  Wrapping, Vault, reloaded, set_session, unlock_vault, clear_session, has_session,
  has_persisted_session, clear_session-reloaded,
}
use nur_chat.Assoc.{lookup}
use nur_chat.Exec.{done}
use nur_chat.Ratchet.Toy.{toy, toy-AreLawful}
use nur_chat.SecureStorage.{
  read_write, Aes, Storage, device_secret_key, get_wrapping_key, key_or_new, get_device_secret,
  secret_or_new, key_text, lock_secure_storage,
}
use nur_chat.SecureStorage.Toy
use nur_chat.SecureStorage.Toy.{marking-AesIsLawful}
use nur_chat.TokenVault.Secured.{wrapping, unlock-set_session}

abbrev unmark : Text → Option Text
unmark [] = none
unmark (x ∷ t) = some t

-- The cipher of the tests of secure storage.
abbrev secure : Aes
secure = Toy.marking

abbrev marking : Wrapping
marking = record { wrap = λ t. some (1 ∷ t); unwrap = unmark }

abbrev empty_vault : Vault
empty_vault = record {
  access_token = none;
  refresh_token = none;
  migrated = false;
  unlocked_ok = false;
  disk = record { token = none; cipher = none; legacy = none; user = none; writable = true };
}

abbrev old_vault : Vault
old_vault = record empty_vault { disk = record empty_vault.disk { legacy = some (codes "r0") } }

-- Secure storage with the key in memory, and after a reload of the page.
abbrev in_use : Storage
in_use = record {
  keys = [];
  sessions = [];
  meta = (device_secret_key, codes "ab") ∷ [];
  database = read_write;
  namespace = [];
  passphrase = none;
  key_cache = some (codes "ab");
  draws = 3;
}

cached_key : get_wrapping_key toy secure in_use ≡ (done (codes "ab"), in_use)
unfolding get_wrapping_key key_or_new
cached_key = refl

derived_key : get_wrapping_key toy secure (lock_secure_storage in_use) ≡ (done (codes "ab"), in_use)
unfolding get_wrapping_key key_or_new get_device_secret secret_or_new key_text lookup same
    lock_secure_storage
derived_key = refl

unlock-set_session_example :
    ((unlock_vault (wrapping toy secure (lock_secure_storage in_use)) (
        reloaded (
          set_session
            (wrapping toy secure in_use)
            (codes "a")
            (some (codes "r"))
            old_vault))).refresh_token
      ≡ some (codes "r"))
    × ((set_session
          (wrapping toy secure in_use)
          (codes "a")
          (some (codes "r"))
          old_vault).disk.legacy
        ≡ none)
unlock-set_session_example =
    unlock-set_session toy secure toy-AreLawful marking-AesIsLawful (codes "ab") (codes "a")
      (codes "r") old_vault in_use in_use (lock_secure_storage in_use) in_use cached_key derived_key
      refl refl refl

clear_session-reloaded_example :
    ((has_session (unlock_vault marking (reloaded (clear_session old_vault)))).0 ≡ false)
    × (has_persisted_session (unlock_vault marking (reloaded (clear_session old_vault))) ≡ false)
clear_session-reloaded_example = clear_session-reloaded marking old_vault
