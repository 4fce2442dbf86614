-- ===== src/TokenVault.antt =====
-- The session's tokens of frontend/src/services/tokenVault.ts: the access token in memory alone, the
-- refresh token encrypted on disk. The wrapping key of secureStorage.ts is the interface `Wrapping`, which
-- `Secured` fills.
-- `unlockVault` in flight is one step; the user's profile entry is left to its own reader.
pub mod Secured
mod Examples
use nur_chat.Prelude.{
  ◌≡◌, refl, Bool, true, false, not, ◌&&◌, ◌||◌, Option, none, some, [], ◌∷◌, arith, if◌then◌else◌,
  ap, ◌∙◌,
}
use nur_chat.Text.{Text}

-- `encryptWithWrappingKey` and `decryptWithWrappingKey`; none where the promise is rejected.
pub record Wrapping : Type 0 where
  pub wrap : Text → Option Text
  pub unwrap : Text → Option Text

-- The entries of `localStorage`, and whether it takes writes.
pub record Disk : Type 0 where
  pub token : Option Text
  pub cipher : Option Text
  pub legacy : Option Text
  pub user : Option Text
  pub writable : Bool

pub record Vault : Type 0 where
  pub access_token : Option Text
  pub refresh_token : Option Text
  pub migrated : Bool
  pub unlocked_ok : Bool
  pub disk : Disk

-- A string that is there and not empty.
abbrev pub is_set : Option Text → Bool
is_set none = false
is_set (some []) = false
is_set (some (c ∷ cs)) = true

abbrev pub is_there : Option Text → Bool
is_there none = false
is_there (some t) = true

-- `writeLS` of one entry.
unfoldable pub written : Bool → Text → Option Text → Option Text
written writable value old = if writable then some value else old

-- `migrateOnce`
unfoldable pub migrate_once : Vault → Vault
migrate_once v = if v.migrated then v else record v {
  migrated = true;
  access_token =
      if not (is_set v.access_token) && is_set v.disk.token then v.disk.token else v.access_token;
  disk = record v.disk { token = none };
}

unfoldable pub get_access_token : Vault → Option Text × Vault
unfolding migrate_once
get_access_token v = let v' = migrate_once v in (v'.access_token, v')

unfoldable pub peek_refresh_token : Vault → Option Text × Vault
unfolding migrate_once
peek_refresh_token v = let v' = migrate_once v in (v'.refresh_token, v')

unfoldable pub has_session : Vault → Bool × Vault
unfolding migrate_once
has_session v = let v' = migrate_once v in (is_set v'.access_token || is_set v'.refresh_token, v')

unfoldable pub has_persisted_session : Vault → Bool
has_persisted_session v = is_there v.disk.cipher || is_there v.disk.legacy

-- `clearSession`
unfoldable pub clear_session : Vault → Vault
clear_session v = record v {
  access_token = none;
  refresh_token = none;
  unlocked_ok = false;
  disk = record v.disk { token = none; cipher = none; legacy = none; user = none };
}

-- The module's state after a reload: the disk alone is left.
abbrev pub reloaded : Vault → Vault
reloaded v = record {
  access_token = none;
  refresh_token = none;
  migrated = false;
  unlocked_ok = false;
  disk = v.disk;
}

module _ (w : Wrapping) where
  rewritten : Option Text → Disk → Disk
  unfolding written
  rewritten none d = d
  rewritten (some c) d = record d { cipher = written d.writable c d.cipher }

  -- The plain refresh token of an old version is encrypted in place.
  unfoldable pub absorb_legacy : Disk → Disk
  unfolding rewritten
  absorb_legacy d = elim d.legacy [
    | none ↦ d
    | some t ↦
        let d' = if is_set (some t) && not (is_set d.cipher) then rewritten (w.wrap t) d else d in
        if is_set (some t) && is_set d'.cipher then record d' { legacy = none } else d'
  ]

  opened : Option Text → Vault → Vault
  opened none v = v
  opened (some t) v = record v { refresh_token = some t; unlocked_ok = true }

  -- The refresh token is decrypted into memory where memory holds none.
  unfoldable pub open_cipher : Vault → Vault
  unfolding opened
  open_cipher v =
      if is_set v.refresh_token then record v { unlocked_ok = true } else elim v.disk.cipher [
        | none ↦ record v { unlocked_ok = true }
        | some [] ↦ record v { unlocked_ok = true }
        | some (c ∷ cs) ↦ opened (w.unwrap (c ∷ cs)) v
      ]

  -- `unlockVault`
  unfoldable pub unlock_vault : Vault → Vault
  unfolding migrate_once absorb_legacy open_cipher
  unlock_vault v =
      let v' = migrate_once v in
      let done = open_cipher (record v' { disk = absorb_legacy v'.disk }) in
      if v.unlocked_ok then v else done

  unfoldable pub persisted : Option Text → Disk → Disk
  unfolding written
  persisted none d = record d { cipher = none }
  persisted (some c) d = record d { cipher = written d.writable c d.cipher; legacy = none }

  stored_refresh : Text → Disk → Disk
  unfolding persisted
  stored_refresh [] d = record d { cipher = none; legacy = none }
  stored_refresh (c ∷ cs) d = persisted (w.wrap (c ∷ cs)) d

  -- `setSession`: no refresh token given (undefined) is none; null is the empty text.
  unfoldable pub set_session : Text → Option Text → Vault → Vault
  unfolding migrate_once stored_refresh
  set_session access none v = let v' = migrate_once v in record v' { access_token = some access }
  set_session access (some refresh) v =
      let v' = migrate_once v in
      record v' {
        access_token = some access;
        refresh_token = some refresh;
        unlocked_ok = true;
        disk = stored_refresh refresh v'.disk;
      }

  -- `updateAfterRefresh`
  unfoldable pub update_after_refresh : Text → Text → Vault → Vault
  unfolding persisted
  update_after_refresh access [] v = record v { access_token = some access }
  update_after_refresh access (c ∷ cs) v = record v {
    access_token = some access;
    refresh_token = some (c ∷ cs);
    unlocked_ok = true;
    disk = persisted (w.wrap (c ∷ cs)) v.disk;
  }

  -- `repersistRefresh`
  unfoldable pub repersist_refresh : Vault → Vault
  unfolding rewritten
  repersist_refresh v = elim v.refresh_token [
    | none ↦ v
    | some [] ↦ v
    | some (c ∷ cs) ↦ record v { disk = rewritten (w.wrap (c ∷ cs)) v.disk }
  ]

  pub unlock-cipher :
      (v : Vault) (t c : Text)
      → is_set (some c) ≡ true
      → v.disk.cipher ≡ some c
      → v.disk.legacy ≡ none
      → w.unwrap c ≡ some t
      → (unlock_vault (reloaded v)).refresh_token ≡ some t
  unfolding unlock_vault migrate_once absorb_legacy open_cipher opened
  unlock-cipher v t [] s e l u = absurd (ground (arith, s))
  unlock-cipher v t (x ∷ xs) s e l u = rw (l, e, u) refl

  pub migrate-writable : (v : Vault) → (migrate_once v).disk.writable ≡ v.disk.writable
  unfolding migrate_once
  migrate-writable v = ground arith

  -- After a logout, a reload and an unlock with any key, there is no session in memory or on disk.
  pub clear_session-reloaded :
      (v : Vault)
      → ((has_session (unlock_vault (reloaded (clear_session v)))).0 ≡ false)
        × (has_persisted_session (unlock_vault (reloaded (clear_session v))) ≡ false)
  unfolding unlock_vault migrate_once absorb_legacy open_cipher clear_session has_session
      has_persisted_session
  clear_session-reloaded v = (refl, refl)
