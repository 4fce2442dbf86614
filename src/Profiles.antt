-- ===== src/Profiles.antt =====
-- The accounts of a device in frontend/src/services/profiles.ts. A stored value that is no profile is
-- none; an entry of `localStorage` that is missing or does not parse is none.
mod Examples
use nur_chat.Prelude.{
  ℕ, ◌+◌, ◌≡◌, refl, Bool, true, false, not, ◌&&◌, Option, none, some, List, [], ◌∷◌, ◌++◌, arith,
  if◌then◌else◌, length, length-append, keep, map, ap, sym, ◌∙◌, inl, inr, Bool-cases, Option-cases,
  if_true, if_false,
}
use nur_chat.Text.{Text, codes, same, same_iff, same_refl}

pub record AccountProfile : Type 0 where
  pub id : Text
  pub relay_host : Text
  pub relay_protocol : Text
  pub user_id : Text
  pub username : Text
  pub created_at : ℕ
  pub last_used_at : ℕ

-- The two entries, and whether `localStorage` takes writes.
pub record Storage : Type 0 where
  pub profiles : Option (List (Option AccountProfile))
  pub active : Option Text
  pub writable : Bool

abbrev pub legacy_profile_id : Text
legacy_profile_id = codes "legacy"

-- `profileId`
unfoldable pub profile_id : Text → Text → Text → Text
profile_id protocol host user = protocol ++ codes "://" ++ host ++ codes "::" ++ user

unfoldable pub valid : List (Option AccountProfile) → List AccountProfile
valid [] = []
valid (none ∷ ps) = valid ps
valid (some p ∷ ps) = p ∷ valid ps

-- `listProfiles`
unfoldable pub list_profiles : Storage → List AccountProfile
unfolding valid
list_profiles s = elim s.profiles [ none ↦ [] | some ps ↦ valid ps ]

-- `saveProfiles`; a failure is ignored
unfoldable pub save_profiles : List AccountProfile → Storage → Storage
save_profiles ps s = if s.writable then record s { profiles = some (map some ps) } else s

unfoldable pub find_profile : (AccountProfile → Bool) → List AccountProfile → Option AccountProfile
find_profile f [] = none
find_profile f (p ∷ ps) = if f p then some p else find_profile f ps

-- The writes to the profile that was found, in its place.
unfoldable pub assign_profile :
    (AccountProfile → Bool)
    → (AccountProfile → AccountProfile)
    → List AccountProfile
    → List AccountProfile
assign_profile f g [] = []
assign_profile f g (p ∷ ps) = if f p then g p ∷ ps else p ∷ assign_profile f g ps

abbrev pub has_profile_id : Text → AccountProfile → Bool
has_profile_id id p = same p.id id

found_active : Option Text → List AccountProfile → Option AccountProfile
unfolding find_profile
found_active none ps = none
found_active (some []) ps = none
found_active (some (c ∷ cs)) ps = find_profile (has_profile_id (c ∷ cs)) ps

-- `getActiveProfile`
unfoldable pub get_active_profile : Storage → Option AccountProfile
unfolding found_active list_profiles
get_active_profile s = found_active s.active (list_profiles s)

touched : Text → ℕ → List AccountProfile → Storage → Option AccountProfile → Storage
unfolding assign_profile save_profiles
touched id now ps s none = s
touched id now ps s (some p) =
    save_profiles (assign_profile (has_profile_id id) (λ q. record q { last_used_at = now }) ps) s

-- `touchProfile`
unfoldable pub touch_profile : Text → ℕ → Storage → Storage
unfolding touched find_profile list_profiles
touch_profile id now s =
    let ps = list_profiles s in touched id now ps s (find_profile (has_profile_id id) ps)

-- `setActiveProfileId`; null and the empty text remove the entry
unfoldable pub set_active_profile_id : Option Text → ℕ → Storage → Storage
unfolding touch_profile
set_active_profile_id none now s = record s { active = none }
set_active_profile_id (some []) now s = record s { active = none }
set_active_profile_id (some (c ∷ cs)) now s =
    touch_profile (c ∷ cs) now
      (record s { active = if s.writable then some (c ∷ cs) else s.active })

-- The profile of an account.
unfoldable pub is_account : Text → Text → Text → AccountProfile → Bool
is_account protocol host user p =
    same p.relay_host host && same p.relay_protocol protocol && same p.user_id user

unfoldable pub fresh_profile : Text → Text → Text → Text → ℕ → List AccountProfile → AccountProfile
unfolding profile_id
fresh_profile protocol host user name now ps = record {
  id = elim ps [ [] ↦ legacy_profile_id | _ ∷ _ ↦ profile_id protocol host user ];
  relay_host = host;
  relay_protocol = if same protocol (codes "https") then codes "https" else codes "http";
  user_id = user;
  username = name;
  created_at = now;
  last_used_at = now;
}

upserted :
    Text
    → Text
    → Text
    → Text
    → ℕ
    → List AccountProfile
    → Storage
    → Option AccountProfile
    → AccountProfile × Storage
unfolding fresh_profile assign_profile save_profiles set_active_profile_id is_account
upserted protocol host user name now ps s (some p) =
    let renew : (AccountProfile → AccountProfile) =
      λ q. record q { username = name; last_used_at = now } in
    let s' = save_profiles (assign_profile (is_account protocol host user) renew ps) s in
    (renew p, set_active_profile_id (some p.id) now s')
upserted protocol host user name now ps s none =
    let fresh = fresh_profile protocol host user name now ps in
    (fresh, set_active_profile_id (some fresh.id) now (save_profiles (ps ++ (fresh ∷ [])) s))

-- `upsertProfile`
unfoldable pub upsert_profile : Text → Text → Text → Text → ℕ → Storage → AccountProfile × Storage
unfolding upserted list_profiles find_profile
upsert_profile protocol host user name now s =
    let ps = list_profiles s in
    upserted protocol host user name now ps s (find_profile (is_account protocol host user) ps)

is_active : Text → Option Text → Bool
is_active id none = false
is_active id (some active) = same active id

-- `removeProfile`
unfoldable pub remove_profile : Text → Storage → Storage
unfolding list_profiles save_profiles is_active
remove_profile id s =
    let s' = save_profiles (keep (λ p. not (same p.id id)) (list_profiles s)) s in
    if is_active id s'.active then record s' { active = none } else s'

ensured : Text → Text → Text → Text → ℕ → Storage → Option AccountProfile → AccountProfile × Storage
unfolding upsert_profile
ensured protocol host user name now s (some p) = (p, s)
ensured protocol host user name now s none = upsert_profile protocol host user name now s

-- `ensureActiveProfile`
unfoldable pub ensure_active_profile :
    Text → Text → Text → Text → ℕ → Storage → AccountProfile × Storage
unfolding ensured get_active_profile
ensure_active_profile protocol host user name now s =
    ensured protocol host user name now s (get_active_profile s)

-- `namespaceOf`
unfoldable pub namespace_of : AccountProfile → Text
namespace_of p = if same p.id legacy_profile_id then [] else p.id ++ codes "::"

namespace_or_none : Option AccountProfile → Text
unfolding namespace_of
namespace_or_none none = []
namespace_or_none (some p) = namespace_of p

-- `activeNamespace`
unfoldable pub active_namespace : Storage → Text
unfolding namespace_or_none get_active_profile
active_namespace s = namespace_or_none (get_active_profile s)

-- `namespacedLSKey`
unfoldable pub namespaced_ls_key : Text → Storage → Text
unfolding active_namespace
namespaced_ls_key base s = active_namespace s ++ base

valid-map : (ps : List AccountProfile) → valid (map some ps) ≡ ps
unfolding valid
valid-map [] = refl
valid-map (p ∷ ps) = ap (◌∷◌ p) (valid-map ps)

list-save :
    (ps : List AccountProfile) (s : Storage)
    → s.writable ≡ true
    → list_profiles (save_profiles ps s) ≡ ps
unfolding list_profiles save_profiles
list-save ps s w = rw w (valid-map ps)

find-kept :
    (id : Text) (ps : List AccountProfile)
    → find_profile (has_profile_id id) (keep (λ p. not (same p.id id)) ps) ≡ none
unfolding find_profile
find-kept id [] = refl
find-kept id (p ∷ ps) = ground (arith, find-kept id ps)

list-dropped : (s : Storage) → list_profiles (record s { active = none }) ≡ list_profiles s
unfolding list_profiles
list-dropped s = refl

save-writable :
    (ps : List AccountProfile) (s : Storage) → (save_profiles ps s).writable ≡ s.writable
unfolding save_profiles
save-writable ps s = ground arith

save-active : (ps : List AccountProfile) (s : Storage) → (save_profiles ps s).active ≡ s.active
unfolding save_profiles
save-active ps s = ground arith

removed_list :
    (id : Text) (s : Storage)
    → s.writable ≡ true
    → list_profiles (remove_profile id s) ≡ keep (λ p. not (same p.id id)) (list_profiles s)
unfolding remove_profile
removed_list id s w =
    let ps : List AccountProfile = keep (λ p. not (same p.id id)) (list_profiles s) in
    let s' : Storage = save_profiles ps s in
    elim (Bool-cases (is_active id s'.active)) [
      | inl on ↦
          ap list_profiles (if_true _ (record s' { active = none }) s' on)
          ∙ list-dropped s'
          ∙ list-save ps s w
      | inr off ↦
          ap list_profiles (if_false _ (record s' { active = none }) s' off) ∙ list-save ps s w
    ]

removed_active :
    (id : Text) (s : Storage) → s.active ≡ some id → (remove_profile id s).active ≡ none
unfolding remove_profile is_active
removed_active id s e =
    let s' : Storage = save_profiles (keep (λ p. not (same p.id id)) (list_profiles s)) s in
    let active : s'.active ≡ some id = save-active _ s ∙ e in
    let on : is_active id s'.active ≡ true = ap (is_active id) active ∙ same_refl id in
    ap (λ t. t.active) (if_true _ (record s' { active = none }) s' on)

no_namespace : (base : Text) (s : Storage) → s.active ≡ none → namespaced_ls_key base s ≡ base
unfolding namespaced_ls_key active_namespace get_active_profile found_active namespace_or_none
no_namespace base s e = ap (λ a. namespace_or_none (found_active a (list_profiles s)) ++ base) e

-- After the active profile is removed, where storage takes writes, no profile in the list has its id,
-- and the names of entries carry no namespace.
pub remove_profile-gone :
    (id base : Text) (s : Storage)
    → s.writable ≡ true
    → s.active ≡ some id
    → (find_profile (has_profile_id id) (list_profiles (remove_profile id s)) ≡ none)
      × (namespaced_ls_key base (remove_profile id s) ≡ base)
remove_profile-gone id base s w e = (
  ap (find_profile (has_profile_id id)) (removed_list id s w) ∙ find-kept id (list_profiles s),
  no_namespace base (remove_profile id s) (removed_active id s e),
)

length-assign :
    (f : AccountProfile → Bool) (g : AccountProfile → AccountProfile) (ps : List AccountProfile)
    → length (assign_profile f g ps) ≡ length ps
unfolding assign_profile
length-assign f g [] = refl
length-assign f g (p ∷ ps) = ground (arith, length-assign f g ps)

length-touched :
    (id : Text) (now : ℕ) (s : Storage) (o : Option AccountProfile)
    → s.writable ≡ true
    → length (list_profiles (touched id now (list_profiles s) s o)) ≡ length (list_profiles s)
unfolding touched
length-touched id now s none w = refl
length-touched id now s (some p) w =
    ap length (list-save _ s w) ∙ length-assign _ _ (list_profiles s)

length-set_active :
    (o : Option Text) (now : ℕ) (s : Storage)
    → s.writable ≡ true
    → length (list_profiles (set_active_profile_id o now s)) ≡ length (list_profiles s)
unfolding set_active_profile_id touch_profile list_profiles
length-set_active none now s w = refl
length-set_active (some []) now s w = refl
length-set_active (some (c ∷ cs)) now s w =
    length-touched (c ∷ cs) now
      (record s { active = if s.writable then some (c ∷ cs) else s.active }) _ w

length-upserted :
    (protocol host user name : Text) (now : ℕ) (s : Storage) (o : Option AccountProfile)
    → s.writable ≡ true
    → length (list_profiles (upserted protocol host user name now (list_profiles s) s o).1)
      ≡ (elim o [ none ↦ length (list_profiles s) + 1 | some p ↦ length (list_profiles s) ])
unfolding upserted
length-upserted protocol host user name now s none w =
    let fresh : AccountProfile = fresh_profile protocol host user name now (list_profiles s) in
    let ps : List AccountProfile = list_profiles s ++ (fresh ∷ []) in
    length-set_active (some fresh.id) now (save_profiles ps s) (save-writable ps s ∙ w)
    ∙ ap length (list-save ps s w)
    ∙ length-append (list_profiles s) (fresh ∷ [])
length-upserted protocol host user name now s (some p) w =
    length-set_active (some p.id) now _ (save-writable _ s ∙ w)
    ∙ ap length (list-save _ s w)
    ∙ length-assign _ _ (list_profiles s)

-- Where storage takes writes, a sign-in adds one profile exactly where the device has none of that
-- account, and otherwise keeps their number: an account is never listed twice by a sign-in.
pub length-upsert :
    (protocol host user name : Text) (now : ℕ) (s : Storage)
    → s.writable ≡ true
    → length (list_profiles (upsert_profile protocol host user name now s).1)
      ≡ (elim (find_profile (is_account protocol host user) (list_profiles s)) [
        | none ↦ length (list_profiles s) + 1
        | some p ↦ length (list_profiles s)
      ])
unfolding upsert_profile
length-upsert protocol host user name now s w = length-upserted protocol host user name now s _ w
