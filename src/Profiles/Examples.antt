-- ===== src/Profiles/Examples.antt =====
-- The theorems on the profiles of a device with one account.
use nur_chat.Prelude.{◌≡◌, refl, true, none, some, [], ◌∷◌}
use nur_chat.Text.{codes}
use nur_chat.Profiles.{
  AccountProfile, Storage, list_profiles, find_profile, has_profile_id, remove_profile,
  namespaced_ls_key, remove_profile-gone,
}

abbrev ann : AccountProfile
ann = record {
  id = codes "legacy";
  relay_host = codes "h";
  relay_protocol = codes "https";
  user_id = codes "u1";
  username = codes "ann";
  created_at = 1;
  last_used_at = 1;
}

abbrev device : Storage
device = record { profiles = some (some ann ∷ []); active = some (codes "legacy"); writable = true }

remove_profile-gone_example :
    (find_profile
        (has_profile_id (codes "legacy"))
        (list_profiles (remove_profile (codes "legacy") device))
      ≡ none)
    × (namespaced_ls_key (codes "user") (remove_profile (codes "legacy") device) ≡ codes "user")
remove_profile-gone_example = remove_profile-gone (codes "legacy") (codes "user") device refl refl
