-- ===== src/KeyVerification.antt =====
-- The known public keys of frontend/src/services/keyVerification.ts. The storage entry is none where it
-- is missing or does not parse.
mod Examples
use nur_chat.Prelude.{
  ◌≡◌, refl, Bool, true, false, Option, none, some, List, [], ◌∷◌, arith, if◌then◌else◌, ap, inl,
  inr, Option-cases, Bool-cases, ◌∙◌,
}
use nur_chat.Text.{Text, same, same_iff, same_refl}

pub record KnownKey : Type 0 where
  pub user_id : Text
  pub public_key : Text
  pub is_verified : Bool
  pub first_seen : Text
  pub last_seen : Text

pub data KeyStatus : Type 0 where
  new changed verified unknown : KeyStatus

abbrev pub Storage : Type 0
Storage = Option (List KnownKey)

-- `getKnownKeys`, which `getAllKnownKeys` returns
unfoldable pub get_known_keys : Storage → List KnownKey
get_known_keys none = []
get_known_keys (some keys) = keys

-- `keys.find((k) => k.userId === userId)`
unfoldable pub find_key : Text → List KnownKey → Option KnownKey
find_key user [] = none
find_key user (k ∷ ks) = if same k.user_id user then some k else find_key user ks

-- The writes to the entry that `find` returned, which stays in its place.
unfoldable pub assign_key : Text → (KnownKey → KnownKey) → List KnownKey → List KnownKey
assign_key user f [] = []
assign_key user f (k ∷ ks) = if same k.user_id user then f k ∷ ks else k ∷ assign_key user f ks

unfoldable pub push_key : Text → Text → Text → List KnownKey → List KnownKey
push_key user key now [] =
    record {
      user_id = user;
      public_key = key;
      is_verified = false;
      first_seen = now;
      last_seen = now;
    }
    ∷ []
push_key user key now (k ∷ ks) = k ∷ push_key user key now ks

unfoldable pub check_found :
    Text → Text → Text → List KnownKey → Option KnownKey → KeyStatus × List KnownKey
unfolding push_key assign_key
check_found user key now keys none = (new, push_key user key now keys)
check_found user key now keys (some existing) =
    if same existing.public_key key
    then (
      if existing.is_verified then verified else unknown,
      assign_key user (λ k. record k { last_seen = now }) keys,
    )
    else (
      changed,
      assign_key user (λ k. record k { public_key = key; is_verified = false; last_seen = now })
          keys,
    )

-- `checkKeyStatus`, at a given time
unfoldable pub check_key_status : Text → Text → Text → Storage → KeyStatus × Storage
unfolding get_known_keys check_found find_key
check_key_status user key now s =
    let keys = get_known_keys s in
    let (status, keys') = check_found user key now keys (find_key user keys) in (status, some keys')

mark_found : Text → List KnownKey → Storage → Option KnownKey → Storage
unfolding assign_key
mark_found user keys s none = s
mark_found user keys s (some existing) =
    some (assign_key user (λ k. record k { is_verified = true }) keys)

-- `markKeyVerified`
unfoldable pub mark_key_verified : Text → Storage → Storage
unfolding mark_found get_known_keys find_key
mark_key_verified user s =
    let keys = get_known_keys s in mark_found user keys s (find_key user keys)

-- `getKeyVerificationStatus`
unfoldable pub get_key_verification_status : Text → Storage → Option (Bool × Text × Text)
unfolding find_key get_known_keys
get_key_verification_status user s = elim (find_key user (get_known_keys s)) [
  | none ↦ none
  | some k ↦ some (k.is_verified, k.first_seen, k.last_seen)
]

-- One call of the module.
pub data Event : Type 0 where
  checked : Text → Text → Text → Event
  marked : Text → Event

unfoldable pub after : Event → Storage → Storage
unfolding check_key_status mark_key_verified
after (checked user key now) s = (check_key_status user key now s).1
after (marked user) s = mark_key_verified user s

-- What the module promises about one user: the key seen last, and whether the user was marked since it
-- is that key.
abbrev pub Trust : Type 0
Trust = Option (Text × Bool)

unfoldable pub trust_key : Text → Trust → Trust
trust_key key none = some (key, false)
trust_key key (some (known, sure)) =
    if same known key then some (known, sure) else some (key, false)

unfoldable pub trust_mark : Trust → Trust
trust_mark none = none
trust_mark (some (known, sure)) = some (known, true)

unfoldable pub trust_after : Text → Event → Trust → Trust
unfolding trust_key trust_mark
trust_after user (checked other key now) t = if same other user then trust_key key t else t
trust_after user (marked other) t = if same other user then trust_mark t else t

abbrev pub status_of : Text → Trust → KeyStatus
status_of key none = new
status_of key (some (known, sure)) =
    if same known key then (if sure then verified else unknown) else changed

unfoldable pub trust_of : Option KnownKey → Trust
trust_of none = none
trust_of (some k) = some (k.public_key, k.is_verified)

abbrev pub trust_in : Text → Storage → Trust
trust_in user s = trust_of (find_key user (get_known_keys s))

find-push :
    (user other key now : Text) (keys : List KnownKey)
    → find_key user keys ≡ none
    → trust_of (find_key other (push_key user key now keys))
      ≡ (if same user other then some (key, false) else trust_of (find_key other keys))
unfolding find_key push_key trust_of
find-push user other key now [] h = ground arith
find-push user other key now (k ∷ ks) h = ground (
  arith,
  same_iff k.user_id user,
  same_iff k.user_id other,
  same_iff user other,
  find-push user other key now ks,
)

find-assign_self :
    (user : Text) (f : KnownKey → KnownKey) (keys : List KnownKey) (found : KnownKey)
    → ((k : KnownKey) → (f k).user_id ≡ k.user_id)
    → find_key user keys ≡ some found
    → find_key user (assign_key user f keys) ≡ some (f found)
unfolding find_key assign_key
find-assign_self user f [] found h e = absurd (ground (arith, e))
find-assign_self user f (k ∷ ks) found h e = ground (arith, h k, find-assign_self user f ks found h)

find-assign_ne :
    (user other : Text) (f : KnownKey → KnownKey) (keys : List KnownKey)
    → ((k : KnownKey) → (f k).user_id ≡ k.user_id)
    → same user other ≡ false
    → find_key other (assign_key user f keys) ≡ find_key other keys
unfolding find_key assign_key
find-assign_ne user other f [] h e = refl
find-assign_ne user other f (k ∷ ks) h e = ground (
  arith,
  same_iff k.user_id user,
  same_iff k.user_id other,
  same_iff user other,
  h k,
  find-assign_ne user other f ks h e,
)

-- The status that a check returns.
pub check_status :
    (user key now : Text) (s : Storage)
    → (check_key_status user key now s).0 ≡ status_of key (trust_in user s)
unfolding check_key_status check_found trust_of get_known_keys
check_status user key now s = elim (Option-cases (find_key user (get_known_keys s))) [
  | inl e ↦ rw e refl
  | inr (k, e) ↦ rw e (ground arith)
]

trust-checked_self :
    (user key now : Text) (keys : List KnownKey)
    → trust_of (find_key user (check_found user key now keys (find_key user keys)).1)
      ≡ trust_key key (trust_of (find_key user keys))
unfolding check_found trust_of trust_key
trust-checked_self user key now keys = elim (Option-cases (find_key user keys)) [
  | inl e ↦ rw e (find-push user user key now keys e ∙ rw (same_refl user) refl)
  | inr (k, e) ↦ elim (Bool-cases (same k.public_key key)) [
    | inl known ↦
        rw
          (e, known, find-assign_self user (λ k. record k { last_seen = now }) keys k (λ _. refl) e)
          refl
    | inr new_key ↦
        rw
          (
            e,
            new_key,
            find-assign_self user
                (λ k. record k { public_key = key; is_verified = false; last_seen = now }) keys k
                (λ _. refl) e,
          )
          refl
  ]
]

trust-checked_ne :
    (user other key now : Text) (keys : List KnownKey)
    → same user other ≡ false
    → trust_of (find_key other (check_found user key now keys (find_key user keys)).1)
      ≡ trust_of (find_key other keys)
unfolding check_found trust_of
trust-checked_ne user other key now keys ne = elim (Option-cases (find_key user keys)) [
  | inl e ↦ rw e (find-push user other key now keys e ∙ rw ne refl)
  | inr (k, e) ↦ elim (Bool-cases (same k.public_key key)) [
    | inl known ↦
        rw
          (
            e,
            known,
            find-assign_ne user other (λ k. record k { last_seen = now }) keys (λ _. refl) ne,
          )
          refl
    | inr new_key ↦
        rw
          (
            e,
            new_key,
            find-assign_ne user other
                (λ k. record k { public_key = key; is_verified = false; last_seen = now }) keys
                (λ _. refl) ne,
          )
          refl
  ]
]

trust-marked_self :
    (user : Text) (s : Storage)
    → trust_in user (mark_key_verified user s) ≡ trust_mark (trust_in user s)
unfolding mark_key_verified mark_found trust_of trust_mark get_known_keys
trust-marked_self user s = elim (Option-cases (find_key user (get_known_keys s))) [
  | inl e ↦ rw (e, e) refl
  | inr (k, e) ↦
      rw
        (
          e,
          find-assign_self user (λ k. record k { is_verified = true }) (get_known_keys s) k
              (λ _. refl) e,
        )
        refl
]

trust-marked_ne :
    (user other : Text) (s : Storage)
    → same user other ≡ false
    → trust_in other (mark_key_verified user s) ≡ trust_in other s
unfolding mark_key_verified mark_found trust_of get_known_keys
trust-marked_ne user other s ne = elim (Option-cases (find_key user (get_known_keys s))) [
  | inl e ↦ rw e refl
  | inr (k, e) ↦
      rw
        (
          e,
          find-assign_ne user other (λ k. record k { is_verified = true }) (get_known_keys s)
              (λ _. refl) ne,
        )
        refl
]

-- Every call changes what is known of every user as the promise says.
pub trust-after :
    (user : Text) (e : Event) (s : Storage)
    → trust_in user (after e s) ≡ trust_after user e (trust_in user s)
unfolding after trust_after check_key_status get_known_keys
trust-after user (checked other key now) s = elim (Bool-cases (same other user)) [
  | inl e ↦
      let e' : other ≡ user = (same_iff other user).0 e in
      rw (e', same_refl user) (trust-checked_self user key now (get_known_keys s))
  | inr ne ↦ rw ne (trust-checked_ne other user key now (get_known_keys s) ne)
]
trust-after user (marked other) s = elim (Bool-cases (same other user)) [
  | inl e ↦
      let e' : other ≡ user = (same_iff other user).0 e in
      rw (e', same_refl user) (trust-marked_self user s)
  | inr ne ↦ rw ne (trust-marked_ne other user s ne)
]

abbrev pub run : List Event → Storage → Storage
run [] s = s
run (e ∷ es) s = run es (after e s)

abbrev pub trust_run : Text → List Event → Trust → Trust
trust_run user [] t = t
trust_run user (e ∷ es) t = trust_run user es (trust_after user e t)

trust-run :
    (user : Text) (es : List Event) (s : Storage)
    → trust_in user (run es s) ≡ trust_run user es (trust_in user s)
trust-run user [] s = refl
trust-run user (e ∷ es) s =
    trust-run user es (after e s) ∙ ap (trust_run user es) (trust-after user e s)

-- After any calls from an empty storage, in any order and about any users, `checkKeyStatus`
-- answers as the specification for the user alone does: "new" for a user not seen, "changed"
-- where the key is not the last one seen, "verified" where it is and the user was marked since it
-- was last a new or changed key, and "unknown" otherwise.
pub check-run :
    (es : List Event) (user key now : Text)
    → (check_key_status user key now (run es none)).0 ≡ status_of key (trust_run user es none)
unfolding trust_of find_key get_known_keys
check-run es user key now =
    check_status user key now (run es none) ∙ ap (status_of key) (trust-run user es none)
