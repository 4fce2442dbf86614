-- ===== src/RefreshSync.antt =====
-- The coordination of tabs in frontend/src/services/refreshSync.ts. The storage that the tabs share is
-- one state; the check, the write and the confirmation of an acquisition are steps on it, and a release is
-- one. The broadcast channel is the list of what was posted.
mod Examples
use nur_chat.Prelude.{
  ℕ, ◌+◌, ◌≤◌, ◌<◌, ◌≡◌, refl, ◌≢◌, Bool, true, false, not, ◌&&◌, ◌||◌, Option, none, some, List,
  [], ◌∷◌, ◌++◌, arith, ltb, if◌then◌else◌, ap, sym, ◌∙◌, All, ltb→lt, lt→ltb, le→ltb, ltb→le, inl,
  inr, Bool-cases, if_false, if_true,
}
use nur_chat.Assoc.{Assoc, lookup, insert, remove, lookup-remove, lookup-insert_self}
use mathlib.Core.Path.{subst}
use nur_chat.Text.{Text, same, same_iff, same_refl}

abbrev pub lock_ttl_ms : ℕ
lock_ttl_ms = 15000

pub record RefreshLock : Type 0 where
  pub owner : Text
  pub exp : ℕ

-- A message on the channel: the profile of the tab that sent it and its tokens.
pub record Announcement : Type 0 where
  pub profile : Option Text
  pub access : Text
  pub refresh : Option Text

-- The lock and the counter in `localStorage` (none where an entry is missing or not readable),
-- whether it takes writes, the posts on the channel, oldest first, and the post that the timer of a tab
-- will repeat.
pub record Shared : Type 0 where
  pub lock : Option RefreshLock
  pub seq : Option ℕ
  pub writable : Bool
  pub posts : List Announcement
  pub timers : Assoc Announcement

unfoldable pub is_owner : Text → Option RefreshLock → Bool
is_owner tab none = false
is_owner tab (some lock) = same lock.owner tab

unfoldable pub is_foreign : Text → ℕ → Option RefreshLock → Bool
is_foreign tab now none = false
is_foreign tab now (some lock) = not (same lock.owner tab) && ltb now lock.exp

-- `isSiblingRefreshing`
unfoldable pub is_sibling_refreshing : Text → ℕ → Shared → Bool
unfolding is_foreign
is_sibling_refreshing tab now s = is_foreign tab now s.lock

-- The three steps of `tryAcquireRefreshLock`: the check, the write, whether it went well, and the read that
-- confirms.
unfoldable pub is_free : Text → ℕ → Shared → Bool
unfolding is_foreign
is_free tab now s = not (is_foreign tab now s.lock)

unfoldable pub write_lock : Text → ℕ → Shared → Bool × Shared
write_lock tab now s =
    if s.writable
    then (true, record s { lock = some (record { owner = tab; exp = now + lock_ttl_ms }) })
    else (false, s)

unfoldable pub is_confirmed : Text → Shared → Bool
unfolding is_owner
is_confirmed tab s = is_owner tab s.lock

unfoldable pub confirmed : Text → Bool × Shared → Bool × Shared
unfolding is_confirmed
confirmed tab (true, s) = (is_confirmed tab s, s)
confirmed tab (false, s) = (false, s)

-- `tryAcquireRefreshLock`, where no other tab comes between its steps
unfoldable pub try_acquire_refresh_lock : Text → ℕ → Shared → Bool × Shared
unfolding is_free write_lock confirmed
try_acquire_refresh_lock tab now s =
    if is_free tab now s then confirmed tab (write_lock tab now s) else (false, s)

-- `releaseRefreshLock`
unfoldable pub release_refresh_lock : Text → Shared → Shared
unfolding is_owner
release_refresh_lock tab s = if is_owner tab s.lock then record s { lock = none } else s

-- `readRefreshSeq`
unfoldable pub read_refresh_seq : Shared → ℕ
read_refresh_seq s = elim s.seq [ none ↦ 0 | some n ↦ n ]

-- `announceRefresh` of a tab: a post, and a timer for its repetition in the place of an earlier one
unfoldable pub announce_refresh : Text → Option Text → Text → Option Text → Shared → Shared
unfolding read_refresh_seq
announce_refresh tab profile access refresh s =
    let post : Announcement = record { profile = profile; access = access; refresh = refresh } in
    record s {
      seq = if s.writable then some (read_refresh_seq s + 1) else s.seq;
      posts = s.posts ++ (post ∷ []);
      timers = insert tab post s.timers;
    }

posted_again : Text → Option Announcement → Shared → Shared
posted_again tab none s = s
posted_again tab (some post) s = record s {
  posts = s.posts ++ (post ∷ []);
  timers = remove tab s.timers;
}

-- The timer of a tab, after a second.
unfoldable pub repeat_announcement : Text → Shared → Shared
unfolding posted_again
repeat_announcement tab s = posted_again tab (lookup tab s.timers) s

unfoldable pub same_profile : Option Text → Option Text → Bool
same_profile none none = true
same_profile (some a) (some b) = same a b
same_profile a b = false

-- `waitForSiblingTokens`: the first post of the tab's own profile among those that arrive in time.
unfoldable pub wait_for_sibling_tokens :
    Option Text → List Announcement → Option (Text × Option Text)
unfolding same_profile
wait_for_sibling_tokens profile [] = none
wait_for_sibling_tokens profile (m ∷ ms) =
    let rest = wait_for_sibling_tokens profile ms in
    if same_profile m.profile profile then some (m.access, m.refresh) else rest

-- The storage, and the times of the tabs whose check has passed: they are to write.
pub record Tabs : Type 0 where
  pub shared : Shared
  pub checked : Assoc ℕ

-- One step of a tab on the lock: of an acquisition, whose steps may have those of other tabs between them,
-- or a release.
pub data Step : Type 0 where
  checks : Text → ℕ → Step
  writes : Text → Step
  confirms : Text → Step
  releases : Text → Step

write_checked : Text → Option ℕ → Tabs → Tabs
unfolding write_lock
write_checked tab none t = t
write_checked tab (some now) t = record t { shared = (write_lock tab now t.shared).1 }

unfoldable pub after : Step → Tabs → Tabs
unfolding is_free release_refresh_lock write_checked
after (checks tab now) t =
    if is_free tab now t.shared then record t { checked = insert tab now t.checked } else t
after (writes tab) t = write_checked tab (lookup tab t.checked) t
after (confirms tab) t = record t { checked = remove tab t.checked }
after (releases tab) t = record t { shared = release_refresh_lock tab t.shared }

abbrev pub run : List Step → Tabs → Tabs
run [] t = t
run (c ∷ cs) t = run cs (after c t)

-- A step by another tab than the holder, its check before a time.
abbrev pub IsOther : Text → ℕ → Step → Type 0
IsOther holder exp (checks tab now) = (holder ≢ tab) × (now < exp)
IsOther holder exp (writes tab) = holder ≢ tab
IsOther holder exp (confirms tab) = holder ≢ tab
IsOther holder exp (releases tab) = holder ≢ tab

-- No tab but the holder has passed the check and not confirmed yet.
abbrev pub NoneChecked : Text → Tabs → Type 0
NoneChecked holder t = (tab : Text) → holder ≢ tab → lookup tab t.checked ≡ none

same_ne : (a b : Text) → a ≢ b → same a b ≡ false
same_ne a b h = ground (arith, same_iff a b)

foreign_lock :
    (holder tab : Text) (exp now : ℕ) (lock : Option RefreshLock)
    → lock ≡ some (record { owner = holder; exp = exp })
    → holder ≢ tab
    → now < exp
    → is_foreign tab now lock ≡ true
unfolding is_foreign
foreign_lock holder tab exp now lock e ne t = rw (e, same_ne holder tab ne, lt→ltb now exp t) refl

not_free :
    (holder tab : Text) (exp now : ℕ) (s : Shared)
    → s.lock ≡ some (record { owner = holder; exp = exp })
    → holder ≢ tab
    → now < exp
    → is_free tab now s ≡ false
unfolding is_free
not_free holder tab exp now s e ne t = rw (foreign_lock holder tab exp now s.lock e ne t) refl

release_refused :
    (tab : Text) (s : Shared) → is_owner tab s.lock ≡ false → release_refresh_lock tab s ≡ s
unfolding release_refresh_lock
release_refused tab s h = rw h refl

not_owner :
    (holder tab : Text) (exp : ℕ) (lock : Option RefreshLock)
    → lock ≡ some (record { owner = holder; exp = exp })
    → holder ≢ tab
    → is_owner tab lock ≡ false
unfolding is_owner
not_owner holder tab exp lock e ne = rw e (same_ne holder tab ne)

released_by_owner :
    (holder : Text) (exp : ℕ) (s : Shared)
    → s.lock ≡ some (record { owner = holder; exp = exp })
    → (release_refresh_lock holder s).lock ≡ none
unfolding release_refresh_lock is_owner
released_by_owner holder exp s e = rw (e, same_refl holder) refl

-- The lock is the holder's, and no other tab is about to write.
pub record IsHeld (holder : Text) (exp : ℕ) (t : Tabs) : Type 0 where
  pub lock : t.shared.lock ≡ some (record { owner = holder; exp = exp })
  pub quiet : NoneChecked holder t

IsHeld-after :
    (holder : Text) (exp : ℕ) (c : Step) (t : Tabs)
    → IsHeld holder exp t
    → IsOther holder exp c
    → IsHeld holder exp (after c t)
unfolding after write_checked
IsHeld-after holder exp (checks tab now) t h (ne, before) =
    subst (IsHeld holder exp)
      (sym (if_false _ _ _ (not_free holder tab exp now t.shared h.lock ne before))) h
IsHeld-after holder exp (writes tab) t h ne =
    subst (IsHeld holder exp) (sym (ap (λ o. write_checked tab o t) (h.quiet tab ne))) h
IsHeld-after holder exp (confirms tab) t h ne = record {
  lock = h.lock;
  quiet = λ other away. ground (arith, lookup-remove tab other t.checked, h.quiet other away);
}
IsHeld-after holder exp (releases tab) t h ne =
    subst (λ s. IsHeld holder exp (record t { shared = s }))
      (sym (release_refused tab t.shared (not_owner holder tab exp t.shared.lock h.lock ne))) h

IsHeld-run :
    (holder : Text) (exp : ℕ) (cs : List Step) (t : Tabs)
    → IsHeld holder exp t
    → All (IsOther holder exp) cs
    → IsHeld holder exp (run cs t)
IsHeld-run holder exp [] t h os = h
IsHeld-run holder exp (c ∷ cs) t h (o, os) =
    IsHeld-run holder exp cs (after c t) (IsHeld-after holder exp c t h o) os

acquired_lock :
    (tab : Text) (now : ℕ) (s : Shared)
    → (try_acquire_refresh_lock tab now s).0 ≡ true
    → (try_acquire_refresh_lock tab now s).1.lock ≡ some (record { owner = tab; exp = now + 15000 })
unfolding try_acquire_refresh_lock write_lock confirmed
acquired_lock tab now s h = elim (Bool-cases (is_free tab now s)) [
  | inl free ↦ elim (Bool-cases s.writable) [
    | inl w ↦ rw (free, w) refl
    | inr w ↦ absurd (ground (arith, h, free, w))
  ]
  | inr taken ↦ absurd (ground (arith, h, taken))
]

-- Where a tab has acquired the lock, and no other tab was then between its check and its confirmation:
-- whatever steps other tabs make within the holder's 15 seconds, in any order and interleaving, no other
-- tab passes the check or is confirmed, each sees a sibling refreshing, and the holder can release the lock
-- at the end. (A tab that had passed the check before may still write.)
pub acquire-excludes :
    (holder tab : Text) (at now : ℕ) (cs : List Step) (s : Shared) (checked : Assoc ℕ)
    → (try_acquire_refresh_lock holder at s).0 ≡ true
    → NoneChecked holder
        (record { shared = (try_acquire_refresh_lock holder at s).1; checked = checked })
    → All (IsOther holder (at + 15000)) cs
    → holder ≢ tab
    → now < at + 15000
    → let t =
        run cs (record { shared = (try_acquire_refresh_lock holder at s).1; checked = checked }) in
      (is_free tab now t.shared ≡ false)
      × (lookup tab t.checked ≡ none)
      × (is_confirmed tab t.shared ≡ false)
      × (is_sibling_refreshing tab now t.shared ≡ true)
      × ((release_refresh_lock holder t.shared).lock ≡ none)
unfolding is_sibling_refreshing is_confirmed
acquire-excludes holder tab at now cs s checked h none_checked os ne before =
    let t : Tabs = record {
      shared = (try_acquire_refresh_lock holder at s).1;
      checked = checked;
    } in
    let held : IsHeld holder (at + 15000) (run cs t) =
      IsHeld-run holder (at + 15000) cs t
        (record { lock = acquired_lock holder at s h; quiet = none_checked }) os in
    let s' : Shared = (run cs t).shared in
    (
      not_free holder tab (at + 15000) now s' held.lock ne before,
      held.quiet tab ne,
      not_owner holder tab (at + 15000) s'.lock held.lock ne,
      foreign_lock holder tab (at + 15000) now s'.lock held.lock ne before,
      released_by_owner holder (at + 15000) s' held.lock,
    )

acquire_free :
    (tab : Text) (now : ℕ) (s : Shared)
    → is_foreign tab now s.lock ≡ false
    → s.writable ≡ true
    → (try_acquire_refresh_lock tab now s).0 ≡ true
unfolding try_acquire_refresh_lock is_free write_lock confirmed is_confirmed is_owner
acquire_free tab now s h w = rw (h, w) (same_refl tab)

acquired_writable :
    (tab : Text) (now : ℕ) (s : Shared)
    → (try_acquire_refresh_lock tab now s).0 ≡ true
    → (try_acquire_refresh_lock tab now s).1.writable ≡ true
unfolding try_acquire_refresh_lock write_lock confirmed
acquired_writable tab now s h = elim (Bool-cases (is_free tab now s)) [
  | inl free ↦ elim (Bool-cases s.writable) [
    | inl w ↦ rw (free, w) refl
    | inr w ↦ absurd (ground (arith, h, free, w))
  ]
  | inr taken ↦ absurd (ground (arith, h, taken))
]

expired_lock :
    (holder tab : Text) (exp now : ℕ) (lock : Option RefreshLock)
    → lock ≡ some (record { owner = holder; exp = exp })
    → exp ≤ now
    → is_foreign tab now lock ≡ false
unfolding is_foreign
expired_lock holder tab exp now lock e h = rw (e, le→ltb now exp h) (ground arith)

-- Once the 15 seconds of a tab that acquired the lock are over, any tab acquires it, so a holder
-- that went away blocks nobody for longer.
pub acquire-expired :
    (holder tab : Text) (t now : ℕ) (s : Shared)
    → (try_acquire_refresh_lock holder t s).0 ≡ true
    → t + 15000 ≤ now
    → (try_acquire_refresh_lock tab now (try_acquire_refresh_lock holder t s).1).0 ≡ true
acquire-expired holder tab t now s h late =
    let s' : Shared = (try_acquire_refresh_lock holder t s).1 in
    acquire_free tab now s'
      (expired_lock holder tab (t + 15000) now s'.lock (acquired_lock holder t s h) late)
      (acquired_writable holder t s h)

wait-append :
    (profile : Option Text) (ms ns : List Announcement)
    → wait_for_sibling_tokens profile ms ≡ none
    → wait_for_sibling_tokens profile (ms ++ ns) ≡ wait_for_sibling_tokens profile ns
unfolding wait_for_sibling_tokens
wait-append profile [] ns h = refl
wait-append profile (m ∷ ms) ns h = ground (arith, h, wait-append profile ms ns)

repeated :
    (tab : Text) (post : Announcement) (s : Shared)
    → lookup tab s.timers ≡ some post
    → (repeat_announcement tab s).posts ≡ s.posts ++ (post ∷ [])
unfolding repeat_announcement posted_again
repeated tab post s e = ap (λ o. (posted_again tab o s).posts) e

-- Where no post for a tab's profile was there before, what a tab of another profile announces first, and
-- repeats, changes nothing, and the tab takes the tokens that its own profile announces next.
pub wait-announce :
    (tab tab' mine other access access' : Text) (refresh refresh' : Option Text) (s : Shared)
    → mine ≢ other
    → wait_for_sibling_tokens (some mine) s.posts ≡ none
    → let theirs : Shared = announce_refresh tab' (some other) access' refresh' s in
      (wait_for_sibling_tokens
          (some mine)
          (announce_refresh tab (some mine) access refresh theirs).posts
        ≡ some (access, refresh))
      × (wait_for_sibling_tokens
            (some mine)
            (announce_refresh tab
              (some mine)
              access
              refresh
              (repeat_announcement tab' theirs)).posts
          ≡ some (access, refresh))
unfolding announce_refresh wait_for_sibling_tokens same_profile
wait-announce tab tab' mine other access access' refresh refresh' s ne h =
    let post : Announcement = record {
      profile = some other;
      access = access';
      refresh = refresh';
    } in
    let ours : Announcement = record { profile = some mine; access = access; refresh = refresh } in
    let theirs : Shared = announce_refresh tab' (some other) access' refresh' s in
    let foreign : same other mine ≡ false = ground (arith, same_iff other mine) in
    let skipped : (ms : List Announcement)
        → wait_for_sibling_tokens (some mine) ms ≡ none
        → wait_for_sibling_tokens (some mine) (ms ++ (post ∷ [])) ≡ none =
      λ ms none_yet. wait-append (some mine) ms (post ∷ []) none_yet ∙ rw foreign refl in
    let once : wait_for_sibling_tokens (some mine) theirs.posts ≡ none = skipped s.posts h in
    let twice : wait_for_sibling_tokens (some mine) (repeat_announcement tab' theirs).posts ≡ none =
      ap (wait_for_sibling_tokens (some mine))
        (repeated tab' post theirs (lookup-insert_self tab' post s.timers))
      ∙ skipped theirs.posts once in
    let taken : (ms : List Announcement)
        → wait_for_sibling_tokens (some mine) ms ≡ none
        → wait_for_sibling_tokens (some mine) (ms ++ (ours ∷ [])) ≡ some (access, refresh) =
      λ ms none_yet. wait-append (some mine) ms (ours ∷ []) none_yet ∙ rw (same_refl mine) refl in
    (taken theirs.posts once, taken (repeat_announcement tab' theirs).posts twice)
