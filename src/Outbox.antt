-- ===== src/Outbox.antt =====
-- The queue of unsent messages of frontend/src/services/outbox.ts. The record in secure storage is read as
-- missing where it does not open with the key in use, and is written under that key; both are rejected where
-- the database does not open. The entries of an old database may lack their id, time and count.
mod Examples
use nur_chat.Prelude.{
  ℕ, zero, suc, ◌+◌, ◌-◌, ◌≡◌, refl, ◌≢◌, Bool, true, false, not, Option, none, some, List, [], ◌∷◌,
  ◌++◌, arith, leb, ltb, ◌==◌, ==_iff, if◌then◌else◌, length, length-append, map, keep, ap, sym,
  ◌∙◌, if_true, if_false, inl, inr, Bool-cases,
}
use nur_chat.Text.{Text}

pub record OutboxEntry : Type 0 where
  pub id : Option ℕ
  pub chat_id : Text
  pub text : Text
  pub reply_to_id : Option Text
  pub expires_at : Option Text
  pub created_at : Text
  pub attempts : ℕ

-- A row of the old database.
pub record LegacyEntry : Type 0 where
  pub id : Option ℕ
  pub chat_id : Text
  pub text : Text
  pub reply_to_id : Option Text
  pub expires_at : Option Text
  pub created_at : Option Text
  pub attempts : Option ℕ

-- The entry in secure storage, with the number of the wrapping key that it was written under, the number of
-- the key in use, whether the database opens, the rows of the old database, and whether the module has
-- looked at them.
pub record Store : Type 0 where
  pub stored : Option (ℕ × List OutboxEntry)
  pub key : ℕ
  pub is_open : Bool
  pub legacy : List LegacyEntry
  pub legacy_migrated : Bool

abbrev pub max_attempts : ℕ
max_attempts = 10

abbrev pub max : ℕ → ℕ → ℕ
max a b = if ltb a b then b else a

abbrev pub or_zero : Option ℕ → ℕ
or_zero none = 0
or_zero (some n) = n

unfoldable pub text_or_now : Text → Option Text → Text
text_or_now now none = now
text_or_now now (some []) = now
text_or_now now (some (c ∷ cs)) = c ∷ cs

abbrev pub id_or : ℕ → Option ℕ → ℕ
id_or i none = i
id_or i (some n) = n

-- The rows with what they lack filled in: an id from their place, counted from 1.
unfoldable pub normalized : Text → ℕ → List LegacyEntry → List OutboxEntry
unfolding text_or_now
normalized now i [] = []
normalized now i (e ∷ es) =
    record {
      id = some (id_or (i + 1) e.id);
      chat_id = e.chat_id;
      text = e.text;
      reply_to_id = e.reply_to_id;
      expires_at = e.expires_at;
      created_at = text_or_now now e.created_at;
      attempts = or_zero e.attempts;
    }
    ∷ normalized now (i + 1) es

-- `loadSecureValue`: null where there is no record, and where it does not open with the key.
unfoldable pub load_secure_value : Store → Option (List OutboxEntry)
load_secure_value s = elim s.stored [
  | none ↦ none
  | some record_ ↦ if record_.0 == s.key then some record_.1 else none
]

-- `storeSecureValue`
unfoldable pub with_value : List OutboxEntry → Store → Store
with_value entries s = record s { stored = some (s.key, entries) }

-- `saveAll`: whether it was written.
unfoldable pub save_all : List OutboxEntry → Store → Bool × Store
unfolding with_value
save_all entries s = if s.is_open then (true, with_value entries s) else (false, s)

-- The first read without an entry: the old rows are imported, and dropped once they are written.
unfoldable pub migrated_rows : Text → List LegacyEntry → Store → Option (List OutboxEntry) × Store
unfolding normalized with_value
migrated_rows now [] s = (some [], record s { legacy_migrated = true })
migrated_rows now (e ∷ es) s =
    let rows = normalized now 0 (e ∷ es) in
    (some rows, record (with_value rows s) { legacy = []; legacy_migrated = true })

loaded : Text → Option (List OutboxEntry) → Store → Option (List OutboxEntry) × Store
unfolding migrated_rows
loaded now (some entries) s = (some entries, record s { legacy_migrated = true })
loaded now none s = if s.legacy_migrated then (some [], s) else migrated_rows now s.legacy s

-- `loadAll`, at a given time: none where the promise is rejected.
unfoldable pub load_all : Text → Store → Option (List OutboxEntry) × Store
unfolding loaded load_secure_value
load_all now s = if s.is_open then loaded now (load_secure_value s) s else (none, s)

unfoldable pub next_id : List OutboxEntry → ℕ
next_id [] = 1
next_id (e ∷ es) = max (or_zero e.id + 1) (next_id es)

unfoldable pub new_entry : ℕ → Text → Text → Text → Option Text → Option Text → OutboxEntry
new_entry id now chat text reply expires = record {
  id = some id;
  chat_id = chat;
  text = text;
  reply_to_id = reply;
  expires_at = expires;
  created_at = now;
  attempts = 0;
}

stored_with :
    (List OutboxEntry → List OutboxEntry) → Option (List OutboxEntry) → Store → Bool × Store
unfolding save_all
stored_with f none s = (false, s)
stored_with f (some all) s = save_all (f all) s

-- A change of the whole list: whether it went well.
unfoldable pub update : Text → (List OutboxEntry → List OutboxEntry) → Store → Bool × Store
unfolding load_all stored_with
update now f s = let (all, s') = load_all now s in stored_with f all s'

-- `queueOutboxMessage`
unfoldable pub queue_outbox_message :
    Text → Text → Text → Option Text → Option Text → Store → Bool × Store
unfolding next_id new_entry update
queue_outbox_message now chat text reply expires =
    update now (λ all. all ++ (new_entry (next_id all) now chat text reply expires ∷ []))

entries_or_none : Option (List OutboxEntry) → List OutboxEntry
entries_or_none none = []
entries_or_none (some all) = all

-- `listOutbox`
unfoldable pub list_outbox : Text → Store → List OutboxEntry × Store
unfolding load_all entries_or_none
list_outbox now s = let (all, s') = load_all now s in (entries_or_none all, s')

unfoldable pub has_id : ℕ → Option ℕ → Bool
has_id id none = false
has_id id (some n) = n == id

-- `removeOutbox`; a failure is ignored
unfoldable pub remove_outbox : Text → ℕ → Store → Store
unfolding has_id update
remove_outbox now id s = (update now (keep (λ e. not (has_id id e.id))) s).1

unfoldable pub same_id : Option ℕ → Option ℕ → Bool
same_id none none = true
same_id (some a) (some b) = a == b
same_id a b = false

-- `bumpOutboxAttempts`; a failure is ignored
unfoldable pub bump_outbox_attempts : Text → OutboxEntry → Store → Store
unfolding same_id update
bump_outbox_attempts now entry s =
    (update now
      (map (λ e. if same_id e.id entry.id then record e { attempts = e.attempts + 1 } else e)) s).1

-- `countOutbox`
unfoldable pub count_outbox : Text → Store → ℕ × Store
unfolding list_outbox
count_outbox now s = let (all, s') = list_outbox now s in (length all, s')

-- `isPoison`
abbrev pub is_poison : OutboxEntry → Bool
is_poison entry = leb max_attempts entry.attempts

migrated_rows-open :
    (now : Text) (rows : List LegacyEntry) (s : Store)
    → s.is_open ≡ true
    → (all : List OutboxEntry) × (s' : Store) × (migrated_rows now rows s ≡ (some all, s'))
      × (s'.is_open ≡ true)
unfolding migrated_rows
migrated_rows-open now [] s h = (_, _, refl, h)
migrated_rows-open now (e ∷ es) s h = (_, _, refl, h)

loaded-open :
    (now : Text) (o : Option (List OutboxEntry)) (s : Store)
    → s.is_open ≡ true
    → (all : List OutboxEntry) × (s' : Store) × (loaded now o s ≡ (some all, s'))
      × (s'.is_open ≡ true)
unfolding loaded
loaded-open now (some all) s h = (_, _, refl, h)
loaded-open now none s h = elim (Bool-cases s.legacy_migrated) [
  | inl old ↦ ([], s, if_true _ _ _ old, h)
  | inr first ↦
      let (all, s', e, k) = migrated_rows-open now s.legacy s h in
      (all, s', if_false _ _ _ first ∙ e, k)
]

load_all-open :
    (now : Text) (s : Store)
    → s.is_open ≡ true
    → (all : List OutboxEntry) × (s' : Store) × (load_all now s ≡ (some all, s'))
      × (s'.is_open ≡ true)
unfolding load_all
load_all-open now s h =
    let (all, s', e, k) = loaded-open now (load_secure_value s) s h in
    (all, s', if_true _ _ _ h ∙ e, k)

load_all-stored :
    (now : Text) (s : Store) (all : List OutboxEntry)
    → s.is_open ≡ true
    → load_secure_value s ≡ some all
    → (load_all now s).0 ≡ some all
unfolding load_all loaded
load_all-stored now s all h e = rw (h, e) refl

load-with_value :
    (all : List OutboxEntry) (s : Store) → load_secure_value (with_value all s) ≡ some all
unfolding load_secure_value with_value
load-with_value all s = ground arith

load_all-closed : (now : Text) (s : Store) → s.is_open ≡ false → load_all now s ≡ (none, s)
unfolding load_all
load_all-closed now s h = if_false _ _ _ h

-- Where the database opens, a change of the list is what the list is afterwards, also where the first read
-- imports the old database.
pub list-update :
    (now now' : Text) (f : List OutboxEntry → List OutboxEntry) (s : Store)
    → s.is_open ≡ true
    → ((update now f s).0 ≡ true)
      × ((update now f s).1.is_open ≡ true)
      × ((list_outbox now' (update now f s).1).0 ≡ f (list_outbox now s).0)
unfolding update stored_with save_all with_value list_outbox
list-update now now' f s h =
    let (all, s', e, k) = load_all-open now s h in
    let changed : update now f s ≡ (true, with_value (f all) s') =
      ap (λ r. stored_with f r.0 r.1) e ∙ if_true _ _ _ k in
    (
      ap (λ r. r.0) changed,
      ap (λ r. r.1.is_open) changed ∙ k,
      ap (λ r. (list_outbox now' r.1).0) changed
          ∙ ap entries_or_none
              (load_all-stored now' (with_value (f all) s') (f all) k (load-with_value (f all) s'))
          ∙ sym (ap (λ r. f (entries_or_none r.0)) e),
    )

-- Where the record of the queue was written under another key than the one in use, as after a lock of the
-- PIN, and the old database was looked at, the list is empty, and a message that is queued replaces the
-- record: the messages that were waiting are not there under their own key either.
pub queue-overwrites :
    (now chat text : Text) (reply expires : Option Text) (other : ℕ) (all : List OutboxEntry)
    (s : Store)
    → s.is_open ≡ true
    → s.legacy_migrated ≡ true
    → s.stored ≡ some (other, all)
    → (other == s.key) ≡ false
    → let queued : Store = (queue_outbox_message now chat text reply expires s).1 in
      ((list_outbox now s).0 ≡ [])
      × ((list_outbox now queued).0 ≡ new_entry 1 now chat text reply expires ∷ [])
      × ((list_outbox now (record queued { key = other })).0 ≡ [])
unfolding queue_outbox_message new_entry update load_all loaded load_secure_value stored_with
    save_all with_value list_outbox next_id
queue-overwrites now chat text reply expires other all s opens looked there foreign =
    let own : (s.key == s.key) ≡ true = ground arith in
    let back : (s.key == other) ≡ false = ground (arith, foreign) in
    rw (opens, there, foreign, looked) (refl, rw own refl, rw back refl)
