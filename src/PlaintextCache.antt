-- ===== src/PlaintextCache.antt =====
-- The texts of the user's own messages, kept by frontend/src/services/plaintextCache.ts. The storage
-- entry of the active profile is none where it is missing or is no JSON object; `setItem` throws on
-- the caches that do not fit the quota.
mod Examples
use nur_chat.Prelude.{
  ℕ, zero, suc, ◌+◌, ◌-◌, ◌/◌, ◌≤◌, ◌≡◌, refl, ◌≢◌, Bool, true, false, not, ◌&&◌, ◌||◌, Option,
  none, some, List, [], ◌∷◌, ◌++◌, arith, tests, ltb, ◌==◌, if◌then◌else◌, length, length-append,
  length-drop, take, drop, keep, ap, sym, ◌∙◌, inl, inr, Bool-cases, ltb→le, ltb→lt, ◌<◌,
  Option-cases, ◌⊎◌,
}
use nur_chat.Text.{Text, same, same_iff, same_refl}
use nur_chat.Assoc.{Assoc, lookup, insert, lookup-insert_self, length-insert-le, lookup-insert_ne}

abbrev pub max_entries : ℕ
max_entries = 2000

abbrev pub Storage : Type 0
Storage = Option (Assoc Text)

abbrev pub is_empty : Text → Bool
is_empty [] = true
is_empty (x ∷ xs) = false

-- `loadPlaintextCache`
unfoldable pub load_plaintext_cache : Storage → Assoc Text
load_plaintext_cache none = []
load_plaintext_cache (some cache) = cache

-- `keys.slice(0, n)` deleted, from the front: the oldest entries.
abbrev pub without_oldest : ℕ → Assoc Text → Assoc Text
without_oldest n cache = drop n cache

-- The newest `MAX_ENTRIES` entries.
unfoldable pub bounded : Assoc Text → Assoc Text
bounded cache =
    if ltb max_entries (length cache)
    then without_oldest (length cache - max_entries) cache
    else cache

is_known : Option Text → Text → Bool
is_known none text = false
is_known (some known) text = same known text

-- The entries that are strings and not empty.
unfoldable pub clean : List (Text × Option Text) → Assoc Text
clean [] = []
clean ((k, none) ∷ es) = clean es
clean ((k, some v) ∷ es) =
    let rest = clean es in if is_empty k || is_empty v then rest else (k, v) ∷ rest

module _ (fits : Assoc Text → Bool) where
  -- `persist`: where the quota is exceeded, once more without the older half, rounded up.
  unfoldable pub persist : Assoc Text → Storage → Storage
  persist cache s =
      if fits cache
      then some cache
      else let half = without_oldest ((length cache + 1) / 2) cache in
        if fits half then some half else s

  -- `savePlaintext`
  unfoldable pub save_plaintext : Text → Text → Storage → Storage
  unfolding persist bounded is_known load_plaintext_cache
  save_plaintext id text s =
      let cache = load_plaintext_cache s in
      if is_empty id || is_empty text
      then s
      else if is_known (lookup id cache) text
      then s
      else persist (bounded (insert id text cache)) s

  -- `replacePlaintextCache`, of the entries of an object: a value that is no string is none
  unfoldable pub replace_plaintext_cache : List (Text × Option Text) → Storage → Bool × Storage
  unfolding clean bounded
  replace_plaintext_cache entries s =
      let cache = bounded (clean entries) in if fits cache then (true, some cache) else (false, s)

-- `clearPlaintextCache`
unfoldable pub clear_plaintext_cache : Storage → Storage
clear_plaintext_cache s = none

-- `getPlaintext`
unfoldable pub get_plaintext : Text → Storage → Option Text
unfolding load_plaintext_cache
get_plaintext id s = if is_empty id then none else lookup id (load_plaintext_cache s)

length-bounded : (cache : Assoc Text) → length (bounded cache) ≤ 2000
unfolding bounded
length-bounded cache = elim (Bool-cases (ltb max_entries (length cache))) [
  | inl over ↦ rw over (omega (arith, length-drop (length cache - 2000) cache))
  | inr fits ↦ rw fits (ltb→le max_entries (length cache) fits)
]

-- The bound on what is stored.
abbrev pub IsBounded : Storage → Type 0
IsBounded s = length (load_plaintext_cache s) ≤ 2000

persist-IsBounded :
    (fits : Assoc Text → Bool) (cache : Assoc Text) (s : Storage)
    → length cache ≤ 2000
    → IsBounded s
    → IsBounded (persist fits cache s)
unfolding persist load_plaintext_cache
persist-IsBounded fits cache s h k = ground (arith, length-drop ((length cache + 1) / 2) cache)

-- A save and a replacement keep at most 2000 entries, whatever the storage accepts.
pub save-IsBounded :
    (fits : Assoc Text → Bool) (id text : Text) (entries : List (Text × Option Text)) (s : Storage)
    → IsBounded s
    → IsBounded (save_plaintext fits id text s)
      × IsBounded (replace_plaintext_cache fits entries s).1
unfolding save_plaintext replace_plaintext_cache load_plaintext_cache
save-IsBounded fits id text entries s h =
    let cache = insert id text (load_plaintext_cache s) in
    (
      ground (arith, persist-IsBounded fits (bounded cache) s (length-bounded cache) h),
      ground (arith, length-bounded (clean entries)),
    )

lookup-drop-insert :
    (n : ℕ) (id text : Text) (cache : Assoc Text)
    → n ≤ length cache
    → length (insert id text cache) ≡ length cache + 1
    → lookup id (drop n (insert id text cache)) ≡ some text
unfolding lookup insert
lookup-drop-insert n id text [] h k = let e : n ≡ 0 = omega arith in rw (e, same_refl id) refl
lookup-drop-insert zero id text ((j, w) ∷ cache) h k = lookup-insert_self id text ((j, w) ∷ cache)
lookup-drop-insert (suc n) id text ((j, w) ∷ cache) h k = elim (Bool-cases (same j id)) [
  | inl e ↦
      let same_size : length (insert id text ((j, w) ∷ cache)) ≡ suc (length cache) = rw e refl in
      absurd (omega arith)
  | inr ne ↦
      let one_more : length (insert id text ((j, w) ∷ cache))
          ≡ suc (length (insert id text cache)) =
        rw ne refl in
      rw ne (lookup-drop-insert n id text cache (omega arith) (omega arith))
]

lookup-bounded-insert :
    (id text : Text) (cache : Assoc Text)
    → length cache ≤ 2000
    → lookup id (bounded (insert id text cache)) ≡ some text
unfolding bounded
lookup-bounded-insert id text cache h =
    elim (Bool-cases (ltb max_entries (length (insert id text cache)))) [
      | inl over ↦
          let full : 2000 < length (insert id text cache) = ltb→lt _ _ over in
          let grown : length (insert id text cache) ≡ length cache + 1 =
            omega (arith, length-insert-le id text cache) in
          rw over (
            lookup-drop-insert (length (insert id text cache) - 2000) id text cache (omega arith)
              grown)
      | inr fits ↦ rw fits (lookup-insert_self id text cache)
    ]

-- The cache that a save asks the storage to take.
abbrev pub offered : Text → Text → Storage → Assoc Text
offered id text s = bounded (insert id text (load_plaintext_cache s))

-- What the storage takes of it: the whole, or the newer half where the id is new and not the only one.
abbrev pub HasRoom : (Assoc Text → Bool) → Text → Text → Storage → Type 0
HasRoom fits id text s =
    (fits (offered id text s) ≡ true)
    ⊎ ((lookup id (load_plaintext_cache s) ≡ none)
        × (0 < length (load_plaintext_cache s))
        × (fits (drop ((length (offered id text s) + 1) / 2) (offered id text s)) ≡ true))

length-insert_new :
    (id text : Text) (cache : Assoc Text)
    → lookup id cache ≡ none
    → length (insert id text cache) ≡ length cache + 1
unfolding lookup insert
length-insert_new id text [] h = refl
length-insert_new id text ((j, w) ∷ cache) h = ground (arith, h, length-insert_new id text cache)

drop_nil : (k : ℕ) → ◌≡◌ {A = Assoc Text} (drop k []) []
drop_nil zero = refl
drop_nil (suc k) = refl

drop-drop : (m n : ℕ) (cache : Assoc Text) → drop n (drop m cache) ≡ drop (m + n) cache
drop-drop zero n cache = let e : n ≡ 0 + n = omega arith in ap (λ k. drop k cache) e
drop-drop (suc m) n [] = drop_nil n ∙ sym (drop_nil (suc m + n))
drop-drop (suc m) n (x ∷ cache) =
    let e : suc (m + n) ≡ suc m + n = omega arith in
    drop-drop m n cache ∙ ap (λ k. drop k (x ∷ cache)) e

-- The newer half has the new text.
lookup-half :
    (id text : Text) (cache : Assoc Text)
    → lookup id cache ≡ none
    → 0 < length cache
    → length cache ≤ 2000
    → lookup id
        (drop ((length (bounded (insert id text cache)) + 1) / 2) (bounded (insert id text cache)))
      ≡ some text
unfolding bounded
lookup-half id text cache new some_there h =
    let grown : length (insert id text cache) ≡ length cache + 1 =
      length-insert_new id text cache new in
    let all : Assoc Text = insert id text cache in
    elim (Bool-cases (ltb max_entries (length all))) [
      | inl over ↦
          let full : 2000 < length all = ltb→lt _ _ over in
          rw
            (
              over,
              drop-drop (length all - 2000) ((length (drop (length all - 2000) all) + 1) / 2) all,
            )
            (lookup-drop-insert
              (length all - 2000 + (length (drop (length all - 2000) all) + 1) / 2) id text cache
              (omega (arith, length-drop (length all - 2000) all)) grown)
      | inr fits ↦
          rw fits (lookup-drop-insert ((length all + 1) / 2) id text cache (omega arith) grown)
    ]

read_back :
    (fits : Assoc Text → Bool) (id text : Text) (s : Storage)
    → IsBounded s
    → HasRoom fits id text s
    → lookup id (load_plaintext_cache (persist fits (offered id text s) s)) ≡ some text
unfolding persist load_plaintext_cache
read_back fits id text s h (inl room) =
    rw room (lookup-bounded-insert id text (load_plaintext_cache s) h)
read_back fits id text s h (inr (new, there, room)) = elim (Bool-cases (fits (offered id text s))) [
  | inl whole ↦ rw whole (lookup-bounded-insert id text (load_plaintext_cache s) h)
  | inr part ↦ rw (part, room) (lookup-half id text (load_plaintext_cache s) new there h)
]

-- Where the storage holds at most 2000 entries and takes the cache with the text, or, for a new id beside
-- others, takes the newer half of it, a text that was saved is read back, also where the cache is full and
-- the oldest entry makes room, for an id and a text that are not empty.
pub get-save :
    (fits : Assoc Text → Bool) (id text : Text) (s : Storage)
    → HasRoom fits id text s
    → IsBounded s
    → is_empty id ≡ false
    → is_empty text ≡ false
    → get_plaintext id (save_plaintext fits id text s) ≡ some text
unfolding get_plaintext save_plaintext is_known
get-save fits id text s room h i t = elim (Option-cases (lookup id (load_plaintext_cache s))) [
  | inl e ↦ rw (i, t, e) (read_back fits id text s h room)
  | inr (known, e) ↦ elim (Bool-cases (same known text)) [
    | inl k ↦ rw (i, t, e, k) (e ∙ ap some ((same_iff known text).0 k))
    | inr k ↦ rw (i, t, e, k) (read_back fits id text s h room)
  ]
]
