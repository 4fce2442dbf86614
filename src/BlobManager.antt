-- ===== src/BlobManager.antt =====
-- The cache of blob URLs in frontend/src/services/blobManager.ts. A download and its decryption are
-- one outcome, given with the time; calls that wait for one download are one call here. Each URL made
-- is a number, and those that were revoked are listed.
mod Examples
use nur_chat.Prelude.{
  ℕ, zero, suc, ◌+◌, ◌-◌, ◌≤◌, ◌<◌, ◌≡◌, refl, ◌≢◌, Bool, true, false, not, Option, none, some,
  List, [], ◌∷◌, ◌++◌, arith, ltb, ◌==◌, if◌then◌else◌, length, length-append, ap, sym, ◌∙◌, inl,
  inr, Bool-cases, Option-cases, All, if_true, if_false, ltb→le,
}
use nur_chat.Text.{Text, same, same_iff, same_refl}
use nur_chat.Assoc.{
  Assoc, lookup, insert, remove, lookup-insert_self, length-remove-le, length-insert-le,
}

abbrev pub max_cached : ℕ
max_cached = 64

pub record Entry : Type 0 where
  pub url : ℕ
  pub blob : Text
  pub created_at : ℕ
  pub ref_count : ℕ

-- The cache in the order of use, the oldest first; the revoked URLs; the next URL.
pub record State : Type 0 where
  pub cache : Assoc Entry
  pub revoked : List ℕ
  pub next_url : ℕ

-- `ensureCapacity`: while there are too many, the oldest entry is revoked and dropped.
unfoldable pub ensure_capacity : Assoc Entry → List ℕ → Assoc Entry × List ℕ
ensure_capacity [] revoked = ([], revoked)
ensure_capacity ((k, e) ∷ cache) revoked =
    let rest = ensure_capacity cache (e.url ∷ revoked) in
    if ltb max_cached (length cache + 1) then rest else ((k, e) ∷ cache, revoked)

-- `cache.delete(id)` and `cache.set(id, entry)`: the entry is the newest.
unfoldable pub bump : Text → Entry → Assoc Entry → Assoc Entry
bump id entry cache = insert id entry (remove id cache)

url_of : Text → State → Option Entry → Option ℕ × State
unfolding bump
url_of id s none = (none, s)
url_of id s (some e) = (some e.url, record s { cache = bump id e s.cache })

-- `getCachedBlobUrl`
unfoldable pub get_cached_blob_url : Text → State → Option ℕ × State
unfolding url_of
get_cached_blob_url id s = url_of id s (lookup id s.cache)

-- A blob that was fetched gets a URL.
unfoldable pub cached_blob : Text → ℕ → Option Text → State → Option ℕ × State
unfolding ensure_capacity
cached_blob id now none s = (none, s)
cached_blob id now (some blob) s =
    let entry : Entry = record { url = s.next_url; blob = blob; created_at = now; ref_count = 1 } in
    let (cache, revoked) = ensure_capacity (insert id entry s.cache) s.revoked in
    (some s.next_url, record { cache = cache; revoked = revoked; next_url = s.next_url + 1 })

found_or_fetched : Text → ℕ → Option Text → State → Option Entry → Option ℕ × State
unfolding bump cached_blob
found_or_fetched id now fetched s (some e) =
    (some e.url, record s { cache = bump id (record e { ref_count = e.ref_count + 1 }) s.cache })
found_or_fetched id now fetched s none = cached_blob id now fetched s

-- `getOrCreateBlobUrl`: none where the download or its decryption fails.
unfoldable pub get_or_create_blob_url : Text → ℕ → Option Text → State → Option ℕ × State
unfolding found_or_fetched
get_or_create_blob_url id now fetched s = found_or_fetched id now fetched s (lookup id s.cache)

released : Text → State → Option Entry → State
released id s none = s
released id s (some e) = record s {
  cache = insert id (record e { ref_count = e.ref_count - 1 }) s.cache;
}

-- `releaseFileBlob`
unfoldable pub release_file_blob : Text → State → State
unfolding released
release_file_blob id s = released id s (lookup id s.cache)

urls_onto : List ℕ → Assoc Entry → List ℕ
urls_onto revoked [] = revoked
urls_onto revoked ((k, e) ∷ cache) = urls_onto (e.url ∷ revoked) cache

-- `revokeAll`
unfoldable pub revoke_all : State → State
unfolding urls_onto
revoke_all s = record s { cache = []; revoked = urls_onto s.revoked s.cache }

length-ensure_capacity :
    (cache : Assoc Entry) (revoked : List ℕ) → length (ensure_capacity cache revoked).0 ≤ 64
unfolding ensure_capacity
length-ensure_capacity [] revoked = omega arith
length-ensure_capacity ((k, e) ∷ cache) revoked =
    ground (arith, length-ensure_capacity cache (e.url ∷ revoked))

lookup_tail :
    (id k : Text) (e : Entry) (cache : Assoc Entry)
    → lookup id ((k, e) ∷ cache) ≡ none
    → (same k id ≡ false) × (lookup id cache ≡ none)
unfolding lookup
lookup_tail id k e cache h = elim (Bool-cases (same k id)) [
  | inl y ↦ absurd (ground (arith, sym (if_true _ (some e) (lookup id cache) y), h))
  | inr n ↦ (n, sym (if_false _ (some e) (lookup id cache) n) ∙ h)
]

length-remove-found :
    (id : Text) (e : Entry) (cache : Assoc Entry)
    → lookup id cache ≡ some e
    → length (remove id cache) + 1 ≤ length cache
unfolding lookup remove
length-remove-found id e [] h = absurd (ground (arith, h))
length-remove-found id e ((k, e') ∷ cache) h =
    ground (arith, h, length-remove-found id e cache, length-remove-le id cache)

-- The newest entry survives.
ensure_capacity-last :
    (id : Text) (entry : Entry) (cache : Assoc Entry) (revoked : List ℕ)
    → lookup id cache ≡ none
    → lookup id (ensure_capacity (insert id entry cache) revoked).0 ≡ some entry
unfolding ensure_capacity lookup insert
ensure_capacity-last id entry [] revoked h = rw (same_refl id) refl
ensure_capacity-last id entry ((k, e) ∷ cache) revoked h =
    let (ne, later) = lookup_tail id k e cache h in
    rw ne (elim (Bool-cases (ltb max_cached (length (insert id entry cache) + 1))) [
      | inl over ↦ rw over (ensure_capacity-last id entry cache (e.url ∷ revoked) later)
      | inr fits ↦ rw (fits, ne) (lookup-insert_self id entry cache)
    ])

length-bump :
    (id : Text) (entry e : Entry) (cache : Assoc Entry)
    → lookup id cache ≡ some e
    → length (bump id entry cache) ≤ length cache
unfolding bump
length-bump id entry e cache h =
    omega (arith, length-insert-le id entry (remove id cache), length-remove-found id e cache h)

get_found :
    (id : Text) (s : State) (e : Entry)
    → lookup id s.cache ≡ some e
    → (get_cached_blob_url id s).0 ≡ some e.url
unfolding get_cached_blob_url url_of
get_found id s e h = rw h refl

-- What the callers rely on after a call: the entry is there under its URL, and the cache is in bounds.
pub record IsCached (id : Text) (u : ℕ) (s : State) : Type 0 where
  pub found : (get_cached_blob_url id s).0 ≡ some u
  pub bound : length s.cache ≤ 64

cached_blob-IsCached :
    (id : Text) (now : ℕ) (fetched : Option Text) (s : State) (u : ℕ)
    → lookup id s.cache ≡ none
    → (cached_blob id now fetched s).0 ≡ some u
    → IsCached id u (cached_blob id now fetched s).1
unfolding cached_blob
cached_blob-IsCached id now none s u e h = absurd (ground (arith, h))
cached_blob-IsCached id now (some blob) s u e h =
    let entry : Entry = record { url = s.next_url; blob = blob; created_at = now; ref_count = 1 } in
    record {
      found =
          get_found id (cached_blob id now (some blob) s).1 entry
            (ensure_capacity-last id entry s.cache s.revoked e)
          ∙ h;
      bound = length-ensure_capacity (insert id entry s.cache) s.revoked;
    }

lookup-bump : (id : Text) (e : Entry) (cache : Assoc Entry) → lookup id (bump id e cache) ≡ some e
unfolding bump
lookup-bump id e cache = lookup-insert_self id e (remove id cache)

found_or_fetched-IsCached :
    (id : Text) (now : ℕ) (fetched : Option Text) (s : State) (u : ℕ) (o : Option Entry)
    → lookup id s.cache ≡ o
    → length s.cache ≤ 64
    → (found_or_fetched id now fetched s o).0 ≡ some u
    → IsCached id u (found_or_fetched id now fetched s o).1
unfolding found_or_fetched
found_or_fetched-IsCached id now fetched s u none e b h =
    cached_blob-IsCached id now fetched s u e h
found_or_fetched-IsCached id now fetched s u (some old) e b h =
    let entry : Entry = record old { ref_count = old.ref_count + 1 } in
    record {
      found =
          get_found id (record s { cache = bump id entry s.cache }) entry
            (lookup-bump id entry s.cache)
          ∙ h;
      bound = omega (arith, length-bump id entry old s.cache e);
    }

-- From a cache of at most 64 blobs, the URL that a call returns is cached for the next caller,
-- and the cache holds at most 64 blobs, whether the blob was there or was fetched and made room
-- for by dropping the oldest.
pub get_or_create-IsCached :
    (id : Text) (now : ℕ) (fetched : Option Text) (s : State) (u : ℕ)
    → length s.cache ≤ 64
    → (get_or_create_blob_url id now fetched s).0 ≡ some u
    → IsCached id u (get_or_create_blob_url id now fetched s).1
unfolding get_or_create_blob_url
get_or_create-IsCached id now fetched s u b h =
    found_or_fetched-IsCached id now fetched s u (lookup id s.cache) refl b h
