-- ===== src/E2e/Reload.antt =====
-- The sessions that are written before a page goes away are there again after.
use nur_chat.Prelude.{
  ℕ, ◌+◌, ◌≤◌, ◌≡◌, refl, Option, none, some, [], ◌∷◌, ◌++◌, ◌∙◌, ap, sym, arith, All, length,
  if◌then◌else◌, take-append_self, drop-append_self, length-append,
}
use nur_chat.Text.{Text, Bytes, codes}
use nur_chat.Assoc.{or_else, AreDistinct, lookup}
use nur_chat.Exec.{done}
use nur_chat.Ratchet.Primitives.{Primitives, AreLawful}
use nur_chat.Ratchet.Steps.{is_some}
use nur_chat.Ratchet.Stored.{map_option, IsStorable}
use nur_chat.E2e.{Codecs, Persisted, Parsed, both, State}
use nur_chat.E2e.Restore.{shortened, lookup-restore_sessions, lookup-restore_peers}
use nur_chat.E2e.Payload.{
  serialize_all, restore_sessions, restored, storage_key, derive_storage_key, encrypt_payload,
  open_payload, read_payload, decrypt_payload, persist_sessions, restore_text, restore_record,
  load_sessions_from_storage,
}
use nur_chat.SecureStorage.{
  read_write, Aes, AesIsLawful, Storage, sessions_store, get_device_secret, lock_secure_storage,
}
use nur_chat.SecureStorage.Records.{
  store_text, load_text, store_value, load_value, store_sessions, load_sessions,
}
use nur_chat.SecureStorage.Coherent.{IsCoherent}
use nur_chat.SecureStorage.Reads.{load-store}
use nur_chat.SecureStorage.Secret.{
  HasSecret, get_device_secret_there, get_device_secret-HasSecret, store_text-HasSecret,
  load_text-HasSecret,
}

-- JSON gives back what it wrote, here for what is written of the sessions; what it writes is not empty
-- and comes through UTF-8.
pub record WritingIsLawful (p : Primitives) (codecs : Codecs) (d : Persisted) : Type 0 where
  pub parse-stringify : (t : Text) → codecs.text.parse (codecs.text.stringify t) ≡ some t
  pub utf-stringify :
      (b : Bytes)
      → p.decode (p.encode (codecs.text.stringify (p.base64_encode b)))
        ≡ codecs.text.stringify (p.base64_encode b)
  pub read-write : codecs.read_persisted (codecs.write_persisted d) ≡ some (both d)
  pub utf-write : p.decode (p.encode (codecs.write_persisted d)) ≡ codecs.write_persisted d
  pub write_filled : (x : ℕ) × (xs : Text) × (codecs.write_persisted d ≡ x ∷ xs)

-- A page that is loaded again: nothing is in memory but the PIN's passphrase.
unfoldable pub reload : State → State
reload s = record s {
  sessions = [];
  peers = [];
  decrypted = [];
  storage = lock_secure_storage s.storage;
}

or_else-none : {A : Type 0} (o : Option A) → or_else o none ≡ o
or_else-none none = refl
or_else-none (some a) = refl

is_some-map : {A B : Type 0} (f : A → B) (o : Option A) → is_some (map_option f o) ≡ is_some o
is_some-map f none = refl
is_some-map f (some a) = refl

module _ (p : Primitives) (c : Aes) (codecs : Codecs) where
  -- What `persistSessions` writes of the memory.
  abbrev pub snapshot : State → Persisted
  snapshot s = record { sessions = serialize_all p s.sessions; peers = s.peers }

  abbrev written : State → Text
  written s = codecs.write_persisted (snapshot s)

  abbrev boxed : Text → Text → ℕ → Text
  boxed secret plain draws = p.base64_encode (
      p.random_values draws 24
      ++ p.secretbox_encrypt (p.encode plain) (p.random_values draws 24) (storage_key p secret))

  persisted_lem :
      (s : State) (secret : Text) (st1 st3 : Storage)
      → get_device_secret p s.storage ≡ (done secret, st1)
      → store_text p c sessions_store
          (codes "e2e_sessions")
          (codecs.text.stringify (boxed secret (written s) st1.draws))
          (record st1 { draws = st1.draws + 1 })
        ≡ (done tt, st3)
      → persist_sessions p c codecs s ≡ (done tt, record s { storage = st3 })
  unfolding persist_sessions encrypt_payload derive_storage_key store_sessions store_value
  persisted_lem s secret st1 st3 run stored = rw (run, stored) refl

  loaded_lem :
      (s : State) (secret : Text) (l : Storage) (x y : ℕ) (xs ys : Text) (d : Parsed)
      → load_sessions p c codecs.text s.storage ≡ (done (some (x ∷ xs)), l)
      → get_device_secret p l ≡ (done secret, l)
      → open_payload p (storage_key p secret) (x ∷ xs) ≡ some (y ∷ ys)
      → codecs.read_persisted (y ∷ ys) ≡ some d
      → load_sessions_from_storage p c codecs s ≡ (done tt, restored p d (record s { storage = l }))
  unfolding load_sessions_from_storage restore_record decrypt_payload read_payload
      derive_storage_key restore_text
  loaded_lem s secret l x y xs ys d found run open_eq parsed = rw (found, run, open_eq, parsed) refl

  module _ (laws : AreLawful p) (aes : AesIsLawful c) where
    opens :
        (secret plain : Text) (draws : ℕ)
        → p.decode (p.encode plain) ≡ plain
        → open_payload p (storage_key p secret) (boxed secret plain draws) ≡ some plain
    unfolding open_payload
    opens secret plain draws utf =
        let nonce : Bytes = p.random_values draws 24 in
        let box : Bytes = p.secretbox_encrypt (p.encode plain) nonce (storage_key p secret) in
        rw
          (
            laws.base64_decode-encode (nonce ++ box),
            drop-append_self nonce box 24 (laws.random_length draws 24),
            take-append_self nonce box 24 (laws.random_length draws 24),
            laws.decrypt-encrypt (p.encode plain) nonce (storage_key p secret),
          )
          (ap some utf)

    drawn-IsCoherent :
        (st : Storage) → IsCoherent p c st → IsCoherent p c (record st { draws = st.draws + 1 })
    drawn-IsCoherent st h k e =
        let key = h k e in
        record { first = key.first; rest = key.rest; secret = key.secret; derived = key.derived }

    boxed_filled :
        (secret plain : Text) (draws : ℕ)
        → (x : ℕ) × (xs : Text) × (boxed secret plain draws ≡ x ∷ xs)
    boxed_filled secret plain draws =
        let nonce : Bytes = p.random_values draws 24 in
        let box : Bytes = p.secretbox_encrypt (p.encode plain) nonce (storage_key p secret) in
        go (boxed secret plain draws) (nonce ++ box) (laws.base64_decode-encode (nonce ++ box))
          (omega (arith, length-append nonce box, laws.random_length draws 24))
      where
        go :
            (t : Text) (b : Bytes)
            → p.base64_decode t ≡ b
            → 24 ≤ length b
            → (x : ℕ) × (xs : Text) × (t ≡ x ∷ xs)
        go (x ∷ xs) b e h = (x, xs, refl)
        go [] b e h = absurd (omega (arith, h, ap length (sym e ∙ laws.base64_decode-nil)))

    load_sessions_lem :
        (st l : Storage) (value : Text)
        → load_text p c sessions_store (codes "e2e_sessions") st ≡ (done (some value), l)
        → load_sessions p c codecs.text st ≡ (done (codecs.text.parse value), l)
    unfolding load_sessions load_value
    load_sessions_lem st l value e = rw e refl

    -- What `reload` finds in storage, in one statement for the calls below.
    stored_and_found :
        (s : State)
        → WritingIsLawful p codecs (snapshot s)
        → s.storage.database ≡ read_write
        → IsCoherent p c s.storage
        → (s' : State) × (l : Storage) × (persist_sessions p c codecs s ≡ (done tt, s'))
          × (load_sessions_from_storage p c codecs (reload s')
              ≡ (done tt, restored p (both (snapshot s)) (record (reload s') { storage = l })))
    unfolding reload lock_secure_storage
    stored_and_found s jlaws d coherent =
        let (first, rest, st1, run, there, coherent1) =
          get_device_secret-HasSecret p c laws s.storage d coherent in
        let secret : Text = first ∷ rest in
        let st2 : Storage = record st1 { draws = st1.draws + 1 } in
        let box : Text = boxed secret (written s) st1.draws in
        let value : Text = codecs.text.stringify box in
        let key : Text = codes "e2e_sessions" in
        let (stored, now, later, coherent3) =
          load-store p c laws aes sessions_store key value st2 there.open_db
            (drawn-IsCoherent st1 coherent1) tt (jlaws.utf-stringify _) in
        let st3 : Storage = (store_text p c sessions_store key value st2).1 in
        let there3 : HasSecret first rest st3 =
          store_text-HasSecret p c laws key value first rest st2
            (record { open_db = there.open_db; secret = there.secret }) in
        let locked : HasSecret first rest (lock_secure_storage st3) = record {
          open_db = there3.open_db;
          secret = there3.secret;
        } in
        let l : Storage = (load_text p c sessions_store key (lock_secure_storage st3)).1 in
        let there_l : HasSecret first rest l =
          load_text-HasSecret p c laws sessions_store key first rest (lock_secure_storage st3)
            locked in
        let s' : State = record s { storage = st3 } in
        let (x, xs, filled) = boxed_filled secret (written s) st1.draws in
        let (y, ys, plain) = jlaws.write_filled in
        let loaded : load_sessions p c codecs.text (lock_secure_storage st3)
            ≡ (done (some (x ∷ xs)), l) =
          load_sessions_lem (lock_secure_storage st3) l value (ap (λ o. (o, l)) later)
          ∙ ap (λ o. (done o, l)) (jlaws.parse-stringify box ∙ ap some filled) in
        (
          s',
          l,
          persisted_lem s secret st1 st3 run (ap (λ o. (o, st3)) stored),
          loaded_lem (reload s') secret l x y xs ys _ loaded
              (get_device_secret_there p first rest l there_l)
              (ap (open_payload p (storage_key p secret)) (sym filled)
                ∙ opens secret (written s) st1.draws (jlaws.utf-write)
                ∙ ap some plain)
              (ap codecs.read_persisted (sym plain) ∙ jlaws.read-write),
        )

    -- Where the database opens and takes writes, the cached wrapping key is the device's and every session can be stored:
    -- after the sessions are written and the page is loaded again, reading them gives each chat the session
    -- that it had, with the ids of the messages seen cut to the 2000 with the highest message numbers, over
    -- all ratchet keys, and the peer of each chat that has a session.
    pub load-persist_sessions :
        (chat : Text) (s : State)
        → WritingIsLawful p codecs (snapshot s)
        → s.storage.database ≡ read_write
        → IsCoherent p c s.storage
        → AreDistinct s.sessions
        → AreDistinct s.peers
        → All (λ e. IsStorable p e.1) s.sessions
        → let s' =
            (load_sessions_from_storage p c codecs (reload (persist_sessions p c codecs s).1)).1 in
          ((persist_sessions p c codecs s).0 ≡ done tt)
          × (lookup chat s'.sessions ≡ map_option shortened (lookup chat s.sessions))
          × (lookup chat s'.peers
              ≡ (if is_some (lookup chat s.sessions) then lookup chat s.peers else none))
    unfolding restored reload lookup
    load-persist_sessions chat s jlaws d coherent ks kp h =
        let (s1, l, persisted, loaded) = stored_and_found s jlaws d coherent in
        let found =
          lookup-restore_sessions p laws chat s.sessions [] ks h
          ∙ or_else-none (map_option shortened (lookup chat s.sessions)) in
        let there : is_some (lookup chat (restore_sessions p (serialize_all p s.sessions) []))
            ≡ is_some (lookup chat s.sessions) =
          ap is_some found ∙ is_some-map shortened (lookup chat s.sessions) in
        let run : (load_sessions_from_storage p c codecs
              (reload (persist_sessions p c codecs s).1)).1
            ≡ restored p (both (snapshot s)) (record (reload s1) { storage = l }) =
          ap (λ r. (load_sessions_from_storage p c codecs (reload r.1)).1) persisted
          ∙ ap (λ r. r.1) loaded in
        (
          ap (λ r. r.0) persisted,
          ap (λ (r : State). lookup chat r.sessions) run ∙ found,
          ap (λ (r : State). lookup chat r.peers) run
              ∙ lookup-restore_peers p laws chat s.peers
                  (restore_sessions p (serialize_all p s.sessions) []) [] kp
              ∙ or_else-none _
              ∙ ap (λ b. if b then lookup chat s.peers else none) there,
        )
