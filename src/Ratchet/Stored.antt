-- ===== src/Ratchet/Stored.antt =====
-- `serialize` and `deserialize` of frontend/src/services/doubleRatchet.ts. The entries of a map have
-- distinct keys, so copying them into a new object or map keeps the list of them.
use nur_chat.Prelude.{
  ℕ, ◌≡◌, refl, ◌||◌, Bool, true, false, Option, none, some, List, [], ◌∷◌, ◌++◌, arith, ◌==◌,
  if◌then◌else◌, ap, ◌∙◌,
}
use nur_chat.Text.{Text, Bytes, split, split-append, split-Lacks}
use nur_chat.Text.Hex.{
  AreBytes, bytes_to_hex, hex_to_bytes, hex_to_bytes-bytes_to_hex, bytes_to_hex-Lacks_colon,
}
use nur_chat.Assoc.{Assoc}
use nur_chat.Exec.{Outcome, done, thrown}
use nur_chat.Ratchet.Primitives.{Primitives, KeyPair, AreLawful}
use nur_chat.Ratchet.Kdf.{
  Chain, to_base64, from_base64, from_base64-to_base64, box_key_pair_from_secret_key,
}
use nur_chat.Ratchet.Session.{
  Session, Error, bad_key, bad_text, no_own_key, version_mismatch, protocol_version, has, add,
}
use nur_chat.Ratchet.Messages.{sort_ids, last_of}
use nur_chat.Ratchet.Ids.{has-add}

pub record SerializedSession : Type 0 where
  pub version : ℕ
  pub dhs : Option Text
  pub dhr : Option Text
  pub rk : Option Text
  pub cks : Option Text
  pub ckr : Option Text
  pub cks_step : ℕ
  pub ckr_step : ℕ
  pub ns : ℕ
  pub nr : ℕ
  pub pn : ℕ
  pub our_id : Option Text
  pub their_id : Option Text
  pub skipped : Assoc Text
  pub seen : List Text
  pub pending_send_ratchet : Bool
  pub dh_fresh : Bool

abbrev pub map_option : {A B : Type 0} → (A → B) → Option A → Option B
map_option f none = none
map_option f (some a) = some (f a)

abbrev pub step_of : Option Chain → ℕ
step_of none = 0
step_of (some c) = c.step

-- A call that follows one that may throw.
abbrev pub and_then : {A B : Type 0} → Outcome Error A → (A → Outcome Error B) → Outcome Error B
and_then (done a) f = f a
and_then (thrown e) f = thrown e

-- `new Set(ids)`
unfoldable pub set_of : List Text → List Text → List Text
set_of acc [] = acc
set_of acc (k ∷ ks) = set_of (add k acc) ks

abbrev pub second_part : List Text → Option Text
second_part [] = none
second_part (a ∷ []) = none
second_part (a ∷ b ∷ _) = some b

module _ (p : Primitives) where
  unfoldable pub stored_pair : KeyPair → Text
  stored_pair k = bytes_to_hex k.public_key ++ 58 ∷ bytes_to_hex k.secret_key

  unfoldable pub stored_skipped : Assoc Bytes → Assoc Text
  stored_skipped [] = []
  stored_skipped ((k, v) ∷ m) = (k, to_base64 p v) ∷ stored_skipped m

  unfoldable pub serialize : Session → SerializedSession
  unfolding stored_pair stored_skipped
  serialize s = record {
    version = protocol_version;
    dhs = map_option stored_pair s.dhs;
    dhr = map_option bytes_to_hex s.dhr;
    rk = map_option (to_base64 p) s.rk;
    cks = map_option (λ c. to_base64 p c.key) s.cks;
    ckr = map_option (λ c. to_base64 p c.key) s.ckr;
    cks_step = step_of s.cks;
    ckr_step = step_of s.ckr;
    ns = s.ns;
    nr = s.nr;
    pn = s.pn;
    our_id = map_option (to_base64 p) s.our_identity;
    their_id = map_option (to_base64 p) s.their_identity;
    skipped = stored_skipped s.skipped;
    seen = last_of 2000 (sort_ids s.seen);
    pending_send_ratchet = s.pending_send_ratchet;
    dh_fresh = s.dh_fresh;
  }

  abbrev required : {A : Type 0} → Error → Option A → Outcome Error A
  required e none = thrown e
  required e (some a) = done a

  some_pair : Option KeyPair → Outcome Error (Option KeyPair)
  some_pair none = thrown bad_key
  some_pair (some k) = done (some k)

  secret_part : Option Text → Outcome Error (Option KeyPair)
  unfolding some_pair
  secret_part none = thrown no_own_key
  secret_part (some secret) = some_pair (box_key_pair_from_secret_key p (hex_to_bytes secret))

  -- `if (data.DHs)`: the pair of the secret key behind the colon.
  unfoldable pub restored_pair : Option Text → Outcome Error (Option KeyPair)
  unfolding secret_part
  restored_pair none = done none
  restored_pair (some []) = done none
  restored_pair (some (c ∷ cs)) = secret_part (second_part (split 58 (c ∷ cs)))

  unfoldable pub restored_hex : Option Text → Option Bytes
  restored_hex none = none
  restored_hex (some []) = none
  restored_hex (some (c ∷ cs)) = some (hex_to_bytes (c ∷ cs))

  some_bytes : Option Bytes → Outcome Error (Option Bytes)
  some_bytes none = thrown bad_text
  some_bytes (some b) = done (some b)

  -- `if (data.RK)`, and the fields like it.
  unfoldable pub restored_bytes : Option Text → Outcome Error (Option Bytes)
  unfolding some_bytes
  restored_bytes none = done none
  restored_bytes (some []) = done none
  restored_bytes (some (c ∷ cs)) = some_bytes (from_base64 p (c ∷ cs))

  chain_from : ℕ → Option Bytes → Option Chain
  chain_from step none = none
  chain_from step (some key) = some (record { key = key; step = step })

  keep_entry : Text → Option Bytes → Assoc Bytes → Assoc Bytes
  keep_entry k none m = m
  keep_entry k (some v) m = (k, v) ∷ m

  -- Entries that do not decode are left out.
  unfoldable pub restored_skipped : Assoc Text → Assoc Bytes
  unfolding keep_entry
  restored_skipped [] = []
  restored_skipped ((k, t) ∷ m) = keep_entry k (from_base64 p t) (restored_skipped m)

  unfoldable pub deserialize : SerializedSession → Outcome Error Session
  unfolding restored_pair restored_hex restored_bytes chain_from restored_skipped set_of
  deserialize stored =
      if stored.version == protocol_version
      then and_then (restored_pair stored.dhs) (λ dhs. and_then (restored_bytes stored.rk) (λ rk.
        and_then (restored_bytes stored.cks) (λ cks. and_then (restored_bytes stored.ckr) (λ ckr.
          and_then (restored_bytes stored.our_id) (λ our.
            and_then (restored_bytes stored.their_id) (λ their. done (record {
              dhs = dhs;
              dhr = restored_hex stored.dhr;
              rk = rk;
              cks = chain_from stored.cks_step cks;
              ckr = chain_from stored.ckr_step ckr;
              ns = stored.ns;
              nr = stored.nr;
              pn = stored.pn;
              our_identity = our;
              their_identity = their;
              seen = set_of [] stored.seen;
              skipped = restored_skipped stored.skipped;
              pending_send_ratchet = stored.pending_send_ratchet;
              dh_fresh = stored.dh_fresh;
            })))))))
      else thrown version_mismatch

  -- What a session needs for its stored form to hold it: pairs that match, and byte arrays whose text
  -- is not empty.
  abbrev pub IsPair : Option KeyPair → Type 0
  IsPair none = Unit
  IsPair (some k) =
      (p.get_public_key k.secret_key ≡ some k.public_key)
      × AreBytes k.public_key
      × AreBytes k.secret_key

  abbrev pub is_filled : Text → Bool
  is_filled [] = false
  is_filled (c ∷ cs) = true

  abbrev pub HasText : Option Bytes → Type 0
  HasText none = Unit
  HasText (some b) = is_filled (to_base64 p b) ≡ true

  abbrev pub HasHex : Option Bytes → Type 0
  HasHex none = Unit
  HasHex (some b) = AreBytes b × (is_filled (bytes_to_hex b) ≡ true)

  pub record IsStorable (s : Session) : Type 0 where
    pub pair : IsPair s.dhs
    pub remote : HasHex s.dhr
    pub root : HasText s.rk
    pub sending : HasText (map_option (λ c. c.key) s.cks)
    pub receiving : HasText (map_option (λ c. c.key) s.ckr)
    pub ours : HasText s.our_identity
    pub theirs : HasText s.their_identity

pub has-set_of : (j : Text) (acc ks : List Text) → has j (set_of acc ks) ≡ (has j acc || has j ks)
unfolding set_of has
has-set_of j acc [] = ground arith
has-set_of j acc (k ∷ ks) = has-set_of j (add k acc) ks ∙ ground (arith, has-add k j acc)

module _ (p : Primitives) (laws : AreLawful p) where
  restored_bytes-filled :
      (t : Text) (b : Bytes)
      → is_filled p t ≡ true
      → from_base64 p t ≡ some b
      → restored_bytes p (some t) ≡ done (some b)
  unfolding restored_bytes some_bytes
  restored_bytes-filled [] b h e = absurd (ground (arith, h))
  restored_bytes-filled (c ∷ cs) b h e = rw e refl

  restored_bytes-stored :
      (o : Option Bytes) → HasText p o → restored_bytes p (map_option (to_base64 p) o) ≡ done o
  unfolding restored_bytes
  restored_bytes-stored none h = refl
  restored_bytes-stored (some b) h =
      restored_bytes-filled (to_base64 p b) b h (from_base64-to_base64 p laws b)

  restored_hex-filled :
      (t : Text) → is_filled p t ≡ true → restored_hex p (some t) ≡ some (hex_to_bytes t)
  unfolding restored_hex
  restored_hex-filled [] h = absurd (ground (arith, h))
  restored_hex-filled (c ∷ cs) h = refl

  restored_hex-stored :
      (o : Option Bytes) → HasHex p o → restored_hex p (map_option bytes_to_hex o) ≡ o
  unfolding restored_hex
  restored_hex-stored none h = refl
  restored_hex-stored (some b) (h, f) =
      restored_hex-filled (bytes_to_hex b) f ∙ ap some (hex_to_bytes-bytes_to_hex b h)

  restored_skipped-stored : (m : Assoc Bytes) → restored_skipped p (stored_skipped p m) ≡ m
  unfolding restored_skipped stored_skipped keep_entry
  restored_skipped-stored [] = refl
  restored_skipped-stored ((k, v) ∷ m) =
      rw (from_base64-to_base64 p laws v, restored_skipped-stored m) refl

  restored_pair-split :
      (t a b : Text) (k : KeyPair)
      → split 58 t ≡ a ∷ b ∷ []
      → box_key_pair_from_secret_key p (hex_to_bytes b) ≡ some k
      → restored_pair p (some t) ≡ done (some k)
  unfolding restored_pair secret_part some_pair split
  restored_pair-split [] a b k h e = absurd (ground (arith, h))
  restored_pair-split (c ∷ cs) a b k h e = rw (h, e) refl

  restored_pair-stored :
      (o : Option KeyPair) → IsPair p o → restored_pair p (map_option (stored_pair p) o) ≡ done o
  unfolding restored_pair stored_pair box_key_pair_from_secret_key
  restored_pair-stored none h = refl
  restored_pair-stored (some k) (e, pb, sb) =
      restored_pair-split (bytes_to_hex k.public_key ++ 58 ∷ bytes_to_hex k.secret_key)
        (bytes_to_hex k.public_key) (bytes_to_hex k.secret_key) k
        (split-append 58 (bytes_to_hex k.public_key) (bytes_to_hex k.secret_key)
            (bytes_to_hex-Lacks_colon k.public_key pb)
          ∙ ap (λ ps. bytes_to_hex k.public_key ∷ ps)
              (split-Lacks 58 (bytes_to_hex k.secret_key)
                (bytes_to_hex-Lacks_colon k.secret_key sb)))
        (rw (hex_to_bytes-bytes_to_hex k.secret_key sb, e) refl)

  chain_back : (o : Option Chain) → chain_from p (step_of o) (map_option (λ c. c.key) o) ≡ o
  unfolding chain_from
  chain_back none = refl
  chain_back (some c) = refl

  restored_chain-stored :
      (o : Option Chain)
      → HasText p (map_option (λ c. c.key) o)
      → restored_bytes p (map_option (λ c. to_base64 p c.key) o) ≡ done (map_option (λ c. c.key) o)
  restored_chain-stored none h = restored_bytes-stored none h
  restored_chain-stored (some c) h = restored_bytes-stored (some c.key) h

  -- Over lawful primitives, a stored session comes back as it was, where its key pair matches and
  -- its byte arrays have texts that are not empty: the key pair is derived again from its secret
  -- key, and only the ids of the messages seen are sorted by message number, over all ratchet keys, and cut to
  -- the 2000 with the highest numbers.
  pub deserialize-serialize :
      (s : Session)
      → IsStorable p s
      → deserialize p (serialize p s)
        ≡ done (record s { seen = set_of [] (last_of 2000 (sort_ids s.seen)) })
  unfolding deserialize serialize
  deserialize-serialize s h =
      rw
        (
          restored_pair-stored s.dhs h.pair,
          restored_bytes-stored s.rk h.root,
          restored_chain-stored s.cks h.sending,
          restored_chain-stored s.ckr h.receiving,
          restored_bytes-stored s.our_identity h.ours,
          restored_bytes-stored s.their_identity h.theirs,
          restored_hex-stored s.dhr h.remote,
          chain_back s.cks,
          chain_back s.ckr,
          restored_skipped-stored s.skipped,
        )
        refl
