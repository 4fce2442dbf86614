-- ===== src/Group.antt =====
-- The group ratchet of frontend/src/services/groupE2E.ts. Calls for one chat run one after the other
-- (`_withChatLock`), so each is one step on the store. Every byte array is taken to fill its buffer.
pub mod Receive
pub mod Delivery
pub mod Messages
pub mod Keys
mod Examples
use nur_chat.Prelude.{
  ℕ, ◌+◌, ◌-◌, ◌≤◌, Bool, true, false, not, Option, none, some, List, [], ◌∷◌, ◌++◌, ltb, leb, ◌==◌,
  if◌then◌else◌, length, take, drop, keep, String, zero, suc,
}
use nur_chat.Text.{Text, Bytes, codes, same}
use nur_chat.Text.Decimal.{decimal}
use nur_chat.Assoc.{Assoc, lookup, insert, remove}
use nur_chat.Ratchet.Primitives.{Primitives}
use nur_chat.Padding.{be32, read32, pad_bytes, unpad_bytes}

abbrev pub max_group_skip : ℕ
max_group_skip = 500

-- `skippedKeys`, an object whose keys are numbers.
abbrev pub Kept : Type 0
Kept = List (ℕ × Text)

pub record GroupState : Type 0 where
  pub chain_key : Text
  pub step : ℕ
  pub skipped_keys : Kept
  pub key_hash : Option Text

-- The ratchet states in memory, in encrypted storage and in the old `localStorage` entry; whether
-- storage takes writes; whether the one load of the states has failed; the draws of randomness.
pub record Store : Type 0 where
  pub cache : Option (Assoc GroupState)
  pub stored : Option (Assoc GroupState)
  pub legacy : Assoc GroupState
  pub writable : Bool
  pub load_failed : Bool
  pub draws : ℕ

unfoldable pub kept_key : ℕ → Kept → Option Text
kept_key n [] = none
kept_key n ((k, v) ∷ m) = if k == n then some v else kept_key n m

unfoldable pub keep_key : ℕ → Text → Kept → Kept
keep_key n v [] = (n, v) ∷ []
keep_key n v ((k, w) ∷ m) = if k == n then (n, v) ∷ m else (k, w) ∷ keep_key n v m

unfoldable pub drop_key : ℕ → Kept → Kept
drop_key n = keep (λ e. not (e.0 == n))

-- The keys of messages more than `MAX_GROUP_SKIP` behind are dropped.
unfoldable pub drop_old : ℕ → Kept → Kept
drop_old step = keep (λ e. not (ltb (e.0 + max_group_skip) step))

-- `_loadRatchetStates`: none where the promise is rejected.
unfoldable pub load_first : Store → Option (Assoc GroupState) × Store
load_first s = elim s.stored [
  | some states ↦ (some states, record s { cache = some states })
  | none ↦ elim s.legacy [
    | [] ↦ (some [], record s { cache = some []; legacy = [] })
    | e ∷ es ↦
        if s.writable
        then (
          some (e ∷ es),
          record s { cache = some (e ∷ es); stored = some (e ∷ es); legacy = [] },
        )
        else (none, record s { load_failed = true })
  ]
]

unfoldable pub load_ratchet_states : Store → Option (Assoc GroupState) × Store
unfolding load_first
load_ratchet_states s = elim s.cache [
  | some states ↦ (some states, s)
  | none ↦ if s.load_failed then (none, s) else load_first s
]

-- `_saveRatchetStates`
unfoldable pub save_ratchet_states : Assoc GroupState → Store → Store
save_ratchet_states states s = record s {
  cache = some states;
  stored = if s.writable then some states else s.stored;
}

-- `resetRatchetCache`
unfoldable pub reset_ratchet_cache : Store → Store
reset_ratchet_cache s = record s { cache = none; load_failed = false }

cleared : Text → Option (Assoc GroupState) → Store → Store
unfolding save_ratchet_states
cleared chat none s = s
cleared chat (some states) s = elim (lookup chat states) [
  | none ↦ s
  | some state ↦ save_ratchet_states (remove chat states) s
]

-- `clearGroupRatchet`
unfoldable pub clear_group_ratchet : Text → Store → Store
unfolding load_ratchet_states cleared
clear_group_ratchet chat s = let (states, s') = load_ratchet_states s in cleared chat states s'

module _ (p : Primitives) where
  -- `groupKeyHash`
  unfoldable pub group_key_hash : Bytes → Text
  group_key_hash group_key = p.base64_encode (take 16 (p.sha512 group_key))

  -- `_hmacDerive`
  unfoldable pub hmac_derive : Bytes → Bytes → Bytes
  hmac_derive key info = take 32 (p.sha512 (key ++ info))

  -- `_groupChainNext`: the message key and the next chain key.
  unfoldable pub group_chain_next : Bytes → ℕ → Bytes × Bytes
  unfolding hmac_derive
  group_chain_next chain_key step = (
    hmac_derive chain_key (p.encode (codes "group_msg_" ++ decimal step)),
    hmac_derive chain_key (p.encode (codes "group_chain_" ++ decimal step)),
  )

  -- A chain that starts at the group key.
  unfoldable pub fresh_state : Bytes → GroupState
  unfolding group_key_hash
  fresh_state group_key = record {
    chain_key = p.base64_encode group_key;
    step = 0;
    skipped_keys = [];
    key_hash = some (group_key_hash group_key);
  }

  is_hash : Option Text → Text → Bool
  is_hash none hash = false
  is_hash (some h) hash = same h hash

  -- The sender's state: a new chain where there is none, or where it is of another key.
  unfoldable pub sender_state : Bytes → Option GroupState → GroupState
  unfolding fresh_state is_hash
  sender_state group_key none = fresh_state group_key
  sender_state group_key (some s) =
      if is_hash s.key_hash (group_key_hash group_key) then s else fresh_state group_key

  -- The receiver's state: a state with no hash takes the key's.
  unfoldable pub receiver_hashed : Bytes → GroupState → Option Text → GroupState
  unfolding fresh_state
  receiver_hashed group_key s none = record s { key_hash = some (group_key_hash group_key) }
  receiver_hashed group_key s (some h) =
      if same h (group_key_hash group_key) then s else fresh_state group_key

  unfoldable pub receiver_state : Bytes → Option GroupState → GroupState
  unfolding receiver_hashed
  receiver_state group_key none = fresh_state group_key
  receiver_state group_key (some s) = receiver_hashed group_key s s.key_hash

  -- `encryptGroupMessageRatcheted`, from the state of the chat: the envelope and the next state. The
  -- nonce is one draw, the padding the next.
  unfoldable pub seal_group : ℕ → Text → GroupState → Text × GroupState
  unfolding group_chain_next
  seal_group draws content s =
      let (msg_key, next_chain) = group_chain_next (p.base64_decode s.chain_key) s.step in
      let nonce = p.random_values draws 24 in
      let padded = pad_bytes p (draws + 1) (p.encode content) in
      let ciphertext = p.secretbox_encrypt padded nonce msg_key in
      (
        p.base64_encode (be32 s.step ++ (nonce ++ ciphertext)),
        record s { chain_key = p.base64_encode next_chain; step = s.step + 1 },
      )

  sealed_in : Text → Bytes → Text → Option (Assoc GroupState) → Store → Option Text × Store
  unfolding seal_group save_ratchet_states sender_state
  sealed_in content group_key chat none s = (none, s)
  sealed_in content group_key chat (some states) s =
      let (text, state) =
        seal_group s.draws content (sender_state group_key (lookup chat states)) in
      (some text, save_ratchet_states (insert chat state states) (record s { draws = s.draws + 2 }))

  unfoldable pub encrypt_group_message_ratcheted : Text → Bytes → Text → Store → Option Text × Store
  unfolding load_ratchet_states sealed_in
  encrypt_group_message_ratcheted content group_key chat s =
      let (states, s') = load_ratchet_states s in sealed_in content group_key chat states s'
