-- ===== src/Ratchet/Session.antt =====
-- The state of a `DoubleRatchetSession`, its errors, and the associated data. Byte arrays are
-- values here: what the code wipes in buffers that nothing reads again leaves no trace.
use Prim.Native.Nat.{ℕ}
use nur_chat.Prelude.{
  ◌≡◌, refl, inl, inr, Bool, true, false, Option, none, some, List, [], ◌∷◌, ◌++◌, arith, ltb, ◌==◌,
  if◌then◌else◌, length, replicate, Bool-cases, ◌||◌,
}
use nur_chat.Text.{Text, Bytes, same}
use nur_chat.Text.Decimal.{decimal}
use nur_chat.Assoc.{Assoc}
use nur_chat.Ratchet.Primitives.{KeyPair}
use nur_chat.Ratchet.Kdf.{Chain}

-- The errors that the methods throw. The first of the last line is thrown by the curve library,
-- the second by `atob`, the third is the `TypeError` of reading a field of null.
pub data Error : Type 0 where
  no_remote_key no_local_key no_sending_chain sending_chain_null no_receiving_chain : Error
  in_the_past gap_too_large replay decryption_failed ad_mismatch version_mismatch : Error
  bad_key bad_text no_own_key : Error

pub record Session : Type 0 where
  pub dhs : Option KeyPair
  pub dhr : Option Bytes
  pub rk : Option Bytes
  pub cks : Option Chain
  pub ckr : Option Chain
  pub ns : ℕ
  pub nr : ℕ
  pub pn : ℕ
  pub our_identity : Option Bytes
  pub their_identity : Option Bytes
  pub seen : List Text
  pub skipped : Assoc Bytes
  pub pending_send_ratchet : Bool
  pub dh_fresh : Bool

-- `new DoubleRatchetSession()`
abbrev pub empty_session : Session
empty_session = record {
  dhs = none;
  dhr = none;
  rk = none;
  cks = none;
  ckr = none;
  ns = 0;
  nr = 0;
  pn = 0;
  our_identity = none;
  their_identity = none;
  seen = [];
  skipped = [];
  pending_send_ratchet = false;
  dh_fresh = false;
}

-- A session and the number of draws of randomness so far.
pub record State : Type 0 where
  pub session : Session
  pub open session use *
  pub draws : ℕ

pub record Header : Type 0 where
  pub dh : Text
  pub pn : ℕ
  pub ns : ℕ

pub record Envelope : Type 0 where
  pub header : Header
  pub ciphertext : Text

abbrev pub max_skip_gap : ℕ
max_skip_gap = 2000

abbrev pub max_skipped : ℕ
max_skipped = 1000

abbrev pub protocol_version : ℕ
protocol_version = 3

abbrev pub key_rotation_interval : ℕ
key_rotation_interval = 100

-- Whether `u8Compare(a, b) < 0`: at the first difference the smaller byte, else the shorter array.
unfoldable pub u8_less : Bytes → Bytes → Bool
u8_less (a ∷ as') (b ∷ bs) = let rest = u8_less as' bs in if a == b then rest else ltb a b
u8_less [] bs = ltb 0 (length bs)
u8_less (a ∷ as') [] = false

-- Two keys joined, the smaller first.
unfoldable pub ordered : Bytes → Bytes → Bytes
ordered a b = if u8_less a b then a ++ b else b ++ a

unfoldable pub or_empty : Option Bytes → Bytes
or_empty none = []
or_empty (some b) = b

-- `associatedData`: both identity keys, the smaller first.
unfoldable pub associated_data : Session → Bytes
unfolding or_empty ordered
associated_data s =
    let a = or_empty s.our_identity in let b = or_empty s.their_identity in ordered a b

-- `zeroizeKeypair`
unfoldable pub zeroize_keypair : KeyPair → KeyPair
zeroize_keypair kp = record kp { secret_key = replicate (length kp.secret_key) 0 }

-- The template literal of a message id.
unfoldable pub message_id : Text → ℕ → Text
message_id dh n = dh ++ 58 ∷ decimal n

-- `seenMessageIds.has` and `.add`
unfoldable pub has : Text → List Text → Bool
has k [] = false
has k (j ∷ js) = same j k || has k js

unfoldable pub add : Text → List Text → List Text
add k js = if has k js then js else js ++ k ∷ []

u8_less_total : (a b : Bytes) → u8_less a b ≡ false → u8_less b a ≡ false → a ≡ b
unfolding u8_less
u8_less_total [] [] h k = refl
u8_less_total [] (b ∷ bs) h k = ground arith
u8_less_total (a ∷ as') [] h k = ground arith
u8_less_total (a ∷ as') (b ∷ bs) h k = ground (arith, u8_less_total as' bs)

u8_less_asym : (a b : Bytes) → u8_less a b ≡ true → u8_less b a ≡ false
unfolding u8_less
u8_less_asym [] [] h = refl
u8_less_asym [] (b ∷ bs) h = refl
u8_less_asym (a ∷ as') [] h = ground arith
u8_less_asym (a ∷ as') (b ∷ bs) h = ground (arith, u8_less_asym as' bs)

pub ordered_comm : (a b : Bytes) → ordered a b ≡ ordered b a
unfolding ordered
ordered_comm a b = elim (Bool-cases (u8_less a b)) [
  | inl lt ↦ rw (lt, u8_less_asym a b lt)
  | inr ge ↦ elim (Bool-cases (u8_less b a)) [
    | inl lt ↦ rw (ge, lt)
    | inr le ↦ rw (u8_less_total a b ge le)
  ]
]

-- Nothing but the identity keys is read.
pub associated_data_same :
    (s t : Session)
    → s.our_identity ≡ t.our_identity
    → s.their_identity ≡ t.their_identity
    → associated_data s ≡ associated_data t
unfolding associated_data
associated_data_same s t h k = rw (h, k) refl

-- Two peers, each with the other's identity key as its peer's, compute one associated data.
pub associated_data_symmetric :
    (s t : Session)
    → s.our_identity ≡ t.their_identity
    → s.their_identity ≡ t.our_identity
    → associated_data s ≡ associated_data t
unfolding associated_data
associated_data_symmetric s t h k =
    rw (h, k) (ordered_comm (or_empty t.their_identity) (or_empty t.our_identity))
