-- ===== src/Ratchet/Steps.antt =====
-- The Diffie-Hellman steps of the ratchet: `dhRatchetSend` and `dhRatchetRecv`.
use nur_chat.Prelude.{
  ◌+◌, Bool, true, false, Option, none, some, take, drop, replicate, if◌then◌else◌,
}
use nur_chat.Text.{Bytes, codes}
use nur_chat.Exec.{Exec, Outcome, done, thrown, pure, gets, ◌>>=◌, ◌>>◌}
use nur_chat.Ratchet.Primitives.{Primitives, KeyPair}
use nur_chat.Ratchet.Kdf.{hkdf, box_before}
use nur_chat.Ratchet.Session.{
  Error, Session, State, zeroize_keypair, no_remote_key, no_local_key, bad_key,
}

abbrev pub Action : Type 0 → Type 0
Action A = Exec Error State A

-- A change of the session alone.
abbrev pub update : (Session → Session) → Action (Unit {0})
update f s = (done tt, record s { session = f s.session })

-- A library call that throws on none.
abbrev pub require : {A : Type 0} → Error → Option A → Outcome Error A
require e none = thrown e
require e (some a) = done a

abbrev pub lift : {A : Type 0} → Error → Option A → Action A
lift e o s = (require e o, s)

abbrev pub when : Bool → Action (Unit {0}) → Action (Unit {0})
when b m = if b then m else pure tt

abbrev pub is_some : {A : Type 0} → Option A → Bool
is_some none = false
is_some (some a) = true

abbrev pub root_or_zero : Option Bytes → Bytes
root_or_zero none = replicate 32 0
root_or_zero (some rk) = rk

module _ (p : Primitives) where
  -- `boxKeyPair()`
  unfoldable pub box_key_pair : Action KeyPair
  box_key_pair st = (done (p.keygen st.draws), record st { draws = st.draws + 1 })

  -- The 64 bytes that a ratchet step derives.
  unfoldable pub ratchet_bytes : Option Bytes → Bytes → Bytes
  ratchet_bytes rk shared =
      hkdf p (root_or_zero rk) shared (p.encode (codes "DoubleRatchet_Ratchet")) 64

  -- The pair to send with: the one that the last receiving step made, or a new one.
  unfoldable pub pair_to_send : Bool → Option KeyPair → Action KeyPair
  unfolding box_key_pair
  pair_to_send fresh none = box_key_pair
  pair_to_send true (some kp) = do update (λ s. record s { dh_fresh = false }); pure kp
  pair_to_send false (some kp) = do
    update (λ s. record s { dhs = some (zeroize_keypair kp) })
    box_key_pair

  unfoldable pub after_send : KeyPair → Bytes → Session → Session
  unfolding ratchet_bytes
  after_send kp shared s =
      let derived = ratchet_bytes s.rk shared in
      record s {
        rk = some (take 32 derived);
        cks = some (record { key = drop 32 derived; step = 0 });
        pn = s.ns;
        ns = 0;
        nr = 0;
        dhs = some kp;
        pending_send_ratchet = false;
      }

  unfoldable pub dh_ratchet_send : Action (Unit {0})
  unfolding pair_to_send after_send
  dh_ratchet_send = do
    s ← gets (λ st. st.session)
    dhr ← lift no_remote_key s.dhr
    new_dhs ← pair_to_send s.dh_fresh s.dhs
    shared ← lift bad_key (box_before p dhr new_dhs.secret_key)
    update (after_send new_dhs shared)

  unfoldable pub after_recv : Bytes → KeyPair → Bytes → Session → Session
  unfolding ratchet_bytes
  after_recv theirs dhs shared s =
      let derived = ratchet_bytes s.rk shared in
      record s {
        rk = some (take 32 derived);
        ckr = some (record { key = drop 32 derived; step = 0 });
        pn = s.ns;
        nr = 0;
        dhr = some theirs;
        dhs = some (zeroize_keypair dhs);
      }

  unfoldable pub dh_ratchet_recv : Bytes → Action (Unit {0})
  unfolding after_recv box_key_pair
  dh_ratchet_recv theirs = do
    s ← gets (λ st. st.session)
    dhs ← lift no_local_key s.dhs
    shared ← lift bad_key (box_before p theirs dhs.secret_key)
    update (after_recv theirs dhs shared)
    kp ← box_key_pair
    update (λ s. record s { dhs = some kp; dh_fresh = true; pending_send_ratchet = true })
