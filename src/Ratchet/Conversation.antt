-- ===== src/Ratchet/Conversation.antt =====
-- Whatever the side that starts a conversation sends before a reply arrives.
use nur_chat.Prelude.{◌≡◌, refl, Bool, false, ◌&&◌, none, List, [], ◌∷◌, arith, ap, All, map}
use nur_chat.Text.{Text}
use nur_chat.Exec.{Outcome, done}
use nur_chat.Ratchet.Primitives.{Primitives, AreLawful}
use nur_chat.Ratchet.Kdf.{Chain}
use nur_chat.Ratchet.Session.{Error, Session, State}
use nur_chat.Ratchet.Steps.{is_some}
use nur_chat.Ratchet.Messages.{is_worn}
use nur_chat.Ratchet.Delivery.{Linked, IsQuiet, transmit, transmit_lem, after_seal-Linked}
use nur_chat.Ratchet.Calls.{after_seal}

and-false : (a b : Bool) → (a && false && b) ≡ false
and-false a b = ground arith

-- A session that has only a sending chain and no step pending, as the first side's is until a reply.
pub record IsOpening (s : Session) : Type 0 where
  pub settled : s.pending_send_ratchet ≡ false
  pub no_reply : s.ckr ≡ none

module _ (p : Primitives) where
  -- The texts one after the other.
  unfoldable pub transmit_all :
      List Text → State → State → List (Outcome Error Text) × State × State
  transmit_all [] st rt = ([], st, rt)
  transmit_all (t ∷ ts) st rt =
      let (o, st', rt') = transmit p t st rt in
      let (os, st'', rt'') = transmit_all ts st' rt' in (o ∷ os, st'', rt'')

  pub IsOpening-IsQuiet : (s : Session) → IsOpening s → IsQuiet s
  IsOpening-IsQuiet s o = record {
    settled = rw o.settled refl;
    fresh = rw o.no_reply (and-false (is_worn s.cks) (is_some s.dhr));
  }

  pub after_seal-IsOpening :
      (st : State) (c : Chain) → IsOpening st.session → IsOpening (after_seal p st c).session
  unfolding after_seal
  after_seal-IsOpening st c o = record { settled = o.settled; no_reply = o.no_reply }

  -- Over lawful primitives and from linked sessions, as long as the first side has had no reply,
  -- every text that it sends is read as it was sent, in order, however many there are, for texts
  -- that UTF-8 gives back.
  pub transmit_all_delivers :
      AreLawful p
      → (texts : List Text) (st rt : State) → Linked st.session rt.session
      → IsOpening st.session
      → All (λ t. p.decode (p.encode t) ≡ t) texts
      → (transmit_all texts st rt).0 ≡ map done texts
  unfolding transmit_all
  transmit_all_delivers laws [] st rt l o utf = refl
  transmit_all_delivers laws (t ∷ ts) st rt l o utf =
      rw (transmit_lem p laws st rt t l (IsOpening-IsQuiet st.session o) utf.0) (
        ap (◌∷◌ (done t)) (
          transmit_all_delivers laws ts (after_seal p st l.chain) _ (after_seal-Linked p st rt l)
            (after_seal-IsOpening st l.chain o) utf.1))
