-- ===== src/E2e/Restore.antt =====
-- The maps of sessions and peers that are read back.
use nur_chat.Prelude.{
  ◌≡◌, ◌⊎◌, refl, true, false, none, some, [], ◌∷◌, ◌∙◌, ap, sym, arith, All, if◌then◌else◌,
  Bool-cases, inl, inr,
}
use nur_chat.Text.{Text, same, same_iff}
use nur_chat.Assoc.{or_else, Assoc, AreDistinct, lookup, insert, lookup-insert}
use nur_chat.Ratchet.Primitives.{Primitives, AreLawful}
use nur_chat.Ratchet.Session.{Session}
use nur_chat.Ratchet.Steps.{is_some}
use nur_chat.Ratchet.Messages.{sort_ids, last_of}
use nur_chat.Ratchet.Stored.{deserialize-serialize, set_of, map_option, IsStorable}
use nur_chat.E2e.Payload.{serialize_all, restore_sessions, restore_peers, with_session}

-- What storing keeps of a session: the 2000 ids of messages seen with the highest numbers.
abbrev pub shortened : Session → Session
shortened s = record s { seen = set_of [] (last_of 2000 (sort_ids s.seen)) }

module _ (p : Primitives) (laws : AreLawful p) where
  pub lookup-restore_sessions :
      (chat : Text) (m acc : Assoc Session)
      → AreDistinct m
      → All (λ e. IsStorable p e.1) m
      → lookup chat (restore_sessions p (serialize_all p m) acc)
        ≡ or_else (map_option shortened (lookup chat m)) (lookup chat acc)
  unfolding restore_sessions serialize_all lookup
  lookup-restore_sessions chat [] acc d h = refl
  lookup-restore_sessions chat ((k, x) ∷ m) acc (new, d) (hx, h) =
      ap (λ r. lookup chat (restore_sessions p (serialize_all p m) (with_session p k r acc)))
        (deserialize-serialize p laws x hx)
      ∙ lookup-restore_sessions chat m (insert k (shortened x) acc) d h
      ∙ step (Bool-cases (same k chat))
    where
      step :
          (same k chat ≡ true) ⊎ (same k chat ≡ false)
          → or_else
              (map_option shortened (lookup chat m))
              (lookup chat (insert k (shortened x) acc))
            ≡ or_else
                (map_option shortened (if same k chat then some x else lookup chat m))
                (lookup chat acc)
      step (inl e) =
          let one : k ≡ chat = (same_iff k chat).0 e in
          let gone : lookup chat m ≡ none = ap (λ j. lookup j m) (sym one) ∙ new in
          rw (gone, lookup-insert k chat (shortened x) acc, e) refl
      step (inr e) = rw (lookup-insert k chat (shortened x) acc, e) refl

  pub lookup-restore_peers :
      (chat : Text) (ps : Assoc Text) (sessions : Assoc Session) (acc : Assoc Text)
      → AreDistinct ps
      → lookup chat (restore_peers p ps sessions acc)
        ≡ or_else
            (if is_some (lookup chat sessions) then lookup chat ps else none)
            (lookup chat acc)
  unfolding restore_peers lookup
  lookup-restore_peers chat [] sessions acc d = ground arith
  lookup-restore_peers chat ((k, peer) ∷ ps) sessions acc (new, d) =
      lookup-restore_peers chat ps sessions
        (if is_some (lookup k sessions) then insert k peer acc else acc) d
      ∙ step (Bool-cases (same k chat)) (Bool-cases (is_some (lookup k sessions)))
    where
      step :
          (same k chat ≡ true) ⊎ (same k chat ≡ false)
          → (is_some (lookup k sessions) ≡ true) ⊎ (is_some (lookup k sessions) ≡ false)
          → or_else
              (if is_some (lookup chat sessions) then lookup chat ps else none)
              (lookup chat (if is_some (lookup k sessions) then insert k peer acc else acc))
            ≡ or_else
                (if is_some (lookup chat sessions)
                  then (if same k chat then some peer else lookup chat ps)
                  else none)
                (lookup chat acc)
      step (inl e) there =
          let one : k ≡ chat = (same_iff k chat).0 e in
          let gone : lookup chat ps ≡ none = ap (λ j. lookup j ps) (sym one) ∙ new in
          let here : is_some (lookup chat sessions) ≡ is_some (lookup k sessions) =
            ap (λ j. is_some (lookup j sessions)) (sym one) in
          found gone here there
        where
          found :
              lookup chat ps ≡ none
              → is_some (lookup chat sessions) ≡ is_some (lookup k sessions)
              → (is_some (lookup k sessions) ≡ true) ⊎ (is_some (lookup k sessions) ≡ false)
              → or_else
                  (if is_some (lookup chat sessions) then lookup chat ps else none)
                  (lookup chat (if is_some (lookup k sessions) then insert k peer acc else acc))
                ≡ or_else
                    (if is_some (lookup chat sessions)
                      then (if same k chat then some peer else lookup chat ps)
                      else none)
                    (lookup chat acc)
          found gone here (inl yes_there) =
              rw (here, yes_there, gone, lookup-insert k chat peer acc, e) refl
          found gone here (inr not_there) = rw (here, not_there) refl
      step (inr e) (inl there) = rw (there, lookup-insert k chat peer acc, e) refl
      step (inr e) (inr there) = rw (there, e) refl
