-- ===== src/E2e/Cached.antt =====
-- A message that was read once is read again from memory.
use nur_chat.Prelude.{
  ℕ, ◌++◌, ◌≡◌, refl, Bool, true, false, Option, none, some, ◌∷◌, ◌∙◌, ap, sym, arith,
}
use nur_chat.Text.{Text}
use nur_chat.Assoc.{lookup-insert_self}
use nur_chat.Exec.{Outcome, done, thrown, >>=-done}
use nur_chat.Ratchet.Primitives.{Primitives}
use nur_chat.SecureStorage.{Aes}
use nur_chat.E2e.{Signatures, Codecs, E2eKeys, EncryptedEnvelope, State, E2eError}
use nur_chat.E2e.Messages.{
  cache_key, cached_text, cache_text, open_text, has_valid_signature, accept, decrypt_and_verify,
  caught, cached_or_decrypted, decrypt_message,
}

some_injective {ℓ} : {A : Type ℓ} {a b : A} → some a ≡ some b → a ≡ b
some_injective e = cc

module _ (p : Primitives) (c : Aes) (g : Signatures) (codecs : Codecs) where
  -- What an accepted text has gone through.
  pub accepted :
      (b : Bool) (key : Option Text) (plaintext t : Text) (s s' : State)
      → accept p c g codecs b key plaintext s ≡ (done (some t), s')
      → (b ≡ true) × (plaintext ≡ t) × (s' ≡ cache_text key t s)
  unfolding accept
  accepted true key plaintext t s s' e =
      let one : plaintext ≡ t = cc in
      (refl, one, sym (ap (λ r. r.1) e) ∙ ap (λ u. cache_text key u s) one)
  accepted false key plaintext t s s' e = absurd (ground (arith, e))

  caught-some :
      (chat t : Text) (r : Outcome E2eError (Option Text) × State) (s' : State)
      → caught p c g codecs chat r ≡ (some t, s')
      → r ≡ (done (some t), s')
  unfolding caught
  caught-some chat t (done o, s) s' e = ap (λ r. (done r.0, r.1)) e
  caught-some chat t (thrown x, s) s' e = absurd (ground (arith, ap (λ r. r.0) e))

  -- A text that was not in memory was opened by the ratchet, has a valid signature, and is in memory after.
  opened_and_accepted :
      (envelope : EncryptedEnvelope) (keys : E2eKeys) (sender_public chat t : Text)
      (key : Option Text) (s s' : State)
      → cached_or_decrypted p c g codecs none envelope keys sender_public chat key s ≡ (some t, s')
      → (s1 : State) × (open_text p c g codecs envelope keys sender_public chat s ≡ (done t, s1))
        × (has_valid_signature p c g codecs envelope t envelope.sender_signing_key ≡ true)
        × (s' ≡ cache_text key t s1)
  unfolding cached_or_decrypted decrypt_and_verify
  opened_and_accepted envelope keys sender_public chat t key s s' e =
      let run = caught-some chat t _ s' e in
      let (plaintext, s1, opened, rest) =
        >>=-done (open_text p c g codecs envelope keys sender_public chat) _ s s' (some t) run in
      let (valid, one, after) =
        accepted (has_valid_signature p c g codecs envelope plaintext envelope.sender_signing_key)
          key plaintext t s1 s' rest in
      (
        s1,
        opened ∙ ap (λ u. (done u, s1)) one,
        ap (λ u. has_valid_signature p c g codecs envelope u envelope.sender_signing_key) (sym one)
            ∙ valid,
        after,
      )

  in_memory :
      (envelope : EncryptedEnvelope) (keys : E2eKeys) (sender chat t key : Text) (o : Option Text)
      (s s' : State)
      → cached_text (some key) s ≡ o
      → cached_or_decrypted p c g codecs o envelope keys sender chat (some key) s ≡ (some t, s')
      → cached_text (some key) s' ≡ some t
  unfolding cached_text cache_text cached_or_decrypted
  in_memory envelope keys sender chat t key (some u) s s' h e =
      ap (cached_text (some key)) (sym (ap (λ r. r.1) e)) ∙ h ∙ ap (λ r. r.0) e
  in_memory envelope keys sender chat t key none s s' h e =
      let (s1, opened, valid, after) =
        opened_and_accepted envelope keys sender chat t (some key) s s' e in
      ap (cached_text (some key)) after ∙ lookup-insert_self key t s1.decrypted

  served :
      (envelope : EncryptedEnvelope) (keys : E2eKeys) (sender chat t : Text) (msg : Option Text)
      (s : State)
      → cached_text (cache_key chat msg) s ≡ some t
      → decrypt_message p c g codecs envelope keys sender chat msg s ≡ (some t, s)
  unfolding decrypt_message cached_or_decrypted
  served envelope keys sender chat t msg s h =
      ap (λ o. cached_or_decrypted p c g codecs o envelope keys sender chat (cache_key chat msg) s)
        h

  -- Where a message with an id (that is not empty) was decrypted, the same id in the same chat gives the
  -- same text again, whatever the envelope and the keys are, and nothing changes.
  pub decrypt_message-again :
      (envelope envelope' : EncryptedEnvelope) (keys keys' : E2eKeys) (sender sender' chat t : Text)
      (x : ℕ) (xs : Text) (s s' : State)
      → decrypt_message p c g codecs envelope keys sender chat (some (x ∷ xs)) s ≡ (some t, s')
      → decrypt_message p c g codecs envelope' keys' sender' chat (some (x ∷ xs)) s' ≡ (some t, s')
  unfolding decrypt_message cache_key
  decrypt_message-again envelope envelope' keys keys' sender sender' chat t x xs s s' e =
      served envelope' keys' sender' chat t (some (x ∷ xs)) s'
        (in_memory envelope keys sender chat t (chat ++ 58 ∷ x ∷ xs) _ s s' refl e)

  -- A text that was not in memory is only given for an envelope with a signature that verifies under the
  -- key that the envelope names.
  pub decrypt_message-signed :
      (envelope : EncryptedEnvelope) (keys : E2eKeys) (sender chat t : Text) (msg : Option Text)
      (s s' : State)
      → cached_text (cache_key chat msg) s ≡ none
      → decrypt_message p c g codecs envelope keys sender chat msg s ≡ (some t, s')
      → has_valid_signature p c g codecs envelope t envelope.sender_signing_key ≡ true
  unfolding decrypt_message
  decrypt_message-signed envelope keys sender chat t msg s s' fresh e =
      let key = cache_key chat msg in
      let run =
        sym (ap (λ o. cached_or_decrypted p c g codecs o envelope keys sender chat key s) fresh)
        ∙ e in
      let (s1, opened, valid, after) =
        opened_and_accepted envelope keys sender chat t key s s' run in
      valid
