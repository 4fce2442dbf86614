-- ===== src/E2e/Keeps.antt =====
-- Writing the sessions to storage changes nothing in memory.
use nur_chat.Prelude.{◌≡◌, refl, ◌∙◌}
use nur_chat.Text.{Text}
use nur_chat.Exec.{Outcome, done, thrown, continue, ◌>>=◌}
use nur_chat.Ratchet.Primitives.{Primitives}
use nur_chat.SecureStorage
use nur_chat.SecureStorage.{Aes, Storage, StorageError, get_device_secret}
use nur_chat.SecureStorage.Records.{store_sessions}
use nur_chat.E2e.{Signatures, Codecs, State, Action, E2eError, in_storage, on_storage}
use nur_chat.E2e.Payload.{derive_storage_key, encrypt_payload, persist_sessions, serialize_all}
use nur_chat.E2e.Sessions.{persist_quietly}

-- What is kept in memory is the same.
pub record Same (s t : State) : Type 0 where
  pub sessions : t.sessions ≡ s.sessions
  pub peers : t.peers ≡ s.peers
  pub decrypted : t.decrypted ≡ s.decrypted

abbrev pub Keeps : {A : Type 0} → Action A → Type 0
Keeps m = (s : State) → Same s (m s).1

Same-refl : (s : State) → Same s s
Same-refl s = record { sessions = refl; peers = refl; decrypted = refl }

Same-trans : (s t u : State) → Same s t → Same t u → Same s u
Same-trans s t u h k = record {
  sessions = k.sessions ∙ h.sessions;
  peers = k.peers ∙ h.peers;
  decrypted = k.decrypted ∙ h.decrypted;
}

in_storage-Same :
    {A : Type 0} (r : Outcome StorageError A × Storage) (s : State) → Same s (in_storage r s).1
in_storage-Same (done a, st) s = record { sessions = refl; peers = refl; decrypted = refl }
in_storage-Same (thrown e, st) s = record { sessions = refl; peers = refl; decrypted = refl }

on_storage-Keeps : {A : Type 0} (m : SecureStorage.Action A) → Keeps (on_storage m)
on_storage-Keeps m s = in_storage-Same (m s.storage) s

continue-Same :
    {A B : Type 0} (f : A → Action B) (s : State) (r : Outcome E2eError A × State)
    → ((a : A) → Keeps (f a))
    → Same s r.1
    → Same s (continue r.0 f r.1).1
continue-Same f s (done a, t) k e = Same-trans s t _ e (k a t)
continue-Same f s (thrown x, t) k e = e

>>=-Keeps :
    {A B : Type 0} (m : Action A) (f : A → Action B)
    → Keeps m
    → ((a : A) → Keeps (f a))
    → Keeps (m >>= f)
>>=-Keeps m f h k s = continue-Same f s (m s) k (h s)

module _ (p : Primitives) (c : Aes) (g : Signatures) (codecs : Codecs) where
  encrypt_payload-Keeps : (plain : Text) → Keeps (encrypt_payload p plain)
  unfolding encrypt_payload derive_storage_key
  encrypt_payload-Keeps plain =
      >>=-Keeps (derive_storage_key p) _
        (>>=-Keeps (on_storage (get_device_secret p)) _ (on_storage-Keeps (get_device_secret p))
          (λ secret. Same-refl))
        (λ key s. record { sessions = refl; peers = refl; decrypted = refl })

  pub persist_quietly-Keeps : Keeps (persist_quietly p c g codecs)
  unfolding persist_quietly persist_sessions
  persist_quietly-Keeps s =
      >>=-Keeps
        (encrypt_payload p (
          codecs.write_persisted
            (record { sessions = serialize_all p s.sessions; peers = s.peers })))
        (λ encrypted. on_storage (store_sessions p c codecs.text encrypted))
        (encrypt_payload-Keeps _)
        (λ encrypted. on_storage-Keeps (store_sessions p c codecs.text encrypted)) s

  -- It never throws.
  pub persist_quietly_done :
      (s : State) → persist_quietly p c g codecs s ≡ (done tt, (persist_quietly p c g codecs s).1)
  unfolding persist_quietly
  persist_quietly_done s = refl
