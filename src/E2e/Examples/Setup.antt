-- ===== src/E2e/Examples/Setup.antt =====
-- The prekeys of a device that is in use.
use nur_chat.Prelude.{
  ◌≡◌, refl, true, Option, none, some, [], ◌∷◌, ◌++◌, length, take, drop, take-append_self,
  drop-append_self,
}
use nur_chat.Text.{Text, codes, same}
use nur_chat.Assoc.{lookup}
use nur_chat.Exec.{done}
use nur_chat.Ratchet.Toy.{toy, toy-AreLawful}
use nur_chat.SecureStorage.{read_write, Storage, device_secret_key, key_text}
use nur_chat.SecureStorage.Coherent.{IsKey}
use nur_chat.SecureStorage.Records.{StoredSpk, load_spk, load_value, load_text}
use nur_chat.SecureStorage.Toy.{marking, marking-AesIsLawful}
use nur_chat.E2e.{Codecs}
use nur_chat.E2e.Keys.{Relay, Keyring, no_answer, spk_matches_identity, setup_pre_keys}
use nur_chat.E2e.Prekeys.{PrekeysAreLawful, registered, setup_pre_keys-signed}
use nur_chat.E2e.Examples.{stamping, stamping-SignaturesAreLawful, codecs, alice_keys}

-- The three texts one behind the other, with the lengths of the first two.
abbrev packed : StoredSpk → Text
packed k =
    length k.public_key_hex
    ∷ length k.secret_key_hex
    ∷ k.created_at
    ∷ (k.public_key_hex ++ (k.secret_key_hex ++ k.signature_hex))

abbrev unpacked : Text → Option StoredSpk
unpacked (a ∷ b ∷ n ∷ rest) = some (record {
  public_key_hex = take a rest;
  secret_key_hex = take b (drop a rest);
  signature_hex = drop b (drop a rest);
  created_at = n;
})
unpacked _ = none

abbrev with_spk : Codecs
with_spk = record codecs {
  spk = record { stringify = packed; parse = unpacked };
  opks = record { stringify = λ ks. []; parse = λ t. some [] };
}

unpacked-packed : (k : StoredSpk) → unpacked (packed k) ≡ some k
unpacked-packed k =
    rw
      (
        take-append_self k.public_key_hex (k.secret_key_hex ++ k.signature_hex)
            (length k.public_key_hex) refl,
        drop-append_self k.public_key_hex (k.secret_key_hex ++ k.signature_hex)
            (length k.public_key_hex) refl,
        take-append_self k.secret_key_hex k.signature_hex (length k.secret_key_hex) refl,
        drop-append_self k.secret_key_hex k.signature_hex (length k.secret_key_hex) refl,
      )
      refl

with_spk-PrekeysAreLawful : PrekeysAreLawful toy with_spk
with_spk-PrekeysAreLawful = record {
  parse-stringify = unpacked-packed;
  utf-spk = λ k. refl;
  utf-opks = λ ks. refl;
}

abbrev in_use : Storage
in_use = record {
  keys = [];
  sessions = [];
  meta = (device_secret_key, codes "ab") ∷ [];
  database = read_write;
  namespace = [];
  passphrase = none;
  key_cache = some (codes "ab");
  draws = 3;
}

in_use-IsKey : IsKey toy marking (codes "ab") in_use
unfolding lookup same key_text
in_use-IsKey = record { first = 97; rest = 98 ∷ []; secret = refl; derived = refl }

abbrev keyring : Keyring
keyring = record { storage = in_use; requests = []; attempted = [] }

-- A relay that takes everything and has few one-time keys.
abbrev willing : Relay
willing = record { accepts = λ r. true; one_time_count = some 3; signed_prekey = no_answer }

no_spk : (load_spk toy marking with_spk.spk in_use).0 ≡ done none
unfolding load_spk load_value load_text lookup
no_spk = refl

setup_pre_keys-signed_example :
    let r = setup_pre_keys toy marking stamping with_spk willing 8 alice_keys keyring in
    (r.0 ≡ done tt)
    × ((spk : StoredSpk) × ((load_spk toy marking with_spk.spk r.1.storage).0 ≡ done (some spk))
        × (spk_matches_identity toy marking stamping with_spk (some spk) alice_keys ≡ true)
        × (registered r.1.requests ≡ some spk.public_key_hex))
unfolding spk_matches_identity
setup_pre_keys-signed_example =
    setup_pre_keys-signed toy marking stamping with_spk toy-AreLawful marking-AesIsLawful
      with_spk-PrekeysAreLawful (codes "ab") willing 8 alice_keys none keyring
      (record { open_db = refl; cached = refl; key = in_use-IsKey }) no_spk refl
      stamping-SignaturesAreLawful refl (λ key signature. refl)
