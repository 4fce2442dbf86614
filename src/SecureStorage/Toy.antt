-- ===== src/SecureStorage/Toy.antt =====
-- A small stand-in for the cipher of the browser: it marks a message with the length of its key.
use nur_chat.Prelude.{◌≡◌, Option, none, some, [], ◌∷◌, ◌==◌, arith, if◌then◌else◌, length}
use nur_chat.Text.{Bytes}
use nur_chat.SecureStorage.{Aes, AesIsLawful}

abbrev pub unmark : Bytes → Bytes → Option Bytes
unmark k [] = none
unmark k (t ∷ m) = if t == length k then some m else none

abbrev pub marking : Aes
marking = record {
  derive_key = λ b. b;
  encrypt = λ k iv m. length k ∷ m;
  decrypt = λ k iv b. unmark k b;
}

unmark-mark : (k m : Bytes) → unmark k (length k ∷ m) ≡ some m
unmark-mark k m = ground arith

pub marking-AesIsLawful : AesIsLawful marking
marking-AesIsLawful = record { decrypt-encrypt = λ k iv m. unmark-mark k m }
