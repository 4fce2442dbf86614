-- ===== src/Padding.antt =====
-- `padBytes` and `unpadBytes` of frontend/src/services/e2e.ts; groupE2E.ts has a copy of both.
mod Examples
use nur_chat.Prelude.{
  ℕ, ◌+◌, ◌-◌, ◌*◌, ◌/◌, ◌%◌, ◌≤◌, ◌<◌, ◌≡◌, refl, Bool, true, false, not, ◌&&◌, ◌||◌, Option, none,
  some, List, [], ◌∷◌, ◌++◌, arith, ltb, ◌==◌, if◌then◌else◌, length, take, drop, length-append,
  take-append_self, ap, ◌∙◌, inl, inr, Bool-cases, le→ltb, lt→ltb, tests, sym, ==_iff,
}
use nur_chat.Text.{Bytes}
use nur_chat.Text.Hex.{AreBytes}
use nur_chat.Ratchet.Primitives.{Primitives, AreLawful}

abbrev pub pad_block : ℕ
pad_block = 512

abbrev pub legacy_pad_block : ℕ
legacy_pad_block = 128

-- `DataView.setUint32` and `getUint32`, big-endian.
unfoldable pub be32 : ℕ → Bytes
be32 n = (n / 16777216 % 256) ∷ (n / 65536 % 256) ∷ (n / 256 % 256) ∷ (n % 256) ∷ []

unfoldable pub read32 : Bytes → ℕ
read32 (a ∷ b ∷ c ∷ d ∷ _) = a * 16777216 + b * 65536 + c * 256 + d
read32 _ = 0

-- `Math.ceil((n + 4) / PAD_BLOCK) * PAD_BLOCK`
unfoldable pub padded_len : ℕ → ℕ
padded_len n = (n + 4 + 511) / pad_block * pad_block

module _ (p : Primitives) where
  -- The random bytes behind the text, at a given draw.
  unfoldable pub tail_bytes : ℕ → ℕ → Bytes
  unfolding padded_len
  tail_bytes draws n =
      if ltb (n + 4) (padded_len n) then p.random_values draws (padded_len n - (n + 4)) else []

  unfoldable pub pad_bytes : ℕ → Bytes → Bytes
  unfolding tail_bytes be32
  pad_bytes draws plain = be32 (length plain) ++ (plain ++ tail_bytes draws (length plain))

unfoldable pub unpad_bytes : Bytes → Option Bytes
unfolding read32
unpad_bytes padded =
    let len = read32 padded in
    if ltb (length padded) 4
    then none
    else if not (length padded % pad_block == 0) && not (length padded % legacy_pad_block == 0)
    then none
    else if ltb (length padded - 4) len || ltb 8192 len
    then none
    else some (take len (drop 4 padded))

pub read32-be32 : (n : ℕ) (rest : Bytes) → n < 4294967296 → read32 (be32 n ++ rest) ≡ n
unfolding read32 be32
read32-be32 n rest h = omega arith

padded_len_bounds : (n : ℕ) → (n + 4 ≤ padded_len n) × (padded_len n < n + 4 + 512)
unfolding padded_len
padded_len_bounds n = (omega arith, omega arith)

padded_len_block : (n : ℕ) → padded_len n % 512 ≡ 0
unfolding padded_len
padded_len_block n = omega arith

module _ (p : Primitives) (laws : AreLawful p) where
  length-tail_bytes : (draws n : ℕ) → length (tail_bytes p draws n) ≡ padded_len n - (n + 4)
  unfolding tail_bytes
  length-tail_bytes draws n = elim (Bool-cases (ltb (n + 4) (padded_len n))) [
    | inl more ↦ rw more (laws.random_length draws (padded_len n - (n + 4)))
    | inr full ↦ rw full (omega tests)
  ]

  pub length-pad_bytes :
      (draws : ℕ) (plain : Bytes) → length (pad_bytes p draws plain) ≡ padded_len (length plain)
  unfolding pad_bytes
  length-pad_bytes draws plain = omega (
    arith,
    length-append plain (tail_bytes p draws (length plain)),
    length-tail_bytes draws (length plain),
    padded_len_bounds (length plain),
  )

  -- Texts that need as many blocks of 512 bytes, with 4 bytes for the length, are padded to one
  -- size, which is a number of whole blocks: they cannot be told apart by size.
  pub length-pad_bytes_blocks :
      (draws draws' : ℕ) (a b : Bytes)
      → (length a + 4 + 511) / 512 ≡ (length b + 4 + 511) / 512
      → (length (pad_bytes p draws a) ≡ length (pad_bytes p draws' b))
        × (length (pad_bytes p draws a) % 512 ≡ 0)
  unfolding padded_len
  length-pad_bytes_blocks draws draws' a b h = (
    length-pad_bytes draws a ∙ ap (λ k. k * 512) h ∙ sym (length-pad_bytes draws' b),
    omega (arith, length-pad_bytes draws a, padded_len_block (length a)),
  )

  read32-pad_bytes :
      (draws : ℕ) (plain : Bytes)
      → length plain < 4294967296
      → read32 (pad_bytes p draws plain) ≡ length plain
  unfolding pad_bytes
  read32-pad_bytes draws plain h = read32-be32 (length plain) _ h

  take-drop-pad_bytes :
      (draws : ℕ) (plain : Bytes) → take (length plain) (drop 4 (pad_bytes p draws plain)) ≡ plain
  unfolding pad_bytes be32
  take-drop-pad_bytes draws plain =
      take-append_self plain (tail_bytes p draws (length plain)) (length plain) refl

  -- For texts of less than 2 ^ 32 bytes, unpadding gives a text back exactly when it has at most
  -- 8192 bytes. A longer one, which the sender pads all the same, is not recognised.
  pub unpad-pad :
      (draws : ℕ) (plain : Bytes)
      → length plain < 4294967296
      → unpad_bytes (pad_bytes p draws plain)
        ≡ (if ltb 8192 (length plain) then none else some plain)
  unfolding unpad_bytes
  unpad-pad draws plain h =
      let padded = pad_bytes p draws plain in
      let size : length padded ≡ padded_len (length plain) = length-pad_bytes draws plain in
      let bounds = padded_len_bounds (length plain) in
      let whole : (length padded % 512 == 0) ≡ true =
        (==_iff _ _).1 (omega (arith, size, padded_len_block (length plain))) in
      rw
        (
          le→ltb (length padded) 4 (omega arith),
          whole,
          read32-pad_bytes draws plain h,
          le→ltb (length padded - 4) (length plain) (omega arith),
          take-drop-pad_bytes draws plain,
        )
        refl
