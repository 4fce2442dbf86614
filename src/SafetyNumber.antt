-- ===== src/SafetyNumber.antt =====
-- `generateSafetyNumber` of frontend/src/services/e2e.ts.
mod Examples
use nur_chat.Prelude.{
  ℕ, zero, suc, ◌+◌, ◌-◌, ◌*◌, ◌%◌, ◌≡◌, refl, Option, none, some, List, [], ◌∷◌, ◌++◌, arith,
  length, take, drop, replicate, ap,
}
use nur_chat.Text.{Text, Bytes, codes}
use nur_chat.Text.Decimal.{decimal}
use nur_chat.Text.Hex.{hex_to_bytes}
use nur_chat.Ratchet.Primitives.{Primitives}
use nur_chat.Ratchet.Session.{ordered, ordered_comm}

-- `.toString().padStart(3, "0")`
unfoldable pub pad_start_three : Text → Text
pad_start_three s = replicate (3 - length s) 48 ++ s

-- `(hash[offset] << 8) | hash[offset + 1]`; a byte out of range is undefined, which counts as 0.
unfoldable pub two_bytes : Bytes → ℕ
two_bytes [] = 0
two_bytes (a ∷ []) = a * 256
two_bytes (a ∷ b ∷ _) = a * 256 + b

-- `(offset + 2) % hash.length`; a hash is never empty.
unfoldable pub next_offset : ℕ → Bytes → ℕ
next_offset offset hash = (offset + 2) % length hash

unfoldable pub groups : ℕ → ℕ → Bytes → List Text
unfolding pad_start_three two_bytes next_offset
groups zero offset hash = []
groups (suc rounds) offset hash =
    pad_start_three (decimal (two_bytes (drop offset hash) % 1000))
    ∷ groups rounds (next_offset offset hash) hash

-- `.join(" ")`
unfoldable pub join_spaces : List Text → Text
join_spaces [] = []
join_spaces (t ∷ []) = t
join_spaces (t ∷ u ∷ ts) = t ++ 32 ∷ join_spaces (u ∷ ts)

module _ (p : Primitives) where
  unfoldable pub safety_digits : Bytes → Bytes → Text
  unfolding groups join_spaces
  safety_digits my_key their_key = join_spaces (groups 12 0 (p.sha256 (ordered my_key their_key)))

  -- `generateSafetyNumber`: the digits and the text of the QR code.
  unfoldable pub generate_safety_number : Text → Text → Text × Text
  unfolding safety_digits
  generate_safety_number my_hex their_hex = (
    safety_digits (hex_to_bytes my_hex) (hex_to_bytes their_hex),
    codes "nurchat-safety:" ++ my_hex ++ 58 ∷ their_hex,
  )

  -- Both sides see the same digits, each of them from its own key and the other's.
  pub generate_safety_number-digits_comm :
      (mine theirs : Text)
      → (generate_safety_number mine theirs).0 ≡ (generate_safety_number theirs mine).0
  unfolding generate_safety_number safety_digits
  generate_safety_number-digits_comm mine theirs =
      ap (λ c. join_spaces (groups 12 0 (p.sha256 c)))
        (ordered_comm (hex_to_bytes mine) (hex_to_bytes theirs))
