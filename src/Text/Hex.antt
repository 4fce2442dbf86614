-- ===== src/Text/Hex.antt =====
-- `bytesToHex` and `hexToBytes` of frontend/src/services/cryptoAdapter.ts.
use nur_chat.Prelude.{
  ℕ, ◌+◌, ◌-◌, ◌*◌, ◌/◌, ◌%◌, ◌<◌, ◌≡◌, refl, ◌≢◌, ap, Bool, ◌&&◌, ◌||◌, Option, none, some, [],
  ◌∷◌, ◌++◌, arith, ltb, leb, ◌==◌, if◌then◌else◌, All,
}
use nur_chat.Text.{Text, Bytes, Lacks}

hex_digit : ℕ → ℕ
hex_digit d = if ltb d 10 then 48 + d else 87 + d

-- `b.toString(16).padStart(2, "0")` of a byte.
hex_of_byte : ℕ → Text
unfolding hex_digit
hex_of_byte b =
    if ltb b 16 then 48 ∷ hex_digit b ∷ [] else hex_digit (b / 16) ∷ hex_digit (b % 16) ∷ []

unfoldable pub bytes_to_hex : Bytes → Text
unfolding hex_of_byte
bytes_to_hex [] = []
bytes_to_hex (b ∷ bs) = hex_of_byte b ++ bytes_to_hex bs

-- The value of a hexadecimal digit, of either case.
digit_value : ℕ → Option ℕ
digit_value c =
    if leb 48 c && leb c 57
    then some (c - 48)
    else if leb 97 c && leb c 102
    then some (c - 87)
    else if leb 65 c && leb c 70
    then some (c - 55)
    else none

-- The white space that `parseInt` skips.
is_space : ℕ → Bool
is_space c =
    (leb 9 c && leb c 13)
    || c == 32
    || c == 160
    || c == 0x1680
    || (leb 0x2000 c && leb c 0x200a)
    || c == 0x2028
    || c == 0x2029
    || c == 0x202f
    || c == 0x205f
    || c == 0x3000
    || c == 0xfeff

-- A lone digit after a space or a plus sign, or after a minus sign, stored into a byte.
lone_digit : ℕ → Option ℕ → ℕ
lone_digit c none = 0
lone_digit c (some v) =
    if is_space c || c == b'+' then v else if c == b'-' then (256 - v) % 256 else 0

pair_value : ℕ → Option ℕ → Option ℕ → ℕ
pair_value c (some hi) (some lo) = hi * 16 + lo
pair_value c (some hi) none = hi
pair_value c none d = lone_digit c d

-- `parseInt(cd, 16)` of two characters, stored into a byte: NaN is stored as 0.
byte_of_hex : ℕ → ℕ → ℕ
unfolding digit_value pair_value lone_digit is_space
byte_of_hex c d = pair_value c (digit_value c) (digit_value d)

-- One byte for two characters. A last odd character has no place in the array.
unfoldable pub hex_to_bytes : Text → Bytes
unfolding byte_of_hex
hex_to_bytes [] = []
hex_to_bytes (c ∷ []) = []
hex_to_bytes (c ∷ d ∷ s) = byte_of_hex c d ∷ hex_to_bytes s

digit_value_hex : (d : ℕ) → d < 16 → digit_value (hex_digit d) ≡ some d
unfolding digit_value hex_digit
digit_value_hex d h = ground arith

byte_of_hex-hex_digit :
    (a b : ℕ) → a < 16 → b < 16 → byte_of_hex (hex_digit a) (hex_digit b) ≡ a * 16 + b
unfolding byte_of_hex
byte_of_hex-hex_digit a b h k = rw (digit_value_hex a h, digit_value_hex b k) refl

hex_of_byte_digits :
    (b : ℕ) → b < 256 → hex_of_byte b ≡ hex_digit (b / 16) ∷ hex_digit (b % 16) ∷ []
unfolding hex_of_byte
hex_of_byte_digits b h = ground arith

abbrev pub AreBytes : Bytes → Type 0
AreBytes = All (λ b. b < 256)

-- What `bytesToHex` prints, `hexToBytes` reads back.
pub hex_to_bytes-bytes_to_hex : (bs : Bytes) → AreBytes bs → hex_to_bytes (bytes_to_hex bs) ≡ bs
unfolding hex_to_bytes bytes_to_hex
hex_to_bytes-bytes_to_hex [] h = refl
hex_to_bytes-bytes_to_hex (b ∷ bs) h =
    rw
      (
        hex_of_byte_digits b h.0,
        byte_of_hex-hex_digit (b / 16) (b % 16) (omega arith) (omega arith),
        hex_to_bytes-bytes_to_hex bs h.1,
      )
      (ap (λ c. c ∷ bs) (omega arith))

hex_digit-ne_colon : (d : ℕ) → d < 16 → hex_digit d ≢ 58
unfolding hex_digit
hex_digit-ne_colon d h = ground arith

-- A hexadecimal text holds no colon.
pub bytes_to_hex-Lacks_colon : (bs : Bytes) → AreBytes bs → Lacks 58 (bytes_to_hex bs)
unfolding bytes_to_hex
bytes_to_hex-Lacks_colon [] h = tt
bytes_to_hex-Lacks_colon (b ∷ bs) h = rw (hex_of_byte_digits b h.0) (
  hex_digit-ne_colon (b / 16) (omega arith),
  (hex_digit-ne_colon (b % 16) (omega arith), bytes_to_hex-Lacks_colon bs h.1),
)
