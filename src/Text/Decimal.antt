-- ===== src/Text/Decimal.antt =====
-- Numbers in template literals, and `parseInt(s, 10)`.
use nur_chat.Prelude.{
  ℕ, zero, suc, ◌+◌, ◌-◌, ◌*◌, ◌/◌, ◌%◌, ◌<◌, ◌≡◌, refl, ap, sym, ◌∙◌, Bool, true, false, ◌&&◌,
  Option, none, some, [], ◌∷◌, ◌++◌, arith, ltb, leb, tests, if◌then◌else◌, All, Bool-cases, ◌≢◌,
  inl, inr,
}
use nur_chat.Text.{Text, Lacks}

-- The digits of `n` with at most `fuel` of them; `n + 1` digits are more than enough.
decimal_on : ℕ → ℕ → Text
decimal_on zero n = []
decimal_on (suc fuel) n =
    let rest = decimal_on fuel (n / 10) in
    if ltb n 10 then (48 + n) ∷ [] else rest ++ (48 + n % 10) ∷ []

-- `${n}` of a natural number.
unfoldable pub decimal : ℕ → Text
unfolding decimal_on
decimal n = decimal_on (suc n) n

is_digit : ℕ → Bool
is_digit c = leb 48 c && leb c 57

-- The value of the leading digits, from an accumulator.
parse_from : ℕ → Text → ℕ
parse_from acc [] = acc
parse_from acc (c ∷ s) =
    let rest = parse_from (acc * 10 + (c - 48)) s in if is_digit c then rest else acc

-- `parseInt(s, 10)` of a text with no sign and no space in front; `none` is NaN.
unfoldable pub parse_int : Text → Option ℕ
unfolding parse_from is_digit
parse_int [] = none
parse_int (c ∷ s) = if is_digit c then some (parse_from 0 (c ∷ s)) else none

abbrev IsNumeric : Text → Type 0
IsNumeric = All (λ c. is_digit c ≡ true)

parse_from-append :
    (acc : ℕ) (s t : Text) → IsNumeric s → parse_from acc (s ++ t) ≡ parse_from (parse_from acc s) t
unfolding parse_from
parse_from-append acc [] t h = refl
parse_from-append acc (c ∷ s) t h = ground (arith, parse_from-append (acc * 10 + (c - 48)) s t h.1)

IsNumeric-append : (s : Text) (c : ℕ) → IsNumeric s → is_digit c ≡ true → IsNumeric (s ++ c ∷ [])
IsNumeric-append [] c h d = (d, tt)
IsNumeric-append (x ∷ s) c h d = (h.0, IsNumeric-append s c h.1 d)

digit_of_lt : (d : ℕ) → d < 10 → is_digit (48 + d) ≡ true
unfolding is_digit
digit_of_lt d h = ground arith

decimal_on-IsNumeric : (fuel n : ℕ) → IsNumeric (decimal_on fuel n)
unfolding decimal_on
decimal_on-IsNumeric zero n = tt
decimal_on-IsNumeric (suc fuel) n = elim (Bool-cases (ltb n 10)) [
  | inl small ↦ rw small (digit_of_lt n (omega tests), tt)
  | inr large ↦ rw large (
      IsNumeric-append (decimal_on fuel (n / 10)) (48 + n % 10) (decimal_on-IsNumeric fuel (n / 10))
        (digit_of_lt (n % 10) (omega arith)))
]

parse_from_digit : (acc d : ℕ) → d < 10 → parse_from acc ((48 + d) ∷ []) ≡ acc * 10 + d
unfolding parse_from is_digit
parse_from_digit acc d h = ground arith

parse-decimal_on : (fuel n : ℕ) → n < fuel → parse_from 0 (decimal_on fuel n) ≡ n
unfolding decimal_on
parse-decimal_on zero n h = absurd (omega arith)
parse-decimal_on (suc fuel) n h = elim (Bool-cases (ltb n 10)) [
  | inl small ↦ rw small (omega (arith, parse_from_digit 0 n (omega tests)))
  | inr large ↦
      rw
        (
          large,
          parse_from-append 0 (decimal_on fuel (n / 10)) ((48 + n % 10) ∷ [])
              (decimal_on-IsNumeric fuel (n / 10)),
          parse-decimal_on fuel (n / 10) (omega tests),
          parse_from_digit (n / 10) (n % 10) (omega arith),
        )
        (omega arith)
]

-- Two numbers that print alike are equal.
pub decimal_injective : (m n : ℕ) → decimal m ≡ decimal n → m ≡ n
unfolding decimal
decimal_injective m n e =
    sym (parse-decimal_on (suc m) m (omega arith))
    ∙ ap (parse_from 0) e
    ∙ parse-decimal_on (suc n) n (omega arith)

Lacks-of_numeric : (c : ℕ) (s : Text) → is_digit c ≡ false → IsNumeric s → Lacks c s
Lacks-of_numeric c [] h k = tt
Lacks-of_numeric c (x ∷ s) h k = (ground arith, Lacks-of_numeric c s h k.1)

-- A printed number holds no colon.
pub decimal-Lacks_colon : (n : ℕ) → Lacks 58 (decimal n)
unfolding decimal is_digit
decimal-Lacks_colon n = Lacks-of_numeric 58 (decimal n) refl (decimal_on-IsNumeric (suc n) n)

numeric_head : (s : Text) → IsNumeric s → s ≢ [] → parse_int s ≡ some (parse_from 0 s)
unfolding parse_int
numeric_head [] h k = absurd (k refl)
numeric_head (c ∷ s) h k = rw (h.0)

append-ne-nil : (s : Text) (c : ℕ) → s ++ c ∷ [] ≢ []
append-ne-nil [] c = λ e. cc
append-ne-nil (x ∷ s) c = λ e. cc

decimal_on-ne-nil : (fuel n : ℕ) → decimal_on (suc fuel) n ≢ []
unfolding decimal_on
decimal_on-ne-nil fuel n = elim (Bool-cases (ltb n 10)) [
  | inl small ↦ rw small (λ e. cc)
  | inr large ↦ rw large (append-ne-nil (decimal_on fuel (n / 10)) (48 + n % 10))
]

-- `parseInt` reads back what a template literal prints.
pub parse_int-decimal : (n : ℕ) → parse_int (decimal n) ≡ some n
unfolding decimal
parse_int-decimal n =
    numeric_head (decimal n) (decimal_on-IsNumeric (suc n) n) (decimal_on-ne-nil n n)
    ∙ ap some (parse-decimal_on (suc n) n (omega arith))
