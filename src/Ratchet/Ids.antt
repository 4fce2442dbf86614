-- ===== src/Ratchet/Ids.antt =====
-- The ids of messages, and the set of those that were seen.
use mathlib.Core.List.{append_cancel_left}
use nur_chat.Prelude.{
  ℕ, zero, suc, ◌-◌, ◌≤◌, ◌<◌, ◌≡◌, refl, false, ◌||◌, List, [], ◌∷◌, ◌++◌, arith, length, drop,
  length-drop, inl, inr, Bool-cases, ap, ◌∙◌,
}
use nur_chat.Text.{Text, same, same_iff}
use nur_chat.Text.Decimal.{decimal_injective}
use nur_chat.Ratchet.Session.{message_id, has, add}
use nur_chat.Ratchet.Messages.{place, sort_ids, trim_seen}

cons_tail : (a : ℕ) (s t : Text) → a ∷ s ≡ a ∷ t → s ≡ t
cons_tail a s t e = cc

-- Under one key the number decides the id.
pub message_id_injective : (dh : Text) (m n : ℕ) → message_id dh m ≡ message_id dh n → m ≡ n
unfolding message_id
message_id_injective dh m n e =
    decimal_injective m n (cons_tail 58 _ _ (append_cancel_left dh _ _ e))

-- Messages with other numbers have other ids.
pub message_id_ne : (dh : Text) (m n : ℕ) → m < n → same (message_id dh m) (message_id dh n) ≡ false
message_id_ne dh m n h = elim (Bool-cases (same (message_id dh m) (message_id dh n))) [
  | inl eq ↦
      let e : m ≡ n = message_id_injective dh m n ((same_iff _ _).0 eq) in absurd (omega arith)
  | inr ne ↦ ne
]

pub has-append : (k : Text) (js ls : List Text) → has k (js ++ ls) ≡ (has k js || has k ls)
unfolding has
has-append k [] ls = refl
has-append k (j ∷ js) ls = ground (arith, has-append k js ls)

pub has-add : (k j : Text) (js : List Text) → has j (add k js) ≡ (same k j || has j js)
unfolding add has
has-add k j js = elim (Bool-cases (has k js)) [
  | inl old ↦ rw old (ground (arith, same_iff k j))
  | inr new ↦ rw (new, has-append j js (k ∷ [])) (ground arith)
]

has-place : (j k : Text) (js : List Text) → has j (place k js) ≡ (same k j || has j js)
unfolding has place
has-place j k [] = refl
has-place j k (i ∷ js) = ground (arith, has-place j k js)

has-sort : (j : Text) (js : List Text) → has j (sort_ids js) ≡ has j js
unfolding has sort_ids
has-sort j [] = refl
has-sort j (k ∷ js) = has-place j k (sort_ids js) ∙ ap (λ b. same k j || b) (has-sort j js)

has-drop : (j : Text) (n : ℕ) (js : List Text) → has j js ≡ false → has j (drop n js) ≡ false
unfolding has
has-drop j zero js h = h
has-drop j (suc n) [] h = refl
has-drop j (suc n) (k ∷ js) h = has-drop j n js (ground arith)

-- What is not in the set is not in what is left of it.
pub has-trim_seen : (j : Text) (js : List Text) → has j js ≡ false → has j (trim_seen js) ≡ false
unfolding trim_seen
has-trim_seen j js h = has-drop j _ (sort_ids js) (has-sort j js ∙ h)

pub length-trim_seen-le : (js : List Text) → length (trim_seen js) ≤ 5000
unfolding trim_seen
length-trim_seen-le js = omega (arith, length-drop (length (sort_ids js) - 5000) (sort_ids js))
