-- ===== src/Assoc.antt =====
-- `Map<string, V>`, and an object used as a map: the entries in the order of insertion.
-- The keys that the program uses are identifiers with no integer among them, so an object lists
-- them in that order too.
use nur_chat.Prelude.{
  ◌⊎◌, inl, inr, true, false, ap, sym, ◌∙◌, Bool-cases, ◌+◌, ◌≤◌, ◌≡◌, refl, ◌≢◌, Option, none,
  some, List, [], ◌∷◌, map, arith, if◌then◌else◌, length,
}
use nur_chat.Text.{Text, same, same_iff, same_refl}

abbrev pub Assoc {ℓ} : Type ℓ → Type ℓ
Assoc V = List (Text × V)

module _ {ℓ} {V : Type ℓ} where
  -- `m.get(k)`; `none` is undefined.
  unfoldable pub lookup : Text → Assoc V → Option V
  lookup k [] = none
  lookup k ((j, v) ∷ m) = if same j k then some v else lookup k m

  -- `m.set(k, v)`: in place where the key is there, at the end where it is not.
  unfoldable pub insert : Text → V → Assoc V → Assoc V
  insert k v [] = (k, v) ∷ []
  insert k v ((j, w) ∷ m) = if same j k then (k, v) ∷ m else (j, w) ∷ insert k v m

  -- `m.delete(k)`
  unfoldable pub remove : Text → Assoc V → Assoc V
  remove k [] = []
  remove k ((j, v) ∷ m) = let rest = remove k m in if same j k then rest else (j, v) ∷ rest

  abbrev pub keys : Assoc V → List Text
  keys = map (λ e. e.0)

  pub lookup-insert :
      (k j : Text) (v : V) (m : Assoc V)
      → lookup j (insert k v m) ≡ (if same k j then some v else lookup j m)
  unfolding lookup insert
  lookup-insert k j v [] = refl
  lookup-insert k j v ((i, w) ∷ m) =
      ground (arith, same_iff k j, same_iff i k, same_iff i j, lookup-insert k j v m)

  pub lookup-insert_self : (k : Text) (v : V) (m : Assoc V) → lookup k (insert k v m) ≡ some v
  lookup-insert_self k v m = ground (arith, lookup-insert k k v m, same_refl k)

  pub lookup-insert_ne :
      (k j : Text) (v : V) (m : Assoc V) → k ≢ j → lookup j (insert k v m) ≡ lookup j m
  lookup-insert_ne k j v m h = ground (arith, lookup-insert k j v m, same_iff k j)

  pub lookup-remove :
      (k j : Text) (m : Assoc V) → lookup j (remove k m) ≡ (if same k j then none else lookup j m)
  unfolding lookup remove
  lookup-remove k j [] = ground arith
  lookup-remove k j ((i, w) ∷ m) =
      ground (arith, same_iff k j, same_iff i k, same_iff i j, lookup-remove k j m)

  pub lookup-remove_self : (k : Text) (m : Assoc V) → lookup k (remove k m) ≡ none
  lookup-remove_self k m = ground (arith, lookup-remove k k m, same_refl k)

  pub length-insert-le : (k : Text) (v : V) (m : Assoc V) → length (insert k v m) ≤ length m + 1
  unfolding insert
  length-insert-le k v [] = omega arith
  length-insert-le k v ((j, w) ∷ m) = ground (arith, length-insert-le k v m)

  pub length-remove-le : (k : Text) (m : Assoc V) → length (remove k m) ≤ length m
  unfolding remove
  length-remove-le k [] = omega arith
  length-remove-le k ((j, w) ∷ m) = ground (arith, length-remove-le k m)

-- A map has each key once.
abbrev pub AreDistinct : {A : Type 0} → Assoc A → Type 0
AreDistinct [] = Unit
AreDistinct ((k, v) ∷ m) = (lookup k m ≡ none) × AreDistinct m

abbrev pub or_else {ℓ} : {A : Type ℓ} → Option A → Option A → Option A
or_else none o = o
or_else (some a) o = some a

module _ {ℓ} {V : Type ℓ} where
  -- The entries put one by one, as spreading an object over another does.
  unfoldable pub put_all : Assoc V → Assoc V → Assoc V
  put_all [] m = m
  put_all ((k, v) ∷ vs) m = put_all vs (insert k v m)

module _ {V : Type 0} where
  -- Where the keys are distinct, what is put is found, and the rest stays.
  pub lookup-put_all :
      (key : Text) (es m : Assoc V)
      → AreDistinct es
      → lookup key (put_all es m) ≡ or_else (lookup key es) (lookup key m)
  unfolding put_all lookup
  lookup-put_all key [] m d = refl
  lookup-put_all key ((k, v) ∷ es) m (new, d) =
      lookup-put_all key es (insert k v m) d ∙ step (Bool-cases (same k key))
    where
      step :
          (same k key ≡ true) ⊎ (same k key ≡ false)
          → or_else (lookup key es) (lookup key (insert k v m))
            ≡ or_else (if same k key then some v else lookup key es) (lookup key m)
      step (inl e) =
          let one : k ≡ key = (same_iff k key).0 e in
          let gone : lookup key es ≡ none = ap (λ j. lookup j es) (sym one) ∙ new in
          rw (gone, lookup-insert k key v m, e) refl
      step (inr e) = rw (lookup-insert k key v m, e) refl
