-- ===== src/PlaintextCache/Examples.antt =====
-- The theorems on the kept texts at a concrete cache.
use nur_chat.Prelude.{◌≡◌, refl, Bool, true, some, [], ◌∷◌, arith, length, ltb, inr}
use nur_chat.Text.{Text, codes, same}
use nur_chat.Assoc.{Assoc, lookup, insert}
use nur_chat.PlaintextCache.{
  Storage, IsBounded, save_plaintext, get_plaintext, replace_plaintext_cache, save-IsBounded,
  HasRoom, get-save, load_plaintext_cache, bounded,
}

abbrev roomy : Assoc Text → Bool
roomy cache = true

abbrev one_text : Storage
one_text = some ((codes "m1", codes "hello") ∷ [])

one_text-IsBounded : IsBounded one_text
unfolding load_plaintext_cache
one_text-IsBounded = omega arith

save-IsBounded_example :
    IsBounded (save_plaintext roomy (codes "m2") (codes "bye") one_text)
    × IsBounded (replace_plaintext_cache roomy ((codes "a", some (codes "b")) ∷ []) one_text).1
save-IsBounded_example =
    save-IsBounded roomy (codes "m2") (codes "bye") ((codes "a", some (codes "b")) ∷ []) one_text
      one_text-IsBounded

-- A storage that takes one entry and no more.
abbrev tight : Assoc Text → Bool
tight cache = ltb (length cache) 2

tight-HasRoom : HasRoom tight (codes "m2") (codes "bye") one_text
unfolding load_plaintext_cache bounded insert lookup same
tight-HasRoom = inr (refl, omega arith, refl)

get-save_example :
    get_plaintext (codes "m2") (save_plaintext tight (codes "m2") (codes "bye") one_text)
    ≡ some (codes "bye")
get-save_example =
    get-save tight (codes "m2") (codes "bye") one_text tight-HasRoom one_text-IsBounded refl refl
