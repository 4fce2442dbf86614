-- ===== src/Exec.antt =====
-- Methods that change an object and may throw: what was written before a throw stays written, so
-- the state comes back beside the error too.
use nur_chat.Prelude.{◌≡◌, refl, arith, ap}

pub data Outcome {ℓ} (E A : Type ℓ) : Type ℓ where
  done : A → Outcome E A
  thrown : E → Outcome E A

abbrev pub Exec : Type 0 → Type 0 → Type 0 → Type 0
Exec E S A = S → Outcome E A × S

module _ {E S : Type 0} where
  abbrev pub pure : {A : Type 0} → A → Exec E S A
  pure a s = (done a, s)

  abbrev pub throw : {A : Type 0} → E → Exec E S A
  throw e s = (thrown e, s)

  abbrev pub gets : {A : Type 0} → (S → A) → Exec E S A
  gets f s = (done (f s), s)

  abbrev pub modify : (S → S) → Exec E S (Unit {0})
  modify f s = (done tt, f s)

  abbrev pub continue : {A B : Type 0} → Outcome E A → (A → Exec E S B) → Exec E S B
  continue (done a) f s = f a s
  continue (thrown e) f s = (thrown e, s)

  infixl 5 ◌>>=◌ ◌>>◌
  abbrev pub ◌>>=◌ : {A B : Type 0} → Exec E S A → (A → Exec E S B) → Exec E S B
  ◌>>=◌ m f s = let (r, s') = m s in continue r f s'

  abbrev pub ◌>>◌ : {B : Type 0} → Exec E S (Unit {0}) → Exec E S B → Exec E S B
  m >> n = m >>= λ _. n

module _ {E S A B : Type 0} where
  -- A sequence that ends well went well in both parts.
  pub >>=-done :
      (m : Exec E S A) (f : A → Exec E S B) (s t : S) (b : B)
      → (m >>= f) s ≡ (done b, t)
      → (a : A) × (s' : S) × (m s ≡ (done a, s')) × (f a s' ≡ (done b, t))
  >>=-done m f s t b h = go (m s) refl h
    where
      go :
          (r : Outcome E A × S)
          → m s ≡ r
          → continue r.0 f r.1 ≡ (done b, t)
          → (a : A) × (s' : S) × (m s ≡ (done a, s')) × (f a s' ≡ (done b, t))
      go (done a, s') e k = (a, s', e, k)
      go (thrown x, s') e k = absurd (ground (arith, k))

module _ {E S A B : Type 0} where
  -- A sequence whose first part ends well goes on with the second.
  pub done->>= :
      (m : Exec E S A) (f : A → Exec E S B) (s s' : S) (a : A)
      → m s ≡ (done a, s')
      → (m >>= f) s ≡ f a s'
  done->>= m f s s' a e = ap (λ r. continue r.0 f r.1) e

  -- A sequence whose first part throws throws.
  pub thrown->>= :
      (m : Exec E S A) (f : A → Exec E S B) (s s' : S) (x : E)
      → m s ≡ (thrown x, s')
      → (m >>= f) s ≡ (thrown x, s')
  thrown->>= m f s s' x e = ap (λ r. continue r.0 f r.1) e
