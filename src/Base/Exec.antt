-- ===== src/Base/Exec.antt =====
-- Methods that read or change the state behind a storage object, and may raise. What was done before
-- an exception stays done.
use sql_parser.Base.Result.{Result, ok, raised}
use mathlib.Core.Path.{◌≡◌, refl, ap}

abbrev pub Exec : Type 0 → Type 0 → Type 0
Exec S A = S → Result A × S

module _ {S A B : Type 0} where
  abbrev pub continue : Result A → (A → Exec S B) → Exec S B
  continue (ok a) f s = f a s
  continue (raised e) f s = (raised e, s)

  infixl 5 ◌>>=◌
  abbrev pub ◌>>=◌ : Exec S A → (A → Exec S B) → Exec S B
  ◌>>=◌ m f s = let (r, s') = m s in continue r f s'

module _ {S A : Type 0} where
  abbrev pub pure : A → Exec S A
  pure a s = (ok a, s)

  abbrev pub lift : Result A → Exec S A
  lift r s = (r, s)

module _ {S A B : Type 0} (f : A → Exec S B) where
  -- A sequence that succeeds: its first part does, and then the second.
  pub >>=-eq-ok :
      (m : Exec S A) (s : S) {b : B} {s'' : S}
      → (m >>= f) s ≡ (ok b, s'')
      → (a : A) × (s' : S) × (m s ≡ (ok a, s')) × (f a s' ≡ (ok b, s''))
  >>=-eq-ok m s {b} {s''} h = split (m s) refl h
    where
      split :
          (p : Result A × S)
          → m s ≡ p
          → continue p.0 f p.1 ≡ (ok b, s'')
          → (a : A) × (s' : S) × (m s ≡ (ok a, s')) × (f a s' ≡ (ok b, s''))
      split (ok a, s') e k = (a, s', e, k)
      split (raised e, s') d k = cc

  -- A sequence whose first part is known.
  pub >>=-ok : (m : Exec S A) (s s' : S) (a : A) → m s ≡ (ok a, s') → (m >>= f) s ≡ f a s'
  >>=-ok m s s' a e = ap (λ (p : Result A × S). continue p.0 f p.1) e
