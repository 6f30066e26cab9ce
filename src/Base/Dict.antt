-- ===== src/Base/Dict.antt =====
-- Python's dict with text keys, in insertion order: an assignment to a key that is there keeps its
-- place, and one to a new key goes to the end.
use Prim.Native.String.{String}
use mathlib.Core.Path.{◌≡◌, refl, subst, ap}
use mathlib.Core.Logic.{inl, inr}
use mathlib.Core.Bool.{Bool, true, false}
use mathlib.Core.Option.{Option, none, some}
use mathlib.Core.List.{List, [], ◌∷◌}
use native.Mathlib.Omega.{arith}
use text.Mathlib.Text.{◌==◌, ◌==◌ as str_eq}
use text.Mathlib.TextEquality.{eq_iff}
use sql_parser.Base.Tests.{if◌then◌else◌, Bool-cases}

abbrev pub Dict {ℓ} : Type ℓ → Type ℓ
Dict V = List (String × V)

module _ {ℓ} {V : Type ℓ} where
  -- d.get(k)
  unfoldable pub get : String → Dict V → Option V
  get k [] = none
  get k ((j, v) ∷ d) = if j == k then some v else get k d

  -- d.get(k, default)
  abbrev pub get_or : String → V → Dict V → V
  get_or k w d = elim (get k d) [ none ↦ w | some v ↦ v ]

  -- k in d
  abbrev pub has_key : String → Dict V → Bool
  has_key k d = elim (get k d) [ none ↦ false | some _ ↦ true ]

  -- d[k] = v
  unfoldable pub put : String → V → Dict V → Dict V
  put k v [] = (k, v) ∷ []
  put k v ((j, w) ∷ d) = if j == k then (j, v) ∷ d else (j, w) ∷ put k v d

  -- {**d, **e}
  unfoldable pub merge : Dict V → Dict V → Dict V
  merge d [] = d
  merge d ((k, v) ∷ e) = merge (put k v d) e

  pub get-put :
      (k j : String) (v : V) (d : Dict V) → get j (put k v d) ≡ (if k == j then some v else get j d)
  unfolding get put
  get-put k j v [] = refl
  get-put k j v ((i, w) ∷ d) = ground (arith, eq_iff k j, eq_iff i k, eq_iff i j, get-put k j v d)

  pub get-has_key : (k : String) (d : Dict V) → has_key k d ≡ true → (v : V) × (get k d ≡ some v)
  get-has_key k d h = found (get k d) h
    where
      found :
          (o : Option V)
          → (elim o as (λ _. Bool) [ none ↦ false | some _ ↦ true ]) ≡ true
          → (v : V) × (o ≡ some v)
      found none e = cc
      found (some v) e = (v, refl)

-- No key stands twice, as in any dict.
abbrev pub Lacks {ℓ} : {V : Type ℓ} → String → Dict V → Type 0
Lacks k [] = Unit
Lacks k ((j, v) ∷ d) = (str_eq j k ≡ false) × Lacks k d

abbrev pub HasUniqueKeys {ℓ} : {V : Type ℓ} → Dict V → Type 0
HasUniqueKeys [] = Unit
HasUniqueKeys ((k, v) ∷ d) = Lacks k d × HasUniqueKeys d

module _ {ℓ} {V : Type ℓ} where
  pub Lacks-get : (k : String) (d : Dict V) → Lacks k d → get k d ≡ none
  unfolding get
  Lacks-get k [] h = refl
  Lacks-get k ((j, v) ∷ d) h = rw h.0 (Lacks-get k d h.1)

  Lacks-put :
      (k j : String) (v : V) (d : Dict V) → str_eq j k ≡ false → Lacks k d → Lacks k (put j v d)
  unfolding put
  Lacks-put k j v [] e h = (e, tt)
  Lacks-put k j v ((i, w) ∷ d) e h = elim (Bool-cases (str_eq i j)) [
    | inl same ↦ rw same h
    | inr differs ↦ rw differs (h.0, Lacks-put k j v d e h.1)
  ]

  pub put-HasUniqueKeys :
      (k : String) (v : V) (d : Dict V) → HasUniqueKeys d → HasUniqueKeys (put k v d)
  unfolding put
  put-HasUniqueKeys k v [] h = (tt, tt)
  put-HasUniqueKeys k v ((i, w) ∷ d) h = elim (Bool-cases (str_eq i k)) [
    | inl same ↦ rw same h
    | inr differs ↦
        rw differs (Lacks-put i k v d (not_symm i k differs) h.0, put-HasUniqueKeys k v d h.1)
  ]
    where
      not_symm : (s t : String) → str_eq s t ≡ false → str_eq t s ≡ false
      not_symm s t e = ground (arith, eq_iff s t, eq_iff t s)

  pub merge-HasUniqueKeys : (d e : Dict V) → HasUniqueKeys d → HasUniqueKeys (merge d e)
  unfolding merge
  merge-HasUniqueKeys d [] h = h
  merge-HasUniqueKeys d ((k, v) ∷ e) h =
      merge-HasUniqueKeys (put k v d) e (put-HasUniqueKeys k v d h)

  -- In {**d, **e} the entries of `e` win.
  pub get-merge :
      (c : String) (d e : Dict V)
      → HasUniqueKeys e
      → get c (merge d e) ≡ (elim (get c e) [ none ↦ get c d | some v ↦ some v ])
  unfolding merge get
  get-merge c d [] h = refl
  get-merge c d ((k, v) ∷ e) h = elim (Bool-cases (str_eq k c)) [
    | inl same ↦
        let gone = Lacks-get c e (subst (λ j. Lacks j e) ((eq_iff k c).0 same) h.0) in
        ground (arith, get-merge c (put k v d) e h.1, get-put k c v d, gone)
    | inr differs ↦ ground (arith, get-merge c (put k v d) e h.1, get-put k c v d)
  ]

module _ {ℓ} {V : Type ℓ} where
  pub get_or-missing : (k : String) (w : V) (d : Dict V) → get k d ≡ none → get_or k w d ≡ w
  get_or-missing k w d e = ap (λ (o : Option V). elim o as (λ _. V) [ none ↦ w | some v ↦ v ]) e
