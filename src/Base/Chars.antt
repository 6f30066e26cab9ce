-- ===== src/Base/Chars.antt =====
-- Characters by their codes, and ASCII's letters.
use Prim.Native.Char.{Char, code, char, nul, IsScalar}
use Prim.Native.Nat.{ℕ, compare, Ordering, ◌+◌, ◌-◌, suc}
use Prim.Native.String.{String}
use text.Mathlib.TextEquality.{Char-path}
use mathlib.Core.Path.{◌≡◌, refl, ap₂}
use mathlib.Core.Bool.{Bool, ◌&&◌}
use mathlib.Core.List.{List, [], ◌∷◌}
use sql_parser.Base.Tests.{leb, if◌then◌else◌}

-- The character with this code, if there is one.
abbrev pub scalar_at :
    (n : ℕ) (o p q : Ordering)
    → compare n 55296 ≡ o
    → compare 57343 n ≡ p
    → compare n 1114112 ≡ q
    → Char
scalar_at n Ordering.lt p q e₁ e₂ e₃ = char n (rw e₁ tt)
scalar_at n Ordering.gt Ordering.lt Ordering.lt e₁ e₂ e₃ = char n (rw (e₁, e₂, e₃) tt)
scalar_at n Ordering.eq Ordering.lt Ordering.lt e₁ e₂ e₃ = char n (rw (e₁, e₂, e₃) tt)
scalar_at _ _ _ _ e₁ e₂ e₃ = nul

code-scalar_at :
    (n : ℕ) (o p q : Ordering) (e₁ : compare n 55296 ≡ o) (e₂ : compare 57343 n ≡ p)
    (e₃ : compare n 1114112 ≡ q)
    → IsScalar n
    → code (scalar_at n o p q e₁ e₂ e₃) ≡ n
code-scalar_at n Ordering.lt p q e₁ e₂ e₃ h = refl
code-scalar_at n Ordering.gt Ordering.lt Ordering.lt e₁ e₂ e₃ h = refl
code-scalar_at n Ordering.gt Ordering.lt Ordering.eq e₁ e₂ e₃ h = absurd (rw (e₁, e₂, e₃) at h)
code-scalar_at n Ordering.gt Ordering.lt Ordering.gt e₁ e₂ e₃ h = absurd (rw (e₁, e₂, e₃) at h)
code-scalar_at n Ordering.gt Ordering.eq q e₁ e₂ e₃ h = absurd (rw (e₁, e₂) at h)
code-scalar_at n Ordering.gt Ordering.gt q e₁ e₂ e₃ h = absurd (rw (e₁, e₂) at h)
code-scalar_at n Ordering.eq Ordering.lt Ordering.lt e₁ e₂ e₃ h = refl
code-scalar_at n Ordering.eq Ordering.lt Ordering.eq e₁ e₂ e₃ h = absurd (rw (e₁, e₂, e₃) at h)
code-scalar_at n Ordering.eq Ordering.lt Ordering.gt e₁ e₂ e₃ h = absurd (rw (e₁, e₂, e₃) at h)
code-scalar_at n Ordering.eq Ordering.eq q e₁ e₂ e₃ h = absurd (rw (e₁, e₂) at h)
code-scalar_at n Ordering.eq Ordering.gt q e₁ e₂ e₃ h = absurd (rw (e₁, e₂) at h)

abbrev pub scalar : ℕ → Char
scalar n = scalar_at n (compare n 55296) (compare 57343 n) (compare n 1114112) refl refl refl

pub scalar-code : (c : Char) → scalar (code c) ≡ c
scalar-code (char n h) = Char-path _ _ (code-scalar_at n _ _ _ refl refl refl h)

abbrev pub codes : String → List ℕ
codes String.[] = []
codes (String.◌∷◌ c s) = code c ∷ codes s

abbrev pub text_of : List ℕ → String
text_of [] = ""
text_of (n ∷ ns) = String.◌∷◌ (scalar n) (text_of ns)

pub text_of-codes : (s : String) → text_of (codes s) ≡ s
text_of-codes String.[] = refl
text_of-codes (String.◌∷◌ c s) = ap₂ String.◌∷◌ (scalar-code c) (text_of-codes s)

abbrev pub is_upper : ℕ → Bool
is_upper c = leb b'A' c && leb c b'Z'

abbrev pub is_lower : ℕ → Bool
is_lower c = leb b'a' c && leb c b'z'

-- s.lower() and s.upper() of an ASCII text
unfoldable pub lower : String → String
lower String.[] = ""
lower (String.◌∷◌ c s) =
    String.◌∷◌ (if is_upper (code c) then scalar (code c + 32) else c) (lower s)

unfoldable pub upper : String → String
upper String.[] = ""
upper (String.◌∷◌ c s) =
    String.◌∷◌ (if is_lower (code c) then scalar (code c - 32) else c) (upper s)

-- the number of characters
abbrev pub size : String → ℕ
size String.[] = 0
size (String.◌∷◌ c s) = suc (size s)

-- `P` holds of the code of every character.
abbrev pub AllChars : (ℕ → Type 0) → String → Type 0
AllChars P String.[] = Unit
AllChars P (String.◌∷◌ c s) = P (code c) × AllChars P s
