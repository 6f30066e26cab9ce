-- ===== src/Storage/Text/Laws.antt =====
-- Storage/Text: what is joined is split again.
use Prim.Native.Char.{Char, code}
use Prim.Native.String.{◌++◌}
use text.Mathlib.TextLemmas.{nil-append, cons-append}
use sql_parser.Base.{ℕ, String, true, false, ◌≡◌, refl, ap, ◌∙◌, List, [], ◌∷◌, All, ◌==◌, arith}
use sql_parser.Storage.Text.{has_char, split_at, join}

pub one-append : (c : Char) (s : String) → String.◌∷◌ c "" ++ s ≡ String.◌∷◌ c s
one-append c s = cons-append c "" s ∙ ap (λ t. String.◌∷◌ c t) (nil-append s)

-- A part without the separator, and what follows the separator.
pub split_at-append :
    (n : ℕ) (p : String) (c : Char) (s : String)
    → has_char n p ≡ false
    → code c ≡ n
    → split_at n (p ++ String.◌∷◌ c s) ≡ p ∷ split_at n s
unfolding split_at has_char
split_at-append n String.[] c s h e =
    let same : (code c == n) ≡ true = ground arith in rw (nil-append (String.◌∷◌ c s)) (rw same)
split_at-append n (String.◌∷◌ d p) c s h e =
    let differs : (code d == n) ≡ false = ground arith in
    let rest : has_char n p ≡ false = ground arith in
    rw (cons-append d p (String.◌∷◌ c s)) (rw (differs, split_at-append n p c s rest e))

pub split_at_self : (n : ℕ) (p : String) → has_char n p ≡ false → split_at n p ≡ p ∷ []
unfolding split_at has_char
split_at_self n String.[] h = refl
split_at_self n (String.◌∷◌ d p) h =
    let differs : (code d == n) ≡ false = ground arith in
    let rest : has_char n p ≡ false = ground arith in rw (differs, split_at_self n p rest)

-- Parts without the separator are the parts of their join.
pub split_at-join :
    (n : ℕ) (c : Char) (p : String) (ps : List String)
    → code c ≡ n
    → All (λ q. has_char n q ≡ false) (p ∷ ps)
    → split_at n (join (String.◌∷◌ c "") (p ∷ ps)) ≡ p ∷ ps
unfolding join
split_at-join n c p [] e h = split_at_self n p h.0
split_at-join n c p (q ∷ ps) e h =
    let tail = join (String.◌∷◌ c "") (q ∷ ps) in
    let single : String.◌∷◌ c "" ++ tail ≡ String.◌∷◌ c tail = one-append c tail in
    rw single (split_at-append n p c tail h.0 e ∙ ap (λ qs. p ∷ qs) (split_at-join n c q ps e h.1))

pub has_char-append :
    (n : ℕ) (p s : String)
    → has_char n p ≡ false
    → has_char n s ≡ false
    → has_char n (p ++ s) ≡ false
unfolding has_char
has_char-append n String.[] s h k = rw (nil-append s) k
has_char-append n (String.◌∷◌ c p) s h k =
    rw (cons-append c p s) (ground (arith, has_char-append n p s))
