-- ===== src/Dashboard/Pages/Laws.antt =====
-- Dashboard/Pages: the pages of a result are its rows, each once and in order.
use mathlib.Core.List.{◌++◌}
use native.Mathlib.Nat.{
  zero-add, zero-mul, suc-add, lt-div-mul-add, div-mul-le_self, le-div_iff_mul-le, mul-le-mul_right,
}
use sql_parser.Base.{
  ℕ, zero, suc, ◌+◌, ◌-◌, ◌*◌, ◌/◌, ◌≤◌, ◌<◌, List, [], ◌∷◌, length, take, drop, ◌≡◌, refl, sym, ap,
  ◌∙◌, arith, length-take, length-drop,
}
use sql_parser.Base.Int.{ℤ, pos, negsuc}
use sql_parser.Table.{Row, Rows}
use sql_parser.Value.{Runtime}
use sql_parser.Dashboard.Pages.{
  page_count, clamp_page, visible_rows, page_info, format_table_paginated,
}

-- There is a page for every row, and no page too many.
pub page_count-bounds :
    (n k : ℕ)
    → 0 < k
    → 0 < n
    → (n ≤ page_count n k * k) × (page_count n k * k < n + k) × (0 < page_count n k)
unfolding page_count
page_count-bounds n k h p =
    let q = (n + k - 1) / k in
    let low = lt-div-mul-add {a = n + k - 1} h in
    let high = div-mul-le_self (n + k - 1) k in
    let one = (le-div_iff_mul-le {x = 1} {y = n + k - 1} h).1 (omega arith) in
    (omega arith, omega arith, one)

pub clamp_page-lt : (page : ℤ) (total : ℕ) → 0 < total → clamp_page page total < total
unfolding clamp_page
clamp_page-lt (pos n) total h = ground arith
clamp_page-lt (negsuc n) total h = ground arith

pub clamp_page_self : (page total : ℕ) → page < total → clamp_page (pos page) total ≡ page
unfolding clamp_page
clamp_page_self page total h = ground arith

module _ {ℓ} {A : Type ℓ} where
  drop_nil : (a : ℕ) → drop {A = A} a [] ≡ []
  drop_nil zero = refl
  drop_nil (suc a) = refl

  drop-drop : (a b : ℕ) (xs : List A) → drop a (drop b xs) ≡ drop (b + a) xs
  drop-drop a zero xs = rw zero-add
  drop-drop a (suc b) [] = drop_nil a ∙ sym (drop_nil (suc b + a))
  drop-drop a (suc b) (x ∷ xs) = rw suc-add (drop-drop a b xs)

  take-add : (a b : ℕ) (xs : List A) → take (a + b) xs ≡ take a xs ++ take b (drop a xs)
  take-add zero b xs = rw zero-add
  take-add (suc a) b [] = rw suc-add (sym (take_nil b))
    where
      take_nil : (n : ℕ) → take {A = A} n [] ≡ []
      take_nil zero = refl
      take_nil (suc n) = refl
  take-add (suc a) b (x ∷ xs) = rw suc-add (ap (λ (ys : List A). x ∷ ys) (take-add a b xs))

  pub take_all : (n : ℕ) (xs : List A) → length xs ≤ n → take n xs ≡ xs
  take_all zero [] h = refl
  take_all zero (x ∷ xs) h = absurd (omega arith)
  take_all (suc n) [] h = refl
  take_all (suc n) (x ∷ xs) h = ap (λ (ys : List A). x ∷ ys) (take_all n xs (omega arith))

module _ ⦃rt : Runtime⦄ where
  -- The rows on `count` pages, from a page on.
  abbrev pub pages_from : Rows → ℕ → ℕ → ℕ → Rows
  pages_from rows page zero k = []
  pages_from rows page (suc count) k =
      visible_rows rows page k ++ pages_from rows (page + 1) count k

  pages_from-take :
      (rows : Rows) (page count k : ℕ)
      → pages_from rows page count k ≡ take (count * k) (drop (page * k) rows)
  unfolding visible_rows
  pages_from-take rows page zero k = rw zero-mul
  pages_from-take rows page (suc count) k =
      let sum : suc count * k ≡ k + count * k = grind arith in
      let next : page * k + k ≡ (page + 1) * k = grind arith in
      rw (sum, take-add k (count * k) (drop (page * k) rows), drop-drop k (page * k) rows, next)
        (ap (λ (ys : Rows). take k (drop (page * k) rows) ++ ys)
          (pages_from-take rows (page + 1) count k))

  -- The rows of all pages, one page after the other, are the rows of the result.
  pub pages_from-all :
      (rows : Rows) (k : ℕ) → 0 < k → pages_from rows 0 (page_count (length rows) k) k ≡ rows
  pages_from-all [] k h =
      pages_from-take [] 0 (page_count 0 k) k
      ∙ rw zero-mul (take_all (page_count 0 k * k) [] (omega arith))
  pages_from-all (row ∷ rows) k h =
      let n = length (row ∷ rows) in
      let enough = (page_count-bounds n k h (omega arith)).0 in
      pages_from-take (row ∷ rows) 0 (page_count n k) k
      ∙ rw zero-mul (take_all (page_count n k * k) (row ∷ rows) enough)

  -- A page that is asked for by any number is one of the pages. It shows the rows from `start` to
  -- `end`, counted from 1: at least one row, and at most `page_size`.
  pub format_table_paginated-page_info :
      (row : Row) (rows : Rows) (page : ℤ) (k : ℕ)
      → 0 < k
      → let info = (format_table_paginated (row ∷ rows) page k).1 in
        (info.page < info.total_pages)
        × (info.start ≤ info.end)
        × (info.end ≤ info.total_rows)
        × (info.end + 1 ≡ info.start + length (visible_rows (row ∷ rows) info.page k))
        × (info.end ≤ info.page * k + k)
  unfolding format_table_paginated page_info visible_rows
  format_table_paginated-page_info row rows page k h =
      let n = length (row ∷ rows) in
      let q = page_count n k in
      let p = clamp_page page q in
      let (enough, tight, some_page) = page_count-bounds n k h (omega arith) in
      let inside = clamp_page-lt page q some_page in
      let before : (p + 1) * k ≤ q * k = mul-le-mul_right k (omega arith) in
      let next : (p + 1) * k ≡ p * k + k = grind arith in
      (
        inside,
        omega arith,
        omega arith,
        rw (length-take k (drop (p * k) (row ∷ rows)), length-drop (p * k) (row ∷ rows))
            (omega arith),
        omega arith,
      )
