-- ===== src/Dashboard/Grid/Laws.antt =====
-- Dashboard/Grid: the lines of a table are of one length, and its columns as narrow as they can be.
use Prim.Native.String.{◌++◌}
use text.Mathlib.TextLemmas.{nil-append, cons-append}
use sql_parser.Base.{
  ℕ, zero, suc, ◌+◌, ◌-◌, ◌≤◌, String, List, [], ◌∷◌, map, ◌≡◌, refl, sym, ◌∙◌, ◌⊎◌, inl, inr,
  arith, All, Any, All-append, Bool-cases, ltb,
}
use sql_parser.Base.Chars.{size}
use sql_parser.Table.{Row, Rows}
use sql_parser.Value.{Runtime}
use sql_parser.Dashboard.Grid.{
  repeat, pad, join_map, cell, longest, width, separator, header, row_line, table_lines, wider,
}

pub size-append : (s t : String) → size (s ++ t) ≡ size s + size t
size-append String.[] t = rw (nil-append t) (omega arith)
size-append (String.◌∷◌ c s) t = rw (cons-append c s t) (omega (arith, size-append s t))

size-repeat : (c : String) (n : ℕ) → size c ≡ 1 → size (repeat c n) ≡ n
unfolding repeat
size-repeat c zero h = refl
size-repeat c (suc n) h = rw (size-append c (repeat c n)) (omega (arith, size-repeat c n h))

size-pad : (w : ℕ) (s : String) → size s ≤ w → size (pad w s) ≡ w
unfolding pad
size-pad w s h =
    rw (size-append s (repeat " " (w - size s)), size-repeat " " (w - size s) refl) (omega arith)

-- The sum over the columns.
abbrev pub total : (String → ℕ) → List String → ℕ
total g [] = 0
total g (c ∷ cs) = g c + total g cs

size-join_map :
    (f : String → String) (g : String → ℕ) (cs : List String)
    → ((c : String) → size (f c) ≡ g c)
    → size (join_map f cs) ≡ total g cs
unfolding join_map
size-join_map f g [] h = refl
size-join_map f g (c ∷ cs) h = rw (size-append (f c) (join_map f cs), h c, size-join_map f g cs h)

size-line :
    (bar : String) (f : String → String) (g : String → ℕ) (cs : List String)
    → size bar ≡ 1
    → ((c : String) → size (f c) ≡ g c)
    → size (bar ++ join_map f cs) ≡ 1 + total g cs
size-line bar f g cs e h = rw (size-append bar (join_map f cs), e, size-join_map f g cs h)

size-dashes : (w : ℕ) → size (repeat "-" (w + 2) ++ "+") ≡ w + 3
size-dashes w =
    rw (size-append (repeat "-" (w + 2)) "+", size-repeat "-" (w + 2) refl) (omega arith)

size-boxed : (w : ℕ) (s : String) → size s ≤ w → size (" " ++ (pad w s ++ " |")) ≡ w + 3
size-boxed w s h =
    rw (size-append " " (pad w s ++ " |"), size-append (pad w s) " |", size-pad w s h) (omega arith)

-- What holds of all elements for each parameter holds of each element for all.
All-swap :
    {A B : Type 0} (P : B → A → Type 0) (xs : List A)
    → ((b : B) → All (P b) xs)
    → All (λ x. (b : B) → P b x) xs
All-swap P [] h = tt
All-swap P (x ∷ xs) h = (λ b. (h b).0, All-swap P xs (λ b. (h b).1))

All-everywhere : {A : Type 0} (P : A → Type 0) (xs : List A) → ((x : A) → P x) → All P xs
All-everywhere P [] h = tt
All-everywhere P (x ∷ xs) h = (h x, All-everywhere P xs h)

All-map :
    {A B : Type 0} (P : A → Type 0) (Q : B → Type 0) (f : A → B) (xs : List A)
    → ((x : A) → P x → Q (f x))
    → All P xs
    → All Q (map f xs)
All-map P Q f [] h k = tt
All-map P Q f (x ∷ xs) h k = (h x k.0, All-map P Q f xs h k.1)

wider_ge : (w n : ℕ) → (w ≤ wider w n) × (n ≤ wider w n)
unfolding wider
wider_ge w n = ground arith

wider_is : (w n : ℕ) → (wider w n ≡ w) ⊎ (wider w n ≡ n)
unfolding wider
wider_is w n = elim (Bool-cases (ltb w n)) [ inl e ↦ inr (rw e) | inr e ↦ inl (rw e) ]

module _ ⦃rt : Runtime⦄ where
  -- What the loop gives is not below what it starts from, nor below any cell, and is one of these.
  longest-ge : (col : String) (w : ℕ) (rows : Rows) → w ≤ longest col w rows
  unfolding longest
  longest-ge col w [] = omega arith
  longest-ge col w (row ∷ rows) =
      let n = size (cell col row) in omega (arith, wider_ge w n, longest-ge col (wider w n) rows)

  longest-fits :
      (m : ℕ) (col : String) (w : ℕ) (rows : Rows)
      → longest col w rows ≡ m
      → All (λ row. size (cell col row) ≤ m) rows
  unfolding longest
  longest-fits m col w [] e = tt
  longest-fits m col w (row ∷ rows) e =
      let n = size (cell col row) in
      (
        omega (arith, wider_ge w n, longest-ge col (wider w n) rows),
        longest-fits m col (wider w n) rows e,
      )

  longest-met :
      (m : ℕ) (col : String) (w : ℕ) (rows : Rows)
      → longest col w rows ≡ m
      → (w ≡ m) ⊎ Any (λ row. size (cell col row) ≡ m) rows
  unfolding longest
  longest-met m col w [] e = inl e
  longest-met m col w (row ∷ rows) e =
      elim (longest-met m col (wider w (size (cell col row))) rows e) [
        | inr found ↦ inr (inr found)
        | inl h ↦ elim (wider_is w (size (cell col row))) [
          | inl k ↦ inl (sym k ∙ h)
          | inr k ↦ inr (inl (sym k ∙ h))
        ]
      ]

  -- A column is as wide as its longest text, the name or a cell.
  abbrev pub IsTight : Rows → String → Type 0
  IsTight rows col =
      (size col ≤ width rows col)
      × All (λ row. size (cell col row) ≤ width rows col) rows
      × ((size col ≡ width rows col) ⊎ Any (λ row. size (cell col row) ≡ width rows col) rows)

  width-IsTight : (rows : Rows) (col : String) → IsTight rows col
  unfolding width
  width-IsTight rows col = (
    longest-ge col (size col) rows,
    longest-fits _ col (size col) rows refl,
    longest-met _ col (size col) rows refl,
  )

  -- The length of a line: a bar, and three characters more than its width for each column.
  abbrev pub line_size : Rows → List String → ℕ
  line_size rows columns = 1 + total (λ col. width rows col + 3) columns

  abbrev HasSize : Rows → List String → String → Type 0
  HasSize rows columns line = size line ≡ line_size rows columns

  size-separator :
      (rows : Rows) (columns : List String) → HasSize rows columns (separator rows columns)
  unfolding separator
  size-separator rows columns = size-line "+" _ _ columns refl (λ col. size-dashes (width rows col))

  size-header : (rows : Rows) (columns : List String) → HasSize rows columns (header rows columns)
  unfolding header
  size-header rows columns =
      size-line "|" _ _ columns refl
        (λ col. size-boxed (width rows col) col (width-IsTight rows col).0)

  size-row_line :
      (rows : Rows) (columns : List String) (row : Row)
      → ((col : String) → size (cell col row) ≤ width rows col)
      → HasSize rows columns (row_line rows columns row)
  unfolding row_line
  size-row_line rows columns row h =
      size-line "|" _ _ columns refl (λ col. size-boxed (width rows col) (cell col row) (h col))

  -- All lines of a table have one length, each column being as wide as its longest text, be that
  -- the column's name or a cell.
  pub table_lines-aligned :
      (columns : List String) (rows : Rows)
      → All (λ line. size line ≡ line_size rows columns) (table_lines columns rows)
        × All (IsTight rows) columns
  unfolding table_lines
  table_lines-aligned columns rows =
      let dashes = size-separator rows columns in
      let fits =
        All-swap (λ col row. size (cell col row) ≤ width rows col) rows
          (λ col. (width-IsTight rows col).1) in
      let body =
        All-append (HasSize rows columns) (map (row_line rows columns) rows) _
          (All-map _ _ (row_line rows columns) rows (size-row_line rows columns) fits)
          (dashes, tt) in
      (
        (dashes, (size-header rows columns, (dashes, body))),
        All-everywhere (IsTight rows) columns (width-IsTight rows),
      )
