-- ===== src/Dashboard/Laws.antt =====
-- Dashboard: going through the pages of a result.
use mathlib.Core.List.{◌++◌}
use sql_parser.Base.{
  ℕ, suc, ◌+◌, ◌-◌, ◌<◌, String, List, [], ◌∷◌, length, leb, ltb, true, false, ◌≡◌, refl, ap, ◌∙◌,
  inl, inr, arith, All, Bool-cases, Option-cases, some, lt→ltb,
}
use sql_parser.Base.Chars.{lower}
use sql_parser.Storage.Text.{strip}
use sql_parser.Table.{Row, Rows}
use sql_parser.Value.{Runtime}
use sql_parser.Dashboard.{turn, browse, pages_shown}
use sql_parser.Dashboard.Pages.{page_size, page_count, visible_rows}
use sql_parser.Dashboard.Pages.Laws.{page_count-bounds, pages_from, pages_from-all}

turn-lt :
    (key : String) (page total next : ℕ)
    → page < total
    → turn key page total ≡ some next
    → next < total
unfolding turn
turn-lt key page total next h e = ground arith

module _ ⦃rt : Runtime⦄ where
  browse-lt :
      (total page : ℕ) (lines : List String)
      → page < total
      → All (λ p. p < total) (browse total page lines)
  unfolding browse
  browse-lt total page [] h = (h, tt)
  browse-lt total page (line ∷ lines) h =
      elim (Option-cases (turn (lower (strip rt.is_space line)) page total)) [
        | inl quit ↦ rw quit (h, tt)
        | inr (next, e) ↦ rw e (
          h,
          browse-lt total next lines (turn-lt (lower (strip rt.is_space line)) page total next h e),
        )
      ]

  -- Whatever is typed, every page that is shown of a result with rows is one of its pages.
  pub pages_shown-lt :
      (row : Row) (rows : Rows) (lines : List String)
      → All
          (λ page. page < page_count (length (row ∷ rows)) page_size)
          (pages_shown (row ∷ rows) lines)
  unfolding pages_shown
  pages_shown-lt row rows lines =
      let total = page_count (length (row ∷ rows)) page_size in
      let some_page =
        (page_count-bounds (length (row ∷ rows)) page_size (omega arith) (omega arith)).2 in
      elim (Bool-cases (leb total 1)) [
        | inl single ↦ rw single (some_page, tt)
        | inr several ↦ rw several (browse-lt total 0 lines some_page)
      ]

  -- The rows on the pages of a list.
  abbrev pub rows_on : Rows → List ℕ → Rows
  rows_on rows [] = []
  rows_on rows (page ∷ pages) = visible_rows rows page page_size ++ rows_on rows pages

  -- A line that stands for the key n, in any case and with white space around it.
  abbrev pub IsNext : String → Type 0
  IsNext line = lower (strip rt.is_space line) ≡ "n"

  browse-next :
      (rows : Rows) (total page : ℕ) (lines : List String)
      → All IsNext lines
      → page + suc (length lines) ≡ total
      → rows_on rows (browse total page lines) ≡ pages_from rows page (suc (length lines)) page_size
  unfolding browse turn
  browse-next rows total page [] h e = refl
  browse-next rows total page (line ∷ lines) h e =
      let more : ltb page (total - 1) ≡ true = lt→ltb page (total - 1) (omega arith) in
      rw (h.0, more)
        (ap (λ (shown : Rows). visible_rows rows page page_size ++ shown)
          (browse-next rows total (page + 1) lines h.1 (omega arith)))

  -- The key n, as often as there are pages after the first one, brings every row on the screen, each
  -- once and in the order of the result.
  pub pages_shown_complete :
      (row : Row) (rows : Rows) (lines : List String)
      → All IsNext lines
      → suc (length lines) ≡ page_count (length (row ∷ rows)) page_size
      → rows_on (row ∷ rows) (pages_shown (row ∷ rows) lines) ≡ row ∷ rows
  unfolding pages_shown
  pages_shown_complete row rows [] h e =
      let single : leb (page_count (length (row ∷ rows)) page_size) 1 ≡ true = ground arith in
      rw single (
        ap (λ count. pages_from (row ∷ rows) 0 count page_size) e
        ∙ pages_from-all (row ∷ rows) page_size (omega arith))
  pages_shown_complete row rows (line ∷ lines) h e =
      let several : leb (page_count (length (row ∷ rows)) page_size) 1 ≡ false = ground arith in
      rw several (
        browse-next (row ∷ rows) _ 0 (line ∷ lines) h (omega arith)
        ∙ ap (λ count. pages_from (row ∷ rows) 0 count page_size) e
        ∙ pages_from-all (row ∷ rows) page_size (omega arith))
