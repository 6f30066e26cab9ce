-- ===== src/Dashboard/Pages.antt =====
-- sql-engine/ui.py: a page of the result rows. The argument `page_size` is not 0: the console gives the
-- constant PAGE_SIZE.
pub mod Laws
use Prim.Native.String.{◌++◌}
use mathlib.Core.List
use sql_parser.Base.{
  ℕ, ◌+◌, ◌-◌, ◌*◌, ◌/◌, min, String, List, [], ◌∷◌, length, take, drop, leb, ltb, if◌then◌else◌,
}
use sql_parser.Base.Int.{ℤ, pos, negsuc}
use sql_parser.Dashboard.Grid.{keys, table_lines}
use sql_parser.Storage.Text.{join}
use sql_parser.Table.{Rows}
use sql_parser.Value.{Runtime, digits_of}

abbrev pub page_size : ℕ
page_size = 5

-- page_info
pub record PageInfo : Type 0 where
  pub page : ℕ
  pub total_pages : ℕ
  pub total_rows : ℕ
  pub start : ℕ
  pub end : ℕ

-- (total_rows + page_size - 1) // page_size
unfoldable pub page_count : ℕ → ℕ → ℕ
page_count total_rows page_size = (total_rows + page_size - 1) / page_size

-- if page >= total_pages: page = total_pages - 1 if total_pages > 0 else 0
abbrev pub below_total : ℕ → ℕ → ℕ
below_total page total_pages = if leb total_pages page then total_pages - 1 else page

-- the page that is shown for the page asked for
unfoldable pub clamp_page : ℤ → ℕ → ℕ
clamp_page (negsuc n) total_pages = below_total 0 total_pages
clamp_page (pos n) total_pages = below_total n total_pages

abbrev pub help_line : String
help_line = "Navigation: [n] next  [p] prev  [g] first  [G] last  [q] quit"

-- the lines below the table
abbrev pub footer : ℕ → ℕ → List String
footer page total_pages =
    ""
    ∷ ("Page " ++ (digits_of (page + 1) ++ (" / " ++ digits_of total_pages)))
    ∷ (if ltb 1 total_pages then "" ∷ help_line ∷ [] else [])

module _ ⦃rt : Runtime⦄ where
  -- rows[start:end]
  unfoldable pub visible_rows : Rows → ℕ → ℕ → Rows
  visible_rows rows page page_size = take page_size (drop (page * page_size) rows)

  unfoldable pub page_info : Rows → ℕ → ℕ → PageInfo
  unfolding page_count
  page_info rows page page_size = record {
    page = page;
    total_pages = page_count (length rows) page_size;
    total_rows = length rows;
    start = page * page_size + 1;
    end = min (page * page_size + page_size) (length rows);
  }

  -- the text of a page, where the first row names the columns
  unfoldable pub page_text : List String → Rows → ℕ → ℕ → String
  unfolding visible_rows page_count table_lines digits_of join
  page_text columns rows page page_size =
      let lines = table_lines columns (visible_rows rows page page_size) in
      join "\n" (List.◌++◌ lines (footer page (page_count (length rows) page_size)))

  unfoldable pub format_table_paginated : Rows → ℤ → ℕ → String × PageInfo
  unfolding page_text page_info clamp_page
  format_table_paginated [] _ _ =
      ("(0 rows)", record { page = 0; total_pages = 1; total_rows = 0; start = 0; end = 0 })
  format_table_paginated (row ∷ rows) page page_size =
      let shown = clamp_page page (page_count (length (row ∷ rows)) page_size) in
      (page_text (keys row) (row ∷ rows) shown page_size, page_info (row ∷ rows) shown page_size)

  unfoldable pub render_page : Rows → ℤ → ℕ → String × PageInfo
  unfolding format_table_paginated
  render_page = format_table_paginated
