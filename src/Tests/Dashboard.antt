-- ===== src/Tests/Dashboard.antt =====
-- Six rows on two pages.
use sql_parser.Base.{◌≡◌, refl, ◌+◌, ◌≤◌, ◌<◌, [], ◌∷◌, length, sym, ◌*◌, arith, All}
use sql_parser.Base.Chars.{lower, size}
use sql_parser.Base.Dict.{get}
use sql_parser.Base.Int.{negsuc, pos}
use sql_parser.Dashboard.{pages_shown, browse, turn}
use sql_parser.Dashboard.Grid.{
  keys, table_lines, format_table, separator, header, row_line, width, longest, wider, pad, repeat,
  cell, join_map,
}
use sql_parser.Dashboard.Grid.Laws.{table_lines-aligned, line_size, IsTight}
use sql_parser.Dashboard.Laws.{pages_shown_complete, rows_on, IsNext}
use sql_parser.Dashboard.Pages.{page_size, page_count, visible_rows, format_table_paginated}
use sql_parser.Dashboard.Pages.Laws.{format_table_paginated-page_info}
use sql_parser.Storage.Text.{strip, join}
use sql_parser.Table.{Rows}
use sql_parser.Tests.Sample.{sample, users, ana, juan, eva}
use sql_parser.Value.{py_str, str_int, int, str}

abbrev more_rows : Rows
more_rows = juan ∷ eva ∷ users

IsNext-key : IsNext " N"
unfolding lower strip
IsNext-key = refl

two_pages : page_count 6 page_size ≡ 2
unfolding page_count
two_pages = refl

pages_shown_complete_example :
    rows_on (ana ∷ more_rows) (pages_shown (ana ∷ more_rows) (" N" ∷ [])) ≡ ana ∷ more_rows
pages_shown_complete_example =
    pages_shown_complete ana more_rows (" N" ∷ []) (IsNext-key, tt) (sym two_pages)

table_lines-aligned_example :
    All (λ line. size line ≡ line_size users (keys ana)) (table_lines (keys ana) users)
    × All (IsTight users) (keys ana)
table_lines-aligned_example = table_lines-aligned (keys ana) users

format_table_paginated-page_info_example :
    let info = (format_table_paginated (ana ∷ more_rows) (negsuc 3) page_size).1 in
    (info.page < info.total_pages)
    × (info.start ≤ info.end)
    × (info.end ≤ info.total_rows)
    × (info.end + 1 ≡ info.start + length (visible_rows (ana ∷ more_rows) info.page page_size))
    × (info.end ≤ info.page * page_size + page_size)
format_table_paginated-page_info_example =
    format_table_paginated-page_info ana more_rows (negsuc 3) page_size (omega arith)

-- Both pages, the first one twice, and the last key ends it.
test_pages : pages_shown (ana ∷ more_rows) ("n" ∷ "p" ∷ "l" ∷ "q" ∷ "n" ∷ []) ≡ 0 ∷ 1 ∷ 0 ∷ 1 ∷ []
unfolding pages_shown page_count browse turn lower strip
test_pages = refl

test_table :
    format_table ((("id", int (pos 7)) ∷ ("name", str "Eva") ∷ []) ∷ [])
    ≡ "+----+------+\n| id | name |\n+----+------+\n| 7  | Eva  |\n+----+------+"
unfolding format_table table_lines separator header row_line width longest wider pad repeat cell
    join_map join py_str str_int get
test_table = refl
