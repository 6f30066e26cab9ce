-- ===== src/Dashboard/AstPrinter.antt =====
-- sql-engine/ast_printer.py: the lines that print_ast prints. How Python prints the list of columns
-- and an ORDER BY entry, which are dicts and tuples of the parser, is a parameter.
use Prim.Native.String.{◌++◌}
use mathlib.Core.List
use sql_parser.Base.{
  ℕ, suc, String, Bool, true, false, not, Option, none, some, List, [], ◌∷◌, map, if◌then◌else◌,
  str_eq,
}
use sql_parser.Ast.{
  Condition, condition, logical_condition, not_condition, ColumnItem, star, listed, Columns,
  OrderBy, by_name, SelectQuery, CountQuery, AggregateQuery, ColumnDef, CreateTableQuery, Query,
  select, count, sum, avg, min, max, create_table, insert, delete, update,
}
use sql_parser.Dashboard.Grid.{repeat}
use sql_parser.Storage.Where.{operator_text, connective_text, py_repr}
use sql_parser.Value.{Runtime, digits_of}

-- str() of the list of columns and of an ORDER BY entry
pub record Shown : Type 0 where
  pub columns : List ColumnItem → String
  pub order_by : OrderBy → String

-- "  " * n + s
unfoldable pub indent : ℕ → String → String
unfolding repeat
indent n s = repeat "  " n ++ s

-- if node.order_by
abbrev pub is_given : Option OrderBy → Bool
is_given none = false
is_given (some (by_name s)) = not (str_eq s "")
is_given (some _) = true

module _ ⦃rt : Runtime⦄ where
  -- print_condition, print_logical_condition, print_not_condition
  unfoldable pub print_condition : Condition rt.Float → ℕ → List String
  unfolding indent py_repr
  print_condition (condition c op v) n =
      indent n (operator_text op)
      ∷ indent (suc n) ("├── " ++ c)
      ∷ indent (suc n) ("└── " ++ py_repr v)
      ∷ []
  print_condition (logical_condition l op r) n =
      indent n (connective_text op)
      ∷ indent (suc n) "├──"
      ∷ List.◌++◌ (print_condition l (suc (suc n)))
          (indent (suc n) "└──" ∷ print_condition r (suc (suc n)))
  print_condition (not_condition c) n = indent n "NOT" ∷ print_condition c (suc n)

  -- if node.where is not None
  unfoldable pub print_where : Option (Condition rt.Float) → List String
  unfolding print_condition indent
  print_where none = []
  print_where (some c) = indent 1 "WHERE" ∷ print_condition c 2

  abbrev pub line_if : Bool → String → List String → List String
  line_if b s lines = if b then indent 1 s ∷ lines else lines

  abbrev pub order_text : Shown → Option OrderBy → String
  order_text shown none = ""
  order_text shown (some o) = "ORDER BY: " ++ shown.order_by o

  abbrev pub columns_text : Shown → Columns → String
  columns_text shown star = "*"
  columns_text shown (listed items) = shown.columns items

  abbrev pub limit_lines : Option ℕ → List String
  limit_lines none = []
  limit_lines (some n) = indent 1 ("LIMIT: " ++ digits_of n) ∷ []

  unfoldable pub print_select_query : Shown → SelectQuery rt.Float → List String
  unfolding print_where indent digits_of
  print_select_query shown q =
      "SelectQuery"
      ∷ indent 1 ("columns: " ++ columns_text shown q.columns)
      ∷ indent 1 ("table: " ++ q.table)
      ∷ line_if q.distinct "DISTINCT: true" (
          line_if (is_given q.order_by) (order_text shown q.order_by)
            (List.◌++◌ (limit_lines q.limit) (print_where q.where_clause)))

  unfoldable pub print_count_query : CountQuery rt.Float → List String
  unfolding print_where indent
  print_count_query q = "CountQuery" ∷ indent 1 ("table: " ++ q.table) ∷ print_where q.where_clause

  -- f"{node.column}", where None is printed as such
  abbrev pub column_text : Option String → String
  column_text none = "None"
  column_text (some c) = c

  unfoldable pub print_aggregate_query : String → AggregateQuery rt.Float → List String
  unfolding print_where indent
  print_aggregate_query name q =
      (name ++ "Query")
      ∷ indent 1 ("column: " ++ column_text q.col)
      ∷ indent 1 ("table: " ++ q.table)
      ∷ print_where q.where_clause

-- a line of a column: its name, type, size, and what it is not allowed to be
unfoldable pub column_line : ColumnDef → String
unfolding indent digits_of
column_line col = indent 1 (
    "  "
    ++ (col.name
        ++ (": "
            ++ (col.col_type
                ++ ((if str_eq col.col_type "VARCHAR"
                      then "(" ++ (digits_of col.max_size ++ ")")
                      else "")
                    ++ ((if col.primary_key then " PK" else "")
                        ++ (if col.nullable then "" else " NOT NULL")))))))

unfoldable pub print_create_table_query : CreateTableQuery → List String
unfolding column_line indent
print_create_table_query q =
    "CreateTableQuery" ∷ indent 1 ("table: " ++ q.table_name) ∷ map column_line q.columns

module _ ⦃rt : Runtime⦄ where
  -- f"InsertQuery(table={node.table_name!r})" and the like
  abbrev pub named_query : String → String → List String
  named_query name table = (name ++ ("Query(table=" ++ (rt.repr_text table ++ ")"))) ∷ []

  -- print_ast of a query
  unfoldable pub print_ast : Shown → Query rt.Float → List String
  unfolding print_select_query print_count_query print_aggregate_query print_create_table_query
  print_ast shown (select q) = print_select_query shown q
  print_ast shown (count q) = print_count_query q
  print_ast shown (sum q) = print_aggregate_query "SUM" q
  print_ast shown (avg q) = print_aggregate_query "AVG" q
  print_ast shown (min q) = print_aggregate_query "MIN" q
  print_ast shown (max q) = print_aggregate_query "MAX" q
  print_ast shown (create_table q) = print_create_table_query q
  print_ast shown (insert q) = named_query "Insert" q.table_name
  print_ast shown (delete q) = named_query "Delete" q.table_name
  print_ast shown (update q) = named_query "Update" q.table_name
