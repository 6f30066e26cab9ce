-- ===== src/Ast.antt =====
-- sql-engine/ast_nodes.py: the nodes that parser.py builds. A node that the parser leaves as a
-- dict, such as {'type': 'aggregate', 'func': 'sum', 'column': 'x'}, is a constructor here, and an
-- entry that may be missing from it is an Option. Where the source keeps a word in a string and
-- tests it, `other` stands for the words that no test knows.
use sql_parser.Base.{ℕ, String, Bool, true, false, Option, List, [], ◌∷◌, str_eq, not}
use sql_parser.Value.{Value}

-- The operator of a Condition.
pub data Comparator : Type 0 where
  eq gt lt ge le : Comparator
  other : String → Comparator

-- The operator of a LogicalCondition, in upper case.
pub data Connective : Type 0 where
  and or : Connective
  other : String → Connective

-- Condition, LogicalCondition, NotCondition.
pub data Condition (F : Type 0) : Type 0 where
  condition : String → Comparator → Value F → Condition F
  logical_condition : Condition F → Connective → Condition F → Condition F
  not_condition : Condition F → Condition F

pub data Func : Type 0 where
  count sum avg min max : Func
  other : String → Func

-- An entry of SELECT's column list.
pub data ColumnItem : Type 0 where
  -- a plain string, as the executor also accepts it
  plain : String → ColumnItem
  -- {'type': 'column', 'name': n}
  column : String → ColumnItem
  -- {'type': 'column', 'name': 't.c', 'table': t, 'column': c}
  qualified : (name table col : String) → ColumnItem
  -- {'type': 'aggregate', 'func': f, 'column': c}
  aggregate : Func → Option String → ColumnItem

-- '*', or a list.
pub data Columns : Type 0 where
  star : Columns
  listed : List ColumnItem → Columns

-- GROUP BY: None, one name, or a list of names.
pub data GroupBy : Type 0 where
  no_group : GroupBy
  one : String → GroupBy
  many : List String → GroupBy

-- `if plan.group_by:`
abbrev pub is_grouped : GroupBy → Bool
is_grouped no_group = false
is_grouped (one s) = not (str_eq s "")
is_grouped (many []) = false
is_grouped (many (c ∷ cs)) = true

pub data Direction : Type 0 where
  asc desc : Direction

pub data OrderBy : Type 0 where
  -- {'type': 'aggregate', 'func': f, 'column': c, 'direction': d}
  by_aggregate : Func → Option String → Direction → OrderBy
  -- (column, direction)
  by_column : String → Direction → OrderBy
  -- a plain column name (legacy)
  by_name : String → OrderBy

-- {'type': 'aggregate', 'func': f, 'column': c, 'operator': op, 'value': v}
pub record Having (F : Type 0) : Type 0 where
  pub func : Func
  pub col : Option String
  pub operator : Comparator
  pub threshold : Value F

-- {'table': t, 'column': c}, one side of ON
pub record ColumnRef : Type 0 where
  pub table : Option String
  pub col : String

pub record SelectQuery (F : Type 0) : Type 0 where
  pub columns : Columns
  pub table : String
  pub where_clause : Option (Condition F)
  pub order_by : Option OrderBy
  pub limit : Option ℕ
  pub distinct : Bool
  pub group_by : GroupBy
  pub having : Option (Having F)
  pub join_table : Option String
  pub join_condition : Option (ColumnRef × ColumnRef)

pub record CountQuery (F : Type 0) : Type 0 where
  pub table : String
  pub where_clause : Option (Condition F)
  pub group_by : GroupBy

-- SumQuery, AvgQuery, MinQuery and MaxQuery have the same fields.
pub record AggregateQuery (F : Type 0) : Type 0 where
  pub col : Option String
  pub table : String
  pub where_clause : Option (Condition F)
  pub group_by : GroupBy

pub record ColumnDef : Type 0 where
  pub name : String
  pub col_type : String
  pub max_size : ℕ
  pub nullable : Bool
  pub primary_key : Bool

pub record CreateTableQuery : Type 0 where
  pub table_name : String
  pub columns : List ColumnDef

pub record InsertQuery (F : Type 0) : Type 0 where
  pub table_name : String
  pub columns : Option (List String)
  pub values : List (Value F)

pub record DeleteQuery (F : Type 0) : Type 0 where
  pub table_name : String
  pub where_clause : Option (Condition F)

pub record UpdateQuery (F : Type 0) : Type 0 where
  pub table_name : String
  pub assignments : List (String × Value F)
  pub where_clause : Option (Condition F)

pub data Query (F : Type 0) : Type 0 where
  select : SelectQuery F → Query F
  count : CountQuery F → Query F
  sum avg min max : AggregateQuery F → Query F
  create_table : CreateTableQuery → Query F
  insert : InsertQuery F → Query F
  delete : DeleteQuery F → Query F
  update : UpdateQuery F → Query F
