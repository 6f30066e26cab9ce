-- ===== src/Parser/Grammar.antt =====
-- sql-engine/parser.py: the grammar that the p_ functions have in their docstrings, as parse trees. A
-- type is a nonterminal, and a constructor a production, which stands above it. An optional_
-- nonterminal is an Option, whose `none` is the production of `empty`.
use sql_parser.Base.{ℕ, String, Bool, true, false, not, ◌||◌, Option}

-- xs : x | xs COMMA x, and in the same way or_condition with OR and and_condition with AND.
pub data Chain {ℓ} (A : Type ℓ) : Type ℓ where
  single : A → Chain A
  multiple : Chain A → A → Chain A

-- value : NUMBER | MINUS NUMBER | STRING
pub data ValueTree : Type 0 where
  value_number value_negative : ℕ → ValueTree
  value_string : String → ValueTree

-- comparator : EQUAL | GT | LT | GE | LE
pub data ComparatorTree : Type 0 where
  equals greater less at_least at_most : ComparatorTree

-- column_ref : ID | ID DOT ID
pub data ColumnRefTree : Type 0 where
  unqualified : String → ColumnRefTree
  qualified : (table col : String) → ColumnRefTree

-- simple_condition : column_ref comparator value
pub data SimpleTree : Type 0 where
  simple : ColumnRefTree → ComparatorTree → ValueTree → SimpleTree

-- not_condition : simple_condition | NOT simple_condition
pub data NotTree : Type 0 where
  plain negated : SimpleTree → NotTree

-- condition : or_condition
-- or_condition : and_condition | or_condition OR and_condition
-- and_condition : not_condition | and_condition AND not_condition
abbrev pub ConditionTree : Type 0
ConditionTree = Chain (Chain NotTree)

-- aggregate_func : SUM | AVG | MIN | MAX
pub data AggregateFunc : Type 0 where
  sum avg min max : AggregateFunc

-- COUNT LPAREN STAR RPAREN | aggregate_func LPAREN ID RPAREN, as column_item, order_by_expr and
-- aggregate_comparison have it.
pub data CallTree : Type 0 where
  count_star : CallTree
  call : AggregateFunc → String → CallTree

-- optional_join : JOIN ID ON join_condition
-- join_condition : column_ref EQUAL column_ref
pub data JoinTree : Type 0 where
  join : String → ColumnRefTree → ColumnRefTree → JoinTree

-- aggregate_comparison : COUNT LPAREN STAR RPAREN comparator NUMBER
--                      | aggregate_func LPAREN ID RPAREN comparator NUMBER
pub data HavingTree : Type 0 where
  comparison : CallTree → ComparatorTree → ℕ → HavingTree

-- nothing, ASC or DESC, at the end of each kind of order_by_expr
pub data DirectionTree : Type 0 where
  unstated ascending descending : DirectionTree

-- order_by_expr : column_ref | column_ref ASC | column_ref DESC
--   | COUNT LPAREN STAR RPAREN | COUNT LPAREN STAR RPAREN ASC | COUNT LPAREN STAR RPAREN DESC
--   | aggregate_func LPAREN ID RPAREN | ... ASC | ... DESC
pub data OrderTree : Type 0 where
  order_by_ref : ColumnRefTree → DirectionTree → OrderTree
  order_by_call : CallTree → DirectionTree → OrderTree

-- column_item : ID | ID DOT ID | COUNT LPAREN STAR RPAREN | SUM LPAREN ID RPAREN | ...
pub data ItemTree : Type 0 where
  item_id : String → ItemTree
  item_qualified : (table col : String) → ItemTree
  item_call : CallTree → ItemTree

-- select_list : STAR | column_list
pub data SelectListTree : Type 0 where
  all_columns : SelectListTree
  column_list : Chain ItemTree → SelectListTree

pub data SelectTree : Type 0 where
  -- SELECT optional_distinct select_list FROM ID optional_join optional_where optional_group
  -- optional_having optional_order optional_limit
  select_general :
      (distinct : Bool) (columns : SelectListTree) (table : String) (join : Option JoinTree)
      (condition : Option ConditionTree) (group : Option (Chain ColumnRefTree))
      (having : Option HavingTree) (order : Option OrderTree) (limit : Option ℕ)
      → SelectTree
  -- SELECT COUNT LPAREN STAR RPAREN FROM ID optional_where optional_group, and the same with SUM
  -- LPAREN ID RPAREN, with AVG, MIN and MAX
  select_aggregate :
      (function : CallTree) (table : String) (condition : Option ConditionTree)
      (group : Option (Chain ColumnRefTree))
      → SelectTree

-- What may follow the type of a column: nothing, NOT NULL or PRIMARY KEY.
pub data Constraint : Type 0 where
  nullable not_null primary_key : Constraint

-- column_def : ID INT | ID INT NOT NULL | ID INT PRIMARY KEY | ID FLOAT | ID FLOAT NOT NULL
--   | ID BOOL | ID BOOL NOT NULL | ID VARCHAR LPAREN NUMBER RPAREN
--   | ID VARCHAR LPAREN NUMBER RPAREN NOT NULL | ID VARCHAR LPAREN NUMBER RPAREN PRIMARY KEY
pub data ColumnDefTree : Type 0 where
  int_column : String → Constraint → ColumnDefTree
  -- the flag: with NOT NULL
  float_column bool_column : String → Bool → ColumnDefTree
  varchar_column : String → ℕ → Constraint → ColumnDefTree

-- assignment : ID EQUAL value
pub data AssignmentTree : Type 0 where
  assignment : String → ValueTree → AssignmentTree

-- query : select_stmt | create_stmt | insert_stmt | delete_stmt | update_stmt
pub data Tree : Type 0 where
  select_stmt : SelectTree → Tree
  -- CREATE TABLE ID LPAREN column_def_list RPAREN
  create_stmt : String → Chain ColumnDefTree → Tree
  -- INSERT INTO ID LPAREN column_name_list RPAREN VALUES LPAREN value_list RPAREN, and with `none`
  -- INSERT INTO ID VALUES LPAREN value_list RPAREN
  insert_stmt : String → Option (Chain String) → Chain ValueTree → Tree
  -- DELETE FROM ID WHERE condition | DELETE FROM ID
  delete_stmt : String → Option ConditionTree → Tree
  -- UPDATE ID SET assignment_list WHERE condition | UPDATE ID SET assignment_list
  update_stmt : String → Chain AssignmentTree → Option ConditionTree → Tree

abbrev pub first {ℓ} : {A : Type ℓ} → Chain A → A
first (single x) = x
first (multiple xs x) = first xs

abbrev pub is_call : ItemTree → Bool
is_call (item_id c) = false
is_call (item_qualified t c) = false
is_call (item_call f) = true

abbrev pub starts_with_call : SelectListTree → Bool
starts_with_call all_columns = false
starts_with_call (column_list xs) = is_call (first xs)

-- The grammar has one conflict: after SELECT, before COUNT, SUM, AVG, MIN or MAX, one may reduce
-- `optional_distinct : empty` or shift the word. With no precedence for either, yacc shifts, so a
-- list that starts with an aggregate is reached after DISTINCT only.
abbrev pub is_shifted : Tree → Bool
is_shifted (select_stmt (select_general distinct columns t j w g h o l)) =
    distinct || not (starts_with_call columns)
is_shifted (select_stmt (select_aggregate f t w g)) = true
is_shifted (create_stmt t cs) = true
is_shifted (insert_stmt t cs vs) = true
is_shifted (delete_stmt t w) = true
is_shifted (update_stmt t xs w) = true
