-- ===== src/Parser/Actions.antt =====
-- sql-engine/parser.py: what the p_ functions compute, as functions on parse trees.
use Prim.Native.String.{◌++◌}
use sql_parser.Base.{ℕ, String, Option, none, some, List, [], ◌∷◌, ◌==◌, if◌then◌else◌}
use mathlib.Core.List.{◌++◌ as append}
use sql_parser.Base.Int.{pos, sub_ℕ}
use sql_parser.Value.{Value, int, str}
use sql_parser.Ast
use sql_parser.Ast.{
  Comparator, Func, Condition, ColumnItem, Columns, GroupBy, OrderBy, Direction, Having, ColumnRef,
  ColumnDef, Query,
}
use sql_parser.Parser.Grammar.{
  Chain, single, multiple, ValueTree, value_number, value_negative, value_string, ComparatorTree,
  equals, greater, less, at_least, at_most, ColumnRefTree, unqualified, qualified, SimpleTree,
  simple, NotTree, plain, negated, ConditionTree, AggregateFunc, sum, avg, min, max, CallTree,
  count_star, call, JoinTree, join, DirectionTree, unstated, ascending, descending, ItemTree,
  item_id, item_qualified, item_call, SelectListTree, all_columns, column_list, HavingTree,
  OrderTree, comparison, order_by_ref, order_by_call,
}

-- [p[1]] and p[1] + [p[3]]
unfoldable pub chain_list {ℓ κ} : {A : Type ℓ} {B : Type κ} → (A → B) → Chain A → List B
chain_list f (single x) = f x ∷ []
chain_list f (multiple xs x) = append (chain_list f xs) (f x ∷ [])

abbrev pub map_option {ℓ κ} : {A : Type ℓ} {B : Type κ} → (A → B) → Option A → Option B
map_option f none = none
map_option f (some x) = some (f x)

unfoldable pub value : {F : Type 0} → ValueTree → Value F
value (value_number n) = int (pos n)
value (value_negative n) = int (sub_ℕ 0 n)
value (value_string s) = str s

unfoldable pub comparator : ComparatorTree → Comparator
comparator equals = Comparator.eq
comparator greater = Comparator.gt
comparator less = Comparator.lt
comparator at_least = Comparator.ge
comparator at_most = Comparator.le

-- {'table': t, 'column': c}
unfoldable pub column_ref : ColumnRefTree → ColumnRef
column_ref (unqualified c) = record { table = none; col = c }
column_ref (qualified t c) = record { table = some t; col = c }

-- p[1]['column']
abbrev pub ref_column : ColumnRefTree → String
ref_column c = (column_ref c).col

unfoldable pub simple_condition : {F : Type 0} → SimpleTree → Condition F
unfolding column_ref
simple_condition (simple c op v) = Condition.condition (ref_column c) (comparator op) (value v)

unfoldable pub not_condition : {F : Type 0} → NotTree → Condition F
not_condition (plain c) = simple_condition c
not_condition (negated c) = Condition.not_condition (simple_condition c)

-- LogicalCondition(left=p[1], operator=p[2], right=p[3]) for each production with an operator
unfoldable pub logical {ℓ} :
    {A : Type ℓ} {F : Type 0} → Ast.Connective → (A → Condition F) → Chain A → Condition F
logical op f (single x) = f x
logical op f (multiple xs x) = Condition.logical_condition (logical op f xs) op (f x)

unfoldable pub condition : {F : Type 0} → ConditionTree → Condition F
condition = logical Ast.Connective.or (logical Ast.Connective.and not_condition)

unfoldable pub aggregate_func : AggregateFunc → Func
aggregate_func sum = Func.sum
aggregate_func avg = Func.avg
aggregate_func min = Func.min
aggregate_func max = Func.max

-- the entries 'func' and 'column'
unfoldable pub call_func : CallTree → Func
unfolding aggregate_func
call_func count_star = Func.count
call_func (call f c) = aggregate_func f

unfoldable pub call_column : CallTree → Option String
call_column count_star = none
call_column (call f c) = some c

-- optional_group, a list that is not empty
unfoldable pub group_clause : Option (Chain ColumnRefTree) → GroupBy
unfolding column_ref chain_list
group_clause none = GroupBy.no_group
group_clause (some cs) = GroupBy.many (chain_list ref_column cs)

unfoldable pub having_clause : {F : Type 0} → HavingTree → Having F
having_clause (comparison f op n) = record {
  func = call_func f;
  col = call_column f;
  operator = comparator op;
  threshold = int (pos n);
}

-- An order by an aggregate keeps no direction where none is written; the executor takes 'asc' then.
unfoldable pub direction : DirectionTree → Direction
direction unstated = Direction.asc
direction ascending = Direction.asc
direction descending = Direction.desc

unfoldable pub order_clause : OrderTree → OrderBy
unfolding column_ref
order_clause (order_by_ref c d) = OrderBy.by_column (ref_column c) (direction d)
order_clause (order_by_call f d) = OrderBy.by_aggregate (call_func f) (call_column f) (direction d)

unfoldable pub column_item : ItemTree → ColumnItem
column_item (item_id c) = ColumnItem.column c
column_item (item_qualified t c) = ColumnItem.qualified (t ++ "." ++ c) t c
column_item (item_call f) = ColumnItem.aggregate (call_func f) (call_column f)

unfoldable pub select_list : SelectListTree → Columns
select_list all_columns = Columns.star
select_list (column_list xs) = Columns.listed (chain_list column_item xs)

-- limit_clause = p[11] if p[11] else None
unfoldable pub limit_clause : Option ℕ → Option ℕ
limit_clause none = none
limit_clause (some n) = if n == 0 then none else some n

-- p[6].get('table') and p[6].get('condition')
unfoldable pub join_table : JoinTree → String
join_table (join t l r) = t

unfoldable pub join_condition : JoinTree → ColumnRef × ColumnRef
join_condition (join t l r) = (column_ref l, column_ref r)
