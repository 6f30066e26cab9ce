-- ===== src/Plan.antt =====
-- sql-engine/planner.py: an AST becomes a logical plan.
pub mod Laws
use sql_parser.Base.{ℕ, String, Bool, true, false, Option, none, some, List, [], ◌∷◌, ◌≡◌}
use sql_parser.Value.{Value}
use sql_parser.Ast.{
  Condition, Func, ColumnItem, Columns, GroupBy, OrderBy, Having, ColumnRef, SelectQuery,
  CountQuery, AggregateQuery, ColumnDef, CreateTableQuery, InsertQuery, DeleteQuery, UpdateQuery,
  Query, plain, column, qualified, aggregate, star, listed, no_group, is_grouped,
}

pub record SelectPlan (F : Type 0) : Type 0 where
  pub columns : Columns
  pub table : String
  pub where_clause : Option (Condition F)
  pub order_by : Option OrderBy
  pub limit : Option ℕ
  pub distinct : Bool
  pub group_by : GroupBy
  pub having : Option (Having F)
  pub join_table : Option String
  pub join_condition : Option (ColumnRef × ColumnRef)
  pub sum_column : Option String
  pub avg_column : Option String
  pub min_column : Option String
  pub max_column : Option String

pub record CountPlan (F : Type 0) : Type 0 where
  pub table : String
  pub where_clause : Option (Condition F)
  pub group_by : GroupBy

-- SumPlan, AvgPlan, MinPlan and MaxPlan have the same fields.
pub record AggregatePlan (F : Type 0) : Type 0 where
  pub col : Option String
  pub table : String
  pub where_clause : Option (Condition F)
  pub group_by : GroupBy

pub record CreateTablePlan : Type 0 where
  pub table_name : String
  pub columns : List ColumnDef

pub record InsertPlan (F : Type 0) : Type 0 where
  pub table_name : String
  pub columns : Option (List String)
  pub values : List (Value F)

pub record DeletePlan (F : Type 0) : Type 0 where
  pub table_name : String
  pub where_clause : Option (Condition F)

pub record UpdatePlan (F : Type 0) : Type 0 where
  pub table_name : String
  pub assignments : List (String × Value F)
  pub where_clause : Option (Condition F)

pub data Plan (F : Type 0) : Type 0 where
  select : SelectPlan F → Plan F
  count : CountPlan F → Plan F
  sum avg min max : AggregatePlan F → Plan F
  create_table : CreateTablePlan → Plan F
  insert : InsertPlan F → Plan F
  delete : DeletePlan F → Plan F
  update : UpdatePlan F → Plan F

-- The column of the last SUM, AVG, MIN and MAX of the list: the loop overwrites them.
pub record AggregateColumns : Type 0 where
  pub sum_column : Option String
  pub avg_column : Option String
  pub min_column : Option String
  pub max_column : Option String

note_column : ColumnItem → AggregateColumns → AggregateColumns
note_column (aggregate Func.sum c) s = record s { sum_column = c }
note_column (aggregate Func.avg c) s = record s { avg_column = c }
note_column (aggregate Func.min c) s = record s { min_column = c }
note_column (aggregate Func.max c) s = record s { max_column = c }
note_column _ s = s

note_columns : List ColumnItem → AggregateColumns → AggregateColumns
unfolding note_column
note_columns [] s = s
note_columns (item ∷ items) s = note_columns items (note_column item s)

abbrev no_columns : AggregateColumns
no_columns = record { sum_column = none; avg_column = none; min_column = none; max_column = none }

aggregate_columns : Columns → AggregateColumns
unfolding note_columns
aggregate_columns star = no_columns
aggregate_columns (listed items) = note_columns items no_columns

module _ {F : Type 0} where
  plan_count : CountQuery F → CountPlan F
  plan_count q = record { table = q.table; where_clause = q.where_clause; group_by = q.group_by }

  -- _plan_sum, _plan_avg, _plan_min, _plan_max
  plan_aggregate : AggregateQuery F → AggregatePlan F
  plan_aggregate q = record {
    col = q.col;
    table = q.table;
    where_clause = q.where_clause;
    group_by = q.group_by;
  }

  select_plan : SelectQuery F → SelectPlan F
  unfolding aggregate_columns
  select_plan q =
      let found = aggregate_columns q.columns in
      record {
        columns = q.columns;
        table = q.table;
        where_clause = q.where_clause;
        order_by = q.order_by;
        limit = q.limit;
        distinct = q.distinct;
        group_by = q.group_by;
        having = q.having;
        join_table = q.join_table;
        join_condition = q.join_condition;
        sum_column = found.sum_column;
        avg_column = found.avg_column;
        min_column = found.min_column;
        max_column = found.max_column;
      }

  -- A lone aggregate with no GROUP BY: the nodes that `type('CountQuery', …)` makes on the spot.
  lone_count : SelectQuery F → CountQuery F
  lone_count q = record { table = q.table; where_clause = q.where_clause; group_by = no_group }

  lone_aggregate : Option String → SelectQuery F → AggregateQuery F
  lone_aggregate c q = record {
    col = c;
    table = q.table;
    where_clause = q.where_clause;
    group_by = no_group;
  }

  plan_lone : Func → Option String → SelectQuery F → Plan F
  unfolding plan_count plan_aggregate select_plan lone_count lone_aggregate
  plan_lone Func.count c q = Plan.count (plan_count (lone_count q))
  plan_lone Func.sum c q = Plan.sum (plan_aggregate (lone_aggregate c q))
  plan_lone Func.avg c q = Plan.avg (plan_aggregate (lone_aggregate c q))
  plan_lone Func.min c q = Plan.min (plan_aggregate (lone_aggregate c q))
  plan_lone Func.max c q = Plan.max (plan_aggregate (lone_aggregate c q))
  plan_lone (Func.other f) c q = Plan.select (select_plan q)

  -- by the columns, and whether there is a GROUP BY
  plan_columns : Columns → Bool → SelectQuery F → Plan F
  unfolding plan_lone
  plan_columns (listed (aggregate f c ∷ [])) false q = plan_lone f c q
  plan_columns _ _ q = Plan.select (select_plan q)

  pub plan_select : SelectQuery F → Plan F
  unfolding plan_columns
  plan_select q = plan_columns q.columns (is_grouped q.group_by) q

  unfoldable pub plan : Query F → Plan F
  unfolding plan_select plan_count plan_aggregate
  plan (Query.select q) = plan_select q
  plan (Query.count q) = Plan.count (plan_count q)
  plan (Query.sum q) = Plan.sum (plan_aggregate q)
  plan (Query.avg q) = Plan.avg (plan_aggregate q)
  plan (Query.min q) = Plan.min (plan_aggregate q)
  plan (Query.max q) = Plan.max (plan_aggregate q)
  plan (Query.create_table q) =
      Plan.create_table (record { table_name = q.table_name; columns = q.columns })
  plan (Query.insert q) =
      Plan.insert (record { table_name = q.table_name; columns = q.columns; values = q.values })
  plan (Query.delete q) =
      Plan.delete (record { table_name = q.table_name; where_clause = q.where_clause })
  plan (Query.update q) = Plan.update (record {
    table_name = q.table_name;
    assignments = q.assignments;
    where_clause = q.where_clause;
  })
