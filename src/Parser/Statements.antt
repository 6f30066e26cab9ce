-- ===== src/Parser/Statements.antt =====
-- sql-engine/parser.py: the p_ functions of the statements, which build a query out of the parts.
use sql_parser.Base.{ℕ, String, true, false, some, if◌then◌else◌}
use sql_parser.Ast
use sql_parser.Ast.{ColumnDef, Query}
use sql_parser.Value.{Value}
use sql_parser.Parser.Grammar.{
  AggregateFunc, sum, avg, min, max, count_star, call, SelectTree, select_general, select_aggregate,
  Constraint, nullable, not_null, primary_key, ColumnDefTree, int_column, float_column, bool_column,
  varchar_column, AssignmentTree, assignment, Tree, select_stmt, create_stmt, insert_stmt,
  delete_stmt, update_stmt,
}
use sql_parser.Parser.Actions.{
  chain_list, value, condition, group_clause, having_clause, order_clause, select_list,
  limit_clause, join_table, join_condition, map_option,
}

-- SumQuery, AvgQuery, MinQuery or MaxQuery
abbrev aggregate_query : {F : Type 0} → AggregateFunc → Ast.AggregateQuery F → Query F
aggregate_query sum q = Query.sum q
aggregate_query avg q = Query.avg q
aggregate_query min q = Query.min q
aggregate_query max q = Query.max q

-- p_select_stmt, and p_select_stmt_count, _sum, _avg, _min and _max
unfoldable pub select_query : {F : Type 0} → SelectTree → Query F
unfolding limit_clause
select_query (select_general distinct columns t j w g h o n) = Query.select (record {
  columns = select_list columns;
  table = t;
  where_clause = map_option condition w;
  order_by = map_option order_clause o;
  limit = limit_clause n;
  distinct = distinct;
  group_by = group_clause g;
  having = map_option having_clause h;
  join_table = map_option join_table j;
  join_condition = map_option join_condition j;
})
select_query (select_aggregate count_star t w g) =
    Query.count
      (record { table = t; where_clause = map_option condition w; group_by = group_clause g })
select_query (select_aggregate (call f c) t w g) = aggregate_query f (record {
  col = some c;
  table = t;
  where_clause = map_option condition w;
  group_by = group_clause g;
})

-- A column definition with what its constraint sets; `nullable` and `primary_key` have the defaults
-- True and False.
abbrev constrained : Constraint → String → String → ℕ → ColumnDef
constrained nullable c t n = record {
  name = c;
  col_type = t;
  max_size = n;
  nullable = true;
  primary_key = false;
}
constrained not_null c t n = record {
  name = c;
  col_type = t;
  max_size = n;
  nullable = false;
  primary_key = false;
}
constrained primary_key c t n = record {
  name = c;
  col_type = t;
  max_size = n;
  nullable = false;
  primary_key = true;
}

-- ColumnDef(name, col_type, max_size, nullable=..., primary_key=...)
unfoldable pub column_def : ColumnDefTree → ColumnDef
column_def (int_column c x) = constrained x c "INT" 4
column_def (float_column c b) = constrained (if b then not_null else nullable) c "FLOAT" 4
column_def (bool_column c b) = constrained (if b then not_null else nullable) c "BOOL" 1
column_def (varchar_column c n x) = constrained x c "VARCHAR" n

-- (p[1], p[3])
unfoldable pub assigned : {F : Type 0} → AssignmentTree → String × Value F
assigned (assignment c v) = (c, value v)

-- p_query, p_create_stmt, p_insert_stmt, p_delete_stmt, p_update_stmt
unfoldable pub query : {F : Type 0} → Tree → Query F
query (select_stmt s) = select_query s
query (create_stmt t cs) =
    Query.create_table (record { table_name = t; columns = chain_list column_def cs })
query (insert_stmt t cs vs) = Query.insert (record {
  table_name = t;
  columns = map_option (chain_list (λ c. c)) cs;
  values = chain_list value vs;
})
query (delete_stmt t w) =
    Query.delete (record { table_name = t; where_clause = map_option condition w })
query (update_stmt t xs w) = Query.update (record {
  table_name = t;
  assignments = chain_list assigned xs;
  where_clause = map_option condition w;
})
