-- ===== src/Plan/Laws.antt =====
-- What the planner keeps of a query, and what a lone aggregate loses.
use sql_parser.Base.{◌≡◌, ◌≢◌, refl, false, Option, String, [], ◌∷◌, true}
use sql_parser.Ast.{
  Func, aggregate, listed, is_grouped, no_group, SelectQuery, AggregateQuery, Query, plain, column,
  qualified, star, Columns,
}
use sql_parser.Plan.{SelectPlan, plan, select_plan, plan_columns, Plan}

module _ {F : Type 0} where
  -- COUNT, SUM, AVG, MIN or MAX of a column of the query's table under its WHERE, and nothing else.
  abbrev bare : Option String → SelectQuery F → AggregateQuery F
  bare c q = record { col = c; table = q.table; where_clause = q.where_clause; group_by = no_group }

  abbrev pub bare_query : Func → Option String → SelectQuery F → Query F
  bare_query Func.count c q =
      Query.count (record { table = q.table; where_clause = q.where_clause; group_by = no_group })
  bare_query Func.sum c q = Query.sum (bare c q)
  bare_query Func.avg c q = Query.avg (bare c q)
  bare_query Func.min c q = Query.min (bare c q)
  bare_query Func.max c q = Query.max (bare c q)
  bare_query (Func.other f) c q = Query.select q

  -- A SELECT of one COUNT, SUM, AVG, MIN or MAX without GROUP BY is planned as the aggregate query
  -- of its table and its WHERE, whatever its JOIN, HAVING, ORDER BY, DISTINCT and LIMIT are.
  pub plan-lone_aggregate :
      (q : SelectQuery F) (f : Func) (c : Option String)
      → q.columns ≡ listed (aggregate f c ∷ [])
      → is_grouped q.group_by ≡ false
      → ((g : String) → f ≢ Func.other g)
      → plan (Query.select q) ≡ plan (bare_query f c q)
  unfolding plan
  plan-lone_aggregate q Func.count c e g known = rw (e, g)
  plan-lone_aggregate q Func.sum c e g known = rw (e, g)
  plan-lone_aggregate q Func.avg c e g known = rw (e, g)
  plan-lone_aggregate q Func.min c e g known = rw (e, g)
  plan-lone_aggregate q Func.max c e g known = rw (e, g)
  plan-lone_aggregate q (Func.other f) c e g known = absurd (known f refl)

  -- The plan has every clause of the query.
  pub record Carries (q : SelectQuery F) (p : SelectPlan F) : Type 0 where
    pub columns : p.columns ≡ q.columns
    pub table : p.table ≡ q.table
    pub where_clause : p.where_clause ≡ q.where_clause
    pub order_by : p.order_by ≡ q.order_by
    pub limit : p.limit ≡ q.limit
    pub distinct : p.distinct ≡ q.distinct
    pub group_by : p.group_by ≡ q.group_by
    pub having : p.having ≡ q.having
    pub join_table : p.join_table ≡ q.join_table
    pub join_condition : p.join_condition ≡ q.join_condition

  plan_columns-grouped :
      (columns : Columns) (q : SelectQuery F)
      → plan_columns columns true q ≡ Plan.select (select_plan q)
  unfolding plan_columns
  plan_columns-grouped star q = refl
  plan_columns-grouped (listed []) q = refl
  plan_columns-grouped (listed (plain s ∷ items)) q = refl
  plan_columns-grouped (listed (column n ∷ items)) q = refl
  plan_columns-grouped (listed (qualified n t c ∷ items)) q = refl
  plan_columns-grouped (listed (aggregate f c ∷ [])) q = refl
  plan_columns-grouped (listed (aggregate f c ∷ i ∷ items)) q = refl

  -- A SELECT with GROUP BY becomes a SELECT plan that has every clause of the query.
  pub plan-grouped :
      (q : SelectQuery F)
      → is_grouped q.group_by ≡ true
      → (p : SelectPlan F) × (plan (Query.select q) ≡ Plan.select p) × Carries q p
  unfolding plan select_plan
  plan-grouped q g = (
    select_plan q,
    rw g (plan_columns-grouped q.columns q),
    record {
      columns = refl;
      table = refl;
      where_clause = refl;
      order_by = refl;
      limit = refl;
      distinct = refl;
      group_by = refl;
      having = refl;
      join_table = refl;
      join_condition = refl;
    },
  )
