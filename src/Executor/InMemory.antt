-- ===== src/Executor/InMemory.antt =====
-- Plans run on MemoryStorage.
use sql_parser.Base.{String, ◌≡◌, refl, ap, sym, ◌∙◌, Option, none, some, length}
use sql_parser.Base.Dict.{Dict, get}
use sql_parser.Base.Exec.{Exec, ◌>>=◌, >>=-eq-ok, >>=-ok, continue, lift}
use sql_parser.Base.Result.{Result, ok, raised, table_not_found}
use sql_parser.Value.{Runtime}
use sql_parser.Ast.{Condition, ColumnRef}
use sql_parser.Plan.{Plan, SelectPlan, CountPlan}
use sql_parser.Table.{Rows, Table}
use sql_parser.Storage.Memory.{load_table, storage}
use sql_parser.Executor.Filter.{filter_rows}
use sql_parser.Executor.Grouping.{named}
use sql_parser.Executor.{
  get_filtered_rows, load_rows, execute_select, execute_count, execute_sum, execute_avg,
  execute_min, execute_max, execute, finish_select,
}
use sql_parser.Executor.Totals.{sum_rows, avg_rows, min_rows, max_rows, count_rows}
use sql_parser.Executor.Laws.{count_total, count_rows-total}
use mathlib.Core.Path.{subst}

-- The table that a plan reads, or reads first.
abbrev pub table_read : {F : Type 0} → Plan F → Option String
table_read (Plan.select p) = some p.table
table_read (Plan.count p) = some p.table
table_read (Plan.sum p) = some p.table
table_read (Plan.avg p) = some p.table
table_read (Plan.min p) = some p.table
table_read (Plan.max p) = some p.table
table_read _ = none

module _ ⦃rt : Runtime⦄ where
  open rt use {Float}

  -- A sequence whose first part raises.
  >>=-raised :
      {S A B : Type 0} (m : Exec S A) (f : A → Exec S B) (s s' : S) {e : _}
      → m s ≡ (raised e, s')
      → (m >>= f) s ≡ (raised e, s')
  >>=-raised m f s s' h = ap (λ p. continue p.0 f p.1) h

  load_table-missing :
      (table : String) (db : Dict Table)
      → get table db ≡ none
      → load_table table db ≡ (raised (table_not_found table), db)
  unfolding load_table
  load_table-missing table db h = rw (load_table, h) refl

  load_table-found :
      (table : String) (db : Dict Table) (t : Table)
      → get table db ≡ some t
      → load_table table db ≡ (ok t, db)
  unfolding load_table
  load_table-found table db t h = rw (load_table, h) refl

  get_filtered_rows-missing :
      (table : String) (cond : Option (Condition Float)) (db : Dict Table)
      → get table db ≡ none
      → get_filtered_rows storage table cond db ≡ (raised (table_not_found table), db)
  unfolding get_filtered_rows storage
  get_filtered_rows-missing table cond db h =
      >>=-raised (load_table table) _ db db (load_table-missing table db h)

  get_filtered_rows-found :
      (table : String) (cond : Option (Condition Float)) (db : Dict Table) (t : Table)
      → get table db ≡ some t
      → get_filtered_rows storage table cond db ≡ (filter_rows t.rows cond table, db)
  unfolding get_filtered_rows storage
  get_filtered_rows-found table cond db t h =
      >>=-ok _ (load_table table) db db t (load_table-found table db t h)

  -- A plan that reads its rows first.
  after_missing :
      (table : String) (cond : Option (Condition Float)) (f : Rows → Exec (Dict Table) Rows)
      (db : Dict Table)
      → get table db ≡ none
      → (get_filtered_rows storage table cond >>= f) db ≡ (raised (table_not_found table), db)
  after_missing table cond f db h =
      >>=-raised (get_filtered_rows storage table cond) f db db
        (get_filtered_rows-missing table cond db h)

  load_rows-missing :
      (other : Option String) (on : Option (ColumnRef × ColumnRef)) (plan : SelectPlan Float)
      (db : Dict Table)
      → get plan.table db ≡ none
      → load_rows storage other on plan db ≡ (raised (table_not_found plan.table), db)
  unfolding load_rows
  load_rows-missing (some other) (some on) plan db h =
      >>=-raised (get_filtered_rows storage plan.table none) _ db db
        (get_filtered_rows-missing plan.table none db h)
  load_rows-missing (some other) none plan db h =
      get_filtered_rows-missing plan.table plan.where_clause db h
  load_rows-missing none on plan db h = get_filtered_rows-missing plan.table plan.where_clause db h

  -- The error names the plan's own table.
  renamed :
      (p_table table : String) (db : Dict Table) (out : Result Rows × Dict Table)
      → some p_table ≡ some table
      → get table db ≡ none
      → (get p_table db ≡ none → out ≡ (raised (table_not_found p_table), db))
      → out ≡ (raised (table_not_found table), db)
  renamed p_table table db out e h k =
      let same : p_table ≡ table = cc in
      subst (λ t. out ≡ (raised (table_not_found t), db)) same (k (rw same h))

  -- Each of the plans that read, run on MemoryStorage with a database that lacks the plan's table,
  -- raises the error that the table is not found, and leaves the database as it was.
  pub execute-missing :
      (plan : Plan Float) (table : String) (db : Dict Table)
      → table_read plan ≡ some table
      → get table db ≡ none
      → execute storage plan db ≡ (raised (table_not_found table), db)
  unfolding execute execute_select execute_count execute_sum execute_avg execute_min execute_max
  execute-missing (Plan.select p) table db e h = renamed p.table table db _ e h λ h'.
      >>=-raised (load_rows storage (named p.join_table) p.join_condition p)
        (λ rows. lift (finish_select p rows)) db db
        (load_rows-missing (named p.join_table) p.join_condition p db h')
  execute-missing (Plan.count p) table db e h =
      renamed p.table table db _ e h (
        after_missing p.table p.where_clause (λ rows. lift (count_rows p.group_by p.table rows)) db)
  execute-missing (Plan.sum p) table db e h =
      renamed p.table table db _ e h
        (after_missing p.table p.where_clause (λ rows. lift (sum_rows p rows)) db)
  execute-missing (Plan.avg p) table db e h =
      renamed p.table table db _ e h
        (after_missing p.table p.where_clause (λ rows. lift (avg_rows p rows)) db)
  execute-missing (Plan.min p) table db e h =
      renamed p.table table db _ e h
        (after_missing p.table p.where_clause (λ rows. lift (min_rows p rows)) db)
  execute-missing (Plan.max p) table db e h =
      renamed p.table table db _ e h
        (after_missing p.table p.where_clause (λ rows. lift (max_rows p rows)) db)
  execute-missing (Plan.create_table p) table db e h = cc
  execute-missing (Plan.insert p) table db e h = cc
  execute-missing (Plan.delete p) table db e h = cc
  execute-missing (Plan.update p) table db e h = cc

  -- COUNT, run on MemoryStorage with a database that has the plan's table: where it succeeds, WHERE
  -- has a value on each row of the table, the counts of the result add up to the number of rows that it
  -- keeps, and the database is as it was.
  pub execute_count-total :
      (p : CountPlan Float) (t : Table) (db db' : Dict Table) (out : Rows)
      → get p.table db ≡ some t
      → execute storage (Plan.count p) db ≡ (ok out, db')
      → (kept : Rows) × (filter_rows t.rows p.where_clause p.table ≡ ok kept)
        × (count_total out ≡ length kept)
        × (db' ≡ db)
  unfolding execute execute_count
  execute_count-total p t db db' out h e =
      let (rows, s₁, e₁, e₂) =
        >>=-eq-ok _ (get_filtered_rows storage p.table p.where_clause) db e in
      let filtered : (filter_rows t.rows p.where_clause p.table, db) ≡ (ok rows, s₁) =
        sym (get_filtered_rows-found p.table p.where_clause db t h) ∙ e₁ in
      (
        rows,
        ap (λ (q : Result Rows × Dict Table). q.0) filtered,
        count_rows-total p.group_by p.table rows out
            (ap (λ (q : Result Rows × Dict Table). q.0) e₂),
        sym (ap (λ (q : Result Rows × Dict Table). q.1) e₂)
            ∙ sym (ap (λ (q : Result Rows × Dict Table). q.1) filtered),
      )
