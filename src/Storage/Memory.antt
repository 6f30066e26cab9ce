-- ===== src/Storage/Memory.antt =====
-- sql-engine/storage_memory.py: MemoryStorage.
use sql_parser.Base.{String, none, some, [], ◌∷◌}
use sql_parser.Base.Dict.{Dict, get}
use sql_parser.Base.Exec.{Exec}
use sql_parser.Base.Result.{ok, raised, table_not_found, attribute_error}
use sql_parser.Value.{Runtime}
use sql_parser.Table.{Rows, Table}
use sql_parser.Storage.{Storage}

module _ ⦃rt : Runtime⦄ where
  -- __init__: {name: Table(name, rows) for name, rows in database.items()}
  unfoldable pub init : Dict Rows → Dict Table
  init [] = []
  init ((name, rows) ∷ d) = (name, record { name = name; rows = rows }) ∷ init d

  unfoldable pub load_table : String → Exec (Dict Table) Table
  load_table table db =
      (elim (get table db) [ none ↦ raised (table_not_found table) | some t ↦ ok t ], db)

  -- The class has no other method: a call of one is an AttributeError.
  unfoldable pub storage : Storage (Dict Table)
  unfolding load_table
  storage = record {
    load_table = load_table;
    create_table = λ table cols db. (raised attribute_error, db);
    insert_row = λ table cols vs db. (raised attribute_error, db);
    delete_rows = λ table cond db. (raised attribute_error, db);
    update_rows = λ table assignments cond db. (raised attribute_error, db);
  }
