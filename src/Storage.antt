-- ===== src/Storage.antt =====
-- What QueryExecutor calls of the storage object that it is given.
pub mod Memory
pub mod Disk
pub mod Bytes
pub mod Row
pub mod Text
pub mod Protocol
pub mod Where
pub mod Server
use sql_parser.Base.{ℕ, String, Option, List}
use sql_parser.Base.Int.{ℤ}
use sql_parser.Base.Exec.{Exec}
use sql_parser.Value.{Runtime, Val}
use sql_parser.Ast.{Condition, ColumnDef}
use sql_parser.Table.{Table}

-- A storage over a state `S`: the tables in memory, or the server behind a socket.
pub record Storage ⦃rt : Runtime⦄ (S : Type 0) : Type 0 where
  pub load_table : String → Exec S Table
  pub create_table : String → List ColumnDef → Exec S (Unit {0})
  pub insert_row : String → Option (List String) → List Val → Exec S ℤ
  pub delete_rows : String → Option (Condition rt.Float) → Exec S ℤ
  pub update_rows : String → List (String × Val) → Option (Condition rt.Float) → Exec S ℕ
