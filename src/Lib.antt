-- ===== src/Lib.antt =====
-- minidbms: the SQL engine of this repository (sql-engine), from the text of a query to the
-- result rows, and the client that talks to the storage server.
--
-- The lexer and the parser make an AST of a text, the planner turns an AST into a plan,
-- QueryExecutor runs the plan on a storage object, and a storage object is the tables in memory
-- or the client of the C server.
--
-- Token, Lexer: sql-engine/lexer.py. `scan` is one round of the lexer that PLY builds out of the
--   rules, and `tokenize` all rounds. Lexer/Lexeme says how tokens may be written.
-- Parser: sql-engine/parser.py. Parser/Grammar has a parse tree for each production,
--   Parser/Yield the tokens of a tree, Parser/Actions and Parser/Statements what the p_
--   functions make of it. Parser/Reader is a reader of the grammar, which only the proofs use.
-- Ast: sql-engine/ast_nodes.py. One record or data type for each node class. SumQuery, AvgQuery,
--   MinQuery and MaxQuery have the same fields and share AggregateQuery. The dicts that the
--   parser makes for columns, ORDER BY and HAVING are data types with one constructor for each
--   shape.
-- sql-engine/planner.py is the module Plan: QueryPlanner is its functions, under the names of
--   the methods without the leading underscore.
-- Table, Storage, Storage/Memory: sql-engine/table.py and storage_memory.py. A row is a dict
--   with text keys in insertion order. `Storage` is what the executor calls of a storage object,
--   over the state behind it.
-- Executor: sql-engine/executor.py. Filter is _evaluate_condition, Join is _apply_join, Group
--   and Grouping are _apply_group_by, Aggregate the sums and extrema, Distinct, Order, Having
--   and Projection the methods of those names; Totals the aggregate queries on rows, and
--   Executor itself the _execute_ methods and `execute`. Executor/InMemory is about plans run on MemoryStorage.
-- Storage/Bytes, Storage/Row: _serialize_row and _deserialize_row of
--   sql-engine/storage_server.py.
-- Storage/Text, Storage/Protocol: _recv_line, _recv_bytes and _read_response of the same file; Wire
--   has the first two, Columns and Trace the items of a response, Protocol its loop.
-- Storage/Where, Storage/Server: _evaluate_condition, serialize_condition and the public methods
--   of ServerStorage.
-- Storage/Disk: sql-engine/storage_disk.py; the subprocess is a parameter.
-- Console: the loop of sql-engine/main.py.
-- Dashboard: sql-engine/ui.py. Grid is format_table, Pages format_table_paginated, and Dashboard
--   itself the screens and the keys; Dashboard/AstPrinter is sql-engine/ast_printer.py.
-- Adapter: gui-app/app/adapters/sql_engine_adapter.py, which runs a query on the server storage
--   between two PINGs and reports the difference of the counters.
-- Telemetry: gui-app/app/services/telemetry_history_service.py, and the models that it keeps.
-- Inspector: gui-app/app/widgets/cache_inspector_frame.py. Panels is what is shown of an event,
--   Handlers the methods that widgets and the timer call; Shown and Agreement say when the widgets
--   agree with the state, and Playback what a session is.
-- Benchmark: gui-app/app/services/benchmark_service.py, over the services that it calls, which are
--   `Services`; Benchmark/Summary is summarize_by_policy.
-- Server: gui-app/app/services/server_service.py, over the operating system, which is `System`.
-- Controller: gui-app/app/controllers/app_controller.py, which joins Benchmark, Telemetry and the
--   services of a query.
-- Sweep: gui-app/app/widgets/benchmark_sweep_frame.py; Sweep/Worker is the sweep of
--   gui-app/app/views/main_window.py, which runs the controller's benchmark for each size.
-- Value, Base: Python's values with their order and equality, dicts, exceptions as values
--   (`Result`), and calls on a state that may raise (`Exec`).
-- Tests: the definitions and the theorems at small inputs.
--
-- Parameters. PLY's parser is `Yacc`: it accepts the tokens of every parse tree, with its one
-- conflict resolved by a shift, and gives a tree with these tokens. `Unicode` has the digits
-- that \d matches. `Runtime` has what Python and its C library do with floats, UTF-8, repr and
-- the reading of numbers, with the laws that are documented: `<` on numbers is asymmetric and
-- transitive, and decoding undoes encoding. The C server is an argument of Storage/Server: the
-- bytes it answers to the bytes of one connection, with a state of its own.
--
-- Fuel. The lexer has a round for each character and one more, and a round takes a character at
-- least. The digits of a number n are computed on fuel n + 1, more than its digits. The reading
-- loop of _read_response has fuel for the bytes of the answer, and each turn takes at least one
-- of them. The wait for a new server has fuel for its rounds, of which 35 are enough where a pause
-- of 150 ms takes its time.
--
-- Bounds. INT columns are two's complement in 32 bits, text lengths have 16 bits, and a size
-- that does not fit raises struct.error as in Python. Python's integers are unbounded. A
-- column's max_size and a row's size are not negative here.
--
-- Python's sorted is an insertion sort, the one stable outcome where `<` orders the keys up to
-- ties; the order that it leaves with NaN among the keys is not modelled. sum() adds one value
-- after another, without the compensation for floats of Python 3.12.
--
-- Not modelled: the recovery of PLY after a syntax error, messages and line numbers, the colours
-- and the layout of the dashboard and of the GUI's widgets, the data generator, the plots, the files
-- of results and the other handlers of the GUI's window,
-- and the C code.
pub mod Base
pub mod Value
pub mod Ast
pub mod Plan
pub mod Table
pub mod Storage
pub mod Executor
pub mod Console
pub mod Dashboard
pub mod Inspector
pub mod Benchmark
pub mod Server
pub mod Controller
pub mod Sweep
pub mod Telemetry
pub mod Adapter
mod Tests
pub mod Token
pub mod Lexer
pub mod Parser
