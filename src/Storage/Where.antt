-- ===== src/Storage/Where.antt =====
-- WHERE in sql-engine/storage_server.py: _evaluate_condition, which update_rows filters with, and
-- serialize_condition of delete_rows.
pub mod Laws
use Prim.Native.String
use sql_parser.Base.{String, Bool, true, false, not, ◌&&◌, ◌||◌, Option, none, some}
use sql_parser.Base.Dict.{get_or}
use sql_parser.Base.Result.{Result, ok, ◌>>=◌}
use sql_parser.Value.{
  Runtime, Value, Val, null, bool, int, float, str, py_eq, py_lt, py_le, py_str, is_none,
}
use sql_parser.Ast.{
  Comparator, eq, gt, lt, ge, le, Connective, and, or, Condition, condition, logical_condition,
  not_condition,
}
use sql_parser.Table.{Row}

module _ ⦃rt : Runtime⦄ where
  open rt use {Float}

  -- `val is not None and …`
  abbrev pub unless_none : Val → Result Bool → Result Bool
  unless_none null r = ok false
  unless_none _ r = r

  -- the chain of tests on op; any other operator gives False
  unfoldable pub test_value : Comparator → Val → Val → Result Bool
  test_value eq val cval = ok (py_eq val cval)
  test_value gt val cval = unless_none val (py_lt cval val)
  test_value lt val cval = unless_none val (py_lt val cval)
  test_value ge val cval = unless_none val (py_le cval val)
  test_value le val cval = unless_none val (py_le val cval)
  test_value (Comparator.other op) val cval = ok false

  unfoldable pub join_tests : Connective → Bool → Bool → Bool
  join_tests and a b = a && b
  join_tests or a b = a || b
  join_tests (Connective.other op) a b = false

  unfoldable pub row_matches : Row → Condition Float → Result Bool
  unfolding test_value join_tests
  row_matches row (condition c op cval) = test_value op (get_or c null row) cval
  row_matches row (logical_condition l op r) = do
    a ← row_matches row l
    b ← row_matches row r
    ok (join_tests op a b)
  row_matches row (not_condition c) = row_matches row c >>= λ b. ok (not b)

  -- repr(cond.value)
  unfoldable pub py_repr : Val → String
  py_repr (str s) = rt.repr_text s
  py_repr v = py_str v

  abbrev pub operator_text : Comparator → String
  operator_text eq = "="
  operator_text gt = ">"
  operator_text lt = "<"
  operator_text ge = ">="
  operator_text le = "<="
  operator_text (Comparator.other op) = op

  -- cond.operator.upper(), for the operators that the parser gives
  abbrev pub connective_text : Connective → String
  connective_text and = "AND"
  connective_text or = "OR"
  connective_text (Connective.other op) = op

  infixl 65 ◌⧺◌
  abbrev ◌⧺◌ : String → String → String
  s ⧺ t = Prim.Native.String.◌++◌ s t

  unfoldable pub serialize_condition : Condition Float → String
  unfolding py_repr
  serialize_condition (condition c op v) = c ⧺ " " ⧺ operator_text op ⧺ " " ⧺ py_repr v
  serialize_condition (logical_condition l op r) =
      "(" ⧺ serialize_condition l ⧺ ") " ⧺ connective_text op ⧺ " (" ⧺ serialize_condition r ⧺ ")"
  serialize_condition (not_condition c) = "NOT (" ⧺ serialize_condition c ⧺ ")"
