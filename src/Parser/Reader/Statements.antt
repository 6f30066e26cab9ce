-- ===== src/Parser/Reader/Statements.antt =====
-- Reading the other statements, and a whole query.
use sql_parser.Base.{
  ◌<◌, ◌≤◌, String, Bool, true, false, ◌≡◌, refl, ap, ◌∙◌, Option, none, some, List, [], ◌∷◌,
  length, arith,
}
use sql_parser.Token.{
  from_, create_, table_, int_, float_, bool_, varchar_, into_, values_, insert_, delete_, update_,
  set_, Token, keyword, id, number, lparen, rparen, comma,
}
use sql_parser.Parser.Grammar.{
  Chain, ConditionTree, Constraint, nullable, not_null, primary_key, ColumnDefTree, int_column,
  float_column, bool_column, varchar_column, AssignmentTree, assignment, Tree, select_stmt,
  create_stmt, insert_stmt, delete_stmt, update_stmt, is_shifted, select_general, select_aggregate,
}
use sql_parser.Parser.Yield.{
  optional_tokens, value_tokens, where_tokens, not_null_tokens, constraint_tokens,
  column_def_tokens, name_tokens, assignment_tokens, names_tokens, tokens, select_tokens,
}
use sql_parser.Parser.Reader.{
  Reader, ◌>>=◌, ◌>>◌, pure, skip, expect, type_rank, rank, skip_above, >>=-some,
}
use sql_parser.Parser.Reader.Chains.{read_chain, read_chain-tokens}
use sql_parser.Parser.Reader.Optional.{optional, optional-tokens, rank-optional}
use sql_parser.Parser.Reader.Parts.{read_id, read_value, read_condition, value-tokens, value_grows}
use sql_parser.Parser.Reader.Clauses.{where-tokens}
use sql_parser.Parser.Reader.Select.{read_select, select-tokens}

read_constraint : Reader Constraint
unfolding skip expect
read_constraint = do
  n ← skip "NOT"
  elim n as (λ _. Reader Constraint) [
    | true ↦ do expect "NULL"; pure not_null
    | false ↦ do
      p ← skip "PRIMARY"
      elim p as (λ _. Reader Constraint) [
        | true ↦ do expect "KEY"; pure primary_key
        | false ↦ pure nullable
      ]
  ]

read_not_null : Reader Bool
unfolding skip expect
read_not_null = do
  n ← skip "NOT"
  elim n as (λ _. Reader Bool) [ true ↦ do expect "NULL"; pure true | false ↦ pure false ]

read_column_def : Reader ColumnDefTree
unfolding read_constraint read_not_null
read_column_def (id c ∷ keyword int_ ∷ k) = (read_constraint >>= λ x. pure (int_column c x)) k
read_column_def (id c ∷ keyword float_ ∷ k) = (read_not_null >>= λ b. pure (float_column c b)) k
read_column_def (id c ∷ keyword bool_ ∷ k) = (read_not_null >>= λ b. pure (bool_column c b)) k
read_column_def (id c ∷ keyword varchar_ ∷ lparen ∷ number n ∷ rparen ∷ k) =
    (read_constraint >>= λ x. pure (varchar_column c n x)) k
read_column_def ts = none

read_assignment : Reader AssignmentTree
unfolding read_id expect read_value
read_assignment = do c ← read_id; expect "EQUAL"; v ← read_value; pure (assignment c v)

-- LPAREN column_name_list RPAREN
read_names : Reader (Chain String)
unfolding read_id expect
read_names = do cs ← read_chain comma read_id; expect "RPAREN"; pure cs

read_statement : Reader Tree
unfolding read_select read_column_def read_assignment read_names optional expect read_value
read_statement (keyword create_ ∷ keyword table_ ∷ id t ∷ lparen ∷ ts) =
    (do cs ← read_chain comma read_column_def; expect "RPAREN"; pure (create_stmt t cs)) ts
read_statement (keyword insert_ ∷ keyword into_ ∷ id t ∷ ts) =
    (do
      cs ← optional "LPAREN" read_names
      expect "VALUES"
      expect "LPAREN"
      vs ← read_chain comma read_value
      expect "RPAREN"
      pure (insert_stmt t cs vs))
      ts
read_statement (keyword delete_ ∷ keyword from_ ∷ id t ∷ ts) =
    (optional "WHERE" read_condition >>= λ w. pure (delete_stmt t w)) ts
read_statement (keyword update_ ∷ id t ∷ keyword set_ ∷ ts) =
    (do
      xs ← read_chain comma read_assignment
      w ← optional "WHERE" read_condition
      pure (update_stmt t xs w))
      ts
read_statement ts = (read_select >>= λ s. pure (select_stmt s)) ts

-- A query, with nothing after it.
unfoldable pub read_query : List Token → Option Tree
unfolding read_statement
read_query ts = elim (read_statement ts) [
  | some (t, []) ↦ some t
  | some (t, k ∷ ks) ↦ none
  | none ↦ none
]

constraint-tokens :
    (x : Constraint) (k : List Token)
    → 0 < rank k
    → read_constraint (constraint_tokens x k) ≡ some (x, k)
unfolding read_constraint constraint_tokens type_rank
constraint-tokens nullable k h =
    >>=-some _ (skip_above "NOT" k h) ∙ >>=-some _ (skip_above "PRIMARY" k h)
constraint-tokens not_null k h = refl
constraint-tokens primary_key k h = refl

not_null-tokens :
    (b : Bool) (k : List Token) → 0 < rank k → read_not_null (not_null_tokens b k) ≡ some (b, k)
unfolding read_not_null type_rank
not_null-tokens false k h = >>=-some _ (skip_above "NOT" k h)
not_null-tokens true k h = refl

column_def-tokens :
    (c : ColumnDefTree) (k : List Token)
    → 0 < rank k
    → read_column_def (column_def_tokens c k) ≡ some (c, k)
unfolding read_column_def column_def_tokens
column_def-tokens (int_column c x) k h = >>=-some _ (constraint-tokens x k h)
column_def-tokens (float_column c b) k h = >>=-some _ (not_null-tokens b k h)
column_def-tokens (bool_column c b) k h = >>=-some _ (not_null-tokens b k h)
column_def-tokens (varchar_column c n x) k h = >>=-some _ (constraint-tokens x k h)

column_def_grows : (c : ColumnDefTree) (k : List Token) → length k ≤ length (column_def_tokens c k)
unfolding column_def_tokens constraint_tokens
column_def_grows c k = ground arith

assignment-tokens :
    (x : AssignmentTree) (k : List Token)
    → 0 < rank k
    → read_assignment (assignment_tokens x k) ≡ some (x, k)
unfolding read_assignment assignment_tokens
assignment-tokens (assignment c v) k h = >>=-some _ (value-tokens v k h)

assignment_grows : (x : AssignmentTree) (k : List Token) → length k ≤ length (assignment_tokens x k)
unfolding assignment_tokens
assignment_grows (assignment c v) k = omega (arith, value_grows v k)

names-tokens :
    (cs : Chain String) (k : List Token)
    → optional "LPAREN" read_names (names_tokens cs k) ≡ some (some cs, k)
unfolding optional read_names type_rank skip
names-tokens cs k = >>=-some _ (
    >>=-some _ (
      read_chain-tokens comma read_id name_tokens 0 (λ c j h. refl) (omega arith)
        (λ c j. omega arith) cs (rparen ∷ k) (omega arith)))

optional_names-tokens :
    (o : Option (Chain String)) (k : List Token)
    → optional "LPAREN" read_names (optional_tokens names_tokens o (keyword values_ ∷ k))
      ≡ some (o, keyword values_ ∷ k)
unfolding optional_tokens optional skip
optional_names-tokens none k = refl
optional_names-tokens (some cs) k = names-tokens cs (keyword values_ ∷ k)

query-where :
    (w : Option ConditionTree) (k : List Token)
    → 8 < rank k
    → optional "WHERE" read_condition (optional_tokens where_tokens w k) ≡ some (w, k)
unfolding type_rank
query-where w k h =
    optional-tokens "WHERE" read_condition where_tokens where-tokens w k (omega arith)

statement-tokens :
    (t : Tree) (k : List Token)
    → is_shifted t ≡ true
    → 8 < rank k
    → read_statement (tokens t k) ≡ some (t, k)
unfolding read_statement tokens type_rank select_tokens
statement-tokens (select_stmt (select_general d columns t j w g x o n)) k h end =
    >>=-some _ (select-tokens (select_general d columns t j w g x o n) k h end)
statement-tokens (select_stmt (select_aggregate f t w g)) k h end =
    >>=-some _ (select-tokens (select_aggregate f t w g) k h end)
statement-tokens (create_stmt t cs) k h end = >>=-some _ (
    read_chain-tokens comma read_column_def column_def_tokens 0 column_def-tokens (omega arith)
      column_def_grows cs (rparen ∷ k) (omega arith))
statement-tokens (insert_stmt t cs vs) k h end =
    >>=-some _ (optional_names-tokens cs _)
    ∙ >>=-some _ (
        read_chain-tokens comma read_value value_tokens 0 value-tokens (omega arith) value_grows vs
          (rparen ∷ k) (omega arith))
statement-tokens (delete_stmt t w) k h end = >>=-some _ (query-where w k end)
statement-tokens (update_stmt t xs w) k h end =
    >>=-some _ (
      read_chain-tokens comma read_assignment assignment_tokens 0 assignment-tokens (omega arith)
        assignment_grows xs (optional_tokens where_tokens w k)
        (rank-optional where_tokens 4 (λ x j. refl) w k (omega arith) (omega arith)))
    ∙ >>=-some _ (query-where w k end)

-- The reader finds every tree that the shifts allow.
pub read_query-tokens : (t : Tree) → is_shifted t ≡ true → read_query (tokens t []) ≡ some t
unfolding read_query
read_query-tokens t h =
    ap
      (λ (o : Option (Tree × List Token)). elim o as (λ _. Option Tree) [
        | some (u, []) ↦ some u
        | some (u, k ∷ ks) ↦ none
        | none ↦ none
      ])
      (statement-tokens t [] h (omega arith))
