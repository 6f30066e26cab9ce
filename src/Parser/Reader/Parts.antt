-- ===== src/Parser/Reader/Parts.antt =====
-- Reading values, column references, conditions and aggregates.
use sql_parser.Base.{
  ℕ, ◌<◌, ◌≤◌, String, true, false, ◌≡◌, refl, ◌∙◌, none, some, List, ◌∷◌, if◌then◌else◌, length,
  arith,
}
use sql_parser.Token.{
  sum_, avg_, min_, max_, and_, or_, Token, keyword, id, number, string, minus, equal, ge, le, gt,
  lt, token_type,
}
use sql_parser.Parser.Grammar.{
  ValueTree, value_number, value_negative, value_string, ComparatorTree, equals, greater, less,
  at_least, at_most, ColumnRefTree, unqualified, qualified, SimpleTree, simple, NotTree, plain,
  negated, ConditionTree, AggregateFunc, sum, avg, min, max, CallTree, count_star, call,
}
use sql_parser.Parser.Yield.{
  chain_tokens, value_tokens, comparator_token, ref_tokens, simple_tokens, not_tokens,
  condition_tokens, call_tokens,
}
use sql_parser.Parser.Reader.{
  Reader, pure, skip, expect, type_rank, rank, skip_above, >>=-some, ◌>>=◌, ◌>>◌,
}
use sql_parser.Parser.Reader.Chains.{read_chain, chain_grows, read_chain-tokens}

unfoldable pub read_id : Reader String
read_id (id s ∷ k) = some (s, k)
read_id ts = none

unfoldable pub read_number : Reader ℕ
read_number (number n ∷ k) = some (n, k)
read_number ts = none

unfoldable pub read_value : Reader ValueTree
read_value (number n ∷ k) = some (value_number n, k)
read_value (minus ∷ number n ∷ k) = some (value_negative n, k)
read_value (string s ∷ k) = some (value_string s, k)
read_value ts = none

unfoldable pub read_comparator : Reader ComparatorTree
read_comparator (equal ∷ k) = some (equals, k)
read_comparator (gt ∷ k) = some (greater, k)
read_comparator (lt ∷ k) = some (less, k)
read_comparator (ge ∷ k) = some (at_least, k)
read_comparator (le ∷ k) = some (at_most, k)
read_comparator ts = none

unfoldable pub read_ref : Reader ColumnRefTree
unfolding read_id skip
read_ref = do
  t ← read_id
  d ← skip "DOT"
  elim d as (λ _. Reader ColumnRefTree) [
    | true ↦ read_id >>= λ c. pure (qualified t c)
    | false ↦ pure (unqualified t)
  ]

unfoldable pub read_simple : Reader SimpleTree
unfolding read_comparator read_value
read_simple = do c ← read_ref; op ← read_comparator; v ← read_value; pure (simple c op v)

unfoldable pub read_not : Reader NotTree
unfolding skip
read_not = do n ← skip "NOT"; c ← read_simple; pure (if n then negated c else plain c)

unfoldable pub read_condition : Reader ConditionTree
read_condition = read_chain (keyword or_) (read_chain (keyword and_) read_not)

unfoldable pub read_func : Reader AggregateFunc
read_func (keyword sum_ ∷ k) = some (sum, k)
read_func (keyword avg_ ∷ k) = some (avg, k)
read_func (keyword min_ ∷ k) = some (min, k)
read_func (keyword max_ ∷ k) = some (max, k)
read_func ts = none

unfoldable pub read_call : Reader CallTree
unfolding skip expect read_id read_func
read_call = do
  count ← skip "COUNT"
  elim count as (λ _. Reader CallTree) [
    | true ↦ do expect "LPAREN"; expect "STAR"; expect "RPAREN"; pure count_star
    | false ↦ do f ← read_func; expect "LPAREN"; c ← read_id; expect "RPAREN"; pure (call f c)
  ]

pub ref-tokens :
    (c : ColumnRefTree) (k : List Token) → 0 < rank k → read_ref (ref_tokens c k) ≡ some (c, k)
unfolding read_ref ref_tokens type_rank
ref-tokens (unqualified c) k h = >>=-some _ (skip_above "DOT" k h)
ref-tokens (qualified t c) k h = refl

value_law : (v : ValueTree) (k : List Token) → read_value (value_tokens v k) ≡ some (v, k)
unfolding read_value value_tokens
value_law (value_number n) k = refl
value_law (value_negative n) k = refl
value_law (value_string s) k = refl

pub value-tokens :
    (v : ValueTree) (k : List Token) → 0 < rank k → read_value (value_tokens v k) ≡ some (v, k)
value-tokens v k h = value_law v k

pub comparator-token :
    (op : ComparatorTree) (k : List Token)
    → read_comparator (comparator_token op ∷ k) ≡ some (op, k)
unfolding read_comparator
comparator-token equals k = refl
comparator-token greater k = refl
comparator-token less k = refl
comparator-token at_least k = refl
comparator-token at_most k = refl

rank-comparator : (op : ComparatorTree) → 0 < type_rank (token_type (comparator_token op))
unfolding type_rank
rank-comparator equals = omega arith
rank-comparator greater = omega arith
rank-comparator less = omega arith
rank-comparator at_least = omega arith
rank-comparator at_most = omega arith

simple-tokens : (c : SimpleTree) (k : List Token) → read_simple (simple_tokens c k) ≡ some (c, k)
unfolding read_simple simple_tokens
simple-tokens (simple c op v) k =
    >>=-some _ (ref-tokens c _ (rank-comparator op))
    ∙ >>=-some _ (comparator-token op _)
    ∙ >>=-some _ (value_law v k)

-- A condition does not start with NOT unless it is negated.
skip-simple :
    (c : SimpleTree) (k : List Token)
    → skip "NOT" (simple_tokens c k) ≡ some (false, simple_tokens c k)
unfolding skip simple_tokens ref_tokens
skip-simple (simple (unqualified c) op v) k = refl
skip-simple (simple (qualified t c) op v) k = refl

not-tokens : (c : NotTree) (k : List Token) → 0 < rank k → read_not (not_tokens c k) ≡ some (c, k)
unfolding read_not not_tokens
not-tokens (plain c) k h = >>=-some _ (skip-simple c k) ∙ >>=-some _ (simple-tokens c k)
not-tokens (negated c) k h = >>=-some _ (simple-tokens c k)

pub value_grows : (v : ValueTree) (k : List Token) → length k ≤ length (value_tokens v k)
unfolding value_tokens
value_grows v k = ground arith

pub ref_grows : (c : ColumnRefTree) (k : List Token) → length k ≤ length (ref_tokens c k)
unfolding ref_tokens
ref_grows c k = ground arith

not_grows : (c : NotTree) (k : List Token) → length k ≤ length (not_tokens c k)
unfolding not_tokens simple_tokens
not_grows (plain (simple c op v)) k =
    omega (arith, value_grows v k, ref_grows c (comparator_token op ∷ value_tokens v k))
not_grows (negated (simple c op v)) k =
    omega (arith, value_grows v k, ref_grows c (comparator_token op ∷ value_tokens v k))

pub condition-tokens :
    (c : ConditionTree) (k : List Token)
    → 2 < rank k
    → read_condition (condition_tokens c k) ≡ some (c, k)
unfolding read_condition condition_tokens type_rank
condition-tokens c k h =
    read_chain-tokens (keyword or_) (read_chain (keyword and_) read_not)
      (chain_tokens (keyword and_) not_tokens) 1
      (λ d j l.
        read_chain-tokens (keyword and_) read_not not_tokens 0 not-tokens (omega arith) not_grows d
          j l)
      (omega arith) (chain_grows (keyword and_) not_tokens not_grows) c k h

pub call-tokens : (f : CallTree) (k : List Token) → read_call (call_tokens f k) ≡ some (f, k)
unfolding read_call call_tokens
call-tokens count_star k = refl
call-tokens (call sum c) k = refl
call-tokens (call avg c) k = refl
call-tokens (call min c) k = refl
call-tokens (call max c) k = refl
