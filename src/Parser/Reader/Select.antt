-- ===== src/Parser/Reader/Select.antt =====
-- Reading a SELECT.
use sql_parser.Base.{
  ℕ, ◌<◌, String, Bool, true, false, ◌≡◌, refl, ◌∙◌, Option, some, List, ◌∷◌, if◌then◌else◌, arith,
}
use sql_parser.Token.{from_, count_, sum_, avg_, min_, max_, Token, keyword, id, comma}
use sql_parser.Parser.Grammar.{
  Chain, single, multiple, ColumnRefTree, ConditionTree, sum, avg, min, max, CallTree, count_star,
  call, JoinTree, HavingTree, OrderTree, ItemTree, item_id, item_qualified, item_call,
  SelectListTree, all_columns, column_list, SelectTree, select_general, select_aggregate,
  select_stmt, first, is_call, starts_with_call, is_shifted,
}
use sql_parser.Parser.Yield.{
  chain_tokens, optional_tokens, call_tokens, join_tokens, having_tokens, order_tokens,
  limit_tokens, item_tokens, list_tokens, select_tokens,
}
use sql_parser.Parser.Reader.{Reader, ◌>>=◌, ◌>>◌, pure, skip, expect, type_rank, rank, >>=-some}
use sql_parser.Parser.Reader.Optional.{optional, optional-tokens}
use sql_parser.Parser.Reader.Parts.{read_id, read_number, read_condition, read_call, call-tokens}
use sql_parser.Parser.Reader.Clauses.{
  read_join, read_group, read_having, read_order, join-tokens, having-tokens, order-tokens,
  read_list, skip-items, list-tokens,
}
use sql_parser.Parser.Reader.Ranks.{
  after_order, after_having, after_group, after_join, rank-order, rank-having, rank-group,
  rank-join, read-where, read-group,
}

unfoldable pub read_limit : Reader ℕ
unfolding read_number
read_limit = read_number

limit-tokens :
    (n : ℕ) (k : List Token)
    → type_rank "LIMIT" < rank k
    → optional "LIMIT" read_limit (limit_tokens n k) ≡ some (some n, k)
unfolding optional skip read_limit
limit-tokens n k h = refl

-- whether the next token is COUNT, SUM, AVG, MIN or MAX
call_next : List Token → Bool
call_next (keyword count_ ∷ ts) = true
call_next (keyword sum_ ∷ ts) = true
call_next (keyword avg_ ∷ ts) = true
call_next (keyword min_ ∷ ts) = true
call_next (keyword max_ ∷ ts) = true
call_next ts = false

unfoldable pub read_general : Bool → Reader SelectTree
unfolding expect read_id
read_general d = do
  columns ← read_list
  expect "FROM"
  t ← read_id
  j ← optional "JOIN" read_join
  w ← optional "WHERE" read_condition
  g ← optional "GROUP" read_group
  h ← optional "HAVING" read_having
  o ← optional "ORDER" read_order
  n ← optional "LIMIT" read_limit
  pure (select_general d columns t j w g h o n)

unfoldable pub read_aggregate : Reader SelectTree
unfolding expect read_id
read_aggregate = do
  f ← read_call
  expect "FROM"
  t ← read_id
  w ← optional "WHERE" read_condition
  g ← optional "GROUP" read_group
  pure (select_aggregate f t w g)

unfoldable pub read_select : Reader SelectTree
unfolding expect skip call_next
read_select = do
  expect "SELECT"
  d ← skip "DISTINCT"
  λ ts.
      if d
      then read_general true ts
      else if call_next ts
      then read_aggregate ts
      else read_general false ts

general-tokens :
    (d : Bool) (columns : SelectListTree) (t : String) (j : Option JoinTree)
    (w : Option ConditionTree) (g : Option (Chain ColumnRefTree)) (h : Option HavingTree)
    (o : Option OrderTree) (n : Option ℕ) (k : List Token)
    → 8 < rank k
    → read_general d (
        list_tokens columns (
          keyword from_
          ∷ id t
          ∷ optional_tokens join_tokens j (after_join (after_group k h o n) w g)))
      ≡ some (select_general d columns t j w g h o n, k)
unfolding read_general type_rank
general-tokens d columns t j w g h o n k end =
    let low = rank-group k end h o n in
    let rest = after_group k h o n in
    >>=-some _ (list-tokens columns _ (omega arith))
    ∙ >>=-some _ (
        optional-tokens "JOIN" read_join join_tokens join-tokens j (after_join rest w g)
          (rank-join rest low w g))
    ∙ >>=-some _ (read-where rest low w g)
    ∙ >>=-some _ (read-group rest low g)
    ∙ >>=-some _ (
        optional-tokens "HAVING" read_having having_tokens having-tokens h (after_having k o n)
          (rank-having k end o n))
    ∙ >>=-some _ (
        optional-tokens "ORDER" read_order order_tokens order-tokens o (after_order k n)
          (rank-order k end n))
    ∙ >>=-some _ (optional-tokens "LIMIT" read_limit limit_tokens limit-tokens n k end)

aggregate-tokens :
    (f : CallTree) (t : String) (w : Option ConditionTree) (g : Option (Chain ColumnRefTree))
    (k : List Token)
    → 8 < rank k
    → read_aggregate (call_tokens f (keyword from_ ∷ id t ∷ after_join k w g))
      ≡ some (select_aggregate f t w g, k)
unfolding read_aggregate
aggregate-tokens f t w g k end =
    >>=-some _ (call-tokens f _)
    ∙ >>=-some _ (read-where k (omega arith) w g)
    ∙ >>=-some _ (read-group k (omega arith) g)

skip_distinct-item :
    (x : ItemTree) (k : List Token)
    → skip "DISTINCT" (item_tokens x k) ≡ some (false, item_tokens x k)
unfolding skip item_tokens call_tokens
skip_distinct-item (item_id c) k = refl
skip_distinct-item (item_qualified t c) k = refl
skip_distinct-item (item_call count_star) k = refl
skip_distinct-item (item_call (call sum c)) k = refl
skip_distinct-item (item_call (call avg c)) k = refl
skip_distinct-item (item_call (call min c)) k = refl
skip_distinct-item (item_call (call max c)) k = refl

skip_distinct-list :
    (xs : SelectListTree) (k : List Token)
    → skip "DISTINCT" (list_tokens xs k) ≡ some (false, list_tokens xs k)
unfolding skip list_tokens
skip_distinct-list all_columns k = refl
skip_distinct-list (column_list xs) k = skip-items "DISTINCT" skip_distinct-item xs k

call_next-items :
    (xs : Chain ItemTree) (k : List Token)
    → is_call (first xs) ≡ false
    → call_next (chain_tokens comma item_tokens xs k) ≡ false
unfolding call_next chain_tokens item_tokens
call_next-items (single (item_id c)) k h = refl
call_next-items (single (item_qualified t c)) k h = refl
call_next-items (single (item_call f)) k h = cc
call_next-items (multiple xs x) k h = call_next-items xs (comma ∷ item_tokens x k) h

call_next-list :
    (xs : SelectListTree) (k : List Token)
    → starts_with_call xs ≡ false
    → call_next (list_tokens xs k) ≡ false
unfolding call_next list_tokens
call_next-list all_columns k h = refl
call_next-list (column_list xs) k h = call_next-items xs k h

call_next-call : (f : CallTree) (k : List Token) → call_next (call_tokens f k) ≡ true
unfolding call_next call_tokens
call_next-call count_star k = refl
call_next-call (call sum c) k = refl
call_next-call (call avg c) k = refl
call_next-call (call min c) k = refl
call_next-call (call max c) k = refl

pub select-tokens :
    (s : SelectTree) (k : List Token)
    → is_shifted (select_stmt s) ≡ true
    → 8 < rank k
    → read_select (select_tokens s k) ≡ some (s, k)
unfolding read_select select_tokens item_tokens
select-tokens (select_general true columns t j w g h o n) k s end =
    general-tokens true columns t j w g h o n k end
select-tokens (select_general false columns t j w g h o n) k s end =
    let rest =
      keyword from_ ∷ id t ∷ optional_tokens join_tokens j (after_join (after_group k h o n) w g) in
    let e : call_next (list_tokens columns rest) ≡ false =
      call_next-list columns rest (ground arith) in
    >>=-some _ (skip_distinct-list columns rest)
    ∙ rw e (general-tokens false columns t j w g h o n k end)
select-tokens (select_aggregate f t w g) k s end =
    let rest = keyword from_ ∷ id t ∷ after_join k w g in
    >>=-some _ (skip_distinct-item (item_call f) rest)
    ∙ rw (call_next-call f rest) (aggregate-tokens f t w g k end)
