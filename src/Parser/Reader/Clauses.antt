-- ===== src/Parser/Reader/Clauses.antt =====
-- Reading the clauses of a SELECT after the word that starts them, and its list.
use sql_parser.Base.{
  ◌<◌, ◌≤◌, String, true, false, ◌≡◌, refl, ◌∙◌, some, List, ◌∷◌, if◌then◌else◌, length, arith,
}
use sql_parser.Token.{Token, id, comma, equal}
use sql_parser.Parser.Grammar.{
  Chain, single, multiple, ColumnRefTree, unqualified, qualified, ConditionTree, sum, avg, min, max,
  CallTree, count_star, call, JoinTree, join, HavingTree, comparison, DirectionTree, unstated,
  ascending, descending, OrderTree, order_by_ref, order_by_call, ItemTree, item_id, item_qualified,
  item_call, SelectListTree, all_columns, column_list,
}
use sql_parser.Parser.Yield.{
  chain_tokens, ref_tokens, call_tokens, where_tokens, join_tokens, group_tokens, having_tokens,
  direction_tokens, order_tokens, item_tokens, list_tokens,
}
use sql_parser.Parser.Reader.{
  Reader, ◌>>=◌, ◌>>◌, pure, skip, expect, type_rank, rank, skip_above, >>=-some,
}
use sql_parser.Parser.Reader.Chains.{read_chain, read_chain-tokens}
use sql_parser.Parser.Reader.Optional.{optional}
use sql_parser.Parser.Reader.Parts.{
  read_id, read_number, read_comparator, read_ref, read_condition, read_call, ref-tokens,
  comparator-token, ref_grows, condition-tokens, call-tokens,
}

unfoldable pub read_join : Reader JoinTree
unfolding read_id expect
read_join = do
  t ← read_id
  expect "ON"
  l ← read_ref
  expect "EQUAL"
  r ← read_ref
  pure (join t l r)

unfoldable pub read_group : Reader (Chain ColumnRefTree)
unfolding expect
read_group = do expect "BY"; read_chain comma read_ref

unfoldable pub read_having : Reader HavingTree
unfolding read_number
read_having = do f ← read_call; op ← read_comparator; n ← read_number; pure (comparison f op n)

unfoldable pub read_direction : Reader DirectionTree
unfolding skip
read_direction = do
  up ← skip "ASC"
  down ← skip "DESC"
  pure (if up then ascending else if down then descending else unstated)

read_key : Reader OrderTree
read_key (id s ∷ ts) = (do c ← read_ref; d ← read_direction; pure (order_by_ref c d)) (id s ∷ ts)
read_key ts = (do f ← read_call; d ← read_direction; pure (order_by_call f d)) ts

unfoldable pub read_order : Reader OrderTree
unfolding expect read_key
read_order = do expect "BY"; read_key

ref_item : ColumnRefTree → ItemTree
ref_item (unqualified c) = item_id c
ref_item (qualified t c) = item_qualified t c

unfoldable pub read_item : Reader ItemTree
unfolding ref_item
read_item (id s ∷ ts) = (do c ← read_ref; pure (ref_item c)) (id s ∷ ts)
read_item ts = (do f ← read_call; pure (item_call f)) ts

pub join-tokens :
    (j : JoinTree) (k : List Token)
    → type_rank "JOIN" < rank k
    → optional "JOIN" read_join (join_tokens j k) ≡ some (some j, k)
unfolding optional skip read_join join_tokens type_rank
join-tokens (join t l r) k h = >>=-some _ (
    >>=-some _ (ref-tokens l (equal ∷ ref_tokens r k) (omega arith))
    ∙ >>=-some _ (ref-tokens r k (omega arith)))

pub group-tokens :
    (cs : Chain ColumnRefTree) (k : List Token)
    → type_rank "GROUP" < rank k
    → optional "GROUP" read_group (group_tokens cs k) ≡ some (some cs, k)
unfolding optional skip read_group type_rank
group-tokens cs k h = >>=-some _ (
    read_chain-tokens comma read_ref ref_tokens 0 ref-tokens (omega arith) ref_grows cs k
      (omega arith))

pub where-tokens :
    (c : ConditionTree) (k : List Token)
    → type_rank "WHERE" < rank k
    → optional "WHERE" read_condition (where_tokens c k) ≡ some (some c, k)
unfolding optional skip type_rank
where-tokens c k h = >>=-some _ (condition-tokens c k (omega arith))

pub having-tokens :
    (h : HavingTree) (k : List Token)
    → type_rank "HAVING" < rank k
    → optional "HAVING" read_having (having_tokens h k) ≡ some (some h, k)
unfolding optional skip read_having having_tokens
having-tokens (comparison f op n) k l =
    >>=-some _ (>>=-some _ (call-tokens f _) ∙ >>=-some _ (comparator-token op _))

direction-tokens :
    (d : DirectionTree) (k : List Token)
    → 1 < rank k
    → read_direction (direction_tokens d k) ≡ some (d, k)
unfolding read_direction direction_tokens type_rank
direction-tokens unstated k h =
    >>=-some _ (skip_above "ASC" k (omega arith)) ∙ >>=-some _ (skip_above "DESC" k (omega arith))
direction-tokens ascending k h = >>=-some _ (skip_above "DESC" k (omega arith))
direction-tokens descending k h = refl

rank-direction : (d : DirectionTree) (k : List Token) → 1 < rank k → 0 < rank (direction_tokens d k)
unfolding direction_tokens type_rank
rank-direction unstated k h = omega arith
rank-direction ascending k h = omega arith
rank-direction descending k h = omega arith

key-ref :
    (c : ColumnRefTree) (d : DirectionTree) (k : List Token)
    → 1 < rank k
    → read_key (ref_tokens c (direction_tokens d k)) ≡ some (order_by_ref c d, k)
unfolding read_key ref_tokens
key-ref (unqualified c) d k h =
    >>=-some _ (ref-tokens (unqualified c) (direction_tokens d k) (rank-direction d k h))
    ∙ >>=-some _ (direction-tokens d k h)
key-ref (qualified t c) d k h =
    >>=-some _ (ref-tokens (qualified t c) (direction_tokens d k) (rank-direction d k h))
    ∙ >>=-some _ (direction-tokens d k h)

key-call :
    (f : CallTree) (d : DirectionTree) (k : List Token)
    → 1 < rank k
    → read_key (call_tokens f (direction_tokens d k)) ≡ some (order_by_call f d, k)
unfolding read_key call_tokens
key-call count_star d k h =
    >>=-some _ (call-tokens count_star (direction_tokens d k)) ∙ >>=-some _ (direction-tokens d k h)
key-call (call f c) d k h =
    >>=-some _ (call-tokens (call f c) (direction_tokens d k)) ∙ >>=-some _ (direction-tokens d k h)

pub order-tokens :
    (o : OrderTree) (k : List Token)
    → type_rank "ORDER" < rank k
    → optional "ORDER" read_order (order_tokens o k) ≡ some (some o, k)
unfolding optional skip read_order order_tokens type_rank
order-tokens (order_by_ref c d) k h = >>=-some _ (key-ref c d k (omega arith))
order-tokens (order_by_call f d) k h = >>=-some _ (key-call f d k (omega arith))

pub item-tokens :
    (x : ItemTree) (k : List Token) → 0 < rank k → read_item (item_tokens x k) ≡ some (x, k)
unfolding read_item item_tokens ref_tokens call_tokens
item-tokens (item_id c) k h = >>=-some _ (ref-tokens (unqualified c) k h)
item-tokens (item_qualified t c) k h = >>=-some _ (ref-tokens (qualified t c) k h)
item-tokens (item_call count_star) k h = >>=-some _ (call-tokens count_star k)
item-tokens (item_call (call f c)) k h = >>=-some _ (call-tokens (call f c) k)

item_grows : (x : ItemTree) (k : List Token) → length k ≤ length (item_tokens x k)
unfolding item_tokens call_tokens
item_grows x k = ground arith

unfoldable pub read_list : Reader SelectListTree
unfolding skip
read_list = do
  all ← skip "STAR"
  elim all as (λ _. Reader SelectListTree) [
    | true ↦ pure all_columns
    | false ↦ do xs ← read_chain comma read_item; pure (column_list xs)
  ]

-- No list of columns starts with a type that no item starts with.
pub skip-items :
    (ty : String)
    → ((x : ItemTree) (k : List Token) → skip ty (item_tokens x k) ≡ some (false, item_tokens x k))
    → (xs : Chain ItemTree) (k : List Token)
    → skip ty (chain_tokens comma item_tokens xs k)
      ≡ some (false, chain_tokens comma item_tokens xs k)
unfolding chain_tokens
skip-items ty law (single x) k = law x k
skip-items ty law (multiple xs x) k = skip-items ty law xs (comma ∷ item_tokens x k)

skip_star-item :
    (x : ItemTree) (k : List Token) → skip "STAR" (item_tokens x k) ≡ some (false, item_tokens x k)
unfolding skip item_tokens call_tokens
skip_star-item (item_id c) k = refl
skip_star-item (item_qualified t c) k = refl
skip_star-item (item_call count_star) k = refl
skip_star-item (item_call (call sum c)) k = refl
skip_star-item (item_call (call avg c)) k = refl
skip_star-item (item_call (call min c)) k = refl
skip_star-item (item_call (call max c)) k = refl

pub list-tokens :
    (xs : SelectListTree) (k : List Token)
    → 1 < rank k
    → read_list (list_tokens xs k) ≡ some (xs, k)
unfolding read_list list_tokens type_rank
list-tokens all_columns k h = refl
list-tokens (column_list xs) k h =
    >>=-some _ (skip-items "STAR" skip_star-item xs k)
    ∙ >>=-some _ (
        read_chain-tokens comma read_item item_tokens 0 item-tokens (omega arith) item_grows xs k h)
