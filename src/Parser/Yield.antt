-- ===== src/Parser/Yield.antt =====
-- sql-engine/parser.py: the tokens that a parse tree stands for, production by production. Each
-- function puts the tokens of its tree in front of the tokens `k` that follow.
use sql_parser.Base.{ℕ, String, Bool, true, false, Option, none, some, List, ◌∷◌}
use sql_parser.Token.{
  Keyword, select_, from_, where_, order_, by_, limit_, count_, sum_, avg_, min_, max_, distinct_,
  group_, having_, and_, or_, not_, asc_, desc_, join_, on_, create_, table_, int_, float_, bool_,
  varchar_, primary_, key_, null_, into_, values_, insert_, delete_, update_, set_, Token, keyword,
  id, number, string, star, lparen, rparen, comma, minus, dot, equal, ge, le, gt, lt,
}
use sql_parser.Parser.Grammar.{
  Chain, single, multiple, ValueTree, value_number, value_negative, value_string, ComparatorTree,
  equals, greater, less, at_least, at_most, ColumnRefTree, unqualified, qualified, SimpleTree,
  simple, NotTree, plain, negated, ConditionTree, AggregateFunc, sum, avg, min, max, CallTree,
  count_star, call, JoinTree, join, HavingTree, comparison, DirectionTree, unstated, ascending,
  descending, OrderTree, order_by_ref, order_by_call, ItemTree, item_id, item_qualified, item_call,
  SelectListTree, all_columns, column_list, SelectTree, select_general, select_aggregate,
  Constraint, nullable, not_null, primary_key, ColumnDefTree, int_column, float_column, bool_column,
  varchar_column, AssignmentTree, assignment, Tree, select_stmt, create_stmt, insert_stmt,
  delete_stmt, update_stmt,
}

-- xs : x | xs SEP x
unfoldable pub chain_tokens {ℓ} :
    {A : Type ℓ} → Token → (A → List Token → List Token) → Chain A → List Token → List Token
chain_tokens sep tokens (single x) k = tokens x k
chain_tokens sep tokens (multiple xs x) k = chain_tokens sep tokens xs (sep ∷ tokens x k)

-- optional_x : x | empty
unfoldable pub optional_tokens {ℓ} :
    {A : Type ℓ} → (A → List Token → List Token) → Option A → List Token → List Token
optional_tokens tokens none k = k
optional_tokens tokens (some x) k = tokens x k

unfoldable pub value_tokens : ValueTree → List Token → List Token
value_tokens (value_number n) k = number n ∷ k
value_tokens (value_negative n) k = minus ∷ number n ∷ k
value_tokens (value_string s) k = string s ∷ k

abbrev pub comparator_token : ComparatorTree → Token
comparator_token equals = equal
comparator_token greater = gt
comparator_token less = lt
comparator_token at_least = ge
comparator_token at_most = le

unfoldable pub ref_tokens : ColumnRefTree → List Token → List Token
ref_tokens (unqualified c) k = id c ∷ k
ref_tokens (qualified t c) k = id t ∷ dot ∷ id c ∷ k

unfoldable pub simple_tokens : SimpleTree → List Token → List Token
simple_tokens (simple c op v) k = ref_tokens c (comparator_token op ∷ value_tokens v k)

unfoldable pub not_tokens : NotTree → List Token → List Token
not_tokens (plain c) k = simple_tokens c k
not_tokens (negated c) k = keyword not_ ∷ simple_tokens c k

unfoldable pub condition_tokens : ConditionTree → List Token → List Token
condition_tokens = chain_tokens (keyword or_) (chain_tokens (keyword and_) not_tokens)

abbrev pub func_word : AggregateFunc → Keyword
func_word sum = sum_
func_word avg = avg_
func_word min = min_
func_word max = max_

unfoldable pub call_tokens : CallTree → List Token → List Token
call_tokens count_star k = keyword count_ ∷ lparen ∷ star ∷ rparen ∷ k
call_tokens (call f c) k = keyword (func_word f) ∷ lparen ∷ id c ∷ rparen ∷ k

abbrev pub where_tokens : ConditionTree → List Token → List Token
where_tokens c k = keyword where_ ∷ condition_tokens c k

unfoldable pub join_tokens : JoinTree → List Token → List Token
join_tokens (join t l r) k =
    keyword join_ ∷ id t ∷ keyword on_ ∷ ref_tokens l (equal ∷ ref_tokens r k)

abbrev pub group_tokens : Chain ColumnRefTree → List Token → List Token
group_tokens cs k = keyword group_ ∷ keyword by_ ∷ chain_tokens comma ref_tokens cs k

unfoldable pub having_tokens : HavingTree → List Token → List Token
having_tokens (comparison f op n) k =
    keyword having_ ∷ call_tokens f (comparator_token op ∷ number n ∷ k)

unfoldable pub direction_tokens : DirectionTree → List Token → List Token
direction_tokens unstated k = k
direction_tokens ascending k = keyword asc_ ∷ k
direction_tokens descending k = keyword desc_ ∷ k

unfoldable pub order_tokens : OrderTree → List Token → List Token
order_tokens (order_by_ref c d) k =
    keyword order_ ∷ keyword by_ ∷ ref_tokens c (direction_tokens d k)
order_tokens (order_by_call f d) k =
    keyword order_ ∷ keyword by_ ∷ call_tokens f (direction_tokens d k)

abbrev pub limit_tokens : ℕ → List Token → List Token
limit_tokens n k = keyword limit_ ∷ number n ∷ k

unfoldable pub item_tokens : ItemTree → List Token → List Token
item_tokens (item_id c) k = id c ∷ k
item_tokens (item_qualified t c) k = id t ∷ dot ∷ id c ∷ k
item_tokens (item_call f) k = call_tokens f k

unfoldable pub list_tokens : SelectListTree → List Token → List Token
list_tokens all_columns k = star ∷ k
list_tokens (column_list xs) k = chain_tokens comma item_tokens xs k

abbrev pub distinct_tokens : Bool → List Token → List Token
distinct_tokens true k = keyword distinct_ ∷ k
distinct_tokens false k = k

unfoldable pub select_tokens : SelectTree → List Token → List Token
select_tokens (select_general d columns t j w g h o n) k =
    let rest = optional_tokens where_tokens w (
      optional_tokens group_tokens g (
        optional_tokens having_tokens h
          (optional_tokens order_tokens o (optional_tokens limit_tokens n k)))) in
    keyword select_
    ∷ distinct_tokens d
        (list_tokens columns (keyword from_ ∷ id t ∷ optional_tokens join_tokens j rest))
select_tokens (select_aggregate f t w g) k =
    let rest = optional_tokens where_tokens w (optional_tokens group_tokens g k) in
    keyword select_ ∷ call_tokens f (keyword from_ ∷ id t ∷ rest)

abbrev pub not_null_tokens : Bool → List Token → List Token
not_null_tokens true k = keyword not_ ∷ keyword null_ ∷ k
not_null_tokens false k = k

unfoldable pub constraint_tokens : Constraint → List Token → List Token
constraint_tokens nullable k = k
constraint_tokens not_null k = keyword not_ ∷ keyword null_ ∷ k
constraint_tokens primary_key k = keyword primary_ ∷ keyword key_ ∷ k

unfoldable pub column_def_tokens : ColumnDefTree → List Token → List Token
column_def_tokens (int_column c x) k = id c ∷ keyword int_ ∷ constraint_tokens x k
column_def_tokens (float_column c b) k = id c ∷ keyword float_ ∷ not_null_tokens b k
column_def_tokens (bool_column c b) k = id c ∷ keyword bool_ ∷ not_null_tokens b k
column_def_tokens (varchar_column c n x) k =
    id c ∷ keyword varchar_ ∷ lparen ∷ number n ∷ rparen ∷ constraint_tokens x k

abbrev pub name_tokens : String → List Token → List Token
name_tokens c k = id c ∷ k

unfoldable pub assignment_tokens : AssignmentTree → List Token → List Token
assignment_tokens (assignment c v) k = id c ∷ equal ∷ value_tokens v k

-- LPAREN column_name_list RPAREN
abbrev pub names_tokens : Chain String → List Token → List Token
names_tokens cs k = lparen ∷ chain_tokens comma name_tokens cs (rparen ∷ k)

unfoldable pub tokens : Tree → List Token → List Token
tokens (select_stmt s) k = select_tokens s k
tokens (create_stmt t cs) k =
    keyword create_
    ∷ keyword table_
    ∷ id t
    ∷ lparen
    ∷ chain_tokens comma column_def_tokens cs (rparen ∷ k)
tokens (insert_stmt t cs vs) k =
    keyword insert_
    ∷ keyword into_
    ∷ id t
    ∷ optional_tokens names_tokens cs
        (keyword values_ ∷ lparen ∷ chain_tokens comma value_tokens vs (rparen ∷ k))
tokens (delete_stmt t w) k =
    keyword delete_ ∷ keyword from_ ∷ id t ∷ optional_tokens where_tokens w k
tokens (update_stmt t xs w) k =
    keyword update_
    ∷ id t
    ∷ keyword set_
    ∷ chain_tokens comma assignment_tokens xs (optional_tokens where_tokens w k)
