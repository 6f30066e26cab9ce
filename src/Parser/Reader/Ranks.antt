-- ===== src/Parser/Reader/Ranks.antt =====
-- The tokens of the clauses after a SELECT's table, and their ranks.
use sql_parser.Base.{ℕ, ◌<◌, ◌≡◌, refl, Option, some, List, arith}
use sql_parser.Token.{Token}
use sql_parser.Parser.Grammar.{
  Chain, ColumnRefTree, ConditionTree, HavingTree, comparison, OrderTree, order_by_ref,
  order_by_call,
}
use sql_parser.Parser.Yield.{
  optional_tokens, where_tokens, group_tokens, having_tokens, order_tokens, limit_tokens,
}
use sql_parser.Parser.Reader.{type_rank, rank}
use sql_parser.Parser.Reader.Optional.{optional, optional-tokens, rank-optional}
use sql_parser.Parser.Reader.Parts.{read_condition}
use sql_parser.Parser.Reader.Clauses.{read_group, group-tokens, where-tokens}

-- The tokens of the clauses of a SELECT, from each of them on.
module _ (k : List Token) where
  abbrev pub after_order : Option ℕ → List Token
  after_order n = optional_tokens limit_tokens n k

  abbrev pub after_having : Option OrderTree → Option ℕ → List Token
  after_having o n = optional_tokens order_tokens o (after_order n)

  abbrev pub after_group : Option HavingTree → Option OrderTree → Option ℕ → List Token
  after_group h o n = optional_tokens having_tokens h (after_having o n)

  abbrev pub after_where : Option (Chain ColumnRefTree) → List Token
  after_where g = optional_tokens group_tokens g k

  abbrev pub after_join : Option ConditionTree → Option (Chain ColumnRefTree) → List Token
  after_join w g = optional_tokens where_tokens w (after_where g)

-- They keep the rank up.
module _ (k : List Token) (end : 8 < rank k) where
  pub rank-order : (n : Option ℕ) → 7 < rank (after_order k n)
  unfolding type_rank
  rank-order n = rank-optional limit_tokens 8 (λ x j. refl) n k (omega arith) (omega arith)

  pub rank-having : (o : Option OrderTree) (n : Option ℕ) → 6 < rank (after_having k o n)
  unfolding type_rank order_tokens
  rank-having o n =
      rank-optional order_tokens 7 starts o (after_order k n) (omega arith)
        (omega (arith, rank-order n))
    where
      starts : (x : OrderTree) (j : List Token) → rank (order_tokens x j) ≡ 7
      starts (order_by_ref c d) j = refl
      starts (order_by_call f d) j = refl

  pub rank-group :
      (h : Option HavingTree) (o : Option OrderTree) (n : Option ℕ) → 5 < rank (after_group k h o n)
  unfolding type_rank having_tokens
  rank-group h o n =
      rank-optional having_tokens 6 starts h (after_having k o n) (omega arith)
        (omega (arith, rank-having o n))
    where
      starts : (x : HavingTree) (j : List Token) → rank (having_tokens x j) ≡ 6
      starts (comparison f op m) j = refl

-- `GROUP BY` and `WHERE` before tokens of a higher rank.
module _ (k : List Token) (higher : 5 < rank k) where
  pub rank-where : (g : Option (Chain ColumnRefTree)) → 4 < rank (after_where k g)
  unfolding type_rank
  rank-where g = rank-optional group_tokens 5 (λ x j. refl) g k (omega arith) (omega arith)

  pub rank-join :
      (w : Option ConditionTree) (g : Option (Chain ColumnRefTree)) → 3 < rank (after_join k w g)
  unfolding type_rank
  rank-join w g =
      rank-optional where_tokens 4 (λ x j. refl) w (after_where k g) (omega arith)
        (omega (arith, rank-where g))

  pub read-where :
      (w : Option ConditionTree) (g : Option (Chain ColumnRefTree))
      → optional "WHERE" read_condition (after_join k w g) ≡ some (w, after_where k g)
  unfolding type_rank
  read-where w g =
      optional-tokens "WHERE" read_condition where_tokens where-tokens w (after_where k g)
        (rank-where g)

  pub read-group :
      (g : Option (Chain ColumnRefTree))
      → optional "GROUP" read_group (after_where k g) ≡ some (g, k)
  unfolding type_rank
  read-group g = optional-tokens "GROUP" read_group group_tokens group-tokens g k higher
