-- ===== src/Executor/Filter/Meaning.antt =====
-- Filter: what a WHERE clause means, from its text's structure. NOT binds tighter than AND, and AND
-- tighter than OR.
use sql_parser.Base.{
  String, Bool, true, false, not, ◌&&◌, ◌||◌, ◌≡◌, ◌∙◌, List, [], ◌∷◌, ◌++◌, All, arith,
}
use sql_parser.Base.Result.{ok}
use sql_parser.Value.{Runtime}
use sql_parser.Ast.{Connective, Condition}
use sql_parser.Table.{Row}
use sql_parser.Executor.Filter.{combine, evaluate_condition}
use sql_parser.Parser.Grammar.{
  Chain, single, multiple, SimpleTree, NotTree, plain, negated, ConditionTree,
}
use sql_parser.Parser.Actions.{simple_condition, not_condition, logical, condition}

-- The entries of a chain, in their order.
abbrev pub entries {ℓ} : {A : Type ℓ} → Chain A → List A
entries (single x) = x ∷ []
entries (multiple xs x) = entries xs ++ x ∷ []

-- The comparison of a NOT or of none.
abbrev pub comparison : NotTree → SimpleTree
comparison (plain s) = s
comparison (negated s) = s

-- some entry passes the test; every entry passes it
abbrev pub some_of {ℓ} : {A : Type ℓ} → (A → Bool) → List A → Bool
some_of p [] = false
some_of p (x ∷ xs) = p x || some_of p xs

abbrev pub every {ℓ} : {A : Type ℓ} → (A → Bool) → List A → Bool
every p [] = true
every p (x ∷ xs) = p x && every p xs

module _ (truth : SimpleTree → Bool) where
  abbrev pub not_holds : NotTree → Bool
  not_holds (plain s) = truth s
  not_holds (negated s) = not (truth s)

  -- some part between ORs, of which every part between ANDs holds
  abbrev pub holds : ConditionTree → Bool
  holds c = some_of (λ d. every not_holds (entries d)) (entries c)

some_of-snoc {ℓ} :
    {A : Type ℓ} (p : A → Bool) (xs : List A) (x : A)
    → some_of p (xs ++ x ∷ []) ≡ (some_of p xs || p x)
some_of-snoc p [] x = ground arith
some_of-snoc p (y ∷ ys) x = ground (arith, some_of-snoc p ys x)

every-snoc {ℓ} :
    {A : Type ℓ} (p : A → Bool) (xs : List A) (x : A) → every p (xs ++ x ∷ []) ≡ (every p xs && p x)
every-snoc p [] x = ground arith
every-snoc p (y ∷ ys) x = ground (arith, every-snoc p ys x)

-- `P` holds of every comparison of a condition.
abbrev pub AllComparisons : (SimpleTree → Type 0) → ConditionTree → Type 0
AllComparisons P c = All (λ d. All (λ n. P (comparison n)) (entries d)) (entries c)

All-init {ℓ κ} :
    {A : Type ℓ} (P : A → Type κ) (xs : List A) (x : A) → All P (xs ++ x ∷ []) → All P xs × P x
All-init P [] x h = (tt, h.0)
All-init P (y ∷ ys) x h = let (hs, hx) = All-init P ys x h.1 in ((h.0, hs), hx)

module _ ⦃rt : Runtime⦄ {A : Type 0} (f : A → Condition rt.Float) (row : Row) (table : String)
    (P : A → Type 0) (p : A → Bool)
    (item : (x : A) → P x → evaluate_condition row (f x) table ≡ ok (p x)) where
  logical_or :
      (xs : Chain A)
      → All P (entries xs)
      → evaluate_condition row (logical Connective.or f xs) table ≡ ok (some_of p (entries xs))
  unfolding evaluate_condition logical combine
  logical_or (single x) h = item x h.0 ∙ ground arith
  logical_or (multiple xs x) h =
      let (hs, hx) = All-init P (entries xs) x h in
      rw (logical_or xs hs, item x hx) (rw (some_of-snoc p (entries xs) x))

  logical_and :
      (xs : Chain A)
      → All P (entries xs)
      → evaluate_condition row (logical Connective.and f xs) table ≡ ok (every p (entries xs))
  unfolding evaluate_condition logical combine
  logical_and (single x) h = item x h.0 ∙ ground arith
  logical_and (multiple xs x) h =
      let (hs, hx) = All-init P (entries xs) x h in
      rw (logical_and xs hs, item x hx) (rw (every-snoc p (entries xs) x))

module _ ⦃rt : Runtime⦄ (row : Row) (table : String) (truth : SimpleTree → Bool) where
  abbrev pub HasTruth : SimpleTree → Type 0
  HasTruth s = evaluate_condition row (simple_condition s) table ≡ ok (truth s)

  not_meaning :
      (n : NotTree)
      → HasTruth (comparison n)
      → evaluate_condition row (not_condition n) table ≡ ok (not_holds truth n)
  unfolding not_condition evaluate_condition
  not_meaning (plain s) h = h
  not_meaning (negated s) h = rw h

  -- Where every comparison of a WHERE clause has its truth value on a row, the condition that the
  -- parser builds is true exactly if some part between ORs has all its parts between ANDs true, a
  -- part with NOT being true if its comparison is false.
  pub evaluate_condition-holds :
      (c : ConditionTree)
      → AllComparisons HasTruth c
      → evaluate_condition row (condition c) table ≡ ok (holds truth c)
  unfolding condition
  evaluate_condition-holds c h =
      logical_or (logical Connective.and not_condition) row table
        (λ d. All (λ n. HasTruth (comparison n)) (entries d))
        (λ d. every (not_holds truth) (entries d))
        (λ d k.
          logical_and not_condition row table (λ n. HasTruth (comparison n)) (not_holds truth)
            not_meaning d k)
        c h
