-- ===== src/Executor/Order/Total.antt =====
-- The sort raises nothing on keys of one kind.
use sql_parser.Base.{Bool, true, false, ◌≡◌, refl, List, [], ◌∷◌, All, if◌then◌else◌}
use sql_parser.Base.Result.{ok}
use sql_parser.Value.{Runtime, Val}
use sql_parser.Value.Kind.{Kind, HasKind, py_lt-HasKind}
use sql_parser.Executor.Order.{insert_keyed, sort_keyed}
use sql_parser.Executor.Order.Laws.{sort_keyed-All}

module _ ⦃rt : Runtime⦄ {A : Type 0} where
  insert_keyed-total :
      (kind : Kind) (k : Val) (x : A) (ys : List (Val × A))
      → HasKind kind k
      → All (λ (y : Val × A). HasKind kind y.0) ys
      → (zs : List (Val × A)) × (insert_keyed k x ys ≡ ok zs)
  unfolding insert_keyed
  insert_keyed-total kind k x [] h hs = (_, refl)
  insert_keyed-total kind k x ((j, y) ∷ ys) h hs =
      let (b, e) = py_lt-HasKind kind j k hs.0 h in
      let (zs, ez) = insert_keyed-total kind k x ys h hs.1 in rw (e, ez) (by_test b zs)
    where
      by_test :
          (b : Bool) (zs : List (Val × A))
          → (ws : List (Val × A)) × ((if b then ok ((j, y) ∷ zs) else ok ((k, x) ∷ (j, y) ∷ ys))
              ≡ ok ws)
      by_test true zs = (_, refl)
      by_test false zs = (_, refl)

  pub sort_keyed-total :
      (kind : Kind) (xs : List (Val × A))
      → All (λ (y : Val × A). HasKind kind y.0) xs
      → (ys : List (Val × A)) × (sort_keyed xs ≡ ok ys)
  unfolding sort_keyed
  sort_keyed-total kind [] h = ([], refl)
  sort_keyed-total kind ((k, x) ∷ xs) h =
      let (ws, ew) = sort_keyed-total kind xs h.1 in
      let keyed = sort_keyed-All (λ y. HasKind kind y.0) xs h.1 ew in
      rw ew (insert_keyed-total kind k x ws h.0 keyed)
