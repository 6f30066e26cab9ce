-- ===== src/Executor/Order/ByColumn.antt =====
-- What ORDER BY does to the rows.
use mathlib.Core.List.{Perm, reverse-cons, reverse_perm}
use mathlib.Core.List.Perm
use sql_parser.Base.{
  arith, String, false, ◌≡◌, refl, ap, some, List, [], ◌∷◌, ◌++◌, map, reverse, All, All-append,
}
use sql_parser.Base.Dict.{get}
use sql_parser.Base.Result.{Result, ok, >>=-eq-ok, ok-injective, map_m}
use sql_parser.Value.{Runtime, Val, py_lt}
use sql_parser.Value.Kind.{Kind, HasKind}
use sql_parser.Ast.{Direction, asc, desc, by_column}
use sql_parser.Table.{Row, Rows, item, get-item, item-get, check_column}
use sql_parser.Executor.Order.{
  sort_keyed, sort_directed, attach, value_of, sorted_by, apply_order_by,
}
use sql_parser.Executor.Order.Laws.{NotBelow, Ordered, sort_keyed-All, sort_keyed-Ordered}
use sql_parser.Executor.Order.Total.{sort_keyed-total}

module _ {ℓ κ} {A : Type ℓ} (R : A → A → Type κ) where
  Ordered-snoc :
      (xs : List A) (y z : A)
      → Ordered R (xs ++ y ∷ [])
      → R y z
      → Ordered R ((xs ++ y ∷ []) ++ z ∷ [])
  Ordered-snoc [] y z o r = (r, tt)
  Ordered-snoc (x ∷ []) y z o r = (o.0, (r, tt))
  Ordered-snoc (x ∷ w ∷ xs) y z o r = (o.0, Ordered-snoc (w ∷ xs) y z o.1 r)

All-reverse {ℓ κ} : {A : Type ℓ} (P : A → Type κ) (xs : List A) → All P xs → All P (reverse xs)
All-reverse P [] h = tt
All-reverse P (x ∷ xs) h =
    rw reverse-cons (All-append P (reverse xs) (x ∷ []) (All-reverse P xs h.1) (h.0, tt))

Ordered-reverse {ℓ κ} :
    {A : Type ℓ} (R : A → A → Type κ) (xs : List A)
    → Ordered R xs
    → Ordered (λ x y. R y x) (reverse xs)
Ordered-reverse R [] o = tt
Ordered-reverse R (x ∷ []) o = tt
Ordered-reverse R (x ∷ y ∷ ys) o =
    let ih = rw reverse-cons at (Ordered-reverse R (y ∷ ys) o.1) in
    rw (reverse-cons, reverse-cons) (Ordered-snoc (λ x y. R y x) (reverse ys) y x ih o.0)

-- Of two neighbours the later is not below the earlier; with desc, not above it.
abbrev pub InDirection : ⦃rt : Runtime⦄ → Direction → Val → Val → Type 0
InDirection asc j k = py_lt k j ≡ ok false
InDirection desc j k = py_lt j k ≡ ok false

module _ ⦃rt : Runtime⦄ {A : Type 0} where
  abbrev KeyedOrder : Direction → Val × A → Val × A → Type 0
  KeyedOrder direction (j, x) (k, y) = InDirection direction j k

  sort_directed-Ordered :
      (P : Val × A → Type 0) (direction : Direction) (xs : List (Val × A)) {ys : List (Val × A)}
      → All P xs
      → sort_directed direction xs ≡ ok ys
      → Ordered (KeyedOrder direction) ys × Perm ys xs × All P ys
  unfolding sort_directed
  sort_directed-Ordered P asc xs h e =
      let (o, perm) = sort_keyed-Ordered xs e in (o, perm, sort_keyed-All P xs h e)
  sort_directed-Ordered P desc xs h e =
      let (ws, ew, e') = >>=-eq-ok (sort_keyed (reverse xs)) _ e in
      let (o, perm) = sort_keyed-Ordered (reverse xs) ew in
      rw (← ok-injective e') (
        Ordered-reverse NotBelow ws o,
        Perm.trans (reverse_perm ws) (Perm.trans perm (reverse_perm xs)),
        All-reverse P ws (sort_keyed-All P (reverse xs) (All-reverse P xs h) ew),
      )

  -- Two elements whose keys stand in the direction's order.
  abbrev InOrder : (A → Result Val) → Direction → A → A → Type 0
  InOrder key direction x y =
      (j k : Val) × (key x ≡ ok j) × (key y ≡ ok k) × InDirection direction j k

  abbrev Keyed : (A → Result Val) → Val × A → Type 0
  Keyed key (k, x) = key x ≡ ok k

  attach-Keyed :
      (key : A → Result Val) (xs : List A) {ys : List (Val × A)}
      → map_m (attach key) xs ≡ ok ys
      → All (Keyed key) ys × (map value_of ys ≡ xs)
  attach-Keyed key [] h = rw (← ok-injective h) (tt, refl)
  attach-Keyed key (x ∷ xs) h =
      let (p, ep, h') = >>=-eq-ok (attach key x) _ h in
      let (ps, eps, h'') = >>=-eq-ok (map_m (attach key) xs) _ h' in
      let (k, ek, e) = >>=-eq-ok (key x) _ ep in
      let (keyed, values) = attach-Keyed key xs eps in
      rw (← ok-injective h'', ← ok-injective e) ((ek, keyed), ap (λ zs. x ∷ zs) values)

  Ordered-values :
      (key : A → Result Val) (direction : Direction) (ys : List (Val × A))
      → Ordered (KeyedOrder direction) ys
      → All (Keyed key) ys
      → Ordered (InOrder key direction) (map value_of ys)
  Ordered-values key direction [] o h = tt
  Ordered-values key direction ((j, x) ∷ []) o h = tt
  Ordered-values key direction ((j, x) ∷ (k, y) ∷ ys) o h =
      ((j, k, h.0, h.1.0, o.0), Ordered-values key direction ((k, y) ∷ ys) o.1 h.1)

  sorted_by-Ordered :
      (key : A → Result Val) (direction : Direction) (xs ys : List A)
      → sorted_by key direction xs ≡ ok ys
      → Ordered (InOrder key direction) ys × Perm ys xs
  unfolding sorted_by
  sorted_by-Ordered key direction xs ys h =
      let (keyed, ek, h') = >>=-eq-ok (map_m (attach key) xs) _ h in
      let (zs, ez, e) = >>=-eq-ok (sort_directed direction keyed) _ h' in
      let (all, values) = attach-Keyed key xs ek in
      let (o, perm, all') = sort_directed-Ordered (Keyed key) direction keyed all ez in
      rw (← ok-injective e)
        (Ordered-values key direction zs o all', rw values at (Perm.map value_of perm))

  sort_directed-total :
      (kind : Kind) (direction : Direction) (xs : List (Val × A))
      → All (λ (y : Val × A). HasKind kind y.0) xs
      → (ys : List (Val × A)) × (sort_directed direction xs ≡ ok ys)
  unfolding sort_directed
  sort_directed-total kind asc xs h = sort_keyed-total kind xs h
  sort_directed-total kind desc xs h =
      let (ys, e) = sort_keyed-total kind (reverse xs) (All-reverse (λ y. HasKind kind y.0) xs h) in
      (reverse ys, rw e)

  attach-total :
      (kind : Kind) (key : A → Result Val) (xs : List A)
      → All (λ x. (v : Val) × (key x ≡ ok v) × HasKind kind v) xs
      → (ys : List (Val × A)) × (map_m (attach key) xs ≡ ok ys)
        × All (λ (y : Val × A). HasKind kind y.0) ys
  attach-total kind key [] h = ([], refl, tt)
  attach-total kind key (x ∷ xs) ((v, e, k), h) =
      let (ys, ey, hs) = attach-total kind key xs h in ((v, x) ∷ ys, rw (e, ey), (k, hs))

  sorted_by-total :
      (kind : Kind) (key : A → Result Val) (direction : Direction) (xs : List A)
      → All (λ x. (v : Val) × (key x ≡ ok v) × HasKind kind v) xs
      → (ys : List A) × (sorted_by key direction xs ≡ ok ys)
  unfolding sorted_by
  sorted_by-total kind key direction xs h =
      let (keyed, ek, hs) = attach-total kind key xs h in
      let (ys, ey) = sort_directed-total kind direction keyed hs in (map value_of ys, rw (ek, ey))

module _ ⦃rt : Runtime⦄ where
  -- The rows have values in the column, and these stand in the direction's order.
  abbrev pub ColumnOrder : String → Direction → Row → Row → Type 0
  ColumnOrder c direction r s =
      (a b : Val) × (get c r ≡ some a) × (get c s ≡ some b) × InDirection direction a b

  by_get :
      (c : String) (direction : Direction) (rows : Rows)
      → Ordered (InOrder (item c) direction) rows
      → Ordered (ColumnOrder c direction) rows
  by_get c direction [] o = tt
  by_get c direction (r ∷ []) o = tt
  by_get c direction (r ∷ s ∷ rows) ((a, b, ea, eb, d), o) =
      ((a, b, get-item c r ea, get-item c s eb, d), by_get c direction (s ∷ rows) o)

  -- Where ORDER BY c succeeds, it gives a permutation of the rows in which, of two neighbours, the
  -- later value of the column is not below the earlier one; with DESC, not above it.
  pub apply_order_by-Ordered :
      (rows out : Rows) (c : String) (direction : Direction) (table : String)
      → apply_order_by rows (some (by_column c direction)) table ≡ ok out
      → Ordered (ColumnOrder c direction) out × Perm out rows
  unfolding apply_order_by
  apply_order_by-Ordered rows out c direction table h =
      let (u, eu, h') = >>=-eq-ok (check_column c table rows) _ h in
      let (o, perm) = sorted_by-Ordered (item c) direction rows out h' in
      (by_get c direction out o, perm)

  checked :
      (kind : Kind) (c table : String) (rows : Rows)
      → All (λ row. (v : Val) × (get c row ≡ some v) × HasKind kind v) rows
      → check_column c table rows ≡ ok tt
  unfolding check_column
  checked kind c table [] h = refl
  checked kind c table (row ∷ rows) ((v, e, k), h) = ground arith

  by_item :
      (kind : Kind) (c : String) (rows : Rows)
      → All (λ row. (v : Val) × (get c row ≡ some v) × HasKind kind v) rows
      → All (λ row. (v : Val) × (item c row ≡ ok v) × HasKind kind v) rows
  by_item kind c [] h = tt
  by_item kind c (row ∷ rows) ((v, e, k), h) = ((v, item-get c row e, k), by_item kind c rows h)

  -- ORDER BY c raises nothing if every row has a value in the column and these are all numbers or
  -- all texts.
  pub apply_order_by-total :
      (kind : Kind) (rows : Rows) (c : String) (direction : Direction) (table : String)
      → All (λ row. (v : Val) × (get c row ≡ some v) × HasKind kind v) rows
      → (out : Rows) × (apply_order_by rows (some (by_column c direction)) table ≡ ok out)
  unfolding apply_order_by
  apply_order_by-total kind rows c direction table h =
      let (out, e) = sorted_by-total kind (item c) direction rows (by_item kind c rows h) in
      (out, rw (checked kind c table rows h) e)
