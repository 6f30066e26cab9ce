-- ===== src/Storage/Server/Names.antt =====
-- The values of an INSERT by the names that they stand at.
use sql_parser.Base.{
  String, ◌≡◌, refl, ap, sym, ◌∙◌, Option, some, List, [], ◌∷◌, All, map, none, Differ,
  if◌then◌else◌, str_eq, eq_iff, Bool-cases, inl, inr, ◌≢◌,
}
use sql_parser.Base.Dict.{get, get_or, put, get-put}
use sql_parser.Value.{Runtime, Val, null}
use sql_parser.Table.{Row}
use sql_parser.Storage.Row.{SchemaColumn, value_of}
use sql_parser.Storage.Server.Commands.{put_all, column_names}

module _ ⦃rt : Runtime⦄ where
  -- The value that stands at the place of a name.
  abbrev pub found : String → List String → List Val → Option Val
  found c (n ∷ ns) (v ∷ vs) = if str_eq n c then some v else found c ns vs
  found c _ _ = none

  abbrev pub or_null : Option Val → Val
  or_null none = null
  or_null (some v) = v

  abbrev pub named_value : String → List String → List Val → Val
  named_value c names values = or_null (found c names values)

  -- The names of the values: the columns of the statement, or those of the schema.
  abbrev pub NamedBy : Option (List String) → List SchemaColumn → List String → Type 0
  NamedBy none schema names = names ≡ map (λ (col : SchemaColumn). col.name) schema
  NamedBy (some columns) schema names = names ≡ columns

  found-none :
      (c n : String) (ns : List String) (vs : List Val)
      → n ≡ c
      → All (λ m. n ≢ m) ns
      → found c ns vs ≡ none
  found-none c n [] vs e h = refl
  found-none c n (m ∷ ns) [] e h = refl
  found-none c n (m ∷ ns) (v ∷ vs) e (ne, h) = elim (Bool-cases (str_eq m c)) [
    | inl same ↦ absurd (ne (e ∙ sym ((eq_iff m c).0 same)))
    | inr other ↦ rw other (found-none c n ns vs e h)
  ]

  abbrev or_else : Option Val → Option Val → Option Val
  or_else none o = o
  or_else (some v) o = some v

  put_all-found :
      (c : String) (ns : List String) (vs : List Val) (d : Row)
      → Differ (λ n. n) ns
      → get c (put_all ns vs d) ≡ or_else (found c ns vs) (get c d)
  unfolding put_all
  put_all-found c [] vs d h = refl
  put_all-found c (n ∷ ns) [] d h = refl
  put_all-found c (n ∷ ns) (v ∷ vs) d (apart, h) =
      put_all-found c ns vs (put n v d) h
      ∙ ap (or_else (found c ns vs)) (get-put n c v d)
      ∙ elim (Bool-cases (str_eq n c)) [
        | inl same ↦ rw (same, found-none c n ns vs ((eq_iff n c).0 same) apart) refl
        | inr other ↦ rw other refl
      ]

  value_of-found :
      (c : String) (d : Row) (o : Option Val) → get c d ≡ or_else o none → value_of c d ≡ or_null o
  value_of-found c d none e = rw (e, get_or) refl
  value_of-found c d (some v) e = rw (e, get_or) refl

  pub column_names-value :
      (columns : Option (List String)) (schema : List SchemaColumn) (names : List String)
      (values : List Val)
      → NamedBy columns schema names
      → Differ (λ n. n) names
      → (c : String)
      → value_of c (put_all (column_names columns schema) values []) ≡ named_value c names values
  unfolding column_names get
  column_names-value none schema names values e h c =
      rw (← e) (value_of-found c _ (found c names values) (put_all-found c names values [] h))
  column_names-value (some cs) schema names values e h c =
      rw (← e) (value_of-found c _ (found c names values) (put_all-found c names values [] h))
