-- ===== src/Sweep/Table.antt =====
-- Sweep: the table and the chart show the same.
use mathlib.Core.Path.{subst}
use sql_parser.Base.{
  String, Bool, true, false, not, ◌≡◌, refl, ap, Option, none, some, List, [], ◌∷◌, map, ℕ, zero,
  suc, get_elem?, get_or, str_eq, inl, inr, Bool-cases, if◌then◌else◌,
}
use sql_parser.Base.Int.{ℤ}
use sql_parser.Base.Result.{keep}
use sql_parser.Sweep.{
  SweepRow, SweepFrame, Metric, and_point, get_metric_value, distance, points, cell, table_cells,
  table_rows,
}
use sql_parser.Value.{Runtime, real, str_int}

-- The first cell of each row of a table with the cell of column i, where that is not blank.
abbrev pub filled : ℕ → List (List String) → List (String × String)
filled i [] = []
filled i (cells ∷ rows) =
    keep (not (str_eq (get_or cells i "") "")) (get_or cells 0 "", get_or cells i "")
      (filled i rows)

module _ ⦃rt : Runtime⦄ (zero_float : rt.Float) (float_sub : rt.Float → rt.Float → rt.Float) where
  open rt use {Float}

  lt_irrefl : (x : Float) → rt.float_lt (real x) (real x) ≡ false
  lt_irrefl x = elim (Bool-cases (rt.float_lt (real x) (real x))) [
    | inl e ↦ rt.float_lt_asym (real x) (real x) e
    | inr e ↦ e
  ]

  -- max(0.0, d) is not below 0.0.
  max-nonneg :
      (d : Float) (b : Bool)
      → rt.float_lt (real zero_float) (real d) ≡ b
      → rt.float_lt (real (if b then d else zero_float)) (real zero_float) ≡ false
  max-nonneg d true e = rt.float_lt_asym (real zero_float) (real d) e
  max-nonneg d false e = lt_irrefl zero_float

  -- A distance to the hit rate of the policy opt is not below 0.0.
  pub distance-nonneg :
      (x y : Option Float) (d : Float)
      → distance zero_float float_sub x y ≡ some d
      → rt.float_lt (real d) (real zero_float) ≡ false
  unfolding distance
  distance-nonneg none y d e = cc
  distance-nonneg (some x) none d e = cc
  distance-nonneg (some x) (some y) d e =
      let picked =
        if rt.float_lt (real zero_float) (real (float_sub x y))
        then float_sub x y
        else zero_float in
      let e₂ : picked ≡ d = cc in
      subst (λ z. rt.float_lt (real z) (real zero_float) ≡ false) e₂
        (max-nonneg (float_sub x y) _ refl)

  module _ (format_3f : Float → String) where
    abbrev shown : ℤ × Float → String × String
    shown (frames, x) = (str_int frames, format_3f x)

    column_cell :
        (f : String → String) (ps : List String) (i : ℕ) (p : String)
        → get_elem? ps i ≡ some p
        → get_or (map f ps) i "" ≡ f p
    column_cell f [] i p e = cc
    column_cell f (q ∷ ps) zero p e = let same : q ≡ p = cc in ap f same
    column_cell f (q ∷ ps) (suc i) p e = column_cell f ps i p e

    filled_point :
        ((x : Float) → str_eq (format_3f x) "" ≡ false)
        → (frames : ℤ) (o : Option Float) (ps : List (ℤ × Float)) (rest : List (String × String))
        → map shown ps ≡ rest
        → map shown (and_point frames o ps)
          ≡ keep
              (not (str_eq (cell zero_float float_sub format_3f o) ""))
              (str_int frames, cell zero_float float_sub format_3f o)
              rest
    filled_point visible frames none ps rest h = h
    filled_point visible frames (some x) ps rest h = rw (visible x, h) refl

    points-filled_rows :
        ((x : Float) → str_eq (format_3f x) "" ≡ false)
        → (m : Metric) (policies : List String) (i : ℕ) (policy : String)
        → get_elem? policies i ≡ some policy
        → (rs : List (SweepRow Float))
        → map shown (points zero_float float_sub m policy rs)
          ≡ filled (suc i) (map (table_cells zero_float float_sub format_3f m policies) rs)
    unfolding points table_cells
    points-filled_rows visible m policies i policy e [] = refl
    points-filled_rows visible m policies i policy e (r ∷ rs) =
        rw
          (column_cell
            (λ p. cell zero_float float_sub format_3f (get_metric_value zero_float float_sub m r p))
            policies i policy e)
          (filled_point visible r.frames (get_metric_value zero_float float_sub m r policy)
            (points zero_float float_sub m policy rs) _
            (points-filled_rows visible m policies i policy e rs))

    -- The points of a policy's line in the chart are the cells of its column that are not blank, each
    -- with the first cell of its row, if the format gives no blank text.
    pub points-filled :
        ((x : Float) → str_eq (format_3f x) "" ≡ false)
        → (s : SweepFrame Float) (i : ℕ) (policy : String)
        → get_elem? s.selected_policies i ≡ some policy
        → map shown (points zero_float float_sub s.metric policy s.rows_by_frame)
          ≡ filled (suc i) (table_rows zero_float float_sub format_3f s)
    unfolding table_rows
    points-filled visible s i policy e =
        points-filled_rows visible s.metric s.selected_policies i policy e s.rows_by_frame
