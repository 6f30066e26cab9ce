-- ===== src/Storage/Server/Laws.antt =====
-- What INSERT sends, and what UPDATE counts.
use Prim.Native.String
use sql_parser.Base.{
  ℕ, suc, ◌+◌, String, Bool, true, false, ◌≡◌, refl, ap, sym, ◌∙◌, Option, List, [], ◌∷◌, length,
  arith,
}
use sql_parser.Base.Int.{ℤ}
use sql_parser.Base.Exec.{Exec, lift, pure, >>=-eq-ok}
use sql_parser.Base.Result.{Result, ok, filter_m, keep, ok-injective}
use sql_parser.Value.{Runtime, Val}
use sql_parser.Ast.{Condition}
use sql_parser.Table.{Row}
use sql_parser.Storage.Row.{SchemaColumn, serialize_row}
use sql_parser.Storage.Server.{update_if, update_each, update_row_bytes}
use sql_parser.Storage.Server.Commands.{selected, assign}

module _ ⦃rt : Runtime⦄ {S : Type 0} (server : List ℕ → Exec S (List ℕ)) where
  open rt use {Float}

  value : {A : Type 0} {a b : A} {s s' : S} → pure a s ≡ (ok b, s') → a ≡ b
  value {A} h = ok-injective (ap (λ (p : Result A × S). p.0) h)

  zero_first : (n : ℕ) → 0 + n ≡ n
  zero_first n = omega arith

  one_first : (n : ℕ) → 1 + n ≡ suc n
  one_first n = omega arith

  filter_m-step :
      {A : Type 0} (p : A → Result Bool) (x : A) (xs : List A) (b : Bool) (ys : List A)
      → p x ≡ ok b
      → filter_m p xs ≡ ok ys
      → filter_m p (x ∷ xs) ≡ ok (keep b x ys)
  filter_m-step p x xs b ys e e' = rw (e, e') refl

  -- Whether a row was updated, as a number, and whether it is kept.
  count_if :
      (table : String) (schema : List SchemaColumn) (assignments : List (String × Val))
      (pair : Row × ℤ) (b : Bool) (s : S) {n : ℕ} {s' : S} (chosen : List (Row × ℤ))
      → update_if server table schema assignments pair b s ≡ (ok n, s')
      → n + length chosen ≡ length (keep b pair chosen)
  unfolding update_if
  count_if table schema assignments (row, row_id) false s chosen h =
      ap (λ k. k + length chosen) (sym (value h)) ∙ zero_first (length chosen)
  count_if table schema assignments (row, row_id) true s chosen h =
      let (bytes, s₁, eb, h₁) =
        >>=-eq-ok _ (lift (serialize_row schema (assign assignments row))) s h in
      let (u, s₂, eu, h₂) = >>=-eq-ok _ (update_row_bytes server table row_id bytes) s₁ h₁ in
      ap (λ k. k + length chosen) (sym (value h₂)) ∙ one_first (length chosen)

  -- If the loop of update_rows ends without an exception, then WHERE gave a value on each row, and the
  -- result is the number of rows that it selected.
  pub update_each-count :
      (table : String) (schema : List SchemaColumn) (assignments : List (String × Val))
      (cond : Option (Condition Float)) (rows : List (Row × ℤ)) (s s' : S) (n : ℕ)
      → update_each server table schema assignments cond rows s ≡ (ok n, s')
      → (chosen : List (Row × ℤ)) × (filter_m (λ p. selected cond p.0) rows ≡ ok chosen)
        × (n ≡ length chosen)
  unfolding update_each
  update_each-count table schema assignments cond [] s s' n h = ([], refl, sym (value h))
  update_each-count table schema assignments cond ((row, row_id) ∷ rows) s s' n h =
      let (b, s₁, eb, h₁) = >>=-eq-ok _ (lift (selected cond row)) s h in
      let (k, s₂, ek, h₂) =
        >>=-eq-ok _ (update_if server table schema assignments (row, row_id) b) s₁ h₁ in
      let (m, s₃, em, h₃) =
        >>=-eq-ok _ (update_each server table schema assignments cond rows) s₂ h₂ in
      let (chosen, ec, e) = update_each-count table schema assignments cond rows s₂ s₃ m em in
      let known : selected cond row ≡ ok b = ap (λ (p : Result Bool × S). p.0) eb in
      (
        keep b (row, row_id) chosen,
        filter_m-step (λ p. selected cond p.0) (row, row_id) rows b chosen known ec,
        sym (value h₃)
            ∙ ap (λ x. k + x) e
            ∙ count_if table schema assignments (row, row_id) b s₁ chosen ek,
      )
