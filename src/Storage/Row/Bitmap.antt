-- ===== src/Storage/Row/Bitmap.antt =====
-- The null bitmap: the bit of each column is set just where its value is NULL.
use sql_parser.Base.{
  ℕ, zero, suc, ◌+◌, ◌*◌, ◌/◌, ◌%◌, ◌≤◌, ◌<◌, Bool, true, false, ◌≡◌, ◌≢◌, refl, ap, sym, ◌∙◌, some,
  List, [], ◌∷◌, if◌then◌else◌, length, get_or, set, get_elem?, length-set, replicate, arith,
  length-replicate, ◌⊎◌, inl, inr,
}
use sql_parser.Base.Result.{ok}
use sql_parser.Value.{Runtime, is_none}
use sql_parser.Table.{Row}
use sql_parser.Storage.Bytes.{bit, set_bit, bit-set_bit, bit-set_bit_ne}
use sql_parser.Storage.Row.{SchemaColumn, mark_null, is_null, mark_nulls, value_of, null_bitmap_len}

module _ {ℓ} {A : Type ℓ} where
  get_elem?-get_or :
      (xs : List A) (i : ℕ) (d : A) → i < length xs → get_elem? xs i ≡ some (get_or xs i d)
  get_elem?-get_or [] i d h = elim h [ ]
  get_elem?-get_or (x ∷ xs) zero d h = refl
  get_elem?-get_or (x ∷ xs) (suc i) d h = get_elem?-get_or xs i d (omega arith)

  get_or-set_self : (xs : List A) (i : ℕ) (v d : A) → i < length xs → get_or (set xs i v) i d ≡ v
  get_or-set_self [] i v d h = elim h [ ]
  get_or-set_self (x ∷ xs) zero v d h = refl
  get_or-set_self (x ∷ xs) (suc i) v d h = get_or-set_self xs i v d (omega arith)

  get_or-set_ne :
      (xs : List A) (i j : ℕ) (v d : A) → i ≢ j → get_or (set xs i v) j d ≡ get_or xs j d
  get_or-set_ne [] i j v d h = refl
  get_or-set_ne (x ∷ xs) zero zero v d h = absurd (h refl)
  get_or-set_ne (x ∷ xs) zero (suc j) v d h = refl
  get_or-set_ne (x ∷ xs) (suc i) zero v d h = refl
  get_or-set_ne (x ∷ xs) (suc i) (suc j) v d h = get_or-set_ne xs i j v d (λ e. h (ap suc e))

  get_or-replicate : (n i : ℕ) (d : A) → get_or (replicate n d) i d ≡ d
  get_or-replicate zero i d = refl
  get_or-replicate (suc n) zero d = refl
  get_or-replicate (suc n) (suc i) d = get_or-replicate n i d

abbrev bit_at : List ℕ → ℕ → Bool
bit_at bitmap i = bit (i % 8) (get_or bitmap (i / 8) 0)

bit-zero : (k : ℕ) → bit k 0 ≡ false
unfolding bit
bit-zero zero = refl
bit-zero (suc k) = bit-zero k

bit_at-zeros : (n i : ℕ) → bit_at (replicate n 0) i ≡ false
bit_at-zeros n i = ap (bit (i % 8)) (get_or-replicate n (i / 8) 0) ∙ bit-zero (i % 8)

bit_at-mark_null :
    (i : ℕ) (bitmap : List ℕ) → i / 8 < length bitmap → bit_at (mark_null i bitmap) i ≡ true
unfolding mark_null
bit_at-mark_null i bitmap h =
    ap (bit (i % 8)) (get_or-set_self bitmap (i / 8) _ 0 h) ∙ bit-set_bit (i % 8) _

bit_at-mark_null_ne :
    (i j : ℕ) (bitmap : List ℕ)
    → i < j ⊎ j < i
    → i / 8 < length bitmap
    → bit_at (mark_null i bitmap) j ≡ bit_at bitmap j
unfolding mark_null
bit_at-mark_null_ne i j bitmap h k = elim (same_byte (i / 8) (j / 8)) [
  | inl e ↦
      ap (bit (j % 8)) (
        ap (λ n. get_or (set bitmap (i / 8) (set_bit (i % 8) (get_or bitmap (i / 8) 0))) n 0)
          (sym e)
        ∙ get_or-set_self bitmap (i / 8) _ 0 k)
      ∙ bit-set_bit_ne (j % 8) (i % 8) _ (λ r. differ e r h)
      ∙ ap (λ n. bit (j % 8) (get_or bitmap n 0)) e
  | inr ne ↦ ap (bit (j % 8)) (get_or-set_ne bitmap (i / 8) (j / 8) _ 0 ne)
]
  where
    same_byte : (a b : ℕ) → (a ≡ b) ⊎ (a ≢ b)
    same_byte a b = ground arith

    differ : i / 8 ≡ j / 8 → j % 8 ≡ i % 8 → i < j ⊎ j < i → ⊥
    differ e r (inl lt) = omega arith
    differ e r (inr lt) = omega arith

length-mark_null : (i : ℕ) (bitmap : List ℕ) → length (mark_null i bitmap) ≡ length bitmap
unfolding mark_null
length-mark_null i bitmap = length-set bitmap (i / 8) _

module _ ⦃rt : Runtime⦄ (d : Row) where
  -- One turn of the loop.
  abbrev marked : ℕ → SchemaColumn → List ℕ → List ℕ
  marked i col bitmap = if is_none (value_of col.name d) then mark_null i bitmap else bitmap

  length-marked :
      (i : ℕ) (col : SchemaColumn) (bitmap : List ℕ) → length (marked i col bitmap) ≡ length bitmap
  length-marked i col bitmap =
      elim (is_none (value_of col.name d))
        as (λ b. length (if b then mark_null i bitmap else bitmap) ≡ length bitmap) [
          | true ↦ length-mark_null i bitmap
          | false ↦ refl
        ]

  marked_self :
      (i : ℕ) (col : SchemaColumn) (bitmap : List ℕ)
      → i / 8 < length bitmap
      → bit_at bitmap i ≡ false
      → bit_at (marked i col bitmap) i ≡ is_none (value_of col.name d)
  marked_self i col bitmap h z =
      elim (is_none (value_of col.name d))
        as (λ b. bit_at (if b then mark_null i bitmap else bitmap) i ≡ b) [
          | true ↦ bit_at-mark_null i bitmap h
          | false ↦ z
        ]

  marked_ne :
      (i j : ℕ) (col : SchemaColumn) (bitmap : List ℕ)
      → i < j ⊎ j < i
      → i / 8 < length bitmap
      → bit_at (marked i col bitmap) j ≡ bit_at bitmap j
  marked_ne i j col bitmap h k =
      elim (is_none (value_of col.name d))
        as (λ b. bit_at (if b then mark_null i bitmap else bitmap) j ≡ bit_at bitmap j) [
          | true ↦ bit_at-mark_null_ne i j bitmap h k
          | false ↦ refl
        ]

  pub length-mark_nulls :
      (i : ℕ) (columns : List SchemaColumn) (bitmap : List ℕ)
      → length (mark_nulls d i columns bitmap) ≡ length bitmap
  unfolding mark_nulls
  length-mark_nulls i [] bitmap = refl
  length-mark_nulls i (col ∷ columns) bitmap =
      length-mark_nulls (suc i) columns (marked i col bitmap) ∙ length-marked i col bitmap

  bit_at-mark_nulls_before :
      (i j : ℕ) (columns : List SchemaColumn) (bitmap : List ℕ)
      → j < i
      → i + length columns ≤ 8 * length bitmap
      → bit_at (mark_nulls d i columns bitmap) j ≡ bit_at bitmap j
  unfolding mark_nulls
  bit_at-mark_nulls_before i j [] bitmap h k = refl
  bit_at-mark_nulls_before i j (col ∷ columns) bitmap h k =
      bit_at-mark_nulls_before (suc i) j columns (marked i col bitmap) (omega arith)
        (omega (arith, length-marked i col bitmap))
      ∙ marked_ne i j col bitmap (inr h) (omega arith)

  -- The bit of each column, from column i on, says whether its value is NULL.
  abbrev pub Marked : List ℕ → ℕ → List SchemaColumn → Type 0
  Marked bitmap i [] = Unit
  Marked bitmap i (col ∷ columns) =
      (is_null bitmap i ≡ ok (is_none (value_of col.name d))) × Marked bitmap (suc i) columns

  is_null-bit_at :
      (bitmap : List ℕ) (i : ℕ) → i / 8 < length bitmap → is_null bitmap i ≡ ok (bit_at bitmap i)
  unfolding is_null bit
  is_null-bit_at bitmap i h = rw (is_null, get_elem?-get_or bitmap (i / 8) 0 h) refl

  mark_nulls-Marked :
      (i : ℕ) (columns : List SchemaColumn) (bitmap : List ℕ)
      → i + length columns ≤ 8 * length bitmap
      → ((j : ℕ) → i ≤ j → bit_at bitmap j ≡ false)
      → Marked (mark_nulls d i columns bitmap) i columns
  unfolding mark_nulls
  mark_nulls-Marked i [] bitmap h z = tt
  mark_nulls-Marked i (col ∷ columns) bitmap h z =
      let next = marked i col bitmap in
      let le : suc i + length columns ≤ 8 * length next =
        omega (arith, length-marked i col bitmap) in
      let in_range : i / 8 < length bitmap = omega arith in
      (
        is_null-bit_at (mark_nulls d (suc i) columns next) i
              (omega (arith, length-mark_nulls (suc i) columns next, length-marked i col bitmap))
            ∙ ap ok (
                bit_at-mark_nulls_before (suc i) i columns next (omega arith) le
                ∙ marked_self i col bitmap in_range (z i (omega arith))),
        mark_nulls-Marked (suc i) columns next le
            (λ j hj. marked_ne i j col bitmap (inl (omega arith)) in_range ∙ z j (omega arith)),
      )

  pub null_bitmap-Marked :
      (columns : List SchemaColumn)
      → Marked (mark_nulls d 0 columns (replicate (null_bitmap_len columns) 0)) 0 columns
  null_bitmap-Marked columns =
      mark_nulls-Marked 0 columns _
        (omega (arith, length-replicate {A = ℕ} ((length columns + 7) / 8) 0))
        (λ j h. bit_at-zeros (null_bitmap_len columns) j)
