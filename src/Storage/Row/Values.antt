-- ===== src/Storage/Row/Values.antt =====
-- One value of a row: unpacking gives back what was packed.
use sql_parser.Base.{
  ℕ, zero, suc, ◌+◌, ◌≤◌, ◌<◌, String, Bool, true, false, ◌≡◌, refl, ap, sym, ◌∙◌, List, [], ◌∷◌,
  ◌++◌, length, take, drop, arith, ◌%◌, ◌/◌,
}
use sql_parser.Base.Int.{ℤ, pos, negsuc}
use sql_parser.Base.Result.{ok}
use sql_parser.Value.{Runtime, null, bool, int, float, str, Val, is_none, py_str}
use sql_parser.Storage.Bytes.{
  IsI32, i32_bytes, pack_i32-eq-ok, unpack_i32-pack, pack_u16-eq-ok, unpack_u16-pack,
  unpack_u8-eq-ok,
}
use sql_parser.Storage.Row.{
  SchemaColumn, pack_value, unpack_value, text_bytes, py_int, py_float, py_truth,
}
use mathlib.Core.Path.{subst}

module _ {ℓ} {A : Type ℓ} where
  drop-nil : (n : ℕ) → drop {A = A} n [] ≡ []
  drop-nil zero = refl
  drop-nil (suc n) = refl

  drop-add : (n m : ℕ) (xs : List A) → drop (n + m) xs ≡ drop m (drop n xs)
  drop-add zero m xs = let e : zero + m ≡ m = omega arith in ap (λ k. drop k xs) e
  drop-add (suc n) m [] = drop-nil (suc n + m) ∙ sym (drop-nil m)
  drop-add (suc n) m (x ∷ xs) =
      let e : suc n + m ≡ suc (n + m) = omega arith in ap (λ k. drop k (x ∷ xs)) e ∙ drop-add n m xs

  pub drop-length : (xs ys : List A) → drop (length xs) (xs ++ ys) ≡ ys
  drop-length [] ys = refl
  drop-length (x ∷ xs) ys = drop-length xs ys

  pub take-length : (xs ys : List A) → take (length xs) (xs ++ ys) ≡ xs
  take-length [] ys = refl
  take-length (x ∷ xs) ys = ap (λ zs. x ∷ zs) (take-length xs ys)

  take-all : (n : ℕ) (xs : List A) → length xs ≤ n → take n xs ≡ xs
  take-all zero [] h = refl
  take-all zero (x ∷ xs) h = absurd (omega arith)
  take-all (suc n) [] h = refl
  take-all (suc n) (x ∷ xs) h = ap (λ zs. x ∷ zs) (take-all n xs (omega arith))

  pub drop_past :
      (xs ys buf : List A) (offset : ℕ)
      → drop offset buf ≡ xs ++ ys
      → drop (offset + length xs) buf ≡ ys
  drop_past xs ys buf offset e =
      drop-add offset (length xs) buf ∙ ap (drop (length xs)) e ∙ drop-length xs ys

module _ ⦃rt : Runtime⦄ where
  -- The value is NULL, or of the column's type and not changed by packing: an integer of 32 bits, a
  -- float that four bytes hold, a Boolean, a text whose bytes the column's size and 16 bits hold.
  pub data Fits (col : SchemaColumn) : Val → Type 0 where
    null_fits : Fits col null
    int_fits : (n : ℤ) → col.col_type ≡ "INT" → IsI32 n → Fits col (int n)
    float_fits :
        (x : rt.Float) (bytes : List ℕ)
        → col.col_type ≡ "FLOAT"
        → rt.pack_float x ≡ ok bytes
        → length bytes ≡ 4
        → rt.unpack_float bytes ≡ x
        → Fits col (float x)
    bool_fits : (b : Bool) → col.col_type ≡ "BOOL" → Fits col (bool b)
    text_fits :
        (s : String)
        → col.col_type ≡ "VARCHAR"
        → length (rt.encode s) ≤ col.max_size
        → length (rt.encode s) < 65536
        → Fits col (str s)

  -- Packing the value under this type gives bytes, and reading them at their place gives the value.
  abbrev pub RoundTrip : String → ℕ → Val → Type 0
  RoundTrip col_type max_size v =
      (bytes : List ℕ) × (pack_value col_type max_size v ≡ ok bytes)
      × ((buf rest : List ℕ) (offset : ℕ)
          → drop offset buf ≡ bytes ++ rest
          → unpack_value buf offset col_type ≡ ok (v, offset + length bytes))

  length-i32_bytes : (n : ℤ) → length (i32_bytes n) ≡ 4
  length-i32_bytes (pos n) = refl
  length-i32_bytes (negsuc n) = refl

  int-RoundTrip : (max_size : ℕ) (n : ℤ) → IsI32 n → RoundTrip "INT" max_size (int n)
  unfolding pack_value unpack_value py_int
  int-RoundTrip max_size n h = (
    i32_bytes n,
    pack_i32-eq-ok n h,
    λ buf rest offset e. rw (unpack_i32-pack n buf rest offset h e, length-i32_bytes n) refl,
  )

  float-RoundTrip :
      (max_size : ℕ) (x : rt.Float) (bytes : List ℕ)
      → rt.pack_float x ≡ ok bytes
      → length bytes ≡ 4
      → rt.unpack_float bytes ≡ x
      → RoundTrip "FLOAT" max_size (float x)
  unfolding pack_value unpack_value py_float
  float-RoundTrip max_size x bytes p l u = (
    bytes,
    p,
    λ buf rest offset e.
        let cut : take 4 (drop offset buf) ≡ bytes = rw (e, ← l) (take-length bytes rest) in
        rw (cut, l, u) refl,
  )

  bool-RoundTrip : (max_size : ℕ) (b : Bool) → RoundTrip "BOOL" max_size (bool b)
  unfolding pack_value unpack_value py_truth
  bool-RoundTrip max_size true =
      (1 ∷ [], refl, λ buf rest offset e. rw (unpack_u8-eq-ok 1 buf rest offset e) refl)
  bool-RoundTrip max_size false =
      (0 ∷ [], refl, λ buf rest offset e. rw (unpack_u8-eq-ok 0 buf rest offset e) refl)

  text-RoundTrip :
      (max_size : ℕ) (s : String)
      → length (rt.encode s) ≤ max_size
      → length (rt.encode s) < 65536
      → RoundTrip "VARCHAR" max_size (str s)
  unfolding pack_value unpack_value text_bytes py_str
  text-RoundTrip max_size s h k =
      let bytes = rt.encode s in
      let n = length bytes in
      (
        n % 256 ∷ n / 256 ∷ bytes,
        rw (take-all max_size bytes h, pack_u16-eq-ok n k) refl,
        λ buf rest offset e.
            let body : drop (offset + 2) buf ≡ bytes ++ rest =
              drop_past (n % 256 ∷ n / 256 ∷ []) (bytes ++ rest) buf offset e in
            rw
              (
                unpack_u16-pack n buf (bytes ++ rest) offset e,
                body,
                take-length bytes rest,
                rt.decode-encode s,
              )
              (ap (λ k. ok (str s, k)) (omega arith)),
      )

  pub value-RoundTrip :
      (col : SchemaColumn) (v : Val)
      → Fits col v
      → is_none v ≡ false
      → RoundTrip col.col_type col.max_size v
  value-RoundTrip col _ null_fits h = cc
  value-RoundTrip col _ (int_fits n e k) h =
      subst (λ t. RoundTrip t col.max_size (int n)) (sym e) (int-RoundTrip col.max_size n k)
  value-RoundTrip col _ (float_fits x bytes e p l u) h =
      subst (λ t. RoundTrip t col.max_size (float x)) (sym e)
        (float-RoundTrip col.max_size x bytes p l u)
  value-RoundTrip col _ (bool_fits b e) h =
      subst (λ t. RoundTrip t col.max_size (bool b)) (sym e) (bool-RoundTrip col.max_size b)
  value-RoundTrip col _ (text_fits s e k k') h =
      subst (λ t. RoundTrip t col.max_size (str s)) (sym e) (text-RoundTrip col.max_size s k k')

  pub is_none_null : (v : Val) → is_none v ≡ true → v ≡ null
  is_none_null null h = refl
  is_none_null (bool b) h = cc
  is_none_null (int n) h = cc
  is_none_null (float x) h = cc
  is_none_null (str s) h = cc
