-- ===== src/Storage/Bytes.antt =====
-- The bit operations and the fixed-width numbers of Python's struct module that
-- sql-engine/storage_server.py packs rows with. A byte is a number below 256.
use sql_parser.Base.{
  ℕ, zero, suc, ◌+◌, ◌-◌, ◌*◌, ◌/◌, ◌%◌, ◌<◌, Bool, true, ◌≡◌, ◌≢◌, refl, ap, ◌∙◌, List, [], ◌∷◌,
  ◌++◌, if◌then◌else◌, ltb, ◌==◌, arith, drop,
}
use sql_parser.Base.Int.{ℤ, pos, negsuc}
use sql_parser.Base.Result.{Result, ok, raised, struct_error}

-- bool(b & (1 << k))
unfoldable pub bit : ℕ → ℕ → Bool
bit zero b = b % 2 == 1
bit (suc k) b = bit k (b / 2)

-- b | (1 << k)
unfoldable pub set_bit : ℕ → ℕ → ℕ
set_bit zero b = if b % 2 == 1 then b else b + 1
set_bit (suc k) b = b % 2 + 2 * set_bit k (b / 2)

pub bit-set_bit : (k b : ℕ) → bit k (set_bit k b) ≡ true
unfolding bit set_bit
bit-set_bit zero b = ground arith
bit-set_bit (suc k) b =
    let e : (b % 2 + 2 * set_bit k (b / 2)) / 2 ≡ set_bit k (b / 2) = omega arith in
    ap (bit k) e ∙ bit-set_bit k (b / 2)

pub bit-set_bit_ne : (j k b : ℕ) → j ≢ k → bit j (set_bit k b) ≡ bit j b
unfolding bit set_bit
bit-set_bit_ne zero zero b h = absurd (h refl)
bit-set_bit_ne zero (suc k) b h =
    let e : (b % 2 + 2 * set_bit k (b / 2)) % 2 ≡ b % 2 = omega arith in ap (λ n. n == 1) e
bit-set_bit_ne (suc j) zero b h = ap (bit j) (by_parity b)
  where
    by_parity : (b : ℕ) → (if b % 2 == 1 then b else b + 1) / 2 ≡ b / 2
    by_parity b = ground arith
bit-set_bit_ne (suc j) (suc k) b h =
    let e : (b % 2 + 2 * set_bit k (b / 2)) / 2 ≡ set_bit k (b / 2) = omega arith in
    ap (bit j) e ∙ bit-set_bit_ne j k (b / 2) (λ same. h (ap suc same))

-- The four bytes of a number below 2 ^ 32, the lowest first.
abbrev pub bytes_of : ℕ → List ℕ
bytes_of m = m % 256 ∷ m / 256 % 256 ∷ m / 65536 % 256 ∷ m / 16777216 ∷ []

-- struct.pack("<i", n): two's complement in 32 bits.
unfoldable pub pack_i32 : ℤ → Result (List ℕ)
pack_i32 (pos n) = if ltb n 2147483648 then ok (bytes_of n) else raised struct_error
pack_i32 (negsuc n) =
    if ltb n 2147483648 then ok (bytes_of (4294967295 - n)) else raised struct_error

abbrev pub signed : ℕ → ℤ
signed m = if ltb m 2147483648 then pos m else negsuc (4294967295 - m)

-- struct.unpack_from("<i", buf, offset)[0]; `struct.error` if four bytes are not there.
unfoldable pub unpack_i32 : List ℕ → ℕ → Result ℤ
unpack_i32 buf offset = read (drop offset buf)
  where
    read : List ℕ → Result ℤ
    read (a ∷ b ∷ c ∷ d ∷ rest) = ok (signed (a + 256 * b + 65536 * c + 16777216 * d))
    read _ = raised struct_error

-- struct.pack("<H", n)
unfoldable pub pack_u16 : ℕ → Result (List ℕ)
pack_u16 n = if ltb n 65536 then ok (n % 256 ∷ n / 256 ∷ []) else raised struct_error

-- struct.unpack_from("<H", buf, offset)[0]
unfoldable pub unpack_u16 : List ℕ → ℕ → Result ℕ
unpack_u16 buf offset = read (drop offset buf)
  where
    read : List ℕ → Result ℕ
    read (a ∷ b ∷ rest) = ok (a + 256 * b)
    read _ = raised struct_error

-- struct.unpack_from("B", buf, offset)[0]
unfoldable pub unpack_u8 : List ℕ → ℕ → Result ℕ
unpack_u8 buf offset = read (drop offset buf)
  where
    read : List ℕ → Result ℕ
    read (a ∷ rest) = ok a
    read _ = raised struct_error

-- An integer that 32 bits hold.
abbrev pub IsI32 : ℤ → Type 0
IsI32 (pos n) = n < 2147483648
IsI32 (negsuc n) = n < 2147483648

abbrev pub i32_bytes : ℤ → List ℕ
i32_bytes (pos n) = bytes_of n
i32_bytes (negsuc n) = bytes_of (4294967295 - n)

pub pack_i32-eq-ok : (n : ℤ) → IsI32 n → pack_i32 n ≡ ok (i32_bytes n)
unfolding pack_i32
pack_i32-eq-ok (pos n) h = ground arith
pack_i32-eq-ok (negsuc n) h = ground arith

bytes_of-sum :
    (m : ℕ)
    → m < 4294967296
    → m % 256 + 256 * (m / 256 % 256) + 65536 * (m / 65536 % 256) + 16777216 * (m / 16777216) ≡ m
bytes_of-sum m h = omega arith

pub unpack_i32-pack :
    (n : ℤ) (buf rest : List ℕ) (offset : ℕ)
    → IsI32 n
    → drop offset buf ≡ i32_bytes n ++ rest
    → unpack_i32 buf offset ≡ ok n
unfolding unpack_i32
unpack_i32-pack (pos n) buf rest offset h e = rw (e, bytes_of-sum n (omega arith)) (ground arith)
unpack_i32-pack (negsuc n) buf rest offset h e =
    rw (e, bytes_of-sum (4294967295 - n) (omega arith)) (ground arith)

pub pack_u16-eq-ok : (n : ℕ) → n < 65536 → pack_u16 n ≡ ok (n % 256 ∷ n / 256 ∷ [])
unfolding pack_u16
pack_u16-eq-ok n h = ground arith

pub unpack_u16-pack :
    (n : ℕ) (buf rest : List ℕ) (offset : ℕ)
    → drop offset buf ≡ n % 256 ∷ n / 256 ∷ rest
    → unpack_u16 buf offset ≡ ok n
unfolding unpack_u16
unpack_u16-pack n buf rest offset e = rw e (ap ok (omega arith))

pub unpack_u8-eq-ok :
    (n : ℕ) (buf rest : List ℕ) (offset : ℕ)
    → drop offset buf ≡ n ∷ rest
    → unpack_u8 buf offset ≡ ok n
unfolding unpack_u8
unpack_u8-eq-ok n buf rest offset e = rw e refl
