-- ===== src/Line/Value.antt =====
-- The specification of src/xnet/xline.h: values, the bytes that stand for them, and the bytes of
-- an entry of an object.
use wenas.Base.{
  ℕ, ◌+◌, ◌^◌, ◌<◌, ◌≤◌, ◌≡◌, refl, List, [], ◌∷◌, ◌++◌, ok, length, take, IsU64, arith, ap,
}
use wenas.Line.{
  little, n2b, sizeof_line, type_int, type_uint, type_real, type_str, type_bin, type_obj, type_list,
}

-- A number is its 64 bits; the payload of an object or a list is the bytes of its entries.
pub data Value : Type 0 where
  int : ℕ → Value
  uint : ℕ → Value
  real : ℕ → Value
  str : List ℕ → Value
  bin : List ℕ → Value
  obj : List ℕ → Value
  list : List ℕ → Value

abbrev block : ℕ → List ℕ → List ℕ
block type payload = n2b little (length payload) type ++ payload

unfoldable pub encode : Value → List ℕ
encode (int n) = n2b little n type_int
encode (uint n) = n2b little n type_uint
encode (real n) = n2b little n type_real
encode (str s) = block type_str s
encode (bin s) = block type_bin s
encode (obj s) = block type_obj s
encode (list s) = block type_list s

-- What the format can hold: numbers of 64 bits, and payloads that leave room for the line.
abbrev pub Fits : Value → Type 0
Fits (int n) = IsU64 n
Fits (uint n) = IsU64 n
Fits (real n) = IsU64 n
Fits (str s) = length s + 9 < 2 ^ 64
Fits (bin s) = length s + 9 < 2 ^ 64
Fits (obj s) = length s + 9 < 2 ^ 64
Fits (list s) = length s + 9 < 2 ^ 64

-- The key as it is stored: 64 bytes of it at most.
abbrev pub stored : List ℕ → List ℕ
stored key = take 64 key

unfoldable pub encode_key : List ℕ → List ℕ
encode_key key = (length (stored key) + 1) ∷ (stored key ++ 0 ∷ [])

abbrev pub Field : Type 0
Field = List ℕ × Value

abbrev pub encode_field : Field → List ℕ
encode_field (key, v) = encode_key key ++ encode v

unfoldable pub encode_fields : List Field → List ℕ
encode_fields [] = []
encode_fields (f ∷ fs) = encode_field f ++ encode_fields fs

-- The size that the code reads off a value's first bytes is the value's size.
pub sizeof_line-encode :
    (v : Value) (rest : List ℕ) → Fits v → sizeof_line (encode v ++ rest) ≡ ok (length (encode v))
unfolding sizeof_line encode n2b
sizeof_line-encode (int n) rest h = refl
sizeof_line-encode (uint n) rest h = refl
sizeof_line-encode (real n) rest h = refl
sizeof_line-encode (str s) rest h = ap ok (omega (arith))
sizeof_line-encode (bin s) rest h = ap ok (omega (arith))
sizeof_line-encode (obj s) rest h = ap ok (omega (arith))
sizeof_line-encode (list s) rest h = ap ok (omega (arith))

-- A value takes nine bytes at least.
pub encode_nonempty : (v : Value) → 9 ≤ length (encode v)
unfolding encode n2b
encode_nonempty (int n) = omega arith
encode_nonempty (uint n) = omega arith
encode_nonempty (real n) = omega arith
encode_nonempty (str s) = omega arith
encode_nonempty (bin s) = omega arith
encode_nonempty (obj s) = omega arith
encode_nonempty (list s) = omega arith
