-- ===== src/Line/Number.antt =====
-- src/xnet/xline.h: numbers as the bytes of a line.
use wenas.Base.{
  ℕ, ◌↔◌, sym, ◌∙◌, ◌+◌, ◌*◌, ◌/◌, ◌%◌, ◌^◌, ◌≡◌, refl, ap, List, ◌∷◌, ◌++◌, ok, IsU64, IsByte, All,
  length, arith,
}
use wenas.Line.{Endian, little, big, low_bytes, n2b, b2n}

-- Both branches of the build write the same nine bytes.
pub n2b-endian : (e : Endian) (n t : ℕ) → n2b e n t ≡ t ∷ low_bytes 8 n
unfolding n2b
n2b-endian little n t = refl
n2b-endian big n t = refl

pub length-n2b : (n t : ℕ) → length (n2b little n t) ≡ 9
unfolding n2b
length-n2b n t = refl

-- A number below 2 ^ 64 that a little-endian host writes into a line is read back, whatever
-- follows the line; every byte but the type is below 256, and there are nine.
pub b2n-n2b :
    (n t : ℕ) (rest : List ℕ)
    → IsU64 n
    → (b2n little (n2b little n t ++ rest) ≡ ok n)
      × (length (n2b little n t) ≡ 9)
      × All IsByte (low_bytes 8 n)
unfolding b2n n2b
b2n-n2b n t rest h = (ap ok (omega arith), refl, omega arith)

-- The number with its eight bytes in the opposite order.
abbrev pub byte_swap : ℕ → ℕ
byte_swap n =
    n % 256 * 2 ^ 56
    + n / 2 ^ 8 % 256 * 2 ^ 48
    + n / 2 ^ 16 % 256 * 2 ^ 40
    + n / 2 ^ 24 % 256 * 2 ^ 32
    + n / 2 ^ 32 % 256 * 2 ^ 24
    + n / 2 ^ 40 % 256 * 2 ^ 16
    + n / 2 ^ 48 % 256 * 2 ^ 8
    + n / 2 ^ 56

-- Whether the eight bytes of a number are the same in the opposite order.
abbrev pub IsMirrored : ℕ → Type 0
IsMirrored n =
    (n % 256 ≡ n / 2 ^ 56)
    × (n / 2 ^ 8 % 256 ≡ n / 2 ^ 48 % 256)
    × (n / 2 ^ 16 % 256 ≡ n / 2 ^ 40 % 256)
    × (n / 2 ^ 24 % 256 ≡ n / 2 ^ 32 % 256)

mirrored : (n : ℕ) → IsU64 n → IsMirrored n → byte_swap n ≡ n
mirrored n h m = omega (arith, m)

swap-IsMirrored : (n : ℕ) → IsU64 n → byte_swap n ≡ n → IsMirrored n
swap-IsMirrored n h e = omega (arith, e)

-- A big-endian host reads the bytes of a number below 2 ^ 64 in the opposite order to the one in
-- which it wrote them. It reads the number back exactly when these are the same in both orders.
pub b2n-n2b_big :
    (n t : ℕ) (rest : List ℕ)
    → IsU64 n
    → (b2n big (n2b big n t ++ rest) ≡ ok (byte_swap n))
      × ((b2n big (n2b big n t ++ rest) ≡ ok n) ↔ IsMirrored n)
unfolding b2n n2b
b2n-n2b_big n t rest h =
    let swapped : b2n big (n2b big n t ++ rest) ≡ ok (byte_swap n) = ap ok (omega arith) in
    (
      swapped,
      (λ e. swap-IsMirrored n h (ok_is (sym swapped ∙ e)), λ m. swapped ∙ ap ok (mirrored n h m)),
    )
  where
    ok_is : {a b : ℕ} → ok a ≡ ok b → a ≡ b
    ok_is e = cc
